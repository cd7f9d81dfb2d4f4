-- ===== src/CoreMark/State/Init/Layout.antt =====
-- What `core_init_state` leaves in its block.
use mathlib.Core.List.{append_assoc, append-nil}
use rsicv_uvm_test.Base.{
  ℕ, zero, suc, ◌+◌, ◌-◌, ◌^◌, ◌≤◌, ◌<◌, ◌≡◌, refl, ap, ◌∙◌, arith, inl, inr, ltb, ltb→lt,
  Bool-cases, ==_of_ne, Option, some, List, [], ◌∷◌, ◌++◌, length, drop, drop-suc, drop-drop,
  length-drop, length-append, u16, u32, ◌>>>◌, bit_and,
}
use rsicv_uvm_test.Bits.Fields.{bit_and_low_mask}
use rsicv_uvm_test.CoreMark.State.Init.{
  intpat, floatpat, scipat, errpat, choose, Filling, emit, advance, fill,
}
use rsicv_uvm_test.CoreMark.State.Init.Writes.{write_next, copy_bytes_next}

-- `n` patterns, chosen by `seed` and the seeds after it, each followed by a comma.
abbrev pub patterns : (n seed : ℕ) → List ℕ
patterns zero seed = []
patterns (suc n) seed = (choose seed).buf ++ (b',' ∷ patterns n (u16 (seed + 1)))

int_length : (i : ℕ) → i < 4 → length (intpat i) ≡ 4
unfolding intpat
int_length zero h = refl
int_length (suc zero) h = refl
int_length (suc (suc zero)) h = refl
int_length (suc (suc (suc zero))) h = refl
int_length (suc (suc (suc (suc i)))) h = absurd (omega arith)

long_length :
    (i : ℕ) → i < 4 → (length (floatpat i) ≡ 8) × (length (scipat i) ≡ 8) × (length (errpat i) ≡ 8)
unfolding floatpat scipat errpat
long_length zero h = (refl, refl, refl)
long_length (suc zero) h = (refl, refl, refl)
long_length (suc (suc zero)) h = (refl, refl, refl)
long_length (suc (suc (suc zero))) h = (refl, refl, refl)
long_length (suc (suc (suc (suc i)))) h = absurd (omega arith)

-- Every choice is a whole pattern, of four or eight bytes.
choose-length :
    (seed : ℕ)
    → ((choose seed).next ≡ length (choose seed).buf)
      × (4 ≤ (choose seed).next)
      × ((choose seed).next ≤ 8)
unfolding choose
choose-length seed =
    let i : ℕ = bit_and (seed >>> 3) 0x3 in
    let small : i < 4 = omega (arith, bit_and_low_mask 2 (seed >>> 3)) in
    ground (arith, int_length i small, long_length i small)

-- The state of the filling loop with `done` written and `buf` to be written next.
abbrev pub pending : (buf : List ℕ) (seed : ℕ) (done rest : List ℕ) → Filling
pending buf seed done rest = record {
  total = length done;
  next = length buf;
  buf = buf;
  seed = seed;
  mem = done ++ rest;
}

abbrev with_comma : List ℕ → List ℕ → List ℕ
with_comma done buf = (done ++ buf) ++ b',' ∷ []

length-with_comma :
    (done buf : List ℕ) → length (with_comma done buf) ≡ length done + (length buf + 1)
length-with_comma done buf =
    omega (arith, length-append (done ++ buf) (b',' ∷ []), length-append done buf)

emit_next :
    (buf : List ℕ) (seed : ℕ) (done rest : List ℕ)
    → 0 < length buf
    → length buf < length rest
    → length done + length rest < 2 ^ 32
    → emit (pending buf seed done rest)
      ≡ some (record (pending buf seed done rest) {
        total = length (with_comma done buf);
        mem = with_comma done buf ++ drop (suc (length buf)) rest;
      })
unfolding emit
emit_next buf seed done rest pos le small =
    let (x, split) = drop-suc (length buf) rest le in
    let total : u32 (length done + (length buf + 1)) ≡ length (with_comma done buf) =
      omega (arith, length-with_comma done buf) in
    rw
      (
        emit,
        ==_of_ne (length buf) 0 (omega arith),
        copy_bytes_next buf (length done) done rest refl (omega arith),
        split,
        ← append_assoc done buf (x ∷ drop (suc (length buf)) rest),
        write_next (length done + length buf) b',' (done ++ buf) x (drop (suc (length buf)) rest)
            (omega (arith, length-append done buf)),
        total,
      )
      refl

pub advance_next :
    (buf : List ℕ) (n seed : ℕ) (done rest : List ℕ)
    → advance (record { total = length done; next = n; buf = buf; seed = seed; mem = done ++ rest })
      ≡ pending (choose (u16 (seed + 1))).buf (u16 (seed + 1)) done rest
unfolding advance
advance_next buf n seed done rest = rw (choose-length (u16 (seed + 1))).0

-- What the filling loop leaves: `n` patterns behind `done`, up to ten bytes from the end.
pub record IsFilled (size seed : ℕ) (done rest : List ℕ) (o : Option Filling) : Type 0 where
  pub filled : Filling
  pub returned : o ≡ some filled
  pub n : ℕ
  pub total : filled.total ≡ length (done ++ patterns n seed)
  pub mem : filled.mem ≡ (done ++ patterns n seed) ++ drop (length (patterns n seed)) rest
  pub inside : filled.total < size
  pub close : size ≤ filled.total + 9

behind_comma :
    (done buf later : List ℕ) → with_comma done buf ++ later ≡ done ++ (buf ++ b',' ∷ later)
behind_comma done buf later =
    append_assoc (done ++ buf) (b',' ∷ []) later ∙ append_assoc done buf (b',' ∷ later)

IsFilled-suc :
    (size seed : ℕ) (done rest : List ℕ) (o : Option Filling)
    → (let buf = (choose seed).buf in
        IsFilled size (u16 (seed + 1)) (with_comma done buf) (drop (suc (length buf)) rest) o)
    → IsFilled size seed done rest o
IsFilled-suc size seed done rest o r =
    let buf = (choose seed).buf in
    let later = patterns r.n (u16 (seed + 1)) in
    let skipped : suc (length buf) + length later ≡ length (buf ++ b',' ∷ later) =
      omega (arith, length-append buf (b',' ∷ later)) in
    record {
      filled = r.filled;
      returned = r.returned;
      n = suc r.n;
      total = r.total ∙ ap length (behind_comma done buf later);
      mem =
          r.mem
          ∙ rw
              (
                drop-drop (suc (length buf)) (length later) rest,
                skipped,
                behind_comma done buf later,
              )
              refl;
      inside = r.inside;
      close = r.close;
    }

pub fill-IsFilled :
    (fuel size seed : ℕ) (done rest : List ℕ)
    → length done < size
    → size < length done + length rest
    → length done + length rest < 2 ^ 31
    → size < fuel + length done
    → IsFilled size seed done rest (fill fuel size (pending (choose seed).buf seed done rest))
unfolding fill
fill-IsFilled zero size seed done rest lt fits small enough = absurd (omega arith)
fill-IsFilled (suc fuel) size seed done rest lt fits small enough =
    elim (Bool-cases (ltb (u32 (length done + length (choose seed).buf + 1)) size)) [
      | inr stop ↦
          rw (fill, stop)
            (record {
              filled = pending (choose seed).buf seed done rest;
              returned = refl;
              n = 0;
              total = rw (append-nil done);
              mem = rw (append-nil done);
              inside = lt;
              close = ground (arith, choose-length seed);
            })
      | inl more ↦
          let buf = (choose seed).buf in
          let short : (4 ≤ length buf) × (length buf ≤ 8) = ground (arith, choose-length seed) in
          let room : length done + length buf + 1 < size = ground (arith, ltb→lt _ _ more) in
          let done' = with_comma done buf in
          let rest' = drop (suc (length buf)) rest in
          let grown : length done' ≡ length done + (length buf + 1) = length-with_comma done buf in
          let left : length rest' ≡ length rest - suc (length buf) =
            length-drop (suc (length buf)) rest in
          rw
            (
              fill,
              more,
              emit_next buf seed done rest (omega arith) (omega arith) (omega arith),
              advance_next buf (length buf) seed done' rest',
            )
            (IsFilled-suc size seed done rest _ (
              fill-IsFilled fuel size (u16 (seed + 1)) done' rest' (omega arith) (omega arith)
                (omega arith) (omega arith)))
    ]
