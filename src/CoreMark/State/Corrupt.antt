-- ===== src/CoreMark/State/Corrupt.antt =====
-- The corruption loops of `core_bench_state`: which bytes a pass changes, and when the second
-- pass undoes the first, as the comment in the source says it does.
use native.Mathlib.Nat.{mod-eq_of_lt, mod-eq-sub-mod}
use rsicv_uvm_test.Base.{
  ℕ, zero, suc, ◌+◌, ◌-◌, ◌%◌, ◌≤◌, ◌<◌, ◌≡◌, ◌≢◌, ◌↔◌, refl, sym, ap, ◌∙◌, arith, inl, inr, ltb,
  ltb→lt, leb, Bool, Bool-cases, ◌==◌, ◌&&◌, true, if◌then◌else◌, Option, some, eq_of_some-eq, List,
  length, get_or, set, get_elem?-eq-get_or, get_or-set_self, get_or-set_ne, length-set, get_or_ext,
  u8, bit_xor,
}
use rsicv_uvm_test.Bits.Xor.{bit_xor_cancel, bit_xor-lt}
use rsicv_uvm_test.CoreMark.State.Bench.{corrupt_byte, corrupt_from, corrupt}

-- The pass from index `p` in steps of `step` reaches index `j`.
abbrev pub touched : (step p j : ℕ) → Bool
touched step p j = leb p j && ((j - p) % step == 0)

abbrev pub byte_at : List ℕ → ℕ → ℕ
byte_at mem j = get_or mem j 0

touched_next : (step p j : ℕ) → 0 < step → j ≢ p → touched step (p + step) j ≡ touched step p j
touched_next step p j pos ne =
    ground (arith, mod-eq_of_lt {n = j - p} {m = step}, mod-eq-sub-mod {n = j - p} {m = step})

-- The pass returned, inside the block, with the bytes that it reaches masked and no other.
pub record IsMasked (blksize seed step p : ℕ) (mem : List ℕ) (o : Option (List ℕ)) : Type 0 where
  pub out : List ℕ
  pub returned : o ≡ some out
  pub same_length : length out ≡ length mem
  pub bytes :
      (j : ℕ)
      → byte_at out j ≡ (
          if ltb j blksize && touched step p j
          then corrupt_byte seed (byte_at mem j)
          else byte_at mem j)

IsMasked-next :
    (blksize seed step p : ℕ) (mem : List ℕ) (o : Option (List ℕ))
    → 0 < step
    → p < blksize
    → blksize ≤ length mem
    → IsMasked blksize seed step (p + step) (set mem p (corrupt_byte seed (byte_at mem p))) o
    → IsMasked blksize seed step p mem o
IsMasked-next blksize seed step p mem o pos more fits r =
    let v = corrupt_byte seed (byte_at mem p) in
    record {
      out = r.out;
      returned = r.returned;
      same_length = r.same_length ∙ length-set mem p v;
      bytes = λ j. elim (Bool-cases (j == p)) [
        | inl here ↦ ground (arith, r.bytes j, get_or-set_self mem p v 0)
        | inr away ↦
            let ne : j ≢ p = ground arith in
            ground (arith, r.bytes j, touched_next step p j pos ne, get_or-set_ne mem p j v 0)
      ];
    }

corrupt_from-IsMasked :
    (fuel blksize seed step p : ℕ) (mem : List ℕ)
    → 0 < step
    → blksize ≤ length mem
    → 0 < fuel
    → blksize < fuel + p
    → IsMasked blksize seed step p mem (corrupt_from fuel blksize seed step p mem)
unfolding corrupt_from
corrupt_from-IsMasked zero blksize seed step p mem pos fits some_fuel enough = absurd (omega arith)
corrupt_from-IsMasked (suc fuel) blksize seed step p mem pos fits some_fuel enough =
    elim (Bool-cases (ltb p blksize)) [
      | inr stop ↦
          rw (corrupt_from, stop)
            (record { out = mem; returned = refl; same_length = refl; bytes = λ j. ground arith })
      | inl more ↦
          let lt : p < blksize = ltb→lt p blksize more in
          let mem' = set mem p (corrupt_byte seed (byte_at mem p)) in
          rw (corrupt_from, more, get_elem?-eq-get_or mem p 0 (omega arith))
            (IsMasked-next blksize seed step p mem _ pos lt fits (
              corrupt_from-IsMasked fuel blksize seed step (p + step) mem' pos
                (rw (length-set mem p (corrupt_byte seed (byte_at mem p))) fits) (omega arith)
                (omega arith)))
    ]

-- On a block inside the memory and with a step of at least 1, a corruption pass returns. It keeps
-- the memory's length, masks every `step`-th byte of the block by `corrupt_byte`, and changes no
-- other byte.
pub corrupt-IsMasked :
    (blksize seed step : ℕ) (mem : List ℕ)
    → 0 < step
    → blksize ≤ length mem
    → IsMasked blksize seed step 0 mem (corrupt blksize seed step mem)
unfolding corrupt
corrupt-IsMasked blksize seed step mem pos fits =
    corrupt_from-IsMasked (suc blksize) blksize seed step 0 mem pos fits (omega arith) (omega arith)

-- A byte under the mask that is not a comma, but is turned into one.
abbrev pub BecomesComma : (seed c : ℕ) → Type 0
BecomesComma seed c = (c ≢ b',') × (bit_xor c (u8 seed) ≡ b',')

corrupt_byte_twice :
    (seed c : ℕ) → c < 256 → (corrupt_byte seed (corrupt_byte seed c) ≡ c) ↔ (¬ BecomesComma seed c)
unfolding corrupt_byte
corrupt_byte_twice seed c h =
    let masked = bit_xor-lt 8 c (u8 seed) h (omega arith) in
    let back = bit_xor_cancel c (u8 seed) in
    let plain : u8 (bit_xor c (u8 seed)) ≡ bit_xor c (u8 seed) = omega arith in
    (λ e bad. ground arith, λ good. ground arith)

-- The pass with the same seed over the result of the first.
record IsUndone (blksize seed step : ℕ) (mem mid : List ℕ) : Type 0 where
  back : List ℕ
  returned : corrupt blksize seed step mid ≡ some back
  same_length : length back ≡ length mem
  bytes :
      (j : ℕ)
      → byte_at back j ≡ (
          if ltb j blksize && touched step 0 j
          then corrupt_byte seed (corrupt_byte seed (byte_at mem j))
          else byte_at mem j)

abbrev KeepsCommas : (blksize seed step : ℕ) → List ℕ → Type 0
KeepsCommas blksize seed step mem =
    (j : ℕ) → j < blksize → touched step 0 j ≡ true → ¬ BecomesComma seed (byte_at mem j)

module _ (blksize seed step : ℕ) (mem mid : List ℕ) (is_byte : (j : ℕ) → byte_at mem j < 256)
    (u : IsUndone blksize seed step mem mid) where
  undone_of_kept : KeepsCommas blksize seed step mem → corrupt blksize seed step mid ≡ some mem
  undone_of_kept good = u.returned ∙ ap some (get_or_ext 0 u.back mem u.same_length same)
    where
      same : (j : ℕ) → byte_at u.back j ≡ byte_at mem j
      same j =
          let twice = corrupt_byte_twice seed (byte_at mem j) (is_byte j) in
          elim (Bool-cases (ltb j blksize && touched step 0 j)) [
            | inr out ↦ u.bytes j ∙ rw out
            | inl hit ↦ u.bytes j ∙ rw hit (twice.1 (good j (ground arith) (ground arith)))
          ]

  kept_of_undone : corrupt blksize seed step mid ≡ some mem → KeepsCommas blksize seed step mem
  kept_of_undone e j lt hit =
      let same : u.back ≡ mem = eq_of_some-eq (sym u.returned ∙ e) in
      let reached : (ltb j blksize && touched step 0 j) ≡ true = ground arith in
      let masked : byte_at u.back j ≡ corrupt_byte seed (corrupt_byte seed (byte_at mem j)) =
        u.bytes j ∙ rw reached in
      (corrupt_byte_twice seed (byte_at mem j) (is_byte j)).0
        (sym masked ∙ ap (λ (l : List ℕ). byte_at l j) same)

-- The comment of the source says that a second pass with the same seed undoes the first. For
-- bytes, on a block inside the memory and with a step of at least 1, both passes return, and
-- the second gives the memory back exactly when no byte that the passes reach is turned into a
-- comma by the first.
pub corrupt_undo_iff :
    (blksize seed step : ℕ) (mem : List ℕ)
    → 0 < step
    → blksize ≤ length mem
    → ((j : ℕ) → byte_at mem j < 256)
    → (mid : List ℕ) × (corrupt blksize seed step mem ≡ some mid)
      × ((corrupt blksize seed step mid ≡ some mem)
          ↔ ((j : ℕ) → j < blksize → touched step 0 j ≡ true → ¬ BecomesComma seed (byte_at mem j)))
corrupt_undo_iff blksize seed step mem pos fits is_byte = (
  there.out,
  there.returned,
  (
    kept_of_undone blksize seed step mem there.out is_byte back,
    undone_of_kept blksize seed step mem there.out is_byte back,
  ),
)
  where
    there : IsMasked blksize seed step 0 mem (corrupt blksize seed step mem)
    there = corrupt-IsMasked blksize seed step mem pos fits

    again : IsMasked blksize seed step 0 there.out (corrupt blksize seed step there.out)
    again = corrupt-IsMasked blksize seed step there.out pos (rw there.same_length fits)

    back : IsUndone blksize seed step mem there.out
    back = record {
      back = again.out;
      returned = again.returned;
      same_length = again.same_length ∙ there.same_length;
      bytes = λ j. ground (arith, there.bytes j, again.bytes j);
    }
