-- ===== src/Syscalls/Console.antt =====
-- putchar and printf of riscv-tests/benchmarks/common/syscalls.c, and that no output is lost.
use mathlib.Core.List.{append_assoc, append-nil}
use native.Mathlib.Nat.{suc-add}
use rsicv_uvm_test.Base.{
  ℕ, zero, suc, ◌+◌, ◌<◌, ◌≡◌, refl, sym, ap, ◌∙◌, arith, ◌==◌, Bool-cases, inl, inr, ◌||◌,
  if◌then◌else◌, Option, some, List, [], ◌∷◌, ◌++◌, length, length-set, set, store, store_of_lt,
  take, map, u8, ◌>>=◌, Returns, returns, Returns-then, Returns-weaken,
}
use rsicv_uvm_test.Syscalls.Format.{Arg, vprintfmt}

-- The output buffer of a thread, and the bytes that it has handed to `write`.
pub record Console : Type 0 where
  pub buf : List ℕ
  pub buflen : ℕ
  pub written : List ℕ

unfoldable pub putchar : (ch : ℕ) → Console → Option Console
putchar ch s = do
  buf ← store s.buf s.buflen (u8 ch)
  let buflen = s.buflen + 1
  some (
      if ch == b'\n' || buflen == 64
      then record { buf = buf; buflen = 0; written = s.written ++ take buflen buf }
      else record { buf = buf; buflen = buflen; written = s.written })

abbrev pub put_text : (text : List ℕ) → Console → Option Console
put_text [] s = some s
put_text (ch ∷ text) s = do next ← putchar ch s; put_text text next

unfoldable pub printf : (fmt : List ℕ) → List Arg → Console → Option Console
unfolding putchar
printf fmt args s = do out ← vprintfmt (length fmt) fmt args; put_text out s

pub record IsConsole (s : Console) : Type 0 where
  pub size : length s.buf ≡ 64
  pub room : s.buflen < 64

-- What a thread has put out so far.
abbrev pub output : Console → List ℕ
output s = s.written ++ take s.buflen s.buf

pub record Puts (s : Console) (text : List ℕ) (s' : Console) : Type 0 where
  pub console : IsConsole s'
  pub grown : output s' ≡ output s ++ map u8 text

take-set :
    (buf : List ℕ) (n ch : ℕ)
    → n < length buf
    → take (n + 1) (set buf n ch) ≡ take n buf ++ (ch ∷ [])
take-set [] n ch h = absurd (omega arith)
take-set (b ∷ buf) zero ch h = refl
take-set (b ∷ buf) (suc n) ch h = rw suc-add (ap (◌∷◌ b) (take-set buf n ch (omega arith)))

putchar-Puts : (ch : ℕ) (s : Console) → IsConsole s → Returns (Puts s (ch ∷ [])) (putchar ch s)
unfolding putchar
putchar-Puts ch s i =
    let kept = length-set s.buf s.buflen (u8 ch) in
    let more : output s ++ (u8 ch ∷ [])
        ≡ s.written ++ take (s.buflen + 1) (set s.buf s.buflen (u8 ch)) =
      append_assoc s.written (take s.buflen s.buf) (u8 ch ∷ [])
      ∙ ap (λ t. s.written ++ t)
          (sym (take-set s.buf s.buflen (u8 ch) (omega (arith, i.size, i.room)))) in
    rw (store_of_lt s.buf s.buflen (u8 ch) (omega (arith, i.size, i.room)))
      (elim (Bool-cases (ch == b'\n' || s.buflen + 1 == 64)) [
        | inl flush ↦ rw flush (
            returns _ (record {
              console = record { size = kept ∙ i.size; room = omega arith };
              grown = append-nil _ ∙ sym more;
            }))
        | inr keep ↦ rw keep (
            returns _ (record {
              console = record { size = kept ∙ i.size; room = ground (arith, keep, i.room) };
              grown = sym more;
            }))
      ])

pub put_text-Puts :
    (text : List ℕ) (s : Console) → IsConsole s → Returns (Puts s text) (put_text text s)
put_text-Puts [] s i = returns s (record { console = i; grown = sym (append-nil (output s)) })
put_text-Puts (ch ∷ text) s i = Returns-then (put_text text) (putchar-Puts ch s i) (λ next p.
    Returns-weaken
      (λ last q. record {
        console = q.console;
        grown =
            q.grown
            ∙ ap (λ t. t ++ map u8 text) p.grown
            ∙ append_assoc (output s) (u8 ch ∷ []) (map u8 text);
      })
      (put_text-Puts text next p.console))
