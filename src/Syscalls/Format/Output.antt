-- ===== src/Syscalls/Format/Output.antt =====
-- printf and sprintf on formats made of pieces.
use rsicv_uvm_test.Base.{
  ℕ, suc, ◌≤◌, ◌<◌, ◌≡◌, refl, arith, leb, Bool-cases, inl, inr, Option, none, some, List, [], ◌∷◌,
  ◌++◌, length, length-append, map, drop, replicate, All, u8, u32, ◌>>=◌, Returns, returns,
  Returns-then, Returns-weaken,
}
use rsicv_uvm_test.Syscalls.Console.{Console, IsConsole, Puts, put_text-Puts, put_text, printf}
use rsicv_uvm_test.Syscalls.Format.{Arg, Printed, put_all, sprintf, vprintfmt}
use rsicv_uvm_test.Syscalls.Format.Grammar.{
  Piece, plain, percent, character, string, numeric, IsPiece, ShowsAll, format_of, format_all,
  args_all, letter, spelled, zero_flag,
}
use rsicv_uvm_test.Syscalls.Format.Pieces.{vprintfmt-ShowsAll}

format_of_longer : (p : Piece) (behind : List ℕ) → length behind < length (format_of p behind)
format_of_longer (plain c) behind = omega arith
format_of_longer percent behind = omega arith
format_of_longer (character register) behind = omega arith
format_of_longer (string content more) behind = omega arith
format_of_longer (numeric kind zeros width longs register) behind =
    let inner = letter kind ∷ behind in
    omega (
      arith,
      length-append (replicate longs b'l') inner,
      length-append (spelled width) (replicate longs b'l' ++ inner),
      length-append (zero_flag zeros) (spelled width ++ (replicate longs b'l' ++ inner)),
    )

format_all_longer :
    (pieces : List Piece) (behind : List ℕ)
    → length pieces < length (format_all pieces (0 ∷ behind))
format_all_longer [] behind = omega arith
format_all_longer (p ∷ pieces) behind =
    omega
      (arith, format_of_longer p (format_all pieces (0 ∷ behind)), format_all_longer pieces behind)

shown_by :
    (pieces : List Piece) (behind : List ℕ) (args : List Arg)
    → All IsPiece pieces
    → Returns (ShowsAll pieces) (
        vprintfmt
          (length (format_all pieces (0 ∷ behind)))
          (format_all pieces (0 ∷ behind))
          (args_all pieces args))
shown_by pieces behind args h =
    vprintfmt-ShowsAll pieces (length (format_all pieces (0 ∷ behind))) behind args
      (format_all_longer pieces behind) h

pub data Prints (pieces : List Piece) (s s' : Console) : Type 0 where
  prints : (text : List ℕ) → ShowsAll pieces text → Puts s text s' → Prints pieces s s'

-- For a format made of pieces that ends with a 0, with their arguments and any behind them, and an output
-- buffer of 64 bytes that is not full, printf returns. The bytes handed to `write` and those pending in
-- the buffer are then the earlier ones and the texts that the pieces stand for, in order, and the
-- buffer is not full.
pub printf-Prints :
    (pieces : List Piece) (behind : List ℕ) (args : List Arg) (s : Console)
    → All IsPiece pieces
    → IsConsole s
    → Returns (Prints pieces s) (printf (format_all pieces (0 ∷ behind)) (args_all pieces args) s)
unfolding printf
printf-Prints pieces behind args s h i =
    Returns-then (λ text. put_text text s) (shown_by pieces behind args h)
      (λ text shows. Returns-weaken (λ s' p. prints text shows p) (put_text-Puts text s i))

pub data Writes (pieces : List Piece) (str : List ℕ) : Option Printed → Type 0 where
  writes :
      (text : List ℕ)
      → ShowsAll pieces text
      → length text < length str
      → Writes pieces str (
          some (record {
            str = map u8 text ++ (0 ∷ drop (suc (length text)) str);
            result = u32 (length text);
          }))
  no_room :
      (text : List ℕ) → ShowsAll pieces text → length str ≤ length text → Writes pieces str none

put_all_fits :
    (text str : List ℕ)
    → length text < length str
    → put_all text str ≡ some (map u8 text ++ (0 ∷ drop (suc (length text)) str))
put_all_fits [] [] h = absurd (omega arith)
put_all_fits [] (o ∷ str) h = refl
put_all_fits (ch ∷ text) [] h = absurd (omega arith)
put_all_fits (ch ∷ text) (o ∷ str) h = rw (put_all_fits text str (omega arith)) refl

put_all_fails : (text str : List ℕ) → length str ≤ length text → put_all text str ≡ none
put_all_fails [] [] h = refl
put_all_fails [] (o ∷ str) h = absurd (omega arith)
put_all_fails (ch ∷ text) [] h = refl
put_all_fails (ch ∷ text) (o ∷ str) h = rw (put_all_fails text str (omega arith)) refl

-- For a format made of pieces that ends with a 0, with their arguments and any behind them, sprintf writes
-- the texts that the pieces stand for, one behind the other and each character as a byte, and a 0. It
-- changes nothing behind that, and gives the number of characters before the 0 as an `int`. It leaves the block
-- exactly if the block has no room for them and the 0.
pub sprintf-Writes :
    (pieces : List Piece) (behind str : List ℕ) (args : List Arg)
    → All IsPiece pieces
    → Writes pieces str (sprintf str (format_all pieces (0 ∷ behind)) (args_all pieces args))
unfolding sprintf
sprintf-Writes pieces behind str args h = go (shown_by pieces behind args h)
  where
    finishes : (out : Option (List ℕ)) → Type 0
    finishes out = Writes pieces str (do
      text ← out
      written ← put_all text str
      some (record { str = written; result = u32 (length text) }))

    go : {out : Option (List ℕ)} → Returns (ShowsAll pieces) out → finishes out
    go (returns text shows) = elim (Bool-cases (leb (length str) (length text))) [
      | inl full ↦
          let no_more : length str ≤ length text = ground (arith, full) in
          rw (put_all_fails text str no_more) (no_room text shows no_more)
      | inr room ↦
          let more : length text < length str = ground (arith, room) in
          rw (put_all_fits text str more) (writes text shows more)
    ]
