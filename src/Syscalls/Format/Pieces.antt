-- ===== src/Syscalls/Format/Pieces.antt =====
-- vprintfmt on a sequence of pieces.
use mathlib.Core.List.{append-nil}
use rsicv_uvm_test.Base.{
  ℕ, zero, suc, ◌+◌, ◌-◌, ◌^◌, ◌≤◌, ◌<◌, ◌≡◌, ◌≢◌, refl, ap, arith, ==_of_ne, true, some, Returns,
  returns, Returns-then, List, [], ◌∷◌, ◌++◌, length, All, u32,
}
use rsicv_uvm_test.Syscalls.Format.{
  Arg, number, start, is_negative, convert, switch, escape, format_item, vprintfmt, put_text,
  format_string,
}
use rsicv_uvm_test.Syscalls.Format.Grammar.{
  Piece, plain, percent, character, string, numeric, spelled, zero_flag, IsPiece, plain_shows,
  percent_shows, character_shows, string_shows, ShowsAll, no_piece, one_more, format_of, format_all,
  args_of, args_all,
}
use rsicv_uvm_test.Syscalls.Format.Escape.{Converts, escape-done, escape-flag, tail_of}

put_text_lem :
    (content behind : List ℕ) (width : ℕ)
    → All (λ c. c ≢ 0) content
    → 2 ^ 31 + length content ≤ width
    → width < 2 ^ 32
    → put_text (content ++ (0 ∷ behind)) (2 ^ 32 - 1) width
      ≡ some (record { out = content; width = width - length content })
put_text_lem [] behind width h low high = let all : width - 0 ≡ width = omega arith in rw all refl
put_text_lem (c ∷ content) behind width h low high =
    let one_less : u32 (width + (2 ^ 32 - 1)) ≡ width - 1 = omega arith in
    let count : width - 1 - length content ≡ width - suc (length content) = omega arith in
    rw
      (
        one_less,
        ==_of_ne c 0 h.0,
        put_text_lem content behind (width - 1) h.1 (omega arith) (omega arith),
        count,
      )
      refl

format_string-plain :
    (content behind : List ℕ)
    → All (λ c. c ≢ 0) content
    → length content < 2 ^ 31
    → format_string (content ++ (0 ∷ behind)) start ≡ some content
unfolding format_string
format_string-plain content behind h lt =
    let negative : is_negative (2 ^ 32 - 1 - length content) ≡ true = ground (arith, lt) in
    rw (put_text_lem content behind (2 ^ 32 - 1) h (omega arith) (omega arith), negative)
      (ap some (append-nil content))

format_item-Returns :
    (p : Piece) (pieces : List Piece) (c fuel : ℕ) (tail rest : List ℕ) (given args : List Arg)
    → c ≢ 0
    → Converts p rest args (format_item c tail given)
    → Returns (ShowsAll pieces) (vprintfmt fuel rest args)
    → Returns (ShowsAll (p ∷ pieces)) (vprintfmt (suc fuel) (c ∷ tail) given)
unfolding vprintfmt
format_item-Returns p pieces c fuel tail rest given args ne here behind =
    rw (==_of_ne c 0 ne, here.returned)
      (Returns-then (λ shown. some (here.shown ++ shown)) behind
        (λ shown shows.
          returns (here.shown ++ shown) (one_more p pieces here.shown shown here.shows shows)))

piece-Returns :
    (p : Piece) (pieces : List Piece) (fuel : ℕ) (rest : List ℕ) (args : List Arg)
    → IsPiece p
    → Returns (ShowsAll pieces) (vprintfmt fuel rest args)
    → Returns (ShowsAll (p ∷ pieces)) (vprintfmt (suc fuel) (format_of p rest) (args_of p args))
unfolding format_item escape switch convert IsPiece
piece-Returns (plain c) pieces fuel rest args h behind =
    format_item-Returns (plain c) pieces c fuel rest rest args args h.0
      (rw (format_item, ==_of_ne c b'%' h.1)
        (record { shown = c ∷ []; returned = refl; shows = plain_shows c }))
      behind
piece-Returns percent pieces fuel rest args h behind =
    format_item-Returns percent pieces b'%' fuel (b'%' ∷ rest) rest args args (omega arith)
      (record { shown = b'%' ∷ []; returned = refl; shows = percent_shows }) behind
piece-Returns (character register) pieces fuel rest args h behind =
    format_item-Returns (character register) pieces b'%' fuel (b'c' ∷ rest) rest
      (number register ∷ args) args (omega arith)
      (record { shown = u32 register ∷ []; returned = refl; shows = character_shows register })
      behind
piece-Returns (string content more) pieces fuel rest args h behind =
    format_item-Returns (string content more) pieces b'%' fuel (b's' ∷ rest) rest
      (args_of (string content more) args) args (omega arith)
      (escape-done (string content more) (length rest) (b's' ∷ rest) b's' rest start
        (args_of (string content more) args) args (format_string (content ++ (0 ∷ more)) start) refl
        (record {
          shown = content;
          returned = format_string-plain content more h.0 h.1;
          shows = string_shows content more;
        }))
      behind
piece-Returns (numeric kind zeros width longs register) pieces fuel rest args h behind =
    format_item-Returns (numeric kind zeros width longs register) pieces b'%' fuel
      (zero_flag zeros ++ (spelled width ++ tail_of kind longs rest)) rest (number register ∷ args)
      args (omega arith)
      (escape-flag kind zeros width longs register
        (length (zero_flag zeros ++ (spelled width ++ tail_of kind longs rest)))
        (zero_flag zeros ++ (spelled width ++ tail_of kind longs rest)) rest args (omega arith) h.0
        h.1)
      behind

vprintfmt_end :
    (fuel : ℕ) (behind : List ℕ) (args : List Arg)
    → 1 ≤ fuel
    → vprintfmt fuel (0 ∷ behind) args ≡ some []
unfolding vprintfmt
vprintfmt_end zero behind args h = absurd (omega arith)
vprintfmt_end (suc fuel) behind args h = refl

-- On a format made of pieces that ends with a 0, and with their arguments and any behind them, vprintfmt
-- returns, given at least one unit of fuel for each piece and one more. It puts out the texts that the
-- pieces stand for, one behind the other.
pub vprintfmt-ShowsAll :
    (pieces : List Piece) (fuel : ℕ) (behind : List ℕ) (args : List Arg)
    → length pieces < fuel
    → All IsPiece pieces
    → Returns
        (ShowsAll pieces)
        (vprintfmt fuel (format_all pieces (0 ∷ behind)) (args_all pieces args))
vprintfmt-ShowsAll [] fuel behind args h k =
    rw (vprintfmt_end fuel behind args (omega arith)) (returns [] no_piece)
vprintfmt-ShowsAll (p ∷ pieces) zero behind args h k = absurd (omega arith)
vprintfmt-ShowsAll (p ∷ pieces) (suc fuel) behind args h k =
    piece-Returns p pieces fuel (format_all pieces (0 ∷ behind)) (args_all pieces args) k.0
      (vprintfmt-ShowsAll pieces fuel behind args (omega arith) k.1)
