-- ===== src/Syscalls/Format/Grammar.antt =====
-- Formats as sequences of pieces, and the text that each piece stands for, apart from the way vprintfmt
-- reads them. A number's piece is `%`, then perhaps a 0, a width, and up to two `l`, and its letter.
use rsicv_uvm_test.Base.{
  ℕ, ◌+◌, ◌-◌, ◌*◌, ◌%◌, ◌^◌, ◌≤◌, ◌<◌, ◌≢◌, Bool, if◌then◌else◌, some, List, [], ◌∷◌, ◌++◌, map,
  length, replicate, All, u32, leb,
}
use rsicv_uvm_test.Syscalls.Print.{IsPrinted}
use rsicv_uvm_test.Syscalls.Format.{Arg, number, text}

pub data Kind : Type 0 where
  decimal unsigned octal hexadecimal : Kind

pub data Piece : Type 0 where
  plain : (c : ℕ) → Piece
  percent : Piece
  character : (register : ℕ) → Piece
  string : (content behind : List ℕ) → Piece
  numeric : (kind : Kind) → (zeros : Bool) → (width : List ℕ) → (longs register : ℕ) → Piece

abbrev pub letter : Kind → ℕ
letter decimal = b'd'
letter unsigned = b'u'
letter octal = b'o'
letter hexadecimal = b'x'

abbrev pub zero_flag : Bool → List ℕ
zero_flag zeros = if zeros then b'0' ∷ [] else []

-- The value of a width, whose digits stand from the highest down.
abbrev pub read_from : (value : ℕ) → List ℕ → ℕ
read_from value [] = value
read_from value (d ∷ digits) = read_from (value * 10 + d) digits

abbrev pub spelled : List ℕ → List ℕ
spelled = map (λ d. d + b'0')

abbrev pub format_of : Piece → (behind : List ℕ) → List ℕ
format_of (plain c) behind = c ∷ behind
format_of percent behind = b'%' ∷ (b'%' ∷ behind)
format_of (character register) behind = b'%' ∷ (b'c' ∷ behind)
format_of (string content _) behind = b'%' ∷ (b's' ∷ behind)
format_of (numeric kind zeros width longs register) behind =
    b'%' ∷ (zero_flag zeros ++ (spelled width ++ (replicate longs b'l' ++ (letter kind ∷ behind))))

abbrev pub args_of : Piece → (behind : List Arg) → List Arg
args_of (plain c) behind = behind
args_of percent behind = behind
args_of (character register) behind = number register ∷ behind
args_of (string content more) behind = text (some (content ++ (0 ∷ more))) ∷ behind
args_of (numeric kind zeros width longs register) behind = number register ∷ behind

-- Widths are numbers from 1 on that an `int` can hold, without a leading 0; none is a width of 0.
abbrev pub IsWidth : List ℕ → Type 0
IsWidth [] = Unit
IsWidth (d ∷ digits) =
    (1 ≤ d) × ((d < 10) × (All (λ e. e < 10) digits × (read_from 0 (d ∷ digits) < 2 ^ 31)))

unfoldable pub IsPiece : Piece → Type 0
IsPiece (plain c) = (c ≢ 0) × (c ≢ b'%')
IsPiece percent = Unit
IsPiece (character register) = Unit
IsPiece (string content behind) = All (λ c. c ≢ 0) content × (length content < 2 ^ 31)
IsPiece (numeric kind zeros width longs register) = (longs ≤ 2) × IsWidth width

abbrev pub base_of : Kind → ℕ
base_of decimal = 10
base_of unsigned = 10
base_of octal = 8
base_of hexadecimal = 16

-- The bits that an argument of the length has.
abbrev pub bits_of : (longs : ℕ) → ℕ
bits_of longs = if leb 1 longs then 64 else 32

abbrev pub pad_of : Bool → ℕ
pad_of zeros = if zeros then b'0' else b' '

-- An argument whose value is not negative.
abbrev pub IsNatural : Kind → (longs register : ℕ) → Type 0
IsNatural decimal longs register = register % 2 ^ bits_of longs < 2 ^ (bits_of longs - 1)
IsNatural unsigned longs register = Unit
IsNatural octal longs register = Unit
IsNatural hexadecimal longs register = Unit

pub data Shows : Piece → List ℕ → Type 0 where
  plain_shows : (c : ℕ) → Shows (plain c) (c ∷ [])
  percent_shows : Shows percent (b'%' ∷ [])
  character_shows : (register : ℕ) → Shows (character register) (u32 register ∷ [])
  string_shows : (content behind : List ℕ) → Shows (string content behind) content
  natural_shows :
      (kind : Kind) (zeros : Bool) (width : List ℕ) (longs register : ℕ) (shown : List ℕ)
      → IsNatural kind longs register
      → IsPrinted
          (register % 2 ^ bits_of longs)
          (base_of kind)
          (read_from 0 width)
          (pad_of zeros)
          (some shown)
      → Shows (numeric kind zeros width longs register) shown
  negative_shows :
      (zeros : Bool) (width : List ℕ) (longs register : ℕ) (shown : List ℕ)
      → 2 ^ (bits_of longs - 1) ≤ register % 2 ^ bits_of longs
      → IsPrinted
          (2 ^ bits_of longs - register % 2 ^ bits_of longs)
          10
          (read_from 0 width)
          (pad_of zeros)
          (some shown)
      → Shows (numeric decimal zeros width longs register) (b'-' ∷ shown)

pub data ShowsAll : List Piece → List ℕ → Type 0 where
  no_piece : ShowsAll [] []
  one_more :
      (p : Piece) (pieces : List Piece) (shown behind : List ℕ)
      → Shows p shown
      → ShowsAll pieces behind
      → ShowsAll (p ∷ pieces) (shown ++ behind)

abbrev pub format_all : List Piece → List ℕ → List ℕ
format_all [] behind = behind
format_all (p ∷ pieces) behind = format_of p (format_all pieces behind)

abbrev pub args_all : List Piece → List Arg → List Arg
args_all [] behind = behind
args_all (p ∷ pieces) behind = args_of p (args_all pieces behind)
