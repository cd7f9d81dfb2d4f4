-- ===== src/Syscalls/Format.antt =====
-- vprintfmt, its helpers getuint and getint, sprintf, printf and putchar of
-- riscv-tests/benchmarks/common/syscalls.c. An `int` is its 32-bit pattern, a character given to
-- `putch` too; each variable argument fills one register, and a `char*` there is the text that it
-- points to or null. A text has no address here, so that to put it out as a number, by `%p` too, gives
-- none.

pub mod Grammar
pub mod Number
pub mod Escape
pub mod Pieces
pub mod Output
use rsicv_uvm_test.Base.{
  ℕ, zero, suc, ◌+◌, ◌-◌, ◌*◌, ◌/◌, ◌%◌, ◌^◌, ltb, leb, ◌==◌, if◌then◌else◌, Bool, true, false, not,
  ◌&&◌, ◌||◌, Option, none, some, List, [], ◌∷◌, ◌++◌, length, replicate, ◌>>=◌, u8, u32, codes,
}
use rsicv_uvm_test.Syscalls.{u64, printnum}
use rsicv_uvm_test.Syscalls.Strings.{strnlen}

pub data Arg : Type 0 where
  number : (register : ℕ) → Arg
  text : (pointer : Option (List ℕ)) → Arg

-- The variables that a conversion starts with.
pub record Spec : Type 0 where
  pub padc : ℕ
  pub width : ℕ
  pub precision : ℕ
  pub lflag : ℕ
  pub altflag : ℕ

abbrev pub start : Spec
start = record { padc = b' '; width = 2 ^ 32 - 1; precision = 2 ^ 32 - 1; lflag = 0; altflag = 0 }

abbrev pub is_negative : ℕ → Bool
is_negative x = leb (2 ^ 31) x

-- The rounds of `for (; width > 0; width--)`.
abbrev pub positive : ℕ → ℕ
positive width = if is_negative width then 0 else width

-- What a conversion leaves: the format behind it, the arguments behind its own, and its output.
pub record Formatted : Type 0 where
  pub fmt : List ℕ
  pub args : List Arg
  pub out : List ℕ

-- Either `goto reswitch`, or the end of the switch.
pub data Next : Type 0 where
  reswitch : (fmt : List ℕ) → Spec → (args : List Arg) → Next
  finish : Formatted → Next

abbrev pub getuint : (register lflag : ℕ) → ℕ
getuint register lflag = if leb 1 lflag then u64 register else u32 register

abbrev pub getint : (register lflag : ℕ) → ℕ
getint register lflag =
    if leb 1 lflag
    then u64 register
    else if is_negative (u32 register)
    then u32 register + (2 ^ 64 - 2 ^ 32)
    else u32 register

pub record Field : Type 0 where
  pub precision : ℕ
  pub fmt : List ℕ

-- The loop over the digits of a field's width.
abbrev pub width_field : (precision ch : ℕ) → (fmt : List ℕ) → Option Field
width_field precision ch [] = none
width_field precision ch (c ∷ fmt) =
    let precision' = u32 (precision * 10 + ch + (2 ^ 32 - b'0')) in
    let rest = width_field precision' c fmt in
    if ltb c b'0' || ltb b'9' c
    then some (record { precision = precision'; fmt = c ∷ fmt })
    else rest

abbrev pub process_precision : (precision : ℕ) → Spec → Spec
process_precision precision s =
    if is_negative s.width
    then record s { width = precision; precision = 2 ^ 32 - 1 }
    else record s { precision = precision }

-- `for (; (ch = *p) != '\0' && (precision < 0 || --precision >= 0); width--) putch(ch)`: the output
-- and the width behind it.
pub record Put : Type 0 where
  pub out : List ℕ
  pub width : ℕ

abbrev pub put_text : (p : List ℕ) → (precision width : ℕ) → Option Put
put_text [] precision width = none
put_text (ch ∷ p) precision width =
    let unlimited = is_negative precision in
    let precision' = if unlimited then precision else u32 (precision + (2 ^ 32 - 1)) in
    let rest = put_text p precision' (u32 (width + (2 ^ 32 - 1))) in
    if not (ch == 0) && (unlimited || not (is_negative precision'))
    then (do put ← rest; some (record put { out = ch ∷ put.out }))
    else some (record { out = []; width = width })

-- `(size_t)precision`.
abbrev pub to_size : ℕ → ℕ
to_size precision = if is_negative precision then precision + (2 ^ 64 - 2 ^ 32) else precision

unfoldable pub format_string : (p : List ℕ) → Spec → Option (List ℕ)
format_string p s = do
  let pads = ltb 0 (positive s.width) && not (s.padc == b'-')
  used ← if pads then strnlen p (to_size s.precision) else some 0
  let width = if pads then u32 (s.width + (2 ^ 64 - used)) else s.width
  let width_left = if pads && ltb 0 (positive width) then 0 else width
  put ← put_text p s.precision width_left
  some (
      (if pads then replicate (positive width) s.padc else [])
      ++ (put.out ++ replicate (positive put.width) b' '))

-- `p` with its default.
abbrev pub or_null : Option (List ℕ) → List ℕ
or_null none = codes "(null)" ++ (0 ∷ [])
or_null (some p) = p

unfoldable pub unsigned_number : (register base : ℕ) → Spec → Option (List ℕ)
unsigned_number register base s = printnum (getuint register s.lflag) base (positive s.width) s.padc

unfoldable pub signed_number : (register : ℕ) → Spec → Option (List ℕ)
signed_number register s = do
  let num = getint register s.lflag
  if leb (2 ^ 63) num
      then (do
        digits ← printnum (u64 (2 ^ 64 - num)) 10 (positive s.width) s.padc
        some (b'-' ∷ digits))
      else printnum num 10 (positive s.width) s.padc

abbrev pub done : (fmt : List ℕ) → (args : List Arg) → Option (List ℕ) → Option Next
done fmt args none = none
done fmt args (some out) = some (finish (record { fmt = fmt; args = args; out = out }))

-- The conversions that take an argument.
unfoldable pub convert : (ch : ℕ) → (fmt : List ℕ) → Spec → List Arg → Option Next
unfolding format_string unsigned_number signed_number
convert ch fmt s [] = none
convert ch fmt s (text pointer ∷ args) =
    if ch == b's' then done fmt args (format_string (or_null pointer) s) else none
convert ch fmt s (number register ∷ args) =
    if ch == b'*'
    then some (reswitch fmt (process_precision (u32 register) s) args)
    else if ch == b'c'
    then done fmt args (some (u32 register ∷ []))
    else if ch == b'd'
    then done fmt args (signed_number register s)
    else if ch == b'u'
    then done fmt args (unsigned_number register 10 s)
    else if ch == b'o'
    then done fmt args (unsigned_number register 8 s)
    else if ch == b'x'
    then done fmt args (unsigned_number register 16 s)
    else if ch == b'p'
    then done fmt args (do
      digits ← unsigned_number register 16 (record s { lflag = 1 })
      some (b'0' ∷ (b'x' ∷ digits)))
    else none

abbrev pub takes_argument : ℕ → Bool
takes_argument ch =
    ch == b's'
    || ch == b'*'
    || ch == b'c'
    || ch == b'd'
    || ch == b'u'
    || ch == b'o'
    || ch == b'x'
    || ch == b'p'

-- The switch on one character of an escape sequence.
unfoldable pub switch :
    (last_fmt : List ℕ) → (ch : ℕ) → (fmt : List ℕ) → Spec → List Arg → Option Next
unfolding convert
switch last_fmt ch fmt s args =
    if ch == b'-'
    then some (reswitch fmt (record s { padc = b'-' }) args)
    else if ch == b'0'
    then some (reswitch fmt (record s { padc = b'0' }) args)
    else if leb b'1' ch && leb ch b'9'
    then (do
      field ← width_field 0 ch fmt
      some (reswitch field.fmt (process_precision field.precision s) args))
    else if ch == b'.'
    then some (reswitch fmt (if is_negative s.width then record s { width = 0 } else s) args)
    else if ch == b'#'
    then some (reswitch fmt (record s { altflag = 1 }) args)
    else if ch == b'l'
    then some (reswitch fmt (record s { lflag = u32 (s.lflag + 1) }) args)
    else if takes_argument ch
    then convert ch fmt s args
    else if ch == b'%'
    then done fmt args (some (ch ∷ []))
    else done last_fmt args (some (b'%' ∷ []))

-- An escape sequence, from `reswitch` on.
unfoldable pub escape : (fuel : ℕ) → (last_fmt fmt : List ℕ) → Spec → List Arg → Option Formatted
unfolding switch
escape zero last_fmt fmt s args = none
escape (suc fuel) last_fmt [] s args = none
escape (suc fuel) last_fmt (ch ∷ fmt) s args = elim (switch last_fmt ch fmt s args) [
  | none ↦ none
  | some (reswitch fmt' s' args') ↦ escape fuel last_fmt fmt' s' args'
  | some (finish f) ↦ some f
]

-- A character of the text, or an escape sequence.
unfoldable pub format_item : (ch : ℕ) → (fmt : List ℕ) → List Arg → Option Formatted
unfolding escape
format_item ch fmt args =
    if ch == b'%'
    then escape (length fmt) fmt fmt start args
    else some (record { fmt = fmt; args = args; out = ch ∷ [] })

unfoldable pub vprintfmt : (fuel : ℕ) → (fmt : List ℕ) → List Arg → Option (List ℕ)
unfolding format_item
vprintfmt zero fmt args = none
vprintfmt (suc fuel) [] args = none
vprintfmt (suc fuel) (ch ∷ fmt) args =
    let rest = (do
      f ← format_item ch fmt args
      behind ← vprintfmt fuel f.fmt f.args
      some (f.out ++ behind)) in
    if ch == 0 then some [] else rest

-- What sprintf leaves: the block from `str` on, and its result.
pub record Printed : Type 0 where
  pub str : List ℕ
  pub result : ℕ

-- `sprintf_putch` for each character, and the 0 behind them.
abbrev pub put_all : (out str : List ℕ) → Option (List ℕ)
put_all out [] = none
put_all [] (_ ∷ str) = some (0 ∷ str)
put_all (ch ∷ out) (_ ∷ str) = do behind ← put_all out str; some (u8 ch ∷ behind)

unfoldable pub sprintf : (str fmt : List ℕ) → List Arg → Option Printed
unfolding vprintfmt
sprintf str fmt args = do
  out ← vprintfmt (length fmt) fmt args
  written ← put_all out str
  some (record { str = written; result = u32 (length out) })
