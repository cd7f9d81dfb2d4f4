-- ===== src/Syscalls/Format/Escape.antt =====
-- vprintfmt on the escape sequence of a number.
use rsicv_uvm_test.Base.{
  ℕ, zero, suc, ◌+◌, ◌-◌, ◌*◌, ◌^◌, ◌≤◌, ◌<◌, ◌≡◌, refl, arith, ltb, leb, ◌==◌, ◌||◌, ◌&&◌, Bool,
  true, false, Option, some, List, [], ◌∷◌, ◌++◌, length, length-append, replicate, All, u32,
}
use rsicv_uvm_test.Syscalls.Format.{
  Arg, number, Spec, start, Formatted, reswitch, done, is_negative, convert, switch, escape,
  width_field, process_precision,
}
use rsicv_uvm_test.Syscalls.Format.Grammar.{
  Kind, decimal, unsigned, octal, hexadecimal, letter, Piece, numeric, read_from, spelled,
  zero_flag, IsWidth, pad_of, Shows,
}
use rsicv_uvm_test.Syscalls.Format.Number.{
  IsReady, Gives, unsigned_number-Gives, signed_number-Gives,
}

pub record Converts (p : Piece) (fmt : List ℕ) (args : List Arg) (out : Option Formatted)
    : Type 0 where
  pub shown : List ℕ
  pub returned : out ≡ some (record { fmt = fmt; args = args; out = shown })
  pub shows : Shows p shown

-- A conversion ends the switch.
pub escape-done :
    (p : Piece) (fuel : ℕ) (last : List ℕ) (ch : ℕ) (fmt : List ℕ) (s : Spec)
    (given args : List Arg) (out : Option (List ℕ))
    → switch last ch fmt s given ≡ done fmt args out
    → Gives p out
    → Converts p fmt args (escape (suc fuel) last (ch ∷ fmt) s given)
unfolding escape
escape-done p fuel last ch fmt s given args out e g =
    rw (escape, e, g.returned) (record { shown = g.shown; returned = refl; shows = g.shows })

-- At the letter of a number.
escape-letter :
    (kind : Kind) (zeros : Bool) (width : List ℕ) (longs register fuel : ℕ) (last fmt : List ℕ)
    (args : List Arg) (s : Spec)
    → 1 ≤ fuel
    → IsReady zeros width longs s
    → Converts
        (numeric kind zeros width longs register)
        fmt
        args
        (escape fuel last (letter kind ∷ fmt) s (number register ∷ args))
unfolding switch convert
escape-letter kind zeros width longs register zero last fmt args s h i = absurd (omega arith)
escape-letter decimal zeros width longs register (suc fuel) last fmt args s h i =
    escape-done (numeric decimal zeros width longs register) fuel last b'd' fmt s _ args _ refl
      (signed_number-Gives zeros width longs register s i)
escape-letter unsigned zeros width longs register (suc fuel) last fmt args s h i =
    escape-done (numeric unsigned zeros width longs register) fuel last b'u' fmt s _ args _ refl
      (unsigned_number-Gives unsigned zeros width longs register s (omega arith) tt i)
escape-letter octal zeros width longs register (suc fuel) last fmt args s h i =
    escape-done (numeric octal zeros width longs register) fuel last b'o' fmt s _ args _ refl
      (unsigned_number-Gives octal zeros width longs register s (omega arith) tt i)
escape-letter hexadecimal zeros width longs register (suc fuel) last fmt args s h i =
    escape-done (numeric hexadecimal zeros width longs register) fuel last b'x' fmt s _ args _ refl
      (unsigned_number-Gives hexadecimal zeros width longs register s (omega arith) tt i)

-- At the `l`s before it, of which some are read.
escape-longs :
    (kind : Kind) (zeros : Bool) (width : List ℕ) (total seen longs register fuel : ℕ)
    (last fmt : List ℕ) (args : List Arg) (s : Spec)
    → length (replicate longs b'l' ++ (letter kind ∷ fmt)) ≤ fuel
    → seen + longs ≡ total
    → total ≤ 2
    → IsReady zeros width seen s
    → Converts
        (numeric kind zeros width total register)
        fmt
        args
        (escape fuel last (replicate longs b'l' ++ (letter kind ∷ fmt)) s (number register ∷ args))
unfolding escape switch
escape-longs kind zeros width total seen zero register fuel last fmt args s h e k i =
    escape-letter kind zeros width total register fuel last fmt args s (omega arith)
      (record { padding = i.padding; field = i.field; long = omega (arith, i.long, e) })
escape-longs kind zeros width total seen (suc longs) register zero last fmt args s h e k i =
    absurd (omega arith)
escape-longs kind zeros width total seen (suc longs) register (suc fuel) last fmt args s h e k i =
    escape-longs kind zeros width total (suc seen) longs register fuel last fmt args
      (record s { lflag = u32 (s.lflag + 1) }) (omega arith) (omega arith) k
      (record { padding = i.padding; field = i.field; long = omega (arith, i.long) })

read_from_le : (value : ℕ) (digits : List ℕ) → value ≤ read_from value digits
read_from_le value [] = omega arith
read_from_le value (d ∷ digits) = omega (arith, read_from_le (value * 10 + d) digits)

abbrev EndsField : ℕ → Type 0
EndsField c = (ltb c b'0' || ltb b'9' c) ≡ true

width_field_lem :
    (value d : ℕ) (digits : List ℕ) (c : ℕ) (fmt : List ℕ)
    → d < 10
    → All (λ e. e < 10) digits
    → read_from (value * 10 + d) digits < 2 ^ 31
    → EndsField c
    → width_field value (d + b'0') (spelled digits ++ (c ∷ fmt))
      ≡ some (record { precision = read_from (value * 10 + d) digits; fmt = c ∷ fmt })
width_field_lem value d [] c fmt h k lt e =
    let exact : u32 (value * 10 + (d + 48) + (2 ^ 32 - 48)) ≡ value * 10 + d = omega arith in
    rw (exact, e) refl
width_field_lem value d (d2 ∷ digits) c fmt h k lt e =
    let small = read_from_le ((value * 10 + d) * 10 + d2) digits in
    let exact : u32 (value * 10 + (d + 48) + (2 ^ 32 - 48)) ≡ value * 10 + d = omega arith in
    let goes_on : (ltb (d2 + 48) 48 || ltb 57 (d2 + 48)) ≡ false = ground (arith, k.0) in
    rw (exact, goes_on) (width_field_lem (value * 10 + d) d2 digits c fmt k.0 k.1 lt e)

-- What stands behind the width.
abbrev pub tail_of : Kind → (longs : ℕ) → List ℕ → List ℕ
tail_of kind longs fmt = replicate longs b'l' ++ (letter kind ∷ fmt)

record EndsWidth (tail : List ℕ) : Type 0 where
  head : ℕ
  behind : List ℕ
  splits : tail ≡ head ∷ behind
  ends : EndsField head

tail_of-EndsWidth : (kind : Kind) (longs : ℕ) (fmt : List ℕ) → EndsWidth (tail_of kind longs fmt)
tail_of-EndsWidth decimal zero fmt = record {
  head = b'd';
  behind = fmt;
  splits = refl;
  ends = refl;
}
tail_of-EndsWidth unsigned zero fmt = record {
  head = b'u';
  behind = fmt;
  splits = refl;
  ends = refl;
}
tail_of-EndsWidth octal zero fmt = record { head = b'o'; behind = fmt; splits = refl; ends = refl }
tail_of-EndsWidth hexadecimal zero fmt = record {
  head = b'x';
  behind = fmt;
  splits = refl;
  ends = refl;
}
tail_of-EndsWidth kind (suc longs) fmt = record {
  head = b'l';
  behind = tail_of kind longs fmt;
  splits = refl;
  ends = refl;
}

record IsFresh (zeros : Bool) (s : Spec) : Type 0 where
  padding : s.padc ≡ pad_of zeros
  field : s.width ≡ 2 ^ 32 - 1
  long : s.lflag ≡ 0

switch-digit :
    (d : ℕ) (digits : List ℕ) (c : ℕ) (last fmt : List ℕ) (s : Spec) (args : List Arg)
    → IsWidth (d ∷ digits)
    → EndsField c
    → switch last (d + b'0') (spelled digits ++ (c ∷ fmt)) s args
      ≡ some (reswitch (c ∷ fmt) (process_precision (read_from 0 (d ∷ digits)) s) args)
unfolding switch
switch-digit d digits c last fmt s args w e =
    let not_minus : (d + 48 == 45) ≡ false = ground (arith, w.0) in
    let not_zero : (d + 48 == 48) ≡ false = ground (arith, w.0) in
    let digit : (leb 49 (d + 48) && leb (d + 48) 57) ≡ true = ground (arith, w.0, w.1.0) in
    let field = width_field_lem 0 d digits c fmt w.1.0 w.1.1.0 w.1.1.1 e in
    rw (not_minus, not_zero, digit, field) refl

escape-again :
    (fuel : ℕ) (last : List ℕ) (ch : ℕ) (fmt fmt' : List ℕ) (s s' : Spec) (args args' : List Arg)
    → switch last ch fmt s args ≡ some (reswitch fmt' s' args')
    → escape (suc fuel) last (ch ∷ fmt) s args ≡ escape fuel last fmt' s' args'
unfolding escape
escape-again fuel last ch fmt fmt' s s' args args' e = rw (escape, e) refl

escape-width :
    (kind : Kind) (zeros : Bool) (width : List ℕ) (longs register fuel : ℕ) (last fmt : List ℕ)
    (args : List Arg) (s : Spec)
    → length (spelled width ++ tail_of kind longs fmt) ≤ fuel
    → longs ≤ 2
    → IsWidth width
    → IsFresh zeros s
    → Converts
        (numeric kind zeros width longs register)
        fmt
        args
        (escape fuel last (spelled width ++ tail_of kind longs fmt) s (number register ∷ args))
escape-width kind zeros [] longs register fuel last fmt args s h k w i =
    escape-longs kind zeros [] longs 0 longs register fuel last fmt args s h (omega arith) k
      (record { padding = i.padding; field = rw i.field refl; long = i.long })
escape-width kind zeros (d ∷ digits) longs register zero last fmt args s h k w i =
    absurd (omega arith)
escape-width kind zeros (d ∷ digits) longs register (suc fuel) last fmt args s h k w i =
    let t = tail_of-EndsWidth kind longs fmt in
    let sum = length-append (spelled digits) (tail_of kind longs fmt) in
    let s' = process_precision (read_from 0 (d ∷ digits)) s in
    let small : is_negative (read_from 0 (d ∷ digits)) ≡ false = ground (arith, w.1.1.1) in
    let next = switch-digit d digits t.head last t.behind s (number register ∷ args) w t.ends in
    let rest =
      escape-longs kind zeros (d ∷ digits) longs 0 longs register fuel last fmt args s'
        (omega arith) (omega arith) k
        (record {
          padding = rw i.field i.padding;
          field = rw (i.field, small) refl;
          long = rw i.field i.long;
        }) in
    rw
      (escape-again fuel last (d + b'0') (spelled digits ++ tail_of kind longs fmt)
        (tail_of kind longs fmt) s s' (number register ∷ args) (number register ∷ args)
        (rw t.splits next))
      rest

pub escape-flag :
    (kind : Kind) (zeros : Bool) (width : List ℕ) (longs register fuel : ℕ) (last fmt : List ℕ)
    (args : List Arg)
    → length (zero_flag zeros ++ (spelled width ++ tail_of kind longs fmt)) ≤ fuel
    → longs ≤ 2
    → IsWidth width
    → Converts (numeric kind zeros width longs register) fmt args (
        escape fuel last
          (zero_flag zeros ++ (spelled width ++ tail_of kind longs fmt))
          start
          (number register ∷ args))
unfolding escape switch
escape-flag kind false width longs register fuel last fmt args h k w =
    escape-width kind false width longs register fuel last fmt args start (omega arith) k w
      (record { padding = refl; field = refl; long = refl })
escape-flag kind true width longs register zero last fmt args h k w = absurd (omega arith)
escape-flag kind true width longs register (suc fuel) last fmt args h k w =
    escape-width kind true width longs register fuel last fmt args (record start { padc = b'0' })
      (omega arith) k w (record { padding = refl; field = refl; long = refl })
