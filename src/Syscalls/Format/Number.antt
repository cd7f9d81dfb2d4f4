-- ===== src/Syscalls/Format/Number.antt =====
-- What the conversions of numbers put out.
use rsicv_uvm_test.Base.{
  ℕ, ◌-◌, ◌%◌, ◌^◌, ◌≤◌, ◌<◌, ◌≡◌, ◌⊎◌, refl, arith, Bool, true, false, Bool-cases, inl, inr,
  Option, some, List, ◌∷◌, ◌++◌, length, replicate, u32, leb,
}
use rsicv_uvm_test.Syscalls.{u64, printnum}
use rsicv_uvm_test.Syscalls.Print.{IsPrinted, printnum-IsPrinted}
use rsicv_uvm_test.Syscalls.Format.{
  Spec, getuint, getint, is_negative, positive, unsigned_number, signed_number,
}
use rsicv_uvm_test.Syscalls.Format.Grammar.{
  Kind, decimal, IsNatural, Piece, numeric, read_from, base_of, bits_of, pad_of, Shows,
  natural_shows, negative_shows,
}

pub record HasText (num base width padc : ℕ) (out : Option (List ℕ)) : Type 0 where
  pub text : List ℕ
  pub returned : out ≡ some text
  pub printed : IsPrinted num base width padc (some text)

printnum-HasText :
    (num base width padc : ℕ)
    → 2 ≤ base
    → num < 2 ^ 64
    → HasText num base width padc (printnum num base width padc)
printnum-HasText num base width padc h lt =
    let r = printnum-IsPrinted num base width padc h lt in
    record {
      text = replicate (width - length r.text) padc ++ r.text;
      returned = r.returned;
      printed = record {
        text = r.text;
        returned = refl;
        reads = r.reads;
        characters = r.characters;
        lean = r.lean;
        some_digit = r.some_digit;
        fits = r.fits;
      };
    }

getuint_lem : (register longs : ℕ) → getuint register longs ≡ register % 2 ^ bits_of longs
getuint_lem register longs = elim (Bool-cases (leb 1 longs)) [
  | inl long ↦ rw long refl
  | inr short ↦ rw short refl
]

bits_cases : (longs : ℕ) → (bits_of longs ≤ 64) × (1 ≤ bits_of longs)
bits_cases longs = elim (Bool-cases (leb 1 longs)) [
  | inl long ↦ rw long (omega arith, omega arith)
  | inr short ↦ rw short (omega arith, omega arith)
]

-- The two cases of the sign, as the code finds them in the value extended to 64 bits.
getint_sign :
    (register longs : ℕ)
    → ((leb (2 ^ 63) (getint register longs) ≡ false)
        × ((getint register longs ≡ register % 2 ^ bits_of longs)
            × (register % 2 ^ bits_of longs < 2 ^ (bits_of longs - 1))))
      ⊎ ((leb (2 ^ 63) (getint register longs) ≡ true)
          × ((u64 (2 ^ 64 - getint register longs)
                ≡ 2 ^ bits_of longs - register % 2 ^ bits_of longs)
              × (2 ^ (bits_of longs - 1) ≤ register % 2 ^ bits_of longs)))
getint_sign register longs = elim (Bool-cases (leb 1 longs)) [
  | inl long ↦ rw long (elim (Bool-cases (leb (2 ^ 63) (u64 register))) [
    | inl minus ↦ inr (minus, (ground (arith, minus), ground (arith, minus)))
    | inr plus ↦ inl (plus, (refl, ground (arith, plus)))
  ])
  | inr short ↦ rw short (elim (Bool-cases (is_negative (u32 register))) [
    | inl minus ↦
        rw minus (inr (ground (arith, minus), (ground (arith, minus), ground (arith, minus))))
    | inr plus ↦ rw plus (inl (ground (arith, plus), (refl, ground (arith, plus))))
  ])
]

-- The variables of the conversion, after the flags of the piece.
pub record IsReady (zeros : Bool) (width : List ℕ) (longs : ℕ) (s : Spec) : Type 0 where
  pub padding : s.padc ≡ pad_of zeros
  pub field : positive s.width ≡ read_from 0 width
  pub long : s.lflag ≡ longs

value_lt : (register longs : ℕ) → register % 2 ^ bits_of longs < 2 ^ 64
value_lt register longs = elim (Bool-cases (leb 1 longs)) [
  | inl long ↦ rw long (omega arith)
  | inr short ↦ rw short (omega arith)
]

unsigned_number-HasText :
    (register base longs : ℕ) (zeros : Bool) (width : List ℕ) (s : Spec)
    → 2 ≤ base
    → IsReady zeros width longs s
    → HasText
        (register % 2 ^ bits_of longs)
        base
        (read_from 0 width)
        (pad_of zeros)
        (unsigned_number register base s)
unfolding unsigned_number
unsigned_number-HasText register base longs zeros width s h i =
    rw (i.padding, i.field, i.long, getuint_lem register longs)
      (printnum-HasText (register % 2 ^ bits_of longs) base (read_from 0 width) (pad_of zeros) h
        (value_lt register longs))

pub record Gives (p : Piece) (out : Option (List ℕ)) : Type 0 where
  pub shown : List ℕ
  pub returned : out ≡ some shown
  pub shows : Shows p shown

pub unsigned_number-Gives :
    (kind : Kind) (zeros : Bool) (width : List ℕ) (longs register : ℕ) (s : Spec)
    → 2 ≤ base_of kind
    → IsNatural kind longs register
    → IsReady zeros width longs s
    → Gives (numeric kind zeros width longs register) (unsigned_number register (base_of kind) s)
unsigned_number-Gives kind zeros width longs register s h n i =
    let t = unsigned_number-HasText register (base_of kind) longs zeros width s h i in
    record {
      shown = t.text;
      returned = t.returned;
      shows = natural_shows kind zeros width longs register t.text n t.printed;
    }

pub signed_number-Gives :
    (zeros : Bool) (width : List ℕ) (longs register : ℕ) (s : Spec)
    → IsReady zeros width longs s
    → Gives (numeric decimal zeros width longs register) (signed_number register s)
unfolding signed_number
signed_number-Gives zeros width longs register s i =
    rw (i.padding, i.field, i.long)
      (elim (getint_sign register longs) [
        | inl plus ↦
            let t =
              printnum-HasText (register % 2 ^ bits_of longs) 10 (read_from 0 width) (pad_of zeros)
                (omega arith) (value_lt register longs) in
            rw (plus.0, plus.1.0)
              (record {
                shown = t.text;
                returned = t.returned;
                shows = natural_shows decimal zeros width longs register t.text plus.1.1 t.printed;
              })
        | inr minus ↦
            let below : u64 (2 ^ 64 - getint register longs) < 2 ^ 64 = omega arith in
            let t =
              printnum-HasText (2 ^ bits_of longs - register % 2 ^ bits_of longs) 10
                (read_from 0 width) (pad_of zeros) (omega arith) (rw (← minus.1.0) below) in
            rw (minus.0, minus.1.0, t.returned)
              (record {
                shown = b'-' ∷ t.text;
                returned = refl;
                shows = negative_shows zeros width longs register t.text minus.1.1 t.printed;
              })
      ])
