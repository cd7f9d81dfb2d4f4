-- ===== src/Syscalls/Print.antt =====
-- The digits that `printnum` finds.
use rsicv_uvm_test.Base.{
  ℕ, zero, suc, ◌+◌, ◌-◌, ◌*◌, ◌/◌, ◌%◌, ◌^◌, ◌≤◌, ◌<◌, ◌≡◌, ◌≢◌, refl, sym, ap, ◌∙◌, ◌⊎◌, arith,
  ltb, leb, if◌then◌else◌, length-append, Bool-cases, inl, inr, Option, some, List, [], ◌∷◌, ◌++◌,
  length, replicate, All,
}
use native.Mathlib.Decide.{ℕ_discrete}
use native.Mathlib.Nat.{
  mul_comm, mod-lt, mod-eq_of_lt, mod-add-div, two-pow-succ, div-lt_iff_lt-mul, mul-le-mul_left,
  mul-zero,
}
use rsicv_uvm_test.Syscalls.{fill_digits, digit_char, put_digits, printnum}

-- The number that digits stand for, the lowest first.
abbrev pub value : (base : ℕ) → List ℕ → ℕ
value base [] = 0
value base (d ∷ digits) = d + base * value base digits

-- The highest digit.
abbrev pub top : List ℕ → ℕ
top [] = 0
top (d ∷ []) = d
top (d ∷ (e ∷ digits)) = top (e ∷ digits)

pub record HasDigits (num base room : ℕ) (out : Option (List ℕ)) : Type 0 where
  pub digits : List ℕ
  pub returned : out ≡ some digits
  pub stands_for : value base digits ≡ num
  pub below : All (λ d. d < base) digits
  pub lean : num ≢ 0 → top digits ≢ 0
  pub some_digit : 1 ≤ length digits
  pub fits : length digits ≤ room

top_lem : (d : ℕ) (digits : List ℕ) → 1 ≤ length digits → top (d ∷ digits) ≡ top digits
top_lem d [] h = absurd (omega arith)
top_lem d (e ∷ digits) h = refl

quotient_lt : (num base room : ℕ) → 2 ≤ base → num < 2 ^ suc room → num / base < 2 ^ room
quotient_lt num base room h k =
    let twice = two-pow-succ room in
    let more : 2 ^ room * 2 ≤ 2 ^ room * base = mul-le-mul_left (2 ^ room) h in
    (div-lt_iff_lt-mul (omega arith)).1 (omega (arith, twice, more))

quotient_pos : (num base : ℕ) → 0 < base → base ≤ num → 1 ≤ num / base
quotient_pos num base h k = elim (ℕ_discrete (num / base) 0) [
  | yes none_left ↦
      let nothing : base * (num / base) ≡ 0 = ap (λ t. base * t) none_left ∙ mul-zero base in
      absurd (omega (arith, nothing, mod-add-div num base, mod-lt num h))
  | no some_left ↦ omega arith
]

room_pos : (room q : ℕ) → 1 ≤ q → q < 2 ^ room → 1 ≤ room
room_pos zero q h k = absurd (omega arith)
room_pos (suc room) q h k = omega arith

add-zero-mul : (num base : ℕ) → num + base * 0 ≡ num
add-zero-mul num base = omega (arith, mul-zero base)

pub fill_digits-HasDigits :
    (room num base : ℕ)
    → 2 ≤ base
    → 1 ≤ room
    → num < 2 ^ room
    → HasDigits num base room (fill_digits room num base)
unfolding fill_digits
fill_digits-HasDigits zero num base h k lt = absurd (omega arith)
fill_digits-HasDigits (suc room) num base h k lt = elim (Bool-cases (ltb num base)) [
  | inl small ↦
      let one_digit : num % base ≡ num = mod-eq_of_lt (ground arith) in
      rw (small, one_digit)
        (record {
          digits = num ∷ [];
          returned = refl;
          stands_for = add-zero-mul num base;
          below = (ground arith, tt);
          lean = λ ne. ne;
          some_digit = omega arith;
          fits = omega arith;
        })
  | inr large ↦
      let at_least : base ≤ num = ground arith in
      let parts = mod-add-div num base in
      let positive : 1 ≤ num / base = quotient_pos num base (omega arith) at_least in
      let smaller = quotient_lt num base room h lt in
      let rest =
        fill_digits-HasDigits room (num / base) base h (room_pos room (num / base) positive smaller)
          smaller in
      rw (large, rest.returned)
        (record {
          digits = num % base ∷ rest.digits;
          returned = refl;
          stands_for = ap (λ t. num % base + base * t) rest.stands_for ∙ parts;
          below = (mod-lt num (omega arith), rest.below);
          lean =
              λ _. rw (top_lem (num % base) rest.digits rest.some_digit) (rest.lean (omega arith));
          some_digit = omega arith;
          fits = omega (arith, rest.fits);
        })
]

-- The digit that a character stands for.
abbrev pub char_value : ℕ → ℕ
char_value c = if leb 97 c then c - 87 else c - 48

-- The number that a text stands for, its highest digit first, behind a number read so far.
abbrev pub read_number : (base read : ℕ) → List ℕ → ℕ
read_number base read [] = read
read_number base read (c ∷ cs) = read_number base (read * base + char_value c) cs

-- A character from `0` to `9`, or from `a` on, for a digit of the base.
abbrev pub IsDigitOf : (base c : ℕ) → Type 0
IsDigitOf base c = (char_value c < base) × (((48 ≤ c) × (c ≤ 57)) ⊎ (97 ≤ c))

abbrev pub first : List ℕ → ℕ
first [] = 0
first (c ∷ cs) = c

pub record IsPrinted (num base width padc : ℕ) (out : Option (List ℕ)) : Type 0 where
  pub text : List ℕ
  pub returned : out ≡ some (replicate (width - length text) padc ++ text)
  pub reads : read_number base 0 text ≡ num
  pub characters : All (IsDigitOf base) text
  pub lean : num ≢ 0 → first text ≢ b'0'
  pub some_digit : 1 ≤ length text
  pub fits : length text ≤ 64

char_value-digit_char : (d : ℕ) → char_value (digit_char d) ≡ d
char_value-digit_char d = ground arith

digit_char-IsDigitOf : (base d : ℕ) → d < base → IsDigitOf base (digit_char d)
digit_char-IsDigitOf base d h =
    let v = char_value-digit_char d in
    elim (Bool-cases (leb 10 d)) [
      | inl letter ↦ (omega (arith, v, h), inr (ground (arith, letter)))
      | inr figure ↦ (omega (arith, v, h), inl (ground (arith, figure), ground (arith, figure)))
    ]

read_number-append :
    (base read : ℕ) (xs ys : List ℕ)
    → read_number base read (xs ++ ys) ≡ read_number base (read_number base read xs) ys
read_number-append base read [] ys = refl
read_number-append base read (c ∷ xs) ys =
    read_number-append base (read * base + char_value c) xs ys

read_number-put_digits :
    (base : ℕ) (digits : List ℕ) → read_number base 0 (put_digits digits) ≡ value base digits
read_number-put_digits base [] = refl
read_number-put_digits base (d ∷ digits) =
    read_number-append base 0 (put_digits digits) (digit_char d ∷ [])
    ∙ omega (
      arith,
      char_value-digit_char d,
      ap (λ t. t * base) (read_number-put_digits base digits),
      mul_comm (value base digits) base,
    )

length-put_digits : (digits : List ℕ) → length (put_digits digits) ≡ length digits
length-put_digits [] = refl
length-put_digits (d ∷ digits) =
    omega (arith, length-append (put_digits digits) (digit_char d ∷ []), length-put_digits digits)

All-snoc : (P : ℕ → Type 0) (xs : List ℕ) (x : ℕ) → All P xs → P x → All P (xs ++ (x ∷ []))
All-snoc P [] x h p = (p, tt)
All-snoc P (y ∷ xs) x h p = (h.0, All-snoc P xs x h.1 p)

put_digits-All :
    (base : ℕ) (digits : List ℕ)
    → All (λ d. d < base) digits
    → All (IsDigitOf base) (put_digits digits)
put_digits-All base [] h = tt
put_digits-All base (d ∷ digits) h =
    All-snoc (IsDigitOf base) (put_digits digits) (digit_char d) (put_digits-All base digits h.1)
      (digit_char-IsDigitOf base d h.0)

first-append : (xs ys : List ℕ) → 1 ≤ length xs → first (xs ++ ys) ≡ first xs
first-append [] ys h = absurd (omega arith)
first-append (x ∷ xs) ys h = refl

first-put_digits :
    (digits : List ℕ) → 1 ≤ length digits → first (put_digits digits) ≡ digit_char (top digits)
first-put_digits [] h = absurd (omega arith)
first-put_digits (d ∷ []) h = refl
first-put_digits (d ∷ (e ∷ digits)) h =
    first-append (put_digits (e ∷ digits)) (digit_char d ∷ [])
      (omega (arith, length-put_digits (e ∷ digits)))
    ∙ first-put_digits (e ∷ digits) (omega arith)

digit_char-0 : (d : ℕ) → digit_char d ≡ b'0' → d ≡ 0
digit_char-0 d h = ground (arith, h)

-- For a base of at least 2 and a 64-bit number, `printnum` never leaves its array of 64 digits. It
-- puts out a text of digits of that base, from `0` to `9` and then from `a` on, which stands for the
-- number with its highest digit first, and which does not start with a 0 unless the number is 0;
-- in front of it stand as many padding characters as it is shorter than the width.
pub printnum-IsPrinted :
    (num base width padc : ℕ)
    → 2 ≤ base
    → num < 2 ^ 64
    → IsPrinted num base width padc (printnum num base width padc)
unfolding printnum
printnum-IsPrinted num base width padc h lt =
    let r = fill_digits-HasDigits 64 num base h (omega arith) lt in
    let size = length-put_digits r.digits in
    rw (printnum, r.returned)
      (record {
        text = put_digits r.digits;
        returned = rw size refl;
        reads = read_number-put_digits base r.digits ∙ r.stands_for;
        characters = put_digits-All base r.digits r.below;
        lean = λ ne zero_first. r.lean ne (
            digit_char-0 (top r.digits)
              (sym (first-put_digits r.digits r.some_digit) ∙ zero_first));
        some_digit = omega (arith, size, r.some_digit);
        fits = omega (arith, size, r.fits);
      })
