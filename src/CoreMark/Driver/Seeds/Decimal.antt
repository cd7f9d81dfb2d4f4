-- ===== src/CoreMark/Driver/Seeds/Decimal.antt =====
-- What parseval of core_util.c makes of an argument in decimal digits.
use rsicv_uvm_test.Base.{
  ℕ, ◌+◌, ◌-◌, ◌*◌, ◌^◌, ◌≤◌, ◌≡◌, ◌≢◌, refl, ap, arith, ◌==◌, ==_of_ne, true, false, Bool-cases,
  inl, inr, ◌>>=◌, Option, none, some, List, [], ◌∷◌, ◌++◌, map, All, u32,
}
use rsicv_uvm_test.CoreMark.Driver.Seeds.{
  Parsed, parse_decimal, parse_number, qualified, negated, parseval, is_decimal,
}

-- The characters of decimal digits.
abbrev pub AreDigits : List ℕ → Type 0
AreDigits = All (λ d. d ≤ 9)

abbrev pub characters : List ℕ → List ℕ
characters = map (λ d. d + 48)

-- The number that the digits behind a value make.
abbrev pub appended : (value : ℕ) → List ℕ → ℕ
appended value [] = value
appended value (d ∷ ds) = appended (value * 10 + d) ds

-- What may stand behind the digits, and the factor that it means.
pub data Qualifier : Type 0 where
  plain kilo mega : Qualifier

abbrev pub letters_of : Qualifier → List ℕ
letters_of plain = 0 ∷ []
letters_of kilo = 75 ∷ (0 ∷ [])
letters_of mega = 77 ∷ (0 ∷ [])

abbrev pub factor : Qualifier → ℕ
factor plain = 1
factor kilo = 1024
factor mega = 1024 * 1024

parse_decimal_lem :
    (ds : List ℕ) (value c : ℕ) (rest : List ℕ)
    → AreDigits ds
    → is_decimal c ≡ false
    → parse_decimal (characters ds ++ (c ∷ rest)) (u32 value)
      ≡ some (record { retval = u32 (appended value ds); rest = c ∷ rest })
unfolding parse_decimal
parse_decimal_lem [] value c rest h other = rw other refl
parse_decimal_lem (d ∷ ds) value c rest h other =
    let digit : is_decimal (d + 48) ≡ true = ground (arith, h.0) in
    let next : u32 (u32 (u32 value * 10) + (d + 48 - 48)) ≡ u32 (value * 10 + d) = omega arith in
    rw (digit, next) (parse_decimal_lem ds (value * 10 + d) c rest h.1 other)

no_prefix :
    (c x : ℕ) (rest : List ℕ)
    → x ≢ 120
    → parse_number (c ∷ (x ∷ rest)) ≡ parse_decimal (c ∷ (x ∷ rest)) 0
no_prefix c x rest h = elim (Bool-cases (c == 48)) [
  | inl e ↦ rw (e, ==_of_ne x 120 h) refl
  | inr e ↦ rw e refl
]

digits_number :
    (d : ℕ) (ds : List ℕ) (q : Qualifier)
    → AreDigits ds
    → parse_number (characters (d ∷ ds) ++ letters_of q)
      ≡ parse_decimal (characters (d ∷ ds) ++ letters_of q) 0
digits_number d [] plain h = no_prefix (d + 48) 0 [] (omega arith)
digits_number d [] kilo h = no_prefix (d + 48) 75 (0 ∷ []) (omega arith)
digits_number d [] mega h = no_prefix (d + 48) 77 (0 ∷ []) (omega arith)
digits_number d (e ∷ ds) q h =
    let digit : e ≤ 9 = h.0 in
    no_prefix (d + 48) (e + 48) (characters ds ++ letters_of q) (omega arith)

scaled :
    (ds : List ℕ) (q : Qualifier)
    → AreDigits ds
    → (parse_decimal (characters ds ++ letters_of q) 0 >>= qualified)
      ≡ some (u32 (appended 0 ds * factor q))
scaled ds plain h = rw (parse_decimal_lem ds 0 0 [] h refl) (ap some (omega arith))
scaled ds kilo h = rw (parse_decimal_lem ds 0 75 (0 ∷ []) h refl) (ap some (omega arith))
scaled ds mega h = rw (parse_decimal_lem ds 0 77 (0 ∷ []) h refl) (ap some (omega arith))

negated_through :
    (o : Option Parsed) (v : ℕ)
    → (o >>= qualified) ≡ some v
    → (o >>= λ p. qualified p >>= λ value. some (negated value)) ≡ some (negated v)
negated_through none v e = absurd (no_number e)
  where
    no_number : {n : ℕ} → none ≡ some n → ⊥
    no_number e = cc
negated_through (some p) v e = rw e refl

-- For decimal digits, at least one, with a minus in front or not, and with K, M or nothing behind, parseval
-- returns the value of the digits, times 1024, 1024 * 1024 or 1, and negated or not, modulo 2 to the 32.
pub parseval-decimal :
    (d : ℕ) (ds : List ℕ) (q : Qualifier)
    → AreDigits (d ∷ ds)
    → (parseval (characters (d ∷ ds) ++ letters_of q) ≡ some (u32 (appended 0 (d ∷ ds) * factor q)))
      × (parseval (45 ∷ (characters (d ∷ ds) ++ letters_of q))
          ≡ some (u32 (2 ^ 32 - u32 (appended 0 (d ∷ ds) * factor q))))
unfolding parseval
parseval-decimal d ds q h =
    let not_minus : ((d + 48) == 45) ≡ false = ==_of_ne (d + 48) 45 (omega arith) in
    let number : (parse_number (characters (d ∷ ds) ++ letters_of q) >>= qualified)
        ≡ some (u32 (appended 0 (d ∷ ds) * factor q)) =
      rw (digits_number d ds q h.1) (scaled (d ∷ ds) q h) in
    (
      rw not_minus number,
      negated_through (parse_number (characters (d ∷ ds) ++ letters_of q))
          (u32 (appended 0 (d ∷ ds) * factor q)) number,
    )
