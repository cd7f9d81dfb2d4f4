-- ===== src/Bits/Step.antt =====
-- One equation for the lowest binary digit of `|`, `&` and `^`. The native operations mean
-- `bitwise`, a recursion on digits whose fuel is its first argument; the fuel is dropped here.
use Prim.Native.Nat.{differ, digits, bitwise, bit_and-bitwise, bit_or-bitwise, bit_xor-bitwise}
use rsicv_uvm_test.Base.{
  ℕ, zero, suc, ◌+◌, ◌-◌, ◌*◌, ◌/◌, ◌%◌, ◌≤◌, ◌<◌, min, max, bit_and, bit_or, bit_xor, ◌≡◌, refl,
  ◌∙◌, arith,
}

module _ (high : ℕ → ℕ) (digit : ℕ → ℕ → ℕ) where
  -- One more unit of fuel than the first operand needs changes nothing, so neither do `k` more.
  spare_one : (n a b : ℕ) → a ≤ n → digits high digit (suc n) a b ≡ digits high digit n a b
  spare_one n zero b le = rest n
    where
      rest : (m : ℕ) → digits high digit (suc m) zero b ≡ digits high digit m zero b
      rest zero = refl
      rest (suc m) = refl
  spare_one zero (suc a) b le = absurd (omega arith)
  spare_one (suc n) (suc a) b le = rw (spare_one n (suc a / 2) (b / 2) (omega arith))

  spare : (k n m a b : ℕ) → m ≡ k + n → a ≤ n → digits high digit m a b ≡ digits high digit n a b
  spare zero n m a b e le = let same : m ≡ n = omega arith in rw same
  spare (suc k) n zero a b e le = absurd (omega arith)
  spare (suc k) n (suc m) a b e le =
      spare_one m a b (omega arith) ∙ spare k n m a b (omega arith) le

  pub bitwise_lowest :
      (a b : ℕ)
      → bitwise high digit (suc a) b
        ≡ bitwise high digit (suc a / 2) (b / 2) * 2 + digit (suc a % 2) (b % 2)
  bitwise_lowest a b =
      rw (spare (a - suc a / 2) (suc a / 2) a (suc a / 2) (b / 2) (omega arith) (omega arith))

-- An operation that `bitwise` describes, with `high` what it makes of the digits above a first
-- operand that has run out.
module _ (op : ℕ → ℕ → ℕ) (high : ℕ → ℕ) (digit : ℕ → ℕ → ℕ)
    (described : (a b : ℕ) → op a b ≡ bitwise high digit a b)
    (run_out : (b : ℕ) → high b ≡ high (b / 2) * 2 + digit 0 (b % 2)) where
  by_digits : (a b : ℕ) → op a b ≡ op (a / 2) (b / 2) * 2 + digit (a % 2) (b % 2)
  by_digits zero b = rw (described zero b, described 0 (b / 2)) (run_out b)
  by_digits (suc a) b =
      rw (described (suc a) b, described (suc a / 2) (b / 2)) (bitwise_lowest high digit a b)

pub bit_and_step : (a b : ℕ) → bit_and a b ≡ bit_and (a / 2) (b / 2) * 2 + min (a % 2) (b % 2)
bit_and_step = by_digits bit_and (λ b. 0) min (λ a b. bit_and-bitwise a b) (λ b. omega arith)

pub bit_or_step : (a b : ℕ) → bit_or a b ≡ bit_or (a / 2) (b / 2) * 2 + max (a % 2) (b % 2)
bit_or_step = by_digits bit_or (λ b. b) max (λ a b. bit_or-bitwise a b) (λ b. omega arith)

-- On single digits the exclusive or is the sum without its carry.
differ-eq-sum : (x y : ℕ) → x < 2 → y < 2 → differ x y ≡ (x + y) % 2
differ-eq-sum zero zero p q = refl
differ-eq-sum zero (suc zero) p q = refl
differ-eq-sum (suc zero) zero p q = refl
differ-eq-sum (suc zero) (suc zero) p q = refl
differ-eq-sum zero (suc (suc y)) p q = absurd (omega arith)
differ-eq-sum (suc zero) (suc (suc y)) p q = absurd (omega arith)
differ-eq-sum (suc (suc x)) y p q = absurd (omega arith)

pub bit_xor_step : (a b : ℕ) → bit_xor a b ≡ bit_xor (a / 2) (b / 2) * 2 + (a % 2 + b % 2) % 2
bit_xor_step a b = rw (← differ-eq-sum (a % 2) (b % 2) (omega arith) (omega arith)) (
    by_digits bit_xor (λ y. y) differ (λ a b. bit_xor-bitwise a b)
      (λ b. omega (arith, differ-eq-sum 0 (b % 2) (omega arith) (omega arith))) a b)

pub bit_and_of_nothing : (b : ℕ) → bit_and 0 b ≡ 0
bit_and_of_nothing b = bit_and-bitwise 0 b
