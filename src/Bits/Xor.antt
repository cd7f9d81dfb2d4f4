-- ===== src/Bits/Xor.antt =====
-- The algebra of `bit_xor`: the group laws, the shift, and the bounds at a width. Each goes by
-- recursion on a bound that halving lowers.
use rsicv_uvm_test.Base.{ℕ, zero, suc, ◌+◌, ◌/◌, ◌%◌, ◌^◌, ◌≤◌, ◌<◌, bit_xor, ◌≡◌, refl, arith}
use native.Mathlib.Nat.{le_refl, pow-suc}
use rsicv_uvm_test.Bits.Step.{bit_xor_step}

-- C's `(a ^ b) >> 1` and `(a ^ b) & 1`.
pub bit_xor_half : (a b : ℕ) → bit_xor a b / 2 ≡ bit_xor (a / 2) (b / 2)
bit_xor_half a b = omega (arith, bit_xor_step a b)

pub bit_xor_low : (a b : ℕ) → bit_xor a b % 2 ≡ (a % 2 + b % 2) % 2
bit_xor_low a b = omega (arith, bit_xor_step a b)

comm_to : (n a b : ℕ) → a ≤ n → b ≤ n → bit_xor a b ≡ bit_xor b a
comm_to zero zero zero p q = refl
comm_to zero zero (suc b) p q = absurd (omega arith)
comm_to zero (suc a) b p q = absurd (omega arith)
comm_to (suc n) a b p q = omega (
  arith,
  bit_xor_step a b,
  bit_xor_step b a,
  comm_to n (a / 2) (b / 2) (omega arith) (omega arith),
)

pub bit_xor_comm : (a b : ℕ) → bit_xor a b ≡ bit_xor b a
bit_xor_comm a b = comm_to (a + b) a b (omega arith) (omega arith)

assoc_to : (n a b c : ℕ) → a ≤ n → b ≤ n → c ≤ n → bit_xor (bit_xor a b) c ≡ bit_xor a (bit_xor b c)
assoc_to zero zero zero zero p q r = refl
assoc_to zero zero zero (suc c) p q r = absurd (omega arith)
assoc_to zero zero (suc b) c p q r = absurd (omega arith)
assoc_to zero (suc a) b c p q r = absurd (omega arith)
assoc_to (suc n) a b c p q r =
    rw (bit_xor_step (bit_xor a b) c, bit_xor_step a (bit_xor b c))
      (rw (bit_xor_half a b, bit_xor_half b c, bit_xor_low a b, bit_xor_low b c)
        (omega
          (arith, assoc_to n (a / 2) (b / 2) (c / 2) (omega arith) (omega arith) (omega arith))))

pub bit_xor_assoc : (a b c : ℕ) → bit_xor (bit_xor a b) c ≡ bit_xor a (bit_xor b c)
bit_xor_assoc a b c = assoc_to (a + b + c) a b c (omega arith) (omega arith) (omega arith)

zero_to : (n a : ℕ) → a ≤ n → bit_xor 0 a ≡ a
zero_to zero zero p = refl
zero_to zero (suc a) p = absurd (omega arith)
zero_to (suc n) a p = omega (arith, bit_xor_step 0 a, zero_to n (a / 2) (omega arith))

pub zero-bit_xor : (a : ℕ) → bit_xor 0 a ≡ a
zero-bit_xor a = zero_to a a (le_refl a)

pub bit_xor-zero : (a : ℕ) → bit_xor a 0 ≡ a
bit_xor-zero a = rw (bit_xor_comm a 0) (zero-bit_xor a)

self_to : (n a : ℕ) → a ≤ n → bit_xor a a ≡ 0
self_to zero zero p = refl
self_to zero (suc a) p = absurd (omega arith)
self_to (suc n) a p = omega (arith, bit_xor_step a a, self_to n (a / 2) (omega arith))

pub bit_xor_self : (a : ℕ) → bit_xor a a ≡ 0
bit_xor_self a = self_to a a (le_refl a)

-- Applying the same mask twice gives the value back.
pub bit_xor_cancel : (a b : ℕ) → bit_xor (bit_xor a b) b ≡ a
bit_xor_cancel a b = rw (bit_xor_assoc a b b, bit_xor_self b) (bit_xor-zero a)

pub bit_xor-lt : (k a b : ℕ) → a < 2 ^ k → b < 2 ^ k → bit_xor a b < 2 ^ k
bit_xor-lt zero zero zero p q = omega arith
bit_xor-lt zero zero (suc b) p q = absurd (omega arith)
bit_xor-lt zero (suc a) b p q = absurd (omega arith)
bit_xor-lt (suc k) a b p q = omega (
  arith,
  pow-suc 2 k,
  bit_xor_step a b,
  bit_xor-lt k (a / 2) (b / 2) (omega (arith, pow-suc 2 k)) (omega (arith, pow-suc 2 k)),
)
