-- ===== src/Bits/Fields.antt =====
-- `|` and `&` on fields that share no bit, as arithmetic: at every width for a mask of low bits,
-- and for the top bit of a word.
use rsicv_uvm_test.Base.{
  ℕ, zero, suc, ◌+◌, ◌-◌, ◌*◌, ◌/◌, ◌%◌, ◌^◌, ◌≤◌, ◌<◌, bit_and, bit_or, bit_xor, ◌≡◌, refl, ap,
  arith,
}
use native.Mathlib.Nat.{le_refl, pow-suc, one-le-pow, div-add-mod, div-div-eq-div-mul}
use rsicv_uvm_test.Bits.Xor.{bit_xor-zero}
use rsicv_uvm_test.Bits.Step.{bit_and_step, bit_or_step, bit_xor_step}

or_zero_to : (n a : ℕ) → a ≤ n → bit_or a 0 ≡ a
or_zero_to zero zero le = refl
or_zero_to zero (suc a) le = absurd (omega arith)
or_zero_to (suc n) a le = omega (arith, bit_or_step a 0, or_zero_to n (a / 2) (omega arith))

pub bit_or-zero : (a : ℕ) → bit_or a 0 ≡ a
bit_or-zero a = or_zero_to a a (le_refl a)

and_zero_to : (n a : ℕ) → a ≤ n → bit_and a 0 ≡ 0
and_zero_to zero zero le = refl
and_zero_to zero (suc a) le = absurd (omega arith)
and_zero_to (suc n) a le = omega (arith, bit_and_step a 0, and_zero_to n (a / 2) (omega arith))

pub bit_and-zero : (a : ℕ) → bit_and a 0 ≡ 0
bit_and-zero a = and_zero_to a a (le_refl a)

-- `a & 1`.
pub bit_and-one : (a : ℕ) → bit_and a 1 ≡ a % 2
bit_and-one a = omega (arith, bit_and_step a 1, bit_and-zero (a / 2))

mod_double : (m a : ℕ) → a % (2 * m) ≡ (a / 2 % m) * 2 + a % 2
mod_double m a = omega (
  arith,
  div-add-mod a (2 * m),
  div-add-mod (a / 2) m,
  ap (λ (t : ℕ). m * t) (div-div-eq-div-mul a 2 m),
)

-- `(1 << k) - 1` cuts a value to its low `k` bits.
pub bit_and_low_mask : (k a : ℕ) → bit_and a (2 ^ k - 1) ≡ a % 2 ^ k
bit_and_low_mask zero a = rw (bit_and-zero a) (omega arith)
bit_and_low_mask (suc k) a = ground (
  arith,
  pow-suc 2 k,
  one-le-pow k 2,
  bit_and_step a (2 ^ suc k - 1),
  mod_double (2 ^ k) a,
  bit_and_low_mask k (a / 2),
)

-- Setting bit `k` of a value below it adds it, and so does flipping it.
pub bit_or_top : (k a : ℕ) → a < 2 ^ k → bit_or a (2 ^ k) ≡ a + 2 ^ k
bit_or_top zero zero h = refl
bit_or_top zero (suc a) h = absurd (omega arith)
bit_or_top (suc k) a h = ground (
  arith,
  pow-suc 2 k,
  bit_or_step a (2 ^ suc k),
  bit_or_top k (a / 2) (omega (arith, pow-suc 2 k)),
)

pub bit_xor_top : (k a : ℕ) → a < 2 ^ k → bit_xor a (2 ^ k) ≡ a + 2 ^ k
bit_xor_top zero zero h = refl
bit_xor_top zero (suc a) h = absurd (omega arith)
bit_xor_top (suc k) a h = ground (
  arith,
  pow-suc 2 k,
  bit_xor_step a (2 ^ suc k),
  bit_xor_top k (a / 2) (omega (arith, pow-suc 2 k)),
)

-- `q | r` is a sum when `q` is a multiple of `2 ^ k` and `r` fits `k` bits.
pub bit_or_disjoint : (k q r : ℕ) → r < 2 ^ k → bit_or (q * 2 ^ k) r ≡ q * 2 ^ k + r
bit_or_disjoint zero q zero h = ground (arith, bit_or-zero (q * 2 ^ 0))
bit_or_disjoint zero q (suc r) h = absurd (omega arith)
bit_or_disjoint (suc k) q r h = ground (
  arith,
  bit_or_step (q * 2 ^ suc k) r,
  ap (λ (t : ℕ). q * t) (pow-suc 2 k),
  bit_or_disjoint k q (r / 2) (omega (arith, pow-suc 2 k)),
)

-- So is `q ^ r`.
pub bit_xor_disjoint : (k q r : ℕ) → r < 2 ^ k → bit_xor (q * 2 ^ k) r ≡ q * 2 ^ k + r
bit_xor_disjoint zero q zero h = ground (arith, bit_xor-zero (q * 2 ^ 0))
bit_xor_disjoint zero q (suc r) h = absurd (omega arith)
bit_xor_disjoint (suc k) q r h = ground (
  arith,
  bit_xor_step (q * 2 ^ suc k) r,
  ap (λ (t : ℕ). q * t) (pow-suc 2 k),
  bit_xor_disjoint k q (r / 2) (omega (arith, pow-suc 2 k)),
)

-- `a & (1 << k)` is the bit `k` of `a` in its place.
pub bit_and_bit : (k a : ℕ) → bit_and a (2 ^ k) ≡ a / 2 ^ k % 2 * 2 ^ k
bit_and_bit zero a = ground (arith, bit_and-one a)
bit_and_bit (suc k) a =
    let doubled : 2 ^ suc k ≡ 2 * 2 ^ k = omega (arith, pow-suc 2 k) in
    let halved : 2 * 2 ^ k / 2 ≡ 2 ^ k = omega arith in
    rw
      (
        doubled,
        bit_and_step a (2 * 2 ^ k),
        halved,
        bit_and_bit k (a / 2),
        div-div-eq-div-mul a 2 (2 ^ k),
      )
      (omega arith)

-- `a | (1 << k)` sets that bit.
pub bit_or_bit : (k a : ℕ) → bit_or a (2 ^ k) ≡ a + (1 - a / 2 ^ k % 2) * 2 ^ k
bit_or_bit zero a = ground (arith, bit_or_step a 1, bit_or-zero (a / 2))
bit_or_bit (suc k) a =
    let doubled : 2 ^ suc k ≡ 2 * 2 ^ k = omega (arith, pow-suc 2 k) in
    let halved : 2 * 2 ^ k / 2 ≡ 2 ^ k = omega arith in
    rw
      (
        doubled,
        bit_or_step a (2 * 2 ^ k),
        halved,
        bit_or_bit k (a / 2),
        div-div-eq-div-mul a 2 (2 ^ k),
      )
      (omega arith)

-- A mask of the bits from `k` on acts on the value above bit `k`.
pub bit_and_upper : (k a m : ℕ) → bit_and a (m * 2 ^ k) ≡ bit_and (a / 2 ^ k) m * 2 ^ k
bit_and_upper zero a m =
    let whole : m * 2 ^ 0 ≡ m = omega arith in
    let same : a / 2 ^ 0 ≡ a = omega arith in rw (whole, same) (omega arith)
bit_and_upper (suc k) a m =
    let doubled : 2 ^ suc k ≡ 2 * 2 ^ k = omega (arith, pow-suc 2 k) in
    let halved : m * (2 * 2 ^ k) / 2 ≡ m * 2 ^ k = grind arith in
    let even : m * (2 * 2 ^ k) % 2 ≡ 0 = grind arith in
    rw
      (
        doubled,
        bit_and_step a (m * (2 * 2 ^ k)),
        halved,
        even,
        bit_and_upper k (a / 2) m,
        div-div-eq-div-mul a 2 (2 ^ k),
      )
      (grind arith)
