-- ===== src/Benchmarks/Multiply.antt =====
-- Multiplication without a multiply instruction: benchmarks/multiply/multiply.c.
use native.Mathlib.Nat.{
  mod-add-mod, mod-lt, mod-add-div', add-mul-mod_self_right, mod-eq_of_lt, pow-succ', one-le-pow,
  mod-one, zero-mul, zero-add,
}
use rsicv_uvm_test.Base.{
  ℕ, zero, suc, ◌+◌, ◌-◌, ◌*◌, ◌/◌, ◌%◌, ◌^◌, ◌≤◌, ◌<◌, ◌≡◌, refl, sym, ap, ◌∙◌, arith, leb, ◌==◌,
  Bool, true, holds_below, holds_at, if◌then◌else◌, bit_and, u32, ◌<<<◌, ◌>>>◌, Bool-cases, inl,
  inr,
}
use rsicv_uvm_test.Bits.Fields.{bit_and-one}

-- `x >> 1` on an `int`.
abbrev pub shift_right : ℕ → ℕ
shift_right x = if leb (2 ^ 31) x then (x >>> 1) + 2 ^ 31 else x >>> 1

-- The loop with `left` rounds to go.
unfoldable pub multiply_from : (left x y result : ℕ) → ℕ
multiply_from zero x y result = result
multiply_from (suc left) x y result =
    multiply_from left (shift_right x) (u32 (y <<< 1))
      (if bit_and x 1 == 1 then u32 (result + y) else result)

unfoldable pub multiply : (x y : ℕ) → ℕ
unfolding multiply_from
multiply x y = multiply_from 32 x y 0

half : (k x : ℕ) → x % 2 ^ suc k ≡ x % 2 + 2 * (x / 2 % 2 ^ k)
half k x =
    let m = 2 ^ k in
    let positive : 0 < m = one-le-pow k 2 (omega arith) in
    let low = mod-lt (x / 2) positive in
    let parts = mod-add-div' (x / 2) m in
    let twice : 2 ^ suc k ≡ 2 * m = pow-succ' 2 k in
    let whole : x ≡ x % 2 + 2 * (x / 2 % m) + x / 2 / m * (2 * m) = grind arith in
    rw twice (
      ap (λ t. t % (2 * m)) whole
      ∙ add-mul-mod_self_right (x % 2 + 2 * (x / 2 % m)) (x / 2 / m) (2 * m)
      ∙ mod-eq_of_lt (omega (arith, low)))

splits : ℕ → Bool
splits k = 2 ^ 31 == 2 ^ (31 - k) * 2 ^ k

splits_table : holds_below 32 splits ≡ true
unfolding splits holds_below
splits_table = refl

splits_at : (k : ℕ) → k ≤ 31 → 2 ^ 31 ≡ 2 ^ (31 - k) * 2 ^ k
unfolding splits
splits_at k h = let table = holds_at 32 splits k splits_table (omega arith) in ground arith

shift_low : (k x : ℕ) → k ≤ 31 → shift_right x % 2 ^ k ≡ x / 2 % 2 ^ k
shift_low k x h = elim (Bool-cases (leb (2 ^ 31) x)) [
  | inl big ↦
      let whole : 2 ^ 31 ≡ 2 ^ (31 - k) * 2 ^ k = splits_at k h in
      rw big (
        ap (λ t. (x / 2 + t) % 2 ^ k) whole ∙ add-mul-mod_self_right (x / 2) (2 ^ (31 - k)) (2 ^ k))
  | inr small ↦ rw small refl
]

-- A factor may be wrapped around before it is multiplied.
wrap_factor : (a b c m : ℕ) → (a + b * (c % m)) % m ≡ (a + b * c) % m
wrap_factor a b c m =
    let parts = mod-add-div' c m in
    let whole : a + b * c ≡ a + b * (c % m) + b * (c / m) * m = grind arith in
    sym (ap (λ t. t % m) whole ∙ add-mul-mod_self_right (a + b * (c % m)) (b * (c / m)) m)

add_bit : (x y result : ℕ) → ℕ
add_bit x y result = if bit_and x 1 == 1 then u32 (result + y) else result

small : (x y result : ℕ) → result < 2 ^ 32 → add_bit x y result < 2 ^ 32
unfolding add_bit
small x y result h = ground arith

-- One round adds the lowest bit's share.
add_low :
    (x high y result : ℕ)
    → (add_bit x y result + high * (y <<< 1)) % 2 ^ 32 ≡ (result + (x % 2 + 2 * high) * y) % 2 ^ 32
unfolding add_bit
add_low x high y result = elim (Bool-cases (bit_and x 1 == 1)) [
  | inl one ↦
      let bit : x % 2 ≡ 1 = ground (arith, bit_and-one x) in
      let whole : result + y + high * (y * 2) ≡ result + (1 + 2 * high) * y = grind arith in
      rw (one, bit)
        (mod-add-mod (result + y) (2 ^ 32) (high * (y <<< 1)) ∙ ap (λ t. t % 2 ^ 32) whole)
  | inr zero_bit ↦
      let bit : x % 2 ≡ 0 = ground (arith, bit_and-one x) in
      let whole : result + high * (y * 2) ≡ result + (0 + 2 * high) * y = grind arith in
      rw (zero_bit, bit) (ap (λ t. t % 2 ^ 32) whole)
]

multiply_from_lem :
    (left x y result : ℕ)
    → left ≤ 32
    → result < 2 ^ 32
    → multiply_from left x y result ≡ (result + x % 2 ^ left * y) % 2 ^ 32
unfolding multiply_from add_bit
multiply_from_lem zero x y result h k =
    let none_left : x % 2 ^ 0 * y ≡ 0 = ap (λ t. t * y) (mod-one x) ∙ zero-mul y in
    omega (arith, none_left)
multiply_from_lem (suc left) x y result h k =
    let result' = add_bit x y result in
    let low = shift_low left x (omega arith) in
    let rest =
      multiply_from_lem left (shift_right x) (u32 (y <<< 1)) result' (omega arith)
        (small x y result k) in
    let rest' = wrap_factor result' (shift_right x % 2 ^ left) (y <<< 1) (2 ^ 32) in
    rest ∙ rest' ∙ rw (low, half left x) (add_low x (x / 2 % 2 ^ left) y result)

-- For a 32-bit pattern x, `multiply` gives the product modulo 2 to the 32.
pub multiply_lem : (x y : ℕ) → x < 2 ^ 32 → multiply x y ≡ x * y % 2 ^ 32
unfolding multiply
multiply_lem x y h =
    multiply_from_lem 32 x y 0 (omega arith) (omega arith)
    ∙ ap (λ t. (0 + t * y) % 2 ^ 32) (mod-eq_of_lt h)
    ∙ ap (λ t. t % 2 ^ 32) (zero-add (x * y))
