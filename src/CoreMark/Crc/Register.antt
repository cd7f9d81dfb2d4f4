-- ===== src/CoreMark/Crc/Register.antt =====
-- An independent description of the checksum: the reflected CRC-16 shift register of the
-- polynomial 0x8005 (0xa001 with its bits reversed), as a linear map that can be inverted.
use native.Mathlib.Nat.{pow-suc, zero-add, suc-add}
use rsicv_uvm_test.Base.{
  ℕ, zero, suc, ◌+◌, ◌*◌, ◌/◌, ◌%◌, ◌^◌, ◌<◌, bit_xor, ◌≡◌, refl, sym, ap, ◌∙◌, arith, ◌==◌,
  if◌then◌else◌,
}
use rsicv_uvm_test.Bits.Xor.{
  bit_xor_half, bit_xor_low, bit_xor_comm, bit_xor_assoc, zero-bit_xor, bit_xor_self,
  bit_xor_cancel, bit_xor-lt,
}

unfoldable pub shift : ℕ → ℕ
shift r = if r % 2 == 1 then bit_xor (r / 2) 0xa001 else r / 2

unfoldable pub shifts : ℕ → ℕ → ℕ
shifts zero r = r
shifts (suc n) r = shifts n (shift r)

pub shift-lt : (r : ℕ) → r < 2 ^ 16 → shift r < 2 ^ 16
unfolding shift
shift-lt r h = ground (arith, bit_xor-lt 16 (r / 2) 0xa001)

pub shifts-lt : (n r : ℕ) → r < 2 ^ 16 → shifts n r < 2 ^ 16
unfolding shifts
shifts-lt zero r h = h
shifts-lt (suc n) r h = shifts-lt n (shift r) (shift-lt r h)

bit_xor_pairs : (a b p : ℕ) → bit_xor (bit_xor a p) (bit_xor b p) ≡ bit_xor a b
bit_xor_pairs a b p =
    rw (bit_xor_comm b p, bit_xor_assoc a p (bit_xor p b))
      (rw (← bit_xor_assoc p p b) (rw (bit_xor_self p) (rw (zero-bit_xor b))))

pub bit_xor_swap : (a b p : ℕ) → bit_xor (bit_xor a p) b ≡ bit_xor (bit_xor a b) p
bit_xor_swap a b p = rw (bit_xor_assoc a p b, bit_xor_assoc a b p, bit_xor_comm p b)

-- Exclusive or passes through a shift, and so through any number of them.
pub shift-bit_xor : (a b : ℕ) → shift (bit_xor a b) ≡ bit_xor (shift a) (shift b)
unfolding shift
shift-bit_xor a b = ground (
  arith,
  bit_xor_half a b,
  bit_xor_low a b,
  bit_xor_pairs (a / 2) (b / 2) 0xa001,
  bit_xor_swap (a / 2) (b / 2) 0xa001,
  bit_xor_assoc (a / 2) (b / 2) 0xa001,
)

pub shifts-bit_xor : (n a b : ℕ) → shifts n (bit_xor a b) ≡ bit_xor (shifts n a) (shifts n b)
unfolding shifts
shifts-bit_xor zero a b = refl
shifts-bit_xor (suc n) a b = rw (shift-bit_xor a b) (shifts-bit_xor n (shift a) (shift b))

pub shifts-add : (m n r : ℕ) → shifts (m + n) r ≡ shifts n (shifts m r)
unfolding shifts
shifts-add zero n r = rw zero-add
shifts-add (suc m) n r = rw suc-add (shifts-add m n (shift r))

eq_of_bit_xor-eq-zero : (a b : ℕ) → bit_xor a b ≡ 0 → a ≡ b
eq_of_bit_xor-eq-zero a b h =
    sym (bit_xor_cancel a b) ∙ ap (λ (t : ℕ). bit_xor t b) h ∙ zero-bit_xor b

shift-eq-zero : (r : ℕ) → r < 2 ^ 16 → shift r ≡ 0 → r ≡ 0
unfolding shift
shift-eq-zero r h e = ground (arith, eq_of_bit_xor-eq-zero (r / 2) 0xa001)

-- On 16-bit registers a shift loses nothing.
shift-injective : (a b : ℕ) → a < 2 ^ 16 → b < 2 ^ 16 → shift a ≡ shift b → a ≡ b
shift-injective a b ha hb e = eq_of_bit_xor-eq-zero a b (
    shift-eq-zero (bit_xor a b) (bit_xor-lt 16 a b ha hb)
      (shift-bit_xor a b ∙ rw e (bit_xor_self (shift b))))

pub shifts-injective : (n a b : ℕ) → a < 2 ^ 16 → b < 2 ^ 16 → shifts n a ≡ shifts n b → a ≡ b
unfolding shifts
shifts-injective zero a b ha hb e = e
shifts-injective (suc n) a b ha hb e =
    shift-injective a b ha hb
      (shifts-injective n (shift a) (shift b) (shift-lt a ha) (shift-lt b hb) e)

-- A value of `n` low zero bits is only moved by `n` shifts.
pub shifts-mul-pow : (n x : ℕ) → shifts n (x * 2 ^ n) ≡ x
unfolding shifts shift
shifts-mul-pow zero x = omega arith
shifts-mul-pow (suc n) x =
    let double : x * 2 ^ suc n ≡ 2 * (x * 2 ^ n) =
      omega (arith, ap (λ (t : ℕ). x * t) (pow-suc 2 n)) in
    let even : shift (x * 2 ^ suc n) ≡ x * 2 ^ n = ground arith in rw even (shifts-mul-pow n x)
