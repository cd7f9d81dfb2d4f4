-- ===== src/CoreMark/Crc/Laws.antt =====
-- The checksum functions of core_util.c are the reflected CRC-16 register run over the bits.
use rsicv_uvm_test.Base.{
  ℕ, zero, suc, ◌+◌, ◌*◌, ◌/◌, ◌%◌, ◌^◌, ◌<◌, bit_or, bit_xor, ◌≡◌, refl, sym, ap, ◌∙◌, arith, ◌==◌,
  if◌then◌else◌, u8, u16, ◌>>>◌,
}
use native.Mathlib.Nat.{pow-suc}
use rsicv_uvm_test.Bits.Step.{bit_xor_step}
use rsicv_uvm_test.Bits.Fields.{
  bit_and-one, bit_and_low_mask, bit_or_top, bit_xor_top, bit_xor_disjoint,
}
use rsicv_uvm_test.Bits.Xor.{
  bit_xor_half, bit_xor_low, bit_xor_comm, bit_xor_assoc, bit_xor-zero, bit_xor-lt,
}
use rsicv_uvm_test.CoreMark.Crc.{Round, crc_round, crc_rounds, crcu8, crcu16, crc16, crcu32}
use rsicv_uvm_test.CoreMark.Crc.Register.{
  shift, shifts, bit_xor_swap, shifts-lt, shifts-bit_xor, shifts-add, shifts-mul-pow,
}

bit_xor_bits : (x y : ℕ) → bit_xor (x % 2) (y % 2) ≡ (x + y) % 2
bit_xor_bits x y = ground (arith, bit_xor_step (x % 2) (y % 2))

-- `>> 1` with the feedback of 0x4002, and the top bit set or cleared afterwards.
feedback_shift :
    (c : ℕ) → c < 2 ^ 16 → bit_or (bit_xor c 0x4002 >>> 1) 0x8000 ≡ bit_xor (c / 2) 0xa001
feedback_shift c h = ground (
  arith,
  bit_xor_half c 0x4002,
  bit_or_top 15 (bit_xor (c / 2) 0x2001),
  bit_xor_top 15 (bit_xor (c / 2) 0x2001),
  bit_xor-lt 15 (c / 2) 0x2001,
  bit_xor_assoc (c / 2) 0x2001 0x8000,
)

-- The register after a round, with the bit operations read as arithmetic.
round_register :
    (s : Round)
    → s.crc < 2 ^ 16
    → (crc_round s).crc
      ≡ (if (s.crc_data + s.crc) % 2 == 1 then bit_xor (s.crc / 2) 0xa001 else s.crc / 2)
unfolding crc_round
round_register s h = ground (
  arith,
  bit_and-one s.crc_data,
  bit_and-one (u8 s.crc),
  bit_xor_bits s.crc_data s.crc,
  feedback_shift s.crc h,
  bit_and_low_mask 15 (s.crc / 2),
)

round_register-lt : (s : Round) → s.crc < 2 ^ 16 → (crc_round s).crc < 2 ^ 16
round_register-lt s h = ground (arith, round_register s h, bit_xor-lt 16 (s.crc / 2) 0xa001)

round_data : (s : Round) → (crc_round s).crc_data ≡ s.crc_data / 2
unfolding crc_round
round_data s = refl

-- One round keeps the register, mixed with the bits of the byte that are left, in step.
round-shift :
    (s : Round)
    → s.crc < 2 ^ 16
    → bit_xor (crc_round s).crc (crc_round s).crc_data ≡ shift (bit_xor s.crc s.crc_data)
unfolding shift
round-shift s h = ground (
  arith,
  round_register s h,
  round_data s,
  bit_xor_half s.crc s.crc_data,
  bit_xor_low s.crc s.crc_data,
  bit_xor_swap (s.crc / 2) (s.crc_data / 2) 0xa001,
)

rounds-shifts :
    (n : ℕ) (s : Round)
    → s.crc < 2 ^ 16
    → bit_xor (crc_rounds n s).crc (crc_rounds n s).crc_data ≡ shifts n (bit_xor s.crc s.crc_data)
unfolding crc_rounds shifts
rounds-shifts zero s h = refl
rounds-shifts (suc n) s h =
    rounds-shifts n (crc_round s) (round_register-lt s h) ∙ ap (shifts n) (round-shift s h)

rounds_data : (n : ℕ) (s : Round) → s.crc_data < 2 ^ n → (crc_rounds n s).crc_data ≡ 0
unfolding crc_rounds
rounds_data zero s h = omega arith
rounds_data (suc n) s h = rounds_data n (crc_round s) (ground (arith, round_data s, pow-suc 2 n))

-- For a byte and a 16-bit checksum, `crcu8` is eight shifts of the reflected CRC-16 register,
-- started at the exclusive or of the two.
crcu8-shifts :
    (byte crc : ℕ) → byte < 2 ^ 8 → crc < 2 ^ 16 → crcu8 byte crc ≡ shifts 8 (bit_xor crc byte)
unfolding crcu8
crcu8-shifts byte crc hb hc =
    let s : Round = record { crc_data = byte; crc = crc } in
    sym (bit_xor-zero (crc_rounds 8 s).crc)
    ∙ ap (bit_xor (crc_rounds 8 s).crc) (sym (rounds_data 8 s hb))
    ∙ rounds-shifts 8 s hc

crcu8-lt : (byte crc : ℕ) → byte < 2 ^ 8 → crc < 2 ^ 16 → crcu8 byte crc < 2 ^ 16
crcu8-lt byte crc hb hc =
    rw (crcu8-shifts byte crc hb hc)
      (shifts-lt 8 (bit_xor crc byte) (bit_xor-lt 16 crc byte hc (omega arith)))

-- Feeding the low part and then, after `n` shifts, the part above bit `n`, is feeding both at once.
feed_twice :
    (n c hi lo : ℕ)
    → lo < 2 ^ n
    → bit_xor (shifts n (bit_xor c lo)) hi ≡ shifts n (bit_xor c (hi * 2 ^ n + lo))
feed_twice n c hi lo h =
    rw
      (
        ← bit_xor_disjoint n hi lo h,
        bit_xor_comm (hi * 2 ^ n) lo,
        ← bit_xor_assoc c lo (hi * 2 ^ n),
        shifts-bit_xor n (bit_xor c lo) (hi * 2 ^ n),
        shifts-mul-pow n hi,
      )
      refl

-- For a 16-bit value and a 16-bit checksum, `crcu16` is sixteen shifts of the register, started
-- at the exclusive or of the two.
pub crcu16-shifts :
    (v crc : ℕ) → v < 2 ^ 16 → crc < 2 ^ 16 → crcu16 v crc ≡ shifts 16 (bit_xor crc v)
unfolding crcu16
crcu16-shifts v crc hv hc =
    let low : ℕ = v % 2 ^ 8 in
    let high : ℕ = v / 2 ^ 8 in
    let joined : high * 2 ^ 8 + low ≡ v = omega arith in
    let byte : u8 high ≡ high = omega arith in
    rw
      (
        byte,
        crcu8-shifts high (crcu8 low crc) (omega arith) (crcu8-lt low crc (omega arith) hc),
        crcu8-shifts low crc (omega arith) hc,
        feed_twice 8 crc high low (omega arith),
        joined,
      )
      (sym (shifts-add 8 8 (bit_xor crc v)))

pub crcu16-lt : (v crc : ℕ) → v < 2 ^ 16 → crc < 2 ^ 16 → crcu16 v crc < 2 ^ 16
crcu16-lt v crc hv hc =
    rw (crcu16-shifts v crc hv hc) (shifts-lt 16 (bit_xor crc v) (bit_xor-lt 16 crc v hc hv))

-- For a 32-bit value and a 16-bit checksum, `crcu32` is 32 shifts of the register, started at
-- the exclusive or of the two.
crcu32-shifts : (v crc : ℕ) → v < 2 ^ 32 → crc < 2 ^ 16 → crcu32 v crc ≡ shifts 32 (bit_xor crc v)
unfolding crcu32 crc16
crcu32-shifts v crc hv hc =
    let low : ℕ = v % 2 ^ 16 in
    let high : ℕ = v / 2 ^ 16 in
    let joined : high * 2 ^ 16 + low ≡ v = omega arith in
    let cast_high : u16 (u16 high) ≡ high = omega arith in
    let cast_low : u16 low ≡ low = omega arith in
    rw
      (
        cast_high,
        cast_low,
        crcu16-shifts high (crcu16 low crc) (omega arith) (crcu16-lt low crc (omega arith) hc),
        crcu16-shifts low crc (omega arith) hc,
        feed_twice 16 crc high low (omega arith),
        joined,
      )
      (sym (shifts-add 16 16 (bit_xor crc v)))

-- For a byte, a 16-bit value, a 32-bit value and a 16-bit checksum, crcu8, crcu16 and crcu32 are 8, 16 and 32
-- shifts of the reflected CRC-16 register, started at the exclusive or of the checksum and the value.
pub crc-shifts :
    (byte v w crc : ℕ)
    → byte < 2 ^ 8
    → v < 2 ^ 16
    → w < 2 ^ 32
    → crc < 2 ^ 16
    → (crcu8 byte crc ≡ shifts 8 (bit_xor crc byte))
      × ((crcu16 v crc ≡ shifts 16 (bit_xor crc v)) × (crcu32 w crc ≡ shifts 32 (bit_xor crc w)))
crc-shifts byte v w crc hb hv hw hc =
    (crcu8-shifts byte crc hb hc, (crcu16-shifts v crc hv hc, crcu32-shifts w crc hw hc))
