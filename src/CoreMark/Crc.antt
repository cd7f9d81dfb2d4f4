-- ===== src/CoreMark/Crc.antt =====
-- The CRC service functions of core_util.c. A signed 16-bit argument is its bit pattern.
pub mod Register
pub mod Laws
pub mod Detect
use rsicv_uvm_test.Base.{
  ℕ, zero, suc, u8, u16, ◌>>>◌, bit_and, bit_or, bit_xor, ◌==◌, if◌then◌else◌,
}

-- The local variables of `crcu8` that live across rounds.
pub record Round : Type 0 where
  pub crc_data : ℕ
  pub crc : ℕ

-- The body of the loop of `crcu8`.
pub crc_round : Round → Round
crc_round s =
    let x16 = u8 (bit_xor (bit_and s.crc_data 1) (bit_and (u8 s.crc) 1)) in
    let mixed = if x16 == 1 then bit_xor s.crc 0x4002 else s.crc in
    let carry : ℕ = if x16 == 1 then 1 else 0 in
    let shifted = mixed >>> 1 in
    record {
      crc_data = s.crc_data >>> 1;
      crc = if carry == 0 then bit_and shifted 0x7fff else bit_or shifted 0x8000;
    }

pub crc_rounds : ℕ → Round → Round
crc_rounds zero s = s
crc_rounds (suc left) s = crc_rounds left (crc_round s)

unfoldable pub crcu8 : (byte crc : ℕ) → ℕ
unfolding crc_rounds crc_round
crcu8 byte crc = (crc_rounds 8 (record { crc_data = byte; crc = crc })).crc

unfoldable pub crcu16 : (newval crc : ℕ) → ℕ
crcu16 newval crc = crcu8 (u8 (newval >>> 8)) (crcu8 (u8 newval) crc)

unfoldable pub crc16 : (newval crc : ℕ) → ℕ
crc16 newval crc = crcu16 (u16 newval) crc

unfoldable pub crcu32 : (newval crc : ℕ) → ℕ
crcu32 newval crc = crc16 (u16 (newval >>> 16)) (crc16 (u16 newval) crc)
