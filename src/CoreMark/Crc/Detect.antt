-- ===== src/CoreMark/Crc/Detect.antt =====
-- What the checksum of core_util.c detects in a sequence of 16-bit values, as core_list_join.c
-- runs it over the items of its list.
use rsicv_uvm_test.Base.{
  ℕ, ◌^◌, ◌<◌, bit_xor, ◌≡◌, ◌≢◌, sym, ap, ◌∙◌, arith, u16, List, [], ◌∷◌, ◌++◌, All,
}
use rsicv_uvm_test.Bits.Xor.{bit_xor_comm, bit_xor_cancel, bit_xor-lt}
use rsicv_uvm_test.CoreMark.Crc.{crc16, crcu16}
use rsicv_uvm_test.CoreMark.Crc.Register.{shifts-injective}
use rsicv_uvm_test.CoreMark.Crc.Laws.{crcu16-shifts, crcu16-lt}

abbrev pub IsU16 : ℕ → Type 0
IsU16 v = v < 2 ^ 16

-- The checksum of a sequence of values.
unfoldable pub crc16_all : List ℕ → ℕ → ℕ
crc16_all [] crc = crc
crc16_all (v ∷ vs) crc = crc16_all vs (crc16 v crc)

crc16-lt : (v crc : ℕ) → crc < 2 ^ 16 → crc16 v crc < 2 ^ 16
unfolding crc16
crc16-lt v crc hc = crcu16-lt (u16 v) crc (omega arith) hc

-- Equal checksums after a value mean equal mixtures before it.
crc16-mixture :
    (v w c d : ℕ)
    → IsU16 v
    → IsU16 w
    → c < 2 ^ 16
    → d < 2 ^ 16
    → crc16 v c ≡ crc16 w d
    → bit_xor c v ≡ bit_xor d w
unfolding crc16
crc16-mixture v w c d hv hw hc hd e =
    let keep_v : u16 v ≡ v = omega arith in
    let keep_w : u16 w ≡ w = omega arith in
    let e' : crcu16 v c ≡ crcu16 w d =
      sym (ap (λ (t : ℕ). crcu16 t c) keep_v) ∙ e ∙ ap (λ (t : ℕ). crcu16 t d) keep_w in
    shifts-injective 16 (bit_xor c v) (bit_xor d w) (bit_xor-lt 16 c v hc hv)
      (bit_xor-lt 16 d w hd hw) (sym (crcu16-shifts v c hv hc) ∙ e' ∙ crcu16-shifts w d hw hd)

bit_xor-injective_left : (c d v : ℕ) → bit_xor c v ≡ bit_xor d v → c ≡ d
bit_xor-injective_left c d v e =
    sym (bit_xor_cancel c v) ∙ ap (λ (t : ℕ). bit_xor t v) e ∙ bit_xor_cancel d v

crc16_all-injective :
    (vs : List ℕ) (c d : ℕ)
    → All IsU16 vs
    → c < 2 ^ 16
    → d < 2 ^ 16
    → crc16_all vs c ≡ crc16_all vs d
    → c ≡ d
unfolding crc16_all
crc16_all-injective [] c d hs hc hd e = e
crc16_all-injective (v ∷ vs) c d hs hc hd e =
    let now =
      crc16_all-injective vs (crc16 v c) (crc16 v d) hs.1 (crc16-lt v c hc) (crc16-lt v d hd) e in
    bit_xor-injective_left c d v (crc16-mixture v v c d hs.0 hs.0 hc hd now)

one_place :
    (before after : List ℕ) (v w crc : ℕ)
    → All IsU16 after
    → IsU16 v
    → IsU16 w
    → crc < 2 ^ 16
    → crc16_all (before ++ v ∷ after) crc ≡ crc16_all (before ++ w ∷ after) crc
    → v ≡ w
unfolding crc16_all
one_place [] after v w crc hs hv hw hc e =
    let now =
      crc16_all-injective after (crc16 v crc) (crc16 w crc) hs (crc16-lt v crc hc)
        (crc16-lt w crc hc) e in
    bit_xor-injective_left v w crc
      (bit_xor_comm v crc ∙ crc16-mixture v w crc crc hv hw hc hc now ∙ bit_xor_comm crc w)
one_place (x ∷ before) after v w crc hs hv hw hc e =
    one_place before after v w (crc16 x crc) hs hv hw (crc16-lt x crc hc) e

-- Two sequences of values that differ in one place, by 16-bit values there and with 16-bit values
-- behind it, have different checksums from the same 16-bit start, whatever stands before.
pub crc16_all_detects :
    (before after : List ℕ) (v w crc : ℕ)
    → All IsU16 after
    → IsU16 v
    → IsU16 w
    → crc < 2 ^ 16
    → v ≢ w
    → crc16_all (before ++ v ∷ after) crc ≢ crc16_all (before ++ w ∷ after) crc
crc16_all_detects before after v w crc hs hv hw hc ne e =
    ne (one_place before after v w crc hs hv hw hc e)
