-- ===== src/Syscalls/Strings/Copy.antt =====
-- What memcpy and memset write, by words and by bytes.
use native.Mathlib.Nat.{suc-mul, zero-mul}
use rsicv_uvm_test.Base.{
  ℕ, zero, suc, ◌+◌, ◌*◌, ◌/◌, ◌%◌, ◌^◌, ◌≤◌, ◌<◌, ◌≡◌, refl, sym, ap, ap₂, ◌∙◌, arith, ==_iff,
  ◌==◌, Bool, Bool-cases, inl, inr, true, Option, some, List, [], ◌∷◌, ◌++◌, length, take, drop,
  drop-drop, length-drop, append-take, append-replicate, replicate, length-replicate, All, All-drop,
  bit_and, bit_or, u8, holds_at, holds_below,
}
use rsicv_uvm_test.Bits.Step.{bit_or_step}
use rsicv_uvm_test.Bits.Fields.{bit_and_low_mask}
use rsicv_uvm_test.Syscalls.Strings.{
  load, save, copy_units, is_aligned, memcpy, fill_units, spread, memset,
}

abbrev pub AreBytes : List ℕ → Type 0
AreBytes = All (λ c. c < 2 ^ 8)

-- The little-endian value of the first bytes.
abbrev pub word_of : (bytes : ℕ) → List ℕ → ℕ
word_of zero s = 0
word_of (suc k) [] = 0
word_of (suc k) (c ∷ s) = c + 2 ^ 8 * word_of k s

pub load_lem :
    (k : ℕ) (s : List ℕ)
    → k ≤ length s
    → load k s ≡ some (record { word = word_of k s; rest = drop k s })
load_lem zero s h = refl
load_lem (suc k) [] h = absurd (omega arith)
load_lem (suc k) (c ∷ s) h = rw (load_lem k s (omega arith)) refl

save_lem :
    (k : ℕ) (s d : List ℕ) (f : List ℕ → Option (List ℕ)) (written : List ℕ)
    → k ≤ length s
    → k ≤ length d
    → AreBytes s
    → f (drop k d) ≡ some written
    → save k (word_of k s) f d ≡ some (take k s ++ written)
save_lem zero s d f written hs hd bytes e = e
save_lem (suc k) [] d f written hs hd bytes e = absurd (omega arith)
save_lem (suc k) (c ∷ s) [] f written hs hd bytes e = absurd (omega arith)
save_lem (suc k) (c ∷ s) (o ∷ d) f written hs hd bytes e =
    let word = word_of k s in
    let upper : (c + 2 ^ 8 * word) / 2 ^ 8 ≡ word = omega (arith, bytes.0) in
    let lowest : (c + 2 ^ 8 * word) % 2 ^ 8 ≡ c = omega (arith, bytes.0) in
    rw (upper, save_lem k s d f written (omega arith) (omega arith) bytes.1 e, lowest) refl

copy_units_lem :
    (width units : ℕ) (d s : List ℕ)
    → units * width ≤ length d
    → units * width ≤ length s
    → AreBytes s
    → copy_units width units d s ≡ some (take (units * width) s ++ drop (units * width) d)
unfolding copy_units
copy_units_lem width zero d s hd hs bytes = rw (zero-mul width) refl
copy_units_lem width (suc units) d s hd hs bytes =
    let total : suc units * width ≡ width + units * width = omega (arith, suc-mul units width) in
    let left = length-drop width d in
    let still = length-drop width s in
    let rest =
      copy_units_lem width units (drop width d) (drop width s) (omega arith) (omega arith)
        (All-drop (λ c. c < 2 ^ 8) width s bytes) in
    let word = load_lem width s (omega arith) in
    rw
      (
        word,
        save_lem width s d (λ d'. copy_units width units d' (drop width s)) _ (omega arith)
            (omega arith) bytes rest,
      )
      (ap some (
        append-take width (units * width) s _
        ∙ ap₂ (λ m t. take m s ++ t) (sym total)
            (drop-drop width (units * width) d ∙ ap (λ m. drop m d) (sym total))))

-- The test of alignment includes the length.
aligned-length : (addresses len : ℕ) → is_aligned (bit_or addresses len) ≡ true → len / 8 * 8 ≡ len
aligned-length a len h =
    let low : bit_or a len % 8 ≡ 0 =
      sym (bit_and_low_mask 3 (bit_or a len)) ∙ (==_iff (bit_and (bit_or a len) 7) 0).0 h in
    omega (
      arith,
      bit_or_step a len,
      bit_or_step (a / 2) (len / 2),
      bit_or_step (a / 2 / 2) (len / 2 / 2),
    )

fill_units_lem :
    (width units c : ℕ) (d : List ℕ)
    → c < 2 ^ 8
    → units * width ≤ length d
    → fill_units width units (word_of width (replicate width c)) d
      ≡ some (replicate (units * width) c ++ drop (units * width) d)
unfolding fill_units
fill_units_lem width zero c d h hd = rw (zero-mul width) refl
fill_units_lem width (suc units) c d h hd =
    let total : suc units * width ≡ width + units * width = omega (arith, suc-mul units width) in
    let left = length-drop width d in
    let rest = fill_units_lem width units c (drop width d) h (omega arith) in
    let block = length-replicate width c in
    save_lem width (replicate width c) d
      (fill_units width units (word_of width (replicate width c))) _ (omega arith) (omega arith)
      (all_equal width) rest
    ∙ ap some (
        ap (λ t. t ++ (replicate (units * width) c ++ drop (units * width) (drop width d)))
          (take_all width)
        ∙ append-replicate width (units * width) c _
        ∙ ap₂ (λ m t. replicate m c ++ t) (sym total)
            (drop-drop width (units * width) d ∙ ap (λ m. drop m d) (sym total)))
  where
    all_equal : (k : ℕ) → AreBytes (replicate k c)
    all_equal zero = tt
    all_equal (suc k) = (h, all_equal k)

    take_all : (k : ℕ) → take k (replicate k c) ≡ replicate k c
    take_all zero = refl
    take_all (suc k) = ap (◌∷◌ c) (take_all k)

spreads : ℕ → Bool
spreads c = spread c == word_of 8 (replicate 8 c)

spreads_table : holds_below 256 spreads ≡ true
unfolding spreads holds_below
spreads_table = refl

spread_lem : (c : ℕ) → c < 2 ^ 8 → spread c ≡ word_of 8 (replicate 8 c)
unfolding spreads
spread_lem c h =
    (==_iff (spread c) (word_of 8 (replicate 8 c))).0 (holds_at 256 spreads c spreads_table h)

-- On separate blocks of at least `len` bytes, memcpy and memset return, whatever the alignment of the
-- addresses. The first len bytes of the destination are then those of the source, or the low byte of the
-- argument, and the others are as they were.
pub memcpy-memset :
    (dest_at src_at : ℕ) (dest src : List ℕ) (byte len : ℕ)
    → len ≤ length dest
    → len ≤ length src
    → AreBytes src
    → (memcpy dest_at src_at dest src len ≡ some (take len src ++ drop len dest))
      × (memset dest_at dest byte len ≡ some (replicate len (u8 byte) ++ drop len dest))
unfolding memcpy memset
memcpy-memset dest_at src_at dest src byte len hd hs bytes = (copied, filled)
  where
    copied : memcpy dest_at src_at dest src len ≡ some (take len src ++ drop len dest)
    copied = elim (Bool-cases (is_aligned (bit_or (bit_or dest_at src_at) len))) [
      | inl words ↦
          let whole = aligned-length (bit_or dest_at src_at) len words in
          rw words (copy_units_lem 8 (len / 8) dest src (omega arith) (omega arith) bytes)
          ∙ ap (λ m. some (take m src ++ drop m dest)) whole
      | inr single ↦
          let whole : len * 1 ≡ len = omega arith in
          rw single (copy_units_lem 1 len dest src (omega arith) (omega arith) bytes)
          ∙ ap (λ m. some (take m src ++ drop m dest)) whole
    ]

    filled : memset dest_at dest byte len ≡ some (replicate len (u8 byte) ++ drop len dest)
    filled = elim (Bool-cases (is_aligned (bit_or dest_at len))) [
      | inl words ↦
          let whole = aligned-length dest_at len words in
          let low : bit_and byte 255 ≡ u8 byte = bit_and_low_mask 8 byte in
          rw (words, low, spread_lem (u8 byte) (omega arith))
            (fill_units_lem 8 (len / 8) (u8 byte) dest (omega arith) (omega arith))
          ∙ ap (λ m. some (replicate m (u8 byte) ++ drop m dest)) whole
      | inr single ↦
          let whole : len * 1 ≡ len = omega arith in
          let one_byte : u8 byte + 2 ^ 8 * 0 ≡ u8 byte = omega arith in
          rw single (ap (λ w. fill_units 1 len w dest) (sym one_byte))
          ∙ fill_units_lem 1 len (u8 byte) dest (omega arith) (omega arith)
          ∙ ap (λ m. some (replicate m (u8 byte) ++ drop m dest)) whole
    ]
