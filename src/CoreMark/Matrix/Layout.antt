-- ===== src/CoreMark/Matrix/Layout.antt =====
-- What `core_init_matrix` makes of its block.
use native.Mathlib.Nat.{mul-le-mul}
use native.Mathlib.Decide.{dec_lt, ℕ_discrete}
use rsicv_uvm_test.Base.{
  ℕ, zero, suc, ◌+◌, ◌-◌, ◌*◌, ◌/◌, ◌%◌, ◌^◌, ◌≤◌, ◌<◌, ◌≡◌, refl, ◌∙◌, arith, ltb, ◌==◌,
  if◌then◌else◌, Bool-cases, inl, inr, ◌⊎◌, List, length, length-set, get_or-set_self,
  get_or-set_ne, set, store_of_lt, Returns, returns, Returns-then, u16, u32, bit_and,
}
use rsicv_uvm_test.Bits.Step.{bit_and_step}
use rsicv_uvm_test.Bits.Fields.{bit_and_low_mask}
use rsicv_uvm_test.CoreMark.Matrix.{cell, matrix_clip}
use rsicv_uvm_test.CoreMark.Matrix.Fill.{at, index_lt, cell_lem, grid_claim}
use rsicv_uvm_test.CoreMark.Matrix.Init.{
  dimension, rem_65536, Values, init_step, align_mem, MatParams, core_init_matrix,
}

-- `n` is the greatest number whose three matrices take less than the block.
abbrev pub IsLargest : (blksize n : ℕ) → Type 0
IsLargest blksize n = (8 * (n * n) < blksize) × (blksize ≤ 8 * ((n + 1) * (n + 1)))

square_bound : (i : ℕ) → 8 * (i * i) < 2 ^ 31 → i < 16384
square_bound i h = elim (dec_lt i 16384) [
  | yes small ↦ small
  | no large ↦
      let large' : 16384 ≤ i = omega arith in
      let most : 16384 * 16384 ≤ i * i = mul-le-mul {n₁ = 16384} {m₁ = 16384} large' large' in
      absurd (omega (arith, most))
]

from_zero : (i blksize : ℕ) → 0 < blksize → blksize ≤ 8 * (i * i) → 1 ≤ i
from_zero zero blksize h k = absurd (omega arith)
from_zero (suc i) blksize h k = omega arith

dimension-IsLargest :
    (fuel blksize i : ℕ)
    → blksize ≤ 2 ^ 31
    → i ≤ 16384
    → 16385 ≤ i + fuel
    → (i ≡ 0) ⊎ (8 * ((i - 1) * (i - 1)) < blksize)
    → 0 < blksize
    → Returns (λ n. IsLargest blksize n × (n ≤ 16383)) (dimension fuel blksize i (8 * (i * i)))
unfolding dimension
dimension-IsLargest zero blksize i h k enough low pos = absurd (omega arith)
dimension-IsLargest (suc fuel) blksize i h k enough low pos =
    elim (Bool-cases (ltb (8 * (i * i)) blksize)) [
      | inl more ↦
          let below : 8 * (i * i) < blksize = ground arith in
          let small = square_bound i (omega arith) in
          let index : u32 (i + 1) ≡ i + 1 = omega arith in
          let most : (i + 1) * (i + 1) ≤ 16384 * 16384 =
            mul-le-mul {n₂ = 16384} {m₂ = 16384} (omega arith) (omega arith) in
          let next : u32 ((i + 1) * (i + 1) * 2 * 4) ≡ 8 * ((i + 1) * (i + 1)) = omega arith in
          let back : i + 1 - 1 ≡ i = omega arith in
          rw (more, index, next)
            (dimension-IsLargest fuel blksize (i + 1) h (omega arith) (omega arith)
              (inr (rw back below)) pos)
      | inr done ↦
          let last : blksize ≤ 8 * (i * i) = ground arith in
          let positive : 1 ≤ i = from_zero i blksize pos last in
          let value : u32 (i + 2 ^ 32 - 1) ≡ i - 1 = omega arith in
          let next : i - 1 + 1 ≡ i = omega arith in
          let lower : 8 * ((i - 1) * (i - 1)) < blksize = elim low [
            | inl e ↦ absurd (omega (arith, positive))
            | inr below ↦ below
          ] in
          rw (done, value) (returns (i - 1) ((lower, rw next last), omega arith))
    ]

values_bound : (n : ℕ) → n ≤ 16383 → n * n ≤ 16383 * 16383
values_bound n h = mul-le-mul h h

-- The values written are small: those of `A` take 8 bits and those of `B` 16.
record IsSmall (a b : List ℕ) (count : ℕ) (s : Values) : Type 0 where
  a_length : length s.a ≡ length a
  b_length : length s.b ≡ length b
  a_small : (p : ℕ) → p < count → at s.a p < 2 ^ 8
  b_small : (p : ℕ) → p < count → at s.b p < 2 ^ 16

set-small :
    (m : List ℕ) (p v bound : ℕ)
    → p < length m
    → v < bound
    → ((q : ℕ) → q < p → at m q < bound)
    → (q : ℕ) → q < p + 1
    → at (set m p v) q < bound
set-small m p v bound h k small q below = elim (ℕ_discrete p q) [
  | yes e ↦ rw (← e, get_or-set_self m p v 0 h) k
  | no ne ↦ rw (get_or-set_ne m p q v 0 ne) (small q (omega arith))
]

low_byte : (x : ℕ) → matrix_clip x 1 < 2 ^ 8
low_byte x = omega (arith, bit_and_low_mask 8 x)

low_half : (x : ℕ) → matrix_clip x 0 < 2 ^ 16
low_half x = omega (arith, bit_and_low_mask 16 x)

init_step-IsSmall :
    (a b : List ℕ) (p : ℕ) (s : Values)
    → p < length a
    → p < length b
    → IsSmall a b p s
    → Returns (IsSmall a b (p + 1)) (init_step p s)
unfolding init_step
init_step-IsSmall a b p s ha hb v =
    let seed' = rem_65536 (u32 (s.order * s.seed)) in
    let val = matrix_clip (u16 (seed' + s.order)) 0 in
    let byte = matrix_clip (u16 (val + s.order)) 1 in
    let inside_a : p < length s.a = omega (arith, v.a_length) in
    let inside_b : p < length s.b = omega (arith, v.b_length) in
    rw (store_of_lt s.b p val inside_b, store_of_lt s.a p byte inside_a)
      (returns
        (record { seed = seed'; order = u32 (s.order + 1); a = set s.a p byte; b = set s.b p val })
        (record {
          a_length = length-set s.a p byte ∙ v.a_length;
          b_length = length-set s.b p val ∙ v.b_length;
          a_small =
              set-small s.a p byte (2 ^ 8) inside_a (low_byte (u16 (val + s.order))) v.a_small;
          b_small =
              set-small s.b p val (2 ^ 16) inside_b (low_half (u16 (seed' + s.order))) v.b_small;
        }))

-- Rounding down to a multiple of 4.
mask_low_two : (x : ℕ) → x < 2 ^ 32 → bit_and x (2 ^ 32 - 4) ≡ x / 4 * 4
mask_low_two x h = omega (
  arith,
  bit_and_step x (2 ^ 32 - 4),
  bit_and_step (x / 2) (2 ^ 31 - 2),
  bit_and_low_mask 30 (x / 2 / 2),
)

align_mem_lem : (x : ℕ) → x + 3 < 2 ^ 32 → x % 4 ≡ 0 → align_mem x ≡ x
align_mem_lem x h k = omega (arith, mask_low_two (u32 (x + 4 - 1)) (omega arith))

-- The three matrices lie in the block, one behind the other, and their values are small.
pub record IsPrepared (blksize memblk : ℕ) (a b : List ℕ) (m : MatParams) : Type 0 where
  pub largest : IsLargest blksize m.n
  pub a_place : m.a_at ≡ memblk
  pub b_place : m.b_at ≡ m.a_at + 2 * (m.n * m.n)
  pub c_place : m.c_at ≡ m.b_at + 2 * (m.n * m.n)
  pub inside : m.c_at + 4 * (m.n * m.n) < memblk + blksize
  pub a_length : length m.a ≡ length a
  pub b_length : length m.b ≡ length b
  pub a_small : (p : ℕ) → p < m.n * m.n → at m.a p < 2 ^ 8
  pub b_small : (p : ℕ) → p < m.n * m.n → at m.b p < 2 ^ 16

-- For a block of 1 to 2 to the 31 bytes at a multiple of 4, inside 32-bit memory, and blocks of
-- values with an element for each 8 bytes, `core_init_matrix` returns, whatever the seed. Its
-- dimension is the greatest whose three matrices take less than the block; they lie in the block
-- one behind the other; the values of the first take 8 bits and those of the second 16.
pub core_init_matrix-IsPrepared :
    (blksize memblk seed : ℕ) (a b : List ℕ)
    → 0 < blksize
    → blksize ≤ 2 ^ 31
    → memblk % 4 ≡ 0
    → memblk + blksize < 2 ^ 32
    → blksize ≤ 8 * length a
    → blksize ≤ 8 * length b
    → Returns (IsPrepared blksize memblk a b) (core_init_matrix blksize memblk seed a b)
unfolding core_init_matrix
core_init_matrix-IsPrepared blksize memblk seed a b pos most aligned fits ha hb =
    Returns-then _
      (dimension-IsLargest 0x1_0000 blksize 0 most (omega arith) (omega arith) (inl refl) pos)
      (λ n d.
        let (largest, small) = d in
        let square = values_bound n small in
        let start : Values = record {
          seed = if seed == 0 then 1 else seed;
          order = 1;
          a = a;
          b = b;
        } in
        let exact : u32 (n * n) ≡ n * n = omega arith in
        let a_place = align_mem_lem memblk (omega arith) aligned in
        let b_place : u32 (memblk + 2 * (n * n)) ≡ memblk + 2 * (n * n) = omega arith in
        let c_place =
          align_mem_lem (memblk + 2 * (n * n) + 2 * (n * n)) (omega arith) (omega arith) in
        Returns-then _
          (grid_claim n (IsSmall a b) (λ i j. init_step (cell n i j))
            (λ i j s hi hj v.
              let below = index_lt n i j hi hj in
              rw (cell_lem n i j hi hj (omega arith))
                (init_step-IsSmall a b (i * n + j) s (omega arith) (omega arith) v))
            start
            (record {
              a_length = refl;
              b_length = refl;
              a_small = λ p h. absurd (omega arith);
              b_small = λ p h. absurd (omega arith);
            }))
          (λ filled v.
            rw (exact, a_place, b_place, c_place)
              (returns _ (record {
                largest = largest;
                a_place = refl;
                b_place = refl;
                c_place = refl;
                inside = omega arith;
                a_length = v.a_length;
                b_length = v.b_length;
                a_small = v.a_small;
                b_small = v.b_small;
              }))))
