-- ===== src/CoreMark/Matrix/Init.antt =====
-- `core_init_matrix`: the dimension, the values, and the places of the three matrices in the block.
use rsicv_uvm_test.Base.{
  ℕ, zero, suc, ◌+◌, ◌-◌, ◌*◌, ◌%◌, ◌^◌, ltb, ◌==◌, if◌then◌else◌, Option, none, some, List, store,
  ◌>>=◌, for, u16, u32, bit_and,
}
use rsicv_uvm_test.CoreMark.Matrix.{cell, matrix_clip}

-- `while (j<blksize) { i++; j=i*i*2*4; } N=i-1;`.
unfoldable pub dimension : (fuel blksize i j : ℕ) → Option ℕ
dimension zero blksize i j = none
dimension (suc fuel) blksize i j =
    let rest = dimension fuel blksize (u32 (i + 1)) (u32 (u32 (i + 1) * u32 (i + 1) * 2 * 4)) in
    if ltb j blksize then rest else some (u32 (i + 2 ^ 32 - 1))

-- `x % 65536` for a value of 32 bits with sign.
abbrev pub rem_65536 : ℕ → ℕ
rem_65536 x = if ltb x (2 ^ 31) then x % 65536 else u32 (2 ^ 32 - (2 ^ 32 - x) % 65536)

-- The variables of the double loop.
pub record Values : Type 0 where
  pub seed : ℕ
  pub order : ℕ
  pub a : List ℕ
  pub b : List ℕ

unfoldable pub init_step : (p : ℕ) → Values → Option Values
init_step p s = do
  let seed' = rem_65536 (u32 (s.order * s.seed))
  let val = matrix_clip (u16 (seed' + s.order)) 0
  b' ← store s.b p val
  a' ← store s.a p (matrix_clip (u16 (val + s.order)) 1)
  some (record { seed = seed'; order = u32 (s.order + 1); a = a'; b = b' })

-- `align_mem`.
abbrev pub align_mem : ℕ → ℕ
align_mem x = bit_and (u32 (x + 4 - 1)) (2 ^ 32 - 4)

-- `mat_params`, and the contents of the two matrices.
pub record MatParams : Type 0 where
  pub n : ℕ
  pub a_at : ℕ
  pub b_at : ℕ
  pub c_at : ℕ
  pub a : List ℕ
  pub b : List ℕ

-- `a` and `b` are the blocks that start at the places of the two matrices.
unfoldable pub core_init_matrix : (blksize memblk seed : ℕ) → (a b : List ℕ) → Option MatParams
unfolding dimension init_step
core_init_matrix blksize memblk seed a b = do
  n ← dimension 0x1_0000 blksize 0 0
  let a_at = align_mem memblk
  let b_at = u32 (a_at + 2 * u32 (n * n))
  filled ←
      for n 0 (λ i. for n 0 (λ j. init_step (cell n i j)))
        (record { seed = if seed == 0 then 1 else seed; order = 1; a = a; b = b })
  some (record {
    n = n;
    a_at = a_at;
    b_at = b_at;
    c_at = align_mem (b_at + 2 * u32 (n * n));
    a = filled.a;
    b = filled.b;
  })
