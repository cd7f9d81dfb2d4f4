-- ===== src/CoreMark/Matrix/Product.antt =====
-- The products of core_matrix.c against the mathematical product of matrices.
use rsicv_uvm_test.Base.{
  ℕ, ◌+◌, ◌*◌, ◌/◌, ◌%◌, ◌^◌, ◌≤◌, ◌<◌, ◌≡◌, ◌∙◌, ap₂, List, length, Returns, Returns-weaken, u32,
}
use rsicv_uvm_test.CoreMark.Matrix.{
  product, extracted, matrix_mul_matrix, matrix_mul_matrix_bitextract,
}
use rsicv_uvm_test.CoreMark.Matrix.Fill.{at, IsFilled, index_lt}
use rsicv_uvm_test.CoreMark.Matrix.Entries.{
  total, matrix_entry, mul_matrix_by-Returns, row_of, column_of,
}

-- Each entry is the sum of the terms of a row of the one and a column of the other, modulo 2 to
-- the 32, and nothing behind the matrix has changed.
pub record IsProduct (term : ℕ → ℕ → ℕ) (n : ℕ) (c a b r : List ℕ) : Type 0 where
  pub same_length : length r ≡ length c
  pub entries :
      (i j : ℕ)
      → i < n
      → j < n
      → at r (i * n + j) ≡ u32 (total n (λ k. term (at a (i * n + k)) (at b (k * n + j))))
  pub behind : (p : ℕ) → n * n ≤ p → at r p ≡ at c p

pub filled-IsProduct :
    (term : ℕ → ℕ → ℕ) (n : ℕ) (small : n * n ≤ 2 ^ 32) (c a b r : List ℕ)
    → IsFilled (λ p. matrix_entry n small term a b (p / n) (p % n)) c (n * n) r
    → IsProduct term n c a b r
filled-IsProduct term n small c a b r f = record {
  same_length = f.same_length;
  entries = λ i j hi hj.
      f.filled (i * n + j) (index_lt n i j hi hj)
      ∙ ap₂ (matrix_entry n small term a b) (row_of n small i j hj) (column_of n small i j hj);
  behind = f.rest;
}

-- On three blocks of at least `n * n` cells, of which there are at most 2 to the 32, both products
-- return. The entries of the one are the sums of the products of a row and a column, those of the
-- other the sums of the two bit fields of such a product multiplied, modulo 2 to the 32.
pub matrix_mul_matrix-IsProduct :
    (n : ℕ) (c a b : List ℕ)
    → n * n ≤ 2 ^ 32
    → n * n ≤ length a
    → n * n ≤ length b
    → n * n ≤ length c
    → Returns (IsProduct product n c a b) (matrix_mul_matrix n c a b)
      × Returns (IsProduct extracted n c a b) (matrix_mul_matrix_bitextract n c a b)
unfolding matrix_mul_matrix matrix_mul_matrix_bitextract
matrix_mul_matrix-IsProduct n c a b small ha hb hc = (
  Returns-weaken (filled-IsProduct product n small c a b)
      (mul_matrix_by-Returns n small product c a b ha hb hc),
  Returns-weaken (filled-IsProduct extracted n small c a b)
      (mul_matrix_by-Returns n small extracted c a b ha hb hc),
)
