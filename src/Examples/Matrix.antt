-- ===== src/Examples/Matrix.antt =====
-- The CoreMark matrices on two rows of two.
use rsicv_uvm_test.Base.{
  ℕ, zero, suc, ◌^◌, ◌<◌, ◌≡◌, refl, arith, some, List, [], ◌∷◌, replicate, for, Returns,
}
use rsicv_uvm_test.CoreMark.Matrix.{
  product, extracted, matrix_mul_vect, matrix_mul_matrix, matrix_mul_matrix_bitextract, matrix_sum,
  matrix_test,
}
use rsicv_uvm_test.CoreMark.Matrix.Fill.{at}
use rsicv_uvm_test.CoreMark.Matrix.Product.{IsProduct, matrix_mul_matrix-IsProduct}
use rsicv_uvm_test.CoreMark.Matrix.Restore.{IsTested, matrix_test-IsTested}
use rsicv_uvm_test.CoreMark.Matrix.Init.{dimension, core_init_matrix}
use rsicv_uvm_test.CoreMark.Matrix.Layout.{IsPrepared, core_init_matrix-IsPrepared}

abbrev left : List ℕ
left = 1 ∷ 2 ∷ 0xffff ∷ 4 ∷ []

abbrev right : List ℕ
right = 5 ∷ 6 ∷ 7 ∷ 8 ∷ []

abbrev blank : List ℕ
blank = 9 ∷ 9 ∷ 9 ∷ 9 ∷ 9 ∷ []

multiplied : matrix_mul_matrix 2 blank left right ≡ some (19 ∷ 22 ∷ 23 ∷ 26 ∷ 9 ∷ [])
unfolding matrix_mul_matrix for
multiplied = refl

vector : matrix_mul_vect 2 blank left right ≡ some (17 ∷ 19 ∷ 9 ∷ 9 ∷ 9 ∷ [])
unfolding matrix_mul_vect for
vector = refl

-- 10 for each sum above the clip value, and 1 for each rise.
summed : matrix_sum 2 (5 ∷ 6 ∷ 1 ∷ 90 ∷ []) 20 ≡ some 12
unfolding matrix_sum for
summed = refl

largest : dimension 0x1_0000 666 0 0 ≡ some 9
unfolding dimension
largest = refl

left_small : (p : ℕ) → at left p < 2 ^ 16
left_small zero = omega arith
left_small (suc zero) = omega arith
left_small (suc (suc zero)) = omega arith
left_small (suc (suc (suc zero))) = omega arith
left_small (suc (suc (suc (suc p)))) = omega arith

matrix_mul_matrix-IsProduct_example :
    Returns (IsProduct product 2 blank left right) (matrix_mul_matrix 2 blank left right)
    × Returns
        (IsProduct extracted 2 blank left right)
        (matrix_mul_matrix_bitextract 2 blank left right)
matrix_mul_matrix-IsProduct_example =
    matrix_mul_matrix-IsProduct 2 blank left right (omega arith) (omega arith) (omega arith)
      (omega arith)

matrix_test-IsTested_example :
    Returns (IsTested 2 blank left right 0x10) (matrix_test 2 blank left right 0x10)
matrix_test-IsTested_example =
    matrix_test-IsTested 2 blank left right 0x10 (omega arith) (omega arith) (omega arith)
      (omega arith) (omega arith) left_small

abbrev values : List ℕ
values = replicate 10 0

core_init_matrix-IsPrepared_example :
    Returns (IsPrepared 40 0x8000 values values) (core_init_matrix 40 0x8000 0 values values)
core_init_matrix-IsPrepared_example =
    core_init_matrix-IsPrepared 40 0x8000 0 values values (omega arith) (omega arith) refl
      (omega arith) (omega arith) (omega arith)
