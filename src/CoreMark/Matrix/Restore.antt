-- ===== src/CoreMark/Matrix/Restore.antt =====
-- The whole of `matrix_test`.
use native.Mathlib.Decide.{dec_lt}
use native.Mathlib.Nat.{le_trans}
use rsicv_uvm_test.Base.{
  ℕ, zero, suc, ◌+◌, ◌-◌, ◌*◌, ◌^◌, ◌≤◌, ◌<◌, ◌≡◌, ap, ◌∙◌, arith, some, List, length, get_elem?,
  get_elem?-eq-get_or, get_or_ext, ◌>>=◌, for, Returns, returns, Returns-then, for-Returns, u16,
}
use rsicv_uvm_test.CoreMark.Matrix.{
  cell, extend, product, extracted, matrix_big, Summing, sum_step, matrix_sum, Tested, matrix_test,
}
use rsicv_uvm_test.CoreMark.Matrix.Fill.{at, IsFilled, index_lt, cell_lem}
use rsicv_uvm_test.CoreMark.Matrix.Entries.{
  matrix_add_const-Returns, matrix_mul_const-Returns, matrix_mul_vect-Returns, vector_entry,
}
use rsicv_uvm_test.CoreMark.Matrix.Product.{IsProduct, matrix_mul_matrix-IsProduct}

matrix_sum-Returns :
    (n : ℕ) (c : List ℕ) (clipval : ℕ)
    → n * n ≤ 2 ^ 32
    → n * n ≤ length c
    → Returns (λ r. r < 2 ^ 16) (matrix_sum n c clipval)
unfolding matrix_sum sum_step
matrix_sum-Returns n c clipval small fits =
    Returns-then (λ (s : Summing). some s.ret)
      (for-Returns (λ i (s : Summing). s.ret < 2 ^ 16)
        (λ i. for n 0 (λ j s. get_elem? c (cell n i j) >>= (λ cur. some (sum_step clipval cur s))))
        n 0 n (omega arith)
        (λ i s low high k.
          for-Returns (λ j (s : Summing). s.ret < 2 ^ 16)
            (λ j s. get_elem? c (cell n i j) >>= (λ cur. some (sum_step clipval cur s))) n 0 n
            (omega arith)
            (λ j t low' high' k'.
              let below = index_lt n i j high high' in
              rw
                (cell_lem n i j high high' small, get_elem?-eq-get_or c (i * n + j) 0 (omega arith))
                (returns (sum_step clipval (at c (i * n + j)) t) (ground arith)))
            s k)
        (record { tmp = 0; prev = 0; ret = 0 }) (omega arith))
      (λ s k. returns s.ret k)

-- Adding a value and then its negation gives a value of 16 bits back.
undone :
    (x val : ℕ) → x < 2 ^ 16 → val < 2 ^ 16 → u16 (u16 (x + val) + u16 (2 ^ 32 - extend val)) ≡ x
undone x val h k = ground arith

restored :
    (n val : ℕ) (a a1 a2 : List ℕ)
    → val < 2 ^ 16
    → ((p : ℕ) → at a p < 2 ^ 16)
    → IsFilled (λ p. u16 (at a p + val)) a (n * n) a1
    → IsFilled (λ p. u16 (at a1 p + u16 (2 ^ 32 - extend val))) a1 (n * n) a2
    → a2 ≡ a
restored n val a a1 a2 k h f g = get_or_ext 0 a2 a (g.same_length ∙ f.same_length) (λ p.
    elim (dec_lt p (n * n)) [
      | yes inside ↦
          g.filled p inside
          ∙ ap (λ (t : ℕ). u16 (t + u16 (2 ^ 32 - extend val))) (f.filled p inside)
          ∙ undone (at a p) val (h p) k
      | no outside ↦ g.rest p (omega arith) ∙ f.rest p (omega arith)
    ])

-- What `matrix_test` makes of its blocks: `A` as it was, and in `C` the sums of bit fields for `A`
-- with the value added.
pub record IsTested (n : ℕ) (c a b : List ℕ) (val : ℕ) (t : Tested) : Type 0 where
  pub same_a : t.a ≡ a
  pub shifted : List ℕ
  pub shift : IsFilled (λ p. u16 (at a p + val)) a (n * n) shifted
  pub bits : IsProduct extracted n c shifted b t.c

square_le : (n : ℕ) → n ≤ n * n
square_le zero = omega arith
square_le (suc n) = grind arith

-- Three results in `C`, the last one over all of the matrix.
overwritten :
    (n : ℕ) (g h : ℕ → ℕ) (c c1 c2 c3 c4 shifted b : List ℕ)
    → IsFilled g c (n * n) c1
    → IsFilled h c1 n c2
    → IsProduct product n c2 shifted b c3
    → IsProduct extracted n c3 shifted b c4
    → IsProduct extracted n c shifted b c4
overwritten n g h c c1 c2 c3 c4 shifted b f1 f2 f3 f4 = record {
  same_length = f4.same_length ∙ f3.same_length ∙ f2.same_length ∙ f1.same_length;
  entries = f4.entries;
  behind =
      λ p k. f4.behind p k ∙ f3.behind p k ∙ f2.rest p (le_trans (square_le n) k) ∙ f1.rest p k;
}

-- With blocks of at least `n * n` cells for the two matrices and the result, of which there are at
-- most 2 to the 32, and 16-bit values, `matrix_test` returns. It leaves the first matrix as it was,
-- and in the result the product of bit fields of the matrices with the value added to the first.
pub matrix_test-IsTested :
    (n : ℕ) (c a b : List ℕ) (val : ℕ)
    → n * n ≤ 2 ^ 32
    → n * n ≤ length a
    → n * n ≤ length b
    → n * n ≤ length c
    → val < 2 ^ 16
    → ((p : ℕ) → at a p < 2 ^ 16)
    → Returns (IsTested n c a b val) (matrix_test n c a b val)
unfolding matrix_test
matrix_test-IsTested n c a b val small ha hb hc hv hw =
    Returns-then _ (matrix_add_const-Returns n small a val ha) (λ a1 f0.
      let ha1 : n * n ≤ length a1 = omega (arith, f0.same_length) in
      Returns-then _ (matrix_mul_const-Returns n small c a1 val ha1 hc) (λ c1 f1.
        let hc1 : n * n ≤ length c1 = omega (arith, f1.same_length) in
        Returns-then _ (matrix_sum-Returns n c1 (matrix_big val) small hc1) (λ s1 _.
          Returns-then _
            (matrix_mul_vect-Returns n small c1 a1 b ha1 (le_trans (square_le n) hb)
              (le_trans (square_le n) hc1))
            (λ c2 f2.
              let hc2 : n * n ≤ length c2 = omega (arith, f2.same_length) in
              Returns-then _ (matrix_sum-Returns n c2 (matrix_big val) small hc2) (λ s2 _.
                Returns-then _ (matrix_mul_matrix-IsProduct n c2 a1 b small ha1 hb hc2).0 (λ c3 f3.
                  let hc3 : n * n ≤ length c3 = omega (arith, f3.same_length) in
                  Returns-then _ (matrix_sum-Returns n c3 (matrix_big val) small hc3) (λ s3 _.
                    Returns-then _ (matrix_mul_matrix-IsProduct n c3 a1 b small ha1 hb hc3).1
                      (λ c4 f4.
                        let hc4 : n * n ≤ length c4 = omega (arith, f4.same_length) in
                        Returns-then _ (matrix_sum-Returns n c4 (matrix_big val) small hc4) (λ s4 _.
                          Returns-then _
                            (matrix_add_const-Returns n small a1 (u16 (2 ^ 32 - extend val)) ha1)
                            (λ a2 f5. returns _ (record {
                              same_a = restored n val a a1 a2 hv hw f0 f5;
                              shifted = a1;
                              shift = f0;
                              bits =
                                  overwritten n (λ p. product (at a1 p) val)
                                    (vector_entry n small a1 b) c c1 c2 c3 c4 a1 b f1 f2 f3 f4;
                            })))))))))))
