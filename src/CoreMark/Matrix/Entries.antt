-- ===== src/CoreMark/Matrix/Entries.antt =====
-- What the loops of core_matrix.c leave in each cell.
use native.Mathlib.Nat.{mul-add-div_right, div-eq_of_lt, mul-add-mod_self_right, mod-eq_of_lt}
use rsicv_uvm_test.Base.{
  ℕ, zero, suc, ◌+◌, ◌*◌, ◌/◌, ◌%◌, ◌^◌, ◌≤◌, ◌<◌, ◌≡◌, refl, sym, ap, ap₂, ◌∙◌, arith, Option,
  some, List, length, length-set, get_elem?, get_elem?-eq-get_or, get_or-set_self, set, set-set,
  store, store_of_lt, ◌>>=◌, for, Returns, returns, Returns-weaken, for-Returns, u16, u32,
}
use rsicv_uvm_test.CoreMark.Matrix.{
  cell, product, add_to, matrix_add_const, matrix_mul_const, matrix_mul_vect, mul_matrix_by,
}
use rsicv_uvm_test.CoreMark.Matrix.Fill.{
  at, IsFilled, set-IsFilled, index_lt, cell_lem, grid-Returns, row-Returns, store-Returns,
}

read : (m : List ℕ) (p : ℕ) → p < length m → get_elem? m p ≡ some (at m p)
read m p h = get_elem?-eq-get_or m p 0 h

-- The sum of the first values of a sequence.
pub total : (count : ℕ) → (ℕ → ℕ) → ℕ
total zero term = 0
total (suc count) term = total count term + term count

-- A loop that clears one cell and then adds to it.
accumulate-Returns :
    (m : List ℕ) (p n : ℕ) (term : ℕ → ℕ) (body : ℕ → List ℕ → Option (List ℕ))
    → p < length m
    → ((k : ℕ) (acc : List ℕ) → k < n → body k acc ≡ add_to acc p (term k))
    → Returns (λ r. r ≡ set m p (u32 (total n term))) (store m p 0 >>= for n 0 body)
unfolding total
accumulate-Returns m p n term body h step = rw (store_of_lt m p 0 h) (
    for-Returns (λ k r. r ≡ set m p (u32 (total k term))) body n 0 n (omega arith)
      (λ k acc low high e.
        let held : at (set m p (u32 (total k term))) p ≡ u32 (total k term) =
          get_or-set_self m p (u32 (total k term)) 0 h in
        let inside : p < length (set m p (u32 (total k term))) =
          omega (arith, length-set m p (u32 (total k term))) in
        let wrap : u32 (u32 (total k term) + term k) ≡ u32 (total (suc k) term) = omega arith in
        let next : suc k ≡ k + 1 = omega arith in
        rw
          (
            step k acc high,
            e,
            read (set m p (u32 (total k term))) p inside,
            held,
            store_of_lt (set m p (u32 (total k term))) p (u32 (u32 (total k term) + term k)) inside,
          )
          (returns (set (set m p (u32 (total k term))) p (u32 (u32 (total k term) + term k))) (
            set-set m p (u32 (total k term)) (u32 (u32 (total k term) + term k))
            ∙ ap (set m p) wrap
            ∙ ap (λ t. set m p (u32 (total t term))) next)))
      (set m p 0) refl)

module _ (n : ℕ) (small : n * n ≤ 2 ^ 32) where
  pub matrix_add_const-Returns :
      (a : List ℕ) (val : ℕ)
      → n * n ≤ length a
      → Returns (IsFilled (λ p. u16 (at a p + val)) a (n * n)) (matrix_add_const n a val)
  unfolding matrix_add_const
  matrix_add_const-Returns a val fits =
      grid-Returns n (λ p. u16 (at a p + val)) a
        (λ i j m. get_elem? m (cell n i j) >>= (λ x. store m (cell n i j) (u16 (x + val))))
        (λ i j m hi hj f.
          let p = i * n + j in
          let below = index_lt n i j hi hj in
          rw
            (
              cell_lem n i j hi hj small,
              read m p (omega (arith, f.same_length)),
              f.rest p (omega arith),
            )
            (store-Returns (λ q. u16 (at a q + val)) a m p (u16 (at a p + val)) refl (omega arith)
              f))

  pub matrix_mul_const-Returns :
      (c a : List ℕ) (val : ℕ)
      → n * n ≤ length a
      → n * n ≤ length c
      → Returns (IsFilled (λ p. product (at a p) val) c (n * n)) (matrix_mul_const n c a val)
  unfolding matrix_mul_const
  matrix_mul_const-Returns c a val fits fits' =
      grid-Returns n (λ p. product (at a p) val) c
        (λ i j m. get_elem? a (cell n i j) >>= (λ x. store m (cell n i j) (product x val)))
        (λ i j m hi hj f.
          let p = i * n + j in
          let below = index_lt n i j hi hj in
          rw (cell_lem n i j hi hj small, read a p (omega arith))
            (store-Returns (λ q. product (at a q) val) c m p (product (at a p) val) refl
              (omega arith) f))

  -- The entry of a product of the matrix with a vector.
  abbrev pub vector_entry : (a b : List ℕ) → (i : ℕ) → ℕ
  vector_entry a b i = u32 (total n (λ j. product (at a (i * n + j)) (at b j)))

  -- The entry of a product of two matrices, with the value that is added up for each pair.
  abbrev pub matrix_entry : (term : ℕ → ℕ → ℕ) → (a b : List ℕ) → (i j : ℕ) → ℕ
  matrix_entry term a b i j = u32 (total n (λ k. term (at a (i * n + k)) (at b (k * n + j))))

  cell_filled :
      (g : ℕ → ℕ) (before m r : List ℕ) (p v : ℕ)
      → v ≡ g p
      → p < length before
      → IsFilled g before p m
      → r ≡ set m p v
      → IsFilled g before (p + 1) r
  cell_filled g before m r p v e h f q = rw (q, e) (set-IsFilled g before m p f h)

  pub matrix_mul_vect-Returns :
      (c a b : List ℕ)
      → n * n ≤ length a
      → n ≤ length b
      → n ≤ length c
      → Returns (IsFilled (vector_entry a b) c n) (matrix_mul_vect n c a b)
  unfolding matrix_mul_vect
  matrix_mul_vect-Returns c a b ha hb hc =
      row-Returns n (vector_entry a b) c
        (λ i m.
          store m i 0
          >>= for n 0 (λ j row.
            get_elem? a (cell n i j)
            >>= (λ x. get_elem? b j >>= (λ y. add_to row i (product x y)))))
        (λ i m hi f.
          Returns-weaken
            (λ r. cell_filled (vector_entry a b) c m r i (vector_entry a b i) refl (omega arith) f)
            (accumulate-Returns m i n (λ j. product (at a (i * n + j)) (at b j))
              (λ j row.
                get_elem? a (cell n i j)
                >>= (λ x. get_elem? b j >>= (λ y. add_to row i (product x y))))
              (omega (arith, f.same_length))
              (λ j row hj.
                let below = index_lt n i j hi hj in
                rw
                  (
                    cell_lem n i j hi hj small,
                    read a (i * n + j) (omega arith),
                    read b j (omega arith),
                  )
                  refl)))

  pub row_of : (i j : ℕ) → j < n → (i * n + j) / n ≡ i
  row_of i j h =
      mul-add-div_right (omega arith) i j ∙ ap (λ t. i + t) (div-eq_of_lt h) ∙ omega arith

  pub column_of : (i j : ℕ) → j < n → (i * n + j) % n ≡ j
  column_of i j h = mul-add-mod_self_right i n j ∙ mod-eq_of_lt h

  pub mul_matrix_by-Returns :
      (term : ℕ → ℕ → ℕ) (c a b : List ℕ)
      → n * n ≤ length a
      → n * n ≤ length b
      → n * n ≤ length c
      → Returns
          (IsFilled (λ p. matrix_entry term a b (p / n) (p % n)) c (n * n))
          (mul_matrix_by term n c a b)
  unfolding mul_matrix_by
  mul_matrix_by-Returns term c a b ha hb hc =
      let g = λ (p : ℕ). matrix_entry term a b (p / n) (p % n) in
      grid-Returns n g c
        (λ i j m.
          store m (cell n i j) 0
          >>= for n 0 (λ k acc.
            get_elem? a (cell n i k)
            >>= (λ x. get_elem? b (cell n k j) >>= (λ y. add_to acc (cell n i j) (term x y)))))
        (λ i j m hi hj f.
          let below = index_lt n i j hi hj in
          let here : matrix_entry term a b i j ≡ g (i * n + j) =
            ap₂ (matrix_entry term a b) (sym (row_of i j hj)) (sym (column_of i j hj)) in
          rw (cell_lem n i j hi hj small) (
            Returns-weaken
              (λ r.
                cell_filled g c m r (i * n + j) (matrix_entry term a b i j) here (omega arith) f)
              (accumulate-Returns m (i * n + j) n (λ k. term (at a (i * n + k)) (at b (k * n + j)))
                (λ k acc.
                  get_elem? a (cell n i k)
                  >>= (λ x. get_elem? b (cell n k j) >>= (λ y. add_to acc (i * n + j) (term x y))))
                (omega (arith, f.same_length))
                (λ k acc hk.
                  let left = index_lt n i k hi hk in
                  let right = index_lt n k j hk hj in
                  rw
                    (
                      cell_lem n i k hi hk small,
                      cell_lem n k j hk hj small,
                      read a (i * n + k) (omega arith),
                      read b (k * n + j) (omega arith),
                    )
                    refl))))
