-- ===== src/Dhrystone/Arrays.antt =====
-- What Proc_8 of dhrystone4sim/dhry_2.c leaves in every element of the two global arrays.
use rsicv_uvm_test.Base.{
  ℕ, ◌+◌, ◌-◌, ◌<◌, ◌≡◌, refl, arith, ◌==◌, ◌&&◌, ◌||◌, if◌then◌else◌, ==_cases, inl, inr, some,
  List, [], length, set, get_or, get_elem?, get_elem?-eq-get_or, get_or-set, get_or-set_self,
  get_or-set_ne, length-set, store_of_lt, Returns, returns, for, u32,
}
use rsicv_uvm_test.Dhrystone.{Globals, store_cell, proc_8, minus}

abbrev pub cell : List (List ℕ) → (i j : ℕ) → ℕ
cell a i j = get_or (get_or a i []) j 0

abbrev pub put : (i j v : ℕ) → List (List ℕ) → List (List ℕ)
put i j v a = set a i (set (get_or a i []) j v)

-- An array of the type `Arr_2_Dim`.
pub record IsGrid (a : List (List ℕ)) : Type 0 where
  pub rows : length a ≡ 50
  pub columns : (i : ℕ) → i < 50 → length (get_or a i []) ≡ 50

pub put-IsGrid : (i j v : ℕ) (a : List (List ℕ)) → i < 50 → IsGrid a → IsGrid (put i j v a)
put-IsGrid i j v a low grid = record {
  rows = omega (arith, length-set a i (set (get_or a i []) j v), grid.rows);
  columns = λ k h.
      rw (get_or-set a i k (set (get_or a i []) j v) [] (omega (arith, grid.rows)))
        (elim (==_cases k i) [
          | inl (same, e) ↦ rw (e, length-set (get_or a i []) j v) (grid.columns i low)
          | inr (other, e) ↦ rw e (grid.columns k h)
        ]);
}

pub store_cell_lem :
    (i j v : ℕ) (a : List (List ℕ))
    → i < 50
    → j < 50
    → IsGrid a
    → store_cell i j v a ≡ some (put i j v a)
unfolding store_cell
store_cell_lem i j v a low_i low_j grid =
    let in_rows : i < length a = omega (arith, grid.rows) in
    let in_row : j < length (get_or a i []) = omega (arith, grid.columns i low_i) in
    rw
      (
        get_elem?-eq-get_or a i [] in_rows,
        store_of_lt (get_or a i []) j v in_row,
        store_of_lt a i (set (get_or a i []) j v) in_rows,
      )
      refl

pub cell-put :
    (i j v : ℕ) (a : List (List ℕ)) (k l : ℕ)
    → i < 50
    → j < 50
    → IsGrid a
    → cell (put i j v a) k l ≡ (if (k == i) && (l == j) then v else cell a k l)
cell-put i j v a k l low_i low_j grid =
    let in_rows : i < length a = omega (arith, grid.rows) in
    let in_row : j < length (get_or a i []) = omega (arith, grid.columns i low_i) in
    rw (get_or-set a i k (set (get_or a i []) j v) [] in_rows) (elim (==_cases k i) [
      | inl (same, e) ↦ rw (e, same) (get_or-set (get_or a i []) j l v 0 in_row)
      | inr (other, e) ↦ rw e refl
    ])

-- The two arrays afterwards, for `l = Int_1_Par_Val + 5`.
abbrev pub filled_1 : (l v : ℕ) → List ℕ → List ℕ
filled_1 l v a = set (set (set a l v) (l + 1) v) (l + 30) l

abbrev pub filled_2 : (l v : ℕ) → List (List ℕ) → List (List ℕ)
filled_2 l v b =
    let first = put l (l + 1) l (put l l l b) in
    put (l + 20) l v (put l (l - 1) (u32 (cell first l (l - 1) + 1)) first)

get_elem?-filled :
    (v : ℕ) (xs : List ℕ) (i : ℕ) → i < length xs → get_or xs i 0 ≡ v → get_elem? xs i ≡ some v
get_elem?-filled v xs i h e = rw (get_elem?-eq-get_or xs i 0 h, e) refl

pub proc_8_lem :
    (int_1 int_2 : ℕ) (s : Globals)
    → int_1 < 15
    → length s.arr_1_glob ≡ 50
    → IsGrid s.arr_2_glob
    → proc_8 int_1 int_2 s
      ≡ some (record s {
        arr_1_glob = filled_1 (int_1 + 5) int_2 s.arr_1_glob;
        arr_2_glob = filled_2 (int_1 + 5) int_2 s.arr_2_glob;
        int_glob = 5;
      })
unfolding proc_8 for
proc_8_lem int_1 int_2 s low size grid =
    let l = int_1 + 5 in
    let index : u32 (int_1 + 5) ≡ l = omega arith in
    let before : minus l 1 ≡ l - 1 = omega arith in
    let a = s.arr_1_glob in
    let a1 = set a l int_2 in
    let a2 = set a1 (l + 1) int_2 in
    let a3 = set a2 (l + 30) l in
    let size1 : length a1 ≡ 50 = omega (arith, length-set a l int_2) in
    let size2 : length a2 ≡ 50 = omega (arith, length-set a1 (l + 1) int_2) in
    let first : get_elem? a1 l ≡ some int_2 =
      get_elem?-filled int_2 a1 l (omega arith) (get_or-set_self a l int_2 0 (omega arith)) in
    let last : get_elem? a3 l ≡ some int_2 =
      get_elem?-filled int_2 a3 l (omega (arith, length-set a2 (l + 30) l)) (
        rw
          (
            get_or-set_ne a2 (l + 30) l l 0 (omega arith),
            get_or-set_ne a1 (l + 1) l int_2 0 (omega arith),
          )
          (get_or-set_self a l int_2 0 (omega arith))) in
    let b = s.arr_2_glob in
    let b0 = put l l l b in
    let grid0 : IsGrid b0 = put-IsGrid l l l b (omega arith) grid in
    let b1 = put l (l + 1) l b0 in
    let grid1 : IsGrid b1 = put-IsGrid l (l + 1) l b0 (omega arith) grid0 in
    let row : get_elem? b1 l ≡ some (get_or b1 l []) =
      get_elem?-eq-get_or b1 l [] (omega (arith, grid1.rows)) in
    let old : get_elem? (get_or b1 l []) (l - 1) ≡ some (cell b1 l (l - 1)) =
      get_elem?-eq-get_or (get_or b1 l []) (l - 1) 0
        (omega (arith, grid1.columns l (omega arith))) in
    let count = u32 (cell b1 l (l - 1) + 1) in
    let b2 = put l (l - 1) count b1 in
    let grid2 : IsGrid b2 = put-IsGrid l (l - 1) count b1 (omega arith) grid1 in
    rw
      (
        index,
        before,
        store_of_lt a l int_2 (omega arith),
        first,
        store_of_lt a1 (l + 1) int_2 (omega arith),
        store_of_lt a2 (l + 30) l (omega arith),
        store_cell_lem l l l b (omega arith) (omega arith) grid,
        store_cell_lem l (l + 1) l b0 (omega arith) (omega arith) grid0,
        row,
        old,
        store_cell_lem l (l - 1) count b1 (omega arith) (omega arith) grid1,
        last,
        store_cell_lem (l + 20) l int_2 b2 (omega arith) (omega arith) grid2,
      )
      refl

pub length-filled_1 : (l v : ℕ) (a : List ℕ) → length (filled_1 l v a) ≡ length a
length-filled_1 l v a =
    let a1 = set a l v in
    omega
      (arith, length-set a l v, length-set a1 (l + 1) v, length-set (set a1 (l + 1) v) (l + 30) l)

pub filled_2-IsGrid : (l v : ℕ) (b : List (List ℕ)) → l < 20 → IsGrid b → IsGrid (filled_2 l v b)
filled_2-IsGrid l v b low grid =
    let b1 = put l (l + 1) l (put l l l b) in
    put-IsGrid (l + 20) l v (put l (l - 1) (u32 (cell b1 l (l - 1) + 1)) b1) (omega arith) (
      put-IsGrid l (l - 1) (u32 (cell b1 l (l - 1) + 1)) b1 (omega arith) (
        put-IsGrid l (l + 1) l (put l l l b) (omega arith) (put-IsGrid l l l b (omega arith) grid)))

-- What Proc_8 leaves, for `l = Int_1_Par_Val + 5` and `v = Int_2_Par_Val`.
pub record IsFilled (l v : ℕ) (s t : Globals) : Type 0 where
  pub arr_1 :
      (j : ℕ)
      → get_or t.arr_1_glob j 0 ≡ (
          if (j == l) || (j == l + 1)
          then v
          else if j == l + 30
          then l
          else get_or s.arr_1_glob j 0)
  pub arr_2 :
      (i j : ℕ)
      → cell t.arr_2_glob i j ≡ (
          if (i == l) && ((j == l) || (j == l + 1))
          then l
          else if (i == l) && (j == l - 1)
          then u32 (cell s.arr_2_glob l (l - 1) + 1)
          else if (i == l + 20) && (j == l)
          then v
          else cell s.arr_2_glob i j)
  pub int_glob : t.int_glob ≡ 5
  pub kept :
      t ≡ record s { arr_1_glob = t.arr_1_glob; arr_2_glob = t.arr_2_glob; int_glob = t.int_glob }

pub filled_1_lem :
    (l v : ℕ) (a : List ℕ) (j : ℕ)
    → l < 20
    → length a ≡ 50
    → get_or (filled_1 l v a) j 0
      ≡ (if (j == l) || (j == l + 1) then v else if j == l + 30 then l else get_or a j 0)
filled_1_lem l v a j low size =
    let a1 = set a l v in
    let a2 = set a1 (l + 1) v in
    let size1 : length a1 ≡ 50 = omega (arith, length-set a l v) in
    let size2 : length a2 ≡ 50 = omega (arith, length-set a1 (l + 1) v) in
    rw
      (
        get_or-set a2 (l + 30) j l 0 (omega arith),
        get_or-set a1 (l + 1) j v 0 (omega arith),
        get_or-set a l j v 0 (omega arith),
      )
      (ground arith)

pub filled_2_lem :
    (l v : ℕ) (b : List (List ℕ)) (i j : ℕ)
    → 0 < l
    → l < 20
    → IsGrid b
    → cell (filled_2 l v b) i j ≡ (
        if (i == l) && ((j == l) || (j == l + 1))
        then l
        else if (i == l) && (j == l - 1)
        then u32 (cell b l (l - 1) + 1)
        else if (i == l + 20) && (j == l)
        then v
        else cell b i j)
filled_2_lem l v b i j above low grid =
    let b0 = put l l l b in
    let grid0 : IsGrid b0 = put-IsGrid l l l b (omega arith) grid in
    let b1 = put l (l + 1) l b0 in
    let grid1 : IsGrid b1 = put-IsGrid l (l + 1) l b0 (omega arith) grid0 in
    let count = u32 (cell b1 l (l - 1) + 1) in
    let b2 = put l (l - 1) count b1 in
    let grid2 : IsGrid b2 = put-IsGrid l (l - 1) count b1 (omega arith) grid1 in
    let old : cell b1 l (l - 1) ≡ cell b l (l - 1) =
      rw
        (
          cell-put l (l + 1) l b0 l (l - 1) (omega arith) (omega arith) grid0,
          cell-put l l l b l (l - 1) (omega arith) (omega arith) grid,
        )
        (ground arith) in
    rw
      (
        cell-put (l + 20) l v b2 i j (omega arith) (omega arith) grid2,
        cell-put l (l - 1) count b1 i j (omega arith) (omega arith) grid1,
        cell-put l (l + 1) l b0 i j (omega arith) (omega arith) grid0,
        cell-put l l l b i j (omega arith) (omega arith) grid,
        old,
      )
      (ground arith)

-- On arrays of 50 elements and of 50 rows of 50, and for an Int_1_Par_Val below 15, Proc_8 returns.
-- With l = Int_1_Par_Val + 5 it sets the elements l and l + 1 of the first array to Int_2_Par_Val
-- and the element l + 30 to l; of the second array, it sets the elements l and l + 1 of the row l to
-- l, adds 1 to the element l - 1 of that row modulo 2 to the 32, and sets the element l of the row
-- l + 20 to Int_2_Par_Val. Int_Glob becomes 5, and nothing else changes.
pub proc_8-IsFilled :
    (int_1 int_2 : ℕ) (s : Globals)
    → int_1 < 15
    → length s.arr_1_glob ≡ 50
    → IsGrid s.arr_2_glob
    → Returns (IsFilled (int_1 + 5) int_2 s) (proc_8 int_1 int_2 s)
proc_8-IsFilled int_1 int_2 s low size grid = rw (proc_8_lem int_1 int_2 s low size grid) (
    returns _ (record {
      arr_1 = λ j. filled_1_lem (int_1 + 5) int_2 s.arr_1_glob j (omega arith) size;
      arr_2 =
          λ i j. filled_2_lem (int_1 + 5) int_2 s.arr_2_glob i j (omega arith) (omega arith) grid;
      int_glob = refl;
      kept = refl;
    }))
