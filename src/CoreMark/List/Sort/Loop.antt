-- ===== src/CoreMark/List/Sort/Loop.antt =====
-- The loop that merges two stretches of core_list_mergesort.
use mathlib.Core.List.{append_assoc, append-nil}
use rsicv_uvm_test.Base.{
  ℕ, zero, suc, ◌+◌, ◌≤◌, ◌<◌, ◌≡◌, ◌⊎◌, refl, sym, ap, ◌∙◌, arith, leb, ltb, ◌==◌, lt→ltb, ◌||◌,
  ◌&&◌, if◌then◌else◌, Bool, Bool-cases, inl, inr, true, false, Option, none, List, [], ◌∷◌, ◌++◌,
  length, get_elem?-eq-get_or, Returns, returns, Returns-then, Returns-weaken,
}
use rsicv_uvm_test.CoreMark.List.Reverse.{no_cell}
use rsicv_uvm_test.CoreMark.List.Items.{Compared}
use rsicv_uvm_test.CoreMark.List.Sort.{
  Merging, from_p, from_q, by_comparison, is_null, merge_step, merge_loop,
}
use rsicv_uvm_test.CoreMark.List.Sort.Reference.{merge}
use rsicv_uvm_test.CoreMark.List.Sort.Links.{Linked}
use rsicv_uvm_test.CoreMark.List.Sort.Merge.{
  IsOrder, IsMerging, compared-IsMerging, from_p-IsMerging, from_q-IsMerging,
}

module _ {D : Type 0} (cmp : (a b : ℕ) → D → Option (Compared D)) (Inv : D → Type 0)
    (Valid : ℕ → Type 0) (key : ℕ → ℕ) (order : IsOrder cmp Inv Valid key) (info : ℕ → ℕ)
    (size : ℕ) where
  -- The key of a cell.
  abbrev pub cell_key : ℕ → ℕ
  cell_key x = key (info x)

  -- A round moves the next cell of the merged list.
  record Advances (out xs ys rest : List ℕ) (s : Merging D) : Type 0 where
    e : ℕ
    xs' : List ℕ
    ys' : List ℕ
    next : merge cell_key xs ys ≡ e ∷ merge cell_key xs' ys'
    fewer : suc (length xs' + length ys') ≡ length xs + length ys
    state : IsMerging Inv Valid info size (out ++ (e ∷ [])) xs' ys' rest s

  merge-nil : (xs : List ℕ) → merge cell_key xs [] ≡ xs
  merge-nil [] = refl
  merge-nil (x ∷ xs) = ap (◌∷◌ x) (merge-nil xs)

  by_comparison_lem :
      (out : List ℕ) (x : ℕ) (xs : List ℕ) (y : ℕ) (ys rest : List ℕ) (s : Merging D)
      → IsMerging Inv Valid info size out (x ∷ xs) (y ∷ ys) rest s
      → by_comparison cmp s ≡ (
          if leb (cell_key x) (cell_key y)
          then from_p (record s { datas = order.after (info x) (info y) s.datas })
          else from_q (record s { datas = order.after (info x) (info y) s.datas }))
  by_comparison_lem out x xs y ys rest s i =
      rw
        (
          i.links_p.0,
          get_elem?-eq-get_or s.cells x no_cell i.links_p.1.0,
          i.links_q.0,
          get_elem?-eq-get_or s.cells y no_cell i.links_q.1.0,
          i.infos x,
          i.infos y,
          order.compares (info x) (info y) s.datas i.valid_p.0 i.valid_q.0 i.inv,
        )
        refl

  compare-Advances :
      (out : List ℕ) (x : ℕ) (xs : List ℕ) (y : ℕ) (ys rest : List ℕ) (s : Merging D)
      → IsMerging Inv Valid info size out (x ∷ xs) (y ∷ ys) rest s
      → Returns (Advances out (x ∷ xs) (y ∷ ys) rest) (by_comparison cmp s)
  compare-Advances out x xs y ys rest s i =
      let after = order.after (info x) (info y) s.datas in
      let s' : Merging D = record s { datas = after } in
      let i' : IsMerging Inv Valid info size out (x ∷ xs) (y ∷ ys) rest s' =
        compared-IsMerging Inv Valid info size out (x ∷ xs) (y ∷ ys) rest s after
          (order.keeps (info x) (info y) s.datas i.valid_p.0 i.valid_q.0 i.inv) i in
      rw (by_comparison_lem out x xs y ys rest s i)
        (elim (Bool-cases (leb (cell_key x) (cell_key y))) [
          | inl first ↦ rw first (
              Returns-weaken
                (λ t j. record {
                  e = x;
                  xs' = xs;
                  ys' = y ∷ ys;
                  next = rw first refl;
                  fewer = omega arith;
                  state = j;
                })
                (from_p-IsMerging Inv Valid info size out x xs (y ∷ ys) rest s' i'))
          | inr second ↦ rw second (
              Returns-weaken
                (λ t j. record {
                  e = y;
                  xs' = x ∷ xs;
                  ys' = ys;
                  next = rw second refl;
                  fewer = omega arith;
                  state = j;
                })
                (from_q-IsMerging Inv Valid info size out y (x ∷ xs) ys rest s' i'))
        ])

  merge_step-Advances :
      (out xs ys rest : List ℕ) (s : Merging D)
      → 1 ≤ length xs + length ys
      → IsMerging Inv Valid info size out xs ys rest s
      → Returns (Advances out xs ys rest) (merge_step cmp s)
  unfolding merge_step
  merge_step-Advances out [] [] rest s h i = absurd (omega arith)
  merge_step-Advances out [] (y ∷ ys) rest s h i = rw (i.psize_is) (
      Returns-weaken
        (λ t j. record { e = y; xs' = []; ys' = ys; next = refl; fewer = omega arith; state = j })
        (from_q-IsMerging Inv Valid info size out y [] ys rest s i))
  merge_step-Advances out (x ∷ xs) [] rest s h i =
      let more : (s.psize == 0) ≡ false = ground (arith, i.psize_is) in
      let none_left : (s.qsize == 0 || is_null s.q) ≡ true = q_empty i.bounded in
      rw (more, none_left)
        (Returns-weaken
          (λ t j. record { e = x; xs' = xs; ys' = []; next = refl; fewer = omega arith; state = j })
          (from_p-IsMerging Inv Valid info size out x xs [] rest s i))
    where
      q_empty : (s.qsize ≡ 0) ⊎ (rest ≡ []) → (s.qsize == 0 || is_null s.q) ≡ true
      q_empty (inl e) = rw e refl
      q_empty (inr e) =
          let null : Linked s.cells s.q [] none = rw e at i.links_q in
          elim (Bool-cases (s.qsize == 0)) [
            | inl no_more ↦ rw no_more refl
            | inr more ↦ rw (more, null) refl
          ]
  merge_step-Advances out (x ∷ xs) (y ∷ ys) rest s h i =
      let more : (s.psize == 0) ≡ false = ground (arith, i.psize_is) in
      let more_q : (s.qsize == 0) ≡ false = ground (arith, i.qsize_le) in
      let there : is_null s.q ≡ false = rw (i.links_q.0) refl in
      rw (more, more_q, there) (compare-Advances out x xs y ys rest s i)

  -- The loop's test.
  abbrev goes_on : Merging D → Bool
  goes_on s = ltb 0 s.psize || (ltb 0 s.qsize && (if is_null s.q then false else true))

  goes_on_end :
      (out rest : List ℕ) (s : Merging D)
      → IsMerging Inv Valid info size out [] [] rest s
      → goes_on s ≡ false
  goes_on_end out rest s i = rw i.psize_is (no_more i.bounded)
    where
      no_more :
          (s.qsize ≡ 0) ⊎ (rest ≡ [])
          → (ltb 0 s.qsize && (if is_null s.q then false else true)) ≡ false
      no_more (inl e) = rw e refl
      no_more (inr e) =
          let null : Linked s.cells s.q [] none = rw e at i.links_q in
          elim (Bool-cases (ltb 0 s.qsize)) [
            | inl more ↦ rw (more, null) refl
            | inr none_left ↦ rw none_left refl
          ]

  goes_on_more :
      (out xs ys rest : List ℕ) (s : Merging D)
      → 1 ≤ length xs + length ys
      → IsMerging Inv Valid info size out xs ys rest s
      → goes_on s ≡ true
  goes_on_more out [] [] rest s h i = absurd (omega arith)
  goes_on_more out [] (y ∷ ys) rest s h i =
      rw (i.psize_is, lt→ltb 0 s.qsize (omega (arith, i.qsize_le)), i.links_q.0) refl
  goes_on_more out (x ∷ xs) ys rest s h i = rw (lt→ltb 0 s.psize (omega (arith, i.psize_is))) refl

  abbrev Merges : (fuel : ℕ) → (rest out xs ys : List ℕ) → Merging D → Type 0
  Merges fuel rest out xs ys s =
      Returns (IsMerging Inv Valid info size (out ++ merge cell_key xs ys) [] [] rest)
        (merge_loop cmp fuel s)

  more_rounds :
      (fuel : ℕ) (out xs ys rest : List ℕ) (s : Merging D)
      → ((out' xs' ys' : List ℕ) (s' : Merging D)
          → length xs' + length ys' < fuel
          → IsMerging Inv Valid info size out' xs' ys' rest s'
          → Merges fuel rest out' xs' ys' s')
      → 1 ≤ length xs + length ys
      → length xs + length ys ≤ fuel
      → IsMerging Inv Valid info size out xs ys rest s
      → Merges (suc fuel) rest out xs ys s
  unfolding merge_loop
  more_rounds fuel out xs ys rest s later h k i = rw (goes_on_more out xs ys rest s h i) (
      Returns-then (merge_loop cmp fuel) (merge_step-Advances out xs ys rest s h i) (λ t a.
        let same : (out ++ (a.e ∷ [])) ++ merge cell_key a.xs' a.ys' ≡ out ++ merge cell_key xs ys =
          append_assoc out (a.e ∷ []) (merge cell_key a.xs' a.ys')
          ∙ ap (λ m. out ++ m) (sym a.next) in
        rw (← same) (later (out ++ (a.e ∷ [])) a.xs' a.ys' t (omega (arith, a.fewer)) a.state)))

  pub merge_loop-IsMerging :
      (fuel : ℕ) (out xs ys rest : List ℕ) (s : Merging D)
      → length xs + length ys < fuel
      → IsMerging Inv Valid info size out xs ys rest s
      → Merges fuel rest out xs ys s
  unfolding merge_loop
  merge_loop-IsMerging zero out xs ys rest s h i = absurd (omega arith)
  merge_loop-IsMerging (suc fuel) out [] [] rest s h i =
      rw (goes_on_end out rest s i, append-nil out) (returns s i)
  merge_loop-IsMerging (suc fuel) out [] (y ∷ ys) rest s h i =
      more_rounds fuel out [] (y ∷ ys) rest s (λ o a b. merge_loop-IsMerging fuel o a b rest)
        (omega arith) (omega arith) i
  merge_loop-IsMerging (suc fuel) out (x ∷ xs) ys rest s h i =
      more_rounds fuel out (x ∷ xs) ys rest s (λ o a b. merge_loop-IsMerging fuel o a b rest)
        (omega arith) (omega arith) i
