-- ===== src/CoreMark/List/Sort/Result.antt =====
-- core_list_mergesort sorts by the keys of a comparison.
use rsicv_uvm_test.Base.{
  ℕ, zero, suc, ◌+◌, ◌*◌, ◌^◌, ◌≤◌, ◌<◌, ◌≡◌, refl, ◌∙◌, arith, leb, leb→le, Bool-cases, inl, inr,
  Option, none, List, [], length, All, u32, Returns, returns, Returns-then,
}
use rsicv_uvm_test.CoreMark.List.{Ptr, Cell}
use rsicv_uvm_test.CoreMark.List.Reverse.{at, IsChain, IsSimple}
use rsicv_uvm_test.CoreMark.List.Items.{Compared}
use rsicv_uvm_test.CoreMark.List.Sort.{Sorted, sort_loop, core_list_mergesort}
use rsicv_uvm_test.CoreMark.List.Sort.Reference.{sorted}
use rsicv_uvm_test.CoreMark.List.Sort.Blocks.{
  Blocks, Blocks-length, Blocks-All, Blocks-long, Blocks-whole, Blocks-single,
}
use rsicv_uvm_test.CoreMark.List.Sort.Links.{IsChain-Linked, Linked-IsChain, count-IsSimple}
use rsicv_uvm_test.CoreMark.List.Sort.Merge.{IsOrder}
use rsicv_uvm_test.CoreMark.List.Sort.Pass.{IsPassing}
use rsicv_uvm_test.CoreMark.List.Sort.Double.{pass_loop-IsDoubled}
use rsicv_uvm_test.CoreMark.List.Sort.Close.{Out-IsClosed}

pub record IsSorted {D : Type 0} (Inv : D → Type 0) (info : ℕ → ℕ) (size : ℕ) (xs : List ℕ)
    (r : Sorted D) : Type 0 where
  pub chain : IsChain r.cells r.list xs
  pub same_info : (x : ℕ) → (at r.cells x).info ≡ info x
  pub same_size : length r.cells ≡ size
  pub inv : Inv r.datas

module _ {D : Type 0} (cmp : (a b : ℕ) → D → Option (Compared D)) (Inv : D → Type 0)
    (Valid : ℕ → Type 0) (key : ℕ → ℕ) (order : IsOrder cmp Inv Valid key) (info : ℕ → ℕ)
    (size : ℕ) where
  abbrev cell_key : ℕ → ℕ
  cell_key y = key (info y)

  sort_loop-IsSorted :
      (rounds fuel k m : ℕ) (xs current : List ℕ) (list : Ptr) (cells : List Cell) (datas : D)
      → 1 ≤ k
      → 1 ≤ length xs
      → m ≤ rounds
      → 1 ≤ rounds
      → length xs < fuel
      → length xs < 2 ^ 31
      → All (λ x. Valid (info x)) xs
      → Blocks cell_key k m xs current
      → IsPassing Inv Valid info size [] current
          (record { list = none; tail = none; p = list; nmerges = 0; cells = cells; datas = datas })
      → Returns
          (IsSorted Inv info size (sorted cell_key xs))
          (sort_loop cmp rounds fuel k list cells datas)
  unfolding sort_loop
  sort_loop-IsSorted zero fuel k m xs current list cells datas pos some_cell few one enough short
        valid bs i =
      absurd (omega arith)
  sort_loop-IsSorted (suc rounds) fuel k m xs current list cells datas pos some_cell few one enough
        short valid bs i =
      Returns-then _
        (pass_loop-IsDoubled cmp Inv Valid key order info size k fuel m xs current [] _ pos
          (omega (arith, Blocks-length cell_key k m xs current bs)) bs i)
        (λ s d.
          let c =
            Out-IsClosed s.cells s.list s.tail d.current d.passing.merged
              (omega (arith, Blocks-length cell_key (k + k) d.m xs d.current d.blocks))
              (λ x. omega (arith, d.passing.once x)) in
          rw (c.is_tail, c.written)
            (elim (Bool-cases (leb s.nmerges 1)) [
              | inl finished ↦
                  let few_merges = leb→le s.nmerges 1 finished in
                  let whole : d.current ≡ sorted cell_key xs =
                    Blocks-whole cell_key (k + k) d.m xs d.current (omega (arith, d.counted))
                      d.blocks in
                  rw finished (
                    returns _ (record {
                      chain =
                          Linked-IsChain c.cells' s.list (sorted cell_key xs)
                            (rw (← whole) c.links);
                      same_info = λ x. c.same_info x ∙ d.passing.infos x;
                      same_size = c.same_length ∙ d.passing.same_size;
                      inv = d.passing.inv;
                    }))
              | inr more ↦
                  let merges : 2 ≤ d.m = ground (arith, more, d.counted) in
                  let long =
                    Blocks-long cell_key (k + k) d.m xs d.current (omega arith) merges d.blocks in
                  let twice : u32 (k * 2) ≡ k + k = omega arith in
                  rw (more, twice)
                    (sort_loop-IsSorted rounds fuel (k + k) d.m xs d.current s.list c.cells' s.datas
                      (omega arith) some_cell (omega (arith, d.halved)) (omega (arith, d.halved))
                      enough short valid d.blocks
                      (record {
                        merged = (refl, refl);
                        links = c.links;
                        once = λ x. omega (arith, d.passing.once x);
                        infos = λ x. c.same_info x ∙ d.passing.infos x;
                        valid =
                            Blocks-All cell_key (λ x. Valid (info x)) (k + k) d.m xs d.current
                              d.blocks valid;
                        inv = d.passing.inv;
                        same_size = c.same_length ∙ d.passing.same_size;
                      }))
            ]))

  -- For a comparison by keys and a list without a cycle of at least one cell and below 2 to the 31, all with
  -- valid data, core_list_mergesort returns after at most as many passes as there are cells. It heads the
  -- same cells in the stable order of their keys, and each cell has kept its data.
  pub core_list_mergesort-IsSorted :
      (rounds fuel : ℕ) (xs : List ℕ) (list : Ptr) (cells : List Cell) (datas : D)
      → 1 ≤ length xs
      → length xs ≤ rounds
      → length xs < fuel
      → length xs < 2 ^ 31
      → IsChain cells list xs
      → IsSimple xs
      → All (λ x. Valid (info x)) xs
      → ((x : ℕ) → (at cells x).info ≡ info x)
      → length cells ≡ size
      → Inv datas
      → Returns
          (IsSorted Inv info size (sorted cell_key xs))
          (core_list_mergesort cmp rounds fuel list cells datas)
  unfolding core_list_mergesort
  core_list_mergesort-IsSorted rounds fuel xs list cells datas some_cell few enough short chain
        simple valid infos same inv =
      sort_loop-IsSorted rounds fuel 1 (length xs) xs xs list cells datas (omega arith) some_cell
        few (omega arith) enough short valid (Blocks-single cell_key xs)
        (record {
          merged = (refl, refl);
          links = IsChain-Linked cells list xs chain;
          once = λ x. omega (arith, count-IsSimple xs simple x);
          infos = infos;
          valid = valid;
          inv = inv;
          same_size = same;
        })
