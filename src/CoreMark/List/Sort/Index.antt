-- ===== src/CoreMark/List/Sort/Index.antt =====
-- core_list_mergesort with cmp_idx.
use rsicv_uvm_test.Base.{
  count, ℕ, ◌+◌, ◌-◌, ◌^◌, ◌≤◌, ◌<◌, ◌≡◌, refl, ap, ◌∙◌, arith, leb, ltb, ◌==◌, ◌||◌, Bool,
  Bool-cases, inl, inr, some, List, length, length-set, get_elem?, set, store_of_lt,
  get_elem?-eq-get_or, get_or, get_or-set_self, get_or-set_ne, u16, u32, Returns, Returns-weaken,
}
use native.Mathlib.Decide.{ℕ_discrete}
use rsicv_uvm_test.CoreMark.List.{Ptr, Cell}
use rsicv_uvm_test.CoreMark.List.Reverse.{at, IsChain, IsSimple}
use rsicv_uvm_test.CoreMark.List.Items.{ListData, cmp_idx, extend16, regenerated}
use rsicv_uvm_test.CoreMark.List.Items.Find.{no_data, data_of, HaveData}
use rsicv_uvm_test.CoreMark.List.Sort.{Sorted, core_list_mergesort}
use rsicv_uvm_test.CoreMark.List.Sort.Reference.{sorted}
use rsicv_uvm_test.CoreMark.List.Sort.Blocks.{Increasing, sorted-Increasing, count-sorted}
use rsicv_uvm_test.CoreMark.List.Sort.Merge.{IsOrder}
use rsicv_uvm_test.CoreMark.List.Sort.Result.{core_list_mergesort-IsSorted}

-- The place of a 16-bit pattern in the order of its values with sign.
abbrev pub rank : ℕ → ℕ
rank idx = u16 (idx + 2 ^ 15)

-- The test `x - y <= 0` on two values of 16 bits with sign.
abbrev at_most : (x y : ℕ) → Bool
at_most x y =
    let difference = u32 (extend16 x + (2 ^ 32 - extend16 y)) in
    difference == 0 || leb (2 ^ 31) difference

at_most-rank : (x y : ℕ) → x < 2 ^ 16 → y < 2 ^ 16 → at_most x y ≡ leb (rank x) (rank y)
at_most-rank x y h k = elim (Bool-cases (ltb x (2 ^ 15))) [
  | inl plus ↦ elim (Bool-cases (ltb y (2 ^ 15))) [
    | inl plus2 ↦ rw (plus, plus2) (ground (arith, h, k, plus, plus2))
    | inr minus2 ↦ rw (plus, minus2) (ground (arith, h, k, plus, minus2))
  ]
  | inr minus ↦ elim (Bool-cases (ltb y (2 ^ 15))) [
    | inl plus2 ↦ rw (minus, plus2) (ground (arith, h, k, minus, plus2))
    | inr minus2 ↦ rw (minus, minus2) (ground (arith, h, k, minus, minus2))
  ]
]

-- The data of a block with the indices of another one.
pub record SameIndices (start datas : List ListData) : Type 0 where
  pub same_length : length datas ≡ length start
  pub same_idx : (a : ℕ) → (get_or datas a no_data).idx ≡ (get_or start a no_data).idx

-- An item whose data is regenerated.
abbrev touched : (a : ℕ) → List ListData → List ListData
touched a datas =
    let x = get_or datas a no_data in
    set datas a (record { data16 = regenerated x.data16; idx = x.idx })

touched-SameIndices :
    (start datas : List ListData) (a : ℕ)
    → a < length start
    → SameIndices start datas
    → SameIndices start (touched a datas)
touched-SameIndices start datas a h i =
    let x = get_or datas a no_data in
    let item : ListData = record { data16 = regenerated x.data16; idx = x.idx } in
    record {
      same_length = length-set datas a item ∙ i.same_length;
      same_idx = λ b. elim (ℕ_discrete a b) [
        | yes e ↦ rw (← e) (
            ap (λ (d : ListData). d.idx)
              (get_or-set_self datas a item no_data (omega (arith, i.same_length)))
            ∙ i.same_idx a)
        | no ne ↦
            ap (λ (d : ListData). d.idx) (get_or-set_ne datas a b item no_data ne) ∙ i.same_idx b
      ];
    }

abbrev pub HaveIndices : List ListData → Type 0
HaveIndices datas = (a : ℕ) → (get_or datas a no_data).idx < 2 ^ 16

read_data :
    (datas : List ListData) (a : ℕ)
    → a < length datas
    → get_elem? datas a ≡ some (get_or datas a no_data)
read_data datas a h = get_elem?-eq-get_or datas a no_data h

cmp_idx-IsOrder :
    (start : List ListData)
    → HaveIndices start
    → IsOrder cmp_idx
        (SameIndices start)
        (λ a. a < length start)
        (λ a. rank (get_or start a no_data).idx)
unfolding cmp_idx
cmp_idx-IsOrder start small = record {
  after = λ a b datas. touched b (touched a datas);
  compares = λ a b datas h k i.
      let i1 = touched-SameIndices start datas a h i in
      let i2 = touched-SameIndices start (touched a datas) b k i1 in
      rw
        (
          read_data datas a (omega (arith, i.same_length)),
          store_of_lt datas a _ (omega (arith, i.same_length)),
          read_data (touched a datas) b (omega (arith, i1.same_length)),
          store_of_lt (touched a datas) b _ (omega (arith, i1.same_length)),
          read_data (touched b (touched a datas)) a (omega (arith, i2.same_length)),
          read_data (touched b (touched a datas)) b (omega (arith, i2.same_length)),
          i2.same_idx a,
          i2.same_idx b,
          at_most-rank (get_or start a no_data).idx (get_or start b no_data).idx (small a)
              (small b),
        )
        refl;
  keeps = λ a b datas h k i.
      touched-SameIndices start (touched a datas) b k (touched-SameIndices start datas a h i);
}

pub record SortsByIndex (cells : List Cell) (datas : List ListData) (xs : List ℕ)
    (r : Sorted (List ListData)) : Type 0 where
  pub order : List ℕ
  pub chain : IsChain r.cells r.list order
  pub increasing : Increasing (λ x. rank (data_of cells datas x).idx) order
  pub same_cells : (x : ℕ) → count x order ≡ count x xs
  pub stable : order ≡ sorted (λ x. rank (data_of cells datas x).idx) xs
  pub same_info : (x : ℕ) → (at r.cells x).info ≡ (at cells x).info
  pub same_indices : SameIndices datas r.datas

-- On a list without a cycle of at least one cell and below 2 to the 31, whose cells all have data of 16 bits in the
-- block, core_list_mergesort with cmp_idx returns after at most as many passes as there are cells. It
-- heads the same cells, each as often, by increasing index as a value with sign, and those of one index in
-- their earlier order; no cell points to other data than before, and no index has changed.
pub core_list_mergesort-SortsByIndex :
    (rounds fuel : ℕ) (xs : List ℕ) (list : Ptr) (cells : List Cell) (datas : List ListData)
    → 1 ≤ length xs
    → length xs ≤ rounds
    → length xs < fuel
    → length xs < 2 ^ 31
    → IsChain cells list xs
    → IsSimple xs
    → HaveData cells datas xs
    → HaveIndices datas
    → Returns
        (SortsByIndex cells datas xs)
        (core_list_mergesort cmp_idx rounds fuel list cells datas)
core_list_mergesort-SortsByIndex rounds fuel xs list cells datas some_cell few enough short chain
      simple valid small =
    let by : ℕ → ℕ = λ x. rank (data_of cells datas x).idx in
    Returns-weaken
      (λ r s. record {
        order = sorted by xs;
        chain = s.chain;
        increasing = sorted-Increasing by xs;
        same_cells = count-sorted by xs;
        stable = refl;
        same_info = s.same_info;
        same_indices = s.inv;
      })
      (core_list_mergesort-IsSorted cmp_idx (SameIndices datas) (λ a. a < length datas)
        (λ a. rank (get_or datas a no_data).idx) (cmp_idx-IsOrder datas small)
        (λ x. (at cells x).info) (length cells) rounds fuel xs list cells datas some_cell few enough
        short chain simple valid (λ x. refl) refl
        (record { same_length = refl; same_idx = λ a. refl }))
