-- ===== src/CoreMark/List/Init/Prepared.antt =====
-- What core_list_init leaves: a list of all cells but the last of the block, sorted by index.
use rsicv_uvm_test.Base.{
  ℕ, zero, suc, ◌+◌, ◌-◌, ◌/◌, ◌^◌, ◌≤◌, ◌<◌, ◌≡◌, refl, sym, ap, ◌∙◌, arith, ◌⊎◌, inl, inr, leb,
  if◌then◌else◌, none, some, ◌>>=◌, get_elem?, List, [], ◌∷◌, length, All, count, set, length-set,
  get_or-set_self, get_or-set_ne, get_elem?-eq-get_or, Returns, Returns-then, Returns-weaken, min,
}
use native.Mathlib.Decide.{ℕ_discrete}
use rsicv_uvm_test.CoreMark.List.{Cell}
use rsicv_uvm_test.CoreMark.List.Reverse.{at, no_cell, IsChain}
use rsicv_uvm_test.CoreMark.List.Items.{ListData, Blocks, cmp_idx}
use rsicv_uvm_test.CoreMark.List.Items.Find.{no_data, data_of, HaveData}
use rsicv_uvm_test.CoreMark.List.Items.Insert.{set_next_of_lt, set_info_of_lt, copy_info_of_lt}
use rsicv_uvm_test.CoreMark.List.Sort.{Sorted, core_list_mergesort}
use rsicv_uvm_test.CoreMark.List.Sort.Blocks.{Increasing}
use rsicv_uvm_test.CoreMark.List.Sort.Index.{
  rank, HaveIndices, SortsByIndex, core_list_mergesort-SortsByIndex,
}
use rsicv_uvm_test.CoreMark.List.Init.{list_size, item_idx, index_loop, core_list_init}
use rsicv_uvm_test.CoreMark.List.Init.Items.{
  down, length-down, down-IsSimple, count-down, idx_at, IsFilled, insert-IsGrown, fill_list,
}
use rsicv_uvm_test.CoreMark.List.Init.Indices.{item_idx_small, IsIndexed, index_loop-Returns}

-- For the cells 0 to `last`, which are the head, the tail, and the items from the newest down.
pub record IsPrepared (size seed last : ℕ) (r : Sorted (List ListData)) : Type 0 where
  pub order : List ℕ
  pub chain : IsChain r.cells r.list order
  pub increasing : Increasing (λ x. rank (data_of r.cells r.datas x).idx) order
  pub all_once : (x : ℕ) → count x order ≡ (if leb x last then 1 else 0)
  pub infos : (p : ℕ) → p ≤ last → (at r.cells p).info ≡ p
  pub head_idx : idx_at r.datas 0 ≡ 0
  pub tail_idx : idx_at r.datas 1 ≡ 0x7fff
  pub items : (p : ℕ) → 2 ≤ p → p ≤ last → idx_at r.datas p ≡ item_idx size seed (1 + (last - p))

Increasing-same :
    (key key' : ℕ → ℕ) (xs : List ℕ)
    → ((x : ℕ) → key x ≡ key' x)
    → Increasing key xs
    → Increasing key' xs
unfolding Increasing
Increasing-same key key' [] same h = tt
Increasing-same key key' (x ∷ xs) same h = (go xs h.0, Increasing-same key key' xs same h.1)
  where
    go : (ys : List ℕ) → All (λ y. key x ≤ key y) ys → All (λ y. key' x ≤ key' y) ys
    go [] k = tt
    go (y ∷ ys) k = (rw (← same x, ← same y) k.0, go ys k.1)

count-zero : (m : ℕ) → count 0 (down m) ≡ 0
count-zero zero = refl
count-zero (suc m) = ground (arith, count-zero m)

range_cases : (a m : ℕ) → ((a ≤ 1) ⊎ (m < a)) ⊎ ((2 ≤ a) × (a ≤ m))
range_cases a m = ground arith

down-HaveData :
    (cells : List Cell) (datas : List ListData) (k m : ℕ)
    → k ≤ m
    → m < length datas
    → ((p : ℕ) → p ≤ m → (at cells p).info ≡ p)
    → HaveData cells datas (down k)
down-HaveData cells datas zero m h fit infos = tt
down-HaveData cells datas (suc k) m h fit infos =
    (omega (arith, infos (suc k) h), down-HaveData cells datas k m (omega arith) fit infos)

all_once_lem : (x m : ℕ) → count x (0 ∷ down m) ≡ (if leb x m then 1 else 0)
all_once_lem zero m = ground (arith, count-zero m)
all_once_lem (suc x) m = ground (arith, count-down (suc x) m)

sorted-IsPrepared :
    (fuel size seed m : ℕ) (s : Blocks) (datas : List ListData)
    → 1 ≤ m
    → m + 1 < fuel
    → m < 2 ^ 30
    → suc m < size
    → IsFilled size m s
    → IsIndexed size seed 1 m s.datas datas
    → Returns
        (IsPrepared size seed m)
        (core_list_mergesort cmp_idx fuel fuel (some 0) s.cells datas)
sorted-IsPrepared fuel size seed m s datas some_cell enough short fit f i =
    let xs = 0 ∷ down m in
    let count_cells : length xs ≡ suc m = ap suc (length-down m) in
    let small : HaveIndices datas = λ a. elim (range_cases a m) [
      | inl outside ↦ rw (i.others a outside) (f.small a)
      | inr inside ↦ rw (i.items a inside.0 inside.1) (item_idx_small size seed (1 + (m - a)))
    ] in
    let valid : HaveData s.cells datas xs = (
      omega (arith, f.infos 0 (omega arith), i.same_length, f.datas_fit),
      down-HaveData s.cells datas m m (omega arith) (omega (arith, i.same_length, f.datas_fit))
          f.infos,
    ) in
    Returns-weaken
      (λ r (k : SortsByIndex s.cells datas xs r). record {
        order = k.order;
        chain = k.chain;
        increasing =
            Increasing-same (λ x. rank (data_of s.cells datas x).idx)
              (λ x. rank (data_of r.cells r.datas x).idx) k.order
              (λ x.
                rw (k.same_info x) (ap rank (sym (k.same_indices.same_idx (at s.cells x).info))))
              k.increasing;
        all_once = λ x. k.same_cells x ∙ all_once_lem x m;
        infos = λ p h. k.same_info p ∙ f.infos p h;
        head_idx = k.same_indices.same_idx 0 ∙ i.others 0 (inl (omega arith)) ∙ f.head_idx;
        tail_idx =
            k.same_indices.same_idx 1
            ∙ i.others 1 (inl (omega arith))
            ∙ f.new_idx 1 (omega arith) some_cell;
        items = λ p h l. k.same_indices.same_idx p ∙ i.items p h l;
      })
      (core_list_mergesort-SortsByIndex fuel fuel xs (some 0) s.cells datas (omega arith)
        (omega arith) (omega arith) (omega arith) f.chain (down-IsSimple m) valid small)

-- The steps behind the insertions.
finished :
    (fuel size seed last m : ℕ) (s : Blocks)
    → last ≡ suc m
    → suc m + 1 < fuel
    → suc m < 2 ^ 30
    → suc (suc m) < size
    → IsFilled size last s
    → Returns (IsPrepared size seed last) (do
      head ← get_elem? s.cells 0
      indexed ← index_loop fuel size seed 1 head.next s.cells s.datas
      core_list_mergesort cmp_idx fuel fuel (some 0) s.cells indexed)
finished fuel size seed last m s same enough short fit filled =
    let f : IsFilled size (suc m) s = rw (← same) filled in
    rw (get_elem?-eq-get_or s.cells 0 no_cell f.chain.1.0, f.chain.1.1.0, same)
      (Returns-then _
        (index_loop-Returns fuel size seed 1 m s.cells s.datas (omega arith) (omega arith)
          (refl, f.chain.1.1.1) f.infos (omega (arith, f.datas_fit)))
        (λ datas i.
          sorted-IsPrepared fuel size seed (suc m) s datas (omega arith) enough short fit f i))

-- The head alone.
headed :
    (size : ℕ) (cells : List Cell) (datas : List ListData)
    → 1 ≤ size
    → size ≤ length cells
    → size ≤ length datas
    → HaveIndices datas
    → IsFilled size 0 (record {
      cells =
          set
            (set cells 0 (record { next = none; info = (at cells 0).info }))
            0
            (record { next = none; info = 0 });
      datas = set datas 0 (record { data16 = 0x8080; idx = 0 });
      memblock = 1;
      datablock = 1;
    })
headed size cells datas some_place room room2 small =
    let cells1 = set cells 0 (record { next = none; info = (at cells 0).info }) in
    let length1 : length cells1 ≡ length cells = length-set cells 0 _ in
    let cells2 = set cells1 0 (record { next = none; info = 0 }) in
    let length2 : length cells2 ≡ length cells1 = length-set cells1 0 _ in
    let head : at cells2 0 ≡ record { next = none; info = 0 } =
      get_or-set_self cells1 0 _ no_cell (omega (arith, length1)) in
    let item : ListData = record { data16 = 0x8080; idx = 0 } in
    let head_idx : idx_at (set datas 0 item) 0 ≡ 0 =
      ap (λ (d : ListData). d.idx) (get_or-set_self datas 0 item no_data (omega arith)) in
    record {
      cells_fit = omega (arith, length1, length2);
      datas_fit = omega (arith, length-set datas 0 item);
      memblock = refl;
      datablock = refl;
      chain = (refl, (omega (arith, length1, length2), ap (λ (c : Cell). c.next) head));
      infos = λ p h. let only : p ≡ 0 = omega arith in rw only (ap (λ (c : Cell). c.info) head);
      head_idx = head_idx;
      new_idx = λ p h k. absurd (omega arith);
      small = λ a. elim (ℕ_discrete a 0) [
        | yes e ↦ rw (e, head_idx) (omega arith)
        | no ne ↦ rw (idx_at, get_or-set_ne datas 0 a item no_data (λ e. ne (sym e))) (small a)
      ];
    }

-- For a block of at least 100 bytes inside 32-bit memory with places for that many cells and data, 16-bit
-- indices in it, and fuel for a step along each place, core_list_init returns, whatever the seed. With
-- size = blksize / 20 - 2, its list has each of the first size - 1 cells once, the last place staying
-- free, in the increasing order of their indices, and each cell has the data of its own number. The first
-- cell has the index 0, the second 0x7fff, and the others, from the last one down, those that the loop
-- computes for 1, 2 and so on.
pub core_list_init-IsPrepared :
    (fuel blksize seed : ℕ) (cells : List Cell) (datas : List ListData)
    → 100 ≤ blksize
    → blksize < 2 ^ 32
    → list_size blksize ≤ length cells
    → list_size blksize ≤ length datas
    → list_size blksize ≤ fuel
    → HaveIndices datas
    → Returns
        (IsPrepared (list_size blksize) seed (list_size blksize - 2))
        (core_list_init fuel blksize seed cells datas)
unfolding core_list_init
core_list_init-IsPrepared fuel blksize seed cells datas enough low room room2 steps small =
    let size = list_size blksize in
    let computed : size ≡ blksize / 20 - 2 = omega arith in
    let cells1 = set cells 0 (record { next = none; info = (at cells 0).info }) in
    let length1 : length cells1 ≡ length cells = length-set cells 0 _ in
    rw
      (
        set_next_of_lt cells 0 none (omega (arith, room)),
        set_info_of_lt cells1 0 0 (omega (arith, length1)),
        get_or-set_self cells 0 (record { next = none; info = (at cells 0).info }) no_cell
            (omega (arith, room)),
        copy_info_of_lt 0 (record { data16 = 0x8080; idx = 0 }) datas (omega (arith, room2)),
      )
      (Returns-then _
        (insert-IsGrown size 0 (record { data16 = 0xffff; idx = 0x7fff }) _ refl (omega arith)
          (headed size cells datas (omega arith) room room2 small))
        (λ with_tail f.
          let one : min 1 (size - 2) ≡ 1 = omega arith in
          Returns-then _ (fill_list size seed with_tail.blocks (omega arith) (rw (← one) f)) (λ s g.
            finished fuel size seed (size - 2) (size - 3) s (omega arith) (omega arith)
              (omega arith) (omega arith) g)))
