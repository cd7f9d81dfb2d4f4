-- ===== src/Examples/Sort.antt =====
-- Finding, inserting and sorting on short lists.
use rsicv_uvm_test.Base.{◌≡◌, ℕ, zero, suc, refl, arith, some, none, List, [], ◌∷◌, Option, Returns}
use rsicv_uvm_test.CoreMark.List.{Cell, Ptr}
use rsicv_uvm_test.CoreMark.List.Items.{
  ListData, Blocks, core_list_find, core_list_insert_new, cmp_idx,
}
use rsicv_uvm_test.CoreMark.List.Items.Find.{Finds, core_list_find-Finds}
use rsicv_uvm_test.CoreMark.List.Items.Insert.{Inserts, core_list_insert_new-Inserts}
use rsicv_uvm_test.CoreMark.List.Sort.{
  Sorted, core_list_mergesort, sort_loop, pass_loop, one_merge, merge_loop, merge_step,
}
use rsicv_uvm_test.CoreMark.List.Sort.Index.{
  HaveIndices, SortsByIndex, core_list_mergesort-SortsByIndex,
}

-- The cells 0, 2 and 1 in this order, and two free ones.
abbrev five_cells : List Cell
five_cells =
    record { next = some 2; info = 0 }
    ∷ record { next = none; info = 1 }
    ∷ record { next = some 1; info = 2 }
    ∷ record { next = none; info = 0 }
    ∷ record { next = none; info = 0 }
    ∷ []

abbrev datum : (data16 idx : ℕ) → ListData
datum data16 idx = record { data16 = data16; idx = idx }

abbrev items : List ListData
items =
    datum 0x8080 0x7fff ∷ (datum 0x1200 5 ∷ (datum 0x3400 0x8000 ∷ (datum 0 0 ∷ (datum 0 0 ∷ []))))

items-HaveIndices : HaveIndices items
items-HaveIndices zero = omega arith
items-HaveIndices (suc zero) = omega arith
items-HaveIndices (suc (suc zero)) = omega arith
items-HaveIndices (suc (suc (suc zero))) = omega arith
items-HaveIndices (suc (suc (suc (suc zero)))) = omega arith
items-HaveIndices (suc (suc (suc (suc (suc a))))) = omega arith

abbrev places : List ℕ
places = 0 ∷ (2 ∷ (1 ∷ []))

core_list_find-Finds_example :
    Finds
      (datum 0 5)
      five_cells
      items
      places
      (core_list_find 4 (some 0) (datum 0 5) five_cells items)
core_list_find-Finds_example =
    core_list_find-Finds 4 (some 0) (datum 0 5) five_cells items places (omega arith)
      (refl, (omega arith, (refl, (omega arith, (refl, (omega arith, refl))))))
      (omega arith, (omega arith, (omega arith, tt)))

-- An index of 0 is looked for by index.
found_by_0 : core_list_find 4 (some 0) (datum 0x80 0) five_cells items ≡ some none
unfolding core_list_find
found_by_0 = refl

abbrev blocks : Blocks
blocks = record { cells = five_cells; datas = items; memblock = 3; datablock = 3 }

core_list_insert_new-Inserts_example :
    Inserts 0 (2 ∷ (1 ∷ [])) (datum 7 8) 5 5 blocks (core_list_insert_new 0 (datum 7 8) 5 5 blocks)
core_list_insert_new-Inserts_example =
    core_list_insert_new-Inserts 0 5 5 (2 ∷ (1 ∷ [])) (datum 7 8) blocks
      (refl, (omega arith, (refl, (omega arith, (refl, (omega arith, refl))))))
      (
        (λ e. omega (arith, e), (λ e. omega (arith, e), tt)),
        ((λ e. omega (arith, e), tt), (tt, tt)),
      )
      (λ e. omega (arith, e), (λ e. omega (arith, e), (λ e. omega (arith, e), tt))) (omega arith)
      (omega arith)

core_list_mergesort-SortsByIndex_example :
    Returns
      (SortsByIndex five_cells items places)
      (core_list_mergesort cmp_idx 3 4 (some 0) five_cells items)
core_list_mergesort-SortsByIndex_example =
    core_list_mergesort-SortsByIndex 3 4 places (some 0) five_cells items (omega arith)
      (omega arith) (omega arith) (omega arith)
      (refl, (omega arith, (refl, (omega arith, (refl, (omega arith, refl))))))
      (
        (λ e. omega (arith, e), (λ e. omega (arith, e), tt)),
        ((λ e. omega (arith, e), tt), (tt, tt)),
      )
      (omega arith, (omega arith, (omega arith, tt))) items-HaveIndices

abbrev head : Option (Sorted (List ListData)) → Ptr
head none = none
head (some r) = r.list

sorted_head : head (core_list_mergesort cmp_idx 3 4 (some 0) five_cells items) ≡ some 2
unfolding core_list_mergesort sort_loop pass_loop one_merge merge_loop merge_step cmp_idx
sorted_head = refl
