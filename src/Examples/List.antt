-- ===== src/Examples/List.antt =====
-- The CoreMark list on three cells.
use rsicv_uvm_test.Base.{◌≡◌, refl, arith, some, none, List, [], ◌∷◌, ◌>>=◌}
use rsicv_uvm_test.CoreMark.List.{
  Cell, Returned, reverse_from, core_list_reverse, core_list_remove, core_list_undo_remove,
}
use rsicv_uvm_test.CoreMark.List.Reverse.{IsReversed, core_list_reverse-IsReversed}
use rsicv_uvm_test.CoreMark.List.Undo.{remove_undo}

abbrev three_cells : List Cell
three_cells =
    record { next = some 2; info = 7 }
    ∷ record { next = none; info = 8 }
    ∷ record { next = some 1; info = 9 }
    ∷ []

turned :
    core_list_reverse 4 (some 0) three_cells
    ≡ some (record {
      cell = some 1;
      cells =
          record { next = none; info = 7 }
          ∷ record { next = some 2; info = 8 }
          ∷ record { next = some 0; info = 9 }
          ∷ [];
    })
unfolding core_list_reverse reverse_from
turned = refl

taken_out :
    core_list_remove 0 three_cells
    ≡ some (record {
      cell = some 2;
      cells =
          record { next = some 1; info = 9 }
          ∷ record { next = none; info = 8 }
          ∷ record { next = none; info = 7 }
          ∷ [];
    })
unfolding core_list_remove
taken_out = refl

remove_undo_example :
    core_list_remove 0 three_cells >>= (λ (t : Returned). core_list_undo_remove 2 0 t.cells)
    ≡ some (record { cell = some 2; cells = three_cells })
remove_undo_example = remove_undo three_cells 0 2 (omega arith) (omega arith) (omega arith) refl

core_list_reverse-IsReversed_example :
    IsReversed three_cells (1 ∷ 2 ∷ 0 ∷ []) (core_list_reverse 4 (some 0) three_cells)
core_list_reverse-IsReversed_example =
    core_list_reverse-IsReversed 4 (some 0) three_cells (0 ∷ 2 ∷ 1 ∷ []) (omega arith)
      (refl, (omega arith, (refl, (omega arith, (refl, (omega arith, refl))))))
      ((omega arith, (omega arith, tt)), ((omega arith, tt), (tt, tt)))
