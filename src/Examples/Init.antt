-- ===== src/Examples/Init.antt =====
-- core_list_init on a block for eight cells.
use rsicv_uvm_test.Base.{ℕ, arith, none, List, replicate, zero, suc, Returns}
use rsicv_uvm_test.CoreMark.List.{Cell}
use rsicv_uvm_test.CoreMark.List.Items.{ListData}
use rsicv_uvm_test.CoreMark.List.Items.Find.{no_data}
use rsicv_uvm_test.CoreMark.List.Sort.Index.{HaveIndices}
use rsicv_uvm_test.CoreMark.List.Init.{core_list_init}
use rsicv_uvm_test.CoreMark.List.Init.Prepared.{IsPrepared, core_list_init-IsPrepared}

abbrev cells : List Cell
cells = replicate 8 (record { next = none; info = 5 })

abbrev datas : List ListData
datas = replicate 8 no_data

nothing-HaveIndices : (n : ℕ) → HaveIndices (replicate n no_data)
nothing-HaveIndices zero a = omega arith
nothing-HaveIndices (suc n) zero = omega arith
nothing-HaveIndices (suc n) (suc a) = nothing-HaveIndices n a

core_list_init-IsPrepared_example : Returns (IsPrepared 8 7 6) (core_list_init 8 200 7 cells datas)
core_list_init-IsPrepared_example =
    core_list_init-IsPrepared 8 200 7 cells datas (omega arith) (omega arith) (omega arith)
      (omega arith) (omega arith) (nothing-HaveIndices 8)
