-- ===== src/Dhrystone/Records.antt =====
-- Proc_1 of dhrystone4sim/dhry_1.c on the two records of the program.
use rsicv_uvm_test.Base.{ℕ, ◌≡◌, refl, some, List, [], ◌∷◌}
use rsicv_uvm_test.Dhrystone.{RecType, Globals, proc_1, proc_3, finish_record}

-- The record of `Ptr_Glob` and that of `Next_Ptr_Glob`.
abbrev pub glob_record : (int_comp : ℕ) → (str_comp : List ℕ) → RecType
glob_record int_comp str_comp = record {
  ptr_comp = some 0;
  discr = 0;
  enum_comp = 2;
  int_comp = int_comp;
  str_comp = str_comp;
}

abbrev pub next_record : (str_comp : List ℕ) → RecType
next_record str_comp = record {
  ptr_comp = some 0;
  discr = 0;
  enum_comp = 1;
  int_comp = 18;
  str_comp = str_comp;
}

-- The globals with the two records and the `Int_Glob` that `proc_8` has set.
abbrev pub with_records : RecType → RecType → Globals → Globals
with_records next glob s = record s {
  heap = next ∷ glob ∷ [];
  ptr_glob = some 1;
  next_ptr_glob = some 0;
  int_glob = 5;
}

pub proc_1_lem :
    (next : RecType) (int_comp : ℕ) (str_comp : List ℕ) (s : Globals)
    → proc_1 (some 1) (with_records next (glob_record int_comp str_comp) s)
      ≡ some (with_records (next_record str_comp) (glob_record 17 str_comp) s)
unfolding proc_1 proc_3 finish_record
proc_1_lem next int_comp str_comp s = refl
