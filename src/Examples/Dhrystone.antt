-- ===== src/Examples/Dhrystone.antt =====
-- Dhrystone with the string functions of the repository, and its procedures at the values that their
-- comments name.
use rsicv_uvm_test.Base.{
  ℕ, zero, suc, ◌+◌, ◌<◌, ◌≡◌, refl, arith, some, none, List, [], get_or, replicate, Returns,
}
use rsicv_uvm_test.Syscalls.Strings.{strcpy, strcmp}
use rsicv_uvm_test.Syscalls.Strings.Text.{strcpy_lem, strcmp_less}
use rsicv_uvm_test.Dhrystone.{RecType, Globals, proc_6, proc_7, proc_8}
use rsicv_uvm_test.Dhrystone.Program.{Main, main, proc_2, subtract_while}
use rsicv_uvm_test.Dhrystone.Arrays.{IsGrid, IsFilled, proc_8-IsFilled}
use rsicv_uvm_test.Dhrystone.Final.{PrintsExpected, main-PrintsExpected}

get_or-replicate : {A : Type 0} (n i : ℕ) (a d : A) → i < n → get_or (replicate n a) i d ≡ a
get_or-replicate zero i a d h = absurd (omega arith)
get_or-replicate (suc n) zero a d h = refl
get_or-replicate (suc n) (suc i) a d h = get_or-replicate n i a d (omega arith)

abbrev rows : List (List ℕ)
rows = replicate 50 (replicate 50 3)

rows-IsGrid : IsGrid rows
rows-IsGrid =
    let row : List ℕ = replicate 50 3 in
    record { rows = refl; columns = λ i h. rw (get_or-replicate 50 i row [] h) refl }

abbrev fresh : RecType
fresh = record {
  ptr_comp = none;
  discr = 9;
  enum_comp = 9;
  int_comp = 9;
  str_comp = replicate 31 9;
}

abbrev globals : Globals
globals = record {
  heap = [];
  ptr_glob = none;
  next_ptr_glob = none;
  int_glob = 4;
  bool_glob = 0;
  ch_1_glob = 0;
  ch_2_glob = 0;
  arr_1_glob = replicate 50 0;
  arr_2_glob = rows;
}

abbrev at_entry : Main
at_entry = record {
  globals = globals;
  locals = record {
    int_1_loc = 7;
    int_2_loc = 7;
    int_3_loc = 7;
    enum_loc = 7;
    str_1_loc = replicate 31 7;
    str_2_loc = replicate 31 7;
  };
}

main-PrintsExpected_example :
    Returns (PrintsExpected 2) (main strcpy strcmp 3 3 2 fresh fresh at_entry)
main-PrintsExpected_example =
    main-PrintsExpected strcpy strcmp strcpy_lem strcmp_less 3 3 2 fresh fresh at_entry
      (omega arith) (omega arith) (omega arith) (omega arith) refl refl refl refl rows-IsGrid

proc_8-IsFilled_example : Returns (IsFilled (3 + 5) 7 globals) (proc_8 3 7 globals)
proc_8-IsFilled_example = proc_8-IsFilled 3 7 globals (omega arith) refl rows-IsGrid

abbrev in_run : Globals
in_run = record globals { ch_1_glob = 65; int_glob = 5 }

-- The comment on Proc_2 says that 1 becomes 4.
proc_2_becomes : proc_2 1 1 in_run ≡ some 5
unfolding proc_2 subtract_while
proc_2_becomes = refl

proc_7_calls : (proc_7 2 3 ≡ 7) × ((proc_7 10 5 ≡ 17) × (proc_7 6 10 ≡ 18))
proc_7_calls = (refl, (refl, refl))

proc_6_call : proc_6 2 5 ≡ 1
proc_6_call = refl
