-- ===== src/Dhrystone/Output.antt =====
-- The final values that the main program of dhrystone4sim/dhry_1.c prints, each with the value that
-- the line behind it says it should be.
use rsicv_uvm_test.Base.{
  ℕ, ◌+◌, ◌==◌, if◌then◌else◌, Option, some, List, [], ◌∷◌, get_elem?, ◌>>=◌, codes, u32,
}
use rsicv_uvm_test.Dhrystone.{deref}
use rsicv_uvm_test.Dhrystone.Program.{Main}

-- An argument of printf, for `%d`, `%c` and `%s`.
pub data Shown : Type 0 where
  int_shown char_shown : ℕ → Shown
  pointer_shown : Option ℕ → Shown
  text_shown : List ℕ → Shown

pub record Line : Type 0 where
  pub value : Shown
  pub should_be : Shown

-- What `%s` prints.
abbrev pub text_at : List ℕ → List ℕ
text_at [] = []
text_at (c ∷ cs) = let rest = text_at cs in if c == 0 then [] else c ∷ rest

abbrev pub int_line : (value should_be : ℕ) → Line
int_line value should_be = record { value = int_shown value; should_be = int_shown should_be }

abbrev pub char_line : (value should_be : ℕ) → Line
char_line value should_be = record { value = char_shown value; should_be = char_shown should_be }

abbrev pub pointer_line : (value should_be : Option ℕ) → Line
pointer_line value should_be = record {
  value = pointer_shown value;
  should_be = pointer_shown should_be;
}

abbrev pub text_line : (value should_be : List ℕ) → Line
text_line value should_be = record {
  value = text_shown (text_at value);
  should_be = text_shown should_be;
}

-- The pointer of `Ptr_Glob` is implementation-dependent, and the other is the same.
unfoldable pub final_values : (number_of_runs : ℕ) → Main → Option (List Line)
final_values number_of_runs m = do
  arr_1 ← get_elem? m.globals.arr_1_glob 8
  row ← get_elem? m.globals.arr_2_glob 8
  arr_2 ← get_elem? row 7
  glob ← deref m.globals.ptr_glob m.globals
  next ← deref m.globals.next_ptr_glob m.globals
  some (
      int_line m.globals.int_glob 5
      ∷ int_line m.globals.bool_glob 1
      ∷ char_line m.globals.ch_1_glob 65
      ∷ char_line m.globals.ch_2_glob 66
      ∷ int_line arr_1 7
      ∷ int_line arr_2 (u32 (number_of_runs + 10))
      ∷ pointer_line glob.ptr_comp glob.ptr_comp
      ∷ int_line glob.discr 0
      ∷ int_line glob.enum_comp 2
      ∷ int_line glob.int_comp 17
      ∷ text_line glob.str_comp (codes "DHRYSTONE PROGRAM, SOME STRING")
      ∷ pointer_line next.ptr_comp glob.ptr_comp
      ∷ int_line next.discr 0
      ∷ int_line next.enum_comp 1
      ∷ int_line next.int_comp 18
      ∷ text_line next.str_comp (codes "DHRYSTONE PROGRAM, SOME STRING")
      ∷ int_line m.locals.int_1_loc 5
      ∷ int_line m.locals.int_2_loc 13
      ∷ int_line m.locals.int_3_loc 7
      ∷ int_line m.locals.enum_loc 1
      ∷ text_line m.locals.str_1_loc (codes "DHRYSTONE PROGRAM, 1'ST STRING")
      ∷ text_line m.locals.str_2_loc (codes "DHRYSTONE PROGRAM, 2'ND STRING")
      ∷ [])
