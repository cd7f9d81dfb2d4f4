-- ===== src/Dhrystone/Program.antt =====
-- The procedures of dhrystone4sim/dhry_1.c and dhry_2.c that loop or call the C library, and the main
-- program without its output and its clock. strcpy and strcmp, which are code of the C library, are
-- parameters. A loop that is not counted runs on fuel.
use rsicv_uvm_test.Base.{
  ℕ, zero, suc, ◌+◌, ◌-◌, ◌*◌, ◌/◌, ◌^◌, ltb, leb, ◌==◌, not, ◌&&◌, if◌then◌else◌, Bool, true,
  false, Option, none, some, List, [], ◌∷◌, ◌++◌, codes, get_elem?, ◌>>=◌, u32, u8,
}
use rsicv_uvm_test.Benchmarks.{signed_lt}
use rsicv_uvm_test.Dhrystone.{
  RecType, Globals, ident_1, ident_2, ident_3, boolean, minus, store_cell, set_field, deref, func_1,
  proc_1, proc_4, proc_5, proc_6, proc_7, proc_8,
}

-- The loop of `proc_2` and its `*Int_Par_Ref` at the end.
unfoldable pub subtract_while :
    (fuel : ℕ) → (int_par_ref int_loc : ℕ) → (enum_loc : Option ℕ) → Globals → Option ℕ
subtract_while zero int_par_ref int_loc enum_loc s = none
subtract_while (suc fuel) int_par_ref int_loc enum_loc s = do
  let taken = s.ch_1_glob == 65
  let int_loc' = if taken then minus int_loc 1 else int_loc
  let int_par_ref' = if taken then minus int_loc' s.int_glob else int_par_ref
  let enum_loc' = if taken then some ident_1 else enum_loc
  let again = subtract_while fuel int_par_ref' int_loc' enum_loc' s
  tested ← enum_loc'
  if tested == ident_1 then some int_par_ref' else again

unfoldable pub proc_2 : (fuel : ℕ) → (int_par_ref : ℕ) → Globals → Option ℕ
proc_2 fuel int_par_ref s = subtract_while fuel int_par_ref (u32 (int_par_ref + 10)) none s

pub record Looped : Type 0 where
  pub int_loc : ℕ
  pub ch_loc : Option ℕ
  pub globals : Globals

-- The loop of `func_2`.
unfoldable pub compare_while :
    (fuel : ℕ)
    → (str_1 str_2 : List ℕ) → (int_loc : ℕ) → (ch_loc : Option ℕ) → Globals
    → Option Looped
compare_while zero str_1 str_2 int_loc ch_loc s = none
compare_while (suc fuel) str_1 str_2 int_loc ch_loc s =
    let next = (do
      c1 ← get_elem? str_1 int_loc
      c2 ← get_elem? str_2 (int_loc + 1)
      let called = func_1 c1 c2 s
      let taken = called.enumeration == ident_1
      compare_while fuel str_1 str_2 (if taken then u32 (int_loc + 1) else int_loc)
          (if taken then some 65 else ch_loc) called.globals) in
    if signed_lt 2 int_loc
    then some (record { int_loc = int_loc; ch_loc = ch_loc; globals = s })
    else next

pub record Answer : Type 0 where
  pub answer : Bool
  pub globals : Globals

-- The locals of `main`.
pub record Locals : Type 0 where
  pub int_1_loc : ℕ
  pub int_2_loc : ℕ
  pub int_3_loc : ℕ
  pub enum_loc : ℕ
  pub str_1_loc : List ℕ
  pub str_2_loc : List ℕ

pub record Main : Type 0 where
  pub globals : Globals
  pub locals : Locals

-- The size of an `int`, and the quotient of two, which is cut towards zero.
abbrev pub magnitude : ℕ → ℕ
magnitude a = if ltb a (2 ^ 31) then a else 2 ^ 32 - a

abbrev pub quotient : ℕ → ℕ → Option ℕ
quotient a b =
    let q = magnitude a / magnitude b in
    if b == 0
    then none
    else some (
        if signed_lt a 0
        then (if signed_lt b 0 then u32 q else minus 0 q)
        else (if signed_lt b 0 then minus 0 q else u32 q))

-- `while (Int_1_Loc < Int_2_Loc)`.
unfoldable pub fill_while : (fuel : ℕ) → Locals → Option Locals
fill_while zero l = none
fill_while (suc fuel) l =
    let l1 = record l { int_3_loc = minus (u32 (5 * l.int_1_loc)) l.int_2_loc } in
    let l2 = record l1 { int_3_loc = proc_7 l1.int_1_loc l1.int_2_loc } in
    let next = fill_while fuel (record l2 { int_1_loc = u32 (l2.int_1_loc + 1) }) in
    if signed_lt l.int_1_loc l.int_2_loc then next else some l

module _ (strcpy : (dest src : List ℕ) → Option (List ℕ))
    (strcmp : (s1 s2 : List ℕ) → Option ℕ) where
  unfoldable pub func_2 : (fuel : ℕ) → (str_1 str_2 : List ℕ) → Globals → Option Answer
  func_2 fuel str_1 str_2 s = do
    looped ← compare_while fuel str_1 str_2 2 none s
    ch_loc ← looped.ch_loc
    let int_loc = if leb 87 ch_loc && ltb ch_loc 90 then 7 else looped.int_loc
    let by_strings = (do
      compared ← strcmp str_1 str_2
      some (
          if signed_lt 0 compared
          then record {
            answer = true;
            globals = record looped.globals { int_glob = u32 (int_loc + 7) };
          }
          else record { answer = false; globals = looped.globals }))
    if ch_loc == 82 then some (record { answer = true; globals = looped.globals }) else by_strings

  -- `for (Ch_Index = 'A'; Ch_Index <= Ch_2_Glob; ++Ch_Index)`.
  unfoldable pub letters : (fuel ch_index run_index : ℕ) → Main → Option Main
  letters zero ch_index run_index m = none
  letters (suc fuel) ch_index run_index m =
      let called = func_1 ch_index 67 m.globals in
      let next = (do
        body ←
            (let third = (do
              str_2 ← strcpy m.locals.str_2_loc (codes "DHRYSTONE PROGRAM, 3'RD STRING" ++ (0 ∷ []))
              some (record {
                globals = record called.globals { int_glob = run_index };
                locals = record m.locals {
                  enum_loc = proc_6 ident_1 called.globals.int_glob;
                  str_2_loc = str_2;
                  int_2_loc = run_index;
                };
              })) in
              if m.locals.enum_loc == called.enumeration
              then third
              else some (record { globals = called.globals; locals = m.locals }))
        letters fuel (u8 (ch_index + 1)) run_index body) in
      if leb ch_index m.globals.ch_2_glob then next else some m

  -- The body of the loop over the runs.
  unfoldable pub one_run : (fuel run_index : ℕ) → Main → Option Main
  one_run fuel run_index m = do
    let s1 = proc_4 (proc_5 m.globals)
    str_2 ← strcpy m.locals.str_2_loc (codes "DHRYSTONE PROGRAM, 2'ND STRING" ++ (0 ∷ []))
    called ← func_2 fuel m.locals.str_1_loc str_2 s1
    let s2 = record called.globals { bool_glob = boolean (not called.answer) }
    l1 ←
        fill_while fuel
          (record m.locals { int_1_loc = 2; int_2_loc = 3; str_2_loc = str_2; enum_loc = ident_2 })
    s3 ← proc_8 l1.int_1_loc l1.int_3_loc s2
    s4 ← proc_1 s3.ptr_glob s3
    m5 ← letters fuel 65 run_index (record { globals = s4; locals = l1 })
    let int_2 = u32 (m5.locals.int_2_loc * m5.locals.int_1_loc)
    int_1 ← quotient int_2 m5.locals.int_3_loc
    let int_2' = minus (u32 (7 * minus int_2 m5.locals.int_3_loc)) int_1
    int_1' ← proc_2 fuel int_1 m5.globals
    some (record m5 { locals = record m5.locals { int_1_loc = int_1'; int_2_loc = int_2' } })

  -- `for (Run_Index = 1; Run_Index <= Number_Of_Runs; ++Run_Index)` from an index on; `rounds` bounds
  -- its tests, and `++Run_Index` is undefined at the largest `int`.
  unfoldable pub runs : (fuel rounds run_index number_of_runs : ℕ) → Main → Option Main
  runs fuel zero run_index number_of_runs m = none
  runs fuel (suc rounds) run_index number_of_runs m =
      let next = (do
        m' ← one_run fuel run_index m
        let rest = runs fuel rounds (run_index + 1) number_of_runs m'
        if run_index == 2 ^ 31 - 1 then none else rest) in
      if signed_lt number_of_runs run_index then some m else next

  -- `malloc` gives two cells of any content, and the globals and locals have any content of their
  -- sizes; the first cell is that of `Next_Ptr_Glob`.
  unfoldable pub initialise : (next_cell glob_cell : RecType) → Main → Option Main
  initialise next_cell glob_cell m = do
    let s1 = record m.globals {
      heap = next_cell ∷ glob_cell ∷ [];
      next_ptr_glob = some 0;
      ptr_glob = some 1;
    }
    s2 ← set_field s1.ptr_glob (λ r. record r { ptr_comp = s1.next_ptr_glob }) s1
    s3 ← set_field s2.ptr_glob (λ r. record r { discr = ident_1 }) s2
    s4 ← set_field s3.ptr_glob (λ r. record r { enum_comp = ident_3 }) s3
    s5 ← set_field s4.ptr_glob (λ r. record r { int_comp = 40 }) s4
    glob ← deref s5.ptr_glob s5
    str_comp ← strcpy glob.str_comp (codes "DHRYSTONE PROGRAM, SOME STRING" ++ (0 ∷ []))
    s6 ← set_field s5.ptr_glob (λ r. record r { str_comp = str_comp }) s5
    str_1 ← strcpy m.locals.str_1_loc (codes "DHRYSTONE PROGRAM, 1'ST STRING" ++ (0 ∷ []))
    arr_2 ← store_cell 8 7 10 s6.arr_2_glob
    some (record {
      globals = record s6 { arr_2_glob = arr_2 };
      locals = record m.locals { str_1_loc = str_1 };
    })

  -- `main` for a number of runs, which the code sets to 2.
  unfoldable pub main :
      (fuel rounds number_of_runs : ℕ) → (next_cell glob_cell : RecType) → Main → Option Main
  main fuel rounds number_of_runs next_cell glob_cell m = do
    started ← initialise next_cell glob_cell m
    runs fuel rounds 1 number_of_runs started
