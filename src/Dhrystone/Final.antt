-- ===== src/Dhrystone/Final.antt =====
-- The values that the main program of dhrystone4sim/dhry_1.c prints at its end, against those that it
-- prints as expected.
use rsicv_uvm_test.Base.{
  ℕ, zero, suc, ◌+◌, ◌-◌, ◌^◌, ◌≤◌, ◌<◌, ◌≡◌, refl, arith, Bool, true, false, Option, some, List,
  [], ◌∷◌, ◌++◌, All, length, drop, get_or, get_elem?-eq-get_or, codes, u32, Returns, returns,
  Returns-value, ltb_of_le, ==_of_ne,
}
use rsicv_uvm_test.Benchmarks.{signed_lt}
use rsicv_uvm_test.Syscalls.Strings.Text.{IsText}
use rsicv_uvm_test.Dhrystone.{RecType, Globals, func_1}
use rsicv_uvm_test.Dhrystone.Program.{
  Main, Locals, func_2, compare_while, fill_while, letters, proc_2, subtract_while, one_run, runs,
  initialise, main,
}
use rsicv_uvm_test.Dhrystone.Output.{final_values}
use rsicv_uvm_test.Dhrystone.Arrays.{
  cell, IsGrid, put, put-IsGrid, store_cell_lem, cell-put, filled_1, filled_2, length-filled_1,
  filled_2-IsGrid, filled_1_lem, filled_2_lem, proc_8_lem,
}
use rsicv_uvm_test.Dhrystone.Records.{glob_record, next_record, proc_1_lem}

-- strcpy copies a text and its 0 into an object with room for both, and keeps what stands behind.
abbrev pub IsStrcpy : ((dest src : List ℕ) → Option (List ℕ)) → Type 0
IsStrcpy strcpy =
    (text behind dest : List ℕ)
    → IsText text
    → length text < length dest
    → strcpy dest (text ++ (0 ∷ behind)) ≡ some (text ++ (0 ∷ drop (suc (length text)) dest))

-- strcmp is negative where the first bytes that differ are in order.
abbrev pub IsStrcmp : ((s1 s2 : List ℕ) → Option ℕ) → Type 0
IsStrcmp strcmp =
    (text : List ℕ) (a b : ℕ) (behind_1 behind_2 : List ℕ)
    → IsText text
    → 0 < a
    → a < b
    → b < 2 ^ 8
    → Returns (λ c. (2 ^ 31 ≤ c) × (c < 2 ^ 32))
        (strcmp (text ++ (a ∷ behind_1)) (text ++ (b ∷ behind_2)))

abbrev without_0 : List ℕ → Bool
without_0 [] = true
without_0 (zero ∷ cs) = false
without_0 (suc c ∷ cs) = without_0 cs

without_0-IsText : (cs : List ℕ) → without_0 cs ≡ true → IsText cs
without_0-IsText [] h = tt
without_0-IsText (zero ∷ cs) h = absurd (ground arith)
without_0-IsText (suc c ∷ cs) h = (λ e. absurd (omega arith), without_0-IsText cs h)

drop_whole : (xs : List ℕ) → drop (length xs) xs ≡ []
drop_whole [] = refl
drop_whole (x ∷ xs) = drop_whole xs

signed_lt_negative : (c : ℕ) → 2 ^ 31 ≤ c → c < 2 ^ 32 → signed_lt 0 c ≡ false
signed_lt_negative c low high = ltb_of_le (u32 (0 + 2 ^ 31)) (u32 (c + 2 ^ 31)) (omega arith)

-- On numbers that are not negative as an `int`, the signed order is the order.
signed_lt-false : (a b : ℕ) → b ≤ a → a < 2 ^ 31 → signed_lt a b ≡ false
signed_lt-false a b h small = ltb_of_le (u32 (a + 2 ^ 31)) (u32 (b + 2 ^ 31)) (omega arith)

signed_lt-true : (a b : ℕ) → a < b → b < 2 ^ 31 → signed_lt a b ≡ true
signed_lt-true a b h small = ground (arith, h, small)

abbrev some_string : List ℕ
some_string = codes "DHRYSTONE PROGRAM, SOME STRING" ++ (0 ∷ [])

abbrev string_1st : List ℕ
string_1st = codes "DHRYSTONE PROGRAM, 1'ST STRING" ++ (0 ∷ [])

abbrev string_2nd : List ℕ
string_2nd = codes "DHRYSTONE PROGRAM, 2'ND STRING" ++ (0 ∷ [])

-- The state before a run, and behind one.
abbrev before_run : (next : RecType) → (int_comp : ℕ) → (str_2 : List ℕ) → Globals → Locals → Main
before_run next int_comp str_2 s l = record {
  globals = record s {
    heap = next ∷ glob_record int_comp some_string ∷ [];
    ptr_glob = some 1;
    next_ptr_glob = some 0;
  };
  locals = record l { str_1_loc = string_1st; str_2_loc = str_2 };
}

abbrev after_run : Globals → Main
after_run s = record {
  globals = record s {
    heap = next_record some_string ∷ glob_record 17 some_string ∷ [];
    ptr_glob = some 1;
    next_ptr_glob = some 0;
    int_glob = 5;
    bool_glob = 1;
    ch_1_glob = 65;
    ch_2_glob = 66;
    arr_1_glob = filled_1 8 7 s.arr_1_glob;
    arr_2_glob = filled_2 8 7 s.arr_2_glob;
  };
  locals = record {
    int_1_loc = 5;
    int_2_loc = 13;
    int_3_loc = 7;
    enum_loc = 1;
    str_1_loc = string_1st;
    str_2_loc = string_2nd;
  };
}

-- The state that `func_2` leaves.
abbrev behind_call : (next : RecType) → (int_comp : ℕ) → Globals → Globals
behind_call next int_comp s = record s {
  heap = next ∷ glob_record int_comp some_string ∷ [];
  ptr_glob = some 1;
  next_ptr_glob = some 0;
  bool_glob = 1;
  ch_1_glob = 65;
  ch_2_glob = 66;
}

-- Every line has the value that it should have.
abbrev pub PrintsExpected : (number_of_runs : ℕ) → Main → Type 0
PrintsExpected number_of_runs m =
    Returns (All (λ line. line.value ≡ line.should_be)) (final_values number_of_runs m)

counted_up :
    (done : ℕ) (s : Globals)
    → IsGrid s.arr_2_glob
    → cell s.arr_2_glob 8 7 ≡ u32 (done + 10)
    → cell (filled_2 8 7 s.arr_2_glob) 8 7 ≡ u32 (suc done + 10)
counted_up done s grid at =
    rw (filled_2_lem 8 7 s.arr_2_glob 8 7 (omega arith) (omega arith) grid) (omega arith)

after_run-PrintsExpected :
    (done : ℕ) (s : Globals)
    → length s.arr_1_glob ≡ 50
    → IsGrid s.arr_2_glob
    → cell s.arr_2_glob 8 7 ≡ u32 (done + 10)
    → PrintsExpected (suc done) (after_run s)
unfolding final_values
after_run-PrintsExpected done s size grid at =
    let a = filled_1 8 7 s.arr_1_glob in
    let b = filled_2 8 7 s.arr_2_glob in
    let grid' : IsGrid b = filled_2-IsGrid 8 7 s.arr_2_glob (omega arith) grid in
    rw
      (
        get_elem?-eq-get_or a 8 0 (omega (arith, length-filled_1 8 7 s.arr_1_glob)),
        filled_1_lem 8 7 s.arr_1_glob 8 (omega arith) size,
        get_elem?-eq-get_or b 8 [] (omega (arith, grid'.rows)),
        get_elem?-eq-get_or (get_or b 8 []) 7 0 (omega (arith, grid'.columns 8 (omega arith))),
        counted_up done s grid at,
      )
      (returns _ (ground arith))

module _ (strcpy : (dest src : List ℕ) → Option (List ℕ)) (strcmp : (s1 s2 : List ℕ) → Option ℕ)
    (copies : IsStrcpy strcpy) (compares : IsStrcmp strcmp) where
  strcpy-whole :
      (text dest : List ℕ)
      → without_0 text ≡ true
      → length dest ≡ suc (length text)
      → strcpy dest (text ++ (0 ∷ [])) ≡ some (text ++ (0 ∷ []))
  strcpy-whole text dest h k =
      rw (copies text [] dest (without_0-IsText text h) (omega arith), ← k, drop_whole dest) refl

  func_2_lem :
      (fuel : ℕ) (s : Globals)
      → func_2 strcpy strcmp (suc (suc fuel)) string_1st string_2nd s
        ≡ some (record { answer = false; globals = s })
  unfolding func_2 compare_while func_1
  func_2_lem fuel s =
      let (c, e, b) = Returns-value (
        compares (codes "DHRYSTONE PROGRAM, ") 49 50 (codes "'ST STRING" ++ (0 ∷ []))
          (codes "'ND STRING" ++ (0 ∷ [])) (without_0-IsText (codes "DHRYSTONE PROGRAM, ") refl)
          (omega arith) (omega arith) (omega arith)) in
      rw (e, signed_lt_negative c b.0 b.1) refl

  one_run_lem :
      (fuel run_index int_comp : ℕ) (next : RecType) (str_2 : List ℕ) (s : Globals) (l : Locals)
      → length s.arr_1_glob ≡ 50
      → IsGrid s.arr_2_glob
      → length str_2 ≡ 31
      → one_run strcpy strcmp (suc (suc (suc fuel))) run_index (before_run next int_comp str_2 s l)
        ≡ some (after_run s)
  unfolding one_run fill_while letters proc_2 subtract_while func_1
  one_run_lem fuel run_index int_comp next str_2 s l size grid room =
      rw
        (
          strcpy-whole (codes "DHRYSTONE PROGRAM, 2'ND STRING") str_2 refl room,
          func_2_lem (suc fuel),
          proc_8_lem 3 7 (behind_call next int_comp s) (omega arith) size grid,
          proc_1_lem next int_comp some_string (after_run s).globals,
        )
        refl

  runs_end :
      (fuel rounds run_index number_of_runs : ℕ) (m : Main)
      → 1 ≤ rounds
      → signed_lt number_of_runs run_index ≡ true
      → runs strcpy strcmp fuel rounds run_index number_of_runs m ≡ some m
  unfolding runs
  runs_end fuel zero run_index number_of_runs m h k = absurd (omega arith)
  runs_end fuel (suc rounds) run_index number_of_runs m h k = rw k refl

  -- The values that a run leaves are those the next one starts from.
  runs_lem :
      (fuel rounds left done total int_comp : ℕ) (next : RecType) (str_2 : List ℕ) (s : Globals)
      (l : Locals)
      → suc (done + left) ≡ total
      → total + 10 < 2 ^ 31
      → suc left < rounds
      → length s.arr_1_glob ≡ 50
      → IsGrid s.arr_2_glob
      → cell s.arr_2_glob 8 7 ≡ u32 (done + 10)
      → length str_2 ≡ 31
      → Returns (PrintsExpected total) (
          runs strcpy strcmp
            (suc (suc (suc fuel)))
            rounds
            (done + 1)
            total
            (before_run next int_comp str_2 s l))
  unfolding runs
  runs_lem fuel zero left done total int_comp next str_2 s l sum few enough size grid at room =
      absurd (omega arith)
  runs_lem fuel (suc rounds) zero done total int_comp next str_2 s l sum few enough size grid at
        room =
      let last : suc done ≡ total = omega arith in
      let goes_on = signed_lt-false total (done + 1) (omega arith) (omega arith) in
      let ends = signed_lt-true total (done + 1 + 1) (omega arith) (omega arith) in
      rw
        (
          goes_on,
          one_run_lem fuel (done + 1) int_comp next str_2 s l size grid room,
          ==_of_ne (done + 1) (2 ^ 31 - 1) (omega arith),
          runs_end (suc (suc (suc fuel))) rounds (done + 1 + 1) total (after_run s) (omega arith)
              ends,
          ← last,
        )
        (returns (after_run s) (after_run-PrintsExpected done s size grid at))
  runs_lem fuel (suc rounds) (suc left) done total int_comp next str_2 s l sum few enough size grid
        at room =
      let goes_on = signed_lt-false total (done + 1) (omega arith) (omega arith) in
      let index : suc done + 1 ≡ done + 1 + 1 = omega arith in
      let rest =
        runs_lem fuel rounds left (suc done) total 17 (next_record some_string) string_2nd
          (after_run s).globals (after_run s).locals (omega arith) few (omega arith)
          (omega (arith, length-filled_1 8 7 s.arr_1_glob))
          (filled_2-IsGrid 8 7 s.arr_2_glob (omega arith) grid) (counted_up done s grid at) refl in
      rw
        (
          goes_on,
          one_run_lem fuel (done + 1) int_comp next str_2 s l size grid room,
          ==_of_ne (done + 1) (2 ^ 31 - 1) (omega arith),
        )
        (rw index at rest)

  started_lem :
      (next_cell glob_cell : RecType) (m : Main)
      → length glob_cell.str_comp ≡ 31
      → length m.locals.str_1_loc ≡ 31
      → IsGrid m.globals.arr_2_glob
      → initialise strcpy strcmp next_cell glob_cell m
        ≡ some (
            before_run next_cell 40 m.locals.str_2_loc
              (record m.globals { arr_2_glob = put 8 7 10 m.globals.arr_2_glob })
              m.locals)
  unfolding initialise
  started_lem next_cell glob_cell m room room_1 grid =
      rw
        (
          strcpy-whole (codes "DHRYSTONE PROGRAM, SOME STRING") glob_cell.str_comp refl room,
          strcpy-whole (codes "DHRYSTONE PROGRAM, 1'ST STRING") m.locals.str_1_loc refl room_1,
          store_cell_lem 8 7 10 m.globals.arr_2_glob (omega arith) (omega arith) grid,
        )
        refl

  -- With a strcpy and a strcmp of the C library, cells of malloc and buffers of the declared sizes,
  -- and any contents of them and of the other variables, main returns for every number of runs from 1
  -- on that is at most the largest int less 10, with 3 units of fuel for each loop and one more round
  -- than runs. Every final value that it prints is then the one that it prints as the value that
  -- should be.
  pub main-PrintsExpected :
      (fuel rounds number_of_runs : ℕ) (next_cell glob_cell : RecType) (m : Main)
      → 3 ≤ fuel
      → 1 ≤ number_of_runs
      → number_of_runs + 10 < 2 ^ 31
      → number_of_runs < rounds
      → length glob_cell.str_comp ≡ 31
      → length m.locals.str_1_loc ≡ 31
      → length m.locals.str_2_loc ≡ 31
      → length m.globals.arr_1_glob ≡ 50
      → IsGrid m.globals.arr_2_glob
      → Returns
          (PrintsExpected number_of_runs)
          (main strcpy strcmp fuel rounds number_of_runs next_cell glob_cell m)
  unfolding main
  main-PrintsExpected (suc (suc (suc fuel))) rounds (suc left) next_cell glob_cell m three some_run
        few enough room room_1 room_2 size grid =
      rw (started_lem next_cell glob_cell m room room_1 grid) (
        runs_lem fuel rounds left 0 (suc left) 40 next_cell m.locals.str_2_loc
          (record m.globals { arr_2_glob = put 8 7 10 m.globals.arr_2_glob }) m.locals (omega arith)
          few enough size (put-IsGrid 8 7 10 m.globals.arr_2_glob (omega arith) grid)
          (cell-put 8 7 10 m.globals.arr_2_glob 8 7 (omega arith) (omega arith) grid) room_2)
  main-PrintsExpected (suc (suc (suc fuel))) rounds zero next_cell glob_cell m three some_run few
        enough room room_1 room_2 size grid =
      absurd (omega arith)
  main-PrintsExpected zero rounds n next_cell glob_cell m three some_run few enough room room_1
        room_2 size grid =
      absurd (omega arith)
  main-PrintsExpected (suc zero) rounds n next_cell glob_cell m three some_run few enough room
        room_1 room_2 size grid =
      absurd (omega arith)
  main-PrintsExpected (suc (suc zero)) rounds n next_cell glob_cell m three some_run few enough room
        room_1 room_2 size grid =
      absurd (omega arith)
