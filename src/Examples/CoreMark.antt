-- ===== src/Examples/CoreMark.antt =====
-- The CoreMark models on concrete data.
use rsicv_uvm_test.Base.{
  ℕ, ◌<◌, ◌≡◌, ◌≢◌, ◌↔◌, inr, refl, arith, bit_xor, some, List, [], ◌∷◌, ◌++◌, length, true, codes,
  replicate,
}
use rsicv_uvm_test.CoreMark.Crc.{crcu8, crcu16, crc16, crcu32}
use rsicv_uvm_test.CoreMark.Crc.Register.{shifts}
use rsicv_uvm_test.CoreMark.Crc.Laws.{crc-shifts}
use rsicv_uvm_test.CoreMark.Crc.Detect.{crc16_all, crc16_all_detects}
use rsicv_uvm_test.CoreMark.State.{
  CoreState, core_invalid, on_symbol, bump, Scanned, core_state_transition,
}
use rsicv_uvm_test.CoreMark.State.Bench.{
  Tally, zero_counts, run_machine, corrupt_byte, corrupt, Benched, core_bench_state,
}
use rsicv_uvm_test.CoreMark.State.Init.{write, copy_bytes, emit, advance, choose, core_init_state}
use rsicv_uvm_test.CoreMark.State.Init.Result.{IsLaidOut, core_init_state-IsLaidOut}
use rsicv_uvm_test.CoreMark.State.Progress.{run_machine_total}
use rsicv_uvm_test.CoreMark.State.Corrupt.{
  touched, BecomesComma, byte_at, IsMasked, corrupt-IsMasked, corrupt_undo_iff,
}
use rsicv_uvm_test.CoreMark.State.Total.{core_bench_state_total}
use rsicv_uvm_test.CoreMark.State.Grammar.{IsToken}
use rsicv_uvm_test.CoreMark.State.Grammar.Recognise.{behind, transition_recognises}

crc-shifts_example :
    (crcu8 0x41 0x1d0f ≡ shifts 8 (bit_xor 0x1d0f 0x41))
    × ((crcu16 0x1234 0x1d0f ≡ shifts 16 (bit_xor 0x1d0f 0x1234))
        × (crcu32 0x1234_5678 0x1d0f ≡ shifts 32 (bit_xor 0x1d0f 0x1234_5678)))
crc-shifts_example =
    crc-shifts 0x41 0x1234 0x1234_5678 0x1d0f (omega arith) (omega arith) (omega arith)
      (omega arith)

-- The seed checksums that core_main.c knows.
seedcrc_6k_performance : crc16_all (0 ∷ 0 ∷ 0x66 ∷ 2000 ∷ []) 0 ≡ 0x8a02
unfolding crc16_all crc16 crcu16 crcu8
seedcrc_6k_performance = refl

seedcrc_2k_validation : crc16_all (0x3415 ∷ 0x3415 ∷ 0x66 ∷ 666 ∷ []) 0 ≡ 0x18f2
unfolding crc16_all crc16 crcu16 crcu8
seedcrc_2k_validation = refl

crc16_all_detects_example : crc16_all (7 ∷ 1 ∷ 9 ∷ []) 0 ≢ crc16_all (7 ∷ 2 ∷ 9 ∷ []) 0
crc16_all_detects_example =
    crc16_all_detects (7 ∷ []) (9 ∷ []) 1 2 0 (omega arith) (omega arith) (omega arith)
      (omega arith) (omega arith)

abbrev number : List ℕ
number = codes "-1.5e+3"

transition_recognises_example :
    (r : Scanned) × (core_state_transition (number ++ b',' ∷ codes "12") (replicate 8 0) ≡ some r)
    × ((s : CoreState) → s ≢ core_invalid → (r.state ≡ s) ↔ IsToken s number)
    × (r.state ≢ core_invalid → r.rest ≡ behind b',' (codes "12"))
transition_recognises_example =
    transition_recognises number b',' (codes "12") (replicate 8 0) (omega arith) (inr refl)

-- A pattern of the scientific table that the recogniser refuses: it has no point.
sci_pattern_invalid :
    core_state_transition (codes "-87e+832" ++ b',' ∷ []) (replicate 8 0)
    ≡ some (record {
      state = core_invalid;
      counts = 1 ∷ 0 ∷ 1 ∷ 0 ∷ 1 ∷ 0 ∷ 0 ∷ 0 ∷ [];
      rest = codes "+832,";
    })
unfolding core_state_transition on_symbol bump
sci_pattern_invalid = refl

abbrev small_block : List ℕ
small_block = codes "12,-.5e+7" ++ 0 ∷ 0 ∷ []

run_machine_total_example : (t : Tally) × (run_machine 12 small_block zero_counts ≡ some t)
run_machine_total_example =
    run_machine_total 12 small_block zero_counts (ground arith) (omega arith)

corrupt-IsMasked_example : IsMasked 11 0x1d 3 0 small_block (corrupt 11 0x1d 3 small_block)
corrupt-IsMasked_example = corrupt-IsMasked 11 0x1d 3 small_block (omega arith) (omega arith)

small_block_bytes : (j : ℕ) → byte_at small_block j < 256
small_block_bytes j = grind arith

corrupt_undo_iff_example :
    (mid : List ℕ) × (corrupt 11 0x1d 3 small_block ≡ some mid)
    × ((corrupt 11 0x1d 3 mid ≡ some small_block)
        ↔ ((j : ℕ) → j < 11 → touched 3 0 j ≡ true → ¬ BecomesComma 0x1d (byte_at small_block j)))
corrupt_undo_iff_example =
    corrupt_undo_iff 11 0x1d 3 small_block (omega arith) (omega arith) small_block_bytes

-- With the seed 0x1d the first byte, a 1, becomes a comma and stays one.
undo_fails : corrupt 1 0x1d 1 (b'1' ∷ []) ≡ some (b',' ∷ [])
unfolding corrupt corrupt_byte
undo_fails = refl

abbrev blank : List ℕ
blank = replicate 16 1

core_init_state-IsLaidOut_example : IsLaidOut 14 3 blank (core_init_state 14 3 blank)
core_init_state-IsLaidOut_example =
    core_init_state-IsLaidOut 14 3 blank (omega arith) (omega arith) (omega arith)

blank_filled :
    core_init_state 14 0xffff blank ≡ some (codes "5012,5012" ++ b',' ∷ replicate 4 0 ++ 1 ∷ 1 ∷ [])
unfolding core_init_state write copy_bytes emit advance choose
blank_filled = refl

core_bench_state_total_example :
    (r : Benched) × (core_bench_state 14
        (codes "5012,5012" ++ b',' ∷ replicate 4 0 ++ 1 ∷ 1 ∷ [])
        0x15
        0x15
        5
        0
      ≡ some r)
    × (length r.memblock ≡ 16)
core_bench_state_total_example =
    core_bench_state_total 14 0xffff 0x15 0x15 5 0 blank
      (codes "5012,5012" ++ b',' ∷ replicate 4 0 ++ 1 ∷ 1 ∷ []) (omega arith) (omega arith)
      (omega arith) (omega arith) blank_filled
