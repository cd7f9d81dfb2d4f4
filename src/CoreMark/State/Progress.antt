-- ===== src/CoreMark/State/Progress.antt =====
-- The recogniser stays inside a block that holds a 0 and always moves on, so the tokenising loop
-- of `core_bench_state` ends.
use rsicv_uvm_test.Base.{
  ℕ, zero, suc, ◌≤◌, ◌<◌, ◌≡◌, refl, arith, ◌⊎◌, inl, inr, ◌==◌, Bool-cases, false, Option, some,
  List, [], ◌∷◌, length,
}
use rsicv_uvm_test.CoreMark.State.{
  CoreState, Scanned, is_invalid, on_symbol, scan, core_state_transition,
}
use rsicv_uvm_test.CoreMark.State.Bench.{Tally, count_token, run_machine}

-- The bytes from here on hold a 0 inside the block.
abbrev pub HasEnd : List ℕ → Type 0
HasEnd [] = ⊥
HasEnd (c ∷ str) = (c ≡ 0) ⊎ HasEnd str

-- The call returned, before the end of the block, with at most `n` bytes left.
pub record Returns (o : Option Scanned) (n : ℕ) : Type 0 where
  pub result : Scanned
  pub returned : o ≡ some result
  pub ends : HasEnd result.rest
  pub shorter : length result.rest ≤ n

HasEnd-tail : (c : ℕ) (str : List ℕ) → (c == 0) ≡ false → HasEnd (c ∷ str) → HasEnd str
HasEnd-tail c str more (inl e) = absurd (ground arith)
HasEnd-tail c str more (inr h) = h

Returns-le : (o : Option Scanned) (m n : ℕ) → m ≤ n → Returns o m → Returns o n
Returns-le o m n le r = record {
  result = r.result;
  returned = r.returned;
  ends = r.ends;
  shorter = omega (arith, r.shorter);
}

-- A scan from any state returns inside the block.
scan-Returns : (s : CoreState) (n str : List ℕ) → HasEnd str → Returns (scan s n str) (length str)
unfolding scan
scan-Returns s n [] h = absurd h
scan-Returns s n (c ∷ str) h = elim (Bool-cases (c == 0)) [
  | inl stop ↦ rw stop (record { result = _; returned = refl; ends = h; shorter = omega arith })
  | inr more ↦ rw more (elim (Bool-cases (is_invalid s)) [
    | inl bad ↦ rw bad (record { result = _; returned = refl; ends = h; shorter = omega arith })
    | inr good ↦ rw good (elim (Bool-cases (c == b',')) [
      | inl comma ↦ rw comma (record {
        result = _;
        returned = refl;
        ends = HasEnd-tail c str more h;
        shorter = omega arith;
      })
      | inr symbol ↦ rw symbol (
          Returns-le _ (length str) (suc (length str)) (omega arith) (
            scan-Returns (on_symbol s c n).state (on_symbol s c n).counts str
              (HasEnd-tail c str more h)))
    ])
  ])
]

-- `core_state_transition` on a symbol that is not the 0 moves on by one byte at least, and stops
-- inside the block.
pub transition-Returns :
    (c : ℕ) (str n : List ℕ)
    → (c == 0) ≡ false
    → HasEnd (c ∷ str)
    → Returns (core_state_transition (c ∷ str) n) (length str)
unfolding core_state_transition
transition-Returns c str n more h = rw more (elim (Bool-cases (c == b',')) [
  | inl comma ↦ rw comma (record {
    result = _;
    returned = refl;
    ends = HasEnd-tail c str more h;
    shorter = omega arith;
  })
  | inr symbol ↦ rw symbol (scan-Returns _ _ str (HasEnd-tail c str more h))
])

-- The tokenising loop never leaves a block that holds a 0, and ends within one test for each byte
-- and one more.
pub run_machine_total :
    (fuel : ℕ) (p : List ℕ) (t : Tally)
    → HasEnd p
    → length p < fuel
    → (t' : Tally) × (run_machine fuel p t ≡ some t')
unfolding run_machine
run_machine_total zero p t h lt = absurd (omega arith)
run_machine_total (suc fuel) [] t h lt = absurd h
run_machine_total (suc fuel) (c ∷ p) t h lt = elim (Bool-cases (c == 0)) [
  | inl stop ↦ (t, rw (run_machine, stop))
  | inr more ↦
      let r = transition-Returns c p t.track_counts more h in
      rw (run_machine, more, r.returned)
        (run_machine_total fuel r.result.rest (count_token t r.result) r.ends
          (omega (arith, r.shorter)))
]
