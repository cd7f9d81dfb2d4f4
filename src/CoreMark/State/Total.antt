-- ===== src/CoreMark/State/Total.antt =====
-- `core_bench_state` on a block that `core_init_state` prepared: the recogniser never leaves the
-- block, also not after the corruption of its terminating zeros.
use native.Mathlib.Nat.{suc-mod, mod-eq_of_lt}
use rsicv_uvm_test.Base.{
  ℕ, zero, suc, ◌+◌, ◌-◌, ◌^◌, ◌≤◌, ◌<◌, ◌≡◌, refl, sym, ◌∙◌, arith, inl, inr, Bool-cases, true,
  false, Option, some, eq_of_some-eq, List, [], ◌∷◌, ◌++◌, length, length-append, length-replicate,
  replicate, drop, length-drop, u16,
}
use rsicv_uvm_test.CoreMark.State.{num_core_states}
use rsicv_uvm_test.CoreMark.State.Bench.{
  Tally, zero_counts, run_machine, corrupt, crc_counts, Benched, core_bench_state,
}
use rsicv_uvm_test.CoreMark.State.Progress.{HasEnd, run_machine_total}
use rsicv_uvm_test.CoreMark.State.Corrupt.{byte_at, touched, IsMasked, corrupt-IsMasked}
use rsicv_uvm_test.CoreMark.State.Init.{core_init_state}
use rsicv_uvm_test.CoreMark.State.Init.Layout.{patterns}
use rsicv_uvm_test.CoreMark.State.Init.Result.{core_init_state-IsLaidOut}

HasEnd-byte : (j : ℕ) (mem : List ℕ) → j < length mem → byte_at mem j ≡ 0 → HasEnd mem
HasEnd-byte j [] lt e = absurd (omega arith)
HasEnd-byte zero (c ∷ mem) lt e = inl e
HasEnd-byte (suc j) (c ∷ mem) lt e = inr (HasEnd-byte j mem (omega arith) e)

byte_at-zeros :
    (text : List ℕ) (k j : ℕ) (rest : List ℕ)
    → length text ≤ j
    → j < length text + k
    → byte_at (text ++ (replicate k 0 ++ rest)) j ≡ 0
byte_at-zeros [] zero j rest le lt = absurd (omega arith)
byte_at-zeros [] (suc k) zero rest le lt = refl
byte_at-zeros [] (suc k) (suc j) rest le lt = byte_at-zeros [] k j rest (omega arith) (omega arith)
byte_at-zeros (x ∷ text) k zero rest le lt = absurd (omega arith)
byte_at-zeros (x ∷ text) k (suc j) rest le lt =
    byte_at-zeros text k j rest (omega arith) (omega arith)

-- Two neighbours are not both reached by steps of two or more.
touched-neighbours :
    (step j : ℕ) → 2 ≤ step → touched step 0 j ≡ true → touched step 0 (suc j) ≡ false
touched-neighbours step j two hit = ground (arith, suc-mod j step, mod-eq_of_lt {n = 1} {m = step})

-- A pass leaves one of two neighbouring zeros alone.
HasEnd-masked :
    (blksize seed step j : ℕ) (mem : List ℕ) (o : Option (List ℕ))
    → 2 ≤ step
    → suc j < length mem
    → byte_at mem j ≡ 0
    → byte_at mem (suc j) ≡ 0
    → (m : IsMasked blksize seed step 0 mem o) → HasEnd m.out
HasEnd-masked blksize seed step j mem o two lt e e' m = elim (Bool-cases (touched step 0 j)) [
  | inl hit ↦
      HasEnd-byte (suc j) m.out (rw m.same_length lt)
        (ground (arith, m.bytes (suc j), touched-neighbours step j two hit))
  | inr miss ↦ HasEnd-byte j m.out (rw m.same_length (omega arith)) (ground (arith, m.bytes j))
]

bench_result :
    (blksize seed1 seed2 step crc : ℕ) (mem mid out : List ℕ) (t1 t2 : Tally)
    → run_machine (suc (length mem)) mem zero_counts ≡ some t1
    → corrupt blksize seed1 step mem ≡ some mid
    → run_machine (suc (length mid)) mid t1 ≡ some t2
    → corrupt blksize seed2 step mid ≡ some out
    → core_bench_state blksize mem seed1 seed2 step crc
      ≡ some (record { crc = crc_counts num_core_states 0 t2 crc; memblock = out })
unfolding core_bench_state
bench_result blksize seed1 seed2 step crc mem mid out t1 t2 a b c d =
    rw (core_bench_state, a, b, c, d)

-- With two neighbouring zeros in the block and a step of at least two, the benchmark returns.
bench_total :
    (blksize j seed1 seed2 step crc : ℕ) (mem : List ℕ)
    → 2 ≤ step
    → suc j < length mem
    → blksize ≤ length mem
    → byte_at mem j ≡ 0
    → byte_at mem (suc j) ≡ 0
    → (r : Benched) × (core_bench_state blksize mem seed1 seed2 step crc ≡ some r)
      × (length r.memblock ≡ length mem)
bench_total blksize j seed1 seed2 step crc mem two lt fits e e' =
    let first =
      run_machine_total (suc (length mem)) mem zero_counts (HasEnd-byte j mem (omega arith) e)
        (omega arith) in
    let m = corrupt-IsMasked blksize seed1 step mem (omega arith) fits in
    let ends = HasEnd-masked blksize seed1 step j mem _ two lt e e' m in
    let second = run_machine_total (suc (length m.out)) m.out first.0 ends (omega arith) in
    let back = corrupt-IsMasked blksize seed2 step m.out (omega arith) (rw m.same_length fits) in
    let result : Benched = record {
      crc = crc_counts num_core_states 0 second.0 crc;
      memblock = back.out;
    } in
    (
      result,
      bench_result blksize seed1 seed2 step crc mem m.out back.out first.0 second.0 first.1
          m.returned second.1 back.returned,
      back.same_length ∙ m.same_length,
    )

-- On every block of at least two bytes that `core_init_state` prepared, for all seeds and for
-- every step of at least two, `core_bench_state` returns without leaving the block, and the
-- block keeps its length.
pub core_bench_state_total :
    (size seed seed1 seed2 step crc : ℕ) (p block : List ℕ)
    → 2 ≤ size
    → size ≤ length p
    → length p < 2 ^ 31
    → 2 ≤ step
    → core_init_state size seed p ≡ some block
    → (r : Benched) × (core_bench_state size block seed1 seed2 step crc ≡ some r)
      × (length r.memblock ≡ length block)
core_bench_state_total size seed seed1 seed2 step crc p block two fits small two' init =
    let l = core_init_state-IsLaidOut size seed p two fits small in
    let text = patterns l.n (u16 (seed + 1)) in
    let laid : block ≡ text ++ (replicate l.zeros 0 ++ drop size p) =
      eq_of_some-eq (sym init ∙ l.returned) in
    let long : length (text ++ (replicate l.zeros 0 ++ drop size p)) ≡ length p = omega (
      arith,
      l.exact,
      length-append text (replicate l.zeros 0 ++ drop size p),
      length-append (replicate l.zeros 0) (drop size p),
      length-replicate l.zeros (zero),
      length-drop size p,
    ) in
    rw laid (
      bench_total size (size - 2) seed1 seed2 step crc _ two' (omega (arith, long))
        (omega (arith, long))
        (byte_at-zeros text l.zeros (size - 2) (drop size p) (omega (arith, l.exact, l.terminated))
          (omega (arith, l.exact, l.terminated)))
        (byte_at-zeros text l.zeros (suc (size - 2)) (drop size p)
          (omega (arith, l.exact, l.terminated)) (omega (arith, l.exact, l.terminated))))
