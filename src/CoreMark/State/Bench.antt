-- ===== src/CoreMark/State/Bench.antt =====
-- `core_bench_state` of core_state.c: tokenise the block, corrupt it, tokenise it again, undo the
-- corruption, and fold the counters into the checksum.
-- The block is a list of bytes; `none` is a read or write outside it, or a loop out of fuel.
use rsicv_uvm_test.Base.{
  ℕ, zero, suc, ◌+◌, u8, ltb, ◌==◌, if◌then◌else◌, bit_xor, true, false, Option, none, some, List,
  [], ◌∷◌, get_elem?, get_or, set, replicate, length,
}
use rsicv_uvm_test.CoreMark.Crc.{crcu32}
use rsicv_uvm_test.CoreMark.State.{num_core_states, bump, Scanned, core_state_transition}

pub record Tally : Type 0 where
  pub final_counts : List ℕ
  pub track_counts : List ℕ

abbrev pub zero_counts : Tally
zero_counts = record {
  final_counts = replicate num_core_states 0;
  track_counts = replicate num_core_states 0;
}

-- What one round of `while (*p!=0)` makes of the tally.
abbrev pub count_token : Tally → Scanned → Tally
count_token t r = record { final_counts = bump r.state t.final_counts; track_counts = r.counts }

-- `while (*p!=0)`, with at most `fuel` tests.
unfoldable pub run_machine : (fuel : ℕ) → (p : List ℕ) → Tally → Option Tally
run_machine zero p t = none
run_machine (suc fuel) [] t = none
run_machine (suc fuel) (c ∷ p) t = elim (c == 0) [
  | true ↦ some t
  | false ↦ elim (core_state_transition (c ∷ p) t.track_counts) [
    | none ↦ none
    | some r ↦ run_machine fuel r.rest (count_token t r)
  ]
]

-- `if (*p!=',') *p^=(ee_u8)seed;` on a byte.
unfoldable pub corrupt_byte : (seed c : ℕ) → ℕ
corrupt_byte seed c = if c == b',' then c else u8 (bit_xor c (u8 seed))

-- `while (p < memblock+blksize) { ...; p+=step; }` from the index `p`.
unfoldable pub corrupt_from : (fuel blksize seed step p : ℕ) → List ℕ → Option (List ℕ)
corrupt_from zero blksize seed step p mem = none
corrupt_from (suc fuel) blksize seed step p mem = elim (ltb p blksize) [
  | false ↦ some mem
  | true ↦ elim (get_elem? mem p) [
    | none ↦ none
    | some c ↦ corrupt_from fuel blksize seed step (p + step) (set mem p (corrupt_byte seed c))
  ]
]

-- Both corruption loops start at the block; a step of at least 1 ends within `blksize + 1` tests.
unfoldable pub corrupt : (blksize seed step : ℕ) → List ℕ → Option (List ℕ)
unfolding corrupt_from
corrupt blksize seed step mem = corrupt_from (suc blksize) blksize seed step 0 mem

-- `for (i=0; i<NUM_CORE_STATES; i++)` over both arrays, from the index `i` with `left` to go.
unfoldable pub crc_counts : (left i : ℕ) → Tally → (crc : ℕ) → ℕ
crc_counts zero i t crc = crc
crc_counts (suc left) i t crc =
    crc_counts left (i + 1) t
      (crcu32 (get_or t.track_counts i 0) (crcu32 (get_or t.final_counts i 0) crc))

pub record Benched : Type 0 where
  pub crc : ℕ
  pub memblock : List ℕ

infixl 5 ◌>>=◌
abbrev ◌>>=◌ : {A B : Type 0} → Option A → (A → Option B) → Option B
none >>= f = none
some a >>= f = f a

unfoldable pub core_bench_state :
    (blksize : ℕ) → List ℕ → (seed1 seed2 step crc : ℕ) → Option Benched
unfolding run_machine corrupt crc_counts
core_bench_state blksize memblock seed1 seed2 step crc = do
  t1 ← run_machine (suc (length memblock)) memblock zero_counts
  corrupted ← corrupt blksize seed1 step memblock
  t2 ← run_machine (suc (length corrupted)) corrupted t1
  restored ← corrupt blksize seed2 step corrupted
  some (record { crc = crc_counts num_core_states 0 t2 crc; memblock = restored })
