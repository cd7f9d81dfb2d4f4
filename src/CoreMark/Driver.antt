-- ===== src/CoreMark/Driver.antt =====
-- The driver of CoreMark: core_main.c, with the seeds of core_util.c. One context; the block of the
-- benchmark is given as the arrays that its parts are used as. A 16-bit value with a sign is its bit
-- pattern. Timing and output are left out.
pub mod Seeds
pub mod Known
pub mod Validation
pub mod Places
use rsicv_uvm_test.Base.{
  ℕ, zero, suc, ◌+◌, ◌-◌, ◌*◌, ◌/◌, ◌^◌, ltb, ◌==◌, if◌then◌else◌, Bool, true, false, not, ◌&&◌,
  Option, none, some, List, [], ◌∷◌, get_elem?, ◌>>=◌, for, u16, u32, bit_and, bit_or, ◌<<<◌,
}
use rsicv_uvm_test.CoreMark.Crc.{crcu16, crc16}
use rsicv_uvm_test.CoreMark.State.Init.{core_init_state}
use rsicv_uvm_test.CoreMark.Matrix.Init.{MatParams, core_init_matrix}
use rsicv_uvm_test.CoreMark.List.{Cell}
use rsicv_uvm_test.CoreMark.List.Items.{ListData, extend16}
use rsicv_uvm_test.CoreMark.List.Init.{core_list_init}
use rsicv_uvm_test.CoreMark.List.Bench.{CoreResults, core_bench_list}
use rsicv_uvm_test.CoreMark.Driver.Seeds.{SeedValues, get_seed_32, DataTypes, check_data_types}

abbrev pub total_data_size : ℕ
total_data_size = 2 * 1000

abbrev pub all_algorithms_mask : ℕ
all_algorithms_mask = 7

-- A round of the loop of `iterate`.
unfoldable pub iterate_round : (fuel unset i : ℕ) → CoreResults → Option CoreResults
iterate_round fuel unset i res = do
  up ← core_bench_list fuel unset 1 res
  let res1 = record up.results { crc = crcu16 up.retval up.results.crc }
  down ← core_bench_list fuel unset (2 ^ 16 - 1) res1
  let res2 = record down.results { crc = crcu16 down.retval down.results.crc }
  some (if i == 0 then record res2 { crclist = res2.crc } else res2)

unfoldable pub iterate : (fuel unset : ℕ) → CoreResults → Option CoreResults
unfolding for
iterate fuel unset res =
    for res.iterations 0 (iterate_round fuel unset)
      (record res { crc = 0; crclist = 0; crcmatrix = 0; crcstate = 0 })

-- The three seeds of a run.
pub record RunSeeds : Type 0 where
  pub seed1 : ℕ
  pub seed2 : ℕ
  pub seed3 : ℕ

abbrev pub are : RunSeeds → (a b c : ℕ) → Bool
are s a b c = (s.seed1 == a) && (s.seed2 == b) && (s.seed3 == c)

-- The default values for one seed only.
abbrev pub with_defaults : RunSeeds → RunSeeds
with_defaults s =
    let s1 = if are s 0 0 0 then record { seed1 = 0; seed2 = 0; seed3 = 0x66 } else s in
    if are s1 1 0 0 then record { seed1 = 0x3415; seed2 = 0x3415; seed3 = 0x66 } else s1

abbrev pub run_seeds : SeedValues → RunSeeds
run_seeds v = with_defaults (record {
  seed1 = u16 (get_seed_32 v 1);
  seed2 = u16 (get_seed_32 v 2);
  seed3 = u16 (get_seed_32 v 3);
})

abbrev pub chosen_algorithms : SeedValues → ℕ
chosen_algorithms v =
    let execs = get_seed_32 v 5 in if execs == 0 then all_algorithms_mask else execs

-- `(1<<i) & execs`.
abbrev pub has_algorithm : (execs i : ℕ) → Bool
has_algorithm execs i = not (bit_and (1 <<< i) execs == 0)

abbrev pub one_if : Bool → ℕ
one_if true = 1
one_if false = 0

abbrev pub num_algorithms : (execs : ℕ) → ℕ
num_algorithms execs =
    one_if (has_algorithm execs 0) + one_if (has_algorithm execs 1) + one_if (has_algorithm execs 2)

-- The size of a part of the block; without an algorithm the code divides by 0.
abbrev pub part_size : (execs : ℕ) → Option ℕ
part_size execs =
    if num_algorithms execs == 0 then none else some (total_data_size / num_algorithms execs)

-- `memblock[1]` to `memblock[3]`, from the start of the block; the pointer of an algorithm that is not
-- chosen stays unset.
pub record Parts : Type 0 where
  pub list_at : Option ℕ
  pub matrix_at : Option ℕ
  pub state_at : Option ℕ

abbrev pub part_at : Bool → (size j : ℕ) → Option ℕ
part_at true size j = some (size * j)
part_at false size j = none

abbrev pub parts_of : (list matrix state : Bool) → (size : ℕ) → Parts
parts_of list matrix state size = record {
  list_at = part_at list size 0;
  matrix_at = part_at matrix size (one_if list);
  state_at = part_at state size (one_if list + one_if matrix);
}

abbrev pub parts : (execs size : ℕ) → Parts
parts execs size =
    parts_of (has_algorithm execs 0) (has_algorithm execs 1) (has_algorithm execs 2) size

-- The calls of the inits on the results so far; `memblock` is the address of the block.
unfoldable pub init_list : (fuel : ℕ) → CoreResults → Option CoreResults
init_list fuel res = do
  prepared ← core_list_init fuel res.size res.seed1 res.cells res.datas
  some (record res { list = prepared.list; cells = prepared.cells; datas = prepared.datas })

unfoldable pub init_matrix : (memblk : ℕ) → CoreResults → Option CoreResults
init_matrix memblk res = do
  mat ←
      core_init_matrix res.size memblk (bit_or (extend16 res.seed1) (u32 (res.seed2 <<< 16)))
        res.mat.a res.mat.b
  some (record res { mat = mat })

unfoldable pub init_state : CoreResults → Option CoreResults
init_state res = do
  block ← core_init_state res.size res.seed1 res.state_block
  some (record res { state_block = block })

unfoldable pub call_inits : (fuel memblock : ℕ) → CoreResults → Option CoreResults
call_inits fuel memblock res = do
  let listed = init_list fuel res
  res1 ← if has_algorithm res.execs 0 then listed else some res
  let filled = (do
    offset ← (parts res.execs res.size).matrix_at
    init_matrix (u32 (memblock + offset)) res1)
  res2 ← if has_algorithm res.execs 1 then filled else some res1
  let stated = init_state res2
  if has_algorithm res.execs 2 then stated else some res2

abbrev pub list_known_crc : List ℕ
list_known_crc = 0xd4b0 ∷ 0x3340 ∷ 0x6a79 ∷ 0xe714 ∷ 0xe3c1 ∷ []

abbrev pub matrix_known_crc : List ℕ
matrix_known_crc = 0xbe52 ∷ 0x1199 ∷ 0x5608 ∷ 0x1fd7 ∷ 0x0747 ∷ []

abbrev pub state_known_crc : List ℕ
state_known_crc = 0x5e47 ∷ 0x39bf ∷ 0xe5a4 ∷ 0x8e3a ∷ 0x8d84 ∷ []

unfoldable pub seed_crc : CoreResults → ℕ
seed_crc res = crc16 (u16 res.size) (crc16 res.seed3 (crc16 res.seed2 (crc16 res.seed1 0)))

-- `known_id`, where a negative one stands for the default case.
unfoldable pub known_id : (seedcrc : ℕ) → Option ℕ
known_id seedcrc =
    if seedcrc == 0x8a02
    then some 0
    else if seedcrc == 0x7b05
    then some 1
    else if seedcrc == 0x4eaf
    then some 2
    else if seedcrc == 0xe9f5
    then some 3
    else if seedcrc == 0x18f2
    then some 4
    else none

-- Whether an algorithm was run and its checksum is not the known one.
abbrev pub is_wrong : (execs i crc known : ℕ) → Bool
is_wrong execs i crc known = has_algorithm execs i && not (crc == known)

-- `results[0].err` for a known id.
abbrev pub count_errors : (id : ℕ) → CoreResults → Option ℕ
count_errors id res = do
  list_crc ← get_elem? list_known_crc id
  matrix_crc ← get_elem? matrix_known_crc id
  state_crc ← get_elem? state_known_crc id
  some (
      one_if (is_wrong res.execs 0 res.crclist list_crc)
      + one_if (is_wrong res.execs 1 res.crcmatrix matrix_crc)
      + one_if (is_wrong res.execs 2 res.crcstate state_crc))

-- `results[0]` and `total_errors` behind the tests.
pub record Judged : Type 0 where
  pub results : CoreResults
  pub total_errors : ℕ

-- For what `check_data_types` returned.
unfoldable pub judge : (wrong_types : ℕ) → CoreResults → Option Judged
judge wrong_types res = elim (known_id (seed_crc res)) [
  | none ↦ some (record { results = res; total_errors = u16 (0xffff + wrong_types) })
  | some id ↦ (do
    errors ← count_errors id res
    some (record {
      results = record res { err = errors };
      total_errors = u16 (errors + wrong_types);
    }))
]

-- The message that `main` prints last.
pub data Verdict : Type 0 where
  validated errors_detected cannot_validate : Verdict

abbrev pub verdict : (total : ℕ) → Verdict
verdict total =
    if total == 0
    then validated
    else if ltb total (2 ^ 15)
    then errors_detected
    else cannot_validate

-- What `main` leaves.
pub record Finished : Type 0 where
  pub results : CoreResults
  pub verdict : Verdict

-- `main` on the arrays that `res` has at the entry, with the number of iterations that it sets.
unfoldable pub core_main :
    (fuel unset memblock : ℕ) → DataTypes → SeedValues → CoreResults → Option Finished
core_main fuel unset memblock types v res = do
  let seeds = run_seeds v
  let execs = chosen_algorithms v
  size ← part_size execs
  started ← call_inits fuel memblock (record res {
    seed1 = seeds.seed1;
    seed2 = seeds.seed2;
    seed3 = seeds.seed3;
    iterations = 2;
    execs = execs;
    size = size;
    err = 0;
  })
  run ← iterate fuel unset started
  judged ← judge (check_data_types types) run
  some (record { results = judged.results; verdict = verdict judged.total_errors })
