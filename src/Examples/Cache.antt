-- ===== src/Examples/Cache.antt =====
-- calc_func on a prepared block, with a matrix of one element.
use rsicv_uvm_test.Base.{
  ℕ, zero, suc, ◌≡◌, ◌<◌, ◌^◌, refl, arith, some, none, List, [], ◌∷◌, ◌++◌, codes, replicate,
  get_or, Returns,
}
use rsicv_uvm_test.CoreMark.State.Init.{core_init_state, write, copy_bytes, emit, advance, choose}
use rsicv_uvm_test.CoreMark.List.Bench.{CoreResults, calc_func}
use rsicv_uvm_test.CoreMark.List.Bench.Cache.{IsReady, IsCached, calc_func-IsCached}

abbrev unfilled : List ℕ
unfilled = replicate 16 1

abbrev block : List ℕ
block = codes "5012,5012" ++ (44 ∷ (replicate 4 0 ++ (1 ∷ (1 ∷ []))))

abbrev results : CoreResults
results = record {
  seed1 = 0;
  seed2 = 0;
  seed3 = 0x66;
  state_block = block;
  size = 14;
  iterations = 2;
  execs = 7;
  list = none;
  cells = [];
  datas = [];
  mat = record { n = 1; a_at = 0; b_at = 4; c_at = 8; a = 2 ∷ []; b = 3 ∷ [] };
  mat_c = 0 ∷ [];
  crc = 0;
  crclist = 0;
  crcmatrix = 0;
  crcstate = 0;
  err = 0;
}

block_filled : core_init_state 14 0xffff unfilled ≡ some block
unfolding core_init_state write copy_bytes emit advance choose
block_filled = refl

two_small : (p : ℕ) → get_or (2 ∷ []) p 0 < 2 ^ 16
two_small zero = omega arith
two_small (suc p) = omega arith

results-IsReady : IsReady results
results-IsReady = record {
  seed = 0xffff;
  unfilled = unfilled;
  some_size = omega arith;
  fits = omega arith;
  small_block = omega arith;
  prepared = block_filled;
  few = omega arith;
  a_fits = omega arith;
  b_fits = omega arith;
  c_fits = omega arith;
  small = two_small;
}

calc_func-IsCached_example : Returns (IsCached 0x0519) (calc_func 0x0519 results)
calc_func-IsCached_example = calc_func-IsCached 0x0519 results (omega arith) results-IsReady
