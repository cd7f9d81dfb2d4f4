-- ===== src/Vvadd.antt =====
-- The vector additions of several harts: riscv-tests/mt/vvadd0.c to vvadd4.c. A hart runs through a
-- list of indices, its share, and for each of them it stores `z[i] = x[i] + y[i]`. The elements and
-- their addition are parameters, since data_t is defined by the build. Sums of `size_t` are below the
-- word's limit.
pub mod Harts
pub mod Shares
use rsicv_uvm_test.Base.{
  ℕ, zero, suc, ◌+◌, ◌-◌, ◌*◌, ◌/◌, ◌%◌, ltb, ◌==◌, if◌then◌else◌, Option, none, some, List, [],
  ◌∷◌, ◌++◌, ◌>>=◌,
}

-- `for (i = from; i < n; i += step)`, and the indices of a body for each `i`.
unfoldable pub strided : (body : ℕ → List ℕ) → (fuel i n step : ℕ) → Option (List ℕ)
strided body zero i n step = none
strided body (suc fuel) i n step =
    let rest = strided body fuel (i + step) n step in
    if ltb i n then (do is ← rest; some (body i ++ is)) else some []

abbrev pub once : ℕ → List ℕ
once i = i ∷ []

abbrev pub upwards : (left i : ℕ) → List ℕ
upwards zero i = []
upwards (suc left) i = i ∷ upwards left (i + 1)

-- vvadd0: a stretch for each hart, and what is left over in turn. Without a whole element for each
-- hart the code divides by 0.
unfoldable pub vvadd_0 : (fuel n ncores coreid : ℕ) → Option (List ℕ)
vvadd_0 fuel n ncores coreid =
    let share = n / ncores in
    let leftover = n % share in
    let rest = strided once fuel (n - leftover + coreid) n ncores in
    if share == 0 then none else (do is ← rest; some (upwards share (coreid * share) ++ is))

abbrev pub eight : (ncores i : ℕ) → List ℕ
eight ncores i = upwards 4 i ++ upwards 4 (i + ncores * 4)

unfoldable pub vvadd_1 : (fuel n ncores coreid : ℕ) → Option (List ℕ)
vvadd_1 fuel n ncores coreid = strided (eight ncores) fuel (coreid * 4) n (8 * ncores)

abbrev pub pair : (ncores i : ℕ) → List ℕ
pair ncores i = i ∷ ((i + ncores) ∷ [])

unfoldable pub vvadd_2 : (fuel n ncores coreid : ℕ) → Option (List ℕ)
vvadd_2 fuel n ncores coreid = strided (pair ncores) fuel coreid n (2 * ncores)

-- vvadd3: the switch enters the loop so that its rounds make `count` stores. For a count of 0 the test
-- `--c > 0` wraps, and the loop does not end in the arrays.
unfoldable pub vvadd_3 : (n ncores coreid : ℕ) → Option (List ℕ)
vvadd_3 n ncores coreid =
    let count = n / ncores in if count == 0 then none else some (upwards count (coreid * count))

unfoldable pub vvadd_4 : (fuel n ncores coreid : ℕ) → Option (List ℕ)
vvadd_4 fuel n ncores coreid = strided once fuel coreid n ncores
