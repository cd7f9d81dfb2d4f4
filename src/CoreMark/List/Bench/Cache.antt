-- ===== src/CoreMark/List/Bench/Cache.antt =====
-- calc_func of core_list_join.c: the value that it caches.
use rsicv_uvm_test.Base.{
  ℕ, ◌+◌, ◌*◌, ◌/◌, ◌%◌, ◌^◌, ◌≤◌, ◌<◌, ◌≡◌, refl, arith, Bool-cases, inl, inr, ==_cases, ◌==◌,
  some, bit_and, bit_or, ◌>>>◌, ◌<<<◌, List, length, get_or, ltb, ltb→lt, holds_at, holds_below,
  ◌∙◌, ◌≢◌, if◌then◌else◌, Returns, returns, Returns-then,
}
use rsicv_uvm_test.Bits.Fields.{bit_and_low_mask, bit_or_disjoint, bit_and-one, bit_and_upper}
use rsicv_uvm_test.CoreMark.State.Init.{core_init_state}
use rsicv_uvm_test.CoreMark.State.Total.{core_bench_state_total}
use rsicv_uvm_test.CoreMark.Matrix.{Tested, core_bench_matrix}
use rsicv_uvm_test.CoreMark.Matrix.Restore.{matrix_test-IsTested}
use rsicv_uvm_test.CoreMark.List.Bench.{
  CoreResults, Calculated, Returned, by_state, by_matrix, calc_func,
}

-- The cached value is 7 bits below the flag, and the upper byte is that of the data.
pub record IsCached (value : ℕ) (r : Returned) : Type 0 where
  pub seven_bits : r.retval < 2 ^ 7
  pub low_byte : r.data16 % 2 ^ 8 ≡ 2 ^ 7 + r.retval
  pub upper_byte : r.data16 / 2 ^ 8 ≡ value / 2 ^ 8
  pub again :
      (res : CoreResults)
      → calc_func r.data16 res
        ≡ some (record { retval = r.retval; data16 = r.data16; results = res })

upper_mask : (x : ℕ) → x < 2 ^ 16 → bit_and x 0xff00 ≡ x / 2 ^ 8 * 2 ^ 8
upper_mask x h = omega (arith, bit_and_upper 8 x 0xff, bit_and_low_mask 8 (x / 2 ^ 8))

packed :
    (value ret : ℕ)
    → value < 2 ^ 16
    → ret < 2 ^ 7
    → bit_or (bit_or (bit_and value 0xff00) 0x0080) ret ≡ value / 2 ^ 8 * 2 ^ 8 + (2 ^ 7 + ret)
packed value ret h k =
    let outer : value / 2 ^ 8 * 2 ^ 8 + 2 ^ 7 ≡ (value / 2 ^ 8 * 2 + 1) * 2 ^ 7 = omega arith in
    rw
      (
        upper_mask value h,
        bit_or_disjoint 8 (value / 2 ^ 8) (2 ^ 7) (omega arith),
        outer,
        bit_or_disjoint 7 (value / 2 ^ 8 * 2 + 1) ret k,
      )
      (omega arith)

cached_lem :
    (value ret : ℕ) (res : CoreResults)
    → ret < 2 ^ 7
    → value % 2 ^ 8 ≡ 2 ^ 7 + ret
    → calc_func value res ≡ some (record { retval = ret; data16 = value; results = res })
unfolding calc_func
cached_lem value ret res small low =
    let bit_7 : bit_and (value >>> 7) 1 ≡ 1 = omega (arith, bit_and-one (value >>> 7)) in
    let kept : bit_and value 0x007f ≡ ret = omega (arith, bit_and_low_mask 7 value) in
    rw (bit_7, kept) refl

-- The state machine's block as core_init_state prepares it, and matrices with an element for each place.
pub record IsReady (res : CoreResults) : Type 0 where
  pub seed : ℕ
  pub unfilled : List ℕ
  pub some_size : 2 ≤ res.size
  pub fits : res.size ≤ length unfilled
  pub small_block : length unfilled < 2 ^ 31
  pub prepared : core_init_state res.size seed unfilled ≡ some res.state_block
  pub few : res.mat.n * res.mat.n ≤ 2 ^ 32
  pub a_fits : res.mat.n * res.mat.n ≤ length res.mat.a
  pub b_fits : res.mat.n * res.mat.n ≤ length res.mat.b
  pub c_fits : res.mat.n * res.mat.n ≤ length res.mat_c
  pub small : (p : ℕ) → get_or res.mat.a p 0 < 2 ^ 16

abbrev AnyValue : Calculated → Type 0
AnyValue c = Unit

abbrev AnyTested : Tested → Type 0
AnyTested t = Unit

by_state-Returns :
    (dtype : ℕ) (res : CoreResults) → IsReady res → Returns AnyValue (by_state dtype res)
unfolding by_state
by_state-Returns dtype res r =
    let step = if ltb dtype 0x22 then 0x22 else dtype in
    let two : 2 ≤ step = ground arith in
    let (benched, e, _) =
      core_bench_state_total res.size r.seed res.seed1 res.seed2 step res.crc r.unfilled
        res.state_block r.some_size r.fits r.small_block two r.prepared in
    rw e (returns _ tt)

bench_matrix-Returns :
    (dtype : ℕ) (res : CoreResults)
    → dtype < 2 ^ 16
    → IsReady res
    → Returns AnyTested (core_bench_matrix res.mat.n res.mat_c res.mat.a res.mat.b dtype res.crc)
unfolding core_bench_matrix
bench_matrix-Returns dtype res h r =
    Returns-then _
      (matrix_test-IsTested res.mat.n res.mat_c res.mat.a res.mat.b dtype r.few r.a_fits r.b_fits
        r.c_fits h r.small)
      (λ tested _. returns _ tt)

by_matrix-Returns :
    (dtype : ℕ) (res : CoreResults)
    → dtype < 2 ^ 16
    → IsReady res
    → Returns AnyValue (by_matrix dtype res)
unfolding by_matrix
by_matrix-Returns dtype res h r =
    Returns-then _ (bench_matrix-Returns dtype res h r) (λ tested _. returns _ tt)

abbrev dtype_of : ℕ → ℕ
dtype_of value = let low = bit_and (value >>> 3) 0xf in bit_or low (low <<< 4)

small_dtype : (value : ℕ) → dtype_of value < 2 ^ 16
unfolding holds_below
small_dtype value =
    let low = bit_and (value >>> 3) 0xf in
    let few : low < 16 = omega (arith, bit_and_low_mask 4 (value >>> 3)) in
    ltb→lt (bit_or low (low <<< 4)) (2 ^ 16)
      (holds_at 16 (λ l. ltb (bit_or l (l <<< 4)) (2 ^ 16)) low refl few)

-- The switch.
calculated :
    (value : ℕ) (res : CoreResults)
    → IsReady res
    → Returns AnyValue (
        if bit_and value 0x7 == 0
        then by_state (dtype_of value) res
        else if bit_and value 0x7 == 1
        then by_matrix (dtype_of value) res
        else some (record { retval = value; results = res }))
calculated value res r = elim (Bool-cases (bit_and value 0x7 == 0)) [
  | inl state ↦ rw state (by_state-Returns (dtype_of value) res r)
  | inr other ↦ elim (Bool-cases (bit_and value 0x7 == 1)) [
    | inl matrix ↦ rw (other, matrix) (by_matrix-Returns (dtype_of value) res (small_dtype value) r)
    | inr neither ↦ rw (other, neither) (returns _ tt)
  ]
]

-- For a 16-bit value, a block that core_init_state prepared and matrices of 16-bit values with an element for each place, calc_func returns.
-- Its result has 7 bits; the value is then the upper byte of the old one, the flag, and the result; and
-- a further call with it, whatever the results are by then, gives the same and changes nothing.
pub calc_func-IsCached :
    (value : ℕ) (res : CoreResults)
    → value < 2 ^ 16
    → IsReady res
    → Returns (IsCached value) (calc_func value res)
unfolding calc_func
calc_func-IsCached value res h r = elim (==_cases (bit_and (value >>> 7) 1) 0) [
  | inl (_, fresh) ↦ rw fresh (
      Returns-then _ (calculated value res r) (λ c _.
        let ret = bit_and c.retval 0x007f in
        let small : ret < 2 ^ 7 = omega (arith, bit_and_low_mask 7 c.retval) in
        let D = bit_or (bit_or (bit_and value 0xff00) 0x0080) ret in
        let form : D ≡ value / 2 ^ 8 * 2 ^ 8 + (2 ^ 7 + ret) = packed value ret h small in
        let low : D % 2 ^ 8 ≡ 2 ^ 7 + ret = omega arith in
        returns _ (record {
          seven_bits = small;
          low_byte = low;
          upper_byte = omega arith;
          again = λ res'. cached_lem D ret res' small low;
        })))
  | inr (ne, cached) ↦
      let ret = bit_and value 0x007f in
      let bit_7 : bit_and (value >>> 7) 1 ≡ value / 2 ^ 7 % 2 =
        omega (arith, bit_and-one (value >>> 7)) in
      let kept : ret ≡ value % 2 ^ 7 = omega (arith, bit_and_low_mask 7 value) in
      let set_bit : value / 2 ^ 7 % 2 ≢ 0 = λ e. ne (bit_7 ∙ e) in
      let low : value % 2 ^ 8 ≡ 2 ^ 7 + ret = omega arith in
      rw cached (
        returns _ (record {
          seven_bits = omega arith;
          low_byte = low;
          upper_byte = refl;
          again = λ res'. cached_lem value ret res' (omega arith) low;
        }))
]
