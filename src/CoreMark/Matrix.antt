-- ===== src/CoreMark/Matrix.antt =====
-- The matrix benchmark of CoreMark: core_matrix.c. A `MATDAT` is its 16-bit pattern, a `MATRES` its
-- 32-bit pattern; a matrix is the block from its first element on, row by row.
pub mod Fill
pub mod Entries
pub mod Product
pub mod Restore
pub mod Init
pub mod Layout
use rsicv_uvm_test.Base.{
  ℕ, zero, suc, ◌+◌, ◌-◌, ◌*◌, ◌/◌, ◌%◌, ◌^◌, ltb, leb, ◌==◌, if◌then◌else◌, Bool, Option, none,
  some, List, get_elem?, store, ◌>>=◌, for, u16, u32, ◌<<<◌, ◌>>>◌, bit_and, bit_or,
}
use rsicv_uvm_test.CoreMark.Crc.{crc16}

-- `(MATRES)x`.
abbrev pub extend : ℕ → ℕ
extend x = if ltb x (2 ^ 15) then x else x + (2 ^ 32 - 2 ^ 16)

-- `a < b` for two values of 32 bits with sign.
abbrev pub signed_lt32 : ℕ → ℕ → Bool
signed_lt32 a b = ltb (u32 (a + 2 ^ 31)) (u32 (b + 2 ^ 31))

-- `x >> k` for a value of 32 bits with sign.
abbrev pub shift_right32 : ℕ → ℕ → ℕ
shift_right32 x k = if ltb x (2 ^ 31) then x >>> k else (x + (2 ^ k - 1) * 2 ^ 32) >>> k

abbrev pub matrix_clip : (x y : ℕ) → ℕ
matrix_clip x y = if y == 0 then bit_and x 0x0ffff else bit_and x 0x0ff

abbrev pub matrix_big : ℕ → ℕ
matrix_big x = u16 (bit_or 0xf000 x)

abbrev pub bit_extract : (x from to : ℕ) → ℕ
bit_extract x from to = bit_and (shift_right32 x from) (0xffff_ffff - u32 (0xffff_ffff <<< to))

-- The index `i*N+j`.
abbrev pub cell : (n i j : ℕ) → ℕ
cell n i j = u32 (u32 (i * n) + j)

-- The product that the loops add up.
abbrev pub product : (x y : ℕ) → ℕ
product x y = u32 (extend x * extend y)

abbrev pub extracted : (x y : ℕ) → ℕ
extracted x y = u32 (bit_extract (product x y) 2 4 * bit_extract (product x y) 5 7)

unfoldable pub matrix_add_const : (n : ℕ) → (a : List ℕ) → (val : ℕ) → Option (List ℕ)
matrix_add_const n a val =
    for n 0
      (λ i. for n 0 (λ j m. do x ← get_elem? m (cell n i j); store m (cell n i j) (u16 (x + val))))
      a

unfoldable pub matrix_mul_const : (n : ℕ) → (c a : List ℕ) → (val : ℕ) → Option (List ℕ)
matrix_mul_const n c a val =
    for n 0
      (λ i. for n 0 (λ j m. do x ← get_elem? a (cell n i j); store m (cell n i j) (product x val)))
      c

-- `*p += v`.
abbrev pub add_to : List ℕ → (p v : ℕ) → Option (List ℕ)
add_to m p v = do s ← get_elem? m p; store m p (u32 (s + v))

unfoldable pub matrix_mul_vect : (n : ℕ) → (c a b : List ℕ) → Option (List ℕ)
matrix_mul_vect n c a b =
    for n 0
      (λ i m. do
        cleared ← store m i 0
        for n 0
            (λ j row. do
              x ← get_elem? a (cell n i j)
              y ← get_elem? b j
              add_to row i (product x y))
            cleared)
      c

-- The loops of the two products of matrices, with the value that they add up.
pub mul_matrix_by : (term : ℕ → ℕ → ℕ) → (n : ℕ) → (c a b : List ℕ) → Option (List ℕ)
mul_matrix_by term n c a b =
    for n 0
      (λ i. for n 0 (λ j m. do
        cleared ← store m (cell n i j) 0
        for n 0
            (λ k acc. do
              x ← get_elem? a (cell n i k)
              y ← get_elem? b (cell n k j)
              add_to acc (cell n i j) (term x y))
            cleared))
      c

unfoldable pub matrix_mul_matrix : (n : ℕ) → (c a b : List ℕ) → Option (List ℕ)
unfolding mul_matrix_by
matrix_mul_matrix n c a b = mul_matrix_by product n c a b

unfoldable pub matrix_mul_matrix_bitextract : (n : ℕ) → (c a b : List ℕ) → Option (List ℕ)
unfolding mul_matrix_by
matrix_mul_matrix_bitextract n c a b = mul_matrix_by extracted n c a b

-- The local variables of `matrix_sum`.
pub record Summing : Type 0 where
  pub tmp : ℕ
  pub prev : ℕ
  pub ret : ℕ

pub sum_step : (clipval cur : ℕ) → Summing → Summing
sum_step clipval cur s =
    let tmp' = u32 (s.tmp + cur) in
    if signed_lt32 (extend clipval) tmp'
    then record { tmp = 0; prev = cur; ret = u16 (s.ret + 10) }
    else record {
      tmp = tmp';
      prev = cur;
      ret = u16 (s.ret + (if signed_lt32 s.prev cur then 1 else 0));
    }

unfoldable pub matrix_sum : (n : ℕ) → (c : List ℕ) → (clipval : ℕ) → Option ℕ
unfolding sum_step
matrix_sum n c clipval = do
  summed ←
      for n 0
        (λ i. for n 0 (λ j s. do cur ← get_elem? c (cell n i j); some (sum_step clipval cur s)))
        (record { tmp = 0; prev = 0; ret = 0 })
  some summed.ret

-- What `matrix_test` leaves: the matrices that it writes, and its result.
pub record Tested : Type 0 where
  pub a : List ℕ
  pub c : List ℕ
  pub crc : ℕ

unfoldable pub matrix_test : (n : ℕ) → (c a b : List ℕ) → (val : ℕ) → Option Tested
unfolding matrix_add_const matrix_mul_const matrix_mul_vect matrix_mul_matrix
    matrix_mul_matrix_bitextract matrix_sum
matrix_test n c a b val = do
  let clipval = matrix_big val
  a1 ← matrix_add_const n a val
  c1 ← matrix_mul_const n c a1 val
  s1 ← matrix_sum n c1 clipval
  c2 ← matrix_mul_vect n c1 a1 b
  s2 ← matrix_sum n c2 clipval
  c3 ← matrix_mul_matrix n c2 a1 b
  s3 ← matrix_sum n c3 clipval
  c4 ← matrix_mul_matrix_bitextract n c3 a1 b
  s4 ← matrix_sum n c4 clipval
  a2 ← matrix_add_const n a1 (u16 (2 ^ 32 - extend val))
  some (record { a = a2; c = c4; crc = crc16 s4 (crc16 s3 (crc16 s2 (crc16 s1 0))) })

unfoldable pub core_bench_matrix : (n : ℕ) → (c a b : List ℕ) → (seed crc : ℕ) → Option Tested
core_bench_matrix n c a b seed crc = do
  tested ← matrix_test n c a b seed
  some (record tested { crc = crc16 tested.crc crc })
