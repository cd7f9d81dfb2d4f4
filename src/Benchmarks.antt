-- ===== src/Benchmarks.antt =====
-- The programs of riscv-tests/benchmarks. An `int` is its 32-bit pattern, an array the list of its
-- elements; an access outside an array gives none.
pub mod Towers
pub mod Multiply
pub mod Median
pub mod Arrays
pub mod Verify
use rsicv_uvm_test.Base.{
  ℕ, ◌+◌, ◌^◌, ltb, if◌then◌else◌, Bool, Option, none, some, List, length, set, u32,
}

-- `a < b` for two `int`s.
abbrev pub signed_lt : ℕ → ℕ → Bool
signed_lt a b = ltb (u32 (a + 2 ^ 31)) (u32 (b + 2 ^ 31))
