-- ===== src/Vm/Strings.antt =====
-- The functions of riscv-tests/env/v/string.c, whose texts, memcmp aside, are those of
-- riscv-tests/benchmarks/common/syscalls.c.
use rsicv_uvm_test.Base.{ℕ, Option, List}
use rsicv_uvm_test.Syscalls
use rsicv_uvm_test.Syscalls.Strings

abbrev pub memcpy : (dest_at src_at : ℕ) → (dest src : List ℕ) → (len : ℕ) → Option (List ℕ)
memcpy = Strings.memcpy

abbrev pub memset : (dest_at : ℕ) → (dest : List ℕ) → (byte len : ℕ) → Option (List ℕ)
memset = Strings.memset

abbrev pub strlen : List ℕ → Option ℕ
strlen = Strings.strlen

abbrev pub strcmp : (s1 s2 : List ℕ) → Option ℕ
strcmp = Strings.strcmp

abbrev pub strcpy : (dest src : List ℕ) → Option (List ℕ)
strcpy = Strings.strcpy

abbrev pub atol : List ℕ → Option ℕ
atol = Syscalls.atol
