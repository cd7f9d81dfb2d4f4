-- ===== src/Lib.antt =====
-- A verification library for the C programs that the e203_hbirdv2 RISC-V core runs: the programs
-- under riscv_cpu_design/pipeline_3/e203_hbirdv2/riscv-tools.
--
-- Parts and files. Paths are from the repository's root; "riscv-tools" stands for
-- riscv_cpu_design/pipeline_3/e203_hbirdv2/riscv-tools.
--
-- * CoreMark/Crc.antt models crcu8, crcu16, crc16 and crcu32 of
--   riscv-tools/fpga_test4sim/coremark4sim/core_util.c. Crc/Register.antt is an independent
--   description of the checksum, a reflected shift register; Crc/Laws.antt and Crc/Detect.antt
--   relate the two.
-- * CoreMark/State.antt models ee_isdigit and core_state_transition of core_state.c in the same
--   folder, with enum CORE_STATE of coremark.h. State/Bench.antt models core_bench_state,
--   State/Init.antt core_init_state. State/Grammar.antt is the grammar of numbers that the
--   recogniser is measured against; Progress, Corrupt and Total hold the theorems on the loops.
--
-- * CoreMark/Matrix.antt models the operations, the test and core_bench_matrix of core_matrix.c,
--   Matrix/Init.antt core_init_matrix with mat_params of coremark.h and align_mem of
--   core_portme.h; Fill and Entries, Product, Restore and Layout hold their theorems.
-- * CoreMark/List.antt models core_list_reverse, core_list_remove and core_list_undo_remove of
--   core_list_join.c on a block of cells; List/Reverse.antt and List/Undo.antt hold their
--   theorems. List/Init.antt models core_list_init, List/Bench.antt calc_func, cmp_complex and
--   core_bench_list with core_results of coremark.h. List/Items.antt models the data of the
--   items, core_list_find, core_list_insert_new, copy_info and cmp_idx, with theorems in
--   Items/Find.antt and Items/Insert.antt. List/Sort.antt models core_list_mergesort, for any
--   comparison: Sort/Reference.antt is the stable sort that it is measured against, Links, Merge,
--   Loop, Blocks, Pass, Double and Close lead to the theorem for a comparison by keys in Result,
--   and Index applies it to cmp_idx, for which Merge's record IsOrder is the interface.
-- * Dhrystone.antt models the data and the procedures of dhry_1.c, dhry_2.c and dhry.h in
--   riscv-tools/fpga_test4sim/dhrystone4sim, Dhrystone/Program.antt those with loops and main,
--   Dhrystone/Output.antt the final values that main prints. strcpy and strcmp, which come from
--   the C library, and the cells that malloc gives are parameters. Arrays, Records and Final hold
--   the theorems.
-- * CoreMark/Driver.antt models iterate and main of core_main.c, CoreMark/Driver/Seeds.antt the
--   functions on seeds and check_data_types of core_util.c; Driver/Known.antt lists the five
--   known runs as the comments of main name them; Seeds/Decimal, Places and Validation hold the
--   theorems.
-- * Vvadd.antt models the shares of the harts in vvadd0.c to vvadd4.c of
--   riscv-tools/riscv-tests/mt, Vvadd/Harts.antt the interleavings of their stores;
--   Vvadd/Shares.antt holds the theorem on vvadd4.
-- * Vm.antt models the state of riscv-tools/riscv-tests/env/v/vm.c and its handle_fault;
--   Vm/Boot.antt vm_boot's free list, Vm/Lfsr.antt LFSR_NEXT of riscv_test.h beside it,
--   Vm/Trap.antt evict and handle_trap. Vm/Invariant.antt is the invariant between two faults;
--   Map, Fault and Serve show what a fault leaves; Vm/Run.antt is the relation of the states that
--   a test can reach by faults and stores, and Isolation and Trap/Exit hold the theorems about
--   them, the latter by Trap/Release and Trap/Evict, what one page's eviction leaves.
-- * Benchmarks.antt and its modules model programs of riscv-tools/riscv-tests/benchmarks:
--   multiply/multiply.c, median/median.c, vvadd of vvadd/vvadd_main.c, verify of common/util.h;
--   Towers.antt models towers/towers_main.c, with the theorems in Towers/Stacks.antt and
--   Towers/Solve.antt.
-- * Syscalls.antt models printnum and atol of
--   riscv-tools/riscv-tests/benchmarks/common/syscalls.c; Syscalls/Print.antt and
--   Syscalls/Roundtrip.antt hold the theorems. Syscalls/Strings.antt models its memcpy, memset,
--   strlen, strnlen, strcmp and strcpy, and memcmp of riscv-tools/riscv-tests/env/v/string.c;
--   Vm/Strings.antt gives that file's other functions. Syscalls/Format.antt models vprintfmt,
--   getuint, getint and sprintf, Syscalls/Console.antt printf and putchar. Format/Grammar.antt
--   describes formats as pieces; Number, Escape, Pieces and Output lead to the theorems on them.
-- * Base and Bits hold what the parts share: tests, arrays as lists, words, and the arithmetic of
--   bit operations. Examples holds the theorems at concrete inputs, and runs of the models.
--
-- How the code is read. A machine word is a natural number with its wrap-around written out; a
-- signed word is its bit pattern. A pointer that only moves forward through a block is the list
-- of bytes from there to the end of the block; a block that is written by index is a list of
-- bytes. A read or write outside a block gives none, as does a loop out of fuel; a theorem that
-- says a function returns excludes both. Base/Loop.antt has counted loops whose body may fail. In
-- the fault handler a pointer to a node is its array and index, physical memory is a function
-- from page numbers to pages, and a failed assertion is an outcome of its own. The hardware is
-- the condition IsFault: a fault is raised on a user page of the test, and on a mapped page only
-- for a clear accessed bit, or by a store for a clear dirty bit.
--
-- Fuel. run_machine gets one unit for each byte and one more, since each call of the recogniser
-- moves on; corrupt_from one for each byte of the block and one more, since the step is at least
-- 1; fill two more than the block's size, since each round after the first writes a pattern and a
-- comma; clear one more than the size. dimension gets 2 to the 16, since its test ends the loop
-- before N * N * 8 passes 2 to the 32; core_list_reverse and core_list_find take their bound as
-- an argument, and one step for each cell and one more is enough; list_clear takes a bound on the
-- pops, and towers_verify one on the discs of peg C; core_list_mergesort takes one bound for its
-- passes, for which the number of cells is enough, and one for the rounds inside a pass, for
-- which one more than that is; printnum has the 64 entries of its array of digits, one for each
-- bit. core_bench_list, core_list_init and iterate take one bound for the steps along the list
-- and the passes of a sort, for which the number of places is enough in core_list_init; the inner
-- loops of Dhrystone take a bound, for which 3 is enough, and its loop over the runs one above
-- the number of runs; and the strided loops of vvadd one above the number of elements. escape
-- gets one unit for each byte of the format behind the %, and vprintfmt one for each byte of the
-- format, since every round reads one. The other loops count their rounds down, or end with their
-- text.
--
-- Not modelled: the remaining programs of riscv-tests (qsort, rsort, mm, spmv, fpu-perf, the
-- variants of matmul) and the debugger's test programs, the assembly and the generated constants,
-- and the hardware descriptions with their benches. Of CoreMark and Dhrystone, other output, the
-- clock and the debugging prints under CORE_DEBUG are left out, and so is CoreMark's search for a
-- number of iterations, which its main program does not reach.
pub mod Vvadd
pub mod Dhrystone
mod Base
pub mod Bits
pub mod CoreMark
mod Examples
pub mod Vm
pub mod Benchmarks
pub mod Syscalls
