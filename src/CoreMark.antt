-- ===== src/CoreMark.antt =====
-- The CoreMark port: riscv-tools/fpga_test4sim/coremark4sim.
pub mod Crc
pub mod State
pub mod List
pub mod Driver
pub mod Matrix
