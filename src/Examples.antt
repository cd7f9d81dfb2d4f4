-- ===== src/Examples.antt =====
-- The theorems at concrete inputs, and runs of the models on inputs that the sources name.
mod CoreMark
mod Vm
mod Benchmarks
mod Syscalls
mod List
mod Matrix
mod Strings
mod Sort
mod Towers
mod Dhrystone
mod Driver
mod Init
mod Cache
mod Vvadd
