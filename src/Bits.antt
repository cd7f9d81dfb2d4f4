-- ===== src/Bits.antt =====
-- Facts about the native bit operations at variables, which C's `^`, `&` and `|` are read as.
pub mod Step
pub mod Xor
pub mod Fields
