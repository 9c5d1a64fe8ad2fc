-- ===== src/Common/Bits.antt =====
-- The bitwise operators of C on unsigned values, as arithmetic: one digit at a time (Step), then
-- on multiples of a power of two and under a mask (Powers).
pub mod Step
pub mod Powers
pub mod Xor
