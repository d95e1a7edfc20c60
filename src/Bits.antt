-- ===== src/Bits.antt =====
-- src/bmfunc.h: bit blocks. A block is an array of 2048 `unsigned` words, and the bit at a position
-- is a digit of one of them.
pub mod Layout
pub mod Range
pub mod Single
pub mod Any
pub mod Count
pub mod Gaps
