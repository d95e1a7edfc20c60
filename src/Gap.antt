-- ===== src/Gap.antt =====
-- src/bmfunc.h: GAP blocks, a run-length form of 65536 bits. Each child is about one group of
-- the functions on them.
pub mod Layout
pub mod Order
pub mod Find
pub mod Range
pub mod Count
pub mod Set
pub mod Op
pub mod Init
pub mod Delta
pub mod Compare
pub mod Shift
pub mod Array
