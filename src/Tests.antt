-- ===== src/Tests.antt =====
-- Runs of the functions at concrete inputs, and the theorems at inputs that meet their conditions.
pub mod Blocks
mod Bits
mod Encoding
mod Gap
mod More
