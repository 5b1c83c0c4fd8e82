-- ===== src/Tests.antt =====
-- The theorems at concrete inputs.
pub mod Data
mod Parts
mod Streams
mod Calls
mod Arithmetic
