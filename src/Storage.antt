-- ===== src/Storage.antt =====
-- contracts/stream/src/storage.rs: the entries of the contract's storage and what reads and writes
-- them. A read is a function of the world, a write is a function from worlds to worlds, and a write
-- that can trap is a call.
pub mod Config
pub mod Streams
pub mod Index
pub mod Access
pub mod Audit
pub mod Pausing
