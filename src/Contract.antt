-- ===== src/Contract.antt =====
-- contracts/stream/src/lib.rs: the entry points of the stream contract, each as one function. The
-- error `?` of the source ends the call, so an entry point is one `do` block; where the source goes on
-- in the two branches of an `if`, the branches are functions of their own.
pub mod Payment
pub mod Frames
pub mod Sound
pub mod Consistent
pub mod Withdraw
pub mod Cancel
pub mod Create
pub mod Manage
pub mod Admin
pub mod Fees
pub mod Queries
pub mod Access
pub mod Action
pub mod Timelock
pub mod Settle
pub mod Created
pub mod Interface
