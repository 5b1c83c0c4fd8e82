-- ===== src/Lib.antt =====
-- The SoroStream contracts: token streams on Soroban. A sender locks a deposit in the stream contract,
-- which releases it to a recipient at a fixed rate per second between a start and an end; a treasury
-- contract holds the protocol fees, and a proxy contract keeps the hash of an implementation and the
-- version of its storage layout.
--
-- The parts and the files that model them:
-- - contracts/stream/src/types.rs, errors.rs, events.rs: Types. An event is a constructor for each
--   function of events.rs, and publishing one appends it to the world's list.
-- - contracts/stream/src/storage.rs: Storage/Config (settings), Storage/Streams (streams, identifiers,
--   the global list), Storage/Index (the lists of a sender and of a recipient; Storage/Index/View is
--   the abstract list, Storage/Index/Refines the proof that the slots implement it), Storage/Access
--   (nonces, delegates, whitelist, limits), Storage/Audit (the log of twenty entries, its history in
--   Storage/Audit/History) and
--   Storage/Pausing. Env holds the two storages as records with a map for each family of keys.
-- - contracts/stream/src/vesting_math.rs: Vesting, with its bounds in Vesting/Bounds; the proof harnesses
--   of the file are Vesting/Harness, as tests of their inputs.
-- - contracts/stream/src/differential_fuzz.rs: Vesting/Reference, the reference functions of the
--   differential tests.
-- - contracts/stream/src/lib.rs: Contract, one function for each entry point of the source and of the
--   same name: Contract/Create, Contract/Withdraw, Contract/Cancel, Contract/Manage, Contract/Admin,
--   Contract/Fees and Contract/Queries; Contract/Payment is what the withdrawals share.
--   Contract/Settle, Contract/Timelock and Contract/Payment/Split look at cancellation, waiting times
--   and the split of a claim, Contract/Settle/Withdrawn at a withdrawal before the end,
--   Contract/Settle/Terminated, Contract/Settle/Parted and Contract/Settle/Replaced at the other two ways
--   to end a stream, Contract/Created at what a creation writes.
--   Contract/Action joins the entry points that write, with the worlds that are reached by them.
-- - contracts/stream/src/interface.rs: Contract/Interface, the trait as a record of its methods and the
--   contract as a value of it; Contract/Interface/Laws is how the methods relate to one another. Of a
--   cancelled stream it says what the code does, not what the comments of the trait say.
-- - contracts/treasury/src/lib.rs: Treasury, with Treasury/Conserves and Treasury/Withdrawals.
-- - contracts/proxy/src/lib.rs: Proxy, with Proxy/Upgrades.
--
-- Calls (Call): an entry point is a function from a world to an outcome, which is a value with the new
-- world, one of the contract's errors, or a panic. Only a return has a world, as the host rolls back
-- every call that ends otherwise. `Ensures m w Q` (Call/Rules) says that if `m` returns from `w`, `Q`
-- holds of its value and its world; `Unchanged o m` (Call/Unchanged) that `m` leaves the part `o` of the
-- world alone.
--
-- The accounting invariant (Contract/Sound): a stream is sound at a time if its rate is positive, its
-- deposit and the amount withdrawn are not negative, the amount withdrawn is at most what the rate gave
-- up to the last withdrawal, and the rate over the whole span costs at most the deposit; the last
-- withdrawal lies in the span and not in the future, nor after the pause of a paused stream. The modules
-- below it show for each entry point that it keeps all stored streams sound.
--
-- The consistency of the storage (Contract/Consistent): every stream stands under its own identifier, the
-- lists of a sender and of a recipient (Storage/Index/Listed) hold exactly the identifiers of their
-- stored streams, and the fees are in range. The modules below it take the entry points in turn;
-- Contract/Consistent/Listing is what the queries list then. A partial cancellation stores its new
-- stream with no test that the derived identifier is free, so that this is asked of it (`SparesId`).
--
-- Access (Contract/Access): a table of who may call which entry point, and what a pause of the contract
-- stops (Contract/Access/Paused). Contract/Frames says which parts of the entry points leave the streams,
-- the lists and the fees alone.
--
-- Where the documents and the code of the repository disagree, the model follows the code:
-- - docs/adr/0003-storage-layout.md and docs/storage-layout.md call the sender and recipient indexes
--   append-only; storage.rs removes an identifier by swap-and-pop whenever its stream is removed.
-- - docs/CONTRACT_SPEC.md, docs/storage-layout.md, the trait and one property test of proptest_tests.rs
--   have `cancel_stream` keep the stream as cancelled; the code deletes it, as test.rs and
--   integration_tests.rs assert. Only `partial_cancel_stream` leaves a stream stored as cancelled.
-- - docs/CONTRACT_SPEC.md has a pause of the contract stop `create_stream` only; the code stops the entry
--   points of Contract/Access/Paused.
-- - The trait and docs/contract-reference.md have `cancel_stream`, `partial_cancel_stream` and `top_up`
--   refuse everyone but the sender with NotSender; the code accepts the delegate of the stream as well, and
--   answers NotAuthorized to others.
-- - docs/adr/0002-stream-id-generation.md has a counter of identifiers; the code hashes.
--
-- Machine integers: u32 and u64 values are natural numbers and i128 values are integers, with the
-- checked and saturating operations of Prelude/Machine; a plain operation that overflows panics, as the
-- release profile of Cargo.toml asks. Loops over vectors and slots are recursion on the list or on the
-- number of rounds that the source's range has, so no fuel is chosen.
--
-- Parameters (Env): the ledger time, who authorizes, the token contracts, the contracts that are called
-- back or invoked, the change of the contract's code, SHA-256 and the XDR of an address. Addresses and
-- bytes are numbers and lists of them. Not modelled: the life time of storage entries, the functions of the
-- treasury and of the proxy that only hand on a storage read, and the tests and benchmarks but for the
-- harnesses and the reference functions above.
pub mod Prelude
pub mod Types
pub mod Call
pub mod Env
pub mod Storage
pub mod Vesting
pub mod Contract
pub mod Treasury
pub mod Proxy
pub mod Tests
