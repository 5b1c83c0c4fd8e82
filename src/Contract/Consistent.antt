-- ===== src/Contract/Consistent.antt =====
-- contracts/stream/src/lib.rs and storage.rs: the consistency of the stored streams with the two indexes
-- and of the fee settings.
pub mod Cores
pub mod Writes
pub mod Fees
pub mod Withdraw
pub mod End
pub mod Create
pub mod Manage
pub mod Listing
pub mod Reach
use sorostream_contracts.Prelude.{
  ℕ, ◌≤◌, ◌≡◌, refl, ap, sym, ◌∙◌, subst, Bool, true, false, Option, none, some, arith, ◌==◌,
  if◌then◌else◌, update, update-update, update_self, unwrap_or, Bool-cases, inl, inr, ==→eq,
}
use sorostream_contracts.Prelude.Int.{ℤ}
use sorostream_contracts.Types.{Address, Stream, StreamError, overflow}
use sorostream_contracts.Call.{Call, modify, ◌>>=◌, ◌>>◌}
use sorostream_contracts.Call.Rules.{
  Ensures, Ensures-bind, Ensures-weaken, Ensures-modify, Ensures-or_err, Ensures-or_panic,
  Ensures-gets, Ensures-modify_last, Ensures-pure,
}
use sorostream_contracts.Call.Unchanged.{Unchanged}
use sorostream_contracts.Env.{World, Exec, Slots}
use sorostream_contracts.Storage.Streams.{save_stream, remove_stream}
use sorostream_contracts.Storage.Index.{
  index_by_sender, index_by_recipient, unindex_by_sender, unindex_by_recipient, append_id,
  remove_id,
}
use sorostream_contracts.Storage.Index.Listed.{
  IsListed, saved-IsListed, added-IsListed, dropped-IsListed,
}
use sorostream_contracts.Contract.Payment.{add_withdrawn}
use sorostream_contracts.Contract.Frames.{Core, core_of, streams_of}

abbrev pub sender_of : Stream → Address
sender_of s = s.sender

abbrev pub recipient_of : Stream → Address
recipient_of s = s.recipient

-- Every stored stream stands under its own identifier; the lists of a sender and of a recipient hold
-- exactly the identifiers of their stored streams, each once; the protocol fee and a proposed one are at
-- most 10000 basis points.
pub record IsConsistent (c : Core) : Type 0 where
  pub own_id : (id : ℕ) (s : Stream) → c.streams id ≡ some s → s.id ≡ id
  pub senders : (a : Address) → IsListed sender_of c.streams c.by_sender a
  pub recipients : (a : Address) → IsListed recipient_of c.streams c.by_recipient a
  pub fee_in : unwrap_or c.fee_bps 0 ≤ 10000
  pub pending_in : (bps unlock : ℕ) → c.pending_fee ≡ some (bps, unlock) → bps ≤ 10000

-- The core is consistent, and a stream is stored under an identifier.
abbrev pub Stores : ℕ → Stream → Core → Type 0
Stores id s c = IsConsistent c × (c.streams id ≡ some s)

-- Two versions of a stream.
abbrev pub SameParties : Stream → Stream → Type 0
SameParties s t = (t.id ≡ s.id) × (t.sender ≡ s.sender) × (t.recipient ≡ s.recipient)

module _ {C : Type 0} where
  -- What an entry point leaves.
  abbrev pub ConsistentAfter : {A : Type 0} → A → World C → Type 0
  ConsistentAfter a w = IsConsistent (core_of w)

-- A stream that a claim leaves, and the core that it left alone.
abbrev pub Claimed : {C : Type 0} → Stream → World C → Stream → World C → Type 0
Claimed s w paid w' = SameParties s paid × (core_of w' ≡ core_of w)
