-- ===== src/Contract/Frames.antt =====
-- contracts/stream/src/lib.rs and storage.rs: what the parts of the entry points leave alone, the stored
-- streams.
pub mod Settings
use sorostream_contracts.Prelude.{
  ℕ, ◌≡◌, refl, Bool, true, false, Option, none, some, if◌then◌else◌,
}
use sorostream_contracts.Prelude.Int.{ℤ}
use sorostream_contracts.Types.{Address, Stream, StreamError, Event}
use sorostream_contracts.Call.{pure, gets, or_err, or_panic, modify, fail_if, when, ◌>>=◌, ◌>>◌}
use sorostream_contracts.Call.Unchanged.{Unchanged, unchanged_rules}
use sorostream_contracts.Env.{
  Env, World, Slots, Exec, Invocation, require_auth, transfer, try_invoke, publish,
}
use sorostream_contracts.Storage.Pausing.{
  is_paused_or_auto_unpause, set_paused, set_pause_expiry, auto_unpause,
}
use sorostream_contracts.Storage.Index.{
  index_by_sender, index_by_recipient, unindex_by_sender, unindex_by_recipient,
}
use sorostream_contracts.Storage.Streams.{index_global_stream}
use sorostream_contracts.Storage.Access.{increment_batch_nonce}
use sorostream_contracts.Contract.Payment.{
  pay_claim, pay_fee_announced, pay_fee_deposited, add_withdrawn, guard_deposit, fee_on,
}

-- The streams, their two indexes and the protocol fee: what the entry points keep in order.
pub record Core : Type 0 where
  pub streams : ℕ → Option Stream
  pub by_sender : Slots
  pub by_recipient : Slots
  pub fee_bps : Option ℕ
  pub pending_fee : Option (ℕ × ℕ)

module _ {C : Type 0} where
  abbrev pub core_of : World C → Core
  core_of w = record {
    streams = w.pers.streams;
    by_sender = w.pers.by_sender;
    by_recipient = w.pers.by_recipient;
    fee_bps = w.inst.fee_bps;
    pending_fee = w.inst.pending_fee;
  }

  abbrev pub streams_of : World C → ℕ → Option Stream
  streams_of w = w.pers.streams

  pub publish-core : (e : Event) (w : World C) → core_of (publish e w) ≡ core_of w
  unfolding publish
  publish-core e w = refl

  set_paused-core : (b : Bool) (w : World C) → core_of (set_paused b w) ≡ core_of w
  unfolding set_paused
  set_paused-core b w = refl

  set_pause_expiry-core : (t : ℕ) (w : World C) → core_of (set_pause_expiry t w) ≡ core_of w
  unfolding set_pause_expiry
  set_pause_expiry-core t w = refl

  pub index_by_sender-streams : (a : Address) (id : ℕ) → Unchanged streams_of (index_by_sender a id)
  unfolding index_by_sender
  index_by_sender-streams a id = search unchanged_rules

  auto_unpause-core : Unchanged core_of (auto_unpause {C = C})
  unfolding auto_unpause
  auto_unpause-core = search (unchanged_rules, set_paused-core, set_pause_expiry-core)

  fee_on-core : (a : Address) (n : ℤ) → Unchanged core_of (fee_on {C = C} a n)
  unfolding fee_on
  fee_on-core a n = search unchanged_rules depth 8

  pub add_withdrawn-core : (s : Stream) (n : ℤ) → Unchanged core_of (add_withdrawn {C = C} s n)
  unfolding add_withdrawn
  add_withdrawn-core s n = search unchanged_rules

  pub guard_deposit-core : (s : Stream) (n : ℤ) → Unchanged core_of (guard_deposit {C = C} s n)
  unfolding guard_deposit
  guard_deposit-core s n = search unchanged_rules

  pub index_by_recipient-streams :
      (a : Address) (id : ℕ) → Unchanged streams_of (index_by_recipient a id)
  unfolding index_by_recipient
  index_by_recipient-streams a id = search unchanged_rules

  pub index_global_stream-core : (id : ℕ) → Unchanged core_of (index_global_stream id)
  unfolding index_global_stream
  index_global_stream-core id = search unchanged_rules depth 8

  pub increment_batch_nonce-core : (a : Address) → Unchanged core_of (increment_batch_nonce a)
  unfolding increment_batch_nonce
  increment_batch_nonce-core a = search unchanged_rules depth 8

module _ {C : Type 0} (env : Env C) where
  pub require_auth-core : (a : Address) → Unchanged core_of (require_auth env a)
  unfolding require_auth
  require_auth-core a = search unchanged_rules

  pub try_invoke-core :
      (a : Address) (i : Invocation) (w : World C) → core_of (try_invoke env a i w) ≡ core_of w
  unfolding try_invoke
  try_invoke-core a i w = refl

  pub transfer-core :
      (token from to : Address) (amount : ℤ) → Unchanged core_of (transfer env token from to amount)
  unfolding transfer
  transfer-core token from to amount = search unchanged_rules

  pub is_paused_or_auto_unpause-core : Unchanged core_of (is_paused_or_auto_unpause env)
  unfolding is_paused_or_auto_unpause
  is_paused_or_auto_unpause-core = search (unchanged_rules, auto_unpause-core) depth 7

  pub pay_fee_announced-core :
      (s : Stream) (id : ℕ) (n : ℤ) (t : Option Address)
      → Unchanged core_of (pay_fee_announced env s id n t)
  unfolding pay_fee_announced
  pay_fee_announced-core s id n none = search unchanged_rules
  pay_fee_announced-core s id n (some t) = search (unchanged_rules, transfer-core, publish-core)

  pub pay_fee_deposited-core :
      (s : Stream) (id : ℕ) (n : ℤ) (t : Option Address)
      → Unchanged core_of (pay_fee_deposited env s id n t)
  unfolding pay_fee_deposited
  pay_fee_deposited-core s id n none = search unchanged_rules
  pay_fee_deposited-core s id n (some t) = search (unchanged_rules, transfer-core, try_invoke-core)

  pub pay_claim-core :
      (pay_fee : Env C → Stream → ℕ → ℤ → Option Address → Exec C (Unit {0})) (s : Stream) (id : ℕ)
      (r : Address) (n : ℤ)
      → ((f : ℤ) (t : Option Address) → Unchanged core_of (pay_fee env s id f t))
      → Unchanged core_of (pay_claim env pay_fee s id r n)
  unfolding pay_claim
  pay_claim-core pay_fee s id r n h = search (unchanged_rules, fee_on-core, transfer-core) depth 10
