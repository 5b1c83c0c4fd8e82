-- ===== src/Contract/Access.antt =====
-- contracts/stream/src/lib.rs: who may call which entry point, as a table that is written without regard
-- to how the entry points go about their checks.
pub mod Streams
pub mod Settings
pub mod Run
pub mod Paused
use sorostream_contracts.Prelude.{
  ℕ, Bool, true, false, not, ◌&&◌, ◌||◌, Option, none, some, ◌==◌, leb, is_some, ltb,
}
use sorostream_contracts.Types.{Address, Stream}
use sorostream_contracts.Env.{Env, World}
use sorostream_contracts.Storage.Config.{
  read_admin, read_guardian, read_governance, read_pending_fee_proposal, read_applied_migrations,
}
use sorostream_contracts.Storage.Streams.{load_stream}
use sorostream_contracts.Storage.Access.{nonce_used, get_batch_nonce}
use sorostream_contracts.Contract.Payment.{is_address, may_manage}
use sorostream_contracts.Contract.Admin.{contains}
use sorostream_contracts.Contract.Create.{CreateArgs}
use sorostream_contracts.Contract.Action.{Action}

module _ {C : Type 0} where
  -- A stream is stored under the identifier and passes a test.
  abbrev pub stored : World C → ℕ → (Stream → Bool) → Bool
  stored w id f = elim (load_stream w id) [ none ↦ false | some s ↦ f s ]

  abbrev pub by_sender : World C → Address → ℕ → Bool
  by_sender w a id = stored w id (λ s. s.sender == a)

  abbrev pub by_recipient : World C → Address → ℕ → Bool
  by_recipient w a id = stored w id (λ s. s.recipient == a)

  abbrev pub by_manager : World C → Address → ℕ → Bool
  by_manager w a id = stored w id (λ s. may_manage w s id a)

module _ {C : Type 0} (env : Env C) where
  -- The stored admin has authorized the call.
  abbrev pub by_admin : World C → Bool
  by_admin w = elim (read_admin w) [ none ↦ false | some a ↦ env.authorized a ]

  -- Who must have authorized an action, and how that address must stand to what is stored; a nonce is
  -- good for one creation.
  abbrev pub permits : World C → Action → Bool
  permits w (Action.create_stream args) =
      env.authorized args.sender && not (nonce_used w args.sender args.nonce)
  permits w (Action.batch_create_stream s rs as' ts d auto ls n) =
      env.authorized s && (n == get_batch_nonce w s)
  permits w (Action.withdraw id r) = env.authorized r && by_recipient w r id
  permits w (Action.batch_withdraw ids r) = env.authorized r
  permits w (Action.cancel_stream id a) = env.authorized a && by_manager w a id
  permits w (Action.recipient_terminate id r) =
      env.authorized r && stored w id (λ s. (s.recipient == r) && s.allow_recipient_termination)
  permits w (Action.batch_cancel_stream ids s) = env.authorized s
  permits w (Action.partial_cancel_stream id a n) = env.authorized a && by_manager w a id
  permits w (Action.top_up id a t n) = env.authorized a && by_manager w a id
  permits w (Action.transfer_recipient id a b) = env.authorized a && by_recipient w a id
  permits w (Action.delegate s id a) = env.authorized s && by_sender w s id
  permits w (Action.revoke_delegate s id) = env.authorized s && by_sender w s id
  permits w (Action.update_metadata s id m) = env.authorized s && by_sender w s id
  permits w (Action.cancel_auto_renew s id) = env.authorized s && by_sender w s id
  permits w (Action.pause_stream id s) = env.authorized s && by_sender w s id
  permits w (Action.resume_stream id s) = env.authorized s && by_sender w s id
  permits w (Action.archive_stream id a) =
      env.authorized a && stored w id (λ s. (s.sender == a) || (s.recipient == a))
  permits w (Action.initialize a v) = not (is_some (read_admin w))
  permits w Action.is_paused = true
  permits w (Action.pause a) = env.authorized a && is_address (read_guardian w) a
  permits w (Action.unpause a) = env.authorized a && is_address (read_governance w) a
  permits w (Action.migrate u v) = by_admin w && not (contains (read_applied_migrations w) v)
  permits w (Action.set_min_duration a n) = env.authorized a
  permits w (Action.set_withdrawal_cooldown a n) = by_admin w && env.authorized a
  permits w (Action.set_whitelist_enabled a b) = by_admin w && env.authorized a
  permits w (Action.add_to_whitelist a r) = by_admin w && env.authorized a
  permits w (Action.remove_from_whitelist a r) = by_admin w && env.authorized a
  permits w (Action.set_protocol_fee n) = true
  permits w (Action.set_treasury_address a) = true
  permits w (Action.propose_fee_change a n) = env.authorized a && is_address (read_admin w) a
  permits w Action.execute_fee_change = elim (read_pending_fee_proposal w) [
    | none ↦ false
    | some p ↦ leb p.1 env.timestamp
  ]
  permits w _ = by_admin w
