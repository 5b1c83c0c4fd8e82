-- ===== src/Contract/Consistent/Reach.antt =====
-- contracts/stream/src/lib.rs, all the entry points that write together: the consistency of the storage.
use sorostream_contracts.Prelude.{ℕ, ◌≡◌, refl, sym, subst, Option, none, arith, [], ◌+◌}
use sorostream_contracts.Types.{Address, Stream}
use sorostream_contracts.Call.{ok}
use sorostream_contracts.Call.Rules.{
  Ensures, Ensures-bind, Ensures-weaken, Ensures-pure, Ensures-returns,
}
use sorostream_contracts.Call.Unchanged.{Unchanged}
use sorostream_contracts.Env.{Env, World, Exec, Slots, set_chain}
use sorostream_contracts.Storage.Index.{get_count}
use sorostream_contracts.Storage.Index.Listed.{IsListed}
use sorostream_contracts.Contract.Action.{Action, run, drop_result}
use sorostream_contracts.Contract.Admin.{is_paused}
use sorostream_contracts.Contract.Frames.{core_of, streams_of, is_paused_or_auto_unpause-core}
use sorostream_contracts.Contract.Frames.Settings
use sorostream_contracts.Contract.Consistent.{IsConsistent, ConsistentAfter}
use sorostream_contracts.Contract.Consistent.Fees.{
  set_protocol_fee-IsConsistent, propose_fee_change-IsConsistent, execute_fee_change-IsConsistent,
}
use sorostream_contracts.Contract.Consistent.Withdraw.{
  withdraw-IsConsistent, batch_withdraw-IsConsistent,
}
use sorostream_contracts.Contract.Consistent.Create.{
  create_stream-IsConsistent, batch_create_stream-IsConsistent,
}
use sorostream_contracts.Contract.Consistent.End.{
  SparesId, cancel_stream-IsConsistent, recipient_terminate-IsConsistent,
  batch_cancel_stream-IsConsistent, partial_cancel_stream-IsConsistent, archive_stream-IsConsistent,
}
use sorostream_contracts.Contract.Consistent.Manage.{
  top_up-IsConsistent, transfer_recipient-IsConsistent, delegate-IsConsistent,
  revoke_delegate-IsConsistent, update_metadata-IsConsistent, cancel_auto_renew-IsConsistent,
  pause_stream-IsConsistent, resume_stream-IsConsistent,
}

-- A partial cancellation derives an identifier that no stored stream has; the other calls need nothing.
abbrev pub Spares : {C : Type 0} → Env C → World C → Action → Type 0
Spares env w (Action.partial_cancel_stream id a n) = SparesId env (streams_of w) id
Spares env w _ = Unit {0}

-- The worlds that the contract reaches by calls that return, if no partial cancellation meets an
-- identifier that is taken. It begins with no stream, no list and no fee.
pub data ReachesApart {C : Type 0} : World C → Type 0 where
  fresh :
      (w : World C)
      → ((id : ℕ) → w.pers.streams id ≡ none)
      → ((a : Address) → w.pers.by_sender.count a ≡ none)
      → ((a : Address) (i : ℕ) → w.pers.by_sender.slot a i ≡ none)
      → ((a : Address) → w.pers.by_recipient.count a ≡ none)
      → ((a : Address) (i : ℕ) → w.pers.by_recipient.slot a i ≡ none)
      → w.inst.fee_bps ≡ none
      → w.inst.pending_fee ≡ none
      → ReachesApart w
  called :
      {w w' : World C} (env : Env C) (action : Action)
      → ReachesApart w
      → Spares env w action
      → run env action w ≡ ok (tt, w')
      → ReachesApart w'
  elsewhere : {w : World C} (c : C) → ReachesApart w → ReachesApart (set_chain c w)

module _ {C : Type 0} (env : Env C) where
  frame-IsConsistent :
      {A : Type 0} {m : Exec C A} {w : World C}
      → Unchanged core_of m
      → IsConsistent (core_of w)
      → Ensures m w ConsistentAfter
  frame-IsConsistent {w} k h = Ensures-weaken (k.at w) (λ a w' e. subst IsConsistent (sym e) h)

  dropped-IsConsistent :
      {A : Type 0} {m : Exec C A} {w : World C}
      → Ensures m w ConsistentAfter
      → Ensures (drop_result m) w ConsistentAfter
  dropped-IsConsistent h = Ensures-bind _ h λ a w' h'. Ensures-pure _ h'

  is_paused-core : Unchanged core_of (is_paused env)
  unfolding is_paused
  is_paused-core = is_paused_or_auto_unpause-core env

  pub run-IsConsistent :
      (action : Action) (w : World C)
      → Spares env w action
      → IsConsistent (core_of w)
      → Ensures (run env action) w ConsistentAfter
  unfolding run
  run-IsConsistent (Action.create_stream args) w apart h =
      dropped-IsConsistent (create_stream-IsConsistent env args w h)
  run-IsConsistent (Action.batch_create_stream s rs as' ts d auto ls n) w apart h =
      dropped-IsConsistent (batch_create_stream-IsConsistent env s rs as' ts d auto ls n w h)
  run-IsConsistent (Action.withdraw id r) w apart h = withdraw-IsConsistent env id r w h
  run-IsConsistent (Action.batch_withdraw ids r) w apart h =
      dropped-IsConsistent (batch_withdraw-IsConsistent env ids r w h)
  run-IsConsistent (Action.cancel_stream id a) w apart h = cancel_stream-IsConsistent env id a w h
  run-IsConsistent (Action.recipient_terminate id r) w apart h =
      recipient_terminate-IsConsistent env id r w h
  run-IsConsistent (Action.batch_cancel_stream ids s) w apart h =
      dropped-IsConsistent (batch_cancel_stream-IsConsistent env ids s w h)
  run-IsConsistent (Action.partial_cancel_stream id a n) w apart h =
      dropped-IsConsistent (partial_cancel_stream-IsConsistent env id a n w apart h)
  run-IsConsistent (Action.top_up id a t n) w apart h = top_up-IsConsistent env id a t n w h
  run-IsConsistent (Action.transfer_recipient id a b) w apart h =
      transfer_recipient-IsConsistent env id a b w h
  run-IsConsistent (Action.delegate s id a) w apart h = delegate-IsConsistent env s id a w h
  run-IsConsistent (Action.revoke_delegate s id) w apart h =
      revoke_delegate-IsConsistent env s id w h
  run-IsConsistent (Action.update_metadata s id m) w apart h =
      update_metadata-IsConsistent env s id m w h
  run-IsConsistent (Action.cancel_auto_renew s id) w apart h =
      cancel_auto_renew-IsConsistent env s id w h
  run-IsConsistent (Action.pause_stream id s) w apart h = pause_stream-IsConsistent env id s w h
  run-IsConsistent (Action.resume_stream id s) w apart h = resume_stream-IsConsistent env id s w h
  run-IsConsistent (Action.archive_stream id a) w apart h = archive_stream-IsConsistent env id a w h
  run-IsConsistent (Action.initialize a v) w apart h =
      frame-IsConsistent (Settings.initialize-core env a v) h
  run-IsConsistent (Action.set_admin a) w apart h =
      frame-IsConsistent (Settings.set_admin-core env a) h
  run-IsConsistent Action.emergency_pause w apart h =
      frame-IsConsistent (Settings.emergency_pause-core env) h
  run-IsConsistent Action.emergency_resume w apart h =
      frame-IsConsistent (Settings.emergency_resume-core env) h
  run-IsConsistent Action.is_paused w apart h =
      dropped-IsConsistent (frame-IsConsistent (is_paused-core) h)
  run-IsConsistent (Action.set_guardian a) w apart h =
      frame-IsConsistent (Settings.set_guardian-core env a) h
  run-IsConsistent (Action.set_governance a) w apart h =
      frame-IsConsistent (Settings.set_governance-core env a) h
  run-IsConsistent (Action.pause a) w apart h = frame-IsConsistent (Settings.pause-core env a) h
  run-IsConsistent (Action.unpause a) w apart h = frame-IsConsistent (Settings.unpause-core env a) h
  run-IsConsistent (Action.add_fee_exempt a) w apart h =
      frame-IsConsistent (Settings.add_fee_exempt-core env a) h
  run-IsConsistent (Action.remove_fee_exempt a) w apart h =
      frame-IsConsistent (Settings.remove_fee_exempt-core env a) h
  run-IsConsistent (Action.upgrade hash) w apart h =
      frame-IsConsistent (Settings.upgrade-core env hash) h
  run-IsConsistent (Action.set_max_streams n) w apart h =
      frame-IsConsistent (Settings.set_max_streams-core env n) h
  run-IsConsistent (Action.set_sender_stream_limit a n) w apart h =
      frame-IsConsistent (Settings.set_sender_stream_limit-core env a n) h
  run-IsConsistent (Action.migrate u v) w apart h =
      frame-IsConsistent (Settings.migrate-core env u v) h
  run-IsConsistent (Action.set_min_duration a n) w apart h =
      frame-IsConsistent (Settings.set_min_duration-core env a n) h
  run-IsConsistent (Action.set_withdrawal_cooldown a n) w apart h =
      frame-IsConsistent (Settings.set_withdrawal_cooldown-core env a n) h
  run-IsConsistent (Action.set_whitelist_enabled a b) w apart h =
      frame-IsConsistent (Settings.set_whitelist_enabled-core env a b) h
  run-IsConsistent (Action.add_to_whitelist a r) w apart h =
      frame-IsConsistent (Settings.add_to_whitelist-core env a r) h
  run-IsConsistent (Action.remove_from_whitelist a r) w apart h =
      frame-IsConsistent (Settings.remove_from_whitelist-core env a r) h
  run-IsConsistent (Action.set_protocol_fee n) w apart h = set_protocol_fee-IsConsistent env n w h
  run-IsConsistent (Action.set_treasury_address a) w apart h =
      frame-IsConsistent (Settings.set_treasury_address-core a) h
  run-IsConsistent (Action.propose_fee_change a n) w apart h =
      propose_fee_change-IsConsistent env a n w h
  run-IsConsistent Action.execute_fee_change w apart h = execute_fee_change-IsConsistent env w h
  run-IsConsistent (Action.set_creation_fee n a) w apart h =
      frame-IsConsistent (Settings.set_creation_fee-core env n a) h
  run-IsConsistent (Action.withdraw_treasury t n a) w apart h =
      frame-IsConsistent (Settings.withdraw_treasury-core env t n a) h
  run-IsConsistent (Action.withdraw_all_from_treasury t a) w apart h =
      dropped-IsConsistent (frame-IsConsistent (Settings.withdraw_all_from_treasury-core env t a) h)

blank-IsListed :
    (owner : Stream → Address) (streams : ℕ → Option Stream) (slots : Slots)
    → ((id : ℕ) → streams id ≡ none)
    → ((a : Address) → slots.count a ≡ none)
    → ((a : Address) (i : ℕ) → slots.slot a i ≡ none)
    → (a : Address) → IsListed owner streams slots a
unfolding get_count
blank-IsListed owner streams slots no_stream no_count no_slot a = record {
  ids = [];
  is = record { counted = rw (no_count a) refl; slots = λ j. no_slot a (0 + j) };
  distinct = tt;
  exact = λ id. rw (no_stream id) refl;
}

-- In every world that the contract reaches by its entry points, with any host and changes outside,
-- if no partial cancellation meets a taken identifier, every stored stream stands under its own
-- identifier, the lists of a sender and of a recipient hold exactly the identifiers of their
-- stored streams, each once, and the protocol fee and a proposed one are at most 10000 basis
-- points.
pub ReachesApart-IsConsistent :
    {C : Type 0} {w : World C} → ReachesApart w → IsConsistent (core_of w)
ReachesApart-IsConsistent (fresh w no_stream c₁ s₁ c₂ s₂ no_fee no_pending) = record {
  own_id = λ id s e. cc (no_stream id, e);
  senders = blank-IsListed _ w.pers.streams w.pers.by_sender no_stream c₁ s₁;
  recipients = blank-IsListed _ w.pers.streams w.pers.by_recipient no_stream c₂ s₂;
  fee_in = rw no_fee (omega arith);
  pending_in = λ bps unlock e. cc;
}
ReachesApart-IsConsistent (called {w} env action before apart e) =
    Ensures-returns (run-IsConsistent env action w apart (ReachesApart-IsConsistent before)) tt _ e
ReachesApart-IsConsistent (elsewhere c before) = ReachesApart-IsConsistent before
