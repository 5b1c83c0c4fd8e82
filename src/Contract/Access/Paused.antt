-- ===== src/Contract/Access/Paused.antt =====
-- contracts/stream/src/lib.rs: which entry points the contract-wide pause stops, and what they answer.
use sorostream_contracts.Prelude.{
  ◌≡◌, refl, Bool, true, false, not, ◌&&◌, ltb, leb, if◌then◌else◌, arith, Bool-cases, inl, inr,
}
use sorostream_contracts.Types.{StreamError, contract_paused}
use sorostream_contracts.Call.{Outcome, ok, err, panic, pure, gets, fail_if, panic_if, ◌>>=◌}
use sorostream_contracts.Env.{Env, World, require_auth}
use sorostream_contracts.Storage.Pausing.{is_paused, get_pause_expiry, is_paused_or_auto_unpause}
use sorostream_contracts.Contract.Create.{create_stream, batch_create_stream}
use sorostream_contracts.Contract.Withdraw.{withdraw, batch_withdraw}
use sorostream_contracts.Contract.Cancel.{recipient_terminate}
use sorostream_contracts.Contract.Manage.{top_up, transfer_recipient, pause_stream, resume_stream}
use sorostream_contracts.Contract.Action.{Action, run}

-- The actions that a pause stops.
abbrev pub guarded : Action → Bool
guarded (Action.create_stream args) = true
guarded (Action.batch_create_stream s rs as' ts d auto ls n) = true
guarded (Action.withdraw id r) = true
guarded (Action.batch_withdraw ids r) = true
guarded (Action.recipient_terminate id r) = true
guarded (Action.top_up id a t n) = true
guarded (Action.transfer_recipient id a b) = true
guarded (Action.pause_stream id s) = true
guarded (Action.resume_stream id s) = true
guarded _ = false

module _ {C : Type 0} (env : Env C) where
  -- The contract is paused, and the pause has not lapsed.
  abbrev pub blocked : World C → Bool
  blocked w =
      is_paused w && not (ltb 0 (get_pause_expiry w) && leb (get_pause_expiry w) env.timestamp)

  -- `create_stream` asks for the authorization first.
  abbrev pub stopped : Action → Outcome StreamError (Unit {0} × World C)
  stopped (Action.create_stream args) =
      if env.authorized args.sender then err contract_paused else panic
  stopped _ = err contract_paused

  is_paused_or_auto_unpause-blocked :
      (w : World C) → blocked w ≡ true → is_paused_or_auto_unpause env w ≡ ok (true, w)
  unfolding is_paused_or_auto_unpause ◌>>=◌ gets pure
  is_paused_or_auto_unpause-blocked w b =
      let set : is_paused w ≡ true = ground arith in
      let lapses : (ltb 0 (get_pause_expiry w) && leb (get_pause_expiry w) env.timestamp) ≡ false =
        ground arith in
      rw (set, lapses) refl

  -- While the contract is paused and the pause has not lapsed, the entry points that create,
  -- withdraw from, top up, hand over, pause, resume or terminate streams answer contract_paused,
  -- but create_stream panics without the authorization of the sender.
  pub run-paused :
      (action : Action) (w : World C)
      → blocked w ≡ true
      → guarded action ≡ true
      → run env action w ≡ stopped action
  unfolding run create_stream batch_create_stream withdraw batch_withdraw recipient_terminate top_up
      transfer_recipient pause_stream resume_stream require_auth ◌>>=◌ fail_if panic_if
  run-paused (Action.create_stream args) w b g = elim (Bool-cases (env.authorized args.sender)) [
    | inl auth ↦ rw (auth, is_paused_or_auto_unpause-blocked w b) refl
    | inr no_auth ↦ rw no_auth refl
  ]
  run-paused (Action.batch_create_stream s rs as' ts d auto ls n) w b g =
      rw (is_paused_or_auto_unpause-blocked w b) refl
  run-paused (Action.withdraw id r) w b g = rw (is_paused_or_auto_unpause-blocked w b) refl
  run-paused (Action.batch_withdraw ids r) w b g = rw (is_paused_or_auto_unpause-blocked w b) refl
  run-paused (Action.recipient_terminate id r) w b g =
      rw (is_paused_or_auto_unpause-blocked w b) refl
  run-paused (Action.top_up id a t n) w b g = rw (is_paused_or_auto_unpause-blocked w b) refl
  run-paused (Action.transfer_recipient id x y) w b g =
      rw (is_paused_or_auto_unpause-blocked w b) refl
  run-paused (Action.pause_stream id s) w b g = rw (is_paused_or_auto_unpause-blocked w b) refl
  run-paused (Action.resume_stream id s) w b g = rw (is_paused_or_auto_unpause-blocked w b) refl
  run-paused _ w b g = absurd (cc g)
