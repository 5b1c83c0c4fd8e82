-- ===== src/Contract/Sound/Reach.antt =====
-- contracts/stream/src/lib.rs, all the entry points that write together: the accounting invariant.
use sorostream_contracts.Prelude.{ℕ, ◌+◌, ◌*◌, ◌≤◌, ◌≡◌, subst, sym, true, Option, some, arith}
use sorostream_contracts.Prelude.Int.{ℤ, pos}
use sorostream_contracts.Prelude.Machine.{u64_max}
use sorostream_contracts.Types.{Stream, is_live}
use sorostream_contracts.Call.Rules.{
  Ensures, Ensures-bind, Ensures-weaken, Ensures-pure, Ensures-returns,
}
use sorostream_contracts.Call.Unchanged.{Unchanged, Unchanged-part}
use sorostream_contracts.Env.{Env, World, Exec}
use sorostream_contracts.Contract.Action.{
  Action, run, drop_result, Reaches, fresh, called, elsewhere,
}
use sorostream_contracts.Contract.Frames.{core_of, streams_of, is_paused_or_auto_unpause-core}
use sorostream_contracts.Contract.Frames.Settings
use sorostream_contracts.Contract.Admin.{is_paused}
use sorostream_contracts.Storage.Streams.{load_stream}
use sorostream_contracts.Vesting.{compute_earned}
use sorostream_contracts.Vesting.Bounds.{elapsed}
use sorostream_contracts.Contract.Cancel.{stream_now}
use sorostream_contracts.Contract.Sound.{IsSound, AllSound, earned_due, earned_covered}
use sorostream_contracts.Contract.Sound.Withdraw.{SoundAfter, withdraw-AllSound}
use sorostream_contracts.Contract.Sound.Batch.{batch_withdraw-AllSound}
use sorostream_contracts.Contract.Sound.Create.{
  create_stream-AllSound, batch_create_stream-AllSound,
}
use sorostream_contracts.Contract.Sound.Cancel.{
  cancel_stream-AllSound, recipient_terminate-AllSound, batch_cancel_stream-AllSound,
  partial_cancel_stream-AllSound, archive_stream-AllSound,
}
use sorostream_contracts.Contract.Sound.Manage.{
  pause_stream-AllSound, resume_stream-AllSound, update_metadata-AllSound,
  cancel_auto_renew-AllSound, delegate-AllSound, revoke_delegate-AllSound,
}
use sorostream_contracts.Contract.Sound.Transfer.{top_up-AllSound, transfer_recipient-AllSound}

later-IsSound : (t u : ℕ) (s : Stream) → t ≤ u → IsSound t s → IsSound u s
later-IsSound t u s le h = record {
  rate = h.rate;
  deposited = h.deposited;
  withdrawn = h.withdrawn;
  rate_eq = h.rate_eq;
  deposit_eq = h.deposit_eq;
  withdrawn_eq = h.withdrawn_eq;
  rate_pos = h.rate_pos;
  started = h.started;
  not_over = h.not_over;
  not_ahead = omega (arith, h.not_ahead);
  pause_after = λ p. let at = h.pause_after p in (at.0, omega arith);
  withdrawn_le = h.withdrawn_le;
  covered = h.covered;
}

later-AllSound : (t u : ℕ) (f : ℕ → Option Stream) → t ≤ u → AllSound t f → AllSound u f
later-AllSound t u f le h = record {
  each = λ id s e. let x = h.each id s e in (x.0, λ live. later-IsSound t u s le (x.1 live));
}

module _ {C : Type 0} (env : Env C) where
  frame_streams-AllSound :
      {A : Type 0} {m : Exec C A} {w : World C}
      → Unchanged streams_of m
      → AllSound env.timestamp (streams_of w)
      → Ensures m w (SoundAfter env)
  frame_streams-AllSound {w} k h =
      Ensures-weaken (k.at w) (λ a w' e. subst (AllSound env.timestamp) (sym e) h)

  frame-AllSound :
      {A : Type 0} {m : Exec C A} {w : World C}
      → Unchanged core_of m
      → AllSound env.timestamp (streams_of w)
      → Ensures m w (SoundAfter env)
  frame-AllSound k h = frame_streams-AllSound (Unchanged-part core_of (λ c. c.streams) k) h

  dropped-AllSound :
      {A : Type 0} {m : Exec C A} {w : World C}
      → Ensures m w (SoundAfter env)
      → Ensures (drop_result m) w (SoundAfter env)
  dropped-AllSound h = Ensures-bind _ h λ a w' h'. Ensures-pure _ h'

  is_paused-core : Unchanged core_of (is_paused env)
  unfolding is_paused
  is_paused-core = is_paused_or_auto_unpause-core env

  -- On a clock of 64 bits, if all stored streams are sound at the time of the call, then they are
  -- after a call of any entry point that writes, if it returns.
  pub run-AllSound :
      (action : Action) (w : World C)
      → env.timestamp ≤ u64_max
      → AllSound env.timestamp (streams_of w)
      → Ensures (run env action) w (SoundAfter env)
  unfolding run
  run-AllSound (Action.create_stream args) w clock h =
      dropped-AllSound (create_stream-AllSound env args w h)
  run-AllSound (Action.batch_create_stream s rs as' ts d auto ls n) w clock h =
      dropped-AllSound (batch_create_stream-AllSound env s rs as' ts d auto ls n w h)
  run-AllSound (Action.withdraw id r) w clock h = withdraw-AllSound env id r w h
  run-AllSound (Action.batch_withdraw ids r) w clock h =
      dropped-AllSound (batch_withdraw-AllSound env ids r w h)
  run-AllSound (Action.cancel_stream id a) w clock h = cancel_stream-AllSound env id a w h
  run-AllSound (Action.recipient_terminate id r) w clock h =
      recipient_terminate-AllSound env id r w h
  run-AllSound (Action.batch_cancel_stream ids s) w clock h =
      dropped-AllSound (batch_cancel_stream-AllSound env ids s w h)
  run-AllSound (Action.partial_cancel_stream id a n) w clock h =
      dropped-AllSound (partial_cancel_stream-AllSound env id a n w h)
  run-AllSound (Action.top_up id a t n) w clock h = top_up-AllSound env id a t n w h
  run-AllSound (Action.transfer_recipient id a b) w clock h =
      transfer_recipient-AllSound env id a b w h
  run-AllSound (Action.delegate s id a) w clock h = delegate-AllSound env s id a w h
  run-AllSound (Action.revoke_delegate s id) w clock h = revoke_delegate-AllSound env s id w h
  run-AllSound (Action.update_metadata s id m) w clock h = update_metadata-AllSound env s id m w h
  run-AllSound (Action.cancel_auto_renew s id) w clock h = cancel_auto_renew-AllSound env s id w h
  run-AllSound (Action.pause_stream id s) w clock h = pause_stream-AllSound env id s w h
  run-AllSound (Action.resume_stream id s) w clock h = resume_stream-AllSound env id s w clock h
  run-AllSound (Action.archive_stream id a) w clock h = archive_stream-AllSound env id a w h
  run-AllSound (Action.initialize a v) w clock h =
      frame-AllSound (Settings.initialize-core env a v) h
  run-AllSound (Action.set_admin a) w clock h = frame-AllSound (Settings.set_admin-core env a) h
  run-AllSound Action.emergency_pause w clock h =
      frame-AllSound (Settings.emergency_pause-core env) h
  run-AllSound Action.emergency_resume w clock h =
      frame-AllSound (Settings.emergency_resume-core env) h
  run-AllSound Action.is_paused w clock h = dropped-AllSound (frame-AllSound (is_paused-core) h)
  run-AllSound (Action.set_guardian a) w clock h =
      frame-AllSound (Settings.set_guardian-core env a) h
  run-AllSound (Action.set_governance a) w clock h =
      frame-AllSound (Settings.set_governance-core env a) h
  run-AllSound (Action.pause a) w clock h = frame-AllSound (Settings.pause-core env a) h
  run-AllSound (Action.unpause a) w clock h = frame-AllSound (Settings.unpause-core env a) h
  run-AllSound (Action.add_fee_exempt a) w clock h =
      frame-AllSound (Settings.add_fee_exempt-core env a) h
  run-AllSound (Action.remove_fee_exempt a) w clock h =
      frame-AllSound (Settings.remove_fee_exempt-core env a) h
  run-AllSound (Action.upgrade hash) w clock h = frame-AllSound (Settings.upgrade-core env hash) h
  run-AllSound (Action.set_max_streams n) w clock h =
      frame-AllSound (Settings.set_max_streams-core env n) h
  run-AllSound (Action.set_sender_stream_limit a n) w clock h =
      frame-AllSound (Settings.set_sender_stream_limit-core env a n) h
  run-AllSound (Action.migrate u v) w clock h = frame-AllSound (Settings.migrate-core env u v) h
  run-AllSound (Action.set_min_duration a n) w clock h =
      frame-AllSound (Settings.set_min_duration-core env a n) h
  run-AllSound (Action.set_withdrawal_cooldown a n) w clock h =
      frame-AllSound (Settings.set_withdrawal_cooldown-core env a n) h
  run-AllSound (Action.set_whitelist_enabled a b) w clock h =
      frame-AllSound (Settings.set_whitelist_enabled-core env a b) h
  run-AllSound (Action.add_to_whitelist a r) w clock h =
      frame-AllSound (Settings.add_to_whitelist-core env a r) h
  run-AllSound (Action.remove_from_whitelist a r) w clock h =
      frame-AllSound (Settings.remove_from_whitelist-core env a r) h
  run-AllSound (Action.set_protocol_fee n) w clock h =
      frame_streams-AllSound (Settings.set_protocol_fee-streams n) h
  run-AllSound (Action.set_treasury_address a) w clock h =
      frame-AllSound (Settings.set_treasury_address-core a) h
  run-AllSound (Action.propose_fee_change a n) w clock h =
      frame_streams-AllSound (Settings.propose_fee_change-streams env a n) h
  run-AllSound Action.execute_fee_change w clock h =
      frame_streams-AllSound (Settings.execute_fee_change-streams env) h
  run-AllSound (Action.set_creation_fee n a) w clock h =
      frame-AllSound (Settings.set_creation_fee-core env n a) h
  run-AllSound (Action.withdraw_treasury t n a) w clock h =
      frame-AllSound (Settings.withdraw_treasury-core env t n a) h
  run-AllSound (Action.withdraw_all_from_treasury t a) w clock h =
      dropped-AllSound (frame-AllSound (Settings.withdraw_all_from_treasury-core env t a) h)

-- In every world that the contract reaches by its entry points, at ledgers of increasing 64-bit
-- times and with any host and changes outside, every stored stream stands under its own
-- identifier, and if it is active or paused it is sound at the time of the last ledger.
pub Reaches-AllSound : {C : Type 0} {t : ℕ} {w : World C} → Reaches t w → AllSound t (streams_of w)
Reaches-AllSound (fresh t w empty) = record { each = λ id s e. cc (empty id, e) }
Reaches-AllSound (called {t} {w} env action before le clock e) =
    Ensures-returns
      (run-AllSound env action w clock
        (later-AllSound t env.timestamp _ le (Reaches-AllSound before)))
      tt _ e
Reaches-AllSound (elsewhere c before) = Reaches-AllSound before

-- In every world that the contract reaches, for a stream that is stored as active or paused, the
-- deposit and the amount withdrawn are not negative, and what compute_earned answers for the
-- present, or for the time of the pause, is a number that is covered by what is left of the
-- deposit.
pub Reaches-covered :
    {C : Type 0} (env : Env C) {w : World C}
    → Reaches env.timestamp w
    → (id : ℕ) (s : Stream) (c : ℤ) → load_stream w id ≡ some s
    → is_live s.status ≡ true
    → compute_earned s.flow_rate (stream_now env s) s.end_time s.last_withdraw_time ≡ some c
    → (d p n : ℕ) × (s.deposit ≡ pos d) × (s.total_withdrawn ≡ pos p) × (c ≡ pos n) × (p + n ≤ d)
unfolding load_stream
Reaches-covered env {w} r id s c found live due =
    let h = ((Reaches-AllSound r).each id s found).1 live in
    let e = earned_due env.timestamp (stream_now env s) s h due in
    (
      h.deposited,
      h.withdrawn,
      h.rate * elapsed (stream_now env s) s.end_time s.last_withdraw_time,
      h.deposit_eq,
      h.withdrawn_eq,
      e,
      earned_covered env.timestamp (stream_now env s) s h,
    )
