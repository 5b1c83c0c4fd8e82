-- ===== src/Contract/Access/Run.antt =====
-- contracts/stream/src/lib.rs, all the entry points that write together: who may call which.
use sorostream_contracts.Prelude.{◌≡◌, refl, true}
use sorostream_contracts.Call.{ok}
use sorostream_contracts.Call.Rules.{Ensures-returns}
use sorostream_contracts.Env.{Env, World}
use sorostream_contracts.Contract.Action.{Action, run}
use sorostream_contracts.Contract.Admin.{
  set_admin, emergency_pause, emergency_resume, set_guardian, set_governance, add_fee_exempt,
  remove_fee_exempt, set_max_streams, set_sender_stream_limit, set_withdrawal_cooldown,
  set_whitelist_enabled, add_to_whitelist, remove_from_whitelist,
}
use sorostream_contracts.Contract.Fees.{
  set_creation_fee, withdraw_treasury, withdraw_all_from_treasury,
}
use sorostream_contracts.Contract.Access.{permits}
use sorostream_contracts.Contract.Access.Streams.{
  settled, at_once, Permitted, create_stream-Permitted, batch_create_stream-Permitted,
  withdraw-Permitted, batch_withdraw-Permitted, cancel_stream-Permitted,
  recipient_terminate-Permitted, batch_cancel_stream-Permitted, partial_cancel_stream-Permitted,
  top_up-Permitted, transfer_recipient-Permitted, delegate-Permitted, revoke_delegate-Permitted,
  update_metadata-Permitted, cancel_auto_renew-Permitted, pause_stream-Permitted,
  resume_stream-Permitted, archive_stream-Permitted,
}
use sorostream_contracts.Contract.Access.Settings.{
  admin_first, both_first, initialize-Permitted, pause-Permitted, unpause-Permitted,
  upgrade-Permitted, migrate-Permitted, propose_fee_change-Permitted, execute_fee_change-Permitted,
  set_min_duration-Permitted,
}

module _ {C : Type 0} (env : Env C) where
  permitted : (action : Action) (w : World C) → Permitted env (run env action) w action
  unfolding run set_admin emergency_pause emergency_resume set_guardian set_governance
      add_fee_exempt remove_fee_exempt set_max_streams set_sender_stream_limit
      set_withdrawal_cooldown set_whitelist_enabled add_to_whitelist remove_from_whitelist
      set_creation_fee withdraw_treasury withdraw_all_from_treasury
  permitted (Action.create_stream args) w = at_once _ (create_stream-Permitted env w args)
  permitted (Action.batch_create_stream s rs as' ts d auto ls n) w =
      at_once _ (batch_create_stream-Permitted env w s rs as' ts d auto ls n)
  permitted (Action.withdraw id r) w = withdraw-Permitted env w id r
  permitted (Action.batch_withdraw ids r) w = at_once _ (batch_withdraw-Permitted env w ids r)
  permitted (Action.cancel_stream id a) w = cancel_stream-Permitted env w id a
  permitted (Action.recipient_terminate id r) w = recipient_terminate-Permitted env w id r
  permitted (Action.batch_cancel_stream ids s) w =
      at_once _ (batch_cancel_stream-Permitted env w ids s)
  permitted (Action.partial_cancel_stream id a n) w =
      at_once _ (partial_cancel_stream-Permitted env w id a n)
  permitted (Action.top_up id a t n) w = top_up-Permitted env w id a t n
  permitted (Action.transfer_recipient id a b) w = transfer_recipient-Permitted env w id a b
  permitted (Action.delegate s id a) w = delegate-Permitted env w s id a
  permitted (Action.revoke_delegate s id) w = revoke_delegate-Permitted env w s id
  permitted (Action.update_metadata s id m) w = update_metadata-Permitted env w s id m
  permitted (Action.cancel_auto_renew s id) w = cancel_auto_renew-Permitted env w s id
  permitted (Action.pause_stream id s) w = pause_stream-Permitted env w id s
  permitted (Action.resume_stream id s) w = resume_stream-Permitted env w id s
  permitted (Action.archive_stream id a) w = archive_stream-Permitted env w id a
  permitted (Action.initialize a v) w = initialize-Permitted env w a v
  permitted (Action.set_admin a) w = admin_first env w _
  permitted Action.emergency_pause w = admin_first env w _
  permitted Action.emergency_resume w = admin_first env w _
  permitted Action.is_paused w = settled refl
  permitted (Action.set_guardian a) w = admin_first env w _
  permitted (Action.set_governance a) w = admin_first env w _
  permitted (Action.pause a) w = pause-Permitted env w a
  permitted (Action.unpause a) w = unpause-Permitted env w a
  permitted (Action.add_fee_exempt a) w = admin_first env w _
  permitted (Action.remove_fee_exempt a) w = admin_first env w _
  permitted (Action.upgrade h) w = upgrade-Permitted env w h
  permitted (Action.set_max_streams n) w = admin_first env w _
  permitted (Action.set_sender_stream_limit a n) w = admin_first env w _
  permitted (Action.migrate u v) w = migrate-Permitted env w u v
  permitted (Action.set_min_duration a n) w = set_min_duration-Permitted env w a n
  permitted (Action.set_withdrawal_cooldown a n) w = both_first env w a _
  permitted (Action.set_whitelist_enabled a b) w = both_first env w a _
  permitted (Action.add_to_whitelist a r) w = both_first env w a _
  permitted (Action.remove_from_whitelist a r) w = both_first env w a _
  permitted (Action.set_protocol_fee n) w = settled refl
  permitted (Action.set_treasury_address a) w = settled refl
  permitted (Action.propose_fee_change a n) w = propose_fee_change-Permitted env w a n
  permitted Action.execute_fee_change w = execute_fee_change-Permitted env w
  permitted (Action.set_creation_fee n a) w = admin_first env w _
  permitted (Action.withdraw_treasury t n a) w = admin_first env w _
  permitted (Action.withdraw_all_from_treasury t a) w = at_once _ (admin_first env w _)

  -- If an entry point that writes returns, then the table of access permits the call in the world
  -- before it: the addresses that the table names have authorized it, they stand to the stored
  -- stream or to the stored roles as the table says, and a nonce of a creation is unspent, a batch
  -- nonce the current one, a migration a new one and a proposed fee unlocked.
  pub run-permitted :
      (action : Action) (w w' : World C)
      → run env action w ≡ ok (tt, w')
      → permits env w action ≡ true
  run-permitted action w w' e = Ensures-returns (permitted action w) tt w' e
