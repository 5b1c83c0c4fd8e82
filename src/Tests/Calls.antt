-- ===== src/Tests/Calls.antt =====
-- The theorems on access, consistency and the interface of the stream contract at concrete worlds.
use sorostream_contracts.Prelude.{
  ◌+◌, ◌-◌, ◌*◌, ◌≡◌, refl, true, false, ◌&&◌, ltb, some, [], ◌∷◌, arith,
}
use sorostream_contracts.Prelude.Int.{pos}
use sorostream_contracts.Prelude.Int.{◌-ℤ◌}
use sorostream_contracts.Prelude.Machine.{div_i128, checked_sub_i128, saturating_add_u64}
use sorostream_contracts.Types.{stream_withdrawn, contract_paused}
use sorostream_contracts.Call.{
  ok, err, pure, gets, or_err, or_panic, modify, fail_if, panic_if, when, ◌>>=◌,
}
use sorostream_contracts.Call.Rules.{Ensures}
use sorostream_contracts.Env.{
  World, require_auth, transfer, publish, set_chain, try_invoke, on_stream_withdraw,
}
use sorostream_contracts.Storage.Config.{
  is_whitelist_enabled, read_min_duration, get_creation_fee_xlm, get_max_streams_per_sender,
  get_protocol_fee, get_withdrawal_cooldown, get_treasury,
}
use sorostream_contracts.Storage.Access.{
  nonce_used, mark_nonce_used, is_whitelisted, effective_sender_limit, get_sender_limit,
  is_fee_exempt,
}
use sorostream_contracts.Storage.Pausing.{is_paused_or_auto_unpause, is_paused, get_pause_expiry}
use sorostream_contracts.Storage.Streams.{
  load_stream, save_stream, stream_exists, derive_stream_id, index_global_stream,
  get_global_stream_count,
}
use sorostream_contracts.Storage.Index.{
  index_by_sender, index_by_recipient, get_sender_stream_count, append_id, get_count,
}
use sorostream_contracts.Storage.Index.Distinct.{Distinct}
use sorostream_contracts.Contract.Action.{Action, run}
use sorostream_contracts.Contract.Create.{create_stream, batch_create_stream, store_new}
use sorostream_contracts.Contract.Payment.{pay_claim, pay_fee_announced, fee_on}
use sorostream_contracts.Contract.Withdraw.{withdraw}
use sorostream_contracts.Contract.Manage.{transfer_recipient}
use sorostream_contracts.Contract.Queries.{
  get_active_streams_by_sender, get_active_streams_by_recipient,
}
use sorostream_contracts.Contract.Frames.{core_of}
use sorostream_contracts.Contract.Consistent.{
  IsConsistent, ConsistentAfter, sender_of, recipient_of,
}
use sorostream_contracts.Contract.Consistent.Create.{batch_create_stream-IsConsistent}
use sorostream_contracts.Contract.Consistent.Manage.{transfer_recipient-IsConsistent}
use sorostream_contracts.Contract.Consistent.Listing.{
  find_stream, stream_ids, active_of, get_active_streams_by_sender-exact,
  get_active_streams_by_recipient-exact,
}
use sorostream_contracts.Contract.Consistent.Reach.{
  ReachesApart, fresh, called, elsewhere, ReachesApart-IsConsistent,
}
use sorostream_contracts.Contract.Access.{permits}
use sorostream_contracts.Contract.Access.Run.{run-permitted}
use sorostream_contracts.Contract.Access.Paused.{blocked, run-paused}
use sorostream_contracts.Contract.Created.{Creates, create_stream-Creates}
use sorostream_contracts.Contract.Settle.Withdrawn.{withdraw-pays}
use sorostream_contracts.Contract.Interface.{sorostream_contract}
use sorostream_contracts.Contract.Interface.Laws.{IsSoroStream}
use sorostream_contracts.Contract.Interface.Kept.{sorostream_contract-IsSoroStream}
use sorostream_contracts.Tests.Data.{
  host_at, no_settings, empty_world, some_args, hourly, hourly_world, hourly-IsSound,
}
use sorostream_contracts.Tests.Streams.{created, create_returns, first_id}

empty_reached : ReachesApart empty_world
empty_reached =
    fresh empty_world (λ id. refl) (λ a. refl) (λ a i. refl) (λ a. refl) (λ a i. refl) refl refl

created_apart : ReachesApart created
created_apart =
    called (host_at 1000) (Action.create_stream some_args) empty_reached tt create_returns

ReachesApart-IsConsistent_example : IsConsistent (core_of (set_chain tt created))
ReachesApart-IsConsistent_example = ReachesApart-IsConsistent (elsewhere tt created_apart)

created-IsConsistent : IsConsistent (core_of created)
created-IsConsistent = ReachesApart-IsConsistent created_apart

batch_create_stream-IsConsistent_example :
    Ensures
      (batch_create_stream
        (host_at 1000)
        1
        (2 ∷ 3 ∷ [])
        (pos 7200 ∷ pos 3600 ∷ [])
        (9 ∷ 9 ∷ [])
        3600
        true
        (0 ∷ 0 ∷ [])
        0)
      created
      ConsistentAfter
batch_create_stream-IsConsistent_example =
    batch_create_stream-IsConsistent (host_at 1000) 1 (2 ∷ 3 ∷ []) (pos 7200 ∷ pos 3600 ∷ [])
      (9 ∷ 9 ∷ []) 3600 true (0 ∷ 0 ∷ []) 0 created created-IsConsistent

transfer_recipient-IsConsistent_example :
    Ensures (transfer_recipient (host_at 2000) first_id 2 3) created ConsistentAfter
transfer_recipient-IsConsistent_example =
    transfer_recipient-IsConsistent (host_at 2000) first_id 2 3 created created-IsConsistent

get_active_streams_by_sender-exact_example :
    (find_stream first_id (get_active_streams_by_sender 1 created)
      ≡ active_of sender_of 1 (load_stream created first_id))
    × Distinct (stream_ids (get_active_streams_by_sender 1 created))
get_active_streams_by_sender-exact_example =
    get_active_streams_by_sender-exact created created-IsConsistent 1 first_id

get_active_streams_by_recipient-exact_example :
    (find_stream first_id (get_active_streams_by_recipient 2 created)
      ≡ active_of recipient_of 2 (load_stream created first_id))
    × Distinct (stream_ids (get_active_streams_by_recipient 2 created))
get_active_streams_by_recipient-exact_example =
    get_active_streams_by_recipient-exact created created-IsConsistent 2 first_id

run-permitted_example : permits (host_at 1000) empty_world (Action.create_stream some_args) ≡ true
run-permitted_example =
    run-permitted (host_at 1000) (Action.create_stream some_args) empty_world created create_returns

abbrev stopped_world : World (Unit {0})
stopped_world = record empty_world {
  inst = record no_settings { paused = some true; pause_expires = some 5000 };
}

still_blocked : blocked (host_at 2000) stopped_world ≡ true
unfolding is_paused get_pause_expiry
still_blocked = refl

run-paused_example : run (host_at 2000) (Action.withdraw 7 2) stopped_world ≡ err contract_paused
run-paused_example =
    run-paused (host_at 2000) (Action.withdraw 7 2) stopped_world still_blocked refl

first_created : create_stream (host_at 1000) some_args empty_world ≡ ok (first_id, created)
unfolding run create_stream store_new pure gets or_err or_panic modify fail_if panic_if when ◌>>=◌
    require_auth transfer publish is_whitelist_enabled read_min_duration get_creation_fee_xlm
    get_max_streams_per_sender nonce_used mark_nonce_used is_whitelisted effective_sender_limit
    get_sender_limit is_paused_or_auto_unpause is_paused save_stream stream_exists derive_stream_id
    index_global_stream get_global_stream_count index_by_sender index_by_recipient
    get_sender_stream_count append_id get_count div_i128
first_created = refl

create_stream-Creates_example : Creates (host_at 1000) some_args empty_world first_id created
create_stream-Creates_example =
    create_stream-Creates (host_at 1000) some_args empty_world created first_id first_created

running : is_paused hourly_world ≡ false
unfolding is_paused save_stream
running = refl

no_cooldown :
    (ltb 0 (get_withdrawal_cooldown hourly_world)
      && ltb 2000 (saturating_add_u64 1000 (get_withdrawal_cooldown hourly_world)))
    ≡ false
unfolding get_withdrawal_cooldown save_stream
no_cooldown = refl

stored_hourly : load_stream hourly_world 7 ≡ some hourly
unfolding load_stream save_stream
stored_hourly = refl

claim_paid :
    pay_claim (host_at 2000) pay_fee_announced hourly 7 2 (pos (2 * (2000 - 1000))) hourly_world
    ≡ ok (pos 2000, hourly_world)
unfolding pay_claim fee_on pure gets or_err or_panic modify fail_if when ◌>>=◌ transfer
    get_protocol_fee get_treasury is_fee_exempt save_stream checked_sub_i128 ◌-ℤ◌ set_chain
claim_paid = refl

withdraw-pays_example :
    withdraw (host_at 2000) 7 2 hourly_world
    ≡ ok (
      tt,
      publish (stream_withdrawn 7 2 (pos (2 * (2000 - 1000))) 2000) (
          save_stream
            (record hourly {
              total_withdrawn = pos (0 + 2 * (2000 - 1000));
              last_withdraw_time = 2000;
            })
            (try_invoke (host_at 2000) 2 (on_stream_withdraw 7 (pos 2000)) hourly_world)),
    )
withdraw-pays_example =
    withdraw-pays (host_at 2000) 7 2 hourly (pos 2000) hourly_world hourly_world hourly-IsSound
      (omega arith) running refl stored_hourly refl refl (omega arith) no_cooldown (omega arith)
      (omega arith) (omega arith) claim_paid

sorostream_contract-IsSoroStream_example : IsSoroStream (sorostream_contract (host_at 1000))
sorostream_contract-IsSoroStream_example = sorostream_contract-IsSoroStream (host_at 1000)
