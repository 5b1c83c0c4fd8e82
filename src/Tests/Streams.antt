-- ===== src/Tests/Streams.antt =====
-- The theorems on the stream contract at concrete worlds.
use sorostream_contracts.Prelude.{ℕ, ◌≡◌, refl, true, false, some, [], ◌∷◌, ◌+◌, ◌≤◌, arith}
use sorostream_contracts.Prelude.Int.{pos, ltb_ℤ, ◌*ℤ◌}
use sorostream_contracts.Types.{Stream, stream_cancelled, stream_terminated_by_recipient}
use sorostream_contracts.Call.{
  ok, pure, gets, or_err, or_panic, modify, fail_if, panic_if, when, ◌>>=◌,
}
use sorostream_contracts.Call.Rules.{Ensures}
use sorostream_contracts.Env.{Env, World, require_auth, transfer, publish}
use sorostream_contracts.Storage.Config.{
  get_protocol_fee, is_whitelist_enabled, read_min_duration, get_creation_fee_xlm,
  get_max_streams_per_sender,
}
use sorostream_contracts.Storage.Access.{
  nonce_used, mark_nonce_used, is_whitelisted, effective_sender_limit, get_sender_limit,
}
use sorostream_contracts.Storage.Pausing.{is_paused_or_auto_unpause, is_paused, max_pause_duration}
use sorostream_contracts.Storage.Streams.{
  load_stream, save_stream, stream_exists, remove_stream, derive_stream_id, index_global_stream,
  get_global_stream_count,
}
use sorostream_contracts.Storage.Index.{
  unindex_by_sender, unindex_by_recipient, index_by_sender, index_by_recipient,
  get_sender_stream_count, append_id, get_count,
}
use sorostream_contracts.Prelude.Machine.{div_i128, checked_mul_i128}
use sorostream_contracts.Contract.Action.{Action, run, Reaches, fresh, called}
use sorostream_contracts.Contract.Create.{create_stream, store_new, new_stream}
use sorostream_contracts.Contract.Sound.{AllSound}
use sorostream_contracts.Contract.Sound.Reach.{Reaches-AllSound, Reaches-covered, run-AllSound}
use sorostream_contracts.Vesting.{compute_earned}
use sorostream_contracts.Contract.Admin
use sorostream_contracts.Contract.Admin.{emergency_pause, pause}
use sorostream_contracts.Contract.Payment.{may_manage, pay_claim, pay_fee_announced}
use sorostream_contracts.Contract.Withdraw.{withdraw, batch_withdraw}
use sorostream_contracts.Contract.Cancel.{
  pay_out, cancel_stream, partial_cancel_stream, recipient_terminate,
}
use sorostream_contracts.Contract.Manage.{top_up, resume_stream}
use sorostream_contracts.Contract.Fees.{fee_timelock, propose_fee_change, execute_fee_change}
use sorostream_contracts.Contract.Sound.Withdraw.{SoundAfter, withdraw-AllSound}
use sorostream_contracts.Contract.Sound.Batch.{batch_withdraw-AllSound}
use sorostream_contracts.Contract.Sound.Create.{create_stream-AllSound}
use sorostream_contracts.Contract.Sound.Cancel.{partial_cancel_stream-AllSound}
use sorostream_contracts.Contract.Sound.Manage.{resume_stream-AllSound}
use sorostream_contracts.Contract.Sound.Transfer.{top_up-AllSound}
use sorostream_contracts.Contract.Settle.{cancel_stream-settles}
use sorostream_contracts.Contract.Settle.Replaced.{HasRoom, partial_cancel_stream-returns}
use sorostream_contracts.Contract.Settle.Parted.{Parts, partial_cancel_stream-Parts}
use sorostream_contracts.Contract.Settle.Terminated.{recipient_terminate-settles}
use sorostream_contracts.Contract.Timelock.{
  timelocked, paused_until, propose_fee_change-timelocked, pause-paused_until,
}
use sorostream_contracts.Contract.Payment.Split.{fee_due, pay_claim-splits}
use sorostream_contracts.Contract.Frames.{streams_of}
use sorostream_contracts.Tests.Data.{
  host_at, no_settings, empty_world, some_args, world_after, hourly, hourly_world, halted_world,
  hourly-IsSound, hourly_world-AllSound, halted_world-AllSound,
}

abbrev pub created : World (Unit {0})
created = world_after (run (host_at 1000) (Action.create_stream some_args) empty_world)

pub create_returns :
    run (host_at 1000) (Action.create_stream some_args) empty_world ≡ ok (tt, created)
unfolding run create_stream store_new pure gets or_err or_panic modify fail_if panic_if when ◌>>=◌
    require_auth transfer publish is_whitelist_enabled read_min_duration get_creation_fee_xlm
    get_max_streams_per_sender nonce_used mark_nonce_used is_whitelisted effective_sender_limit
    get_sender_limit is_paused_or_auto_unpause is_paused save_stream stream_exists derive_stream_id
    index_global_stream get_global_stream_count index_by_sender index_by_recipient
    get_sender_stream_count append_id get_count div_i128
create_returns = refl

created_reached : Reaches 1000 created
created_reached =
    called (host_at 1000) (Action.create_stream some_args) (fresh 0 empty_world (λ id. refl))
      (omega arith) (omega arith) create_returns

Reaches-AllSound_example : AllSound 1000 (streams_of created)
Reaches-AllSound_example = Reaches-AllSound created_reached

asked_later : run (host_at 2000) Action.is_paused created ≡ ok (tt, created)
unfolding run create_stream store_new pure gets or_err or_panic modify fail_if panic_if when ◌>>=◌
    require_auth transfer publish is_whitelist_enabled read_min_duration get_creation_fee_xlm
    get_max_streams_per_sender nonce_used mark_nonce_used is_whitelisted effective_sender_limit
    get_sender_limit is_paused_or_auto_unpause is_paused save_stream stream_exists derive_stream_id
    index_global_stream get_global_stream_count index_by_sender index_by_recipient
    get_sender_stream_count append_id get_count div_i128 Admin.is_paused
asked_later = refl

reached_later : Reaches 2000 created
reached_later =
    called (host_at 2000) Action.is_paused created_reached (omega arith) (omega arith) asked_later

abbrev pub first_id : ℕ
first_id = derive_stream_id (host_at 1000) 1 2 1000 0

abbrev pub first_stream : Stream
first_stream = new_stream some_args first_id (pos 2) 1000 1060 4600

first_stored : load_stream created first_id ≡ some first_stream
unfolding load_stream run create_stream store_new pure gets or_err or_panic modify fail_if panic_if
    when ◌>>=◌ require_auth transfer publish is_whitelist_enabled read_min_duration
    get_creation_fee_xlm get_max_streams_per_sender nonce_used mark_nonce_used is_whitelisted
    effective_sender_limit get_sender_limit is_paused_or_auto_unpause is_paused save_stream
    stream_exists derive_stream_id index_global_stream get_global_stream_count index_by_sender
    index_by_recipient get_sender_stream_count append_id get_count div_i128
first_stored = refl

first_earned : compute_earned (pos 2) 2000 4600 1000 ≡ some (pos 2000)
unfolding compute_earned checked_mul_i128 ◌*ℤ◌
first_earned = refl

Reaches-covered_example :
    (d : ℕ) × (p : ℕ) × (n : ℕ) × (first_stream.deposit ≡ pos d)
    × (first_stream.total_withdrawn ≡ pos p)
    × (pos 2000 ≡ pos n)
    × (p + n ≤ d)
Reaches-covered_example =
    Reaches-covered (host_at 2000) reached_later first_id first_stream (pos 2000) first_stored refl
      first_earned

withdraw-AllSound_example :
    Ensures (withdraw (host_at 2000) 7 2) hourly_world (SoundAfter (host_at 2000))
withdraw-AllSound_example = withdraw-AllSound (host_at 2000) 7 2 hourly_world hourly_world-AllSound

batch_withdraw-AllSound_example :
    Ensures (batch_withdraw (host_at 2000) (7 ∷ 8 ∷ []) 2) hourly_world (SoundAfter (host_at 2000))
batch_withdraw-AllSound_example =
    batch_withdraw-AllSound (host_at 2000) (7 ∷ 8 ∷ []) 2 hourly_world hourly_world-AllSound

partial_cancel_stream-AllSound_example :
    Ensures
      (partial_cancel_stream (host_at 2000) 7 1 (pos 1000))
      hourly_world
      (SoundAfter (host_at 2000))
partial_cancel_stream-AllSound_example =
    partial_cancel_stream-AllSound (host_at 2000) 7 1 (pos 1000) hourly_world hourly_world-AllSound

create_stream-AllSound_example :
    Ensures (create_stream (host_at 2000) some_args) hourly_world (SoundAfter (host_at 2000))
create_stream-AllSound_example =
    create_stream-AllSound (host_at 2000) some_args hourly_world hourly_world-AllSound

resume_stream-AllSound_example :
    Ensures (resume_stream (host_at 2000) 7 1) halted_world (SoundAfter (host_at 2000))
resume_stream-AllSound_example =
    resume_stream-AllSound (host_at 2000) 7 1 halted_world (omega arith) halted_world-AllSound

top_up-AllSound_example :
    Ensures (top_up (host_at 2000) 7 1 9 (pos 101)) hourly_world (SoundAfter (host_at 2000))
top_up-AllSound_example =
    top_up-AllSound (host_at 2000) 7 1 9 (pos 101) hourly_world hourly_world-AllSound

run-AllSound_example :
    Ensures (run (host_at 2000) (Action.cancel_stream 7 1)) halted_world (SoundAfter (host_at 2000))
run-AllSound_example =
    run-AllSound (host_at 2000) (Action.cancel_stream 7 1) halted_world (omega arith)
      halted_world-AllSound

hourly_stored : load_stream hourly_world 7 ≡ some hourly
unfolding load_stream save_stream
hourly_stored = refl

hourly_managed : may_manage hourly_world hourly 7 1 ≡ true
unfolding may_manage
hourly_managed = refl

hourly_paid :
    pay_out (host_at 2000) hourly (pos 2000) (pos 5200) hourly_world ≡ ok (tt, hourly_world)
unfolding pay_out when transfer gets or_panic modify ◌>>=◌ save_stream
hourly_paid = refl

cancel_stream-settles_example :
    (cancel_stream (host_at 2000) 7 1 hourly_world
      ≡ ok (
        tt,
        publish
            (stream_cancelled 7 1 (pos 5200) (pos 2000))
            (unindex_by_recipient 2 7 (unindex_by_sender 1 7 (remove_stream 7 hourly_world))),
      ))
    × (0 + 2000 + 5200 ≡ 7200)
cancel_stream-settles_example =
    cancel_stream-settles (host_at 2000) 7 1 hourly hourly_world hourly_world hourly-IsSound
      (omega arith) refl hourly_stored hourly_managed refl hourly_paid

hourly_runs : is_paused hourly_world ≡ false
unfolding is_paused save_stream
hourly_runs = refl

recipient_terminate-settles_example :
    (recipient_terminate (host_at 2000) 7 2 hourly_world
      ≡ ok (
        tt,
        publish
            (stream_terminated_by_recipient 7 2 (pos 2000) (pos 5200))
            (unindex_by_recipient 2 7 (unindex_by_sender 1 7 (remove_stream 7 hourly_world))),
      ))
    × (0 + 2000 + 5200 ≡ 7200)
recipient_terminate-settles_example =
    recipient_terminate-settles (host_at 2000) hourly hourly-IsSound 7 2 hourly_world hourly_world
      (omega arith) hourly_runs refl hourly_stored refl refl refl hourly_paid

partial_cancel_stream-Parts_example :
    Ensures
      (partial_cancel_stream (host_at 2000) 7 1 (pos 1000))
      hourly_world
      (Parts (host_at 2000) hourly hourly-IsSound 7 (pos 1000) hourly_world)
partial_cancel_stream-Parts_example =
    partial_cancel_stream-Parts (host_at 2000) hourly hourly-IsSound 7 1 (pos 1000) hourly_world
      (omega arith) hourly_stored

earned_paid :
    when (ltb_ℤ (pos 0) (pos 2000)) (transfer (host_at 2000) 9 50 2 (pos 2000)) hourly_world
    ≡ ok (tt, hourly_world)
unfolding when transfer gets or_panic modify ◌>>=◌ save_stream
earned_paid = refl

part_refunded : transfer (host_at 2000) 9 50 1 (pos 1000) hourly_world ≡ ok (tt, hourly_world)
unfolding transfer gets or_panic modify ◌>>=◌ save_stream
part_refunded = refl

hourly_room : HasRoom hourly hourly_world
unfolding save_stream get_count get_global_stream_count
hourly_room = record { of_sender = omega arith; of_recipient = omega arith; of_all = omega arith }

partial_cancel_stream-returns_example :
    (new_id : ℕ) × (w' : World (Unit {0})) × (partial_cancel_stream
        (host_at 2000)
        7
        1
        (pos 1000)
        hourly_world
      ≡ ok (new_id, w'))
    × Parts (host_at 2000) hourly hourly-IsSound 7 (pos 1000) hourly_world new_id w'
partial_cancel_stream-returns_example =
    partial_cancel_stream-returns (host_at 2000) hourly hourly-IsSound 7 1 1000 hourly_world
      hourly_world hourly_world (omega arith) refl hourly_stored hourly_managed refl (omega arith)
      (omega arith) (omega arith) earned_paid part_refunded hourly_room

propose_fee_change-timelocked_example :
    Ensures (propose_fee_change (host_at 2000) 1 25) empty_world (λ _ w'.
      (25 ≤ 10000)
      × ((later : Env (Unit {0}))
          → execute_fee_change later w' ≡ timelocked 25 (2000 + fee_timelock) later w'))
propose_fee_change-timelocked_example =
    propose_fee_change-timelocked (host_at 2000) 1 25 empty_world (omega arith)

pause-paused_until_example :
    Ensures (emergency_pause (host_at 2000)) empty_world (λ _ w'.
      (later : Env (Unit {0}))
      → is_paused_or_auto_unpause later w' ≡ paused_until (2000 + max_pause_duration) later w')
    × Ensures (pause (host_at 2000) 4) empty_world (λ _ w'.
      (later : Env (Unit {0}))
      → is_paused_or_auto_unpause later w' ≡ paused_until (2000 + max_pause_duration) later w')
pause-paused_until_example = pause-paused_until (host_at 2000) 4 empty_world (omega arith)

abbrev fee_world : World (Unit {0})
fee_world = record empty_world { inst = record no_settings { fee_bps = some 250 } }

fee_allowed : get_protocol_fee fee_world ≤ 10000
unfolding get_protocol_fee
fee_allowed = omega arith

pay_claim-splits_example :
    Ensures
      (pay_claim (host_at 2000) pay_fee_announced hourly 7 2 (pos 2000))
      fee_world
      (λ amount _. (paid : ℕ) × (amount ≡ pos paid) × (paid + fee_due fee_world 2 2000 ≡ 2000))
pay_claim-splits_example =
    pay_claim-splits (host_at 2000) pay_fee_announced hourly 7 2 2000 fee_world fee_allowed
