-- ===== src/Contract/Manage.antt =====
-- contracts/stream/src/lib.rs: `top_up`, `transfer_recipient`, the delegate, the pause of one stream,
-- its metadata, its renewal flag, and `archive_stream`.
use sorostream_contracts.Prelude.{
  ℕ, Bool, false, not, ◌&&◌, ltb, leb, ◌!=◌, min, if◌then◌else◌, length, is_some, unwrap_or,
}
use sorostream_contracts.Prelude.Int.{ℤ, pos, ltb_ℤ, leb_ℤ}
use sorostream_contracts.Prelude.Machine.{
  checked_add_u64, saturating_sub_u64, u64_max, checked_add_i128, checked_sub_i128,
  saturating_add_i128, div_i128, rem_i128, u64_try_from,
}
use sorostream_contracts.Types.{
  Address, Bytes, Stream, active, paused, is_active, is_live, is_paused_status, contract_paused,
  stream_not_found, not_recipient, not_sender, stream_not_active, not_authorized, zero_amount,
  overflow, token_mismatch, stream_not_paused, stream_not_settled, metadata_too_long,
  stream_topped_up, stream_withdrawn, recipient_transferred, stream_paused, stream_resumed,
  stream_archived, metadata_updated, auto_renew_cancelled,
}
use sorostream_contracts.Call.{pure, gets, or_err, or_panic, modify, fail_if, when, ◌>>=◌, ◌>>◌}
use sorostream_contracts.Env.{Env, Exec, require_auth, transfer, publish}
use sorostream_contracts.Storage.Pausing.{is_paused_or_auto_unpause}
use sorostream_contracts.Storage.Streams.{load_stream, save_stream, remove_stream}
use sorostream_contracts.Storage.Access.{get_delegate, set_delegate, remove_delegate}
use sorostream_contracts.Storage.Index.{unindex_by_sender, unindex_by_recipient, index_by_recipient}
use sorostream_contracts.Vesting.{compute_claimable}
use sorostream_contracts.Contract.Payment.{may_manage, pay_claim, pay_fee_announced, add_withdrawn}
use sorostream_contracts.Contract.Withdraw.{dust_of}
use sorostream_contracts.Contract.Cancel.{stream_now}

-- `checked_add(..).unwrap_or(u64::MAX)`
abbrev pub shift : ℕ → ℕ → ℕ
shift t d = unwrap_or (checked_add_u64 t d) u64_max

-- What `resume_stream` writes: every time moves by the length of the pause.
unfoldable pub resumed : Stream → ℕ → Stream
resumed stream now =
    let paused_duration = saturating_sub_u64 now stream.last_pause_time in
    record stream {
      end_time = shift stream.end_time paused_duration;
      cliff_time = shift stream.cliff_time paused_duration;
      start_time = shift stream.start_time paused_duration;
      last_withdraw_time = shift stream.last_withdraw_time paused_duration;
      lock_until = shift stream.lock_until paused_duration;
      status = active;
      last_pause_time = 0;
    }

module _ {C : Type 0} (env : Env C) where
  unfoldable pub top_up : ℕ → Address → Address → ℤ → Exec C (Unit {0})
  top_up stream_id caller token amount = do
    paused_now ← is_paused_or_auto_unpause env
    fail_if paused_now contract_paused
    require_auth env caller
    loaded ← gets (λ w. load_stream w stream_id)
    stream ← or_err loaded stream_not_found
    manages ← gets (λ w. may_manage w stream stream_id caller)
    fail_if (not manages) not_authorized
    fail_if (stream.token != token) token_mismatch
    fail_if (not (is_live stream.status)) stream_not_active
    fail_if (leb_ℤ amount (pos 0)) zero_amount
    remainder ← or_panic (rem_i128 amount stream.flow_rate)
    effective_amount ← or_panic (checked_sub_i128 amount remainder)
    fail_if (leb_ℤ effective_amount (pos 0)) zero_amount
    transfer env stream.token caller env.current_contract effective_amount
    extra_seconds_i128 ← or_panic (div_i128 effective_amount stream.flow_rate)
    extra_seconds ← or_err (u64_try_from extra_seconds_i128) overflow
    end_time' ← or_err (checked_add_u64 stream.end_time extra_seconds) overflow
    deposit' ← or_err (checked_add_i128 stream.deposit effective_amount) overflow
    modify (save_stream (record stream { end_time = end_time'; deposit = deposit' }))
    modify (publish (stream_topped_up stream_id effective_amount end_time'))

  -- The block under `if claimable > 0` of `transfer_recipient`, with the stream that it leaves.
  unfoldable pub claim_before_transfer : Stream → ℕ → Address → ℕ → ℤ → Exec C Stream
  claim_before_transfer stream stream_id current_recipient now claimable = do
    pay_claim env pay_fee_announced stream stream_id current_recipient claimable
    paid ← add_withdrawn stream claimable
    modify (publish (stream_withdrawn stream_id current_recipient claimable now))
    pure (record paid { last_withdraw_time = min now stream.end_time })

  -- What the old recipient is paid: nothing before the lock and the cliff.
  unfoldable pub settle_recipient : Stream → ℕ → Address → ℕ → Exec C Stream
  unfolding claim_before_transfer
  settle_recipient stream stream_id current_recipient now =
      if leb stream.lock_until now && leb stream.cliff_time now
      then (do
        claimable ←
            or_err
              (compute_claimable stream.flow_rate now stream.cliff_time stream.end_time
                stream.last_withdraw_time)
              overflow
        if ltb_ℤ (pos 0) claimable
            then claim_before_transfer stream stream_id current_recipient now claimable
            else pure stream)
      else pure stream

  unfoldable pub transfer_recipient : ℕ → Address → Address → Exec C (Unit {0})
  transfer_recipient stream_id current_recipient new_recipient = do
    paused_now ← is_paused_or_auto_unpause env
    fail_if paused_now contract_paused
    require_auth env current_recipient
    loaded ← gets (λ w. load_stream w stream_id)
    stream ← or_err loaded stream_not_found
    fail_if (stream.recipient != current_recipient) not_recipient
    fail_if (not (is_live stream.status)) stream_not_active
    settled ← settle_recipient stream stream_id current_recipient (stream_now env stream)
    modify (save_stream (record settled { recipient = new_recipient }))
    modify (unindex_by_recipient stream.recipient stream_id)
    index_by_recipient new_recipient stream_id
    modify (publish (recipient_transferred stream_id stream.recipient new_recipient))

  -- The stream, for an entry point that only its sender may call.
  unfoldable pub load_as_sender : Address → ℕ → Exec C Stream
  load_as_sender sender stream_id = do
    require_auth env sender
    loaded ← gets (λ w. load_stream w stream_id)
    stream ← or_err loaded stream_not_found
    fail_if (stream.sender != sender) not_sender
    pure stream

  unfoldable pub delegate : Address → ℕ → Address → Exec C (Unit {0})
  unfolding load_as_sender
  delegate sender stream_id operator = do
    load_as_sender sender stream_id
    modify (set_delegate stream_id operator)

  unfoldable pub revoke_delegate : Address → ℕ → Exec C (Unit {0})
  unfolding load_as_sender
  revoke_delegate sender stream_id = do
    load_as_sender sender stream_id
    modify (remove_delegate stream_id)

  unfoldable pub update_metadata : Address → ℕ → Bytes → Exec C (Unit {0})
  unfolding load_as_sender
  update_metadata sender stream_id metadata = do
    stream ← load_as_sender sender stream_id
    fail_if (ltb 64 (length metadata)) metadata_too_long
    modify (save_stream (record stream { metadata = metadata }))
    modify (publish (metadata_updated stream_id metadata))

  unfoldable pub cancel_auto_renew : Address → ℕ → Exec C (Unit {0})
  unfolding load_as_sender
  cancel_auto_renew sender stream_id = do
    stream ← load_as_sender sender stream_id
    modify (save_stream (record stream { auto_renew = false }))
    modify (publish (auto_renew_cancelled stream_id))

  unfoldable pub pause_stream : ℕ → Address → Exec C (Unit {0})
  unfolding load_as_sender
  pause_stream stream_id sender = do
    paused_now ← is_paused_or_auto_unpause env
    fail_if paused_now contract_paused
    stream ← load_as_sender sender stream_id
    fail_if (not (is_active stream.status)) stream_not_active
    modify (save_stream (record stream { status = paused; last_pause_time = env.timestamp }))
    modify (publish (stream_paused stream_id sender))

  unfoldable pub resume_stream : ℕ → Address → Exec C (Unit {0})
  unfolding load_as_sender
  resume_stream stream_id sender = do
    paused_now ← is_paused_or_auto_unpause env
    fail_if paused_now contract_paused
    stream ← load_as_sender sender stream_id
    fail_if (not (is_paused_status stream.status)) stream_not_paused
    modify (save_stream (resumed stream env.timestamp))
    modify (publish (stream_resumed stream_id sender))

  -- whether everything but the dust is withdrawn
  abbrev pub is_settled : Stream → Bool
  is_settled stream =
      let duration = saturating_sub_u64 stream.end_time stream.start_time in
      leb_ℤ stream.deposit (saturating_add_i128 stream.total_withdrawn (dust_of stream duration))

  unfoldable pub archive_stream : ℕ → Address → Exec C (Unit {0})
  archive_stream stream_id caller = do
    require_auth env caller
    loaded ← gets (λ w. load_stream w stream_id)
    stream ← or_err loaded stream_not_found
    fail_if (stream.sender != caller && stream.recipient != caller) not_authorized
    fail_if (not (is_settled stream)) stream_not_settled
    modify (remove_stream stream_id)
    modify (unindex_by_sender stream.sender stream_id)
    modify (unindex_by_recipient stream.recipient stream_id)
    delegated ← gets (λ w. is_some (get_delegate w stream_id))
    when delegated (modify (remove_delegate stream_id))
    modify (publish (stream_archived stream_id stream.sender stream.recipient stream.deposit))
