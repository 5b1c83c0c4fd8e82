-- ===== src/Contract/Cancel.antt =====
-- contracts/stream/src/lib.rs: `cancel_stream`, `recipient_terminate`, `partial_cancel_stream` and
-- `batch_cancel_stream`.
use sorostream_contracts.Prelude.{
  ℕ, not, ◌||◌, Option, List, [], ◌∷◌, ltb, leb, ◌!=◌, if◌then◌else◌, length,
}
use sorostream_contracts.Prelude.Int.{ℤ, pos, ltb_ℤ, leb_ℤ}
use sorostream_contracts.Prelude.Machine.{
  checked_add_u64, saturating_sub_u64, saturating_sub_i128, checked_sub_i128, checked_mul_i128,
  div_i128, u64_try_from,
}
use sorostream_contracts.Types.{
  Address, Stream, StreamError, active, cancelled, is_live, is_paused_status, contract_paused,
  stream_not_found, not_recipient, not_sender, stream_not_active, not_authorized, zero_amount,
  overflow, invalid_partial_cancel, batch_length_mismatch, stream_cancelled,
  stream_terminated_by_recipient, stream_partial_cancelled,
}
use sorostream_contracts.Call.{
  Outcome, ok, err, panic, pure, gets, or_err, or_panic, modify, fail_if, when, ◌>>=◌, ◌>>◌,
}
use sorostream_contracts.Env.{Env, World, Exec, require_auth, transfer, publish}
use sorostream_contracts.Storage.Pausing.{is_paused_or_auto_unpause}
use sorostream_contracts.Storage.Streams.{
  load_stream, save_stream, remove_stream, derive_stream_id, index_global_stream,
}
use sorostream_contracts.Storage.Index.{
  unindex_by_sender, unindex_by_recipient, index_by_sender, index_by_recipient,
}
use sorostream_contracts.Vesting.{compute_claimable, compute_earned}
use sorostream_contracts.Contract.Payment.{may_manage}

-- The time that counts for a stream: for a paused one, that of the pause.
abbrev pub stream_now : {C : Type 0} → Env C → Stream → ℕ
stream_now env stream =
    if is_paused_status stream.status then stream.last_pause_time else env.timestamp

-- Everything deposited that is neither withdrawn nor owed to the recipient now.
unfoldable pub refund_of : Stream → ℤ → ℤ
refund_of stream recipient_amount =
    saturating_sub_i128 (saturating_sub_i128 stream.deposit stream.total_withdrawn) recipient_amount

unfoldable pub checked_flow_amount : ℤ → ℕ → Option ℤ
checked_flow_amount flow_rate elapsed = checked_mul_i128 flow_rate (pos elapsed)

-- The stream that takes the rest of a partly cancelled one.
abbrev pub remainder_stream : Stream → ℕ → ℤ → ℕ → ℕ → Stream
remainder_stream stream new_stream_id new_deposit now new_end_time = record {
  id = new_stream_id;
  sender = stream.sender;
  recipient = stream.recipient;
  token = stream.token;
  deposit = new_deposit;
  flow_rate = stream.flow_rate;
  start_time = now;
  cliff_time = now;
  lock_until = now;
  end_time = new_end_time;
  last_withdraw_time = now;
  status = active;
  auto_renew = stream.auto_renew;
  allow_recipient_termination = stream.allow_recipient_termination;
  last_pause_time = 0;
  total_withdrawn = pos 0;
  metadata = stream.metadata;
}

module _ {C : Type 0} where
  -- A closure's `Err` becomes a value, with what it wrote so far: the closure answers an `Err` only
  -- before it writes. A trap still ends the whole call.
  abbrev pub caught :
      World C
      → Outcome StreamError (Unit {0} × World C)
      → Outcome StreamError (Outcome StreamError (Unit {0}) × World C)
  caught w (ok (a, w')) = ok (ok a, w')
  caught w (err e) = ok (err e, w)
  caught w panic = panic

  unfoldable pub try_call : Exec C (Unit {0}) → Exec C (Outcome StreamError (Unit {0}))
  try_call m w = caught w (m w)

module _ {C : Type 0} (env : Env C) where
  -- The two payments that end a stream, and its removal.
  unfoldable pub pay_out : Stream → ℤ → ℤ → Exec C (Unit {0})
  pay_out stream recipient_amount refund_amount = do
    when (ltb_ℤ (pos 0) recipient_amount)
        (transfer env stream.token env.current_contract stream.recipient recipient_amount)
    when (ltb_ℤ (pos 0) refund_amount)
        (transfer env stream.token env.current_contract stream.sender refund_amount)

  unfoldable pub remove_and_unindex : Stream → ℕ → Exec C (Unit {0})
  remove_and_unindex stream stream_id = do
    modify (remove_stream stream_id)
    modify (unindex_by_sender stream.sender stream_id)
    modify (unindex_by_recipient stream.recipient stream_id)

  unfoldable pub cancel_stream : ℕ → Address → Exec C (Unit {0})
  unfolding remove_and_unindex
  cancel_stream stream_id caller = do
    require_auth env caller
    loaded ← gets (λ w. load_stream w stream_id)
    stream ← or_err loaded stream_not_found
    manages ← gets (λ w. may_manage w stream stream_id caller)
    fail_if (not manages) not_authorized
    fail_if (not (is_live stream.status)) stream_not_active
    let now = stream_now env stream
    recipient_amount ←
        or_err (compute_earned stream.flow_rate now stream.end_time stream.last_withdraw_time)
          overflow
    let refund_amount = refund_of stream recipient_amount
    pay_out stream recipient_amount refund_amount
    remove_and_unindex stream stream_id
    modify (publish (stream_cancelled stream_id stream.sender refund_amount recipient_amount))

  unfoldable pub recipient_terminate : ℕ → Address → Exec C (Unit {0})
  unfolding remove_and_unindex
  recipient_terminate stream_id recipient = do
    paused ← is_paused_or_auto_unpause env
    fail_if paused contract_paused
    require_auth env recipient
    loaded ← gets (λ w. load_stream w stream_id)
    stream ← or_err loaded stream_not_found
    fail_if (stream.recipient != recipient) not_recipient
    fail_if (not stream.allow_recipient_termination) not_authorized
    fail_if (not (is_live stream.status)) stream_not_active
    let now = stream_now env stream
    recipient_amount ←
        or_err
          (compute_claimable stream.flow_rate now stream.cliff_time stream.end_time
            stream.last_withdraw_time)
          overflow
    let refund_amount = refund_of stream recipient_amount
    pay_out stream recipient_amount refund_amount
    remove_and_unindex stream stream_id
    modify (
        publish (stream_terminated_by_recipient stream_id recipient recipient_amount refund_amount))

  -- The closure in the loop of `batch_cancel_stream`.
  unfoldable pub cancel_one : Address → ℕ → Exec C (Unit {0})
  unfolding remove_and_unindex
  cancel_one sender stream_id = do
    loaded ← gets (λ w. load_stream w stream_id)
    stream ← or_err loaded stream_not_found
    fail_if (stream.sender != sender) not_sender
    fail_if (not (is_live stream.status)) stream_not_active
    let now = env.timestamp
    recipient_amount ←
        or_err (compute_earned stream.flow_rate now stream.end_time stream.last_withdraw_time)
          overflow
    let refund_amount = refund_of stream recipient_amount
    pay_out stream recipient_amount refund_amount
    remove_and_unindex stream stream_id
    modify (publish (stream_cancelled stream_id stream.sender refund_amount recipient_amount))

  unfoldable pub cancel_each : Address → List ℕ → Exec C (List (Outcome StreamError (Unit {0})))
  unfolding try_call
  cancel_each sender [] = pure []
  cancel_each sender (stream_id ∷ rest) = do
    result ← try_call (cancel_one sender stream_id)
    results ← cancel_each sender rest
    pure (result ∷ results)

  unfoldable pub batch_cancel_stream :
      List ℕ → Address → Exec C (List (Outcome StreamError (Unit {0})))
  unfolding cancel_each
  batch_cancel_stream stream_ids sender = do
    require_auth env sender
    fail_if (leb (length stream_ids) 0 || ltb 20 (length stream_ids)) batch_length_mismatch
    cancel_each sender stream_ids

  -- The new stream is stored with no test that its identifier is free.
  unfoldable pub spawn_remainder : Stream → ℕ → ℤ → ℕ → ℕ → Exec C ℕ
  spawn_remainder stream stream_id new_deposit now new_end_time = do
    let new_stream_id = derive_stream_id env stream.sender stream.recipient now stream_id
    modify (save_stream (remainder_stream stream new_stream_id new_deposit now new_end_time))
    index_by_sender stream.sender new_stream_id
    index_by_recipient stream.recipient new_stream_id
    index_global_stream new_stream_id
    pure new_stream_id

  unfoldable pub partial_cancel_stream : ℕ → Address → ℤ → Exec C ℕ
  unfolding checked_flow_amount
  partial_cancel_stream stream_id caller cancel_amount = do
    require_auth env caller
    loaded ← gets (λ w. load_stream w stream_id)
    stream ← or_err loaded stream_not_found
    manages ← gets (λ w. may_manage w stream stream_id caller)
    fail_if (not manages) not_authorized
    fail_if (not (is_live stream.status)) stream_not_active
    fail_if (leb_ℤ cancel_amount (pos 0)) zero_amount
    let now = stream_now env stream
    let elapsed_since_withdraw = saturating_sub_u64 now stream.last_withdraw_time
    earned ← or_err (checked_flow_amount stream.flow_rate elapsed_since_withdraw) overflow
    let elapsed_since_start = saturating_sub_u64 now stream.start_time
    total_streamed ← or_err (checked_flow_amount stream.flow_rate elapsed_since_start) overflow
    let remaining = saturating_sub_i128 stream.deposit total_streamed
    fail_if (leb_ℤ remaining cancel_amount) invalid_partial_cancel
    new_deposit ← or_panic (checked_sub_i128 remaining cancel_amount)
    fail_if (ltb_ℤ new_deposit stream.flow_rate) invalid_partial_cancel
    new_duration_i128 ← or_panic (div_i128 new_deposit stream.flow_rate)
    new_duration ← or_err (u64_try_from new_duration_i128) overflow
    new_end_time ← or_err (checked_add_u64 now new_duration) overflow
    when (ltb_ℤ (pos 0) earned)
        (transfer env stream.token env.current_contract stream.recipient earned)
    transfer env stream.token env.current_contract stream.sender cancel_amount
    modify (save_stream (record stream { status = cancelled }))
    modify (publish (stream_cancelled stream_id stream.sender cancel_amount earned))
    new_stream_id ← spawn_remainder stream stream_id new_deposit now new_end_time
    modify (
        publish (
          stream_partial_cancelled stream_id new_stream_id stream.sender cancel_amount new_deposit))
    pure new_stream_id
