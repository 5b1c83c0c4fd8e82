-- ===== src/Contract/Withdraw.antt =====
-- contracts/stream/src/lib.rs: `withdraw` and `batch_withdraw`.
use sorostream_contracts.Prelude.{ℕ, not, ◌&&◌, List, [], ◌∷◌, ltb, leb, ◌!=◌, min, if◌then◌else◌}
use sorostream_contracts.Prelude.Int.{ℤ, pos, ltb_ℤ}
use sorostream_contracts.Prelude.Machine.{
  checked_add_u64, checked_sub_u64, saturating_add_u64, saturating_sub_i128, saturating_mul_i128,
}
use sorostream_contracts.Types.{
  Address, Stream, completed, is_active, contract_paused, stream_not_found, not_recipient,
  stream_not_active, stream_locked, withdrawal_cooldown_active, overflow, stream_withdrawn,
  auto_renew_failed, stream_completed,
}
use sorostream_contracts.Call.{pure, gets, or_err, or_panic, modify, fail_if, when, ◌>>=◌, ◌>>◌}
use sorostream_contracts.Env.{
  Env, Exec, require_auth, transfer, try_invoke, publish, on_stream_withdraw,
}
use sorostream_contracts.Storage.Config.{get_withdrawal_cooldown}
use sorostream_contracts.Storage.Pausing.{is_paused_or_auto_unpause}
use sorostream_contracts.Storage.Streams.{load_stream, save_stream, remove_stream}
use sorostream_contracts.Storage.Index.{unindex_by_sender, unindex_by_recipient}
use sorostream_contracts.Vesting.{compute_claimable, compute_earned}
use sorostream_contracts.Contract.Payment.{
  pay_claim, pay_fee_announced, pay_fee_deposited, add_withdrawn, guard_deposit,
}

-- What the floor of the rate leaves of a deposit.
unfoldable pub dust_of : Stream → ℕ → ℤ
dust_of stream duration =
    saturating_sub_i128 stream.deposit (saturating_mul_i128 stream.flow_rate (pos duration))

module _ {C : Type 0} (env : Env C) where
  unfoldable pub refund_dust : Stream → ℤ → Exec C (Unit {0})
  refund_dust stream dust =
      when (ltb_ℤ (pos 0) dust) (transfer env stream.token env.current_contract stream.sender dust)

  -- The sender locks the deposit again, and the next cycle begins where this one ended.
  unfoldable pub renew : Stream → ℕ → Exec C (Unit {0})
  renew stream duration = do
    require_auth env stream.sender
    transfer env stream.token stream.sender env.current_contract stream.deposit
    new_end ← or_err (checked_add_u64 stream.end_time duration) overflow
    modify (
        save_stream (record stream {
          start_time = stream.end_time;
          end_time = new_end;
          last_withdraw_time = stream.end_time;
          total_withdrawn = pos 0;
        }))

  -- The sender cannot pay for another cycle.
  unfoldable pub fail_renewal : Stream → ℕ → ℤ → Exec C (Unit {0})
  unfolding refund_dust
  fail_renewal stream stream_id dust = do
    modify (publish (auto_renew_failed stream_id stream.sender stream.deposit))
    refund_dust stream dust
    modify (publish (stream_completed stream_id))
    modify (save_stream (record stream { status = completed }))

  unfoldable pub complete : Stream → ℕ → ℤ → Exec C (Unit {0})
  unfolding refund_dust
  complete stream stream_id dust = do
    refund_dust stream dust
    modify (publish (stream_completed stream_id))
    modify (remove_stream stream_id)
    modify (unindex_by_sender stream.sender stream_id)
    modify (unindex_by_recipient stream.recipient stream_id)

  unfoldable pub renew_if_funded : Stream → ℕ → ℕ → ℤ → Exec C (Unit {0})
  unfolding renew fail_renewal
  renew_if_funded stream stream_id duration dust = do
    sender_balance ← gets (λ w. env.token_balance stream.token stream.sender w.chain)
    if ltb_ℤ sender_balance stream.deposit
        then fail_renewal stream stream_id dust
        else renew stream duration

  -- The end of a stream whose time is over, for `withdraw`.
  unfoldable pub finish_cycle : Stream → ℕ → Exec C (Unit {0})
  unfolding renew_if_funded complete
  finish_cycle stream stream_id = do
    duration ← or_panic (checked_sub_u64 stream.end_time stream.start_time)
    let dust = dust_of stream duration
    if stream.auto_renew
        then renew_if_funded stream stream_id duration dust
        else complete stream stream_id dust

  -- The same for `batch_withdraw`, which does not look at the sender's balance.
  unfoldable pub finish_batched : Stream → ℕ → Exec C (Unit {0})
  unfolding renew complete
  finish_batched stream stream_id = do
    duration ← or_panic (checked_sub_u64 stream.end_time stream.start_time)
    let dust = dust_of stream duration
    if stream.auto_renew then renew stream duration else complete stream stream_id dust

  -- The block under `if claimable > 0`, with the stream that it leaves.
  unfoldable pub claim : Stream → ℕ → Address → ℤ → Exec C Stream
  claim stream stream_id recipient claimable = do
    guard_deposit stream claimable
    recipient_amount ← pay_claim env pay_fee_announced stream stream_id recipient claimable
    paid ← add_withdrawn stream claimable
    modify (try_invoke env recipient (on_stream_withdraw stream_id recipient_amount))
    pure paid

  unfoldable pub claim_batched : Stream → ℕ → Address → ℤ → Exec C Stream
  claim_batched stream stream_id recipient claimable = do
    guard_deposit stream claimable
    pay_claim env pay_fee_deposited stream stream_id recipient claimable
    add_withdrawn stream claimable

  unfoldable pub withdraw : ℕ → Address → Exec C (Unit {0})
  unfolding claim
  withdraw stream_id recipient = do
    paused ← is_paused_or_auto_unpause env
    fail_if paused contract_paused
    require_auth env recipient
    loaded ← gets (λ w. load_stream w stream_id)
    stream ← or_err loaded stream_not_found
    fail_if (stream.recipient != recipient) not_recipient
    fail_if (not (is_active stream.status)) stream_not_active
    let now = env.timestamp
    fail_if (ltb now stream.lock_until) stream_locked
    cooldown ← gets get_withdrawal_cooldown
    fail_if (ltb 0 cooldown && ltb now (saturating_add_u64 stream.last_withdraw_time cooldown))
        withdrawal_cooldown_active
    let effective_now = min now stream.end_time
    claimable ←
        or_err
          (compute_claimable stream.flow_rate now stream.cliff_time stream.end_time
            stream.last_withdraw_time)
          overflow
    paid ←
        if ltb_ℤ (pos 0) claimable then claim stream stream_id recipient claimable else pure stream
    let settled = record paid { last_withdraw_time = effective_now }
    if leb settled.end_time now
        then finish_cycle settled stream_id
        else modify (save_stream settled)
    modify (publish (stream_withdrawn stream_id recipient claimable now))

  -- One round of the loop of `batch_withdraw`: neither cliff nor cooldown is looked at.
  unfoldable pub withdraw_one : Address → ℕ → Exec C ℤ
  unfolding claim_batched
  withdraw_one recipient stream_id = do
    loaded ← gets (λ w. load_stream w stream_id)
    stream ← or_err loaded stream_not_found
    fail_if (stream.recipient != recipient) not_recipient
    fail_if (not (is_active stream.status)) stream_not_active
    let now = env.timestamp
    fail_if (ltb now stream.lock_until) stream_locked
    let effective_now = min now stream.end_time
    claimable ←
        or_err (compute_earned stream.flow_rate now stream.end_time stream.last_withdraw_time)
          overflow
    paid ←
        if ltb_ℤ (pos 0) claimable
        then claim_batched stream stream_id recipient claimable
        else pure stream
    let settled = record paid { last_withdraw_time = effective_now }
    if leb settled.end_time now
        then finish_batched settled stream_id
        else modify (save_stream settled)
    modify (publish (stream_withdrawn stream_id recipient claimable now))
    pure claimable

  unfoldable pub withdraw_each : Address → List ℕ → Exec C (List ℤ)
  withdraw_each recipient [] = pure []
  withdraw_each recipient (stream_id ∷ rest) = do
    amount ← withdraw_one recipient stream_id
    amounts ← withdraw_each recipient rest
    pure (amount ∷ amounts)

  unfoldable pub batch_withdraw : List ℕ → Address → Exec C (List ℤ)
  unfolding withdraw_each
  batch_withdraw stream_ids recipient = do
    paused ← is_paused_or_auto_unpause env
    fail_if paused contract_paused
    require_auth env recipient
    withdraw_each recipient stream_ids
