-- ===== src/Contract/Fees.antt =====
-- contracts/stream/src/lib.rs: the protocol fee and its timelock, the treasury and the creation fee.
use sorostream_contracts.Prelude.{ℕ, ◌*◌, Option, ltb, ◌!=◌, unwrap_or}
use sorostream_contracts.Prelude.Int.{ℤ, pos, ltb_ℤ}
use sorostream_contracts.Prelude.Machine.{checked_add_u64, u64_max}
use sorostream_contracts.Types.{
  Address, not_initialized, not_authorized, invalid_duration, stream_locked, zero_amount,
  fee_change_proposed, fee_change_executed,
}
use sorostream_contracts.Call.{pure, gets, or_err, modify, fail_if, ◌>>=◌, ◌>>◌}
use sorostream_contracts.Env.{Env, Exec, require_auth, publish, invoke, Invocation}
use sorostream_contracts.Storage.Config
use sorostream_contracts.Storage.Config.{
  check_admin, read_admin, get_protocol_fee, get_treasury, read_pending_fee_proposal,
  write_pending_fee_proposal, clear_pending_fee_proposal, set_treasury, set_creation_fee_xlm,
  get_creation_fee_xlm, set_xlm_token,
}

abbrev pub fee_timelock : ℕ
fee_timelock = 7 * 24 * 60 * 60

module _ {C : Type 0} where
  -- No authorization is asked for.
  unfoldable pub set_protocol_fee : ℕ → Exec C (Unit {0})
  set_protocol_fee fee_bps = do
    fail_if (ltb 10000 fee_bps) invalid_duration
    modify (Config.set_protocol_fee fee_bps)

  unfoldable pub set_treasury_address : Address → Exec C (Unit {0})
  set_treasury_address treasury = modify (set_treasury treasury)

  unfoldable pub get_creation_fee : Exec C ℤ
  get_creation_fee = gets get_creation_fee_xlm

  unfoldable pub get_protocol_fee_info : Exec C (ℕ × Option Address)
  get_protocol_fee_info = gets (λ w. (get_protocol_fee w, get_treasury w))

module _ {C : Type 0} (env : Env C) where
  unfoldable pub propose_fee_change : Address → ℕ → Exec C (Unit {0})
  propose_fee_change admin new_fee_bps = do
    require_auth env admin
    current_admin ← or_err (← gets read_admin) not_initialized
    fail_if (admin != current_admin) not_authorized
    fail_if (ltb 10000 new_fee_bps) invalid_duration
    let unlock_time = unwrap_or (checked_add_u64 env.timestamp fee_timelock) u64_max
    modify (write_pending_fee_proposal new_fee_bps unlock_time)
    modify (publish (fee_change_proposed new_fee_bps unlock_time))

  unfoldable pub execute_fee_change : Exec C (Unit {0})
  execute_fee_change = do
    proposal ← or_err (← gets read_pending_fee_proposal) not_authorized
    fail_if (ltb env.timestamp proposal.1) stream_locked
    modify (Config.set_protocol_fee proposal.0)
    modify clear_pending_fee_proposal
    modify (publish (fee_change_executed proposal.0))

  unfoldable pub set_creation_fee : ℤ → Address → Exec C (Unit {0})
  set_creation_fee fee xlm_token = do
    check_admin env
    fail_if (ltb_ℤ fee (pos 0)) zero_amount
    modify (set_creation_fee_xlm fee)
    modify (set_xlm_token xlm_token)

  unfoldable pub withdraw_treasury : Address → ℤ → Address → Exec C (Unit {0})
  withdraw_treasury token amount destination = do
    check_admin env
    treasury ← or_err (← gets get_treasury) not_initialized
    invoke env treasury (Invocation.withdraw_treasury token amount destination)
    pure tt

  unfoldable pub withdraw_all_from_treasury : Address → Address → Exec C ℤ
  withdraw_all_from_treasury token destination = do
    check_admin env
    treasury ← or_err (← gets get_treasury) not_initialized
    invoke env treasury (Invocation.withdraw_all token destination)
