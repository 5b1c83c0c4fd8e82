-- ===== src/Types.antt =====
-- contracts/stream/src/types.rs, errors.rs and events.rs: the data of the stream contract.
-- An address and a token contract are only compared, so they are numbers; `Bytes` is a list of them.
use Prim.Native.String.{String}
use sorostream_contracts.Prelude.{ℕ, Bool, true, false, List, ◌||◌}
use sorostream_contracts.Prelude.Int.{ℤ}

abbrev pub Address : Type 0
Address = ℕ

abbrev pub Bytes : Type 0
Bytes = List ℕ

pub data StreamError : Type 0 where
  stream_not_found not_recipient not_sender stream_not_active zero_amount : StreamError
  invalid_duration insufficient_balance invalid_cliff already_initialized : StreamError
  not_initialized duplicate_stream invalid_start_time invalid_partial_cancel : StreamError
  contract_paused overflow zero_flow_rate batch_length_mismatch token_mismatch : StreamError
  stream_locked not_authorized stream_not_paused stream_duration_too_short : StreamError
  stream_id_conflict sender_stream_limit_exceeded invalid_nonce : StreamError
  migration_already_applied stream_not_settled withdrawal_cooldown_active : StreamError
  recipient_not_whitelisted metadata_too_long duplicate_stream_id : StreamError
  invalid_end_time insufficient_xlm_for_fee : StreamError

pub data StreamStatus : Type 0 where
  active cancelled completed paused : StreamStatus

pub record Stream : Type 0 where
  pub id : ℕ
  pub sender : Address
  pub recipient : Address
  pub token : Address
  pub deposit : ℤ
  pub flow_rate : ℤ
  pub start_time : ℕ
  pub cliff_time : ℕ
  pub lock_until : ℕ
  pub end_time : ℕ
  pub last_withdraw_time : ℕ
  pub status : StreamStatus
  pub auto_renew : Bool
  pub allow_recipient_termination : Bool
  pub last_pause_time : ℕ
  pub total_withdrawn : ℤ
  pub metadata : Bytes

pub record Stats : Type 0 where
  pub total_streams : ℕ
  pub active_streams : ℕ
  pub total_volume : ℤ

pub record AuditEntry : Type 0 where
  pub instruction : String
  pub admin : Address
  pub timestamp : ℕ
  pub params : String

-- One constructor for each function of events.rs, with the topics and the data that it publishes;
-- `guardian_paused` and `governance_unpaused` are the two that lib.rs publishes itself.
pub data Event : Type 0 where
  stream_created : ℕ → Address → Address → ℤ → ℤ → ℕ → Event
  stream_withdrawn : ℕ → Address → ℤ → ℕ → Event
  stream_cancelled : ℕ → Address → ℤ → ℤ → Event
  stream_topped_up : ℕ → ℤ → ℕ → Event
  stream_completed : ℕ → Event
  auto_renew_failed : ℕ → Address → ℤ → Event
  contract_deployed : String → Address → Event
  stream_partial_cancelled : ℕ → ℕ → Address → ℤ → ℤ → Event
  contract_paused_event : Address → ℕ → Event
  contract_resumed : Address → ℕ → Event
  stream_paused : ℕ → Address → Event
  stream_resumed : ℕ → Address → Event
  fee_collected : ℕ → ℤ → Address → Event
  fee_change_proposed : ℕ → ℕ → Event
  fee_change_executed : ℕ → Event
  stream_terminated_by_recipient : ℕ → Address → ℤ → ℤ → Event
  recipient_transferred : ℕ → Address → Address → Event
  contract_migrated : String → String → Address → Event
  admin_action : String → Address → ℕ → Event
  stream_archived : ℕ → Address → Address → ℤ → Event
  metadata_updated : ℕ → Bytes → Event
  auto_renew_cancelled : ℕ → Event
  stream_renewed : ℕ → ℕ → Event
  creation_fee_collected : ℤ → Address → Event
  guardian_paused : Address → ℕ → Event
  governance_unpaused : Address → ℕ → Event

-- `==` on statuses, and the test `Active || Paused` that many entry points make.
abbrev pub is_active : StreamStatus → Bool
is_active active = true
is_active _ = false

abbrev pub is_paused_status : StreamStatus → Bool
is_paused_status paused = true
is_paused_status _ = false

abbrev pub is_live : StreamStatus → Bool
is_live st = is_active st || is_paused_status st
