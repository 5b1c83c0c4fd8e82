-- ===== src/Contract/Interface.antt =====
-- contracts/stream/src/interface.rs: the trait `SoroStreamInterface`, and contracts/stream/src/lib.rs: its
-- implementation by the contract, whose methods hand on to the functions of the same names.
pub mod Laws
pub mod Kept
use Prim.Native.String.{String}
use sorostream_contracts.Prelude.{ℕ, Bool, Option, List}
use sorostream_contracts.Prelude.Int.{ℤ}
use sorostream_contracts.Types.{Address, Bytes, Stream, Stats, AuditEntry, StreamError}
use sorostream_contracts.Call.{Outcome}
use sorostream_contracts.Env.{Env, World, Exec}
use sorostream_contracts.Contract.Admin
use sorostream_contracts.Contract.Fees
use sorostream_contracts.Contract.Withdraw
use sorostream_contracts.Contract.Cancel
use sorostream_contracts.Contract.Create
use sorostream_contracts.Contract.Create.{CreateArgs}
use sorostream_contracts.Contract.Manage
use sorostream_contracts.Contract.Queries

-- A method that answers a plain value is a function of the world, or a call that cannot err where it may
-- write; the arguments of `create_stream` are one record.
pub record SoroStreamInterface (C : Type 0) : Type 0 where
  pub initialize : Address → String → Exec C (Unit {0})
  pub get_admin : Exec C Address
  pub get_version : Exec C String
  pub set_admin : Address → Exec C (Unit {0})
  pub emergency_pause : Exec C (Unit {0})
  pub emergency_resume : Exec C (Unit {0})
  pub is_paused : Exec C Bool
  pub upgrade : Bytes → Exec C (Unit {0})
  pub set_max_streams : ℕ → Exec C (Unit {0})
  pub set_sender_stream_limit : Address → ℕ → Exec C (Unit {0})
  pub create_stream : CreateArgs → Exec C ℕ
  pub set_withdrawal_cooldown : Address → ℕ → Exec C (Unit {0})
  pub set_whitelist_enabled : Address → Bool → Exec C (Unit {0})
  pub add_to_whitelist : Address → Address → Exec C (Unit {0})
  pub remove_from_whitelist : Address → Address → Exec C (Unit {0})
  pub update_metadata : Address → ℕ → Bytes → Exec C (Unit {0})
  pub cancel_auto_renew : Address → ℕ → Exec C (Unit {0})
  pub withdraw : ℕ → Address → Exec C (Unit {0})
  pub cancel_stream : ℕ → Address → Exec C (Unit {0})
  pub transfer_recipient : ℕ → Address → Address → Exec C (Unit {0})
  pub partial_cancel_stream : ℕ → Address → ℤ → Exec C ℕ
  pub top_up : ℕ → Address → Address → ℤ → Exec C (Unit {0})
  pub get_stream : ℕ → Exec C Stream
  pub get_all_stream_ids : ℕ → ℕ → World C → List ℕ
  pub get_claimable : ℕ → Exec C ℤ
  pub is_participant : ℕ → Address → Exec C Bool
  pub get_streams_by_sender : Address → ℕ → ℕ → World C → List Stream
  pub get_streams_by_recipient : Address → ℕ → ℕ → World C → List Stream
  pub get_active_streams_by_sender : Address → World C → List Stream
  pub get_active_streams_by_recipient : Address → World C → List Stream
  pub pause_stream : ℕ → Address → Exec C (Unit {0})
  pub resume_stream : ℕ → Address → Exec C (Unit {0})
  pub batch_create_stream :
      Address → List Address → List ℤ → List Address → ℕ → Bool → List ℕ → ℕ → Exec C (List ℕ)
  pub get_nonce : Address → Exec C ℕ
  pub batch_withdraw : List ℕ → Address → Exec C (List ℤ)
  pub batch_cancel_stream : List ℕ → Address → Exec C (List (Outcome StreamError (Unit {0})))
  pub set_protocol_fee : ℕ → Exec C (Unit {0})
  pub propose_fee_change : Address → ℕ → Exec C (Unit {0})
  pub execute_fee_change : Exec C (Unit {0})
  pub set_treasury_address : Address → Exec C (Unit {0})
  pub get_protocol_fee_info : Exec C (ℕ × Option Address)
  pub get_stats : World C → Stats
  pub min_duration : Exec C ℕ
  pub recipient_terminate : ℕ → Address → Exec C (Unit {0})
  pub set_min_duration : Address → ℕ → Exec C (Unit {0})
  pub migrate : String → String → Exec C (Unit {0})
  pub get_admin_log : Exec C (List AuditEntry)
  pub archive_stream : ℕ → Address → Exec C (Unit {0})
  pub add_fee_exempt : Address → Exec C (Unit {0})
  pub remove_fee_exempt : Address → Exec C (Unit {0})
  pub is_fee_exempt : Address → Exec C Bool
  pub set_guardian : Address → Exec C (Unit {0})
  pub get_guardian : Exec C (Option Address)
  pub set_governance : Address → Exec C (Unit {0})
  pub get_governance : Exec C (Option Address)
  pub pause : Address → Exec C (Unit {0})
  pub unpause : Address → Exec C (Unit {0})
  pub get_pause_expiry : Exec C ℕ
  pub set_creation_fee : ℤ → Address → Exec C (Unit {0})
  pub get_creation_fee : Exec C ℤ

abbrev pub sorostream_contract : {C : Type 0} → Env C → SoroStreamInterface C
sorostream_contract env = record {
  initialize = Admin.initialize env;
  get_admin = Admin.get_admin env;
  get_version = Admin.get_version env;
  set_admin = Admin.set_admin env;
  emergency_pause = Admin.emergency_pause env;
  emergency_resume = Admin.emergency_resume env;
  is_paused = Admin.is_paused env;
  upgrade = Admin.upgrade env;
  set_max_streams = Admin.set_max_streams env;
  set_sender_stream_limit = Admin.set_sender_stream_limit env;
  create_stream = Create.create_stream env;
  set_withdrawal_cooldown = Admin.set_withdrawal_cooldown env;
  set_whitelist_enabled = Admin.set_whitelist_enabled env;
  add_to_whitelist = Admin.add_to_whitelist env;
  remove_from_whitelist = Admin.remove_from_whitelist env;
  update_metadata = Manage.update_metadata env;
  cancel_auto_renew = Manage.cancel_auto_renew env;
  withdraw = Withdraw.withdraw env;
  cancel_stream = Cancel.cancel_stream env;
  transfer_recipient = Manage.transfer_recipient env;
  partial_cancel_stream = Cancel.partial_cancel_stream env;
  top_up = Manage.top_up env;
  get_stream = Queries.get_stream;
  get_all_stream_ids = Queries.get_all_stream_ids;
  get_claimable = Queries.get_claimable env;
  is_participant = Queries.is_participant;
  get_streams_by_sender = Queries.get_streams_by_sender;
  get_streams_by_recipient = Queries.get_streams_by_recipient;
  get_active_streams_by_sender = Queries.get_active_streams_by_sender;
  get_active_streams_by_recipient = Queries.get_active_streams_by_recipient;
  pause_stream = Manage.pause_stream env;
  resume_stream = Manage.resume_stream env;
  batch_create_stream = Create.batch_create_stream env;
  get_nonce = Queries.get_nonce;
  batch_withdraw = Withdraw.batch_withdraw env;
  batch_cancel_stream = Cancel.batch_cancel_stream env;
  set_protocol_fee = Fees.set_protocol_fee;
  propose_fee_change = Fees.propose_fee_change env;
  execute_fee_change = Fees.execute_fee_change env;
  set_treasury_address = Fees.set_treasury_address;
  get_protocol_fee_info = Fees.get_protocol_fee_info;
  get_stats = Queries.get_stats;
  min_duration = Queries.min_duration;
  recipient_terminate = Cancel.recipient_terminate env;
  set_min_duration = Admin.set_min_duration env;
  migrate = Admin.migrate env;
  get_admin_log = Admin.get_admin_log env;
  archive_stream = Manage.archive_stream env;
  add_fee_exempt = Admin.add_fee_exempt env;
  remove_fee_exempt = Admin.remove_fee_exempt env;
  is_fee_exempt = Queries.is_fee_exempt;
  set_guardian = Admin.set_guardian env;
  get_guardian = Queries.get_guardian;
  set_governance = Admin.set_governance env;
  get_governance = Queries.get_governance;
  pause = Admin.pause env;
  unpause = Admin.unpause env;
  get_pause_expiry = Queries.get_pause_expiry;
  set_creation_fee = Fees.set_creation_fee env;
  get_creation_fee = Fees.get_creation_fee;
}
