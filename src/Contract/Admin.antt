-- ===== src/Contract/Admin.antt =====
-- contracts/stream/src/lib.rs: initialisation, roles, the contract-wide pause, limits, the whitelist,
-- the fee exemptions, upgrade, migration and the audit log.
use Prim.Native.String.{String}
use text.Mathlib.Text.{◌==◌ as str_eq}
use sorostream_contracts.Prelude.{
  ℕ, Bool, true, false, List, [], ◌∷◌, ◌!=◌, if◌then◌else◌, is_some, unwrap_or,
}
use sorostream_contracts.Prelude.Machine.{checked_add_u64, u64_max}
use sorostream_contracts.Types.{
  Address, Bytes, AuditEntry, already_initialized, not_initialized, not_authorized,
  migration_already_applied, contract_deployed, contract_paused_event, contract_resumed,
  admin_action, contract_migrated, guardian_paused, governance_unpaused,
}
use sorostream_contracts.Call.{gets, or_err, or_panic, modify, fail_if, ◌>>=◌, ◌>>◌}
use sorostream_contracts.Env.{Env, World, Exec, require_auth, publish}
use sorostream_contracts.Storage.Config.{
  write_admin, read_admin, check_admin, write_version, read_version, write_guardian, read_guardian,
  write_governance, read_governance, set_max_streams_per_sender, write_min_duration,
  read_min_duration, read_applied_migrations, record_migration,
}
use sorostream_contracts.Storage.Config
use sorostream_contracts.Storage.Access
use sorostream_contracts.Storage.Pausing.{
  set_paused, set_pause_expiry, max_pause_duration, is_paused_or_auto_unpause,
}
use sorostream_contracts.Storage.Audit.{append_audit_entry, read_audit_log}

-- `Vec::contains`
unfoldable pub contains : List String → String → Bool
contains [] s = false
contains (t ∷ ts) s = let rest = contains ts s in if str_eq t s then true else rest

module _ {C : Type 0} (env : Env C) where
  unfoldable pub initialize : Address → String → Exec C (Unit {0})
  initialize admin version = do
    current ← gets read_admin
    fail_if (is_some current) already_initialized
    modify (write_admin admin)
    modify (write_version version)
    modify (publish (contract_deployed version admin))

  unfoldable pub get_admin : Exec C Address
  get_admin = do or_err (← gets read_admin) not_initialized

  unfoldable pub get_version : Exec C String
  get_version = do or_err (← gets read_version) not_initialized

  unfoldable pub set_admin : Address → Exec C (Unit {0})
  set_admin new_admin = do check_admin env; modify (write_admin new_admin)

  -- The entry in the audit log and its event.
  log_action : String → Address → String → Exec C (Unit {0})
  log_action instruction admin params = do
    let entry : AuditEntry = record {
      instruction = instruction;
      admin = admin;
      timestamp = env.timestamp;
      params = params;
    }
    modify (append_audit_entry entry)
    modify (publish (admin_action instruction admin env.timestamp))

  abbrev pub pause_end : ℕ
  pause_end = unwrap_or (checked_add_u64 env.timestamp max_pause_duration) u64_max

  unfoldable pub emergency_pause : Exec C (Unit {0})
  unfolding log_action
  emergency_pause = do
    check_admin env
    modify (set_paused true)
    modify (set_pause_expiry pause_end)
    admin ← or_panic (← gets read_admin)
    modify (publish (contract_paused_event admin env.timestamp))
    log_action "emergency_pause" admin ""

  unfoldable pub emergency_resume : Exec C (Unit {0})
  unfolding log_action
  emergency_resume = do
    check_admin env
    modify (set_paused false)
    modify (set_pause_expiry 0)
    admin ← or_panic (← gets read_admin)
    modify (publish (contract_resumed admin env.timestamp))
    log_action "emergency_resume" admin ""

  unfoldable pub is_paused : Exec C Bool
  is_paused = is_paused_or_auto_unpause env

  unfoldable pub set_guardian : Address → Exec C (Unit {0})
  set_guardian guardian = do check_admin env; modify (write_guardian guardian)

  unfoldable pub set_governance : Address → Exec C (Unit {0})
  set_governance governance = do check_admin env; modify (write_governance governance)

  unfoldable pub pause : Address → Exec C (Unit {0})
  pause guardian = do
    require_auth env guardian
    stored_guardian ← or_err (← gets read_guardian) not_authorized
    fail_if (guardian != stored_guardian) not_authorized
    modify (set_paused true)
    modify (set_pause_expiry pause_end)
    modify (publish (guardian_paused guardian env.timestamp))

  unfoldable pub unpause : Address → Exec C (Unit {0})
  unpause governance = do
    require_auth env governance
    stored_governance ← or_err (← gets read_governance) not_authorized
    fail_if (governance != stored_governance) not_authorized
    modify (set_paused false)
    modify (set_pause_expiry 0)
    modify (publish (governance_unpaused governance env.timestamp))

  unfoldable pub add_fee_exempt : Address → Exec C (Unit {0})
  add_fee_exempt addr = do check_admin env; modify (Access.add_fee_exempt addr)

  unfoldable pub remove_fee_exempt : Address → Exec C (Unit {0})
  remove_fee_exempt addr = do check_admin env; modify (Access.remove_fee_exempt addr)

  abbrev with_wasm : Bytes → World C → World C
  with_wasm hash w = record w { chain = env.update_current_contract_wasm hash w.chain }

  unfoldable pub upgrade : Bytes → Exec C (Unit {0})
  upgrade new_wasm_hash = do
    admin ← or_err (← gets read_admin) not_initialized
    require_auth env admin
    modify (with_wasm new_wasm_hash)

  unfoldable pub set_max_streams : ℕ → Exec C (Unit {0})
  set_max_streams max_streams = do check_admin env; modify (set_max_streams_per_sender max_streams)

  unfoldable pub set_sender_stream_limit : Address → ℕ → Exec C (Unit {0})
  set_sender_stream_limit sender limit = do
    check_admin env
    modify (Access.set_sender_limit sender limit)

  unfoldable pub migrate : String → String → Exec C (Unit {0})
  unfolding log_action contains
  migrate from_version to_version = do
    check_admin env
    applied ← gets read_applied_migrations
    fail_if (contains applied to_version) migration_already_applied
    modify (write_version to_version)
    modify (record_migration to_version)
    admin ← or_panic (← gets read_admin)
    modify (publish (contract_migrated from_version to_version admin))
    log_action "migrate" admin to_version

  unfoldable pub get_admin_log : Exec C (List AuditEntry)
  get_admin_log = gets read_audit_log

  -- The address that authorizes this is the caller's choice: it is not compared with the admin.
  unfoldable pub set_min_duration : Address → ℕ → Exec C (Unit {0})
  set_min_duration admin seconds = do require_auth env admin; modify (write_min_duration seconds)

  -- The four settings below want two authorizations, the stored admin's and the given address's.
  unfoldable pub both_auths : Address → Exec C (Unit {0})
  both_auths admin = do check_admin env; require_auth env admin

  unfoldable pub set_withdrawal_cooldown : Address → ℕ → Exec C (Unit {0})
  unfolding both_auths
  set_withdrawal_cooldown admin cooldown_seconds = do
    both_auths admin
    modify (Config.set_withdrawal_cooldown cooldown_seconds)

  unfoldable pub set_whitelist_enabled : Address → Bool → Exec C (Unit {0})
  unfolding both_auths
  set_whitelist_enabled admin enabled = do
    both_auths admin
    modify (Config.set_whitelist_enabled enabled)

  unfoldable pub add_to_whitelist : Address → Address → Exec C (Unit {0})
  unfolding both_auths
  add_to_whitelist admin recipient = do both_auths admin; modify (Access.add_to_whitelist recipient)

  unfoldable pub remove_from_whitelist : Address → Address → Exec C (Unit {0})
  unfolding both_auths
  remove_from_whitelist admin recipient = do
    both_auths admin
    modify (Access.remove_from_whitelist recipient)
