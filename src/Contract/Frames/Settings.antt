-- ===== src/Contract/Frames/Settings.antt =====
-- contracts/stream/src/lib.rs, the entry points that change roles, limits, fees and the pause: the
-- stored streams.
use Prim.Native.String.{String}
use sorostream_contracts.Prelude.{ℕ, Bool}
use sorostream_contracts.Prelude.Int.{ℤ}
use sorostream_contracts.Types.{Address, Bytes, StreamError}
use sorostream_contracts.Call.{or_panic, ◌>>=◌}
use sorostream_contracts.Call.Unchanged.{Unchanged, unchanged_rules}
use sorostream_contracts.Env.{Env, Invocation, invoke, require_auth, publish}
use sorostream_contracts.Storage.Config
use sorostream_contracts.Storage.Config.{
  check_admin, read_admin, write_admin, write_version, record_migration, write_guardian,
  write_governance, write_min_duration, set_max_streams_per_sender, write_pending_fee_proposal,
  clear_pending_fee_proposal, set_treasury, set_creation_fee_xlm, set_xlm_token,
}
use sorostream_contracts.Storage.Pausing.{set_paused, set_pause_expiry}
use sorostream_contracts.Storage.Access
use sorostream_contracts.Storage.Audit.{append_audit_entry, append_entry}
use sorostream_contracts.Contract.Admin
use sorostream_contracts.Contract.Admin.{
  initialize, emergency_pause, emergency_resume, set_guardian, set_governance, pause, unpause,
  upgrade, set_max_streams, set_sender_stream_limit, migrate, set_min_duration,
}
use sorostream_contracts.Contract.Fees
use sorostream_contracts.Contract.Fees.{
  set_treasury_address, propose_fee_change, execute_fee_change, set_creation_fee, withdraw_treasury,
  withdraw_all_from_treasury,
}
use sorostream_contracts.Contract.Frames.{core_of, streams_of, require_auth-core}

module _ {C : Type 0} (env : Env C) where
  pub check_admin-core : Unchanged core_of (check_admin env)
  unfolding check_admin
  check_admin-core = record {
    at = λ w.
        let asked : Unchanged core_of
            (or_panic {E = StreamError} (read_admin w) >>= require_auth env) =
          search unchanged_rules in
        record { returned = (asked.at w).returned };
  }

  pub initialize-core : (a : Address) (v : String) → Unchanged core_of (initialize env a v)
  unfolding initialize write_admin write_version publish
  initialize-core a v = search unchanged_rules depth 12

  pub emergency_pause-core : Unchanged core_of (emergency_pause env)
  unfolding emergency_pause set_paused set_pause_expiry publish append_audit_entry append_entry
  emergency_pause-core = search (unchanged_rules, check_admin-core) depth 12

  pub emergency_resume-core : Unchanged core_of (emergency_resume env)
  unfolding emergency_resume set_paused set_pause_expiry publish append_audit_entry append_entry
  emergency_resume-core = search (unchanged_rules, check_admin-core) depth 12

  pub set_admin-core : (a : Address) → Unchanged core_of (Admin.set_admin env a)
  unfolding Admin.set_admin write_admin
  set_admin-core a = search (unchanged_rules, check_admin-core)

  pub set_guardian-core : (a : Address) → Unchanged core_of (set_guardian env a)
  unfolding set_guardian write_guardian
  set_guardian-core a = search (unchanged_rules, check_admin-core)

  pub set_governance-core : (a : Address) → Unchanged core_of (set_governance env a)
  unfolding set_governance write_governance
  set_governance-core a = search (unchanged_rules, check_admin-core)

  pub pause-core : (a : Address) → Unchanged core_of (pause env a)
  unfolding pause set_paused set_pause_expiry publish
  pause-core a = search (unchanged_rules, require_auth-core) depth 12

  pub unpause-core : (a : Address) → Unchanged core_of (unpause env a)
  unfolding unpause set_paused set_pause_expiry publish
  unpause-core a = search (unchanged_rules, require_auth-core) depth 12

  pub add_fee_exempt-core : (a : Address) → Unchanged core_of (Admin.add_fee_exempt env a)
  unfolding Admin.add_fee_exempt Access.add_fee_exempt
  add_fee_exempt-core a = search (unchanged_rules, check_admin-core)

  pub remove_fee_exempt-core : (a : Address) → Unchanged core_of (Admin.remove_fee_exempt env a)
  unfolding Admin.remove_fee_exempt Access.remove_fee_exempt
  remove_fee_exempt-core a = search (unchanged_rules, check_admin-core)

  pub upgrade-core : (hash : Bytes) → Unchanged core_of (upgrade env hash)
  unfolding upgrade
  upgrade-core hash = search (unchanged_rules, require_auth-core) depth 8

  pub set_max_streams-core : (n : ℕ) → Unchanged core_of (set_max_streams env n)
  unfolding set_max_streams set_max_streams_per_sender
  set_max_streams-core n = search (unchanged_rules, check_admin-core)

  pub set_sender_stream_limit-core :
      (a : Address) (n : ℕ) → Unchanged core_of (set_sender_stream_limit env a n)
  unfolding set_sender_stream_limit Access.set_sender_limit
  set_sender_stream_limit-core a n = search (unchanged_rules, check_admin-core)

  pub migrate-core : (u v : String) → Unchanged core_of (migrate env u v)
  unfolding migrate write_version record_migration publish append_audit_entry append_entry
  migrate-core u v = search (unchanged_rules, check_admin-core) depth 14

  pub set_min_duration-core : (a : Address) (n : ℕ) → Unchanged core_of (set_min_duration env a n)
  unfolding set_min_duration write_min_duration
  set_min_duration-core a n = search (unchanged_rules, require_auth-core)

  pub set_withdrawal_cooldown-core :
      (a : Address) (n : ℕ) → Unchanged core_of (Admin.set_withdrawal_cooldown env a n)
  unfolding Admin.set_withdrawal_cooldown Config.set_withdrawal_cooldown
  set_withdrawal_cooldown-core a n = search (unchanged_rules, check_admin-core, require_auth-core)

  pub set_whitelist_enabled-core :
      (a : Address) (b : Bool) → Unchanged core_of (Admin.set_whitelist_enabled env a b)
  unfolding Admin.set_whitelist_enabled Config.set_whitelist_enabled
  set_whitelist_enabled-core a b = search (unchanged_rules, check_admin-core, require_auth-core)

  pub add_to_whitelist-core : (a r : Address) → Unchanged core_of (Admin.add_to_whitelist env a r)
  unfolding Admin.add_to_whitelist Access.add_to_whitelist
  add_to_whitelist-core a r = search (unchanged_rules, check_admin-core, require_auth-core)

  pub remove_from_whitelist-core :
      (a r : Address) → Unchanged core_of (Admin.remove_from_whitelist env a r)
  unfolding Admin.remove_from_whitelist Access.remove_from_whitelist
  remove_from_whitelist-core a r = search (unchanged_rules, check_admin-core, require_auth-core)

  pub propose_fee_change-streams :
      (a : Address) (n : ℕ) → Unchanged streams_of (propose_fee_change env a n)
  unfolding propose_fee_change require_auth write_pending_fee_proposal publish
  propose_fee_change-streams a n = search unchanged_rules depth 12

  pub execute_fee_change-streams : Unchanged streams_of (execute_fee_change env)
  unfolding execute_fee_change Config.set_protocol_fee clear_pending_fee_proposal publish
  execute_fee_change-streams = search unchanged_rules depth 12

  pub set_creation_fee-core :
      (fee : ℤ) (token : Address) → Unchanged core_of (set_creation_fee env fee token)
  unfolding set_creation_fee set_creation_fee_xlm set_xlm_token
  set_creation_fee-core fee token = search (unchanged_rules, check_admin-core) depth 8

  invoke-core : (a : Address) (i : Invocation) → Unchanged core_of (invoke env a i)
  unfolding invoke
  invoke-core a i = search unchanged_rules depth 8

  pub withdraw_treasury-core :
      (token : Address) (n : ℤ) (to : Address)
      → Unchanged core_of (withdraw_treasury env token n to)
  unfolding withdraw_treasury
  withdraw_treasury-core token n to =
      search (unchanged_rules, check_admin-core, invoke-core) depth 8

  pub withdraw_all_from_treasury-core :
      (token to : Address) → Unchanged core_of (withdraw_all_from_treasury env token to)
  unfolding withdraw_all_from_treasury
  withdraw_all_from_treasury-core token to =
      search (unchanged_rules, check_admin-core, invoke-core) depth 8

module _ {C : Type 0} where
  pub set_protocol_fee-streams : (n : ℕ) → Unchanged streams_of (Fees.set_protocol_fee {C = C} n)
  unfolding Fees.set_protocol_fee Config.set_protocol_fee
  set_protocol_fee-streams n = search unchanged_rules

  pub set_treasury_address-core : (a : Address) → Unchanged core_of (set_treasury_address {C = C} a)
  unfolding set_treasury_address set_treasury
  set_treasury_address-core a = search unchanged_rules
