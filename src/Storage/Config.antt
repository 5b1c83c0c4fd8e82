-- ===== src/Storage/Config.antt =====
-- contracts/stream/src/storage.rs: the contract-wide settings in instance storage.
use Prim.Native.String.{String}
use sorostream_contracts.Prelude.{
  ℕ, ◌++◌, Bool, false, Option, none, some, List, [], ◌∷◌, unwrap_or,
}
use sorostream_contracts.Prelude.Int.{ℤ, pos}
use sorostream_contracts.Types.{Address}
use sorostream_contracts.Call.{or_panic, ◌>>=◌}
use sorostream_contracts.Env.{Env, World, Exec, require_auth}

module _ {C : Type 0} where
  unfoldable pub write_admin : Address → World C → World C
  write_admin admin w = record w { inst = record w.inst { admin = some admin } }

  unfoldable pub read_admin : World C → Option Address
  read_admin w = w.inst.admin

  -- The admin's own authorization is what is required; who calls is not looked at.
  unfoldable pub check_admin : Env C → Exec C (Unit {0})
  unfolding read_admin require_auth
  check_admin env w = (or_panic (read_admin w) >>= require_auth env) w

  unfoldable pub write_guardian : Address → World C → World C
  write_guardian guardian w = record w { inst = record w.inst { guardian = some guardian } }

  unfoldable pub read_guardian : World C → Option Address
  read_guardian w = w.inst.guardian

  unfoldable pub write_governance : Address → World C → World C
  write_governance governance w = record w { inst = record w.inst { governance = some governance } }

  unfoldable pub read_governance : World C → Option Address
  read_governance w = w.inst.governance

  -- in basis points
  unfoldable pub get_protocol_fee : World C → ℕ
  get_protocol_fee w = unwrap_or w.inst.fee_bps 0

  unfoldable pub set_protocol_fee : ℕ → World C → World C
  set_protocol_fee fee_bps w = record w { inst = record w.inst { fee_bps = some fee_bps } }

  unfoldable pub read_pending_fee_proposal : World C → Option (ℕ × ℕ)
  read_pending_fee_proposal w = w.inst.pending_fee

  unfoldable pub write_pending_fee_proposal : ℕ → ℕ → World C → World C
  write_pending_fee_proposal new_fee_bps unlock_time w = record w {
    inst = record w.inst { pending_fee = some (new_fee_bps, unlock_time) };
  }

  unfoldable pub clear_pending_fee_proposal : World C → World C
  clear_pending_fee_proposal w = record w { inst = record w.inst { pending_fee = none } }

  unfoldable pub get_treasury : World C → Option Address
  get_treasury w = w.inst.treasury

  unfoldable pub set_treasury : Address → World C → World C
  set_treasury treasury w = record w { inst = record w.inst { treasury = some treasury } }

  -- seconds
  unfoldable pub read_min_duration : World C → ℕ
  read_min_duration w = unwrap_or w.inst.min_duration 3600

  unfoldable pub write_min_duration : ℕ → World C → World C
  write_min_duration duration w = record w { inst = record w.inst { min_duration = some duration } }

  unfoldable pub write_version : String → World C → World C
  write_version version w = record w { inst = record w.inst { version = some version } }

  unfoldable pub read_version : World C → Option String
  read_version w = w.inst.version

  unfoldable pub get_max_streams_per_sender : World C → ℕ
  get_max_streams_per_sender w = unwrap_or w.inst.max_streams 1000

  unfoldable pub set_max_streams_per_sender : ℕ → World C → World C
  set_max_streams_per_sender max_streams w = record w {
    inst = record w.inst { max_streams = some max_streams };
  }

  unfoldable pub get_withdrawal_cooldown : World C → ℕ
  get_withdrawal_cooldown w = unwrap_or w.inst.withdrawal_cooldown 0

  unfoldable pub set_withdrawal_cooldown : ℕ → World C → World C
  set_withdrawal_cooldown cooldown w = record w {
    inst = record w.inst { withdrawal_cooldown = some cooldown };
  }

  unfoldable pub is_whitelist_enabled : World C → Bool
  is_whitelist_enabled w = unwrap_or w.inst.whitelist_enabled false

  unfoldable pub set_whitelist_enabled : Bool → World C → World C
  set_whitelist_enabled enabled w = record w {
    inst = record w.inst { whitelist_enabled = some enabled };
  }

  -- stroops
  unfoldable pub get_creation_fee_xlm : World C → ℤ
  get_creation_fee_xlm w = unwrap_or w.inst.creation_fee_xlm (pos 0)

  unfoldable pub set_creation_fee_xlm : ℤ → World C → World C
  set_creation_fee_xlm fee w = record w { inst = record w.inst { creation_fee_xlm = some fee } }

  unfoldable pub get_xlm_token : World C → Option Address
  get_xlm_token w = w.inst.xlm_token

  unfoldable pub set_xlm_token : Address → World C → World C
  set_xlm_token xlm_token w = record w { inst = record w.inst { xlm_token = some xlm_token } }

  unfoldable pub read_applied_migrations : World C → List String
  read_applied_migrations w = unwrap_or w.inst.applied_migrations []

  unfoldable pub record_migration : String → World C → World C
  unfolding read_applied_migrations
  record_migration version w =
      let applied = read_applied_migrations w in
      record w { inst = record w.inst { applied_migrations = some (applied ++ version ∷ []) } }
