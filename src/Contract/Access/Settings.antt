-- ===== src/Contract/Access/Settings.antt =====
-- contracts/stream/src/lib.rs, the entry points on the settings and the roles: what has been checked when
-- they return.
use Prim.Native.String.{String}
use sorostream_contracts.Prelude.{ℕ, ◌≡◌, refl, ap, sym, true, ◌&&◌, arith}
use sorostream_contracts.Types.{Address, Bytes}
use sorostream_contracts.Call.{◌>>=◌, ◌>>◌, or_panic}
use sorostream_contracts.Call.Rules.{
  Ensures, Ensures-bind, Ensures-gets, Ensures-or_err, Ensures-fail_if, Ensures-panic_if,
  Ensures-panic_if_last, Ensures-weaken, Ensures-or_panic,
}
use sorostream_contracts.Env.{Env, World, Exec, require_auth}
use sorostream_contracts.Storage.Config.{check_admin, read_admin, read_applied_migrations}
use sorostream_contracts.Contract.Admin.{
  initialize, pause, unpause, upgrade, migrate, contains, both_auths, set_min_duration,
}
use sorostream_contracts.Contract.Fees.{propose_fee_change, execute_fee_change}
use sorostream_contracts.Contract.Action.{Action}
use sorostream_contracts.Contract.Sound.{not-false}
use sorostream_contracts.Contract.Access.{permits, by_admin}
use sorostream_contracts.Contract.Access.Streams.{settled, Permitted}

module _ {C : Type 0} (env : Env C) (w : World C) where
  -- A check that leaves the world alone, and what it has seen.
  abbrev Checked : Type 0 → Unit {0} → World C → Type 0
  Checked P _ w' = (w' ≡ w) × P

  require_auth-permitted :
      (a : Address) → Ensures (require_auth env a) w (Checked (env.authorized a ≡ true))
  unfolding require_auth
  require_auth-permitted a = Ensures-panic_if_last λ auth. (refl, not-false _ auth)

  check_admin-permitted : Ensures (check_admin env) w (Checked (by_admin env w ≡ true))
  unfolding check_admin
  check_admin-permitted =
      let checked : Ensures (or_panic (read_admin w) >>= require_auth env) w
          (Checked (by_admin env w ≡ true)) =
        Ensures-or_panic λ a found.
          Ensures-weaken (require_auth-permitted a) (λ _ w' p. (p.0, rw (by_admin, found) p.1)) in
      record { returned = checked.returned }

  -- Of a call that begins with the check of the admin.
  pub admin_first :
      {A : Type 0} (n : Exec C A) → Ensures (check_admin env >> n) w (λ _ _. by_admin env w ≡ true)
  admin_first n = Ensures-bind _ check_admin-permitted λ _ w' p. settled p.1

  pub both_first :
      (a : Address) (n : Exec C (Unit {0}))
      → Ensures (both_auths env a >> n) w (λ _ _. (by_admin env w && env.authorized a) ≡ true)
  unfolding both_auths require_auth
  both_first a n =
      Ensures-bind (λ _ _. (by_admin env w && env.authorized a) ≡ true)
        (Ensures-bind _ check_admin-permitted
          λ _ w' p. Ensures-panic_if_last λ auth. rw (p.1, not-false _ auth) refl)
        λ _ w' p. settled p

  pub initialize-Permitted :
      (a : Address) (v : String) → Permitted env (initialize env a v) w (Action.initialize a v)
  unfolding initialize
  initialize-Permitted a v = Ensures-gets _ _ (Ensures-fail_if _ λ unset. settled (rw unset refl))

  pub pause-Permitted : (a : Address) → Permitted env (pause env a) w (Action.pause a)
  unfolding pause require_auth
  pause-Permitted a = Ensures-panic_if λ auth. Ensures-gets _ _ (
      Ensures-or_err _
        λ g found. Ensures-fail_if _ λ same. settled (rw (not-false _ auth, found) (ground arith)))

  pub unpause-Permitted : (a : Address) → Permitted env (unpause env a) w (Action.unpause a)
  unfolding unpause require_auth
  unpause-Permitted a = Ensures-panic_if λ auth. Ensures-gets _ _ (
      Ensures-or_err _
        λ g found. Ensures-fail_if _ λ same. settled (rw (not-false _ auth, found) (ground arith)))

  pub upgrade-Permitted : (hash : Bytes) → Permitted env (upgrade env hash) w (Action.upgrade hash)
  unfolding upgrade require_auth
  upgrade-Permitted hash = Ensures-gets _ _ (
      Ensures-or_err _
        λ a found. Ensures-panic_if λ auth. settled (rw (by_admin, found) (not-false _ auth)))

  pub migrate-Permitted : (u v : String) → Permitted env (migrate env u v) w (Action.migrate u v)
  unfolding migrate
  migrate-Permitted u v = Ensures-bind _ check_admin-permitted λ _ w' p. Ensures-gets _ _ (
      Ensures-fail_if _ λ new.
        settled (rw (p.1, sym (ap (λ x. contains (read_applied_migrations x) v) p.0), new) refl))

  pub propose_fee_change-Permitted :
      (a : Address) (n : ℕ)
      → Permitted env (propose_fee_change env a n) w (Action.propose_fee_change a n)
  unfolding propose_fee_change require_auth
  propose_fee_change-Permitted a n = Ensures-panic_if λ auth. Ensures-gets _ _ (
      Ensures-or_err _ λ admin found.
        Ensures-fail_if _ λ same. settled (rw (not-false _ auth, found) (ground arith)))

  pub execute_fee_change-Permitted :
      Permitted env (execute_fee_change env) w Action.execute_fee_change
  unfolding execute_fee_change
  execute_fee_change-Permitted = Ensures-gets _ _ (
      Ensures-or_err _ λ proposal found.
        Ensures-fail_if _ λ unlocked. settled (rw (permits, found) (ground arith)))

  pub set_min_duration-Permitted :
      (a : Address) (n : ℕ)
      → Permitted env (set_min_duration env a n) w (Action.set_min_duration a n)
  unfolding set_min_duration require_auth
  set_min_duration-Permitted a n = Ensures-panic_if λ auth. settled (not-false _ auth)
