-- ===== src/Contract/Timelock.antt =====
-- contracts/stream/src/lib.rs: the time that a proposed fee waits and that a pause lasts.
use sorostream_contracts.Prelude.{
  ℕ, ◌+◌, ◌≤◌, ◌<◌, ◌≡◌, refl, ap, Bool, true, false, some, arith, ltb, leb, if◌then◌else◌,
  unwrap_or, Bool-cases, inl, inr, ltb→le,
}
use sorostream_contracts.Prelude.Machine.{u64_max, checked_add_u64}
use sorostream_contracts.Types.{Address, StreamError, fee_change_executed, stream_locked}
use sorostream_contracts.Call.{Outcome, ok, err, gets, or_err, pure, modify, fail_if, ◌>>=◌}
use sorostream_contracts.Call.Rules.{
  Ensures, Ensures-bind, Ensures-weaken, Ensures-gets, Ensures-or_err, Ensures-or_panic,
  Ensures-fail_if, Ensures-panic_if, Ensures-modify, Ensures-modify_last,
}
use sorostream_contracts.Env.{Env, World, require_auth, publish}
use sorostream_contracts.Storage.Config
use sorostream_contracts.Storage.Config.{
  get_protocol_fee, read_admin, read_pending_fee_proposal, write_pending_fee_proposal,
  clear_pending_fee_proposal, check_admin,
}
use sorostream_contracts.Storage.Pausing.{
  is_paused, set_paused, set_pause_expiry, get_pause_expiry, max_pause_duration,
  is_paused_or_auto_unpause, auto_unpause,
}
use sorostream_contracts.Storage.Audit.{append_audit_entry, append_entry}
use sorostream_contracts.Contract.Admin.{emergency_pause, pause}
use sorostream_contracts.Contract.Fees.{fee_timelock, propose_fee_change, execute_fee_change}
use sorostream_contracts.Contract.Frames.Settings.{check_admin-core}

deadline : (t d : ℕ) → t + d ≤ u64_max → unwrap_or (checked_add_u64 t d) u64_max ≡ t + d
deadline t d h = ground arith

-- What `execute_fee_change` writes.
abbrev pub executed : {C : Type 0} → ℕ → World C → World C
executed bps w =
    publish (fee_change_executed bps) (clear_pending_fee_proposal (Config.set_protocol_fee bps w))

-- What `execute_fee_change` answers while the fee `bps` waits for the time `unlock`.
abbrev pub timelocked :
    {C : Type 0} → ℕ → ℕ → Env C → World C → Outcome StreamError (Unit {0} × World C)
timelocked bps unlock env w =
    if ltb env.timestamp unlock then err stream_locked else ok (tt, executed bps w)

module _ {C : Type 0} where
  pending-timelocked :
      (bps unlock : ℕ) (later : Env C) (w : World C)
      → read_pending_fee_proposal w ≡ some (bps, unlock)
      → execute_fee_change later w ≡ timelocked bps unlock later w
  unfolding execute_fee_change gets or_err modify fail_if ◌>>=◌
  pending-timelocked bps unlock later w e = elim (Bool-cases (ltb later.timestamp unlock)) [
    | inl h ↦ rw (e, h) refl
    | inr h ↦ rw (e, h) refl
  ]

  -- If propose_fee_change returns, at a time that is at least seven days before the end of the
  -- 64-bit clock, then the proposed fee is at most 10000 basis points, and execute_fee_change in
  -- the world that the proposal leaves, at any host, answers stream_locked before seven days have
  -- passed and from then on sets the protocol fee to the proposed one and clears the proposal.
  pub propose_fee_change-timelocked :
      (env : Env C) (admin : Address) (bps : ℕ) (w : World C)
      → env.timestamp + fee_timelock ≤ u64_max
      → Ensures (propose_fee_change env admin bps) w (λ _ w'.
        (bps ≤ 10000)
        × ((later : Env C)
            → execute_fee_change later w' ≡ timelocked bps (env.timestamp + fee_timelock) later w'))
  unfolding propose_fee_change require_auth read_pending_fee_proposal publish
      write_pending_fee_proposal
  propose_fee_change-timelocked env admin bps w clock = Ensures-panic_if λ _. Ensures-gets _ _ (
      Ensures-or_err _ λ a found. Ensures-fail_if _ λ _. Ensures-fail_if _ λ small.
        Ensures-modify _ (
          Ensures-modify_last _ (
            ltb→le _ _ small,
            λ later.
                pending-timelocked bps _ later _
                  (ap (λ u. some (bps, u)) (deadline env.timestamp fee_timelock clock)),
          )))

  -- What the test for a pause answers while one lasts until `expiry`.
  abbrev pub paused_until : ℕ → Env C → World C → Outcome StreamError (Bool × World C)
  paused_until expiry env w =
      if leb expiry env.timestamp
      then ok (false, set_pause_expiry 0 (set_paused false w))
      else ok (true, w)

  expiring-paused_until :
      (expiry : ℕ) (later : Env C) (w : World C)
      → is_paused w ≡ true
      → get_pause_expiry w ≡ expiry
      → 0 < expiry
      → is_paused_or_auto_unpause later w ≡ paused_until expiry later w
  unfolding is_paused_or_auto_unpause auto_unpause gets pure modify ◌>>=◌
  expiring-paused_until expiry later w p e positive =
      let set : ltb 0 expiry ≡ true = ground arith in
      elim (Bool-cases (leb expiry later.timestamp)) [
        | inl h ↦ rw (p, e, set, h) refl
        | inr h ↦ rw (p, e, set, h) refl
      ]

  -- If emergency_pause or the guardian's pause returns, at a time that is at least the longest
  -- pause before the end of the 64-bit clock, then in the world that it leaves the test for a
  -- pause, at any host, answers true without a write before the longest pause is over, and from
  -- then on answers false and clears the pause.
  pub pause-paused_until :
      (env : Env C) (guardian : Address) (w : World C)
      → env.timestamp + max_pause_duration ≤ u64_max
      → Ensures (emergency_pause env) w (λ _ w'.
        (later : Env C)
        → is_paused_or_auto_unpause later w'
          ≡ paused_until (env.timestamp + max_pause_duration) later w')
        × Ensures (pause env guardian) w (λ _ w'.
          (later : Env C)
          → is_paused_or_auto_unpause later w'
            ≡ paused_until (env.timestamp + max_pause_duration) later w')
  unfolding emergency_pause pause check_admin require_auth publish append_audit_entry append_entry
      is_paused set_paused get_pause_expiry set_pause_expiry
  pause-paused_until env guardian w clock = (
    Ensures-bind (λ _ _. Unit {0}) (Ensures-weaken ((check_admin-core env).at w) (λ _ _ _. tt))
        λ _ w₁ _. Ensures-modify _ (
          Ensures-modify _ (
            Ensures-gets _ _ (
              Ensures-or_panic λ a _. Ensures-modify _ (
                Ensures-modify _ (
                  Ensures-modify_last _ λ later.
                    expiring-paused_until _ later _ refl
                      (deadline env.timestamp max_pause_duration clock) (omega arith)))))),
    Ensures-panic_if λ _. Ensures-gets _ _ (
        Ensures-or_err _ λ a _. Ensures-fail_if _ λ _. Ensures-modify _ (
          Ensures-modify _ (
            Ensures-modify_last _ λ later.
              expiring-paused_until _ later _ refl (deadline env.timestamp max_pause_duration clock)
                (omega arith)))),
  )
