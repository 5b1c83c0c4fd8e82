-- ===== src/Contract/Settle/Withdrawn.antt =====
-- contracts/stream/src/lib.rs, `withdraw` and `recipient_terminate`: when they go through, and what they
-- leave.
use sorostream_contracts.Prelude.{
  ℕ, ◌+◌, ◌-◌, ◌*◌, ◌<◌, ◌≤◌, ◌≡◌, refl, ap, ◌∙◌, true, false, ◌&&◌, some, ltb, leb, min, arith,
  ◌!=◌,
}
use sorostream_contracts.Prelude.Int.{ℤ, pos, ltb_ℤ}
use sorostream_contracts.Prelude.Machine.{
  i128_bound, checked_add_i128, checked_add_i128-pos, saturating_add_u64,
}
use sorostream_contracts.Types.{Address, Stream, is_active, stream_withdrawn}
use sorostream_contracts.Call.{ok, pure, gets, or_err, fail_if, panic_if, modify, ◌>>=◌}
use sorostream_contracts.Env.{Env, World, require_auth, publish, on_stream_withdraw, try_invoke}
use sorostream_contracts.Storage.Pausing.{is_paused, is_paused_or_auto_unpause}
use sorostream_contracts.Storage.Config.{get_withdrawal_cooldown}
use sorostream_contracts.Storage.Streams.{load_stream, save_stream}
use sorostream_contracts.Vesting.{compute_claimable}
use sorostream_contracts.Vesting.Bounds.{elapsed, compute_claimable-late, compute_earned-pos}
use sorostream_contracts.Contract.Payment.{
  pay_fee_announced, pay_claim, add_withdrawn, guard_deposit,
}
use sorostream_contracts.Contract.Withdraw.{withdraw, claim}
use sorostream_contracts.Contract.Sound.{IsSound, earned_covered}

module _ {C : Type 0} (env : Env C) where
  -- What a sound stream owes at the time of the ledger, after its cliff and before its end.
  abbrev pub owed : (s : Stream) → IsSound env.timestamp s → ℕ
  owed s h = h.rate * (env.timestamp - s.last_withdraw_time)

  pub unpaused :
      (w : World C) → is_paused w ≡ false → is_paused_or_auto_unpause env w ≡ ok (false, w)
  unfolding is_paused_or_auto_unpause ◌>>=◌ gets pure
  unpaused w e = rw e refl

  owed-eq :
      (s : Stream) (h : IsSound env.timestamp s)
      → h.deposited < i128_bound
      → s.cliff_time ≤ env.timestamp
      → env.timestamp < s.end_time
      → (compute_claimable s.flow_rate env.timestamp s.cliff_time s.end_time s.last_withdraw_time
          ≡ some (pos (owed s h)))
        × (h.withdrawn + owed s h ≤ h.deposited)
  owed-eq s h small late early =
      let span : elapsed env.timestamp s.end_time s.last_withdraw_time
          ≡ env.timestamp - s.last_withdraw_time =
        omega arith in
      let covered : h.withdrawn + owed s h ≤ h.deposited =
        let bound = earned_covered env.timestamp env.timestamp s h in rw span at bound in
      (
        rw h.rate_eq (
            compute_claimable-late (pos h.rate) env.timestamp s.cliff_time s.end_time
              s.last_withdraw_time late
            ∙ compute_earned-pos h.rate env.timestamp s.end_time s.last_withdraw_time
                (rw span (omega arith))
            ∙ ap (λ n. some (pos (h.rate * n))) span),
        covered,
      )

  -- What a claim leaves, if the payment goes through.
  claim-eq :
      (s : Stream) (id : ℕ) (r : Address) (n : ℕ) (amount : ℤ) (w w₁ : World C)
      (h : IsSound env.timestamp s)
      → h.deposited < i128_bound
      → h.withdrawn + n ≤ h.deposited
      → pay_claim env pay_fee_announced s id r (pos n) w ≡ ok (amount, w₁)
      → claim env s id r (pos n) w
        ≡ ok (
          record s { total_withdrawn = pos (h.withdrawn + n) },
          try_invoke env r (on_stream_withdraw id amount) w₁,
        )
  unfolding claim guard_deposit add_withdrawn ◌>>=◌ or_err fail_if modify pure
  claim-eq s id r n amount w w₁ h small covered paid =
      let total : checked_add_i128 s.total_withdrawn (pos n) ≡ some (pos (h.withdrawn + n)) =
        rw h.withdrawn_eq (checked_add_i128-pos h.withdrawn n (omega arith)) in
      let within : ltb_ℤ s.deposit (pos (h.withdrawn + n)) ≡ false =
        rw h.deposit_eq (ground arith) in
      rw (total, within, paid) refl

  -- For a sound active stream with a deposit below 2^127, at a time after its lock and cliff and
  -- before its end, in a contract that is not flagged as paused, for its authorized recipient whom
  -- no cooldown holds back, if something is owed and the payment of it goes through, then withdraw
  -- returns, with the stream saved under the new total and time, the callback attempted and the
  -- event published.
  pub withdraw-pays :
      (id : ℕ) (r : Address) (s : Stream) (amount : ℤ) (w w₁ : World C)
      (h : IsSound env.timestamp s)
      → h.deposited < i128_bound
      → is_paused w ≡ false
      → env.authorized r ≡ true
      → load_stream w id ≡ some s
      → s.recipient ≡ r
      → is_active s.status ≡ true
      → s.lock_until ≤ env.timestamp
      → (ltb 0 (get_withdrawal_cooldown w)
          && ltb env.timestamp
              (saturating_add_u64 s.last_withdraw_time (get_withdrawal_cooldown w)))
        ≡ false
      → s.cliff_time ≤ env.timestamp
      → env.timestamp < s.end_time
      → 0 < owed s h
      → pay_claim env pay_fee_announced s id r (pos (owed s h)) w ≡ ok (amount, w₁)
      → withdraw env id r w
        ≡ ok (
          tt,
          publish (stream_withdrawn id r (pos (owed s h)) env.timestamp) (
              save_stream
                (record s {
                  total_withdrawn = pos (h.withdrawn + owed s h);
                  last_withdraw_time = env.timestamp;
                })
                (try_invoke env r (on_stream_withdraw id amount) w₁)),
        )
  unfolding withdraw require_auth gets or_err fail_if panic_if modify ◌>>=◌
  withdraw-pays id r s amount w w₁ h small running auth found mine act unlocked cool late early due
        paid =
      let (answer, covered) = owed-eq s h small late early in
      let own : (s.recipient != r) ≡ false = rw mine (ground arith) in
      let open_now : ltb env.timestamp s.lock_until ≡ false = ground arith in
      let some_due : ltb_ℤ (pos 0) (pos (owed s h)) ≡ true = ground arith in
      let running_on : leb s.end_time env.timestamp ≡ false = ground arith in
      let now : min env.timestamp s.end_time ≡ env.timestamp = omega arith in
      rw
        (
          unpaused w running,
          auth,
          found,
          own,
          act,
          open_now,
          cool,
          answer,
          some_due,
          claim-eq s id r (owed s h) amount w w₁ h small covered paid,
          running_on,
          now,
        )
        refl
