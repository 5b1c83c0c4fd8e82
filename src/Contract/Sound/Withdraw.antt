-- ===== src/Contract/Sound/Withdraw.antt =====
-- contracts/stream/src/lib.rs, `withdraw`: the accounting invariant.
use sorostream_contracts.Prelude.{
  ℕ, ◌+◌, ◌-◌, ◌*◌, ◌≤◌, ◌≡◌, refl, ap, ◌∙◌, true, min, arith, leb, if◌then◌else◌, leb→le,
}
use sorostream_contracts.Prelude.Int.{ℤ, pos, ltb_ℤ}
use sorostream_contracts.Prelude.Machine.{
  checked_add_i128-eq, checked_sub_u64-eq, checked_add_u64-eq,
}
use sorostream_contracts.Types.{Address, Stream, is_active, overflow, Event}
use sorostream_contracts.Call.{pure, modify, ◌>>=◌, ◌>>◌}
use sorostream_contracts.Call.Rules.{
  Ensures, Ensures-bind, Ensures-pure, Ensures-gets, Ensures-or_err, Ensures-or_panic,
  Ensures-fail_if, Ensures-modify, Ensures-modify_last, Ensures-if,
}
use sorostream_contracts.Call.Unchanged.{Unchanged, unchanged_rules}
use sorostream_contracts.Env.{Env, World, Exec, publish, try_invoke}
use sorostream_contracts.Storage.Streams.{load_stream, save_stream}
use sorostream_contracts.Storage.Index.{unindex_by_sender, unindex_by_recipient}
use sorostream_contracts.Vesting.Bounds.{elapsed}
use sorostream_contracts.Contract.Payment.{add_withdrawn, pay_fee_announced}
use sorostream_contracts.Contract.Withdraw.{
  withdraw, claim, finish_cycle, renew, fail_renewal, complete, refund_dust, renew_if_funded,
}
use sorostream_contracts.Contract.Frames.{
  core_of, streams_of, is_paused_or_auto_unpause-core, require_auth-core, transfer-core,
  pay_claim-core, pay_fee_announced-core, guard_deposit-core,
}
use sorostream_contracts.Contract.Sound.{
  IsSound, AllSound, claimed_active-IsSound, active-not_paused, active-live, not-false,
  claimable_due, save_stream-AllSound, remove_stream-AllSound, pass,
}

-- A new cycle of a stream whose time is over.
abbrev pub renewed : Stream → ℕ → Stream
renewed s new_end = record s {
  start_time = s.end_time;
  end_time = new_end;
  last_withdraw_time = s.end_time;
  total_withdrawn = pos 0;
}

renewed-IsSound :
    (now : ℕ) (s : Stream) (h : IsSound now s)
    → is_active s.status ≡ true
    → s.end_time ≤ now
    → IsSound now (renewed s (s.end_time + (s.end_time - s.start_time)))
renewed-IsSound now s h act over = record {
  rate = h.rate;
  deposited = h.deposited;
  withdrawn = 0;
  rate_eq = h.rate_eq;
  deposit_eq = h.deposit_eq;
  withdrawn_eq = refl;
  rate_pos = h.rate_pos;
  started = omega arith;
  not_over = omega arith;
  not_ahead = over;
  pause_after = λ p. absurd (active-not_paused s.status act p);
  withdrawn_le = omega arith;
  covered =
      let span : s.end_time + (s.end_time - s.start_time) - s.end_time ≡ s.end_time - s.start_time =
        omega arith in
      rw span h.covered;
}

module _ {C : Type 0} (env : Env C) where
  abbrev pub SoundAfter : {A : Type 0} → A → World C → Type 0
  SoundAfter a w = AllSound env.timestamp (streams_of w)

  pub renew-AllSound :
      (s : Stream) (w : World C)
      → AllSound env.timestamp (streams_of w)
      → IsSound env.timestamp s
      → is_active s.status ≡ true
      → s.end_time ≤ env.timestamp
      → Ensures (renew env s (s.end_time - s.start_time)) w SoundAfter
  unfolding renew
  renew-AllSound s w h sound act over = pass (require_auth-core env s.sender) h λ _ w₁ h₁.
      pass (transfer-core env s.token s.sender env.current_contract s.deposit) h₁ λ _ w₂ h₂.
        Ensures-or_err _ λ new_end e. Ensures-modify_last _ (
          save_stream-AllSound env.timestamp (renewed s new_end) w₂ h₂ (λ live.
            rw (checked_add_u64-eq s.end_time (s.end_time - s.start_time) e)
              (renewed-IsSound env.timestamp s sound act over)))

  refund_dust-core : (s : Stream) (n : ℤ) → Unchanged core_of (refund_dust env s n)
  unfolding refund_dust
  refund_dust-core s n = search (unchanged_rules, transfer-core)

  pub complete-AllSound :
      (s : Stream) (id : ℕ) (dust : ℤ) (w : World C)
      → AllSound env.timestamp (streams_of w)
      → Ensures (complete env s id dust) w SoundAfter
  unfolding complete publish unindex_by_sender unindex_by_recipient
  complete-AllSound s id dust w h = pass (refund_dust-core s dust) h λ _ w₁ h₁. Ensures-modify _ (
      Ensures-modify _
        (Ensures-modify _ (Ensures-modify_last _ (remove_stream-AllSound env.timestamp id _ h₁))))

  fail_renewal-AllSound :
      (s : Stream) (id : ℕ) (dust : ℤ) (w : World C)
      → AllSound env.timestamp (streams_of w)
      → Ensures (fail_renewal env s id dust) w SoundAfter
  unfolding fail_renewal publish
  fail_renewal-AllSound s id dust w h = Ensures-modify _ (
      pass {w = publish _ w} (refund_dust-core s dust) h λ _ w₁ h₁. Ensures-modify _ (
        Ensures-modify_last _
          (save_stream-AllSound env.timestamp _ (publish _ w₁) h₁ (λ live. cc))))

  finish_cycle-AllSound :
      (s : Stream) (id : ℕ) (w : World C)
      → AllSound env.timestamp (streams_of w)
      → IsSound env.timestamp s
      → is_active s.status ≡ true
      → s.end_time ≤ env.timestamp
      → Ensures (finish_cycle env s id) w SoundAfter
  unfolding finish_cycle renew_if_funded
  finish_cycle-AllSound s id w h sound act over = Ensures-or_panic λ duration e.
      let renewal : Ensures (renew env s duration) w SoundAfter =
        rw (checked_sub_u64-eq s.end_time s.start_time e) (renew-AllSound s w h sound act over) in
      Ensures-if s.auto_renew
        (λ auto. Ensures-gets _ _ (
          Ensures-if (ltb_ℤ (env.token_balance s.token s.sender w.chain) s.deposit)
            (λ poor. fail_renewal-AllSound s id _ w h) (λ rich. renewal)))
        (λ once. complete-AllSound s id _ w h)

  -- What `add_withdrawn` answers for amounts that are not negative.
  pub add_withdrawn-eq :
      (s : Stream) (t n : ℕ) (w : World C)
      → s.total_withdrawn ≡ pos t
      → Ensures
          (add_withdrawn s (pos n))
          w
          (λ paid w'. (paid ≡ record s { total_withdrawn = pos (t + n) }) × (w' ≡ w))
  unfolding add_withdrawn
  add_withdrawn-eq s t n w e = Ensures-or_err overflow λ total p.
      Ensures-pure _
        (ap (λ x. record s { total_withdrawn = x }) (checked_add_i128-eq t n (rw e at p)).0, refl)

  claim-AllSound :
      (s : Stream) (id : ℕ) (r : Address) (t n : ℕ) (w : World C)
      → AllSound env.timestamp (streams_of w)
      → s.total_withdrawn ≡ pos t
      → Ensures (claim env s id r (pos n)) w (λ paid w'.
        (paid ≡ record s { total_withdrawn = pos (t + n) })
        × AllSound env.timestamp (streams_of w'))
  unfolding claim try_invoke
  claim-AllSound s id r t n w h e = pass (guard_deposit-core s (pos n)) h λ _ w₁ h₁.
      pass (pay_claim-core env (pay_fee_announced) s id r (pos n) (pay_fee_announced-core env s id))
        h₁
        λ amount w₂ h₂.
          Ensures-bind _ (add_withdrawn-eq s t n w₂ e)
            λ paid w₃ q. Ensures-modify _ (Ensures-pure _ (q.0, rw q.1 h₂))

  abbrev settle : Stream → ℕ → Exec C (Unit {0})
  settle s id =
      if leb s.end_time env.timestamp then finish_cycle env s id else modify (save_stream s)

  settle-AllSound :
      (s : Stream) (id : ℕ) (w : World C)
      → AllSound env.timestamp (streams_of w)
      → IsSound env.timestamp s
      → is_active s.status ≡ true
      → Ensures (settle s id) w SoundAfter
  settle-AllSound s id w h sound act =
      Ensures-if (leb s.end_time env.timestamp)
        (λ over. finish_cycle-AllSound s id w h sound act (leb→le _ _ over))
        (λ early. Ensures-modify_last _ (save_stream-AllSound env.timestamp s w h (λ live. sound)))

  abbrev claim_if : Stream → ℕ → Address → ℤ → Exec C Stream
  claim_if s id r n = if ltb_ℤ (pos 0) n then claim env s id r n else pure s

  claim_if-AllSound :
      (s : Stream) (id : ℕ) (r : Address) (t n : ℕ) (w : World C)
      → AllSound env.timestamp (streams_of w)
      → s.total_withdrawn ≡ pos t
      → Ensures (claim_if s id r (pos n)) w (λ paid w'.
        (paid ≡ record s { total_withdrawn = pos (t + n) })
        × AllSound env.timestamp (streams_of w'))
  claim_if-AllSound s id r t n w h e =
      Ensures-if (ltb_ℤ (pos 0) (pos n)) (λ some_due. claim-AllSound s id r t n w h e)
        (λ none_due.
          let same : s.total_withdrawn ≡ pos (t + n) = e ∙ ap pos (ground arith) in
          Ensures-pure s (ap (λ x. record s { total_withdrawn = x }) same, h))

  -- From the claim on: the payment, the settlement and the event.
  settled-AllSound :
      (s : Stream) (id : ℕ) (r : Address) (n : ℕ) (c : ℤ) (w : World C) (e : Event)
      (sound : IsSound env.timestamp s)
      → c ≡ pos n
      → AllSound env.timestamp (streams_of w)
      → is_active s.status ≡ true
      → n ≤ sound.rate * elapsed env.timestamp s.end_time s.last_withdraw_time
      → Ensures
          (claim_if s id r c >>= λ paid.
            settle (record paid { last_withdraw_time = min env.timestamp s.end_time }) id
            >> modify (publish e))
          w
          SoundAfter
  unfolding publish
  settled-AllSound s id r n c w e sound amount h act le = rw amount (
      Ensures-bind _ (claim_if-AllSound s id r sound.withdrawn n w h sound.withdrawn_eq)
        λ paid w₁ q. rw q.0 (
          Ensures-bind (λ _ w'. AllSound env.timestamp (streams_of w'))
            (settle-AllSound _ id w₁ q.1 (claimed_active-IsSound env.timestamp n s sound act le)
              act)
            λ _ w₂ h₂. Ensures-modify_last _ h₂))

  -- If all stored streams are sound at the time of the call, then they are after a call of
  -- withdraw that returns, whether it pays, renews, fails to renew or completes the stream.
  pub withdraw-AllSound :
      (id : ℕ) (r : Address) (w : World C)
      → AllSound env.timestamp (streams_of w)
      → Ensures (withdraw env id r) w SoundAfter
  unfolding withdraw load_stream publish
  withdraw-AllSound id r w h = pass (is_paused_or_auto_unpause-core env) h λ _ w₁ h₁.
      Ensures-fail_if _ λ _. pass (require_auth-core env r) h₁ λ _ w₂ h₂. Ensures-gets _ _ (
        Ensures-or_err _ λ s found. Ensures-fail_if _ λ _. Ensures-fail_if _ λ act.
          Ensures-fail_if _ λ _. Ensures-gets _ _ (
            Ensures-fail_if _ λ _. Ensures-or_err _ λ c due.
              let active = not-false _ act in
              let sound = (h₂.each id s found).1 (active-live s.status active) in
              let (n, amount, le) = claimable_due env.timestamp env.timestamp s sound due in
              settled-AllSound s id r n c w₂ _ sound amount h₂ active le))
