-- ===== src/Contract/Sound/Transfer.antt =====
-- contracts/stream/src/lib.rs, `top_up` and `transfer_recipient`: the accounting invariant.
use sorostream_contracts.Prelude.{
  ℕ, ◌+◌, ◌-◌, ◌*◌, ◌/◌, ◌≤◌, ◌≡◌, refl, ap, false, some, min, arith, leb, ◌&&◌,
}
use sorostream_contracts.Prelude.Int.{ℤ, pos, negsuc, ltb_ℤ, leb_ℤ}
use sorostream_contracts.Prelude.Machine.{
  checked_add_u64, checked_add_u64-eq, checked_add_i128, checked_add_i128-eq, div_i128,
  u64_try_from,
}
use sorostream_contracts.Types.{Address, Stream}
use native.Mathlib.Nat.{mul-div-le}
use sorostream_contracts.Call.Rules.{
  Ensures, Ensures-bind, Ensures-pure, Ensures-gets, Ensures-or_err, Ensures-or_panic,
  Ensures-fail_if, Ensures-modify, Ensures-modify_last, Ensures-if,
}
use sorostream_contracts.Env.{Env, World, publish}
use sorostream_contracts.Storage.Streams.{load_stream}
use sorostream_contracts.Storage.Index.{unindex_by_recipient}
use sorostream_contracts.Contract.Payment.{pay_fee_announced}
use sorostream_contracts.Contract.Cancel.{stream_now}
use sorostream_contracts.Contract.Manage.{
  top_up, claim_before_transfer, settle_recipient, transfer_recipient,
}
use sorostream_contracts.Contract.Frames.{
  streams_of, is_paused_or_auto_unpause-core, require_auth-core, transfer-core, pay_claim-core,
  pay_fee_announced-core, index_by_recipient-streams,
}
use sorostream_contracts.Contract.Sound.{
  IsSound, AllSound, not-false, claimable_due, claimed-IsSound, relabelled-IsSound,
  save_stream-AllSound, pass, pass_streams,
}
use sorostream_contracts.Contract.Sound.Withdraw.{SoundAfter, add_withdrawn-eq}
use sorostream_contracts.Contract.Sound.Cancel.{stream_now_bounds}

-- The seconds that a top-up pays for cost at most the top-up.
topped_up-IsSound :
    (now end_time n : ℕ) (s : Stream) (amount q deposit : ℤ) (h : IsSound now s)
    → leb_ℤ amount (pos 0) ≡ false
    → div_i128 amount (pos h.rate) ≡ some q
    → u64_try_from q ≡ some n
    → checked_add_u64 s.end_time n ≡ some end_time
    → checked_add_i128 (pos h.deposited) amount ≡ some deposit
    → IsSound now (record s { end_time = end_time; deposit = deposit })
unfolding div_i128
topped_up-IsSound now end_time n s (pos a) q d h big divided fits ends adds =
    let quotient : n ≡ a / h.rate = ground arith in
    let later : end_time ≡ s.end_time + n = checked_add_u64-eq s.end_time n ends in
    let paid : h.rate * n ≤ a = rw quotient (mul-div-le a h.rate) in
    record {
      rate = h.rate;
      deposited = h.deposited + a;
      withdrawn = h.withdrawn;
      rate_eq = h.rate_eq;
      deposit_eq = (checked_add_i128-eq h.deposited a adds).0;
      withdrawn_eq = h.withdrawn_eq;
      rate_pos = h.rate_pos;
      started = h.started;
      not_over = omega (arith, later, h.not_over);
      not_ahead = h.not_ahead;
      pause_after = h.pause_after;
      withdrawn_le = h.withdrawn_le;
      covered =
          let span : end_time - s.start_time ≡ (s.end_time - s.start_time) + n =
            omega (arith, later, h.started, h.not_over) in
          omega (arith, ap (λ k. h.rate * k) span, paid, h.covered);
    }
topped_up-IsSound now end_time n s (negsuc a) q d h big divided fits ends adds =
    absurd (ground arith)

module _ {C : Type 0} (env : Env C) where
  -- If all stored streams are sound at the time of the call, then they are after a call of top_up
  -- that returns: the deposit still covers the span that it prolongs.
  pub top_up-AllSound :
      (id : ℕ) (caller token : Address) (amount : ℤ) (w : World C)
      → AllSound env.timestamp (streams_of w)
      → Ensures (top_up env id caller token amount) w (SoundAfter env)
  unfolding top_up load_stream publish
  top_up-AllSound id caller token amount w h =
      pass (is_paused_or_auto_unpause-core env) h λ _ w₁ h₁. Ensures-fail_if _ λ _.
        pass (require_auth-core env caller) h₁ λ _ w₂ h₂. Ensures-gets _ _ (
          Ensures-or_err _ λ s found. Ensures-gets _ _ (
            Ensures-fail_if _ λ _. Ensures-fail_if _ λ _. Ensures-fail_if _ λ live.
              let sound = (h₂.each id s found).1 (not-false _ live) in
              Ensures-fail_if _ λ _. Ensures-or_panic λ remainder _. Ensures-or_panic λ effective _.
                Ensures-fail_if _ λ big.
                  pass (transfer-core env s.token caller env.current_contract effective) h₂
                    λ _ w₃ h₃. Ensures-or_panic λ quotient divided. Ensures-or_err _ λ seconds fits.
                      Ensures-or_err _ λ end_time ends. Ensures-or_err _ λ deposit adds.
                        Ensures-modify _ (
                          Ensures-modify_last _ (
                            save_stream-AllSound env.timestamp _ w₃ h₃ (λ l.
                              topped_up-IsSound env.timestamp end_time seconds s effective quotient
                                deposit sound big (rw sound.rate_eq at divided) fits ends
                                (rw sound.deposit_eq at adds))))))

  -- A stream that stands for `s` after a claim of its recipient.
  abbrev Settles : Stream → Stream → World C → Type 0
  Settles s t w = (t.id ≡ s.id) × IsSound env.timestamp t × AllSound env.timestamp (streams_of w)

  claim_before_transfer-Settles :
      (s : Stream) (id : ℕ) (r : Address) (n : ℕ) (w : World C) (sound : IsSound env.timestamp s)
      → n ≤ sound.rate * (min (stream_now env s) s.end_time - s.last_withdraw_time)
      → AllSound env.timestamp (streams_of w)
      → Ensures (claim_before_transfer env s id r (stream_now env s) (pos n)) w (Settles s)
  unfolding claim_before_transfer publish
  claim_before_transfer-Settles s id r n w sound le h =
      let (after, past, at_pause) = stream_now_bounds env s sound in
      pass (pay_claim-core env pay_fee_announced s id r (pos n) (pay_fee_announced-core env s id)) h
        λ amount w₁ h₁.
          Ensures-bind _ (add_withdrawn-eq env s sound.withdrawn n w₁ sound.withdrawn_eq)
            λ paid w₂ q. Ensures-modify _ (
              rw q.0 (
                Ensures-pure _ (
                  refl,
                  claimed-IsSound env.timestamp (stream_now env s) n s sound after past at_pause le,
                  rw q.1 h₁,
                )))

  settle_recipient-Settles :
      (s : Stream) (id : ℕ) (r : Address) (w : World C)
      → IsSound env.timestamp s
      → AllSound env.timestamp (streams_of w)
      → Ensures (settle_recipient env s id r (stream_now env s)) w (Settles s)
  unfolding settle_recipient
  settle_recipient-Settles s id r w sound h =
      let now = stream_now env s in
      Ensures-if (leb s.lock_until now && leb s.cliff_time now)
        (λ due_now. Ensures-or_err _ λ c due.
          let (n, amount, le) = claimable_due env.timestamp now s sound due in
          rw amount (
            Ensures-if (ltb_ℤ (pos 0) (pos n))
              (λ some_due. claim_before_transfer-Settles s id r n w sound le h)
              (λ none_due. Ensures-pure s (refl, sound, h))))
        (λ shut. Ensures-pure s (refl, sound, h))

  -- If all stored streams are sound at the time of the call, then they are after a call of
  -- transfer_recipient that returns.
  pub transfer_recipient-AllSound :
      (id : ℕ) (current new : Address) (w : World C)
      → AllSound env.timestamp (streams_of w)
      → Ensures (transfer_recipient env id current new) w (SoundAfter env)
  unfolding transfer_recipient load_stream publish unindex_by_recipient
  transfer_recipient-AllSound id current new w h =
      pass (is_paused_or_auto_unpause-core env) h λ _ w₁ h₁. Ensures-fail_if _ λ _.
        pass (require_auth-core env current) h₁ λ _ w₂ h₂. Ensures-gets _ _ (
          Ensures-or_err _ λ s found. Ensures-fail_if _ λ _. Ensures-fail_if _ λ live.
            let sound = (h₂.each id s found).1 (not-false _ live) in
            Ensures-bind _ (settle_recipient-Settles s id current w₂ sound h₂) λ t w₃ q.
              Ensures-modify _ (
                Ensures-modify _ (
                  pass_streams (index_by_recipient-streams new id)
                    (save_stream-AllSound env.timestamp _ w₃ q.2
                      (λ l. relabelled-IsSound env.timestamp t new t.auto_renew t.metadata q.1))
                    λ _ w₄ h₄. Ensures-modify_last _ h₄)))
