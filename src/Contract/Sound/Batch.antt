-- ===== src/Contract/Sound/Batch.antt =====
-- contracts/stream/src/lib.rs, `batch_withdraw`: the accounting invariant.
use sorostream_contracts.Prelude.{
  ℕ, ◌+◌, ◌*◌, ◌≤◌, ◌≡◌, ap, ◌∙◌, true, List, [], ◌∷◌, min, arith, leb, if◌then◌else◌, leb→le,
}
use sorostream_contracts.Prelude.Int.{ℤ, pos, ltb_ℤ}
use sorostream_contracts.Prelude.Machine.{checked_sub_u64-eq}
use sorostream_contracts.Types.{Address, Stream, Event, is_active}
use sorostream_contracts.Call.{pure, modify, ◌>>=◌, ◌>>◌}
use sorostream_contracts.Call.Rules.{
  Ensures, Ensures-bind, Ensures-weaken, Ensures-pure, Ensures-gets, Ensures-or_err,
  Ensures-or_panic, Ensures-fail_if, Ensures-modify, Ensures-modify_last, Ensures-if,
}
use sorostream_contracts.Env.{Env, World, Exec, publish}
use sorostream_contracts.Storage.Streams.{load_stream, save_stream}
use sorostream_contracts.Vesting.Bounds.{elapsed}
use sorostream_contracts.Contract.Payment.{pay_fee_deposited}
use sorostream_contracts.Contract.Withdraw.{
  batch_withdraw, withdraw_each, withdraw_one, claim_batched, finish_batched,
}
use sorostream_contracts.Contract.Frames.{
  streams_of, is_paused_or_auto_unpause-core, require_auth-core, pay_claim-core,
  pay_fee_deposited-core, guard_deposit-core,
}
use sorostream_contracts.Contract.Sound.{
  IsSound, AllSound, claimed_active-IsSound, active-live, not-false, earned_due,
  save_stream-AllSound, pass,
}
use sorostream_contracts.Contract.Sound.Withdraw.{
  renew-AllSound, complete-AllSound, add_withdrawn-eq, SoundAfter,
}

module _ {C : Type 0} (env : Env C) where
  finish_batched-AllSound :
      (s : Stream) (id : ℕ) (w : World C)
      → AllSound env.timestamp (streams_of w)
      → IsSound env.timestamp s
      → is_active s.status ≡ true
      → s.end_time ≤ env.timestamp
      → Ensures (finish_batched env s id) w (SoundAfter env)
  unfolding finish_batched
  finish_batched-AllSound s id w h sound act over = Ensures-or_panic λ duration e.
      Ensures-if s.auto_renew
        (λ auto.
          rw (checked_sub_u64-eq s.end_time s.start_time e)
            (renew-AllSound env s w h sound act over))
        (λ once. complete-AllSound env s id _ w h)

  claim_batched-AllSound :
      (s : Stream) (id : ℕ) (r : Address) (t n : ℕ) (w : World C)
      → AllSound env.timestamp (streams_of w)
      → s.total_withdrawn ≡ pos t
      → Ensures (claim_batched env s id r (pos n)) w (λ paid w'.
        (paid ≡ record s { total_withdrawn = pos (t + n) })
        × AllSound env.timestamp (streams_of w'))
  unfolding claim_batched
  claim_batched-AllSound s id r t n w h e = pass (guard_deposit-core s (pos n)) h λ _ w₁ h₁.
      pass (pay_claim-core env pay_fee_deposited s id r (pos n) (pay_fee_deposited-core env s id))
        h₁
        λ amount w₂ h₂.
          Ensures-weaken (add_withdrawn-eq env s t n w₂ e) (λ paid w₃ q. (q.0, rw q.1 h₂))

  abbrev claim_if : Stream → ℕ → Address → ℤ → Exec C Stream
  claim_if s id r n = if ltb_ℤ (pos 0) n then claim_batched env s id r n else pure s

  claim_if-AllSound :
      (s : Stream) (id : ℕ) (r : Address) (t n : ℕ) (w : World C)
      → AllSound env.timestamp (streams_of w)
      → s.total_withdrawn ≡ pos t
      → Ensures (claim_if s id r (pos n)) w (λ paid w'.
        (paid ≡ record s { total_withdrawn = pos (t + n) })
        × AllSound env.timestamp (streams_of w'))
  claim_if-AllSound s id r t n w h e =
      Ensures-if (ltb_ℤ (pos 0) (pos n)) (λ some_due. claim_batched-AllSound s id r t n w h e)
        (λ none_due.
          let same : s.total_withdrawn ≡ pos (t + n) = e ∙ ap pos (ground arith) in
          Ensures-pure s (ap (λ x. record s { total_withdrawn = x }) same, h))

  abbrev settle : Stream → ℕ → Exec C (Unit {0})
  settle s id =
      if leb s.end_time env.timestamp then finish_batched env s id else modify (save_stream s)

  settle-AllSound :
      (s : Stream) (id : ℕ) (w : World C)
      → AllSound env.timestamp (streams_of w)
      → IsSound env.timestamp s
      → is_active s.status ≡ true
      → Ensures (settle s id) w (SoundAfter env)
  settle-AllSound s id w h sound act =
      Ensures-if (leb s.end_time env.timestamp)
        (λ over. finish_batched-AllSound s id w h sound act (leb→le _ _ over))
        (λ early. Ensures-modify_last _ (save_stream-AllSound env.timestamp s w h (λ live. sound)))

  settled-AllSound :
      (s : Stream) (id : ℕ) (r : Address) (n : ℕ) (c : ℤ) (w : World C) (e : Event)
      (sound : IsSound env.timestamp s)
      → c ≡ pos n
      → AllSound env.timestamp (streams_of w)
      → is_active s.status ≡ true
      → n ≤ sound.rate * elapsed env.timestamp s.end_time s.last_withdraw_time
      → Ensures
          (claim_if s id r c >>= λ paid.
            settle (record paid { last_withdraw_time = min env.timestamp s.end_time }) id
            >> (modify (publish e) >> pure c))
          w
          (SoundAfter env)
  unfolding publish
  settled-AllSound s id r n c w e sound amount h act le = rw amount (
      Ensures-bind _ (claim_if-AllSound s id r sound.withdrawn n w h sound.withdrawn_eq)
        λ paid w₁ q. rw q.0 (
          Ensures-bind (λ _ w'. AllSound env.timestamp (streams_of w'))
            (settle-AllSound _ id w₁ q.1 (claimed_active-IsSound env.timestamp n s sound act le)
              act)
            λ _ w₂ h₂. Ensures-modify _ (Ensures-pure _ h₂)))

  withdraw_one-AllSound :
      (r : Address) (id : ℕ) (w : World C)
      → AllSound env.timestamp (streams_of w)
      → Ensures (withdraw_one env r id) w (SoundAfter env)
  unfolding withdraw_one load_stream
  withdraw_one-AllSound r id w h = Ensures-gets _ _ (
      Ensures-or_err _ λ s found. Ensures-fail_if _ λ _. Ensures-fail_if _ λ act.
        Ensures-fail_if _ λ _. Ensures-or_err _ λ c due.
          let active = not-false _ act in
          let sound = (h.each id s found).1 (active-live s.status active) in
          settled-AllSound s id r _ c w _ sound (earned_due env.timestamp env.timestamp s sound due)
            h active (omega arith))

  withdraw_each-AllSound :
      (r : Address) (ids : List ℕ) (w : World C)
      → AllSound env.timestamp (streams_of w)
      → Ensures (withdraw_each env r ids) w (SoundAfter env)
  unfolding withdraw_each
  withdraw_each-AllSound r [] w h = Ensures-pure _ h
  withdraw_each-AllSound r (id ∷ ids) w h =
      Ensures-bind _ (withdraw_one-AllSound r id w h) λ a w₁ h₁.
        Ensures-bind _ (withdraw_each-AllSound r ids w₁ h₁) λ as' w₂ h₂. Ensures-pure _ h₂

  -- If all stored streams are sound at the time of the call, then they are after a call of
  -- batch_withdraw that returns, for any list of identifiers, repeated ones included.
  pub batch_withdraw-AllSound :
      (ids : List ℕ) (r : Address) (w : World C)
      → AllSound env.timestamp (streams_of w)
      → Ensures (batch_withdraw env ids r) w (SoundAfter env)
  unfolding batch_withdraw
  batch_withdraw-AllSound ids r w h = pass (is_paused_or_auto_unpause-core env) h λ _ w₁ h₁.
      Ensures-fail_if _
        λ _. pass (require_auth-core env r) h₁ λ _ w₂ h₂. withdraw_each-AllSound r ids w₂ h₂
