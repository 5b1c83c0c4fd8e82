-- ===== src/Contract/Consistent/Withdraw.antt =====
-- contracts/stream/src/lib.rs, `withdraw` and `batch_withdraw`: the consistency of the storage.
use sorostream_contracts.Prelude.{ℕ, ◌≡◌, refl, sym, ◌∙◌, subst, List, [], ◌∷◌, leb, if◌then◌else◌}
use sorostream_contracts.Prelude.Int.{ℤ, pos, ltb_ℤ}
use sorostream_contracts.Types.{Address, Stream}
use sorostream_contracts.Call.{pure}
use sorostream_contracts.Call.Rules.{
  Ensures, Ensures-bind, Ensures-weaken, Ensures-pure, Ensures-gets, Ensures-or_err,
  Ensures-or_panic, Ensures-fail_if, Ensures-modify, Ensures-modify_last, Ensures-if,
}
use sorostream_contracts.Call.Unchanged.{Unchanged, unchanged_rules}
use sorostream_contracts.Env.{Env, World, Exec, publish, try_invoke}
use sorostream_contracts.Storage.Streams.{load_stream}
use sorostream_contracts.Contract.Payment.{pay_fee_announced, pay_fee_deposited}
use sorostream_contracts.Contract.Withdraw.{
  withdraw, claim, claim_batched, finish_cycle, finish_batched, renew, fail_renewal, complete,
  renew_if_funded, refund_dust, withdraw_one, withdraw_each, batch_withdraw,
}
use sorostream_contracts.Contract.Frames.{
  core_of, is_paused_or_auto_unpause-core, require_auth-core, transfer-core, pay_claim-core,
  pay_fee_announced-core, pay_fee_deposited-core, guard_deposit-core,
}
use sorostream_contracts.Contract.Consistent.{
  IsConsistent, Stores, SameParties, ConsistentAfter, Claimed,
}
use sorostream_contracts.Contract.Consistent.Writes.{
  keep, save_stream-IsConsistent, remove_stream-IsConsistent, add_withdrawn-Claimed,
}

module _ {C : Type 0} (env : Env C) where
  refund_dust-core : (s : Stream) (n : ℤ) → Unchanged core_of (refund_dust env s n)
  unfolding refund_dust
  refund_dust-core s n = search (unchanged_rules, transfer-core)

  renew-IsConsistent :
      (id : ℕ) (s t : Stream) (d : ℕ) (w : World C)
      → Stores id s (core_of w)
      → SameParties s t
      → Ensures (renew env t d) w ConsistentAfter
  unfolding renew
  renew-IsConsistent id s t d w h same =
      keep (Stores id s) (require_auth-core env t.sender) h λ _ w₁ h₁.
        keep (Stores id s) (transfer-core env t.token t.sender env.current_contract t.deposit) h₁
          λ _ w₂ h₂.
            Ensures-or_err _
              λ new_end e. Ensures-modify_last _ (save_stream-IsConsistent id s _ w₂ h₂ same)

  complete-IsConsistent :
      (id : ℕ) (s t : Stream) (dust : ℤ) (w : World C)
      → Stores id s (core_of w)
      → SameParties s t
      → Ensures (complete env t id dust) w ConsistentAfter
  unfolding complete publish
  complete-IsConsistent id s t dust w h same =
      keep (Stores id s) (refund_dust-core t dust) h λ _ w₁ h₁. Ensures-modify _ (
        Ensures-modify _ (
          Ensures-modify _ (
            Ensures-modify_last _
              (rw (same.1, same.2) (remove_stream-IsConsistent id s (publish _ w₁) h₁)))))

  fail_renewal-IsConsistent :
      (id : ℕ) (s t : Stream) (dust : ℤ) (w : World C)
      → Stores id s (core_of w)
      → SameParties s t
      → Ensures (fail_renewal env t id dust) w ConsistentAfter
  unfolding fail_renewal publish
  fail_renewal-IsConsistent id s t dust w h same = Ensures-modify _ (
      keep {w = publish _ w} (Stores id s) (refund_dust-core t dust) h λ _ w₁ h₁.
        Ensures-modify _
          (Ensures-modify_last _ (save_stream-IsConsistent id s _ (publish _ w₁) h₁ same)))

  finish_cycle-IsConsistent :
      (id : ℕ) (s t : Stream) (w : World C)
      → Stores id s (core_of w)
      → SameParties s t
      → Ensures (finish_cycle env t id) w ConsistentAfter
  unfolding finish_cycle renew_if_funded
  finish_cycle-IsConsistent id s t w h same = Ensures-or_panic λ duration e.
      Ensures-if t.auto_renew
        (λ auto. Ensures-gets _ _ (
          Ensures-if (ltb_ℤ (env.token_balance t.token t.sender w.chain) t.deposit)
            (λ poor. fail_renewal-IsConsistent id s t _ w h same)
            (λ rich. renew-IsConsistent id s t duration w h same)))
        (λ once. complete-IsConsistent id s t _ w h same)

  finish_batched-IsConsistent :
      (id : ℕ) (s t : Stream) (w : World C)
      → Stores id s (core_of w)
      → SameParties s t
      → Ensures (finish_batched env t id) w ConsistentAfter
  unfolding finish_batched
  finish_batched-IsConsistent id s t w h same = Ensures-or_panic λ duration e.
      Ensures-if t.auto_renew (λ auto. renew-IsConsistent id s t duration w h same)
        (λ once. complete-IsConsistent id s t _ w h same)

  claim-Claimed :
      (s : Stream) (id : ℕ) (r : Address) (n : ℤ) (w : World C)
      → Ensures (claim env s id r n) w (Claimed s w)
  unfolding claim try_invoke
  claim-Claimed s id r n w =
      keep (λ c. c ≡ core_of w) (guard_deposit-core s n) refl
        λ _ w₁ h₁.
          keep (λ c. c ≡ core_of w)
            (pay_claim-core env pay_fee_announced s id r n (pay_fee_announced-core env s id)) h₁
            λ amount w₂ h₂.
              Ensures-bind _ (add_withdrawn-Claimed s n w₂)
                λ paid w₃ q. Ensures-modify _ (Ensures-pure _ (q.0, q.1 ∙ h₂))

  claim_batched-Claimed :
      (s : Stream) (id : ℕ) (r : Address) (n : ℤ) (w : World C)
      → Ensures (claim_batched env s id r n) w (Claimed s w)
  unfolding claim_batched
  claim_batched-Claimed s id r n w =
      keep (λ c. c ≡ core_of w) (guard_deposit-core s n) refl
        λ _ w₁ h₁.
          keep (λ c. c ≡ core_of w)
            (pay_claim-core env pay_fee_deposited s id r n (pay_fee_deposited-core env s id)) h₁
            λ amount w₂ h₂.
              Ensures-weaken (add_withdrawn-Claimed s n w₂) λ paid w₃ q. (q.0, q.1 ∙ h₂)

  -- Both calls pay only where something is due.
  if_due-Claimed :
      (s : Stream) (n : ℤ) (m : Exec C Stream) (w : World C)
      → Ensures m w (Claimed s w)
      → Ensures (if ltb_ℤ (pos 0) n then m else pure s) w (Claimed s w)
  if_due-Claimed s n m w h =
      Ensures-if (ltb_ℤ (pos 0) n) (λ due. h)
        (λ none_due. Ensures-pure s ((refl, refl, refl), refl))

  Claimed-Stores :
      (id : ℕ) (s paid : Stream) (w w' : World C)
      → Stores id s (core_of w)
      → Claimed s w paid w'
      → Stores id s (core_of w')
  Claimed-Stores id s paid w w' h q = subst (Stores id s) (sym q.1) h

  -- `withdraw` keeps the storage consistent.
  pub withdraw-IsConsistent :
      (id : ℕ) (r : Address) (w : World C)
      → IsConsistent (core_of w)
      → Ensures (withdraw env id r) w ConsistentAfter
  unfolding withdraw load_stream publish
  withdraw-IsConsistent id r w h =
      keep IsConsistent (is_paused_or_auto_unpause-core env) h λ _ w₁ h₁. Ensures-fail_if _ λ _.
        keep IsConsistent (require_auth-core env r) h₁ λ _ w₂ h₂. Ensures-gets _ _ (
          Ensures-or_err _ λ s found. Ensures-fail_if _ λ _. Ensures-fail_if _ λ act.
            Ensures-fail_if _ λ _. Ensures-gets _ _ (
              Ensures-fail_if _ λ _. Ensures-or_err _ λ c due.
                Ensures-bind _ (if_due-Claimed s c _ w₂ (claim-Claimed s id r c w₂)) λ paid w₃ q.
                  let stored = Claimed-Stores id s paid w₂ w₃ (h₂, found) q in
                  Ensures-bind ConsistentAfter
                    (Ensures-if (leb paid.end_time env.timestamp)
                      (λ over. finish_cycle-IsConsistent id s _ w₃ stored q.0)
                      (λ early.
                        Ensures-modify_last _ (save_stream-IsConsistent id s _ w₃ stored q.0)))
                    λ _ w₄ h₄. Ensures-modify_last _ h₄))

  withdraw_one-IsConsistent :
      (r : Address) (id : ℕ) (w : World C)
      → IsConsistent (core_of w)
      → Ensures (withdraw_one env r id) w ConsistentAfter
  unfolding withdraw_one load_stream publish
  withdraw_one-IsConsistent r id w h = Ensures-gets _ _ (
      Ensures-or_err _ λ s found. Ensures-fail_if _ λ _. Ensures-fail_if _ λ act.
        Ensures-fail_if _ λ _. Ensures-or_err _ λ c due.
          Ensures-bind _ (if_due-Claimed s c _ w (claim_batched-Claimed s id r c w)) λ paid w₁ q.
            let stored = Claimed-Stores id s paid w w₁ (h, found) q in
            Ensures-bind ConsistentAfter
              (Ensures-if (leb paid.end_time env.timestamp)
                (λ over. finish_batched-IsConsistent id s _ w₁ stored q.0)
                (λ early. Ensures-modify_last _ (save_stream-IsConsistent id s _ w₁ stored q.0)))
              λ _ w₂ h₂. Ensures-modify _ (Ensures-pure _ h₂))

  withdraw_each-IsConsistent :
      (r : Address) (ids : List ℕ) (w : World C)
      → IsConsistent (core_of w)
      → Ensures (withdraw_each env r ids) w ConsistentAfter
  unfolding withdraw_each
  withdraw_each-IsConsistent r [] w h = Ensures-pure _ h
  withdraw_each-IsConsistent r (id ∷ ids) w h =
      Ensures-bind _ (withdraw_one-IsConsistent r id w h) λ a w₁ h₁.
        Ensures-bind _ (withdraw_each-IsConsistent r ids w₁ h₁) λ as' w₂ h₂. Ensures-pure _ h₂

  -- `batch_withdraw` keeps the storage consistent.
  pub batch_withdraw-IsConsistent :
      (ids : List ℕ) (r : Address) (w : World C)
      → IsConsistent (core_of w)
      → Ensures (batch_withdraw env ids r) w ConsistentAfter
  unfolding batch_withdraw
  batch_withdraw-IsConsistent ids r w h =
      keep IsConsistent (is_paused_or_auto_unpause-core env) h λ _ w₁ h₁. Ensures-fail_if _ λ _.
        keep IsConsistent (require_auth-core env r) h₁
          λ _ w₂ h₂. withdraw_each-IsConsistent r ids w₂ h₂
