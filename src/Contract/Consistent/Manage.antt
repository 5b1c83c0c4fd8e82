-- ===== src/Contract/Consistent/Manage.antt =====
-- contracts/stream/src/lib.rs, the entry points that change a stream and keep it, and its delegate: the
-- consistency of the storage.
use sorostream_contracts.Prelude.{ℕ, ◌≡◌, refl, sym, ◌∙◌, subst, leb, ◌&&◌}
use sorostream_contracts.Prelude.Int.{ℤ, pos, ltb_ℤ}
use sorostream_contracts.Types.{Address, Bytes, Stream}
use sorostream_contracts.Call.Rules.{
  Ensures, Ensures-bind, Ensures-pure, Ensures-gets, Ensures-or_err, Ensures-or_panic,
  Ensures-fail_if, Ensures-modify, Ensures-modify_last, Ensures-if,
}
use sorostream_contracts.Env.{Env, World, publish}
use sorostream_contracts.Storage.Streams.{load_stream}
use sorostream_contracts.Storage.Access.{set_delegate, remove_delegate}
use sorostream_contracts.Contract.Payment.{pay_fee_announced}
use sorostream_contracts.Contract.Cancel.{stream_now}
use sorostream_contracts.Contract.Manage.{
  top_up, claim_before_transfer, settle_recipient, transfer_recipient, load_as_sender, delegate,
  revoke_delegate, update_metadata, cancel_auto_renew, pause_stream, resume_stream, resumed,
}
use sorostream_contracts.Contract.Frames.{
  core_of, is_paused_or_auto_unpause-core, require_auth-core, transfer-core, pay_claim-core,
  pay_fee_announced-core,
}
use sorostream_contracts.Contract.Consistent.{
  IsConsistent, Stores, SameParties, ConsistentAfter, Claimed,
}
use sorostream_contracts.Contract.Consistent.Writes.{
  keep, save_stream-IsConsistent, hand_over-IsConsistent, add_withdrawn-Claimed,
}

resumed-SameParties : (s : Stream) (now : ℕ) → SameParties s (resumed s now)
unfolding resumed
resumed-SameParties s now = (refl, refl, refl)

module _ {C : Type 0} (env : Env C) where
  -- `top_up` keeps the storage consistent.
  pub top_up-IsConsistent :
      (id : ℕ) (caller token : Address) (amount : ℤ) (w : World C)
      → IsConsistent (core_of w)
      → Ensures (top_up env id caller token amount) w ConsistentAfter
  unfolding top_up load_stream publish
  top_up-IsConsistent id caller token amount w h =
      keep IsConsistent (is_paused_or_auto_unpause-core env) h λ _ w₁ h₁. Ensures-fail_if _ λ _.
        keep IsConsistent (require_auth-core env caller) h₁ λ _ w₂ h₂. Ensures-gets _ _ (
          Ensures-or_err _ λ s found. Ensures-gets _ _ (
            Ensures-fail_if _ λ _. Ensures-fail_if _ λ _. Ensures-fail_if _ λ _.
              Ensures-fail_if _ λ _. Ensures-or_panic λ remainder _. Ensures-or_panic λ effective _.
                Ensures-fail_if _ λ _.
                  keep (Stores id s)
                    (transfer-core env s.token caller env.current_contract effective) (h₂, found)
                    λ _ w₃ h₃. Ensures-or_panic λ quotient _. Ensures-or_err _ λ seconds _.
                      Ensures-or_err _ λ end_time _. Ensures-or_err _ λ deposit _.
                        Ensures-modify _ (
                          Ensures-modify_last _
                            (save_stream-IsConsistent id s _ w₃ h₃ (refl, refl, refl)))))

  claim_before_transfer-Claimed :
      (s : Stream) (id : ℕ) (r : Address) (now : ℕ) (n : ℤ) (w : World C)
      → Ensures (claim_before_transfer env s id r now n) w (Claimed s w)
  unfolding claim_before_transfer publish
  claim_before_transfer-Claimed s id r now n w =
      keep (λ c. c ≡ core_of w)
        (pay_claim-core env pay_fee_announced s id r n (pay_fee_announced-core env s id)) refl
        λ amount w₁ h₁.
          Ensures-bind _ (add_withdrawn-Claimed s n w₁)
            λ paid w₂ q. Ensures-modify _ (Ensures-pure _ (q.0, q.1 ∙ h₁))

  settle_recipient-Claimed :
      (s : Stream) (id : ℕ) (r : Address) (now : ℕ) (w : World C)
      → Ensures (settle_recipient env s id r now) w (Claimed s w)
  unfolding settle_recipient
  settle_recipient-Claimed s id r now w =
      Ensures-if (leb s.lock_until now && leb s.cliff_time now)
        (λ _. Ensures-or_err _ λ c _.
          Ensures-if (ltb_ℤ (pos 0) c) (λ _. claim_before_transfer-Claimed s id r now c w)
            (λ _. Ensures-pure s ((refl, refl, refl), refl)))
        (λ _. Ensures-pure s ((refl, refl, refl), refl))

  -- If the storage is consistent, then it is after a call of transfer_recipient that returns: the
  -- identifier has left the list of the old recipient and is in that of the new one, also if the
  -- two are the same.
  pub transfer_recipient-IsConsistent :
      (id : ℕ) (r new : Address) (w : World C)
      → IsConsistent (core_of w)
      → Ensures (transfer_recipient env id r new) w ConsistentAfter
  unfolding transfer_recipient load_stream publish
  transfer_recipient-IsConsistent id r new w h =
      keep IsConsistent (is_paused_or_auto_unpause-core env) h λ _ w₁ h₁. Ensures-fail_if _ λ _.
        keep IsConsistent (require_auth-core env r) h₁ λ _ w₂ h₂. Ensures-gets _ _ (
          Ensures-or_err _ λ s found. Ensures-fail_if _ λ _. Ensures-fail_if _ λ _.
            Ensures-bind _ (settle_recipient-Claimed s id r (stream_now env s) w₂) λ t w₃ (same, e).
              hand_over-IsConsistent id s (record t { recipient = new }) w₃
                (subst (Stores id s) (sym e) (h₂, found)) same.0 same.1
                λ w₄ h₄. Ensures-modify_last _ h₄)

  load_as_sender-Stores :
      (sender : Address) (id : ℕ) (w : World C)
      → IsConsistent (core_of w)
      → Ensures (load_as_sender env sender id) w (λ s w'. Stores id s (core_of w'))
  unfolding load_as_sender load_stream
  load_as_sender-Stores sender id w h =
      keep IsConsistent (require_auth-core env sender) h λ _ w₁ h₁.
        Ensures-gets _ _
          (Ensures-or_err _ λ s found. Ensures-fail_if _ λ _. Ensures-pure _ (h₁, found))

  pub pause_stream-IsConsistent :
      (id : ℕ) (sender : Address) (w : World C)
      → IsConsistent (core_of w)
      → Ensures (pause_stream env id sender) w ConsistentAfter
  unfolding pause_stream publish
  pause_stream-IsConsistent id sender w h =
      keep IsConsistent (is_paused_or_auto_unpause-core env) h λ _ w₁ h₁. Ensures-fail_if _ λ _.
        Ensures-bind _ (load_as_sender-Stores sender id w₁ h₁) λ s w₂ h₂. Ensures-fail_if _ λ _.
          Ensures-modify _
            (Ensures-modify_last _ (save_stream-IsConsistent id s _ w₂ h₂ (refl, refl, refl)))

  pub resume_stream-IsConsistent :
      (id : ℕ) (sender : Address) (w : World C)
      → IsConsistent (core_of w)
      → Ensures (resume_stream env id sender) w ConsistentAfter
  unfolding resume_stream publish
  resume_stream-IsConsistent id sender w h =
      keep IsConsistent (is_paused_or_auto_unpause-core env) h λ _ w₁ h₁. Ensures-fail_if _ λ _.
        Ensures-bind _ (load_as_sender-Stores sender id w₁ h₁) λ s w₂ h₂. Ensures-fail_if _ λ _.
          Ensures-modify _ (
            Ensures-modify_last _
              (save_stream-IsConsistent id s _ w₂ h₂ (resumed-SameParties s env.timestamp)))

  pub update_metadata-IsConsistent :
      (sender : Address) (id : ℕ) (metadata : Bytes) (w : World C)
      → IsConsistent (core_of w)
      → Ensures (update_metadata env sender id metadata) w ConsistentAfter
  unfolding update_metadata publish
  update_metadata-IsConsistent sender id metadata w h =
      Ensures-bind _ (load_as_sender-Stores sender id w h) λ s w₁ h₁. Ensures-fail_if _ λ _.
        Ensures-modify _
          (Ensures-modify_last _ (save_stream-IsConsistent id s _ w₁ h₁ (refl, refl, refl)))

  pub cancel_auto_renew-IsConsistent :
      (sender : Address) (id : ℕ) (w : World C)
      → IsConsistent (core_of w)
      → Ensures (cancel_auto_renew env sender id) w ConsistentAfter
  unfolding cancel_auto_renew publish
  cancel_auto_renew-IsConsistent sender id w h =
      Ensures-bind _ (load_as_sender-Stores sender id w h) λ s w₁ h₁.
        Ensures-modify _
          (Ensures-modify_last _ (save_stream-IsConsistent id s _ w₁ h₁ (refl, refl, refl)))

  pub delegate-IsConsistent :
      (sender : Address) (id : ℕ) (operator : Address) (w : World C)
      → IsConsistent (core_of w)
      → Ensures (delegate env sender id operator) w ConsistentAfter
  unfolding delegate set_delegate
  delegate-IsConsistent sender id operator w h =
      Ensures-bind _ (load_as_sender-Stores sender id w h) λ s w₁ h₁. Ensures-modify_last _ h₁.0

  pub revoke_delegate-IsConsistent :
      (sender : Address) (id : ℕ) (w : World C)
      → IsConsistent (core_of w)
      → Ensures (revoke_delegate env sender id) w ConsistentAfter
  unfolding revoke_delegate remove_delegate
  revoke_delegate-IsConsistent sender id w h =
      Ensures-bind _ (load_as_sender-Stores sender id w h) λ s w₁ h₁. Ensures-modify_last _ h₁.0
