-- ===== src/Contract/Access/Streams.antt =====
-- contracts/stream/src/lib.rs, the entry points on streams: what has been checked when they return.
use sorostream_contracts.Prelude.{
  ℕ, ◌≡◌, refl, ap, sym, ◌∙◌, Bool, true, false, not, ◌&&◌, ◌||◌, some, ◌==◌, List, arith,
}
use sorostream_contracts.Prelude.Int.{ℤ}
use sorostream_contracts.Types.{Address, Bytes, Stream, contract_paused}
use sorostream_contracts.Call.{◌>>=◌, ◌>>◌, fail_if}
use sorostream_contracts.Call.Rules.{
  Ensures, Ensures-bind, Ensures-weaken, Ensures-gets, Ensures-or_err, Ensures-fail_if,
  Ensures-panic_if, anything,
}
use sorostream_contracts.Call.Unchanged.{Unchanged, unchanged_rules}
use sorostream_contracts.Env.{Env, World, Exec, Persistent, require_auth}
use sorostream_contracts.Storage.Streams.{load_stream}
use sorostream_contracts.Storage.Access.{nonce_used, get_batch_nonce, get_delegate}
use sorostream_contracts.Storage.Pausing.{
  is_paused_or_auto_unpause, set_paused, set_pause_expiry, auto_unpause,
}
use sorostream_contracts.Contract.Payment.{may_manage}
use sorostream_contracts.Contract.Create.{CreateArgs, create_stream, batch_create_stream}
use sorostream_contracts.Contract.Withdraw.{withdraw, batch_withdraw}
use sorostream_contracts.Contract.Cancel.{
  cancel_stream, recipient_terminate, batch_cancel_stream, partial_cancel_stream,
}
use sorostream_contracts.Contract.Manage.{
  top_up, transfer_recipient, load_as_sender, delegate, revoke_delegate, update_metadata,
  cancel_auto_renew, pause_stream, resume_stream, archive_stream,
}
use sorostream_contracts.Contract.Action.{Action}
use sorostream_contracts.Contract.Sound.{not-false}
use sorostream_contracts.Contract.Access.{permits, stored, by_sender}

module _ {C : Type 0} where
  abbrev pub persistent_of : World C → Persistent
  persistent_of w = w.pers

module _ {C A : Type 0} where
  -- What holds before a call holds after it.
  pub settled : {m : Exec C A} {w : World C} {P : Type 0} → P → Ensures m w (λ _ _. P)
  settled {m} {w} p = Ensures-weaken (anything m w) (λ _ _ _. p)

module _ {C A B : Type 0} where
  -- What the first part of a call has checked.
  pub at_once :
      {m : Exec C A} {w : World C} {P : Type 0} (f : A → Exec C B)
      → Ensures m w (λ _ _. P)
      → Ensures (m >>= f) w (λ _ _. P)
  at_once f h = Ensures-bind _ h λ a w' p. settled p

module _ {C : Type 0} (env : Env C) where
  auto_unpause-persistent : Unchanged persistent_of (auto_unpause {C = C})
  unfolding auto_unpause set_paused set_pause_expiry
  auto_unpause-persistent = search unchanged_rules

  is_paused_or_auto_unpause-persistent : Unchanged persistent_of (is_paused_or_auto_unpause env)
  unfolding is_paused_or_auto_unpause
  is_paused_or_auto_unpause-persistent = search (unchanged_rules, auto_unpause-persistent) depth 7

  pub after_pause :
      {B : Type 0} {n : Exec C B} {w : World C} {Q : B → World C → Type 0}
      → ((w' : World C) → w'.pers ≡ w.pers → Ensures n w' Q)
      → Ensures (is_paused_or_auto_unpause env >>= λ b. fail_if b contract_paused >> n) w Q
  after_pause {w} k =
      Ensures-bind (λ _ w'. w'.pers ≡ w.pers) (is_paused_or_auto_unpause-persistent.at w)
        λ b w' e. Ensures-fail_if _ λ _. k w' e

  passes :
      (a : Address) (id : ℕ) (f : Stream → Bool) (s : Stream) (w w₁ : World C)
      → w₁.pers ≡ w.pers
      → not (env.authorized a) ≡ false
      → w₁.pers.streams id ≡ some s
      → f s ≡ true
      → (env.authorized a && stored w id f) ≡ true
  unfolding load_stream
  passes a id f s w w₁ e auth found test =
      rw (not-false _ auth, stored, sym (ap (λ p. p.streams id) e) ∙ found) test

  load_as_sender-permitted :
      (a : Address) (id : ℕ) (w w₁ : World C)
      → w₁.pers ≡ w.pers
      → Ensures (load_as_sender env a id) w₁ (λ _ _. (env.authorized a && by_sender w a id) ≡ true)
  unfolding load_as_sender load_stream require_auth
  load_as_sender-permitted a id w w₁ e = Ensures-panic_if λ auth. Ensures-gets _ _ (
      Ensures-or_err _ λ s found.
        Ensures-fail_if _
          λ mine. settled (passes a id (λ s. s.sender == a) s w w₁ e auth found (ground arith)))

  -- An action is permitted if it returns.
  abbrev pub Permitted : {B : Type 0} → Exec C B → World C → Action → Type 0
  Permitted m w action = Ensures m w (λ _ _. permits env w action ≡ true)

  module _ (w : World C) where
    pub create_stream-Permitted :
        (args : CreateArgs) → Permitted (create_stream env args) w (Action.create_stream args)
    unfolding create_stream require_auth nonce_used
    create_stream-Permitted args = Ensures-panic_if λ auth. after_pause λ w₁ e. Ensures-gets _ _ (
        Ensures-fail_if _ λ unused.
          settled
            (rw (not-false _ auth, sym (ap (λ p. p.nonce args.sender args.nonce) e), unused) refl))

    pub batch_create_stream-Permitted :
        (s : Address) (rs : List Address) (as' : List ℤ) (ts : List Address) (d : ℕ) (auto : Bool)
        (ls : List ℕ) (n : ℕ)
        → Permitted
            (batch_create_stream env s rs as' ts d auto ls n)
            w
            (Action.batch_create_stream s rs as' ts d auto ls n)
    unfolding batch_create_stream require_auth get_batch_nonce
    batch_create_stream-Permitted s rs as' ts d auto ls n = after_pause λ w₁ e.
        Ensures-panic_if λ auth. Ensures-gets _ _ (
          Ensures-fail_if _ λ current.
            settled (rw (not-false _ auth, sym (ap (λ p. p.batch_nonce s) e)) (ground arith)))

    pub withdraw-Permitted :
        (id : ℕ) (r : Address) → Permitted (withdraw env id r) w (Action.withdraw id r)
    unfolding withdraw load_stream require_auth
    withdraw-Permitted id r = after_pause λ w₁ e. Ensures-panic_if λ auth. Ensures-gets _ _ (
        Ensures-or_err _ λ s found.
          Ensures-fail_if _ λ mine.
            settled (passes r id (λ s. s.recipient == r) s w w₁ e auth found (ground arith)))

    pub batch_withdraw-Permitted :
        (ids : List ℕ) (r : Address)
        → Permitted (batch_withdraw env ids r) w (Action.batch_withdraw ids r)
    unfolding batch_withdraw require_auth
    batch_withdraw-Permitted ids r =
        after_pause λ w₁ e. Ensures-panic_if λ auth. settled (not-false _ auth)

    pub cancel_stream-Permitted :
        (id : ℕ) (a : Address) → Permitted (cancel_stream env id a) w (Action.cancel_stream id a)
    unfolding cancel_stream load_stream require_auth
    cancel_stream-Permitted id a = Ensures-panic_if λ auth. Ensures-gets _ _ (
        Ensures-or_err _ λ s found. Ensures-gets _ _ (
          Ensures-fail_if _ λ manages.
            settled
              (passes a id (λ s. may_manage w s id a) s w w refl auth found (not-false _ manages))))

    pub recipient_terminate-Permitted :
        (id : ℕ) (r : Address)
        → Permitted (recipient_terminate env id r) w (Action.recipient_terminate id r)
    unfolding recipient_terminate load_stream require_auth
    recipient_terminate-Permitted id r = after_pause λ w₁ e. Ensures-panic_if λ auth.
        Ensures-gets _ _ (
          Ensures-or_err _ λ s found. Ensures-fail_if _ λ mine. Ensures-fail_if _ λ allowed.
            settled (
              passes r id (λ s. (s.recipient == r) && s.allow_recipient_termination) s w w₁ e auth
                found (ground arith)))

    pub batch_cancel_stream-Permitted :
        (ids : List ℕ) (a : Address)
        → Permitted (batch_cancel_stream env ids a) w (Action.batch_cancel_stream ids a)
    unfolding batch_cancel_stream require_auth
    batch_cancel_stream-Permitted ids a = Ensures-panic_if λ auth. settled (not-false _ auth)

    pub partial_cancel_stream-Permitted :
        (id : ℕ) (a : Address) (n : ℤ)
        → Permitted (partial_cancel_stream env id a n) w (Action.partial_cancel_stream id a n)
    unfolding partial_cancel_stream load_stream require_auth
    partial_cancel_stream-Permitted id a n = Ensures-panic_if λ auth. Ensures-gets _ _ (
        Ensures-or_err _ λ s found. Ensures-gets _ _ (
          Ensures-fail_if _ λ manages.
            settled
              (passes a id (λ s. may_manage w s id a) s w w refl auth found (not-false _ manages))))

    pub top_up-Permitted :
        (id : ℕ) (a t : Address) (n : ℤ)
        → Permitted (top_up env id a t n) w (Action.top_up id a t n)
    unfolding top_up load_stream require_auth may_manage get_delegate
    top_up-Permitted id a t n = after_pause λ w₁ e. Ensures-panic_if λ auth. Ensures-gets _ _ (
        Ensures-or_err _ λ s found. Ensures-gets _ _ (
          Ensures-fail_if _ λ manages. settled (
            passes a id (λ s. may_manage w s id a) s w w₁ e auth found
              (rw (sym (ap (λ p. p.delegate id) e)) (not-false _ manages)))))

    pub transfer_recipient-Permitted :
        (id : ℕ) (a b : Address)
        → Permitted (transfer_recipient env id a b) w (Action.transfer_recipient id a b)
    unfolding transfer_recipient load_stream require_auth
    transfer_recipient-Permitted id a b = after_pause λ w₁ e. Ensures-panic_if λ auth.
        Ensures-gets _ _ (
          Ensures-or_err _ λ s found. Ensures-fail_if _ λ mine.
            settled (passes a id (λ s. s.recipient == a) s w w₁ e auth found (ground arith)))

    pub delegate-Permitted :
        (s : Address) (id : ℕ) (a : Address)
        → Permitted (delegate env s id a) w (Action.delegate s id a)
    unfolding delegate
    delegate-Permitted s id a = at_once _ (load_as_sender-permitted s id w w refl)

    pub revoke_delegate-Permitted :
        (s : Address) (id : ℕ)
        → Permitted (revoke_delegate env s id) w (Action.revoke_delegate s id)
    unfolding revoke_delegate
    revoke_delegate-Permitted s id = at_once _ (load_as_sender-permitted s id w w refl)

    pub update_metadata-Permitted :
        (s : Address) (id : ℕ) (m : Bytes)
        → Permitted (update_metadata env s id m) w (Action.update_metadata s id m)
    unfolding update_metadata
    update_metadata-Permitted s id m = at_once _ (load_as_sender-permitted s id w w refl)

    pub cancel_auto_renew-Permitted :
        (s : Address) (id : ℕ)
        → Permitted (cancel_auto_renew env s id) w (Action.cancel_auto_renew s id)
    unfolding cancel_auto_renew
    cancel_auto_renew-Permitted s id = at_once _ (load_as_sender-permitted s id w w refl)

    pub pause_stream-Permitted :
        (id : ℕ) (s : Address) → Permitted (pause_stream env id s) w (Action.pause_stream id s)
    unfolding pause_stream
    pause_stream-Permitted id s =
        after_pause λ w₁ e. at_once _ (load_as_sender-permitted s id w w₁ e)

    pub resume_stream-Permitted :
        (id : ℕ) (s : Address) → Permitted (resume_stream env id s) w (Action.resume_stream id s)
    unfolding resume_stream
    resume_stream-Permitted id s =
        after_pause λ w₁ e. at_once _ (load_as_sender-permitted s id w w₁ e)

    pub archive_stream-Permitted :
        (id : ℕ) (a : Address) → Permitted (archive_stream env id a) w (Action.archive_stream id a)
    unfolding archive_stream load_stream require_auth
    archive_stream-Permitted id a = Ensures-panic_if λ auth. Ensures-gets _ _ (
        Ensures-or_err _ λ s found. Ensures-fail_if _ λ party. settled (
          passes a id (λ s. (s.sender == a) || (s.recipient == a)) s w w refl auth found
            (ground arith)))
