-- ===== src/Contract/Consistent/End.antt =====
-- contracts/stream/src/lib.rs, the entry points that end a stream, wholly or in part, and
-- `archive_stream`: the consistency of the storage.
use sorostream_contracts.Prelude.{
  ℕ, ◌≡◌, refl, ap, sym, ◌∙◌, Option, none, some, List, [], ◌∷◌, ◌==◌, Bool-cases, inl, inr, ==→eq,
}
use sorostream_contracts.Prelude.Int.{ℤ}
use sorostream_contracts.Types.{Address, Stream, StreamError, cancelled}
use sorostream_contracts.Call.{Outcome, ok, err, panic}
use sorostream_contracts.Call.Rules.{
  Ensures, Ensures-bind, Ensures-pure, Ensures-gets, Ensures-or_err, Holds, Ensures-or_panic,
  Ensures-fail_if, Ensures-modify, Ensures-modify_last,
}
use sorostream_contracts.Call.Unchanged.{Unchanged, Unchanged-when, unchanged_rules}
use sorostream_contracts.Env.{Env, World, Exec, publish}
use sorostream_contracts.Storage.Streams.{load_stream, save_stream, derive_stream_id}
use sorostream_contracts.Storage.Access.{remove_delegate}
use sorostream_contracts.Contract.Cancel.{
  caught, stream_now, pay_out, remove_and_unindex, cancel_stream, recipient_terminate, cancel_one,
  try_call, cancel_each, batch_cancel_stream, remainder_stream, spawn_remainder,
  partial_cancel_stream,
}
use sorostream_contracts.Contract.Manage.{archive_stream}
use sorostream_contracts.Contract.Frames.{
  Core, core_of, streams_of, is_paused_or_auto_unpause-core, require_auth-core, transfer-core,
  index_global_stream-core,
}
use sorostream_contracts.Contract.Consistent.{IsConsistent, Stores, ConsistentAfter}
use sorostream_contracts.Contract.Consistent.Writes.{
  keep, save_stream-IsConsistent, remove_stream-IsConsistent, store-IsConsistent,
}

module _ {C : Type 0} (env : Env C) where
  pay_out-core : (s : Stream) (a b : ℤ) → Unchanged core_of (pay_out env s a b)
  unfolding pay_out
  pay_out-core s a b = search (unchanged_rules, transfer-core)

  -- A stream that is saved again leaves the free identifiers free.
  still_free :
      (id : ℕ) (s t : Stream) (r : ℕ) (w : World C)
      → Stores id s (core_of w)
      → t.id ≡ s.id
      → streams_of w r ≡ none
      → streams_of (save_stream t w) r ≡ none
  unfolding save_stream
  still_free id s t r w (h, found) same free = elim (Bool-cases (t.id == r)) [
    | inl here ↦
        let place : r ≡ id = sym (==→eq t.id r here) ∙ same ∙ h.own_id id s found in
        absurd (cc (ap (streams_of w) place, free, found))
    | inr there ↦ rw there free
  ]

  remove_and_unindex-IsConsistent :
      (s : Stream) (id : ℕ) (w : World C)
      → Stores id s (core_of w)
      → Ensures (remove_and_unindex env s id) w ConsistentAfter
  unfolding remove_and_unindex
  remove_and_unindex-IsConsistent s id w h =
      Ensures-modify _
        (Ensures-modify _ (Ensures-modify_last _ (remove_stream-IsConsistent id s w h)))

  -- `cancel_stream` keeps the storage consistent.
  pub cancel_stream-IsConsistent :
      (id : ℕ) (caller : Address) (w : World C)
      → IsConsistent (core_of w)
      → Ensures (cancel_stream env id caller) w ConsistentAfter
  unfolding cancel_stream load_stream publish
  cancel_stream-IsConsistent id caller w h =
      keep IsConsistent (require_auth-core env caller) h λ _ w₁ h₁. Ensures-gets _ _ (
        Ensures-or_err _ λ s found. Ensures-gets _ _ (
          Ensures-fail_if _ λ _. Ensures-fail_if _ λ _. Ensures-or_err _ λ c due.
            keep (Stores id s) (pay_out-core s c _) (h₁, found)
              λ _ w₂ h₂.
                Ensures-bind _ (remove_and_unindex-IsConsistent s id w₂ h₂)
                  λ _ w₃ h₃. Ensures-modify_last _ h₃))

  -- `recipient_terminate` keeps the storage consistent.
  pub recipient_terminate-IsConsistent :
      (id : ℕ) (r : Address) (w : World C)
      → IsConsistent (core_of w)
      → Ensures (recipient_terminate env id r) w ConsistentAfter
  unfolding recipient_terminate load_stream publish
  recipient_terminate-IsConsistent id r w h =
      keep IsConsistent (is_paused_or_auto_unpause-core env) h λ _ w₁ h₁. Ensures-fail_if _ λ _.
        keep IsConsistent (require_auth-core env r) h₁ λ _ w₂ h₂. Ensures-gets _ _ (
          Ensures-or_err _ λ s found. Ensures-fail_if _ λ _. Ensures-fail_if _ λ _.
            Ensures-fail_if _ λ _. Ensures-or_err _ λ c due.
              keep (Stores id s) (pay_out-core s c _) (h₂, found)
                λ _ w₃ h₃.
                  Ensures-bind _ (remove_and_unindex-IsConsistent s id w₃ h₃)
                    λ _ w₄ h₄. Ensures-modify_last _ h₄)

  cancel_one-IsConsistent :
      (sender : Address) (id : ℕ) (w : World C)
      → IsConsistent (core_of w)
      → Ensures (cancel_one env sender id) w ConsistentAfter
  unfolding cancel_one load_stream publish
  cancel_one-IsConsistent sender id w h = Ensures-gets _ _ (
      Ensures-or_err _ λ s found. Ensures-fail_if _ λ _. Ensures-fail_if _ λ _.
        Ensures-or_err _ λ c due.
          keep (Stores id s) (pay_out-core s c _) (h, found)
            λ _ w₁ h₁.
              Ensures-bind _ (remove_and_unindex-IsConsistent s id w₁ h₁)
                λ _ w₂ h₂. Ensures-modify_last _ h₂)

  try_call-IsConsistent :
      (m : Exec C (Unit {0})) (w : World C)
      → IsConsistent (core_of w)
      → Ensures m w ConsistentAfter
      → Ensures (try_call m) w ConsistentAfter
  unfolding try_call
  try_call-IsConsistent m w h k = record { returned = go (m w) k.returned }
    where
      go :
          (o : Outcome StreamError (Unit {0} × World C))
          → Holds o ConsistentAfter
          → Holds (caught w o) ConsistentAfter
      go (ok (a, w')) p = p
      go (err e) p = h
      go panic p = tt

  cancel_each-IsConsistent :
      (sender : Address) (ids : List ℕ) (w : World C)
      → IsConsistent (core_of w)
      → Ensures (cancel_each env sender ids) w ConsistentAfter
  unfolding cancel_each
  cancel_each-IsConsistent sender [] w h = Ensures-pure _ h
  cancel_each-IsConsistent sender (id ∷ ids) w h =
      Ensures-bind _ (try_call-IsConsistent _ w h (cancel_one-IsConsistent sender id w h))
        λ a w₁ h₁.
          Ensures-bind _ (cancel_each-IsConsistent sender ids w₁ h₁) λ as' w₂ h₂. Ensures-pure _ h₂

  -- `batch_cancel_stream` keeps the storage consistent.
  pub batch_cancel_stream-IsConsistent :
      (ids : List ℕ) (sender : Address) (w : World C)
      → IsConsistent (core_of w)
      → Ensures (batch_cancel_stream env ids sender) w ConsistentAfter
  unfolding batch_cancel_stream
  batch_cancel_stream-IsConsistent ids sender w h =
      keep IsConsistent (require_auth-core env sender) h
        λ _ w₁ h₁. Ensures-fail_if _ λ _. cancel_each-IsConsistent sender ids w₁ h₁

  -- `archive_stream` keeps the storage consistent.
  pub archive_stream-IsConsistent :
      (id : ℕ) (caller : Address) (w : World C)
      → IsConsistent (core_of w)
      → Ensures (archive_stream env id caller) w ConsistentAfter
  unfolding archive_stream load_stream publish remove_delegate
  archive_stream-IsConsistent id caller w h =
      keep IsConsistent (require_auth-core env caller) h λ _ w₁ h₁. Ensures-gets _ _ (
        Ensures-or_err _ λ s found. Ensures-fail_if _ λ _. Ensures-fail_if _ λ _. Ensures-modify _ (
          Ensures-modify _ (
            Ensures-modify _ (
              Ensures-gets _ _ (
                keep IsConsistent (Unchanged-when core_of _ _ (search unchanged_rules))
                  (remove_stream-IsConsistent id s w₁ (h₁, found))
                  λ _ w₂ h₂. Ensures-modify_last _ h₂)))))

  -- The identifier that a partial cancellation of a stream derives.
  abbrev pub remainder_id : ℕ → Stream → ℕ
  remainder_id id s = derive_stream_id env s.sender s.recipient (stream_now env s) id

  spawn_remainder-IsConsistent :
      (s : Stream) (id : ℕ) (d : ℤ) (end_time : ℕ) (w : World C)
      → IsConsistent (core_of w)
      → streams_of w (remainder_id id s) ≡ none
      → Ensures (spawn_remainder env s id d (stream_now env s) end_time) w ConsistentAfter
  unfolding spawn_remainder
  spawn_remainder-IsConsistent s id d end_time w h free =
      store-IsConsistent (remainder_stream s (remainder_id id s) d (stream_now env s) end_time) w h
        free
        λ w₁ h₁ _. keep IsConsistent (index_global_stream-core _) h₁ λ _ w₂ h₂. Ensures-pure _ h₂

  -- Whether the identifier that a partial cancellation derives is free.
  abbrev pub SparesId : (ℕ → Option Stream) → ℕ → Type 0
  SparesId streams id = (s : Stream) → streams id ≡ some s → streams (remainder_id id s) ≡ none

  pub partial_cancel_stream-IsConsistent :
      (id : ℕ) (caller : Address) (amount : ℤ) (w : World C)
      → SparesId (streams_of w) id
      → IsConsistent (core_of w)
      → Ensures (partial_cancel_stream env id caller amount) w ConsistentAfter
  unfolding partial_cancel_stream load_stream publish
  partial_cancel_stream-IsConsistent id caller amount w free h =
      keep (λ c. IsConsistent c × SparesId c.streams id) (require_auth-core env caller) (h, free)
        λ _ w₁ (h₁, free₁). Ensures-gets _ _ (
          Ensures-or_err _ λ s found. Ensures-gets _ _ (
            Ensures-fail_if _ λ _. Ensures-fail_if _ λ live.
              let Ready : Core → Type 0 =
                λ c. Stores id s c × (c.streams (remainder_id id s) ≡ none) in
              Ensures-fail_if _ λ _. Ensures-or_err _ λ earned _. Ensures-or_err _ λ streamed _.
                Ensures-fail_if _ λ _. Ensures-or_panic λ new_deposit _. Ensures-fail_if _ λ big.
                  Ensures-or_panic λ quotient divided. Ensures-or_err _ λ seconds fits.
                    Ensures-or_err _ λ end_time ends.
                      keep Ready
                        (Unchanged-when core_of _ _
                          (transfer-core env s.token env.current_contract s.recipient earned))
                        ((h₁, found), free₁ s found)
                        λ _ w₂ h₂.
                          keep Ready
                            (transfer-core env s.token env.current_contract s.sender amount) h₂
                            λ _ w₃ h₃. Ensures-modify _ (
                              Ensures-modify _ (
                                Ensures-bind _
                                  (spawn_remainder-IsConsistent s id new_deposit end_time _
                                    (save_stream-IsConsistent id s _ w₃ h₃.0 (refl, refl, refl))
                                    (still_free id s (record s { status = cancelled })
                                      (remainder_id id s) w₃ h₃.0 refl h₃.1))
                                  λ new_id w₄ h₄. Ensures-modify _ (Ensures-pure _ h₄)))))
