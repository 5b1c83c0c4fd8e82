-- ===== src/Contract/Consistent/Writes.antt =====
-- contracts/stream/src/lib.rs and storage.rs, the writes of the entry points: the consistency of the
-- storage.
use sorostream_contracts.Prelude.{ℕ, ◌≡◌, refl, ap, sym, ◌∙◌, subst, none, some, update}
use sorostream_contracts.Prelude.Int.{ℤ}
use sorostream_contracts.Types.{Stream, overflow}
use sorostream_contracts.Call.{modify, ◌>>=◌, ◌>>◌}
use sorostream_contracts.Call.Rules.{
  Ensures, Ensures-bind, Ensures-weaken, Ensures-modify, Ensures-or_err, Ensures-or_panic,
  Ensures-gets, Ensures-modify_last, Ensures-pure,
}
use sorostream_contracts.Call.Unchanged.{Unchanged}
use sorostream_contracts.Env.{World, Exec, Slots}
use sorostream_contracts.Storage.Streams.{save_stream, remove_stream}
use sorostream_contracts.Storage.Index.{
  index_by_sender, index_by_recipient, unindex_by_sender, unindex_by_recipient, append_id,
}
use sorostream_contracts.Contract.Payment.{add_withdrawn}
use sorostream_contracts.Contract.Frames.{Core, core_of, streams_of}
use sorostream_contracts.Contract.Consistent.{
  IsConsistent, Stores, SameParties, ConsistentAfter, Claimed,
}
use sorostream_contracts.Contract.Consistent.Cores.{saved, dropped, added, handed_over}

module _ {C : Type 0} where
  pub save_stream-IsConsistent :
      (id : ℕ) (s t : Stream) (w : World C)
      → Stores id s (core_of w)
      → SameParties s t
      → IsConsistent (core_of (save_stream t w))
  unfolding save_stream
  save_stream-IsConsistent id s t w (h, found) same = saved (core_of w) h id s t found same

  pub remove_stream-IsConsistent :
      (id : ℕ) (s : Stream) (w : World C)
      → Stores id s (core_of w)
      → IsConsistent (
          core_of (
            unindex_by_recipient s.recipient id
              (unindex_by_sender s.sender id (remove_stream id w))))
  unfolding remove_stream unindex_by_sender unindex_by_recipient
  remove_stream-IsConsistent id s w (h, found) = dropped (core_of w) h id s found

  -- A stream with a free identifier is stored and entered in both lists.
  pub store-IsConsistent :
      {B : Type 0} {n : Exec C B} {Q : B → World C → Type 0} (t : Stream) (w : World C)
      → IsConsistent (core_of w)
      → streams_of w t.id ≡ none
      → ((w' : World C)
          → IsConsistent (core_of w')
          → streams_of w' ≡ update (streams_of w) t.id (some t)
          → Ensures n w' Q)
      → Ensures
          (modify (save_stream t)
            >> (index_by_sender t.sender t.id >> (index_by_recipient t.recipient t.id >> n)))
          w
          Q
  unfolding save_stream index_by_sender index_by_recipient
  store-IsConsistent t w h free next = Ensures-modify _ (
      Ensures-bind
        (λ _ w₁.
          (a : Slots) × (append_id w.pers.by_sender t.sender t.id ≡ some a)
          × (core_of w₁ ≡ record (core_of (save_stream t w)) { by_sender = a }))
        (Ensures-gets _ _ (Ensures-or_panic λ a listed. Ensures-modify_last _ (a, listed, refl)))
        λ _ w₁ (a, listed, e₁).
          Ensures-bind
            (λ _ w₂.
              (b : Slots) × (append_id w.pers.by_recipient t.recipient t.id ≡ some b)
              × (core_of w₂
                  ≡ record (core_of (save_stream t w)) { by_sender = a; by_recipient = b }))
            (Ensures-gets _ _ (
              Ensures-or_panic λ b listed'.
                let same = ap (λ c. c.by_recipient) e₁ in
                Ensures-modify_last _ (
                  b,
                  ap (λ x. append_id x t.recipient t.id) (sym same) ∙ listed',
                  ap {A = Core} (λ c. record c { by_recipient = b }) e₁,
                )))
            λ _ w₂ (b, listed', e₂).
              next w₂ (subst IsConsistent (sym e₂) (added (core_of w) h t free listed listed'))
                (ap (λ c. c.streams) e₂))

  -- A stream is saved with another recipient, and its identifier moves from one list to the other.
  pub hand_over-IsConsistent :
      {B : Type 0} {n : Exec C B} {Q : B → World C → Type 0} (id : ℕ) (s t : Stream) (w : World C)
      → Stores id s (core_of w)
      → t.id ≡ s.id
      → t.sender ≡ s.sender
      → ((w' : World C) → IsConsistent (core_of w') → Ensures n w' Q)
      → Ensures
          (modify (save_stream t)
            >> (modify (unindex_by_recipient s.recipient id)
                >> (index_by_recipient t.recipient id >> n)))
          w
          Q
  unfolding save_stream unindex_by_recipient index_by_recipient
  hand_over-IsConsistent id s t w (h, found) same_id same_sender next = Ensures-modify _ (
      Ensures-modify _ (
        Ensures-bind ConsistentAfter
          (Ensures-gets _ _ (
            Ensures-or_panic λ b listed.
              Ensures-modify_last _
                (handed_over (core_of w) h id s t found same_id same_sender listed)))
          λ _ w₁ h₁. next w₁ h₁))

module _ {C A B : Type 0} where
  -- A step that leaves the core alone keeps what is known of it.
  pub keep :
      {m : Exec C A} {f : A → Exec C B} {w : World C} {Q : B → World C → Type 0} (P : Core → Type 0)
      → Unchanged core_of m
      → P (core_of w)
      → ((a : A) (w' : World C) → P (core_of w') → Ensures (f a) w' Q)
      → Ensures (m >>= f) w Q
  keep {w} P k h next =
      Ensures-bind (λ a w'. P (core_of w')) (Ensures-weaken (k.at w) (λ a w' e. subst P (sym e) h))
        next

pub add_withdrawn-Claimed :
    {C : Type 0} (s : Stream) (n : ℤ) (w : World C) → Ensures (add_withdrawn s n) w (Claimed s w)
unfolding add_withdrawn
add_withdrawn-Claimed s n w =
    Ensures-or_err overflow λ total p. Ensures-pure _ ((refl, refl, refl), refl)
