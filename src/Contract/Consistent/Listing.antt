-- ===== src/Contract/Consistent/Listing.antt =====
-- contracts/stream/src/lib.rs, `get_active_streams_by_sender` and `get_active_streams_by_recipient`: what
-- they list of a consistent storage.
use sorostream_contracts.Prelude.{
  ℕ, ◌≡◌, refl, ap, sym, ◌∙◌, Bool, false, Option, none, some, List, [], ◌∷◌, ◌==◌, if◌then◌else◌,
  arith, Bool-cases, inl, inr, ==→eq,
}
use sorostream_contracts.Types.{Address, Stream, is_active}
use sorostream_contracts.Env.{World}
use sorostream_contracts.Storage.Streams.{load_stream}
use sorostream_contracts.Storage.Index.{get_ids_by_sender, get_ids_by_recipient}
use sorostream_contracts.Storage.Index.View.{contains, get_ids-eq}
use sorostream_contracts.Storage.Index.Distinct.{Distinct}
use sorostream_contracts.Storage.Index.Listed.{owned_by}
use sorostream_contracts.Contract.Queries.{
  active_only, load_all, get_active_streams_by_sender, get_active_streams_by_recipient,
}
use sorostream_contracts.Contract.Frames.{core_of, streams_of}
use sorostream_contracts.Contract.Consistent.{IsConsistent, sender_of, recipient_of}

-- The first stream of a list with an identifier, and the identifiers of a list.
abbrev pub find_stream : ℕ → List Stream → Option Stream
find_stream id [] = none
find_stream id (s ∷ l) = let rest = find_stream id l in if s.id == id then some s else rest

abbrev pub stream_ids : List Stream → List ℕ
stream_ids [] = []
stream_ids (s ∷ l) = s.id ∷ stream_ids l

-- What is stored, if it is active, and if it is an active stream of an address.
abbrev active_part : Option Stream → Option Stream
active_part none = none
active_part (some s) = if is_active s.status then some s else none

abbrev pub active_of : (Stream → Address) → Address → Option Stream → Option Stream
active_of owner a none = none
active_of owner a (some s) =
    if owner s == a then (if is_active s.status then some s else none) else none

module _ {C : Type 0} (w : World C)
    (own : (id : ℕ) (s : Stream) → streams_of w id ≡ some s → s.id ≡ id) where
  abbrev listing : List ℕ → List Stream
  listing ids = active_only (load_all w ids)

  abbrev with_head : Option Stream → List Stream → List Stream
  with_head none l = l
  with_head (some s) l = if is_active s.status then s ∷ l else l

  listing-cons :
      (k : ℕ) (ids : List ℕ) (o : Option Stream)
      → streams_of w k ≡ o
      → listing (k ∷ ids) ≡ with_head o (listing ids)
  unfolding load_all load_stream
  listing-cons k ids o e =
      ap (λ x. active_only (elim x [ none ↦ load_all w ids | some s ↦ s ∷ load_all w ids ])) e
      ∙ cut o
    where
      cut :
          (o : Option Stream)
          → active_only (elim o [ none ↦ load_all w ids | some s ↦ s ∷ load_all w ids ])
            ≡ with_head o (listing ids)
      cut none = refl
      cut (some s) = refl

  abbrev Found : ℕ → List ℕ → Type 0
  Found x ids =
      find_stream x (listing ids) ≡ (if contains x ids then active_part (streams_of w x) else none)

  find_stream-cons :
      (x k : ℕ) (ids : List ℕ) (o : Option Stream)
      → streams_of w k ≡ o
      → Found x ids
      → Found x (k ∷ ids)
  unfolding load_all load_stream
  find_stream-cons x k ids none e before = elim (Bool-cases (k == x)) [
    | inl here ↦
        let gone : streams_of w x ≡ none = ap (streams_of w) (sym (==→eq k x here)) ∙ e in
        rw (listing-cons k ids none e, here, gone) (rw gone at before ∙ ground arith)
    | inr there ↦ rw (listing-cons k ids none e, there) before
  ]
  find_stream-cons x k ids (some s) e before = elim (Bool-cases (k == x)) [
    | inl here ↦
        let found : streams_of w x ≡ some s = ap (streams_of w) (sym (==→eq k x here)) ∙ e in
        rw (listing-cons k ids (some s) e, here, found)
          (ground (arith, before, found, own k s e, here))
    | inr there ↦
        rw (listing-cons k ids (some s) e, there)
          (elim (Bool-cases (is_active s.status)) [
            | inl act ↦ rw (act, own k s e, there) before
            | inr not_act ↦ rw not_act before
          ])
  ]

  find_stream-listing : (x : ℕ) (ids : List ℕ) → Found x ids
  unfolding load_all load_stream
  find_stream-listing x [] = refl
  find_stream-listing x (k ∷ ids) = find_stream-cons x k ids _ refl (find_stream-listing x ids)

  abbrev Misses : ℕ → List ℕ → Type 0
  Misses x ids = contains x (stream_ids (listing ids)) ≡ false

  Misses-cons :
      (x k : ℕ) (ids : List ℕ) (o : Option Stream)
      → streams_of w k ≡ o
      → k == x ≡ false
      → Misses x ids
      → Misses x (k ∷ ids)
  unfolding load_all load_stream
  Misses-cons x k ids none e other before = rw (listing-cons k ids none e) before
  Misses-cons x k ids (some s) e other before =
      rw (listing-cons k ids (some s) e) (ground (arith, before, own k s e, other))

  listing-Misses : (x : ℕ) (ids : List ℕ) → contains x ids ≡ false → Misses x ids
  unfolding load_all
  listing-Misses x [] h = refl
  listing-Misses x (k ∷ ids) h =
      Misses-cons x k ids _ refl (ground arith) (listing-Misses x ids (ground arith))

  Distinct-cons :
      (k : ℕ) (ids : List ℕ) (o : Option Stream)
      → streams_of w k ≡ o
      → Misses k ids
      → Distinct (stream_ids (listing ids))
      → Distinct (stream_ids (listing (k ∷ ids)))
  unfolding load_all load_stream
  Distinct-cons k ids none e new before = rw (listing-cons k ids none e) before
  Distinct-cons k ids (some s) e new before =
      rw (listing-cons k ids (some s) e) (elim (Bool-cases (is_active s.status)) [
        | inl act ↦ rw act (rw (own k s e) new, before)
        | inr not_act ↦ rw not_act before
      ])

  Distinct-listing : (ids : List ℕ) → Distinct ids → Distinct (stream_ids (listing ids))
  unfolding load_all
  Distinct-listing [] d = tt
  Distinct-listing (k ∷ ids) d =
      Distinct-cons k ids _ refl (listing-Misses k ids d.0) (Distinct-listing ids d.1)

  listed-exact :
      (owner : Stream → Address) (a : Address) (x : ℕ) (o : Option Stream) (b : Bool)
      → b ≡ owned_by owner a o
      → (if b then active_part o else none) ≡ active_of owner a o
  listed-exact owner a x none b e = ground (arith, e)
  listed-exact owner a x (some s) b e = rw e refl

module _ {C : Type 0} (w : World C) (h : IsConsistent (core_of w)) where
  -- In a consistent storage, a stream is found by an identifier in what
  -- get_active_streams_by_sender lists for an address exactly if it is the stored stream under
  -- that identifier, active and of that sender; and no identifier is listed twice.
  pub get_active_streams_by_sender-exact :
      (a : Address) (id : ℕ)
      → (find_stream id (get_active_streams_by_sender a w)
          ≡ active_of sender_of a (load_stream w id))
        × Distinct (stream_ids (get_active_streams_by_sender a w))
  unfolding get_active_streams_by_sender get_ids_by_sender load_stream
  get_active_streams_by_sender-exact a id =
      let l = h.senders a in
      rw (get_ids-eq w.pers.by_sender a l.ids l.is) (
        find_stream-listing w h.own_id id l.ids
            ∙ listed-exact w h.own_id sender_of a id (streams_of w id) _ (l.exact id),
        Distinct-listing w h.own_id l.ids l.distinct,
      )

  -- In a consistent storage, a stream is found by an identifier in what
  -- get_active_streams_by_recipient lists for an address exactly if it is the stored stream under
  -- that identifier, active and of that recipient; and no identifier is listed twice.
  pub get_active_streams_by_recipient-exact :
      (a : Address) (id : ℕ)
      → (find_stream id (get_active_streams_by_recipient a w)
          ≡ active_of recipient_of a (load_stream w id))
        × Distinct (stream_ids (get_active_streams_by_recipient a w))
  unfolding get_active_streams_by_recipient get_ids_by_recipient load_stream
  get_active_streams_by_recipient-exact a id =
      let l = h.recipients a in
      rw (get_ids-eq w.pers.by_recipient a l.ids l.is) (
        find_stream-listing w h.own_id id l.ids
            ∙ listed-exact w h.own_id recipient_of a id (streams_of w id) _ (l.exact id),
        Distinct-listing w h.own_id l.ids l.distinct,
      )
