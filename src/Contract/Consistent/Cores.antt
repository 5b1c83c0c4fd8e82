-- ===== src/Contract/Consistent/Cores.antt =====
-- contracts/stream/src/storage.rs: a stream that is saved, stored, removed or handed over, with the two
-- indexes: the consistency of what the writes make of the core.
use sorostream_contracts.Prelude.{
  ℕ, ◌≡◌, ap, sym, ◌∙◌, subst, Option, none, some, ◌==◌, update, update-update, update_self,
  Bool-cases, inl, inr, ==→eq,
}
use sorostream_contracts.Types.{Address, Stream}
use sorostream_contracts.Env.{Slots}
use sorostream_contracts.Storage.Index.{append_id, remove_id}
use sorostream_contracts.Storage.Index.Listed.{
  IsListed, saved-IsListed, added-IsListed, dropped-IsListed,
}
use sorostream_contracts.Contract.Frames.{Core}
use sorostream_contracts.Contract.Consistent.{sender_of, recipient_of, IsConsistent, SameParties}

update-own_id :
    (streams : ℕ → Option Stream) (k : ℕ) (v : Option Stream)
    → ((id : ℕ) (s : Stream) → streams id ≡ some s → s.id ≡ id)
    → ((s : Stream) → v ≡ some s → s.id ≡ k)
    → (id : ℕ) (s : Stream) → update streams k v id ≡ some s
    → s.id ≡ id
update-own_id streams k v h new id s e = elim (Bool-cases (k == id)) [
  | inl here ↦ new s (rw here at e) ∙ ==→eq k id here
  | inr there ↦ h id s (rw there at e)
]

some_id : (t s : Stream) → some t ≡ some s → s.id ≡ t.id
some_id t s e = let same : t ≡ s = cc in ap (λ x. x.id) (sym same)

module _ (c : Core) (h : IsConsistent c) where
  pub saved :
      (id : ℕ) (s t : Stream)
      → c.streams id ≡ some s
      → SameParties s t
      → IsConsistent (record c { streams = update c.streams t.id (some t) })
  saved id s t found (same_id, same_sender, same_recipient) =
      let at : c.streams t.id ≡ some s = ap c.streams (same_id ∙ h.own_id id s found) ∙ found in
      record {
        own_id = update-own_id c.streams t.id (some t) h.own_id (some_id t);
        senders = saved-IsListed sender_of c.streams c.by_sender h.senders t.id s t at same_sender;
        recipients =
            saved-IsListed recipient_of c.streams c.by_recipient h.recipients t.id s t at
              same_recipient;
        fee_in = h.fee_in;
        pending_in = h.pending_in;
      }

  pub dropped :
      (id : ℕ) (s : Stream)
      → c.streams id ≡ some s
      → IsConsistent (record c {
        streams = update c.streams id none;
        by_sender = remove_id c.by_sender s.sender id;
        by_recipient = remove_id c.by_recipient s.recipient id;
      })
  dropped id s found = record {
    own_id = update-own_id c.streams id none h.own_id (λ t e. cc);
    senders = dropped-IsListed sender_of c.streams c.by_sender h.senders id s found;
    recipients = dropped-IsListed recipient_of c.streams c.by_recipient h.recipients id s found;
    fee_in = h.fee_in;
    pending_in = h.pending_in;
  }

  pub added :
      (t : Stream) {a b : Slots}
      → c.streams t.id ≡ none
      → append_id c.by_sender t.sender t.id ≡ some a
      → append_id c.by_recipient t.recipient t.id ≡ some b
      → IsConsistent
          (record c { streams = update c.streams t.id (some t); by_sender = a; by_recipient = b })
  added t free listed_sender listed_recipient = record {
    own_id = update-own_id c.streams t.id (some t) h.own_id (some_id t);
    senders = added-IsListed sender_of c.streams c.by_sender h.senders t.id t free listed_sender;
    recipients =
        added-IsListed recipient_of c.streams c.by_recipient h.recipients t.id t free
          listed_recipient;
    fee_in = h.fee_in;
    pending_in = h.pending_in;
  }

  -- The list of the old recipient loses the identifier before that of the new one gets it.
  pub handed_over :
      (id : ℕ) (s t : Stream) {b : Slots}
      → c.streams id ≡ some s
      → t.id ≡ s.id
      → t.sender ≡ s.sender
      → append_id (remove_id c.by_recipient s.recipient id) t.recipient id ≡ some b
      → IsConsistent (record c { streams = update c.streams t.id (some t); by_recipient = b })
  handed_over id s t {b} found same_id same_sender listed =
      let place : t.id ≡ id = same_id ∙ h.own_id id s found in
      let at : c.streams t.id ≡ some s = ap c.streams place ∙ found in
      record {
        own_id = update-own_id c.streams t.id (some t) h.own_id (some_id t);
        senders = saved-IsListed sender_of c.streams c.by_sender h.senders t.id s t at same_sender;
        recipients =
            subst (λ m. (a : Address) → IsListed recipient_of m b a)
              (update-update c.streams id none (some t)
                ∙ ap (λ k. update c.streams k (some t)) (sym place))
              (added-IsListed recipient_of (update c.streams id none)
                (remove_id c.by_recipient s.recipient id)
                (dropped-IsListed recipient_of c.streams c.by_recipient h.recipients id s found) id
                t (update_self c.streams id none) listed);
        fee_in = h.fee_in;
        pending_in = h.pending_in;
      }
