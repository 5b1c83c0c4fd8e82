-- ===== src/Storage/Index/Listed.antt =====
-- contracts/stream/src/storage.rs: the streams that are stored and an index of them by an address. The
-- index lists the streams of an address, each once.
use sorostream_contracts.Prelude.{
  ℕ, ◌+◌, ==_refl, ◌≡◌, ◌≢◌, refl, ap, sym, ◌∙◌, subst, Bool, false, Option, none, some, List, [],
  ◌∷◌, ◌++◌, ◌==◌, update, Bool-cases, inl, inr, ==→eq, ==→ne,
}
use sorostream_contracts.Types.{Address, Stream}
use sorostream_contracts.Env.{Slots}
use sorostream_contracts.Storage.Index.{get_count, append_id, remove_id}
use sorostream_contracts.Storage.Index.View.{IsIndex, swap_remove, contains}
use sorostream_contracts.Storage.Index.Refines.{SameElsewhere, append_id-IsIndex, remove_id-IsIndex}
use sorostream_contracts.Storage.Index.Distinct.{
  Distinct, Distinct-append, Distinct-swap_remove, contains-append, contains-swap_remove,
}

-- Whether an entry of the storage is a stream of an address.
abbrev pub owned_by : (Stream → Address) → Address → Option Stream → Bool
owned_by owner a none = false
owned_by owner a (some s) = owner s == a

-- The slots of an address hold exactly the identifiers of its stored streams, each once.
pub record IsListed (owner : Stream → Address) (streams : ℕ → Option Stream) (slots : Slots)
    (a : Address) : Type 0 where
  pub ids : List ℕ
  pub is : IsIndex slots a ids
  pub distinct : Distinct ids
  pub exact : (id : ℕ) → contains id ids ≡ owned_by owner a (streams id)

elsewhere-IsIndex :
    (s t : Slots) (a b : Address) (ids : List ℕ)
    → SameElsewhere s t a
    → a ≢ b
    → IsIndex s b ids
    → IsIndex t b ids
unfolding get_count
elsewhere-IsIndex s t a b ids e ne h = record {
  counted = rw (e.counts b ne) h.counted;
  slots = λ j. e.slots b (0 + j) ne ∙ h.slots j;
}

module _ (owner : Stream → Address) (streams : ℕ → Option Stream) (slots : Slots)
    (h : (a : Address) → IsListed owner streams slots a) where
  -- A stream is written over one of the same owner.
  pub saved-IsListed :
      (id : ℕ) (s t : Stream)
      → streams id ≡ some s
      → owner t ≡ owner s
      → (a : Address) → IsListed owner (update streams id (some t)) slots a
  saved-IsListed id s t found same a =
      let l = h a in
      record {
        ids = l.ids;
        is = l.is;
        distinct = l.distinct;
        exact = λ k. elim (Bool-cases (id == k)) [
          | inl here ↦ rw here (
              l.exact k
              ∙ ap (owned_by owner a) (ap streams (sym (==→eq id k here)) ∙ found)
              ∙ ap (λ o. o == a) (sym same))
          | inr there ↦ rw there (l.exact k)
        ];
      }

  -- A stream is written where none was, and appended to the list of its owner.
  pub added-IsListed :
      (id : ℕ) (t : Stream) {slots' : Slots}
      → streams id ≡ none
      → append_id slots (owner t) id ≡ some slots'
      → (a : Address) → IsListed owner (update streams id (some t)) slots' a
  added-IsListed id t {slots'} free appended a =
      let l = h a in
      let o = h (owner t) in
      let (is_new, others) = append_id-IsIndex slots (owner t) id o.ids o.is appended in
      let fresh : (b : Address) → contains id (h b).ids ≡ false =
        λ b. (h b).exact id ∙ ap (owned_by owner b) free in
      elim (Bool-cases (owner t == a)) [
        | inl mine ↦
            subst (IsListed owner (update streams id (some t)) slots') (==→eq (owner t) a mine)
              (record {
                ids = o.ids ++ id ∷ [];
                is = is_new;
                distinct = Distinct-append id o.ids o.distinct (fresh (owner t));
                exact = λ k. contains-append k id o.ids ∙ elim (Bool-cases (id == k)) [
                  | inl here ↦ rw here (sym (==_refl (owner t)))
                  | inr there ↦ rw there (o.exact k)
                ];
              })
        | inr other ↦ record {
          ids = l.ids;
          is = elsewhere-IsIndex slots slots' (owner t) a l.ids others (==→ne _ _ other) l.is;
          distinct = l.distinct;
          exact = λ k. elim (Bool-cases (id == k)) [
            | inl here ↦
                rw (here, other) (ap (λ x. contains x l.ids) (sym (==→eq id k here)) ∙ fresh a)
            | inr there ↦ rw there (l.exact k)
          ];
        }
      ]

  -- A stream is removed, and its identifier taken off the list of its owner.
  pub dropped-IsListed :
      (id : ℕ) (s : Stream)
      → streams id ≡ some s
      → (a : Address) → IsListed owner (update streams id none) (remove_id slots (owner s) id) a
  dropped-IsListed id s found a =
      let l = h a in
      let o = h (owner s) in
      let (is_new, others) = remove_id-IsIndex slots (owner s) id o.ids o.is in
      elim (Bool-cases (owner s == a)) [
        | inl mine ↦
            subst (IsListed owner (update streams id none) (remove_id slots (owner s) id))
              (==→eq (owner s) a mine)
              (record {
                ids = swap_remove id o.ids;
                is = is_new;
                distinct = Distinct-swap_remove id o.ids o.distinct;
                exact = λ k.
                    contains-swap_remove k id o.ids o.distinct ∙ elim (Bool-cases (id == k)) [
                      | inl here ↦ rw here refl
                      | inr there ↦ rw there (o.exact k)
                    ];
              })
        | inr other ↦ record {
          ids = l.ids;
          is = elsewhere-IsIndex slots _ (owner s) a l.ids others (==→ne _ _ other) l.is;
          distinct = l.distinct;
          exact = λ k. elim (Bool-cases (id == k)) [
            | inl here ↦ rw here (
                ap (λ x. contains x l.ids) (sym (==→eq id k here))
                ∙ l.exact id
                ∙ ap (owned_by owner a) found
                ∙ other)
            | inr there ↦ rw there (l.exact k)
          ];
        }
      ]
