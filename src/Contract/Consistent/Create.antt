-- ===== src/Contract/Consistent/Create.antt =====
-- contracts/stream/src/lib.rs, `create_stream` and `batch_create_stream`: the consistency of the storage.
use sorostream_contracts.Prelude.{
  ℕ, suc, ◌≡◌, refl, sym, ◌∙◌, subst, Bool, false, Option, none, some, is_some, List, [], ◌∷◌, ◌++◌,
  ◌==◌, arith, update,
}
use sorostream_contracts.Prelude.Int.{ℤ}
use sorostream_contracts.Types.{Address, Stream}
use sorostream_contracts.Call.Rules.{
  Ensures, Ensures-bind, Ensures-pure, Ensures-gets, Ensures-or_err, Ensures-or_panic,
  Ensures-fail_if, Ensures-modify, Ensures-modify_last,
}
use sorostream_contracts.Call.Unchanged.{Unchanged-when}
use sorostream_contracts.Env.{Env, World, publish}
use sorostream_contracts.Storage.Access.{mark_nonce_used}
use sorostream_contracts.Storage.Streams.{stream_exists, derive_stream_id}
use sorostream_contracts.Storage.Index.View.{contains}
use sorostream_contracts.Storage.Index.Distinct.{Distinct, Distinct-append}
use sorostream_contracts.Contract.Create.{
  CreateArgs, new_stream, mem, store_new, create_stream, BatchItem, zip_batch, check_batch,
  create_each, batch_create_stream,
}
use sorostream_contracts.Contract.Frames.{
  Core, core_of, streams_of, is_paused_or_auto_unpause-core, require_auth-core, transfer-core,
  index_global_stream-core, increment_batch_nonce-core,
}
use sorostream_contracts.Contract.Sound.Create.{charge_creation_fee-core}
use sorostream_contracts.Contract.Consistent.{IsConsistent, ConsistentAfter}
use sorostream_contracts.Contract.Consistent.Writes.{keep, store-IsConsistent}

pub is_some-none : (o : Option Stream) → is_some o ≡ false → o ≡ none
is_some-none none h = refl
is_some-none (some s) h = cc

mem-contains : (x : ℕ) (ids : List ℕ) → mem x ids ≡ contains x ids
mem-contains x [] = refl
mem-contains x (y ∷ ids) = ground (arith, mem-contains x ids)

-- None of the identifiers is that of a stored stream.
abbrev Unstored : (ℕ → Option Stream) → List ℕ → Type 0
Unstored f [] = Unit {0}
Unstored f (x ∷ xs) = (f x ≡ none) × Unstored f xs

Unstored-append :
    (f : ℕ → Option Stream) (x : ℕ) (ids : List ℕ)
    → Unstored f ids
    → f x ≡ none
    → Unstored f (ids ++ x ∷ [])
Unstored-append f x [] h free = (free, tt)
Unstored-append f x (y ∷ ids) h free = (h.0, Unstored-append f x ids h.1 free)

-- The identifiers of a batch are free for it: not of stored streams, and not twice the same.
abbrev Away : ℕ → List BatchItem → Type 0
Away k [] = Unit {0}
Away k (x ∷ xs) = (k == x.stream_id ≡ false) × Away k xs

abbrev FreeItems : (ℕ → Option Stream) → List BatchItem → Type 0
FreeItems f [] = Unit {0}
FreeItems f (x ∷ xs) = (f x.stream_id ≡ none) × Away x.stream_id xs × FreeItems f xs

FreeItems-update :
    (f : ℕ → Option Stream) (k : ℕ) (v : Option Stream) (items : List BatchItem)
    → Away k items
    → FreeItems f items
    → FreeItems (update f k v) items
FreeItems-update f k v [] away h = tt
FreeItems-update f k v (x ∷ items) away (free, apart, rest) =
    (rw away.0 free, apart, FreeItems-update f k v items away.1 rest)

zip_batch-Away :
    (k : ℕ) (rs : List Address) (as' : List ℤ) (ts : List Address) (ls xs : List ℕ)
    → contains k xs ≡ false
    → Away k (zip_batch rs as' ts ls xs)
zip_batch-Away k [] as' ts ls xs h = tt
zip_batch-Away k (r ∷ rs) [] ts ls xs h = tt
zip_batch-Away k (r ∷ rs) (a ∷ as') [] ls xs h = tt
zip_batch-Away k (r ∷ rs) (a ∷ as') (t ∷ ts) [] xs h = tt
zip_batch-Away k (r ∷ rs) (a ∷ as') (t ∷ ts) (l ∷ ls) [] h = tt
zip_batch-Away k (r ∷ rs) (a ∷ as') (t ∷ ts) (l ∷ ls) (x ∷ xs) h =
    (ground arith, zip_batch-Away k rs as' ts ls xs (ground arith))

zip_batch-FreeItems :
    (f : ℕ → Option Stream) (rs : List Address) (as' : List ℤ) (ts : List Address) (ls xs : List ℕ)
    → Distinct xs
    → Unstored f xs
    → FreeItems f (zip_batch rs as' ts ls xs)
zip_batch-FreeItems f [] as' ts ls xs d h = tt
zip_batch-FreeItems f (r ∷ rs) [] ts ls xs d h = tt
zip_batch-FreeItems f (r ∷ rs) (a ∷ as') [] ls xs d h = tt
zip_batch-FreeItems f (r ∷ rs) (a ∷ as') (t ∷ ts) [] xs d h = tt
zip_batch-FreeItems f (r ∷ rs) (a ∷ as') (t ∷ ts) (l ∷ ls) [] d h = tt
zip_batch-FreeItems f (r ∷ rs) (a ∷ as') (t ∷ ts) (l ∷ ls) (x ∷ xs) d h =
    (h.0, zip_batch-Away x rs as' ts ls xs d.0, zip_batch-FreeItems f rs as' ts ls xs d.1 h.1)

module _ {C : Type 0} (env : Env C) where
  store_new-IsConsistent :
      (s : Stream) (w : World C)
      → IsConsistent (core_of w)
      → streams_of w s.id ≡ none
      → Ensures (store_new env s) w (λ _ w'.
        IsConsistent (core_of w') × (streams_of w' ≡ update (streams_of w) s.id (some s)))
  unfolding store_new publish
  store_new-IsConsistent s w h free = store-IsConsistent s w h free λ w₁ h₁ e.
      keep (λ c. IsConsistent c × (c.streams ≡ update (streams_of w) s.id (some s)))
        (index_global_stream-core s.id) (h₁, e) λ _ w₂ h₂. Ensures-modify_last _ h₂

  -- If the storage is consistent, then it is after a call of `create_stream` that returns.
  pub create_stream-IsConsistent :
      (args : CreateArgs) (w : World C)
      → IsConsistent (core_of w)
      → Ensures (create_stream env args) w ConsistentAfter
  unfolding create_stream mark_nonce_used stream_exists
  create_stream-IsConsistent args w h =
      let id = derive_stream_id env args.sender args.recipient env.timestamp args.nonce in
      let Ready : Core → Type 0 = λ c. IsConsistent c × (c.streams id ≡ none) in
      keep IsConsistent (require_auth-core env args.sender) h λ _ w₁ h₁.
        keep IsConsistent (is_paused_or_auto_unpause-core env) h₁ λ _ w₂ h₂. Ensures-fail_if _ λ _.
          Ensures-gets _ _ (
            Ensures-fail_if _ λ _. Ensures-fail_if _ λ _. Ensures-fail_if _ λ _.
              Ensures-fail_if _ λ _. Ensures-gets _ _ (
                Ensures-gets _ _ (
                  Ensures-fail_if _ λ _. Ensures-gets _ _ (
                    Ensures-fail_if _ λ _. Ensures-or_panic λ f _. Ensures-fail_if _ λ _.
                      Ensures-gets _ _ (
                        Ensures-gets _ _ (
                          Ensures-fail_if _ λ _. Ensures-modify _ (
                            Ensures-or_err _ λ end_time _. Ensures-fail_if _ λ _.
                              Ensures-or_err _ λ cliff_time _. Ensures-gets _ _ (
                                Ensures-fail_if _ λ absent. Ensures-gets _ _ (
                                  keep {w = mark_nonce_used args.sender args.nonce w₂} Ready
                                    (Unchanged-when core_of _ _
                                      (charge_creation_fee-core env args.sender _))
                                    (h₂, is_some-none _ absent)
                                    λ _ w₃ h₃.
                                      keep Ready
                                        (transfer-core env args.token args.sender
                                          env.current_contract args.amount)
                                        h₃
                                        λ _ w₄ h₄.
                                          Ensures-bind _
                                            (store_new-IsConsistent
                                              (new_stream args id f env.timestamp cliff_time
                                                end_time)
                                              w₄ h₄.0 h₄.1)
                                            λ _ w₅ h₅. Ensures-pure _ h₅.0)))))))))

  check_batch-free :
      (sender : Address) (d i : ℕ) (rs : List Address) (as' : List ℤ) (ids : List ℕ) (w : World C)
      → IsConsistent (core_of w)
      → Distinct ids
      → Unstored (streams_of w) ids
      → Ensures
          (check_batch env sender d i rs as' ids)
          w
          (λ found w'. IsConsistent (core_of w') × Distinct found × Unstored (streams_of w') found)
  unfolding check_batch stream_exists
  check_batch-free sender d i [] as' ids w h distinct free = Ensures-pure _ (h, distinct, free)
  check_batch-free sender d i (r ∷ rs) [] ids w h distinct free = Ensures-pure _ (h, distinct, free)
  check_batch-free sender d i (r ∷ rs) (a ∷ as') ids w h distinct free =
      let id = derive_stream_id env sender r env.timestamp i in
      Ensures-fail_if _ λ _. Ensures-or_panic λ f _. Ensures-fail_if _ λ _. Ensures-gets _ _ (
        Ensures-fail_if _ λ absent. Ensures-fail_if _ λ new.
          check_batch-free sender d (suc i) rs as' _ w h
            (Distinct-append id ids distinct (sym (mem-contains id ids) ∙ new))
            (Unstored-append (streams_of w) id ids free (is_some-none _ absent)))

  create_each-IsConsistent :
      (sender : Address) (d : ℕ) (auto : Bool) (end_time : ℕ) (items : List BatchItem) (w : World C)
      → IsConsistent (core_of w)
      → FreeItems (streams_of w) items
      → Ensures (create_each env sender d auto end_time items) w ConsistentAfter
  unfolding create_each
  create_each-IsConsistent sender d auto end_time [] w h free = Ensures-pure _ h
  create_each-IsConsistent sender d auto end_time (x ∷ items) w h free = Ensures-or_panic λ f rate.
      keep (λ c. IsConsistent c × FreeItems c.streams (x ∷ items))
        (transfer-core env x.token sender env.current_contract x.amount) (h, free)
        λ _ w₁ (h₁, (unused, apart, rest)).
          Ensures-bind _ (store_new-IsConsistent _ w₁ h₁ unused) λ _ w₂ (h₂, e).
            Ensures-bind _
              (create_each-IsConsistent sender d auto end_time items w₂ h₂ (
                subst (λ f. FreeItems f items) (sym e)
                  (FreeItems-update (streams_of w₁) x.stream_id _ items apart rest)))
              λ ids w₃ h₃. Ensures-pure _ h₃

  -- If the storage is consistent, then it is after a call of batch_create_stream that returns: its
  -- first pass refuses the identifiers that are stored or met before, so that the second pass
  -- stores no stream over another.
  pub batch_create_stream-IsConsistent :
      (sender : Address) (rs : List Address) (as' : List ℤ) (ts : List Address) (d : ℕ)
      (auto : Bool) (ls : List ℕ) (nonce : ℕ) (w : World C)
      → IsConsistent (core_of w)
      → Ensures (batch_create_stream env sender rs as' ts d auto ls nonce) w ConsistentAfter
  unfolding batch_create_stream
  batch_create_stream-IsConsistent sender rs as' ts d auto ls nonce w h =
      keep IsConsistent (is_paused_or_auto_unpause-core env) h λ _ w₁ h₁. Ensures-fail_if _ λ _.
        keep IsConsistent (require_auth-core env sender) h₁ λ _ w₂ h₂. Ensures-gets _ _ (
          Ensures-fail_if _ λ _. keep IsConsistent (increment_batch_nonce-core sender) h₂ λ _ w₃ h₃.
            Ensures-fail_if _ λ _. Ensures-or_err _ λ end_time _. Ensures-fail_if _ λ _.
              Ensures-gets _ _ (
                Ensures-gets _ _ (
                  Ensures-or_panic λ total _. Ensures-fail_if _ λ _.
                    Ensures-bind _ (check_batch-free sender d 0 rs as' [] w₃ h₃ tt tt)
                      λ ids w₄ (h₄, distinct, free).
                        create_each-IsConsistent sender d auto end_time _ w₄ h₄
                          (zip_batch-FreeItems (streams_of w₄) rs as' ts ls ids distinct free))))
