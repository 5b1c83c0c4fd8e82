-- ===== src/Contract/Created.antt =====
-- contracts/stream/src/lib.rs, `create_stream`: what a creation writes.
use sorostream_contracts.Prelude.{
  ℕ, ◌+◌, ◌/◌, ◌<◌, ◌≡◌, refl, ap, sym, ◌∙◌, Bool, true, false, Option, none, some, update, is_some,
  arith, leb,
}
use sorostream_contracts.Prelude.Int.{ℤ, pos, leb_ℤ}
use sorostream_contracts.Prelude.Machine.{checked_add_u64, checked_add_u64-eq, div_i128}
use sorostream_contracts.Types.{Address, Stream}
use sorostream_contracts.Call.{ok}
use sorostream_contracts.Call.Rules.{
  Ensures, Ensures-bind, Ensures-pure, Ensures-gets, Ensures-or_err, Ensures-returns,
  Ensures-or_panic, Ensures-fail_if, Ensures-panic_if, Ensures-modify, Ensures-modify_last,
}
use sorostream_contracts.Call.Unchanged.{Unchanged, Unchanged-when, unchanged_rules}
use sorostream_contracts.Env.{Env, World, require_auth, transfer, publish}
use sorostream_contracts.Storage.Access.{mark_nonce_used, nonce_used}
use sorostream_contracts.Storage.Streams.{
  save_stream, stream_exists, derive_stream_id, index_global_stream,
}
use sorostream_contracts.Storage.Index.{index_by_sender, index_by_recipient}
use sorostream_contracts.Contract.Create.{
  CreateArgs, new_stream, is_zero, store_new, charge_creation_fee, create_stream,
}
use sorostream_contracts.Contract.Frames.{streams_of}
use sorostream_contracts.Contract.Access.Streams.{persistent_of, after_pause}
use sorostream_contracts.Contract.Sound.Create.{Fundable-checks, div_i128-pos, Fundable}
use sorostream_contracts.Contract.Consistent.Create.{is_some-none}

-- The streams and the nonces, what a creation is about.
record Written : Type 0 where
  pub streams : ℕ → Option Stream
  pub nonce : Address → ℕ → Option Bool

module _ {C : Type 0} where
  abbrev written_of : World C → Written
  written_of w = record { streams = w.pers.streams; nonce = w.pers.nonce }

module _ {C : Type 0} (env : Env C) where
  transfer-persistent :
      (token from to : Address) (amount : ℤ)
      → Unchanged persistent_of (transfer env token from to amount)
  unfolding transfer
  transfer-persistent token from to amount = search unchanged_rules

  charge_creation_fee-persistent :
      (a : Address) (n : ℤ) → Unchanged persistent_of (charge_creation_fee env a n)
  unfolding charge_creation_fee publish
  charge_creation_fee-persistent a n = search (unchanged_rules, transfer-persistent) depth 12

  index_by_sender-nonce :
      (a : Address) (id : ℕ) → Unchanged written_of (index_by_sender {C = C} a id)
  unfolding index_by_sender
  index_by_sender-nonce a id = search unchanged_rules

  index_by_recipient-nonce :
      (a : Address) (id : ℕ) → Unchanged written_of (index_by_recipient {C = C} a id)
  unfolding index_by_recipient
  index_by_recipient-nonce a id = search unchanged_rules

  index_global_stream-nonce : (id : ℕ) → Unchanged written_of (index_global_stream {C = C} id)
  unfolding index_global_stream
  index_global_stream-nonce id = search unchanged_rules depth 8

  store_new-written :
      (s : Stream) (w : World C)
      → Ensures (store_new env s) w (λ _ w'. written_of w' ≡ written_of (save_stream s w))
  unfolding store_new publish
  store_new-written s w = Ensures-modify _ (
      Ensures-bind _ ((index_by_sender-nonce s.sender s.id).at (save_stream s w)) λ _ w₁ e₁.
        Ensures-bind _ ((index_by_recipient-nonce s.recipient s.id).at w₁) λ _ w₂ e₂.
          Ensures-bind _ ((index_global_stream-nonce s.id).at w₂)
            λ _ w₃ e₃. Ensures-modify_last _ (e₃ ∙ e₂ ∙ e₁))

  -- The identifier that `create_stream` derives, the rate and the times of the stream that it stores.
  abbrev pub created_id : CreateArgs → ℕ
  created_id args = derive_stream_id env args.sender args.recipient env.timestamp args.nonce

  abbrev pub created : CreateArgs → ℕ → Stream
  created args amount =
      new_stream args (created_id args) (pos (amount / args.duration_seconds)) env.timestamp
        (env.timestamp + args.cliff_seconds) (env.timestamp + args.duration_seconds)

  -- What a creation has done.
  pub record Creates (args : CreateArgs) (w : World C) (id : ℕ) (w' : World C) : Type 0 where
    pub amount : ℕ
    pub amount_eq : args.amount ≡ pos amount
    pub rate_pos : 0 < amount / args.duration_seconds
    pub cliff_lt : args.cliff_seconds < args.duration_seconds
    pub id_eq : id ≡ created_id args
    pub was_free : streams_of w id ≡ none
    pub stores : streams_of w' ≡ update (streams_of w) id (some (created args amount))
    pub unspent : nonce_used w args.sender args.nonce ≡ false
    pub spent : nonce_used w' args.sender args.nonce ≡ true

  marked : (a : Address) (n : ℕ) (w : World C) → nonce_used (mark_nonce_used a n w) a n ≡ true
  unfolding mark_nonce_used nonce_used
  marked a n w = ground arith

  written :
      (args : CreateArgs) (w w₁ w₃ w₄ w₅ : World C) (f : ℤ) (cliff_time end_time : ℕ)
      → w₁.pers ≡ w.pers
      → w₃.pers ≡ (mark_nonce_used args.sender args.nonce w₁).pers
      → w₄.pers ≡ w₃.pers
      → written_of w₅
        ≡ written_of
            (save_stream (new_stream args (created_id args) f env.timestamp cliff_time end_time) w₄)
      → nonce_used w₁ args.sender args.nonce ≡ false
      → leb args.duration_seconds args.cliff_seconds ≡ false
      → streams_of w₁ (created_id args) ≡ none
      → leb_ℤ args.amount (pos 0) ≡ false
      → div_i128 args.amount (pos args.duration_seconds) ≡ some f
      → is_zero f ≡ false
      → checked_add_u64 env.timestamp args.cliff_seconds ≡ some cliff_time
      → checked_add_u64 env.timestamp args.duration_seconds ≡ some end_time
      → Creates args w (created_id args) w₅
  unfolding Fundable save_stream nonce_used mark_nonce_used
  written args w w₁ w₃ w₄ w₅ f cliff_time end_time e₁ e₃ e₄ e₅ unspent cliff free some_due rate
        nonzero starts ends =
      let d = args.duration_seconds in
      let id = created_id args in
      let (amount, is_pos, rate_pos) = Fundable-checks d args.amount f some_due rate nonzero in
      let rate_eq = (div_i128-pos amount d (rw is_pos at rate)).0 in
      let same : new_stream args id f env.timestamp cliff_time end_time ≡ created args amount =
        rw
          (
            rate_eq,
            checked_add_u64-eq env.timestamp d ends,
            checked_add_u64-eq env.timestamp args.cliff_seconds starts,
          )
          refl in
      let kept : streams_of w₄ ≡ streams_of w =
        ap (λ p. p.streams) (e₄ ∙ e₃) ∙ ap (λ p. p.streams) e₁ in
      record {
        amount = amount;
        amount_eq = is_pos;
        rate_pos = rate_pos;
        cliff_lt = ground arith;
        id_eq = refl;
        was_free = sym (ap (λ p. p.streams id) e₁) ∙ free;
        stores =
            ap (λ x. x.streams) e₅
            ∙ ap (λ m. update m id (some (new_stream args id f env.timestamp cliff_time end_time)))
                kept
            ∙ ap (λ s. update (streams_of w) id (some s)) same;
        unspent = sym (ap (λ p. is_some (p.nonce args.sender args.nonce)) e₁) ∙ unspent;
        spent =
            ap (λ x. is_some (x.nonce args.sender args.nonce)) e₅
            ∙ ap (λ p. is_some (p.nonce args.sender args.nonce)) (e₄ ∙ e₃)
            ∙ marked args.sender args.nonce w₁;
      }

  pub creates :
      (args : CreateArgs) (w : World C) → Ensures (create_stream env args) w (Creates args w)
  unfolding create_stream require_auth mark_nonce_used stream_exists nonce_used save_stream
  creates args w = Ensures-panic_if λ auth. after_pause env λ w₁ e₁. Ensures-gets _ _ (
      Ensures-fail_if _ λ unspent. Ensures-fail_if _ λ some_due. Ensures-fail_if _ λ cliff.
        Ensures-fail_if _ λ _. Ensures-gets _ _ (
          Ensures-gets _ _ (
            Ensures-fail_if _ λ _. Ensures-gets _ _ (
              Ensures-fail_if _ λ _. Ensures-or_panic λ f rate. Ensures-fail_if _ λ nonzero.
                Ensures-gets _ _ (
                  Ensures-gets _ _ (
                    Ensures-fail_if _ λ _. Ensures-modify _ (
                      Ensures-or_err _ λ end_time ends. Ensures-fail_if _ λ _.
                        Ensures-or_err _ λ cliff_time starts. Ensures-gets _ _ (
                          Ensures-fail_if _ λ absent. Ensures-gets _ _ (
                            Ensures-bind _
                              ((Unchanged-when persistent_of _ _
                                  (charge_creation_fee-persistent args.sender _)).at
                                _)
                              λ _ w₃ e₃.
                                Ensures-bind _
                                  ((transfer-persistent args.token args.sender env.current_contract
                                      args.amount).at
                                    w₃)
                                  λ _ w₄ e₄. Ensures-bind _ (store_new-written _ w₄) λ _ w₅ e₅.
                                    Ensures-pure _ (
                                      written args w w₁ w₃ w₄ w₅ f cliff_time end_time e₁ e₃ e₄ e₅
                                        unspent cliff (is_some-none _ absent) some_due rate nonzero
                                        starts ends))))))))))

  -- If create_stream returns, then the amount is a number that gives a positive rate, the cliff is
  -- shorter than the duration, the identifier is the derived one and was free, the stored streams
  -- are those before with the one new stream of that rate and those times, and the nonce of the
  -- sender was unspent and is spent.
  pub create_stream-Creates :
      (args : CreateArgs) (w w' : World C) (id : ℕ)
      → create_stream env args w ≡ ok (id, w')
      → Creates args w id w'
  create_stream-Creates args w w' id e = Ensures-returns (creates args w) id w' e
