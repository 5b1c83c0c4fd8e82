-- ===== src/Contract/Sound/Create.antt =====
-- contracts/stream/src/lib.rs, `create_stream` and `batch_create_stream`: the accounting invariant.
use sorostream_contracts.Prelude.{
  ℕ, suc, ◌+◌, ◌-◌, ◌/◌, ◌<◌, ◌≡◌, refl, Bool, false, some, length, List, [], ◌∷◌, arith,
}
use sorostream_contracts.Prelude.Int.{ℤ, pos, leb_ℤ, pos_part}
use sorostream_contracts.Prelude.Machine.{div_i128, checked_add_u64-eq}
use native.Mathlib.Nat.{div-mul-le_self}
use sorostream_contracts.Types.{Address, Stream}
use sorostream_contracts.Call.Rules.{
  Ensures, Ensures-bind, Ensures-weaken, Ensures-pure, Ensures-gets, Ensures-or_err,
  Ensures-or_panic, Ensures-fail_if, Ensures-modify, Ensures-modify_last,
}
use sorostream_contracts.Call.Unchanged.{Unchanged, Unchanged-when, unchanged_rules}
use sorostream_contracts.Env.{Env, World, publish}
use sorostream_contracts.Storage.Access.{mark_nonce_used}
use sorostream_contracts.Contract.Create.{
  CreateArgs, new_stream, is_zero, store_new, charge_creation_fee, create_stream, BatchItem,
  zip_batch, check_batch, create_each, batch_args, batch_create_stream,
}
use sorostream_contracts.Contract.Frames.{
  core_of, streams_of, is_paused_or_auto_unpause-core, require_auth-core, transfer-core,
  publish-core, index_by_sender-streams, index_by_recipient-streams, index_global_stream-core,
  increment_batch_nonce-core,
}
use sorostream_contracts.Contract.Sound.{
  IsSound, AllSound, save_stream-AllSound, pass, pass_streams,
}
use sorostream_contracts.Contract.Sound.Withdraw.{SoundAfter}

positive : (a : ℤ) → leb_ℤ a (pos 0) ≡ false → a ≡ pos (pos_part a)
positive (pos n) h = refl
positive (ℤ.negsuc n) h = absurd (ground arith)

pub div_i128-pos :
    (a d : ℕ) {f : ℤ} → div_i128 (pos a) (pos d) ≡ some f → (f ≡ pos (a / d)) × (0 < d)
unfolding div_i128
div_i128-pos a d e = (ground arith, ground arith)

-- What the checks on an amount give: it is a number, and its rate is positive.
unfoldable pub Fundable : ℕ → ℤ → Type 0
Fundable duration amount = (a : ℕ) × (amount ≡ pos a) × (0 < a / duration)

positive_rate : (f : ℤ) (k : ℕ) → f ≡ pos k → is_zero f ≡ false → 0 < k
positive_rate f k e h = let z : is_zero (pos k) ≡ false = rw e at h in ground arith

pub Fundable-checks :
    (d : ℕ) (amount f : ℤ)
    → leb_ℤ amount (pos 0) ≡ false
    → div_i128 amount (pos d) ≡ some f
    → is_zero f ≡ false
    → Fundable d amount
unfolding Fundable
Fundable-checks d amount f some_due e nonzero =
    let is_pos = positive amount some_due in
    let rate : f ≡ pos (pos_part amount / d) =
      (div_i128-pos (pos_part amount) d (rw is_pos at e)).0 in
    (pos_part amount, is_pos, positive_rate f _ rate nonzero)

new_stream-IsSound :
    (args : CreateArgs) (id : ℕ) (f : ℤ) (now cliff end_time : ℕ)
    → Fundable args.duration_seconds args.amount
    → div_i128 args.amount (pos args.duration_seconds) ≡ some f
    → end_time ≡ now + args.duration_seconds
    → IsSound now (new_stream args id f now cliff end_time)
unfolding Fundable
new_stream-IsSound args id f now cliff end_time (a, is_pos, rate_pos) e ends =
    let d = args.duration_seconds in
    record {
      rate = a / d;
      deposited = a;
      withdrawn = 0;
      rate_eq = (div_i128-pos a d (rw is_pos at e)).0;
      deposit_eq = is_pos;
      withdrawn_eq = refl;
      rate_pos = rate_pos;
      started = omega arith;
      not_over = omega arith;
      not_ahead = omega arith;
      pause_after = λ p. cc;
      withdrawn_le = omega arith;
      covered = let span : end_time - now ≡ d = omega arith in rw span (div-mul-le_self a d);
    }

module _ {C : Type 0} (env : Env C) where
  store_new-AllSound :
      (s : Stream) (w : World C)
      → AllSound env.timestamp (streams_of w)
      → IsSound env.timestamp s
      → Ensures (store_new env s) w (SoundAfter env)
  unfolding store_new publish
  store_new-AllSound s w h sound = Ensures-modify _ (
      pass_streams (index_by_sender-streams s.sender s.id)
        (save_stream-AllSound env.timestamp s w h (λ live. sound))
        λ _ w₁ h₁.
          pass_streams (index_by_recipient-streams s.recipient s.id) h₁
            λ _ w₂ h₂. pass (index_global_stream-core s.id) h₂ λ _ w₃ h₃. Ensures-modify_last _ h₃)

  pub charge_creation_fee-core :
      (a : Address) (n : ℤ) → Unchanged core_of (charge_creation_fee env a n)
  unfolding charge_creation_fee
  charge_creation_fee-core a n = search (unchanged_rules, transfer-core, publish-core) depth 12

  -- If all stored streams are sound at the time of the call, then they are after a call of
  -- create_stream that returns.
  pub create_stream-AllSound :
      (args : CreateArgs) (w : World C)
      → AllSound env.timestamp (streams_of w)
      → Ensures (create_stream env args) w (SoundAfter env)
  unfolding create_stream mark_nonce_used
  create_stream-AllSound args w h = pass (require_auth-core env args.sender) h λ _ w₁ h₁.
      pass (is_paused_or_auto_unpause-core env) h₁ λ _ w₂ h₂. Ensures-fail_if _ λ _.
        Ensures-gets _ _ (
          Ensures-fail_if _ λ _. Ensures-fail_if _ λ some_due. Ensures-fail_if _ λ _.
            Ensures-fail_if _ λ _. Ensures-gets _ _ (
              Ensures-gets _ _ (
                Ensures-fail_if _ λ _. Ensures-gets _ _ (
                  Ensures-fail_if _ λ _. Ensures-or_panic λ f rate. Ensures-fail_if _ λ nonzero.
                    Ensures-gets _ _ (
                      Ensures-gets _ _ (
                        Ensures-fail_if _ λ _. Ensures-modify _ (
                          Ensures-or_err _ λ end_time ends. Ensures-fail_if _ λ _.
                            Ensures-or_err _ λ cliff_time _. Ensures-gets _ _ (
                              Ensures-fail_if _ λ _. Ensures-gets _ _ (
                                pass {w = mark_nonce_used args.sender args.nonce w₂}
                                  (Unchanged-when core_of _ _
                                    (charge_creation_fee-core args.sender _))
                                  h₂
                                  λ _ w₃ h₃.
                                    pass
                                      (transfer-core env args.token args.sender env.current_contract
                                        args.amount)
                                      h₃
                                      λ _ w₄ h₄.
                                        Ensures-bind _
                                          (store_new-AllSound _ w₄ h₄ (
                                            new_stream-IsSound args _ f env.timestamp cliff_time
                                              end_time
                                              (Fundable-checks args.duration_seconds args.amount f
                                                some_due rate nonzero)
                                              rate
                                              (checked_add_u64-eq env.timestamp
                                                args.duration_seconds ends)))
                                          λ _ w₅ h₅. Ensures-pure _ h₅)))))))))

-- Every amount of a batch is fundable.
abbrev AllFundable : ℕ → List ℤ → Type 0
AllFundable d [] = Unit {0}
AllFundable d (a ∷ as') = Fundable d a × AllFundable d as'

abbrev AllItemsFundable : ℕ → List BatchItem → Type 0
AllItemsFundable d [] = Unit {0}
AllItemsFundable d (x ∷ xs) = Fundable d x.amount × AllItemsFundable d xs

zip_batch-AllItemsFundable :
    (d : ℕ) (rs : List Address) (as' : List ℤ) (ts : List Address) (ls xs : List ℕ)
    → AllFundable d as'
    → AllItemsFundable d (zip_batch rs as' ts ls xs)
zip_batch-AllItemsFundable d [] as' ts ls xs h = tt
zip_batch-AllItemsFundable d (r ∷ rs) [] ts ls xs h = tt
zip_batch-AllItemsFundable d (r ∷ rs) (a ∷ as') [] ls xs h = tt
zip_batch-AllItemsFundable d (r ∷ rs) (a ∷ as') (t ∷ ts) [] xs h = tt
zip_batch-AllItemsFundable d (r ∷ rs) (a ∷ as') (t ∷ ts) (l ∷ ls) [] h = tt
zip_batch-AllItemsFundable d (r ∷ rs) (a ∷ as') (t ∷ ts) (l ∷ ls) (x ∷ xs) h =
    (h.0, zip_batch-AllItemsFundable d rs as' ts ls xs h.1)

module _ {C : Type 0} (env : Env C) where
  -- The first pass writes nothing and lets only fundable amounts through, if there are as many
  -- recipients as amounts.
  check_batch-AllFundable :
      (sender : Address) (d i : ℕ) (rs : List Address) (as' : List ℤ) (ids : List ℕ) (w : World C)
      → length rs ≡ length as'
      → AllSound env.timestamp (streams_of w)
      → Ensures
          (check_batch env sender d i rs as' ids)
          w
          (λ _ w'. AllFundable d as' × AllSound env.timestamp (streams_of w'))
  unfolding check_batch
  check_batch-AllFundable sender d i [] [] ids w e h = Ensures-pure _ (tt, h)
  check_batch-AllFundable sender d i [] (a ∷ as') ids w e h = absurd (omega arith)
  check_batch-AllFundable sender d i (r ∷ rs) [] ids w e h = absurd (omega arith)
  check_batch-AllFundable sender d i (r ∷ rs) (a ∷ as') ids w e h = Ensures-fail_if _ λ some_due.
      Ensures-or_panic λ f rate. Ensures-fail_if _ λ nonzero. Ensures-gets _ _ (
        Ensures-fail_if _ λ _. Ensures-fail_if _ λ _.
          Ensures-weaken (check_batch-AllFundable sender d (suc i) rs as' _ w (omega arith) h)
            (λ _ w' q. ((Fundable-checks d a f some_due rate nonzero, q.0), q.1)))

  create_each-AllSound :
      (sender : Address) (d : ℕ) (auto : Bool) (items : List BatchItem) (w : World C)
      → AllItemsFundable d items
      → AllSound env.timestamp (streams_of w)
      → Ensures (create_each env sender d auto (env.timestamp + d) items) w (SoundAfter env)
  unfolding create_each
  create_each-AllSound sender d auto [] w fund h = Ensures-pure _ h
  create_each-AllSound sender d auto (x ∷ items) w fund h = Ensures-or_panic λ f rate.
      pass (transfer-core env x.token sender env.current_contract x.amount) h λ _ w₁ h₁.
        Ensures-bind _
          (store_new-AllSound env _ w₁ h₁ (
            new_stream-IsSound (batch_args sender d auto x) x.stream_id f env.timestamp
              env.timestamp _ fund.0 rate refl))
          λ _ w₂ h₂.
            Ensures-bind _ (create_each-AllSound sender d auto items w₂ fund.1 h₂)
              λ ids w₃ h₃. Ensures-pure _ h₃

  -- `batch_create_stream` keeps the accounting invariant: the checks of its first pass are what its
  -- second pass relies on.
  pub batch_create_stream-AllSound :
      (sender : Address) (rs : List Address) (as' : List ℤ) (ts : List Address) (d : ℕ)
      (auto : Bool) (ls : List ℕ) (nonce : ℕ) (w : World C)
      → AllSound env.timestamp (streams_of w)
      → Ensures (batch_create_stream env sender rs as' ts d auto ls nonce) w (SoundAfter env)
  unfolding batch_create_stream
  batch_create_stream-AllSound sender rs as' ts d auto ls nonce w h =
      pass (is_paused_or_auto_unpause-core env) h λ _ w₁ h₁. Ensures-fail_if _ λ _.
        pass (require_auth-core env sender) h₁ λ _ w₂ h₂. Ensures-gets _ _ (
          Ensures-fail_if _ λ _. pass (increment_batch_nonce-core sender) h₂ λ _ w₃ h₃.
            Ensures-fail_if _ λ lengths. Ensures-or_err _ λ end_time ends. Ensures-fail_if _ λ _.
              Ensures-gets _ _ (
                Ensures-gets _ _ (
                  Ensures-or_panic λ total _. Ensures-fail_if _ λ _.
                    Ensures-bind _
                      (check_batch-AllFundable sender d 0 rs as' [] w₃ (ground arith) h₃)
                      λ ids w₄ q. rw (checked_add_u64-eq env.timestamp d ends) (
                        create_each-AllSound sender d auto _ w₄
                          (zip_batch-AllItemsFundable d rs as' ts ls ids q.0) q.1))))
