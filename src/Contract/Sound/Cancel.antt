-- ===== src/Contract/Sound/Cancel.antt =====
-- contracts/stream/src/lib.rs, the entry points that end a stream, wholly or in part, and
-- `archive_stream`: the accounting invariant.
use sorostream_contracts.Prelude.{
  ℕ, ◌+◌, ◌-◌, ◌*◌, ◌/◌, ◌≤◌, ◌<◌, ◌≡◌, refl, true, false, some, List, [], ◌∷◌, arith, Bool-cases,
  inl, inr,
}
use sorostream_contracts.Prelude.Int.{ℤ, pos, negsuc, ltb_ℤ, pos_part}
use sorostream_contracts.Prelude.Machine.{checked_add_u64-eq, div_i128, u64_try_from}
use native.Mathlib.Nat.{mul-div-le}
use sorostream_contracts.Types.{Address, Stream, StreamError, is_paused_status}
use sorostream_contracts.Call.{Outcome, ok, err, panic}
use sorostream_contracts.Call.Rules.{
  Ensures, Ensures-bind, Ensures-pure, Ensures-gets, Ensures-or_err, Holds, Ensures-or_panic,
  Ensures-fail_if, Ensures-modify, Ensures-modify_last,
}
use sorostream_contracts.Call.Unchanged.{Unchanged, Unchanged-when, unchanged_rules}
use sorostream_contracts.Env.{Env, World, Exec, publish}
use sorostream_contracts.Storage.Streams.{load_stream, derive_stream_id}
use sorostream_contracts.Storage.Index.{unindex_by_sender, unindex_by_recipient}
use sorostream_contracts.Storage.Access.{remove_delegate}
use sorostream_contracts.Contract.Cancel.{
  caught, stream_now, pay_out, remove_and_unindex, cancel_stream, recipient_terminate, cancel_one,
  try_call, cancel_each, batch_cancel_stream, remainder_stream, spawn_remainder,
  partial_cancel_stream,
}
use sorostream_contracts.Contract.Manage.{archive_stream}
use sorostream_contracts.Contract.Frames.{
  core_of, streams_of, is_paused_or_auto_unpause-core, require_auth-core, transfer-core,
  index_by_sender-streams, index_by_recipient-streams, index_global_stream-core,
}
use sorostream_contracts.Contract.Sound.{
  IsSound, AllSound, not-false, save_stream-AllSound, remove_stream-AllSound, pass, pass_streams,
}
use sorostream_contracts.Contract.Sound.Withdraw.{SoundAfter}

-- The time that counts for a sound stream lies between its last withdrawal and now, and is that of
-- the pause for a paused one.
pub stream_now_bounds :
    {C : Type 0} (env : Env C) (s : Stream)
    → IsSound env.timestamp s
    → (s.last_withdraw_time ≤ stream_now env s)
      × (stream_now env s ≤ env.timestamp)
      × (is_paused_status s.status ≡ true → stream_now env s ≤ s.last_pause_time)
stream_now_bounds env s h = elim (Bool-cases (is_paused_status s.status)) [
  | inl p ↦ let b = h.pause_after p in rw p (b.0, b.1, λ e. omega arith)
  | inr p ↦ rw p (h.not_ahead, omega arith, λ e. cc)
]

module _ {C : Type 0} (env : Env C) where
  pay_out-core : (s : Stream) (a b : ℤ) → Unchanged core_of (pay_out env s a b)
  unfolding pay_out
  pay_out-core s a b = search (unchanged_rules, transfer-core)

  remove_and_unindex-AllSound :
      (s : Stream) (id : ℕ) (w : World C)
      → AllSound env.timestamp (streams_of w)
      → Ensures (remove_and_unindex env s id) w (SoundAfter env)
  unfolding remove_and_unindex unindex_by_sender unindex_by_recipient
  remove_and_unindex-AllSound s id w h =
      Ensures-modify _
        (Ensures-modify _ (Ensures-modify_last _ (remove_stream-AllSound env.timestamp id w h)))

  -- `cancel_stream` keeps the accounting invariant.
  pub cancel_stream-AllSound :
      (id : ℕ) (caller : Address) (w : World C)
      → AllSound env.timestamp (streams_of w)
      → Ensures (cancel_stream env id caller) w (SoundAfter env)
  unfolding cancel_stream publish
  cancel_stream-AllSound id caller w h = pass (require_auth-core env caller) h λ _ w₁ h₁.
      Ensures-gets _ _ (
        Ensures-or_err _ λ s found. Ensures-gets _ _ (
          Ensures-fail_if _ λ _. Ensures-fail_if _ λ _. Ensures-or_err _ λ c due.
            pass (pay_out-core s c _) h₁ λ _ w₂ h₂.
              Ensures-bind _ (remove_and_unindex-AllSound s id w₂ h₂)
                λ _ w₃ h₃. Ensures-modify_last _ h₃))

  -- `recipient_terminate` keeps the accounting invariant.
  pub recipient_terminate-AllSound :
      (id : ℕ) (r : Address) (w : World C)
      → AllSound env.timestamp (streams_of w)
      → Ensures (recipient_terminate env id r) w (SoundAfter env)
  unfolding recipient_terminate publish
  recipient_terminate-AllSound id r w h = pass (is_paused_or_auto_unpause-core env) h λ _ w₁ h₁.
      Ensures-fail_if _ λ _. pass (require_auth-core env r) h₁ λ _ w₂ h₂. Ensures-gets _ _ (
        Ensures-or_err _ λ s found. Ensures-fail_if _ λ _. Ensures-fail_if _ λ _.
          Ensures-fail_if _ λ _. Ensures-or_err _ λ c due. pass (pay_out-core s c _) h₂ λ _ w₃ h₃.
            Ensures-bind _ (remove_and_unindex-AllSound s id w₃ h₃)
              λ _ w₄ h₄. Ensures-modify_last _ h₄)

  cancel_one-AllSound :
      (sender : Address) (id : ℕ) (w : World C)
      → AllSound env.timestamp (streams_of w)
      → Ensures (cancel_one env sender id) w (SoundAfter env)
  unfolding cancel_one publish
  cancel_one-AllSound sender id w h = Ensures-gets _ _ (
      Ensures-or_err _ λ s found. Ensures-fail_if _ λ _. Ensures-fail_if _ λ _.
        Ensures-or_err _ λ c due. pass (pay_out-core s c _) h λ _ w₁ h₁.
          Ensures-bind _ (remove_and_unindex-AllSound s id w₁ h₁)
            λ _ w₂ h₂. Ensures-modify_last _ h₂)

  try_call-AllSound :
      (m : Exec C (Unit {0})) (w : World C)
      → AllSound env.timestamp (streams_of w)
      → Ensures m w (SoundAfter env)
      → Ensures (try_call m) w (SoundAfter env)
  unfolding try_call
  try_call-AllSound m w h k = record { returned = go (m w) k.returned }
    where
      go :
          (o : Outcome StreamError (Unit {0} × World C))
          → Holds o (SoundAfter env)
          → Holds (caught w o) (SoundAfter env)
      go (ok (a, w')) p = p
      go (err e) p = h
      go panic p = tt

  cancel_each-AllSound :
      (sender : Address) (ids : List ℕ) (w : World C)
      → AllSound env.timestamp (streams_of w)
      → Ensures (cancel_each env sender ids) w (SoundAfter env)
  unfolding cancel_each
  cancel_each-AllSound sender [] w h = Ensures-pure _ h
  cancel_each-AllSound sender (id ∷ ids) w h =
      Ensures-bind _ (try_call-AllSound _ w h (cancel_one-AllSound sender id w h)) λ a w₁ h₁.
        Ensures-bind _ (cancel_each-AllSound sender ids w₁ h₁) λ as' w₂ h₂. Ensures-pure _ h₂

  -- `batch_cancel_stream` keeps the accounting invariant.
  pub batch_cancel_stream-AllSound :
      (ids : List ℕ) (sender : Address) (w : World C)
      → AllSound env.timestamp (streams_of w)
      → Ensures (batch_cancel_stream env ids sender) w (SoundAfter env)
  unfolding batch_cancel_stream
  batch_cancel_stream-AllSound ids sender w h =
      pass (require_auth-core env sender) h
        λ _ w₁ h₁. Ensures-fail_if _ λ _. cancel_each-AllSound sender ids w₁ h₁

  -- `archive_stream` keeps the accounting invariant.
  pub archive_stream-AllSound :
      (id : ℕ) (caller : Address) (w : World C)
      → AllSound env.timestamp (streams_of w)
      → Ensures (archive_stream env id caller) w (SoundAfter env)
  unfolding archive_stream publish unindex_by_sender unindex_by_recipient remove_delegate
  archive_stream-AllSound id caller w h = pass (require_auth-core env caller) h λ _ w₁ h₁.
      Ensures-gets _ _ (
        Ensures-or_err _ λ s found. Ensures-fail_if _ λ _. Ensures-fail_if _ λ _. Ensures-modify _ (
          Ensures-modify _ (
            Ensures-modify _ (
              Ensures-gets _ _ (
                pass (Unchanged-when core_of _ _ (search unchanged_rules))
                  (remove_stream-AllSound env.timestamp id w₁ h₁)
                  λ _ w₂ h₂. Ensures-modify_last _ h₂)))))

-- A new deposit that is not below a positive rate is a number, and the seconds that it pays for cost
-- at most the deposit.
remainder_funded :
    (d q : ℤ) (r n : ℕ)
    → 0 < r
    → ltb_ℤ d (pos r) ≡ false
    → div_i128 d (pos r) ≡ some q
    → u64_try_from q ≡ some n
    → (d ≡ pos (pos_part d)) × (r * n ≤ pos_part d)
unfolding div_i128
remainder_funded (pos d) q r n pr big e k =
    let quotient : n ≡ d / r = ground arith in (refl, rw quotient (mul-div-le d r))
remainder_funded (negsuc d) q r n pr big e k = absurd (ground arith)

remainder_stream-IsSound :
    (now t id n end_time : ℕ) (s : Stream) (d : ℤ) (h : IsSound now s)
    → t ≤ now
    → d ≡ pos (pos_part d)
    → h.rate * n ≤ pos_part d
    → end_time ≡ t + n
    → IsSound now (remainder_stream s id d t end_time)
remainder_stream-IsSound now t id n end_time s d h past is_pos le ends = record {
  rate = h.rate;
  deposited = pos_part d;
  withdrawn = 0;
  rate_eq = h.rate_eq;
  deposit_eq = is_pos;
  withdrawn_eq = refl;
  rate_pos = h.rate_pos;
  started = omega arith;
  not_over = omega arith;
  not_ahead = past;
  pause_after = λ p. cc;
  withdrawn_le = omega arith;
  covered = let span : end_time - t ≡ n = omega arith in rw span le;
}

module _ {C : Type 0} (env : Env C) where
  spawn_remainder-AllSound :
      (s : Stream) (id : ℕ) (d : ℤ) (t end_time : ℕ) (w : World C)
      → AllSound env.timestamp (streams_of w)
      → IsSound env.timestamp
          (remainder_stream s (derive_stream_id env s.sender s.recipient t id) d t end_time)
      → Ensures (spawn_remainder env s id d t end_time) w (SoundAfter env)
  unfolding spawn_remainder
  spawn_remainder-AllSound s id d t end_time w h sound = Ensures-modify _ (
      pass_streams (index_by_sender-streams s.sender _)
        (save_stream-AllSound env.timestamp _ w h (λ live. sound))
        λ _ w₁ h₁.
          pass_streams (index_by_recipient-streams s.recipient _) h₁
            λ _ w₂ h₂. pass (index_global_stream-core _) h₂ λ _ w₃ h₃. Ensures-pure _ h₃)

  -- If all stored streams are sound at the time of the call, then they are after a call of
  -- partial_cancel_stream that returns; in particular the new stream that takes the rest is sound.
  pub partial_cancel_stream-AllSound :
      (id : ℕ) (caller : Address) (amount : ℤ) (w : World C)
      → AllSound env.timestamp (streams_of w)
      → Ensures (partial_cancel_stream env id caller amount) w (SoundAfter env)
  unfolding partial_cancel_stream load_stream publish
  partial_cancel_stream-AllSound id caller amount w h =
      pass (require_auth-core env caller) h λ _ w₁ h₁. Ensures-gets _ _ (
        Ensures-or_err _ λ s found. Ensures-gets _ _ (
          Ensures-fail_if _ λ _. Ensures-fail_if _ λ live.
            let sound = (h₁.each id s found).1 (not-false _ live) in
            let t = stream_now env s in
            Ensures-fail_if _ λ _. Ensures-or_err _ λ earned _. Ensures-or_err _ λ streamed _.
              Ensures-fail_if _ λ _. Ensures-or_panic λ new_deposit _. Ensures-fail_if _ λ big.
                Ensures-or_panic λ quotient divided. Ensures-or_err _ λ seconds fits.
                  Ensures-or_err _ λ end_time ends.
                    pass
                      (Unchanged-when core_of _ _
                        (transfer-core env s.token env.current_contract s.recipient earned))
                      h₁
                      λ _ w₂ h₂.
                        pass (transfer-core env s.token env.current_contract s.sender amount) h₂
                          λ _ w₃ h₃.
                            let (is_pos, paid_for) =
                              remainder_funded new_deposit quotient sound.rate seconds
                                sound.rate_pos (rw sound.rate_eq at big)
                                (rw sound.rate_eq at divided) fits in
                            Ensures-modify _ (
                              Ensures-modify _ (
                                Ensures-bind _
                                  (spawn_remainder-AllSound s id new_deposit t end_time _
                                    (save_stream-AllSound env.timestamp _ w₃ h₃ (λ l. cc))
                                    (remainder_stream-IsSound env.timestamp t _ seconds end_time s
                                      new_deposit sound (stream_now_bounds env s sound).1 is_pos
                                      paid_for (checked_add_u64-eq t seconds ends)))
                                  λ new_id w₄ h₄. Ensures-modify _ (Ensures-pure _ h₄)))))
