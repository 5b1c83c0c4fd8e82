-- ===== src/Contract/Settle/Parted.antt =====
-- contracts/stream/src/lib.rs, `partial_cancel_stream`: what becomes of the deposit, and what is stored.
use sorostream_contracts.Prelude.{
  ℕ, ◌+◌, ◌-◌, ◌*◌, ◌/◌, ◌<◌, ◌≤◌, ◌≡◌, refl, ap, ◌∙◌, false, some, update, arith, Bool-cases, inl,
  inr, leb,
}
use sorostream_contracts.Prelude.Int.{ℤ, pos, negsuc, ltb_ℤ, leb_ℤ, ◌-ℤ◌}
use sorostream_contracts.Prelude.Machine.{
  i128_bound, checked_add_u64, checked_add_u64-eq, checked_sub_i128, checked_mul_i128-eq,
  checked_sub_i128-pos, saturating_sub_i128, saturating_sub_i128-pos, div_i128, u64_try_from,
}
use sorostream_contracts.Types.{Address, Stream, cancelled}
use sorostream_contracts.Call.{ok, when}
use sorostream_contracts.Call.Rules.{
  Ensures, Ensures-returns, Ensures-bind, Ensures-pure, Ensures-gets, Ensures-or_err,
  Ensures-or_panic, Ensures-or_err_some, Ensures-fail_if, Ensures-panic_if, Ensures-modify, itself,
}
use sorostream_contracts.Call.Unchanged.{Unchanged-when}
use sorostream_contracts.Env.{Env, World, require_auth, transfer, publish}
use sorostream_contracts.Storage.Streams.{load_stream, save_stream, derive_stream_id}
use sorostream_contracts.Contract.Cancel.{
  stream_now, checked_flow_amount, remainder_stream, spawn_remainder, partial_cancel_stream,
}
use sorostream_contracts.Contract.Frames.{
  core_of, streams_of, transfer-core, index_by_sender-streams, index_by_recipient-streams,
  index_global_stream-core,
}
use sorostream_contracts.Contract.Sound.{IsSound}
use sorostream_contracts.Contract.Sound.Cancel.{stream_now_bounds}

-- The rest of a deposit `d` of which `t` is streamed, where the tests on the amount are passed.
rest_of :
    (d t : ℕ) (n new_deposit : ℤ)
    → d < i128_bound
    → leb_ℤ n (pos 0) ≡ false
    → leb_ℤ (saturating_sub_i128 (pos d) (pos t)) n ≡ false
    → checked_sub_i128 (saturating_sub_i128 (pos d) (pos t)) n ≡ some new_deposit
    → (m : ℕ) × (n ≡ pos m) × (0 < m) × (t + m < d) × (new_deposit ≡ pos (d - t - m))
unfolding saturating_sub_i128 ◌-ℤ◌
rest_of d t (negsuc m) new_deposit small some_due within e = absurd (ground arith)
rest_of d t (pos m) new_deposit small some_due within e = elim (Bool-cases (leb t d)) [
  | inl le ↦
      let rest : saturating_sub_i128 (pos d) (pos t) ≡ pos (d - t) =
        saturating_sub_i128-pos d t (ground arith) small in
      let above : leb_ℤ (pos (d - t)) (pos m) ≡ false = rw rest at within in
      let taken : checked_sub_i128 (pos (d - t)) (pos m) ≡ some new_deposit = rw rest at e in
      let more : t + m < d = ground arith in
      let known = checked_sub_i128-pos (d - t) m (omega arith) (omega arith) in
      (m, refl, ground arith, more, cc)
  | inr gt ↦ absurd (ground arith)
]

seconds_of :
    (k r n : ℕ) (q : ℤ)
    → 0 < r
    → div_i128 (pos k) (pos r) ≡ some q
    → u64_try_from q ≡ some n
    → n ≡ k / r
unfolding div_i128
seconds_of k r n q positive divided fits = ground arith

module _ {C : Type 0} (env : Env C) where
  spawn_remainder-stores :
      (s : Stream) (id : ℕ) (d : ℤ) (t end_time : ℕ) (w : World C)
      → Ensures (spawn_remainder env s id d t end_time) w (λ new_id w'.
        (new_id ≡ derive_stream_id env s.sender s.recipient t id)
        × (streams_of w'
            ≡ update (streams_of w) new_id (some (remainder_stream s new_id d t end_time))))
  unfolding spawn_remainder save_stream
  spawn_remainder-stores s id d t end_time w = Ensures-modify _ (
      Ensures-bind _ ((index_by_sender-streams s.sender _).at _) λ _ w₁ e₁.
        Ensures-bind _ ((index_by_recipient-streams s.recipient _).at w₁) λ _ w₂ e₂.
          Ensures-bind _ ((index_global_stream-core _).at w₂)
            λ _ w₃ e₃. Ensures-pure _ (refl, ap (λ c. c.streams) e₃ ∙ e₂ ∙ e₁))

module _ {C : Type 0} (env : Env C) (s : Stream) (h : IsSound env.timestamp s) where
  -- What the recipient has earned since the last withdrawal, and what the rate gave since the start; no
  -- end caps the time.
  abbrev pub earned_part : ℕ
  earned_part = h.rate * (stream_now env s - s.last_withdraw_time)

  abbrev pub streamed_part : ℕ
  streamed_part = h.rate * (stream_now env s - s.start_time)

  -- What a cancellation of `n` leaves for the new stream.
  abbrev pub kept_part : ℕ → ℕ
  kept_part n = h.deposited - streamed_part - n

  -- What a partial cancellation has done: `w₁` is the world after the payment to the recipient, and
  -- `w₂` that after the refund.
  pub record Parts (id : ℕ) (amount : ℤ) (w : World C) (new_id : ℕ) (w' : World C) : Type 0 where
    pub refund : ℕ
    pub refund_eq : amount ≡ pos refund
    pub refund_pos : 0 < refund
    pub w₁ : World C
    pub w₂ : World C
    pub paid :
        when
          (ltb_ℤ (pos 0) (pos earned_part))
          (transfer env s.token env.current_contract s.recipient (pos earned_part))
          w
        ≡ ok (tt, w₁)
    pub refunded : transfer env s.token env.current_contract s.sender (pos refund) w₁ ≡ ok (tt, w₂)
    pub id_eq : new_id ≡ derive_stream_id env s.sender s.recipient (stream_now env s) id
    pub stores :
        streams_of w'
        ≡ update (update (streams_of w) s.id (some (record s { status = cancelled }))) new_id (
            some (
              remainder_stream s new_id
                (pos (kept_part refund))
                (stream_now env s)
                (stream_now env s + kept_part refund / h.rate)))
    pub a_second : h.rate ≤ kept_part refund
    pub earned_le : h.withdrawn + earned_part ≤ streamed_part
    pub shares : streamed_part + refund + kept_part refund ≡ h.deposited

  pub parts_le : h.withdrawn + earned_part ≤ streamed_part
  parts_le =
      let after = (stream_now_bounds env s h).0 in
      let since : (s.last_withdraw_time - s.start_time) + (stream_now env s - s.last_withdraw_time)
          ≡ stream_now env s - s.start_time =
        omega (arith, h.started, after) in
      omega (arith, h.withdrawn_le, ap (λ k. h.rate * k) since)

  flow-eq : (k : ℕ) (e : ℤ) → checked_flow_amount s.flow_rate k ≡ some e → e ≡ pos (h.rate * k)
  unfolding checked_flow_amount
  flow-eq k e flows = (checked_mul_i128-eq h.rate k (rw h.rate_eq at flows)).0

  assembled :
      (id : ℕ) (w w₁ w₂ w₃ : World C) (new_id k end_time : ℕ) (amount e f d q : ℤ)
      → h.deposited < i128_bound
      → leb_ℤ amount (pos 0) ≡ false
      → checked_flow_amount s.flow_rate (stream_now env s - s.last_withdraw_time) ≡ some e
      → checked_flow_amount s.flow_rate (stream_now env s - s.start_time) ≡ some f
      → leb_ℤ (saturating_sub_i128 s.deposit f) amount ≡ false
      → checked_sub_i128 (saturating_sub_i128 s.deposit f) amount ≡ some d
      → ltb_ℤ d s.flow_rate ≡ false
      → div_i128 d s.flow_rate ≡ some q
      → u64_try_from q ≡ some k
      → checked_add_u64 (stream_now env s) k ≡ some end_time
      → when (ltb_ℤ (pos 0) e) (transfer env s.token env.current_contract s.recipient e) w
        ≡ ok (tt, w₁)
      → transfer env s.token env.current_contract s.sender amount w₁ ≡ ok (tt, w₂)
      → new_id ≡ derive_stream_id env s.sender s.recipient (stream_now env s) id
      → streams_of w₃
        ≡ update
            (update (streams_of w₂) s.id (some (record s { status = cancelled })))
            new_id
            (some (remainder_stream s new_id d (stream_now env s) end_time))
      → Parts id amount w new_id w₃
  assembled id w w₁ w₂ w₃ new_id k end_time amount e f d q small some_due flows streams within left
        big divided seconds ends paid refunded id_eq stores =
      let earned = flow-eq _ e flows in
      let streamed = flow-eq _ f streams in
      let (m, is_pos, positive, more, rest) =
        rest_of h.deposited streamed_part amount d small some_due
          (rw (streamed, h.deposit_eq) at within) (rw (streamed, h.deposit_eq) at left) in
      let a_second : h.rate ≤ kept_part m =
        (let b = (rw (rest, h.rate_eq) at big) in ground arith) in
      let span =
        seconds_of (kept_part m) h.rate k q h.rate_pos (rw (rest, h.rate_eq) at divided) seconds in
      let ended = checked_add_u64-eq (stream_now env s) k ends in
      let kept : streams_of w₂ ≡ streams_of w =
        ap (λ c. c.streams)
          (Ensures-returns ((transfer-core env s.token env.current_contract s.sender amount).at w₁)
              tt w₂ refunded
            ∙ Ensures-returns
                ((Unchanged-when core_of _ _
                    (transfer-core env s.token env.current_contract s.recipient e)).at
                  w)
                tt w₁ paid) in
      record {
        refund = m;
        refund_eq = is_pos;
        refund_pos = positive;
        w₁ = w₁;
        w₂ = w₂;
        paid = rw earned at paid;
        refunded = rw is_pos at refunded;
        id_eq = id_eq;
        stores = rw (← kept, ← rest, ← span, ← ended) stores;
        a_second = a_second;
        earned_le = parts_le;
        shares = omega arith;
      }

  -- For a sound stream with a deposit below 2^127 that is stored under the identifier: whoever
  -- calls, if partial_cancel_stream returns, then what the rate gave since the last withdrawal is
  -- paid to the recipient if it is positive, and after that the positive amount to the sender; the
  -- streams are those before with the old one cancelled and, under the derived identifier, a new
  -- one from now on, or from the pause of a paused stream, with the kept part as its deposit and
  -- as many seconds as the rate divides it into, at least one; what was withdrawn and what is paid
  -- to the recipient is at most what the rate gave since the start; and what the rate gave since
  -- the start, the refund and the kept part add up to the deposit.
  pub partial_cancel_stream-Parts :
      (id : ℕ) (caller : Address) (amount : ℤ) (w : World C)
      → h.deposited < i128_bound
      → load_stream w id ≡ some s
      → Ensures (partial_cancel_stream env id caller amount) w (Parts id amount w)
  unfolding partial_cancel_stream require_auth save_stream publish
  partial_cancel_stream-Parts id caller amount w small stored = Ensures-panic_if λ _.
      Ensures-gets _ _ (
        Ensures-or_err_some _ _ stored (
          Ensures-gets _ _ (
            Ensures-fail_if _ λ _. Ensures-fail_if _ λ _. Ensures-fail_if _ λ some_due.
              Ensures-or_err _ λ e flows. Ensures-or_err _ λ f streams. Ensures-fail_if _ λ within.
                Ensures-or_panic λ d left. Ensures-fail_if _ λ big. Ensures-or_panic λ q divided.
                  Ensures-or_err _ λ k seconds. Ensures-or_err _ λ end_time ends.
                    Ensures-bind _ (itself _ w) λ _ w₁ paid.
                      Ensures-bind _ (itself _ w₁) λ _ w₂ refunded. Ensures-modify _ (
                        Ensures-modify _ (
                          Ensures-bind _ (spawn_remainder-stores env s id d _ end_time _)
                            λ new_id w₃ stores. Ensures-modify _ (
                              Ensures-pure _ (
                                assembled id w w₁ w₂ _ new_id k end_time amount e f d q small
                                  some_due flows streams within left big divided seconds ends paid
                                  refunded stores.0 stores.1)))))))
