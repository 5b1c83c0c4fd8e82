-- ===== src/Contract/Settle/Replaced.antt =====
-- contracts/stream/src/lib.rs, `partial_cancel_stream`: when it returns with the new stream.
use sorostream_contracts.Prelude.{
  ℕ, ◌+◌, ◌-◌, ◌*◌, ◌/◌, ◌<◌, ◌≤◌, ◌≡◌, refl, ap, ◌∙◌, lt→ltb, Bool, true, false, some, arith,
}
use sorostream_contracts.Prelude.Int.{ℤ, pos, ltb_ℤ, leb_ℤ}
use sorostream_contracts.Prelude.Machine.{
  u32_mod, i128_bound, u64_max, checked_add_u64, checked_sub_i128, checked_mul_i128-pos,
  checked_sub_i128-pos, saturating_sub_i128, saturating_sub_i128-pos, div_i128, u64_try_from,
}
use sorostream_contracts.Types.{Address, Stream, StreamError, is_live, cancelled, stream_cancelled}
use sorostream_contracts.Call.{
  Outcome, ok, err, panic, pure, gets, or_err, or_panic, fail_if, panic_if, modify, when, ◌>>=◌,
}
use sorostream_contracts.Call.Rules.{Ensures-returns}
use sorostream_contracts.Call.Unchanged.{Unchanged, Unchanged-when, unchanged_rules}
use sorostream_contracts.Env.{Env, World, Exec, Persistent, require_auth, transfer, publish}
use sorostream_contracts.Storage.Streams.{
  load_stream, save_stream, index_global_stream, get_global_stream_count,
}
use sorostream_contracts.Storage.Index.{get_count, append_id, index_by_sender, index_by_recipient}
use sorostream_contracts.Contract.Payment.{may_manage}
use sorostream_contracts.Contract.Cancel.{
  stream_now, checked_flow_amount, spawn_remainder, partial_cancel_stream,
}
use sorostream_contracts.Contract.Sound.{IsSound}
use sorostream_contracts.Contract.Settle.Parted.{
  earned_part, streamed_part, kept_part, parts_le, Parts, partial_cancel_stream-Parts,
}

-- Where the global list and the lists of the two parties of a stream keep their counters.
record Places : Type 0 where
  pub pers : Persistent
  pub total : ℕ

module _ {C : Type 0} where
  places : World C → Places
  places w = record { pers = w.pers; total = get_global_stream_count w }

  -- The lists that a new stream of the same parties is entered in have room for it.
  pub record HasRoom (s : Stream) (w : World C) : Type 0 where
    pub of_sender : get_count w.pers.by_sender s.sender + 1 < u32_mod
    pub of_recipient : get_count w.pers.by_recipient s.recipient + 1 < u32_mod
    pub of_all : get_global_stream_count w + 1 < u32_mod

  abbrev Returned : {A : Type 0} → Exec C A → World C → Type 0
  Returned {A} m w = (a : A) × (w' : World C) × (m w ≡ ok (a, w'))

  returns : {A : Type 0} → Outcome StreamError (A × World C) → Bool
  returns (ok (a, w)) = true
  returns (err e) = false
  returns panic = false

  returns-Returned : {A : Type 0} (m : Exec C A) (w : World C) → returns (m w) ≡ true → Returned m w
  unfolding returns
  returns-Returned {A} m w h = go (m w) refl h
    where
      go : (o : Outcome StreamError (A × World C)) → m w ≡ o → returns o ≡ true → Returned m w
      go (ok (a, w')) e h = (a, w', e)
      go (err x) e h = absurd (ground arith)
      go panic e h = absurd (ground arith)

module _ {C : Type 0} (env : Env C) where
  spawn_remainder-returns :
      (s : Stream) (id : ℕ) (w : World C) (t end_time : ℕ) (d : ℤ)
      → HasRoom s w
      → Returned (spawn_remainder env s id d t end_time) w
  unfolding spawn_remainder save_stream index_by_sender index_by_recipient index_global_stream
      get_global_stream_count get_count append_id gets or_panic modify pure ◌>>=◌ returns
  spawn_remainder-returns s id w t end_time d room =
      returns-Returned (spawn_remainder env s id d t end_time) w (
        rw
          (
            lt→ltb (get_count w.pers.by_sender s.sender + 1) u32_mod room.of_sender,
            lt→ltb (get_count w.pers.by_recipient s.recipient + 1) u32_mod room.of_recipient,
            lt→ltb (get_global_stream_count w + 1) u32_mod room.of_all,
          )
          refl)

div_i128-number : (a r : ℕ) → a < i128_bound → 0 < r → div_i128 (pos a) (pos r) ≡ some (pos (a / r))
unfolding div_i128
div_i128-number a r small positive = ground arith

module _ {C : Type 0} (env : Env C) where
  transfer-places :
      (token from to : Address) (n : ℤ) → Unchanged places (transfer env token from to n)
  unfolding transfer places get_global_stream_count
  transfer-places token from to n = search unchanged_rules

  -- Two payments take no room.
  HasRoom-paid :
      (s : Stream) (id : ℕ) (amount earned : ℤ) (t : Stream) (w w₁ w₂ : World C)
      → when (ltb_ℤ (pos 0) earned) (transfer env s.token env.current_contract s.recipient earned) w
        ≡ ok (tt, w₁)
      → transfer env s.token env.current_contract s.sender amount w₁ ≡ ok (tt, w₂)
      → HasRoom s w
      → HasRoom s (publish (stream_cancelled id s.sender amount earned) (save_stream t w₂))
  unfolding publish save_stream places get_global_stream_count
  HasRoom-paid s id amount earned t w w₁ w₂ paid refunded room =
      let first =
        Ensures-returns
          ((Unchanged-when places _ _
              (transfer-places s.token env.current_contract s.recipient earned)).at
            w)
          tt w₁ paid in
      let second =
        Ensures-returns ((transfer-places s.token env.current_contract s.sender amount).at w₁) tt w₂
          refunded in
      let same = second ∙ first in
      record {
        of_sender = rw (ap (λ p. get_count p.pers.by_sender s.sender) same) room.of_sender;
        of_recipient =
            rw (ap (λ p. get_count p.pers.by_recipient s.recipient) same) room.of_recipient;
        of_all = rw (ap (λ p. p.total) same) room.of_all;
      }

module _ {C : Type 0} (env : Env C) (s : Stream) (h : IsSound env.timestamp s) where
  flow-number :
      (k : ℕ)
      → h.rate * k < i128_bound
      → checked_flow_amount s.flow_rate k ≡ some (pos (h.rate * k))
  unfolding checked_flow_amount
  flow-number k small = rw h.rate_eq (checked_mul_i128-pos h.rate k small)

  to_the_new_stream :
      (id : ℕ) (caller : Address) (n : ℕ) (w w₁ w₂ : World C)
      → h.deposited < i128_bound
      → env.authorized caller ≡ true
      → load_stream w id ≡ some s
      → may_manage w s id caller ≡ true
      → is_live s.status ≡ true
      → 0 < n
      → streamed_part env s h + n + h.rate ≤ h.deposited
      → stream_now env s + kept_part env s h n / h.rate ≤ u64_max
      → when
          (ltb_ℤ (pos 0) (pos (earned_part env s h)))
          (transfer env s.token env.current_contract s.recipient (pos (earned_part env s h)))
          w
        ≡ ok (tt, w₁)
      → transfer env s.token env.current_contract s.sender (pos n) w₁ ≡ ok (tt, w₂)
      → HasRoom s w
      → Returned (partial_cancel_stream env id caller (pos n)) w
  unfolding partial_cancel_stream require_auth gets or_err or_panic fail_if panic_if modify pure
      returns ◌>>=◌
  to_the_new_stream id caller n w w₁ w₂ small auth found manages live some_due fits clock paid
        refunded room =
      let le = parts_le env s h in
      let positive = h.rate_pos in
      let earned = flow-number (stream_now env s - s.last_withdraw_time) (omega arith) in
      let streamed = flow-number (stream_now env s - s.start_time) (omega arith) in
      let remaining : saturating_sub_i128 s.deposit (pos (streamed_part env s h))
          ≡ pos (h.deposited - streamed_part env s h) =
        rw h.deposit_eq
          (saturating_sub_i128-pos h.deposited (streamed_part env s h) (omega arith) small) in
      let rest : checked_sub_i128 (pos (h.deposited - streamed_part env s h)) (pos n)
          ≡ some (pos (kept_part env s h n)) =
        checked_sub_i128-pos (h.deposited - streamed_part env s h) n (omega arith) (omega arith) in
      let due : leb_ℤ (pos n) (pos 0) ≡ false = ground arith in
      let within : leb_ℤ (pos (h.deposited - streamed_part env s h)) (pos n) ≡ false =
        ground arith in
      let second : ltb_ℤ (pos (kept_part env s h n)) s.flow_rate ≡ false =
        rw h.rate_eq (ground arith) in
      let divided : div_i128 (pos (kept_part env s h n)) s.flow_rate
          ≡ some (pos (kept_part env s h n / h.rate)) =
        rw h.rate_eq (div_i128-number (kept_part env s h n) h.rate (omega arith) positive) in
      let seconds : u64_try_from (pos (kept_part env s h n / h.rate))
          ≡ some (kept_part env s h n / h.rate) =
        ground arith in
      let ends : checked_add_u64 (stream_now env s) (kept_part env s h n / h.rate)
          ≡ some (stream_now env s + kept_part env s h n / h.rate) =
        ground arith in
      let (new_id, w₃, spawned) =
        spawn_remainder-returns env s id _ (stream_now env s)
          (stream_now env s + kept_part env s h n / h.rate) (pos (kept_part env s h n))
          (HasRoom-paid env s id (pos n) (pos (earned_part env s h))
            (record s { status = cancelled }) w w₁ w₂ paid refunded room) in
      returns-Returned (partial_cancel_stream env id caller (pos n)) w (
        rw
          (
            auth, found, manages, live, due, earned, streamed, remaining, within, rest, second,
            divided, seconds, ends, paid, refunded, spawned,
          )
          refl)

  -- For a sound stream with a deposit below 2^127 that is stored as active or paused, an
  -- authorized caller who is its sender or delegate, and a positive amount that with what the rate
  -- gave since the start leaves at least one second of flow, if the payments of what is earned
  -- since the last withdrawal and of the amount go through, the new end fits 64 bits, and the two
  -- lists of the parties and the global list have room for one more, then partial_cancel_stream
  -- returns the identifier of the new stream, and the payments, the stored streams and the shares
  -- of the deposit are those of a partial cancellation (Parts).
  pub partial_cancel_stream-returns :
      (id : ℕ) (caller : Address) (n : ℕ) (w w₁ w₂ : World C)
      → h.deposited < i128_bound
      → env.authorized caller ≡ true
      → load_stream w id ≡ some s
      → may_manage w s id caller ≡ true
      → is_live s.status ≡ true
      → 0 < n
      → streamed_part env s h + n + h.rate ≤ h.deposited
      → stream_now env s + kept_part env s h n / h.rate ≤ u64_max
      → when
          (ltb_ℤ (pos 0) (pos (earned_part env s h)))
          (transfer env s.token env.current_contract s.recipient (pos (earned_part env s h)))
          w
        ≡ ok (tt, w₁)
      → transfer env s.token env.current_contract s.sender (pos n) w₁ ≡ ok (tt, w₂)
      → HasRoom s w
      → (new_id : ℕ) × (w' : World C) × (partial_cancel_stream env id caller (pos n) w
          ≡ ok (new_id, w'))
        × Parts env s h id (pos n) w new_id w'
  partial_cancel_stream-returns id caller n w w₁ w₂ small auth found manages live some_due fits
        clock paid refunded room =
      let (new_id, w', e) =
        to_the_new_stream id caller n w w₁ w₂ small auth found manages live some_due fits clock paid
          refunded room in
      let parts = partial_cancel_stream-Parts env s h id caller (pos n) w small found in
      (new_id, w', e, Ensures-returns parts new_id w' e)
