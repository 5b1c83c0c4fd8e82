-- ===== src/Contract/Settle.antt =====
-- contracts/stream/src/lib.rs, `cancel_stream`: what becomes of the deposit.
pub mod Withdrawn
pub mod Parted
pub mod Replaced
pub mod Terminated
use sorostream_contracts.Prelude.{ℕ, ◌+◌, ◌-◌, ◌*◌, ◌<◌, ◌≡◌, refl, true, some, arith}
use sorostream_contracts.Prelude.Int.{pos}
use sorostream_contracts.Prelude.Machine.{i128_bound, saturating_sub_i128-pos}
use sorostream_contracts.Types.{Address, Stream, is_live, stream_cancelled}
use sorostream_contracts.Call.{ok, gets, or_err, fail_if, panic_if, modify, ◌>>=◌}
use sorostream_contracts.Env.{Env, World, require_auth, publish}
use sorostream_contracts.Storage.Streams.{load_stream, remove_stream}
use sorostream_contracts.Storage.Index.{unindex_by_sender, unindex_by_recipient}
use sorostream_contracts.Vesting.{compute_earned}
use sorostream_contracts.Vesting.Bounds.{elapsed, compute_earned-pos}
use sorostream_contracts.Contract.Payment.{may_manage}
use sorostream_contracts.Contract.Cancel.{
  stream_now, refund_of, pay_out, remove_and_unindex, cancel_stream,
}
use sorostream_contracts.Contract.Sound.{IsSound, earned_covered}

module _ {C : Type 0} (env : Env C) where
  -- What the rate gave a sound stream since the last withdrawal, and what is left of its deposit then.
  abbrev pub earned_now : (s : Stream) → IsSound env.timestamp s → ℕ
  earned_now s h = h.rate * elapsed (stream_now env s) s.end_time s.last_withdraw_time

  abbrev pub left_over : (s : Stream) → IsSound env.timestamp s → ℕ
  left_over s h = h.deposited - h.withdrawn - earned_now s h

  earned_now-eq :
      (s : Stream) (h : IsSound env.timestamp s)
      → h.deposited < i128_bound
      → compute_earned s.flow_rate (stream_now env s) s.end_time s.last_withdraw_time
        ≡ some (pos (earned_now s h))
  earned_now-eq s h small =
      let covered = earned_covered env.timestamp (stream_now env s) s h in
      rw h.rate_eq
        (compute_earned-pos h.rate (stream_now env s) s.end_time s.last_withdraw_time (omega arith))

  refund_of-eq :
      (s : Stream) (h : IsSound env.timestamp s)
      → h.deposited < i128_bound
      → refund_of s (pos (earned_now s h)) ≡ pos (left_over s h)
  unfolding refund_of
  refund_of-eq s h small =
      let covered = earned_covered env.timestamp (stream_now env s) s h in
      rw
        (
          h.deposit_eq,
          h.withdrawn_eq,
          saturating_sub_i128-pos h.deposited h.withdrawn (omega arith) small,
        )
        (saturating_sub_i128-pos (h.deposited - h.withdrawn) (earned_now s h) (omega arith)
          (omega arith))

  -- For a sound stream with a deposit below 2^127 that is stored as active or paused, and for an
  -- authorized caller who is its sender or delegate, if the payments of what is earned to the
  -- recipient and of what is left over to the sender go through, then cancel_stream returns, with
  -- the stream removed from storage and from both indexes and the event published; and what was
  -- withdrawn before, what is earned and what is left over add up to the deposit.
  pub cancel_stream-settles :
      (id : ℕ) (caller : Address) (s : Stream) (w w₁ : World C) (h : IsSound env.timestamp s)
      → h.deposited < i128_bound
      → env.authorized caller ≡ true
      → load_stream w id ≡ some s
      → may_manage w s id caller ≡ true
      → is_live s.status ≡ true
      → pay_out env s (pos (earned_now s h)) (pos (left_over s h)) w ≡ ok (tt, w₁)
      → (cancel_stream env id caller w
          ≡ ok (
            tt,
            publish (stream_cancelled id s.sender (pos (left_over s h)) (pos (earned_now s h))) (
                unindex_by_recipient s.recipient id
                  (unindex_by_sender s.sender id (remove_stream id w₁))),
          ))
        × (h.withdrawn + earned_now s h + left_over s h ≡ h.deposited)
  unfolding cancel_stream require_auth gets or_err fail_if panic_if modify ◌>>=◌ remove_and_unindex
  cancel_stream-settles id caller s w w₁ h small auth found manages live paid =
      let covered = earned_covered env.timestamp (stream_now env s) s h in
      (
        rw (auth, found, manages, live, earned_now-eq s h small, refund_of-eq s h small, paid) refl,
        omega arith,
      )
