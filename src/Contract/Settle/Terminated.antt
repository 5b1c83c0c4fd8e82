-- ===== src/Contract/Settle/Terminated.antt =====
-- contracts/stream/src/lib.rs, `recipient_terminate`: what becomes of the deposit.
use sorostream_contracts.Prelude.{
  ℕ, ◌+◌, ◌-◌, ◌*◌, ◌<◌, ◌≤◌, ◌≡◌, refl, true, false, not, some, ltb, arith, if◌then◌else◌,
  Bool-cases, inl, inr, ltb→lt, ltb→le, ◌∙◌, ◌!=◌,
}
use sorostream_contracts.Prelude.Int.{pos}
use sorostream_contracts.Prelude.Machine.{i128_bound, saturating_sub_i128-pos}
use sorostream_contracts.Types.{Address, Stream, is_live, stream_terminated_by_recipient}
use sorostream_contracts.Call.{ok, gets, or_err, fail_if, panic_if, modify, ◌>>=◌}
use sorostream_contracts.Env.{Env, World, require_auth, publish}
use sorostream_contracts.Storage.Pausing.{is_paused}
use sorostream_contracts.Storage.Streams.{load_stream, remove_stream}
use sorostream_contracts.Storage.Index.{unindex_by_sender, unindex_by_recipient}
use sorostream_contracts.Vesting.{compute_claimable}
use sorostream_contracts.Vesting.Bounds.{
  elapsed, compute_claimable-early, compute_claimable-late, compute_earned-pos,
}
use sorostream_contracts.Contract.Cancel.{
  stream_now, refund_of, pay_out, remove_and_unindex, recipient_terminate,
}
use sorostream_contracts.Contract.Sound.{IsSound, earned_covered}
use sorostream_contracts.Contract.Settle.Withdrawn.{unpaused}

module _ {C : Type 0} (env : Env C) (s : Stream) (h : IsSound env.timestamp s) where
  -- What the recipient of a sound stream may claim when he terminates it, and what is left over.
  abbrev pub due_part : ℕ
  due_part =
      if ltb (stream_now env s) s.cliff_time
      then 0
      else h.rate * elapsed (stream_now env s) s.end_time s.last_withdraw_time

  abbrev pub rest_part : ℕ
  rest_part = h.deposited - h.withdrawn - due_part

  due_part-le : h.withdrawn + due_part ≤ h.deposited
  due_part-le =
      let covered = earned_covered env.timestamp (stream_now env s) s h in
      elim (Bool-cases (ltb (stream_now env s) s.cliff_time)) [
        | inl early ↦ rw early (omega (arith, covered))
        | inr late ↦ rw late covered
      ]

  due_part-eq :
      h.deposited < i128_bound
      → compute_claimable s.flow_rate
          (stream_now env s)
          s.cliff_time
          s.end_time
          s.last_withdraw_time
        ≡ some (pos due_part)
  due_part-eq small =
      let covered = earned_covered env.timestamp (stream_now env s) s h in
      elim (Bool-cases (ltb (stream_now env s) s.cliff_time)) [
        | inl early ↦ rw early (
            compute_claimable-early s.flow_rate (stream_now env s) s.cliff_time s.end_time
              s.last_withdraw_time (ltb→lt _ _ early))
        | inr late ↦ rw late (
            compute_claimable-late s.flow_rate (stream_now env s) s.cliff_time s.end_time
              s.last_withdraw_time (ltb→le _ _ late)
            ∙ rw h.rate_eq (
                compute_earned-pos h.rate (stream_now env s) s.end_time s.last_withdraw_time
                  (omega arith)))
      ]

  rest_part-eq : h.deposited < i128_bound → refund_of s (pos due_part) ≡ pos rest_part
  unfolding refund_of
  rest_part-eq small =
      let covered = due_part-le in
      rw
        (
          h.deposit_eq,
          h.withdrawn_eq,
          saturating_sub_i128-pos h.deposited h.withdrawn (omega arith) small,
        )
        (saturating_sub_i128-pos (h.deposited - h.withdrawn) due_part (omega arith) (omega arith))

  -- For a sound stream with a deposit below 2^127 that is stored as active or paused and allows
  -- it, in a contract that is not flagged as paused, and for its authorized recipient, if the
  -- payments of what is due, which is nothing before the cliff, and of the rest go through, then
  -- recipient_terminate returns, with the stream removed from storage and from both indexes and
  -- the event published; and what was withdrawn before, what is due and the rest add up to the
  -- deposit.
  pub recipient_terminate-settles :
      (id : ℕ) (r : Address) (w w₁ : World C)
      → h.deposited < i128_bound
      → is_paused w ≡ false
      → env.authorized r ≡ true
      → load_stream w id ≡ some s
      → s.recipient ≡ r
      → s.allow_recipient_termination ≡ true
      → is_live s.status ≡ true
      → pay_out env s (pos due_part) (pos rest_part) w ≡ ok (tt, w₁)
      → (recipient_terminate env id r w
          ≡ ok (
            tt,
            publish (stream_terminated_by_recipient id r (pos due_part) (pos rest_part)) (
                unindex_by_recipient s.recipient id
                  (unindex_by_sender s.sender id (remove_stream id w₁))),
          ))
        × (h.withdrawn + due_part + rest_part ≡ h.deposited)
  unfolding recipient_terminate require_auth gets or_err fail_if panic_if modify ◌>>=◌
      remove_and_unindex
  recipient_terminate-settles id r w w₁ small running auth found mine allowed live paid =
      let covered = due_part-le in
      let granted : not s.allow_recipient_termination ≡ false = ground arith in
      let own : (s.recipient != r) ≡ false = rw mine (ground arith) in
      (
        rw
            (
              unpaused env w running,
              auth,
              found,
              own,
              granted,
              live,
              due_part-eq small,
              rest_part-eq small,
              paid,
            )
            refl,
        omega arith,
      )
