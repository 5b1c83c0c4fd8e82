-- ===== src/Contract/Sound/Manage.antt =====
-- contracts/stream/src/lib.rs, the pause of one stream, its delegate, its metadata and its renewal
-- flag: the accounting invariant.
use sorostream_contracts.Prelude.{ℕ, ◌+◌, ◌-◌, ◌≤◌, ◌≡◌, refl, true, false, arith}
use sorostream_contracts.Prelude.Machine.{u64_max}
use sorostream_contracts.Types.{
  Address, Bytes, Stream, StreamStatus, active, paused, is_live, is_paused_status,
}
use native.Mathlib.Nat.{mul-le-mul_left}
use sorostream_contracts.Call.Rules.{
  Ensures, Ensures-bind, Ensures-pure, Ensures-gets, Ensures-or_err, Ensures-fail_if,
  Ensures-modify, Ensures-modify_last,
}
use sorostream_contracts.Env.{Env, World, publish}
use sorostream_contracts.Storage.Streams.{load_stream}
use sorostream_contracts.Storage.Access.{set_delegate, remove_delegate}
use sorostream_contracts.Contract.Manage.{
  shift, resumed, load_as_sender, delegate, revoke_delegate, update_metadata, cancel_auto_renew,
  pause_stream, resume_stream,
}
use sorostream_contracts.Contract.Frames.{
  streams_of, is_paused_or_auto_unpause-core, require_auth-core,
}
use sorostream_contracts.Contract.Sound.{
  IsSound, AllSound, active-live, not-false, relabelled-IsSound, save_stream-AllSound, pass,
}
use sorostream_contracts.Contract.Sound.Withdraw.{SoundAfter}

paused_at-IsSound :
    (now : ℕ) (s : Stream)
    → IsSound now s
    → IsSound now (record s { status = paused; last_pause_time = now })
paused_at-IsSound now s h = record {
  rate = h.rate;
  deposited = h.deposited;
  withdrawn = h.withdrawn;
  rate_eq = h.rate_eq;
  deposit_eq = h.deposit_eq;
  withdrawn_eq = h.withdrawn_eq;
  rate_pos = h.rate_pos;
  started = h.started;
  not_over = h.not_over;
  not_ahead = h.not_ahead;
  pause_after = λ p. (h.not_ahead, omega arith);
  withdrawn_le = h.withdrawn_le;
  covered = h.covered;
}

-- A time that the shift brings to at most `bound` does not meet the end of the clock.
shift-exact : (t d : ℕ) → t + d ≤ u64_max → shift t d ≡ t + d
shift-exact t d h = ground arith

shift-le : (t d : ℕ) → shift t d ≤ t + d
shift-le t d = ground arith

shift_mono : (t u d : ℕ) → t ≤ u → shift t d ≤ shift u d
shift_mono t u d h = ground arith

shift-span : (a b d : ℕ) → shift b d - (a + d) ≤ b - a
shift-span a b d = let h = shift-le b d in omega arith

resumed_times-IsSound :
    (now d e c l : ℕ) (s : Stream) (h : IsSound now s)
    → s.last_withdraw_time + d ≤ now
    → s.last_withdraw_time + d ≤ e
    → e - (s.start_time + d) ≤ s.end_time - s.start_time
    → IsSound now (record s {
      end_time = e;
      cliff_time = c;
      start_time = s.start_time + d;
      last_withdraw_time = s.last_withdraw_time + d;
      lock_until = l;
      status = active;
      last_pause_time = 0;
    })
resumed_times-IsSound now d e c l s h past before shorter = record {
  rate = h.rate;
  deposited = h.deposited;
  withdrawn = h.withdrawn;
  rate_eq = h.rate_eq;
  deposit_eq = h.deposit_eq;
  withdrawn_eq = h.withdrawn_eq;
  rate_pos = h.rate_pos;
  started = omega (arith, h.started);
  not_over = before;
  not_ahead = past;
  pause_after = λ p. cc;
  withdrawn_le =
      let span : s.last_withdraw_time + d - (s.start_time + d)
          ≡ s.last_withdraw_time - s.start_time =
        omega arith in
      rw span h.withdrawn_le;
  covered = let cost = mul-le-mul_left h.rate shorter in omega (arith, cost, h.covered);
}

-- On a clock of 64 bits the pause of a sound stream is taken out of its times.
pub resumed-IsSound :
    (now : ℕ) (s : Stream)
    → now ≤ u64_max
    → IsSound now s
    → is_paused_status s.status ≡ true
    → IsSound now (resumed s now)
unfolding resumed
resumed-IsSound now s clock h p =
    let d = now - s.last_pause_time in
    let at = h.pause_after p in
    let withdrawn = shift-exact s.last_withdraw_time d (omega arith) in
    let begun = shift-exact s.start_time d (omega (arith, h.started)) in
    let ends = shift_mono s.last_withdraw_time s.end_time d h.not_over in
    rw withdrawn (
      rw begun (
        resumed_times-IsSound now d (shift s.end_time d) (shift s.cliff_time d)
          (shift s.lock_until d) s h (omega arith) (omega arith)
          (shift-span s.start_time s.end_time d)))

module _ {C : Type 0} (env : Env C) where
  load_as_sender-loads :
      (sender : Address) (id : ℕ) (w : World C)
      → AllSound env.timestamp (streams_of w)
      → Ensures (load_as_sender env sender id) w (λ s w'.
        (is_live s.status ≡ true → IsSound env.timestamp s)
        × AllSound env.timestamp (streams_of w'))
  unfolding load_as_sender load_stream
  load_as_sender-loads sender id w h = pass (require_auth-core env sender) h λ _ w₁ h₁.
      Ensures-gets _ _ (
        Ensures-or_err _
          λ s found. Ensures-fail_if _ λ _. Ensures-pure _ ((h₁.each id s found).1, h₁))

  pub pause_stream-AllSound :
      (id : ℕ) (sender : Address) (w : World C)
      → AllSound env.timestamp (streams_of w)
      → Ensures (pause_stream env id sender) w (SoundAfter env)
  unfolding pause_stream publish
  pause_stream-AllSound id sender w h = pass (is_paused_or_auto_unpause-core env) h λ _ w₁ h₁.
      Ensures-fail_if _ λ _. Ensures-bind _ (load_as_sender-loads sender id w₁ h₁) λ s w₂ h₂.
        Ensures-fail_if _ λ act.
          let sound = h₂.0 (active-live s.status (not-false _ act)) in
          Ensures-modify _ (
            Ensures-modify_last _ (
              save_stream-AllSound env.timestamp _ w₂ h₂.1
                (λ live. paused_at-IsSound env.timestamp s sound)))

  paused-live : (st : StreamStatus) → is_paused_status st ≡ true → is_live st ≡ true
  paused-live paused h = refl
  paused-live _ h = cc

  -- On a clock of 64 bits, if all stored streams are sound at the time of the call, then they are
  -- after a call of resume_stream that returns.
  pub resume_stream-AllSound :
      (id : ℕ) (sender : Address) (w : World C)
      → env.timestamp ≤ u64_max
      → AllSound env.timestamp (streams_of w)
      → Ensures (resume_stream env id sender) w (SoundAfter env)
  unfolding resume_stream publish
  resume_stream-AllSound id sender w clock h =
      pass (is_paused_or_auto_unpause-core env) h λ _ w₁ h₁. Ensures-fail_if _ λ _.
        Ensures-bind _ (load_as_sender-loads sender id w₁ h₁) λ s w₂ h₂. Ensures-fail_if _ λ was.
          let p = not-false _ was in
          let sound = h₂.0 (paused-live s.status p) in
          Ensures-modify _ (
            Ensures-modify_last _ (
              save_stream-AllSound env.timestamp _ w₂ h₂.1
                (λ live. resumed-IsSound env.timestamp s clock sound p)))

  pub update_metadata-AllSound :
      (sender : Address) (id : ℕ) (metadata : Bytes) (w : World C)
      → AllSound env.timestamp (streams_of w)
      → Ensures (update_metadata env sender id metadata) w (SoundAfter env)
  unfolding update_metadata publish
  update_metadata-AllSound sender id metadata w h =
      Ensures-bind _ (load_as_sender-loads sender id w h) λ s w₁ h₁. Ensures-fail_if _ λ _.
        Ensures-modify _ (
          Ensures-modify_last _ (
            save_stream-AllSound env.timestamp _ w₁ h₁.1 (λ live.
              relabelled-IsSound env.timestamp s s.recipient s.auto_renew metadata (h₁.0 live))))

  pub cancel_auto_renew-AllSound :
      (sender : Address) (id : ℕ) (w : World C)
      → AllSound env.timestamp (streams_of w)
      → Ensures (cancel_auto_renew env sender id) w (SoundAfter env)
  unfolding cancel_auto_renew publish
  cancel_auto_renew-AllSound sender id w h =
      Ensures-bind _ (load_as_sender-loads sender id w h) λ s w₁ h₁. Ensures-modify _ (
        Ensures-modify_last _ (
          save_stream-AllSound env.timestamp _ w₁ h₁.1
            (λ live. relabelled-IsSound env.timestamp s s.recipient false s.metadata (h₁.0 live))))

  pub delegate-AllSound :
      (sender : Address) (id : ℕ) (operator : Address) (w : World C)
      → AllSound env.timestamp (streams_of w)
      → Ensures (delegate env sender id operator) w (SoundAfter env)
  unfolding delegate set_delegate
  delegate-AllSound sender id operator w h =
      Ensures-bind _ (load_as_sender-loads sender id w h) λ s w₁ h₁. Ensures-modify_last _ h₁.1

  pub revoke_delegate-AllSound :
      (sender : Address) (id : ℕ) (w : World C)
      → AllSound env.timestamp (streams_of w)
      → Ensures (revoke_delegate env sender id) w (SoundAfter env)
  unfolding revoke_delegate remove_delegate
  revoke_delegate-AllSound sender id w h =
      Ensures-bind _ (load_as_sender-loads sender id w h) λ s w₁ h₁. Ensures-modify_last _ h₁.1
