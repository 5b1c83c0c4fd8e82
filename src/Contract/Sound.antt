-- ===== src/Contract/Sound.antt =====
-- The accounting invariant of the streams that are stored, and how the writes of the entry points keep
-- it. It bounds what a stream has paid and can still pay by its deposit.
pub mod Withdraw
pub mod Batch
pub mod Cancel
pub mod Create
pub mod Manage
pub mod Transfer
pub mod Reach
use sorostream_contracts.Prelude.{
  ℕ, ◌+◌, ◌-◌, ◌*◌, ◌≤◌, ◌<◌, ◌≡◌, refl, ap, sym, ◌∙◌, subst, Bool, true, false, not, Option, none,
  some, min, arith, ◌==◌, if◌then◌else◌, update, Bool-cases, inl, inr, ==→eq, ◌&&◌, ◌||◌,
}
use sorostream_contracts.Prelude.Int.{ℤ, pos}
use native.Mathlib.Nat.{mul-le-mul_left}
use sorostream_contracts.Types.{
  Address, Bytes, Stream, StreamStatus, StreamError, is_live, is_active, is_paused_status, active,
  paused, completed, cancelled,
}
use sorostream_contracts.Call.{Call, ◌>>=◌}
use sorostream_contracts.Call.Rules.{Ensures, Ensures-bind, Ensures-weaken}
use sorostream_contracts.Call.Unchanged.{Unchanged, Unchanged-part}
use sorostream_contracts.Env.{World, Exec}
use sorostream_contracts.Storage.Streams.{load_stream, save_stream, remove_stream}
use sorostream_contracts.Vesting.{compute_claimable, compute_earned}
use sorostream_contracts.Vesting.Bounds.{elapsed, compute_claimable-cases, compute_earned-eq}
use sorostream_contracts.Contract.Frames.{core_of, streams_of}

-- The amounts are not negative and the rate is positive; what is withdrawn is at most what the rate
-- gave up to the last withdrawal, and the whole span costs at most the deposit. The clock of the last
-- withdrawal lies in the span and not in the future, and not after the pause of a paused stream.
pub record IsSound (now : ℕ) (s : Stream) : Type 0 where
  pub rate : ℕ
  pub deposited : ℕ
  pub withdrawn : ℕ
  pub rate_eq : s.flow_rate ≡ pos rate
  pub deposit_eq : s.deposit ≡ pos deposited
  pub withdrawn_eq : s.total_withdrawn ≡ pos withdrawn
  pub rate_pos : 0 < rate
  pub started : s.start_time ≤ s.last_withdraw_time
  pub not_over : s.last_withdraw_time ≤ s.end_time
  pub not_ahead : s.last_withdraw_time ≤ now
  pub pause_after :
      is_paused_status s.status ≡ true
      → (s.last_withdraw_time ≤ s.last_pause_time) × (s.last_pause_time ≤ now)
  pub withdrawn_le : withdrawn ≤ rate * (s.last_withdraw_time - s.start_time)
  pub covered : rate * (s.end_time - s.start_time) ≤ deposited

pub active-not_paused : (st : StreamStatus) → is_active st ≡ true → is_paused_status st ≡ true → ⊥
active-not_paused paused h k = cc
active-not_paused _ h k = cc

pub active-live : (st : StreamStatus) → is_active st ≡ true → is_live st ≡ true
active-live active h = refl
active-live _ h = cc

pub not-false : (b : Bool) → not b ≡ false → b ≡ true
not-false true h = refl
not-false false h = cc

-- Every stored stream stands under its own identifier, and is sound while it is active or paused.
pub record AllSound (now : ℕ) (streams : ℕ → Option Stream) : Type 0 where
  pub each :
      (id : ℕ) (s : Stream)
      → streams id ≡ some s
      → (s.id ≡ id) × (is_live s.status ≡ true → IsSound now s)

update-AllSound :
    (now k : ℕ) (streams : ℕ → Option Stream) (v : Option Stream)
    → AllSound now streams
    → ((s : Stream) → v ≡ some s → (s.id ≡ k) × (is_live s.status ≡ true → IsSound now s))
    → AllSound now (update streams k v)
update-AllSound now k streams v h new = record {
  each = λ id s e. elim (Bool-cases (k == id)) [
    | inl same ↦ let x = new s (rw same at e) in (x.0 ∙ ==→eq k id same, x.1)
    | inr other ↦ h.each id s (rw other at e)
  ];
}

module _ {C : Type 0} (now : ℕ) where
  pub save_stream-AllSound :
      (s : Stream) (w : World C)
      → AllSound now (streams_of w)
      → (is_live s.status ≡ true → IsSound now s)
      → AllSound now (streams_of (save_stream s w))
  unfolding save_stream
  save_stream-AllSound s w h sound = update-AllSound now s.id (streams_of w) (some s) h (λ t e.
      let same : s ≡ t = cc in
      subst (λ x. (x.id ≡ s.id) × (is_live x.status ≡ true → IsSound now x)) same (refl, sound))

  pub remove_stream-AllSound :
      (id : ℕ) (w : World C)
      → AllSound now (streams_of w)
      → AllSound now (streams_of (remove_stream id w))
  unfolding remove_stream
  remove_stream-AllSound id w h = update-AllSound now id (streams_of w) none h (λ t e. cc)

module _ {C A B : Type 0} {now : ℕ} where
  -- A step that leaves the stored streams alone, and one that leaves the whole core alone.
  pub pass_streams :
      {m : Exec C A} {f : A → Exec C B} {w : World C} {Q : B → World C → Type 0}
      → Unchanged streams_of m
      → AllSound now (streams_of w)
      → ((a : A) (w' : World C) → AllSound now (streams_of w') → Ensures (f a) w' Q)
      → Ensures (m >>= f) w Q
  pass_streams {w} k h next =
      Ensures-bind (λ a w'. AllSound now (streams_of w'))
        (Ensures-weaken (k.at w) (λ a w' e. subst (AllSound now) (sym e) h)) next

  pub pass :
      {m : Exec C A} {f : A → Exec C B} {w : World C} {Q : B → World C → Type 0}
      → Unchanged core_of m
      → AllSound now (streams_of w)
      → ((a : A) (w' : World C) → AllSound now (streams_of w') → Ensures (f a) w' Q)
      → Ensures (m >>= f) w Q
  pass k h next = pass_streams (Unchanged-part core_of (λ c. c.streams) k) h next

-- What a sound stream may claim or has earned is a number, at most what its rate gave since the last
-- withdrawal.
pub claimable_due :
    (now t : ℕ) (s : Stream) {c : ℤ} (h : IsSound now s)
    → compute_claimable s.flow_rate t s.cliff_time s.end_time s.last_withdraw_time ≡ some c
    → (n : ℕ) × (c ≡ pos n) × (n ≤ h.rate * elapsed t s.end_time s.last_withdraw_time)
claimable_due now t s {c} h e =
    elim (compute_claimable-cases h.rate t s.cliff_time s.end_time s.last_withdraw_time
      (rw h.rate_eq at e)) [
        | inl early ↦ (0, early.1, omega arith)
        | inr late ↦ (h.rate * elapsed t s.end_time s.last_withdraw_time, late.1, omega arith)
      ]

pub earned_due :
    (now t : ℕ) (s : Stream) {c : ℤ} (h : IsSound now s)
    → compute_earned s.flow_rate t s.end_time s.last_withdraw_time ≡ some c
    → c ≡ pos (h.rate * elapsed t s.end_time s.last_withdraw_time)
earned_due now t s h e =
    compute_earned-eq h.rate t s.end_time s.last_withdraw_time (rw h.rate_eq at e)

-- What a sound stream has paid and has earned at any time is at most its deposit.
pub earned_covered :
    (now t : ℕ) (s : Stream) (h : IsSound now s)
    → h.withdrawn + h.rate * elapsed t s.end_time s.last_withdraw_time ≤ h.deposited
earned_covered now t s h =
    let since : (s.last_withdraw_time - s.start_time) + elapsed t s.end_time s.last_withdraw_time
        ≤ s.end_time - s.start_time =
      omega (arith, h.started, h.not_over) in
    let cost = mul-le-mul_left h.rate since in omega (arith, cost, h.withdrawn_le, h.covered)

-- The stream after a claim, at the time `t` of the claim.
abbrev pub claimed : Stream → ℤ → ℕ → Stream
claimed s total t = record s { total_withdrawn = total; last_withdraw_time = t }

-- A claim of at most what the rate gave since the last withdrawal keeps a stream sound, at a time
-- that is neither before that withdrawal nor, for a paused stream, after the pause.
pub claimed-IsSound :
    (now t n : ℕ) (s : Stream) (h : IsSound now s)
    → s.last_withdraw_time ≤ t
    → t ≤ now
    → (is_paused_status s.status ≡ true → t ≤ s.last_pause_time)
    → n ≤ h.rate * elapsed t s.end_time s.last_withdraw_time
    → IsSound now (claimed s (pos (h.withdrawn + n)) (min t s.end_time))
claimed-IsSound now t n s h after past at_pause le = record {
  rate = h.rate;
  deposited = h.deposited;
  withdrawn = h.withdrawn + n;
  rate_eq = h.rate_eq;
  deposit_eq = h.deposit_eq;
  withdrawn_eq = refl;
  rate_pos = h.rate_pos;
  started = omega (arith, h.started, h.not_over);
  not_over = omega arith;
  not_ahead = omega arith;
  pause_after =
      λ p. let at = at_pause p in let before = (h.pause_after p).1 in (omega arith, before);
  withdrawn_le =
      let since : min t s.end_time - s.start_time
          ≡ (s.last_withdraw_time - s.start_time) + elapsed t s.end_time s.last_withdraw_time =
        omega (arith, h.started, h.not_over) in
      omega (arith, ap (λ k. h.rate * k) since, le, h.withdrawn_le);
  covered = h.covered;
}

pub claimed_active-IsSound :
    (now n : ℕ) (s : Stream) (h : IsSound now s)
    → is_active s.status ≡ true
    → n ≤ h.rate * elapsed now s.end_time s.last_withdraw_time
    → IsSound now (claimed s (pos (h.withdrawn + n)) (min now s.end_time))
claimed_active-IsSound now n s h act le =
    claimed-IsSound now now n s h h.not_ahead (omega arith)
      (λ p. absurd (active-not_paused s.status act p)) le

-- The fields that the accounting does not read.
pub relabelled-IsSound :
    (now : ℕ) (s : Stream) (r : Address) (b : Bool) (m : Bytes)
    → IsSound now s
    → IsSound now (record s { recipient = r; auto_renew = b; metadata = m })
relabelled-IsSound now s r b m h = record {
  rate = h.rate;
  deposited = h.deposited;
  withdrawn = h.withdrawn;
  rate_eq = h.rate_eq;
  deposit_eq = h.deposit_eq;
  withdrawn_eq = h.withdrawn_eq;
  rate_pos = h.rate_pos;
  started = h.started;
  not_over = h.not_over;
  not_ahead = h.not_ahead;
  pause_after = h.pause_after;
  withdrawn_le = h.withdrawn_le;
  covered = h.covered;
}
