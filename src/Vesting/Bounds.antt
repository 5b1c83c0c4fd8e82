-- ===== src/Vesting/Bounds.antt =====
-- The invariants that vesting_math.rs states for its proofs, for all values and not only for those in
-- the ranges assumed there.
use sorostream_contracts.Prelude.{
  ℕ, ◌+◌, ◌-◌, ◌*◌, ◌/◌, ◌≤◌, ◌<◌, min, ◌≡◌, ◌⊎◌, ap, sym, ◌∙◌, some, ltb, if◌then◌else◌, arith,
  ltb→lt, ltb→le, lt→ltb, le→ltb, Bool-cases, inl, inr,
}
use sorostream_contracts.Prelude.Int.{ℤ, pos, ◌+ℤ◌, ◌≤ℤ◌, pos-+ℤ-pos}
use sorostream_contracts.Prelude.Machine.{
  i128_bound, checked_mul_i128-pos, checked_mul_i128-eq, saturating_sub_i128-pos, div_i128,
}
use native.Mathlib.Nat.{le_trans, mul-le-mul_left, div-mul-le_self}
use sorostream_contracts.Vesting.{
  compute_claimable, compute_earned, compute_total_streamed, compute_refund, compute_flow_rate,
}

-- seconds that count at `now`, since `since` and up to `end_time`
abbrev pub elapsed : ℕ → ℕ → ℕ → ℕ
elapsed now end_time since = min now end_time - since

capped : (now end_time : ℕ) → (if ltb now end_time then now else end_time) ≡ min now end_time
capped now end_time = ground arith

pub compute_earned-pos :
    (f now end_time last : ℕ)
    → f * elapsed now end_time last < i128_bound
    → compute_earned (pos f) now end_time last ≡ some (pos (f * elapsed now end_time last))
unfolding compute_earned
compute_earned-pos f now end_time last h =
    rw (capped now end_time) (checked_mul_i128-pos f (elapsed now end_time last) h)

-- An answer for a rate that is not negative is the rate times the seconds that count.
pub compute_earned-eq :
    (f now end_time last : ℕ) {r : ℤ}
    → compute_earned (pos f) now end_time last ≡ some r
    → r ≡ pos (f * elapsed now end_time last)
unfolding compute_earned
compute_earned-eq f now end_time last h =
    (checked_mul_i128-eq f (elapsed now end_time last) (rw (capped now end_time) at h)).0

pub compute_claimable-early :
    (f : ℤ) (now cliff_time end_time last : ℕ)
    → now < cliff_time
    → compute_claimable f now cliff_time end_time last ≡ some (pos 0)
unfolding compute_claimable
compute_claimable-early f now cliff_time end_time last h = rw (lt→ltb now cliff_time h)

pub compute_claimable-late :
    (f : ℤ) (now cliff_time end_time last : ℕ)
    → cliff_time ≤ now
    → compute_claimable f now cliff_time end_time last ≡ compute_earned f now end_time last
unfolding compute_claimable compute_earned
compute_claimable-late f now cliff_time end_time last h = rw (le→ltb now cliff_time h)

-- An answer is zero before the cliff, and from then on it is what is earned.
pub compute_claimable-cases :
    (f now cliff_time end_time last : ℕ) {r : ℤ}
    → compute_claimable (pos f) now cliff_time end_time last ≡ some r
    → (now < cliff_time) × (r ≡ pos 0)
      ⊎ (cliff_time ≤ now) × (r ≡ pos (f * elapsed now end_time last))
compute_claimable-cases f now cliff_time end_time last h = elim (Bool-cases (ltb now cliff_time)) [
  | inl t ↦
      let early = ltb→lt _ _ t in
      inl (early, cc (h, compute_claimable-early (pos f) now cliff_time end_time last early))
  | inr t ↦
      let late = ltb→le _ _ t in
      let e = compute_claimable-late (pos f) now cliff_time end_time last late in
      inr (late, compute_earned-eq f now end_time last (sym e ∙ h))
]

pub compute_flow_rate-eq :
    (d t : ℕ) {f : ℤ} → compute_flow_rate (pos d) t ≡ some f → (f ≡ pos (d / t)) × (0 < t)
unfolding compute_flow_rate div_i128
compute_flow_rate-eq d t h = (ground arith, ground arith)

-- The floor of the rate loses at most a remainder: no span within the duration earns more than the
-- deposit.
pub rate-le : (d t n : ℕ) → n ≤ t → d / t * n ≤ d
rate-le d t n h = le_trans (mul-le-mul_left (d / t) h) (div-mul-le_self d t)

-- For a deposit below 2^127 and the flow rate that it gives for a duration, and for a last
-- withdrawal at or after the start, compute_claimable answers at every time, and its answer is not
-- negative and at most the deposit.
pub claimable-le-deposit :
    (deposit duration start now cliff_time last : ℕ) (f : ℤ)
    → deposit < i128_bound
    → compute_flow_rate (pos deposit) duration ≡ some f
    → start ≤ last
    → (r : ℤ) × (compute_claimable f now cliff_time (start + duration) last ≡ some r)
      × (pos 0 ≤ℤ r)
      × (r ≤ℤ pos deposit)
claimable-le-deposit d t start now cliff_time last f small rate le =
    let (e, _) = compute_flow_rate-eq d t rate in
    let span : elapsed now (start + t) last ≤ t = omega arith in
    let bound : d / t * elapsed now (start + t) last ≤ d = rate-le d t _ span in
    elim (Bool-cases (ltb now cliff_time)) [
      | inl early ↦ (
        pos 0,
        compute_claimable-early f now cliff_time (start + t) last (ltb→lt _ _ early),
        omega arith,
        omega arith,
      )
      | inr late ↦ (
        pos (d / t * elapsed now (start + t) last),
        rw e (
            compute_claimable-late _ now cliff_time (start + t) last (ltb→le _ _ late)
            ∙ compute_earned-pos (d / t) now (start + t) last (omega arith)),
        omega arith,
        omega arith,
      )
    ]

-- For a flow rate that is not negative, and two times in order, if compute_claimable answers at
-- both, then the answer at the earlier time is at most the answer at the later one.
pub claimable_mono :
    (f t₁ t₂ cliff_time end_time last : ℕ) {a b : ℤ}
    → t₁ ≤ t₂
    → compute_claimable (pos f) t₁ cliff_time end_time last ≡ some a
    → compute_claimable (pos f) t₂ cliff_time end_time last ≡ some b
    → a ≤ℤ b
claimable_mono f t₁ t₂ cliff_time end_time last h p q =
    let more : elapsed t₁ end_time last ≤ elapsed t₂ end_time last = omega arith in
    ground (
      arith,
      compute_claimable-cases f t₁ cliff_time end_time last p,
      compute_claimable-cases f t₂ cliff_time end_time last q,
      mul-le-mul_left f more,
    )

-- For a flow rate that is not negative, and a span from the last withdrawal that is split at a
-- time in between, if compute_earned answers for both parts and for the whole, then the answers
-- for the parts add up to the answer for the whole.
pub earned_split :
    (f t₁ t₂ end_time last : ℕ) {a b c : ℤ}
    → last ≤ t₁
    → t₁ ≤ t₂
    → compute_earned (pos f) t₁ end_time last ≡ some a
    → compute_earned (pos f) t₂ end_time (min t₁ end_time) ≡ some b
    → compute_earned (pos f) t₂ end_time last ≡ some c
    → a +ℤ b ≡ c
earned_split f t₁ t₂ end_time last h k p q r =
    let x = elapsed t₁ end_time last in
    let y = elapsed t₂ end_time (min t₁ end_time) in
    let sum : x + y ≡ elapsed t₂ end_time last = omega arith in
    let e = compute_earned-eq f t₁ end_time last p in
    let e' = compute_earned-eq f t₂ end_time (min t₁ end_time) q in
    rw (e, e', compute_earned-eq f t₂ end_time last r, ← sum, pos-+ℤ-pos) (ap pos (omega arith))

compute_total_streamed-pos :
    (f now end_time start : ℕ)
    → f * elapsed now end_time start < i128_bound
    → compute_total_streamed (pos f) now end_time start
      ≡ some (pos (f * elapsed now end_time start))
unfolding compute_total_streamed
compute_total_streamed-pos f now end_time start h =
    rw (capped now end_time) (checked_mul_i128-pos f (elapsed now end_time start) h)

pub compute_refund-pos :
    (d f now end_time start : ℕ)
    → f * elapsed now end_time start ≤ d
    → d < i128_bound
    → compute_refund (pos d) (pos f) now end_time start
      ≡ some (pos (d - f * elapsed now end_time start))
unfolding compute_refund
compute_refund-pos d f now end_time start h small =
    let e = compute_total_streamed-pos f now end_time start (omega arith) in
    rw (e, compute_refund) (ap some (saturating_sub_i128-pos d _ h small))

-- For a deposit below 2^127 and the flow rate that it gives for a duration, compute_total_streamed
-- and compute_refund answer at every time with numbers that are not negative and add up to the
-- deposit.
pub refund-conserves :
    (deposit duration start now : ℕ) (f : ℤ)
    → deposit < i128_bound
    → compute_flow_rate (pos deposit) duration ≡ some f
    → (s r : ℕ) × (compute_total_streamed f now (start + duration) start ≡ some (pos s))
      × (compute_refund (pos deposit) f now (start + duration) start ≡ some (pos r))
      × (s + r ≡ deposit)
refund-conserves d t start now f small rate =
    let (e, _) = compute_flow_rate-eq d t rate in
    let n = elapsed now (start + t) start in
    let bound : d / t * n ≤ d = rate-le d t n (omega arith) in
    (
      d / t * n,
      d - d / t * n,
      rw e (compute_total_streamed-pos (d / t) now (start + t) start (omega arith)),
      rw e (compute_refund-pos d (d / t) now (start + t) start bound small),
      omega arith,
    )
