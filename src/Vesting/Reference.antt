-- ===== src/Vesting/Reference.antt =====
-- contracts/stream/src/differential_fuzz.rs: the independent reference functions of the differential
-- tests, and the arithmetic of vesting_math.rs against them. `none` is a trap.
use sorostream_contracts.Prelude.{
  ℕ, zero, suc, ◌+◌, ◌-◌, ◌*◌, ◌/◌, ◌≤◌, ◌<◌, ◌≡◌, refl, ap, sym, ◌∙◌, Bool, true, Option, none,
  some, ltb, leb, ◌==◌, min, if◌then◌else◌, arith, Bool-cases, inl, inr,
}
use sorostream_contracts.Prelude.Int.{ℤ, pos, negsuc, pos_part, neg_part, ltb_ℤ, ◌*ℤ◌, pos-*ℤ-pos}
use sorostream_contracts.Prelude.Machine.{
  i128_bound, checked_sub_i128-pos, checked_mul_i128-pos, checked_mul_i128, checked_sub_i128,
  div_i128,
}
use sorostream_contracts.Vesting.{
  compute_flow_rate, compute_earned, compute_claimable, compute_refund,
}
use sorostream_contracts.Vesting.Bounds.{elapsed, rate-le, compute_flow_rate-eq, compute_refund-pos}

-- `rate == 0`
abbrev is_zero : ℤ → Bool
is_zero a = pos_part a + neg_part a == 0

-- `rate * secs` of a known rate, which is no multiplication when the rate or the span is empty.
unfoldable pub streamed : ℤ → ℕ → ℕ → Option ℤ
streamed rate capped last_withdraw_time =
    if is_zero rate
    then some (pos 0)
    else if leb capped last_withdraw_time
    then some (pos 0)
    else checked_mul_i128 rate (pos (capped - last_withdraw_time))

unfoldable pub sdk_compute_claimable : ℤ → ℕ → ℕ → ℕ → ℕ → ℕ → Option ℤ
sdk_compute_claimable deposit duration_secs now cliff_time end_time last_withdraw_time =
    if ltb now cliff_time then some (pos 0) else elim (div_i128 deposit (pos duration_secs)) [
      | none ↦ none
      | some rate ↦ streamed rate (min now end_time) last_withdraw_time
    ]

unfoldable pub sdk_compute_earned : ℤ → ℕ → ℕ → ℕ → ℕ → Option ℤ
sdk_compute_earned deposit duration_secs now end_time last_withdraw_time =
    elim (div_i128 deposit (pos duration_secs)) [
      | none ↦ none
      | some rate ↦ streamed rate (if ltb end_time now then end_time else now) last_withdraw_time
    ]

-- the last test of the refund
abbrev rest_of : ℤ → Option ℤ → Option ℤ
rest_of deposit none = none
rest_of deposit (some total_streamed) =
    if ltb_ℤ total_streamed deposit then checked_sub_i128 deposit total_streamed else some (pos 0)

unfoldable pub sdk_compute_refund : ℤ → ℕ → ℕ → ℕ → ℕ → Option ℤ
sdk_compute_refund deposit duration_secs now end_time start_time =
    elim (div_i128 deposit (pos duration_secs)) [
      | none ↦ none
      | some rate ↦
          if is_zero rate
          then some deposit
          else let capped = if ltb end_time now then end_time else now in
            let streamed_secs = if ltb start_time capped then capped - start_time else 0 in
            rest_of deposit (checked_mul_i128 rate (pos streamed_secs))
    ]

mul-zero : (f : ℤ) → checked_mul_i128 f (pos 0) ≡ some (pos 0)
unfolding checked_mul_i128 ◌*ℤ◌
mul-zero (pos f) = ground arith
mul-zero (negsuc f) = ground arith

is_zero_eq : (f : ℤ) → is_zero f ≡ true → f ≡ pos 0
is_zero_eq (pos f) h = ground arith
is_zero_eq (negsuc f) h = absurd (ground arith)

zero-mul : (n : ℕ) → checked_mul_i128 (pos 0) (pos n) ≡ some (pos 0)
unfolding checked_mul_i128
zero-mul n = rw pos-*ℤ-pos (ground arith)

streamed-eq :
    (f : ℤ) (capped last : ℕ) → checked_mul_i128 f (pos (capped - last)) ≡ streamed f capped last
unfolding streamed
streamed-eq f capped last = elim (Bool-cases (is_zero f)) [
  | inl z ↦ rw z (rw (is_zero_eq f z) (zero-mul (capped - last)))
  | inr nz ↦ rw nz (elim (Bool-cases (leb capped last)) [
    | inl empty ↦
        let none_left : capped - last ≡ 0 = ground arith in rw (empty, none_left) (mul-zero f)
    | inr some_left ↦ rw some_left refl
  ])
]

capped_eq : (now end_time : ℕ) → (if ltb now end_time then now else end_time) ≡ min now end_time
capped_eq now end_time = ground arith

capped_eq' :
    (now end_time : ℕ)
    → (if ltb now end_time then now else end_time) ≡ (if ltb end_time now then end_time else now)
capped_eq' now end_time = ground arith

-- For a deposit and a duration that give a flow rate, compute_earned with that rate and the
-- independent reference of the differential tests give the same answer or both overflow.
pub compute_earned-eq-sdk :
    (deposit f : ℤ) (duration now end_time last : ℕ)
    → compute_flow_rate deposit duration ≡ some f
    → compute_earned f now end_time last ≡ sdk_compute_earned deposit duration now end_time last
unfolding compute_earned sdk_compute_earned compute_flow_rate
compute_earned-eq-sdk deposit f duration now end_time last e =
    let e' : div_i128 deposit (pos duration) ≡ some f = e in
    rw (e', sdk_compute_earned, capped_eq' now end_time)
      (streamed-eq f (if ltb end_time now then end_time else now) last)

-- For a deposit and a duration that give a flow rate, compute_claimable with that rate and the
-- independent reference of the differential tests give the same answer or both overflow.
pub compute_claimable-eq-sdk :
    (deposit f : ℤ) (duration now cliff_time end_time last : ℕ)
    → compute_flow_rate deposit duration ≡ some f
    → compute_claimable f now cliff_time end_time last
      ≡ sdk_compute_claimable deposit duration now cliff_time end_time last
unfolding compute_claimable sdk_compute_claimable compute_flow_rate
compute_claimable-eq-sdk deposit f duration now cliff_time end_time last e =
    let e' : div_i128 deposit (pos duration) ≡ some f = e in
    rw (e', capped_eq now end_time)
      (ap (λ x. if ltb now cliff_time then some (pos 0) else x)
        (streamed-eq f (min now end_time) last))

sdk_refund-eq :
    (d f n : ℕ)
    → d < i128_bound
    → f * n ≤ d
    → (if is_zero (pos f) then some (pos d) else rest_of (pos d) (checked_mul_i128 (pos f) (pos n)))
      ≡ some (pos (d - f * n))
sdk_refund-eq d zero n small le = ground arith
sdk_refund-eq d (suc f) n small le =
    rw (checked_mul_i128-pos (suc f) n (omega arith))
      (ground (arith, checked_sub_i128-pos d (suc f * n) le small))

sdk_capped :
    (start now end_time : ℕ)
    → (let capped = if ltb end_time now then end_time else now in
        if ltb start capped then capped - start else 0)
      ≡ elapsed now end_time start
sdk_capped start now end_time = ground arith

-- For a deposit below 2^127 and a duration that give a flow rate, compute_refund with that rate
-- and the independent reference of the differential tests give the same answer at every time, for
-- the end that the duration sets.
pub compute_refund-eq-sdk :
    (d duration start now : ℕ) (f : ℤ)
    → d < i128_bound
    → compute_flow_rate (pos d) duration ≡ some f
    → compute_refund (pos d) f now (start + duration) start
      ≡ sdk_compute_refund (pos d) duration now (start + duration) start
unfolding sdk_compute_refund compute_flow_rate
compute_refund-eq-sdk d duration start now f small e =
    let e' : div_i128 (pos d) (pos duration) ≡ some f = e in
    let (rate, _) = compute_flow_rate-eq d duration e in
    let bound : d / duration * elapsed now (start + duration) start ≤ d =
      rate-le d duration _ (omega arith) in
    rw (e', sdk_compute_refund, rate, sdk_capped start now (start + duration))
      (compute_refund-pos d (d / duration) now (start + duration) start bound small
        ∙ sym (sdk_refund-eq d (d / duration) _ small bound))
