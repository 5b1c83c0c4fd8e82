-- ===== src/Vesting/Harness/Passes.antt =====
-- contracts/stream/src/vesting_math.rs, the module `proofs`: the harnesses on all inputs.
use sorostream_contracts.Prelude.{
  ℕ, ◌+◌, ◌*◌, ◌/◌, ◌≤◌, ◌<◌, ◌≡◌, refl, ◌∙◌, Bool, true, false, ◌&&◌, Option, some, ltb, arith,
  Bool-cases, inl, inr, ltb→lt, ltb→le, leb→le,
}
use sorostream_contracts.Prelude.Int.{ℤ, pos, negsuc, ltb_ℤ, leb_ℤ}
use sorostream_contracts.Prelude.Machine.{u64_max, checked_add_u64, checked_add_i128-pos, div_i128}
use native.Mathlib.Nat.{mul-le-mul}
use sorostream_contracts.Vesting.{compute_flow_rate, compute_claimable}
use sorostream_contracts.Vesting.Bounds.{
  elapsed, compute_earned-pos, compute_claimable-early, compute_claimable-late,
  claimable-le-deposit, refund-conserves, claimable_mono,
}
use sorostream_contracts.Vesting.Harness.{
  assume, unwrap, deposit_ok, duration_ok, verify_claimable_leq_deposit,
  verify_claimable_leq_deposit_after_withdrawal, verify_claimable_monotonic,
  verify_claimable_zero_before_cliff, verify_cancel_balance_conservation,
  verify_earned_non_negative, verify_refund_non_negative,
}

Passes_if : (b : Bool) {rest : Bool} → (b ≡ true → rest ≡ true) → assume b rest ≡ true
unfolding assume
Passes_if true h = h refl
Passes_if false h = refl

Passes_unwrap :
    {A : Type 0} {o : Option A} (rest : A → Bool) (a : A)
    → o ≡ some a
    → rest a ≡ true
    → unwrap o rest ≡ true
unfolding unwrap
Passes_unwrap rest a e h = rw e h

-- What the assumption on a deposit says.
deposit_number :
    (deposit : ℤ) → deposit_ok deposit ≡ true → (d : ℕ) × (deposit ≡ pos d) × (d ≤ 1000000000000)
deposit_number (pos d) h = (d, refl, ground arith)
deposit_number (negsuc d) h = absurd (ground arith)

rate_number :
    (f : ℤ)
    → ltb_ℤ (pos 0) f && leb_ℤ f (pos 1000000000) ≡ true
    → (n : ℕ) × (f ≡ pos n) × (n ≤ 1000000000)
rate_number (pos d) h = (d, refl, ground arith)
rate_number (negsuc d) h = absurd (ground arith)

fits_u64 : (a b : ℕ) → a + b ≤ u64_max → checked_add_u64 a b ≡ some (a + b)
fits_u64 a b h = ground arith

flow_rate_exists : (d t : ℕ) → 0 < t → compute_flow_rate (pos d) t ≡ some (pos (d / t))
unfolding compute_flow_rate div_i128
flow_rate_exists d t h = ground arith

leq_deposit_passes :
    (deposit : ℤ) (duration start cliff now : ℕ)
    → verify_claimable_leq_deposit deposit duration start cliff now ≡ true
unfolding verify_claimable_leq_deposit
leq_deposit_passes deposit duration start cliff now = Passes_if (deposit_ok deposit) λ deposit_in.
    Passes_if (duration_ok duration) λ duration_in. Passes_if _ λ start_in. Passes_if _ λ cliff_in.
      Passes_if _ λ now_in.
        let (d, is_pos, d_in) = deposit_number deposit deposit_in in
        let rate = flow_rate_exists d duration (ground arith) in
        rw is_pos (
          Passes_unwrap _ _ rate (
            Passes_if _ λ rate_in. Passes_unwrap _ _ (fits_u64 start duration (ground arith)) (
              Passes_unwrap _ _ (fits_u64 start cliff (ground arith)) (
                let (c, due, positive, le) =
                  claimable-le-deposit d duration start now (start + cliff) start _ (omega arith)
                    rate (omega arith) in
                Passes_unwrap _ c due (ground arith)))))

after_withdrawal_passes :
    (deposit : ℤ) (duration start last now : ℕ)
    → verify_claimable_leq_deposit_after_withdrawal deposit duration start last now ≡ true
unfolding verify_claimable_leq_deposit_after_withdrawal
after_withdrawal_passes deposit duration start last now =
    Passes_if (deposit_ok deposit) λ deposit_in. Passes_if (duration_ok duration) λ duration_in.
      Passes_if _ λ start_in. Passes_if _ λ last_in. Passes_if _ λ now_in.
        let (d, is_pos, d_in) = deposit_number deposit deposit_in in
        let rate = flow_rate_exists d duration (ground arith) in
        rw is_pos (
          Passes_unwrap _ _ (fits_u64 start duration (ground arith)) (
            Passes_if _ λ span_in. Passes_unwrap _ _ rate (
              Passes_if _ λ rate_in.
                let (c, due, positive, le) =
                  claimable-le-deposit d duration start now start last _ (omega arith) rate
                    (ground arith) in
                Passes_unwrap _ c due (ground arith))))

-- An answer of `compute_claimable` for a small rate.
claimable_exists :
    (f t cliff end_time last : ℕ)
    → f ≤ 1000000000
    → end_time ≤ u64_max / 2
    → (n : ℕ) × (compute_claimable (pos f) t cliff end_time last ≡ some (pos n))
claimable_exists f t cliff end_time last f_in end_in =
    let span : elapsed t end_time last ≤ u64_max / 2 = omega arith in
    let cost = mul-le-mul f_in span in
    elim (Bool-cases (ltb t cliff)) [
      | inl early ↦ (0, compute_claimable-early (pos f) t cliff end_time last (ltb→lt _ _ early))
      | inr late ↦ (
        f * elapsed t end_time last,
        compute_claimable-late (pos f) t cliff end_time last (ltb→le _ _ late)
            ∙ compute_earned-pos f t end_time last (omega arith),
      )
    ]

monotonic_passes :
    (f : ℤ) (t₁ t₂ cliff end_time last : ℕ)
    → verify_claimable_monotonic f t₁ t₂ cliff end_time last ≡ true
unfolding verify_claimable_monotonic
monotonic_passes f t₁ t₂ cliff end_time last =
    Passes_if (ltb_ℤ (pos 0) f && leb_ℤ f (pos 1000000000)) λ rate_in. Passes_if _ λ in_order.
      Passes_if _ λ end_in. Passes_if _ λ last_in.
        let (n, is_pos, n_in) = rate_number f rate_in in
        let (a, p) = claimable_exists n t₁ cliff end_time last n_in (leb→le _ _ end_in) in
        let (b, q) = claimable_exists n t₂ cliff end_time last n_in (leb→le _ _ end_in) in
        let mono = claimable_mono n t₁ t₂ cliff end_time last (leb→le _ _ in_order) p q in
        rw is_pos (Passes_unwrap _ _ p (Passes_unwrap _ _ q (ground arith)))

zero_before_cliff_passes :
    (f : ℤ) (now cliff end_time last : ℕ)
    → verify_claimable_zero_before_cliff f now cliff end_time last ≡ true
unfolding verify_claimable_zero_before_cliff
zero_before_cliff_passes f now cliff end_time last = Passes_if _ λ rate_in. Passes_if _ λ early.
    Passes_unwrap _ _ (compute_claimable-early f now cliff end_time last (ltb→lt _ _ early))
      (ground arith)

conservation_passes :
    (deposit : ℤ) (duration start now : ℕ)
    → verify_cancel_balance_conservation deposit duration start now ≡ true
unfolding verify_cancel_balance_conservation
conservation_passes deposit duration start now = Passes_if (deposit_ok deposit) λ deposit_in.
    Passes_if (duration_ok duration) λ duration_in. Passes_if _ λ start_in. Passes_if _ λ now_in.
      let (d, is_pos, d_in) = deposit_number deposit deposit_in in
      let rate = flow_rate_exists d duration (ground arith) in
      rw is_pos (
        Passes_unwrap _ _ (fits_u64 start duration (ground arith)) (
          Passes_unwrap _ _ rate (
            Passes_if _ λ rate_in.
              let (s, r, streamed, refund, total) =
                refund-conserves d duration start now _ (omega arith) rate in
              Passes_unwrap _ _ streamed (
                Passes_unwrap _ _ refund
                  (Passes_unwrap _ _ (checked_add_i128-pos s r (omega arith)) (ground arith))))))

earned_passes :
    (f : ℤ) (now end_time last : ℕ) → verify_earned_non_negative f now end_time last ≡ true
unfolding verify_earned_non_negative
earned_passes f now end_time last =
    Passes_if (ltb_ℤ (pos 0) f && leb_ℤ f (pos 1000000000)) λ rate_in. Passes_if _ λ end_in.
      let (n, is_pos, n_in) = rate_number f rate_in in
      let span : elapsed now end_time last ≤ u64_max / 2 = ground arith in
      let cost = mul-le-mul n_in span in
      rw is_pos
        (Passes_unwrap _ _ (compute_earned-pos n now end_time last (omega arith)) (ground arith))

refund_passes :
    (deposit : ℤ) (duration start now : ℕ)
    → verify_refund_non_negative deposit duration start now ≡ true
unfolding verify_refund_non_negative
refund_passes deposit duration start now = Passes_if (deposit_ok deposit) λ deposit_in.
    Passes_if (duration_ok duration) λ duration_in. Passes_if _ λ start_in. Passes_if _ λ now_in.
      let (d, is_pos, d_in) = deposit_number deposit deposit_in in
      let rate = flow_rate_exists d duration (ground arith) in
      rw is_pos (
        Passes_unwrap _ _ (fits_u64 start duration (ground arith)) (
          Passes_unwrap _ _ rate (
            Passes_if _ λ rate_in.
              let (s, r, streamed, refund, total) =
                refund-conserves d duration start now _ (omega arith) rate in
              Passes_unwrap _ _ refund (ground arith))))

-- The seven proof harnesses of vesting_math.rs pass on all inputs: no trap, and no assertion that
-- fails, where the assumptions hold.
pub harnesses_pass :
    (amount : ℤ) (a b c d e : ℕ)
    → (verify_claimable_leq_deposit amount a b c d ≡ true)
      × (verify_claimable_leq_deposit_after_withdrawal amount a b c d ≡ true)
      × (verify_claimable_monotonic amount a b c d e ≡ true)
      × (verify_claimable_zero_before_cliff amount a b c d ≡ true)
      × (verify_cancel_balance_conservation amount a b c ≡ true)
      × (verify_earned_non_negative amount a b c ≡ true)
      × (verify_refund_non_negative amount a b c ≡ true)
harnesses_pass amount a b c d e = (
  leq_deposit_passes amount a b c d,
  after_withdrawal_passes amount a b c d,
  monotonic_passes amount a b c d e,
  zero_before_cliff_passes amount a b c d,
  conservation_passes amount a b c,
  earned_passes amount a b c,
  refund_passes amount a b c,
)
