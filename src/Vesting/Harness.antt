-- ===== src/Vesting/Harness.antt =====
-- contracts/stream/src/vesting_math.rs, the module `proofs`: the proof harnesses of the model checker,
-- as tests of their inputs. An input that an assumption excludes passes; a trap and a false assertion
-- fail.
pub mod Passes
use sorostream_contracts.Prelude.{
  ℕ, ◌+◌, ◌-◌, ◌*◌, ◌/◌, ◌^◌, ◌≤◌, ◌<◌, ◌≡◌, refl, ap, sym, ◌∙◌, Bool, true, false, ◌&&◌, Option,
  none, some, ltb, leb, ◌==◌, if◌then◌else◌, arith, Bool-cases, inl, inr,
}
use sorostream_contracts.Prelude.Int.{ℤ, pos, negsuc, pos_part, neg_part, ltb_ℤ, leb_ℤ, ◌*ℤ◌, ◌+ℤ◌}
use sorostream_contracts.Prelude.Machine.{u64_max, checked_add_u64, checked_add_i128}
use sorostream_contracts.Vesting.{
  compute_flow_rate, compute_earned, compute_claimable, compute_refund, compute_total_streamed,
}

unfoldable pub assume : Bool → Bool → Bool
assume b rest = if b then rest else true

unfoldable pub unwrap {ℓ} : {A : Type ℓ} → Option A → (A → Bool) → Bool
unwrap none rest = false
unwrap (some a) rest = rest a

-- `==` on `i128`
abbrev pub equal_ℤ : ℤ → ℤ → Bool
equal_ℤ a b = leb_ℤ a b && leb_ℤ b a

abbrev pub deposit_ok : ℤ → Bool
deposit_ok deposit = ltb_ℤ (pos 0) deposit && leb_ℤ deposit (pos 1000000000000)

abbrev pub duration_ok : ℕ → Bool
duration_ok duration = ltb 0 duration && leb duration 315360000

unfoldable pub verify_claimable_leq_deposit : ℤ → ℕ → ℕ → ℕ → ℕ → Bool
verify_claimable_leq_deposit deposit duration start_time cliff_seconds now =
    assume (deposit_ok deposit) (
      assume (duration_ok duration) (
        assume (leb start_time (u64_max / 2)) (
          assume (ltb cliff_seconds duration) (
            assume (leb start_time now) (
              unwrap (compute_flow_rate deposit duration) λ flow_rate.
                assume (ltb_ℤ (pos 0) flow_rate) (
                  unwrap (checked_add_u64 start_time duration) λ end_time.
                    unwrap (checked_add_u64 start_time cliff_seconds) λ cliff_time.
                      unwrap (compute_claimable flow_rate now cliff_time end_time start_time)
                        λ claimable. leb_ℤ claimable deposit))))))

unfoldable pub verify_claimable_leq_deposit_after_withdrawal : ℤ → ℕ → ℕ → ℕ → ℕ → Bool
verify_claimable_leq_deposit_after_withdrawal deposit duration start_time last_withdraw_time now =
    assume (deposit_ok deposit) (
      assume (duration_ok duration) (
        assume (leb start_time (u64_max / 4)) (
          assume (leb start_time last_withdraw_time) (
            assume (leb last_withdraw_time now) (
              unwrap (checked_add_u64 start_time duration) λ end_time.
                assume (leb last_withdraw_time end_time) (
                  unwrap (compute_flow_rate deposit duration) λ flow_rate.
                    assume (ltb_ℤ (pos 0) flow_rate) (
                      unwrap
                        (compute_claimable flow_rate now start_time end_time last_withdraw_time)
                        λ claimable. leb_ℤ claimable deposit)))))))

unfoldable pub verify_claimable_monotonic : ℤ → ℕ → ℕ → ℕ → ℕ → ℕ → Bool
verify_claimable_monotonic flow_rate t1 t2 cliff_time end_time last_withdraw_time =
    assume (ltb_ℤ (pos 0) flow_rate && leb_ℤ flow_rate (pos 1000000000)) (
      assume (leb t1 t2) (
        assume (leb end_time (u64_max / 2)) (
          assume (leb last_withdraw_time end_time) (
            unwrap (compute_claimable flow_rate t1 cliff_time end_time last_withdraw_time) λ c1.
              unwrap (compute_claimable flow_rate t2 cliff_time end_time last_withdraw_time)
                λ c2. leb_ℤ c1 c2))))

unfoldable pub verify_claimable_zero_before_cliff : ℤ → ℕ → ℕ → ℕ → ℕ → Bool
verify_claimable_zero_before_cliff flow_rate now cliff_time end_time last_withdraw_time =
    assume (ltb_ℤ (pos 0) flow_rate) (
      assume (ltb now cliff_time) (
        unwrap (compute_claimable flow_rate now cliff_time end_time last_withdraw_time)
          λ claimable. equal_ℤ claimable (pos 0)))

unfoldable pub verify_cancel_balance_conservation : ℤ → ℕ → ℕ → ℕ → Bool
verify_cancel_balance_conservation deposit duration start_time now = assume (deposit_ok deposit) (
    assume (duration_ok duration) (
      assume (leb start_time (u64_max / 4)) (
        assume (leb start_time now) (
          unwrap (checked_add_u64 start_time duration) λ end_time.
            unwrap (compute_flow_rate deposit duration) λ flow_rate.
              assume (ltb_ℤ (pos 0) flow_rate) (
                unwrap (compute_total_streamed flow_rate now end_time start_time) λ total_streamed.
                  unwrap (compute_refund deposit flow_rate now end_time start_time) λ refund.
                    unwrap (checked_add_i128 total_streamed refund)
                      λ total. equal_ℤ total deposit)))))

unfoldable pub verify_earned_non_negative : ℤ → ℕ → ℕ → ℕ → Bool
verify_earned_non_negative flow_rate now end_time last_withdraw_time =
    assume (ltb_ℤ (pos 0) flow_rate && leb_ℤ flow_rate (pos 1000000000)) (
      assume (leb end_time (u64_max / 2)) (
        unwrap (compute_earned flow_rate now end_time last_withdraw_time)
          λ earned. leb_ℤ (pos 0) earned))

unfoldable pub verify_refund_non_negative : ℤ → ℕ → ℕ → ℕ → Bool
verify_refund_non_negative deposit duration start_time now = assume (deposit_ok deposit) (
    assume (duration_ok duration) (
      assume (leb start_time (u64_max / 4)) (
        assume (leb start_time now) (
          unwrap (checked_add_u64 start_time duration) λ end_time.
            unwrap (compute_flow_rate deposit duration) λ flow_rate.
              assume (ltb_ℤ (pos 0) flow_rate) (
                unwrap (compute_refund deposit flow_rate now end_time start_time)
                  λ refund. leb_ℤ (pos 0) refund)))))
