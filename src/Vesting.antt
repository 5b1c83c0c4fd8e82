-- ===== src/Vesting.antt =====
-- contracts/stream/src/vesting_math.rs: the arithmetic of vesting. `none` is an overflow of `i128`.
-- A `u64` is below 2^64, so the cast `as i128` keeps its value.
pub mod Bounds
pub mod Reference
pub mod Harness
use sorostream_contracts.Prelude.{ℕ, Bool, Option, none, some, ltb, if◌then◌else◌}
use sorostream_contracts.Prelude.Int.{ℤ, pos}
use sorostream_contracts.Prelude.Machine.{
  saturating_sub_u64, saturating_sub_i128, checked_mul_i128, div_i128,
}

unfoldable pub compute_earned : ℤ → ℕ → ℕ → ℕ → Option ℤ
compute_earned flow_rate now end_time last_withdraw_time =
    let effective_now = if ltb now end_time then now else end_time in
    let elapsed = saturating_sub_u64 effective_now last_withdraw_time in
    checked_mul_i128 flow_rate (pos elapsed)

unfoldable pub compute_claimable : ℤ → ℕ → ℕ → ℕ → ℕ → Option ℤ
compute_claimable flow_rate now cliff_time end_time last_withdraw_time =
    if ltb now cliff_time
    then some (pos 0)
    else let effective_now = if ltb now end_time then now else end_time in
      let elapsed = saturating_sub_u64 effective_now last_withdraw_time in
      checked_mul_i128 flow_rate (pos elapsed)

unfoldable pub compute_total_streamed : ℤ → ℕ → ℕ → ℕ → Option ℤ
compute_total_streamed flow_rate now end_time start_time =
    let effective_now = if ltb now end_time then now else end_time in
    checked_mul_i128 flow_rate (pos (saturating_sub_u64 effective_now start_time))

unfoldable pub compute_refund : ℤ → ℤ → ℕ → ℕ → ℕ → Option ℤ
compute_refund deposit flow_rate now end_time start_time =
    elim (compute_total_streamed flow_rate now end_time start_time) [
      | none ↦ none
      | some total_streamed ↦ some (saturating_sub_i128 deposit total_streamed)
    ]

-- `none` is the trap on a division by zero
unfoldable pub compute_flow_rate : ℤ → ℕ → Option ℤ
unfolding div_i128
compute_flow_rate deposit duration_seconds = div_i128 deposit (pos duration_seconds)
