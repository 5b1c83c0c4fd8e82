-- ===== src/Tests/Arithmetic.antt =====
-- The theorems on the arithmetic against its references and harnesses, and on the audit log, at concrete
-- inputs.
use sorostream_contracts.Prelude.{◌+◌, ◌-◌, ◌≡◌, refl, true, some, [], ◌∷◌, drop, length, arith}
use sorostream_contracts.Prelude.Int.{pos}
use sorostream_contracts.Prelude.Machine.{div_i128}
use sorostream_contracts.Types.{AuditEntry}
use sorostream_contracts.Vesting.{
  compute_flow_rate, compute_earned, compute_claimable, compute_refund,
}
use sorostream_contracts.Vesting.Reference.{
  sdk_compute_earned, sdk_compute_claimable, sdk_compute_refund, compute_earned-eq-sdk,
  compute_claimable-eq-sdk, compute_refund-eq-sdk,
}
use sorostream_contracts.Vesting.Harness.{
  verify_claimable_leq_deposit, verify_claimable_leq_deposit_after_withdrawal,
  verify_claimable_monotonic, verify_claimable_zero_before_cliff,
  verify_cancel_balance_conservation, verify_earned_non_negative, verify_refund_non_negative,
}
use sorostream_contracts.Vesting.Harness.Passes.{harnesses_pass}
use sorostream_contracts.Storage.Audit.{read_entries}
use sorostream_contracts.Storage.Audit.History.{append_all, read_entries-append_all}
use sorostream_contracts.Tests.Data.{no_settings}

rate_for_an_hour : compute_flow_rate (pos 7200) 3600 ≡ some (pos 2)
unfolding compute_flow_rate div_i128
rate_for_an_hour = refl

compute_earned-eq-sdk_example :
    compute_earned (pos 2) 2000 4600 1000 ≡ sdk_compute_earned (pos 7200) 3600 2000 4600 1000
compute_earned-eq-sdk_example =
    compute_earned-eq-sdk (pos 7200) (pos 2) 3600 2000 4600 1000 rate_for_an_hour

compute_claimable-eq-sdk_example :
    compute_claimable (pos 2) 2000 1060 4600 1000
    ≡ sdk_compute_claimable (pos 7200) 3600 2000 1060 4600 1000
compute_claimable-eq-sdk_example =
    compute_claimable-eq-sdk (pos 7200) (pos 2) 3600 2000 1060 4600 1000 rate_for_an_hour

compute_refund-eq-sdk_example :
    compute_refund (pos 7200) (pos 2) 2000 (1000 + 3600) 1000
    ≡ sdk_compute_refund (pos 7200) 3600 2000 (1000 + 3600) 1000
compute_refund-eq-sdk_example =
    compute_refund-eq-sdk 7200 3600 1000 2000 (pos 2) (omega arith) rate_for_an_hour

harnesses_pass_example :
    (verify_claimable_leq_deposit (pos 7200) 3600 1000 1500 2000 ≡ true)
    × (verify_claimable_leq_deposit_after_withdrawal (pos 7200) 3600 1000 1500 2000 ≡ true)
    × (verify_claimable_monotonic (pos 7200) 3600 1000 1500 2000 4600 ≡ true)
    × (verify_claimable_zero_before_cliff (pos 7200) 3600 1000 1500 2000 ≡ true)
    × (verify_cancel_balance_conservation (pos 7200) 3600 1000 1500 ≡ true)
    × (verify_earned_non_negative (pos 7200) 3600 1000 1500 ≡ true)
    × (verify_refund_non_negative (pos 7200) 3600 1000 1500 ≡ true)
harnesses_pass_example = harnesses_pass (pos 7200) 3600 1000 1500 2000 4600

abbrev paused_entry : AuditEntry
paused_entry = record { instruction = "emergency_pause"; admin = 1; timestamp = 1000; params = "" }

abbrev resumed_entry : AuditEntry
resumed_entry = record {
  instruction = "emergency_resume";
  admin = 1;
  timestamp = 2000;
  params = "";
}

read_entries-append_all_example :
    read_entries (append_all (paused_entry ∷ resumed_entry ∷ []) no_settings)
    ≡ drop (length (paused_entry ∷ resumed_entry ∷ []) - 20) (paused_entry ∷ resumed_entry ∷ [])
read_entries-append_all_example =
    read_entries-append_all (paused_entry ∷ resumed_entry ∷ []) no_settings refl refl
