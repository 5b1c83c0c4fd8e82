-- ===== src/Tests/Parts.antt =====
-- The theorems on the parts outside the entry points at concrete inputs.
use sorostream_contracts.Prelude.{
  ℕ, ◌≡◌, ◌≤◌, ◌+◌, refl, Bool, true, false, none, some, [], ◌∷◌, ◌++◌, arith, update,
}
use sorostream_contracts.Prelude.Int.{ℤ, pos, ◌≤ℤ◌}
use sorostream_contracts.Prelude.Machine.{div_i128}
use sorostream_contracts.Types.{Address, Bytes}
use sorostream_contracts.Call.{ok, panic}
use sorostream_contracts.Call.Rules.{Ensures}
use sorostream_contracts.Env.{Slots}
use sorostream_contracts.Storage.Index.{append_id, remove_id, get_ids, get_count}
use sorostream_contracts.Storage.Index.View.{IsIndex}
use sorostream_contracts.Storage.Index.Refines.{
  appended, SameElsewhere, append_id-IsIndex, remove_id-IsIndex, remove_id-get_ids,
}
use sorostream_contracts.Vesting.{
  compute_flow_rate, compute_claimable, compute_total_streamed, compute_refund,
}
use sorostream_contracts.Vesting.Bounds.{claimable-le-deposit, refund-conserves}
use sorostream_contracts.Treasury.Withdrawals.{Takes, withdraw_treasury-Takes}
use sorostream_contracts.Treasury.{
  Treasury, withdraw_treasury, distribute, get_balance, read_treasury_split_bps,
}
use sorostream_contracts.Treasury.Conserves.{Shares, distribute-Shares}
use sorostream_contracts.Proxy
use sorostream_contracts.Proxy.{
  Proxy, Host, ProxyEvent, upgrade, upgrade_proxy, set_admin, migrate, storage_version_mismatch,
}
use sorostream_contracts.Proxy.Upgrades.{upgrade-checked, guarded, upgraded}
use sorostream_contracts.Tests.Data.{host_at}
use Prim.Native.String.{String}
use mathlib.Core.List.{Perm}

rate_of_7200 : compute_flow_rate (pos 7200) 3600 ≡ some (pos 2)
unfolding compute_flow_rate div_i128
rate_of_7200 = refl

claimable-le-deposit_example :
    (r : ℤ) × (compute_claimable (pos 2) 9000 1060 (1000 + 3600) 1000 ≡ some r)
    × (pos 0 ≤ℤ r)
    × (r ≤ℤ pos 7200)
claimable-le-deposit_example =
    claimable-le-deposit 7200 3600 1000 9000 1060 1000 (pos 2) (omega arith) rate_of_7200
      (omega arith)

refund-conserves_example :
    (s : ℕ) × (r : ℕ) × (compute_total_streamed (pos 2) 2000 (1000 + 3600) 1000 ≡ some (pos s))
    × (compute_refund (pos 7200) (pos 2) 2000 (1000 + 3600) 1000 ≡ some (pos r))
    × (s + r ≡ 7200)
refund-conserves_example = refund-conserves 7200 3600 1000 2000 (pos 2) (omega arith) rate_of_7200

-- The list 11, 12, 13 of the address 1.
abbrev three_ids : Slots
three_ids = record {
  count = update (λ a. none) 1 (some 3);
  slot =
      update (λ a i. none) 1
        (update (update (update (λ i. none) 0 (some 11)) 1 (some 12)) 2 (some 13));
}

three_ids-IsIndex : IsIndex three_ids 1 (11 ∷ 12 ∷ 13 ∷ [])
unfolding get_count
three_ids-IsIndex = record { counted = refl; slots = λ j. ground arith }

three_appended : append_id three_ids 1 14 ≡ some (appended three_ids 1 14)
unfolding append_id get_count
three_appended = refl

append_id-IsIndex_example :
    IsIndex (appended three_ids 1 14) 1 ((11 ∷ 12 ∷ 13 ∷ []) ++ 14 ∷ [])
    × SameElsewhere three_ids (appended three_ids 1 14) 1
append_id-IsIndex_example =
    append_id-IsIndex three_ids 1 14 (11 ∷ 12 ∷ 13 ∷ []) three_ids-IsIndex three_appended

remove_id-IsIndex_example :
    IsIndex (remove_id three_ids 1 11) 1 (13 ∷ 12 ∷ [])
    × SameElsewhere three_ids (remove_id three_ids 1 11) 1
remove_id-IsIndex_example = remove_id-IsIndex three_ids 1 11 (11 ∷ 12 ∷ 13 ∷ []) three_ids-IsIndex

remove_id-get_ids_example : Perm (11 ∷ 12 ∷ 13 ∷ []) (11 ∷ get_ids (remove_id three_ids 1 11) 1)
remove_id-get_ids_example =
    remove_id-get_ids three_ids 1 11 (11 ∷ 12 ∷ 13 ∷ []) three_ids-IsIndex refl

abbrev funded : Treasury (Unit {0})
funded = record {
  admin = some 1;
  lp_pool = some 4;
  split_bps = some 2500;
  balance = update (λ a. none) 9 (some (pos 101));
  chain = tt;
  distributed = none;
}

funded_split : read_treasury_split_bps funded ≤ 10000
unfolding read_treasury_split_bps
funded_split = omega arith

funded_balance : get_balance funded 9 ≡ pos 101
unfolding get_balance
funded_balance = refl

distribute-Shares_example : Ensures (distribute (host_at 0) 9 3) funded (Shares (host_at 0) 9 101)
distribute-Shares_example = distribute-Shares (host_at 0) 9 3 101 funded funded_split funded_balance

withdraw_treasury-Takes_example :
    Ensures
      (withdraw_treasury (host_at 0) 9 (pos 40) 3)
      funded
      (λ _ t'. Takes (host_at 0) 9 (pos 40) funded t')
withdraw_treasury-Takes_example = withdraw_treasury-Takes (host_at 0) 9 (pos 40) 3 funded

abbrev proxy_host : Bool → Host (Unit {0})
proxy_host allows = record {
  authorized = λ a. allows;
  update_current_contract_wasm = λ hash c. c;
  invoke_migrate = λ a from to c. some c;
}

abbrev deployed : Proxy (Unit {0})
deployed = record {
  admin = some 1;
  impl_hash = some (7 ∷ []);
  storage_version = some 3;
  chain = tt;
  events = [];
}

upgrade-checked_example :
    upgrade (proxy_host true) (8 ∷ []) 3 4 deployed
    ≡ ok (tt, upgraded (proxy_host true) deployed 1 (7 ∷ []) (8 ∷ []) 4)
unfolding Proxy.read_storage_version
upgrade-checked_example =
    upgrade-checked (proxy_host true) deployed 1 (7 ∷ []) (8 ∷ []) 3 4 refl refl refl

guarded_example :
    ((new : Bytes) (expected version : ℕ)
      → upgrade (proxy_host false) new expected version deployed ≡ panic)
    × ((wasm : Bytes) → upgrade_proxy (proxy_host false) wasm deployed ≡ panic)
    × ((a : Address) → set_admin (proxy_host false) a deployed ≡ panic)
    × ((impl : Address) (from to : String)
        → migrate (proxy_host false) impl from to deployed ≡ panic)
guarded_example = guarded (proxy_host false) deployed 1 refl refl
