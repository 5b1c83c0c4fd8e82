-- ===== src/Treasury.antt =====
-- contracts/treasury/src/lib.rs: the treasury contract, which holds protocol fees by token. Its
-- functions return no errors: what they refuse, they refuse with a panic.
pub mod Conserves
pub mod Withdrawals
use sorostream_contracts.Prelude.{
  ℕ, ◌+◌, Bool, not, Option, none, some, ltb, ◌==◌, if◌then◌else◌, is_some, unwrap_or, update,
}
use sorostream_contracts.Prelude.Int.{ℤ, pos, pos_part, neg_part, ltb_ℤ}
use sorostream_contracts.Prelude.Machine.{
  checked_add_i128, checked_sub_i128, checked_mul_i128, div_i128,
}
use sorostream_contracts.Types.{Address}
use sorostream_contracts.Call.{
  Outcome, ok, panic, Call, pure, gets, or_panic, modify, panic_if, when, ◌>>=◌, ◌>>◌,
}
use sorostream_contracts.Env.{Env}

-- The contract's storage; `distributed` is the one event, with its data.
pub record Treasury (C : Type 0) : Type 0 where
  pub admin : Option Address
  pub lp_pool : Option Address
  pub split_bps : Option ℕ
  pub balance : Address → Option ℤ
  pub chain : C
  pub distributed : Option (Address × ℤ × ℤ)

-- No error value exists.
pub data NoError : Type 0 where

abbrev pub Run : Type 0 → Type 0 → Type 0
Run C A = Call (Treasury C) NoError A

module _ {C : Type 0} where
  unfoldable pub read_treasury_split_bps : Treasury C → ℕ
  read_treasury_split_bps t = unwrap_or t.split_bps 10000

  unfoldable pub get_balance : Treasury C → Address → ℤ
  get_balance t token = unwrap_or (t.balance token) (pos 0)

  unfoldable pub set_balance : Address → Option ℤ → Treasury C → Treasury C
  set_balance token v t = record t { balance = update t.balance token v }

  unfoldable pub deposit : Address → ℤ → Run C (Unit {0})
  deposit token amount = do
    current ← gets (λ t. get_balance t token)
    total ← or_panic (checked_add_i128 current amount)
    modify (set_balance token (some total))

module _ {C : Type 0} (env : Env C) where
  abbrev set_chain : C → Treasury C → Treasury C
  set_chain c t = record t { chain = c }

  unfoldable pub transfer : Address → Address → ℤ → Run C (Unit {0})
  transfer token to amount = do
    c ← or_panic (← gets (λ t. env.token_transfer token env.current_contract to amount t.chain))
    modify (set_chain c)

  unfoldable pub check_admin : Run C (Unit {0})
  check_admin = do admin ← or_panic (← gets (λ t. t.admin)); panic_if (not (env.authorized admin))

  abbrev with_admin : Address → Treasury C → Treasury C
  with_admin admin t = record t { admin = some admin }

  unfoldable pub initialize : Address → Run C (Unit {0})
  initialize admin = do
    current ← gets (λ t. t.admin)
    panic_if (is_some current)
    modify (with_admin admin)

  unfoldable pub set_admin : Address → Run C (Unit {0})
  set_admin new_admin = do check_admin; modify (with_admin new_admin)

  unfoldable pub withdraw_treasury : Address → ℤ → Address → Run C (Unit {0})
  withdraw_treasury token amount destination = do
    check_admin
    current ← gets (λ t. get_balance t token)
    panic_if (ltb_ℤ current amount)
    rest ← or_panic (checked_sub_i128 current amount)
    modify (set_balance token (some rest))
    transfer token destination amount

  unfoldable pub withdraw_all : Address → Address → Run C ℤ
  withdraw_all token destination = do
    check_admin
    current ← gets (λ t. get_balance t token)
    when (ltb_ℤ (pos 0) current)
        (do modify (set_balance token none); transfer token destination current)
    pure current

  abbrev with_lp_pool : Address → Treasury C → Treasury C
  with_lp_pool lp_pool t = record t { lp_pool = some lp_pool }

  unfoldable pub set_lp_pool : Address → Run C (Unit {0})
  set_lp_pool lp_pool = do check_admin; modify (with_lp_pool lp_pool)

  abbrev with_split : ℕ → Treasury C → Treasury C
  with_split bps t = record t { split_bps = some bps }

  unfoldable pub set_treasury_split : ℕ → Run C (Unit {0})
  set_treasury_split treasury_bps = do
    check_admin
    panic_if (ltb 10000 treasury_bps)
    modify (with_split treasury_bps)

  abbrev announce : Address → ℤ → ℤ → Treasury C → Treasury C
  announce token treasury_amount lp_amount t = record t {
    distributed = some (token, treasury_amount, lp_amount);
  }

  unfoldable pub pay_lp_pool : Address → ℤ → Run C (Unit {0})
  pay_lp_pool token lp_amount = do
    lp_pool ← or_panic (← gets (λ t. t.lp_pool))
    transfer token lp_pool lp_amount

  -- the part of `distribute` behind the test for an empty balance
  unfoldable pub split_balance : Address → Address → ℤ → Run C (ℤ × ℤ)
  unfolding pay_lp_pool
  split_balance token destination total = do
    treasury_bps ← gets read_treasury_split_bps
    product ← or_panic (checked_mul_i128 total (pos treasury_bps))
    treasury_amount ← or_panic (div_i128 product (pos 10000))
    lp_amount ← or_panic (checked_sub_i128 total treasury_amount)
    modify (set_balance token none)
    when (ltb_ℤ (pos 0) treasury_amount) (transfer token destination treasury_amount)
    when (ltb_ℤ (pos 0) lp_amount) (pay_lp_pool token lp_amount)
    modify (announce token treasury_amount lp_amount)
    pure (treasury_amount, lp_amount)

  unfoldable pub distribute : Address → Address → Run C (ℤ × ℤ)
  distribute token destination = do
    check_admin
    total ← gets (λ t. get_balance t token)
    if pos_part total + neg_part total == 0
        then pure (pos 0, pos 0)
        else split_balance token destination total
