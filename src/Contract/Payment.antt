-- ===== src/Contract/Payment.antt =====
-- contracts/stream/src/lib.rs: what `withdraw`, `batch_withdraw` and `transfer_recipient` share, the
-- protocol fee and the payment of what a recipient may claim; and the test for a stream's manager.
pub mod Split
use sorostream_contracts.Prelude.{
  ℕ, Bool, false, not, ◌&&◌, ◌||◌, Option, none, some, ltb, ◌==◌, if◌then◌else◌,
}
use sorostream_contracts.Prelude.Int.{ℤ, pos, ltb_ℤ}
use sorostream_contracts.Prelude.Machine.{
  checked_mul_i128, checked_sub_i128, checked_add_i128, div_i128,
}
use sorostream_contracts.Types.{Address, Stream, overflow, fee_collected}
use sorostream_contracts.Call.{pure, gets, or_err, or_panic, modify, fail_if, when, ◌>>=◌, ◌>>◌}
use sorostream_contracts.Env.{Env, World, Exec, transfer, try_invoke, publish, deposit}
use sorostream_contracts.Storage.Config.{get_protocol_fee, get_treasury}
use sorostream_contracts.Storage.Access.{is_fee_exempt, get_delegate}

-- `Some(caller) == get_delegate(..)`
abbrev pub is_address : Option Address → Address → Bool
is_address none caller = false
is_address (some a) caller = a == caller

module _ {C : Type 0} where
  unfoldable pub may_manage : World C → Stream → ℕ → Address → Bool
  unfolding get_delegate
  may_manage w stream stream_id caller =
      stream.sender == caller || is_address (get_delegate w stream_id) caller

  abbrev pub charge : ℕ → ℤ → Exec C ℤ
  charge fee_bps claimable = do
    product ← or_err (checked_mul_i128 claimable (pos fee_bps)) overflow
    or_panic (div_i128 product (pos 10000))

  -- `fee_amount`, rounded down
  unfoldable pub fee_on : Address → ℤ → Exec C ℤ
  unfolding get_protocol_fee is_fee_exempt
  fee_on recipient claimable = do
    fee_bps ← gets get_protocol_fee
    exempt ← gets (λ w. is_fee_exempt w recipient)
    if ltb 0 fee_bps && not exempt then charge fee_bps claimable else pure (pos 0)

  -- `withdraw` and `transfer_recipient` announce the fee; `batch_withdraw` tells the treasury
  -- contract of it and goes on whatever that answers.
  unfoldable pub pay_fee_announced : Env C → Stream → ℕ → ℤ → Option Address → Exec C (Unit {0})
  pay_fee_announced env stream stream_id fee_amount none = pure tt
  pay_fee_announced env stream stream_id fee_amount (some treasury) = do
    transfer env stream.token env.current_contract treasury fee_amount
    modify (publish (fee_collected stream_id fee_amount treasury))

  unfoldable pub pay_fee_deposited : Env C → Stream → ℕ → ℤ → Option Address → Exec C (Unit {0})
  pay_fee_deposited env stream stream_id fee_amount none = pure tt
  pay_fee_deposited env stream stream_id fee_amount (some treasury) = do
    transfer env stream.token env.current_contract treasury fee_amount
    modify (try_invoke env treasury (deposit stream.token fee_amount))

  -- The two transfers; without a treasury the fee stays in the contract. Returns `recipient_amount`.
  unfoldable pub pay_claim :
      Env C
      → (Env C → Stream → ℕ → ℤ → Option Address → Exec C (Unit {0}))
      → Stream
      → ℕ
      → Address
      → ℤ
      → Exec C ℤ
  unfolding get_treasury
  pay_claim env pay_fee stream stream_id recipient claimable = do
    fee_amount ← fee_on stream.recipient claimable
    recipient_amount ← or_panic (checked_sub_i128 claimable fee_amount)
    when (ltb_ℤ (pos 0) recipient_amount)
        (transfer env stream.token env.current_contract recipient recipient_amount)
    treasury ← gets get_treasury
    when (ltb_ℤ (pos 0) fee_amount) (pay_fee env stream stream_id fee_amount treasury)
    pure recipient_amount

  unfoldable pub add_withdrawn : Stream → ℤ → Exec C Stream
  add_withdrawn stream claimable = do
    total ← or_err (checked_add_i128 stream.total_withdrawn claimable) overflow
    pure (record stream { total_withdrawn = total })

  -- The guard that a withdrawal never takes the total above the deposit.
  unfoldable pub guard_deposit : Stream → ℤ → Exec C (Unit {0})
  guard_deposit stream claimable = do
    total ← or_err (checked_add_i128 stream.total_withdrawn claimable) overflow
    fail_if (ltb_ℤ stream.deposit total) overflow
