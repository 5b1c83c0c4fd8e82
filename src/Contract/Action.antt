-- ===== src/Contract/Action.antt =====
-- contracts/stream/src/lib.rs: the entry points that write, as one type of actions, and what runs one.
-- The results of the entry points do not matter here and are dropped.
use Prim.Native.String.{String}
use sorostream_contracts.Prelude.{ℕ, ◌≤◌, ◌≡◌, Bool, none, List}
use sorostream_contracts.Prelude.Int.{ℤ}
use sorostream_contracts.Prelude.Machine.{u64_max}
use sorostream_contracts.Types.{Address, Bytes}
use sorostream_contracts.Call.{ok, pure, ◌>>=◌}
use sorostream_contracts.Env.{Env, World, Exec, set_chain}
use sorostream_contracts.Contract.Admin
use sorostream_contracts.Contract.Fees
use sorostream_contracts.Contract.Withdraw
use sorostream_contracts.Contract.Cancel
use sorostream_contracts.Contract.Create
use sorostream_contracts.Contract.Create.{CreateArgs}
use sorostream_contracts.Contract.Manage

pub data Action : Type 0 where
  create_stream : CreateArgs → Action
  batch_create_stream :
      Address → List Address → List ℤ → List Address → ℕ → Bool → List ℕ → ℕ → Action
  withdraw : ℕ → Address → Action
  batch_withdraw : List ℕ → Address → Action
  cancel_stream : ℕ → Address → Action
  recipient_terminate : ℕ → Address → Action
  batch_cancel_stream : List ℕ → Address → Action
  partial_cancel_stream : ℕ → Address → ℤ → Action
  top_up : ℕ → Address → Address → ℤ → Action
  transfer_recipient : ℕ → Address → Address → Action
  delegate : Address → ℕ → Address → Action
  revoke_delegate : Address → ℕ → Action
  update_metadata : Address → ℕ → Bytes → Action
  cancel_auto_renew : Address → ℕ → Action
  pause_stream : ℕ → Address → Action
  resume_stream : ℕ → Address → Action
  archive_stream : ℕ → Address → Action
  initialize : Address → String → Action
  set_admin : Address → Action
  emergency_pause : Action
  emergency_resume : Action
  is_paused : Action
  set_guardian : Address → Action
  set_governance : Address → Action
  pause : Address → Action
  unpause : Address → Action
  add_fee_exempt : Address → Action
  remove_fee_exempt : Address → Action
  upgrade : Bytes → Action
  set_max_streams : ℕ → Action
  set_sender_stream_limit : Address → ℕ → Action
  migrate : String → String → Action
  set_min_duration : Address → ℕ → Action
  set_withdrawal_cooldown : Address → ℕ → Action
  set_whitelist_enabled : Address → Bool → Action
  add_to_whitelist : Address → Address → Action
  remove_from_whitelist : Address → Address → Action
  set_protocol_fee : ℕ → Action
  set_treasury_address : Address → Action
  propose_fee_change : Address → ℕ → Action
  execute_fee_change : Action
  set_creation_fee : ℤ → Address → Action
  withdraw_treasury : Address → ℤ → Address → Action
  withdraw_all_from_treasury : Address → Address → Action

module _ {C A : Type 0} where
  abbrev pub drop_result : Exec C A → Exec C (Unit {0})
  drop_result m = m >>= λ _. pure tt

module _ {C : Type 0} (env : Env C) where
  unfoldable pub run : Action → Exec C (Unit {0})
  run (create_stream args) = drop_result (Create.create_stream env args)
  run (batch_create_stream s rs as' ts d auto ls n) =
      drop_result (Create.batch_create_stream env s rs as' ts d auto ls n)
  run (withdraw id r) = Withdraw.withdraw env id r
  run (batch_withdraw ids r) = drop_result (Withdraw.batch_withdraw env ids r)
  run (cancel_stream id a) = Cancel.cancel_stream env id a
  run (recipient_terminate id r) = Cancel.recipient_terminate env id r
  run (batch_cancel_stream ids s) = drop_result (Cancel.batch_cancel_stream env ids s)
  run (partial_cancel_stream id a n) = drop_result (Cancel.partial_cancel_stream env id a n)
  run (top_up id a t n) = Manage.top_up env id a t n
  run (transfer_recipient id a b) = Manage.transfer_recipient env id a b
  run (delegate s id a) = Manage.delegate env s id a
  run (revoke_delegate s id) = Manage.revoke_delegate env s id
  run (update_metadata s id m) = Manage.update_metadata env s id m
  run (cancel_auto_renew s id) = Manage.cancel_auto_renew env s id
  run (pause_stream id s) = Manage.pause_stream env id s
  run (resume_stream id s) = Manage.resume_stream env id s
  run (archive_stream id a) = Manage.archive_stream env id a
  run (initialize a v) = Admin.initialize env a v
  run (set_admin a) = Admin.set_admin env a
  run emergency_pause = Admin.emergency_pause env
  run emergency_resume = Admin.emergency_resume env
  run is_paused = drop_result (Admin.is_paused env)
  run (set_guardian a) = Admin.set_guardian env a
  run (set_governance a) = Admin.set_governance env a
  run (pause a) = Admin.pause env a
  run (unpause a) = Admin.unpause env a
  run (add_fee_exempt a) = Admin.add_fee_exempt env a
  run (remove_fee_exempt a) = Admin.remove_fee_exempt env a
  run (upgrade h) = Admin.upgrade env h
  run (set_max_streams n) = Admin.set_max_streams env n
  run (set_sender_stream_limit a n) = Admin.set_sender_stream_limit env a n
  run (migrate u v) = Admin.migrate env u v
  run (set_min_duration a n) = Admin.set_min_duration env a n
  run (set_withdrawal_cooldown a n) = Admin.set_withdrawal_cooldown env a n
  run (set_whitelist_enabled a b) = Admin.set_whitelist_enabled env a b
  run (add_to_whitelist a r) = Admin.add_to_whitelist env a r
  run (remove_from_whitelist a r) = Admin.remove_from_whitelist env a r
  run (set_protocol_fee n) = Fees.set_protocol_fee n
  run (set_treasury_address a) = Fees.set_treasury_address a
  run (propose_fee_change a n) = Fees.propose_fee_change env a n
  run execute_fee_change = Fees.execute_fee_change env
  run (set_creation_fee n a) = Fees.set_creation_fee env n a
  run (withdraw_treasury t n a) = Fees.withdraw_treasury env t n a
  run (withdraw_all_from_treasury t a) = drop_result (Fees.withdraw_all_from_treasury env t a)

-- The worlds that the contract reaches, each with the time of the last ledger: it begins with no
-- stream stored; a call that returns moves it on, at a later ledger or the same and on a clock of 64
-- bits, with whatever host and other contracts there are then; and what is outside may change alone.
pub data Reaches {C : Type 0} : ℕ → World C → Type 0 where
  fresh : (t : ℕ) (w : World C) → ((id : ℕ) → w.pers.streams id ≡ none) → Reaches t w
  called :
      {t : ℕ} {w w' : World C} (env : Env C) (action : Action)
      → Reaches t w
      → t ≤ env.timestamp
      → env.timestamp ≤ u64_max
      → run env action w ≡ ok (tt, w')
      → Reaches env.timestamp w'
  elsewhere : {t : ℕ} {w : World C} (c : C) → Reaches t w → Reaches t (set_chain c w)
