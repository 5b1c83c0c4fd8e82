-- ===== src/Storage/Access.antt =====
-- contracts/stream/src/storage.rs: nonces, delegates, the whitelist, fee exemptions and stream limits.
use sorostream_contracts.Prelude.{
  ℕ, Bool, true, false, Option, none, some, unwrap_or, is_some, update, update₂,
}
use sorostream_contracts.Prelude.Machine.{checked_add_u64}
use sorostream_contracts.Types.{Address}
use sorostream_contracts.Call.{gets, or_panic, modify, ◌>>=◌}
use sorostream_contracts.Env.{World, Exec}
use sorostream_contracts.Storage.Config.{get_max_streams_per_sender}

module _ {C : Type 0} where
  unfoldable pub get_batch_nonce : World C → Address → ℕ
  get_batch_nonce w sender = unwrap_or (w.pers.batch_nonce sender) 0

  abbrev set_batch_nonce : Address → ℕ → World C → World C
  set_batch_nonce sender n w = record w {
    pers = record w.pers { batch_nonce = update w.pers.batch_nonce sender (some n) };
  }

  unfoldable pub increment_batch_nonce : Address → Exec C (Unit {0})
  unfolding get_batch_nonce
  increment_batch_nonce sender = do
    n ← gets (λ w. get_batch_nonce w sender)
    next ← or_panic (checked_add_u64 n 1)
    modify (set_batch_nonce sender next)

  unfoldable pub nonce_used : World C → Address → ℕ → Bool
  nonce_used w sender nonce = is_some (w.pers.nonce sender nonce)

  unfoldable pub mark_nonce_used : Address → ℕ → World C → World C
  mark_nonce_used sender nonce w = record w {
    pers = record w.pers { nonce = update₂ w.pers.nonce sender nonce (some true) };
  }

  unfoldable pub get_delegate : World C → ℕ → Option Address
  get_delegate w stream_id = w.pers.delegate stream_id

  unfoldable pub set_delegate : ℕ → Address → World C → World C
  set_delegate stream_id delegate w = record w {
    pers = record w.pers { delegate = update w.pers.delegate stream_id (some delegate) };
  }

  unfoldable pub remove_delegate : ℕ → World C → World C
  remove_delegate stream_id w = record w {
    pers = record w.pers { delegate = update w.pers.delegate stream_id none };
  }

  unfoldable pub is_whitelisted : World C → Address → Bool
  is_whitelisted w recipient = unwrap_or (w.pers.whitelist recipient) false

  unfoldable pub add_to_whitelist : Address → World C → World C
  add_to_whitelist recipient w = record w {
    pers = record w.pers { whitelist = update w.pers.whitelist recipient (some true) };
  }

  unfoldable pub remove_from_whitelist : Address → World C → World C
  remove_from_whitelist recipient w = record w {
    pers = record w.pers { whitelist = update w.pers.whitelist recipient none };
  }

  unfoldable pub is_fee_exempt : World C → Address → Bool
  is_fee_exempt w addr = unwrap_or (w.pers.fee_exempt addr) false

  unfoldable pub add_fee_exempt : Address → World C → World C
  add_fee_exempt addr w = record w {
    pers = record w.pers { fee_exempt = update w.pers.fee_exempt addr (some true) };
  }

  unfoldable pub remove_fee_exempt : Address → World C → World C
  remove_fee_exempt addr w = record w {
    pers = record w.pers { fee_exempt = update w.pers.fee_exempt addr none };
  }

  unfoldable pub get_sender_limit : World C → Address → Option ℕ
  get_sender_limit w sender = w.pers.sender_limit sender

  unfoldable pub set_sender_limit : Address → ℕ → World C → World C
  set_sender_limit sender limit w = record w {
    pers = record w.pers { sender_limit = update w.pers.sender_limit sender (some limit) };
  }

  unfoldable pub effective_sender_limit : World C → Address → ℕ
  unfolding get_sender_limit get_max_streams_per_sender
  effective_sender_limit w sender =
      unwrap_or (get_sender_limit w sender) (get_max_streams_per_sender w)
