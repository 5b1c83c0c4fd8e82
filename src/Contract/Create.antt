-- ===== src/Contract/Create.antt =====
-- contracts/stream/src/lib.rs: `create_stream` and `batch_create_stream`.
use sorostream_contracts.Prelude.{
  ℕ, ◌+◌, suc, Bool, false, not, ◌&&◌, ◌||◌, List, [], ◌∷◌, ◌++◌, ltb, leb, ◌==◌, ◌!=◌, length,
}
use sorostream_contracts.Prelude.Int.{ℤ, pos, ltb_ℤ, leb_ℤ, pos_part, neg_part}
use sorostream_contracts.Prelude.Machine.{checked_add_u64, checked_add_u32, div_i128}
use sorostream_contracts.Types.{
  Address, Bytes, Stream, active, contract_paused, duplicate_stream, zero_amount, invalid_cliff,
  metadata_too_long, recipient_not_whitelisted, stream_duration_too_short, zero_flow_rate,
  sender_stream_limit_exceeded, overflow, invalid_end_time, stream_id_conflict, not_initialized,
  invalid_nonce, batch_length_mismatch, invalid_duration, duplicate_stream_id, stream_created,
  creation_fee_collected,
}
use sorostream_contracts.Call.{pure, gets, or_err, or_panic, modify, fail_if, when, ◌>>=◌, ◌>>◌}
use sorostream_contracts.Env.{Env, Exec, require_auth, transfer, publish}
use sorostream_contracts.Storage.Config.{
  is_whitelist_enabled, read_min_duration, get_creation_fee_xlm, get_treasury, get_xlm_token,
}
use sorostream_contracts.Storage.Pausing.{is_paused_or_auto_unpause}
use sorostream_contracts.Storage.Access.{
  nonce_used, mark_nonce_used, is_whitelisted, effective_sender_limit, get_batch_nonce,
  increment_batch_nonce,
}
use sorostream_contracts.Storage.Streams.{
  derive_stream_id, stream_exists, save_stream, index_global_stream,
}
use sorostream_contracts.Storage.Index.{
  get_sender_stream_count, index_by_sender, index_by_recipient,
}

abbrev pub is_zero : ℤ → Bool
is_zero a = pos_part a + neg_part a == 0

-- The arguments of `create_stream`, in its order.
pub record CreateArgs : Type 0 where
  pub sender : Address
  pub recipient : Address
  pub token : Address
  pub amount : ℤ
  pub duration_seconds : ℕ
  pub cliff_seconds : ℕ
  pub nonce : ℕ
  pub auto_renew : Bool
  pub lock_until : ℕ
  pub allow_recipient_termination : Bool
  pub metadata : Bytes

abbrev pub new_stream : CreateArgs → ℕ → ℤ → ℕ → ℕ → ℕ → Stream
new_stream args stream_id flow_rate now cliff_time end_time = record {
  id = stream_id;
  sender = args.sender;
  recipient = args.recipient;
  token = args.token;
  deposit = args.amount;
  flow_rate = flow_rate;
  start_time = now;
  cliff_time = cliff_time;
  lock_until = args.lock_until;
  end_time = end_time;
  last_withdraw_time = now;
  status = active;
  auto_renew = args.auto_renew;
  allow_recipient_termination = args.allow_recipient_termination;
  last_pause_time = 0;
  total_withdrawn = pos 0;
  metadata = args.metadata;
}

abbrev pub mem : ℕ → List ℕ → Bool
mem x [] = false
mem x (y ∷ ys) = y == x || mem x ys

-- What one round of the second pass reads from the four vectors and from `batch_ids`.
pub record BatchItem : Type 0 where
  pub recipient : Address
  pub amount : ℤ
  pub token : Address
  pub lock_until : ℕ
  pub stream_id : ℕ

abbrev pub zip_batch : List Address → List ℤ → List Address → List ℕ → List ℕ → List BatchItem
zip_batch (r ∷ rs) (a ∷ as') (t ∷ ts) (l ∷ ls) (x ∷ xs) =
    record { recipient = r; amount = a; token = t; lock_until = l; stream_id = x }
    ∷ zip_batch rs as' ts ls xs
zip_batch rs as' ts ls xs = []

-- The fields that a batched stream shares with one that `create_stream` makes.
abbrev pub batch_args : Address → ℕ → Bool → BatchItem → CreateArgs
batch_args sender duration auto_renew item = record {
  sender = sender;
  recipient = item.recipient;
  token = item.token;
  amount = item.amount;
  duration_seconds = duration;
  cliff_seconds = 0;
  nonce = 0;
  auto_renew = auto_renew;
  lock_until = item.lock_until;
  allow_recipient_termination = false;
  metadata = [];
}

module _ {C : Type 0} (env : Env C) where
  -- The new stream goes into storage and into the three lists.
  unfoldable pub store_new : Stream → Exec C (Unit {0})
  store_new stream = do
    modify (save_stream stream)
    index_by_sender stream.sender stream.id
    index_by_recipient stream.recipient stream.id
    index_global_stream stream.id
    modify (
        publish (
          stream_created stream.id stream.sender stream.recipient stream.deposit stream.flow_rate
            stream.end_time))

  unfoldable pub charge_creation_fee : Address → ℤ → Exec C (Unit {0})
  charge_creation_fee sender creation_fee = do
    set_treasury ← gets get_treasury
    treasury ← or_err set_treasury not_initialized
    set_token ← gets get_xlm_token
    xlm_token ← or_err set_token not_initialized
    transfer env xlm_token sender treasury creation_fee
    modify (publish (creation_fee_collected creation_fee treasury))

  unfoldable pub create_stream : CreateArgs → Exec C ℕ
  unfolding charge_creation_fee
  create_stream args = do
    require_auth env args.sender
    paused ← is_paused_or_auto_unpause env
    fail_if paused contract_paused
    used ← gets (λ w. nonce_used w args.sender args.nonce)
    fail_if used duplicate_stream
    fail_if (leb_ℤ args.amount (pos 0)) zero_amount
    fail_if (leb args.duration_seconds args.cliff_seconds) invalid_cliff
    fail_if (ltb 64 (length args.metadata)) metadata_too_long
    enabled ← gets is_whitelist_enabled
    listed ← gets (λ w. is_whitelisted w args.recipient)
    fail_if (enabled && not listed) recipient_not_whitelisted
    min_dur ← gets read_min_duration
    fail_if (ltb args.duration_seconds min_dur) stream_duration_too_short
    flow_rate ← or_panic (div_i128 args.amount (pos args.duration_seconds))
    fail_if (is_zero flow_rate) zero_flow_rate
    sender_count ← gets (λ w. get_sender_stream_count w args.sender)
    limit ← gets (λ w. effective_sender_limit w args.sender)
    fail_if (leb limit sender_count) sender_stream_limit_exceeded
    modify (mark_nonce_used args.sender args.nonce)
    let now = env.timestamp
    end_time ← or_err (checked_add_u64 now args.duration_seconds) overflow
    fail_if (leb end_time now) invalid_end_time
    cliff_time ← or_err (checked_add_u64 now args.cliff_seconds) overflow
    let stream_id = derive_stream_id env args.sender args.recipient now args.nonce
    exists ← gets (λ w. stream_exists w stream_id)
    fail_if exists stream_id_conflict
    creation_fee ← gets get_creation_fee_xlm
    when (ltb_ℤ (pos 0) creation_fee) (charge_creation_fee args.sender creation_fee)
    transfer env args.token args.sender env.current_contract args.amount
    store_new (new_stream args stream_id flow_rate now cliff_time end_time)
    pure stream_id

  -- The pass that computes the identifiers and writes nothing; `i` counts the rounds.
  unfoldable pub check_batch : Address → ℕ → ℕ → List Address → List ℤ → List ℕ → Exec C (List ℕ)
  check_batch sender duration i [] amounts batch_ids = pure batch_ids
  check_batch sender duration i (recipient ∷ recipients) [] batch_ids = pure batch_ids
  check_batch sender duration i (recipient ∷ recipients) (amount ∷ amounts) batch_ids = do
    fail_if (leb_ℤ amount (pos 0)) zero_amount
    flow_rate ← or_panic (div_i128 amount (pos duration))
    fail_if (is_zero flow_rate) zero_flow_rate
    let stream_id = derive_stream_id env sender recipient env.timestamp i
    exists ← gets (λ w. stream_exists w stream_id)
    fail_if exists duplicate_stream_id
    fail_if (mem stream_id batch_ids) duplicate_stream_id
    check_batch sender duration (suc i) recipients amounts (batch_ids ++ stream_id ∷ [])

  abbrev pub batch_stream : Address → ℕ → Bool → ℕ → ℤ → BatchItem → Stream
  batch_stream sender duration auto_renew end_time flow_rate item =
      new_stream (batch_args sender duration auto_renew item) item.stream_id flow_rate env.timestamp
        env.timestamp end_time

  unfoldable pub create_each : Address → ℕ → Bool → ℕ → List BatchItem → Exec C (List ℕ)
  create_each sender duration auto_renew end_time [] = pure []
  create_each sender duration auto_renew end_time (item ∷ items) = do
    flow_rate ← or_panic (div_i128 item.amount (pos duration))
    transfer env item.token sender env.current_contract item.amount
    store_new (batch_stream sender duration auto_renew end_time flow_rate item)
    stream_ids ← create_each sender duration auto_renew end_time items
    pure (item.stream_id ∷ stream_ids)

  unfoldable pub batch_create_stream :
      Address → List Address → List ℤ → List Address → ℕ → Bool → List ℕ → ℕ → Exec C (List ℕ)
  unfolding check_batch create_each
  batch_create_stream sender recipients amounts tokens duration auto_renew lock_untils nonce = do
    paused ← is_paused_or_auto_unpause env
    fail_if paused contract_paused
    require_auth env sender
    expected_nonce ← gets (λ w. get_batch_nonce w sender)
    fail_if (nonce != expected_nonce) invalid_nonce
    increment_batch_nonce sender
    fail_if
        (length recipients != length amounts
          || length recipients != length lock_untils
          || length recipients != length tokens)
        batch_length_mismatch
    end_time ← or_err (checked_add_u64 env.timestamp duration) overflow
    fail_if (leb end_time env.timestamp) invalid_duration
    sender_count ← gets (λ w. get_sender_stream_count w sender)
    limit ← gets (λ w. effective_sender_limit w sender)
    total ← or_panic (checked_add_u32 sender_count (length recipients))
    fail_if (ltb limit total) sender_stream_limit_exceeded
    batch_ids ← check_batch sender duration 0 recipients amounts []
    create_each sender duration auto_renew end_time
        (zip_batch recipients amounts tokens lock_untils batch_ids)
