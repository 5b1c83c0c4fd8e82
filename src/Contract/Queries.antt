-- ===== src/Contract/Queries.antt =====
-- contracts/stream/src/lib.rs: the entry points that read and do not write.
use sorostream_contracts.Prelude.{
  ℕ, zero, suc, ◌+◌, ◌-◌, Bool, not, ◌||◌, Option, none, some, List, [], ◌∷◌, ltb, ◌==◌, min,
  if◌then◌else◌, length, take, drop,
}
use sorostream_contracts.Prelude.Int.{ℤ, pos}
use sorostream_contracts.Prelude.Machine.{saturating_add_u32, saturating_add_i128}
use sorostream_contracts.Types.{
  Address, Stream, Stats, is_active, is_live, stream_not_found, overflow,
}
use sorostream_contracts.Call.{pure, gets, or_err, ◌>>=◌}
use sorostream_contracts.Env.{Env, World, Exec}
use sorostream_contracts.Storage.Streams.{
  load_stream, get_global_stream_count, get_global_stream_at,
}
use sorostream_contracts.Storage.Index.{get_ids_by_sender, get_ids_by_recipient}
use sorostream_contracts.Storage.Config.{read_guardian, read_governance, read_min_duration}
use sorostream_contracts.Storage.Pausing
use sorostream_contracts.Storage.Access
use sorostream_contracts.Storage.Access.{get_batch_nonce}
use sorostream_contracts.Vesting.{compute_claimable}
use sorostream_contracts.Contract.Cancel.{stream_now}

abbrev ids_of : List (ℕ × Stream) → List ℕ
ids_of [] = []
ids_of ((id, s) ∷ l) = id ∷ ids_of l

-- `ids[start..min(start + cap, len)]`, with a page of at most twenty.
abbrev page : List ℕ → ℕ → ℕ → List ℕ
page ids start limit =
    let end = min (saturating_add_u32 start (min limit 20)) (length ids) in
    take (end - start) (drop start ids)

abbrev pub active_only : List Stream → List Stream
active_only [] = []
active_only (s ∷ l) = let rest = active_only l in if is_active s.status then s ∷ rest else rest

-- One round of the loop of `get_stats`.
abbrev add_stream : Stats → Stream → Stats
add_stream stats s = record {
  total_streams = stats.total_streams + 1;
  active_streams = (if is_active s.status then stats.active_streams + 1 else stats.active_streams);
  total_volume = saturating_add_i128 stats.total_volume s.deposit;
}

unfoldable pub add_streams : Stats → List (ℕ × Stream) → Stats
add_streams stats [] = stats
add_streams stats ((id, s) ∷ l) = add_streams (add_stream stats s) l

module _ {C : Type 0} where
  unfoldable pub get_stream : ℕ → Exec C Stream
  get_stream stream_id = do or_err (← gets (λ w. load_stream w stream_id)) stream_not_found

  unfoldable pub get_nonce : Address → Exec C ℕ
  get_nonce sender = gets (λ w. get_batch_nonce w sender)

  unfoldable pub is_participant : ℕ → Address → Exec C Bool
  is_participant stream_id address = do
    stream ← or_err (← gets (λ w. load_stream w stream_id)) stream_not_found
    pure (stream.sender == address || stream.recipient == address)

  unfoldable pub get_claimable : Env C → ℕ → Exec C ℤ
  get_claimable env stream_id = do
    stream ← or_err (← gets (λ w. load_stream w stream_id)) stream_not_found
    let now = stream_now env stream
    if not (is_live stream.status) || ltb now stream.cliff_time
        then pure (pos 0)
        else or_err
            (compute_claimable stream.flow_rate now stream.cliff_time stream.end_time
              stream.last_withdraw_time)
            overflow

  -- The identifier at a place of the global list, if its stream is still stored.
  abbrev stored_at : World C → ℕ → Option (ℕ × Stream)
  stored_at w i = elim (get_global_stream_at w i) [
    | none ↦ none
    | some id ↦ elim (load_stream w id) [ none ↦ none | some s ↦ some (id, s) ]
  ]

  -- The loop `for i in start..end`, by the rounds that are left.
  unfoldable pub stored_from : World C → ℕ → ℕ → List (ℕ × Stream)
  stored_from w i zero = []
  stored_from w i (suc rounds) =
      let rest = stored_from w (suc i) rounds in
      elim (stored_at w i) [ none ↦ rest | some p ↦ p ∷ rest ]

  unfoldable pub get_all_stream_ids : ℕ → ℕ → World C → List ℕ
  unfolding stored_from
  get_all_stream_ids start limit w =
      let end = min (saturating_add_u32 start (min limit 20)) (get_global_stream_count w) in
      ids_of (stored_from w start (end - start))

  -- The streams of a list of identifiers that are still stored.
  unfoldable pub load_all : World C → List ℕ → List Stream
  load_all w [] = []
  load_all w (id ∷ ids) =
      let rest = load_all w ids in elim (load_stream w id) [ none ↦ rest | some s ↦ s ∷ rest ]

  unfoldable pub get_streams_by_sender : Address → ℕ → ℕ → World C → List Stream
  unfolding load_all
  get_streams_by_sender sender start limit w =
      load_all w (page (get_ids_by_sender w sender) start limit)

  unfoldable pub get_streams_by_recipient : Address → ℕ → ℕ → World C → List Stream
  unfolding load_all
  get_streams_by_recipient recipient start limit w =
      load_all w (page (get_ids_by_recipient w recipient) start limit)

  unfoldable pub get_active_streams_by_sender : Address → World C → List Stream
  unfolding load_all
  get_active_streams_by_sender sender w = active_only (load_all w (get_ids_by_sender w sender))

  unfoldable pub get_active_streams_by_recipient : Address → World C → List Stream
  unfolding load_all
  get_active_streams_by_recipient recipient w =
      active_only (load_all w (get_ids_by_recipient w recipient))

  unfoldable pub get_stats : World C → Stats
  unfolding stored_from add_streams
  get_stats w =
      add_streams (record { total_streams = 0; active_streams = 0; total_volume = pos 0 })
        (stored_from w 0 (get_global_stream_count w))

  unfoldable pub get_guardian : Exec C (Option Address)
  get_guardian = gets read_guardian

  unfoldable pub get_governance : Exec C (Option Address)
  get_governance = gets read_governance

  unfoldable pub get_pause_expiry : Exec C ℕ
  get_pause_expiry = gets Pausing.get_pause_expiry

  unfoldable pub is_fee_exempt : Address → Exec C Bool
  is_fee_exempt addr = gets (λ w. Access.is_fee_exempt w addr)

  unfoldable pub min_duration : Exec C ℕ
  min_duration = gets read_min_duration
