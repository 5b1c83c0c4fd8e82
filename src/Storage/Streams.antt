-- ===== src/Storage/Streams.antt =====
-- contracts/stream/src/storage.rs: the stream records, their identifiers and the global list of them.
use sorostream_contracts.Prelude.{
  ℕ, zero, suc, ◌+◌, ◌*◌, ◌/◌, ◌%◌, Bool, Option, none, some, [], ◌∷◌, ◌++◌, take, unwrap_or,
  is_some, update,
}
use sorostream_contracts.Prelude.Machine.{checked_add_u32}
use sorostream_contracts.Types.{Address, Bytes, Stream}
use sorostream_contracts.Call.{gets, or_panic, modify, ◌>>=◌, ◌>>◌}
use sorostream_contracts.Env.{Env, World, Exec}

-- `u64::to_be_bytes`: the low `n` bytes of a number, the highest first.
pub be_bytes : ℕ → ℕ → Bytes
be_bytes zero x = []
be_bytes (suc n) x = be_bytes n (x / 256) ++ (x % 256) ∷ []

-- `u64::from_be_bytes`
pub from_be_bytes : ℕ → Bytes → ℕ
from_be_bytes acc [] = acc
from_be_bytes acc (b ∷ bs) = from_be_bytes (acc * 256 + b) bs

module _ {C : Type 0} where
  -- The first eight bytes of the hash of sender, recipient, start time and nonce.
  unfoldable pub derive_stream_id : Env C → Address → Address → ℕ → ℕ → ℕ
  unfolding be_bytes from_be_bytes
  derive_stream_id env sender recipient start_time nonce =
      let buf =
        env.address_to_xdr sender
        ++ (env.address_to_xdr recipient ++ (be_bytes 8 start_time ++ be_bytes 8 nonce)) in
      from_be_bytes 0 (take 8 (env.sha256 buf))

  unfoldable pub load_stream : World C → ℕ → Option Stream
  load_stream w stream_id = w.pers.streams stream_id

  unfoldable pub stream_exists : World C → ℕ → Bool
  stream_exists w stream_id = is_some (w.pers.streams stream_id)

  unfoldable pub save_stream : Stream → World C → World C
  save_stream stream w = record w {
    pers = record w.pers { streams = update w.pers.streams stream.id (some stream) };
  }

  unfoldable pub remove_stream : ℕ → World C → World C
  remove_stream stream_id w = record w {
    pers = record w.pers { streams = update w.pers.streams stream_id none };
  }

  unfoldable pub get_global_stream_count : World C → ℕ
  get_global_stream_count w = unwrap_or w.inst.stream_count 0

  unfoldable pub get_global_stream_at : World C → ℕ → Option ℕ
  get_global_stream_at w idx = w.pers.global_slot idx

  abbrev set_global_slot : ℕ → ℕ → World C → World C
  set_global_slot idx stream_id w = record w {
    pers = record w.pers { global_slot = update w.pers.global_slot idx (some stream_id) };
  }

  abbrev set_stream_count : ℕ → World C → World C
  set_stream_count n w = record w { inst = record w.inst { stream_count = some n } }

  -- `idx + 1` traps when the `u32` overflows
  unfoldable pub index_global_stream : ℕ → Exec C (Unit {0})
  unfolding get_global_stream_count
  index_global_stream stream_id = do
    idx ← gets get_global_stream_count
    modify (set_global_slot idx stream_id)
    next ← or_panic (checked_add_u32 idx 1)
    modify (set_stream_count next)
