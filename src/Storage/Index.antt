-- ===== src/Storage/Index.antt =====
-- contracts/stream/src/storage.rs: the per-sender and per-recipient lists of stream identifiers, kept
-- as a counter and numbered slots. The two lists have the same code over different keys, so the code
-- is written once over `Slots`.
pub mod View
pub mod Refines
pub mod Distinct
pub mod Listed
use sorostream_contracts.Prelude.{
  ℕ, zero, suc, ◌+◌, ◌-◌, Bool, Option, none, some, List, [], ◌∷◌, ◌==◌, ◌!=◌, if◌then◌else◌,
  unwrap_or, update, update₂,
}
use sorostream_contracts.Prelude.Machine.{checked_add_u32}
use sorostream_contracts.Types.{Address}
use sorostream_contracts.Call.{gets, or_panic, modify, ◌>>=◌}
use sorostream_contracts.Env.{Slots, World, Exec}

unfoldable pub get_count : Slots → Address → ℕ
get_count s addr = unwrap_or (s.count addr) 0

abbrev set_slot : Slots → Address → ℕ → Option ℕ → Slots
set_slot s addr idx v = record s { slot = update₂ s.slot addr idx v }

abbrev set_count : Slots → Address → ℕ → Slots
set_count s addr n = record s { count = update s.count addr (some n) }

-- Appends; `none` is the trap on an overflow of the counter.
abbrev counted : Slots → Address → Option ℕ → Option Slots
counted s addr none = none
counted s addr (some next) = some (set_count s addr next)

unfoldable pub append_id : Slots → Address → ℕ → Option Slots
unfolding get_count
append_id s addr stream_id =
    let idx = get_count s addr in
    counted (set_slot s addr idx (some stream_id)) addr (checked_add_u32 idx 1)

-- What the loop does at the slot `i` that holds the identifier: the last one takes its place.
unfoldable pub swap_and_pop : Slots → Address → ℕ → ℕ → Slots
swap_and_pop s addr cnt i =
    let last = cnt - 1 in
    let filled =
      if i != last then set_slot s addr i (some (unwrap_or (s.slot addr last) 0)) else s in
    set_count (set_slot filled addr last none) addr last

-- whether a slot holds the identifier
abbrev pub holds : Option ℕ → ℕ → Bool
holds none stream_id = Bool.false
holds (some id) stream_id = id == stream_id

-- The loop `for i in 0..cnt`, by the rounds that are left; it returns from the first match.
unfoldable pub remove_from : Slots → Address → ℕ → ℕ → ℕ → ℕ → Slots
unfolding swap_and_pop
remove_from s addr stream_id cnt i zero = s
remove_from s addr stream_id cnt i (suc rounds) =
    let rest = remove_from s addr stream_id cnt (suc i) rounds in
    if holds (s.slot addr i) stream_id then swap_and_pop s addr cnt i else rest

unfoldable pub remove_id : Slots → Address → ℕ → Slots
remove_id s addr stream_id = let cnt = get_count s addr in remove_from s addr stream_id cnt 0 cnt

-- The loop that collects the slots from `i` on, by the rounds that are left.
unfoldable pub ids_from : Slots → Address → ℕ → ℕ → List ℕ
ids_from s addr i zero = []
ids_from s addr i (suc rounds) =
    let rest = ids_from s addr (suc i) rounds in
    elim (s.slot addr i) [ none ↦ rest | some id ↦ id ∷ rest ]

unfoldable pub get_ids : Slots → Address → List ℕ
get_ids s addr = ids_from s addr 0 (get_count s addr)

module _ {C : Type 0} where
  abbrev with_sender_index : Slots → World C → World C
  with_sender_index s w = record w { pers = record w.pers { by_sender = s } }

  abbrev with_recipient_index : Slots → World C → World C
  with_recipient_index s w = record w { pers = record w.pers { by_recipient = s } }

  unfoldable pub index_by_sender : Address → ℕ → Exec C (Unit {0})
  index_by_sender sender stream_id = do
    s ← or_panic (← gets (λ w. append_id w.pers.by_sender sender stream_id))
    modify (with_sender_index s)

  unfoldable pub index_by_recipient : Address → ℕ → Exec C (Unit {0})
  index_by_recipient recipient stream_id = do
    s ← or_panic (← gets (λ w. append_id w.pers.by_recipient recipient stream_id))
    modify (with_recipient_index s)

  unfoldable pub unindex_by_sender : Address → ℕ → World C → World C
  unindex_by_sender sender stream_id w =
      with_sender_index (remove_id w.pers.by_sender sender stream_id) w

  unfoldable pub unindex_by_recipient : Address → ℕ → World C → World C
  unindex_by_recipient recipient stream_id w =
      with_recipient_index (remove_id w.pers.by_recipient recipient stream_id) w

  unfoldable pub get_sender_stream_count : World C → Address → ℕ
  get_sender_stream_count w sender = get_count w.pers.by_sender sender

  unfoldable pub get_ids_by_sender : World C → Address → List ℕ
  get_ids_by_sender w sender = get_ids w.pers.by_sender sender

  unfoldable pub get_ids_by_recipient : World C → Address → List ℕ
  get_ids_by_recipient w recipient = get_ids w.pers.by_recipient recipient
