-- ===== src/Storage/Pausing.antt =====
-- contracts/stream/src/storage.rs: the pause flag and the time at which it lapses.
use sorostream_contracts.Prelude.{
  ℕ, ◌*◌, Bool, true, false, not, ◌&&◌, some, ltb, leb, if◌then◌else◌, unwrap_or,
}
use sorostream_contracts.Call.{pure, gets, modify, ◌>>=◌, ◌>>◌}
use sorostream_contracts.Env.{Env, World, Exec}

-- seconds: 72 hours
abbrev pub max_pause_duration : ℕ
max_pause_duration = 72 * 60 * 60

module _ {C : Type 0} where
  unfoldable pub is_paused : World C → Bool
  is_paused w = unwrap_or w.inst.paused false

  unfoldable pub set_paused : Bool → World C → World C
  set_paused paused w = record w { inst = record w.inst { paused = some paused } }

  unfoldable pub set_pause_expiry : ℕ → World C → World C
  set_pause_expiry expiry w = record w { inst = record w.inst { pause_expires = some expiry } }

  unfoldable pub get_pause_expiry : World C → ℕ
  get_pause_expiry w = unwrap_or w.inst.pause_expires 0

  unfoldable pub auto_unpause : Exec C Bool
  unfolding set_paused set_pause_expiry
  auto_unpause = do modify (set_paused false); modify (set_pause_expiry 0); pure false

  -- A pause whose time has come is cleared by the call that finds it.
  unfoldable pub is_paused_or_auto_unpause : Env C → Exec C Bool
  unfolding auto_unpause is_paused get_pause_expiry
  is_paused_or_auto_unpause env = do
    paused ← gets is_paused
    if not paused then pure false else do
      expiry ← gets get_pause_expiry
      if ltb 0 expiry && leb expiry env.timestamp then auto_unpause else pure true
