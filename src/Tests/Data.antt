-- ===== src/Tests/Data.antt =====
-- A small host and worlds of the stream contract to try the theorems on.
use sorostream_contracts.Prelude.{ℕ, refl, true, false, none, some, [], ◌∷◌, arith}
use sorostream_contracts.Prelude.Int.{pos}
use sorostream_contracts.Types.{Stream, active, paused, StreamError}
use sorostream_contracts.Call.{Outcome, ok}
use sorostream_contracts.Env.{Env, Instance, Slots, World}
use sorostream_contracts.Storage.Streams.{save_stream}
use sorostream_contracts.Contract.Create.{CreateArgs}
use sorostream_contracts.Contract.Sound.{IsSound, AllSound, save_stream-AllSound}

-- Everybody authorizes, every transfer goes through, and a hash is its input.
abbrev pub host_at : ℕ → Env (Unit {0})
host_at t = record {
  timestamp = t;
  current_contract = 50;
  authorized = λ a. true;
  token_transfer = λ token from to amount c. some c;
  token_balance = λ token a c. pos 0;
  invoke_contract = λ a i c. some (pos 0, c);
  try_invoke_contract = λ a i c. c;
  update_current_contract_wasm = λ hash c. c;
  address_to_xdr = λ a. a ∷ [];
  sha256 = λ b. b;
}

abbrev pub no_settings : Instance
no_settings = record {
  admin = some 1;
  paused = none;
  fee_bps = none;
  treasury = none;
  min_duration = none;
  version = none;
  max_streams = none;
  stream_count = none;
  pending_fee = none;
  withdrawal_cooldown = none;
  whitelist_enabled = none;
  guardian = none;
  governance = none;
  pause_expires = none;
  creation_fee_xlm = none;
  xlm_token = none;
  audit_head = none;
  audit_len = none;
  audit_slot = λ i. none;
  applied_migrations = none;
}

abbrev pub no_slots : Slots
no_slots = record { count = λ a. none; slot = λ a i. none }

abbrev pub empty_world : World (Unit {0})
empty_world = record {
  inst = no_settings;
  pers = record {
    streams = λ id. none;
    global_slot = λ i. none;
    by_sender = no_slots;
    by_recipient = no_slots;
    batch_nonce = λ a. none;
    nonce = λ a n. none;
    delegate = λ id. none;
    whitelist = λ a. none;
    fee_exempt = λ a. none;
    sender_limit = λ a. none;
  };
  chain = tt;
  events = [];
}

abbrev pub some_args : CreateArgs
some_args = record {
  sender = 1;
  recipient = 2;
  token = 9;
  amount = pos 7200;
  duration_seconds = 3600;
  cliff_seconds = 60;
  nonce = 0;
  auto_renew = false;
  lock_until = 0;
  allow_recipient_termination = true;
  metadata = [];
}

-- Two a second for an hour from the time 1000 on.
abbrev pub hourly : Stream
hourly = record {
  id = 7;
  sender = 1;
  recipient = 2;
  token = 9;
  deposit = pos 7200;
  flow_rate = pos 2;
  start_time = 1000;
  cliff_time = 1060;
  lock_until = 0;
  end_time = 4600;
  last_withdraw_time = 1000;
  status = active;
  auto_renew = false;
  allow_recipient_termination = true;
  last_pause_time = 0;
  total_withdrawn = pos 0;
  metadata = [];
}

abbrev pub halted : Stream
halted = record hourly { status = paused; last_pause_time = 1500 }

abbrev pub hourly-IsSound : IsSound 2000 hourly
hourly-IsSound = record {
  rate = 2;
  deposited = 7200;
  withdrawn = 0;
  rate_eq = refl;
  deposit_eq = refl;
  withdrawn_eq = refl;
  rate_pos = omega arith;
  started = omega arith;
  not_over = omega arith;
  not_ahead = omega arith;
  pause_after = λ p. cc;
  withdrawn_le = omega arith;
  covered = omega arith;
}

pub halted-IsSound : IsSound 2000 halted
halted-IsSound = record {
  rate = 2;
  deposited = 7200;
  withdrawn = 0;
  rate_eq = refl;
  deposit_eq = refl;
  withdrawn_eq = refl;
  rate_pos = omega arith;
  started = omega arith;
  not_over = omega arith;
  not_ahead = omega arith;
  pause_after = λ p. (omega arith, omega arith);
  withdrawn_le = omega arith;
  covered = omega arith;
}

pub empty-AllSound : AllSound 2000 empty_world.pers.streams
empty-AllSound = record { each = λ id s e. cc }

abbrev pub hourly_world : World (Unit {0})
hourly_world = save_stream hourly empty_world

pub hourly_world-AllSound : AllSound 2000 hourly_world.pers.streams
hourly_world-AllSound =
    save_stream-AllSound 2000 hourly empty_world empty-AllSound (λ live. hourly-IsSound)

abbrev pub halted_world : World (Unit {0})
halted_world = save_stream halted empty_world

pub halted_world-AllSound : AllSound 2000 halted_world.pers.streams
halted_world-AllSound =
    save_stream-AllSound 2000 halted empty_world empty-AllSound (λ live. halted-IsSound)

-- The world that a call leaves if it returns.
abbrev pub world_after :
    {A : Type 0} → Outcome StreamError (A × World (Unit {0})) → World (Unit {0})
world_after (ok (a, w)) = w
world_after _ = empty_world
