-- ===== src/Env.antt =====
-- What the host gives a contract function, and the world that it changes. The host's own services and
-- the other contracts are parameters: a token contract's `transfer` and `balance`, calls of other
-- contracts, and the hash. `C` is the state of everything outside the stream contract. The host
-- refuses re-entry, so no call of another contract changes the stream contract's storage.
use Prim.Native.String.{String}
use sorostream_contracts.Prelude.{ℕ, Bool, not, Option, List, [], ◌∷◌, ◌++◌}
use sorostream_contracts.Prelude.Int.{ℤ}
use sorostream_contracts.Types.{Address, Bytes, Stream, AuditEntry, Event, StreamError}
use sorostream_contracts.Call.{Call, pure, gets, or_panic, modify, panic_if, ◌>>=◌, ◌>>◌}

-- The calls of functions of other contracts, with their arguments.
pub data Invocation : Type 0 where
  on_stream_withdraw : ℕ → ℤ → Invocation
  deposit : Address → ℤ → Invocation
  withdraw_treasury : Address → ℤ → Address → Invocation
  withdraw_all : Address → Address → Invocation

pub record Env (C : Type 0) : Type 0 where
  pub timestamp : ℕ
  pub current_contract : Address
  -- whether `require_auth` of an address passes
  pub authorized : Address → Bool
  -- token, from, to and amount; `none` is a trap
  pub token_transfer : Address → Address → Address → ℤ → C → Option C
  pub token_balance : Address → Address → C → ℤ
  -- `invoke_contract` hands on the result and traps if the callee fails; `try_invoke_contract`,
  -- whose result the source drops, goes on
  pub invoke_contract : Address → Invocation → C → Option (ℤ × C)
  pub try_invoke_contract : Address → Invocation → C → C
  pub update_current_contract_wasm : Bytes → C → C
  pub address_to_xdr : Address → Bytes
  pub sha256 : Bytes → Bytes

-- `env.storage().instance()`, an entry for each key.
pub record Instance : Type 0 where
  pub admin : Option Address
  pub paused : Option Bool
  pub fee_bps : Option ℕ
  pub treasury : Option Address
  pub min_duration : Option ℕ
  pub version : Option String
  pub max_streams : Option ℕ
  pub stream_count : Option ℕ
  pub pending_fee : Option (ℕ × ℕ)
  pub withdrawal_cooldown : Option ℕ
  pub whitelist_enabled : Option Bool
  pub guardian : Option Address
  pub governance : Option Address
  pub pause_expires : Option ℕ
  pub creation_fee_xlm : Option ℤ
  pub xlm_token : Option Address
  pub audit_head : Option ℕ
  pub audit_len : Option ℕ
  pub audit_slot : ℕ → Option AuditEntry
  pub applied_migrations : Option (List String)

-- The counter and the slots of one index: keys `("sc", addr)` and `("s", addr, idx)` for senders,
-- `("rc", addr)` and `("r", addr, idx)` for recipients.
pub record Slots : Type 0 where
  pub count : Address → Option ℕ
  pub slot : Address → ℕ → Option ℕ

-- `env.storage().persistent()`, a map for each family of keys.
pub record Persistent : Type 0 where
  pub streams : ℕ → Option Stream
  pub global_slot : ℕ → Option ℕ
  pub by_sender : Slots
  pub by_recipient : Slots
  pub batch_nonce : Address → Option ℕ
  pub nonce : Address → ℕ → Option Bool
  pub delegate : ℕ → Option Address
  pub whitelist : Address → Option Bool
  pub fee_exempt : Address → Option Bool
  pub sender_limit : Address → Option ℕ

pub record World (C : Type 0) : Type 0 where
  pub inst : Instance
  pub pers : Persistent
  pub chain : C
  pub events : List Event

-- A call of a function of the stream contract.
abbrev pub Exec : Type 0 → Type 0 → Type 0
Exec C A = Call (World C) StreamError A

module _ {C : Type 0} where
  abbrev pub set_chain : C → World C → World C
  set_chain c w = record w { chain = c }

  -- `addr.require_auth()`
  unfoldable pub require_auth : Env C → Address → Exec C (Unit {0})
  require_auth env a = panic_if (not (env.authorized a))

  -- `token::Client::new(&env, &token).transfer(&from, &to, &amount)`
  unfoldable pub transfer : Env C → Address → Address → Address → ℤ → Exec C (Unit {0})
  transfer env token from to amount = do
    c ← or_panic (← gets (λ w. env.token_transfer token from to amount w.chain))
    modify (set_chain c)

  -- `env.try_invoke_contract(..)`
  unfoldable pub try_invoke : Env C → Address → Invocation → World C → World C
  try_invoke env a i w = record w { chain = env.try_invoke_contract a i w.chain }

  -- `env.invoke_contract(..)`
  unfoldable pub invoke : Env C → Address → Invocation → Exec C ℤ
  invoke env a i = do
    reply ← or_panic (← gets (λ w. env.invoke_contract a i w.chain))
    modify (set_chain reply.1)
    pure reply.0

  -- `env.events().publish(..)`
  unfoldable pub publish : Event → World C → World C
  publish e w = record w { events = w.events ++ e ∷ [] }
