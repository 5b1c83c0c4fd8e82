-- ===== src/Proxy.antt =====
-- contracts/proxy/src/lib.rs: the proxy contract, which keeps the hash of the implementation and the
-- version of its storage layout.
pub mod Upgrades
use Prim.Native.String.{String}
use sorostream_contracts.Prelude.{
  ℕ, Bool, not, Option, none, some, List, [], ◌∷◌, ◌++◌, ◌!=◌, is_some, unwrap_or,
}
use sorostream_contracts.Types.{Address, Bytes}
use sorostream_contracts.Call.{
  Call, pure, gets, or_err, or_panic, modify, fail_if, panic_if, ◌>>=◌, ◌>>◌,
}

pub data ProxyError : Type 0 where
  not_initialized already_initialized not_admin storage_version_mismatch : ProxyError
  migration_already_applied : ProxyError

pub data ProxyEvent : Type 0 where
  proxy_initialized : Address → Bytes → ℕ → ProxyEvent
  proxy_upgraded : Address → Bytes → Bytes → ℕ → ProxyEvent
  proxy_migrated : String → String → ProxyEvent

pub record Proxy (C : Type 0) : Type 0 where
  pub admin : Option Address
  pub impl_hash : Option Bytes
  pub storage_version : Option ℕ
  pub chain : C
  pub events : List ProxyEvent

-- The host: authorizations, the change of the contract's own code, and the call of `migrate` of the
-- implementation, where `none` is a trap.
pub record Host (C : Type 0) : Type 0 where
  pub authorized : Address → Bool
  pub update_current_contract_wasm : Bytes → C → C
  pub invoke_migrate : Address → String → String → C → Option C

abbrev pub Act : Type 0 → Type 0 → Type 0
Act C A = Call (Proxy C) ProxyError A

module _ {C : Type 0} where
  unfoldable pub read_storage_version : Proxy C → ℕ
  read_storage_version p = unwrap_or p.storage_version 0

  abbrev publish : ProxyEvent → Proxy C → Proxy C
  publish e p = record p { events = p.events ++ e ∷ [] }

  abbrev with_admin : Address → Proxy C → Proxy C
  with_admin admin p = record p { admin = some admin }

  abbrev with_impl : Bytes → ℕ → Proxy C → Proxy C
  with_impl hash version p = record p { impl_hash = some hash; storage_version = some version }

  unfoldable pub initialize : Address → Bytes → ℕ → Act C (Unit {0})
  initialize admin impl_hash initial_storage_version = do
    current ← gets (λ p. p.admin)
    fail_if (is_some current) already_initialized
    modify (with_admin admin)
    modify (with_impl impl_hash initial_storage_version)
    modify (publish (proxy_initialized admin impl_hash initial_storage_version))

  unfoldable pub get_admin : Act C Address
  get_admin = do or_err (← gets (λ p. p.admin)) not_initialized

  unfoldable pub get_impl_hash : Act C Bytes
  get_impl_hash = do or_err (← gets (λ p. p.impl_hash)) not_initialized

module _ {C : Type 0} (host : Host C) where
  unfoldable pub check_admin : Act C Address
  check_admin = do
    admin ← or_panic (← gets (λ p. p.admin))
    panic_if (not (host.authorized admin))
    pure admin

  unfoldable pub set_admin : Address → Act C (Unit {0})
  set_admin new_admin = do check_admin; modify (with_admin new_admin)

  unfoldable pub upgrade : Bytes → ℕ → ℕ → Act C (Unit {0})
  upgrade new_impl_hash expected_storage_version new_storage_version = do
    admin ← check_admin
    current_version ← gets read_storage_version
    fail_if (current_version != expected_storage_version) storage_version_mismatch
    old_hash ← or_err (← gets (λ p. p.impl_hash)) not_initialized
    modify (with_impl new_impl_hash new_storage_version)
    modify (publish (proxy_upgraded admin old_hash new_impl_hash new_storage_version))

  abbrev with_wasm : Bytes → Proxy C → Proxy C
  with_wasm hash p = record p { chain = host.update_current_contract_wasm hash p.chain }

  unfoldable pub upgrade_proxy : Bytes → Act C (Unit {0})
  upgrade_proxy new_wasm_hash = do check_admin; modify (with_wasm new_wasm_hash)

  abbrev with_chain : C → Proxy C → Proxy C
  with_chain c p = record p { chain = c }

  unfoldable pub migrate : Address → String → String → Act C (Unit {0})
  migrate impl_contract from_version to_version = do
    check_admin
    chain ←
        or_panic (← gets (λ p. host.invoke_migrate impl_contract from_version to_version p.chain))
    modify (with_chain chain)
    modify (publish (proxy_migrated from_version to_version))
