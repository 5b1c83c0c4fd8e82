-- ===== src/Proxy/Upgrades.antt =====
-- contracts/proxy/src/lib.rs: what `upgrade` asks for and what it changes.
use Prim.Native.String.{String}
use sorostream_contracts.Prelude.{
  ℕ, ◌≡◌, refl, true, false, some, ◌++◌, [], ◌∷◌, ◌!=◌, ◌==◌, if◌then◌else◌, unwrap_or, Bool-cases,
  inl, inr, arith,
}
use sorostream_contracts.Types.{Address, Bytes}
use sorostream_contracts.Call.{
  ok, err, panic, gets, or_err, or_panic, pure, modify, fail_if, panic_if, ◌>>=◌,
}
use sorostream_contracts.Proxy.{
  Proxy, Host, read_storage_version, check_admin, upgrade, storage_version_mismatch, proxy_upgraded,
  set_admin, migrate, upgrade_proxy,
}

module _ {C : Type 0} (host : Host C) where
  -- What `upgrade` leaves when it succeeds.
  abbrev pub upgraded : Proxy C → Address → Bytes → Bytes → ℕ → Proxy C
  upgraded p admin old new version = record p {
    impl_hash = some new;
    storage_version = some version;
    events = p.events ++ proxy_upgraded admin old new version ∷ [];
  }

  -- For a proxy with an admin who authorizes the call and with an implementation, upgrade returns
  -- exactly when the expected storage version is the stored one, and then replaces the hash and
  -- the version, reports both hashes and changes nothing else; with another expected version it
  -- answers storage_version_mismatch.
  pub upgrade-checked :
      (p : Proxy C) (admin : Address) (old new : Bytes) (expected version : ℕ)
      → p.admin ≡ some admin
      → host.authorized admin ≡ true
      → p.impl_hash ≡ some old
      → upgrade host new expected version p ≡ (
          if read_storage_version p == expected
          then ok (tt, upgraded p admin old new version)
          else err storage_version_mismatch)
  unfolding upgrade read_storage_version check_admin gets or_err or_panic pure modify fail_if
      panic_if ◌>>=◌
  upgrade-checked p admin old new expected version is_admin auth is_old =
      elim (Bool-cases (unwrap_or p.storage_version 0 == expected)) [
        | inl h ↦
            let differs : (unwrap_or p.storage_version 0 != expected) ≡ false = ground arith in
            rw (is_admin, auth, is_old, h, differs) refl
        | inr h ↦
            let differs : (unwrap_or p.storage_version 0 != expected) ≡ true = ground arith in
            rw (is_admin, auth, is_old, h, differs) refl
      ]

  -- Without the authorization of the stored admin of a proxy, upgrade, upgrade_proxy, set_admin
  -- and migrate panic for all their arguments.
  pub guarded :
      (p : Proxy C) (admin : Address)
      → p.admin ≡ some admin
      → host.authorized admin ≡ false
      → ((new : Bytes) (expected version : ℕ) → upgrade host new expected version p ≡ panic)
        × ((wasm : Bytes) → upgrade_proxy host wasm p ≡ panic)
        × ((a : Address) → set_admin host a p ≡ panic)
        × ((impl : Address) (from to : String) → migrate host impl from to p ≡ panic)
  unfolding upgrade upgrade_proxy set_admin migrate check_admin gets or_panic panic_if ◌>>=◌
  guarded p admin is_admin unauthorized = (
    λ new expected version. rw (is_admin, unauthorized) refl,
    λ wasm. rw (is_admin, unauthorized) refl,
    λ a. rw (is_admin, unauthorized) refl,
    λ impl from to. rw (is_admin, unauthorized) refl,
  )
