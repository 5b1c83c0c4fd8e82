-- ===== src/Prelude/Maps.antt =====
-- Storage entries of one key family: a partial function, with one key written at a time.
use Prim.Native.Nat.{ℕ}
use mathlib.Core.Path.{◌≡◌, fun_ext}
use mathlib.Core.Logic.{◌≢◌}
use native.Mathlib.Omega.{arith}
use sorostream_contracts.Prelude.Tests.{◌==◌, if◌then◌else◌}

module _ {ℓ} {V : Type ℓ} where
  -- `set` and `remove` at one key, by the new entry
  abbrev pub update : (ℕ → V) → ℕ → V → ℕ → V
  update m k v j = if k == j then v else m j

  -- the same for a key of two components
  abbrev pub update₂ : (ℕ → ℕ → V) → ℕ → ℕ → V → ℕ → ℕ → V
  update₂ m k i v j l = if k == j then update (m k) i v l else m j l

  pub update_self : (m : ℕ → V) (k : ℕ) (v : V) → update m k v k ≡ v
  update_self m k v = ground arith

  pub update_ne : (m : ℕ → V) (k j : ℕ) (v : V) → k ≢ j → update m k v j ≡ m j
  update_ne m k j v h = ground arith

  pub update-update : (m : ℕ → V) (k : ℕ) (v w : V) → update (update m k v) k w ≡ update m k w
  update-update m k v w = fun_ext λ j. ground arith
