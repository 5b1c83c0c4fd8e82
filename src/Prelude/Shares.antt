-- ===== src/Prelude/Shares.antt =====
-- The arithmetic of a share in basis points, as lib.rs of the stream and of the treasury compute it.
use Prim.Native.Nat.{ℕ, ◌-◌, ◌*◌, ◌/◌, ◌≤◌}
use mathlib.Core.Path.{◌≡◌, sym, ap, ◌∙◌}
use mathlib.Core.Option.{some}
use native.Mathlib.Omega.{arith}
use native.Mathlib.Nat.{mul-le-mul_left}
use sorostream_contracts.Prelude.Int.{ℤ, pos, ◌-ℤ◌, pos--ℤ-pos}
use sorostream_contracts.Prelude.Machine.{
  checked_mul_i128-eq, checked_sub_i128, div_i128, checked_mul_i128, check_i128,
}

-- A share in basis points, rounded down.
pub share_kept :
    (total bps : ℕ) (p a : ℤ)
    → checked_mul_i128 (pos total) (pos bps) ≡ some p
    → div_i128 p (pos 10000) ≡ some a
    → a ≡ pos (total * bps / 10000)
unfolding div_i128
share_kept total bps p a e f =
    let (product, _) = checked_mul_i128-eq total bps e in let f' = (rw product at f) in ground arith

pub share-le : (total bps : ℕ) → bps ≤ 10000 → total * bps / 10000 ≤ total
share-le total bps small = let scaled = mul-le-mul_left total small in omega arith

-- The share and the rest.
pub share_exact :
    (total bps : ℕ) (p a b : ℤ)
    → bps ≤ 10000
    → checked_mul_i128 (pos total) (pos bps) ≡ some p
    → div_i128 p (pos 10000) ≡ some a
    → checked_sub_i128 (pos total) a ≡ some b
    → (a ≡ pos (total * bps / 10000))
      × (b ≡ pos (total - total * bps / 10000))
      × (total * bps / 10000 ≤ total)
unfolding div_i128 checked_sub_i128
share_exact total bps p a b small e f g =
    let kept = share_kept total bps p a e f in
    let le = share-le total bps small in
    let g' : check_i128 (pos (total - total * bps / 10000)) ≡ some b =
      sym (ap check_i128 (ap (λ x. pos total -ℤ x) kept ∙ pos--ℤ-pos total _ le)) ∙ g in
    (kept, ground arith, le)
