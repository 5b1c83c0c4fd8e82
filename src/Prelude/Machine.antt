-- ===== src/Prelude/Machine.antt =====
-- The checked and saturating operations of `u32`, `u64` and `i128` that the source calls. Values of
-- the unsigned types are numbers; `none` is what `checked_*` answers out of range.
use Prim.Native.Nat.{ℕ, ◌+◌, ◌-◌, ◌*◌, ◌^◌, ◌≤◌, ◌<◌}
use mathlib.Core.Path.{◌≡◌}
use mathlib.Core.Bool.{Bool, true}
use mathlib.Core.Option.{Option, none, some}
use native.Mathlib.Omega.{arith}
use sorostream_contracts.Prelude.Tests.{ltb, leb, ◌==◌, if◌then◌else◌}
use sorostream_contracts.Prelude.Int.{
  ℤ, pos, negsuc, ◌+ℤ◌, ◌-ℤ◌, ◌*ℤ◌, quot, rem, pos-+ℤ-pos, pos--ℤ-pos, pos-*ℤ-pos,
}

abbrev pub u32_mod : ℕ
u32_mod = 2 ^ 32

abbrev pub u64_mod : ℕ
u64_mod = 2 ^ 64

-- 2^127: an `i128` lies from -2^127 to 2^127 - 1.
abbrev pub i128_bound : ℕ
i128_bound = 2 ^ 127

abbrev pub u64_max : ℕ
u64_max = u64_mod - 1

abbrev pub checked_add_u32 : ℕ → ℕ → Option ℕ
checked_add_u32 a b = if ltb (a + b) u32_mod then some (a + b) else none

abbrev pub saturating_add_u32 : ℕ → ℕ → ℕ
saturating_add_u32 a b = if ltb (a + b) u32_mod then a + b else u32_mod - 1

abbrev pub checked_add_u64 : ℕ → ℕ → Option ℕ
checked_add_u64 a b = if ltb (a + b) u64_mod then some (a + b) else none

abbrev pub checked_sub_u64 : ℕ → ℕ → Option ℕ
checked_sub_u64 a b = if leb b a then some (a - b) else none

abbrev pub saturating_add_u64 : ℕ → ℕ → ℕ
saturating_add_u64 a b = if ltb (a + b) u64_mod then a + b else u64_max

-- `-` on ℕ stops at 0, as `saturating_sub` does.
abbrev pub saturating_sub_u64 : ℕ → ℕ → ℕ
saturating_sub_u64 a b = a - b

abbrev pub fits_i128 : ℤ → Bool
fits_i128 (pos n) = ltb n i128_bound
fits_i128 (negsuc n) = ltb n i128_bound

abbrev pub check_i128 : ℤ → Option ℤ
check_i128 a = if fits_i128 a then some a else none

abbrev pub saturate_i128 : ℤ → ℤ
saturate_i128 (pos n) = if ltb n i128_bound then pos n else pos (i128_bound - 1)
saturate_i128 (negsuc n) = if ltb n i128_bound then negsuc n else negsuc (i128_bound - 1)

unfoldable pub checked_add_i128 : ℤ → ℤ → Option ℤ
checked_add_i128 a b = check_i128 (a +ℤ b)

unfoldable pub checked_sub_i128 : ℤ → ℤ → Option ℤ
checked_sub_i128 a b = check_i128 (a -ℤ b)

unfoldable pub checked_mul_i128 : ℤ → ℤ → Option ℤ
checked_mul_i128 a b = check_i128 (a *ℤ b)

unfoldable pub saturating_add_i128 : ℤ → ℤ → ℤ
saturating_add_i128 a b = saturate_i128 (a +ℤ b)

unfoldable pub saturating_sub_i128 : ℤ → ℤ → ℤ
saturating_sub_i128 a b = saturate_i128 (a -ℤ b)

unfoldable pub saturating_mul_i128 : ℤ → ℤ → ℤ
saturating_mul_i128 a b = saturate_i128 (a *ℤ b)

-- `/` and `%` panic on a zero divisor, and on -2^127 by -1.
abbrev pub divides_i128 : ℤ → ℤ → Bool
divides_i128 a (pos b) = ltb 0 b
divides_i128 (pos a) (negsuc b) = true
divides_i128 (negsuc a) (negsuc b) = if b == 0 then ltb (a + 1) i128_bound else true

unfoldable pub div_i128 : ℤ → ℤ → Option ℤ
div_i128 a b = if divides_i128 a b then some (quot a b) else none

unfoldable pub rem_i128 : ℤ → ℤ → Option ℤ
rem_i128 a b = if divides_i128 a b then some (rem a b) else none

-- `u64::try_from`
abbrev pub u64_try_from : ℤ → Option ℕ
u64_try_from (pos n) = if ltb n u64_mod then some n else none
u64_try_from (negsuc n) = none

pub checked_add_i128-pos :
    (a b : ℕ) → a + b < i128_bound → checked_add_i128 (pos a) (pos b) ≡ some (pos (a + b))
unfolding checked_add_i128
checked_add_i128-pos a b h = rw pos-+ℤ-pos (ground arith)

pub checked_mul_i128-pos :
    (a b : ℕ) → a * b < i128_bound → checked_mul_i128 (pos a) (pos b) ≡ some (pos (a * b))
unfolding checked_mul_i128
checked_mul_i128-pos a b h = rw pos-*ℤ-pos (ground arith)

pub saturating_sub_i128-pos :
    (a b : ℕ) → b ≤ a → a < i128_bound → saturating_sub_i128 (pos a) (pos b) ≡ pos (a - b)
unfolding saturating_sub_i128
saturating_sub_i128-pos a b h k = rw (pos--ℤ-pos a b h) (ground arith)

pub checked_sub_i128-pos :
    (a b : ℕ) → b ≤ a → a < i128_bound → checked_sub_i128 (pos a) (pos b) ≡ some (pos (a - b))
unfolding checked_sub_i128
checked_sub_i128-pos a b h k = rw (pos--ℤ-pos a b h) (ground arith)

pub saturating_mul_i128-pos :
    (a b : ℕ) → a * b < i128_bound → saturating_mul_i128 (pos a) (pos b) ≡ pos (a * b)
unfolding saturating_mul_i128
saturating_mul_i128-pos a b h = rw pos-*ℤ-pos (ground arith)

-- What a checked product or sum of values that are not negative answers, where it does.
pub checked_mul_i128-eq :
    (a b : ℕ) {r : ℤ}
    → checked_mul_i128 (pos a) (pos b) ≡ some r
    → (r ≡ pos (a * b)) × (a * b < i128_bound)
unfolding checked_mul_i128
checked_mul_i128-eq a b h =
    let h' : check_i128 (pos (a * b)) ≡ some _ = rw pos-*ℤ-pos at h in (ground arith, ground arith)

pub checked_add_i128-eq :
    (a b : ℕ) {r : ℤ}
    → checked_add_i128 (pos a) (pos b) ≡ some r
    → (r ≡ pos (a + b)) × (a + b < i128_bound)
unfolding checked_add_i128
checked_add_i128-eq a b h =
    let h' : check_i128 (pos (a + b)) ≡ some _ = rw pos-+ℤ-pos at h in (ground arith, ground arith)

pub checked_add_u64-eq : (a b : ℕ) {c : ℕ} → checked_add_u64 a b ≡ some c → c ≡ a + b
checked_add_u64-eq a b h = ground arith

pub checked_sub_u64-eq : (a b : ℕ) {c : ℕ} → checked_sub_u64 a b ≡ some c → c ≡ a - b
checked_sub_u64-eq a b h = ground arith
