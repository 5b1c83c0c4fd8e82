-- ===== src/Call.antt =====
-- A call of a contract function: it reads and writes the world, and it returns, answers with one of
-- the contract's errors, or traps (a panic, a failed `require_auth`, a token transfer that traps).
-- Only a return has a world: the host throws away all writes of a call that ends otherwise.
pub mod Rules
pub mod Unchanged
use sorostream_contracts.Prelude.{◌≡◌, refl, Bool, true, false, Option, none, some}

pub data Outcome (E A : Type 0) : Type 0 where
  ok : A → Outcome E A
  err : E → Outcome E A
  panic : Outcome E A

abbrev pub Call : Type 0 → Type 0 → Type 0 → Type 0
Call W E A = W → Outcome E (A × W)

module _ {W E A : Type 0} where
  unfoldable pub pure : A → Call W E A
  pure a w = ok (a, w)

  unfoldable pub raise : E → Call W E A
  raise e w = err e

  unfoldable pub gets : (W → A) → Call W E A
  gets f w = ok (f w, w)

  -- `Option::ok_or(e)?`
  unfoldable pub or_err : Option A → E → Call W E A
  or_err none e w = err e
  or_err (some a) e w = ok (a, w)

  -- `Option::expect`, `Option::unwrap`, and an operation that traps on overflow
  unfoldable pub or_panic : Option A → Call W E A
  or_panic none w = panic
  or_panic (some a) w = ok (a, w)

module _ {W E : Type 0} where
  unfoldable pub modify : (W → W) → Call W E (Unit {0})
  modify f w = ok (tt, f w)

  -- `if b { return Err(e) }`
  unfoldable pub fail_if : Bool → E → Call W E (Unit {0})
  fail_if true e w = err e
  fail_if false e w = ok (tt, w)

  unfoldable pub panic_if : Bool → Call W E (Unit {0})
  panic_if true w = panic
  panic_if false w = ok (tt, w)

module _ {W E A B : Type 0} where
  abbrev pub continue : Outcome E (A × W) → (A → Call W E B) → Outcome E (B × W)
  continue (ok (a, w)) f = f a w
  continue (err e) f = err e
  continue panic f = panic

  infixl 10 ◌>>=◌ ◌>>◌
  unfoldable pub ◌>>=◌ : Call W E A → (A → Call W E B) → Call W E B
  ◌>>=◌ m f w = continue (m w) f

  abbrev pub ◌>>◌ : Call W E A → Call W E B → Call W E B
  m >> n = m >>= λ _. n

module _ {W E : Type 0} where
  -- `if b { m }`
  unfoldable pub when : Bool → Call W E (Unit {0}) → Call W E (Unit {0})
  when true m = m
  when false m = pure tt
