-- ===== src/Call/Unchanged.antt =====
-- Calls that leave one part of the world as it was, by one rule for each way to build a call.
use sorostream_contracts.Prelude.{
  ◌≡◌, refl, ap, ◌∙◌, Bool, true, false, Option, none, some, if◌then◌else◌,
}
use sorostream_contracts.Call.{
  Call, pure, gets, or_err, or_panic, modify, fail_if, panic_if, when, ◌>>=◌,
}
use sorostream_contracts.Call.Rules.{Ensures, Ensures-bind, Ensures-weaken}

-- Whatever world `m` returns in, its part `o` is that of the world before.
pub record Unchanged {W E A X : Type 0} (o : W → X) (m : Call W E A) : Type 0 where
  pub at : (w : W) → Ensures m w (λ a w'. o w' ≡ o w)

module _ {W E A X : Type 0} (o : W → X) where
  pub Unchanged-pure : (a : A) → Unchanged o (pure {W = W} {E = E} a)
  unfolding pure
  Unchanged-pure a = record { at = λ w. record { returned = refl } }

  pub Unchanged-gets : (f : W → A) → Unchanged o (gets {E = E} f)
  unfolding gets
  Unchanged-gets f = record { at = λ w. record { returned = refl } }

  pub Unchanged-or_err : (a : Option A) (e : E) → Unchanged o (or_err a e)
  unfolding or_err
  Unchanged-or_err none e = record { at = λ w. record { returned = tt } }
  Unchanged-or_err (some a) e = record { at = λ w. record { returned = refl } }

  pub Unchanged-or_panic : (a : Option A) → Unchanged o (or_panic {E = E} a)
  unfolding or_panic
  Unchanged-or_panic none = record { at = λ w. record { returned = tt } }
  Unchanged-or_panic (some a) = record { at = λ w. record { returned = refl } }

  pub Unchanged-if :
      (b : Bool) (m n : Call W E A)
      → Unchanged o m
      → Unchanged o n
      → Unchanged o (if b then m else n)
  Unchanged-if true m n h k = h
  Unchanged-if false m n h k = k

module _ {W E X : Type 0} (o : W → X) where
  pub Unchanged-modify : (f : W → W) → ((w : W) → o (f w) ≡ o w) → Unchanged o (modify {E = E} f)
  unfolding modify
  Unchanged-modify f h = record { at = λ w. record { returned = h w } }

  pub Unchanged-fail_if : (b : Bool) (e : E) → Unchanged o (fail_if b e)
  unfolding fail_if
  Unchanged-fail_if true e = record { at = λ w. record { returned = tt } }
  Unchanged-fail_if false e = record { at = λ w. record { returned = refl } }

  pub Unchanged-panic_if : (b : Bool) → Unchanged o (panic_if {E = E} b)
  unfolding panic_if
  Unchanged-panic_if true = record { at = λ w. record { returned = tt } }
  Unchanged-panic_if false = record { at = λ w. record { returned = refl } }

  pub Unchanged-when : (b : Bool) (m : Call W E (Unit {0})) → Unchanged o m → Unchanged o (when b m)
  unfolding when
  Unchanged-when true m h = h
  Unchanged-when false m h = Unchanged-pure o tt

module _ {W E A B X : Type 0} (o : W → X) where
  pub Unchanged-bind :
      (m : Call W E A) (f : A → Call W E B)
      → Unchanged o m
      → ((a : A) → Unchanged o (f a))
      → Unchanged o (m >>= f)
  Unchanged-bind m f h k = record {
    at = λ w.
        Ensures-bind (λ a w'. o w' ≡ o w) (h.at w)
          (λ a w' e. Ensures-weaken ((k a).at w') (λ b w'' e'. e' ∙ e));
  }

-- A part of what is left alone is left alone.
pub Unchanged-part :
    {W E A X Y : Type 0} (o : W → X) (p : X → Y) {m : Call W E A}
    → Unchanged o m
    → Unchanged (λ w. p (o w)) m
Unchanged-part o p h = record { at = λ w. Ensures-weaken (h.at w) (λ a w' e. ap p e) }

pub ruleset unchanged_rules = (
  Unchanged-pure, Unchanged-gets, Unchanged-or_err, Unchanged-or_panic, Unchanged-if,
  Unchanged-modify, Unchanged-fail_if, Unchanged-panic_if, Unchanged-when, Unchanged-bind,
)
