-- ===== src/Call/Rules.antt =====
-- What holds when a call returns, by one rule for each way to build a call.
use sorostream_contracts.Prelude.{
  ◌≡◌, refl, subst, Bool, true, false, Option, none, some, if◌then◌else◌,
}
use sorostream_contracts.Call.{
  Outcome, ok, err, panic, Call, pure, raise, gets, or_err, or_panic, modify, fail_if, panic_if,
  ◌>>=◌, ◌>>◌, continue,
}

module _ {W E A : Type 0} where
  abbrev pub Holds : Outcome E (A × W) → (A → W → Type 0) → Type 0
  Holds (ok (a, w)) Q = Q a w
  Holds (err e) Q = Unit {0}
  Holds panic Q = Unit {0}

  -- If the call `m` from the world `w` returns, `Q` holds of its value and of the world after it.
  pub record Ensures (m : Call W E A) (w : W) (Q : A → W → Type 0) : Type 0 where
    pub returned : Holds (m w) Q

  pub Ensures-returns :
      {m : Call W E A} {w : W} {Q : A → W → Type 0}
      → Ensures m w Q
      → (a : A) (w' : W) → m w ≡ ok (a, w')
      → Q a w'
  Ensures-returns {Q} h a w' e = subst (λ o. Holds o Q) e h.returned

  pub Ensures-pure : (a : A) {w : W} {Q : A → W → Type 0} → Q a w → Ensures (pure a) w Q
  unfolding pure
  Ensures-pure a h = record { returned = h }

  pub Ensures-raise : (e : E) {w : W} {Q : A → W → Type 0} → Ensures (raise e) w Q
  unfolding raise
  Ensures-raise e = record { returned = tt }

  -- A call ensures what it did.
  pub itself : (m : Call W E A) (w : W) → Ensures m w (λ a w'. m w ≡ ok (a, w'))
  itself m w = record { returned = go (m w) refl }
    where
      go : (o : Outcome E (A × W)) → m w ≡ o → Holds o (λ a w'. m w ≡ ok (a, w'))
      go (ok (a, w')) e = e
      go (err x) e = tt
      go panic e = tt

  -- Of a call that matters no more, nothing is asked.
  pub anything : (m : Call W E A) (w : W) → Ensures m w (λ _ _. Unit {0})
  anything m w = record { returned = go (m w) }
    where
      go : (o : Outcome E (A × W)) → Holds o (λ _ _. Unit {0})
      go (ok (a, w')) = tt
      go (err x) = tt
      go panic = tt

  pub Ensures-weaken :
      {m : Call W E A} {w : W} {P Q : A → W → Type 0}
      → Ensures m w P
      → ((a : A) (w' : W) → P a w' → Q a w')
      → Ensures m w Q
  Ensures-weaken {m} {w} {P} {Q} h k = record { returned = go (m w) h.returned }
    where
      go : (o : Outcome E (A × W)) → Holds o P → Holds o Q
      go (ok (a, w')) p = k a w' p
      go (err x) p = tt
      go panic p = tt

  pub Ensures-or_panic_last :
      {o : Option A} {w : W} {Q : A → W → Type 0}
      → ((a : A) → o ≡ some a → Q a w)
      → Ensures (or_panic o) w Q
  unfolding or_panic
  Ensures-or_panic_last {o = none} k = record { returned = tt }
  Ensures-or_panic_last {o = some a} k = record { returned = k a refl }

  pub Ensures-if :
      (b : Bool) {m n : Call W E A} {w : W} {Q : A → W → Type 0}
      → (b ≡ true → Ensures m w Q)
      → (b ≡ false → Ensures n w Q)
      → Ensures (if b then m else n) w Q
  Ensures-if true f g = f refl
  Ensures-if false f g = g refl

module _ {W E A B : Type 0} where
  pub Ensures-bind :
      {m : Call W E A} {f : A → Call W E B} {w : W} {Q : B → W → Type 0} (P : A → W → Type 0)
      → Ensures m w P
      → ((a : A) (w' : W) → P a w' → Ensures (f a) w' Q)
      → Ensures (m >>= f) w Q
  unfolding ◌>>=◌
  Ensures-bind {m} {f} {w} {Q} P h k = record { returned = go (m w) h.returned }
    where
      go : (o : Outcome E (A × W)) → Holds o P → Holds (continue o f) Q
      go (ok (a, w')) p = (k a w' p).returned
      go (err x) p = tt
      go panic p = tt

  pub Ensures-gets :
      (g : W → A) (f : A → Call W E B) {w : W} {Q : B → W → Type 0}
      → Ensures (f (g w)) w Q
      → Ensures (gets g >>= f) w Q
  unfolding ◌>>=◌ gets
  Ensures-gets g f h = record { returned = h.returned }

  pub Ensures-pure_bind :
      (a : A) (f : A → Call W E B) {w : W} {Q : B → W → Type 0}
      → Ensures (f a) w Q
      → Ensures (pure a >>= f) w Q
  unfolding ◌>>=◌ pure
  Ensures-pure_bind a f h = record { returned = h.returned }

  pub Ensures-or_err :
      {o : Option A} (e : E) {f : A → Call W E B} {w : W} {Q : B → W → Type 0}
      → ((a : A) → o ≡ some a → Ensures (f a) w Q)
      → Ensures (or_err o e >>= f) w Q
  unfolding ◌>>=◌ or_err
  Ensures-or_err {o = none} e k = record { returned = tt }
  Ensures-or_err {o = some a} e k = record { returned = (k a refl).returned }

  pub Ensures-or_err_some :
      {o : Option A} (e : E) (f : A → Call W E B) {w : W} {Q : B → W → Type 0} {a : A}
      → o ≡ some a
      → Ensures (f a) w Q
      → Ensures (or_err o e >>= f) w Q
  unfolding ◌>>=◌ or_err
  Ensures-or_err_some e f known h = rw known (record { returned = h.returned })

  pub Ensures-or_panic :
      {o : Option A} {f : A → Call W E B} {w : W} {Q : B → W → Type 0}
      → ((a : A) → o ≡ some a → Ensures (f a) w Q)
      → Ensures (or_panic o >>= f) w Q
  unfolding ◌>>=◌ or_panic
  Ensures-or_panic {o = none} k = record { returned = tt }
  Ensures-or_panic {o = some a} k = record { returned = (k a refl).returned }

module _ {W E B : Type 0} where
  pub Ensures-modify :
      (g : W → W) {n : Call W E B} {w : W} {Q : B → W → Type 0}
      → Ensures n (g w) Q
      → Ensures (modify g >> n) w Q
  unfolding ◌>>=◌ modify
  Ensures-modify g h = record { returned = h.returned }

  pub Ensures-fail_if :
      {b : Bool} (e : E) {n : Call W E B} {w : W} {Q : B → W → Type 0}
      → (b ≡ false → Ensures n w Q)
      → Ensures (fail_if b e >> n) w Q
  unfolding ◌>>=◌ fail_if
  Ensures-fail_if {b = true} e k = record { returned = tt }
  Ensures-fail_if {b = false} e k = record { returned = (k refl).returned }

  pub Ensures-panic_if :
      {b : Bool} {n : Call W E B} {w : W} {Q : B → W → Type 0}
      → (b ≡ false → Ensures n w Q)
      → Ensures (panic_if b >> n) w Q
  unfolding ◌>>=◌ panic_if
  Ensures-panic_if {b = true} k = record { returned = tt }
  Ensures-panic_if {b = false} k = record { returned = (k refl).returned }

module _ {W E : Type 0} where
  pub Ensures-modify_last :
      (g : W → W) {w : W} {Q : Unit {0} → W → Type 0} → Q tt (g w) → Ensures (modify {E = E} g) w Q
  unfolding modify
  Ensures-modify_last g h = record { returned = h }

  pub Ensures-panic_if_last :
      {b : Bool} {w : W} {Q : Unit {0} → W → Type 0}
      → (b ≡ false → Q tt w)
      → Ensures (panic_if {E = E} b) w Q
  unfolding panic_if
  Ensures-panic_if_last {b = true} k = record { returned = tt }
  Ensures-panic_if_last {b = false} k = record { returned = k refl }
