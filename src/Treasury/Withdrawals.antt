-- ===== src/Treasury/Withdrawals.antt =====
-- contracts/treasury/src/lib.rs, `withdraw_treasury` and `withdraw_all`: what they take from the balances.
use sorostream_contracts.Prelude.{
  ◌≡◌, ◌≢◌, refl, ap, ◌∙◌, Bool, true, false, none, some, arith, update_self, update_ne, unwrap_or,
}
use sorostream_contracts.Prelude.Int.{ℤ, pos, ltb_ℤ, ◌≤ℤ◌, ◌+ℤ◌, int_laws}
use sorostream_contracts.Prelude.Machine.{checked_sub_i128}
use sorostream_contracts.Types.{Address}
use sorostream_contracts.Call.Rules.{
  Ensures, Ensures-bind, Ensures-weaken, Ensures-gets, Ensures-or_panic, Ensures-panic_if,
  Ensures-panic_if_last, Ensures-modify,
}
use sorostream_contracts.Call.Unchanged.{Unchanged, unchanged_rules}
use sorostream_contracts.Env.{Env}
use sorostream_contracts.Treasury.{
  Treasury, get_balance, set_balance, transfer, check_admin, withdraw_treasury,
}
use sorostream_contracts.Contract.Sound.{not-false}

difference : (a b : ℤ) {r : ℤ} → checked_sub_i128 a b ≡ some r → r +ℤ b ≡ a
unfolding checked_sub_i128
difference a b e = grind int_laws

within : (a b : ℤ) → ltb_ℤ b a ≡ false → a ≤ℤ b
within a b h = ground arith

module _ {C : Type 0} (env : Env C) where
  -- The stored admin has authorized the call.
  abbrev pub by_admin : Treasury C → Bool
  by_admin t = elim t.admin [ none ↦ false | some a ↦ env.authorized a ]

  transfer-balances :
      (token to : Address) (n : ℤ) → Unchanged (λ t. t.balance) (transfer env token to n)
  unfolding transfer
  transfer-balances token to n = search unchanged_rules depth 8

  check_admin-seen :
      (t : Treasury C) → Ensures (check_admin env) t (λ _ t'. (t' ≡ t) × (by_admin t ≡ true))
  unfolding check_admin
  check_admin-seen t = Ensures-gets _ _ (
      Ensures-or_panic λ a found. Ensures-panic_if_last λ auth. (refl, rw found (not-false _ auth)))

  -- A withdrawal of an amount of a token.
  pub record Takes (token : Address) (amount : ℤ) (t t' : Treasury C) : Type 0 where
    pub authorized : by_admin t ≡ true
    pub covered : amount ≤ℤ get_balance t token
    pub taken : get_balance t' token +ℤ amount ≡ get_balance t token
    pub others : (other : Address) → token ≢ other → get_balance t' other ≡ get_balance t other

  -- If withdraw_treasury returns, then the stored admin of the treasury has authorized it, the
  -- amount is at most the balance of the token, the balance has gone down by exactly the amount,
  -- and the balances of the other tokens are unchanged.
  pub withdraw_treasury-Takes :
      (token : Address) (amount : ℤ) (destination : Address) (t : Treasury C)
      → Ensures (withdraw_treasury env token amount destination) t (λ _ t'. Takes token amount t t')
  unfolding withdraw_treasury get_balance set_balance
  withdraw_treasury-Takes token amount destination t = Ensures-bind _ (check_admin-seen t) λ _ t₁ p.
      Ensures-gets _ _ (
        Ensures-panic_if λ enough. Ensures-or_panic λ rest e. Ensures-modify _ (
          Ensures-weaken
            ((transfer-balances token destination amount).at (set_balance token (some rest) t₁))
            λ _ t₂ q. record {
              authorized = p.1;
              covered = rw p.0 at (within amount (get_balance t₁ token) enough);
              taken =
                  ap (λ m. unwrap_or (m token) (pos 0) +ℤ amount) q
                  ∙ ap (λ v. unwrap_or v (pos 0) +ℤ amount)
                      (update_self t₁.balance token (some rest))
                  ∙ difference (get_balance t₁ token) amount e
                  ∙ ap (λ x. unwrap_or (x.balance token) (pos 0)) p.0;
              others = λ other apart.
                  ap (λ m. unwrap_or (m other) (pos 0)) q
                  ∙ ap (λ v. unwrap_or v (pos 0))
                      (update_ne t₁.balance token other (some rest) apart)
                  ∙ ap (λ x. unwrap_or (x.balance other) (pos 0)) p.0;
            }))
