-- ===== src/Treasury/Conserves.antt =====
-- contracts/treasury/src/lib.rs, `distribute`: what becomes of the balance of a token.
use sorostream_contracts.Prelude.{
  ℕ, ◌+◌, ◌-◌, ◌*◌, ◌/◌, ◌≤◌, ◌≡◌, refl, ap, ◌∙◌, none, arith, update_self, unwrap_or, ◌==◌,
}
use sorostream_contracts.Prelude.Int.{ℤ, pos}
use sorostream_contracts.Prelude.Shares.{share_exact}
use sorostream_contracts.Types.{Address}
use sorostream_contracts.Call.Rules.{
  Ensures, Ensures-bind, Ensures-weaken, Ensures-pure, Ensures-gets, Ensures-or_panic,
  Ensures-modify, Ensures-if,
}
use sorostream_contracts.Call.Unchanged.{Unchanged, Unchanged-when, unchanged_rules}
use sorostream_contracts.Env.{Env}
use sorostream_contracts.Treasury.{
  Treasury, read_treasury_split_bps, get_balance, set_balance, transfer, check_admin, split_balance,
  distribute, pay_lp_pool,
}

module _ {C : Type 0} (env : Env C) where
  abbrev pub balance_of : Address → Treasury C → ℤ
  balance_of token t = get_balance t token

  pub transfer-balance :
      (token token' to : Address) (n : ℤ) → Unchanged (balance_of token') (transfer env token to n)
  unfolding transfer get_balance
  transfer-balance token token' to n = search unchanged_rules depth 8

  check_admin-same : Unchanged (λ t. t) (check_admin env)
  unfolding check_admin
  check_admin-same = search unchanged_rules depth 8

  pay_lp_pool-balance :
      (token token' : Address) (n : ℤ) → Unchanged (balance_of token') (pay_lp_pool env token n)
  unfolding pay_lp_pool
  pay_lp_pool-balance token token' n = search (unchanged_rules, transfer-balance) depth 8

  emptied :
      (token : Address) (t : Treasury C) → get_balance (set_balance token none t) token ≡ pos 0
  unfolding get_balance set_balance
  emptied token t = ap (λ v. unwrap_or v (pos 0)) (update_self t.balance token none)

  -- The two shares of a distribution are not negative and add up to the total, and nothing is left.
  abbrev pub Shares : Address → ℕ → ℤ × ℤ → Treasury C → Type 0
  Shares token total shares t =
      (a : ℕ) × (b : ℕ) × (shares ≡ (pos a, pos b))
      × (a + b ≡ total)
      × (get_balance t token ≡ pos 0)

  split_balance-Shares :
      (token destination : Address) (total : ℕ) (t : Treasury C)
      → read_treasury_split_bps t ≤ 10000
      → Ensures (split_balance env token destination (pos total)) t (Shares token total)
  unfolding split_balance get_balance set_balance
  split_balance-Shares token destination total t small = Ensures-gets _ _ (
      Ensures-or_panic λ p multiplied. Ensures-or_panic λ a divided. Ensures-or_panic λ b rest.
        let (kept, given, le) = share_exact total _ p a b small multiplied divided rest in
        Ensures-modify _ (
          Ensures-bind (λ _ t'. get_balance t' token ≡ pos 0)
            (Ensures-weaken
              ((Unchanged-when (balance_of token) _ _
                  (transfer-balance token token destination a)).at
                _)
              (λ _ t' same. same ∙ emptied token t))
            λ _ t₁ e₁.
              Ensures-bind (λ _ t'. get_balance t' token ≡ pos 0)
                (Ensures-weaken
                  ((Unchanged-when (balance_of token) _ _ (pay_lp_pool-balance token token b)).at
                    t₁)
                  (λ _ t' same. same ∙ e₁))
                λ _ t₂ e₂. Ensures-modify _ (
                  Ensures-pure _ (
                    total * read_treasury_split_bps t / 10000,
                    total - total * read_treasury_split_bps t / 10000,
                    cc,
                    omega arith,
                    e₂,
                  ))))

  -- For a balance of a token that is not negative and a treasury share of at most 10000 basis
  -- points, if distribute returns, then the two shares that it returns are not negative and add up
  -- to the balance, and the balance is zero afterwards.
  pub distribute-Shares :
      (token destination : Address) (total : ℕ) (t : Treasury C)
      → read_treasury_split_bps t ≤ 10000
      → get_balance t token ≡ pos total
      → Ensures (distribute env token destination) t (Shares token total)
  unfolding distribute
  distribute-Shares token destination total t small held =
      Ensures-bind (λ _ t'. t' ≡ t) (check_admin-same.at t)
        λ _ t₁ same. rw same (
          Ensures-gets _ _ (
            rw held (
              Ensures-if (total + 0 == 0)
                (λ none_held.
                  Ensures-pure _ (0, 0, refl, ground arith, held ∙ ap pos (ground arith)))
                (λ some_held. split_balance-Shares token destination total t small))))
