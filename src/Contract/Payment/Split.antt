-- ===== src/Contract/Payment/Split.antt =====
-- contracts/stream/src/lib.rs, the protocol fee and the payment of a claim: how a claim is split.
use sorostream_contracts.Prelude.{
  ℕ, zero, suc, Bool, Bool-cases, inl, inr, ◌+◌, ◌-◌, ◌*◌, ◌/◌, ◌≤◌, ◌≡◌, refl, ap, sym, ◌∙◌, true,
  false, not, Option, some, arith, ltb, ◌&&◌, if◌then◌else◌,
}
use sorostream_contracts.Prelude.Int.{ℤ, pos, ◌-ℤ◌, pos--ℤ-pos}
use sorostream_contracts.Prelude.Machine.{checked_sub_i128, check_i128}
use sorostream_contracts.Prelude.Shares.{share_kept, share-le}
use sorostream_contracts.Types.{Address, Stream}
use sorostream_contracts.Call.Rules.{
  Ensures, Ensures-bind, Ensures-pure, Ensures-gets, Ensures-or_err, Ensures-or_panic,
  Ensures-or_panic_last, anything, Ensures-if,
}
use sorostream_contracts.Env.{Env, World, Exec}
use sorostream_contracts.Storage.Config.{get_protocol_fee}
use sorostream_contracts.Storage.Access.{is_fee_exempt}
use sorostream_contracts.Contract.Payment.{fee_on, pay_claim}

exempt_not : (a b : Bool) → a && not b ≡ true → b ≡ false
exempt_not true true h = cc
exempt_not true false h = refl
exempt_not false b h = cc

free_of_charge :
    (n bps : ℕ) (exempt : Bool)
    → ltb 0 bps && not exempt ≡ false
    → pos 0 ≡ pos (if exempt then 0 else n * bps / 10000)
free_of_charge n bps true h = refl
free_of_charge n zero false h = ap pos (omega arith)
free_of_charge n (suc bps) false h = absurd (ground arith)

rest_of :
    (n f : ℕ) (fee amount : ℤ)
    → f ≤ n
    → fee ≡ pos f
    → checked_sub_i128 (pos n) fee ≡ some amount
    → amount ≡ pos (n - f)
unfolding checked_sub_i128
rest_of n f fee amount le e rest =
    let rest' : check_i128 (pos (n - f)) ≡ some amount =
      sym (ap check_i128 (ap (λ x. pos n -ℤ x) e ∙ pos--ℤ-pos n f le)) ∙ rest in
    ground arith

module _ {C : Type 0} where
  -- The fee that is due on a claim.
  abbrev pub fee_due : World C → Address → ℕ → ℕ
  fee_due w recipient n = if is_fee_exempt w recipient then 0 else n * get_protocol_fee w / 10000

  fee_due-le :
      (w : World C) (recipient : Address) (n : ℕ)
      → get_protocol_fee w ≤ 10000
      → fee_due w recipient n ≤ n
  fee_due-le w recipient n small = elim (Bool-cases (is_fee_exempt w recipient)) [
    | inl exempt ↦ rw exempt (omega arith)
    | inr charged ↦ rw charged (share-le n (get_protocol_fee w) small)
  ]

  fee_on-due :
      (recipient : Address) (n : ℕ) (w : World C)
      → Ensures
          (fee_on recipient (pos n))
          w
          (λ fee w'. (fee ≡ pos (fee_due w recipient n)) × (w' ≡ w))
  unfolding fee_on
  fee_on-due recipient n w = Ensures-gets _ _ (
      Ensures-gets _ _ (
        Ensures-if (ltb 0 (get_protocol_fee w) && not (is_fee_exempt w recipient))
          (λ on. Ensures-or_err _ λ p multiplied. Ensures-or_panic_last λ a divided.
            let due : is_fee_exempt w recipient ≡ false = exempt_not _ _ on in
            (rw due (share_kept n (get_protocol_fee w) p a multiplied divided), refl))
          (λ off. Ensures-pure _ (free_of_charge n _ _ off, refl))))

  -- For a claim that is not negative, with a protocol fee of at most 10000 basis points, if
  -- pay_claim returns, whatever pays the fee, then the amount that it reports as paid to the
  -- recipient is not negative, and it and the fee, which is none for an exempt recipient of the
  -- stream and else the share in basis points rounded down, add up to the claim.
  pub pay_claim-splits :
      (env : Env C) (pay_fee : Env C → Stream → ℕ → ℤ → Option Address → Exec C (Unit {0}))
      (s : Stream) (id : ℕ) (recipient : Address) (n : ℕ) (w : World C)
      → get_protocol_fee w ≤ 10000
      → Ensures
          (pay_claim env pay_fee s id recipient (pos n))
          w
          (λ amount _. (paid : ℕ) × (amount ≡ pos paid) × (paid + fee_due w s.recipient n ≡ n))
  unfolding pay_claim
  pay_claim-splits env pay_fee s id recipient n w small =
      let le = fee_due-le w s.recipient n small in
      Ensures-bind _ (fee_on-due s.recipient n w) λ fee w₁ q. Ensures-or_panic λ amount rest.
        let paid : amount ≡ pos (n - fee_due w s.recipient n) =
          rest_of n (fee_due w s.recipient n) fee amount le q.0 rest in
        Ensures-bind (λ _ _. Unit {0}) (anything _ w₁)
          λ _ w₂ _. Ensures-gets _ _ (
            Ensures-bind (λ _ _. Unit {0}) (anything _ w₂)
              λ _ w₃ _. Ensures-pure _ (n - fee_due w s.recipient n, paid, omega arith))
