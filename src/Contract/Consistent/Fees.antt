-- ===== src/Contract/Consistent/Fees.antt =====
-- contracts/stream/src/lib.rs, `set_protocol_fee`, `propose_fee_change` and `execute_fee_change`: the fees
-- stay in range.
use sorostream_contracts.Prelude.{ℕ, ◌≤◌, ◌≡◌, Option, none, some, arith}
use sorostream_contracts.Types.{Address}
use sorostream_contracts.Call.Rules.{
  Ensures, Ensures-gets, Ensures-or_err, Ensures-fail_if, Ensures-modify, Ensures-modify_last,
}
use sorostream_contracts.Env.{Env, World, publish}
use sorostream_contracts.Storage.Config
use sorostream_contracts.Storage.Config.{
  read_pending_fee_proposal, write_pending_fee_proposal, clear_pending_fee_proposal,
}
use sorostream_contracts.Contract.Fees.{set_protocol_fee, propose_fee_change, execute_fee_change}
use sorostream_contracts.Contract.Frames.{Core, core_of, require_auth-core}
use sorostream_contracts.Contract.Consistent.{IsConsistent, ConsistentAfter}
use sorostream_contracts.Contract.Consistent.Writes.{keep}

with_fee-IsConsistent :
    (c : Core) (bps : ℕ)
    → bps ≤ 10000
    → IsConsistent c
    → IsConsistent (record c { fee_bps = some bps })
with_fee-IsConsistent c bps le h = record {
  own_id = h.own_id;
  senders = h.senders;
  recipients = h.recipients;
  fee_in = le;
  pending_in = h.pending_in;
}

with_pending-IsConsistent :
    (c : Core) (o : Option (ℕ × ℕ))
    → ((bps unlock : ℕ) → o ≡ some (bps, unlock) → bps ≤ 10000)
    → IsConsistent c
    → IsConsistent (record c { pending_fee = o })
with_pending-IsConsistent c o le h = record {
  own_id = h.own_id;
  senders = h.senders;
  recipients = h.recipients;
  fee_in = h.fee_in;
  pending_in = le;
}

module _ {C : Type 0} (env : Env C) where
  pub set_protocol_fee-IsConsistent :
      (n : ℕ) (w : World C)
      → IsConsistent (core_of w)
      → Ensures (set_protocol_fee n) w ConsistentAfter
  unfolding set_protocol_fee Config.set_protocol_fee
  set_protocol_fee-IsConsistent n w h =
      Ensures-fail_if _
        λ small. Ensures-modify_last _ (with_fee-IsConsistent (core_of w) n (ground arith) h)

  pub propose_fee_change-IsConsistent :
      (a : Address) (n : ℕ) (w : World C)
      → IsConsistent (core_of w)
      → Ensures (propose_fee_change env a n) w ConsistentAfter
  unfolding propose_fee_change write_pending_fee_proposal publish
  propose_fee_change-IsConsistent a n w h = keep IsConsistent (require_auth-core env a) h λ _ w₁ h₁.
      Ensures-gets _ _ (
        Ensures-or_err _ λ admin _. Ensures-fail_if _ λ _. Ensures-fail_if _ λ small.
          Ensures-modify _ (
            Ensures-modify_last _ (
              with_pending-IsConsistent (core_of w₁) _
                (λ bps unlock e. let same : n ≡ bps = cc in ground arith) h₁)))

  pub execute_fee_change-IsConsistent :
      (w : World C) → IsConsistent (core_of w) → Ensures (execute_fee_change env) w ConsistentAfter
  unfolding execute_fee_change read_pending_fee_proposal Config.set_protocol_fee
      clear_pending_fee_proposal publish
  execute_fee_change-IsConsistent w h = Ensures-gets _ _ (
      Ensures-or_err _ λ proposal found. Ensures-fail_if _ λ _. Ensures-modify _ (
        Ensures-modify _ (
          Ensures-modify_last _ (
            with_pending-IsConsistent _ none (λ bps unlock e. cc)
              (with_fee-IsConsistent (core_of w) proposal.0
                (h.pending_in proposal.0 proposal.1 found) h)))))
