-- ===== src/Contract/Interface/Kept.antt =====
-- contracts/stream/src/lib.rs: the contract keeps the laws of its interface.
use Prim.Native.String.{String}
use sorostream_contracts.Prelude.{
  ℕ, ◌≡◌, refl, ap, ◌∙◌, true, false, ◌||◌, none, some, ◌==◌, unwrap_or, update_self, arith,
}
use sorostream_contracts.Types.{Address, Stream, already_initialized, stream_not_found}
use sorostream_contracts.Call.{ok, err, pure, gets, or_err, fail_if, ◌>>=◌, ◌>>◌}
use sorostream_contracts.Call.Rules.{
  Ensures, Ensures-bind, Ensures-weaken, Ensures-gets, Ensures-or_err, Ensures-or_panic,
  Ensures-fail_if, Ensures-panic_if, Ensures-modify, Ensures-modify_last, anything,
}
use sorostream_contracts.Env.{Env, World, Exec, require_auth, publish}
use sorostream_contracts.Storage.Config.{
  check_admin, write_admin, read_admin, write_version, read_version, write_guardian, read_guardian,
  write_governance, read_governance, set_treasury, get_treasury, get_protocol_fee,
  set_creation_fee_xlm, get_creation_fee_xlm, set_xlm_token, write_min_duration, read_min_duration,
}
use sorostream_contracts.Storage.Config
use sorostream_contracts.Storage.Access
use sorostream_contracts.Storage.Pausing
use sorostream_contracts.Storage.Audit.{append_audit_entry, append_entry}
use sorostream_contracts.Storage.Streams.{load_stream, remove_stream}
use sorostream_contracts.Storage.Index.{unindex_by_sender, unindex_by_recipient}
use sorostream_contracts.Contract.Admin
use sorostream_contracts.Contract.Fees
use sorostream_contracts.Contract.Cancel
use sorostream_contracts.Contract.Cancel.{remove_and_unindex}
use sorostream_contracts.Contract.Queries
use sorostream_contracts.Contract.Create.{CreateArgs, create_stream}
use sorostream_contracts.Contract.Created
use sorostream_contracts.Contract.Created.{creates}
use sorostream_contracts.Contract.Frames.{streams_of}
use sorostream_contracts.Contract.Interface.{sorostream_contract}
use sorostream_contracts.Contract.Interface.Laws.{Answers, StoredFor, IsSoroStream}

module _ {C : Type 0} (env : Env C) (w : World C) where
  gets-answers : {A : Type 0} (f : World C → A) → Answers (gets f) w (f w)
  unfolding gets
  gets-answers f = refl

  get_admin-answers : (a : Address) → read_admin w ≡ some a → Answers (Admin.get_admin env) w a
  unfolding Admin.get_admin ◌>>=◌ gets or_err
  get_admin-answers a e = rw e refl

  get_version-answers : (v : String) → read_version w ≡ some v → Answers (Admin.get_version env) w v
  unfolding Admin.get_version ◌>>=◌ gets or_err
  get_version-answers v e = rw e refl

  initialize-refused :
      (a b : Address) (u : String)
      → read_admin w ≡ some a
      → Admin.initialize env b u w ≡ err already_initialized
  unfolding Admin.initialize ◌>>=◌ gets fail_if
  initialize-refused a b u e = rw e refl

  is_paused-answers : Pausing.is_paused w ≡ false → Answers (Admin.is_paused env) w false
  unfolding Admin.is_paused Pausing.is_paused_or_auto_unpause ◌>>=◌ gets pure
  is_paused-answers e = rw e refl

  get_stream-answers :
      (id : ℕ) (s : Stream) → load_stream w id ≡ some s → Answers (Queries.get_stream id) w s
  unfolding Queries.get_stream ◌>>=◌ gets or_err
  get_stream-answers id s e = rw e refl

  get_stream-absent :
      (id : ℕ) → load_stream w id ≡ none → Queries.get_stream id w ≡ err stream_not_found
  unfolding Queries.get_stream ◌>>=◌ gets or_err
  get_stream-absent id e = rw e refl

module _ {C : Type 0} (env : Env C) where
  after_check :
      {n : Exec C (Unit {0})} {w : World C} {Q : Unit {0} → World C → Type 0}
      → ((w' : World C) → Ensures n w' Q)
      → Ensures (check_admin env >> n) w Q
  after_check {w} k = Ensures-bind (λ _ _. Unit {0}) (anything _ w) λ _ w' _. k w'

  initialized :
      (a : Address) (v : String) (w : World C)
      → Ensures (Admin.initialize env a v) w (λ _ w'.
        Answers (Admin.get_admin env) w' a
        × Answers (Admin.get_version env) w' v
        × ((b : Address) (u : String) → Admin.initialize env b u w' ≡ err already_initialized))
  unfolding Admin.initialize write_admin write_version read_admin read_version publish
  initialized a v w = Ensures-gets _ _ (
      Ensures-fail_if _ λ _. Ensures-modify _ (
        Ensures-modify _ (
          Ensures-modify_last _ (
            get_admin-answers env _ a refl,
            get_version-answers env _ v refl,
            λ b u. initialize-refused env _ a b u refl,
          ))))

  exempt :
      (a : Address) (w : World C)
      → Ensures (Admin.add_fee_exempt env a) w (λ _ w'. Answers (Queries.is_fee_exempt a) w' true)
  unfolding Admin.add_fee_exempt Queries.is_fee_exempt Access.add_fee_exempt Access.is_fee_exempt
  exempt a w = after_check λ w₁. Ensures-modify_last _ (
      gets-answers env (Access.add_fee_exempt a w₁) (λ x. Access.is_fee_exempt x a)
      ∙ ap (λ o. ok (unwrap_or o false, Access.add_fee_exempt a w₁))
          (update_self w₁.pers.fee_exempt a (some true)))

  not_exempt :
      (a : Address) (w : World C)
      → Ensures
          (Admin.remove_fee_exempt env a)
          w
          (λ _ w'. Answers (Queries.is_fee_exempt a) w' false)
  unfolding Admin.remove_fee_exempt Queries.is_fee_exempt Access.remove_fee_exempt
      Access.is_fee_exempt
  not_exempt a w = after_check λ w₁. Ensures-modify_last _ (
      gets-answers env (Access.remove_fee_exempt a w₁) (λ x. Access.is_fee_exempt x a)
      ∙ ap (λ o. ok (unwrap_or o false, Access.remove_fee_exempt a w₁))
          (update_self w₁.pers.fee_exempt a none))

  resumed :
      (w : World C)
      → Ensures (Admin.emergency_resume env) w (λ _ w'. Answers (Admin.is_paused env) w' false)
  unfolding Admin.emergency_resume Pausing.is_paused Pausing.set_paused Pausing.set_pause_expiry
      publish append_audit_entry append_entry
  resumed w = after_check λ w₁. Ensures-modify _ (
      Ensures-modify _ (
        Ensures-gets _ _ (
          Ensures-or_panic λ a _.
            Ensures-modify _
              (Ensures-modify _ (Ensures-modify_last _ (is_paused-answers env _ refl))))))

  created :
      (args : CreateArgs) (w : World C)
      → Ensures
          (create_stream env args)
          w
          (λ id w'. (s : Stream) × Answers (Queries.get_stream id) w' s × StoredFor args s)
  unfolding load_stream
  created args w = Ensures-weaken (creates env args w) (λ id w' c.
      let s = Created.created env args c.amount in
      (
        s,
        get_stream-answers env w' id s
            (ap (λ m. m id) c.stores ∙ update_self (streams_of w) id (some s)),
        (refl, refl, refl, refl, refl),
      ))

  cancelled :
      (id : ℕ) (a : Address) (w : World C)
      → Ensures
          (Cancel.cancel_stream env id a)
          w
          (λ _ w'. Queries.get_stream id w' ≡ err stream_not_found)
  unfolding Cancel.cancel_stream load_stream remove_and_unindex remove_stream unindex_by_sender
      unindex_by_recipient publish
  cancelled id a w =
      Ensures-bind (λ _ _. Unit {0}) (anything _ w)
        λ _ w₁ _. Ensures-gets _ _ (
          Ensures-or_err _ λ s found. Ensures-gets _ _ (
            Ensures-fail_if _ λ _. Ensures-fail_if _ λ _. Ensures-or_err _ λ c _.
              Ensures-bind (λ _ _. Unit {0}) (anything _ w₁)
                λ _ w₂ _.
                  Ensures-bind (λ _ w'. w'.pers.streams id ≡ none)
                    (Ensures-modify _ (
                      Ensures-modify _
                        (Ensures-modify_last _ (update_self w₂.pers.streams id none))))
                    λ _ w₃ gone. Ensures-modify_last _ (get_stream-absent env _ id gone)))

  participant :
      (id : ℕ) (a : Address) (w : World C)
      → Queries.is_participant id a w
        ≡ (Queries.get_stream id >>= λ s. pure (s.sender == a || s.recipient == a)) w
  unfolding Queries.is_participant Queries.get_stream ◌>>=◌ gets
  participant id a w = refl

  -- The contract implements the trait, and the methods relate to one another: what initialize and
  -- the setters set is read back, an initialised contract is not initialised again, a protocol fee
  -- that is set is at most 10000 basis points, after emergency_resume the contract is not paused,
  -- a stream that create_stream returns is found with its parties, token and deposit, one that
  -- cancel_stream has cancelled is no longer found, and is_participant answers whether the address
  -- is a party of the stream.
  pub sorostream_contract-IsSoroStream : IsSoroStream (sorostream_contract env)
  unfolding Admin.set_admin Admin.set_guardian Admin.set_governance Queries.get_guardian
      Queries.get_governance Queries.min_duration Fees.set_protocol_fee Fees.set_treasury_address
      Fees.get_protocol_fee_info Fees.set_creation_fee Fees.get_creation_fee Admin.set_min_duration
      write_admin read_admin write_guardian read_guardian write_governance read_governance
      Config.set_protocol_fee get_protocol_fee set_treasury get_treasury set_creation_fee_xlm
      get_creation_fee_xlm set_xlm_token write_min_duration read_min_duration require_auth
  sorostream_contract-IsSoroStream = record {
    initialized = initialized;
    admin = λ a w. after_check λ w₁. Ensures-modify_last _ (get_admin-answers env _ a refl);
    guardian = λ a w.
        after_check
          λ w₁. Ensures-modify_last _ (gets-answers env (write_guardian a w₁) read_guardian);
    governance = λ a w.
        after_check
          λ w₁. Ensures-modify_last _ (gets-answers env (write_governance a w₁) read_governance);
    protocol_fee = λ n w. Ensures-fail_if _ λ small. Ensures-modify_last _ (
      ground arith,
      _,
      gets-answers env (Config.set_protocol_fee n w) (λ x. (get_protocol_fee x, get_treasury x)),
    );
    treasury = λ a w.
        Ensures-modify_last _
          (_, gets-answers env (set_treasury a w) (λ x. (get_protocol_fee x, get_treasury x)));
    creation_fee = λ n a w. after_check λ w₁. Ensures-fail_if _ λ _. Ensures-modify _ (
        Ensures-modify_last _
          (gets-answers env (set_xlm_token a (set_creation_fee_xlm n w₁)) get_creation_fee_xlm));
    shortest = λ a n w.
        Ensures-panic_if
          λ _. Ensures-modify_last _ (gets-answers env (write_min_duration n w) read_min_duration);
    exempt = exempt;
    not_exempt = not_exempt;
    resumed = resumed;
    created = created;
    cancelled = cancelled;
    participant = participant;
  }
