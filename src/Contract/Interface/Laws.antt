-- ===== src/Contract/Interface/Laws.antt =====
-- contracts/stream/src/interface.rs: how the methods of the trait relate to one another, for any
-- implementation. Most of it is what the comments of the trait say; of a cancelled stream they say that it
-- is marked as cancelled, where the law follows the code, which removes it.
use Prim.Native.String.{String}
use sorostream_contracts.Prelude.{ℕ, ◌≤◌, ◌≡◌, true, false, ◌||◌, Option, some, ◌==◌}
use sorostream_contracts.Prelude.Int.{ℤ}
use sorostream_contracts.Types.{Address, Stream, active, already_initialized, stream_not_found}
use sorostream_contracts.Call.{ok, err, pure, ◌>>=◌}
use sorostream_contracts.Call.Rules.{Ensures}
use sorostream_contracts.Env.{World, Exec}
use sorostream_contracts.Contract.Create.{CreateArgs}
use sorostream_contracts.Contract.Interface.{SoroStreamInterface}

-- A stream that a call of `create_stream` with these arguments may have stored.
abbrev pub StoredFor : CreateArgs → Stream → Type 0
StoredFor args s =
    (s.sender ≡ args.sender)
    × (s.recipient ≡ args.recipient)
    × (s.token ≡ args.token)
    × (s.deposit ≡ args.amount)
    × (s.status ≡ active)

module _ {C : Type 0} where
  -- In a world, a query answers a value and writes nothing.
  abbrev pub Answers : {A : Type 0} → Exec C A → World C → A → Type 0
  Answers query w a = query w ≡ ok (a, w)

  -- A setting that is set is read back; an initialised contract is not initialised again; a stream that
  -- is created is found; one that is cancelled is not, against the comments of the trait; a participant is
  -- a party of the stream.
  pub record IsSoroStream (i : SoroStreamInterface C) : Type 0 where
    pub initialized :
        (a : Address) (v : String) (w : World C)
        → Ensures (i.initialize a v) w (λ _ w'.
          Answers i.get_admin w' a
          × Answers i.get_version w' v
          × ((b : Address) (u : String) → i.initialize b u w' ≡ err already_initialized))
    pub admin :
        (a : Address) (w : World C) → Ensures (i.set_admin a) w (λ _ w'. Answers i.get_admin w' a)
    pub guardian :
        (a : Address) (w : World C)
        → Ensures (i.set_guardian a) w (λ _ w'. Answers i.get_guardian w' (some a))
    pub governance :
        (a : Address) (w : World C)
        → Ensures (i.set_governance a) w (λ _ w'. Answers i.get_governance w' (some a))
    pub protocol_fee :
        (n : ℕ) (w : World C)
        → Ensures
            (i.set_protocol_fee n)
            w
            (λ _ w'. (n ≤ 10000) × (t : Option Address) × Answers i.get_protocol_fee_info w' (n, t))
    pub treasury :
        (a : Address) (w : World C)
        → Ensures
            (i.set_treasury_address a)
            w
            (λ _ w'. (n : ℕ) × Answers i.get_protocol_fee_info w' (n, some a))
    pub creation_fee :
        (n : ℤ) (a : Address) (w : World C)
        → Ensures (i.set_creation_fee n a) w (λ _ w'. Answers i.get_creation_fee w' n)
    pub shortest :
        (a : Address) (n : ℕ) (w : World C)
        → Ensures (i.set_min_duration a n) w (λ _ w'. Answers i.min_duration w' n)
    pub exempt :
        (a : Address) (w : World C)
        → Ensures (i.add_fee_exempt a) w (λ _ w'. Answers (i.is_fee_exempt a) w' true)
    pub not_exempt :
        (a : Address) (w : World C)
        → Ensures (i.remove_fee_exempt a) w (λ _ w'. Answers (i.is_fee_exempt a) w' false)
    pub resumed :
        (w : World C) → Ensures i.emergency_resume w (λ _ w'. Answers i.is_paused w' false)
    pub created :
        (args : CreateArgs) (w : World C)
        → Ensures
            (i.create_stream args)
            w
            (λ id w'. (s : Stream) × Answers (i.get_stream id) w' s × StoredFor args s)
    pub cancelled :
        (id : ℕ) (a : Address) (w : World C)
        → Ensures (i.cancel_stream id a) w (λ _ w'. i.get_stream id w' ≡ err stream_not_found)
    pub participant :
        (id : ℕ) (a : Address) (w : World C)
        → i.is_participant id a w
          ≡ (i.get_stream id >>= λ s. pure (s.sender == a || s.recipient == a)) w
