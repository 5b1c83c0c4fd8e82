-- ===== src/Storage/Index/Refines.antt =====
-- contracts/stream/src/storage.rs, the indexes: the code on the slots against the operations of the
-- view on lists.
use sorostream_contracts.Prelude.{
  ℕ, zero, suc, ◌+◌, ◌-◌, ◌<◌, ◌≡◌, ◌≢◌, refl, ap, sym, ◌∙◌, true, false, none, some, List, [], ◌∷◌,
  ◌++◌, ◌==◌, if◌then◌else◌, arith, length, get_elem?, length-append, Bool-cases, inl, inr,
  unwrap_or, ltb,
}
use sorostream_contracts.Prelude.Machine.{u32_mod}
use mathlib.Core.List.{Perm}
use sorostream_contracts.Types.{Address}
use sorostream_contracts.Env.{Slots}
use sorostream_contracts.Storage.Index.{
  get_count, get_ids, append_id, remove_id, remove_from, swap_and_pop, holds, set_slot, set_count,
}
use sorostream_contracts.Storage.Index.View.{
  Segment, IsIndex, last_first, swap_remove, contains, get_elem?-last, get_elem?-init,
  length-swap_remove, swap_remove-perm, swap_remove-absent, get_ids-eq,
}

-- Two states of an index agree on all the addresses but one.
pub record SameElsewhere (s t : Slots) (addr : Address) : Type 0 where
  pub counts : (b : Address) → addr ≢ b → t.count b ≡ s.count b
  pub slots : (b : Address) (i : ℕ) → addr ≢ b → t.slot b i ≡ s.slot b i

get_elem?-append :
    (ids : List ℕ) (x j : ℕ)
    → get_elem? (ids ++ x ∷ []) j ≡ (if length ids == j then some x else get_elem? ids j)
get_elem?-append [] x zero = refl
get_elem?-append [] x (suc j) = ground arith
get_elem?-append (y ∷ ids) x zero = ground arith
get_elem?-append (y ∷ ids) x (suc j) = ground (arith, get_elem?-append ids x j)

Segment-cons :
    (t : Slots) (addr : Address) (i y : ℕ) (ids : List ℕ)
    → t.slot addr i ≡ some y
    → Segment t addr (suc i) ids
    → Segment t addr i (y ∷ ids)
Segment-cons t addr i y ids e h zero = ap (t.slot addr) (omega arith) ∙ e
Segment-cons t addr i y ids e h (suc j) = ap (t.slot addr) (omega arith) ∙ h j

abbrev pub appended : Slots → Address → ℕ → Slots
appended s addr x =
    set_count (set_slot s addr (get_count s addr) (some x)) addr (get_count s addr + 1)

append_id-eq :
    (s : Slots) (addr : Address) (x : ℕ) {t : Slots}
    → append_id s addr x ≡ some t
    → t ≡ appended s addr x
unfolding append_id
append_id-eq s addr x e = elim (Bool-cases (ltb (get_count s addr + 1) u32_mod)) [
  | inl fits ↦ cc (rw fits at e)
  | inr full ↦ cc (rw full at e)
]

appended-IsIndex :
    (s : Slots) (addr : Address) (x : ℕ) (ids : List ℕ)
    → IsIndex s addr ids
    → IsIndex (appended s addr x) addr (ids ++ x ∷ [])
unfolding get_count
appended-IsIndex s addr x ids h =
    let n : get_count s addr ≡ length ids = h.counted in
    record {
      counted = ground (arith, n, length-append ids (x ∷ []));
      slots = λ j. ground (arith, n, h.slots j, get_elem?-append ids x j);
    }

appended-SameElsewhere :
    (s : Slots) (addr : Address) (x : ℕ) → SameElsewhere s (appended s addr x) addr
appended-SameElsewhere s addr x = record {
  counts = λ b h. ground arith;
  slots = λ b i h. ground arith;
}

-- If the slots of an address hold a list of identifiers and an append returns, then they hold the
-- list with the new identifier at its end, and the counters and slots of the other addresses are
-- unchanged.
pub append_id-IsIndex :
    (s : Slots) (addr : Address) (x : ℕ) (ids : List ℕ) {t : Slots}
    → IsIndex s addr ids
    → append_id s addr x ≡ some t
    → IsIndex t addr (ids ++ x ∷ []) × SameElsewhere s t addr
append_id-IsIndex s addr x ids h e =
    rw (append_id-eq s addr x e) (appended-IsIndex s addr x ids h, appended-SameElsewhere s addr x)

module _ (s : Slots) (addr : Address) where
  swap_and_pop-slot :
      (cnt i j : ℕ)
      → (swap_and_pop s addr cnt i).slot addr j ≡ (
          if cnt - 1 == j
          then none
          else if i == j
          then some (unwrap_or (s.slot addr (cnt - 1)) 0)
          else s.slot addr j)
  unfolding swap_and_pop
  swap_and_pop-slot cnt i j = ground arith

  swap_and_pop-Segment :
      (i y : ℕ) (ys : List ℕ)
      → Segment s addr i (y ∷ ys)
      → Segment (swap_and_pop s addr (i + suc (length ys)) i) addr i (last_first ys)
  swap_and_pop-Segment i y [] h zero = rw (swap_and_pop-slot (i + 1) i (i + 0)) (ground arith)
  swap_and_pop-Segment i y [] h (suc j) =
      rw (swap_and_pop-slot (i + 1) i (i + suc j)) (ground (arith, h (suc j)))
  swap_and_pop-Segment i y (z ∷ zs) h zero =
      rw (swap_and_pop-slot (i + suc (suc (length zs))) i (i + 0))
        (ground (arith, h (suc (length zs)), get_elem?-last z zs))
  swap_and_pop-Segment i y (z ∷ zs) h (suc j) =
      rw (swap_and_pop-slot (i + suc (suc (length zs))) i (i + suc j))
        (ground (arith, h (suc j), get_elem?-init z zs j))

  swap_and_pop-below :
      (cnt i j : ℕ) → i < cnt → j < i → (swap_and_pop s addr cnt i).slot addr j ≡ s.slot addr j
  swap_and_pop-below cnt i j h k = rw (swap_and_pop-slot cnt i j) (ground arith)

  swap_and_pop-count : (cnt i : ℕ) → get_count (swap_and_pop s addr cnt i) addr ≡ cnt - 1
  unfolding swap_and_pop get_count
  swap_and_pop-count cnt i = ground arith

  -- From the slot `i` on, the loop turns the list into the list without the identifier; below that
  -- it writes nothing, and it counts down once if the identifier is there.
  remove_from-Segment :
      (x cnt i : ℕ) (ids : List ℕ)
      → cnt ≡ i + length ids
      → Segment s addr i ids
      → let t = remove_from s addr x cnt i (length ids) in
        Segment t addr i (swap_remove x ids)
        × ((j : ℕ) → j < i → t.slot addr j ≡ s.slot addr j)
        × (contains x ids ≡ true → get_count t addr ≡ cnt - 1)
        × (contains x ids ≡ false → t ≡ s)
  unfolding remove_from
  remove_from-Segment x cnt i [] e h = (h, λ j k. refl, λ c. cc, λ c. refl)
  remove_from-Segment x cnt i (y ∷ ys) e h =
      let here : s.slot addr i ≡ some y = ap (s.slot addr) (omega arith) ∙ h 0 in
      let rest =
        remove_from-Segment x cnt (suc i) ys (omega arith)
          (λ j. ap (s.slot addr) (omega arith) ∙ h (suc j)) in
      elim (Bool-cases (y == x)) [
        | inl hit ↦
            rw (here, hit)
              (
                rw e (swap_and_pop-Segment i y ys h),
                λ j k. swap_and_pop-below cnt i j (omega arith) k,
                λ c. swap_and_pop-count cnt i,
                λ c. cc,
              )
        | inr miss ↦
            rw (here, miss)
              (
                Segment-cons (remove_from s addr x cnt (suc i) (length ys)) addr i y _
                    (rest.1 i (omega arith) ∙ here) rest.0,
                λ j k. rest.1 j (omega arith),
                rest.2,
                rest.3,
              )
      ]

  swap_and_pop-SameElsewhere : (cnt i : ℕ) → SameElsewhere s (swap_and_pop s addr cnt i) addr
  unfolding swap_and_pop
  swap_and_pop-SameElsewhere cnt i = record {
    counts = λ b h. ground arith;
    slots = λ b j h. ground arith;
  }

  remove_from-SameElsewhere :
      (x cnt i rounds : ℕ) → SameElsewhere s (remove_from s addr x cnt i rounds) addr
  unfolding remove_from
  remove_from-SameElsewhere x cnt i zero = record { counts = λ b h. refl; slots = λ b j h. refl }
  remove_from-SameElsewhere x cnt i (suc rounds) = elim (Bool-cases (holds (s.slot addr i) x)) [
    | inl hit ↦ rw hit (swap_and_pop-SameElsewhere cnt i)
    | inr miss ↦ rw miss (remove_from-SameElsewhere x cnt (suc i) rounds)
  ]

remove_id-counted :
    (s : Slots) (addr : Address) (x : ℕ) (ids : List ℕ)
    → IsIndex s addr ids
    → get_count (remove_from s addr x (length ids) 0 (length ids)) addr ≡ length (swap_remove x ids)
remove_id-counted s addr x ids h =
    let (_, _, found, absent) =
      remove_from-Segment s addr x (length ids) 0 ids (omega arith) h.slots in
    elim (Bool-cases (contains x ids)) [
      | inl c ↦ found c ∙ sym (length-swap_remove x ids c)
      | inr c ↦ rw (absent c, swap_remove-absent x ids c) h.counted
    ]

-- If the slots of an address hold a list of identifiers, then after the removal loop with its
-- swap-and-pop they hold the list in which the last identifier has taken the place of the first
-- occurrence of the removed one, or the same list if it does not occur; the counters and slots of
-- the other addresses are unchanged.
pub remove_id-IsIndex :
    (s : Slots) (addr : Address) (x : ℕ) (ids : List ℕ)
    → IsIndex s addr ids
    → IsIndex (remove_id s addr x) addr (swap_remove x ids)
      × SameElsewhere s (remove_id s addr x) addr
unfolding remove_id
remove_id-IsIndex s addr x ids h = rw h.counted (
  record {
    counted = remove_id-counted s addr x ids h;
    slots = (remove_from-Segment s addr x (length ids) 0 ids (omega arith) h.slots).0;
  },
  remove_from-SameElsewhere s addr x (length ids) 0 (length ids),
)

-- If the slots of an address hold a list of identifiers and one of them is removed, then what is
-- read back together with the removed identifier is a permutation of the list.
pub remove_id-get_ids :
    (s : Slots) (addr : Address) (x : ℕ) (ids : List ℕ)
    → IsIndex s addr ids
    → contains x ids ≡ true
    → Perm ids (x ∷ get_ids (remove_id s addr x) addr)
remove_id-get_ids s addr x ids h c =
    let e = get_ids-eq _ addr _ (remove_id-IsIndex s addr x ids h).0 in
    rw e (swap_remove-perm x ids c)
