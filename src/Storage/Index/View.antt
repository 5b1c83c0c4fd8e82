-- ===== src/Storage/Index/View.antt =====
-- The abstract view of an index: a list of identifiers, which the counter and the slots represent,
-- and what a removal does to that list.
use sorostream_contracts.Prelude.{
  ℕ, zero, suc, ◌+◌, ◌-◌, ◌≡◌, refl, ap, ◌∙◌, Bool, true, false, none, some, List, [], ◌∷◌, ◌==◌,
  if◌then◌else◌, arith, length, get_elem?, ==→eq, ==_refl, Bool-cases, inl, inr,
}
use mathlib.Core.List.{Perm}
use mathlib.Core.List.Perm
use sorostream_contracts.Types.{Address}
use sorostream_contracts.Env.{Slots}
use sorostream_contracts.Storage.Index.{get_count, get_ids, ids_from}

-- From the slot `i` on, the slots hold the list and nothing after it.
abbrev pub Segment : Slots → Address → ℕ → List ℕ → Type 0
Segment s addr i ids = (j : ℕ) → s.slot addr (i + j) ≡ get_elem? ids j

pub record IsIndex (s : Slots) (addr : Address) (ids : List ℕ) : Type 0 where
  pub counted : get_count s addr ≡ length ids
  pub slots : Segment s addr 0 ids

abbrev pub last : ℕ → List ℕ → ℕ
last y [] = y
last y (z ∷ zs) = last z zs

abbrev pub init : ℕ → List ℕ → List ℕ
init y [] = []
init y (z ∷ zs) = y ∷ init z zs

abbrev pub last_first : List ℕ → List ℕ
last_first [] = []
last_first (z ∷ zs) = last z zs ∷ init z zs

-- The first occurrence goes, and the last element takes its place.
abbrev pub swap_remove : ℕ → List ℕ → List ℕ
swap_remove x [] = []
swap_remove x (y ∷ ys) = if y == x then last_first ys else y ∷ swap_remove x ys

abbrev pub contains : ℕ → List ℕ → Bool
contains x [] = false
contains x (y ∷ ys) = if y == x then true else contains x ys

pub get_elem?-last : (z : ℕ) (zs : List ℕ) → get_elem? (z ∷ zs) (length zs) ≡ some (last z zs)
get_elem?-last z [] = refl
get_elem?-last z (y ∷ zs) = get_elem?-last y zs

pub get_elem?-init :
    (z : ℕ) (zs : List ℕ) (j : ℕ)
    → get_elem? (init z zs) j ≡ (if j == length zs then none else get_elem? (z ∷ zs) j)
get_elem?-init z [] zero = refl
get_elem?-init z [] (suc j) = ground arith
get_elem?-init z (y ∷ zs) zero = ground arith
get_elem?-init z (y ∷ zs) (suc j) = ground (arith, get_elem?-init y zs j)

pub length-init : (z : ℕ) (zs : List ℕ) → length (init z zs) ≡ length zs
length-init z [] = refl
length-init z (y ∷ zs) = ap suc (length-init y zs)

length-last_first : (ids : List ℕ) → length (last_first ids) ≡ length ids
length-last_first [] = refl
length-last_first (z ∷ zs) = ap suc (length-init z zs)

pub length-swap_remove :
    (x : ℕ) (ids : List ℕ) → contains x ids ≡ true → length (swap_remove x ids) ≡ length ids - 1
length-swap_remove x [] h = refl
length-swap_remove x (y ∷ []) h = ground arith
length-swap_remove x (y ∷ z ∷ ys) h =
    ground (arith, length-last_first (z ∷ ys), length-swap_remove x (z ∷ ys))

last_first-perm : (z : ℕ) (zs : List ℕ) → Perm (z ∷ zs) (last z zs ∷ init z zs)
last_first-perm z [] = Perm.refl (z ∷ [])
last_first-perm z (y ∷ zs) = Perm.trans (Perm.cons z (last_first-perm y zs)) (Perm.swap _ _ _)

last_first-perm_all : (ys : List ℕ) → Perm ys (last_first ys)
last_first-perm_all [] = Perm.refl []
last_first-perm_all (z ∷ zs) = last_first-perm z zs

-- A removal takes out one occurrence, and keeps the others up to their order.
pub swap_remove-perm :
    (x : ℕ) (ids : List ℕ) → contains x ids ≡ true → Perm ids (x ∷ swap_remove x ids)
swap_remove-perm x [] h = cc
swap_remove-perm x (y ∷ ys) h = elim (Bool-cases (y == x)) [
  | inl e ↦ rw (==→eq y x e, ==_refl x) (Perm.cons x (last_first-perm_all ys))
  | inr e ↦ rw e (
      let found : contains x ys ≡ true = rw e at h in
      Perm.trans (Perm.cons y (swap_remove-perm x ys found)) (Perm.swap _ _ _))
]

pub swap_remove-absent : (x : ℕ) (ids : List ℕ) → contains x ids ≡ false → swap_remove x ids ≡ ids
swap_remove-absent x [] h = refl
swap_remove-absent x (y ∷ ys) h = ground (arith, swap_remove-absent x ys)

ids_from-eq :
    (s : Slots) (addr : Address) (i : ℕ) (ids : List ℕ)
    → Segment s addr i ids
    → ids_from s addr i (length ids) ≡ ids
unfolding ids_from
ids_from-eq s addr i [] h = refl
ids_from-eq s addr i (x ∷ ids) h =
    let here : s.slot addr i ≡ some x = ap (s.slot addr) (omega arith) ∙ h 0 in
    let rest = ids_from-eq s addr (suc i) ids (λ j. ap (s.slot addr) (omega arith) ∙ h (suc j)) in
    rw (here, ids_from) (ap (λ t. x ∷ t) rest)

-- What is read back is the list.
pub get_ids-eq :
    (s : Slots) (addr : Address) (ids : List ℕ) → IsIndex s addr ids → get_ids s addr ≡ ids
unfolding get_ids
get_ids-eq s addr ids h = rw h.counted (ids_from-eq s addr 0 ids h.slots)
