-- ===== src/Storage/Index/Distinct.antt =====
-- contracts/stream/src/storage.rs, the indexes: lists of identifiers in which none occurs twice.
use sorostream_contracts.Prelude.{
  ℕ, ◌≡◌, refl, true, false, ◌||◌, List, [], ◌∷◌, ◌++◌, ◌==◌, if◌then◌else◌, arith, Bool-cases, inl,
  inr,
}
use sorostream_contracts.Storage.Index.View.{last, init, last_first, swap_remove, contains}

abbrev pub Distinct : List ℕ → Type 0
Distinct [] = Unit {0}
Distinct (x ∷ xs) = (contains x xs ≡ false) × Distinct xs

pub contains-append :
    (id x : ℕ) (ids : List ℕ)
    → contains id (ids ++ x ∷ []) ≡ (if x == id then true else contains id ids)
contains-append id x [] = ground arith
contains-append id x (y ∷ ids) = ground (arith, contains-append id x ids)

pub Distinct-append :
    (x : ℕ) (ids : List ℕ) → Distinct ids → contains x ids ≡ false → Distinct (ids ++ x ∷ [])
Distinct-append x [] d h = (refl, tt)
Distinct-append x (y ∷ ids) d h =
    (ground (arith, contains-append y x ids, d.0), Distinct-append x ids d.1 (ground arith))

contains-init :
    (id z : ℕ) (zs : List ℕ) → contains id (z ∷ zs) ≡ (last z zs == id || contains id (init z zs))
contains-init id z [] = ground arith
contains-init id z (y ∷ zs) = ground (arith, contains-init id y zs)

contains-last_first : (id : ℕ) (ids : List ℕ) → contains id (last_first ids) ≡ contains id ids
contains-last_first id [] = refl
contains-last_first id (z ∷ zs) = ground (arith, contains-init id z zs)

Distinct-last :
    (z : ℕ) (zs : List ℕ)
    → Distinct (z ∷ zs)
    → (contains (last z zs) (init z zs) ≡ false) × Distinct (init z zs)
Distinct-last z [] d = (refl, tt)
Distinct-last z (y ∷ zs) d =
    let (fresh, rest) = Distinct-last y zs d.1 in
    (
      ground (arith, fresh, contains-init z y zs, contains-init (last y zs) y zs, d.0),
      (ground (arith, contains-init z y zs, d.0), rest),
    )

Distinct-last_first : (ids : List ℕ) → Distinct ids → Distinct (last_first ids)
Distinct-last_first [] d = tt
Distinct-last_first (z ∷ zs) d = Distinct-last z zs d

pub contains-swap_remove :
    (id x : ℕ) (ids : List ℕ)
    → Distinct ids
    → contains id (swap_remove x ids) ≡ (if x == id then false else contains id ids)
contains-swap_remove id x [] d = ground arith
contains-swap_remove id x (y ∷ ids) d =
    ground (arith, contains-swap_remove id x ids d.1, contains-last_first id ids, d.0)

pub Distinct-swap_remove : (x : ℕ) (ids : List ℕ) → Distinct ids → Distinct (swap_remove x ids)
Distinct-swap_remove x [] d = tt
Distinct-swap_remove x (y ∷ ids) d = elim (Bool-cases (y == x)) [
  | inl hit ↦ rw hit (Distinct-last_first ids d.1)
  | inr miss ↦
      rw miss
        (ground (arith, contains-swap_remove y x ids d.1, d.0), Distinct-swap_remove x ids d.1)
]
