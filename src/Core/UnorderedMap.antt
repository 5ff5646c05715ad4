-- ===== src/Core/UnorderedMap.antt =====
-- What the core uses of `std::unordered_map` with a numeric key: lookup, assignment through
-- `operator[]` or a reference, and erasure. Entries are kept in a list, one for each key.
use mini_ran.Common.{◌==◌, List, Option, if◌then◌else◌, ◌≡◌, arith, refl, [], ◌∷◌, none, some, ℕ}

abbrev pub Table {ℓ} : Type ℓ → Type ℓ
Table V = List (ℕ × V)

module _ {ℓ} {V : Type ℓ} where
  unfoldable pub find : ℕ → Table V → Option V
  find k [] = none
  find k ((j, v) ∷ t) = if j == k then some v else find k t

  unfoldable pub insert : ℕ → V → Table V → Table V
  insert k v [] = (k, v) ∷ []
  insert k v ((j, w) ∷ t) = if j == k then (k, v) ∷ t else (j, w) ∷ insert k v t

  unfoldable pub erase : ℕ → Table V → Table V
  erase k [] = []
  erase k ((j, w) ∷ t) = if j == k then t else (j, w) ∷ erase k t

  -- No key has two entries.
  abbrev pub IsTable : Table V → Type ℓ
  IsTable [] = Unit {ℓ}
  IsTable ((k, v) ∷ t) = (find k t ≡ none) × IsTable t

  pub find-insert :
      (k j : ℕ) (v : V) (t : Table V)
      → find j (insert k v t) ≡ (if k == j then some v else find j t)
  unfolding find insert
  find-insert k j v [] = refl
  find-insert k j v ((i, w) ∷ t) = ground (arith, find-insert k j v t)

  pub insert-IsTable : (k : ℕ) (v : V) (t : Table V) → IsTable t → IsTable (insert k v t)
  unfolding find insert
  insert-IsTable k v [] h = (refl, tt)
  insert-IsTable k v ((i, w) ∷ t) h = ground (arith, find-insert k i v t, insert-IsTable k v t h.1)

  pub find-erase :
      (k j : ℕ) (t : Table V) → IsTable t → find j (erase k t) ≡ (if k == j then none else find j t)
  unfolding find erase
  find-erase k j [] h = ground arith
  find-erase k j ((i, w) ∷ t) h = ground (arith, find-erase k j t h.1)

  pub erase-IsTable : (k : ℕ) (t : Table V) → IsTable t → IsTable (erase k t)
  unfolding erase
  erase-IsTable k [] h = tt
  erase-IsTable k ((i, w) ∷ t) h = ground (arith, find-erase k i t h.1, erase-IsTable k t h.1)
