-- ===== src/Base/Map.antt =====
-- Go's `map[string]V` as an association list. The order of the list is the order in which a
-- `range` loop meets the entries; it is not observable otherwise, and no theorem fixes it.
pub mod Laws
pub mod Loops
use astra_storage.Base.Names.{
  ℕ, suc, ◌+◌, ◌<◌, ◌≤◌, ◌≡◌, refl, ◌↔◌, Bool, true, false, Option, none, some, List, [], ◌∷◌,
  String, ◌==◌, eq_iff, arith, ◌||◌,
}
use astra_storage.Base.Tests.{if◌then◌else◌, length, Bool-cases}

abbrev pub Map {ℓ} : Type ℓ → Type ℓ
Map V = List (String × V)

module _ {ℓ} {V : Type ℓ} where
  -- v, ok := m[k]
  unfoldable pub lookup : String → Map V → Option V
  lookup key [] = none
  lookup key (entry ∷ rest) = if entry.0 == key then some entry.1 else lookup key rest

  -- m[k] = v
  unfoldable pub insert : String → V → Map V → Map V
  insert key new [] = (key, new) ∷ []
  insert key new (entry ∷ rest) =
      if entry.0 == key then (key, new) ∷ rest else entry ∷ insert key new rest

  -- delete(m, k)
  unfoldable pub erase : String → Map V → Map V
  erase k [] = []
  erase k ((j, v) ∷ m) = let rest = erase k m in if j == k then rest else (j, v) ∷ rest

  -- The loop `for _, v := range m { if p(v) { return true } }; return false`.
  unfoldable pub any_value : (V → Bool) → Map V → Bool
  any_value p [] = false
  any_value p ((j, v) ∷ m) = if p v then true else any_value p m

  -- The first entry that a `range` loop accepts, with its key.
  unfoldable pub find_value : (V → Bool) → Map V → Option (String × V)
  find_value p [] = none
  find_value p ((j, v) ∷ m) = if p v then some (j, v) else find_value p m

  -- The values that a `range` loop appends to its result.
  unfoldable pub values_where : (V → Bool) → Map V → List V
  values_where p [] = []
  values_where p ((j, v) ∷ m) = let rest = values_where p m in if p v then v ∷ rest else rest

  -- A `range` loop that changes each value in place.
  unfoldable pub map_values : (V → V) → Map V → Map V
  map_values f [] = []
  map_values f ((j, v) ∷ m) = (j, f v) ∷ map_values f m

  -- `for k, v := range us { m[k] = v }`
  unfoldable pub insert_all : Map V → Map V → Map V
  insert_all [] m = m
  insert_all ((j, v) ∷ us) m = insert_all us (insert j v m)

  -- `for _, k := range ks { delete(m, k) }`
  unfoldable pub erase_all : List String → Map V → Map V
  erase_all [] m = m
  erase_all (k ∷ ks) m = erase_all ks (erase k m)

  -- No key occurs twice.
  abbrev pub IsMap : Map V → Type ℓ
  IsMap [] = Unit
  IsMap ((j, v) ∷ m) = (lookup j m ≡ none) × IsMap m

-- len(m)
abbrev pub size {ℓ} : {V : Type ℓ} → Map V → ℕ
size [] = 0
size (e ∷ m) = suc (size m)
