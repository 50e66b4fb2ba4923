-- ===== src/Prelude/Maps.antt =====
-- `std::map` with numbers for keys, and the tables of the database: entries in the order of their
-- keys. The laws hold of every list of entries.
pub mod Order
use cryo_nero.Prelude.{
  ℕ, ◌≡◌, ◌≢◌, refl, arith, Bool, true, false, Option, none, some, List, [], ◌∷◌, ltb, ◌==◌,
  if◌then◌else◌, ◌≤◌, ◌+◌, max,
}

abbrev pub Map {ℓ} : Type ℓ → Type ℓ
Map V = List (ℕ × V)

module _ {ℓ} {V : Type ℓ} where
  unfoldable pub lookup : ℕ → Map V → Option V
  lookup key [] = none
  lookup key ((first, value) ∷ entries) =
      let later = lookup key entries in if first == key then some value else later

  -- `m[key] = value`
  unfoldable pub insert : ℕ → V → Map V → Map V
  insert key value [] = (key, value) ∷ []
  insert key value ((first, other) ∷ entries) =
      let later = (first, other) ∷ insert key value entries in
      if first == key
      then (key, value) ∷ entries
      else if ltb key first
      then (key, value) ∷ (first, other) ∷ entries
      else later

  -- `m.erase(k)`
  unfoldable pub erase : ℕ → Map V → Map V
  erase k [] = []
  erase k ((j, v) ∷ m) = let rest = erase k m in if j == k then rest else (j, v) ∷ rest

  -- `m.count(k) != 0`
  unfoldable pub contains : ℕ → Map V → Bool
  contains k m = elim (lookup k m) [ none ↦ false | some v ↦ true ]

  pub lookup-insert :
      (key at : ℕ) (value : V) (entries : Map V)
      → lookup at (insert key value entries) ≡ (if key == at then some value else lookup at entries)
  unfolding insert lookup
  lookup-insert key at value ((first, other) ∷ entries) =
      ground (arith, lookup-insert key at value entries)
  lookup-insert key at value [] = refl

  pub lookup-erase :
      (key at : ℕ) (entries : Map V)
      → lookup at (erase key entries) ≡ (if key == at then none else lookup at entries)
  unfolding erase lookup
  lookup-erase key at ((first, other) ∷ entries) = ground (arith, lookup-erase key at entries)
  lookup-erase key at [] = ground arith

pub lookup-empty {ℓ} : {V : Type ℓ} (k : ℕ) → lookup {V = V} k [] ≡ none
unfolding lookup
lookup-empty k = refl

pub ruleset map_laws = (lookup-insert, lookup-erase, lookup-empty)
