-- ===== src/Prelude/Maps/Order.antt =====
-- The order of a map's keys: each key occurs once.
use cryo_nero.Prelude.{
  ℕ, ◌+◌, ◌≡◌, ◌≤◌, ◌<◌, refl, arith, none, [], ◌∷◌, ltb, ◌==◌, Bool-cases, inl, inr,
}
use cryo_nero.Prelude.Maps.{Map, lookup, insert}

module _ {ℓ} {V : Type ℓ} where
  -- From the bound on, the keys rise.
  abbrev pub RisesFrom : ℕ → Map V → Type 0
  RisesFrom bound [] = Unit {0}
  RisesFrom bound ((k, v) ∷ m) = (bound ≤ k) × RisesFrom (k + 1) m

  pub RisesFrom-weaken : (b c : ℕ) (m : Map V) → c ≤ b → RisesFrom b m → RisesFrom c m
  RisesFrom-weaken b c [] le h = tt
  RisesFrom-weaken b c ((k, v) ∷ m) le (low, rest) = (omega arith, rest)

  pub insert-RisesFrom :
      (b k : ℕ) (v : V) (m : Map V) → b ≤ k → RisesFrom b m → RisesFrom b (insert k v m)
  unfolding insert
  insert-RisesFrom b k v [] le h = (le, tt)
  insert-RisesFrom b k v ((j, w) ∷ m) le (low, rest) = elim (Bool-cases (j == k)) [
    | inl e ↦ ground arith
    | inr e ↦ elim (Bool-cases (ltb k j)) [
      | inl f ↦ ground arith
      | inr f ↦ ground (arith, insert-RisesFrom (j + 1) k v m)
    ]
  ]

  -- A key below the bound is missing.
  pub lookup-below : (b k : ℕ) (m : Map V) → k < b → RisesFrom b m → lookup k m ≡ none
  unfolding lookup
  lookup-below b k [] lt h = refl
  lookup-below b k ((j, w) ∷ m) lt (low, rest) = ground (arith, lookup-below (j + 1) k m)
