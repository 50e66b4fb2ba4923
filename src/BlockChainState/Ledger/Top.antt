-- ===== src/BlockChainState/Ledger/Top.antt =====
-- `rbegin` of the outputs of an amount in Core/BlockChainState.cpp finds the largest index.
use cryo_nero.Prelude.{
  ℕ, zero, suc, ◌+◌, ◌-◌, ◌<◌, ◌≤◌, max, ◌≡◌, refl, sym, ◌∙◌, ap, arith, some, List, [], ◌∷◌, ◌==◌,
  ltb, length, get_elem?, Bool-cases, inl, inr,
}
use cryo_nero.Prelude.Maps.{Map, lookup}
use cryo_nero.BlockChainState.Interface.{Output}
use cryo_nero.BlockChainState.Ledger.{behind_last}

key_below_last : (m : Map Output) (i : ℕ) (o : Output) → lookup i m ≡ some o → i < behind_last m
unfolding lookup
key_below_last [] i o h = cc
key_below_last ((j, v) ∷ m) i o h = elim (Bool-cases (j == i)) [
  | inl e ↦ ground arith
  | inr e ↦ below (key_below_last m i o (ground arith))
]
  where
    below : i < behind_last m → i < max (j + 1) (behind_last m)
    below k = omega arith

last_is_key :
    (m : Map Output) → 0 < behind_last m → (o : Output) × (lookup (behind_last m - 1) m ≡ some o)
unfolding lookup
last_is_key [] h = absurd (omega arith)
last_is_key ((j, v) ∷ m) h = elim (Bool-cases (ltb (j + 1) (behind_last m))) [
  | inr e ↦ (v, ground arith)
  | inl e ↦ let (o, k) = last_is_key m (ground arith) in (o, ground arith)
]

index_below_length :
    (os : List Output) (i : ℕ) (o : Output) → get_elem? os i ≡ some o → i < length os
index_below_length [] i o h = cc
index_below_length (x ∷ os) zero o h = omega arith
index_below_length (x ∷ os) (suc i) o h = omega (arith, index_below_length os i o h)

top_from :
    (o : Output) (os : List Output) → (p : Output) × (get_elem? (o ∷ os) (length os) ≡ some p)
top_from o [] = (o, refl)
top_from o (p ∷ os) = top_from p os

top_of : (os : List Output) → 0 < length os → (o : Output) × (get_elem? os (length os - 1) ≡ some o)
top_of [] h = absurd (omega arith)
top_of (x ∷ os) h = let (o, k) = top_from x os in (o, ap (get_elem? (x ∷ os)) top ∙ k)
  where
    top : length (x ∷ os) - 1 ≡ length os
    top = omega arith

-- `rbegin` under the prefix finds the top of the stack.
pub behind_last-length :
    (m : Map Output) (os : List Output)
    → ((i : ℕ) → lookup i m ≡ get_elem? os i)
    → behind_last m ≡ length os
behind_last-length m os h = omega (arith, above, below)
  where
    above : length os ≤ behind_last m
    above = elim (Bool-cases (ltb 0 (length os))) [
      | inl e ↦
          let (o, k) = top_of os (ground arith) in
          omega (arith, key_below_last m (length os - 1) o (h (length os - 1) ∙ k))
      | inr e ↦ ground arith
    ]

    below : behind_last m ≤ length os
    below = elim (Bool-cases (ltb 0 (behind_last m))) [
      | inl e ↦
          let (o, k) = last_is_key m (ground arith) in
          omega
            (arith, index_below_length os (behind_last m - 1) o (sym (h (behind_last m - 1)) ∙ k))
      | inr e ↦ ground arith
    ]
