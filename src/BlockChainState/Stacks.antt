-- ===== src/BlockChainState/Stacks.antt =====
-- The abstract state behind `IBlockChainState`: for each amount the stack of its outputs, which a
-- global index counts from the bottom, and the spent key images.
use cryo_nero.Prelude.{
  ℕ, zero, suc, ◌-◌, ◌<◌, ◌≤◌, ◌≡◌, refl, arith, Bool, Option, none, some, List, [], ◌∷◌, ◌++◌,
  ◌==◌, if◌then◌else◌, length, get_elem?,
}
use cryo_nero.BlockChainState.Interface.{Output, StateView}

abbrev pub Stacks : Type 0
Stacks = ℕ → List Output

abbrev pub push_at : ℕ → Output → Stacks → Stacks
push_at a o st b = if a == b then st b ++ o ∷ [] else st b

abbrev pub replace_at : ℕ → List Output → Stacks → Stacks
replace_at a outputs st b = if a == b then outputs else st b

abbrev pub mark_index : ℕ → Bool → List Output → List Output
mark_index i b [] = []
mark_index zero b (o ∷ os) = record o { spent = b } ∷ os
mark_index (suc i) b (o ∷ os) = o ∷ mark_index i b os

abbrev pub mark_at : ℕ → ℕ → Bool → Stacks → Stacks
mark_at a i b st c = if a == c then mark_index i b (st c) else st c

-- The reads of a state show these stacks and images.
pub record Shows (view : StateView) (st : Stacks) (images : ℕ → Option ℕ) : Type 0 where
  pub next : (a : ℕ) → view.next_global_index_for_amount a ≡ length (st a)
  pub outputs : (a i : ℕ) → view.read_amount_output a i ≡ get_elem? (st a) i
  pub keyimages : (k : ℕ) → view.read_keyimage k ≡ images k

module _ {ℓ} {A : Type ℓ} where
  pub get_elem?-beyond : (xs : List A) (i : ℕ) → length xs ≤ i → get_elem? xs i ≡ none
  get_elem?-beyond [] i h = refl
  get_elem?-beyond (x ∷ xs) zero h = absurd (omega arith)
  get_elem?-beyond (x ∷ xs) (suc i) h = get_elem?-beyond xs i (omega arith)

  pub get_elem?-push :
      (xs : List A) (x : A) (i : ℕ)
      → get_elem? (xs ++ x ∷ []) i ≡ (if i == length xs then some x else get_elem? xs i)
  get_elem?-push [] x zero = refl
  get_elem?-push [] x (suc i) = ground arith
  get_elem?-push (y ∷ xs) x zero = ground arith
  get_elem?-push (y ∷ xs) x (suc i) = ground (arith, get_elem?-push xs x i)

  pub get_elem?-append_right :
      (xs ys : List A) (i : ℕ)
      → length xs ≤ i
      → get_elem? (xs ++ ys) i ≡ get_elem? ys (i - length xs)
  get_elem?-append_right [] ys i h = ground arith
  get_elem?-append_right (x ∷ xs) ys zero h = absurd (omega arith)
  get_elem?-append_right (x ∷ xs) ys (suc i) h = ground (arith, get_elem?-append_right xs ys i)

  pub get_elem?-append_left :
      (xs ys : List A) (i : ℕ) → i < length xs → get_elem? (xs ++ ys) i ≡ get_elem? xs i
  get_elem?-append_left [] ys i h = absurd (omega arith)
  get_elem?-append_left (x ∷ xs) ys zero h = refl
  get_elem?-append_left (x ∷ xs) ys (suc i) h = get_elem?-append_left xs ys i (omega arith)

pub get_elem?-mark :
    (os : List Output) (i j : ℕ) (b : Bool)
    → get_elem? (mark_index i b os) j ≡ (
        if i == j
        then (elim (get_elem? os j) [ none ↦ none | some o ↦ some (record o { spent = b }) ])
        else get_elem? os j)
get_elem?-mark [] i j b = ground arith
get_elem?-mark (o ∷ os) zero zero b = refl
get_elem?-mark (o ∷ os) zero (suc j) b = ground arith
get_elem?-mark (o ∷ os) (suc i) zero b = ground arith
get_elem?-mark (o ∷ os) (suc i) (suc j) b = ground (arith, get_elem?-mark os i j b)

pub length-mark : (os : List Output) (i : ℕ) (b : Bool) → length (mark_index i b os) ≡ length os
length-mark [] i b = refl
length-mark (o ∷ os) zero b = refl
length-mark (o ∷ os) (suc i) b = omega (arith, length-mark os i b)
