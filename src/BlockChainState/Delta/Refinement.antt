-- ===== src/BlockChainState/Delta/Refinement.antt =====
-- A delta of Core/BlockChainState.cpp shows the stacks of its parent, grown by its own outputs.
use cryo_nero.Prelude.{
  ℕ, zero, suc, ◌+◌, ◌-◌, ◌^◌, ◌<◌, ◌≡◌, refl, arith, false, Option, none, some, List, [], ◌∷◌,
  ◌++◌, map, ltb, length, get_elem?, Bool-cases, Option-cases, length-append, inl, inr,
}
use cryo_nero.Prelude.Maps.{lookup}
use cryo_nero.BlockChainState.Interface.{Output}
use cryo_nero.BlockChainState.Stacks.{Stacks, Shows, get_elem?-append_left, get_elem?-append_right}
use cryo_nero.BlockChainState.Delta.{
  DeltaState, new_outputs, delta_view, read_keyimage, next_global_index_for_amount,
  read_amount_output,
}

abbrev pub to_output : ℕ → ℕ × ℕ → Output
to_output height (unlock_time, key) = record {
  unlock_time = unlock_time;
  public_key = key;
  height = height;
  spent = false;
}

-- The parent's stacks with the new outputs on them.
abbrev pub grown : DeltaState → Stacks → Stacks
grown d st a = st a ++ map (to_output d.block_height) (new_outputs d a)

-- The parent's images with those of the delta.
abbrev pub grown_images : DeltaState → (ℕ → Option ℕ) → ℕ → Option ℕ
grown_images d images k = elim (lookup k d.keyimages) [
  | none ↦ images k
  | some height ↦ some d.block_height
]

get_elem?-map :
    (height : ℕ) (outputs : List (ℕ × ℕ)) (i : ℕ)
    → get_elem? (map (to_output height) outputs) i
      ≡ (elim (get_elem? outputs i) [ none ↦ none | some o ↦ some (to_output height o) ])
get_elem?-map height [] i = refl
get_elem?-map height (o ∷ outputs) zero = refl
get_elem?-map height (o ∷ outputs) (suc i) = get_elem?-map height outputs i

pub length-map_lem :
    (height : ℕ) (outputs : List (ℕ × ℕ)) → length (map (to_output height) outputs) ≡ length outputs
length-map_lem height [] = refl
length-map_lem height (o ∷ outputs) = omega (arith, length-map_lem height outputs)

module _ (d : DeltaState) (st : Stacks) (images : ℕ → Option ℕ)
    (shows : Shows d.parent_state st images)
    (fits : (a : ℕ) → length (st a) + length (new_outputs d a) < 2 ^ 32) where
  next_lem : (a : ℕ) → next_global_index_for_amount d a ≡ length (grown d st a)
  unfolding next_global_index_for_amount
  next_lem a = elim (Option-cases (lookup a d.global_amounts)) [
    | inl e ↦ ground (
      arith,
      e,
      fits a,
      shows.next a,
      length-append (st a) (map (to_output d.block_height) (new_outputs d a)),
    )
    | inr (n, e) ↦ ground (
      arith,
      e,
      fits a,
      shows.next a,
      length-append (st a) (map (to_output d.block_height) (new_outputs d a)),
      length-map_lem d.block_height n,
    )
  ]

  read_lem : (a i : ℕ) → read_amount_output d a i ≡ get_elem? (grown d st a) i
  unfolding read_amount_output
  read_lem a i = elim (Bool-cases (ltb i (length (st a)))) [
    | inl e ↦ ground (
      arith,
      shows.next a,
      shows.outputs a i,
      get_elem?-append_left (st a) (map (to_output d.block_height) (new_outputs d a)) i,
    )
    | inr e ↦ ground (
      arith,
      shows.next a,
      get_elem?-append_right (st a) (map (to_output d.block_height) (new_outputs d a)) i,
      get_elem?-map d.block_height (new_outputs d a) (i - length (st a)),
    )
  ]

-- Over a parent that shows some stacks and images, what is read from a delta is the parent's
-- stacks grown by the delta's outputs, and the images of both. No stack has more than 2^32 - 1
-- outputs.
pub delta_view-Shows :
    (d : DeltaState) (st : Stacks) (images : ℕ → Option ℕ)
    → Shows d.parent_state st images
    → ((a : ℕ) → length (st a) + length (new_outputs d a) < 2 ^ 32)
    → Shows (delta_view d) (grown d st) (grown_images d images)
unfolding read_keyimage
delta_view-Shows d st images shows fits = record {
  next = next_lem d st images shows fits;
  outputs = read_lem d st images shows fits;
  keyimages = λ k. ground (arith, shows.keyimages k);
}
