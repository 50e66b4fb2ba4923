-- ===== src/BlockChainState/Delta/Valid.antt =====
-- The operations of a delta of Core/BlockChainState.cpp keep it valid.
use cryo_nero.Prelude.{
  ℕ, ◌+◌, ◌≡◌, refl, sym, ◌∙◌, arith, none, some, List, [], ◌∷◌, ◌++◌, ◌==◌, Bool-cases,
  Option-cases, inl, inr,
}
use cryo_nero.Prelude.Maps.{Map, lookup, insert, lookup-insert}
use cryo_nero.Prelude.Maps.Order.{RisesFrom, insert-RisesFrom, lookup-below}
use cryo_nero.BlockChainState.Interface.{StateView}
use cryo_nero.BlockChainState.Delta.{
  DeltaState, delta_interface, new_delta, new_outputs, store_keyimage, spend_output,
  push_amount_output, apply, apply_keyimages, apply_amounts, apply_spent, push_all,
}
use cryo_nero.BlockChainState.Delta.Apply.{DeltaIsValid}

pub new_delta-DeltaIsValid :
    (height time : ℕ) (view : StateView) → DeltaIsValid (new_delta height time view)
unfolding lookup
new_delta-DeltaIsValid height time view = record {
  amounts = tt;
  images = tt;
  heights = λ k h e. absurd cc;
}

pub spend_output-DeltaIsValid :
    (a i : ℕ) (d : DeltaState) → DeltaIsValid d → DeltaIsValid (spend_output a i d)
unfolding spend_output
spend_output-DeltaIsValid a i d v = record {
  amounts = v.amounts;
  images = v.images;
  heights = v.heights;
}

pub push_amount_output-DeltaIsValid :
    (a t height k : ℕ) (d : DeltaState)
    → DeltaIsValid d
    → DeltaIsValid (push_amount_output a t height k d).0
unfolding push_amount_output
push_amount_output-DeltaIsValid a t height k d v = record {
  amounts =
      insert-RisesFrom 0 a (new_outputs d a ++ (t, k) ∷ []) d.global_amounts (omega arith)
        v.amounts;
  images = v.images;
  heights = v.heights;
}

pub spend_output-height :
    (a i : ℕ) (d : DeltaState) → (spend_output a i d).block_height ≡ d.block_height
unfolding spend_output
spend_output-height a i d = refl

pub push_amount_output-spent :
    (a t height k : ℕ) (d : DeltaState)
    → (push_amount_output a t height k d).0.spent_outputs ≡ d.spent_outputs
unfolding push_amount_output
push_amount_output-spent a t height k d = refl

pub push_amount_output-height :
    (a t height k : ℕ) (d : DeltaState)
    → (push_amount_output a t height k d).0.block_height ≡ d.block_height
unfolding push_amount_output
push_amount_output-height a t height k d = refl

stored_valid :
    (image : ℕ) (d : DeltaState)
    → DeltaIsValid d
    → DeltaIsValid (record d { keyimages = insert image d.block_height d.keyimages })
stored_valid image d v = record {
  amounts = v.amounts;
  images = insert-RisesFrom 0 image d.block_height d.keyimages (omega arith) v.images;
  heights =
      λ k h e. ground (arith, lookup-insert image k d.block_height d.keyimages, v.heights k h, e);
}

-- An image is stored with the height of the block, as redo does it.
pub store_keyimage-DeltaIsValid :
    (image height : ℕ) (d d' : DeltaState)
    → height ≡ d.block_height
    → store_keyimage image height d ≡ some d'
    → DeltaIsValid d
    → DeltaIsValid d' × (d'.block_height ≡ d.block_height)
unfolding store_keyimage
store_keyimage-DeltaIsValid image height d d' same e v =
    elim (Option-cases (lookup image d.keyimages)) [
      | inr (old, n) ↦ absurd (ground (arith, n))
      | inl n ↦ rw (sym (result n)) (stored_valid image d v, refl)
    ]
  where
    result :
        lookup image d.keyimages ≡ none
        → record d { keyimages = insert image d.block_height d.keyimages } ≡ d'
    result n = ground (arith, n, e, same)

-- Of a valid delta of the same height to a valid one.
Kept : DeltaState → DeltaState → Type 0
Kept s s' = DeltaIsValid s' × (s'.block_height ≡ s.block_height)

of_some :
    (s d d' : DeltaState)
    → some d ≡ some d'
    → DeltaIsValid d
    → d.block_height ≡ s.block_height
    → Kept s d'
unfolding Kept
of_some s d d' e v h = rw (sym (same e)) (v, h)
  where
    same : some d ≡ some d' → d ≡ d'
    same e = ground (arith, e)

then-Kept : (a b c : DeltaState) → b.block_height ≡ a.block_height → Kept b c → Kept a c
unfolding Kept
then-Kept a b c h (v, g) = (v, g ∙ h)

images-Kept :
    (bound : ℕ) (m : Map ℕ) (s s' : DeltaState)
    → ((k h : ℕ) → lookup k m ≡ some h → h ≡ s.block_height)
    → RisesFrom bound m
    → apply_keyimages delta_interface m s ≡ some s'
    → DeltaIsValid s
    → Kept s s'
unfolding apply_keyimages
images-Kept bound [] s s' heights rises e v = of_some s s s' e v refl
images-Kept bound ((image, height) ∷ m) s s' heights (low, rises) e v =
    elim (Option-cases (store_keyimage image height s)) [
      | inl n ↦ absurd (ground (arith, n))
      | inr (s1, n) ↦
          let (v1, h1) = store_keyimage-DeltaIsValid image height s s1 (here) n v in
          then-Kept s s1 s' h1 (
            images-Kept (image + 1) m s1 s' (λ k h f. later k h f ∙ sym h1) rises
              (ground (arith, n)) v1)
    ]
  where
    here : height ≡ s.block_height
    here = heights image height (unfold lookup in ground arith)

    later : (k h : ℕ) → lookup k m ≡ some h → h ≡ s.block_height
    later k h f = elim (Bool-cases (image == k)) [
      | inl g ↦ absurd (ground (arith, f, lookup-below (image + 1) image m (omega arith) rises))
      | inr g ↦ heights k h (unfold lookup in ground (arith, g, f))
    ]

push-Kept :
    (a height : ℕ) (outputs : List (ℕ × ℕ)) (s s' : DeltaState)
    → push_all delta_interface a height outputs s ≡ some s'
    → DeltaIsValid s
    → Kept s s'
unfolding push_all
push-Kept a height [] s s' e v = of_some s s s' e v refl
push-Kept a height ((t, k) ∷ rest) s s' e v =
    then-Kept s (push_amount_output a t height k s).0 s' (push_amount_output-height a t height k s)
      (push-Kept a height rest (push_amount_output a t height k s).0 s' e
        (push_amount_output-DeltaIsValid a t height k s v))

amounts-Kept :
    (height : ℕ) (m : Map (List (ℕ × ℕ))) (s s' : DeltaState)
    → apply_amounts delta_interface height m s ≡ some s'
    → DeltaIsValid s
    → Kept s s'
unfolding apply_amounts Kept
amounts-Kept height [] s s' e v = of_some s s s' e v refl
amounts-Kept height ((a, outputs) ∷ m) s s' e v =
    elim (Option-cases (push_all delta_interface a height outputs s)) [
      | inl n ↦ absurd (ground (arith, n))
      | inr (s1, n) ↦
          let (v1, h1) = push-Kept a height outputs s s1 n v in
          then-Kept s s1 s' h1 (amounts-Kept height m s1 s' (ground (arith, n)) v1)
    ]

spent-Kept :
    (spent : List (ℕ × ℕ)) (s : DeltaState)
    → DeltaIsValid s
    → Kept s (apply_spent delta_interface spent s)
unfolding apply_spent Kept
spent-Kept [] s v = (v, refl)
spent-Kept ((a, i) ∷ rest) s v =
    then-Kept s (spend_output a i s) (apply_spent delta_interface rest (spend_output a i s))
      (spend_output-height a i s)
      (spent-Kept rest (spend_output a i s) (spend_output-DeltaIsValid a i s v))

pub apply-DeltaIsValid :
    (d s s' : DeltaState)
    → DeltaIsValid d
    → d.block_height ≡ s.block_height
    → apply delta_interface d s ≡ some s'
    → DeltaIsValid s
    → DeltaIsValid s' × (s'.block_height ≡ s.block_height)
unfolding apply Kept
apply-DeltaIsValid d s s' vd same e v =
    elim (Option-cases (apply_keyimages delta_interface d.keyimages s)) [
      | inl n ↦ absurd (ground (arith, n))
      | inr (s1, n) ↦
          elim (Option-cases (apply_amounts delta_interface d.block_height d.global_amounts s1)) [
            | inl m ↦ absurd (ground (arith, n, m))
            | inr (s2, m) ↦
                let (v1, h1) =
                  images-Kept 0 d.keyimages s s1 (λ k h f. vd.heights k h f ∙ same) vd.images n v in
                let (v2, h2) = amounts-Kept d.block_height d.global_amounts s1 s2 m v1 in
                let (v3, h3) = spent-Kept d.spent_outputs s2 v2 in
                of_some s (apply_spent delta_interface d.spent_outputs s2) s'
                  (ground (arith, n, m, e)) v3 (h3 ∙ h2 ∙ h1)
          ]
    ]
