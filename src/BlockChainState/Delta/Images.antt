-- ===== src/BlockChainState/Delta/Images.antt =====
-- The key images that a delta of Core/BlockChainState.cpp holds.
use cryo_nero.Prelude.{
  ℕ, ◌≡◌, refl, sym, ap, ◌∙◌, arith, true, false, ◌||◌, Option, none, some, List, [], ◌∷◌, ◌==◌,
  Option-cases, inl, inr,
}
use cryo_nero.Prelude.Maps.{Map, lookup, insert, contains, lookup-insert}
use cryo_nero.BlockChainState.Delta.{
  DeltaState, delta_interface, store_keyimage, read_keyimage, spend_output, push_amount_output,
  apply, apply_keyimages, apply_amounts, apply_spent, push_all,
}

contains-insert : (k j v : ℕ) (m : Map ℕ) → contains j (insert k v m) ≡ (k == j || contains j m)
unfolding contains
contains-insert k j v m = ground (arith, lookup-insert k j v m)

abbrev images_of : Option DeltaState → Map ℕ
images_of none = []
images_of (some d) = d.keyimages

store_some :
    (image height : ℕ) (d d' : DeltaState)
    → store_keyimage image height d ≡ some d'
    → (lookup image d.keyimages ≡ none) × (d'.keyimages ≡ insert image height d.keyimages)
unfolding store_keyimage
store_some image height d d' e = elim (Option-cases (lookup image d.keyimages)) [
  | inl n ↦ (n, sym (ap images_of e) ∙ ground (arith, n))
  | inr (old, n) ↦ absurd (ground (arith, n))
]

-- What a stored image does to the images of a delta.
pub store_keyimage-contains :
    (image height : ℕ) (d d' : DeltaState)
    → store_keyimage image height d ≡ some d'
    → (contains image d.keyimages ≡ false)
      × ((k : ℕ) → contains k d'.keyimages ≡ (image == k || contains k d.keyimages))
store_keyimage-contains image height d d' e =
    let (fresh, stored) = store_some image height d d' e in
    (
      unfold contains in ground (arith, fresh),
      λ k. ap (contains k) stored ∙ contains-insert image k height d.keyimages,
    )

pub spend_output-keyimages :
    (a i : ℕ) (d : DeltaState) → (spend_output a i d).keyimages ≡ d.keyimages
unfolding spend_output
spend_output-keyimages a i d = refl

pub push_amount_output-keyimages :
    (a t height k : ℕ) (d : DeltaState)
    → (push_amount_output a t height k d).0.keyimages ≡ d.keyimages
unfolding push_amount_output
push_amount_output-keyimages a t height k d = refl

contains-cons :
    (image height k : ℕ) (m : Map ℕ)
    → contains k ((image, height) ∷ m) ≡ (image == k || contains k m)
unfolding contains lookup
contains-cons image height k m = ground arith

pub store_keyimage-parent :
    (image height : ℕ) (d d' : DeltaState)
    → store_keyimage image height d ≡ some d'
    → d'.parent_state ≡ d.parent_state
unfolding store_keyimage
store_keyimage-parent image height d d' e = elim (Option-cases (lookup image d.keyimages)) [
  | inl n ↦ ground (arith, n, e)
  | inr (old, n) ↦ absurd (ground (arith, n))
]

pub spend_output-parent :
    (a i : ℕ) (d : DeltaState) → (spend_output a i d).parent_state ≡ d.parent_state
unfolding spend_output
spend_output-parent a i d = refl

-- An image that a delta does not show is not shown by its parent.
pub read_keyimage-parent :
    (d : DeltaState) (k : ℕ) → read_keyimage d k ≡ none → d.parent_state.read_keyimage k ≡ none
unfolding read_keyimage
read_keyimage-parent d k e = ground (arith, e)

stored_all :
    (m : Map ℕ) (s s' : DeltaState)
    → apply_keyimages delta_interface m s ≡ some s'
    → ((k : ℕ) → contains k m ≡ true → contains k s.keyimages ≡ false)
      × ((k : ℕ) → contains k s'.keyimages ≡ (contains k m || contains k s.keyimages))
unfolding apply_keyimages
stored_all [] s s' e = (
  λ k h. absurd (unfold contains lookup in cc),
  λ k. unfold contains lookup in ap (λ (o : Option DeltaState). contains k (images_of o)) (sym e),
)
stored_all ((image, height) ∷ m) s s' e = elim (Option-cases (store_keyimage image height s)) [
  | inl n ↦ absurd (ground (arith, n))
  | inr (s1, n) ↦
      let (fresh, one) = store_keyimage-contains image height s s1 n in
      let (apart, all) = stored_all m s1 s' (ground (arith, n)) in
      (
        λ k h. ground (arith, fresh, one k, apart k, contains-cons image height k m),
        λ k. ground (arith, one k, all k, contains-cons image height k m),
      )
]

grow_keeps :
    (a height : ℕ) (outputs : List (ℕ × ℕ)) (s s' : DeltaState)
    → push_all delta_interface a height outputs s ≡ some s'
    → s'.keyimages ≡ s.keyimages
unfolding push_all
grow_keeps a height [] s s' e = ap images_of (sym e)
grow_keeps a height ((t, k) ∷ rest) s s' e =
    grow_keeps a height rest (push_amount_output a t height k s).0 s' e
    ∙ push_amount_output-keyimages a t height k s

amounts_keep :
    (height : ℕ) (m : Map (List (ℕ × ℕ))) (s s' : DeltaState)
    → apply_amounts delta_interface height m s ≡ some s'
    → s'.keyimages ≡ s.keyimages
unfolding apply_amounts
amounts_keep height [] s s' e = ap images_of (sym e)
amounts_keep height ((a, outputs) ∷ m) s s' e =
    elim (Option-cases (push_all delta_interface a height outputs s)) [
      | inl n ↦ absurd (ground (arith, n))
      | inr (s1, n) ↦
          amounts_keep height m s1 s' (ground (arith, n)) ∙ grow_keeps a height outputs s s1 n
    ]

spent_keeps :
    (spent : List (ℕ × ℕ)) (s : DeltaState)
    → (apply_spent delta_interface spent s).keyimages ≡ s.keyimages
unfolding apply_spent
spent_keeps [] s = refl
spent_keeps ((a, i) ∷ rest) s = spent_keeps rest (spend_output a i s) ∙ spend_output-keyimages a i s

-- A delta that could be applied to another shared no image with it, and left it with both's images.
pub apply-contains :
    (d s s' : DeltaState)
    → apply delta_interface d s ≡ some s'
    → ((k : ℕ) → contains k d.keyimages ≡ true → contains k s.keyimages ≡ false)
      × ((k : ℕ) → contains k s'.keyimages ≡ (contains k d.keyimages || contains k s.keyimages))
unfolding apply
apply-contains d s s' e = elim (Option-cases (apply_keyimages delta_interface d.keyimages s)) [
  | inl n ↦ absurd (ground (arith, n))
  | inr (s1, n) ↦
      elim (Option-cases (apply_amounts delta_interface d.block_height d.global_amounts s1)) [
        | inl m ↦ absurd (ground (arith, n, m))
        | inr (s2, m) ↦
            let (apart, all) = stored_all d.keyimages s s1 n in
            (
              apart,
              λ k.
                  ap (λ (o : Option DeltaState). contains k (images_of o)) (sym e)
                  ∙ ground (
                    arith,
                    n,
                    m,
                    spent_keeps d.spent_outputs s2,
                    amounts_keep d.block_height d.global_amounts s1 s2 m,
                  )
                  ∙ all k,
            )
      ]
]
