-- ===== src/BlockChainState/Delta/Shown.antt =====
-- What a delta of Core/BlockChainState.cpp makes of an abstract state, and what `apply` on another
-- delta makes of it.
use cryo_nero.Prelude.{
  ℕ, ◌+◌, ◌≡◌, refl, sym, ap, ◌∙◌, fun_ext, arith, Option, none, some, List, [], ◌∷◌, ◌++◌, map,
  Option-cases, inl, inr,
}
use mathlib.Core.List.{append-nil, append_assoc}
use mathlib.Core.Path.{subst}
use cryo_nero.Prelude.Maps.{Map, lookup, insert, lookup-insert}
use cryo_nero.Prelude.Maps.Order.{RisesFrom, lookup-below}
use cryo_nero.BlockChainState.Stacks.{Stacks}
use cryo_nero.BlockChainState.Effects.{AbstractState}
use cryo_nero.BlockChainState.Delta.{
  DeltaState, delta_interface, new_outputs, store_keyimage, push_amount_output, spend_output, apply,
  apply_keyimages, apply_amounts, apply_spent, push_all,
}
use cryo_nero.BlockChainState.Delta.Refinement.{to_output, grown, grown_images}
use cryo_nero.BlockChainState.Delta.Images.{push_amount_output-keyimages}
use cryo_nero.BlockChainState.Delta.Valid.{push_amount_output-height, push_amount_output-spent}
use cryo_nero.BlockChainState.Delta.Apply.{
  DeltaIsValid, grow_at, grow_all, grow_push, grow_none, grow_all_cons, grown_lem, mark_all,
}
use cryo_nero.BlockChainState.Delta.Marks.{
  shown, InRange, mark_all-append, mark_all-grow, grown-push,
}

-- The delta that shows these stacks, else alike.
abbrev Grows : DeltaState → DeltaState → Stacks → Stacks → Type 0
Grows s s' st st' =
    (grown s' st ≡ st')
    × (s'.spent_outputs ≡ s.spent_outputs)
    × (s'.keyimages ≡ s.keyimages)
    × (s'.block_height ≡ s.block_height)

some-injective : {A : Type 0} {a b : A} → some a ≡ some b → a ≡ b
some-injective e = cc

push_all-Grows :
    (a height : ℕ) (outputs : List (ℕ × ℕ)) (s s' : DeltaState) (st : Stacks)
    → push_all delta_interface a height outputs s ≡ some s'
    → Grows s s' st (grow_at a s.block_height outputs (grown s st))
unfolding push_all
push_all-Grows a height [] s s' st e =
    subst (λ (r : DeltaState). Grows s r st (grow_at a s.block_height [] (grown s st)))
      (some-injective e) (sym (grow_none a s.block_height (grown s st)), refl, refl, refl)
push_all-Grows a height ((t, k) ∷ rest) s s' st e =
    let s1 = (push_amount_output a t height k s).0 in
    let (grew, spent, images, level) = push_all-Grows a height rest s1 s' st e in
    let level1 = push_amount_output-height a t height k s in
    (
      grew
          ∙ ap (λ (h : ℕ). grow_at a h rest (grown s1 st)) level1
          ∙ ap (grow_at a s.block_height rest) (grown-push a t height k s st)
          ∙ grow_push a s.block_height t k rest (grown s st),
      spent ∙ push_amount_output-spent a t height k s,
      images ∙ push_amount_output-keyimages a t height k s,
      level ∙ level1,
    )

apply_amounts-Grows :
    (height bound : ℕ) (m : Map (List (ℕ × ℕ))) (s s' : DeltaState) (st : Stacks)
    → RisesFrom bound m
    → apply_amounts delta_interface height m s ≡ some s'
    → Grows s s' st (grow_all s.block_height m (grown s st))
unfolding apply_amounts lookup
apply_amounts-Grows height bound [] s s' st rises e =
    subst (λ (r : DeltaState). Grows s r st (grow_all s.block_height [] (grown s st)))
      (some-injective e) (refl, refl, refl, refl)
apply_amounts-Grows height bound ((a, outputs) ∷ m) s s' st (low, rises) e =
    elim (Option-cases (push_all delta_interface a height outputs s)) [
      | inl n ↦ absurd (ground (arith, n))
      | inr (s1, n) ↦
          let (grew1, spent1, images1, level1) = push_all-Grows a height outputs s s1 st n in
          let (grew2, spent2, images2, level2) =
            apply_amounts-Grows height (a + 1) m s1 s' st rises (ground (arith, n)) in
          (
            grew2
                ∙ ap (λ (h : ℕ). grow_all h m (grown s1 st)) level1
                ∙ ap (grow_all s.block_height m) grew1
                ∙ fun_ext (λ b. grow_all_cons s.block_height a b outputs m (grown s st) rises),
            spent2 ∙ spent1,
            images2 ∙ images1,
            level2 ∙ level1,
          )
    ]

apply_spent-appends :
    (spent : List (ℕ × ℕ)) (s : DeltaState) (st : Stacks)
    → ((apply_spent delta_interface spent s).spent_outputs ≡ s.spent_outputs ++ spent)
      × (grown (apply_spent delta_interface spent s) st ≡ grown s st)
      × ((apply_spent delta_interface spent s).keyimages ≡ s.keyimages)
      × ((apply_spent delta_interface spent s).block_height ≡ s.block_height)
unfolding apply_spent spend_output
apply_spent-appends [] s st = (sym (append-nil s.spent_outputs), refl, refl, refl)
apply_spent-appends ((a, i) ∷ rest) s st =
    let (spent, grew, images, level) = apply_spent-appends rest (spend_output a i s) st in
    (spent ∙ append_assoc s.spent_outputs ((a, i) ∷ []) rest, grew, images, level)

pub stored-eq :
    (image height : ℕ) (s s' : DeltaState)
    → store_keyimage image height s ≡ some s'
    → record s { keyimages = insert image height s.keyimages } ≡ s'
unfolding store_keyimage
stored-eq image height s s' e = elim (Option-cases (lookup image s.keyimages)) [
  | inl n ↦ some-injective (ground (arith, n))
  | inr (old, n) ↦ absurd (ground (arith, n))
]

abbrev ReadsImages : DeltaState → (ℕ → Option ℕ) → (ℕ → Option ℕ) → DeltaState → Type 0
ReadsImages s images read s' =
    ((k : ℕ) → grown_images s' images k ≡ read k)
    × (s'.global_amounts ≡ s.global_amounts)
    × (s'.spent_outputs ≡ s.spent_outputs)
    × (s'.block_height ≡ s.block_height)

apply_keyimages-shown :
    (bound : ℕ) (m : Map ℕ) (s s' : DeltaState) (images : ℕ → Option ℕ)
    → RisesFrom bound m
    → apply_keyimages delta_interface m s ≡ some s'
    → ReadsImages s images
        (λ k. elim (lookup k m) [
          | none ↦ grown_images s images k
          | some height ↦ some s.block_height
        ])
        s'
unfolding apply_keyimages lookup
apply_keyimages-shown bound [] s s' images rises e =
    subst (ReadsImages s images (λ k. grown_images s images k)) (some-injective e)
      ((λ k. refl), refl, refl, refl)
apply_keyimages-shown bound ((image, height) ∷ m) s s' images (low, rises) e =
    elim (Option-cases (store_keyimage image height s)) [
      | inl n ↦ absurd (ground (arith, n))
      | inr (s1, n) ↦
          let stored = record s { keyimages = insert image height s.keyimages } in
          let run : apply_keyimages delta_interface m stored ≡ some s' =
            ap (λ (r : DeltaState). apply_keyimages delta_interface m r)
              (stored-eq image height s s1 n)
            ∙ ground (arith, n) in
          let (read, amounts, spent, level) =
            apply_keyimages-shown (image + 1) m stored s' images rises run in
          (
            (λ k.
                read k
                ∙ ground (
                  arith,
                  lookup-insert image k height s.keyimages,
                  lookup-below (image + 1) image m (omega arith) rises,
                )),
            amounts,
            spent,
            level,
          )
    ]

pub state_eq : {x y : AbstractState} → x.stacks ≡ y.stacks → x.images ≡ y.images → x ≡ y
state_eq p q = λ i. record { stacks = p i; images = q i }

abbrev Applied : DeltaState → DeltaState → AbstractState → DeltaState → Type 0
Applied d s x s' =
    (shown s' x ≡ shown d (shown s x)) × (s'.spent_outputs ≡ s.spent_outputs ++ d.spent_outputs)

applied :
    (d s s1 s2 : DeltaState) (x : AbstractState)
    → DeltaIsValid d
    → d.block_height ≡ s.block_height
    → InRange s.spent_outputs (grown s x.stacks)
    → apply_keyimages delta_interface d.keyimages s ≡ some s1
    → apply_amounts delta_interface d.block_height d.global_amounts s1 ≡ some s2
    → Applied d s x (apply_spent delta_interface d.spent_outputs s2)
applied d s s1 s2 x v same r n m =
    let (read1, amounts1, spent1, level1) =
      apply_keyimages-shown 0 d.keyimages s s1 x.images v.images n in
    let (grew2, spent2, images2, level2) =
      apply_amounts-Grows d.block_height 0 d.global_amounts s1 s2 x.stacks v.amounts m in
    let (spent3, grew3, images3, level3) = apply_spent-appends d.spent_outputs s2 x.stacks in
    let s3 = apply_spent delta_interface d.spent_outputs s2 in
    let grown1 : grown s1 x.stacks ≡ grown s x.stacks =
      fun_ext (λ b. ground (arith, amounts1, level1)) in
    let spent : s3.spent_outputs ≡ s.spent_outputs ++ d.spent_outputs =
      spent3 ∙ ap (λ (l : List (ℕ × ℕ)). l ++ d.spent_outputs) (spent2 ∙ spent1) in
    let grew : grown s3 x.stacks ≡ grown d (grown s x.stacks) =
      grew3
      ∙ grew2
      ∙ ap (λ (h : ℕ). grow_all h d.global_amounts (grown s1 x.stacks)) (level1 ∙ sym same)
      ∙ ap (grow_all d.block_height d.global_amounts) grown1
      ∙ grown_lem d (grown s x.stacks) in
    (
      state_eq
          (ap (λ (l : List (ℕ × ℕ)). mark_all l (grown s3 x.stacks)) spent
            ∙ ap (mark_all (s.spent_outputs ++ d.spent_outputs)) grew
            ∙ mark_all-append s.spent_outputs d.spent_outputs (grown d (grown s x.stacks))
            ∙ ap (mark_all d.spent_outputs) (
                mark_all-grow s.spent_outputs (grown s x.stacks)
                  (λ b. map (to_output d.block_height) (new_outputs d b)) r))
          (fun_ext (λ k.
            ap (λ (l : Map ℕ). grown_images (record s3 { keyimages = l }) x.images k)
              (images3 ∙ images2)
            ∙ ap (λ (h : ℕ). grown_images (record s1 { block_height = h }) x.images k)
                (level3 ∙ level2)
            ∙ read1 k
            ∙ ground (arith, same))),
      spent,
    )

-- Applying a delta to another of the same height: the other then shows what the first shows over it.
pub apply-shown :
    (d s s' : DeltaState) (x : AbstractState)
    → DeltaIsValid d
    → d.block_height ≡ s.block_height
    → InRange s.spent_outputs (grown s x.stacks)
    → apply delta_interface d s ≡ some s'
    → (shown s' x ≡ shown d (shown s x)) × (s'.spent_outputs ≡ s.spent_outputs ++ d.spent_outputs)
unfolding apply
apply-shown d s s' x v same r e =
    elim (Option-cases (apply_keyimages delta_interface d.keyimages s)) [
      | inl n ↦ absurd (ground (arith, n))
      | inr (s1, n) ↦
          elim (Option-cases (apply_amounts delta_interface d.block_height d.global_amounts s1)) [
            | inl m ↦ absurd (ground (arith, n, m))
            | inr (s2, m) ↦
                let p : apply_spent delta_interface d.spent_outputs s2 ≡ s' =
                  some-injective (ground (arith, n, m, e)) in
                subst (Applied d s x) p (applied d s s1 s2 x v same r n m)
          ]
    ]
