-- ===== src/BlockChainState/Delta/Apply.antt =====
-- `DeltaState::apply` of Core/BlockChainState.cpp on the tables of the chain: what the delta showed
-- is what the chain shows afterwards.
use mathlib.Core.List.{append_assoc, append-nil}
use cryo_nero.Prelude.{
  ℕ, ◌+◌, ◌^◌, ◌<◌, ◌≡◌, refl, sym, ◌∙◌, fun_ext, arith, true, Option, none, some, List, [], ◌∷◌,
  ◌++◌, map, ◌==◌, if◌then◌else◌, length, Bool-cases, Option-cases, length-append, inl, inr,
}
use cryo_nero.Prelude.Maps.{Map, lookup}
use cryo_nero.Prelude.Maps.Order.{RisesFrom, lookup-below}
use cryo_nero.BlockChainState.Stacks.{Stacks, push_at, mark_at}
use cryo_nero.BlockChainState.Ledger
use cryo_nero.BlockChainState.Ledger.{Ledger, ledger_interface, table, ledger_view}
use cryo_nero.BlockChainState.Ledger.Refinement.{
  LedgerHolds, unspent, push_amount_output-LedgerHolds, spend_output-LedgerHolds,
  store_keyimage-LedgerHolds, spend_output-keyimages, read_keyimage-eq,
}
use cryo_nero.BlockChainState.Delta.{
  DeltaState, new_outputs, apply, apply_keyimages, apply_amounts, apply_spent, push_all,
}
use cryo_nero.BlockChainState.Delta.Refinement.{to_output, grown, grown_images}

-- The new outputs on one stack, and on all.
abbrev pub grow_at : ℕ → ℕ → List (ℕ × ℕ) → Stacks → Stacks
grow_at a height outputs st b = if a == b then st b ++ map (to_output height) outputs else st b

abbrev pub grow_all : ℕ → Map (List (ℕ × ℕ)) → Stacks → Stacks
grow_all height m st b = elim (lookup b m) [
  | none ↦ st b
  | some outputs ↦ st b ++ map (to_output height) outputs
]

-- The marks of the spent outputs, in their order.
abbrev pub mark_all : List (ℕ × ℕ) → Stacks → Stacks
mark_all [] st = st
mark_all ((a, i) ∷ rest) st = mark_all rest (mark_at a i true st)

-- Each key is there once, and the images carry the height of the block.
pub record DeltaIsValid (d : DeltaState) : Type 0 where
  pub amounts : RisesFrom 0 d.global_amounts
  pub images : RisesFrom 0 d.keyimages
  pub heights : (k h : ℕ) → lookup k d.keyimages ≡ some h → h ≡ d.block_height

pub grow_push :
    (a height t k : ℕ) (rest : List (ℕ × ℕ)) (st : Stacks)
    → grow_at a height rest (push_at a (unspent t height k) st)
      ≡ grow_at a height ((t, k) ∷ rest) st
grow_push a height t k rest st = fun_ext (λ b.
    ground (arith, append_assoc (st b) (unspent t height k ∷ []) (map (to_output height) rest)))

pub grow_none : (a height : ℕ) (st : Stacks) → grow_at a height [] st ≡ st
grow_none a height st = fun_ext (λ b. ground (arith, append-nil (st b)))

push_all_lem :
    (a height : ℕ) (outputs : List (ℕ × ℕ)) (s : Ledger) (st : Stacks)
    → LedgerHolds s st
    → length (st a) + length outputs < 2 ^ 32
    → (s' : Ledger) × (push_all ledger_interface a height outputs s ≡ some s')
      × LedgerHolds s' (grow_at a height outputs st)
      × (s'.keyimages ≡ s.keyimages)
unfolding push_all
push_all_lem a height [] s st h fits = (s, refl, rw (grow_none a height st) h, refl)
push_all_lem a height ((t, k) ∷ rest) s st h fits =
    let (s1, e1, h1, k1) = push_amount_output-LedgerHolds s st a t height k h (omega arith) in
    let (s2, e2, h2, k2) =
      push_all_lem a height rest s1 (push_at a (unspent t height k) st) h1
        (ground (arith, length-append (st a) (unspent t height k ∷ []))) in
    (s2, ground (arith, e1, e2), rw (sym (grow_push a height t k rest st)) h2, k2 ∙ k1)

abbrev outputs_in : Map (List (ℕ × ℕ)) → ℕ → List (ℕ × ℕ)
outputs_in m a = elim (lookup a m) [ none ↦ [] | some outputs ↦ outputs ]

pub grow_all_cons :
    (height a b : ℕ) (outputs : List (ℕ × ℕ)) (m : Map (List (ℕ × ℕ))) (st : Stacks)
    → RisesFrom (a + 1) m
    → grow_all height m (grow_at a height outputs st) b ≡ grow_all height ((a, outputs) ∷ m) st b
unfolding lookup
grow_all_cons height a b outputs m st rises =
    ground (arith, lookup-below (a + 1) a m (omega arith) rises)

length-map_lem :
    (height : ℕ) (outputs : List (ℕ × ℕ)) → length (map (to_output height) outputs) ≡ length outputs
length-map_lem height [] = refl
length-map_lem height (o ∷ outputs) = omega (arith, length-map_lem height outputs)

apply_amounts_lem :
    (height bound : ℕ) (m : Map (List (ℕ × ℕ))) (s : Ledger) (st : Stacks)
    → RisesFrom bound m
    → LedgerHolds s st
    → ((a : ℕ) → length (st a) + length (outputs_in m a) < 2 ^ 32)
    → (s' : Ledger) × (apply_amounts ledger_interface height m s ≡ some s')
      × LedgerHolds s' (grow_all height m st)
      × (s'.keyimages ≡ s.keyimages)
unfolding apply_amounts lookup
apply_amounts_lem height bound [] s st rises h fits = (s, refl, h, refl)
apply_amounts_lem height bound ((a, outputs) ∷ m) s st (low, rises) h fits =
    let (s1, e1, h1, k1) = push_all_lem a height outputs s st h here in
    let (s2, e2, h2, k2) =
      apply_amounts_lem height (a + 1) m s1 (grow_at a height outputs st) rises h1 there in
    (
      s2,
      ground (arith, e1, e2),
      rw (sym (fun_ext (λ b. grow_all_cons height a b outputs m st rises))) h2,
      k2 ∙ k1,
    )
  where
    here : length (st a) + length outputs < 2 ^ 32
    here = ground (arith, fits a)

    there : (b : ℕ) → length (grow_at a height outputs st b) + length (outputs_in m b) < 2 ^ 32
    there b = elim (Bool-cases (a == b)) [
      | inl e ↦ ground (
        arith,
        lookup-below (a + 1) a m (omega arith) rises,
        length-append (st a) (map (to_output height) outputs),
        length-map_lem height outputs,
        here,
      )
      | inr e ↦ ground (arith, fits b)
    ]

apply_spent_lem :
    (spent : List (ℕ × ℕ)) (s : Ledger) (st : Stacks)
    → LedgerHolds s st
    → LedgerHolds (apply_spent ledger_interface spent s) (mark_all spent st)
unfolding apply_spent
apply_spent_lem [] s st h = h
apply_spent_lem ((a, i) ∷ rest) s st h =
    apply_spent_lem rest (Ledger.spend_output a i s) (mark_at a i true st)
      (spend_output-LedgerHolds s st a i h)

images_in : Map ℕ → (ℕ → Option ℕ) → ℕ → Option ℕ
images_in m images k = elim (lookup k m) [ none ↦ images k | some height ↦ some height ]

apply_keyimages_lem :
    (bound : ℕ) (m : Map ℕ) (s : Ledger) (st : Stacks)
    → RisesFrom bound m
    → LedgerHolds s st
    → ((k h : ℕ) → lookup k m ≡ some h → Ledger.read_keyimage s k ≡ none)
    → (s' : Ledger) × (apply_keyimages ledger_interface m s ≡ some s')
      × LedgerHolds s' st
      × ((k : ℕ) → Ledger.read_keyimage s' k ≡ images_in m (Ledger.read_keyimage s) k)
unfolding apply_keyimages lookup images_in
apply_keyimages_lem bound [] s st rises h new = (s, refl, h, λ k. refl)
apply_keyimages_lem bound ((image, height) ∷ m) s st (low, rises) h new =
    let (s1, stored, holds1, read1) =
      store_keyimage-LedgerHolds s st image height h (new image height (ground arith)) in
    let (s2, applied, holds2, read2) =
      apply_keyimages_lem (image + 1) m s1 st rises holds1 (still s1 read1) in
    (s2, rw (apply_keyimages, stored) applied, holds2, λ k. read2 k ∙ later s1 read1 k)
  where
    later :
        (s1 : Ledger)
        → ((k : ℕ)
            → Ledger.read_keyimage s1 k
              ≡ (if image == k then some height else Ledger.read_keyimage s k))
        → (k : ℕ)
        → images_in m (Ledger.read_keyimage s1) k
          ≡ images_in ((image, height) ∷ m) (Ledger.read_keyimage s) k
    later s1 read1 k = elim (Bool-cases (image == k)) [
      | inl e ↦ ground (arith, read1 k, lookup-below (image + 1) image m (omega arith) rises)
      | inr e ↦ ground (arith, read1 k)
    ]

    still :
        (s1 : Ledger)
        → ((k : ℕ)
            → Ledger.read_keyimage s1 k
              ≡ (if image == k then some height else Ledger.read_keyimage s k))
        → (k h : ℕ) → lookup k m ≡ some h
        → Ledger.read_keyimage s1 k ≡ none
    still s1 read1 k h e = elim (Bool-cases (image == k)) [
      | inl f ↦ absurd (ground (arith, e, lookup-below (image + 1) image m (omega arith) rises))
      | inr f ↦ ground (arith, read1 k, new k h, e)
    ]

spend_keeps_images :
    (spent : List (ℕ × ℕ)) (s : Ledger)
    → (apply_spent ledger_interface spent s).keyimages ≡ s.keyimages
unfolding apply_spent
spend_keeps_images [] s = refl
spend_keeps_images ((a, i) ∷ rest) s =
    spend_keeps_images rest (Ledger.spend_output a i s) ∙ spend_output-keyimages s a i

pub grown_lem :
    (d : DeltaState) (st : Stacks) → grow_all d.block_height d.global_amounts st ≡ grown d st
grown_lem d st = fun_ext (λ a. elim (Option-cases (lookup a d.global_amounts)) [
  | inl e ↦ ground (arith, e, append-nil (st a))
  | inr (outputs, e) ↦ ground (arith, e)
])

images_lem :
    (d : DeltaState) (images : ℕ → Option ℕ) (k : ℕ)
    → DeltaIsValid d
    → images_in d.keyimages images k ≡ grown_images d images k
unfolding images_in
images_lem d images k valid = elim (Option-cases (lookup k d.keyimages)) [
  | inl e ↦ ground (arith, e)
  | inr (height, e) ↦ ground (arith, e, valid.heights k height e)
]

-- Applying a valid delta to tables that hold the stacks succeeds. The tables then hold the stacks
-- grown by the delta's outputs, with the spent ones marked, and the images are those that the delta
-- showed. None of the delta's images is there before, and no stack gets more than 2^32 - 1 outputs.
pub apply-LedgerHolds :
    (d : DeltaState) (s : Ledger) (st : Stacks)
    → DeltaIsValid d
    → LedgerHolds s st
    → ((k h : ℕ) → lookup k d.keyimages ≡ some h → Ledger.read_keyimage s k ≡ none)
    → ((a : ℕ) → length (st a) + length (new_outputs d a) < 2 ^ 32)
    → (s' : Ledger) × (apply ledger_interface d s ≡ some s')
      × LedgerHolds s' (mark_all d.spent_outputs (grown d st))
      × ((k : ℕ) → Ledger.read_keyimage s' k ≡ grown_images d (Ledger.read_keyimage s) k)
unfolding apply
apply-LedgerHolds d s st valid h new fits =
    let (s1, stored, holds1, read1) = apply_keyimages_lem 0 d.keyimages s st valid.images h new in
    let (s2, grew, holds2, kept) =
      apply_amounts_lem d.block_height 0 d.global_amounts s1 st valid.amounts holds1 fits in
    (
      apply_spent ledger_interface d.spent_outputs s2,
      ground (arith, stored, grew),
      rw (sym (grown_lem d st))
          (apply_spent_lem d.spent_outputs s2 (grow_all d.block_height d.global_amounts st) holds2),
      λ k.
          read_keyimage-eq s1 (apply_spent ledger_interface d.spent_outputs s2)
            (spend_keeps_images d.spent_outputs s2 ∙ kept) k
          ∙ read1 k
          ∙ images_lem d (Ledger.read_keyimage s) k valid,
    )
