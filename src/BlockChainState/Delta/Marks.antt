-- ===== src/BlockChainState/Delta/Marks.antt =====
-- What a delta of Core/BlockChainState.cpp makes of an abstract state: its outputs on top, then its
-- marks.
use cryo_nero.Prelude.{
  ℕ, zero, suc, ◌≤◌, ◌<◌, ◌≡◌, refl, ap, ◌∙◌, fun_ext, arith, Bool, true, List, [], ◌∷◌, ◌++◌, map,
  ◌==◌, length, Bool-cases, ==_iff, inl, inr,
}
use mathlib.Core.List.{append_assoc, map-append}
use mathlib.Core.Path.{subst}
use cryo_nero.Prelude.Maps.{lookup-insert}
use cryo_nero.BlockChainState.Interface.{Output}
use cryo_nero.BlockChainState.Stacks.{Stacks, push_at, mark_at, mark_index, length-mark}
use cryo_nero.BlockChainState.Ledger.Refinement.{unspent}
use cryo_nero.BlockChainState.Effects.{AbstractState}
use cryo_nero.BlockChainState.Delta.{DeltaState, new_outputs, push_amount_output}
use cryo_nero.BlockChainState.Delta.Refinement.{to_output, grown, grown_images}
use cryo_nero.BlockChainState.Delta.Apply.{mark_all}

abbrev pub shown : DeltaState → AbstractState → AbstractState
shown d x = record {
  stacks = mark_all d.spent_outputs (grown d x.stacks);
  images = grown_images d x.images;
}

-- The marks are of outputs that are there.
abbrev pub InRange : List (ℕ × ℕ) → Stacks → Type 0
InRange [] st = Unit {0}
InRange ((a, i) ∷ rest) st = (i < length (st a)) × InRange rest st

pub mark_all-append :
    (xs ys : List (ℕ × ℕ)) (st : Stacks) → mark_all (xs ++ ys) st ≡ mark_all ys (mark_all xs st)
mark_all-append [] ys st = refl
mark_all-append ((a, i) ∷ xs) ys st = mark_all-append xs ys (mark_at a i true st)

mark_index-append :
    (xs ys : List Output) (i : ℕ) (b : Bool)
    → i < length xs
    → mark_index i b (xs ++ ys) ≡ mark_index i b xs ++ ys
mark_index-append [] ys i b lt = absurd (omega arith)
mark_index-append (x ∷ xs) ys zero b lt = refl
mark_index-append (x ∷ xs) ys (suc i) b lt =
    ap (λ (r : List Output). x ∷ r) (mark_index-append xs ys i b (omega arith))

pub length-mark_all :
    (xs : List (ℕ × ℕ)) (st : Stacks) (b : ℕ) → length (mark_all xs st b) ≡ length (st b)
length-mark_all [] st b = refl
length-mark_all ((a, i) ∷ xs) st b =
    length-mark_all xs (mark_at a i true st) b ∙ ground (arith, length-mark (st b) i true)

pub InRange-le :
    (xs : List (ℕ × ℕ)) (st st' : Stacks)
    → ((a : ℕ) → length (st a) ≤ length (st' a))
    → InRange xs st
    → InRange xs st'
InRange-le [] st st' le r = tt
InRange-le ((a, i) ∷ xs) st st' le (lt, r) = (omega (arith, le a), InRange-le xs st st' le r)

pub InRange-append :
    (xs ys : List (ℕ × ℕ)) (st : Stacks) → InRange xs st → InRange ys st → InRange (xs ++ ys) st
InRange-append [] ys st rx ry = ry
InRange-append ((a, i) ∷ xs) ys st (lt, rx) ry = (lt, InRange-append xs ys st rx ry)

-- Outputs on top do not matter to the marks.
pub mark_all-grow :
    (xs : List (ℕ × ℕ)) (st : Stacks) (more : Stacks)
    → InRange xs st
    → mark_all xs (λ b. st b ++ more b) ≡ (λ b. mark_all xs st b ++ more b)
mark_all-grow [] st more r = refl
mark_all-grow ((a, i) ∷ xs) st more (lt, r) =
    ap (mark_all xs) (fun_ext (λ b. one b))
    ∙ mark_all-grow xs (mark_at a i true st) more
        (InRange-le xs st (mark_at a i true st) (λ b. ground (arith, length-mark (st b) i true)) r)
  where
    one : (b : ℕ) → mark_at a i true (λ c. st c ++ more c) b ≡ mark_at a i true st b ++ more b
    one b = elim (Bool-cases (a == b)) [
      | inl e ↦
          let here : i < length (st b) =
            subst (λ (c : ℕ). i < length (st c)) ((==_iff a b).0 e) lt in
          rw (e, mark_index-append (st b) (more b) i true here) refl
      | inr e ↦ ground arith
    ]

-- A push on the delta is one on the stacks that it shows.
pub grown-push :
    (a t height k : ℕ) (d : DeltaState) (st : Stacks)
    → grown (push_amount_output a t height k d).0 st
      ≡ push_at a (unspent t d.block_height k) (grown d st)
unfolding push_amount_output
grown-push a t height k d st = fun_ext (λ b. one b)
  where
    one :
        (b : ℕ)
        → grown (push_amount_output a t height k d).0 st b
          ≡ push_at a (unspent t d.block_height k) (grown d st) b
    one b =
        let old = new_outputs d a in
        let f = to_output d.block_height in
        ground (
          arith,
          lookup-insert a b (old ++ (t, k) ∷ []) d.global_amounts,
          map-append f old ((t, k) ∷ []),
          append_assoc (st b) (map f old) (unspent t d.block_height k ∷ []),
        )
