-- ===== src/BlockChainState/Redo/Follows.antt =====
-- A delta of Core/BlockChainState.cpp that follows the effects of a block, step by step.
use cryo_nero.Prelude.{
  ℕ, zero, suc, ◌≤◌, ◌<◌, ◌≡◌, refl, sym, ap, ◌∙◌, fun_ext, arith, Bool, true, false, some, List,
  [], ◌∷◌, ◌++◌, ◌==◌, if◌then◌else◌, length, get_elem?, get_or, length-append,
}
use mathlib.Core.Path.{subst}
use mathlib.Core.List.{append-nil}
use cryo_nero.Prelude.Maps.{lookup, insert, lookup-insert}
use cryo_nero.BlockChainState.Interface.{Output, StateView}
use cryo_nero.BlockChainState.Stacks.{Stacks, mark_at, push_at}
use cryo_nero.BlockChainState.Ledger.Refinement.{unspent}
use cryo_nero.BlockChainState.Effects.{
  AbstractState, Effect, spend, push, happen, happen_all, IsUnspent, IsLegal, AllLegal,
}
use cryo_nero.BlockChainState.Delta
use cryo_nero.BlockChainState.Delta.{
  DeltaState, new_delta, new_outputs, delta_view, delta_interface,
}
use cryo_nero.BlockChainState.Delta.Refinement.{grown, grown_images}
use cryo_nero.BlockChainState.Delta.Apply.{mark_all}
use cryo_nero.BlockChainState.Delta.Valid.{push_amount_output-height, push_amount_output-spent}
use cryo_nero.BlockChainState.Delta.Images.{push_amount_output-keyimages}
use cryo_nero.BlockChainState.Delta.Marks.{
  shown, InRange, InRange-le, InRange-append, mark_all-append, mark_all-grow, length-mark_all,
  grown-push,
}
use cryo_nero.BlockChainState.Delta.Shown.{state_eq}
use cryo_nero.BlockChainState.Redo.{Redo, done}

pub done-injective : {A : Type 0} {a b : A} → ◌≡◌ {A = Redo A} (done a) (done b) → a ≡ b
done-injective e = cc

lt-length : {A : Type 0} (xs : List A) (i : ℕ) (x : A) → get_elem? xs i ≡ some x → i < length xs
lt-length [] i x e = cc
lt-length (y ∷ ys) zero x e = omega arith
lt-length (y ∷ ys) (suc i) x e = omega (arith, lt-length ys i x e)

-- The delta `d'` shows the effects on what `d` showed, and its marks are of outputs that are there.
pub record Follows (d d' : DeltaState) (es : List Effect) (x : AbstractState) : Type 0 where
  pub state : shown d' x ≡ happen_all d.block_height es (shown d x)
  pub marks : InRange d'.spent_outputs (grown d' x.stacks)
  pub height : d'.block_height ≡ d.block_height

-- A spent image, with the mark of a ring of one member.
unfoldable pub marked : Bool → ℕ → ℕ → ℕ → DeltaState → DeltaState
marked single a i image d =
    let d1 = if single then Delta.spend_output a i d else d in
    record d1 { keyimages = insert image d.block_height d1.keyimages }

marked-shown :
    (single : Bool) (a i image : ℕ) (d : DeltaState) (x : AbstractState)
    → shown (marked single a i image d) x ≡ record {
      stacks = if single then mark_at a i true (shown d x).stacks else (shown d x).stacks;
      images = λ k. if image == k then some d.block_height else grown_images d x.images k;
    }
unfolding marked Delta.spend_output
marked-shown true a i image d x =
    state_eq (mark_all-append d.spent_outputs ((a, i) ∷ []) (grown d x.stacks))
      (fun_ext (λ k. ground (arith, lookup-insert image k d.block_height d.keyimages)))
marked-shown false a i image d x =
    state_eq refl (fun_ext (λ k. ground (arith, lookup-insert image k d.block_height d.keyimages)))

marked-InRange :
    (single : Bool) (a i image : ℕ) (d : DeltaState) (x : AbstractState)
    → (single ≡ true → IsUnspent a i (shown d x).stacks)
    → InRange d.spent_outputs (grown d x.stacks)
    → InRange (marked single a i image d).spent_outputs (grown (marked single a i image d) x.stacks)
unfolding marked Delta.spend_output
marked-InRange true a i image d x unspent r =
    let (o, e, f) = unspent refl in
    let lt = lt-length (mark_all d.spent_outputs (grown d x.stacks) a) i o e in
    InRange-append d.spent_outputs ((a, i) ∷ []) (grown d x.stacks) r
      (omega (arith, length-mark_all d.spent_outputs (grown d x.stacks) a), tt)
marked-InRange false a i image d x unspent r = r

marked-height :
    (single : Bool) (a i image : ℕ) (d : DeltaState)
    → (marked single a i image d).block_height ≡ d.block_height
unfolding marked Delta.spend_output
marked-height true a i image d = refl
marked-height false a i image d = refl

happen_all-append :
    (h : ℕ) (es fs : List Effect) (x : AbstractState)
    → happen_all h (es ++ fs) x ≡ happen_all h fs (happen_all h es x)
happen_all-append h [] fs x = refl
happen_all-append h (e ∷ es) fs x = happen_all-append h es fs (happen h e x)

pub AllLegal-append :
    (h : ℕ) (es fs : List Effect) (x : AbstractState)
    → AllLegal h (es ++ fs) x
    → AllLegal h es x × AllLegal h fs (happen_all h es x)
AllLegal-append h [] fs x l = (tt, l)
AllLegal-append h (e ∷ es) fs x (now, later) =
    let (first, second) = AllLegal-append h es fs (happen h e x) later in ((now, first), second)

pub Follows-refl :
    (d : DeltaState) (x : AbstractState)
    → InRange d.spent_outputs (grown d x.stacks)
    → Follows d d [] x
Follows-refl d x r = record { state = refl; marks = r; height = refl }

pub Follows-trans :
    (d d1 d2 : DeltaState) (es fs : List Effect) (x : AbstractState)
    → Follows d d1 es x
    → Follows d1 d2 fs x
    → Follows d d2 (es ++ fs) x
Follows-trans d d1 d2 es fs x f g = record {
  state =
      g.state
      ∙ ap (λ (h : ℕ). happen_all h fs (shown d1 x)) f.height
      ∙ ap (happen_all d.block_height fs) f.state
      ∙ sym (happen_all-append d.block_height es fs (shown d x));
  marks = g.marks;
  height = g.height ∙ f.height;
}

-- What is legal after the first effects is legal for the delta that shows them.
pub legal_after :
    (d d1 : DeltaState) (es fs : List Effect) (x : AbstractState)
    → Follows d d1 es x
    → AllLegal d.block_height fs (happen_all d.block_height es (shown d x))
    → AllLegal d1.block_height fs (shown d1 x)
legal_after d d1 es fs x f l =
    subst (λ (h : ℕ). AllLegal h fs (shown d1 x)) (sym f.height)
      (subst (AllLegal d.block_height fs) (sym f.state) l)

push_at-more :
    (a : ℕ) (o : Output) (st : Stacks)
    → push_at a o st ≡ (λ b. st b ++ (if a == b then o ∷ [] else []))
push_at-more a o st = fun_ext (λ b. ground (arith, append-nil (st b)))

pub push-Follows :
    (a t key : ℕ) (d : DeltaState) (x : AbstractState)
    → InRange d.spent_outputs (grown d x.stacks)
    → Follows d (Delta.push_amount_output a t 0 key d).0 (push a t key ∷ []) x
push-Follows a t key d x r =
    let d1 = (Delta.push_amount_output a t 0 key d).0 in
    let o = unspent t d.block_height key in
    let spent = push_amount_output-spent a t 0 key d in
    let grew = grown-push a t 0 key d x.stacks in
    record {
      state =
          state_eq
            (ap (λ (l : List (ℕ × ℕ)). mark_all l (grown d1 x.stacks)) spent
              ∙ ap (mark_all d.spent_outputs) (grew ∙ push_at-more a o (grown d x.stacks))
              ∙ mark_all-grow d.spent_outputs (grown d x.stacks)
                  (λ b. if a == b then o ∷ [] else []) r
              ∙ sym (push_at-more a o (mark_all d.spent_outputs (grown d x.stacks))))
            (fun_ext (λ k. ground (
              arith,
              push_amount_output-keyimages a t 0 key d,
              push_amount_output-height a t 0 key d,
            )));
      marks =
          subst (λ (l : List (ℕ × ℕ)). InRange l (grown d1 x.stacks)) (sym spent)
            (InRange-le d.spent_outputs (grown d x.stacks) (grown d1 x.stacks) (λ b. longer b) r);
      height = push_amount_output-height a t 0 key d;
    }
  where
    longer :
        (b : ℕ)
        → length (grown d x.stacks b)
          ≤ length (grown (Delta.push_amount_output a t 0 key d).0 x.stacks b)
    longer b = ground (
      arith,
      ap (λ (st : Stacks). length (st b)) (grown-push a t 0 key d x.stacks),
      length-append (grown d x.stacks b) (unspent t d.block_height key ∷ []),
    )

pub spend-Follows :
    (a image : ℕ) (is : List ℕ) (d d1 : DeltaState) (x : AbstractState)
    → marked (length is == 1) a (get_or is 0 0) image d ≡ d1
    → IsLegal (spend a is image) (shown d x)
    → InRange d.spent_outputs (grown d x.stacks)
    → Follows d d1 (spend a is image ∷ []) x
spend-Follows a image is d d1 x p (new, unspent) r =
    subst (λ (y : DeltaState). Follows d y (spend a is image ∷ []) x) p
      (record {
        state = marked-shown (length is == 1) a (get_or is 0 0) image d x;
        marks = marked-InRange (length is == 1) a (get_or is 0 0) image d x unspent r;
        height = marked-height (length is == 1) a (get_or is 0 0) image d;
      })

pub new-shown :
    (height time : ℕ) (view : StateView) (x : AbstractState)
    → shown (new_delta height time view) x ≡ x
unfolding lookup
new-shown height time view x = state_eq (fun_ext (λ b. append-nil (x.stacks b))) refl
