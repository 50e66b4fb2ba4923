-- ===== src/BlockChainState/Undo/Back.antt =====
-- What `undo_transaction` of Core/BlockChainState.cpp does to one effect of a block, and to all of
-- them.
use cryo_nero.Prelude.{
  ℕ, suc, zero, ◌≡◌, refl, sym, ap, ◌∙◌, fun_ext, arith, Bool, true, false, Option, none, some,
  List, [], ◌∷◌, ◌++◌, ◌==◌, if◌then◌else◌, length, get_or, get_elem?, reverse, Bool-cases, ==_iff,
  inl, inr,
}
use mathlib.Core.Path.{subst}
use mathlib.Core.List.{reverse-cons}
use cryo_nero.BlockChainState.Interface.{Output}
use cryo_nero.BlockChainState.Stacks.{Stacks, push_at, mark_at, mark_index}
use cryo_nero.BlockChainState.Ledger
use cryo_nero.BlockChainState.Ledger.{Ledger, mark_output, read_keyimage}
use cryo_nero.BlockChainState.Ledger.Refinement.{LedgerHolds, unspent, mark_output-LedgerHolds}
use cryo_nero.BlockChainState.Ledger.Pop.{pop_amount_output-LedgerHolds, restored}
use cryo_nero.BlockChainState.Ledger.Keyimages.{
  pop_amount_output-keyimages, mark_output-keyimages, delete_keyimage-LedgerHolds,
}
use cryo_nero.BlockChainState.Effects.{
  AbstractState, Effect, spend, push, mark_single, happen, happen_all, IsUnspent, IsLegal, AllLegal,
  Holds,
}
use cryo_nero.BlockChainState.Undo.{◌>>=◌, unspend_single}

-- One effect taken back.
unfoldable pub undo_effect : Effect → Ledger → Option Ledger
undo_effect (spend amount indexes image) s =
    Ledger.delete_keyimage image s >>= λ s'. some (unspend_single amount indexes s')
undo_effect (push amount unlock_time key) s = Ledger.pop_amount_output amount unlock_time key s

unfoldable pub undo_effects : List Effect → Ledger → Option Ledger
undo_effects [] s = some s
undo_effects (e ∷ es) s = undo_effect e s >>= undo_effects es

some-injective : {A : Type 0} {a b : A} {o : Option A} → o ≡ some a → o ≡ some b → a ≡ b
some-injective e f = cc

mark_index_twice :
    (os : List Output) (i : ℕ) (o : Output)
    → get_elem? os i ≡ some o
    → o.spent ≡ false
    → mark_index i false (mark_index i true os) ≡ os
mark_index_twice [] i o e f = refl
mark_index_twice (p ∷ os) zero o e f =
    let same : p ≡ o = some-injective {o = some p} refl e in
    ap (λ (b : Bool). record p { spent = b } ∷ os) (sym (ap (λ (q : Output). q.spent) same ∙ f))
mark_index_twice (p ∷ os) (suc i) o e f =
    ap (λ (r : List Output). p ∷ r) (mark_index_twice os i o e f)

mark_at_twice :
    (a i : ℕ) (st : Stacks) → IsUnspent a i st → mark_at a i false (mark_at a i true st) ≡ st
mark_at_twice a i st (o, e, f) = fun_ext (λ b. elim (Bool-cases (a == b)) [
  | inl g ↦
      let same : a ≡ b = (==_iff a b).0 g in
      rw (g, mark_index_twice (st b) i o (subst (λ (c : ℕ). get_elem? (st c) i ≡ some o) same e) f)
        refl
  | inr g ↦ ground arith
])

unmark :
    (b : Bool) (a i : ℕ) (s : Ledger) (st : Stacks)
    → (b ≡ true → IsUnspent a i st)
    → LedgerHolds s (if b then mark_at a i true st else st)
    → LedgerHolds (if b then mark_output a i false s else s) st
unmark true a i s st fresh h =
    subst (LedgerHolds (mark_output a i false s)) (mark_at_twice a i st (fresh refl))
      (mark_output-LedgerHolds s (mark_at a i true st) a i false h)
unmark false a i s st fresh h = h

unmark_images :
    (b : Bool) (a i : ℕ) (s : Ledger) (k : ℕ)
    → read_keyimage (if b then mark_output a i false s else s) k ≡ read_keyimage s k
unmark_images true a i s k = mark_output-keyimages a i false s k
unmark_images false a i s k = refl

undo_effect-Holds :
    (height : ℕ) (e : Effect) (s : Ledger) (x : AbstractState)
    → IsLegal e x
    → Holds s (happen height e x)
    → (s' : Ledger) × (undo_effect e s ≡ some s') × Holds s' x
unfolding undo_effect
undo_effect-Holds height (push amount unlock_time key) s x room h =
    let o = unspent unlock_time height key in
    let (s', run, holds) =
      pop_amount_output-LedgerHolds s (push_at amount o x.stacks) amount unlock_time height key
        (x.stacks amount) h.stacks (ground arith) in
    (
      s',
      run,
      record {
        stacks = subst (LedgerHolds s') (restored amount o x.stacks) holds;
        images = λ k. pop_amount_output-keyimages amount unlock_time key s s' run k ∙ h.images k;
      },
    )
undo_effect-Holds height (spend amount indexes image) s x (new, fresh) h =
    let (s', run, holds, read) =
      delete_keyimage-LedgerHolds s (mark_single amount indexes x.stacks) image height h.stacks
        (ground (arith, h.images image)) in
    (
      unspend_single amount indexes s',
      ground (arith, run),
      record {
        stacks = unmark (length indexes == 1) amount (get_or indexes 0 0) s' x.stacks fresh holds;
        images = λ k.
            unmark_images (length indexes == 1) amount (get_or indexes 0 0) s' k
            ∙ read k
            ∙ ground (arith, h.images k, new);
      },
    )

pub >>=-assoc :
    {A B C : Type 0} (m : Option A) (f : A → Option B) (g : B → Option C)
    → (m >>= f >>= g) ≡ (m >>= λ a. f a >>= g)
>>=-assoc none f g = refl
>>=-assoc (some a) f g = refl

pub >>=-some : {A : Type 0} (m : Option A) → (m >>= some) ≡ m
>>=-some none = refl
>>=-some (some a) = refl

pub undo_effects-append :
    (es fs : List Effect) (s : Ledger)
    → undo_effects (es ++ fs) s ≡ (undo_effects es s >>= undo_effects fs)
unfolding undo_effects
undo_effects-append [] fs s = refl
undo_effects-append (e ∷ es) fs s =
    ap (λ (f : Ledger → Option Ledger). undo_effect e s >>= f) (fun_ext (undo_effects-append es fs))
    ∙ sym (>>=-assoc (undo_effect e s) (undo_effects es) (undo_effects fs))

pub undo_effects-Holds :
    (height : ℕ) (es : List Effect) (s : Ledger) (x : AbstractState)
    → AllLegal height es x
    → Holds s (happen_all height es x)
    → (s' : Ledger) × (undo_effects (reverse es) s ≡ some s') × Holds s' x
unfolding undo_effects
undo_effects-Holds height [] s x legal h = (s, refl, h)
undo_effects-Holds height (e ∷ es) s x (now, later) h =
    let (s1, run1, h1) = undo_effects-Holds height es s (happen height e x) later h in
    let (s2, run2, h2) = undo_effect-Holds height e s1 x now h1 in
    (
      s2,
      ap (λ (fs : List Effect). undo_effects fs s) (reverse-cons e es)
          ∙ undo_effects-append (reverse es) (e ∷ []) s
          ∙ rw (run1, run2) refl,
      h2,
    )
