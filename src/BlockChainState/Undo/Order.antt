-- ===== src/BlockChainState/Undo/Order.antt =====
-- `undo_block` of Core/BlockChainState.cpp takes the effects of a block back in their reverse order.
use cryo_nero.Prelude.{
  ℕ, ◌≡◌, refl, sym, ap, ◌∙◌, fun_ext, Option, some, List, [], ◌∷◌, ◌++◌, reverse,
}
use mathlib.Core.List.{reverse-cons, reverse-append, append-nil}
use cryo_nero.Prelude.Maps.{lookup, erase}
use cryo_nero.CryptoNote.{
  TransactionInput, coinbase, key_input, TransactionOutput, Transaction, Block,
}
use cryo_nero.BlockChainState.Ledger
use cryo_nero.BlockChainState.Ledger.{Ledger, mark_output, read_keyimage}
use cryo_nero.BlockChainState.Chain.{ChainState}
use cryo_nero.BlockChainState.Effects.{
  AbstractState, Effect, spend, push, input_effects, output_effects, effects, all_effects,
  block_effects, happen_all, AllLegal, Holds,
}
use cryo_nero.BlockChainState.Undo.{
  del_indices, ◌>>=◌, undo_outputs, unspend_single, undo_inputs, undo_transaction,
  undo_transactions, del_indices, undo_block,
}
use cryo_nero.BlockChainState.Undo.Back.{
  undo_effect, undo_effects, >>=-assoc, >>=-some, undo_effects-append, undo_effects-Holds,
}

output_effects-append :
    (t : ℕ) (xs ys : List TransactionOutput)
    → output_effects t (xs ++ ys) ≡ output_effects t xs ++ output_effects t ys
output_effects-append t [] ys = refl
output_effects-append t (x ∷ xs) ys =
    ap (λ (es : List Effect). push x.amount t x.key ∷ es) (output_effects-append t xs ys)

output_effects-reverse :
    (t : ℕ) (xs : List TransactionOutput)
    → output_effects t (reverse xs) ≡ reverse (output_effects t xs)
output_effects-reverse t [] = refl
output_effects-reverse t (x ∷ xs) =
    ap (output_effects t) (reverse-cons x xs)
    ∙ output_effects-append t (reverse xs) (x ∷ [])
    ∙ ap (λ (es : List Effect). es ++ push x.amount t x.key ∷ []) (output_effects-reverse t xs)
    ∙ sym (reverse-cons (push x.amount t x.key) (output_effects t xs))

input_effects-append :
    (xs ys : List TransactionInput)
    → input_effects (xs ++ ys) ≡ input_effects xs ++ input_effects ys
input_effects-append [] ys = refl
input_effects-append (coinbase height ∷ xs) ys = input_effects-append xs ys
input_effects-append (key_input a is k ∷ xs) ys =
    ap (λ (es : List Effect). spend a is k ∷ es) (input_effects-append xs ys)

input_effects-reverse :
    (xs : List TransactionInput) → input_effects (reverse xs) ≡ reverse (input_effects xs)
input_effects-reverse [] = refl
input_effects-reverse (coinbase height ∷ xs) =
    ap input_effects (reverse-cons (coinbase height) xs)
    ∙ input_effects-append (reverse xs) (coinbase height ∷ [])
    ∙ append-nil (input_effects (reverse xs))
    ∙ input_effects-reverse xs
input_effects-reverse (key_input a is k ∷ xs) =
    ap input_effects (reverse-cons (key_input a is k) xs)
    ∙ input_effects-append (reverse xs) (key_input a is k ∷ [])
    ∙ ap (λ (es : List Effect). es ++ spend a is k ∷ []) (input_effects-reverse xs)
    ∙ sym (reverse-cons (spend a is k) (input_effects xs))

undo_outputs-effects :
    (t : ℕ) (xs : List TransactionOutput) (s : Ledger)
    → undo_outputs t xs s ≡ undo_effects (output_effects t xs) s
unfolding undo_outputs undo_effects undo_effect
undo_outputs-effects t [] s = refl
undo_outputs-effects t (x ∷ xs) s =
    ap (λ (f : Ledger → Option Ledger). Ledger.pop_amount_output x.amount t x.key s >>= f)
      (fun_ext (undo_outputs-effects t xs))

undo_inputs-effects :
    (xs : List TransactionInput) (s : Ledger) → undo_inputs xs s ≡ undo_effects (input_effects xs) s
unfolding undo_inputs undo_effects undo_effect
undo_inputs-effects [] s = refl
undo_inputs-effects (coinbase height ∷ xs) s = undo_inputs-effects xs s
undo_inputs-effects (key_input a is k ∷ xs) s =
    ap (λ (f : Ledger → Option Ledger). Ledger.delete_keyimage k s >>= f)
      (fun_ext (λ s'. undo_inputs-effects xs (unspend_single a is s')))
    ∙ sym (
        >>=-assoc (Ledger.delete_keyimage k s) (λ s'. some (unspend_single a is s'))
          (undo_effects (input_effects xs)))

pub undo_transaction-effects :
    (tx : Transaction) (s : Ledger) → undo_transaction tx s ≡ undo_effects (reverse (effects tx)) s
unfolding undo_transaction
undo_transaction-effects tx s =
    let ins = input_effects tx.inputs in
    let outs = output_effects tx.unlock_time tx.outputs in
    ap (λ (m : Option Ledger). m >>= undo_inputs (reverse tx.inputs))
      (undo_outputs-effects tx.unlock_time (reverse tx.outputs) s
        ∙ ap (λ (es : List Effect). undo_effects es s)
            (output_effects-reverse tx.unlock_time tx.outputs))
    ∙ ap (λ (f : Ledger → Option Ledger). undo_effects (reverse outs) s >>= f)
        (fun_ext (λ s'.
          undo_inputs-effects (reverse tx.inputs) s'
          ∙ ap (λ (es : List Effect). undo_effects es s') (input_effects-reverse tx.inputs)))
    ∙ sym (undo_effects-append (reverse outs) (reverse ins) s)
    ∙ ap (λ (es : List Effect). undo_effects es s) (sym (reverse-append ins outs))

undo_transactions-append :
    (xs ys : List Transaction) (s : Ledger)
    → undo_transactions (xs ++ ys) s ≡ (undo_transactions xs s >>= undo_transactions ys)
unfolding undo_transactions
undo_transactions-append [] ys s = refl
undo_transactions-append (x ∷ xs) ys s =
    ap (λ (f : Ledger → Option Ledger). undo_transaction x s >>= f)
      (fun_ext (undo_transactions-append xs ys))
    ∙ sym (>>=-assoc (undo_transaction x s) (undo_transactions xs) (undo_transactions ys))

pub undo_transactions-effects :
    (txs : List Transaction) (s : Ledger)
    → undo_transactions (reverse txs) s ≡ undo_effects (reverse (all_effects txs)) s
unfolding undo_transactions undo_effects
undo_transactions-effects [] s = refl
undo_transactions-effects (tx ∷ txs) s =
    ap (λ (xs : List Transaction). undo_transactions xs s) (reverse-cons tx txs)
    ∙ undo_transactions-append (reverse txs) (tx ∷ []) s
    ∙ ap (λ (m : Option Ledger). m >>= undo_transactions (tx ∷ []))
        (undo_transactions-effects txs s)
    ∙ ap (λ (f : Ledger → Option Ledger). undo_effects (reverse (all_effects txs)) s >>= f)
        (fun_ext (λ s'. >>=-some (undo_transaction tx s') ∙ undo_transaction-effects tx s'))
    ∙ sym (undo_effects-append (reverse (all_effects txs)) (reverse (effects tx)) s)
    ∙ ap (λ (es : List Effect). undo_effects es s)
        (sym (reverse-append (effects tx) (all_effects txs)))

-- The effects of a block are taken back by `undo_block`.
pub undo_block-Holds :
    (bhash height : ℕ) (block : Block) (s : ChainState) (x : AbstractState)
    (indices : List (List ℕ))
    → AllLegal height (block_effects block) x
    → Holds s.ledger (happen_all height (block_effects block) x)
    → lookup bhash s.block_indices ≡ some indices
    → (ledger : Ledger) × (undo_block bhash block s
        ≡ some (record { ledger = ledger; block_indices = erase bhash s.block_indices }))
      × Holds ledger x
unfolding undo_block
undo_block-Holds bhash height block s x indices legal h there =
    let base = effects block.base_transaction in
    let rest = all_effects block.transactions in
    let (ledger, run, holds) = undo_effects-Holds height (block_effects block) s.ledger x legal h in
    let all : (undo_transactions (reverse block.transactions) s.ledger
          >>= undo_transaction block.base_transaction)
        ≡ some ledger =
      ap (λ (m : Option Ledger). m >>= undo_transaction block.base_transaction)
        (undo_transactions-effects block.transactions s.ledger)
      ∙ ap (λ (f : Ledger → Option Ledger). undo_effects (reverse rest) s.ledger >>= f)
          (fun_ext (undo_transaction-effects block.base_transaction))
      ∙ sym (undo_effects-append (reverse rest) (reverse base) s.ledger)
      ∙ ap (λ (es : List Effect). undo_effects es s.ledger) (sym (reverse-append base rest))
      ∙ run in
    (ledger, rw (all, del_indices, there) refl, holds)
