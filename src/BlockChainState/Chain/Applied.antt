-- ===== src/BlockChainState/Chain/Applied.antt =====
-- A legal block's delta, as `redo_block` of Core/BlockChainState.cpp applies it to the tables.
use cryo_nero.Prelude.{
  ℕ, ◌+◌, ◌^◌, ◌<◌, ◌≡◌, ap, ◌∙◌, fun_ext, arith, true, Option, none, some, List, [], ◌∷◌, ◌==◌,
  length, length-append, map, get_or, Bool-cases, inl, inr,
}
use mathlib.Core.Path.{subst}
use cryo_nero.BlockChainState.Interface.{StateView}
use cryo_nero.Prelude.Maps.{lookup, contains}
use cryo_nero.BlockChainState.Redo.{RingCrypto, done, redo_block_delta}
use cryo_nero.BlockChainState.Redo.DoubleSpend.{
  elem, elem-append, block_images, redo_block_delta-Distinct,
}
use cryo_nero.CryptoNote.{TransactionInput, coinbase, key_input, Transaction, Block, key_images}
use cryo_nero.Currency.{Currency}
use cryo_nero.BlockChainState.Stacks.{Stacks, length-mark}
use cryo_nero.BlockChainState.Ledger.{Ledger, ledger_interface, read_keyimage}
use cryo_nero.BlockChainState.Ledger.Refinement.{LedgerHolds, unspent}
use cryo_nero.BlockChainState.Delta
use cryo_nero.BlockChainState.Delta.{DeltaState, new_delta, new_outputs}
use cryo_nero.BlockChainState.Delta.Apply.{mark_all, apply-LedgerHolds}
use cryo_nero.BlockChainState.Delta.Refinement.{grown, grown_images, to_output, length-map_lem}
use cryo_nero.BlockChainState.Delta.Valid.{new_delta-DeltaIsValid}
use cryo_nero.BlockChainState.Delta.Marks.{length-mark_all}
use cryo_nero.BlockChainState.Effects.{
  AbstractState, Effect, spend, push, input_effects, output_effects, effects, all_effects,
  block_effects, happen, happen_all, mark_single, AllLegal, Holds,
}
use cryo_nero.BlockChainState.Redo.Valid.{redo_block_delta-DeltaIsValid}
use cryo_nero.BlockChainState.Redo.Follows.{AllLegal-append}
use cryo_nero.BlockChainState.Redo.Effects.{redo_block_delta-shown}

-- An image that is not spent afterwards was not spent before.
images_before :
    (h : ℕ) (es : List Effect) (x : AbstractState) (k : ℕ)
    → (happen_all h es x).images k ≡ none
    → x.images k ≡ none
images_before h [] x k e = e
images_before h (spend a is image ∷ es) x k e =
    let before = images_before h es (happen h (spend a is image) x) k e in
    elim (Bool-cases (image == k)) [ inl f ↦ ground arith | inr f ↦ ground arith ]
images_before h (push a t key ∷ es) x k e = images_before h es (happen h (push a t key) x) k e

legal_inputs :
    (h : ℕ) (inputs : List TransactionInput) (x : AbstractState) (k : ℕ)
    → AllLegal h (input_effects inputs) x
    → elem k (key_images inputs) ≡ true
    → x.images k ≡ none
legal_inputs h [] x k legal e = cc
legal_inputs h (coinbase height ∷ inputs) x k legal e = legal_inputs h inputs x k legal e
legal_inputs h (key_input a is image ∷ inputs) x k ((new, unspent_), later) e =
    ground (arith, legal_inputs h inputs (happen h (spend a is image) x) k later)

legal_images :
    (h : ℕ) (txs : List Transaction) (x : AbstractState) (k : ℕ)
    → AllLegal h (all_effects txs) x
    → elem k (block_images txs) ≡ true
    → x.images k ≡ none
legal_images h [] x k legal e = cc
legal_images h (tx ∷ txs) x k legal e =
    let (now, later) = AllLegal-append h (effects tx) (all_effects txs) x legal in
    let (ins, outs) =
      AllLegal-append h (input_effects tx.inputs) (output_effects tx.unlock_time tx.outputs) x
        now in
    elim (Bool-cases (elem k (key_images tx.inputs))) [
      | inl f ↦ legal_inputs h tx.inputs x k ins f
      | inr f ↦ images_before h (effects tx) x k (
          legal_images h txs (happen_all h (effects tx) x) k later
            (ground (arith, elem-append k (key_images tx.inputs) (block_images txs))))
    ]

length-mark_single :
    (b : ℕ) (is : List ℕ) (st : Stacks) (a : ℕ) → length (mark_single b is st a) ≡ length (st a)
length-mark_single b is st a = elim (Bool-cases (length is == 1)) [
  | inl e ↦ ground (arith, e, length-mark (st a) (get_or is 0 0) true)
  | inr e ↦ ground (arith, e)
]

-- No stack outgrows its indices.
legal_length :
    (h : ℕ) (es : List Effect) (x : AbstractState) (a : ℕ)
    → AllLegal h es x
    → length (x.stacks a) < 2 ^ 32
    → length ((happen_all h es x).stacks a) < 2 ^ 32
legal_length h [] x a legal lt = lt
legal_length h (spend b is image ∷ es) x a (now, later) lt =
    legal_length h es (happen h (spend b is image) x) a later
      (omega (arith, length-mark_single b is x.stacks a))
legal_length h (push b t key ∷ es) x a (now, later) lt =
    legal_length h es (happen h (push b t key) x) a later
      (ground (arith, length-append (x.stacks a) (unspent t h key ∷ [])))

module _ (crypto : RingCrypto) (currency : Currency) (block : Block) (height time : ℕ)
    (view : StateView) (d : DeltaState) (indices : List (List ℕ)) (s : Ledger) (x : AbstractState)
    (e : redo_block_delta crypto currency block (new_delta height time view) ≡ done (d, indices))
    (legal : AllLegal height (block_effects block) x) (h : Holds s x) where
  new_images : (k at : ℕ) → lookup k d.keyimages ≡ some at → read_keyimage s k ≡ none
  unfolding contains lookup
  new_images k at there =
      let txs = block.base_transaction ∷ block.transactions in
      let (distinct, fresh, images) =
        redo_block_delta-Distinct crypto currency block (new_delta height time view) d indices e in
      let spent : elem k (block_images txs) ≡ true = ground (arith, images k, there) in
      h.images k ∙ legal_images height txs x k legal spent

  outputs_fit : (a : ℕ) → length (x.stacks a) + length (new_outputs d a) < 2 ^ 32
  outputs_fit a =
      let shows =
        redo_block_delta-shown crypto currency block height time view d indices x e legal in
      let same : length (mark_all d.spent_outputs (grown d x.stacks) a)
          ≡ length ((happen_all height (block_effects block) x).stacks a) =
        ap (λ (y : AbstractState). length (y.stacks a)) shows in
      omega (
        arith,
        same,
        length-mark_all d.spent_outputs (grown d x.stacks) a,
        length-append (x.stacks a) (map (to_output d.block_height) (new_outputs d a)),
        length-map_lem d.block_height (new_outputs d a),
        legal_length height (block_effects block) x a legal (h.stacks.fits a),
      )

  -- A delta of a legal block is applied, and its effects then hold.
  pub applied_block :
      (s' : Ledger) × (Delta.apply ledger_interface d s ≡ some s')
      × Holds s' (happen_all height (block_effects block) x)
  applied_block =
      let shows =
        redo_block_delta-shown crypto currency block height time view d indices x e legal in
      let (valid, level) =
        redo_block_delta-DeltaIsValid crypto currency block (new_delta height time view) d indices e
          (new_delta-DeltaIsValid height time view) in
      let (s', run, holds, read) =
        apply-LedgerHolds d s x.stacks valid h.stacks new_images outputs_fit in
      (
        s',
        run,
        record {
          stacks = subst (λ (y : AbstractState). LedgerHolds s' y.stacks) shows holds;
          images = λ k.
              read k
              ∙ ap (λ (f : ℕ → Option ℕ). grown_images d f k) (fun_ext h.images)
              ∙ ap (λ (y : AbstractState). y.images k) shows;
        },
      )
