-- ===== src/BlockChainState/Redo/Unspent.antt =====
-- Core/BlockChainState.cpp: a transaction whose signatures are checked spends unspent images.
use cryo_nero.Prelude.{
  ℕ, ◌+◌, ◌≡◌, refl, sym, ap, ◌∙◌, arith, true, none, List, [], ◌∷◌, ◌==◌, Bool-cases, Option-cases,
  inl, inr, length, get_or, All,
}
use cryo_nero.CryptoNote.{TransactionInput, coinbase, key_input, Transaction, key_images}
use cryo_nero.Currency.{Currency}
use cryo_nero.BlockChainState.Interface.{StateView}
use cryo_nero.BlockChainState.Delta
use cryo_nero.BlockChainState.Delta.Images.{
  store_keyimage-parent, spend_output-parent, read_keyimage-parent,
}
use cryo_nero.BlockChainState.Delta.{DeltaState, new_delta, delta_view, delta_interface}
use cryo_nero.BlockChainState.Redo.{
  RingCrypto, done, or_violated, check_input, spend_single, redo_inputs, redo_transaction,
}
use cryo_nero.BlockChainState.Redo.DoubleSpend.{
  Distinct, >>=-eq-done, or_violated-eq-done, redo_transaction_lem,
}

module _ (crypto : RingCrypto) (currency : Currency) where
  check_input-unspent :
      (view : StateView) (height time amount : ℕ) (indexes : List ℕ) (image : ℕ)
      (signatures : List ℕ) (hash c c' : ℕ)
      → check_input crypto currency view height time amount indexes image signatures hash c
        ≡ done c'
      → view.read_keyimage image ≡ none
  unfolding check_input
  check_input-unspent view height time amount indexes image signatures hash c c' e =
      elim (Option-cases (view.read_keyimage image)) [
        | inl n ↦ n
        | inr (old, n) ↦ absurd (ground (arith, n))
      ]

  spend_single-parent :
      (a : ℕ) (is : List ℕ) (d : DeltaState)
      → (spend_single crypto currency a is d).parent_state ≡ d.parent_state
  spend_single-parent a is d = elim (Bool-cases (length is == 1)) [
    | inl e ↦ ground (arith, spend_output-parent a (get_or is 0 0) d)
    | inr e ↦ ground arith
  ]

  redo_inputs-unspent :
      (tx : Transaction) (i : ℕ) (inputs : List TransactionInput) (d : DeltaState) (c : ℕ)
      (result : DeltaState × ℕ) (view : StateView)
      → redo_inputs crypto currency true tx i inputs d c ≡ done result
      → d.parent_state ≡ view
      → All (λ k. view.read_keyimage k ≡ none) (key_images inputs)
  unfolding redo_inputs
  redo_inputs-unspent tx i [] d c result view e parent = tt
  redo_inputs-unspent tx i (coinbase height ∷ inputs) d c result view e parent =
      redo_inputs-unspent tx (i + 1) inputs d c result view e parent
  redo_inputs-unspent tx i (key_input amount indexes image ∷ inputs) d c result view e parent =
      let (c1, checked, e1) =
        >>=-eq-done
          (check_input crypto currency (delta_view d) d.block_height d.unlock_timestamp amount
            indexes image (get_or tx.signatures i []) (crypto.prefix_hash tx) c)
          _ e in
      let (d1, stored, e2) =
        >>=-eq-done
          (or_violated (
            Delta.store_keyimage image d.block_height
              (spend_single crypto currency amount indexes d)))
          _ e1 in
      let same =
        store_keyimage-parent image d.block_height (spend_single crypto currency amount indexes d)
          d1 (or_violated-eq-done _ stored)
        ∙ spend_single-parent amount indexes d in
      (
        ap (λ (v : StateView). v.read_keyimage image) (sym parent)
            ∙ read_keyimage-parent d image (
                check_input-unspent (delta_view d) d.block_height d.unlock_timestamp amount indexes
                  image (get_or tx.signatures i []) (crypto.prefix_hash tx) c c1 checked),
        redo_inputs-unspent tx (i + 1) inputs d1 c1 result view e2 (same ∙ parent),
      )

-- A transaction whose signatures are checked, as for the pool, is accepted only if each of its key
-- images is unspent in the state that the delta shows, and they differ from each other.
pub redo_transaction-unspent :
    (crypto : RingCrypto) (currency : Currency) (tx : Transaction) (d d' : DeltaState)
    (indices : List ℕ) (c : ℕ)
    → redo_transaction crypto currency tx d true ≡ done (d', indices, c)
    → Distinct (key_images tx.inputs)
      × All (λ k. Delta.read_keyimage d k ≡ none) (key_images tx.inputs)
unfolding redo_transaction
redo_transaction-unspent crypto currency tx d d' indices c e =
    let own = new_delta d.block_height d.unlock_timestamp (delta_view d) in
    let (r1, e1, e2) = >>=-eq-done (redo_inputs crypto currency true tx 0 tx.inputs own 0) _ e in
    (
      (redo_transaction_lem crypto currency tx d true d' indices c e).0,
      redo_inputs-unspent crypto currency tx 0 tx.inputs own 0 r1 (delta_view d) e1 refl,
    )
