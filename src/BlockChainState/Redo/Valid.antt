-- ===== src/BlockChainState/Redo/Valid.antt =====
-- Redo of Core/BlockChainState.cpp leaves a delta that can be applied to the chain.
use cryo_nero.Prelude.{
  ℕ, ◌+◌, ◌≡◌, refl, sym, ap, ◌∙◌, Bool, true, false, List, [], ◌∷◌, ◌==◌, if◌then◌else◌, length,
  get_or,
}
use cryo_nero.CryptoNote.{
  TransactionInput, coinbase, key_input, TransactionOutput, Transaction, Block,
}
use cryo_nero.Currency.{Currency}
use cryo_nero.BlockChainState.Delta
use cryo_nero.BlockChainState.Delta.{DeltaState, new_delta, delta_view, delta_interface}
use cryo_nero.BlockChainState.Delta.Apply.{DeltaIsValid}
use cryo_nero.BlockChainState.Delta.Valid.{
  new_delta-DeltaIsValid, spend_output-DeltaIsValid, spend_output-height,
  push_amount_output-DeltaIsValid, push_amount_output-height, store_keyimage-DeltaIsValid,
  apply-DeltaIsValid,
}
use cryo_nero.BlockChainState.Redo.{
  RingCrypto, Redo, done, refused, violated, or_violated, check_input, spend_single, redo_inputs,
  redo_outputs, redo_transaction, redo_transactions, redo_block_delta,
}
use cryo_nero.BlockChainState.Redo.DoubleSpend.{>>=-eq-done, or_violated-eq-done}

-- Valid, at the same height.
abbrev pub Kept : DeltaState → DeltaState → Type 0
Kept s s' = DeltaIsValid s' × (s'.block_height ≡ s.block_height)

module _ (crypto : RingCrypto) (currency : Currency) where
  spend_single-Kept :
      (a : ℕ) (is : List ℕ) (d : DeltaState)
      → DeltaIsValid d
      → Kept d (spend_single crypto currency a is d)
  spend_single-Kept a is d v = chosen (length is == 1)
    where
      chosen : (b : Bool) → Kept d (if b then Delta.spend_output a (get_or is 0 0) d else d)
      chosen true =
          (spend_output-DeltaIsValid a (get_or is 0 0) d v, spend_output-height a (get_or is 0 0) d)
      chosen false = (v, refl)

  delta_of_inputs : Redo (DeltaState × ℕ) → DeltaState → DeltaState
  delta_of_inputs (done (d, c)) other = d
  delta_of_inputs (refused e height) other = other
  delta_of_inputs violated other = other

  pub redo_inputs-Kept :
      (check_sigs : Bool) (tx : Transaction) (i : ℕ) (inputs : List TransactionInput)
      (d : DeltaState) (c : ℕ) (d' : DeltaState) (c' : ℕ)
      → redo_inputs crypto currency check_sigs tx i inputs d c ≡ done (d', c')
      → DeltaIsValid d
      → Kept d d'
  unfolding redo_inputs delta_of_inputs
  redo_inputs-Kept check_sigs tx i [] d c d' c' e v =
      rw (ap (λ (r : Redo (DeltaState × ℕ)). delta_of_inputs r d) (sym e)) (v, refl)
  redo_inputs-Kept check_sigs tx i (coinbase height ∷ inputs) d c d' c' e v =
      redo_inputs-Kept check_sigs tx (i + 1) inputs d c d' c' e v
  redo_inputs-Kept check_sigs tx i (key_input amount indexes image ∷ inputs) d c d' c' e v =
      let (c1, checked, e1) =
        >>=-eq-done
          (if check_sigs
            then check_input crypto currency (delta_view d) d.block_height d.unlock_timestamp amount
                indexes image (get_or tx.signatures i []) (crypto.prefix_hash tx) c
            else done c)
          _ e in
      let (d1, stored, e2) =
        >>=-eq-done
          (or_violated (
            Delta.store_keyimage image d.block_height
              (spend_single crypto currency amount indexes d)))
          _ e1 in
      let (v1, h1) = spend_single-Kept amount indexes d v in
      let (v2, h2) =
        store_keyimage-DeltaIsValid image d.block_height
          (spend_single crypto currency amount indexes d) d1 (sym h1) (or_violated-eq-done _ stored)
          v1 in
      let (v3, h3) = redo_inputs-Kept check_sigs tx (i + 1) inputs d1 c1 d' c' e2 v2 in
      (v3, h3 ∙ h2 ∙ h1)

  pub redo_outputs-Kept :
      (t : ℕ) (outputs : List TransactionOutput) (d : DeltaState)
      → DeltaIsValid d
      → Kept d (redo_outputs crypto currency t outputs d).0
  unfolding redo_outputs
  redo_outputs-Kept t [] d v = (v, refl)
  redo_outputs-Kept t (output ∷ outputs) d v =
      let (v1, h1) =
        redo_outputs-Kept t outputs (Delta.push_amount_output output.amount t 0 output.key d).0
          (push_amount_output-DeltaIsValid output.amount t 0 output.key d v) in
      (v1, h1 ∙ push_amount_output-height output.amount t 0 output.key d)

  delta_of : Redo (DeltaState × List ℕ × ℕ) → DeltaState → DeltaState
  delta_of (done (d, indices, c)) other = d
  delta_of (refused e height) other = other
  delta_of violated other = other

  pub redo_transaction-Kept :
      (tx : Transaction) (d : DeltaState) (check_sigs : Bool) (d' : DeltaState) (indices : List ℕ)
      (c : ℕ)
      → redo_transaction crypto currency tx d check_sigs ≡ done (d', indices, c)
      → DeltaIsValid d
      → Kept d d'
  unfolding redo_transaction delta_of
  redo_transaction-Kept tx d check_sigs d' indices c e v =
      let own = new_delta d.block_height d.unlock_timestamp (delta_view d) in
      let ((d1, c1), e1, e2) =
        >>=-eq-done (redo_inputs crypto currency check_sigs tx 0 tx.inputs own 0) _ e in
      let d2 = (redo_outputs crypto currency tx.unlock_time tx.outputs d1).0 in
      let (d3, applied, e3) = >>=-eq-done (or_violated (Delta.apply delta_interface d2 d)) _ e2 in
      let (v1, h1) =
        redo_inputs-Kept check_sigs tx 0 tx.inputs own 0 d1 c1 e1
          (new_delta-DeltaIsValid d.block_height d.unlock_timestamp (delta_view d)) in
      let (v2, h2) = redo_outputs-Kept tx.unlock_time tx.outputs d1 v1 in
      let kept = apply-DeltaIsValid d2 d d3 v2 (h2 ∙ h1) (or_violated-eq-done _ applied) v in
      rw (ap (λ (r : Redo (DeltaState × List ℕ × ℕ)). delta_of r d) (sym e3)) kept

  delta_of_all : Redo (DeltaState × List (List ℕ)) → DeltaState → DeltaState
  delta_of_all (done (d, indices)) other = d
  delta_of_all (refused e height) other = other
  delta_of_all violated other = other

  redo_transactions-Kept :
      (txs : List Transaction) (d d' : DeltaState) (indices : List (List ℕ))
      → redo_transactions crypto currency txs d ≡ done (d', indices)
      → DeltaIsValid d
      → Kept d d'
  unfolding redo_transactions delta_of_all
  redo_transactions-Kept [] d d' indices e v =
      rw (ap (λ (r : Redo (DeltaState × List (List ℕ))). delta_of_all r d) (sym e)) (v, refl)
  redo_transactions-Kept (tx ∷ txs) d d' indices e v =
      let ((d1, i1, c1), e1, e2) = >>=-eq-done (redo_transaction crypto currency tx d false) _ e in
      let ((d2, i2), e3, e4) = >>=-eq-done (redo_transactions crypto currency txs d1) _ e2 in
      let (v1, h1) = redo_transaction-Kept tx d false d1 i1 c1 e1 v in
      let (v2, h2) = redo_transactions-Kept txs d1 d2 i2 e3 v1 in
      rw (ap (λ (r : Redo (DeltaState × List (List ℕ))). delta_of_all r d) (sym e4)) (v2, h2 ∙ h1)

-- A block that is redone on a valid delta leaves a valid delta of the same height: its amounts and
-- its images rise, each once, and its images carry the height of the block.
pub redo_block_delta-DeltaIsValid :
    (crypto : RingCrypto) (currency : Currency) (block : Block) (d d' : DeltaState)
    (indices : List (List ℕ))
    → redo_block_delta crypto currency block d ≡ done (d', indices)
    → DeltaIsValid d
    → DeltaIsValid d' × (d'.block_height ≡ d.block_height)
unfolding redo_block_delta
redo_block_delta-DeltaIsValid crypto currency block d d' indices e v =
    redo_transactions-Kept crypto currency (block.base_transaction ∷ block.transactions) d d'
      indices e v
