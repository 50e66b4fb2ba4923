-- ===== src/BlockChainState/Validation/Fee.antt =====
-- The fee of Core/CryptoNoteTools.cpp against the one that `validate_semantic` returns.
use cryo_nero.Prelude.{ℕ, ◌+◌, ◌%◌, ◌^◌, ◌<◌, ◌≡◌, arith, Bool, false, List, [], ◌∷◌, All}
use cryo_nero.Prelude.Results.{ok}
use cryo_nero.CryptoNote.{
  TransactionInput, coinbase, key_input, TransactionOutput, Transaction, total_input, total_output,
}
use cryo_nero.BlockChainState.Validation.{
  sum_inputs, sum_outputs, get_tx_fee_or_zero, validate_semantic,
}
use cryo_nero.BlockChainState.Validation.Balance.{
  IsBalanced, OutputFits, InputFits, validate_semantic-IsBalanced,
}

-- Where the total fits, the wrapping loops compute it.
sum_inputs_lem :
    (inputs : List TransactionInput) (sum : ℕ)
    → sum + total_input inputs < 2 ^ 64
    → sum_inputs sum inputs ≡ sum + total_input inputs
unfolding sum_inputs
sum_inputs_lem [] sum h = omega arith
sum_inputs_lem (coinbase height ∷ inputs) sum h = sum_inputs_lem inputs sum h
sum_inputs_lem (key_input amount indexes image ∷ inputs) sum h =
    ground (arith, sum_inputs_lem inputs ((sum + amount) % 2 ^ 64))

sum_outputs_lem :
    (outputs : List TransactionOutput) (sum : ℕ)
    → sum + total_output outputs < 2 ^ 64
    → sum_outputs sum outputs ≡ sum + total_output outputs
unfolding sum_outputs
sum_outputs_lem [] sum h = omega arith
sum_outputs_lem (output ∷ outputs) sum h =
    ground (arith, sum_outputs_lem outputs ((sum + output.amount) % 2 ^ 64))

-- For amounts below 2^64: the fee that the pool computes for a transaction that is no coinbase,
-- before it validates it, is the fee with which it passes validation, if it passes.
pub get_tx_fee-validate_semantic :
    (key_isvalid : ℕ → Bool) (check : Bool) (tx : Transaction) (fee : ℕ)
    → All OutputFits tx.outputs
    → All InputFits tx.inputs
    → validate_semantic key_isvalid false tx check ≡ ok fee
    → get_tx_fee_or_zero tx.prefix ≡ fee
unfolding get_tx_fee_or_zero
get_tx_fee-validate_semantic key_isvalid check tx fee outputs_fit inputs_fit e =
    let h : IsBalanced key_isvalid check tx fee =
      (validate_semantic-IsBalanced key_isvalid check tx fee outputs_fit inputs_fit).0 e in
    let balance = h.balance in
    let fits = h.no_overflow in
    ground (arith, balance, fits, sum_inputs_lem tx.inputs 0, sum_outputs_lem tx.outputs 0)
