-- ===== src/BlockChainState/Validation/Runs.antt =====
-- Transactions that `validate_semantic` of Core/BlockChainState.cpp takes and refuses.
use cryo_nero.Prelude.{ℕ, ◌≡◌, ◌^◌, ◌-◌, refl, arith, Bool, true, false, List, [], ◌∷◌, leb, ◌↔◌}
use cryo_nero.Prelude.Results.{ok, err}
use cryo_nero.CryptoNote.{TransactionInput, key_input, TransactionOutput, Transaction}
use cryo_nero.BlockChainState.Errors.{
  wrong_amount, input_identical_keyimages, input_identical_output_indexes, outputs_amount_overflow,
}
use cryo_nero.BlockChainState.Validation.{
  validate_outputs, validate_inputs, validate_semantic, get_tx_fee_or_zero,
}
use cryo_nero.BlockChainState.Validation.Balance.{IsBalanced, validate_semantic-IsBalanced}
use cryo_nero.BlockChainState.Validation.Fee.{get_tx_fee-validate_semantic}

abbrev small_key : ℕ → Bool
small_key key = leb key 1000

abbrev payment : List TransactionInput → List ℕ → Transaction
payment inputs amounts = record {
  prefix = record {
    version = 1;
    unlock_time = 0;
    inputs = inputs;
    outputs = outputs amounts;
    extra = [];
  };
  signatures = (7 ∷ []) ∷ (8 ∷ []) ∷ [];
}
  where
    outputs : List ℕ → List TransactionOutput
    outputs [] = []
    outputs (amount ∷ amounts) = record { amount = amount; key = 5 } ∷ outputs amounts

abbrev two_inputs : List TransactionInput
two_inputs = key_input 30 (4 ∷ 1 ∷ []) 11 ∷ key_input 70 (0 ∷ 3 ∷ []) 12 ∷ []

accepted : validate_semantic small_key false (payment two_inputs (60 ∷ 35 ∷ [])) true ≡ ok 5
unfolding validate_semantic validate_outputs validate_inputs
accepted = refl

too_much :
    validate_semantic small_key false (payment two_inputs (60 ∷ 41 ∷ [])) true ≡ err wrong_amount
unfolding validate_semantic validate_outputs validate_inputs
too_much = refl

overflowing :
    validate_semantic small_key false (payment two_inputs (60 ∷ (2 ^ 64 - 1) ∷ [])) true
    ≡ err outputs_amount_overflow
unfolding validate_semantic validate_outputs validate_inputs
overflowing = refl

same_image :
    validate_semantic small_key false
      (payment (key_input 30 (4 ∷ []) 11 ∷ key_input 30 (5 ∷ []) 11 ∷ []) (1 ∷ []))
      true
    ≡ err input_identical_keyimages
unfolding validate_semantic validate_outputs validate_inputs
same_image = refl

same_member :
    validate_semantic small_key false (payment (key_input 30 (4 ∷ 0 ∷ []) 11 ∷ []) (1 ∷ [])) true
    ≡ err input_identical_output_indexes
unfolding validate_semantic validate_outputs validate_inputs
same_member = refl

validate_semantic-IsBalanced_example :
    (validate_semantic small_key false (payment two_inputs (60 ∷ 35 ∷ [])) true ≡ ok 5)
    ↔ IsBalanced small_key true (payment two_inputs (60 ∷ 35 ∷ [])) 5
validate_semantic-IsBalanced_example =
    validate_semantic-IsBalanced small_key true (payment two_inputs (60 ∷ 35 ∷ [])) 5 (omega arith)
      (omega arith)

get_tx_fee-validate_semantic_example :
    get_tx_fee_or_zero (payment two_inputs (60 ∷ 35 ∷ [])).prefix ≡ 5
get_tx_fee-validate_semantic_example =
    get_tx_fee-validate_semantic small_key true (payment two_inputs (60 ∷ 35 ∷ [])) 5 (omega arith)
      (omega arith) accepted
