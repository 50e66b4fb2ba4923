-- ===== src/BlockChainState/Validation.antt =====
-- `validate_semantic` of Core/BlockChainState.cpp and `get_tx_fee` of Core/CryptoNoteTools.cpp.
-- `key_isvalid` of crypto/crypto.cpp is a parameter.
pub mod Balance
pub mod Fee
mod Runs
use cryo_nero.Prelude.{
  ℕ, ◌+◌, ◌-◌, ◌%◌, ◌^◌, Bool, true, false, not, ◌&&◌, ◌||◌, List, [], ◌∷◌, ltb, ◌==◌,
  if◌then◌else◌, length, Option, some, none,
}
use cryo_nero.Prelude.Results.{Result, ok, err, ◌>>=◌, ◌>>◌, guard}
use cryo_nero.CryptoNote.{
  TransactionInput, coinbase, key_input, TransactionOutput, Transaction, TransactionPrefix,
}
use cryo_nero.BlockChainState.Errors.{
  TxError, empty_inputs, output_zero_amount, output_invalid_key, outputs_amount_overflow,
  input_unknown_type, input_identical_keyimages, input_empty_output_usage,
  input_identical_output_indexes, inputs_amount_overflow, wrong_amount,
}

-- `set.count(x) != 0`, and `std::find(begin, end, x) != end`
abbrev pub contains : ℕ → List ℕ → Bool
contains x [] = false
contains x (y ∷ ys) = y == x || contains x ys

-- `std::find(++begin, end, 0) != end` on the relative indexes of a ring
abbrev pub has_zero_step : List ℕ → Bool
has_zero_step [] = false
has_zero_step (first ∷ steps) = contains 0 steps

abbrev pub is_empty {ℓ} : {A : Type ℓ} → List A → Bool
is_empty [] = true
is_empty (x ∷ xs) = false

-- `std::numeric_limits<uint64_t>::max() - amount < sum`
abbrev pub would_overflow : ℕ → ℕ → Bool
would_overflow amount sum = ltb (2 ^ 64 - 1 - amount) sum

module _ (key_isvalid : ℕ → Bool) where
  pub validate_outputs : Bool → List TransactionOutput → ℕ → Result TxError ℕ
  validate_outputs check_output_key [] sum = ok sum
  validate_outputs check_output_key (output ∷ outputs) sum = do
    guard (not (output.amount == 0)) output_zero_amount
    guard (not (check_output_key && not (key_isvalid output.key))) output_invalid_key
    guard (not (would_overflow output.amount sum)) outputs_amount_overflow
    validate_outputs check_output_key outputs ((sum + output.amount) % 2 ^ 64)

-- `images` is the set `ki`.
pub validate_inputs : Bool → List TransactionInput → List ℕ → ℕ → Result TxError ℕ
validate_inputs generating [] images sum = ok sum
validate_inputs generating (coinbase height ∷ inputs) images sum = do
  guard generating input_unknown_type
  guard (not (would_overflow 0 sum)) inputs_amount_overflow
  validate_inputs generating inputs images ((sum + 0) % 2 ^ 64)
validate_inputs generating (key_input amount indexes image ∷ inputs) images sum = do
  guard (not generating) input_unknown_type
  guard (not (contains image images)) input_identical_keyimages
  guard (not (is_empty indexes)) input_empty_output_usage
  guard (not (has_zero_step indexes)) input_identical_output_indexes
  guard (not (would_overflow amount sum)) inputs_amount_overflow
  validate_inputs generating inputs (image ∷ images) ((sum + amount) % 2 ^ 64)

-- Returns the fee.
pub validate_semantic : (ℕ → Bool) → Bool → Transaction → Bool → Result TxError ℕ
validate_semantic key_isvalid generating tx check_output_key = do
  guard (not (is_empty tx.inputs)) empty_inputs
  summary_output ← validate_outputs key_isvalid check_output_key tx.outputs 0
  summary_input ← validate_inputs generating tx.inputs [] 0
  guard (not (ltb summary_input summary_output && not generating)) wrong_amount
  guard (not (not (length tx.signatures == length tx.inputs) && not generating)) input_unknown_type
  guard (not (not (is_empty tx.signatures) && generating)) input_unknown_type
  ok ((summary_input + 2 ^ 64 - summary_output) % 2 ^ 64)

-- The loops of `get_tx_fee`; the sums are `uint64_t`.
sum_inputs : ℕ → List TransactionInput → ℕ
sum_inputs sum [] = sum
sum_inputs sum (coinbase height ∷ inputs) = sum_inputs sum inputs
sum_inputs sum (key_input amount indexes image ∷ inputs) =
    sum_inputs ((sum + amount) % 2 ^ 64) inputs

sum_outputs : ℕ → List TransactionOutput → ℕ
sum_outputs sum [] = sum
sum_outputs sum (output ∷ outputs) = sum_outputs ((sum + output.amount) % 2 ^ 64) outputs

-- `none` is the result `false`.
pub get_tx_fee : TransactionPrefix → Option ℕ
unfolding sum_inputs sum_outputs
get_tx_fee tx =
    let amount_in = sum_inputs 0 tx.inputs in
    let amount_out = sum_outputs 0 tx.outputs in
    if ltb amount_in amount_out then none else some (amount_in - amount_out)

-- The overload that returns 0 instead.
pub get_tx_fee_or_zero : TransactionPrefix → ℕ
unfolding get_tx_fee
get_tx_fee_or_zero tx = elim (get_tx_fee tx) [ none ↦ 0 | some fee ↦ fee ]
