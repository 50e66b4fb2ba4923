-- ===== src/BlockChainState/Errors.antt =====
-- The error texts of Core/BlockChainState.cpp that concern one transaction.
pub data TxError : Type 0 where
  empty_inputs output_zero_amount output_invalid_key outputs_amount_overflow : TxError
  input_unknown_type input_identical_keyimages input_empty_output_usage : TxError
  input_identical_output_indexes inputs_amount_overflow wrong_amount : TxError
  input_keyimage_already_spent input_invalid_global_index input_spend_locked_out : TxError
  input_corrupted_signatures input_invalid_signatures : TxError
