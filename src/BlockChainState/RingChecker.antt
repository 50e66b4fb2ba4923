-- ===== src/BlockChainState/RingChecker.antt =====
-- Core/RingCheckerMulticore.cpp: the inputs of a block against the chain, and their signatures. The
-- worker threads check the rings in any order; what counts is whether one of them found an error.
pub mod Coverage
mod Runs
use cryo_nero.Prelude.{
  ℕ, ◌+◌, ◌≡◌, refl, arith, Bool, true, false, ◌&&◌, Option, none, some, List, [], ◌∷◌, ◌++◌,
  if◌then◌else◌, get_or,
}
use cryo_nero.Prelude.Results.{Result, ok, err, ◌>>=◌}
use cryo_nero.CryptoNote.{TransactionInput, coinbase, key_input, Transaction, Block}
use cryo_nero.Currency.{Currency, is_transaction_spend_time_unlocked}
use cryo_nero.BlockChainState.Errors.{
  TxError, input_unknown_type, input_keyimage_already_spent, input_invalid_global_index,
  input_spend_locked_out,
}
use cryo_nero.BlockChainState.Validation.{is_empty}
use cryo_nero.BlockChainState.Interface.{StateView}
use cryo_nero.BlockChainState.Redo.{
  RingCrypto, Verdict, valid, invalid, corrupted, absolute_indexes,
}

-- What one thread checks.
pub record RingSignatureArg : Type 0 where
  pub tx_prefix_hash : ℕ
  pub key_image : ℕ
  pub output_keys : List ℕ
  pub signatures : List ℕ

abbrev is_valid : Verdict → Bool
is_valid valid = true
is_valid invalid = false
is_valid corrupted = false

module _ (crypto : RingCrypto) (currency : Currency) where
  -- The keys of the ring's outputs.
  unfoldable pub output_keys : StateView → ℕ → ℕ → ℕ → List ℕ → Result TxError (List ℕ)
  output_keys state unlock_height unlock_timestamp amount [] = ok []
  output_keys state unlock_height unlock_timestamp amount (index ∷ indexes) =
      elim (state.read_amount_output amount index) [
        | none ↦ err input_invalid_global_index
        | some unp ↦
            let others = output_keys state unlock_height unlock_timestamp amount indexes in
            if is_transaction_spend_time_unlocked currency unp.unlock_time unlock_height
              unlock_timestamp
            then (others >>= λ keys. ok (unp.public_key ∷ keys))
            else err input_spend_locked_out
      ]

  -- The loop over the inputs of a transaction, with `input_index`.
  unfoldable pub start_inputs :
      StateView
      → ℕ
      → ℕ
      → Transaction
      → ℕ
      → List TransactionInput
      → Result TxError (List RingSignatureArg)
  unfolding output_keys
  start_inputs state unlock_height unlock_timestamp tx input_index [] = ok []
  start_inputs state unlock_height unlock_timestamp tx input_index (coinbase height ∷ inputs) =
      start_inputs state unlock_height unlock_timestamp tx (input_index + 1) inputs
  start_inputs state unlock_height unlock_timestamp tx input_index
        (key_input amount indexes image ∷ inputs) =
      let later = start_inputs state unlock_height unlock_timestamp tx (input_index + 1) inputs in
      elim (state.read_keyimage image) [
        | some spent_at ↦ err input_keyimage_already_spent
        | none ↦
            if is_empty indexes
            then err input_unknown_type
            else (output_keys state unlock_height unlock_timestamp amount (absolute_indexes indexes)
                >>= λ keys. later >>= λ args. ok (
                    record {
                      tx_prefix_hash = crypto.prefix_hash tx;
                      key_image = image;
                      output_keys = keys;
                      signatures = get_or tx.signatures input_index [];
                    }
                    ∷ args))
      ]

  -- The loop over the transactions; that of the miner is not among them.
  unfoldable pub start_transactions :
      StateView → ℕ → ℕ → List Transaction → Result TxError (List RingSignatureArg)
  unfolding start_inputs
  start_transactions state unlock_height unlock_timestamp [] = ok []
  start_transactions state unlock_height unlock_timestamp (tx ∷ txs) =
      start_inputs state unlock_height unlock_timestamp tx 0 tx.inputs >>= λ args.
      start_transactions state unlock_height unlock_timestamp txs >>= λ others. ok (args ++ others)

  -- The error text, or what is handed to the threads.
  unfoldable pub start_work : StateView → Block → ℕ → ℕ → Result TxError (List RingSignatureArg)
  unfolding start_transactions
  start_work state block unlock_height unlock_timestamp =
      start_transactions state unlock_height unlock_timestamp block.transactions

  unfoldable pub signatures_valid : List RingSignatureArg → Bool
  signatures_valid [] = true
  signatures_valid (arg ∷ args) =
      is_valid (
        crypto.check_ring_signature arg.tx_prefix_hash arg.key_image arg.output_keys arg.signatures)
      && signatures_valid args
