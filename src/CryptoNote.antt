-- ===== src/CryptoNote.antt =====
-- The data of src/CryptoNote.hpp. A key, a key image and a hash are numbers: the 32 bytes read from
-- the first on, so that `operator<` (memcmp) is the order of the numbers. A byte is a number below
-- 256, a `BinaryArray` a list of bytes.
use cryo_nero.Prelude.{ℕ, List, [], ◌∷◌, ◌+◌}

-- `boost::variant<CoinbaseInput, KeyInput>`
pub data TransactionInput : Type 0 where
  coinbase : ℕ → TransactionInput
  -- amount, output_indexes, key_image
  key_input : ℕ → List ℕ → ℕ → TransactionInput

-- `TransactionOutputTarget` has one alternative, `KeyOutput`.
pub record TransactionOutput : Type 0 where
  pub amount : ℕ
  pub key : ℕ

pub record TransactionPrefix : Type 0 where
  pub version : ℕ
  pub unlock_time : ℕ
  pub inputs : List TransactionInput
  pub outputs : List TransactionOutput
  pub extra : List ℕ

pub record Transaction : Type 0 where
  pub prefix : TransactionPrefix
  pub open prefix use *
  pub signatures : List (List ℕ)

pub record Block : Type 0 where
  pub previous_block_hash : ℕ
  pub timestamp : ℕ
  pub base_transaction : Transaction
  pub transaction_hashes : List ℕ
  pub transactions : List Transaction

-- The key images that the inputs spend.
abbrev pub key_images : List TransactionInput → List ℕ
key_images [] = []
key_images (coinbase height ∷ inputs) = key_images inputs
key_images (key_input amount indexes image ∷ inputs) = image ∷ key_images inputs

abbrev pub total_input : List TransactionInput → ℕ
total_input [] = 0
total_input (coinbase height ∷ inputs) = total_input inputs
total_input (key_input amount indexes image ∷ inputs) = amount + total_input inputs

abbrev pub total_output : List TransactionOutput → ℕ
total_output [] = 0
total_output (output ∷ outputs) = output.amount + total_output outputs
