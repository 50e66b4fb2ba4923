-- ===== src/BlockChainState/Redo/Runs.antt =====
-- Runs of redo in Core/BlockChainState.cpp, and the theorems at concrete inputs.
use cryo_nero.Prelude.{ℕ, ◌≡◌, refl, true, false, ◌||◌, none, [], ◌∷◌, All}
use cryo_nero.Prelude.Maps.{lookup, insert, contains}
use cryo_nero.CryptoNote.{coinbase, key_input, TransactionOutput, Transaction, Block, key_images}
use cryo_nero.Currency.{Currency, new_currency, is_transaction_spend_time_unlocked}
use cryo_nero.BlockChainState.Delta
use cryo_nero.BlockChainState.Delta.{DeltaState, new_delta}
use cryo_nero.BlockChainState.Ledger
use cryo_nero.BlockChainState.Ledger.{Ledger, ledger_view}
use cryo_nero.BlockChainState.Redo.{
  RingCrypto, valid, done, redo_inputs, redo_outputs, redo_transaction, redo_transactions,
  redo_block_delta, check_input, read_ring,
}
use cryo_nero.BlockChainState.Redo.DoubleSpend.{
  elem, Distinct, block_images, redo_block_delta-Distinct,
}
use cryo_nero.BlockChainState.Redo.Unspent.{redo_transaction-unspent}
use cryo_nero.BlockChainState.Delta.Apply.{DeltaIsValid}
use cryo_nero.BlockChainState.Delta.Valid.{new_delta-DeltaIsValid}
use cryo_nero.BlockChainState.Redo.Valid.{redo_block_delta-DeltaIsValid}

-- Cryptography that accepts each ring.
abbrev trusting : RingCrypto
trusting = record {
  prefix_hash = λ tx. 0;
  check_ring_signature = λ hash image keys signatures. valid;
}

abbrev mainnet : Currency
mainnet = new_currency false

abbrev coin : TransactionOutput
coin = record { amount = 100; key = 77 }

abbrev base : Transaction
base = record {
  prefix = record {
    version = 1;
    unlock_time = 20;
    inputs = coinbase 10 ∷ [];
    outputs = coin ∷ [];
    extra = [];
  };
  signatures = [];
}

abbrev payment : Transaction
payment = record {
  prefix = record {
    version = 1;
    unlock_time = 0;
    inputs = key_input 100 (0 ∷ []) 9 ∷ [];
    outputs = coin ∷ [];
    extra = [];
  };
  signatures = (1 ∷ []) ∷ [];
}

abbrev block : Block
block = record {
  previous_block_hash = 0;
  timestamp = 1000;
  base_transaction = base;
  transaction_hashes = 5 ∷ [];
  transactions = payment ∷ [];
}

-- A chain with one output of 100.
abbrev chain : Ledger
chain = record {
  keyimages = [];
  outputs =
      (100, (0, record { unlock_time = 0; public_key = 66; height = 3; spent = false }) ∷ []) ∷ [];
  next_gi = [];
}

abbrev start : DeltaState
start = new_delta 10 1000 (ledger_view chain)

abbrev redone : DeltaState
redone = record start {
  keyimages = (9, 10) ∷ [];
  global_amounts = (100, (20, 77) ∷ (0, 77) ∷ []) ∷ [];
  spent_outputs = (100, 0) ∷ [];
}

block_run : redo_block_delta trusting mainnet block start ≡ done (redone, (1 ∷ []) ∷ (2 ∷ []) ∷ [])
unfolding redo_block_delta redo_transactions redo_transaction redo_inputs redo_outputs check_input
    read_ring Delta.store_keyimage Delta.push_amount_output Delta.spend_output Delta.apply
    Delta.apply_keyimages Delta.apply_amounts Delta.apply_spent Delta.push_all
    Delta.next_global_index_for_amount Ledger.next_global_index_for_amount lookup insert
block_run = refl

redo_block_delta-Distinct_example :
    Distinct (block_images (base ∷ payment ∷ []))
    × ((k : ℕ) → elem k (block_images (base ∷ payment ∷ [])) ≡ true → contains {V = ℕ} k [] ≡ false)
    × ((k : ℕ)
        → contains k redone.keyimages
          ≡ (elem k (block_images (base ∷ payment ∷ [])) || contains {V = ℕ} k []))
redo_block_delta-Distinct_example =
    redo_block_delta-Distinct trusting mainnet block start redone ((1 ∷ []) ∷ (2 ∷ []) ∷ [])
      block_run

abbrev paid : DeltaState
paid = record start {
  keyimages = (9, 10) ∷ [];
  global_amounts = (100, (0, 77) ∷ []) ∷ [];
  spent_outputs = (100, 0) ∷ [];
}

payment_run : redo_transaction trusting mainnet payment start true ≡ done (paid, 1 ∷ [], 3)
unfolding redo_transaction redo_inputs redo_outputs check_input read_ring Delta.store_keyimage
    Delta.push_amount_output Delta.spend_output Delta.apply Delta.apply_keyimages
    Delta.apply_amounts Delta.apply_spent Delta.push_all Delta.next_global_index_for_amount
    Delta.read_keyimage Delta.read_amount_output Ledger.read_keyimage Ledger.read_amount_output
    Ledger.next_global_index_for_amount is_transaction_spend_time_unlocked lookup insert
payment_run = refl

redo_transaction-unspent_example :
    Distinct (key_images payment.inputs)
    × All (λ k. Delta.read_keyimage start k ≡ none) (key_images payment.inputs)
redo_transaction-unspent_example =
    redo_transaction-unspent trusting mainnet payment start paid (1 ∷ []) 3 payment_run

redo_block_delta-DeltaIsValid_example :
    DeltaIsValid redone × (redone.block_height ≡ start.block_height)
redo_block_delta-DeltaIsValid_example =
    redo_block_delta-DeltaIsValid trusting mainnet block start redone ((1 ∷ []) ∷ (2 ∷ []) ∷ [])
      block_run (new_delta-DeltaIsValid 10 1000 (ledger_view chain))
