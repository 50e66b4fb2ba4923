-- ===== src/BlockChainState/RingChecker/Runs.antt =====
-- A run of Core/RingCheckerMulticore.cpp, and its theorem at a concrete input.
use cryo_nero.Prelude.{◌≡◌, refl, false, List, [], ◌∷◌}
use cryo_nero.Prelude.Results.{ok}
use cryo_nero.Prelude.Maps.{lookup}
use cryo_nero.CryptoNote.{coinbase, key_input, TransactionOutput, Transaction, Block}
use cryo_nero.Currency.{Currency, new_currency, is_transaction_spend_time_unlocked}
use cryo_nero.BlockChainState.Ledger
use cryo_nero.BlockChainState.Ledger.{Ledger, ledger_view}
use cryo_nero.BlockChainState.Redo.{RingCrypto, valid}
use cryo_nero.BlockChainState.Redo.DoubleSpend.{block_images}
use cryo_nero.BlockChainState.RingChecker.{
  RingSignatureArg, output_keys, start_inputs, start_transactions, start_work,
}
use cryo_nero.BlockChainState.RingChecker.Coverage.{Unspent, images_of, start_work-covers}

-- Cryptography that accepts each ring.
abbrev trusting : RingCrypto
trusting = record {
  prefix_hash = λ tx. 0;
  check_ring_signature = λ hash image keys signatures. valid;
}

abbrev mainnet : Currency
mainnet = new_currency false

abbrev coin : TransactionOutput
coin = record { amount = 100; key = 77 }

abbrev base : Transaction
base = record {
  prefix = record {
    version = 1;
    unlock_time = 20;
    inputs = coinbase 10 ∷ [];
    outputs = coin ∷ [];
    extra = [];
  };
  signatures = [];
}

abbrev payment : Transaction
payment = record {
  prefix = record {
    version = 1;
    unlock_time = 0;
    inputs = key_input 100 (0 ∷ []) 9 ∷ [];
    outputs = coin ∷ [];
    extra = [];
  };
  signatures = (1 ∷ []) ∷ [];
}

abbrev block : Block
block = record {
  previous_block_hash = 0;
  timestamp = 1000;
  base_transaction = base;
  transaction_hashes = 5 ∷ [];
  transactions = payment ∷ [];
}

-- A chain with one output of 100.
abbrev chain : Ledger
chain = record {
  keyimages = [];
  outputs =
      (100, (0, record { unlock_time = 0; public_key = 66; height = 3; spent = false }) ∷ []) ∷ [];
  next_gi = [];
}

abbrev args : List RingSignatureArg
args = record { tx_prefix_hash = 0; key_image = 9; output_keys = 66 ∷ []; signatures = 1 ∷ [] } ∷ []

work_run : start_work trusting mainnet (ledger_view chain) block 10 1000 ≡ ok args
unfolding start_work start_transactions start_inputs output_keys Ledger.read_keyimage
    Ledger.read_amount_output is_transaction_spend_time_unlocked lookup
work_run = refl

start_work-covers_example :
    (images_of args ≡ block_images (payment ∷ []))
    × Unspent (ledger_view chain) (block_images (payment ∷ []))
start_work-covers_example =
    start_work-covers trusting mainnet (ledger_view chain) block 10 1000 args work_run
