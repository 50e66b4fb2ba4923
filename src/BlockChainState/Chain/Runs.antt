-- ===== src/BlockChainState/Chain/Runs.antt =====
-- Runs of `redo_block` of Core/BlockChainState.cpp, and its theorem at a concrete input.
use cryo_nero.Prelude.{
  ◌+◌, ◌%◌, ◌^◌, ◌≡◌, refl, true, false, some, List, [], ◌∷◌, ℕ, zero, suc, none, ◌==◌,
  if◌then◌else◌, get_elem?, arith,
}
use cryo_nero.BlockChainState.Ledger.Refinement.{unspent}
use cryo_nero.BlockChainState.Effects.{AbstractState, block_effects, happen_all, AllLegal, Holds}
use cryo_nero.BlockChainState.Undo.{undo_block}
use cryo_nero.BlockChainState.Chain.Undone.{undo_block-redo_block}
use cryo_nero.Prelude.Results.{ok}
use cryo_nero.Prelude.Maps.{lookup, insert}
use cryo_nero.CryptoNote.{coinbase, key_input, TransactionOutput, Transaction, Block}
use cryo_nero.Currency.{Currency, new_currency, is_transaction_spend_time_unlocked}
use cryo_nero.BlockChainState.Delta
use cryo_nero.BlockChainState.Ledger
use cryo_nero.BlockChainState.Ledger.{Ledger, table, ledger_view}
use cryo_nero.BlockChainState.Redo.{
  RingCrypto, valid, done, redo_inputs, redo_outputs, redo_transaction, redo_transactions,
  redo_block_delta,
}
use cryo_nero.BlockChainState.Redo.DoubleSpend.{Distinct, block_images}
use cryo_nero.BlockChainState.RingChecker.{
  RingSignatureArg, output_keys, start_inputs, start_transactions, start_work, signatures_valid,
}
use cryo_nero.BlockChainState.RingChecker.Coverage.{Unspent, images_of}
use cryo_nero.BlockChainState.Chain.{ChainState, is_in_sw_checkpoint_zone, checked_args, redo_block}
use cryo_nero.BlockChainState.Chain.Accepted.{redo_block-accepted}

-- Cryptography that accepts each ring.
abbrev trusting : RingCrypto
trusting = record {
  prefix_hash = λ tx. 0;
  check_ring_signature = λ hash image keys signatures. valid;
}

abbrev mainnet : Currency
mainnet = new_currency false

abbrev coin : TransactionOutput
coin = record { amount = 100; key = 77 }

abbrev base : Transaction
base = record {
  prefix = record {
    version = 1;
    unlock_time = 20;
    inputs = coinbase 10 ∷ [];
    outputs = coin ∷ [];
    extra = [];
  };
  signatures = [];
}

abbrev payment : Transaction
payment = record {
  prefix = record {
    version = 1;
    unlock_time = 0;
    inputs = key_input 100 (0 ∷ []) 9 ∷ [];
    outputs = coin ∷ [];
    extra = [];
  };
  signatures = (1 ∷ []) ∷ [];
}

abbrev block : Block
block = record {
  previous_block_hash = 0;
  timestamp = 1000;
  base_transaction = base;
  transaction_hashes = 5 ∷ [];
  transactions = payment ∷ [];
}

-- A chain with one output of 100.
abbrev chain : Ledger
chain = record {
  keyimages = [];
  outputs =
      (100, (0, record { unlock_time = 0; public_key = 66; height = 3; spent = false }) ∷ []) ∷ [];
  next_gi = [];
}

abbrev before : ChainState
before = record { ledger = chain; block_indices = [] }

abbrev after : ChainState
after = record {
  ledger = record {
    keyimages = (9, 10) ∷ [];
    outputs =
        (
          100,
          (0, record { unlock_time = 0; public_key = 66; height = 3; spent = true })
              ∷ (1, record { unlock_time = 20; public_key = 77; height = 10; spent = false })
              ∷ (2, record { unlock_time = 0; public_key = 77; height = 10; spent = false })
              ∷ [],
        )
        ∷ [];
    next_gi = (100, 3) ∷ [];
  };
  block_indices = (99, (1 ∷ []) ∷ (2 ∷ []) ∷ []) ∷ [];
}

-- The last checkpoint is at height 5.
outside : is_in_sw_checkpoint_zone trusting mainnet (5 ∷ []) ((10 + 1) % 2 ^ 32) ≡ some false
unfolding is_in_sw_checkpoint_zone
outside = refl

block_run : redo_block trusting mainnet (5 ∷ []) 99 block 10 1000 before ≡ done after
unfolding redo_block is_in_sw_checkpoint_zone checked_args start_work start_transactions
    start_inputs output_keys signatures_valid redo_block_delta redo_transactions redo_transaction
    redo_inputs redo_outputs Delta.store_keyimage Delta.push_amount_output Delta.spend_output
    Delta.apply Delta.apply_keyimages Delta.apply_amounts Delta.apply_spent Delta.push_all
    Delta.next_global_index_for_amount Ledger.read_keyimage Ledger.read_amount_output
    Ledger.next_global_index_for_amount Ledger.store_keyimage Ledger.push_amount_output
    Ledger.spend_output Ledger.mark_output is_transaction_spend_time_unlocked lookup insert
block_run = refl

redo_block-accepted_example :
    Distinct (block_images (base ∷ payment ∷ []))
    × Unspent (ledger_view chain) (block_images (payment ∷ []))
    × (args : List RingSignatureArg) × (start_work trusting mainnet
          (ledger_view chain)
          block
          10
          1000
        ≡ ok args)
    × (images_of args ≡ block_images (payment ∷ []))
    × (signatures_valid trusting mainnet args ≡ true)
redo_block-accepted_example =
    redo_block-accepted trusting mainnet (5 ∷ []) 99 block 10 1000 before after outside block_run

-- The chain above as an abstract state: one unspent output of 100, and no spent image.
abbrev one_output : AbstractState
one_output = record {
  stacks = λ a. if 100 == a then unspent 0 3 66 ∷ [] else [];
  images = λ k. none;
}

chain-Holds : Holds chain one_output
unfolding lookup Ledger.read_keyimage
chain-Holds = record {
  stacks = record {
    entries = λ a i. entry a i;
    cached = λ a n e. absurd cc;
    fits = λ a. ground arith;
  };
  images = λ k. refl;
}
  where
    entry : (a i : ℕ) → lookup i (table chain a) ≡ get_elem? (one_output.stacks a) i
    entry a zero = ground arith
    entry a (suc i) = ground arith

block-AllLegal : AllLegal 10 (block_effects block) one_output
block-AllLegal = (omega arith, ((refl, λ e. (unspent 0 3 66, refl, refl)), (omega arith, tt)))

undo_block-redo_block_example :
    Holds after.ledger (happen_all 10 (block_effects block) one_output)
    × (s : ChainState) × (undo_block 99 block after ≡ some s)
    × Holds s.ledger one_output
    × ((b : ℕ) → lookup b s.block_indices ≡ lookup b before.block_indices)
undo_block-redo_block_example =
    undo_block-redo_block trusting mainnet (5 ∷ []) 99 block 10 1000 before after one_output
      block_run chain-Holds block-AllLegal
