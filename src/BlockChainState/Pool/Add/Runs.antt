-- ===== src/BlockChainState/Pool/Add/Runs.antt =====
-- A run of `add_transaction` of Core/BlockChainState.cpp, and its theorem at a concrete input.
use cryo_nero.Prelude.{◌≡◌, refl, some, [], ◌∷◌, true, false}
use cryo_nero.Prelude.Maps.{insert, erase, contains, lookup}
use cryo_nero.Currency.{Currency, new_currency}
use cryo_nero.BlockChainState.Delta
use cryo_nero.BlockChainState.Ledger
use cryo_nero.BlockChainState.Ledger.{Ledger}
use cryo_nero.BlockChainState.Redo.{RingCrypto, valid}
use cryo_nero.BlockChainState.Pool.{
  put_in, insert_images, erase_images, PoolTransaction, Pool, remove_from_pool,
}
use cryo_nero.BlockChainState.Pool.Add.{broadcast_all, loses, displace, trim, take_place}
use cryo_nero.CryptoNote.{key_input, Transaction}

abbrev payment : Transaction
payment = record {
  prefix = record {
    version = 1;
    unlock_time = 0;
    inputs = key_input 100 (0 ∷ []) 9 ∷ [];
    outputs = record { amount = 90; key = 77 } ∷ [];
    extra = [];
  };
  signatures = (1 ∷ []) ∷ [];
}

-- It pays 10 for 2 bytes.
abbrev waiting : PoolTransaction
waiting = record { tx = payment; binary_tx = 1 ∷ 2 ∷ []; fee = 10; timestamp = 0 }

abbrev one_waits : Pool
one_waits = record {
  txs = (7, waiting) ∷ [];
  images = (9, 7) ∷ [];
  fees = (5, (7, tt) ∷ []) ∷ [];
  total_size = 2;
}

-- Cryptography that accepts each ring.
abbrev trusting : RingCrypto
trusting = record {
  prefix_hash = λ tx. 0;
  check_ring_signature = λ hash image keys signatures. valid;
}

abbrev mainnet : Currency
mainnet = new_currency false

-- A chain with one output of 100.
abbrev chain : Ledger
chain = record {
  keyimages = [];
  outputs =
      (100, (0, record { unlock_time = 0; public_key = 66; height = 3; spent = false }) ∷ []) ∷ [];
  next_gi = [];
}

-- The same payment in one byte pays 10 for it, and displaces the one that waits.
abbrev cheaper : PoolTransaction
cheaper = record { tx = payment; binary_tx = 1 ∷ []; fee = 10; timestamp = 0 }

displaced :
    take_place trusting mainnet (λ key. true) 8 cheaper ((9, 10) ∷ []) one_waits
    ≡ some (
      broadcast_all,
      record {
        txs = (8, cheaper) ∷ [];
        images = (9, 8) ∷ [];
        fees = (10, (8, tt) ∷ []) ∷ [];
        total_size = 1;
      },
    )
unfolding take_place displace trim loses put_in insert_images remove_from_pool erase_images contains
    erase lookup insert
displaced = refl
