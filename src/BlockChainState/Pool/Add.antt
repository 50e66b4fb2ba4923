-- ===== src/BlockChainState/Pool/Add.antt =====
-- `add_transaction` of Core/BlockChainState.cpp: a transaction that arrives is checked, displaces
-- those that it conflicts with and pay less, and waits in the pool, which is then cut to its size.
pub mod Displaced
pub mod Trimmed
pub mod Valid
mod Runs
use cryo_nero.Prelude.{
  ℕ, zero, suc, ◌+◌, ◌/◌, Bool, true, false, ◌&&◌, ◌||◌, not, Option, none, some, List, [], ◌∷◌,
  ◌==◌, ltb, leb, if◌then◌else◌, length,
}
use cryo_nero.Prelude.Results.{Result, ok, err}
use cryo_nero.Prelude.Maps.{Map, lookup, contains}
use cryo_nero.CryptoNote.{TransactionInput, coinbase, key_input, Transaction}
use cryo_nero.Currency.{Currency}
use cryo_nero.BlockChainState.Errors.{TxError}
use cryo_nero.BlockChainState.Validation.{validate_semantic, get_tx_fee_or_zero}
use cryo_nero.BlockChainState.Delta.{DeltaState, new_delta}
use cryo_nero.BlockChainState.Ledger.{Ledger, ledger_view, read_keyimage}
use cryo_nero.BlockChainState.Redo.{RingCrypto, Redo, done, refused, violated, redo_transaction}
use cryo_nero.BlockChainState.Pool.{
  PoolTransaction, fee_per_byte, Pool, minimum_pool_fee_per_byte, put_in, remove_from_pool,
}

abbrev pub max_pool_size : ℕ
max_pool_size = 2000000

pub data AddTransactionResult : Type 0 where
  ban : AddTransactionResult
  broadcast_all : AddTransactionResult
  already_in_pool : AddTransactionResult
  increase_fee : AddTransactionResult
  failed_to_redo : AddTransactionResult
  output_already_spent : AddTransactionResult

-- The fee and hash are below those of another transaction.
pub loses : ℕ → ℕ → ℕ → ℕ → Bool
loses my_fee tid other_fee other = ltb my_fee other_fee || (my_fee == other_fee && ltb tid other)

-- The loop stops at the first image that is in the pool: whether the transaction may displace it.
-- `none`: `at` throws.
pub may_displace : List TransactionInput → ℕ → ℕ → Pool → Option Bool
may_displace [] my_fee tid pool = some true
may_displace (coinbase height ∷ inputs) my_fee tid pool = may_displace inputs my_fee tid pool
may_displace (key_input amount indexes image ∷ inputs) my_fee tid pool =
    elim (lookup image pool.images) [
      | none ↦ may_displace inputs my_fee tid pool
      | some other ↦ elim (lookup other pool.txs) [
        | none ↦ none
        | some q ↦ some (not (loses my_fee tid (fee_per_byte q) other))
      ]
    ]

-- Where one of the images was spent on the chain.
pub spent_on_chain : List TransactionInput → Ledger → Option ℕ
spent_on_chain [] ledger = none
spent_on_chain (coinbase height ∷ inputs) ledger = spent_on_chain inputs ledger
spent_on_chain (key_input amount indexes image ∷ inputs) ledger =
    elim (read_keyimage ledger image) [
      | none ↦ spent_on_chain inputs ledger
      | some height ↦ some height
    ]

-- The loop over the images that the transaction spends. False is the answer INCREASE_FEE.
pub displace : Map ℕ → ℕ → ℕ → Pool → Option (Bool × Pool)
displace [] my_fee tid pool = some (true, pool)
displace ((image, height) ∷ spent) my_fee tid pool = elim (lookup image pool.images) [
  | none ↦ displace spent my_fee tid pool
  | some other ↦ elim (lookup other pool.txs) [
    | none ↦ none
    | some q ↦ elim (loses my_fee tid (fee_per_byte q) other) [
      | true ↦ some (false, pool)
      | false ↦ elim (remove_from_pool other pool) [
        | none ↦ none
        | some pool' ↦ displace spent my_fee tid pool'
      ]
    ]
  ]
]

-- The loop that cuts the pool. `none` is an `invariant`, a throw of `at`, or the fuel.
pub trim : ℕ → Pool → Option Pool
trim zero pool = none
trim (suc fuel) pool = elim (ltb max_pool_size pool.total_size) [
  | false ↦ some pool
  | true ↦ elim pool.fees [
    | [] ↦ none
    | (fee, hashes) ∷ fees ↦ elim hashes [
      | [] ↦ none
      | (tid, u) ∷ others ↦ elim (lookup tid pool.txs) [
        | none ↦ none
        | some q ↦ elim (ltb pool.total_size (max_pool_size + length q.binary_tx)) [
          | true ↦ some pool
          | false ↦ elim (remove_from_pool tid pool) [ none ↦ none | some pool' ↦ trim fuel pool' ]
        ]
      ]
    ]
  ]
]

module _ (crypto : RingCrypto) (currency : Currency) (key_isvalid : ℕ → Bool) where
  -- The checked transaction takes the place of those that it displaces.
  pub take_place : ℕ → PoolTransaction → Map ℕ → Pool → Option (AddTransactionResult × Pool)
  unfolding displace trim
  take_place tid p spent pool = elim (displace spent (fee_per_byte p) tid pool) [
    | none ↦ none
    | some (able, pool') ↦ elim able [
      | false ↦ some (increase_fee, pool')
      | true ↦ elim (put_in tid p spent pool') [
        | none ↦ none
        | some larger ↦ elim (trim (length larger.txs + 1) larger) [
          | none ↦ none
          | some cut ↦ some (broadcast_all, cut)
        ]
      ]
    ]
  ]

  -- The checks on the chain, and on the transaction itself.
  pub check_and_place :
      ℕ → PoolTransaction → ℕ → ℕ → Bool → Ledger → Pool → Option (AddTransactionResult × Pool)
  unfolding take_place
  check_and_place tid p height timestamp check_sigs ledger pool =
      elim (spent_on_chain p.tx.inputs ledger) [
        | some conflict ↦ some (output_already_spent, pool)
        | none ↦ elim (validate_semantic key_isvalid false p.tx check_sigs) [
          | err e ↦ some (ban, pool)
          | ok fee ↦
              elim (redo_transaction crypto currency p.tx
                (new_delta height timestamp (ledger_view ledger)) check_sigs) [
                  | violated ↦ none
                  | refused e conflict ↦ some (failed_to_redo, pool)
                  | done (d, indices, conflict) ↦ take_place tid p d.keyimages pool
                ]
        ]
      ]

  -- Hash, transaction, its bytes, unlock height and unlock timestamp. `none` is an exception.
  -- The out parameter with the height of a conflict and the log are left out.
  pub add_transaction :
      ℕ → Transaction → List ℕ → ℕ → ℕ → Bool → Ledger → Pool → Option (AddTransactionResult × Pool)
  unfolding check_and_place loses minimum_pool_fee_per_byte may_displace
  add_transaction tid tx binary_tx height timestamp check_sigs ledger pool =
      let p : PoolTransaction = record {
        tx = tx;
        binary_tx = binary_tx;
        fee = get_tx_fee_or_zero tx.prefix;
        timestamp = 0;
      } in
      elim (contains tid pool.txs) [
        | true ↦ some (already_in_pool, pool)
        | false ↦ elim (minimum_pool_fee_per_byte pool) [
          | none ↦ none
          | some (minimal_fee, minimal_tid) ↦
              elim (leb max_pool_size pool.total_size
                && loses (fee_per_byte p) tid minimal_fee minimal_tid) [
                  | true ↦ some (increase_fee, pool)
                  | false ↦ elim (may_displace tx.inputs (fee_per_byte p) tid pool) [
                    | none ↦ none
                    | some able ↦ elim able [
                      | false ↦ some (increase_fee, pool)
                      | true ↦ check_and_place tid p height timestamp check_sigs ledger pool
                    ]
                  ]
                ]
        ]
      ]
