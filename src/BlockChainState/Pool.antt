-- ===== src/BlockChainState/Pool.antt =====
-- The pool of Core/BlockChainState.cpp: the transactions that wait for a block.
pub mod Valid
pub mod Removed
pub mod Added
pub mod Add
use cryo_nero.Prelude.{
  ℕ, ◌+◌, ◌-◌, ◌/◌, ◌%◌, ◌^◌, Bool, true, false, ◌&&◌, not, Option, none, some, List, [], ◌∷◌,
  if◌then◌else◌, length,
}
use cryo_nero.Prelude.Maps.{Map, lookup, insert, erase, contains}
use cryo_nero.CryptoNote.{TransactionInput, coinbase, key_input, Transaction}

pub record PoolTransaction : Type 0 where
  pub tx : Transaction
  -- The bytes.
  pub binary_tx : List ℕ
  pub fee : ℕ
  pub timestamp : ℕ

-- There is no transaction without bytes.
abbrev pub fee_per_byte : PoolTransaction → ℕ
fee_per_byte p = p.fee / length p.binary_tx

-- The members `m_memory_state_*`: the transactions by their hash, the transaction that spends a key
-- image, and the hashes by fee per byte. `m_tx_pool_version`, a counter that clients poll, is left
-- out.
pub record Pool : Type 0 where
  pub txs : Map PoolTransaction
  pub images : Map ℕ
  pub fees : Map (Map (Unit {0}))
  pub total_size : ℕ

-- `m_memory_state_fee_tx[fee]`
abbrev pub hashes_at : ℕ → Map (Map (Unit {0})) → Map (Unit {0})
hashes_at fee fees = elim (lookup fee fees) [ none ↦ [] | some hashes ↦ hashes ]

-- The smallest fee, with the smallest hash that has it; hash 0 if the pool is empty. `none` is the
-- `invariant`.
pub minimum_pool_fee_per_byte : Pool → Option (ℕ × ℕ)
minimum_pool_fee_per_byte pool = elim pool.fees [
  | [] ↦ some (0, 0)
  | (fee, hashes) ∷ fees ↦ elim hashes [ [] ↦ none | (tid, u) ∷ others ↦ some (fee, tid) ]
]

-- Whether each image was there, and the images left.
pub erase_images : List TransactionInput → Map ℕ → Bool × Map ℕ
erase_images [] images = (true, images)
erase_images (coinbase height ∷ inputs) images = erase_images inputs images
erase_images (key_input amount indexes image ∷ inputs) images =
    let (all, left) = erase_images inputs (erase image images) in
    (contains image images && all, left)

-- A fee whose hashes have run out is erased.
abbrev pub put_hashes : ℕ → Map (Unit {0}) → Map (Map (Unit {0})) → Map (Map (Unit {0}))
put_hashes fee [] fees = erase fee fees
put_hashes fee (first ∷ others) fees = insert fee (first ∷ others) fees

-- `m_memory_state_fee_tx[fee].erase(tid)`
abbrev pub erase_fee : ℕ → ℕ → Map (Map (Unit {0})) → Map (Map (Unit {0}))
erase_fee fee tid fees = put_hashes fee (erase tid (hashes_at fee fees)) fees

-- The pool without a transaction that it holds.
abbrev pub taken : ℕ → PoolTransaction → Pool → Pool
taken tid p pool = record {
  txs = erase tid pool.txs;
  images = (erase_images p.tx.inputs pool.images).1;
  fees = erase_fee (fee_per_byte p) tid pool.fees;
  total_size = (pool.total_size + 2 ^ 64 - length p.binary_tx) % 2 ^ 64;
}

-- `none` is the `invariant` at the end.
pub remove_from_pool : ℕ → Pool → Option Pool
remove_from_pool tid pool = elim (lookup tid pool.txs) [
  | none ↦ some pool
  | some p ↦
      if (erase_images p.tx.inputs pool.images).0
        && contains tid (hashes_at (fee_per_byte p) pool.fees)
      then some (taken tid p pool)
      else none
]

-- `insert` on a map does not overwrite. Whether each image was new, and the images then.
pub insert_images : Map ℕ → ℕ → Map ℕ → Bool × Map ℕ
unfolding contains
insert_images [] tid images = (true, images)
insert_images ((image, height) ∷ spent) tid images =
    let (all, more) =
      insert_images spent tid (if contains image images then images else insert image tid images) in
    (not (contains image images) && all, more)

-- The pool with a transaction that spends these images.
abbrev pub put : ℕ → PoolTransaction → Map ℕ → Pool → Pool
put tid p spent pool = record {
  txs = insert tid p pool.txs;
  images = (insert_images spent tid pool.images).1;
  fees = insert (fee_per_byte p) (insert tid tt (hashes_at (fee_per_byte p) pool.fees)) pool.fees;
  total_size = (pool.total_size + length p.binary_tx) % 2 ^ 64;
}

-- `none` is the `invariant` behind the insertions.
pub put_in : ℕ → PoolTransaction → Map ℕ → Pool → Option Pool
unfolding insert_images
put_in tid p spent pool =
    if (insert_images spent tid pool.images).0
      && not (contains tid pool.txs)
      && not (contains tid (hashes_at (fee_per_byte p) pool.fees))
    then some (put tid p spent pool)
    else none
