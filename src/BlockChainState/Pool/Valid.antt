-- ===== src/BlockChainState/Pool/Valid.antt =====
-- The invariant of the pool of Core/BlockChainState.cpp: its tables show the same transactions.
use cryo_nero.Prelude.{ℕ, ◌+◌, ◌<◌, ◌^◌, ◌≡◌, true, false, some, [], ◌∷◌, length}
use cryo_nero.Prelude.Maps.{Map, lookup}
use cryo_nero.Prelude.Maps.Order.{RisesFrom}
use cryo_nero.CryptoNote.{key_images}
use cryo_nero.BlockChainState.Redo.DoubleSpend.{elem, Distinct}
use cryo_nero.BlockChainState.Pool.{PoolTransaction, fee_per_byte, Pool, hashes_at}

abbrev pub sum_sizes : Map PoolTransaction → ℕ
sum_sizes [] = 0
sum_sizes ((tid, p) ∷ txs) = length p.binary_tx + sum_sizes txs

pub record PoolIsValid (pool : Pool) : Type 0 where
  pub order : RisesFrom 0 pool.txs
  pub size : pool.total_size ≡ sum_sizes pool.txs
  pub fits : sum_sizes pool.txs < 2 ^ 64
  pub distinct :
      (tid : ℕ) (p : PoolTransaction)
      → lookup tid pool.txs ≡ some p
      → Distinct (key_images p.tx.inputs)
  -- The images are those of the transactions, and no two transactions share one.
  pub images :
      (tid : ℕ) (p : PoolTransaction) (k : ℕ)
      → lookup tid pool.txs ≡ some p
      → elem k (key_images p.tx.inputs) ≡ true
      → lookup k pool.images ≡ some tid
  pub spenders :
      (k tid : ℕ)
      → lookup k pool.images ≡ some tid
      → (p : PoolTransaction) × (lookup tid pool.txs ≡ some p)
        × (elem k (key_images p.tx.inputs) ≡ true)
  -- The hashes at a fee are those of the transactions that pay it.
  pub fees :
      (tid : ℕ) (p : PoolTransaction)
      → lookup tid pool.txs ≡ some p
      → lookup tid (hashes_at (fee_per_byte p) pool.fees) ≡ some tt
  pub payers :
      (tid fee : ℕ)
      → lookup tid (hashes_at fee pool.fees) ≡ some tt
      → (p : PoolTransaction) × (lookup tid pool.txs ≡ some p) × (fee_per_byte p ≡ fee)
  -- No fee is kept without a hash.
  pub used : (fee : ℕ) → lookup fee pool.fees ≡ some [] → false ≡ true
