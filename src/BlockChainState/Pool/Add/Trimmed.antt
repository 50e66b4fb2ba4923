-- ===== src/BlockChainState/Pool/Add/Trimmed.antt =====
-- How `add_transaction` of Core/BlockChainState.cpp cuts the pool to its size.
use cryo_nero.Prelude.{
  ℕ, zero, suc, ◌+◌, ◌<◌, ◌≡◌, refl, ◌∙◌, arith, true, false, some, [], ◌∷◌, ◌==◌, ltb, length,
  Bool-cases, inl, inr,
}
use cryo_nero.Prelude.Maps.{Map, lookup, erase}
use cryo_nero.Prelude.Maps.Order.{RisesFrom}
use cryo_nero.BlockChainState.Pool.{PoolTransaction, Pool, taken, remove_from_pool}
use cryo_nero.BlockChainState.Pool.Valid.{sum_sizes, PoolIsValid}
use cryo_nero.BlockChainState.Pool.Removed.{erase-below, remove_from_pool-taken}
use cryo_nero.BlockChainState.Pool.Add.{max_pool_size, trim}
use cryo_nero.BlockChainState.Pool.Add.Displaced.{Less, Less-refl, Less-trans, taken-Less}

length-erase :
    {V : Type 0} (b k : ℕ) (m : Map V) (v : V)
    → RisesFrom b m
    → lookup k m ≡ some v
    → length (erase k m) + 1 ≡ length m
unfolding erase lookup
length-erase b k [] v h e = cc
length-erase b k ((j, w) ∷ m) v (low, rest) e = elim (Bool-cases (j == k)) [
  | inl f ↦ ground (arith, f, erase-below (j + 1) k m)
  | inr f ↦ ground (arith, f, e, length-erase (j + 1) k m v rest)
]

first_tx :
    (m : Map PoolTransaction)
    → 0 < sum_sizes m
    → (t : ℕ) × (q : PoolTransaction) × (lookup t m ≡ some q)
unfolding lookup
first_tx [] lt = absurd (omega arith)
first_tx ((t, q) ∷ m) lt = (t, q, ground arith)

-- A valid pool that is not empty has a smallest fee, which a transaction pays.
first_fee :
    (pool : Pool) (fees : Map (Map (Unit {0})))
    → PoolIsValid pool
    → 0 < sum_sizes pool.txs
    → pool.fees ≡ fees
    → (fee tid : ℕ) × (others : Map (Unit {0})) × (more : Map (Map (Unit {0})))
      × (q : PoolTransaction) × (fees ≡ (fee, (tid, tt) ∷ others) ∷ more)
      × (lookup tid pool.txs ≡ some q)
unfolding lookup
first_fee pool [] v lt e =
    let (t, q, there) = first_tx pool.txs lt in absurd (ground (arith, e, v.fees t q there))
first_fee pool ((fee, []) ∷ more) v lt e = absurd (cc (v.used fee (ground (arith, e))))
first_fee pool ((fee, (tid, u) ∷ others) ∷ more) v lt e =
    let (q, there, pays) = v.payers tid fee (ground (arith, e)) in
    (fee, tid, others, more, q, refl, there)

module _ (fuel : ℕ) (pool : Pool) (fee tid : ℕ) (others : Map (Unit {0}))
    (more : Map (Map (Unit {0}))) (q : PoolTransaction)
    (big : ltb max_pool_size pool.total_size ≡ true)
    (e : pool.fees ≡ (fee, (tid, tt) ∷ others) ∷ more) (there : lookup tid pool.txs ≡ some q) where
  trim-stops :
      ltb pool.total_size (max_pool_size + length q.binary_tx) ≡ true
      → trim (suc fuel) pool ≡ some pool
  unfolding trim
  trim-stops f = ground (arith, big, e, there, f)

  trim-goes :
      (pool' : Pool)
      → ltb pool.total_size (max_pool_size + length q.binary_tx) ≡ false
      → remove_from_pool tid pool ≡ some pool'
      → trim (suc fuel) pool ≡ trim fuel pool'
  unfolding trim
  trim-goes pool' f g = ground (arith, big, e, there, f, g)

pub trim-Less :
    (fuel : ℕ) (pool : Pool)
    → length pool.txs < fuel
    → PoolIsValid pool
    → (pool' : Pool) × (trim fuel pool ≡ some pool') × Less pool pool'
unfolding trim
trim-Less zero pool lt v = absurd (omega arith)
trim-Less (suc fuel) pool lt v = elim (Bool-cases (ltb max_pool_size pool.total_size)) [
  | inl big ↦
      let some_tx : 0 < sum_sizes pool.txs = ground (arith, big, v.size) in
      let (fee, tid, others, more, q, e, there) = first_fee pool pool.fees v some_tx refl in
      elim (Bool-cases (ltb pool.total_size (max_pool_size + length q.binary_tx))) [
        | inl f ↦ (pool, trim-stops fuel pool fee tid others more q big e there f, Less-refl pool v)
        | inr f ↦
            let removed = remove_from_pool-taken tid q pool v there in
            let first = taken-Less tid q pool v there in
            let (pool', rest, less) =
              trim-Less fuel (taken tid q pool)
                (omega (arith, lt, length-erase 0 tid pool.txs q v.order there)) first.valid in
            (
              pool',
              trim-goes fuel pool fee tid others more q big e there (taken tid q pool) f removed
                  ∙ rest,
              Less-trans pool (taken tid q pool) pool' first less,
            )
      ]
  | inr small ↦ (pool, ground (arith, small), Less-refl pool v)
]
