-- ===== src/BlockChainState/Pool/Add/Displaced.antt =====
-- The transactions that `add_transaction` of Core/BlockChainState.cpp displaces from the pool.
use cryo_nero.Prelude.{
  ℕ, ◌≤◌, ◌≡◌, refl, sym, ap, ◌∙◌, arith, Bool, true, false, none, some, [], ◌∷◌, ◌==◌, Bool-cases,
  Option-cases, inl, inr, ==_iff,
}
use cryo_nero.Prelude.Maps.{Map, lookup, contains, lookup-erase}
use cryo_nero.BlockChainState.Pool.{PoolTransaction, fee_per_byte, Pool, taken}
use cryo_nero.BlockChainState.Pool.Valid.{sum_sizes, PoolIsValid}
use cryo_nero.BlockChainState.Pool.Removed.{
  sum_sizes-erase, lookup-erase_images, taken-IsValid, remove_from_pool-taken,
}
use cryo_nero.BlockChainState.Pool.Add.{loses, displace}

-- A valid pool with fewer transactions.
pub record Less (pool pool' : Pool) : Type 0 where
  pub valid : PoolIsValid pool'
  pub sizes : sum_sizes pool'.txs ≤ sum_sizes pool.txs
  pub txs : (t : ℕ) → lookup t pool.txs ≡ none → lookup t pool'.txs ≡ none
  pub images : (k : ℕ) → lookup k pool.images ≡ none → lookup k pool'.images ≡ none

pub Less-refl : (pool : Pool) → PoolIsValid pool → Less pool pool
Less-refl pool v = record { valid = v; sizes = omega arith; txs = λ t e. e; images = λ k e. e }

pub Less-trans : (p q r : Pool) → Less p q → Less q r → Less p r
Less-trans p q r f g = record {
  valid = g.valid;
  sizes = omega (arith, f.sizes, g.sizes);
  txs = λ t e. g.txs t (f.txs t e);
  images = λ k e. g.images k (f.images k e);
}

pub taken-Less :
    (tid : ℕ) (p : PoolTransaction) (pool : Pool)
    → PoolIsValid pool
    → lookup tid pool.txs ≡ some p
    → Less pool (taken tid p pool)
taken-Less tid p pool v n = record {
  valid = taken-IsValid tid p pool v n;
  sizes = omega (arith, sum_sizes-erase 0 tid pool.txs p v.order n);
  txs = λ t e. ground (arith, lookup-erase tid t pool.txs, e);
  images = λ k e. ground (arith, lookup-erase_images p.tx.inputs pool.images k, e);
}

pub displace-Less :
    (spent : Map ℕ) (my_fee tid : ℕ) (pool : Pool)
    → PoolIsValid pool
    → (b : Bool) × (pool' : Pool) × (displace spent my_fee tid pool ≡ some (b, pool'))
      × Less pool pool'
      × (b ≡ true → (k : ℕ) → contains k spent ≡ true → lookup k pool'.images ≡ none)
unfolding displace contains lookup
displace-Less [] my_fee tid pool v = (true, pool, refl, Less-refl pool v, λ e k h. absurd cc)
displace-Less ((image, height) ∷ spent) my_fee tid pool v =
    elim (Option-cases (lookup image pool.images)) [
      | inl n ↦
          let (b, pool', run, less, free) = displace-Less spent my_fee tid pool v in
          (
            b,
            pool',
            ground (arith, n, run),
            less,
            λ e k h. elim (Bool-cases (image == k)) [
              | inl f ↦
                  less.images k
                    (sym (ap (λ (c : ℕ). lookup c pool.images) ((==_iff image k).0 f)) ∙ n)
              | inr f ↦ free e k (ground (arith, f, h))
            ],
          )
      | inr (other, n) ↦
          let (q, there, has) = v.spenders image other n in
          elim (Bool-cases (loses my_fee tid (fee_per_byte q) other)) [
            | inl f ↦ (false, pool, ground (arith, n, there, f), Less-refl pool v, λ e. absurd cc)
            | inr f ↦
                let removed = remove_from_pool-taken other q pool v there in
                let first = taken-Less other q pool v there in
                let gone : lookup image (taken other q pool).images ≡ none =
                  ground (arith, lookup-erase_images q.tx.inputs pool.images image, has) in
                let (b, pool', run, less, free) =
                  displace-Less spent my_fee tid (taken other q pool) first.valid in
                (
                  b,
                  pool',
                  rw (displace, n, there, f, removed) run,
                  Less-trans pool (taken other q pool) pool' first less,
                  λ e k h. elim (Bool-cases (image == k)) [
                    | inl g ↦ less.images k (
                        sym (
                          ap (λ (c : ℕ). lookup c (taken other q pool).images)
                            ((==_iff image k).0 g))
                        ∙ gone)
                    | inr g ↦ free e k (ground (arith, g, h))
                  ],
                )
          ]
    ]
