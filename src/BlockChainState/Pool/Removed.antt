-- ===== src/BlockChainState/Pool/Removed.antt =====
-- `remove_from_pool` of Core/BlockChainState.cpp keeps the invariant of the pool.
use cryo_nero.Prelude.{
  ℕ, ◌+◌, ◌<◌, ◌≡◌, refl, sym, ap, ◌∙◌, arith, true, false, ◌&&◌, none, some, List, [], ◌∷◌, ◌==◌,
  if◌then◌else◌, length, Bool-cases, inl, inr, ==_iff,
}
use cryo_nero.Prelude.Maps.{Map, lookup, erase, contains, lookup-erase, lookup-insert}
use cryo_nero.Prelude.Maps.Order.{RisesFrom, RisesFrom-weaken}
use cryo_nero.CryptoNote.{TransactionInput, coinbase, key_input, key_images}
use cryo_nero.BlockChainState.Redo.DoubleSpend.{elem, Distinct}
use cryo_nero.BlockChainState.Pool.{
  PoolTransaction, fee_per_byte, Pool, hashes_at, erase_images, put_hashes, erase_fee, taken,
  remove_from_pool,
}
use cryo_nero.BlockChainState.Pool.Valid.{sum_sizes, PoolIsValid}

erase-RisesFrom : {V : Type 0} (b k : ℕ) (m : Map V) → RisesFrom b m → RisesFrom b (erase k m)
unfolding erase
erase-RisesFrom b k [] h = tt
erase-RisesFrom b k ((j, v) ∷ m) (low, rest) = elim (Bool-cases (j == k)) [
  | inl e ↦ ground (
    arith,
    e,
    RisesFrom-weaken (j + 1) b (erase k m) (omega arith) (erase-RisesFrom (j + 1) k m rest),
  )
  | inr e ↦ ground (arith, e, erase-RisesFrom (j + 1) k m rest)
]

pub erase-below : {V : Type 0} (b k : ℕ) (m : Map V) → k < b → RisesFrom b m → erase k m ≡ m
unfolding erase
erase-below b k [] lt h = refl
erase-below b k ((j, v) ∷ m) lt (low, rest) = ground (arith, erase-below (j + 1) k m)

pub sum_sizes-erase :
    (b k : ℕ) (m : Map PoolTransaction) (p : PoolTransaction)
    → RisesFrom b m
    → lookup k m ≡ some p
    → sum_sizes (erase k m) + length p.binary_tx ≡ sum_sizes m
unfolding erase lookup
sum_sizes-erase b k [] p h e = cc
sum_sizes-erase b k ((j, q) ∷ m) p (low, rest) e = elim (Bool-cases (j == k)) [
  | inl f ↦ ground (arith, f, e, erase-below (j + 1) k m)
  | inr f ↦ ground (arith, f, e, sum_sizes-erase (j + 1) k m p rest)
]

pub lookup-erase_images :
    (inputs : List TransactionInput) (images : Map ℕ) (k : ℕ)
    → lookup k (erase_images inputs images).1
      ≡ (if elem k (key_images inputs) then none else lookup k images)
unfolding erase_images
lookup-erase_images [] images k = refl
lookup-erase_images (coinbase height ∷ inputs) images k = lookup-erase_images inputs images k
lookup-erase_images (key_input a is image ∷ inputs) images k =
    ground (arith, lookup-erase_images inputs (erase image images) k, lookup-erase image k images)

all_erased :
    (inputs : List TransactionInput) (images : Map ℕ) (tid : ℕ)
    → Distinct (key_images inputs)
    → ((k : ℕ) → elem k (key_images inputs) ≡ true → lookup k images ≡ some tid)
    → (erase_images inputs images).0 ≡ true
unfolding erase_images contains
all_erased [] images tid apart there = refl
all_erased (coinbase height ∷ inputs) images tid apart there =
    all_erased inputs images tid apart there
all_erased (key_input a is image ∷ inputs) images tid (new, apart) there =
    let first : lookup image images ≡ some tid = there image (ground arith) in
    let rest =
      all_erased inputs (erase image images) tid apart
        (λ k e. ground (arith, lookup-erase image k images, there k, (==_iff image k))) in
    ground (arith, first, rest)

hashes_at-put_hashes :
    (fee f : ℕ) (hs : Map (Unit {0})) (fees : Map (Map (Unit {0})))
    → hashes_at f (put_hashes fee hs fees) ≡ (if fee == f then hs else hashes_at f fees)
hashes_at-put_hashes fee f [] fees = ground (arith, lookup-erase fee f fees)
hashes_at-put_hashes fee f (h ∷ hs) fees = ground (arith, lookup-insert fee f (h ∷ hs) fees)

lookup-erase_fee :
    (fee tid f t : ℕ) (fees : Map (Map (Unit {0})))
    → lookup t (hashes_at f (erase_fee fee tid fees))
      ≡ (if fee == f && tid == t then none else lookup t (hashes_at f fees))
lookup-erase_fee fee tid f t fees =
    ap (λ (hs : Map (Unit {0})). lookup t hs)
      (hashes_at-put_hashes fee f (erase tid (hashes_at fee fees)) fees)
    ∙ elim (Bool-cases (fee == f)) [
      | inl g ↦
          let same : hashes_at fee fees ≡ hashes_at f fees =
            ap (λ (n : ℕ). hashes_at n fees) ((==_iff fee f).0 g) in
          ground (arith, g, same, lookup-erase tid t (hashes_at fee fees))
      | inr g ↦ ground (arith, g)
    ]

put_hashes-used :
    (fee f : ℕ) (hs : Map (Unit {0})) (fees : Map (Map (Unit {0})))
    → lookup f (put_hashes fee hs fees) ≡ some []
    → lookup f fees ≡ some []
put_hashes-used fee f [] fees e = ground (arith, lookup-erase fee f fees, e)
put_hashes-used fee f (h ∷ hs) fees e = ground (arith, lookup-insert fee f (h ∷ hs) fees, e)

some-injective : {A : Type 0} {a b : A} → some a ≡ some b → a ≡ b
some-injective e = cc

module _ (tid : ℕ) (p : PoolTransaction) (pool : Pool) (v : PoolIsValid pool)
    (there : lookup tid pool.txs ≡ some p) where
  -- What stays in the pool.
  stays :
      (t : ℕ) (q : PoolTransaction)
      → lookup t (erase tid pool.txs) ≡ some q
      → (lookup t pool.txs ≡ some q) × ((tid == t) ≡ false)
  stays t q e = elim (Bool-cases (tid == t)) [
    | inl f ↦ absurd (ground (arith, lookup-erase tid t pool.txs, e, f))
    | inr f ↦ (ground (arith, lookup-erase tid t pool.txs, e, f), f)
  ]

  left_over :
      (t : ℕ) (q : PoolTransaction)
      → lookup t pool.txs ≡ some q
      → ((tid == t) ≡ true → p ≡ q → false ≡ true)
      → lookup t (erase tid pool.txs) ≡ some q
  left_over t q e other = elim (Bool-cases (tid == t)) [
    | inl f ↦
        let same : p ≡ q =
          some-injective (sym there ∙ ap (λ (n : ℕ). lookup n pool.txs) ((==_iff tid t).0 f) ∙ e) in
        absurd (cc (other f same))
    | inr f ↦ ground (arith, lookup-erase tid t pool.txs, e, f)
  ]

  images_apart :
      (t : ℕ) (q : PoolTransaction) (k : ℕ)
      → lookup t (erase tid pool.txs) ≡ some q
      → elem k (key_images q.tx.inputs) ≡ true
      → lookup k (erase_images p.tx.inputs pool.images).1 ≡ some t
  images_apart t q k e f =
      let (here, other) = stays t q e in
      let mine : lookup k pool.images ≡ some t = v.images t q k here f in
      elim (Bool-cases (elem k (key_images p.tx.inputs))) [
        | inl g ↦
            let same : tid ≡ t = some-injective (sym (v.images tid p k there g) ∙ mine) in
            absurd (ground (arith, (==_iff tid t).1 same, other))
        | inr g ↦ ground (arith, lookup-erase_images p.tx.inputs pool.images k, g, mine)
      ]

  spenders_left :
      (k t : ℕ)
      → lookup k (erase_images p.tx.inputs pool.images).1 ≡ some t
      → (q : PoolTransaction) × (lookup t (erase tid pool.txs) ≡ some q)
        × (elem k (key_images q.tx.inputs) ≡ true)
  spenders_left k t e = elim (Bool-cases (elem k (key_images p.tx.inputs))) [
    | inl g ↦ absurd (ground (arith, lookup-erase_images p.tx.inputs pool.images k, g, e))
    | inr g ↦
        let (q, here, has) =
          v.spenders k t (ground (arith, lookup-erase_images p.tx.inputs pool.images k, g, e)) in
        (
          q,
          left_over t q here (λ f same.
              sym g ∙ ap (λ (r : PoolTransaction). elem k (key_images r.tx.inputs)) same ∙ has),
          has,
        )
  ]

  fees_left :
      (t : ℕ) (q : PoolTransaction)
      → lookup t (erase tid pool.txs) ≡ some q
      → lookup t (hashes_at (fee_per_byte q) (erase_fee (fee_per_byte p) tid pool.fees)) ≡ some tt
  fees_left t q e =
      let (here, other) = stays t q e in
      ground (
        arith,
        lookup-erase_fee (fee_per_byte p) tid (fee_per_byte q) t pool.fees,
        other,
        v.fees t q here,
      )

  payers_left :
      (t fee : ℕ)
      → lookup t (hashes_at fee (erase_fee (fee_per_byte p) tid pool.fees)) ≡ some tt
      → (q : PoolTransaction) × (lookup t (erase tid pool.txs) ≡ some q) × (fee_per_byte q ≡ fee)
  payers_left t fee e = elim (Bool-cases (fee_per_byte p == fee && tid == t)) [
    | inl g ↦ absurd (ground (arith, lookup-erase_fee (fee_per_byte p) tid fee t pool.fees, g, e))
    | inr g ↦
        let (q, here, pays) =
          v.payers t fee
            (ground (arith, lookup-erase_fee (fee_per_byte p) tid fee t pool.fees, g, e)) in
        (
          q,
          left_over t q here (λ f same.
              ground (arith, g, f, (==_iff (fee_per_byte p) fee).1 (ap fee_per_byte same ∙ pays))),
          pays,
        )
  ]

  pub taken-IsValid : PoolIsValid (taken tid p pool)
  taken-IsValid =
      let sizes = sum_sizes-erase 0 tid pool.txs p v.order there in
      record {
        order = erase-RisesFrom 0 tid pool.txs v.order;
        size = omega (arith, sizes, v.size, v.fits);
        fits = omega (arith, sizes, v.fits);
        distinct = λ t q e. v.distinct t q (stays t q e).0;
        images = images_apart;
        spenders = spenders_left;
        fees = fees_left;
        payers = payers_left;
        used = λ fee e. v.used fee (
            put_hashes-used (fee_per_byte p) fee (erase tid (hashes_at (fee_per_byte p) pool.fees))
              pool.fees e);
      }

pub remove_from_pool-taken :
    (tid : ℕ) (p : PoolTransaction) (pool : Pool)
    → PoolIsValid pool
    → lookup tid pool.txs ≡ some p
    → remove_from_pool tid pool ≡ some (taken tid p pool)
unfolding remove_from_pool contains
remove_from_pool-taken tid p pool v n = ground (
  arith,
  n,
  v.fees tid p n,
  all_erased p.tx.inputs pool.images tid (v.distinct tid p n) (λ k e. v.images tid p k n e),
)
