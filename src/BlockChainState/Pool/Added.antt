-- ===== src/BlockChainState/Pool/Added.antt =====
-- A transaction added to the pool of Core/BlockChainState.cpp keeps its invariant.
use cryo_nero.Prelude.{
  ℕ, ◌+◌, ◌<◌, ◌^◌, ◌≡◌, refl, ap, ◌∙◌, arith, true, false, ◌&&◌, ◌⊎◌, none, some, [], ◌∷◌, ◌==◌,
  if◌then◌else◌, length, Bool-cases, Option-cases, inl, inr, ==_iff,
}
use mathlib.Core.Path.{subst}
use cryo_nero.Prelude.Maps.{Map, lookup, insert, contains, lookup-insert}
use cryo_nero.Prelude.Maps.Order.{RisesFrom, insert-RisesFrom, lookup-below}
use cryo_nero.CryptoNote.{key_images}
use cryo_nero.BlockChainState.Redo.DoubleSpend.{elem, Distinct}
use cryo_nero.BlockChainState.Pool.{
  PoolTransaction, fee_per_byte, Pool, hashes_at, insert_images, put, put_in,
}
use cryo_nero.BlockChainState.Pool.Valid.{sum_sizes, PoolIsValid}

sum_sizes-insert :
    (k : ℕ) (m : Map PoolTransaction) (p : PoolTransaction)
    → lookup k m ≡ none
    → sum_sizes (insert k p m) ≡ sum_sizes m + length p.binary_tx
unfolding insert lookup
sum_sizes-insert k [] p e = omega arith
sum_sizes-insert k ((j, q) ∷ m) p e = elim (Bool-cases (j == k)) [
  | inl f ↦ absurd (ground (arith, f, e))
  | inr f ↦ ground (arith, f, e, sum_sizes-insert k m p)
]

insert_images_lem :
    (b : ℕ) (spent : Map ℕ) (tid : ℕ) (images : Map ℕ)
    → RisesFrom b spent
    → ((k : ℕ) → contains k spent ≡ true → lookup k images ≡ none)
    → ((insert_images spent tid images).0 ≡ true)
      × ((k : ℕ)
          → lookup k (insert_images spent tid images).1
            ≡ (if contains k spent then some tid else lookup k images))
unfolding insert_images contains lookup
insert_images_lem b [] tid images rises new = (refl, λ k. refl)
insert_images_lem b ((image, height) ∷ spent) tid images (low, rises) new =
    let first : lookup image images ≡ none = new image (ground arith) in
    let below = lookup-below (image + 1) image spent (omega arith) rises in
    let (all, reads) =
      insert_images_lem (image + 1) spent tid (insert image tid images) rises (λ k e.
        elim (Bool-cases (image == k)) [
          | inl f ↦
              let same : lookup k spent ≡ none =
                subst (λ (c : ℕ). lookup c spent ≡ none) ((==_iff image k).0 f) below in
              absurd (ground (arith, same, e))
          | inr f ↦ ground (arith, lookup-insert image k tid images, f, new k, e)
        ]) in
    (
      ground (arith, first, all),
      λ k. ground (arith, first, reads k, lookup-insert image k tid images),
    )

some-injective : {A : Type 0} {a b : A} → some a ≡ some b → a ≡ b
some-injective e = cc

hashes_at-put :
    (fee f tid t : ℕ) (fees : Map (Map (Unit {0})))
    → lookup t (hashes_at f (insert fee (insert tid tt (hashes_at fee fees)) fees))
      ≡ (if fee == f && tid == t then some tt else lookup t (hashes_at f fees))
hashes_at-put fee f tid t fees =
    let hs = insert tid tt (hashes_at fee fees) in
    elim (Bool-cases (fee == f)) [
      | inl g ↦
          let same : hashes_at fee fees ≡ hashes_at f fees =
            ap (λ (n : ℕ). hashes_at n fees) ((==_iff fee f).0 g) in
          ground (
            arith,
            g,
            lookup-insert fee f hs fees,
            same,
            lookup-insert tid t tt (hashes_at fee fees),
          )
      | inr g ↦ ground (arith, g, lookup-insert fee f hs fees)
    ]

insert-full : (tid : ℕ) (hs : Map (Unit {0})) → insert tid tt hs ≡ [] → false ≡ true
unfolding insert
insert-full tid [] e = cc
insert-full tid ((t, u) ∷ hs) e = ground (arith, e)

module _ (tid : ℕ) (p : PoolTransaction) (spent : Map ℕ) (pool : Pool) (v : PoolIsValid pool)
    (new : lookup tid pool.txs ≡ none) (apart : Distinct (key_images p.tx.inputs))
    (same_images : (k : ℕ) → contains k spent ≡ elem k (key_images p.tx.inputs))
    (rises : RisesFrom 0 spent)
    (free : (k : ℕ) → contains k spent ≡ true → lookup k pool.images ≡ none)
    (room : sum_sizes pool.txs + length p.binary_tx < 2 ^ 64) where
  images_then :
      (k : ℕ)
      → lookup k (insert_images spent tid pool.images).1
        ≡ (if elem k (key_images p.tx.inputs) then some tid else lookup k pool.images)
  images_then k =
      let (all, reads) = insert_images_lem 0 spent tid pool.images rises free in
      ground (arith, reads k, same_images k)

  -- A transaction of the new pool is the new one, or one from before.
  either :
      (t : ℕ) (q : PoolTransaction)
      → lookup t (insert tid p pool.txs) ≡ some q
      → ((tid ≡ t) × (p ≡ q)) ⊎ (((tid == t) ≡ false) × (lookup t pool.txs ≡ some q))
  either t q e = elim (Bool-cases (tid == t)) [
    | inl f ↦
        inl (
          (==_iff tid t).0 f,
          some-injective (ground (arith, lookup-insert tid t p pool.txs, f, e)),
        )
    | inr f ↦ inr (f, ground (arith, lookup-insert tid t p pool.txs, f, e))
  ]

  -- One from before has another hash.
  before :
      (t : ℕ) (q : PoolTransaction)
      → lookup t pool.txs ≡ some q
      → lookup t (insert tid p pool.txs) ≡ some q
  before t q e = elim (Bool-cases (tid == t)) [
    | inl f ↦
        let same : lookup t pool.txs ≡ none =
          subst (λ (c : ℕ). lookup c pool.txs ≡ none) ((==_iff tid t).0 f) new in
        absurd (cc (same, e))
    | inr f ↦ ground (arith, lookup-insert tid t p pool.txs, f, e)
  ]

  put_images :
      (t : ℕ) (q : PoolTransaction) (k : ℕ)
      → lookup t (insert tid p pool.txs) ≡ some q
      → elem k (key_images q.tx.inputs) ≡ true
      → lookup k (insert_images spent tid pool.images).1 ≡ some t
  put_images t q k e has = elim (either t q e) [
    | inl (f, g) ↦
        let mine : elem k (key_images p.tx.inputs) ≡ true =
          ap (λ (r : PoolTransaction). elem k (key_images r.tx.inputs)) g ∙ has in
        ground (arith, images_then k, mine, f)
    | inr (f, old) ↦
        let there : lookup k pool.images ≡ some t = v.images t q k old has in
        elim (Bool-cases (elem k (key_images p.tx.inputs))) [
          | inl g ↦ absurd (cc (free k (same_images k ∙ g), there))
          | inr g ↦ ground (arith, images_then k, g, there)
        ]
  ]

  put_spenders :
      (k t : ℕ)
      → lookup k (insert_images spent tid pool.images).1 ≡ some t
      → (q : PoolTransaction) × (lookup t (insert tid p pool.txs) ≡ some q)
        × (elem k (key_images q.tx.inputs) ≡ true)
  put_spenders k t e = elim (Bool-cases (elem k (key_images p.tx.inputs))) [
    | inl g ↦
        let same : tid ≡ t = some-injective (ground (arith, images_then k, g, e)) in
        (p, ground (arith, lookup-insert tid t p pool.txs, (==_iff tid t).1 same), g)
    | inr g ↦
        let (q, old, has) = v.spenders k t (ground (arith, images_then k, g, e)) in
        (q, before t q old, has)
  ]

  put_payers :
      (t fee : ℕ)
      → lookup t (hashes_at fee (put tid p spent pool).fees) ≡ some tt
      → (q : PoolTransaction) × (lookup t (insert tid p pool.txs) ≡ some q) × (fee_per_byte q ≡ fee)
  put_payers t fee e = elim (Bool-cases (fee_per_byte p == fee && tid == t)) [
    | inl g ↦ (
      p,
      ground (arith, lookup-insert tid t p pool.txs, g),
      ground (arith, g, (==_iff (fee_per_byte p) fee)),
    )
    | inr g ↦
        let (q, old, pays) =
          v.payers t fee
            (ground (arith, hashes_at-put (fee_per_byte p) fee tid t pool.fees, g, e)) in
        (q, before t q old, pays)
  ]

  put_fees :
      (t : ℕ) (q : PoolTransaction)
      → lookup t (insert tid p pool.txs) ≡ some q
      → lookup t (hashes_at (fee_per_byte q) (put tid p spent pool).fees) ≡ some tt
  put_fees t q e = elim (either t q e) [
    | inl (f, g) ↦ ground (
      arith,
      hashes_at-put (fee_per_byte p) (fee_per_byte q) tid t pool.fees,
      (==_iff tid t).1 f,
      (==_iff (fee_per_byte p) (fee_per_byte q)).1 (ap fee_per_byte g),
    )
    | inr (f, old) ↦
        ground (
          arith,
          hashes_at-put (fee_per_byte p) (fee_per_byte q) tid t pool.fees,
          f,
          v.fees t q old,
        )
  ]

  put-IsValid : PoolIsValid (put tid p spent pool)
  put-IsValid =
      let sizes = sum_sizes-insert tid pool.txs p new in
      let hs = insert tid tt (hashes_at (fee_per_byte p) pool.fees) in
      record {
        order = insert-RisesFrom 0 tid p pool.txs (omega arith) v.order;
        size = omega (arith, sizes, v.size, room);
        fits = omega (arith, sizes, room);
        distinct = λ t q e. elim (either t q e) [
          | inl (f, g) ↦ subst (λ (r : PoolTransaction). Distinct (key_images r.tx.inputs)) g apart
          | inr (f, old) ↦ v.distinct t q old
        ];
        images = put_images;
        spenders = put_spenders;
        fees = put_fees;
        payers = put_payers;
        used = λ fee e. elim (Bool-cases (fee_per_byte p == fee)) [
          | inl g ↦ insert-full tid (hashes_at (fee_per_byte p) pool.fees) (
              some-injective
                (ground (arith, lookup-insert (fee_per_byte p) fee hs pool.fees, g, e)))
          | inr g ↦
              v.used fee (ground (arith, lookup-insert (fee_per_byte p) fee hs pool.fees, g, e))
        ];
      }

  pub put_in-IsValid :
      (put_in tid p spent pool ≡ some (put tid p spent pool)) × PoolIsValid (put tid p spent pool)
  unfolding put_in contains
  put_in-IsValid =
      let (all, reads) = insert_images_lem 0 spent tid pool.images rises free in
      (ground (arith, all, new, no_hash), put-IsValid)
    where
      no_hash : lookup tid (hashes_at (fee_per_byte p) pool.fees) ≡ none
      no_hash = elim (Option-cases (lookup tid (hashes_at (fee_per_byte p) pool.fees))) [
        | inl n ↦ n
        | inr (u, n) ↦
            let (q, old, pays) = v.payers tid (fee_per_byte p) n in absurd (cc (new, old))
      ]
