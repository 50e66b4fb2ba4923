-- ===== src/BlockChainState/Redo/DoubleSpend.antt =====
-- Core/BlockChainState.cpp: the key images of a transaction and of a block are spent once.
use cryo_nero.Prelude.{
  ℕ, ◌+◌, ◌≡◌, refl, sym, ap, ◌∙◌, arith, Bool, true, false, ◌||◌, Option, none, some, List, [],
  ◌∷◌, ◌++◌, ◌==◌, if◌then◌else◌, Bool-cases, inl, inr, length, get_or,
}
use cryo_nero.Prelude.Maps.{Map, lookup, contains}
use cryo_nero.CryptoNote.{
  TransactionInput, coinbase, key_input, TransactionOutput, Transaction, Block, key_images,
}
use cryo_nero.Currency.{Currency}
use cryo_nero.BlockChainState.Delta
use cryo_nero.BlockChainState.Delta.Images.{
  store_keyimage-contains, spend_output-keyimages, push_amount_output-keyimages, apply-contains,
}
use cryo_nero.BlockChainState.Delta.{DeltaState, new_delta, delta_view, delta_interface}
use cryo_nero.BlockChainState.Redo.{
  RingCrypto, Redo, done, refused, violated, ◌>>=◌, or_violated, check_input, spend_single,
  redo_inputs, redo_outputs, redo_transaction, redo_transactions, redo_block_delta,
}

abbrev pub elem : ℕ → List ℕ → Bool
elem k [] = false
elem k (j ∷ js) = j == k || elem k js

-- No number occurs twice.
abbrev pub Distinct : List ℕ → Type 0
Distinct [] = Unit {0}
Distinct (k ∷ ks) = (elem k ks ≡ false) × Distinct ks

-- The images of the transactions, in their order.
abbrev pub block_images : List Transaction → List ℕ
block_images [] = []
block_images (tx ∷ txs) = key_images tx.inputs ++ block_images txs

pub elem-append : (k : ℕ) (xs ys : List ℕ) → elem k (xs ++ ys) ≡ (elem k xs || elem k ys)
elem-append k [] ys = refl
elem-append k (x ∷ xs) ys = ground (arith, elem-append k xs ys)

Distinct-append :
    (xs ys : List ℕ)
    → Distinct xs
    → Distinct ys
    → ((k : ℕ) → elem k xs ≡ true → elem k ys ≡ false)
    → Distinct (xs ++ ys)
Distinct-append [] ys hx hy apart = hy
Distinct-append (x ∷ xs) ys (first, hx) hy apart = (
  ground (arith, elem-append x xs ys, first, apart x),
  Distinct-append xs ys hx hy (λ k e. apart k (ground (arith, e))),
)

pub >>=-eq-done :
    {A B : Type 0} (m : Redo A) (f : A → Redo B) {b : B}
    → (m >>= f) ≡ done b
    → (a : A) × (m ≡ done a) × (f a ≡ done b)
>>=-eq-done (done a) f h = (a, refl, h)
>>=-eq-done (refused e height) f h = cc
>>=-eq-done violated f h = cc

pub or_violated-eq-done : {A : Type 0} (o : Option A) {a : A} → or_violated o ≡ done a → o ≡ some a
or_violated-eq-done none h = cc
or_violated-eq-done (some b) h = cc

abbrev images_of : {A : Type 0} → Redo (DeltaState × A) → Map ℕ
images_of (done (d, a)) = d.keyimages
images_of (refused e height) = []
images_of violated = []

abbrev tx_images_of : Redo (DeltaState × List ℕ × ℕ) → Map ℕ
tx_images_of (done (d, indices, c)) = d.keyimages
tx_images_of (refused e height) = []
tx_images_of violated = []

contains-empty : (k : ℕ) → contains {V = ℕ} k [] ≡ false
unfolding contains lookup
contains-empty k = refl

module _ (crypto : RingCrypto) (currency : Currency) where
  spend_single-keyimages :
      (a : ℕ) (is : List ℕ) (d : DeltaState)
      → (spend_single crypto currency a is d).keyimages ≡ d.keyimages
  spend_single-keyimages a is d = elim (Bool-cases (length is == 1)) [
    | inl e ↦ ground (arith, spend_output-keyimages a (get_or is 0 0) d)
    | inr e ↦ ground arith
  ]

  -- A loop over the inputs that succeeded has stored each image, and found it new.
  redo_inputs_lem :
      (check_sigs : Bool) (tx : Transaction) (i : ℕ) (inputs : List TransactionInput)
      (d : DeltaState) (c : ℕ) (d' : DeltaState) (c' : ℕ)
      → redo_inputs crypto currency check_sigs tx i inputs d c ≡ done (d', c')
      → Distinct (key_images inputs)
        × ((k : ℕ) → elem k (key_images inputs) ≡ true → contains k d.keyimages ≡ false)
        × ((k : ℕ)
            → contains k d'.keyimages ≡ (elem k (key_images inputs) || contains k d.keyimages))
  unfolding redo_inputs
  redo_inputs_lem check_sigs tx i [] d c d' c' e = (tt, λ k h. absurd cc, λ k. ground (arith, e))
  redo_inputs_lem check_sigs tx i (coinbase height ∷ inputs) d c d' c' e =
      redo_inputs_lem check_sigs tx (i + 1) inputs d c d' c' e
  redo_inputs_lem check_sigs tx i (key_input amount indexes image ∷ inputs) d c d' c' e =
      let (c1, checked, e1) =
        >>=-eq-done
          (if check_sigs
            then check_input crypto currency (delta_view d) d.block_height d.unlock_timestamp amount
                indexes image (get_or tx.signatures i []) (crypto.prefix_hash tx) c
            else done c)
          _ e in
      let (d1, stored, e2) =
        >>=-eq-done
          (or_violated (
            Delta.store_keyimage image d.block_height
              (spend_single crypto currency amount indexes d)))
          _ e1 in
      let (fresh, one) =
        store_keyimage-contains image d.block_height (spend_single crypto currency amount indexes d)
          d1 (or_violated-eq-done _ stored) in
      let (distinct, new, all) = redo_inputs_lem check_sigs tx (i + 1) inputs d1 c1 d' c' e2 in
      let same = spend_single-keyimages amount indexes d in
      (
        (
          elim (Bool-cases (elem image (key_images inputs))) [
            | inl h ↦ absurd (ground (arith, one image, new image h))
            | inr h ↦ h
          ],
          distinct,
        ),
        λ k h. ground (arith, same, fresh, one k, new k),
        λ k. ground (arith, same, one k, all k),
      )

  redo_outputs-keyimages :
      (t : ℕ) (outputs : List TransactionOutput) (d : DeltaState)
      → (redo_outputs crypto currency t outputs d).0.keyimages ≡ d.keyimages
  unfolding redo_outputs
  redo_outputs-keyimages t [] d = refl
  redo_outputs-keyimages t (output ∷ outputs) d =
      redo_outputs-keyimages t outputs (Delta.push_amount_output output.amount t 0 output.key d).0
      ∙ push_amount_output-keyimages output.amount t 0 output.key d

  -- What a transaction that was redone did to the images of the delta.
  pub redo_transaction_lem :
      (tx : Transaction) (d : DeltaState) (check_sigs : Bool) (d' : DeltaState) (indices : List ℕ)
      (c : ℕ)
      → redo_transaction crypto currency tx d check_sigs ≡ done (d', indices, c)
      → Distinct (key_images tx.inputs)
        × ((k : ℕ) → elem k (key_images tx.inputs) ≡ true → contains k d.keyimages ≡ false)
        × ((k : ℕ)
            → contains k d'.keyimages ≡ (elem k (key_images tx.inputs) || contains k d.keyimages))
  unfolding redo_transaction
  redo_transaction_lem tx d check_sigs d' indices c e =
      let own = new_delta d.block_height d.unlock_timestamp (delta_view d) in
      let ((d1, c1), e1, e2) =
        >>=-eq-done (redo_inputs crypto currency check_sigs tx 0 tx.inputs own 0) _ e in
      let d2 = (redo_outputs crypto currency tx.unlock_time tx.outputs d1).0 in
      let (d3, applied, e3) = >>=-eq-done (or_violated (Delta.apply delta_interface d2 d)) _ e2 in
      let (distinct, new, all) = redo_inputs_lem check_sigs tx 0 tx.inputs own 0 d1 c1 e1 in
      let (apart, both) = apply-contains d2 d d3 (or_violated-eq-done _ applied) in
      let kept = redo_outputs-keyimages tx.unlock_time tx.outputs d1 in
      (
        distinct,
        λ k h. ground (arith, apart k, kept, all k),
        λ k.
            ap (λ (r : Redo (DeltaState × List ℕ × ℕ)). contains k (tx_images_of r)) (sym e3)
            ∙ ground (arith, both k, kept, all k, contains-empty k),
      )

  redo_transactions_lem :
      (txs : List Transaction) (d d' : DeltaState) (indices : List (List ℕ))
      → redo_transactions crypto currency txs d ≡ done (d', indices)
      → Distinct (block_images txs)
        × ((k : ℕ) → elem k (block_images txs) ≡ true → contains k d.keyimages ≡ false)
        × ((k : ℕ)
            → contains k d'.keyimages ≡ (elem k (block_images txs) || contains k d.keyimages))
  unfolding redo_transactions
  redo_transactions_lem [] d d' indices e = (
    tt,
    λ k h. absurd cc,
    λ k. ap (λ (r : Redo (DeltaState × List (List ℕ))). contains k (images_of r)) (sym e),
  )
  redo_transactions_lem (tx ∷ txs) d d' indices e =
      let ((d1, i1, c1), e1, e2) = >>=-eq-done (redo_transaction crypto currency tx d false) _ e in
      let ((d2, i2), e3, e4) = >>=-eq-done (redo_transactions crypto currency txs d1) _ e2 in
      let (distinct, new, all) = redo_transaction_lem tx d false d1 i1 c1 e1 in
      let (distinct', new', all') = redo_transactions_lem txs d1 d2 i2 e3 in
      let split = λ (k : ℕ). elem-append k (key_images tx.inputs) (block_images txs) in
      (
        Distinct-append (key_images tx.inputs) (block_images txs) distinct distinct' (λ k h.
            elim (Bool-cases (elem k (block_images txs))) [
              | inl g ↦ absurd (ground (arith, all k, new' k g, h))
              | inr g ↦ g
            ]),
        λ k h. ground (arith, split k, new k, all k, new' k),
        λ k.
            ap (λ (r : Redo (DeltaState × List (List ℕ))). contains k (images_of r)) (sym e4)
            ∙ ground (arith, split k, all k, all' k),
      )

-- A block that is redone on a delta spends each key image once, counted over the inputs of all
-- its transactions, and none that the delta already holds. The delta then holds those that it
-- held and those of the block.
pub redo_block_delta-Distinct :
    (crypto : RingCrypto) (currency : Currency) (block : Block) (d d' : DeltaState)
    (indices : List (List ℕ))
    → redo_block_delta crypto currency block d ≡ done (d', indices)
    → Distinct (block_images (block.base_transaction ∷ block.transactions))
      × ((k : ℕ)
          → elem k (block_images (block.base_transaction ∷ block.transactions)) ≡ true
          → contains k d.keyimages ≡ false)
      × ((k : ℕ)
          → contains k d'.keyimages ≡ (
              elem k (block_images (block.base_transaction ∷ block.transactions))
              || contains k d.keyimages))
unfolding redo_block_delta
redo_block_delta-Distinct crypto currency block d d' indices e =
    redo_transactions_lem crypto currency (block.base_transaction ∷ block.transactions) d d' indices
      e
