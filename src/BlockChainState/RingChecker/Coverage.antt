-- ===== src/BlockChainState/RingChecker/Coverage.antt =====
-- What Core/RingCheckerMulticore.cpp hands to its threads covers the inputs of a block.
use cryo_nero.Prelude.{
  ℕ, ◌+◌, ◌≡◌, refl, sym, ap, ◌∙◌, arith, none, List, [], ◌∷◌, ◌++◌, All, Bool-cases, Option-cases,
  inl, inr, get_or,
}
use cryo_nero.Prelude.Results.{Result, ok, err, ◌>>=◌, >>=-eq-ok}
use cryo_nero.CryptoNote.{TransactionInput, coinbase, key_input, Transaction, Block, key_images}
use cryo_nero.Currency.{Currency}
use cryo_nero.BlockChainState.Errors.{TxError}
use cryo_nero.BlockChainState.Validation.{is_empty}
use cryo_nero.BlockChainState.Interface.{StateView}
use cryo_nero.BlockChainState.Redo.{RingCrypto, absolute_indexes}
use cryo_nero.BlockChainState.Redo.DoubleSpend.{block_images}
use cryo_nero.BlockChainState.RingChecker.{
  RingSignatureArg, output_keys, start_inputs, start_transactions, start_work,
}

-- No image of the list is spent.
abbrev pub Unspent : StateView → List ℕ → Type 0
Unspent state ks = All (λ k. state.read_keyimage k ≡ none) ks

abbrev pub images_of : List RingSignatureArg → List ℕ
images_of [] = []
images_of (arg ∷ args) = arg.key_image ∷ images_of args

images_of-append :
    (xs ys : List RingSignatureArg) → images_of (xs ++ ys) ≡ images_of xs ++ images_of ys
images_of-append [] ys = refl
images_of-append (x ∷ xs) ys = ap (λ (t : List ℕ). x.key_image ∷ t) (images_of-append xs ys)

Unspent-append :
    (state : StateView) (xs ys : List ℕ)
    → Unspent state xs
    → Unspent state ys
    → Unspent state (xs ++ ys)
Unspent-append state [] ys hx hy = hy
Unspent-append state (x ∷ xs) ys (h, hx) hy = (h, Unspent-append state xs ys hx hy)

args_of : Result TxError (List RingSignatureArg) → List RingSignatureArg
args_of (ok args) = args
args_of (err e) = []

module _ (crypto : RingCrypto) (currency : Currency) (state : StateView) (height time : ℕ) where
  start_inputs_lem :
      (tx : Transaction) (i : ℕ) (inputs : List TransactionInput) (args : List RingSignatureArg)
      → start_inputs crypto currency state height time tx i inputs ≡ ok args
      → (images_of args ≡ key_images inputs) × Unspent state (key_images inputs)
  unfolding start_inputs args_of
  start_inputs_lem tx i [] args e = (ap images_of (sym (ap args_of e)), tt)
  start_inputs_lem tx i (coinbase h ∷ inputs) args e = start_inputs_lem tx (i + 1) inputs args e
  start_inputs_lem tx i (key_input amount indexes image ∷ inputs) args e =
      elim (Option-cases (state.read_keyimage image)) [
        | inr (old, n) ↦ absurd (ground (arith, n))
        | inl n ↦ elim (Bool-cases (is_empty indexes)) [
          | inl b ↦ absurd (ground (arith, n, b))
          | inr b ↦ taken (start_inputs_lem tx (i + 1) inputs) n (ground (arith, n, b))
        ]
      ]
    where
      arg : List ℕ → RingSignatureArg
      arg keys = record {
        tx_prefix_hash = crypto.prefix_hash tx;
        key_image = image;
        output_keys = keys;
        signatures = get_or tx.signatures i [];
      }

      taken :
          ((others : List RingSignatureArg)
            → start_inputs crypto currency state height time tx (i + 1) inputs ≡ ok others
            → (images_of others ≡ key_images inputs) × Unspent state (key_images inputs))
          → state.read_keyimage image ≡ none
          → (output_keys crypto currency state height time amount (absolute_indexes indexes)
              >>= λ keys.
                  start_inputs crypto currency state height time tx (i + 1) inputs >>= λ args.
                  ok (arg keys ∷ args))
            ≡ ok args
          → (images_of args ≡ image ∷ key_images inputs) × Unspent state (image ∷ key_images inputs)
      taken later n f =
          let (keys, e1, e2) =
            >>=-eq-ok
              (output_keys crypto currency state height time amount (absolute_indexes indexes)) _
              f in
          let (others, e3, e4) =
            >>=-eq-ok (start_inputs crypto currency state height time tx (i + 1) inputs) _ e2 in
          let (same, unspent) = later others e3 in
          (ap images_of (sym (ap args_of e4)) ∙ ap (λ (t : List ℕ). image ∷ t) same, (n, unspent))

  start_transactions_lem :
      (txs : List Transaction) (args : List RingSignatureArg)
      → start_transactions crypto currency state height time txs ≡ ok args
      → (images_of args ≡ block_images txs) × Unspent state (block_images txs)
  unfolding start_transactions args_of
  start_transactions_lem [] args e = (ap images_of (sym (ap args_of e)), tt)
  start_transactions_lem (tx ∷ txs) args e =
      let (first, e1, e2) =
        >>=-eq-ok (start_inputs crypto currency state height time tx 0 tx.inputs) _ e in
      let (others, e3, e4) =
        >>=-eq-ok (start_transactions crypto currency state height time txs) _ e2 in
      let (same, unspent) = start_inputs_lem tx 0 tx.inputs first e1 in
      let (same', unspent') = start_transactions_lem txs others e3 in
      (
        ap images_of (sym (ap args_of e4))
            ∙ images_of-append first others
            ∙ ground (arith, same, same'),
        Unspent-append state (key_images tx.inputs) (block_images txs) unspent unspent',
      )

-- If work is started for a block, there is one signature to check for each input of its
-- transactions but the miner's, in their order, and no image of those inputs is spent.
pub start_work-covers :
    (crypto : RingCrypto) (currency : Currency) (state : StateView) (block : Block)
    (height time : ℕ) (args : List RingSignatureArg)
    → start_work crypto currency state block height time ≡ ok args
    → (images_of args ≡ block_images block.transactions)
      × Unspent state (block_images block.transactions)
unfolding start_work
start_work-covers crypto currency state block height time args e =
    start_transactions_lem crypto currency state height time block.transactions args e
