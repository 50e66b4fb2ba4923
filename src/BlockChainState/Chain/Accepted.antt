-- ===== src/BlockChainState/Chain/Accepted.antt =====
-- A block that `redo_block` of Core/BlockChainState.cpp accepts spends what is there, once.
use cryo_nero.Prelude.{
  ℕ, ◌+◌, ◌%◌, ◌^◌, ◌≡◌, refl, arith, Bool, true, false, some, List, ◌∷◌, if◌then◌else◌,
}
use cryo_nero.Prelude.Results.{Result, ok, err}
use cryo_nero.CryptoNote.{Block}
use cryo_nero.Currency.{Currency}
use cryo_nero.BlockChainState.Errors.{TxError, input_invalid_signatures}
use cryo_nero.BlockChainState.Delta
use cryo_nero.BlockChainState.Delta.{DeltaState, new_delta}
use cryo_nero.BlockChainState.Ledger.{ledger_view, ledger_interface}
use cryo_nero.BlockChainState.Redo.{
  RingCrypto, Redo, done, refused, ◌>>=◌, or_violated, redo_block_delta,
}
use cryo_nero.BlockChainState.Redo.DoubleSpend.{
  Distinct, block_images, redo_block_delta-Distinct, >>=-eq-done,
}
use cryo_nero.BlockChainState.RingChecker.{RingSignatureArg, start_work, signatures_valid}
use cryo_nero.BlockChainState.RingChecker.Coverage.{Unspent, images_of, start_work-covers}
use cryo_nero.BlockChainState.Chain.{
  ChainState, is_in_sw_checkpoint_zone, checked_args, or_refused, put_indices, redo_block,
}

or_refused-eq-done : {A : Type 0} (r : Result TxError A) {a : A} → or_refused r ≡ done a → r ≡ ok a
or_refused-eq-done (ok a) e = ground (arith, e)
or_refused-eq-done (err x) e = cc

if_valid :
    (b : Bool) {u : Unit {0}}
    → ◌≡◌ {A = Redo (Unit {0})} (if b then done tt else refused input_invalid_signatures 0) (done u)
    → b ≡ true
if_valid true e = refl
if_valid false e = cc

-- Outside the zone of the checkpoints, a block that `redo_block` accepts spends each key image once,
-- none that its transactions spend was spent on the chain, and for each input of a transaction but
-- the miner's, in their order, a ring signature was checked and found valid.
pub redo_block-accepted :
    (crypto : RingCrypto) (currency : Currency) (checkpoint_heights : List ℕ) (bhash : ℕ)
    (block : Block) (height timestamp : ℕ) (s s' : ChainState)
    → is_in_sw_checkpoint_zone crypto currency checkpoint_heights ((height + 1) % 2 ^ 32)
      ≡ some false
    → redo_block crypto currency checkpoint_heights bhash block height timestamp s ≡ done s'
    → Distinct (block_images (block.base_transaction ∷ block.transactions))
      × Unspent (ledger_view s.ledger) (block_images block.transactions)
      × (args : List RingSignatureArg) × (start_work crypto currency
            (ledger_view s.ledger)
            block
            height
            timestamp
          ≡ ok args)
      × (images_of args ≡ block_images block.transactions)
      × (signatures_valid crypto currency args ≡ true)
unfolding redo_block checked_args
redo_block-accepted crypto currency heights bhash block height timestamp s s' outside e =
    let own = new_delta height timestamp (ledger_view s.ledger) in
    let (args, e1, e2) =
      >>=-eq-done
        (or_refused (start_work crypto currency (ledger_view s.ledger) block height timestamp))
        (after own) (rw (redo_block, outside) at e) in
    let ((delta, indices), e3, e4) =
      >>=-eq-done (redo_block_delta crypto currency block own) _ e2 in
    let (u, e5, e6) =
      >>=-eq-done
        (if signatures_valid crypto currency args
          then done tt
          else refused input_invalid_signatures 0)
        _ e4 in
    let started = or_refused-eq-done _ e1 in
    let (covered, unspent) =
      start_work-covers crypto currency (ledger_view s.ledger) block height timestamp args
        started in
    (
      (redo_block_delta-Distinct crypto currency block own delta indices e3).0,
      unspent,
      args,
      started,
      covered,
      if_valid _ e5,
    )
  where
    after : DeltaState → List RingSignatureArg → Redo ChainState
    after own args = redo_block_delta crypto currency block own >>= λ (delta, indices).
        (if signatures_valid crypto currency args
          then done tt
          else refused input_invalid_signatures 0)
        >>= λ u. or_violated (Delta.apply ledger_interface delta s.ledger) >>= λ ledger.
            put_indices crypto currency heights bhash indices ledger s
