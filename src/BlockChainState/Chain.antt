-- ===== src/BlockChainState/Chain.antt =====
-- `redo_block` of Core/BlockChainState.cpp on the chain itself.
pub mod Accepted
pub mod Applied
pub mod Undone
mod Runs
use cryo_nero.Prelude.{
  ℕ, ◌+◌, ◌%◌, ◌^◌, Bool, true, false, not, Option, none, some, List, [], ◌∷◌, ◌==◌, leb,
  if◌then◌else◌,
}
use cryo_nero.Prelude.Results.{Result, ok, err}
use cryo_nero.Prelude.Maps.{Map, lookup, insert}
use cryo_nero.CryptoNote.{Block}
use cryo_nero.Currency.{Currency}
use cryo_nero.BlockChainState.Errors.{TxError, input_invalid_signatures}
use cryo_nero.BlockChainState.Delta
use cryo_nero.BlockChainState.Delta.{new_delta}
use cryo_nero.BlockChainState.Ledger.{Ledger, ledger_view, ledger_interface}
use cryo_nero.BlockChainState.Redo.{
  RingCrypto, Redo, done, refused, violated, ◌>>=◌, or_violated, redo_block_delta,
}
use cryo_nero.BlockChainState.RingChecker.{RingSignatureArg, start_work, signatures_valid}

pub record ChainState : Type 0 where
  pub ledger : Ledger
  -- The global indices of each block's outputs, by its hash.
  pub block_indices : Map (List (List ℕ))

-- The height of the last entry of `CHECKPOINTS`, whose index is -1 if there is none: `none`.
abbrev last_height : List ℕ → Option ℕ
last_height [] = none
last_height (height ∷ []) = some height
last_height (height ∷ next ∷ heights) = last_height (next ∷ heights)

abbrev or_refused : {A : Type 0} → Result TxError A → Redo A
or_refused (ok a) = done a
or_refused (err e) = refused e 0

module _ (crypto : RingCrypto) (currency : Currency) (checkpoint_heights : List ℕ) where
  pub is_in_sw_checkpoint_zone : ℕ → Option Bool
  is_in_sw_checkpoint_zone index =
      if currency.is_testnet then some (index == 0) else elim (last_height checkpoint_heights) [
        | none ↦ none
        | some height ↦ some (leb index height)
      ]

  -- The ring checker's part is skipped inside the zone of the checkpoints.
  checked_args : Bool → Ledger → Block → ℕ → ℕ → Redo (List RingSignatureArg)
  checked_args check_sigs ledger block height timestamp =
      if check_sigs
      then or_refused (start_work crypto currency (ledger_view ledger) block height timestamp)
      else done []

  -- `put` with `nooverwrite` on the indices of the block.
  abbrev put_indices : ℕ → List (List ℕ) → Ledger → ChainState → Redo ChainState
  put_indices bhash indices ledger s = elim (lookup bhash s.block_indices) [
    | some old ↦ violated
    | none ↦ done (record { ledger = ledger; block_indices = insert bhash indices s.block_indices })
  ]

  -- An answer `false` is `refused`; its error text is not kept by the source. With no checkpoints
  -- the read behind the table is `violated`.
  pub redo_block : ℕ → Block → ℕ → ℕ → ChainState → Redo ChainState
  unfolding is_in_sw_checkpoint_zone checked_args
  redo_block bhash block height timestamp s =
      elim (is_in_sw_checkpoint_zone ((height + 1) % 2 ^ 32)) [
        | none ↦ violated
        | some zone ↦ checked_args (not zone) s.ledger block height timestamp >>= λ args.
            redo_block_delta crypto currency block
              (new_delta height timestamp (ledger_view s.ledger))
            >>= λ (delta, indices).
                (if signatures_valid crypto currency args
                  then done tt
                  else refused input_invalid_signatures 0)
                >>= λ u. or_violated (Delta.apply ledger_interface delta s.ledger) >>= λ ledger.
                    put_indices bhash indices ledger s
      ]
