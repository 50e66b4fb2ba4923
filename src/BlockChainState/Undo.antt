-- ===== src/BlockChainState/Undo.antt =====
-- `undo_transaction` and `undo_block` of Core/BlockChainState.cpp, on the tables of the chain.
pub mod Back
pub mod Order
use cryo_nero.Prelude.{
  ℕ, Bool, true, false, Option, none, some, List, [], ◌∷◌, ◌==◌, if◌then◌else◌, length, get_or,
  reverse,
}
use cryo_nero.Prelude.Maps.{Map, lookup, erase}
use cryo_nero.CryptoNote.{
  TransactionInput, coinbase, key_input, TransactionOutput, Transaction, Block,
}
use cryo_nero.BlockChainState.Ledger
use cryo_nero.BlockChainState.Ledger.{Ledger, mark_output}
use cryo_nero.BlockChainState.Chain.{ChainState}

infixl 5 ◌>>=◌
abbrev pub ◌>>=◌ : {A B : Type 0} → Option A → (A → Option B) → Option B
none >>= f = none
some a >>= f = f a

-- `outputs.rbegin()` to `rend()`: the list is reversed.
pub undo_outputs : ℕ → List TransactionOutput → Ledger → Option Ledger
undo_outputs unlock_time [] s = some s
undo_outputs unlock_time (output ∷ outputs) s =
    Ledger.pop_amount_output output.amount unlock_time output.key s
    >>= undo_outputs unlock_time outputs

-- `if (in.output_indexes.size() == 1) spend_output(in.amount, in.output_indexes[0], false);`
abbrev pub unspend_single : ℕ → List ℕ → Ledger → Ledger
unspend_single amount indexes s =
    if length indexes == 1 then mark_output amount (get_or indexes 0 0) false s else s

pub undo_inputs : List TransactionInput → Ledger → Option Ledger
undo_inputs [] s = some s
undo_inputs (coinbase height ∷ inputs) s = undo_inputs inputs s
undo_inputs (key_input amount indexes image ∷ inputs) s =
    Ledger.delete_keyimage image s >>= λ s'. undo_inputs inputs (unspend_single amount indexes s')

pub undo_transaction : Transaction → Ledger → Option Ledger
unfolding undo_outputs undo_inputs
undo_transaction tx s =
    undo_outputs tx.unlock_time (reverse tx.outputs) s >>= undo_inputs (reverse tx.inputs)

pub undo_transactions : List Transaction → Ledger → Option Ledger
unfolding undo_transaction
undo_transactions [] s = some s
undo_transactions (tx ∷ txs) s = undo_transaction tx s >>= undo_transactions txs

-- `del` of the indices throws if they are not there.
abbrev del_indices : ℕ → Ledger → ChainState → Option ChainState
del_indices bhash ledger s = elim (lookup bhash s.block_indices) [
  | none ↦ none
  | some indices ↦ some (record { ledger = ledger; block_indices = erase bhash s.block_indices })
]

-- The transactions from the last to the first, then the miner's.
pub undo_block : ℕ → Block → ChainState → Option ChainState
unfolding undo_transactions
undo_block bhash block s =
    undo_transactions (reverse block.transactions) s.ledger
    >>= undo_transaction block.base_transaction
    >>= λ ledger. del_indices bhash ledger s
