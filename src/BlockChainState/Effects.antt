-- ===== src/BlockChainState/Effects.antt =====
-- What a block does to the abstract state behind Core/BlockChainState.cpp: one effect for each input
-- that spends an output, and one for each output, in the order of the block.
use cryo_nero.Prelude.{
  ℕ, ◌+◌, ◌^◌, ◌<◌, ◌≡◌, true, false, Option, none, some, List, [], ◌∷◌, ◌++◌, ◌==◌, if◌then◌else◌,
  length, get_or, get_elem?,
}
use cryo_nero.CryptoNote.{
  TransactionInput, coinbase, key_input, TransactionOutput, Transaction, Block,
}
use cryo_nero.BlockChainState.Interface.{Output}
use cryo_nero.BlockChainState.Stacks.{Stacks, push_at, mark_at}
use cryo_nero.BlockChainState.Ledger.{Ledger, read_keyimage}
use cryo_nero.BlockChainState.Ledger.Refinement.{LedgerHolds, unspent}

-- The stacks of outputs, and the heights at which key images were spent.
pub record AbstractState : Type 0 where
  pub stacks : Stacks
  pub images : ℕ → Option ℕ

pub data Effect : Type 0 where
  -- amount, output indexes, key image
  spend : ℕ → List ℕ → ℕ → Effect
  -- amount, unlock time, key
  push : ℕ → ℕ → ℕ → Effect

abbrev pub input_effects : List TransactionInput → List Effect
input_effects [] = []
input_effects (coinbase height ∷ inputs) = input_effects inputs
input_effects (key_input amount indexes image ∷ inputs) =
    spend amount indexes image ∷ input_effects inputs

abbrev pub output_effects : ℕ → List TransactionOutput → List Effect
output_effects unlock_time [] = []
output_effects unlock_time (output ∷ outputs) =
    push output.amount unlock_time output.key ∷ output_effects unlock_time outputs

abbrev pub effects : Transaction → List Effect
effects tx = input_effects tx.inputs ++ output_effects tx.unlock_time tx.outputs

abbrev pub all_effects : List Transaction → List Effect
all_effects [] = []
all_effects (tx ∷ txs) = effects tx ++ all_effects txs

abbrev pub block_effects : Block → List Effect
block_effects block = all_effects (block.base_transaction ∷ block.transactions)

-- A ring of one member marks it as spent.
abbrev pub mark_single : ℕ → List ℕ → Stacks → Stacks
mark_single amount indexes st =
    if length indexes == 1 then mark_at amount (get_or indexes 0 0) true st else st

abbrev pub happen : ℕ → Effect → AbstractState → AbstractState
happen height (spend amount indexes image) x = record {
  stacks = mark_single amount indexes x.stacks;
  images = λ k. if image == k then some height else x.images k;
}
happen height (push amount unlock_time key) x = record x {
  stacks = push_at amount (unspent unlock_time height key) x.stacks;
}

abbrev pub happen_all : ℕ → List Effect → AbstractState → AbstractState
happen_all height [] x = x
happen_all height (e ∷ es) x = happen_all height es (happen height e x)

abbrev pub IsUnspent : ℕ → ℕ → Stacks → Type 0
IsUnspent amount index st =
    (o : Output) × (get_elem? (st amount) index ≡ some o) × (o.spent ≡ false)

-- The image is not spent, a ring of one member is of an unspent output, and an index is a number of
-- 32 bits.
abbrev pub IsLegal : Effect → AbstractState → Type 0
IsLegal (spend amount indexes image) x =
    (x.images image ≡ none)
    × ((length indexes == 1) ≡ true → IsUnspent amount (get_or indexes 0 0) x.stacks)
IsLegal (push amount unlock_time key) x = length (x.stacks amount) + 1 < 2 ^ 32

abbrev pub AllLegal : ℕ → List Effect → AbstractState → Type 0
AllLegal height [] x = Unit {0}
AllLegal height (e ∷ es) x = IsLegal e x × AllLegal height es (happen height e x)

-- The tables hold the abstract state.
pub record Holds (s : Ledger) (x : AbstractState) : Type 0 where
  pub stacks : LedgerHolds s x.stacks
  pub images : (k : ℕ) → read_keyimage s k ≡ x.images k
