-- ===== src/BlockChain/Client.antt =====
-- What `BlockChain` of Core/BlockChain.hpp leaves to the class that is derived from it: its virtual
-- functions, over the state of that class.
use cryo_nero.Prelude.{ℕ, Bool, List}
use cryo_nero.Prelude.Maps.{Map}
use cryo_nero.CryptoNote.{Transaction}
use cryo_nero.BlockChain.{BlockHeader, PreparedBlock, BlockTree}
use cryo_nero.BlockChainState.Redo.{Redo}

-- By hash, with their binary form.
abbrev pub UndoneTransactions : Type 0
UndoneTransactions = Map (Transaction × List ℕ)

pub record ChainClient (S : Type 0) : Type 0 where
  -- The header of the block with what the check fills in, the header of its parent; whether the
  -- error text is empty.
  pub check_standalone_consensus :
      BlockTree → S → PreparedBlock → BlockHeader → BlockHeader → BlockHeader × Bool
  pub redo_block : PreparedBlock → BlockHeader → S → Redo S
  pub undo_block : ℕ → PreparedBlock → ℕ → S → Redo S
  pub tip_changed : BlockTree → S → S
  pub on_reorganization : UndoneTransactions → Bool → BlockTree → S → S

-- The chain with the state of the derived class.
pub record ChainNode (S : Type 0) : Type 0 where
  pub tree : BlockTree
  pub state : S
