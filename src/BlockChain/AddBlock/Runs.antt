-- ===== src/BlockChain/AddBlock/Runs.antt =====
-- Runs of the theorems on a tree of three blocks, of which two are on the main chain.
use cryo_nero.Prelude.{ℕ, zero, drop, map, ◌+◌, ◌≡◌, refl, arith, true, false, some, List, [], ◌∷◌}
use cryo_nero.Prelude.Maps.{lookup, insert, erase}
use cryo_nero.CryptoNote.{Transaction}
use cryo_nero.Currency.{new_currency}
use cryo_nero.BlockChain.{BlockHeader, PreparedBlock, BlockTree}
use cryo_nero.BlockChain.Client.{ChainClient, ChainNode}
use cryo_nero.BlockChain.Ancestors.{IsTree}
use cryo_nero.BlockChain.Common.{get_common_block}
use cryo_nero.BlockChain.Common.Deepest.{Parts, get_common_block-Parts}
use cryo_nero.BlockChain.Reorganize.{add_undone, reorganize_blocks}
use cryo_nero.BlockChain.AddBlock.{BroadcastAction, blank_header, add_block}
use cryo_nero.BlockChainState.Redo.{Redo, done}

abbrev no_transaction : Transaction
no_transaction = record {
  prefix = record { version = 1; unlock_time = 0; inputs = []; outputs = []; extra = [] };
  signatures = [];
}

abbrev block_at : ℕ → ℕ → PreparedBlock
block_at bid parent = record {
  block_data = [];
  raw_base_transaction = [];
  raw_transactions = [];
  block = record {
    previous_block_hash = parent;
    timestamp = 0;
    base_transaction = no_transaction;
    transaction_hashes = [];
    transactions = [];
  };
  major_version = 1;
  minor_version = 0;
  nonce = 0;
  bid = bid;
  base_transaction_hash = 0;
}

-- hash, parent, height, cumulative difficulty
abbrev header_at : ℕ → ℕ → ℕ → ℕ → BlockHeader
header_at bid parent height cd = record blank_header {
  major_version = 1;
  hash = bid;
  previous_block_hash = parent;
  height = height;
  cumulative_difficulty = cd;
}

-- 11 and 12 are children of 10, and the main chain ends with 11.
abbrev fork : BlockTree
fork = record {
  genesis_bid = 10;
  headers = (10, header_at 10 0 0 1) ∷ (11, header_at 11 10 1 2) ∷ (12, header_at 12 10 1 2) ∷ [];
  blocks = (10, block_at 10 0) ∷ (11, block_at 11 10) ∷ (12, block_at 12 10) ∷ [];
  chain = (0, 10) ∷ (1, 11) ∷ [];
  children = (10, 2) ∷ (11, 0) ∷ (12, 0) ∷ [];
  tips = (2, (11, tt) ∷ (12, tt) ∷ []) ∷ [];
  header_tip_window = header_at 11 10 1 2 ∷ header_at 10 0 0 1 ∷ [];
  tip_bid = 11;
  tip_cumulative_difficulty = 2;
  tip_height = 1;
}

at_11 : lookup 11 fork.headers ≡ some (header_at 11 10 1 2)
unfolding lookup
at_11 = refl

at_12 : lookup 12 fork.headers ≡ some (header_at 12 10 1 2)
unfolding lookup
at_12 = refl

fork-IsTree : IsTree fork.headers 10
unfolding lookup
fork-IsTree = record {
  hashes = λ a h e. ground arith;
  parents = λ a h e low. (header_at 10 0 0 1, ground arith, ground arith);
  root = λ a h e zero. ground arith;
  low = λ a h e. ground arith;
}

-- The state is the list of the blocks that are applied. Each block adds 1 to the difficulty.
abbrev client : ChainClient (List ℕ)
client = record {
  check_standalone_consensus = λ t s pb info prev_info.
      (record info { cumulative_difficulty = prev_info.cumulative_difficulty + 1 }, true);
  redo_block = λ pb info s. done (pb.bid ∷ s);
  undo_block = λ bid pb height s. done (drop 1 s);
  tip_changed = λ t s. s;
  on_reorganization = λ undone undone_blocks t s. s;
}

abbrev node : ChainNode (List ℕ)
node = record { tree = fork; state = 11 ∷ 10 ∷ [] }

-- Block 13 on the side branch makes that the main chain.
reorganized : Redo (BroadcastAction × BlockHeader × ChainNode (List ℕ)) → List ℕ × ℕ × List ℕ
reorganized (done (action, info, n)) =
    (map (λ (e : ℕ × ℕ). e.1) n.tree.chain, n.tree.tip_bid, n.state)
reorganized r = ([], 0, [])

add_block_run :
    reorganized (add_block (new_currency false) client (block_at 13 12) node)
    ≡ (10 ∷ 12 ∷ 13 ∷ [], 13, 13 ∷ 12 ∷ 10 ∷ [])
unfolding reorganized add_block reorganize_blocks lookup erase insert add_undone
add_block_run = refl

get_common_block-Parts_example :
    (common : ℕ) × (chain1 : List ℕ) × (chain2 : List ℕ) × (get_common_block fork 11 12
      ≡ some (common, chain1, chain2))
    × Parts fork fork-IsTree 11 12 common chain1 chain2
get_common_block-Parts_example =
    get_common_block-Parts fork 11 12 (header_at 11 10 1 2) (header_at 12 10 1 2) fork-IsTree at_11
      at_12
