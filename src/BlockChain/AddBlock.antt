-- ===== src/BlockChain/AddBlock.antt =====
-- `add_block` of Core/BlockChain.cpp.
pub mod Stored
pub mod Connect
pub mod Valid
mod Runs
use cryo_nero.Prelude.{
  ℕ, ◌+◌, ◌-◌, ◌%◌, ◌^◌, Bool, true, false, ◌&&◌, not, Option, none, some, ltb, ◌==◌, if◌then◌else◌,
}
use cryo_nero.Prelude.Maps.{lookup}
use cryo_nero.Currency.{Currency}
use cryo_nero.BlockChain.{
  BlockHeader, PreparedBlock, BlockTree, read_header, has_block, store_block, store_header,
}
use cryo_nero.BlockChain.Children.{modify_children_counter, check_children_counter}
use cryo_nero.BlockChain.Client.{ChainClient, ChainNode}
use cryo_nero.BlockChain.Reorganize.{redo_tip, reorganize_blocks}
use cryo_nero.BlockChainState.Redo.{Redo, done, violated, ◌>>=◌, or_violated}

pub data BroadcastAction : Type 0 where
  broadcast_all nothing ban : BroadcastAction

-- `api::BlockHeader()`
abbrev pub blank_header : BlockHeader
blank_header = record {
  major_version = 0;
  minor_version = 0;
  timestamp = 0;
  previous_block_hash = 0;
  nonce = 0;
  height = 0;
  hash = 0;
  reward = 0;
  cumulative_difficulty = 0;
  difficulty = 0;
  base_reward = 0;
  block_size = 0;
  transactions_cumulative_size = 0;
  already_generated_coins = 0;
  already_generated_transactions = 0;
  size_median = 0;
  effective_size_median = 0;
  timestamp_median = 0;
  total_fee_amount = 0;
}

-- `info` holds the stored header, if there is one.
abbrev pub known_header : BlockTree → ℕ → BlockHeader
known_header t bid = elim (lookup bid t.headers) [ none ↦ blank_header | some header ↦ header ]

abbrev pub has_header : BlockTree → ℕ → Bool
has_header t bid = elim (lookup bid t.headers) [ none ↦ false | some header ↦ true ]

-- `prev_info`, whose height is -1 for the genesis block.
pub previous_header : PreparedBlock → BlockTree → Option BlockHeader
unfolding read_header
previous_header pb t =
    if pb.bid == t.genesis_bid
    then some (record blank_header { height = 2 ^ 32 - 1 })
    else read_header t pb.block.previous_block_hash

pub new_header : PreparedBlock → BlockHeader → BlockHeader → BlockHeader
new_header pb prev_info info = record info {
  major_version = pb.major_version;
  minor_version = pb.minor_version;
  timestamp = pb.block.timestamp;
  previous_block_hash = pb.block.previous_block_hash;
  nonce = pb.nonce;
  hash = pb.bid;
  height = (prev_info.height + 1) % 2 ^ 32;
}

-- The block and its header are stored.
pub store_both : PreparedBlock → BlockHeader → BlockTree → BlockTree
unfolding has_block store_block store_header
store_both pb info t =
    store_header pb.bid info (if has_block t pb.bid then t else store_block pb.bid pb t)

-- The counters after a block that is not the genesis block: its parent has one child more.
pub count_child : PreparedBlock → BlockHeader → BlockTree → BlockTree
unfolding modify_children_counter
count_child pb prev_info t =
    modify_children_counter prev_info.cumulative_difficulty pb.block.previous_block_hash 1 t

-- The new block has no child.
pub count_new : PreparedBlock → BlockHeader → BlockTree → Option BlockTree
unfolding check_children_counter modify_children_counter
count_new pb info t =
    if check_children_counter info.cumulative_difficulty pb.bid 1 t
    then some (modify_children_counter info.cumulative_difficulty pb.bid (2 ^ 32 - 1) t)
    else none

module _ {S : Type 0} (currency : Currency) (client : ChainClient S) where
  abbrev redo_genesis : PreparedBlock → BlockHeader → ChainNode S → Redo (ChainNode S)
  redo_genesis pb info n = redo_tip currency client pb info n >>= λ pushed. elim pushed [
    | none ↦ violated
    | some n' ↦ done n'
  ]

  abbrev pub count : PreparedBlock → BlockHeader → BlockHeader → ChainNode S → Redo (ChainNode S)
  count pb prev_info info n =
      (if pb.bid == n.tree.genesis_bid
        then redo_genesis pb info n
        else done (record n { tree = count_child pb prev_info n.tree }))
      >>= λ n'. or_violated (count_new pb info n'.tree) >>= λ t. done (record n' { tree = t })

  -- `false` is a block that is refused on top of the tip.
  pub switch_tip : PreparedBlock → BlockHeader → ChainNode S → Redo (Bool × ChainNode S)
  switch_tip pb info n =
      if not (ltb n.tree.tip_cumulative_difficulty info.cumulative_difficulty)
      then done (true, n)
      else if n.tree.tip_bid == pb.block.previous_block_hash
      then (redo_tip currency client pb info n >>= λ pushed. elim pushed [
        | none ↦ done (false, n)
        | some n' ↦ done (true, n')
      ])
      else (reorganize_blocks currency client pb.bid pb info n >>= λ (result, n'). done (true, n'))

  abbrev pub action_of : BlockHeader → BlockTree → BroadcastAction
  action_of info t = if info.hash == t.tip_bid then broadcast_all else nothing

  -- The block is counted, and made the tip if it is the heaviest.
  pub connect_stored :
      PreparedBlock → BlockHeader → BlockHeader → ChainNode S → Redo (BroadcastAction × ChainNode S)
  unfolding switch_tip count_child count_new
  connect_stored pb prev_info info n = count pb prev_info info n >>= λ counted.
      switch_tip pb info counted >>= λ (accepted, n').
      done ((if accepted then action_of info n'.tree else ban), n')

  pub connect_block :
      PreparedBlock → BlockHeader → BlockHeader → ChainNode S → Redo (BroadcastAction × ChainNode S)
  unfolding store_both connect_stored
  connect_block pb prev_info info n =
      connect_stored pb prev_info info (record n { tree = store_both pb info n.tree })

  -- The block with its parent. The header in the answer is the out parameter `info`.
  pub check_and_connect :
      PreparedBlock
      → BlockHeader
      → BlockHeader
      → ChainNode S
      → Redo (BroadcastAction × BlockHeader × ChainNode S)
  unfolding new_header connect_block
  check_and_connect pb prev_info info n =
      let (info', good) =
        client.check_standalone_consensus n.tree n.state pb (new_header pb prev_info info)
          prev_info in
      if not good
      then done (ban, info', n)
      else (connect_block pb prev_info info' n >>= λ (action, n'). done (action, info', n'))

  -- An exception ends the process.
  pub add_block : PreparedBlock → ChainNode S → Redo (BroadcastAction × BlockHeader × ChainNode S)
  unfolding has_block previous_header check_and_connect
  add_block pb n =
      let info = known_header n.tree pb.bid in
      if has_block n.tree pb.bid && has_header n.tree pb.bid
      then done (nothing, info, n)
      else elim (previous_header pb n.tree) [
        | none ↦ done (nothing, info, n)
        | some prev_info ↦ check_and_connect pb prev_info info n
      ]
