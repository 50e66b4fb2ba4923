-- ===== src/BlockChain/Reorganize.antt =====
-- `reorganize_blocks` of Core/BlockChain.cpp.
pub mod Undo
pub mod Climb
pub mod Switch
use cryo_nero.Prelude.{
  ℕ, zero, suc, Bool, true, false, ◌&&◌, Option, none, some, List, [], ◌∷◌, ◌==◌, if◌then◌else◌,
  length, reverse,
}
use cryo_nero.Prelude.Maps.{insert, erase, contains}
use cryo_nero.CryptoNote.{Transaction}
use cryo_nero.Currency.{Currency}
use cryo_nero.BlockChain.{
  BlockHeader, PreparedBlock, BlockTree, read_header, read_block, has_block, push_chain, pop_chain,
}
use cryo_nero.BlockChain.Common.{get_common_block}
use cryo_nero.BlockChain.Client.{UndoneTransactions, ChainClient, ChainNode}
use cryo_nero.BlockChainState.Redo.{Redo, done, refused, violated, ◌>>=◌, or_violated}

-- `insert` of a `std::map` keeps what is there; `at` throws behind the end.
unfoldable pub add_undone :
    List ℕ → List Transaction → List (List ℕ) → UndoneTransactions → Option UndoneTransactions
add_undone hashes [] raws undone = some undone
add_undone [] (tx ∷ txs) raws undone = none
add_undone (tid ∷ hashes) (tx ∷ txs) [] undone = none
add_undone (tid ∷ hashes) (tx ∷ txs) (raw ∷ raws) undone =
    add_undone hashes txs raws (if contains tid undone then undone else insert tid (tx, raw) undone)

unfoldable pub erase_all : List ℕ → UndoneTransactions → UndoneTransactions
erase_all [] undone = undone
erase_all (tid ∷ hashes) undone = erase_all hashes (erase tid undone)

unfoldable pub has_blocks : BlockTree → List ℕ → Bool
unfolding has_block
has_blocks t [] = true
has_blocks t (bid ∷ bids) = has_block t bid && has_blocks t bids

module _ {S : Type 0} (currency : Currency) (client : ChainClient S) where
  -- `pop_chain` and `tip_changed`
  unfoldable pub pop_node : ℕ → BlockTree → S → Redo (ChainNode S)
  unfolding pop_chain
  pop_node bid t s = or_violated (pop_chain bid t) >>= λ t'.
      done (record { tree = t'; state = client.tip_changed t' s })

  -- `push_chain`, with `tip_changed`
  unfoldable pub push_node : BlockHeader → BlockTree → S → ChainNode S
  unfolding push_chain
  push_node header t s =
      let t' = push_chain currency header t in record { tree = t'; state = client.tip_changed t' s }

  -- One round of the first loop.
  unfoldable pub undo_tip :
      UndoneTransactions → ChainNode S → Redo (UndoneTransactions × ChainNode S)
  unfolding read_block pop_node
  undo_tip undone n = or_violated (read_block n.tree n.tree.tip_bid) >>= λ pb.
      client.undo_block n.tree.tip_bid pb n.tree.tip_height n.state >>= λ s.
      or_violated
        (add_undone pb.block.transaction_hashes pb.block.transactions pb.raw_transactions undone)
      >>= λ undone'. pop_node pb.block.previous_block_hash n.tree s >>= λ n'. done (undone', n')

  -- `while (get_tip_bid() != common)`, which `violated` ends too when the fuel is out.
  unfoldable pub undo_to :
      ℕ → ℕ → UndoneTransactions → ChainNode S → Redo (UndoneTransactions × ChainNode S)
  unfolding undo_tip
  undo_to zero common undone n = if n.tree.tip_bid == common then done (undone, n) else violated
  undo_to (suc fuel) common undone n = elim (n.tree.tip_bid == common) [
    | true ↦ done (undone, n)
    | false ↦ undo_tip undone n >>= λ (undone', n'). undo_to fuel common undone' n'
  ]

  -- `redo_block` and `push_chain`. A block that is refused changes nothing: `none`.
  unfoldable pub redo_tip : PreparedBlock → BlockHeader → ChainNode S → Redo (Option (ChainNode S))
  unfolding push_node
  redo_tip pb info n = elim (client.redo_block pb info n.state) [
    | done s ↦ done (some (push_node info n.tree s))
    | refused error height ↦ done none
    | violated ↦ violated
  ]

  -- The block with its header: the recent one is at hand, another is read. `done none` ends the loop.
  unfoldable pub next_block :
      PreparedBlock → BlockHeader → ℕ → BlockTree → Redo (Option (PreparedBlock × BlockHeader))
  unfolding read_block read_header
  next_block recent_pb recent_info bid t =
      if bid == recent_pb.bid
      then (if recent_pb.block.previous_block_hash == t.tip_bid
          then done (some (recent_pb, recent_info))
          else violated)
      else elim (read_block t bid) [
        | none ↦ done none
        | some pb ↦
            if pb.block.previous_block_hash == t.tip_bid
            then (or_violated (read_header t bid) >>= λ info. done (some (pb, info)))
            else violated
      ]

  -- `while (!chain2.empty())`, over the blocks from the common one upwards.
  unfoldable pub redo_chain :
      PreparedBlock
      → BlockHeader
      → List ℕ
      → UndoneTransactions
      → ChainNode S
      → Redo (Bool × UndoneTransactions × ChainNode S)
  unfolding redo_tip next_block
  redo_chain recent_pb recent_info [] undone n = done (true, undone, n)
  redo_chain recent_pb recent_info (bid ∷ bids) undone n =
      next_block recent_pb recent_info bid n.tree >>= λ found. elim found [
        | none ↦ done (false, undone, n)
        | some (pb, info) ↦ redo_tip pb info n >>= λ pushed. elim pushed [
          | none ↦ done (false, undone, n)
          | some n' ↦
              redo_chain recent_pb recent_info bids (erase_all pb.block.transaction_hashes undone)
                n'
        ]
      ]

  -- `undone_blocks` is set when the loop runs at all.
  unfoldable pub reorganize_blocks :
      ℕ → PreparedBlock → BlockHeader → ChainNode S → Redo (Bool × ChainNode S)
  unfolding get_common_block has_blocks undo_to redo_chain
  reorganize_blocks switch_to_chain recent_pb recent_info n =
      or_violated (get_common_block n.tree n.tree.tip_bid switch_to_chain)
      >>= λ (common, chain1, chain2).
          if has_blocks n.tree chain2
          then (undo_to (length chain1) common [] n >>= λ (undone, below).
              redo_chain recent_pb recent_info (reverse chain2) undone below
              >>= λ (result, left, top). done (
                result,
                record top {
                  state =
                      client.on_reorganization left
                        (if n.tree.tip_bid == common then false else true) top.tree top.state;
                },
              ))
          else done (false, n)
