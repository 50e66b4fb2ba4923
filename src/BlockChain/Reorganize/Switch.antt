-- ===== src/BlockChain/Reorganize/Switch.antt =====
-- `reorganize_blocks` of Core/BlockChain.cpp as a whole.
use cryo_nero.Prelude.{
  ℕ, ◌<◌, ◌≡◌, ◌⊎◌, inl, inr, refl, sym, Bool, true, false, some, List, [], ◌∷◌, length, reverse,
  ◌==◌, if◌then◌else◌, arith,
}
use mathlib.Core.Path.{subst}
use cryo_nero.Prelude.Maps.{lookup}
use cryo_nero.Currency.{Currency}
use cryo_nero.BlockChain.{BlockHeader, PreparedBlock, BlockTree, has_block}
use cryo_nero.BlockChain.Common.{get_common_block}
use cryo_nero.BlockChain.Common.Deepest.{get_common_block-Parts}
use cryo_nero.BlockChain.Client.{UndoneTransactions, ChainClient, ChainNode}
use cryo_nero.BlockChain.Ancestors.{Leads, Climbs, Climbs-reverse}
use cryo_nero.BlockChain.Valid.{IsValid, IsStored, SameTree-trans, Throws}
use cryo_nero.BlockChain.Reorganize.{has_blocks, undo_to, redo_chain, reorganize_blocks}
use cryo_nero.BlockChain.Reorganize.Undo.{undo_to_lem}
use cryo_nero.BlockChain.Reorganize.Climb.{IsRecent, IsRecent-same, Climbed, redo_chain_lem}
use cryo_nero.BlockChainState.Redo.{done}

has_blocks-Leads :
    (t : BlockTree) (chain : List ℕ) (a b : ℕ)
    → IsStored t.headers t.blocks
    → Leads t.headers chain a b
    → has_blocks t chain ≡ true
unfolding has_blocks has_block
has_blocks-Leads t [] a b stored same = refl
has_blocks-Leads t (x ∷ xs) a b stored (same, h, found, low, rest) =
    let (pb, block, link, complete) = stored a h found in
    let here : lookup x t.blocks ≡ some pb = rw same block in
    ground (arith, here, has_blocks-Leads t xs h.previous_block_hash b stored rest)

-- The tip of a valid tree has a header.
pub tip_header :
    (t : BlockTree) → IsValid t → (h : BlockHeader) × (lookup t.tip_bid t.headers ≡ some h)
tip_header t v =
    let (h, found, level) = v.chain.known t.tip_height t.tip_bid v.chain.top in (h, found)

reorganize_run :
    {S : Type 0} (currency : Currency) (client : ChainClient S) (switch : ℕ)
    (recent_pb : PreparedBlock) (recent_info : BlockHeader) (n : ChainNode S) (common : ℕ)
    (chain1 chain2 : List ℕ) (undone : UndoneTransactions) (below : ChainNode S) (result : Bool)
    (left : UndoneTransactions) (high : ChainNode S)
    → get_common_block n.tree n.tree.tip_bid switch ≡ some (common, chain1, chain2)
    → has_blocks n.tree chain2 ≡ true
    → undo_to currency client (length chain1) common [] n ≡ done (undone, below)
    → redo_chain currency client recent_pb recent_info (reverse chain2) undone below
      ≡ done (result, left, high)
    → reorganize_blocks currency client switch recent_pb recent_info n
      ≡ done (
        result,
        record high {
          state =
              client.on_reorganization left
                (if n.tree.tip_bid == common then false else true)
                high.tree
                high.state;
        },
      )
unfolding reorganize_blocks
reorganize_run currency client switch recent_pb recent_info n common chain1 chain2 undone below
      result left high run have run1 run2 =
    rw (run, have, run1, run2) refl

-- Unless a virtual call throws, `reorganize_blocks` ends with a valid tree of the same blocks,
-- whatever the two branches are. If it answers true, the tip is the block to switch to; it answers
-- false only if a block was refused. The recent block is one of the tree, and the window of the
-- reward is not empty.
pub reorganize_blocks-IsValid :
    {S : Type 0} (currency : Currency) (client : ChainClient S) (switch : ℕ)
    (recent_pb : PreparedBlock) (recent_info top : BlockHeader) (n : ChainNode S)
    → 0 < currency.reward_blocks_window
    → IsValid n.tree
    → IsRecent recent_pb recent_info n.tree
    → lookup switch n.tree.headers ≡ some top
    → Throws client
      ⊎ ((result : Bool) × (n' : ChainNode S) × (reorganize_blocks currency client switch recent_pb
              recent_info n
            ≡ done (result, n'))
          × Climbed client n n' switch result)
reorganize_blocks-IsValid currency client switch recent_pb recent_info top n pos v r e =
    let (tip, found) = tip_header n.tree v in
    let (common, chain1, chain2, run, parts) =
      get_common_block-Parts n.tree n.tree.tip_bid switch tip top v.tree found e in
    let have = has_blocks-Leads n.tree chain2 switch common v.stored parts.right in
    elim (undo_to_lem currency client n.tree.headers chain1 common [] n refl v parts.left) [
      | inl throws ↦ inl throws
      | inr (undone, below, run1, r1) ↦
          elim (redo_chain_lem currency client pos recent_pb recent_info n.tree.headers
            (reverse chain2) switch undone below r1.same.headers r1.valid
            (IsRecent-same recent_pb recent_info n.tree below.tree r1.same r)
            (subst (λ (b : ℕ). Climbs n.tree.headers (reverse chain2) b switch) (sym r1.tip)
              (Climbs-reverse n.tree.headers chain2 switch common parts.right))) [
                | inl throws ↦ inl throws
                | inr (result, left, high, run2, c) ↦ inr (
                  result,
                  record high {
                    state =
                        client.on_reorganization left
                          (if n.tree.tip_bid == common then false else true) high.tree high.state;
                  },
                  reorganize_run currency client switch recent_pb recent_info n common chain1 chain2
                      undone below result left high run have run1 run2,
                  record {
                    valid = c.valid;
                    same = SameTree-trans r1.same c.same;
                    reached = c.reached;
                    stopped = c.stopped;
                  },
                )
              ]
    ]
