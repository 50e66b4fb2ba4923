-- ===== src/BlockChain/AddBlock/Valid.antt =====
-- `add_block` of Core/BlockChain.cpp as a whole.
use cryo_nero.Prelude.{◌+◌, ◌^◌, ◌<◌, ◌≡◌, Bool, some}
use cryo_nero.Prelude.Maps.{lookup}
use cryo_nero.Currency.{Currency}
use cryo_nero.BlockChain.{BlockHeader, PreparedBlock, BlockTree}
use cryo_nero.BlockChain.Children.Counts.{count_children}
use cryo_nero.BlockChain.Client.{ChainClient, ChainNode}
use cryo_nero.BlockChain.Valid.{IsValid}
use cryo_nero.BlockChain.AddBlock.{known_header, new_header}

-- The check fills the header in, and leaves what identifies the block.
pub record KeepsBlock {S : Type 0} (client : ChainClient S) : Type 0 where
  pub keeps :
      (t : BlockTree) (s : S) (pb : PreparedBlock) (info prev_info : BlockHeader)
      → let checked = (client.check_standalone_consensus t s pb info prev_info).0 in
        (checked.hash ≡ info.hash)
        × (checked.previous_block_hash ≡ info.previous_block_hash)
        × (checked.height ≡ info.height)

-- There is room for one block more: its height and the counter of its parent do not wrap around.
abbrev pub HasRoom : PreparedBlock → BlockTree → Type 0
HasRoom pb t =
    (p : BlockHeader)
    → lookup pb.block.previous_block_hash t.headers ≡ some p
    → (p.height + 2 < 2 ^ 32) × (count_children pb.block.previous_block_hash t.headers + 1 < 2 ^ 32)

module _ {S : Type 0} (currency : Currency) (client : ChainClient S) (pb : PreparedBlock)
    (n : ChainNode S) (v : IsValid n.tree) where
  -- The header that is checked, and the answer.
  abbrev pub checked : BlockHeader → BlockHeader × Bool
  checked p =
      client.check_standalone_consensus n.tree n.state pb
        (new_header pb p (known_header n.tree pb.bid)) p
