-- ===== src/BlockChain.antt =====
-- `BlockChain` of Core/BlockChain.cpp: the tree of all blocks that are known, and the main chain in
-- it, which is a table from heights to hashes. A header, a block and the tables are read here
-- without the two caches of headers, which are those of BlockChain.Cache.
pub mod Children
pub mod Common
pub mod Ancestors
pub mod MainChain
pub mod Valid
pub mod Client
pub mod Reorganize
pub mod AddBlock
use cryo_nero.Prelude.{
  ℕ, zero, suc, ◌+◌, ◌-◌, ◌*◌, ◌%◌, ◌^◌, max, Bool, true, false, Option, none, some, List, [], ◌∷◌,
  ◌==◌, if◌then◌else◌, take,
}
use cryo_nero.Prelude.Maps.{Map, lookup, insert, erase}
use cryo_nero.CryptoNote.{Block}
use cryo_nero.Currency.{Currency, get_difficulty_blocks_count, get_timestamp_check_window}

-- `api::BlockHeader` of rpc_api.hpp
pub record BlockHeader : Type 0 where
  pub major_version : ℕ
  pub minor_version : ℕ
  pub timestamp : ℕ
  pub previous_block_hash : ℕ
  pub nonce : ℕ
  pub height : ℕ
  pub hash : ℕ
  pub reward : ℕ
  pub cumulative_difficulty : ℕ
  pub difficulty : ℕ
  pub base_reward : ℕ
  pub block_size : ℕ
  pub transactions_cumulative_size : ℕ
  pub already_generated_coins : ℕ
  pub already_generated_transactions : ℕ
  pub size_median : ℕ
  pub effective_size_median : ℕ
  pub timestamp_median : ℕ
  pub total_fee_amount : ℕ

-- A block with its binary form and those of its transactions, which the database keeps.
pub record PreparedBlock : Type 0 where
  pub block_data : List ℕ
  pub raw_base_transaction : List ℕ
  pub raw_transactions : List (List ℕ)
  pub block : Block
  pub major_version : ℕ
  pub minor_version : ℕ
  pub nonce : ℕ
  pub bid : ℕ
  pub base_transaction_hash : ℕ

pub record BlockTree : Type 0 where
  pub genesis_bid : ℕ
  -- By hash.
  pub headers : Map BlockHeader
  pub blocks : Map PreparedBlock
  -- The main chain, by height.
  pub chain : Map ℕ
  -- How many children a block has, if not one.
  pub children : Map ℕ
  -- The blocks without a child, by cumulative difficulty.
  pub tips : Map (Map (Unit {0}))
  -- `m_header_tip_window`, the newest first.
  pub header_tip_window : List BlockHeader
  pub tip_bid : ℕ
  pub tip_cumulative_difficulty : ℕ
  -- 2^32 - 1 if there is no block.
  pub tip_height : ℕ

pub read_header : BlockTree → ℕ → Option BlockHeader
read_header t bid = lookup bid t.headers

pub store_header : ℕ → BlockHeader → BlockTree → BlockTree
store_header bid header t = record t { headers = insert bid header t.headers }

pub read_block : BlockTree → ℕ → Option PreparedBlock
read_block t bid = lookup bid t.blocks

pub has_block : BlockTree → ℕ → Bool
has_block t bid = elim (lookup bid t.blocks) [ none ↦ false | some pb ↦ true ]

pub store_block : ℕ → PreparedBlock → BlockTree → BlockTree
store_block bid pb t = record t { blocks = insert bid pb t.blocks }

pub read_chain : BlockTree → ℕ → Option ℕ
read_chain t height = lookup height t.chain

pub in_chain : BlockTree → ℕ → ℕ → Bool
in_chain t height bid = elim (lookup height t.chain) [ none ↦ false | some hash ↦ hash == bid ]

-- `none` is the `invariant` of a window that is empty or ends elsewhere.
pub get_tip : BlockTree → Option BlockHeader
get_tip t = elim t.header_tip_window [
  | [] ↦ none
  | header ∷ older ↦ if t.tip_bid == header.hash then some header else none
]

pub largest_window : Currency → BlockTree → ℕ
largest_window currency t =
    let next = (t.tip_height + 1) % 2 ^ 32 in
    max (get_difficulty_blocks_count currency next)
      (max currency.reward_blocks_window (get_timestamp_check_window currency next))

-- The tree at its new tip, to which the loop then cuts the window.
abbrev pub pushed : BlockHeader → BlockTree → BlockTree
pushed header t =
    let height = (t.tip_height + 1) % 2 ^ 32 in
    record t {
      tip_height = height;
      chain = insert height header.hash t.chain;
      tip_bid = header.hash;
      tip_cumulative_difficulty = header.cumulative_difficulty;
      header_tip_window = header ∷ t.header_tip_window;
    }

-- The call of `tip_changed`, which is virtual, is made by the callers.
pub push_chain : Currency → BlockHeader → BlockTree → BlockTree
unfolding largest_window
push_chain currency header t =
    let next = pushed header t in
    record next {
      header_tip_window = take (largest_window currency next * 2) next.header_tip_window;
    }

-- A window that has run empty gets the header of the new tip.
abbrev pub refill : ℕ → Map BlockHeader → List BlockHeader → Option (List BlockHeader)
refill bid headers [] = elim (lookup bid headers) [ none ↦ none | some header ↦ some (header ∷ []) ]
refill bid headers (header ∷ older) = some (header ∷ older)

abbrev pub with_tip_difficulty : BlockTree → Option BlockTree
with_tip_difficulty t = elim (get_tip t) [
  | none ↦ none
  | some tip ↦ some (record t { tip_cumulative_difficulty = tip.cumulative_difficulty })
]

abbrev pub popped : ℕ → List BlockHeader → BlockTree → BlockTree
popped new_tip_bid window t = record t {
  header_tip_window = window;
  chain = erase t.tip_height t.chain;
  tip_height = t.tip_height - 1;
  tip_bid = new_tip_bid;
}

abbrev pub is_bid : ℕ → Option ℕ → Bool
is_bid bid none = false
is_bid bid (some hash) = hash == bid

abbrev pub pop_window : ℕ → List BlockHeader → BlockTree → Option BlockTree
pop_window new_tip_bid [] t = none
pop_window new_tip_bid (top ∷ older) t = elim (refill new_tip_bid t.headers older) [
  | none ↦ none
  | some window ↦ with_tip_difficulty (popped new_tip_bid window t)
]

-- `none` is an `invariant`, or a `del` of a height that is not in the table.
pub pop_chain : ℕ → BlockTree → Option BlockTree
unfolding get_tip
pop_chain new_tip_bid t = if t.tip_height == 0 then none else elim (lookup t.tip_height t.chain) [
  | none ↦ none
  | some top ↦
      if is_bid new_tip_bid (lookup (t.tip_height - 1) (erase t.tip_height t.chain))
      then pop_window new_tip_bid t.header_tip_window t
      else none
]
