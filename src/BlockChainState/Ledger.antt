-- ===== src/BlockChainState/Ledger.antt =====
-- The tables of `BlockChainState` in Core/BlockChainState.cpp: spent key images, and the outputs of
-- each amount by global index. The order of the database keys is that of the numbers
-- (Varint.Sqlite4.KeyOrder), so a table is a map of maps.
mod Top
mod Reads
pub mod Refinement
pub mod Pop
pub mod Keyimages
mod Runs
use cryo_nero.Prelude.{
  ℕ, zero, suc, ◌+◌, ◌-◌, ◌%◌, ◌^◌, max, Bool, true, false, not, ◌&&◌, Option, none, some, List, [],
  ◌∷◌, ltb, ◌==◌, if◌then◌else◌,
}
use cryo_nero.Prelude.Maps.{Map, lookup, insert, erase}
use cryo_nero.BlockChainState.Interface.{Output, StateView, IBlockChainState}

pub record Ledger : Type 0 where
  pub keyimages : Map ℕ
  pub outputs : Map (Map Output)
  -- The cache `m_next_gi_for_amount`.
  pub next_gi : Map ℕ

-- The database entries whose keys begin with this amount.
abbrev pub table : Ledger → ℕ → Map Output
table s amount = elim (lookup amount s.outputs) [ none ↦ [] | some outputs ↦ outputs ]

-- `put` with `nooverwrite` throws on a key that is there, `del` with `mustexist` on one that is not.
-- The removal of a transaction from the pool is not here.
unfoldable pub store_keyimage : ℕ → ℕ → Ledger → Option Ledger
store_keyimage image height s = elim (lookup image s.keyimages) [
  | some old ↦ none
  | none ↦ some (record s { keyimages = insert image height s.keyimages })
]

pub delete_keyimage : ℕ → Ledger → Option Ledger
delete_keyimage image s = elim (lookup image s.keyimages) [
  | some old ↦ some (record s { keyimages = erase image s.keyimages })
  | none ↦ none
]

unfoldable pub read_keyimage : Ledger → ℕ → Option ℕ
read_keyimage s image = lookup image s.keyimages

-- One more than the last key under the prefix, or 0: `rbegin` finds the largest.
abbrev pub behind_last : Map Output → ℕ
behind_last [] = 0
behind_last ((index, output) ∷ rest) = max (index + 1) (behind_last rest)

unfoldable pub next_global_index_for_amount : Ledger → ℕ → ℕ
next_global_index_for_amount s amount = elim (lookup amount s.next_gi) [
  | some next ↦ next
  | none ↦ behind_last (table s amount) % 2 ^ 32
]

-- The call fills the cache.
abbrev pub with_cache : ℕ → Ledger → Ledger
with_cache amount s = record s {
  next_gi = insert amount (next_global_index_for_amount s amount) s.next_gi;
}

unfoldable pub read_amount_output : Ledger → ℕ → ℕ → Option Output
read_amount_output s amount global_index = lookup global_index (table s amount)

abbrev pub put_output : ℕ → ℕ → Output → Ledger → Ledger
put_output amount global_index output s = record s {
  outputs = insert amount (insert global_index output (table s amount)) s.outputs;
}

-- `m_next_gi_for_amount[amount] = next`, after the call that fills the cache
abbrev pub set_next : ℕ → ℕ → Ledger → Ledger
set_next amount next s = record s { next_gi = insert amount next s.next_gi }

unfoldable pub push_amount_output : ℕ → ℕ → ℕ → ℕ → Ledger → Option (Ledger × ℕ)
push_amount_output amount unlock_time height key s =
    let my_gi = next_global_index_for_amount s amount in
    let output : Output = record {
      unlock_time = unlock_time;
      public_key = key;
      height = height;
      spent = false;
    } in
    elim (read_amount_output s amount my_gi) [
      | some old ↦ none
      | none ↦ some (
        set_next amount ((my_gi + 1) % 2 ^ 32)
            (put_output amount my_gi output (with_cache amount s)),
        my_gi,
      )
    ]

abbrev pub take_output : ℕ → ℕ → Ledger → Ledger
take_output amount global_index s = record s {
  outputs = insert amount (erase global_index (table s amount)) s.outputs;
}

-- `none` on an empty stack, on a missing entry, and on an entry that is not the one to be popped.
pub pop_amount_output : ℕ → ℕ → ℕ → Ledger → Option Ledger
pop_amount_output amount unlock_time key s =
    let next = next_global_index_for_amount s amount in
    if next == 0 then none else elim (read_amount_output s amount (next - 1)) [
      | none ↦ none
      | some unp ↦
          if not unp.spent && (unp.unlock_time == unlock_time && unp.public_key == key)
          then some (set_next amount (next - 1) (take_output amount (next - 1) s))
          else none
    ]

-- The private overload that also clears the mark.
unfoldable pub mark_output : ℕ → ℕ → Bool → Ledger → Ledger
mark_output amount global_index spent s = elim (read_amount_output s amount global_index) [
  | none ↦ s
  | some was ↦ put_output amount global_index (record was { spent = spent }) s
]

unfoldable pub spend_output : ℕ → ℕ → Ledger → Ledger
unfolding mark_output
spend_output amount global_index s = mark_output amount global_index true s

abbrev pub ledger_view : Ledger → StateView
ledger_view s = record {
  read_keyimage = read_keyimage s;
  next_global_index_for_amount = next_global_index_for_amount s;
  read_amount_output = read_amount_output s;
}

abbrev pub ledger_interface : IBlockChainState Ledger
ledger_interface = record {
  view = ledger_view;
  store_keyimage = store_keyimage;
  delete_keyimage = delete_keyimage;
  push_amount_output = push_amount_output;
  pop_amount_output = pop_amount_output;
  spend_output = spend_output;
}
