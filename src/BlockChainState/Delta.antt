-- ===== src/BlockChainState/Delta.antt =====
-- `DeltaState` of Core/BlockChainState.cpp: changes over a parent that is only read.
pub mod Refinement
pub mod Apply
pub mod Images
pub mod Valid
pub mod Marks
pub mod Shown
mod Runs
use mathlib.Core.List.{get_last?}
use cryo_nero.Prelude.{
  ℕ, ◌+◌, ◌-◌, ◌%◌, ◌^◌, Bool, true, false, ◌&&◌, Option, none, some, List, [], ◌∷◌, ◌++◌, ltb, leb,
  ◌==◌, if◌then◌else◌, length, get_elem?,
}
use cryo_nero.Prelude.Maps.{Map, lookup, insert, erase}
use cryo_nero.BlockChainState.Interface.{Output, StateView, IBlockChainState}

pub record DeltaState : Type 0 where
  pub keyimages : Map ℕ
  -- For each amount the new outputs: unlock time and key.
  pub global_amounts : Map (List (ℕ × ℕ))
  pub spent_outputs : List (ℕ × ℕ)
  pub block_height : ℕ
  pub unlock_timestamp : ℕ
  pub parent_state : StateView

abbrev pub new_delta : ℕ → ℕ → StateView → DeltaState
new_delta block_height unlock_timestamp parent = record {
  keyimages = [];
  global_amounts = [];
  spent_outputs = [];
  block_height = block_height;
  unlock_timestamp = unlock_timestamp;
  parent_state = parent;
}

-- `insert` does not overwrite: a key that is there is a violation.
unfoldable pub store_keyimage : ℕ → ℕ → DeltaState → Option DeltaState
store_keyimage image height d = elim (lookup image d.keyimages) [
  | some old ↦ none
  | none ↦ some (record d { keyimages = insert image height d.keyimages })
]

pub delete_keyimage : ℕ → DeltaState → Option DeltaState
delete_keyimage image d = elim (lookup image d.keyimages) [
  | some old ↦ some (record d { keyimages = erase image d.keyimages })
  | none ↦ none
]

-- The height of an image of the delta is that of its block.
unfoldable pub read_keyimage : DeltaState → ℕ → Option ℕ
read_keyimage d image = elim (lookup image d.keyimages) [
  | none ↦ d.parent_state.read_keyimage image
  | some height ↦ some d.block_height
]

-- `m_global_amounts[amount]`, which is empty at first.
abbrev pub new_outputs : DeltaState → ℕ → List (ℕ × ℕ)
new_outputs d amount = elim (lookup amount d.global_amounts) [ none ↦ [] | some outputs ↦ outputs ]

unfoldable pub push_amount_output : ℕ → ℕ → ℕ → ℕ → DeltaState → DeltaState × ℕ
push_amount_output amount unlock_time height key d =
    let pg = d.parent_state.next_global_index_for_amount amount in
    let ga = new_outputs d amount ++ (unlock_time, key) ∷ [] in
    (
      record d { global_amounts = insert amount ga d.global_amounts },
      (pg + length ga % 2 ^ 32 + 2 ^ 32 - 1) % 2 ^ 32,
    )

-- The last element and the list without it.
abbrev pub split_last {ℓ} : {A : Type ℓ} → List A → Option (List A × A)
split_last [] = none
split_last (x ∷ xs) = elim (split_last xs) [
  | none ↦ some ([], x)
  | some (front, last) ↦ some (x ∷ front, last)
]

pub pop_amount_output : ℕ → ℕ → ℕ → DeltaState → Option DeltaState
pop_amount_output amount unlock_time key d = elim (split_last (new_outputs d amount)) [
  | none ↦ none
  | some (front, (last_time, last_key)) ↦
      if last_time == unlock_time && last_key == key
      then some (record d { global_amounts = insert amount front d.global_amounts })
      else none
]

unfoldable pub next_global_index_for_amount : DeltaState → ℕ → ℕ
next_global_index_for_amount d amount =
    let pg = d.parent_state.next_global_index_for_amount amount in
    elim (lookup amount d.global_amounts) [
      | none ↦ pg
      | some outputs ↦ (length outputs % 2 ^ 32 + pg) % 2 ^ 32
    ]

unfoldable pub read_amount_output : DeltaState → ℕ → ℕ → Option Output
read_amount_output d amount global_index =
    let pg = d.parent_state.next_global_index_for_amount amount in
    if ltb global_index pg
    then d.parent_state.read_amount_output amount global_index
    else elim (get_elem? (new_outputs d amount) (global_index - pg)) [
      | none ↦ none
      | some (unlock_time, key) ↦ some (record {
        unlock_time = unlock_time;
        public_key = key;
        height = d.block_height;
        spent = false;
      })
    ]

unfoldable pub spend_output : ℕ → ℕ → DeltaState → DeltaState
spend_output amount global_index d = record d {
  spent_outputs = d.spent_outputs ++ (amount, global_index) ∷ [];
}

-- `clear` keeps the time and the parent.
pub clear : ℕ → DeltaState → DeltaState
clear new_block_height d = record d {
  block_height = new_block_height;
  keyimages = [];
  global_amounts = [];
  spent_outputs = [];
}

abbrev pub delta_view : DeltaState → StateView
delta_view d = record {
  read_keyimage = read_keyimage d;
  next_global_index_for_amount = next_global_index_for_amount d;
  read_amount_output = read_amount_output d;
}

abbrev pub delta_interface : IBlockChainState DeltaState
delta_interface = record {
  view = delta_view;
  store_keyimage = store_keyimage;
  delete_keyimage = delete_keyimage;
  push_amount_output =
      λ amount unlock_time height key d. some (push_amount_output amount unlock_time height key d);
  pop_amount_output = pop_amount_output;
  spend_output = spend_output;
}

-- The three loops of `apply`, on any parent.
module _ {S : Type 0} (parent : IBlockChainState S) where
  unfoldable pub apply_keyimages : Map ℕ → S → Option S
  apply_keyimages [] s = some s
  apply_keyimages ((image, height) ∷ rest) s = elim (parent.store_keyimage image height s) [
    | none ↦ none
    | some s' ↦ apply_keyimages rest s'
  ]

  unfoldable pub push_all : ℕ → ℕ → List (ℕ × ℕ) → S → Option S
  push_all amount height [] s = some s
  push_all amount height ((unlock_time, key) ∷ rest) s =
      elim (parent.push_amount_output amount unlock_time height key s) [
        | none ↦ none
        | some (s', index) ↦ push_all amount height rest s'
      ]

  unfoldable pub apply_amounts : ℕ → Map (List (ℕ × ℕ)) → S → Option S
  unfolding push_all
  apply_amounts height [] s = some s
  apply_amounts height ((amount, outputs) ∷ rest) s = elim (push_all amount height outputs s) [
    | none ↦ none
    | some s' ↦ apply_amounts height rest s'
  ]

  unfoldable pub apply_spent : List (ℕ × ℕ) → S → S
  apply_spent [] s = s
  apply_spent ((amount, global_index) ∷ rest) s =
      apply_spent rest (parent.spend_output amount global_index s)

  unfoldable pub apply : DeltaState → S → Option S
  unfolding apply_keyimages apply_amounts apply_spent
  apply d s = elim (apply_keyimages d.keyimages s) [
    | none ↦ none
    | some s' ↦ elim (apply_amounts d.block_height d.global_amounts s') [
      | none ↦ none
      | some s'' ↦ some (apply_spent d.spent_outputs s'')
    ]
  ]
