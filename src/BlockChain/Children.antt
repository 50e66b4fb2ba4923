-- ===== src/BlockChain/Children.antt =====
-- The counters of children and the index of the tips of Core/BlockChain.cpp.
pub mod Counts
use cryo_nero.Prelude.{
  ℕ, zero, suc, ◌+◌, ◌-◌, ◌%◌, ◌^◌, Bool, true, false, ◌&&◌, ◌||◌, not, Option, none, some, [], ◌∷◌,
  ◌==◌, if◌then◌else◌,
}
use cryo_nero.Prelude.Maps.{Map, lookup, insert, erase}
use cryo_nero.BlockChain.{BlockTree, read_header}

-- The database entries whose keys begin with this difficulty.
abbrev pub tips_at : BlockTree → ℕ → Map (Unit {0})
tips_at t cd = elim (lookup cd t.tips) [ none ↦ [] | some bids ↦ bids ]

abbrev pub is_tip : BlockTree → ℕ → ℕ → Bool
is_tip t cd bid = elim (lookup bid (tips_at t cd)) [ none ↦ false | some u ↦ true ]

-- The default is 1 when not stored.
abbrev pub counter : BlockTree → ℕ → ℕ
counter t bid = elim (lookup bid t.children) [ none ↦ 1 | some count ↦ count ]

abbrev store_counter : ℕ → ℕ → BlockTree → BlockTree
store_counter bid count t = record t {
  children = if count == 1 then erase bid t.children else insert bid count t.children;
}

abbrev store_tip : ℕ → ℕ → ℕ → BlockTree → BlockTree
store_tip cd bid count t = record t {
  tips =
      insert cd (if count == 0 then insert bid tt (tips_at t cd) else erase bid (tips_at t cd))
        t.tips;
}

-- `delta` is given modulo 2^32.
unfoldable pub modify_children_counter : ℕ → ℕ → ℕ → BlockTree → BlockTree
modify_children_counter cd bid delta t =
    let count = (counter t bid + delta) % 2 ^ 32 in
    store_tip cd bid count (store_counter bid count t)

-- Whether no `invariant` is violated.
unfoldable pub check_children_counter : ℕ → ℕ → ℕ → BlockTree → Bool
check_children_counter cd bid value t =
    (counter t bid == value)
    && (not (value == 0) || is_tip t cd bid)
    && (value == 0 || not (is_tip t cd bid))

abbrev first_bid : ℕ → Map (Unit {0}) → Option (ℕ × ℕ) → Option (ℕ × ℕ)
first_bid cd [] later = later
first_bid cd ((bid, u) ∷ bids) later = some (cd, bid)

abbrev first_tip : Map (Map (Unit {0})) → Option (ℕ × ℕ)
first_tip [] = none
first_tip ((cd, bids) ∷ tips) = first_bid cd bids (first_tip tips)

pub get_oldest_tip : BlockTree → Option (ℕ × ℕ)
get_oldest_tip t = first_tip t.tips

abbrev forget : ℕ → BlockTree → BlockTree
forget bid t = record t { blocks = erase bid t.blocks; headers = erase bid t.headers }

-- Outside is `none` for a violated `invariant`.
pub prune_branch : ℕ → ℕ → BlockTree → Option (BlockTree × Bool)
unfolding check_children_counter read_header modify_children_counter
prune_branch cd bid t =
    if bid == t.tip_bid
    then some (t, false)
    else if not (check_children_counter cd bid 0 t)
    then none
    else elim (read_header t bid) [
      | none ↦ none
      | some me ↦ elim (read_header t me.previous_block_hash) [
        | none ↦ none
        | some pa ↦ some (
          forget bid (
              modify_children_counter pa.cumulative_difficulty me.previous_block_hash (2 ^ 32 - 1)
                (modify_children_counter cd bid 1 t)),
          true,
        )
      ]
    ]

-- `for (i = 0; i != 10; ++i)`, with the rounds that are left
prune_oldest : ℕ → BlockTree → Option BlockTree
unfolding get_oldest_tip prune_branch
prune_oldest zero t = some t
prune_oldest (suc rounds) t = elim (get_oldest_tip t) [
  | none ↦ some t
  | some (cd, bid) ↦ elim (prune_branch cd bid t) [
    | none ↦ none
    | some (t', pruned) ↦ prune_oldest rounds t'
  ]
]

pub test_prune_oldest : BlockTree → Option BlockTree
unfolding prune_oldest
test_prune_oldest t = prune_oldest 10 t
