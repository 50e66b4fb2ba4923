-- ===== src/BlockChain/Children/Counts.antt =====
-- The counters of Core/BlockChain.cpp are the numbers of children in the tree, and the index of the
-- tips holds the blocks without a child.
use cryo_nero.Prelude.{
  ℕ, ◌+◌, ◌-◌, ◌%◌, ◌^◌, ◌<◌, ◌≡◌, ◌≢◌, refl, arith, Bool, true, false, not, ◌&&◌, none, some, [],
  ◌∷◌, ◌==◌, if◌then◌else◌, Bool-cases, inl, inr,
}
use cryo_nero.Prelude.Maps.{Map, lookup, insert, erase, lookup-insert, lookup-erase}
use cryo_nero.BlockChain.{BlockHeader, BlockTree}
use cryo_nero.BlockChain.Children.{
  counter, is_tip, tips_at, modify_children_counter, check_children_counter,
}

abbrev pub is_child : ℕ → BlockHeader → Bool
is_child bid h = not (h.height == 0) && h.previous_block_hash == bid

unfoldable pub count_children : ℕ → Map BlockHeader → ℕ
count_children bid [] = 0
count_children bid ((a, h) ∷ rest) = count_children bid rest + (if is_child bid h then 1 else 0)

-- A new header adds one child to its parent.
pub count_children-insert :
    (bid a : ℕ) (h : BlockHeader) (headers : Map BlockHeader)
    → lookup a headers ≡ none
    → count_children bid (insert a h headers)
      ≡ count_children bid headers + (if is_child bid h then 1 else 0)
unfolding count_children lookup insert
count_children-insert bid a h [] e = refl
count_children-insert bid a h ((b, g) ∷ rest) e = ground (arith, count_children-insert bid a h rest)

marked :
    (zero? : Bool) (bid a : ℕ) (bids : Map (Unit {0}))
    → (elim (lookup a (if zero? then insert bid tt bids else erase bid bids)) [
      | none ↦ false
      | some u ↦ true
    ])
      ≡ (if bid == a then zero? else (elim (lookup a bids) [ none ↦ false | some u ↦ true ]))
marked true bid a bids = ground (arith, lookup-insert bid a tt bids)
marked false bid a bids = ground (arith, lookup-erase bid a bids)

module _ (cd bid delta : ℕ) (t : BlockTree) where
  pub counter-modify :
      (a : ℕ)
      → counter (modify_children_counter cd bid delta t) a
        ≡ (if bid == a then (counter t bid + delta) % 2 ^ 32 else counter t a)
  unfolding modify_children_counter
  counter-modify a = ground (
    arith,
    lookup-insert bid a ((counter t bid + delta) % 2 ^ 32) t.children,
    lookup-erase bid a t.children,
  )

  pub is_tip-modify :
      (c a : ℕ)
      → is_tip (modify_children_counter cd bid delta t) c a
        ≡ (if cd == c && bid == a then (counter t bid + delta) % 2 ^ 32 == 0 else is_tip t c a)
  unfolding modify_children_counter
  is_tip-modify c a =
      let zero? : Bool = (counter t bid + delta) % 2 ^ 32 == 0 in
      let bids : Map (Unit {0}) =
        if zero? then insert bid tt (tips_at t cd) else erase bid (tips_at t cd) in
      elim (Bool-cases (cd == c)) [
        | inl same ↦
            ground (arith, lookup-insert cd c bids t.tips, marked zero? bid a (tips_at t cd))
        | inr other ↦ ground (arith, lookup-insert cd c bids t.tips)
      ]

-- The counter of a block is the number of its children, and the blocks without a child are the tips.
-- Of another hash there is no entry.
pub record CountsHold (t : BlockTree) : Type 0 where
  pub counts :
      (a : ℕ) (h : BlockHeader)
      → lookup a t.headers ≡ some h
      → counter t a ≡ count_children a t.headers
  pub tips :
      (a c : ℕ) (h : BlockHeader)
      → lookup a t.headers ≡ some h
      → is_tip t c a ≡ (h.cumulative_difficulty == c && count_children a t.headers == 0)
  pub fresh :
      (a c : ℕ)
      → lookup a t.headers ≡ none
      → (counter t a ≡ 1) × (count_children a t.headers ≡ 0) × (is_tip t c a ≡ false)

-- The tree with one block more, of which the parent is known.
module _ (t : BlockTree) (bid : ℕ) (h p : BlockHeader) (v : CountsHold t)
    (new : lookup bid t.headers ≡ none) (low : 0 < h.height)
    (found : lookup h.previous_block_hash t.headers ≡ some p)
    (few : count_children h.previous_block_hash t.headers + 1 < 2 ^ 32) where
  abbrev with_header : BlockTree
  with_header = record t { headers = insert bid h t.headers }

  abbrev with_child : BlockTree
  with_child = modify_children_counter p.cumulative_difficulty h.previous_block_hash 1 with_header

  abbrev with_new : BlockTree
  with_new = modify_children_counter h.cumulative_difficulty bid (2 ^ 32 - 1) with_child

  parent_apart : h.previous_block_hash ≢ bid
  parent_apart e = ground arith

  -- The check before the new block is counted succeeds.
  pub check_new : check_children_counter h.cumulative_difficulty bid 1 with_child ≡ true
  unfolding check_children_counter
  check_new = ground (
    arith,
    parent_apart,
    v.fresh bid h.cumulative_difficulty new,
    counter-modify p.cumulative_difficulty h.previous_block_hash 1 with_header bid,
    is_tip-modify p.cumulative_difficulty h.previous_block_hash 1 with_header
        h.cumulative_difficulty bid,
  )

  header-new :
      (a : ℕ) → lookup a with_new.headers ≡ (if bid == a then some h else lookup a t.headers)
  unfolding modify_children_counter
  header-new a = lookup-insert bid a h t.headers

  count-new :
      (a : ℕ)
      → count_children a with_new.headers
        ≡ count_children a t.headers + (if is_child a h then 1 else 0)
  unfolding modify_children_counter
  count-new a = count_children-insert a bid h t.headers new

  counter-new :
      (a : ℕ)
      → counter with_new a ≡ (
          if bid == a
          then 0
          else if h.previous_block_hash == a
          then counter t a + 1
          else counter t a)
  counter-new a = ground (
    arith,
    parent_apart,
    v.fresh bid 0 new,
    v.counts h.previous_block_hash p found,
    counter-modify h.cumulative_difficulty bid (2 ^ 32 - 1) with_child a,
    counter-modify p.cumulative_difficulty h.previous_block_hash 1 with_header a,
    counter-modify p.cumulative_difficulty h.previous_block_hash 1 with_header bid,
  )

  is_tip-new :
      (c a : ℕ)
      → is_tip with_new c a ≡ (
          if bid == a
          then (if h.cumulative_difficulty == c then true else false)
          else if h.previous_block_hash == a
          then false
          else is_tip t c a)
  is_tip-new c a = ground (
    arith,
    parent_apart,
    v.fresh bid c new,
    v.counts h.previous_block_hash p found,
    v.tips h.previous_block_hash c p found,
    is_tip-modify h.cumulative_difficulty bid (2 ^ 32 - 1) with_child c a,
    is_tip-modify p.cumulative_difficulty h.previous_block_hash 1 with_header c a,
    counter-modify p.cumulative_difficulty h.previous_block_hash 1 with_header bid,
  )

  pub with_new-CountsHold : CountsHold with_new
  with_new-CountsHold = record {
    counts = λ a g e. ground (
      arith,
      header-new a,
      count-new a,
      counter-new a,
      v.counts a g,
      v.fresh bid 0 new,
      parent_apart,
    );
    tips = λ a c g e. ground (
      arith,
      header-new a,
      count-new a,
      is_tip-new c a,
      v.tips a c g,
      v.fresh bid c new,
      parent_apart,
    );
    fresh = λ a c e. ground (
      arith,
      header-new a,
      count-new a,
      counter-new a,
      is_tip-new c a,
      v.fresh a c,
      parent_apart,
    );
  }
