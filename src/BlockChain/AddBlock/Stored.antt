-- ===== src/BlockChain/AddBlock/Stored.antt =====
-- `add_block` of Core/BlockChain.cpp stores and counts a new block, and the tree stays valid.
use cryo_nero.Prelude.{
  ℕ, suc, ◌+◌, ◌-◌, ◌^◌, ◌<◌, ◌≡◌, refl, sym, ap, ◌∙◌, arith, Bool, true, false, none, some, ◌==◌,
  if◌then◌else◌, Bool-cases, inl, inr,
}
use cryo_nero.Prelude.Maps.{lookup, insert, lookup-insert}
use cryo_nero.BlockChain.{
  BlockHeader, PreparedBlock, BlockTree, has_block, store_block, store_header,
}
use cryo_nero.BlockChain.Children.{modify_children_counter}
use cryo_nero.BlockChain.Children.Counts.{
  CountsHold, count_children, check_new, with_new-CountsHold,
}
use cryo_nero.BlockChain.Ancestors.{IsTree}
use cryo_nero.BlockChain.MainChain.{ChainHolds}
use cryo_nero.BlockChain.Valid.{IsComplete, IsValid}
use cryo_nero.BlockChain.AddBlock.{store_both, count_child, count_new}

if_true : {A : Type 0} (b : Bool) (x y : A) → b ≡ true → (if b then x else y) ≡ x
if_true true x y e = refl
if_true false x y e = cc

-- The counters do not matter to the other fields.
modify-IsValid :
    (cd bid delta : ℕ) (t : BlockTree)
    → IsValid t
    → IsValid (modify_children_counter cd bid delta t)
unfolding modify_children_counter
modify-IsValid cd bid delta t v = record {
  tree = v.tree;
  chain = record {
    low = v.chain.low;
    top = v.chain.top;
    above = v.chain.above;
    known = v.chain.known;
    linked = v.chain.linked;
    difficulty = v.chain.difficulty;
    window = v.chain.window;
    filled = v.chain.filled;
  };
  stored = v.stored;
  paired = v.paired;
  genesis = v.genesis;
}

modify-keeps :
    (cd bid delta : ℕ) (t : BlockTree)
    → ((modify_children_counter cd bid delta t).headers ≡ t.headers)
      × ((modify_children_counter cd bid delta t).genesis_bid ≡ t.genesis_bid)
      × ((modify_children_counter cd bid delta t).tip_bid ≡ t.tip_bid)
      × ((modify_children_counter cd bid delta t).tip_cumulative_difficulty
          ≡ t.tip_cumulative_difficulty)
unfolding modify_children_counter
modify-keeps cd bid delta t = (refl, refl, refl, refl)

module _ (t : BlockTree) (pb : PreparedBlock) (info p : BlockHeader) (v : IsValid t)
    (new : lookup pb.bid t.headers ≡ none)
    (found : lookup pb.block.previous_block_hash t.headers ≡ some p) (named : info.hash ≡ pb.bid)
    (prev : info.previous_block_hash ≡ pb.block.previous_block_hash)
    (height : info.height ≡ p.height + 1) (room : info.height < 2 ^ 32 - 1)
    (complete : IsComplete pb) where
  abbrev pub stored_tree : BlockTree
  stored_tree = record t {
    headers = insert pb.bid info t.headers;
    blocks = insert pb.bid pb t.blocks;
  }

  pub store_both-eq : store_both pb info t ≡ stored_tree
  unfolding store_both has_block store_block store_header
  store_both-eq = rw (v.paired pb.bid new, has_block) refl

  at :
      (a : ℕ)
      → lookup a stored_tree.headers ≡ (if pb.bid == a then some info else lookup a t.headers)
  at a = lookup-insert pb.bid a info t.headers

  block_at :
      (a : ℕ) → lookup a stored_tree.blocks ≡ (if pb.bid == a then some pb else lookup a t.blocks)
  block_at a = lookup-insert pb.bid a pb t.blocks

  -- What was there stays.
  keeps :
      (a : ℕ) (h : BlockHeader)
      → lookup a t.headers ≡ some h
      → lookup a stored_tree.headers ≡ some h
  keeps a h e = ground (arith, at a)

  stored_tree-IsTree : IsTree stored_tree.headers t.genesis_bid
  stored_tree-IsTree = record {
    hashes = λ a h e. ground (arith, at a, v.tree.hashes a h);
    parents = λ a h e low. parent a h e low;
    root = λ a h e zero. ground (arith, at a, v.tree.root a h);
    low = λ a h e. ground (arith, at a, v.tree.low a h);
  }
    where
      parent :
          (a : ℕ) (h : BlockHeader)
          → lookup a (insert pb.bid info t.headers) ≡ some h
          → 0 < h.height
          → (q : BlockHeader) × (lookup h.previous_block_hash (insert pb.bid info t.headers)
              ≡ some q)
            × (q.height + 1 ≡ h.height)
      parent a h e low = elim (Bool-cases (pb.bid == a)) [
        | inl is ↦ (p, ground (arith, at a, at h.previous_block_hash), ground (arith, at a))
        | inr isnt ↦
            let (q, f, up) = v.tree.parents a h (ground (arith, at a)) low in
            (q, ground (arith, at h.previous_block_hash), up)
      ]

  stored_tree-ChainHolds : ChainHolds stored_tree
  stored_tree-ChainHolds = record {
    low = v.chain.low;
    top = v.chain.top;
    above = v.chain.above;
    known = λ k a e. let (h, f, level) = v.chain.known k a e in (h, keeps a h f, level);
    linked = λ k a h e f.
        let (g, f', level) = v.chain.known (suc k) a e in
        v.chain.linked k a h e (ground (arith, at a));
    difficulty = λ h e.
        let (g, f', level) = v.chain.known t.tip_height t.tip_bid v.chain.top in
        v.chain.difficulty h (ground (arith, at t.tip_bid));
    window = λ i h e.
        let (here, level, there) = v.chain.window i h e in (keeps h.hash h here, level, there);
    filled = v.chain.filled;
  }

  pub stored_tree-IsValid : IsValid stored_tree
  stored_tree-IsValid = record {
    tree = stored_tree-IsTree;
    chain = stored_tree-ChainHolds;
    stored = λ a h e. elim (Bool-cases (pb.bid == a)) [
      | inl is ↦ (pb, ground (arith, block_at a), ground (arith, at a), complete)
      | inr isnt ↦
          let (old, f, link, whole) = v.stored a h (ground (arith, at a)) in
          (old, ground (arith, block_at a), link, whole)
    ];
    paired = λ a e. ground (arith, at a, block_at a, v.paired a);
    genesis = let (h, e) = v.genesis in (h, keeps t.genesis_bid h e);
  }

  -- What is counted, over the tree with the new block.
  pub record Counted (t' : BlockTree) : Type 0 where
    pub run : count_new pb info (count_child pb p stored_tree) ≡ some t'
    pub valid : IsValid t'
    pub counts : CountsHold t'
    pub headers : t'.headers ≡ insert pb.bid info t.headers
    pub tip_bid : t'.tip_bid ≡ t.tip_bid
    pub tip_cumulative_difficulty : t'.tip_cumulative_difficulty ≡ t.tip_cumulative_difficulty

  pub count_new-Counted :
      CountsHold t
      → count_children pb.block.previous_block_hash t.headers + 1 < 2 ^ 32
      → (t' : BlockTree) × Counted t'
  unfolding count_new count_child
  count_new-Counted c few =
      let tb : BlockTree = record t { blocks = insert pb.bid pb t.blocks } in
      let cb : CountsHold tb = record { counts = c.counts; tips = c.tips; fresh = c.fresh } in
      let found' = ap (λ (b : ℕ). lookup b t.headers) prev ∙ found in
      let few' : count_children info.previous_block_hash t.headers + 1 < 2 ^ 32 = rw prev few in
      let low : 0 < info.height = omega arith in
      let t1 =
        modify_children_counter p.cumulative_difficulty info.previous_block_hash 1 stored_tree in
      let v1 =
        modify-IsValid p.cumulative_difficulty info.previous_block_hash 1 stored_tree
          stored_tree-IsValid in
      let k1 = modify-keeps p.cumulative_difficulty info.previous_block_hash 1 stored_tree in
      let k2 = modify-keeps info.cumulative_difficulty pb.bid (2 ^ 32 - 1) t1 in
      (
        modify_children_counter info.cumulative_difficulty pb.bid (2 ^ 32 - 1) t1,
        record {
          run =
              ap
                (λ (b : ℕ).
                  count_new pb info
                    (modify_children_counter p.cumulative_difficulty b 1 stored_tree))
                (sym prev)
              ∙ if_true _ _ _ (check_new tb pb.bid info p cb new low found' few');
          valid = modify-IsValid info.cumulative_difficulty pb.bid (2 ^ 32 - 1) t1 v1;
          counts = with_new-CountsHold tb pb.bid info p cb new low found' few';
          headers = k2.0 ∙ k1.0;
          tip_bid = k2.2 ∙ k1.2;
          tip_cumulative_difficulty = k2.3 ∙ k1.3;
        },
      )
