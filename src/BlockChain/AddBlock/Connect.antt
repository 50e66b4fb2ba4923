-- ===== src/BlockChain/AddBlock/Connect.antt =====
-- `add_block` of Core/BlockChain.cpp with a block that is new: the tree stays valid, and the heaviest
-- block becomes the tip.
use cryo_nero.Prelude.{
  ℕ, ◌+◌, ◌-◌, ◌^◌, ◌<◌, ◌≡◌, ◌⊎◌, refl, sym, ap, ◌∙◌, arith, Bool, true, false, ◌&&◌, Option, none,
  some, ◌==◌, ltb, if◌then◌else◌, Bool-cases, ==_iff, inl, inr,
}
use cryo_nero.Prelude.Maps.{Map, lookup, lookup-insert}
use cryo_nero.Currency.{Currency}
use cryo_nero.BlockChain.{BlockHeader, PreparedBlock, BlockTree}
use cryo_nero.BlockChain.Children.{counter, is_tip}
use cryo_nero.BlockChain.Children.Counts.{CountsHold, count_children}
use cryo_nero.BlockChain.Client.{ChainClient, ChainNode}
use cryo_nero.BlockChain.MainChain.{SameTree}
use cryo_nero.BlockChain.Valid.{IsComplete, IsValid, SameTree-refl, Throws, Refuses}
use cryo_nero.BlockChain.Reorganize.Climb.{IsRecent, Climbed, redo_tip_lem}
use cryo_nero.BlockChain.Reorganize.Switch.{reorganize_blocks-IsValid}
use cryo_nero.BlockChain.AddBlock.{
  BroadcastAction, broadcast_all, ban, store_both, count_child, count_new, action_of, switch_tip,
  connect_stored, connect_block,
}
use cryo_nero.BlockChain.AddBlock.Stored.{count_new-Counted, store_both-eq, stored_tree}
use cryo_nero.BlockChainState.Redo.{done}

pub SameTree-CountsHold : (t t' : BlockTree) → SameTree t t' → CountsHold t → CountsHold t'
SameTree-CountsHold t t' same c = record {
  counts = λ a h e. counter_same a ∙ c.counts a h (back a e) ∙ sym (count_same a);
  tips = λ a k h e.
      tip_same a k
      ∙ c.tips a k h (back a e)
      ∙ ap (λ (n : ℕ). h.cumulative_difficulty == k && n == 0) (sym (count_same a));
  fresh = λ a k e.
      let (one, zero, off) = c.fresh a k (back a e) in
      (counter_same a ∙ one, count_same a ∙ zero, tip_same a k ∙ off);
}
  where
    back : {o : Option BlockHeader} (a : ℕ) → lookup a t'.headers ≡ o → lookup a t.headers ≡ o
    back a e = ap (λ (m : Map BlockHeader). lookup a m) (sym same.headers) ∙ e

    count_same : (a : ℕ) → count_children a t'.headers ≡ count_children a t.headers
    count_same a = ap (λ (m : Map BlockHeader). count_children a m) same.headers

    counter_same : (a : ℕ) → counter t' a ≡ counter t a
    counter_same a = ap (λ (m : Map ℕ). counter (record t { children = m }) a) same.children

    tip_same : (a k : ℕ) → is_tip t' k a ≡ is_tip t k a
    tip_same a k = ap (λ (m : Map (Map (Unit {0}))). is_tip (record t { tips = m }) k a) same.tips

module _ {S : Type 0} (currency : Currency) (client : ChainClient S)
    (pos : 0 < currency.reward_blocks_window) where
  -- How `switch_tip` ends on a new block: the tip is the block, if that is heavier and nothing was
  -- refused.
  record Switched (pb : PreparedBlock) (info : BlockHeader) (n n' : ChainNode S) (accepted : Bool)
      : Type 0 where
    valid : IsValid n'.tree
    same : SameTree n.tree n'.tree
    heavier :
        n.tree.tip_cumulative_difficulty < info.cumulative_difficulty
        → ((accepted ≡ true) × (n'.tree.tip_bid ≡ pb.bid)) ⊎ Refuses client
    lighter :
        ltb n.tree.tip_cumulative_difficulty info.cumulative_difficulty ≡ false → n'.tree ≡ n.tree

  switch_tip-Switched :
      (pb : PreparedBlock) (info : BlockHeader) (n : ChainNode S)
      → IsValid n.tree
      → IsRecent pb info n.tree
      → 0 < info.height
      → Throws client
        ⊎ ((accepted : Bool) × (n' : ChainNode S) × (switch_tip currency client pb info n
              ≡ done (accepted, n'))
            × Switched pb info n n' accepted)
  unfolding switch_tip
  switch_tip-Switched pb info n v r low =
      elim (Bool-cases (ltb n.tree.tip_cumulative_difficulty info.cumulative_difficulty)) [
        | inr light ↦ inr (
          true,
          n,
          rw light refl,
          record {
            valid = v;
            same = SameTree-refl n.tree;
            heavier = λ lt. absurd (ground arith);
            lighter = λ e. refl;
          },
        )
        | inl heavy ↦ elim (Bool-cases (n.tree.tip_bid == pb.block.previous_block_hash)) [
          | inl on_top ↦
              elim (redo_tip_lem currency client pos pb n pb.bid info v r.found low
                (sym r.parent ∙ sym ((==_iff _ _).0 on_top))) [
                  | inl throws ↦ inl throws
                  | inr (inl (run, no_redo)) ↦ inr (
                    false,
                    n,
                    rw (heavy, on_top, run) refl,
                    record {
                      valid = v;
                      same = SameTree-refl n.tree;
                      heavier = λ lt. inr no_redo;
                      lighter = λ e. cc;
                    },
                  )
                  | inr (inr (n', run, reaches)) ↦ inr (
                    true,
                    n',
                    rw (heavy, on_top, run) refl,
                    record {
                      valid = reaches.valid;
                      same = reaches.same;
                      heavier = λ lt. inl (refl, reaches.tip);
                      lighter = λ e. cc;
                    },
                  )
                ]
          | inr aside ↦
              elim (reorganize_blocks-IsValid currency client pb.bid pb info info n pos v r
                r.found) [
                  | inl throws ↦ inl throws
                  | inr (result, n', run, c) ↦ inr (
                    true,
                    n',
                    rw (heavy, aside, run) refl,
                    record {
                      valid = c.valid;
                      same = c.same;
                      heavier = λ lt. switched result c;
                      lighter = λ e. cc;
                    },
                  )
                ]
        ]
      ]
    where
      switched :
          (result : Bool) {n' : ChainNode S}
          → Climbed client n n' pb.bid result
          → ((◌≡◌ {A = Bool} true true) × (n'.tree.tip_bid ≡ pb.bid)) ⊎ Refuses client
      switched true c = inl (refl, c.reached refl)
      switched false c = inr (c.stopped refl)

  -- How a new block is connected.
  pub record Connected (pb : PreparedBlock) (info : BlockHeader) (n n' : ChainNode S)
      (action : BroadcastAction) : Type 0 where
    pub valid : IsValid n'.tree
    pub counts : CountsHold n'.tree
    pub heavier :
        n.tree.tip_cumulative_difficulty < info.cumulative_difficulty
        → ((action ≡ broadcast_all) × (n'.tree.tip_bid ≡ pb.bid)) ⊎ Refuses client

  stored_run :
      (pb : PreparedBlock) (p info : BlockHeader) (n n' : ChainNode S) (t : BlockTree)
      (accepted : Bool)
      → (pb.bid == n.tree.genesis_bid) ≡ false
      → count_new pb info (count_child pb p n.tree) ≡ some t
      → switch_tip currency client pb info (record n { tree = t }) ≡ done (accepted, n')
      → connect_stored currency client pb p info n
        ≡ done ((if accepted then action_of currency client info n'.tree else ban), n')
  unfolding connect_stored
  stored_run pb p info n n' t accepted e2 e3 e4 = rw (e2, e3, e4) refl

  acted :
      (pb : PreparedBlock) (info : BlockHeader) (accepted : Bool) (n' : ChainNode S)
      → info.hash ≡ pb.bid
      → ((accepted ≡ true) × (n'.tree.tip_bid ≡ pb.bid)) ⊎ Refuses client
      → (((if accepted then action_of currency client info n'.tree else ban) ≡ broadcast_all)
          × (n'.tree.tip_bid ≡ pb.bid))
        ⊎ Refuses client
  acted pb info accepted n' named (inl (took, tip)) =
      inl (rw (took, (==_iff info.hash n'.tree.tip_bid).1 (named ∙ sym tip)) refl, tip)
  acted pb info accepted n' named (inr no_redo) = inr no_redo

  connect_run :
      (pb : PreparedBlock) (p info : BlockHeader) (n n' : ChainNode S) (stored t : BlockTree)
      (accepted : Bool)
      → store_both pb info n.tree ≡ stored
      → (pb.bid == stored.genesis_bid) ≡ false
      → count_new pb info (count_child pb p stored) ≡ some t
      → switch_tip currency client pb info (record n { tree = t }) ≡ done (accepted, n')
      → connect_block currency client pb p info n
        ≡ done ((if accepted then action_of currency client info n'.tree else ban), n')
  unfolding connect_block
  connect_run pb p info n n' stored t accepted e1 e2 e3 e4 =
      ap (λ (x : BlockTree). connect_stored currency client pb p info (record n { tree = x })) e1
      ∙ stored_run pb p info (record n { tree = stored }) n' t accepted e2 e3 e4

  pub connect_block-Connected :
      (pb : PreparedBlock) (p info : BlockHeader) (n : ChainNode S)
      → IsValid n.tree
      → CountsHold n.tree
      → IsComplete pb
      → lookup pb.bid n.tree.headers ≡ none
      → lookup pb.block.previous_block_hash n.tree.headers ≡ some p
      → info.hash ≡ pb.bid
      → info.previous_block_hash ≡ pb.block.previous_block_hash
      → info.height ≡ p.height + 1
      → info.height < 2 ^ 32 - 1
      → count_children pb.block.previous_block_hash n.tree.headers + 1 < 2 ^ 32
      → Throws client
        ⊎ ((action : BroadcastAction) × (n' : ChainNode S) × (connect_block currency client pb p
                info n
              ≡ done (action, n'))
            × Connected pb info n n' action)
  connect_block-Connected pb p info n v c complete new found named prev height room few =
      let (t, counted) =
        count_new-Counted n.tree pb info p v new found named prev height room complete c few in
      let (g, is_there) = v.genesis in
      let isnt : (pb.bid == n.tree.genesis_bid) ≡ false = ground arith in
      let recent : IsRecent pb info t = record {
        found =
            ap (λ (m : Map BlockHeader). lookup pb.bid m) counted.headers
            ∙ ground (arith, lookup-insert pb.bid pb.bid info n.tree.headers);
        parent = sym prev;
      } in
      elim (switch_tip-Switched pb info (record n { tree = t }) counted.valid recent
        (omega arith)) [
          | inl throws ↦ inl throws
          | inr (accepted, n', run, s) ↦ inr (
            if accepted then action_of currency client info n'.tree else ban,
            n',
            connect_run pb p info n n'
                (stored_tree n.tree pb info p v new found named prev height room complete) t
                accepted
                (store_both-eq n.tree pb info p v new found named prev height room complete) isnt
                counted.run run,
            record {
              valid = s.valid;
              counts = SameTree-CountsHold t n'.tree s.same counted.counts;
              heavier = λ lt.
                  acted pb info accepted n' named
                    (s.heavier (rw counted.tip_cumulative_difficulty lt));
            },
          )
        ]
