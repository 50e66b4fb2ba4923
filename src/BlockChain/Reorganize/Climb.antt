-- ===== src/BlockChain/Reorganize/Climb.antt =====
-- The second loop of `reorganize_blocks` in Core/BlockChain.cpp goes up to the new tip.
use cryo_nero.Prelude.{
  ℕ, ◌<◌, ◌≡◌, ◌⊎◌, inl, inr, refl, sym, ap, ◌∙◌, arith, Bool, true, false, none, some, List, [],
  ◌∷◌, ◌==◌, Bool-cases, ==_iff,
}
use mathlib.Core.Path.{subst}
use cryo_nero.Prelude.Maps.{Map, lookup}
use cryo_nero.Currency.{Currency}
use cryo_nero.BlockChain.{
  BlockHeader, PreparedBlock, BlockTree, read_block, read_header, push_chain,
}
use cryo_nero.BlockChain.Client.{UndoneTransactions, ChainClient, ChainNode}
use cryo_nero.BlockChain.Ancestors.{Climbs, some-injective}
use cryo_nero.BlockChain.MainChain.{
  SameTree, push_chain-ChainHolds, push_chain-SameTree, tip-push_chain,
}
use cryo_nero.BlockChain.MainChain.Pop.{tip_level}
use cryo_nero.BlockChain.Valid.{
  IsValid, SameTree-IsValid, SameTree-refl, SameTree-trans, with_result, with_error, with_exception,
  ended, Throws, Refuses,
}
use cryo_nero.BlockChain.Reorganize.{push_node, redo_tip, next_block, redo_chain, erase_all}
use cryo_nero.BlockChain.Reorganize.Undo.{Reaches}
use cryo_nero.BlockChainState.Redo.{done}

-- The recent block is one of the tree.
pub record IsRecent (recent_pb : PreparedBlock) (recent_info : BlockHeader) (t : BlockTree)
    : Type 0 where
  pub found : lookup recent_pb.bid t.headers ≡ some recent_info
  pub parent : recent_pb.block.previous_block_hash ≡ recent_info.previous_block_hash

pub IsRecent-same :
    (recent_pb : PreparedBlock) (recent_info : BlockHeader) (t t' : BlockTree)
    → SameTree t t'
    → IsRecent recent_pb recent_info t
    → IsRecent recent_pb recent_info t'
IsRecent-same recent_pb recent_info t t' same r = record {
  found = ap (λ (m : Map BlockHeader). lookup recent_pb.bid m) same.headers ∙ r.found;
  parent = r.parent;
}

-- How the loop ends: at the top, or at a block that is refused.
pub record Climbed {S : Type 0} (client : ChainClient S) (n n' : ChainNode S) (top : ℕ)
    (result : Bool) : Type 0 where
  pub valid : IsValid n'.tree
  pub same : SameTree n.tree n'.tree
  pub reached : result ≡ true → n'.tree.tip_bid ≡ top
  pub stopped : result ≡ false → Refuses client

module _ {S : Type 0} (currency : Currency) (client : ChainClient S)
    (pos : 0 < currency.reward_blocks_window) where
  -- How `redo_tip` ends: the block is pushed, or refused.
  pub redo_tip_lem :
      (pb : PreparedBlock) (n : ChainNode S) (bid : ℕ) (h : BlockHeader)
      → IsValid n.tree
      → lookup bid n.tree.headers ≡ some h
      → 0 < h.height
      → h.previous_block_hash ≡ n.tree.tip_bid
      → Throws client
        ⊎ ((redo_tip currency client pb h n ≡ done none) × Refuses client)
        ⊎ ((n' : ChainNode S) × (redo_tip currency client pb h n ≡ done (some n'))
            × Reaches currency client n n' bid)
  unfolding redo_tip push_node
  redo_tip_lem pb n bid h v e low prev = elim (ended (client.redo_block pb h n.state)) [
    | with_exception x ↦ inl (inl (pb, h, n.state, x))
    | with_error error height x ↦ inr (inl (rw (x, redo_tip) refl, (pb, h, n.state, λ s y. cc)))
    | with_result s x ↦
        let named : h.hash ≡ bid = v.tree.hashes bid h e in
        let (p, found, up) = v.tree.parents bid h e low in
        let e' : lookup h.hash n.tree.headers ≡ some h =
          ap (λ (b : ℕ). lookup b n.tree.headers) named ∙ e in
        let level =
          tip_level n.tree p v.chain (ap (λ (b : ℕ). lookup b n.tree.headers) (sym prev) ∙ found) in
        let c =
          push_chain-ChainHolds currency n.tree h pos v.chain e' (omega arith) (v.tree.low bid h e)
            prev in
        let same = push_chain-SameTree currency n.tree h in
        inr (
          inr (
            push_node currency client h n.tree s,
            rw (x, redo_tip) refl,
            record {
              valid = SameTree-IsValid n.tree (push_chain currency h n.tree) same c v;
              same = same;
              tip = tip-push_chain currency n.tree h ∙ named;
            },
          ))
  ]

  module _ (recent_pb : PreparedBlock) (recent_info : BlockHeader) where
    next_block_lem :
        (t : BlockTree) (bid : ℕ) (h : BlockHeader)
        → IsValid t
        → IsRecent recent_pb recent_info t
        → lookup bid t.headers ≡ some h
        → h.previous_block_hash ≡ t.tip_bid
        → (pb : PreparedBlock) × (next_block currency client recent_pb recent_info bid t
            ≡ done (some (pb, h)))
    unfolding next_block read_block read_header
    next_block_lem t bid h v r e prev = elim (Bool-cases (bid == recent_pb.bid)) [
      | inl is ↦
          let same : recent_info ≡ h =
            some-injective r.found
              (ap (λ (b : ℕ). lookup b t.headers) (sym ((==_iff _ _).0 is)) ∙ e) in
          let at : (recent_pb.block.previous_block_hash == t.tip_bid) ≡ true =
            (==_iff _ _).1
              (r.parent ∙ ap (λ (x : BlockHeader). x.previous_block_hash) same ∙ prev) in
          (recent_pb, rw (is, at) (ap (λ (x : BlockHeader). done (some (recent_pb, x))) same))
      | inr isnt ↦
          let (pb, stored, link, complete) = v.stored bid h e in
          let at : (pb.block.previous_block_hash == t.tip_bid) ≡ true =
            (==_iff _ _).1 (link ∙ prev) in
          (pb, rw (isnt, stored, at, e) refl)
    ]

    pub redo_chain_lem :
        (headers : Map BlockHeader) (bids : List ℕ) (top : ℕ) (undone : UndoneTransactions)
        (n : ChainNode S)
        → n.tree.headers ≡ headers
        → IsValid n.tree
        → IsRecent recent_pb recent_info n.tree
        → Climbs headers bids n.tree.tip_bid top
        → Throws client
          ⊎ ((result : Bool) × (left : UndoneTransactions) × (n' : ChainNode S) × (redo_chain
                  currency client recent_pb recent_info bids undone n
                ≡ done (result, left, n'))
              × Climbed client n n' top result)
    unfolding redo_chain
    redo_chain_lem headers [] top undone n eq v r same = inr (
      true,
      undone,
      n,
      refl,
      record { valid = v; same = SameTree-refl n.tree; reached = λ e. same; stopped = λ e. cc },
    )
    redo_chain_lem headers (bid ∷ bids) top undone n eq v r (h, found, low, prev, rest) =
        let e = ap (λ (m : Map BlockHeader). lookup bid m) eq ∙ found in
        let (pb, next) = next_block_lem n.tree bid h v r e prev in
        elim (redo_tip_lem pb n bid h v e low prev) [
          | inl throws ↦ inl throws
          | inr (inl (run, no_redo)) ↦ inr (
            false,
            undone,
            n,
            rw (next, run) refl,
            record {
              valid = v;
              same = SameTree-refl n.tree;
              reached = λ x. cc;
              stopped = λ x. no_redo;
            },
          )
          | inr (inr (n1, run, r1)) ↦
              elim (redo_chain_lem headers bids top (erase_all pb.block.transaction_hashes undone)
                n1 (r1.same.headers ∙ eq) r1.valid
                (IsRecent-same recent_pb recent_info n.tree n1.tree r1.same r)
                (subst (λ (b : ℕ). Climbs headers bids b top) (sym r1.tip) rest)) [
                  | inl throws ↦ inl throws
                  | inr (result, left, n2, run2, c) ↦ inr (
                    result,
                    left,
                    n2,
                    rw (next, run, run2) refl,
                    record {
                      valid = c.valid;
                      same = SameTree-trans r1.same c.same;
                      reached = c.reached;
                      stopped = c.stopped;
                    },
                  )
                ]
        ]
