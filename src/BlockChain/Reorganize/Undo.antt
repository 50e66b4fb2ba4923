-- ===== src/BlockChain/Reorganize/Undo.antt =====
-- The first loop of `reorganize_blocks` in Core/BlockChain.cpp goes down to the common block.
use cryo_nero.Prelude.{
  ℕ, ◌≤◌, ◌<◌, ◌≡◌, ◌⊎◌, inl, inr, refl, sym, ap, ◌∙◌, arith, some, List, [], ◌∷◌, ◌==◌,
  if◌then◌else◌, length, Bool-cases, ==_iff,
}
use mathlib.Core.Path.{subst}
use cryo_nero.Prelude.Maps.{Map, lookup, insert, contains}
use cryo_nero.CryptoNote.{Transaction}
use cryo_nero.Currency.{Currency}
use cryo_nero.BlockChain.{BlockHeader, PreparedBlock, BlockTree, read_block, pop_chain}
use cryo_nero.BlockChain.Client.{UndoneTransactions, ChainClient, ChainNode}
use cryo_nero.BlockChain.Ancestors.{Leads}
use cryo_nero.BlockChain.MainChain.{SameTree}
use cryo_nero.BlockChain.MainChain.Pop.{pop_chain-ChainHolds, tip_level}
use cryo_nero.BlockChain.Valid.{
  IsValid, SameTree-IsValid, SameTree-refl, SameTree-trans, with_result, with_error, with_exception,
  ended, Throws,
}
use cryo_nero.BlockChain.Reorganize.{add_undone, pop_node, undo_tip, undo_to}
use cryo_nero.BlockChainState.Redo.{done}

add_undone_total :
    (hashes : List ℕ) (txs : List Transaction) (raws : List (List ℕ)) (undone : UndoneTransactions)
    → length txs ≤ length hashes
    → length txs ≤ length raws
    → (after : UndoneTransactions) × (add_undone hashes txs raws undone ≡ some after)
unfolding add_undone
add_undone_total hashes [] raws undone h r = (undone, refl)
add_undone_total [] (tx ∷ txs) raws undone h r = absurd (omega arith)
add_undone_total (tid ∷ hashes) (tx ∷ txs) [] undone h r = absurd (omega arith)
add_undone_total (tid ∷ hashes) (tx ∷ txs) (raw ∷ raws) undone h r =
    add_undone_total hashes txs raws
      (if contains tid undone then undone else insert tid (tx, raw) undone) (omega arith)
      (omega arith)

module _ {S : Type 0} (currency : Currency) (client : ChainClient S) where
  -- The tree of the first node with another main chain, which ends at the block.
  pub record Reaches (n n' : ChainNode S) (bid : ℕ) : Type 0 where
    pub valid : IsValid n'.tree
    pub same : SameTree n.tree n'.tree
    pub tip : n'.tree.tip_bid ≡ bid

  undo_tip_run :
      (undone : UndoneTransactions) (n : ChainNode S) (pb : PreparedBlock) (s : S)
      (undone' : UndoneTransactions) (t' : BlockTree)
      → lookup n.tree.tip_bid n.tree.blocks ≡ some pb
      → client.undo_block n.tree.tip_bid pb n.tree.tip_height n.state ≡ done s
      → add_undone pb.block.transaction_hashes pb.block.transactions pb.raw_transactions undone
        ≡ some undone'
      → pop_chain pb.block.previous_block_hash n.tree ≡ some t'
      → undo_tip currency client undone n
        ≡ done (undone', record { tree = t'; state = client.tip_changed t' s })
  unfolding undo_tip pop_node read_block
  undo_tip_run undone n pb s undone' t' stored x added pop = rw (stored, x, added, pop) refl

  undo_tip_lem :
      (undone : UndoneTransactions) (n : ChainNode S) (h : BlockHeader)
      → IsValid n.tree
      → lookup n.tree.tip_bid n.tree.headers ≡ some h
      → 0 < h.height
      → Throws client
        ⊎ ((undone' : UndoneTransactions) × (n' : ChainNode S) × (undo_tip currency client undone n
              ≡ done (undone', n'))
            × Reaches n n' h.previous_block_hash)
  undo_tip_lem undone n h v e low =
      let (pb, stored, prev, complete) = v.stored n.tree.tip_bid h e in
      let (undone', added) =
        add_undone_total pb.block.transaction_hashes pb.block.transactions pb.raw_transactions
          undone complete.hashes complete.raws in
      let (t', pop, c, tip, level, same) =
        pop_chain-ChainHolds n.tree h v.tree v.chain e
          (omega (arith, tip_level n.tree h v.chain e)) in
      let pop' = ap (λ (b : ℕ). pop_chain b n.tree) prev ∙ pop in
      elim (ended (client.undo_block n.tree.tip_bid pb n.tree.tip_height n.state)) [
        | with_exception x ↦ inl (inr (n.tree.tip_bid, pb, n.tree.tip_height, n.state, λ s y. cc))
        | with_error error height x ↦
            inl (inr (n.tree.tip_bid, pb, n.tree.tip_height, n.state, λ s y. cc))
        | with_result s x ↦ inr (
          undone',
          record { tree = t'; state = client.tip_changed t' s },
          undo_tip_run undone n pb s undone' t' stored x added pop',
          record { valid = SameTree-IsValid n.tree t' same c v; same = same; tip = tip },
        )
      ]

  -- The loop needs one round for each block above the common one.
  pub undo_to_lem :
      (headers : Map BlockHeader) (chain : List ℕ) (common : ℕ) (undone : UndoneTransactions)
      (n : ChainNode S)
      → n.tree.headers ≡ headers
      → IsValid n.tree
      → Leads headers chain n.tree.tip_bid common
      → Throws client
        ⊎ ((undone' : UndoneTransactions) × (n' : ChainNode S) × (undo_to currency client
                (length chain)
                common
                undone
                n
              ≡ done (undone', n'))
            × Reaches n n' common)
  unfolding undo_to
  undo_to_lem headers [] common undone n eq v same =
      inr (undone, n, ground arith, record { valid = v; same = SameTree-refl n.tree; tip = same })
  undo_to_lem headers (x ∷ xs) common undone n eq v (same, h, found, low, rest) =
      elim (Bool-cases (n.tree.tip_bid == common)) [
        | inl at ↦ inr (
          undone,
          n,
          rw (at, undo_to) refl,
          record { valid = v; same = SameTree-refl n.tree; tip = (==_iff _ _).0 at },
        )
        | inr above ↦
            elim (undo_tip_lem undone n h v
              (ap (λ (m : Map BlockHeader). lookup n.tree.tip_bid m) eq ∙ found) low) [
                | inl throws ↦ inl throws
                | inr (undone1, n1, run1, r1) ↦
                    elim (undo_to_lem headers xs common undone1 n1 (r1.same.headers ∙ eq) r1.valid
                      (subst (λ (b : ℕ). Leads headers xs b common) (sym r1.tip) rest)) [
                        | inl throws ↦ inl throws
                        | inr (undone2, n2, run2, r2) ↦ inr (
                          undone2,
                          n2,
                          rw (above, run1, run2, undo_to) refl,
                          record {
                            valid = r2.valid;
                            same = SameTree-trans r1.same r2.same;
                            tip = r2.tip;
                          },
                        )
                      ]
              ]
      ]
