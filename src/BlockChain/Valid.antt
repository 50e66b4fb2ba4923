-- ===== src/BlockChain/Valid.antt =====
-- The invariant of `BlockChain` in Core/BlockChain.cpp, but for the counters of children.
use cryo_nero.Prelude.{ℕ, ◌≤◌, ◌≡◌, ◌≢◌, ◌⊎◌, refl, sym, ap, none, ◌∙◌, some, length}
use mathlib.Core.Path.{subst}
use cryo_nero.Prelude.Maps.{Map, lookup}
use cryo_nero.BlockChain.{BlockHeader, PreparedBlock, BlockTree}
use cryo_nero.BlockChain.Client.{ChainClient}
use cryo_nero.BlockChain.Ancestors.{IsTree}
use cryo_nero.BlockChain.MainChain.{ChainHolds, SameTree}
use cryo_nero.BlockChainState.Errors.{TxError}
use cryo_nero.BlockChainState.Redo.{Redo, done, refused, violated}

-- A block has a hash and a binary form for each of its transactions.
pub record IsComplete (pb : PreparedBlock) : Type 0 where
  pub hashes : length pb.block.transactions ≤ length pb.block.transaction_hashes
  pub raws : length pb.block.transactions ≤ length pb.raw_transactions

-- A block is stored with each header.
abbrev pub IsStored : Map BlockHeader → Map PreparedBlock → Type 0
IsStored headers blocks =
    (a : ℕ) (h : BlockHeader)
    → lookup a headers ≡ some h
    → (pb : PreparedBlock) × (lookup a blocks ≡ some pb)
      × (pb.block.previous_block_hash ≡ h.previous_block_hash)
      × IsComplete pb

pub record IsValid (t : BlockTree) : Type 0 where
  pub tree : IsTree t.headers t.genesis_bid
  pub chain : ChainHolds t
  pub stored : IsStored t.headers t.blocks
  -- A block without a header is not stored.
  pub paired : (a : ℕ) → lookup a t.headers ≡ none → lookup a t.blocks ≡ none
  pub genesis : (h : BlockHeader) × (lookup t.genesis_bid t.headers ≡ some h)

pub SameTree-IsValid : (t t' : BlockTree) → SameTree t t' → ChainHolds t' → IsValid t → IsValid t'
SameTree-IsValid t t' same c v = record {
  tree =
      subst (λ (g : ℕ). IsTree t'.headers g) (sym same.genesis_bid)
        (subst (λ (m : Map BlockHeader). IsTree m t.genesis_bid) (sym same.headers) v.tree);
  chain = c;
  stored =
      subst (λ (m : Map PreparedBlock). IsStored t'.headers m) (sym same.blocks)
        (subst (λ (m : Map BlockHeader). IsStored m t.blocks) (sym same.headers) v.stored);
  paired = λ a e.
      ap (λ (m : Map PreparedBlock). lookup a m) same.blocks
      ∙ v.paired a (ap (λ (m : Map BlockHeader). lookup a m) (sym same.headers) ∙ e);
  genesis =
      let (h, e) = v.genesis in
      (
        h,
        ap (λ (m : Map BlockHeader). lookup t'.genesis_bid m) same.headers
            ∙ ap (λ (g : ℕ). lookup g t.headers) same.genesis_bid
            ∙ e,
      );
}

pub SameTree-refl : (t : BlockTree) → SameTree t t
SameTree-refl t = record {
  genesis_bid = refl;
  headers = refl;
  blocks = refl;
  children = refl;
  tips = refl;
}

pub SameTree-trans : {t t' t'' : BlockTree} → SameTree t t' → SameTree t' t'' → SameTree t t''
SameTree-trans a b = record {
  genesis_bid = b.genesis_bid ∙ a.genesis_bid;
  headers = b.headers ∙ a.headers;
  blocks = b.blocks ∙ a.blocks;
  children = b.children ∙ a.children;
  tips = b.tips ∙ a.tips;
}

-- How a virtual call may end.
pub data Ended {A : Type 0} (r : Redo A) : Type 0 where
  with_result : (a : A) → r ≡ done a → Ended r
  with_error : (e : TxError) (height : ℕ) → r ≡ refused e height → Ended r
  with_exception : r ≡ violated → Ended r

pub ended : {A : Type 0} (r : Redo A) → Ended r
ended (done a) = with_result a refl
ended (refused e height) = with_error e height refl
ended violated = with_exception refl

module _ {S : Type 0} (client : ChainClient S) where
  -- A virtual call throws, or an undo fails.
  abbrev pub Throws : Type 0
  Throws =
      ((pb : PreparedBlock) × (info : BlockHeader) × (s : S) × (client.redo_block pb info s
          ≡ violated))
      ⊎ ((bid : ℕ) × (pb : PreparedBlock) × (height : ℕ) × (s : S) × ((s' : S)
            → client.undo_block bid pb height s ≢ done s'))

  -- A block is refused.
  abbrev pub Refuses : Type 0
  Refuses =
      (pb : PreparedBlock) × (info : BlockHeader) × (s : S) × ((s' : S)
        → client.redo_block pb info s ≢ done s')
