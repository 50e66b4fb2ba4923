-- ===== src/BlockChain/MainChain.antt =====
-- `push_chain` of Core/BlockChain.cpp keeps the main chain a path of the tree.
pub mod Pop
use cryo_nero.Prelude.{
  ℕ, zero, suc, ◌+◌, ◌-◌, ◌%◌, ◌^◌, ◌<◌, ◌≡◌, ◌≢◌, refl, sym, ap, ◌∙◌, arith, none, some, List, [],
  ◌∷◌, ◌==◌, if◌then◌else◌, Bool-cases, inl, inr, take, get_elem?,
}
use cryo_nero.Prelude.Maps.{lookup, lookup-insert, lookup-erase}
use cryo_nero.Currency.{Currency}
use cryo_nero.BlockChain.{
  BlockHeader, BlockTree, pushed, popped, refill, largest_window, push_chain, pop_chain, get_tip,
}
use cryo_nero.BlockChain.Ancestors.{IsTree, some-injective}

-- The table of heights is the path from the tip down to height 0, and nothing more. The window holds
-- the headers of its top.
pub record ChainHolds (t : BlockTree) : Type 0 where
  pub low : t.tip_height < 2 ^ 32 - 1
  pub top : lookup t.tip_height t.chain ≡ some t.tip_bid
  pub above : (k : ℕ) → t.tip_height < k → lookup k t.chain ≡ none
  pub known :
      (k a : ℕ)
      → lookup k t.chain ≡ some a
      → (h : BlockHeader) × (lookup a t.headers ≡ some h) × (h.height ≡ k)
  pub linked :
      (k a : ℕ) (h : BlockHeader)
      → lookup (suc k) t.chain ≡ some a
      → lookup a t.headers ≡ some h
      → lookup k t.chain ≡ some h.previous_block_hash
  pub difficulty :
      (h : BlockHeader)
      → lookup t.tip_bid t.headers ≡ some h
      → t.tip_cumulative_difficulty ≡ h.cumulative_difficulty
  pub window :
      (i : ℕ) (h : BlockHeader)
      → get_elem? t.header_tip_window i ≡ some h
      → (lookup h.hash t.headers ≡ some h)
        × (h.height + i ≡ t.tip_height)
        × (lookup h.height t.chain ≡ some h.hash)
  pub filled : (h : BlockHeader) × (older : List BlockHeader) × (t.header_tip_window ≡ h ∷ older)

-- The tables of headers, blocks and counters stay.
pub record SameTree (t t' : BlockTree) : Type 0 where
  pub genesis_bid : t'.genesis_bid ≡ t.genesis_bid
  pub headers : t'.headers ≡ t.headers
  pub blocks : t'.blocks ≡ t.blocks
  pub children : t'.children ≡ t.children
  pub tips : t'.tips ≡ t.tips

get_elem?-take {ℓ} :
    {A : Type ℓ} (n i : ℕ) (xs : List A) (x : A)
    → get_elem? (take n xs) i ≡ some x
    → get_elem? xs i ≡ some x
get_elem?-take zero i xs x e = cc
get_elem?-take (suc n) i [] x e = cc
get_elem?-take (suc n) zero (y ∷ xs) x e = e
get_elem?-take (suc n) (suc i) (y ∷ xs) x e = get_elem?-take n i xs x e

take-filled {ℓ} :
    {A : Type ℓ} (n : ℕ) (x : A) (xs : List A)
    → 0 < n
    → (y : A) × (ys : List A) × (take n (x ∷ xs) ≡ y ∷ ys)
take-filled zero x xs lt = absurd (omega arith)
take-filled (suc n) x xs lt = (x, take n xs, refl)

largest_window-pos :
    (currency : Currency) (t : BlockTree)
    → 0 < currency.reward_blocks_window
    → 0 < largest_window currency t
unfolding largest_window
largest_window-pos currency t lt = omega arith

module _ (currency : Currency) (t : BlockTree) (h : BlockHeader) where
  chain-pushed :
      ChainHolds t
      → (k : ℕ)
      → lookup k (push_chain currency h t).chain
        ≡ (if t.tip_height + 1 == k then some h.hash else lookup k t.chain)
  unfolding push_chain
  chain-pushed c k =
      ground (arith, c.low, lookup-insert ((t.tip_height + 1) % 2 ^ 32) k h.hash t.chain)

  height-pushed : ChainHolds t → (push_chain currency h t).tip_height ≡ t.tip_height + 1
  unfolding push_chain
  height-pushed c = omega (arith, c.low)

  module _ (c : ChainHolds t) (found : lookup h.hash t.headers ≡ some h)
      (next : h.height ≡ t.tip_height + 1) where
    known-pushed :
        (k a : ℕ)
        → lookup k (push_chain currency h t).chain ≡ some a
        → (g : BlockHeader) × (lookup a t.headers ≡ some g) × (g.height ≡ k)
    known-pushed k a e = elim (Bool-cases (t.tip_height + 1 == k)) [
      | inl new ↦ (h, ground (arith, chain-pushed c k), ground arith)
      | inr old ↦ c.known k a (ground (arith, chain-pushed c k))
    ]

    linked-pushed :
        h.previous_block_hash ≡ t.tip_bid
        → (k a : ℕ) (g : BlockHeader) → lookup (suc k) (push_chain currency h t).chain ≡ some a
        → lookup a t.headers ≡ some g
        → lookup k (push_chain currency h t).chain ≡ some g.previous_block_hash
    linked-pushed prev k a g e f = elim (Bool-cases (t.tip_height + 1 == suc k)) [
      | inl new ↦ ground (arith, chain-pushed c k, chain-pushed c (suc k), c.top)
      | inr old ↦
          let inside : lookup (suc k) t.chain ≡ some a = ground (arith, chain-pushed c (suc k)) in
          let below = c.linked k a g inside f in ground (arith, chain-pushed c k, c.above k)
    ]

    window-pushed :
        (i : ℕ) (g : BlockHeader)
        → get_elem? (h ∷ t.header_tip_window) i ≡ some g
        → (lookup g.hash t.headers ≡ some g)
          × (g.height + i ≡ t.tip_height + 1)
          × (lookup g.height (push_chain currency h t).chain ≡ some g.hash)
    window-pushed zero g e = ground (arith, chain-pushed c h.height)
    window-pushed (suc i) g e =
        let (here, level, there) = c.window i g e in
        (here, omega arith, ground (arith, chain-pushed c g.height))

  -- A child of the tip becomes the tip.
  pub push_chain-ChainHolds :
      0 < currency.reward_blocks_window
      → ChainHolds t
      → lookup h.hash t.headers ≡ some h
      → h.height ≡ t.tip_height + 1
      → h.height < 2 ^ 32 - 1
      → h.previous_block_hash ≡ t.tip_bid
      → ChainHolds (push_chain currency h t)
  unfolding push_chain
  push_chain-ChainHolds pos c found next fits prev = record {
    low = omega arith;
    top = ground (arith, height-pushed c, chain-pushed c (t.tip_height + 1));
    above = λ k lt. ground (arith, height-pushed c, chain-pushed c k, c.above k);
    known = known-pushed c found next;
    linked = linked-pushed c found next prev;
    difficulty = λ g e. ap (λ (r : BlockHeader). r.cumulative_difficulty) (some-injective found e);
    window = λ i g e.
        let (here, level, there) = window-pushed c found next i g (get_elem?-take _ i _ g e) in
        (here, omega arith, there);
    filled =
        take-filled _ h t.header_tip_window
          (grind (arith, largest_window-pos currency (pushed h t) pos));
  }

pub push_chain-SameTree :
    (currency : Currency) (t : BlockTree) (h : BlockHeader) → SameTree t (push_chain currency h t)
unfolding push_chain
push_chain-SameTree currency t h = record {
  genesis_bid = refl;
  headers = refl;
  blocks = refl;
  children = refl;
  tips = refl;
}

pub tip-push_chain :
    (currency : Currency) (t : BlockTree) (h : BlockHeader)
    → (push_chain currency h t).tip_bid ≡ h.hash
unfolding push_chain
tip-push_chain currency t h = refl
