-- ===== src/BlockChain/MainChain/Pop.antt =====
-- `pop_chain` of Core/BlockChain.cpp keeps the main chain a path of the tree.
use cryo_nero.Prelude.{
  ℕ, zero, suc, ◌+◌, ◌-◌, ◌≡◌, ◌≢◌, refl, sym, ap, ◌∙◌, arith, some, List, [], ◌∷◌, get_elem?,
}
use cryo_nero.Prelude.Maps.{lookup, lookup-erase}
use cryo_nero.BlockChain.{BlockHeader, BlockTree, popped, refill, pop_chain, get_tip}
use cryo_nero.BlockChain.Ancestors.{IsTree, some-injective}
use cryo_nero.BlockChain.MainChain.{ChainHolds, SameTree}

-- The tree without its tip, with the window that is left or refilled.
abbrev without_tip : ℕ → BlockHeader → List BlockHeader → BlockTree → BlockTree
without_tip bid p older t = record (popped bid (p ∷ older) t) {
  tip_cumulative_difficulty = p.cumulative_difficulty;
}

-- The tip stands at its height.
pub tip_level :
    (t : BlockTree) (h : BlockHeader)
    → ChainHolds t
    → lookup t.tip_bid t.headers ≡ some h
    → h.height ≡ t.tip_height
tip_level t h c e =
    let (g, found, level) = c.known t.tip_height t.tip_bid c.top in
    let same : g ≡ h = some-injective found e in
    omega (arith, ap (λ (r : BlockHeader). r.height) same)

module _ (t : BlockTree) (h p : BlockHeader) (v : IsTree t.headers t.genesis_bid) (c : ChainHolds t)
    (e : lookup t.tip_bid t.headers ≡ some h) (ne : t.tip_height ≢ 0)
    (f : lookup h.previous_block_hash t.headers ≡ some p) where
  below_tip : lookup (t.tip_height - 1) t.chain ≡ some h.previous_block_hash
  below_tip =
      c.linked (t.tip_height - 1) t.tip_bid h
        (let up : suc (t.tip_height - 1) ≡ t.tip_height = omega arith in rw up c.top) e

  parent_level : p.height + 1 ≡ t.tip_height
  parent_level =
      let (q, found, up) = v.parents t.tip_bid h e (omega (arith, tip_level t h c e)) in
      let same : q ≡ p = some-injective found f in
      omega (arith, tip_level t h c e, ap (λ (r : BlockHeader). r.height) same)

  without_tip-ChainHolds :
      (older : List BlockHeader)
      → ((i : ℕ) (g : BlockHeader)
          → get_elem? (p ∷ older) i ≡ some g
          → (lookup g.hash t.headers ≡ some g)
            × (g.height + i + 1 ≡ t.tip_height)
            × (lookup g.height t.chain ≡ some g.hash))
      → ChainHolds (without_tip h.previous_block_hash p older t)
  without_tip-ChainHolds older seen = record {
    low = omega (arith, c.low);
    top = ground (arith, below_tip, lookup-erase t.tip_height (t.tip_height - 1) t.chain);
    above = λ k lt. ground (arith, lookup-erase t.tip_height k t.chain, c.above k);
    known = λ k a r. c.known k a (ground (arith, lookup-erase t.tip_height k t.chain));
    linked = λ k a g r r'.
        let inside : lookup (suc k) t.chain ≡ some a =
          ground (arith, lookup-erase t.tip_height (suc k) t.chain) in
        ground
          (arith, lookup-erase t.tip_height k t.chain, c.linked k a g inside r', c.above (suc k));
    difficulty = λ g r. ap (λ (x : BlockHeader). x.cumulative_difficulty) (some-injective f r);
    window = λ i g r.
        let (here, level, there) = seen i g r in
        (here, omega arith, ground (arith, lookup-erase t.tip_height g.height t.chain));
    filled = (p, older, refl);
  }

  -- What the window says of an entry, one below the old tip.
  abbrev Seen : ℕ → BlockHeader → Type 0
  Seen i g =
      (lookup g.hash t.headers ≡ some g)
      × (g.height + i + 1 ≡ t.tip_height)
      × (lookup g.height t.chain ≡ some g.hash)

  parent-Seen : Seen 0 p
  parent-Seen =
      let named : p.hash ≡ h.previous_block_hash = v.hashes h.previous_block_hash p f in
      let at : t.tip_height - 1 ≡ p.height = omega (arith, parent_level) in
      (
        ap (λ (b : ℕ). lookup b t.headers) named ∙ f,
        omega (arith, parent_level),
        ap (λ (k : ℕ). lookup k t.chain) (sym at) ∙ below_tip ∙ ap some (sym named),
      )

  only-Seen : (i : ℕ) (g : BlockHeader) → get_elem? (p ∷ []) i ≡ some g → Seen i g
  only-Seen zero g r = ground (arith, parent-Seen)
  only-Seen (suc i) g r = cc

  -- The window below the top, refilled if it has run empty.
  window_below :
      (top : BlockHeader) (older : List BlockHeader)
      → t.header_tip_window ≡ top ∷ older
      → (rest : List BlockHeader) × (refill h.previous_block_hash t.headers older ≡ some (p ∷ rest))
        × ((i : ℕ) (g : BlockHeader) → get_elem? (p ∷ rest) i ≡ some g → Seen i g)
  window_below top [] w = ([], rw (f, refill) refl, only-Seen)
  window_below top (q ∷ older) w =
      let (here, level, there) = c.window 1 q (rw w refl) in
      let at : q.height ≡ t.tip_height - 1 = omega arith in
      let named : q.hash ≡ h.previous_block_hash = some-injective there (rw at below_tip) in
      let same : q ≡ p = some-injective here (rw named f) in
      (
        older,
        ap (λ (r : BlockHeader). some (r ∷ older)) same,
        λ i g r.
            let r' : get_elem? (q ∷ older) i ≡ some g = rw same r in
            let (found, low, on_chain) = c.window (suc i) g (rw w r') in
            (found, omega arith, on_chain),
      )

  pop_run :
      (top : BlockHeader) (older rest : List BlockHeader)
      → t.header_tip_window ≡ top ∷ older
      → refill h.previous_block_hash t.headers older ≡ some (p ∷ rest)
      → pop_chain h.previous_block_hash t ≡ some (without_tip h.previous_block_hash p rest t)
  unfolding pop_chain get_tip
  pop_run top older rest w r = ground (
    arith,
    w,
    r,
    c.top,
    below_tip,
    v.hashes h.previous_block_hash p f,
    lookup-erase t.tip_height (t.tip_height - 1) t.chain,
  )

-- The tip is taken off, and its parent is the tip again.
pub pop_chain-ChainHolds :
    (t : BlockTree) (h : BlockHeader)
    → IsTree t.headers t.genesis_bid
    → ChainHolds t
    → lookup t.tip_bid t.headers ≡ some h
    → t.tip_height ≢ 0
    → (t' : BlockTree) × (pop_chain h.previous_block_hash t ≡ some t')
      × ChainHolds t'
      × (t'.tip_bid ≡ h.previous_block_hash)
      × (t'.tip_height + 1 ≡ t.tip_height)
      × SameTree t t'
pop_chain-ChainHolds t h v c e ne =
    let (q, found, up) = v.parents t.tip_bid h e (omega (arith, tip_level t h c e)) in
    let (top, older, w) = c.filled in
    let (rest, r, seen) = window_below t h q v c e ne found top older w in
    (
      without_tip h.previous_block_hash q rest t,
      pop_run t h q v c e ne found top older rest w r,
      without_tip-ChainHolds t h q v c e ne found rest seen,
      refl,
      omega arith,
      record { genesis_bid = refl; headers = refl; blocks = refl; children = refl; tips = refl },
    )
