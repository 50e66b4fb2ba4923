-- ===== src/BlockChain/Common/Deepest.antt =====
-- `get_common_block` of Core/BlockChain.cpp ends, at the deepest common ancestor.
use cryo_nero.Prelude.{
  ℕ, zero, suc, ◌≤◌, ◌<◌, ◌≡◌, ◌≢◌, refl, ap, arith, false, some, List, [], ◌∷◌, ◌++◌, ltb, ◌==◌,
  Bool-cases, inl, inr, min,
}
use native.Mathlib.Decide.{dec_lt}
use cryo_nero.Prelude.Maps.{lookup}
use cryo_nero.BlockChain.{BlockHeader, BlockTree, read_header}
use cryo_nero.BlockChain.Common.{descend, descend_both, get_common_block}
use cryo_nero.BlockChain.Ancestors.{
  IsTree, Leads, IsAncestor, Leads-append, IsAncestor-parent, IsAncestor-height, some-injective,
}

module _ (t : BlockTree) (v : IsTree t.headers t.genesis_bid) where
  -- What a walk down from `hid` to the height has found.
  record Descends (height hid : ℕ) (ha : BlockHeader) (passed : List ℕ) (below : ℕ)
      (found : BlockHeader) : Type 0 where
    path : Leads t.headers passed hid below
    known : lookup below t.headers ≡ some found
    level : found.height ≡ min ha.height height
    keeps :
        (d : ℕ) (hd : BlockHeader)
        → lookup d t.headers ≡ some hd
        → hd.height ≤ height
        → IsAncestor t.headers d hid
        → IsAncestor t.headers d below

  differs :
      (a d : ℕ) (h hd : BlockHeader)
      → lookup a t.headers ≡ some h
      → lookup d t.headers ≡ some hd
      → hd.height < h.height
      → a ≢ d
  differs a d h hd e f lt same =
      let eq : h ≡ hd = some-injective (rw same at e) f in
      omega (arith, ap (λ (r : BlockHeader). r.height) eq)

  descend_lem :
      (fuel height hid : ℕ) (ha : BlockHeader)
      → lookup hid t.headers ≡ some ha
      → ha.height ≤ fuel
      → (passed : List ℕ) × (below : ℕ) × (found : BlockHeader) × (descend fuel t height hid ha
          ≡ some (passed, below, found))
        × Descends height hid ha passed below found
  unfolding descend read_header
  descend_lem zero height hid ha e le = (
    [],
    hid,
    ha,
    ground arith,
    record { path = refl; known = e; level = omega arith; keeps = λ d hd f l anc. anc },
  )
  descend_lem (suc fuel) height hid ha e le = elim (Bool-cases (ltb height ha.height)) [
    | inr stop ↦ (
      [],
      hid,
      ha,
      rw stop refl,
      record { path = refl; known = e; level = ground arith; keeps = λ d hd f l anc. anc },
    )
    | inl deeper ↦
        let (p, found, up) = v.parents hid ha e (ground arith) in
        let (passed, below, last, run, ih) =
          descend_lem fuel height ha.previous_block_hash p found (omega arith) in
        (
          hid ∷ passed,
          below,
          last,
          rw (deeper, found, run) refl,
          record {
            path = (refl, ha, e, ground arith, ih.path);
            known = ih.known;
            level = ground (arith, ih.level);
            keeps = λ d hd f l anc. ih.keeps d hd f l (
                IsAncestor-parent t.headers hid d ha hd e f (differs hid d ha hd e f (ground arith))
                  anc);
          },
        )
  ]

  -- Two ancestors of one height are one.
  same_level :
      (a d : ℕ) (h hd : BlockHeader)
      → lookup a t.headers ≡ some h
      → lookup d t.headers ≡ some hd
      → hd.height ≡ h.height
      → IsAncestor t.headers d a
      → a ≡ d
  same_level a d h hd e f level ([], same) = same
  same_level a d h hd e f level (x ∷ xs, l) =
      absurd (omega (arith, IsAncestor-height t.headers t.genesis_bid v (x ∷ xs) a d h hd e f l))

  -- What the two walks have found.
  pub record Parts (hid1 hid2 common : ℕ) (chain1 chain2 : List ℕ) : Type 0 where
    pub left : Leads t.headers chain1 hid1 common
    pub right : Leads t.headers chain2 hid2 common
    pub known : (h : BlockHeader) × (lookup common t.headers ≡ some h)
    pub deepest :
        (d : ℕ) (hd : BlockHeader)
        → lookup d t.headers ≡ some hd
        → IsAncestor t.headers d hid1
        → IsAncestor t.headers d hid2
        → IsAncestor t.headers d common

  not_lowest :
      (hid1 hid2 : ℕ) (ha1 ha2 : BlockHeader)
      → lookup hid1 t.headers ≡ some ha1
      → lookup hid2 t.headers ≡ some ha2
      → ha1.height ≡ ha2.height
      → (hid1 == hid2) ≡ false
      → 0 < ha1.height
  not_lowest hid1 hid2 ha1 ha2 e1 e2 level ne = elim (dec_lt 0 ha1.height) [
    | yes low ↦ low
    | no low ↦
        let r1 = v.root hid1 ha1 e1 (omega arith) in
        let r2 = v.root hid2 ha2 e2 (omega arith) in ground arith
  ]

  descend_both_lem :
      (fuel hid1 : ℕ) (ha1 : BlockHeader) (hid2 : ℕ) (ha2 : BlockHeader)
      → lookup hid1 t.headers ≡ some ha1
      → lookup hid2 t.headers ≡ some ha2
      → ha1.height ≡ ha2.height
      → ha1.height ≤ fuel
      → (common : ℕ) × (chain1 : List ℕ) × (chain2 : List ℕ) × (descend_both fuel t hid1 ha1 hid2
            ha2
          ≡ some (common, chain1, chain2))
        × Parts hid1 hid2 common chain1 chain2
  unfolding descend_both read_header
  descend_both_lem zero hid1 ha1 hid2 ha2 e1 e2 level le = elim (Bool-cases (hid1 == hid2)) [
    | inl same ↦ (
      hid1,
      [],
      [],
      rw (same, descend_both) refl,
      record { left = refl; right = ground arith; known = (ha1, e1); deepest = λ d hd f a1 a2. a1 },
    )
    | inr ne ↦ absurd (omega (arith, not_lowest hid1 hid2 ha1 ha2 e1 e2 level ne))
  ]
  descend_both_lem (suc fuel) hid1 ha1 hid2 ha2 e1 e2 level le = elim (Bool-cases (hid1 == hid2)) [
    | inl same ↦ (
      hid1,
      [],
      [],
      rw (same, descend_both) refl,
      record { left = refl; right = ground arith; known = (ha1, e1); deepest = λ d hd f a1 a2. a1 },
    )
    | inr ne ↦
        let low = not_lowest hid1 hid2 ha1 ha2 e1 e2 level ne in
        let (p1, f1, up1) = v.parents hid1 ha1 e1 low in
        let (p2, f2, up2) = v.parents hid2 ha2 e2 (omega arith) in
        let (common, chain1, chain2, run, ih) =
          descend_both_lem fuel ha1.previous_block_hash p1 ha2.previous_block_hash p2 f1 f2
            (omega arith) (omega arith) in
        (
          common,
          hid1 ∷ chain1,
          hid2 ∷ chain2,
          rw (ne, f1, f2, run, descend_both) refl,
          record {
            left = (refl, ha1, e1, low, ih.left);
            right = (refl, ha2, e2, omega arith, ih.right);
            known = ih.known;
            deepest = λ d hd f a1 a2.
                ih.deepest d hd f
                  (IsAncestor-parent t.headers hid1 d ha1 hd e1 f (apart1 d hd ne f a2) a1)
                  (IsAncestor-parent t.headers hid2 d ha2 hd e2 f (apart2 d hd ne f a1) a2);
          },
        )
  ]
    where
      apart1 :
          (d : ℕ) (hd : BlockHeader)
          → (hid1 == hid2) ≡ false
          → lookup d t.headers ≡ some hd
          → IsAncestor t.headers d hid2
          → hid1 ≢ d
      apart1 d hd ne f a2 same =
          let eq : ha1 ≡ hd = some-injective (rw same at e1) f in
          let other =
            same_level hid2 d ha2 hd e2 f (omega (arith, ap (λ (r : BlockHeader). r.height) eq))
              a2 in
          ground arith

      apart2 :
          (d : ℕ) (hd : BlockHeader)
          → (hid1 == hid2) ≡ false
          → lookup d t.headers ≡ some hd
          → IsAncestor t.headers d hid1
          → hid2 ≢ d
      apart2 d hd ne f a1 same =
          let eq : ha2 ≡ hd = some-injective (rw same at e2) f in
          let other =
            same_level hid1 d ha1 hd e1 f (omega (arith, ap (λ (r : BlockHeader). r.height) eq))
              a1 in
          ground arith

get_common_block_run :
    (t : BlockTree) (bid1 bid2 hid1 hid2 common : ℕ) (top1 top2 ha1 ha2 : BlockHeader)
    (first1 first2 rest1 rest2 : List ℕ)
    → lookup bid1 t.headers ≡ some top1
    → lookup bid2 t.headers ≡ some top2
    → descend top1.height t top2.height bid1 top1 ≡ some (first1, hid1, ha1)
    → descend top2.height t ha1.height bid2 top2 ≡ some (first2, hid2, ha2)
    → descend_both ha1.height t hid1 ha1 hid2 ha2 ≡ some (common, rest1, rest2)
    → get_common_block t bid1 bid2 ≡ some (common, first1 ++ rest1, first2 ++ rest2)
unfolding get_common_block read_header
get_common_block_run t bid1 bid2 hid1 hid2 common top1 top2 ha1 ha2 first1 first2 rest1 rest2 e1 e2
      run1 run2 run =
    rw (e1, e2, run1, run2, run, get_common_block) refl

-- In a tree, for two blocks that it holds, `get_common_block` ends with no `invariant` violated. Its
-- chains are the paths of the two blocks down to a common ancestor, of which every other common
-- ancestor in the tree is an ancestor.
pub get_common_block-Parts :
    (t : BlockTree) (bid1 bid2 : ℕ) (top1 top2 : BlockHeader) (v : IsTree t.headers t.genesis_bid)
    → lookup bid1 t.headers ≡ some top1
    → lookup bid2 t.headers ≡ some top2
    → (common : ℕ) × (chain1 : List ℕ) × (chain2 : List ℕ) × (get_common_block t bid1 bid2
        ≡ some (common, chain1, chain2))
      × Parts t v bid1 bid2 common chain1 chain2
get_common_block-Parts t bid1 bid2 top1 top2 v e1 e2 =
    let (first1, hid1, ha1, run1, d1) =
      descend_lem t v top1.height top2.height bid1 top1 e1 (omega arith) in
    let (first2, hid2, ha2, run2, d2) =
      descend_lem t v top2.height ha1.height bid2 top2 e2 (omega arith) in
    let (common, rest1, rest2, run, p) =
      descend_both_lem t v ha1.height hid1 ha1 hid2 ha2 d1.known d2.known
        (omega (arith, d1.level, d2.level)) (omega arith) in
    (
      common,
      first1 ++ rest1,
      first2 ++ rest2,
      get_common_block_run t bid1 bid2 hid1 hid2 common top1 top2 ha1 ha2 first1 first2 rest1 rest2
          e1 e2 run1 run2 run,
      record {
        left = Leads-append t.headers first1 rest1 bid1 hid1 common d1.path p.left;
        right = Leads-append t.headers first2 rest2 bid2 hid2 common d2.path p.right;
        known = p.known;
        deepest = λ d hd f (l1, a1) (l2, a2).
            let h1 = IsAncestor-height t.headers t.genesis_bid v l1 bid1 d top1 hd e1 f a1 in
            let h2 = IsAncestor-height t.headers t.genesis_bid v l2 bid2 d top2 hd e2 f a2 in
            p.deepest d hd f (d1.keeps d hd f (omega arith) (l1, a1))
              (d2.keeps d hd f (omega (arith, d1.level)) (l2, a2));
      },
    )
