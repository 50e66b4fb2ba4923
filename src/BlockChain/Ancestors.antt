-- ===== src/BlockChain/Ancestors.antt =====
-- The shape of the tree of blocks in Core/BlockChain.cpp, and the paths down to an ancestor.
use cryo_nero.Prelude.{
  ℕ, ◌+◌, ◌-◌, ◌^◌, ◌<◌, ◌≡◌, refl, sym, ap, ◌≢◌, arith, Option, some, List, [], ◌∷◌, ◌++◌, length,
  reverse, ◌∙◌,
}
use mathlib.Core.List.{reverse-cons}
use mathlib.Core.Path.{subst}
use cryo_nero.Prelude.Maps.{Map, lookup}
use cryo_nero.BlockChain.{BlockHeader}

-- A header stands under its hash; a parent is one lower, down to the genesis block.
pub record IsTree (headers : Map BlockHeader) (genesis : ℕ) : Type 0 where
  pub hashes : (a : ℕ) (h : BlockHeader) → lookup a headers ≡ some h → h.hash ≡ a
  pub parents :
      (a : ℕ) (h : BlockHeader)
      → lookup a headers ≡ some h
      → 0 < h.height
      → (p : BlockHeader) × (lookup h.previous_block_hash headers ≡ some p)
        × (p.height + 1 ≡ h.height)
  pub root : (a : ℕ) (h : BlockHeader) → lookup a headers ≡ some h → h.height ≡ 0 → a ≡ genesis
  pub low : (a : ℕ) (h : BlockHeader) → lookup a headers ≡ some h → h.height < 2 ^ 32 - 1

-- The blocks from `a` down to `b`, without `b`.
abbrev pub Leads : Map BlockHeader → List ℕ → ℕ → ℕ → Type 0
Leads headers [] a b = a ≡ b
Leads headers (x ∷ xs) a b =
    (x ≡ a)
    × (h : BlockHeader) × (lookup a headers ≡ some h)
    × (0 < h.height)
    × Leads headers xs h.previous_block_hash b

abbrev pub IsAncestor : Map BlockHeader → ℕ → ℕ → Type 0
IsAncestor headers d a = (path : List ℕ) × Leads headers path a d

pub some-injective {ℓ} : {A : Type ℓ} {a b : A} {o : Option A} → o ≡ some a → o ≡ some b → a ≡ b
some-injective e f = cc

-- The blocks from above `a` up to `b`.
abbrev pub Climbs : Map BlockHeader → List ℕ → ℕ → ℕ → Type 0
Climbs headers [] a b = a ≡ b
Climbs headers (x ∷ xs) a b =
    (h : BlockHeader) × (lookup x headers ≡ some h)
    × (0 < h.height)
    × (h.previous_block_hash ≡ a)
    × Climbs headers xs x b

module _ (headers : Map BlockHeader) where
  Climbs-append :
      (xs : List ℕ) (x a b : ℕ) (h : BlockHeader)
      → Climbs headers xs a b
      → lookup x headers ≡ some h
      → 0 < h.height
      → h.previous_block_hash ≡ b
      → Climbs headers (xs ++ x ∷ []) a x
  Climbs-append [] x a b h same found low prev = (h, found, low, prev ∙ sym same, refl)
  Climbs-append (y ∷ ys) x a b h (g, e, up, link, rest) found low prev =
      (g, e, up, link, Climbs-append ys x y b h rest found low prev)

  -- A path down is a path up in reverse.
  pub Climbs-reverse :
      (xs : List ℕ) (a b : ℕ) → Leads headers xs a b → Climbs headers (reverse xs) b a
  Climbs-reverse [] a b same = sym same
  Climbs-reverse (x ∷ xs) a b (same, h, found, low, rest) = rw (reverse-cons x xs) (
      subst (λ (y : ℕ). Climbs headers (reverse xs ++ x ∷ []) b y) same
        (Climbs-append (reverse xs) x b h.previous_block_hash h
          (Climbs-reverse xs h.previous_block_hash b rest) (rw same found) low refl))

  pub Leads-append :
      (xs ys : List ℕ) (a b c : ℕ)
      → Leads headers xs a b
      → Leads headers ys b c
      → Leads headers (xs ++ ys) a c
  Leads-append [] ys a b c e l = rw e l
  Leads-append (x ∷ xs) ys a b c (e, h, found, low, rest) l =
      (e, h, found, low, Leads-append xs ys h.previous_block_hash b c rest l)

  -- An ancestor that is lower is one of the parent.
  pub IsAncestor-parent :
      (a d : ℕ) (h hd : BlockHeader)
      → lookup a headers ≡ some h
      → lookup d headers ≡ some hd
      → a ≢ d
      → IsAncestor headers d a
      → IsAncestor headers d h.previous_block_hash
  IsAncestor-parent a d h hd e f ne ([], same) = absurd (ne same)
  IsAncestor-parent a d h hd e f ne (x ∷ xs, (same, k, g, low, rest)) =
      let eq : k ≡ h = some-injective g e in
      (xs, rw (ap (λ (r : BlockHeader). r.previous_block_hash) eq) at rest)

  -- An ancestor is not higher than the block.
  pub IsAncestor-height :
      (genesis : ℕ) (v : IsTree headers genesis) (path : List ℕ) (a d : ℕ) (h hd : BlockHeader)
      → lookup a headers ≡ some h
      → lookup d headers ≡ some hd
      → Leads headers path a d
      → hd.height + length path ≡ h.height
  IsAncestor-height genesis v [] a d h hd e f same =
      let eq : hd ≡ h = some-injective (rw (← same) at f) e in
      omega (arith, ap (λ (r : BlockHeader). r.height) eq)
  IsAncestor-height genesis v (x ∷ xs) a d h hd e f (same, k, g, low, rest) =
      let eq : k ≡ h = some-injective g e in
      let (p, found, up) = v.parents a k g low in
      let ih = IsAncestor-height genesis v xs k.previous_block_hash d p hd found f rest in
      omega (arith, ap (λ (r : BlockHeader). r.height) eq)
