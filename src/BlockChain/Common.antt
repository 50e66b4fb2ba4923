-- ===== src/BlockChain/Common.antt =====
-- `get_common_block` of Core/BlockChain.cpp: where two branches of the tree part.
pub mod Deepest
use cryo_nero.Prelude.{
  ℕ, zero, suc, true, false, Option, none, some, List, [], ◌∷◌, ◌++◌, ltb, ◌==◌, if◌then◌else◌,
}
use cryo_nero.BlockChain.{BlockHeader, BlockTree, read_header}

-- `while (ha.height > height)`: the blocks passed, in the order of `push_back`, and the block behind
-- them. `none`: a header was not found, or the fuel ran out.
unfoldable pub descend : ℕ → BlockTree → ℕ → ℕ → BlockHeader → Option (List ℕ × ℕ × BlockHeader)
unfolding read_header
descend zero t height hid ha = if ltb height ha.height then none else some ([], hid, ha)
descend (suc fuel) t height hid ha =
    if ltb height ha.height
    then (elim (read_header t ha.previous_block_hash) [
      | none ↦ none
      | some parent ↦ elim (descend fuel t height ha.previous_block_hash parent) [
        | none ↦ none
        | some (passed, below, found) ↦ some (hid ∷ passed, below, found)
      ]
    ])
    else some ([], hid, ha)

-- `while (hid1 != hid2)`
unfoldable pub descend_both :
    ℕ → BlockTree → ℕ → BlockHeader → ℕ → BlockHeader → Option (ℕ × List ℕ × List ℕ)
unfolding read_header
descend_both zero t hid1 ha1 hid2 ha2 = if hid1 == hid2 then some (hid1, [], []) else none
descend_both (suc fuel) t hid1 ha1 hid2 ha2 = elim (hid1 == hid2) [
  | true ↦ some (hid1, [], [])
  | false ↦ elim (read_header t ha1.previous_block_hash) [
    | none ↦ none
    | some parent1 ↦ elim (read_header t ha2.previous_block_hash) [
      | none ↦ none
      | some parent2 ↦
          elim (descend_both fuel t ha1.previous_block_hash parent1 ha2.previous_block_hash
            parent2) [
              | none ↦ none
              | some (common, chain1, chain2) ↦ some (common, hid1 ∷ chain1, hid2 ∷ chain2)
            ]
    ]
  ]
]

-- The common block and the two chains above it. A loop makes no more rounds than the height.
unfoldable pub get_common_block : BlockTree → ℕ → ℕ → Option (ℕ × List ℕ × List ℕ)
unfolding read_header descend descend_both
get_common_block t bid1 bid2 = elim (read_header t bid1) [
  | none ↦ none
  | some top1 ↦ elim (read_header t bid2) [
    | none ↦ none
    | some top2 ↦ elim (descend top1.height t top2.height bid1 top1) [
      | none ↦ none
      | some (first1, hid1, ha1) ↦ elim (descend top2.height t ha1.height bid2 top2) [
        | none ↦ none
        | some (first2, hid2, ha2) ↦ elim (descend_both ha1.height t hid1 ha1 hid2 ha2) [
          | none ↦ none
          | some (common, rest1, rest2) ↦ some (common, first1 ++ rest1, first2 ++ rest2)
        ]
      ]
    ]
  ]
]
