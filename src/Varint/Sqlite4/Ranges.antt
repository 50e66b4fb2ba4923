-- ===== src/Varint/Sqlite4/Ranges.antt =====
-- The ranges of `write_varint_sqlite4` of common/Varint.cpp, with what it writes in each.
use cryo_nero.Prelude.{
  ℕ, suc, ◌+◌, ◌-◌, ◌/◌, ◌%◌, ◌≤◌, ◌<◌, ◌^◌, ◌≡◌, refl, arith, [], ◌∷◌, leb, Bool-cases, ◌⊎◌, inl,
  inr, leb→le, false,
}
use cryo_nero.Varint.Sqlite4.{
  IsU64, uint_be_to_bytes, get_varint_sqlite4_size, write_varint_sqlite4,
}

pub data Range (v : ℕ) : Type 0 where
  one_byte : v ≤ 240 → write_varint_sqlite4 v ≡ v ∷ [] → Range v
  two_bytes :
      240 < v
      → v ≤ 2287
      → write_varint_sqlite4 v ≡ ((v - 240) / 256 + 241) ∷ ((v - 240) % 256) ∷ []
      → Range v
  three_bytes :
      2287 < v
      → v ≤ 67823
      → write_varint_sqlite4 v ≡ 249 ∷ ((v - 2288) / 256) ∷ ((v - 2288) % 256) ∷ []
      → Range v
  fixed :
      (n : ℕ)
      → 3 ≤ n
      → n ≤ 8
      → 67823 < v
      → (n ≡ 3) ⊎ (256 ^ (n - 1) ≤ v)
      → v < 256 ^ n
      → write_varint_sqlite4 v ≡ (247 + n) ∷ uint_be_to_bytes n v []
      → get_varint_sqlite4_size v ≡ suc n
      → Range v

above : (a b : ℕ) → leb a b ≡ false → b < a
above a b h = ground arith

pub range : (v : ℕ) → IsU64 v → Range v
unfolding write_varint_sqlite4 get_varint_sqlite4_size
range v h = elim (Bool-cases (leb v 240)) [
  | inl a ↦ let a' = leb→le _ _ a in one_byte a' (ground arith)
  | inr a ↦ elim (Bool-cases (leb v 2287)) [
    | inl b ↦ two_bytes (above _ _ a) (leb→le _ _ b) (ground arith)
    | inr b ↦ elim (Bool-cases (leb v 67823)) [
      | inl c ↦ three_bytes (above _ _ b) (leb→le _ _ c) (ground arith)
      | inr c ↦ elim (Bool-cases (leb v 16777215)) [
        | inl d ↦
            fixed 3 (omega arith) (omega arith) (above _ _ c) (inl refl) (ground arith)
              (rw (a, b, c, d)) (rw (a, b, c, d))
        | inr d ↦ elim (Bool-cases (leb v 4294967295)) [
          | inl e ↦
              fixed 4 (omega arith) (omega arith) (above _ _ c) (inr (above _ _ d)) (ground arith)
                (rw (a, b, c, d, e)) (rw (a, b, c, d, e))
          | inr e ↦ elim (Bool-cases (leb v 1099511627775)) [
            | inl f ↦
                fixed 5 (omega arith) (omega arith) (above _ _ c) (inr (above _ _ e)) (ground arith)
                  (rw (a, b, c, d, e, f)) (rw (a, b, c, d, e, f))
            | inr f ↦ elim (Bool-cases (leb v 281474976710655)) [
              | inl g ↦
                  fixed 6 (omega arith) (omega arith) (above _ _ c) (inr (above _ _ f))
                    (ground arith) (rw (a, b, c, d, e, f, g)) (rw (a, b, c, d, e, f, g))
              | inr g ↦ elim (Bool-cases (leb v 72057594037927935)) [
                | inl k ↦
                    fixed 7 (omega arith) (omega arith) (above _ _ c) (inr (above _ _ g))
                      (ground arith) (rw (a, b, c, d, e, f, g, k)) (rw (a, b, c, d, e, f, g, k))
                | inr k ↦
                    fixed 8 (omega arith) (omega arith) (above _ _ c) (inr (above _ _ k)) h
                      (rw (a, b, c, d, e, f, g, k)) (rw (a, b, c, d, e, f, g, k))
              ]
            ]
          ]
        ]
      ]
    ]
  ]
]
