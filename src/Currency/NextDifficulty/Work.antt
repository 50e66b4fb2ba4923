-- ===== src/Currency/NextDifficulty/Work.antt =====
-- `next_difficulty_v1` of Core/Currency.cpp asks for the work that the target time allows.
use cryo_nero.Prelude.{
  ℕ, ◌-◌, ◌≤◌, ◌≡◌, arith, not, ◌||◌, min, drop, some, List, ltb, leb, ◌==◌, length, Bool-cases,
  Option-cases, ◌⊎◌, inl, inr,
}
use cryo_nero.Currency.{Currency}
use cryo_nero.Currency.NextDifficulty.{
  work_and_span, scaled_work, first_part, last_blocks_difficulty, next_difficulty_v1,
}

last_blocks_difficulty-minimum :
    (currency : Currency) (count : ℕ) (timestamps works : List ℕ) (d : ℕ)
    → last_blocks_difficulty currency count timestamps works ≡ some d
    → ((d ≡ 0) ⊎ (d ≡ 1)) ⊎ (100 ≤ d)
unfolding last_blocks_difficulty
last_blocks_difficulty-minimum currency count timestamps works d e =
    elim (Bool-cases (not (length ts == length ws) || ltb 17 (length ts))) [
      | inl a ↦ absurd (ground (arith, a))
      | inr a ↦ elim (Bool-cases (leb (length ts) 1)) [
        | inl b ↦ inl (inr (ground (arith, a, b)))
        | inr b ↦ elim (Option-cases (work_and_span 17 0 ts ws)) [
          | inl n ↦ absurd (ground (arith, a, b, n))
          | inr ((work, span), n) ↦
              elim (Option-cases (scaled_work currency.difficulty_target work span)) [
                | inl m ↦ inl (inl (ground (arith, a, b, n, m)))
                | inr (low, m) ↦ inr (ground (arith, a, b, n, m))
              ]
        ]
      ]
    ]
  where
    ts : List ℕ
    ts = drop (length timestamps - min 17 count) timestamps

    ws : List ℕ
    ws = drop (length works - min 17 count) works

-- From `hardfork_v1_height` on, a difficulty other than 0 and 1 is at least 100.
pub next_difficulty_v1-minimum :
    (currency : Currency) (block_index : ℕ) (timestamps works : List ℕ) (d : ℕ)
    → currency.hardfork_v1_height ≤ block_index
    → next_difficulty_v1 currency block_index timestamps works ≡ some d
    → ((d ≡ 0) ⊎ (d ≡ 1)) ⊎ (100 ≤ d)
unfolding next_difficulty_v1 last_blocks_difficulty
next_difficulty_v1-minimum currency block_index timestamps works d after e =
    elim (Bool-cases (ltb w 2 || not (length ts == length ws))) [
      | inl a ↦ absurd (ground (arith, a))
      | inr a ↦ elim (Bool-cases (leb (length ts) 1)) [
        | inl b ↦ inl (inr (ground (arith, a, b)))
        | inr b ↦ elim (Option-cases (work_and_span w currency.difficulty_cut ts ws)) [
          | inl n ↦ absurd (ground (arith, a, b, n))
          | inr ((work, span), n) ↦
              elim (Option-cases (scaled_work currency.difficulty_target work span)) [
                | inl m ↦ inl (inl (ground (arith, a, b, n, m)))
                | inr (low, m) ↦ last (ground (arith, a, b, n, m))
              ]
        ]
      ]
    ]
  where
    w : ℕ
    w = currency.difficulty_window

    ts : List ℕ
    ts = first_part currency timestamps timestamps

    ws : List ℕ
    ws = first_part currency timestamps works

    last :
        last_blocks_difficulty currency (length ts) timestamps works ≡ some d
        → ((d ≡ 0) ⊎ (d ≡ 1)) ⊎ (100 ≤ d)
    last e = last_blocks_difficulty-minimum currency (length ts) timestamps works d e
