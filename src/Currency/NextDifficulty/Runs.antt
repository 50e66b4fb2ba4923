-- ===== src/Currency/NextDifficulty/Runs.antt =====
-- Runs of the difficulty rules of Core/Currency.cpp, and the theorems at concrete inputs.
use cryo_nero.Prelude.{ℕ, ◌*◌, ◌/◌, ◌≤◌, ◌≡◌, ◌⊎◌, refl, arith, some, List, [], ◌∷◌, false}
use cryo_nero.Currency.{Currency, new_currency}
use cryo_nero.Currency.NextDifficulty.{
  cut_range, work_and_span, scaled_work, last_blocks_difficulty, next_difficulty_v1,
  next_difficulty_v2,
}
use cryo_nero.Currency.NextDifficulty.Work.{next_difficulty_v1-minimum}
use cryo_nero.Currency.NextDifficulty.Steady.{steady, next_difficulty_v2-steady}

abbrev mainnet : Currency
mainnet = new_currency false

abbrev times : List ℕ
times = 0 ∷ 130 ∷ 60 ∷ []

abbrev works : List ℕ
works = 10 ∷ 20 ∷ 30 ∷ []

abbrev ten : ℕ
ten = 10

abbrev hundred : ℕ
hundred = 100

late_run : next_difficulty_v1 mainnet 7075 times works ≡ some 100
unfolding next_difficulty_v1 last_blocks_difficulty work_and_span cut_range scaled_work
late_run = refl

next_difficulty_v1-minimum_example : ((hundred ≡ 0) ⊎ (hundred ≡ 1)) ⊎ (100 ≤ hundred)
next_difficulty_v1-minimum_example =
    next_difficulty_v1-minimum mainnet 7075 times works 100 (omega arith) late_run

next_difficulty_v2-steady_example :
    next_difficulty_v2 mainnet (steady 61 1000000 60) (steady 61 5000 2000) ≡ some (2000 * 99 / 100)
next_difficulty_v2-steady_example =
    next_difficulty_v2-steady 1000000 5000 2000 (omega arith) (omega arith)
