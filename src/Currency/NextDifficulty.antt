-- ===== src/Currency/NextDifficulty.antt =====
-- `next_difficulty_v1` and `next_difficulty_v2` of Core/Currency.cpp: the difficulty of the next block
-- from the times and cumulative difficulties of the last ones. `none` is an `assert` that fails, or
-- a division by zero.
pub mod Work
pub mod Steady
mod Runs
use cryo_nero.Prelude.{
  ℕ, zero, suc, ◌+◌, ◌-◌, ◌*◌, ◌/◌, ◌%◌, ◌^◌, min, Bool, true, false, not, ◌&&◌, ◌||◌, Option, none,
  some, List, [], ◌∷◌, ltb, leb, ◌==◌, if◌then◌else◌, length, take, drop, get_or,
}
use cryo_nero.IntUtil.{Wide, mul128}
use cryo_nero.Currency.{Currency}

-- `std::sort`
abbrev put : ℕ → List ℕ → List ℕ
put t [] = t ∷ []
put t (u ∷ us) = let later = put t us in if leb t u then t ∷ u ∷ us else u ∷ later

abbrev pub sort : List ℕ → List ℕ
sort [] = []
sort (t ∷ ts) = put t (sort ts)

-- `cutBegin` and `cutEnd`, with the asserts around them.
pub cut_range : ℕ → ℕ → ℕ → Option (ℕ × ℕ)
cut_range window cut length =
    let inner = window - 2 * cut in
    let cut_begin = if leb length inner then 0 else (length - inner + 1) / 2 in
    let cut_end = if leb length inner then length else cut_begin + inner in
    if leb (2 * cut) (window - 2) && (leb (cut_begin + 2) cut_end && leb cut_end length)
    then some (cut_begin, cut_end)
    else none

-- `totalWork` and `timeSpan` of at least two blocks.
pub work_and_span : ℕ → ℕ → List ℕ → List ℕ → Option (ℕ × ℕ)
unfolding cut_range
work_and_span window cut timestamps cumulative_difficulties =
    let sorted = sort timestamps in
    elim (cut_range window cut (length timestamps)) [
      | none ↦ none
      | some (cut_begin, cut_end) ↦
          let span = get_or sorted (cut_end - 1) 0 - get_or sorted cut_begin 0 in
          let work =
            (get_or cumulative_difficulties (cut_end - 1) 0
              + 2 ^ 64
              - get_or cumulative_difficulties cut_begin 0)
            % 2 ^ 64 in
          if ltb 0 work then some (work, if span == 0 then 1 else span) else none
    ]

-- `low`, unless the product with the target or the rounding up overflows.
pub scaled_work : ℕ → ℕ → ℕ → Option ℕ
scaled_work target work span =
    let product = mul128 work target in
    if not (product.hi == 0) || ltb (2 ^ 64 - 1 - product.lo) (span - 1)
    then none
    else some product.lo

-- `resize`
abbrev resize : ℕ → List ℕ → List ℕ
resize zero xs = []
resize (suc n) [] = 0 ∷ resize n []
resize (suc n) (x ∷ xs) = x ∷ resize n xs

-- Division of an `int64_t`, given by its word, by 100, toward zero.
abbrev hundredth : ℕ → ℕ
hundredth word = if ltb word (2 ^ 63) then word / 100 else (2 ^ 64 - (2 ^ 64 - word) / 100) % 2 ^ 64

module _ (currency : Currency) where
  -- From `hardfork_v1_height` on: the last 17 blocks, and 100 at least.
  pub last_blocks_difficulty : ℕ → List ℕ → List ℕ → Option ℕ
  unfolding work_and_span scaled_work
  last_blocks_difficulty count timestamps cumulative_difficulties =
      let t_window = min 17 count in
      let last_times = drop (length timestamps - t_window) timestamps in
      let last_works = drop (length cumulative_difficulties - t_window) cumulative_difficulties in
      if not (length last_times == length last_works) || ltb 17 (length last_times)
      then none
      else if leb (length last_times) 1
      then some 1
      else elim (work_and_span 17 0 last_times last_works) [
        | none ↦ none
        | some (work, span) ↦ elim (scaled_work currency.difficulty_target work span) [
          | none ↦ some 0
          | some low ↦ some (if leb (low / span) 100 then 100 else low / span)
        ]
      ]

  -- Both vectors are cut to the window if there are more times.
  abbrev pub first_part : List ℕ → List ℕ → List ℕ
  first_part timestamps xs =
      if ltb currency.difficulty_window (length timestamps)
      then resize currency.difficulty_window xs
      else xs

  pub next_difficulty_v1 : ℕ → List ℕ → List ℕ → Option ℕ
  unfolding last_blocks_difficulty
  next_difficulty_v1 block_index timestamps cumulative_difficulties =
      let window = currency.difficulty_window in
      let first_times = first_part timestamps timestamps in
      let first_works = first_part timestamps cumulative_difficulties in
      if ltb window 2 || not (length first_times == length first_works)
      then none
      else if leb (length first_times) 1
      then some 1
      else elim (work_and_span window currency.difficulty_cut first_times first_works) [
        | none ↦ none
        | some (work, span) ↦ elim (scaled_work currency.difficulty_target work span) [
          | none ↦ some 0
          | some low ↦
              if leb currency.hardfork_v1_height block_index
              then last_blocks_difficulty (length first_times) timestamps cumulative_difficulties
              else some ((low + span - 1) / span)
        ]
      ]

  -- `ST + FTL`, which is not negative: the solve time between -FTL and 6 * T.
  abbrev pub solve_time : ℕ → ℕ → ℕ
  solve_time before time =
      let limit = currency.block_future_time_limit_v2 in
      if leb (time + limit) before
      then 0
      else min (time + limit - before) (6 * currency.difficulty_target + limit)

  -- The loop: `L` and `sum_3_ST`, each with FTL added to every ST in it.
  pub solve_times : ℕ → ℕ → List ℕ → ℕ × ℕ
  solve_times i before [] = (0, 0)
  solve_times i before (time ∷ times) =
      let st = solve_time before time in
      let (weighted, last) = solve_times (i + 1) time times in
      if ltb currency.difficulty_window_v2 i
      then (0, 0)
      else (st * i + weighted, (if ltb (currency.difficulty_window_v2 - 3) i then st else 0) + last)

  -- `100 * 2 * L` and the dividend are words of 64 bits, for the difficulties are unsigned.
  pub next_difficulty_v2 : List ℕ → List ℕ → Option ℕ
  unfolding solve_times
  next_difficulty_v2 timestamps cumulative_difficulties =
      let n = currency.difficulty_window_v2 in
      let target = currency.difficulty_target in
      let limit = currency.block_future_time_limit_v2 in
      let (weighted, last) = solve_times 1 (get_or timestamps 0 0) (drop 1 timestamps) in
      let shift = limit * (n * (n + 1) / 2) in
      let divisor = 200 * (weighted + 2 ^ 64 * (shift / 2 ^ 64 + 1) - shift) % 2 ^ 64 in
      let total =
        (get_or cumulative_difficulties n 0 + 2 ^ 64 - get_or cumulative_difficulties 0 0)
        % 2 ^ 64 in
      let previous =
        (get_or cumulative_difficulties n 0 + 2 ^ 64 - get_or cumulative_difficulties (n - 1) 0)
        % 2 ^ 64 in
      if leb (length timestamps) n
      then some 1000
      else if divisor == 0
      then none
      else if ltb last (8 * target / 10 + 3 * limit)
      then some (hundredth (previous * 110 % 2 ^ 64))
      else some (total * target % 2 ^ 64 * (n + 1) % 2 ^ 64 * 99 % 2 ^ 64 / divisor)

  pub next_difficulty : ℕ → List ℕ → List ℕ → Option ℕ
  unfolding next_difficulty_v1 next_difficulty_v2
  next_difficulty block_index timestamps cumulative_difficulties =
      if leb block_index currency.hardfork_v2_height
      then next_difficulty_v1 block_index timestamps cumulative_difficulties
      else next_difficulty_v2 timestamps cumulative_difficulties
