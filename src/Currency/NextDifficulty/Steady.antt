-- ===== src/Currency/NextDifficulty/Steady.antt =====
-- `next_difficulty_v2` of Core/Currency.cpp when blocks come at the target time.
use cryo_nero.Prelude.{
  ℕ, zero, suc, ◌+◌, ◌-◌, ◌*◌, ◌/◌, ◌%◌, ◌^◌, ◌≤◌, ◌<◌, ◌≡◌, refl, ap, ◌∙◌, arith, false, some,
  List, [], ◌∷◌, ltb, if◌then◌else◌, length, get_or, drop,
}
use cryo_nero.Currency.{Currency, new_currency}
use cryo_nero.Currency.NextDifficulty.{solve_times, next_difficulty_v2}

-- `count` numbers from the first on, each larger by the step.
abbrev pub steady : ℕ → ℕ → ℕ → List ℕ
steady zero first step = []
steady (suc count) first step = first ∷ steady count (first + step) step

length-steady : (count first step : ℕ) → length (steady count first step) ≡ count
length-steady zero first step = refl
length-steady (suc count) first step = omega (arith, length-steady count (first + step) step)

get_or-steady :
    (count first step i : ℕ) → i < count → get_or (steady count first step) i 0 ≡ first + i * step
get_or-steady zero first step i h = absurd (omega arith)
get_or-steady (suc count) first step zero h = grind arith
get_or-steady (suc count) first step (suc i) h =
    get_or-steady count (first + step) step i (omega arith) ∙ shift
  where
    shift : first + step + i * step ≡ first + suc i * step
    shift = grind arith

abbrev mainnet : Currency
mainnet = new_currency false

-- The weights i, i + 1, … of `count` blocks, and how many are among the last three.
abbrev weights : ℕ → ℕ → ℕ
weights i zero = 0
weights i (suc count) = i + weights (i + 1) count

abbrev recent : ℕ → ℕ → ℕ
recent i zero = 0
recent i (suc count) = (if ltb 57 i then 1 else 0) + recent (i + 1) count

solve_times-steady :
    (count i before : ℕ)
    → i + count ≤ 61
    → solve_times mainnet i before (steady count (before + 60) 60)
      ≡ (240 * weights i count, 240 * recent i count)
unfolding solve_times
solve_times-steady zero i before h = ground arith
solve_times-steady (suc count) i before h =
    ground (arith, solve_times-steady count (i + 1) (before + 60))

some_quotient :
    (work d : ℕ)
    → work + 60 * d < 2 ^ 64
    → d * 21740400 < 2 ^ 64
    → some (
        (work + 60 * d + 2 ^ 64 - work)
        % 2 ^ 64
        * 60
        % 2 ^ 64
        * 61
        % 2 ^ 64
        * 99
        % 2 ^ 64
        / 21960000)
      ≡ some (d * 99 / 100)
some_quotient work d fits small = ap (λ (t : ℕ). some t) quotient
  where
    quotient :
        (work + 60 * d + 2 ^ 64 - work)
          % 2 ^ 64
          * 60
          % 2 ^ 64
          * 61
          % 2 ^ 64
          * 99
          % 2 ^ 64
          / 21960000
        ≡ d * 99 / 100
    quotient = omega arith

from_sums :
    (ts ws : List ℕ) (work d : ℕ)
    → work + 60 * d < 2 ^ 64
    → d * 21740400 < 2 ^ 64
    → length ts ≡ 61
    → solve_times mainnet 1 (get_or ts 0 0) (drop 1 ts) ≡ (439200, 720)
    → get_or ws 60 0 ≡ work + 60 * d
    → get_or ws 0 0 ≡ work
    → next_difficulty_v2 mainnet ts ws ≡ some (d * 99 / 100)
unfolding next_difficulty_v2
from_sums ts ws work d fits small el es e60 e0 =
    rw (es, el, e60, e0) (some_quotient work d fits small)

-- On the main net, for 61 blocks that came at the target time of 60 seconds and had the same
-- difficulty each, the next difficulty is 99 hundredths of that, rounded down. Nothing overflows:
-- the last cumulative difficulty and 99 * 61 * 60 * 60 times the difficulty fit 64 bits.
pub next_difficulty_v2-steady :
    (time work d : ℕ)
    → work + 60 * d < 2 ^ 64
    → d * 21740400 < 2 ^ 64
    → next_difficulty_v2 mainnet (steady 61 time 60) (steady 61 work d) ≡ some (d * 99 / 100)
next_difficulty_v2-steady time work d fits small =
    from_sums (steady 61 time 60) (steady 61 work d) work d fits small (length-steady 61 time 60)
      (solve_times-steady 60 1 time (omega arith)) (get_or-steady 61 work d 60 (omega arith)) refl
