-- ===== src/Currency/Runs.antt =====
-- Runs of the rules of Core/Currency.cpp, and the theorems at concrete inputs.
use cryo_nero.Prelude.{◌*◌, ◌≤◌, ◌≡◌, arith, false, some, none, leb, if◌then◌else◌}
use cryo_nero.Currency.{Currency, new_currency}
use cryo_nero.Currency.Reward.{get_penalized_amount}
use cryo_nero.Currency.Reward.Penalty.{
  penalized, get_penalized_amount-penalized, get_penalized_amount-falls,
}

abbrev mainnet : Currency
mainnet = new_currency false

get_penalized_amount-penalized_example :
    get_penalized_amount 1000000 100 150
    ≡ (if leb 150 (2 * 100) then some (penalized 1000000 100 150) else none)
get_penalized_amount-penalized_example =
    get_penalized_amount-penalized 1000000 100 150 (omega arith) (omega arith) (omega arith)

kept_150 : get_penalized_amount 1000000 100 150 ≡ some 750000
kept_150 = get_penalized_amount-penalized 1000000 100 150 (omega arith) (omega arith) (omega arith)

kept_180 : get_penalized_amount 1000000 100 180 ≡ some 360000
kept_180 = get_penalized_amount-penalized 1000000 100 180 (omega arith) (omega arith) (omega arith)

get_penalized_amount-falls_example : 360000 ≤ 750000
get_penalized_amount-falls_example =
    get_penalized_amount-falls 1000000 100 150 180 750000 360000 (omega arith) (omega arith)
      (omega arith) (omega arith) kept_150 kept_180
