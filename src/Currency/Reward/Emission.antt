-- ===== src/Currency/Reward/Emission.antt =====
-- `get_block_reward` of Core/Currency.cpp: what a block pays is what it emits and its fees, and the
-- emission keeps within the supply.
use native.Mathlib.Nat.{div-le_self}
use cryo_nero.Prelude.{ℕ, ◌+◌, ◌-◌, ◌/◌, ◌%◌, ◌^◌, ◌≤◌, ◌≡◌, arith, leb, if◌then◌else◌}
use cryo_nero.IntUtil.{IsU64}
use cryo_nero.Currency.{Currency}
use cryo_nero.Currency.Reward.{calc_base_reward}
use cryo_nero.Currency.Reward.Penalty.{penalized}

module _ (currency : Currency) where
  -- The base reward fits what is left of the supply.
  pub calc_base_reward-le :
      (version already : ℕ)
      → already ≤ currency.money_supply
      → IsU64 currency.money_supply
      → calc_base_reward currency version already ≤ currency.money_supply - already
  unfolding calc_base_reward
  calc_base_reward-le version already le fits = ground (
    arith,
    word,
    shifted,
    div-le_self (currency.money_supply - already) (2 ^ currency.emission_speed_factor),
  )
    where
      word : (currency.money_supply + 2 ^ 64 - already) % 2 ^ 64 ≡ currency.money_supply - already
      word = omega arith

      shifted :
          (currency.money_supply + 2 ^ 64 - already) % 2 ^ 64 / 2 ^ currency.emission_speed_factor
          ≤ currency.money_supply - already
      shifted =
          rw (word)
            (div-le_self (currency.money_supply - already) (2 ^ currency.emission_speed_factor))

  -- The base reward and the fee, with the penalty; fees go without it in version 1.
  abbrev kept_base : ℕ → ℕ → ℕ → ℕ → ℕ
  kept_base version m c already = penalized (calc_base_reward currency version already) m c

  abbrev kept_fee : ℕ → ℕ → ℕ → ℕ → ℕ
  kept_fee version m c fee = if leb 2 version then penalized fee m c else fee
