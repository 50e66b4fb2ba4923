-- ===== src/Currency/Reward.antt =====
-- The block reward of Core/Currency.cpp and its penalty for large blocks. An `assert` that fails
-- ends the process: `none`.
pub mod Penalty
pub mod Emission
use cryo_nero.Prelude.{
  ℕ, ◌+◌, ◌-◌, ◌*◌, ◌/◌, ◌%◌, ◌^◌, Bool, true, false, not, ◌&&◌, Option, none, some, ltb, leb, ◌==◌,
  if◌then◌else◌,
}
use cryo_nero.IntUtil.{Wide, mul128, div128_32}
use cryo_nero.Currency.{Currency}

-- The two divisions by the median.
pub div_twice : Wide → ℕ → Wide
div_twice product median_size = (div128_32 (div128_32 product median_size).0 median_size).0

pub get_penalized_amount : ℕ → ℕ → ℕ → Option ℕ
unfolding div_twice
get_penalized_amount amount median_size current_block_size =
    let factor =
      current_block_size * ((2 * median_size + 2 ^ 64 - current_block_size) % 2 ^ 64) % 2 ^ 64 in
    let penalized = div_twice (mul128 amount factor) median_size in
    if leb current_block_size (2 * median_size % 2 ^ 64)
      && (leb median_size (2 ^ 32 - 1) && leb current_block_size (2 ^ 32 - 1))
    then (if amount == 0
        then some 0
        else if leb current_block_size median_size
        then some amount
        else if penalized.hi == 0 && ltb penalized.lo amount
        then some penalized.lo
        else none)
    else none

module _ (currency : Currency) where
  pub get_block_major_version_for_height : ℕ → ℕ
  get_block_major_version_for_height height =
      if leb height currency.upgrade_height_v2
      then 1
      else if ltb currency.upgrade_height_v2 height && leb height currency.upgrade_height_v3
      then 2
      else if ltb currency.upgrade_height_v3 height && leb height currency.upgrade_height_v4
      then 3
      else 4

  pub block_granted_full_reward_zone_by_block_version : ℕ → ℕ
  block_granted_full_reward_zone_by_block_version block_major_version =
      if leb 3 block_major_version
      then currency.block_granted_full_reward_zone
      else if block_major_version == 2
      then 20000
      else 10000

  -- `DIFFICULTY_SCATTER_V2` is 32.
  pub calc_base_reward : ℕ → ℕ → ℕ
  calc_base_reward block_major_version already_generated_coins =
      let base_reward =
        (currency.money_supply + 2 ^ 64 - already_generated_coins)
        % 2 ^ 64
        / 2 ^ currency.emission_speed_factor in
      if leb 4 block_major_version && leb 32 base_reward then base_reward / 32 else base_reward

  -- The reward and the emission change, whose sign is that of its 64-bit word. The function
  -- answers `true` always.
  pub get_block_reward : ℕ → ℕ → ℕ → ℕ → ℕ → Option (ℕ × ℕ)
  get_block_reward block_major_version effective_median_size current_block_size
        already_generated_coins fee =
      if leb already_generated_coins currency.money_supply
        && (ltb 0 currency.emission_speed_factor && leb currency.emission_speed_factor 64)
      then elim (get_penalized_amount (calc_base_reward block_major_version already_generated_coins)
          effective_median_size current_block_size) [
            | none ↦ none
            | some penalized_base_reward ↦
                elim (if leb 2 block_major_version
                  then get_penalized_amount fee effective_median_size current_block_size
                  else some fee) [
                    | none ↦ none
                    | some penalized_fee ↦ some (
                      (penalized_base_reward + penalized_fee) % 2 ^ 64,
                      (penalized_base_reward + 2 ^ 64 - (fee + 2 ^ 64 - penalized_fee) % 2 ^ 64)
                          % 2 ^ 64,
                    )
                  ]
          ]
      else none

  pub max_block_cumulative_size : ℕ → Option ℕ
  max_block_cumulative_size height =
      let max_size =
        (currency.max_block_size_initial
          + height
            * currency.max_block_size_growth_speed_numerator
            % 2 ^ 64
            / currency.max_block_size_growth_speed_denominator)
        % 2 ^ 64 in
      if leb height ((2 ^ 64 - 1) / currency.max_block_size_growth_speed_numerator)
        && leb currency.max_block_size_initial max_size
      then some (max_size % 2 ^ 32)
      else none
