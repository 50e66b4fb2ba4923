-- ===== src/Currency.antt =====
-- Core/Currency.hpp and Core/Currency.cpp: the rules of the currency. The constants are those of
-- CryptoNoteConfig.hpp.
pub mod Reward
pub mod NextDifficulty
mod Runs
use cryo_nero.Prelude.{
  ℕ, ◌+◌, ◌-◌, ◌*◌, ◌/◌, ◌%◌, ◌^◌, Bool, true, false, ltb, leb, ◌&&◌, if◌then◌else◌,
}

-- The fields that the rules below read. The genesis block is not among them.
pub record Currency : Type 0 where
  pub is_testnet : Bool
  pub max_block_height : ℕ
  pub max_tx_size : ℕ
  pub mined_money_unlock_window : ℕ
  pub timestamp_check_window : ℕ
  pub block_future_time_limit : ℕ
  pub money_supply : ℕ
  pub emission_speed_factor : ℕ
  pub reward_blocks_window : ℕ
  pub block_granted_full_reward_zone : ℕ
  pub miner_tx_blob_reserved_size : ℕ
  pub number_of_decimal_places : ℕ
  pub minimum_fee : ℕ
  pub default_dust_threshold : ℕ
  pub difficulty_target : ℕ
  pub difficulty_window : ℕ
  pub difficulty_lag : ℕ
  pub difficulty_cut : ℕ
  pub max_block_size_initial : ℕ
  pub max_block_size_growth_speed_numerator : ℕ
  pub max_block_size_growth_speed_denominator : ℕ
  pub locked_tx_allowed_delta_seconds : ℕ
  pub locked_tx_allowed_delta_blocks : ℕ
  pub upgrade_height_v2 : ℕ
  pub upgrade_height_v3 : ℕ
  pub upgrade_height_v4 : ℕ
  pub hardfork_v1_height : ℕ
  pub hardfork_v2_height : ℕ
  pub hardfork_v3_height : ℕ
  pub timestamp_check_window_v2 : ℕ
  pub block_future_time_limit_v2 : ℕ
  pub difficulty_window_v2 : ℕ
  pub difficulty_blocks_count_v2 : ℕ

abbrev target : Bool → ℕ
target is_testnet = if is_testnet then 1 else 60

-- The constructor; `static_cast<Height>(-1)` is 2^32 - 1.
abbrev pub new_currency : Bool → Currency
new_currency is_testnet = record {
  is_testnet = is_testnet;
  max_block_height = 500000000;
  max_tx_size = 1000000000;
  mined_money_unlock_window = 10;
  timestamp_check_window = 60;
  block_future_time_limit = 60 * 60 * 2;
  money_supply = 2 ^ 64 - 1;
  emission_speed_factor = 16;
  reward_blocks_window = 100;
  block_granted_full_reward_zone = 100000;
  miner_tx_blob_reserved_size = 600;
  number_of_decimal_places = 10;
  minimum_fee = 1000000;
  default_dust_threshold = 1000000;
  difficulty_target = target is_testnet;
  difficulty_window = 24 * 60 * 60 / target is_testnet;
  difficulty_lag = 15;
  difficulty_cut = 60;
  max_block_size_initial = 20 * 1024;
  max_block_size_growth_speed_numerator = 100 * 1024;
  max_block_size_growth_speed_denominator = 365 * 24 * 60 * 60 / target is_testnet;
  locked_tx_allowed_delta_seconds = target is_testnet * 1;
  locked_tx_allowed_delta_blocks = 1;
  upgrade_height_v2 = if is_testnet then 0 else 1;
  upgrade_height_v3 = if is_testnet then 2 ^ 32 - 1 else 2;
  upgrade_height_v4 = 7080;
  hardfork_v1_height = 7070;
  hardfork_v2_height = 7080;
  hardfork_v3_height = 4294967294;
  timestamp_check_window_v2 = 11;
  block_future_time_limit_v2 = 60 * 3;
  difficulty_window_v2 = 60;
  difficulty_blocks_count_v2 = 60 + 1;
}

module _ (currency : Currency) where
  -- The height is a block index below `max_block_height`, and a time from there on; the sums are
  -- `uint32_t`.
  unfoldable pub is_transaction_spend_time_unlocked : ℕ → ℕ → ℕ → Bool
  is_transaction_spend_time_unlocked unlock_time block_index block_time =
      if ltb unlock_time currency.max_block_height
      then leb unlock_time ((block_index + currency.locked_tx_allowed_delta_blocks) % 2 ^ 32)
      else leb unlock_time ((block_time + currency.locked_tx_allowed_delta_seconds) % 2 ^ 32)

pub difficulty_blocks_count : Currency → ℕ
difficulty_blocks_count c = (c.difficulty_window + c.difficulty_lag) % 2 ^ 32

pub get_timestamp_check_window : Currency → ℕ → ℕ
get_timestamp_check_window c height =
    if leb c.hardfork_v2_height height
    then c.timestamp_check_window_v2
    else c.timestamp_check_window

pub get_difficulty_blocks_count : Currency → ℕ → ℕ
unfolding difficulty_blocks_count
get_difficulty_blocks_count c height =
    if leb height c.hardfork_v2_height
    then difficulty_blocks_count c
    else c.difficulty_blocks_count_v2
