-- ===== src/BlockChainState/Interface.antt =====
-- `IBlockChainState` of Core/BlockChainState.hpp. The chain and a delta over it implement it; a
-- delta reads its parent through `StateView`, the const part.
use cryo_nero.Prelude.{ℕ, Bool, Option}

-- `UnlockTimePublickKeyHeightSpent`
pub record Output : Type 0 where
  pub unlock_time : ℕ
  pub public_key : ℕ
  pub height : ℕ
  pub spent : Bool

pub record StateView : Type 0 where
  pub read_keyimage : ℕ → Option ℕ
  pub next_global_index_for_amount : ℕ → ℕ
  -- amount, global index
  pub read_amount_output : ℕ → ℕ → Option Output

-- `none` is an exception: a violated `invariant`, a database key that is there already or missing.
pub record IBlockChainState (S : Type 0) : Type 0 where
  pub view : S → StateView
  pub store_keyimage : ℕ → ℕ → S → Option S
  pub delete_keyimage : ℕ → S → Option S
  -- amount, unlock time, height, key; the new output's global index
  pub push_amount_output : ℕ → ℕ → ℕ → ℕ → S → Option (S × ℕ)
  -- amount, unlock time, key
  pub pop_amount_output : ℕ → ℕ → ℕ → S → Option S
  pub spend_output : ℕ → ℕ → S → S
