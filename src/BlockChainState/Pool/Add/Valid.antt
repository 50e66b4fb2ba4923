-- ===== src/BlockChainState/Pool/Add/Valid.antt =====
-- `add_transaction` of Core/BlockChainState.cpp keeps the invariant of the pool.
use cryo_nero.Prelude.{◌≡◌, Option, some}
use cryo_nero.Currency.{Currency}
use cryo_nero.BlockChainState.Ledger.{Ledger}
use cryo_nero.BlockChainState.Redo.{Redo}
use cryo_nero.BlockChainState.Pool.{Pool}
use cryo_nero.BlockChainState.Pool.Valid.{PoolIsValid}
use cryo_nero.BlockChainState.Pool.Add.{AddTransactionResult}

-- The call answers and leaves a valid pool.
abbrev pub Answers : Option (AddTransactionResult × Pool) → Type 0
Answers o =
    (result : AddTransactionResult) × (pool : Pool) × (o ≡ some (result, pool)) × PoolIsValid pool
