-- ===== src/BlockChainState/Ledger/Runs.antt =====
-- The theorems on the tables of Core/BlockChainState.cpp at concrete inputs.
use cryo_nero.Prelude.{ℕ, ◌≡◌, refl, arith, false, some, [], ◌∷◌}
use cryo_nero.Prelude.Maps.{lookup}
use cryo_nero.BlockChainState.Interface.{Output}
use cryo_nero.BlockChainState.Ledger.{Ledger, push_amount_output, pop_amount_output}
use cryo_nero.BlockChainState.Ledger.Refinement.{
  LedgerHolds, unspent, push_amount_output-LedgerHolds,
}
use cryo_nero.BlockChainState.Ledger.Pop.{pop_amount_output-push_amount_output}
use cryo_nero.BlockChainState.Stacks.{Stacks, push_at}

abbrev new_ledger : Ledger
new_ledger = record { keyimages = []; outputs = []; next_gi = [] }

abbrev no_stacks : Stacks
no_stacks a = []

new_ledger-LedgerHolds : LedgerHolds new_ledger no_stacks
unfolding lookup
new_ledger-LedgerHolds = record {
  entries = λ a i. refl;
  cached = λ a n e. absurd cc;
  fits = λ a. omega arith;
}

push_amount_output-LedgerHolds_example :
    (s' : Ledger) × (push_amount_output 100 0 7 55 new_ledger ≡ some (s', 0))
    × LedgerHolds s' (push_at 100 (unspent 0 7 55) no_stacks)
    × (s'.keyimages ≡ [])
push_amount_output-LedgerHolds_example =
    push_amount_output-LedgerHolds new_ledger no_stacks 100 0 7 55 new_ledger-LedgerHolds
      (omega arith)

pop_amount_output-push_amount_output_example :
    (s' : Ledger) × (index : ℕ) × (push_amount_output 100 0 7 55 new_ledger ≡ some (s', index))
    × (s'' : Ledger) × (pop_amount_output 100 0 55 s' ≡ some s'')
    × LedgerHolds s'' no_stacks
pop_amount_output-push_amount_output_example =
    pop_amount_output-push_amount_output new_ledger no_stacks 100 0 7 55 new_ledger-LedgerHolds
      (omega arith)

-- One output of 100.
abbrev coin : Output
coin = record { unlock_time = 0; public_key = 55; height = 7; spent = false }

abbrev one_output : Ledger
one_output = record { keyimages = []; outputs = (100, (0, coin) ∷ []) ∷ []; next_gi = [] }

abbrev one_stack : Stacks
one_stack = push_at 100 coin no_stacks
