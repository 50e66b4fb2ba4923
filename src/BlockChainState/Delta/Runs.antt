-- ===== src/BlockChainState/Delta/Runs.antt =====
-- The theorems on a delta of Core/BlockChainState.cpp at concrete inputs.
use cryo_nero.Prelude.{ℕ, ◌+◌, ◌^◌, ◌<◌, ◌≡◌, refl, arith, none, some, [], ◌∷◌, length}
use cryo_nero.Prelude.Maps.{lookup}
use cryo_nero.BlockChainState.Stacks.{Stacks, Shows}
use cryo_nero.BlockChainState.Ledger
use cryo_nero.BlockChainState.Ledger.{Ledger, ledger_view, ledger_interface}
use cryo_nero.BlockChainState.Ledger.Refinement.{LedgerHolds, shows_lem}
use cryo_nero.BlockChainState.Delta.{DeltaState, delta_view, new_outputs, apply}
use cryo_nero.BlockChainState.Delta.Refinement.{grown, grown_images, delta_view-Shows}
use cryo_nero.BlockChainState.Delta.Apply.{DeltaIsValid, mark_all, apply-LedgerHolds}

abbrev chain : Ledger
chain = record { keyimages = []; outputs = []; next_gi = [] }

abbrev no_stacks : Stacks
no_stacks a = []

chain-LedgerHolds : LedgerHolds chain no_stacks
unfolding lookup
chain-LedgerHolds = record {
  entries = λ a i. refl;
  cached = λ a n e. absurd cc;
  fits = λ a. omega arith;
}

-- One new output, which the block also spends, and one key image.
abbrev delta : DeltaState
delta = record {
  keyimages = (9, 6) ∷ [];
  global_amounts = (100, (0, 55) ∷ []) ∷ [];
  spent_outputs = (100, 0) ∷ [];
  block_height = 6;
  unlock_timestamp = 1000;
  parent_state = ledger_view chain;
}

delta-fits : (a : ℕ) → length (no_stacks a) + length (new_outputs delta a) < 2 ^ 32
unfolding lookup
delta-fits a = ground arith

delta-DeltaIsValid : DeltaIsValid delta
unfolding lookup
delta-DeltaIsValid = record {
  amounts = (omega arith, tt);
  images = (omega arith, tt);
  heights = λ k h e. ground (arith, e);
}

delta-new : (k h : ℕ) → lookup k delta.keyimages ≡ some h → Ledger.read_keyimage chain k ≡ none
unfolding lookup Ledger.read_keyimage
delta-new k h e = refl

delta_view-Shows_example :
    Shows
      (delta_view delta)
      (grown delta no_stacks)
      (grown_images delta (Ledger.read_keyimage chain))
delta_view-Shows_example =
    delta_view-Shows delta no_stacks (Ledger.read_keyimage chain)
      (shows_lem chain no_stacks chain-LedgerHolds) delta-fits

apply-LedgerHolds_example :
    (s' : Ledger) × (apply ledger_interface delta chain ≡ some s')
    × LedgerHolds s' (mark_all ((100, 0) ∷ []) (grown delta no_stacks))
    × ((k : ℕ) → Ledger.read_keyimage s' k ≡ grown_images delta (Ledger.read_keyimage chain) k)
apply-LedgerHolds_example =
    apply-LedgerHolds delta chain no_stacks delta-DeltaIsValid chain-LedgerHolds delta-new
      delta-fits
