-- ===== src/BlockChainState/Ledger/Keyimages.antt =====
-- What the operations on the tables of Core/BlockChainState.cpp do to the spent key images.
use cryo_nero.Prelude.{ℕ, ◌≡◌, arith, Bool, none, some, ◌==◌, if◌then◌else◌, Option-cases, inl, inr}
use cryo_nero.Prelude.Maps.{lookup, erase, lookup-erase}
use cryo_nero.BlockChainState.Ledger.{
  Ledger, table, pop_amount_output, mark_output, read_amount_output, read_keyimage, delete_keyimage,
}
use cryo_nero.BlockChainState.Stacks.{Stacks}
use cryo_nero.BlockChainState.Ledger.Refinement.{LedgerHolds}

pub pop_amount_output-keyimages :
    (a t key : ℕ) (s s' : Ledger)
    → pop_amount_output a t key s ≡ some s'
    → (k : ℕ) → read_keyimage s' k ≡ read_keyimage s k
unfolding pop_amount_output read_keyimage
pop_amount_output-keyimages a t key s s' e k = ground arith

pub mark_output-keyimages :
    (a i : ℕ) (m : Bool) (s : Ledger) (k : ℕ)
    → read_keyimage (mark_output a i m s) k ≡ read_keyimage s k
unfolding mark_output read_keyimage read_amount_output
mark_output-keyimages a i m s k = elim (Option-cases (lookup i (table s a))) [
  | inl e ↦ ground (arith, e)
  | inr (was, e) ↦ ground (arith, e)
]

-- An image that is there is deleted, and nothing else changes.
pub delete_keyimage-LedgerHolds :
    (s : Ledger) (st : Stacks) (image height : ℕ)
    → LedgerHolds s st
    → read_keyimage s image ≡ some height
    → (s' : Ledger) × (delete_keyimage image s ≡ some s')
      × LedgerHolds s' st
      × ((k : ℕ) → read_keyimage s' k ≡ (if image == k then none else read_keyimage s k))
unfolding delete_keyimage read_keyimage
delete_keyimage-LedgerHolds s st image height h there = (
  record s { keyimages = erase image s.keyimages },
  ground (arith, there),
  record { entries = h.entries; cached = h.cached; fits = h.fits },
  λ k. lookup-erase image k s.keyimages,
)
