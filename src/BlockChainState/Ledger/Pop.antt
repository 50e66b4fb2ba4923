-- ===== src/BlockChainState/Ledger/Pop.antt =====
-- `pop_amount_output` of Core/BlockChainState.cpp takes back what a push did.
use cryo_nero.Prelude.{
  ℕ, ◌+◌, ◌^◌, ◌<◌, ◌≡◌, sym, ◌∙◌, ap, fun_ext, arith, some, List, [], ◌∷◌, ◌++◌, length,
  length-append,
}
use cryo_nero.Prelude.Maps.{lookup, lookup-insert}
use cryo_nero.BlockChainState.Interface.{Output}
use cryo_nero.BlockChainState.Ledger.{
  Ledger, table, next_global_index_for_amount, read_amount_output, push_amount_output,
  pop_amount_output, take_output, set_next,
}
use cryo_nero.BlockChainState.Stacks.{Stacks, push_at, replace_at, get_elem?-push}
use cryo_nero.BlockChainState.Ledger.Reads.{get_elem?-front, lookup-take_output}
use cryo_nero.BlockChainState.Ledger.Refinement.{
  LedgerHolds, unspent, next_lem, push_amount_output-LedgerHolds,
}

pop_holds :
    (s : Ledger) (st : Stacks) (a : ℕ) (front : List Output) (o : Output)
    → LedgerHolds s st
    → st a ≡ front ++ o ∷ []
    → LedgerHolds
        (set_next a (length front) (take_output a (length front) s))
        (replace_at a front st)
pop_holds s st a front o h e = record {
  entries = λ b j.
      lookup-take_output a (length front) s b j
      ∙ ground (arith, h.entries a j, h.entries b j, get_elem?-front front o j, e);
  cached = λ b n k. ground (arith, h.cached b n, lookup-insert a b (length front) s.next_gi);
  fits = λ b. ground (arith, h.fits b, h.fits a, length-append front (o ∷ []), ap length e);
}

-- `pop_amount_output` takes an unspent output from the top of the stack, if it is the one that is
-- asked for, and the tables go on to hold the stacks.
pub pop_amount_output-LedgerHolds :
    (s : Ledger) (st : Stacks) (a t height k : ℕ) (front : List Output)
    → LedgerHolds s st
    → st a ≡ front ++ unspent t height k ∷ []
    → (s' : Ledger) × (pop_amount_output a t k s ≡ some s') × LedgerHolds s' (replace_at a front st)
unfolding pop_amount_output read_amount_output
pop_amount_output-LedgerHolds s st a t height k front h e = (
  set_next a (length front) (take_output a (length front) s),
  popped,
  pop_holds s st a front (unspent t height k) h e,
)
  where
    next : next_global_index_for_amount s a ≡ length front + 1
    next = next_lem s st h a ∙ ap length e ∙ length-append front (unspent t height k ∷ [])

    top : lookup (length front) (table s a) ≡ some (unspent t height k)
    top = ground (
      arith,
      h.entries a (length front),
      e,
      get_elem?-push front (unspent t height k) (length front),
    )

    popped :
        pop_amount_output a t k s
        ≡ some (set_next a (length front) (take_output a (length front) s))
    popped = ground (arith, next, top)

pub restored : (a : ℕ) (o : Output) (st : Stacks) → replace_at a (st a) (push_at a o st) ≡ st
restored a o st = fun_ext (λ b. ground arith)

-- After a push, popping the same output succeeds and leaves tables that hold the stacks of before.
-- The stack holds fewer than 2^32 - 1 outputs.
pub pop_amount_output-push_amount_output :
    (s : Ledger) (st : Stacks) (a t height k : ℕ)
    → LedgerHolds s st
    → length (st a) + 1 < 2 ^ 32
    → (s' : Ledger) × (index : ℕ) × (push_amount_output a t height k s ≡ some (s', index))
      × (s'' : Ledger) × (pop_amount_output a t k s' ≡ some s'')
      × LedgerHolds s'' st
pop_amount_output-push_amount_output s st a t height k h room =
    let (s', index, holds, images) = push_amount_output-LedgerHolds s st a t height k h room in
    let (s'', popped, back) =
      pop_amount_output-LedgerHolds s' (push_at a (unspent t height k) st) a t height k (st a) holds
        (ground arith) in
    (s', length (st a), index, s'', popped, rw (sym (restored a (unspent t height k) st)) back)
