-- ===== src/BlockChainState/Ledger/Reads.antt =====
-- What is read from the tables of Core/BlockChainState.cpp, and from the stacks, after a change.
use cryo_nero.Prelude.{
  ℕ, ◌+◌, ◌≡◌, arith, Bool, none, some, List, [], ◌∷◌, ◌++◌, ◌==◌, if◌then◌else◌, length, get_elem?,
  length-append,
}
use cryo_nero.Prelude.Maps.{lookup, insert, erase, lookup-insert, lookup-erase}
use cryo_nero.BlockChainState.Interface.{Output}
use cryo_nero.BlockChainState.Ledger.{Ledger, table, put_output, take_output}
use cryo_nero.BlockChainState.Stacks.{
  Stacks, push_at, mark_at, get_elem?-beyond, get_elem?-push, get_elem?-mark, length-mark,
}

pub lookup-put_output :
    (a i : ℕ) (o : Output) (s : Ledger) (b j : ℕ)
    → lookup j (table (put_output a i o s) b)
      ≡ (if a == b then (if i == j then some o else lookup j (table s a)) else lookup j (table s b))
lookup-put_output a i o s b j =
    ground
      (arith, lookup-insert a b (insert i o (table s a)) s.outputs, lookup-insert i j o (table s a))

-- The same reads of the stacks.
pub get_elem?-push_at :
    (a : ℕ) (o : Output) (st : Stacks) (b j : ℕ)
    → get_elem? (push_at a o st b) j ≡ (
        if a == b
        then (if length (st a) == j then some o else get_elem? (st a) j)
        else get_elem? (st b) j)
get_elem?-push_at a o st b j = ground (arith, get_elem?-push (st b) o j)

pub length-push_at :
    (a : ℕ) (o : Output) (st : Stacks) (b : ℕ)
    → length (push_at a o st b) ≡ (if a == b then length (st a) + 1 else length (st b))
length-push_at a o st b = ground (arith, length-append (st b) (o ∷ []))

pub get_elem?-mark_at :
    (a i : ℕ) (m : Bool) (st : Stacks) (b j : ℕ)
    → get_elem? (mark_at a i m st b) j ≡ (
        if a == b
        then (if i == j
            then (elim (get_elem? (st a) j) [
              | none ↦ none
              | some o ↦ some (record o { spent = m })
            ])
            else get_elem? (st a) j)
        else get_elem? (st b) j)
get_elem?-mark_at a i m st b j = ground (arith, get_elem?-mark (st b) i j m)

pub length-mark_at :
    (a i : ℕ) (m : Bool) (st : Stacks) (b : ℕ) → length (mark_at a i m st b) ≡ length (st b)
length-mark_at a i m st b = ground (arith, length-mark (st b) i m)

-- The stack with and without its top.
pub get_elem?-front :
    (front : List Output) (o : Output) (j : ℕ)
    → get_elem? front j ≡ (if length front == j then none else get_elem? (front ++ o ∷ []) j)
get_elem?-front front o j =
    ground (arith, get_elem?-push front o j, get_elem?-beyond front (length front))

pub lookup-take_output :
    (a i : ℕ) (s : Ledger) (b j : ℕ)
    → lookup j (table (take_output a i s) b)
      ≡ (if a == b then (if i == j then none else lookup j (table s a)) else lookup j (table s b))
lookup-take_output a i s b j =
    ground (arith, lookup-insert a b (erase i (table s a)) s.outputs, lookup-erase i j (table s a))
