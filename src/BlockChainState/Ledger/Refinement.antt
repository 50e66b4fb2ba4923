-- ===== src/BlockChainState/Ledger/Refinement.antt =====
-- The tables of Core/BlockChainState.cpp implement the stacks of outputs.
use cryo_nero.Prelude.{
  ℕ, ◌+◌, ◌%◌, ◌^◌, ◌<◌, ◌≡◌, refl, sym, ◌∙◌, arith, Bool, true, false, none, some, ◌==◌,
  if◌then◌else◌, length, get_elem?, Option-cases, inl, inr,
}
use cryo_nero.Prelude.Maps.{lookup, insert, lookup-insert}
use cryo_nero.BlockChainState.Interface.{Output}
use cryo_nero.BlockChainState.Ledger.{
  Ledger, table, next_global_index_for_amount, read_amount_output, push_amount_output, mark_output,
  spend_output, put_output, set_next, with_cache, read_keyimage, store_keyimage, ledger_view,
}
use cryo_nero.BlockChainState.Stacks.{Stacks, push_at, mark_at, Shows, get_elem?-beyond}
use cryo_nero.BlockChainState.Ledger.Reads.{
  lookup-put_output, get_elem?-push_at, length-push_at, get_elem?-mark_at, length-mark_at,
}
use cryo_nero.BlockChainState.Ledger.Top.{behind_last-length}

-- The entries are those of the stacks, and the cache does not lie.
pub record LedgerHolds (s : Ledger) (st : Stacks) : Type 0 where
  pub entries : (a i : ℕ) → lookup i (table s a) ≡ get_elem? (st a) i
  pub cached : (a n : ℕ) → lookup a s.next_gi ≡ some n → n ≡ length (st a)
  pub fits : (a : ℕ) → length (st a) < 2 ^ 32

module _ (s : Ledger) (st : Stacks) (h : LedgerHolds s st) where
  pub next_lem : (a : ℕ) → next_global_index_for_amount s a ≡ length (st a)
  unfolding next_global_index_for_amount
  next_lem a = elim (Option-cases (lookup a s.next_gi)) [
    | inl e ↦ ground (arith, e, behind_last-length (table s a) (st a) (h.entries a), h.fits a)
    | inr (n, e) ↦ ground (arith, e, h.cached a n e)
  ]

  pub shows_lem : Shows (ledger_view s) st (read_keyimage s)
  unfolding read_amount_output
  shows_lem = record { next = next_lem; outputs = h.entries; keyimages = λ k. refl }

abbrev pub unspent : ℕ → ℕ → ℕ → Output
unspent unlock_time height key = record {
  unlock_time = unlock_time;
  public_key = key;
  height = height;
  spent = false;
}

-- What a push leaves.
abbrev pushed : ℕ → ℕ → ℕ → ℕ → Ledger → Ledger
pushed a t height k s =
    let my_gi = next_global_index_for_amount s a in
    set_next a ((my_gi + 1) % 2 ^ 32) (put_output a my_gi (unspent t height k) (with_cache a s))

pushed_holds :
    (s : Ledger) (st : Stacks) (a t height k : ℕ)
    → LedgerHolds s st
    → length (st a) + 1 < 2 ^ 32
    → LedgerHolds (pushed a t height k s) (push_at a (unspent t height k) st)
pushed_holds s st a t height k h room = record {
  entries = λ b i. entry b i;
  cached = λ b n e. cache b n e;
  fits = λ b. ground (arith, length-push_at a (unspent t height k) st b, h.fits b);
}
  where
    next : next_global_index_for_amount s a ≡ length (st a)
    next = next_lem s st h a

    entry :
        (b i : ℕ)
        → lookup i (table (pushed a t height k s) b)
          ≡ get_elem? (push_at a (unspent t height k) st b) i
    entry b i =
        lookup-put_output a (next_global_index_for_amount s a) (unspent t height k) s b i
        ∙ ground (arith, next, h.entries a i, h.entries b i)
        ∙ sym (get_elem?-push_at a (unspent t height k) st b i)

    cache :
        (b n : ℕ)
        → lookup b (pushed a t height k s).next_gi ≡ some n
        → n ≡ length (push_at a (unspent t height k) st b)
    cache b n e = ground (
      arith,
      next,
      length-push_at a (unspent t height k) st b,
      h.cached b n,
      lookup-insert a b ((next_global_index_for_amount s a + 1) % 2 ^ 32) (with_cache a s).next_gi,
      lookup-insert a b (next_global_index_for_amount s a) s.next_gi,
    )

-- `push_amount_output` does not throw. It puts the output on the stack of its amount and answers
-- the index that it has there; the tables go on to hold the stacks, with the same images. The stack
-- holds fewer than 2^32 - 1 outputs.
pub push_amount_output-LedgerHolds :
    (s : Ledger) (st : Stacks) (a t height k : ℕ)
    → LedgerHolds s st
    → length (st a) + 1 < 2 ^ 32
    → (s' : Ledger) × (push_amount_output a t height k s ≡ some (s', length (st a)))
      × LedgerHolds s' (push_at a (unspent t height k) st)
      × (s'.keyimages ≡ s.keyimages)
unfolding push_amount_output read_amount_output
push_amount_output-LedgerHolds s st a t height k h room = (
  pushed a t height k s,
  ground (arith, free, next_lem s st h a),
  pushed_holds s st a t height k h room,
  refl,
)
  where
    free : lookup (next_global_index_for_amount s a) (table s a) ≡ none
    free =
        h.entries a (next_global_index_for_amount s a)
        ∙ get_elem?-beyond (st a) (next_global_index_for_amount s a)
            (omega (arith, next_lem s st h a))

marked_entry :
    (s : Ledger) (st : Stacks) (a i : ℕ) (m : Bool)
    → LedgerHolds s st
    → (b j : ℕ) → lookup j (table (mark_output a i m s) b) ≡ get_elem? (mark_at a i m st b) j
unfolding mark_output read_amount_output
marked_entry s st a i m h b j = elim (Option-cases (lookup i (table s a))) [
  | inl e ↦ ground (arith, e, h.entries a i, h.entries b j, get_elem?-mark_at a i m st b j)
  | inr (was, e) ↦ ground (
    arith,
    e,
    h.entries a i,
    h.entries b j,
    h.entries a j,
    get_elem?-mark_at a i m st b j,
    lookup-put_output a i (record was { spent = m }) s b j,
  )
]

marked_cache :
    (s : Ledger) (st : Stacks) (a i : ℕ) (m : Bool)
    → (b : ℕ) → lookup b (mark_output a i m s).next_gi ≡ lookup b s.next_gi
unfolding mark_output read_amount_output
marked_cache s st a i m b = elim (Option-cases (lookup i (table s a))) [
  | inl e ↦ ground (arith, e)
  | inr (was, e) ↦ ground (arith, e)
]

pub mark_output-LedgerHolds :
    (s : Ledger) (st : Stacks) (a i : ℕ) (m : Bool)
    → LedgerHolds s st
    → LedgerHolds (mark_output a i m s) (mark_at a i m st)
mark_output-LedgerHolds s st a i m h = record {
  entries = marked_entry s st a i m h;
  cached =
      λ b n e. h.cached b n (sym (marked_cache s st a i m b) ∙ e) ∙ sym (length-mark_at a i m st b);
  fits = λ b. ground (arith, length-mark_at a i m st b, h.fits b);
}

-- `spend_output` sets the mark.
pub spend_output-LedgerHolds :
    (s : Ledger) (st : Stacks) (a i : ℕ)
    → LedgerHolds s st
    → LedgerHolds (spend_output a i s) (mark_at a i true st)
unfolding spend_output
spend_output-LedgerHolds s st a i h = mark_output-LedgerHolds s st a i true h

-- An image that is not there is stored and read back with its height, and the outputs stay.
pub store_keyimage-LedgerHolds :
    (s : Ledger) (st : Stacks) (image height : ℕ)
    → LedgerHolds s st
    → read_keyimage s image ≡ none
    → (s' : Ledger) × (store_keyimage image height s ≡ some s')
      × LedgerHolds s' st
      × ((k : ℕ) → read_keyimage s' k ≡ (if image == k then some height else read_keyimage s k))
unfolding store_keyimage read_keyimage
store_keyimage-LedgerHolds s st image height h new = (
  record s { keyimages = insert image height s.keyimages },
  ground (arith, new),
  record { entries = h.entries; cached = h.cached; fits = h.fits },
  λ k. lookup-insert image k height s.keyimages,
)

pub spend_output-keyimages : (s : Ledger) (a i : ℕ) → (spend_output a i s).keyimages ≡ s.keyimages
unfolding spend_output mark_output read_amount_output
spend_output-keyimages s a i = elim (Option-cases (lookup i (table s a))) [
  | inl e ↦ ground (arith, e)
  | inr (was, e) ↦ ground (arith, e)
]

pub read_keyimage-eq :
    (s s' : Ledger) → s'.keyimages ≡ s.keyimages → (k : ℕ) → read_keyimage s' k ≡ read_keyimage s k
unfolding read_keyimage
read_keyimage-eq s s' e k = ground (arith, e)
