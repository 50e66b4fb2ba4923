-- ===== src/BlockChainState/Chain/Undone.antt =====
-- `undo_block` after `redo_block` of Core/BlockChainState.cpp, on the chain.
use cryo_nero.Prelude.{
  ℕ, ◌+◌, ◌^◌, ◌≡◌, ap, ◌∙◌, arith, none, some, List, ◌==◌, ==_iff, ==_iff, Bool-cases, inl, inr,
  not, Option-cases, sym, if◌then◌else◌, ◌%◌,
}
use mathlib.Core.Path.{subst}
use cryo_nero.Prelude.Maps.{Map, lookup, insert, erase, lookup-insert, lookup-erase}
use cryo_nero.BlockChainState.Undo.{undo_block}
use cryo_nero.BlockChainState.Errors.{input_invalid_signatures}
use cryo_nero.BlockChainState.RingChecker.{RingSignatureArg, signatures_valid}
use cryo_nero.BlockChainState.Redo.{
  Redo, refused, ◌>>=◌, or_violated, RingCrypto, done, redo_block_delta,
}
use cryo_nero.BlockChainState.Redo.DoubleSpend.{>>=-eq-done, or_violated-eq-done}
use cryo_nero.BlockChainState.Chain.{
  ChainState, is_in_sw_checkpoint_zone, checked_args, put_indices, redo_block,
}
use cryo_nero.BlockChainState.Undo.Order.{undo_block-Holds}
use cryo_nero.CryptoNote.{Block}
use cryo_nero.Currency.{Currency}
use cryo_nero.BlockChainState.Ledger.{Ledger, ledger_view, ledger_interface}
use cryo_nero.BlockChainState.Delta
use cryo_nero.BlockChainState.Delta.{DeltaState, new_delta, new_outputs}
use cryo_nero.BlockChainState.Effects.{AbstractState, block_effects, happen_all, AllLegal, Holds}
use cryo_nero.BlockChainState.Chain.Applied.{applied_block}

done-injective : {A : Type 0} {a b : A} → ◌≡◌ {A = Redo A} (done a) (done b) → a ≡ b
done-injective e = cc

lookup-erase-insert :
    {V : Type 0} (k b : ℕ) (v : V) (m : Map V)
    → lookup k m ≡ none
    → lookup b (erase k (insert k v m)) ≡ lookup b m
lookup-erase-insert k b v m fresh = elim (Bool-cases (k == b)) [
  | inl g ↦
      let same : lookup b m ≡ none =
        subst (λ (c : ℕ). lookup c m ≡ none) ((==_iff k b).0 g) fresh in
      lookup-erase k b (insert k v m) ∙ ground (arith, g, same)
  | inr g ↦ lookup-erase k b (insert k v m) ∙ ground (arith, g, lookup-insert k b v m)
]

some-injective : {A : Type 0} {a b : A} → some a ≡ some b → a ≡ b
some-injective e = cc

module _ (crypto : RingCrypto) (currency : Currency) (checkpoint_heights : List ℕ) where
  put_indices-eq-done :
      (bhash : ℕ) (indices : List (List ℕ)) (ledger : Ledger) (s s' : ChainState)
      → put_indices crypto currency checkpoint_heights bhash indices ledger s ≡ done s'
      → (lookup bhash s.block_indices ≡ none)
        × (record { ledger = ledger; block_indices = insert bhash indices s.block_indices } ≡ s')
  put_indices-eq-done bhash indices ledger s s' e =
      elim (Option-cases (lookup bhash s.block_indices)) [
        | inl n ↦ (n, done-injective (ground (arith, e, n)))
        | inr (old, n) ↦ absurd (ground (arith, e, n))
      ]

  -- What a block that is redone leaves: the new tables, and the indices that were not there.
  redo_block-eq-done :
      (bhash : ℕ) (block : Block) (height timestamp : ℕ) (s s' : ChainState)
      → redo_block crypto currency checkpoint_heights bhash block height timestamp s ≡ done s'
      → (d : DeltaState) × (indices : List (List ℕ)) × (redo_block_delta crypto currency block
            (new_delta height timestamp (ledger_view s.ledger))
          ≡ done (d, indices))
        × (Delta.apply ledger_interface d s.ledger ≡ some s'.ledger)
        × (lookup bhash s.block_indices ≡ none)
        × (s'.block_indices ≡ insert bhash indices s.block_indices)
  unfolding redo_block
  redo_block-eq-done bhash block height timestamp s s' e =
      elim (Option-cases
        (is_in_sw_checkpoint_zone crypto currency checkpoint_heights ((height + 1) % 2 ^ 32))) [
          | inl n ↦ absurd (ground (arith, redo_block, e, n))
          | inr (zone, n) ↦
              let own = new_delta height timestamp (ledger_view s.ledger) in
              let (args, e1, e2) =
                >>=-eq-done
                  (checked_args crypto currency checkpoint_heights (not zone) s.ledger block height
                    timestamp)
                  (after own) (rw (redo_block, n) at e) in
              let ((d, indices), e3, e4) =
                >>=-eq-done (redo_block_delta crypto currency block own) _ e2 in
              let (u, e5, e6) =
                >>=-eq-done
                  (if signatures_valid crypto currency args
                    then done tt
                    else refused input_invalid_signatures 0)
                  _ e4 in
              let (ledger, e7, e8) =
                >>=-eq-done (or_violated (Delta.apply ledger_interface d s.ledger)) _ e6 in
              let (fresh, same) = put_indices-eq-done bhash indices ledger s s' e8 in
              (
                d,
                indices,
                e3,
                or_violated-eq-done _ e7 ∙ ap (λ (t : ChainState). some t.ledger) same,
                fresh,
                sym (ap (λ (t : ChainState). t.block_indices) same),
              )
        ]
    where
      after : DeltaState → List RingSignatureArg → Redo ChainState
      after own args = redo_block_delta crypto currency block own >>= λ (delta, indices).
          (if signatures_valid crypto currency args
            then done tt
            else refused input_invalid_signatures 0)
          >>= λ u. or_violated (Delta.apply ledger_interface delta s.ledger) >>= λ ledger.
              put_indices crypto currency checkpoint_heights bhash indices ledger s

-- A block that `redo_block` accepts and whose effects are legal on the abstract state that the
-- tables hold: its effects on that state hold afterwards, one after the other. `undo_block` on the
-- result succeeds, the tables then hold the state from before, and each block has its indices from
-- before. Legal: no key image is spent already, a ring of one member is of an unspent output, and no
-- stack gets more than 2^32 - 1 outputs.
pub undo_block-redo_block :
    (crypto : RingCrypto) (currency : Currency) (checkpoint_heights : List ℕ) (bhash : ℕ)
    (block : Block) (height timestamp : ℕ) (s s' : ChainState) (x : AbstractState)
    → redo_block crypto currency checkpoint_heights bhash block height timestamp s ≡ done s'
    → Holds s.ledger x
    → AllLegal height (block_effects block) x
    → Holds s'.ledger (happen_all height (block_effects block) x)
      × (s'' : ChainState) × (undo_block bhash block s' ≡ some s'')
      × Holds s''.ledger x
      × ((b : ℕ) → lookup b s''.block_indices ≡ lookup b s.block_indices)
undo_block-redo_block crypto currency heights bhash block height timestamp s s' x e h legal =
    let (d, indices, redone, run, fresh, put) =
      redo_block-eq-done crypto currency heights bhash block height timestamp s s' e in
    let (ledger, run', holds) =
      applied_block crypto currency block height timestamp (ledger_view s.ledger) d indices s.ledger
        x redone legal h in
    let holds' : Holds s'.ledger (happen_all height (block_effects block) x) =
      subst (λ (l : Ledger). Holds l (happen_all height (block_effects block) x))
        (some-injective (sym run' ∙ run)) holds in
    let there : lookup bhash s'.block_indices ≡ some indices =
      ground (arith, put, lookup-insert bhash bhash indices s.block_indices) in
    let (back, undone, held) =
      undo_block-Holds bhash height block s' x indices legal holds' there in
    (
      holds',
      record { ledger = back; block_indices = erase bhash s'.block_indices },
      undone,
      held,
      λ b.
          ap (λ (m : Map (List (List ℕ))). lookup b (erase bhash m)) put
          ∙ lookup-erase-insert bhash b indices s.block_indices fresh,
    )
