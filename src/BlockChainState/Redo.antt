-- ===== src/BlockChainState/Redo.antt =====
-- `redo_transaction_get_error` and `redo_block` of Core/BlockChainState.cpp, on a delta.
pub mod DoubleSpend
pub mod Unspent
pub mod Valid
pub mod Follows
pub mod Effects
mod Runs
use cryo_nero.Prelude.{
  ℕ, zero, suc, ◌+◌, ◌%◌, ◌^◌, max, Bool, true, false, not, ◌&&◌, Option, none, some, List, [], ◌∷◌,
  ◌++◌, ◌==◌, if◌then◌else◌, length, get_or, reverse,
}
use cryo_nero.CryptoNote.{
  TransactionInput, coinbase, key_input, TransactionOutput, Transaction, Block,
}
use cryo_nero.Currency.{Currency, is_transaction_spend_time_unlocked}
use cryo_nero.BlockChainState.Errors.{
  TxError, input_unknown_type, input_keyimage_already_spent, input_invalid_global_index,
  input_spend_locked_out, input_corrupted_signatures, input_invalid_signatures,
}
use cryo_nero.BlockChainState.Validation.{is_empty}
use cryo_nero.BlockChainState.Interface.{Output, StateView, IBlockChainState}
use cryo_nero.BlockChainState.Delta
use cryo_nero.BlockChainState.Delta.{DeltaState, new_delta, delta_view, delta_interface}
use cryo_nero.BlockChainState.Ledger
use cryo_nero.BlockChainState.Ledger.{Ledger, ledger_view, ledger_interface}

-- What `check_ring_signature` of crypto/crypto.cpp finds.
pub data Verdict : Type 0 where
  valid invalid corrupted : Verdict

-- The cryptography is a parameter: prefix hash, key image, ring of keys, signatures.
pub record RingCrypto : Type 0 where
  pub prefix_hash : Transaction → ℕ
  pub check_ring_signature : ℕ → ℕ → List ℕ → List ℕ → Verdict

-- A result, an error text with the conflict height, or the exception of an `invariant`.
pub data Redo (A : Type 0) : Type 0 where
  done : A → Redo A
  refused : TxError → ℕ → Redo A
  violated : Redo A

infixl 5 ◌>>=◌
abbrev pub ◌>>=◌ : {A B : Type 0} → Redo A → (A → Redo B) → Redo B
done a >>= f = f a
refused e height >>= f = refused e height
violated >>= f = violated

abbrev pub or_violated : {A : Type 0} → Option A → Redo A
or_violated none = violated
or_violated (some a) = done a

-- `global_indexes[i] = global_indexes[i - 1] + output_indexes[i]`
abbrev sums_from : ℕ → List ℕ → List ℕ
sums_from sum [] = []
sums_from sum (step ∷ steps) = ((sum + step) % 2 ^ 32) ∷ sums_from ((sum + step) % 2 ^ 32) steps

abbrev pub absolute_indexes : List ℕ → List ℕ
absolute_indexes [] = []
absolute_indexes (first ∷ steps) = first ∷ sums_from first steps

module _ (crypto : RingCrypto) (currency : Currency) where
  -- The keys of the ring, and the largest height so far.
  unfoldable pub read_ring : StateView → ℕ → ℕ → ℕ → List ℕ → ℕ → Redo (List ℕ × ℕ)
  read_ring view height time amount [] conflict = done ([], conflict)
  read_ring view height time amount (index ∷ indexes) conflict =
      elim (view.read_amount_output amount index) [
        | none ↦ refused input_invalid_global_index currency.max_block_height
        | some unp ↦
            let conflict' = max conflict unp.height in
            let others = read_ring view height time amount indexes conflict' in
            if is_transaction_spend_time_unlocked currency unp.unlock_time height time
            then (others >>= λ (keys, last). done (unp.public_key ∷ keys, last))
            else refused input_spend_locked_out conflict'
      ]

  abbrev by_verdict : Verdict → ℕ → Redo ℕ
  by_verdict valid conflict = done conflict
  by_verdict corrupted conflict = refused input_corrupted_signatures conflict
  by_verdict invalid conflict = refused input_invalid_signatures conflict

  -- The checks of one input, made if `check_sigs`.
  unfoldable pub check_input : StateView → ℕ → ℕ → ℕ → List ℕ → ℕ → List ℕ → ℕ → ℕ → Redo ℕ
  unfolding read_ring
  check_input view height time amount indexes image signatures hash conflict =
      elim (view.read_keyimage image) [
        | some spent_at ↦ refused input_keyimage_already_spent spent_at
        | none ↦
            if is_empty indexes
            then refused input_unknown_type conflict
            else (read_ring view height time amount (absolute_indexes indexes) conflict
                >>= λ (keys, conflict').
                    by_verdict (crypto.check_ring_signature hash image keys signatures) conflict')
      ]

  -- `if (in.output_indexes.size() == 1) tx_delta.spend_output(in.amount, in.output_indexes[0]);`
  abbrev pub spend_single : ℕ → List ℕ → DeltaState → DeltaState
  spend_single amount indexes d =
      if length indexes == 1 then Delta.spend_output amount (get_or indexes 0 0) d else d

  -- The loop over the inputs, with `input_index`.
  unfoldable pub redo_inputs :
      Bool → Transaction → ℕ → List TransactionInput → DeltaState → ℕ → Redo (DeltaState × ℕ)
  unfolding check_input
  redo_inputs check_sigs tx input_index [] d conflict = done (d, conflict)
  redo_inputs check_sigs tx input_index (coinbase height ∷ inputs) d conflict =
      redo_inputs check_sigs tx (input_index + 1) inputs d conflict
  redo_inputs check_sigs tx input_index (key_input amount indexes image ∷ inputs) d conflict =
      (if check_sigs
        then check_input (delta_view d) d.block_height d.unlock_timestamp amount indexes image
            (get_or tx.signatures input_index []) (crypto.prefix_hash tx) conflict
        else done conflict)
      >>= λ conflict'.
          or_violated (Delta.store_keyimage image d.block_height (spend_single amount indexes d))
          >>= λ d'. redo_inputs check_sigs tx (input_index + 1) inputs d' conflict'

  -- The loop over the outputs, with the global indices that they get.
  unfoldable pub redo_outputs : ℕ → List TransactionOutput → DeltaState → DeltaState × List ℕ
  redo_outputs unlock_time [] d = (d, [])
  redo_outputs unlock_time (output ∷ outputs) d =
      let (d', index) = Delta.push_amount_output output.amount unlock_time 0 output.key d in
      let (d'', indices) = redo_outputs unlock_time outputs d' in (d'', index ∷ indices)

  -- Returns the delta with the transaction, its indices and the conflict height. `generating` is
  -- not read. The transaction's own delta is applied to the given one at the end.
  unfoldable pub redo_transaction : Transaction → DeltaState → Bool → Redo (DeltaState × List ℕ × ℕ)
  unfolding redo_inputs redo_outputs
  redo_transaction tx delta_state check_sigs =
      redo_inputs check_sigs tx 0 tx.inputs
        (new_delta delta_state.block_height delta_state.unlock_timestamp (delta_view delta_state)) 0
      >>= λ (d, conflict).
          let (d', indices) = redo_outputs tx.unlock_time tx.outputs d in
          or_violated (Delta.apply delta_interface d' delta_state) >>= λ delta'.
          done (delta', indices, conflict)

  unfoldable pub redo_transactions :
      List Transaction → DeltaState → Redo (DeltaState × List (List ℕ))
  unfolding redo_transaction
  redo_transactions [] delta_state = done (delta_state, [])
  redo_transactions (tx ∷ txs) delta_state =
      redo_transaction tx delta_state false >>= λ (delta', indices, conflict).
      redo_transactions txs delta' >>= λ (delta'', others). done (delta'', indices ∷ others)

  -- The overload on a delta: the coinbase transaction, then the others. An error text is the
  -- result `false`.
  unfoldable pub redo_block_delta : Block → DeltaState → Redo (DeltaState × List (List ℕ))
  unfolding redo_transactions
  redo_block_delta block delta_state =
      redo_transactions (block.base_transaction ∷ block.transactions) delta_state
