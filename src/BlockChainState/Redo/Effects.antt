-- ===== src/BlockChainState/Redo/Effects.antt =====
-- `redo_block` of Core/BlockChainState.cpp on a delta: what the delta shows afterwards are the
-- effects of the block, in their order.
use cryo_nero.Prelude.{
  ℕ, ◌+◌, ◌≤◌, ◌≡◌, sym, ap, ◌∙◌, arith, Bool, false, some, List, [], ◌∷◌, if◌then◌else◌, length,
  get_or, length-append, map,
}
use mathlib.Core.Path.{subst}
use cryo_nero.CryptoNote.{
  TransactionInput, coinbase, key_input, TransactionOutput, Transaction, Block,
}
use cryo_nero.Currency.{Currency}
use cryo_nero.BlockChainState.Interface.{StateView}
use cryo_nero.BlockChainState.Effects.{
  AbstractState, Effect, spend, push, input_effects, output_effects, effects, all_effects,
  block_effects, happen_all, AllLegal,
}
use cryo_nero.BlockChainState.Delta
use cryo_nero.BlockChainState.Delta.{
  DeltaState, new_delta, new_outputs, delta_view, delta_interface,
}
use cryo_nero.BlockChainState.Delta.Refinement.{grown, to_output}
use cryo_nero.BlockChainState.Delta.Apply.{DeltaIsValid}
use cryo_nero.BlockChainState.Delta.Valid.{new_delta-DeltaIsValid}
use cryo_nero.BlockChainState.Delta.Marks.{
  shown, InRange, InRange-le, InRange-append, length-mark_all,
}
use cryo_nero.BlockChainState.Delta.Shown.{apply-shown, stored-eq}
use cryo_nero.BlockChainState.Redo.{
  RingCrypto, done, or_violated, check_input, spend_single, redo_inputs, redo_outputs,
  redo_transaction, redo_transactions, redo_block_delta,
}
use cryo_nero.BlockChainState.Redo.DoubleSpend.{>>=-eq-done, or_violated-eq-done}
use cryo_nero.BlockChainState.Redo.Valid.{
  redo_inputs-Kept, redo_outputs-Kept, redo_transaction-Kept,
}
use cryo_nero.BlockChainState.Redo.Follows.{
  done-injective, Follows, marked, AllLegal-append, Follows-refl, Follows-trans, legal_after,
  push-Follows, spend-Follows, new-shown,
}

-- A transaction's own delta is applied to that of the block.
apply-Follows :
    (d d2 d3 : DeltaState) (time : ℕ) (view : StateView) (es : List Effect) (x : AbstractState)
    → Follows (new_delta d.block_height time view) d2 es (shown d x)
    → DeltaIsValid d2
    → InRange d.spent_outputs (grown d x.stacks)
    → Delta.apply delta_interface d2 d ≡ some d3
    → d3.block_height ≡ d.block_height
    → Follows d d3 es x
apply-Follows d d2 d3 time view es x f v r e level =
    let (state, spent) = apply-shown d2 d d3 x v f.height r e in
    record {
      state =
          state
          ∙ f.state
          ∙ ap (happen_all d.block_height es) (new-shown d.block_height time view (shown d x));
      marks =
          subst (λ (l : List (ℕ × ℕ)). InRange l (grown d3 x.stacks)) (sym spent)
            (InRange-append d.spent_outputs d2.spent_outputs (grown d3 x.stacks)
              (InRange-le d.spent_outputs (grown d x.stacks) (grown d3 x.stacks)
                (λ b. omega (arith, same_length state b, longer b)) r)
              (InRange-le d2.spent_outputs (grown d2 (shown d x).stacks) (grown d3 x.stacks)
                (λ b. omega (arith, same_length state b)) f.marks));
      height = level;
    }
  where
    same_length :
        shown d3 x ≡ shown d2 (shown d x)
        → (b : ℕ) → length (grown d3 x.stacks b) ≡ length (grown d2 (shown d x).stacks b)
    same_length state b =
        sym (length-mark_all d3.spent_outputs (grown d3 x.stacks) b)
        ∙ ap (λ (y : AbstractState). length (y.stacks b)) state
        ∙ length-mark_all d2.spent_outputs (grown d2 (shown d x).stacks) b

    longer : (b : ℕ) → length (grown d x.stacks b) ≤ length (grown d2 (shown d x).stacks b)
    longer b = omega (
      arith,
      length-mark_all d.spent_outputs (grown d x.stacks) b,
      length-append ((shown d x).stacks b) (map (to_output d2.block_height) (new_outputs d2 b)),
    )

module _ (crypto : RingCrypto) (currency : Currency) where
  redo_inputs-Follows :
      (check_sigs : Bool) (tx : Transaction) (i : ℕ) (inputs : List TransactionInput)
      (d : DeltaState) (c : ℕ) (d' : DeltaState) (c' : ℕ) (x : AbstractState)
      → redo_inputs crypto currency check_sigs tx i inputs d c ≡ done (d', c')
      → AllLegal d.block_height (input_effects inputs) (shown d x)
      → InRange d.spent_outputs (grown d x.stacks)
      → Follows d d' (input_effects inputs) x
  unfolding redo_inputs marked
  redo_inputs-Follows check_sigs tx i [] d c d' c' x e legal r =
      subst (λ (y : DeltaState). Follows d y [] x)
        (ap (λ (q : DeltaState × ℕ). q.0) (done-injective e)) (Follows-refl d x r)
  redo_inputs-Follows check_sigs tx i (coinbase height ∷ inputs) d c d' c' x e legal r =
      redo_inputs-Follows check_sigs tx (i + 1) inputs d c d' c' x e legal r
  redo_inputs-Follows check_sigs tx i (key_input amount indexes image ∷ inputs) d c d' c' x e
        (now, later) r =
      let (c1, checked, e1) =
        >>=-eq-done
          (if check_sigs
            then check_input crypto currency (delta_view d) d.block_height d.unlock_timestamp amount
                indexes image (get_or tx.signatures i []) (crypto.prefix_hash tx) c
            else done c)
          _ e in
      let (d1, stored, e2) =
        >>=-eq-done
          (or_violated (
            Delta.store_keyimage image d.block_height
              (spend_single crypto currency amount indexes d)))
          _ e1 in
      let first =
        spend-Follows amount image indexes d d1 x
          (stored-eq image d.block_height (spend_single crypto currency amount indexes d) d1
            (or_violated-eq-done _ stored))
          now r in
      let more =
        redo_inputs-Follows check_sigs tx (i + 1) inputs d1 c1 d' c' x e2
          (legal_after d d1 (spend amount indexes image ∷ []) (input_effects inputs) x first later)
          first.marks in
      Follows-trans d d1 d' (spend amount indexes image ∷ []) (input_effects inputs) x first more

  redo_outputs-Follows :
      (t : ℕ) (outputs : List TransactionOutput) (d : DeltaState) (x : AbstractState)
      → InRange d.spent_outputs (grown d x.stacks)
      → Follows d (redo_outputs crypto currency t outputs d).0 (output_effects t outputs) x
  unfolding redo_outputs
  redo_outputs-Follows t [] d x r = Follows-refl d x r
  redo_outputs-Follows t (output ∷ outputs) d x r =
      let d1 = (Delta.push_amount_output output.amount t 0 output.key d).0 in
      let first = push-Follows output.amount t output.key d x r in
      Follows-trans d d1 (redo_outputs crypto currency t outputs d1).0
        (push output.amount t output.key ∷ []) (output_effects t outputs) x first
        (redo_outputs-Follows t outputs d1 x first.marks)

  redo_transaction-Follows :
      (tx : Transaction) (d : DeltaState) (check_sigs : Bool) (d' : DeltaState) (indices : List ℕ)
      (c : ℕ) (x : AbstractState)
      → redo_transaction crypto currency tx d check_sigs ≡ done (d', indices, c)
      → DeltaIsValid d
      → AllLegal d.block_height (effects tx) (shown d x)
      → InRange d.spent_outputs (grown d x.stacks)
      → Follows d d' (effects tx) x
  unfolding redo_transaction
  redo_transaction-Follows tx d check_sigs d' indices c x e v legal r =
      let own = new_delta d.block_height d.unlock_timestamp (delta_view d) in
      let y = shown d x in
      let ((d1, c1), e1, e2) =
        >>=-eq-done (redo_inputs crypto currency check_sigs tx 0 tx.inputs own 0) _ e in
      let d2 = (redo_outputs crypto currency tx.unlock_time tx.outputs d1).0 in
      let (d3, applied, e3) = >>=-eq-done (or_violated (Delta.apply delta_interface d2 d)) _ e2 in
      let (v1, h1) =
        redo_inputs-Kept crypto currency check_sigs tx 0 tx.inputs own 0 d1 c1 e1
          (new_delta-DeltaIsValid d.block_height d.unlock_timestamp (delta_view d)) in
      let (v2, h2) = redo_outputs-Kept crypto currency tx.unlock_time tx.outputs d1 v1 in
      let (legal_in, legal_out) =
        AllLegal-append d.block_height (input_effects tx.inputs)
          (output_effects tx.unlock_time tx.outputs) y legal in
      let at_start =
        subst (AllLegal d.block_height (input_effects tx.inputs))
          (sym (new-shown d.block_height d.unlock_timestamp (delta_view d) y)) legal_in in
      let f1 = redo_inputs-Follows check_sigs tx 0 tx.inputs own 0 d1 c1 y e1 at_start tt in
      let f2 = redo_outputs-Follows tx.unlock_time tx.outputs d1 y f1.marks in
      let f =
        Follows-trans own d1 d2 (input_effects tx.inputs) (output_effects tx.unlock_time tx.outputs)
          y f1 f2 in
      let last : d3 ≡ d' = ap (λ (q : DeltaState × List ℕ × ℕ). q.0) (done-injective e3) in
      let (v3, h3) = redo_transaction-Kept crypto currency tx d check_sigs d' indices c e v in
      apply-Follows d d2 d' d.unlock_timestamp (delta_view d) (effects tx) x f v2 r
        (or_violated-eq-done _ applied ∙ ap some last) h3

  redo_transactions-Follows :
      (txs : List Transaction) (d d' : DeltaState) (indices : List (List ℕ)) (x : AbstractState)
      → redo_transactions crypto currency txs d ≡ done (d', indices)
      → DeltaIsValid d
      → AllLegal d.block_height (all_effects txs) (shown d x)
      → InRange d.spent_outputs (grown d x.stacks)
      → Follows d d' (all_effects txs) x
  unfolding redo_transactions
  redo_transactions-Follows [] d d' indices x e v legal r =
      subst (λ (y : DeltaState). Follows d y [] x)
        (ap (λ (q : DeltaState × List (List ℕ)). q.0) (done-injective e)) (Follows-refl d x r)
  redo_transactions-Follows (tx ∷ txs) d d' indices x e v legal r =
      let ((d1, i1, c1), e1, e2) = >>=-eq-done (redo_transaction crypto currency tx d false) _ e in
      let ((d2, i2), e3, e4) = >>=-eq-done (redo_transactions crypto currency txs d1) _ e2 in
      let last : d2 ≡ d' = ap (λ (q : DeltaState × List (List ℕ)). q.0) (done-injective e4) in
      let (now, later) =
        AllLegal-append d.block_height (effects tx) (all_effects txs) (shown d x) legal in
      let f = redo_transaction-Follows tx d false d1 i1 c1 x e1 v now r in
      let (v1, h1) = redo_transaction-Kept crypto currency tx d false d1 i1 c1 e1 v in
      let g =
        redo_transactions-Follows txs d1 d2 i2 x e3 v1
          (legal_after d d1 (effects tx) (all_effects txs) x f later) f.marks in
      Follows-trans d d1 d' (effects tx) (all_effects txs) x f
        (subst (λ (y : DeltaState). Follows d1 y (all_effects txs) x) last g)

-- A block that is redone on a new delta makes it show the effects of the block.
pub redo_block_delta-shown :
    (crypto : RingCrypto) (currency : Currency) (block : Block) (height time : ℕ) (view : StateView)
    (d : DeltaState) (indices : List (List ℕ)) (x : AbstractState)
    → redo_block_delta crypto currency block (new_delta height time view) ≡ done (d, indices)
    → AllLegal height (block_effects block) x
    → shown d x ≡ happen_all height (block_effects block) x
unfolding redo_block_delta
redo_block_delta-shown crypto currency block height time view d indices x e legal =
    let start = new-shown height time view x in
    let f =
      redo_transactions-Follows crypto currency (block.base_transaction ∷ block.transactions)
        (new_delta height time view) d indices x e (new_delta-DeltaIsValid height time view)
        (subst (AllLegal height (block_effects block)) (sym start) legal) tt in
    f.state ∙ ap (happen_all height (block_effects block)) start
