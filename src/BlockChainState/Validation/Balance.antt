-- ===== src/BlockChainState/Validation/Balance.antt =====
-- What `validate_semantic` of Core/BlockChainState.cpp accepts.
use cryo_nero.Prelude.{
  ℕ, ◌+◌, ◌%◌, ◌^◌, ◌<◌, ◌≡◌, arith, Bool, true, false, not, List, [], ◌∷◌, length, All, ◌↔◌,
}
use cryo_nero.BlockChainState.Errors.{empty_inputs}
use cryo_nero.Prelude.Results.{>>=-eq-ok, ok, guard}
use cryo_nero.CryptoNote.{
  TransactionInput, coinbase, key_input, TransactionOutput, Transaction, total_input, total_output,
  key_images,
}
use cryo_nero.BlockChainState.Validation.{
  contains, has_zero_step, is_empty, validate_outputs, validate_inputs, validate_semantic,
}

-- No image stands twice, nor in `seen`.
abbrev pub Distinct : List ℕ → List ℕ → Type 0
Distinct seen [] = Unit {0}
Distinct seen (x ∷ xs) = (contains x seen ≡ false) × Distinct (x ∷ seen) xs

-- A ring has a member, and none twice: its relative indexes behind the first are not 0.
abbrev pub IsRing : TransactionInput → Type 0
IsRing (coinbase height) = ⊥
IsRing (key_input amount indexes image) =
    (is_empty indexes ≡ false) × (has_zero_step indexes ≡ false)

abbrev pub IsGood : (ℕ → Bool) → Bool → TransactionOutput → Type 0
IsGood key_isvalid check output =
    (0 < output.amount) × (check ≡ true → key_isvalid output.key ≡ true)

-- The amounts are of the type `uint64_t`.
abbrev pub OutputFits : TransactionOutput → Type 0
OutputFits output = output.amount < 2 ^ 64

abbrev pub InputFits : TransactionInput → Type 0
InputFits (coinbase height) = Unit {0}
InputFits (key_input amount indexes image) = amount < 2 ^ 64

module _ (key_isvalid : ℕ → Bool) (check : Bool) where
  outputs_sound :
      (outputs : List TransactionOutput) (sum r : ℕ)
      → All OutputFits outputs
      → sum < 2 ^ 64
      → validate_outputs key_isvalid check outputs sum ≡ ok r
      → (r ≡ sum + total_output outputs) × (r < 2 ^ 64) × All (IsGood key_isvalid check) outputs
  unfolding validate_outputs
  outputs_sound [] sum r fit h e = ground arith
  outputs_sound (output ∷ outputs) sum r (fit, fits) h e =
      ground (arith, outputs_sound outputs ((sum + output.amount) % 2 ^ 64) r)

  outputs_complete :
      (outputs : List TransactionOutput) (sum : ℕ)
      → All (IsGood key_isvalid check) outputs
      → sum + total_output outputs < 2 ^ 64
      → validate_outputs key_isvalid check outputs sum ≡ ok (sum + total_output outputs)
  unfolding validate_outputs
  outputs_complete [] sum good fits = ground arith
  outputs_complete (output ∷ outputs) sum (good, goods) fits =
      ground (arith, outputs_complete outputs ((sum + output.amount) % 2 ^ 64))

inputs_sound :
    (inputs : List TransactionInput) (seen : List ℕ) (sum r : ℕ)
    → All InputFits inputs
    → sum < 2 ^ 64
    → validate_inputs false inputs seen sum ≡ ok r
    → (r ≡ sum + total_input inputs)
      × (r < 2 ^ 64)
      × Distinct seen (key_images inputs)
      × All IsRing inputs
unfolding validate_inputs
inputs_sound [] seen sum r fit h e = ground arith
inputs_sound (coinbase height ∷ inputs) seen sum r fit h e = cc
inputs_sound (key_input amount indexes image ∷ inputs) seen sum r (fit, fits) h e =
    ground (arith, inputs_sound inputs (image ∷ seen) ((sum + amount) % 2 ^ 64) r)

inputs_complete :
    (inputs : List TransactionInput) (seen : List ℕ) (sum : ℕ)
    → Distinct seen (key_images inputs)
    → All IsRing inputs
    → sum + total_input inputs < 2 ^ 64
    → validate_inputs false inputs seen sum ≡ ok (sum + total_input inputs)
unfolding validate_inputs
inputs_complete [] seen sum d rings fits = ground arith
inputs_complete (coinbase height ∷ inputs) seen sum d (r, rings) fits = absurd r
inputs_complete (key_input amount indexes image ∷ inputs) seen sum (new, d) (r, rings) fits =
    ground (arith, inputs_complete inputs (image ∷ seen) ((sum + amount) % 2 ^ 64))

-- What is checked of a transaction that is not a coinbase transaction.
pub record IsBalanced (key_isvalid : ℕ → Bool) (check : Bool) (tx : Transaction) (fee : ℕ)
    : Type 0 where
  pub has_inputs : is_empty tx.inputs ≡ false
  pub balance : total_output tx.outputs + fee ≡ total_input tx.inputs
  pub no_overflow : total_input tx.inputs < 2 ^ 64
  pub good_outputs : All (IsGood key_isvalid check) tx.outputs
  pub distinct_images : Distinct [] (key_images tx.inputs)
  pub rings : All IsRing tx.inputs
  pub signed : length tx.signatures ≡ length tx.inputs

module _ (key_isvalid : ℕ → Bool) (check : Bool) (tx : Transaction) (fee : ℕ)
    (outputs_fit : All OutputFits tx.outputs) (inputs_fit : All InputFits tx.inputs) where
  sound :
      validate_semantic key_isvalid false tx check ≡ ok fee → IsBalanced key_isvalid check tx fee
  unfolding validate_semantic
  sound e =
      let (_, g, e1) = >>=-eq-ok (guard (not (is_empty tx.inputs)) empty_inputs) _ e in
      let (summary_output, eo, e2) =
        >>=-eq-ok (validate_outputs key_isvalid check tx.outputs 0) _ e1 in
      let (summary_input, ei, e3) = >>=-eq-ok (validate_inputs false tx.inputs [] 0) _ e2 in
      let (so, _, good) =
        outputs_sound key_isvalid check tx.outputs 0 summary_output outputs_fit (omega arith) eo in
      let (si, fit, distinct, rings) =
        inputs_sound tx.inputs [] 0 summary_input inputs_fit (omega arith) ei in
      record {
        has_inputs = ground arith;
        balance = ground arith;
        no_overflow = omega arith;
        good_outputs = good;
        distinct_images = distinct;
        rings = rings;
        signed = ground arith;
      }

  complete :
      IsBalanced key_isvalid check tx fee → validate_semantic key_isvalid false tx check ≡ ok fee
  unfolding validate_semantic
  complete h = ground (
    arith,
    outputs_complete key_isvalid check tx.outputs 0 h.good_outputs,
    inputs_complete tx.inputs [] 0 h.distinct_images h.rings,
  )

-- For amounts below 2^64, a transaction that is no coinbase is accepted with a fee exactly if it
-- has inputs, inputs and outputs sum up without overflow to amounts that differ by the fee, its
-- outputs are positive, with valid keys if keys are checked, its key images are distinct, its
-- rings name a member, none twice in a row, and there is a signature for each input.
pub validate_semantic-IsBalanced :
    (key_isvalid : ℕ → Bool) (check : Bool) (tx : Transaction) (fee : ℕ)
    → All OutputFits tx.outputs
    → All InputFits tx.inputs
    → (validate_semantic key_isvalid false tx check ≡ ok fee) ↔ IsBalanced key_isvalid check tx fee
validate_semantic-IsBalanced key_isvalid check tx fee outputs_fit inputs_fit = (
  sound key_isvalid check tx fee outputs_fit inputs_fit,
  complete key_isvalid check tx fee outputs_fit inputs_fit,
)
