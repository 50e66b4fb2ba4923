-- ===== src/Int128/Runs.antt =====
-- The theorems on common/Int128.hpp at concrete inputs.
use cryo_nero.Prelude.{◌≡◌, ◌+◌, ◌-◌, ◌%◌, ◌^◌, refl, arith, ltb, leb, ◌==◌, not}
use cryo_nero.Int128.{
  Uint128, add_assign, sub_assign, less, equal, greater, less_equal, greater_equal, not_equal,
}
use cryo_nero.Int128.Refinement.{
  IsWords, value, value-add_assign, value-sub_assign, comparisons_lem,
}

abbrev full_word : Uint128
full_word = record { lo = 2 ^ 64 - 1; hi = 3 }

abbrev one : Uint128
one = record { lo = 1; hi = 0 }

carries : add_assign full_word one ≡ record { lo = 0; hi = 4 }
unfolding add_assign
carries = refl

value-add_assign_example :
    IsWords (add_assign full_word one)
    × (value (add_assign full_word one) ≡ (value full_word + value one) % 2 ^ 128)
value-add_assign_example = value-add_assign full_word one (omega arith) (omega arith)

value-sub_assign_example :
    IsWords (sub_assign one full_word)
    × (value (sub_assign one full_word) ≡ (value one + 2 ^ 128 - value full_word) % 2 ^ 128)
value-sub_assign_example = value-sub_assign one full_word (omega arith) (omega arith)

comparisons_lem_example :
    (less one full_word ≡ ltb (value one) (value full_word))
    × (greater one full_word ≡ ltb (value full_word) (value one))
    × (less_equal one full_word ≡ leb (value one) (value full_word))
    × (greater_equal one full_word ≡ leb (value full_word) (value one))
    × (equal one full_word ≡ (value one == value full_word))
    × (not_equal one full_word ≡ not (value one == value full_word))
comparisons_lem_example = comparisons_lem one full_word (omega arith) (omega arith)
