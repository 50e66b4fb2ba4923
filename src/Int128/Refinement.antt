-- ===== src/Int128/Refinement.antt =====
-- `Uint128` of common/Int128.hpp against arithmetic modulo 2^128.
use cryo_nero.Prelude.{ℕ, ◌+◌, ◌-◌, ◌*◌, ◌%◌, ◌^◌, ◌<◌, ◌≡◌, ltb, leb, ◌==◌, not, arith}
use cryo_nero.Int128.{
  Uint128, add_assign, sub_assign, less, equal, greater, less_equal, greater_equal, not_equal,
}

pub record IsWords (a : Uint128) : Type 0 where
  pub lo_fits : a.lo < 2 ^ 64
  pub hi_fits : a.hi < 2 ^ 64

abbrev pub value : Uint128 → ℕ
value a = a.hi * 2 ^ 64 + a.lo

-- On words of 64 bits `+=` gives words again, and the sum of the 128-bit numbers modulo 2^128.
pub value-add_assign :
    (a b : Uint128)
    → IsWords a
    → IsWords b
    → IsWords (add_assign a b) × (value (add_assign a b) ≡ (value a + value b) % 2 ^ 128)
unfolding add_assign
value-add_assign a b ha hb = ground arith

-- On words of 64 bits `-=` gives words again, and the difference of the 128-bit numbers modulo
-- 2^128.
pub value-sub_assign :
    (a b : Uint128)
    → IsWords a
    → IsWords b
    → IsWords (sub_assign a b) × (value (sub_assign a b) ≡ (value a + 2 ^ 128 - value b) % 2 ^ 128)
unfolding sub_assign
value-sub_assign a b ha hb = ground arith

-- On words of 64 bits each of the six comparisons is that of the 128-bit numbers.
pub comparisons_lem :
    (a b : Uint128)
    → IsWords a
    → IsWords b
    → (less a b ≡ ltb (value a) (value b))
      × (greater a b ≡ ltb (value b) (value a))
      × (less_equal a b ≡ leb (value a) (value b))
      × (greater_equal a b ≡ leb (value b) (value a))
      × (equal a b ≡ (value a == value b))
      × (not_equal a b ≡ not (value a == value b))
unfolding less greater less_equal greater_equal equal not_equal
comparisons_lem a b ha hb = ground arith
