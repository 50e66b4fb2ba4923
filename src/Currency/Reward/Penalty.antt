-- ===== src/Currency/Reward/Penalty.antt =====
-- `get_penalized_amount` of Core/Currency.cpp computes the penalty without overflow.
use native.Mathlib.Nat.{div-lt_iff_lt-mul, mod-eq_of_lt}
use cryo_nero.Prelude.{
  ℕ, ◌+◌, ◌-◌, ◌*◌, ◌/◌, ◌%◌, ◌^◌, ◌<◌, ◌≤◌, ◌≡◌, ap, ◌∙◌, arith, none, some, leb, ◌==◌,
  if◌then◌else◌, Bool-cases, inl, inr,
}
use cryo_nero.IntUtil.{IsU64, wide_value, mul128, div128_32}
use cryo_nero.IntUtil.Quotient.{div128_32-div_mod, div128_32-IsU64}
use cryo_nero.Currency.Reward.{div_twice, get_penalized_amount}

-- The bounds of the factor, with `e` for what the block exceeds the median by and `f` for what is
-- missing to twice the median.
square_gap : (e f : ℕ) → 0 < e → (e + f + e) * f < (e + f) * (e + f)
square_gap e f h = grind (arith, gap e f, square_pos e h)
  where
    gap : (e f : ℕ) → (e + f + e) * f + e * e ≡ (e + f) * (e + f)
    gap e f = grind arith

    square_pos : (e : ℕ) → 0 < e → 0 < e * e
    square_pos e h = grind arith

mul_le : (g h c : ℕ) → h ≤ c → g * h ≤ g * c
mul_le g h c le = grind arith

swap_le : (c g h : ℕ) → h ≤ c → (c + g) * h ≤ c * (g + h)
swap_le c g h le = omega (arith, mul_le g h c le, left c g h, right c g h)
  where
    left : (c g h : ℕ) → (c + g) * h ≡ c * h + g * h
    left c g h = grind arith

    right : (c g h : ℕ) → c * (g + h) ≡ g * c + c * h
    right c g h = grind arith

abbrev factor : ℕ → ℕ → ℕ
factor m c = c * (2 * m - c)

factor_lt : (m c : ℕ) → m < c → c ≤ 2 * m → factor m c < m * m
factor_lt m c lt le = rw (shape, whole) at (square_gap (c - m) (2 * m - c) (omega arith))
  where
    shape : c - m + (2 * m - c) + (c - m) ≡ c
    shape = omega arith

    whole : c - m + (2 * m - c) ≡ m
    whole = omega arith

-- The factor falls as the block grows.
factor_falls : (m c d : ℕ) → m ≤ c → c ≤ d → d ≤ 2 * m → factor m d ≤ factor m c
factor_falls m c d lo le hi = rw (sum, rest) at (swap_le c (d - c) (2 * m - d) (omega arith))
  where
    sum : c + (d - c) ≡ d
    sum = omega arith

    rest : d - c + (2 * m - d) ≡ 2 * m - c
    rest = omega arith

mul_lt : (a b n : ℕ) → a < n → b < n → a * b < n * n
mul_lt a b n ha hb = grind arith

-- Two divisions of a product by the median.
div_twice_lem :
    (a b m : ℕ)
    → IsU64 a
    → IsU64 b
    → 0 < m
    → m < 2 ^ 32
    → wide_value (div_twice (mul128 a b) m) ≡ a * b / m / m
unfolding div_twice
div_twice_lem a b m ha hb pos hm =
    (div128_32-div_mod (div128_32 (mul128 a b) m).0 m fits.0 fits.1 pos hm).0
    ∙ ap (λ (t : ℕ). t / m)
        ((div128_32-div_mod (mul128 a b) m hi lo pos hm).0 ∙ ap (λ (t : ℕ). t / m) product)
  where
    hi : (mul128 a b).hi < 2 ^ 64
    hi = (div-lt_iff_lt-mul (omega arith)).1 (mul_lt a b (2 ^ 64) ha hb)

    lo : (mul128 a b).lo < 2 ^ 64
    lo = omega arith

    product : wide_value (mul128 a b) ≡ a * b
    product = omega arith

    fits : ((div128_32 (mul128 a b) m).0.hi < 2 ^ 64) × ((div128_32 (mul128 a b) m).0.lo < 2 ^ 64)
    fits = div128_32-IsU64 (mul128 a b) m hi lo pos hm

-- What the penalty leaves of the amount.
abbrev pub penalized : ℕ → ℕ → ℕ → ℕ
penalized a m c = if leb c m then a else a * (c * (2 * m - c)) / m / m

scaled_lt : (a p q : ℕ) → 0 < a → p < q → a * p < a * q
scaled_lt a p q pos lt = grind arith

divided_lt : (a m p : ℕ) → 0 < a → 0 < m → p < m * m → a * p / m / m < a
divided_lt a m p ha hm lt =
    (div-lt_iff_lt-mul hm).1 ((div-lt_iff_lt-mul hm).1 (rw (assoc) (scaled_lt a p (m * m) ha lt)))
  where
    assoc : a * m * m ≡ a * (m * m)
    assoc = grind arith

-- What is left is less than the amount, unless the block does not exceed the median.
pub penalized-lt : (a m c : ℕ) → 0 < a → m < c → c ≤ 2 * m → a * (c * (2 * m - c)) / m / m < a
penalized-lt a m c ha lt le =
    divided_lt a m (c * (2 * m - c)) ha (omega arith) (factor_lt m c lt le)

zero_div : (m : ℕ) → 0 < m → 0 / m ≡ 0
zero_div m h = omega (arith, (div-lt_iff_lt-mul {x = 0} {y = 1} h).1 (omega arith))

zero_penalized : (a m p : ℕ) → 0 < m → a ≡ 0 → a * p / m / m ≡ 0
zero_penalized a m p h z =
    ap (λ (t : ℕ). t / m) (ap (λ (t : ℕ). t / m) nothing ∙ zero_div m h) ∙ zero_div m h
  where
    nothing : a * p ≡ 0
    nothing = rw (z) (grind arith)

-- The factor fits the word in which it is computed.
factor_word :
    (m c : ℕ)
    → m < c
    → c ≤ 2 * m
    → m < 2 ^ 32
    → c * ((2 * m + 2 ^ 64 - c) % 2 ^ 64) % 2 ^ 64 ≡ c * (2 * m - c)
factor_word m c lt le hm =
    rw (inner) (mod-eq_of_lt (omega (arith, factor_lt m c lt le, mul_lt m m (2 ^ 32) hm hm)))
  where
    inner : (2 * m + 2 ^ 64 - c) % 2 ^ 64 ≡ 2 * m - c
    inner = omega arith

-- The quotient is in the low word.
penalized_word :
    (a m c : ℕ)
    → IsU64 a
    → m < c
    → c ≤ 2 * m
    → m < 2 ^ 32
    → 0 < a
    → ((div_twice (mul128 a (c * (2 * m - c))) m).hi ≡ 0)
      × ((div_twice (mul128 a (c * (2 * m - c))) m).lo ≡ a * (c * (2 * m - c)) / m / m)
penalized_word a m c ha lt le hm pos = omega (arith, value, penalized-lt a m c pos lt le)
  where
    value :
        (div_twice (mul128 a (c * (2 * m - c))) m).hi * 2 ^ 64
          + (div_twice (mul128 a (c * (2 * m - c))) m).lo
        ≡ a * (c * (2 * m - c)) / m / m
    value =
        div_twice_lem a (c * (2 * m - c)) m ha
          (omega (arith, factor_lt m c lt le, mul_lt m m (2 ^ 32) hm hm)) (omega arith) hm

-- On sizes of 32 bits `get_penalized_amount` fails exactly when the block exceeds twice the median.
-- Else it answers the amount, if the block does not exceed the median, and otherwise
-- amount * size * (2 * median - size) / median / median; the 128-bit product does not overflow.
pub get_penalized_amount-penalized :
    (a m c : ℕ)
    → IsU64 a
    → m < 2 ^ 32
    → c < 2 ^ 32
    → get_penalized_amount a m c ≡ (if leb c (2 * m) then some (penalized a m c) else none)
unfolding get_penalized_amount
get_penalized_amount-penalized a m c ha hm hc = elim (Bool-cases (leb c m)) [
  | inl small ↦ ground arith
  | inr large ↦ elim (Bool-cases (leb c (2 * m))) [
    | inr refuse ↦ ground arith
    | inl allow ↦ elim (Bool-cases (a == 0)) [
      | inl zero ↦ ground (arith, zero_penalized a m (c * (2 * m - c)))
      | inr more ↦ ground (arith, factor_word m c, penalized_word a m c, penalized-lt a m c)
    ]
  ]
]

pub penalized-le : (a m c : ℕ) → c ≤ 2 * m → penalized a m c ≤ a
penalized-le a m c le = elim (Bool-cases (leb c m)) [
  | inl small ↦ ground arith
  | inr large ↦ elim (Bool-cases (a == 0)) [
    | inl zero ↦ ground (arith, zero_penalized a m (c * (2 * m - c)))
    | inr more ↦ ground (arith, penalized-lt a m c)
  ]
]

div_le : (x y m : ℕ) → 0 < m → x ≤ y → x / m ≤ y / m
div_le x y m pos le =
    omega (arith, (div-lt_iff_lt-mul {x = x} {y = y / m + 1} pos).1 (within y m pos le))
  where
    within : (y m : ℕ) → 0 < m → x ≤ y → x < (y / m + 1) * m
    within y m pos le =
        omega (arith, (div-lt_iff_lt-mul {x = y} {y = y / m + 1} pos).0 (omega arith))

-- The formula falls as the block grows.
penalized-falls : (a m c d : ℕ) → c ≤ d → d ≤ 2 * m → penalized a m d ≤ penalized a m c
penalized-falls a m c d le hi = elim (Bool-cases (leb c m)) [
  | inl small ↦ ground (arith, penalized-le a m d hi)
  | inr large ↦ ground (arith, further)
]
  where
    further : m < c → a * (d * (2 * m - d)) / m / m ≤ a * (c * (2 * m - c)) / m / m
    further lo = div_le _ _ m (omega arith) (
        div_le _ _ m (omega arith)
          (mul_le a (d * (2 * m - d)) (c * (2 * m - c)) (factor_falls m c d (omega arith) le hi)))

-- A larger block never keeps more of the same amount: where `get_penalized_amount` answers for two
-- sizes of 32 bits, the answer for the larger is at most that for the smaller.
pub get_penalized_amount-falls :
    (a m c d kept kept' : ℕ)
    → IsU64 a
    → m < 2 ^ 32
    → d < 2 ^ 32
    → c ≤ d
    → get_penalized_amount a m c ≡ some kept
    → get_penalized_amount a m d ≡ some kept'
    → kept' ≤ kept
get_penalized_amount-falls a m c d kept kept' ha hm hd le e f = elim (Bool-cases (leb d (2 * m))) [
  | inr refuse ↦ absurd (ground (arith, get_penalized_amount-penalized a m d ha hm hd))
  | inl allow ↦ ground (
    arith,
    get_penalized_amount-penalized a m d ha hm hd,
    get_penalized_amount-penalized a m c ha hm,
    penalized-falls a m c d le,
  )
]
