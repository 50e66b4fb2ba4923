-- ===== src/Varint/Sqlite4/KeyOrder.antt =====
-- Database keys are compared byte by byte; the encoding of common/Varint.cpp keeps the order of the
-- numbers, which `rbegin` on a prefix, `get_oldest_tip` and the timestamp index of
-- Core/BlockChain.cpp rely on.
use native.Mathlib.Nat.{pow-suc, pow-le-pow_right}
use native.Mathlib.Decide.{dec_le, ℕ_discrete}
use mathlib.Core.List.{append-nil}
use cryo_nero.Prelude.{
  ℕ, zero, suc, ◌+◌, ◌-◌, ◌/◌, ◌%◌, ◌^◌, ◌≤◌, ◌<◌, ◌≡◌, ◌⊎◌, inl, inr, refl, arith, Bool, true,
  false, List, [], ◌∷◌, ◌++◌, ltb, ◌==◌, if◌then◌else◌,
}
use cryo_nero.Varint.Sqlite4.{uint_be_to_bytes, write_varint_sqlite4}
use cryo_nero.Varint.Sqlite4.Ranges.{Range, one_byte, two_bytes, three_bytes, fixed, range}
use cryo_nero.Varint.Sqlite4.BigEndian.{uint_be_to_bytes-append}

-- The order of two keys in the database.
abbrev pub lex_ltb : List ℕ → List ℕ → Bool
lex_ltb [] [] = false
lex_ltb [] (y ∷ ys) = true
lex_ltb (x ∷ xs) [] = false
lex_ltb (x ∷ xs) (y ∷ ys) = if ltb x y then true else if x == y then lex_ltb xs ys else false

lex_ltb-head : (x y : ℕ) (xs ys : List ℕ) → x < y → lex_ltb (x ∷ xs) (y ∷ ys) ≡ true
lex_ltb-head x y xs ys h = ground arith

lex_ltb-tail :
    (x y : ℕ) (xs ys : List ℕ) → x ≡ y → lex_ltb xs ys ≡ true → lex_ltb (x ∷ xs) (y ∷ ys) ≡ true
lex_ltb-tail x y xs ys e h = ground arith

lex_ltb-uint_be_same :
    (n v : ℕ) (xs ys : List ℕ)
    → lex_ltb xs ys ≡ true
    → lex_ltb (uint_be_to_bytes n v xs) (uint_be_to_bytes n v ys) ≡ true
unfolding uint_be_to_bytes
lex_ltb-uint_be_same zero v xs ys h = h
lex_ltb-uint_be_same (suc n) v xs ys h =
    lex_ltb-uint_be_same n (v / 2 ^ 8) _ _ (lex_ltb-tail (v % 256) _ xs ys refl h)

-- At equal width the big-endian form keeps the order.
lex_ltb-uint_be :
    (n a b : ℕ) (xs ys : List ℕ)
    → a < b
    → b < 256 ^ n
    → lex_ltb (uint_be_to_bytes n a xs) (uint_be_to_bytes n b ys) ≡ true
unfolding uint_be_to_bytes
lex_ltb-uint_be zero a b xs ys h hb = absurd (omega arith)
lex_ltb-uint_be (suc n) a b xs ys h hb = elim split [
  | inl lt ↦ lex_ltb-uint_be n (a / 2 ^ 8) (b / 2 ^ 8) _ _ lt (omega (arith, pow-suc 256 n))
  | inr (e, lt) ↦
      rw e (lex_ltb-uint_be_same n (b / 2 ^ 8) _ _ (lex_ltb-head (a % 256) (b % 256) xs ys lt))
]
  where
    split : (a / 2 ^ 8 < b / 2 ^ 8) ⊎ ((a / 2 ^ 8 ≡ b / 2 ^ 8) × (a % 256 < b % 256))
    split = grind arith

-- A larger number takes at least as many bytes.
width_mono : (n m a b : ℕ) → 3 ≤ m → (n ≡ 3) ⊎ (256 ^ (n - 1) ≤ a) → a < b → b < 256 ^ m → n ≤ m
width_mono n m a b lm (inl e) h hb = omega arith
width_mono n m a b lm (inr e) h hb = elim (dec_le n m) [
  | yes p ↦ p
  | no p ↦ absurd (omega (arith, pow-le-pow_right {n = 256} (omega arith) (shorter p)))
]
  where
    shorter : ¬ (n ≤ m) → m ≤ n - 1
    shorter p = omega arith

lex_ltb-fixed :
    (n m a b : ℕ) (xs ys : List ℕ)
    → a < b
    → n ≤ m
    → b < 256 ^ m
    → lex_ltb ((247 + n) ∷ uint_be_to_bytes n a xs) ((247 + m) ∷ uint_be_to_bytes m b ys) ≡ true
lex_ltb-fixed n m a b xs ys h le hb = elim (ℕ_discrete n m) [
  | yes e ↦
      lex_ltb-tail (247 + n) (247 + m) (uint_be_to_bytes n a xs) (uint_be_to_bytes m b ys)
        (omega arith) (rw e (lex_ltb-uint_be m a b xs ys h hb))
  | no ne ↦
      lex_ltb-head (247 + n) (247 + m) (uint_be_to_bytes n a xs) (uint_be_to_bytes m b ys)
        (omega arith)
]

lex_ltb-ranges :
    (a b : ℕ) (xs ys : List ℕ)
    → a < b
    → Range a
    → Range b
    → lex_ltb (write_varint_sqlite4 a ++ xs) (write_varint_sqlite4 b ++ ys) ≡ true
lex_ltb-ranges a b xs ys h (one_byte ha ea) (one_byte hb eb) = rw (ea, eb) (ground arith)
lex_ltb-ranges a b xs ys h (one_byte ha ea) (two_bytes lb hb eb) = rw (ea, eb) (ground arith)
lex_ltb-ranges a b xs ys h (one_byte ha ea) (three_bytes lb hb eb) = rw (ea, eb) (ground arith)
lex_ltb-ranges a b xs ys h (one_byte ha ea) (fixed n lb hb _ _ bb eb _) = rw (ea, eb) (ground arith)
lex_ltb-ranges a b xs ys h (two_bytes la ha ea) (one_byte hb eb) = absurd (omega arith)
lex_ltb-ranges a b xs ys h (two_bytes la ha ea) (two_bytes lb hb eb) = rw (ea, eb) (ground arith)
lex_ltb-ranges a b xs ys h (two_bytes la ha ea) (three_bytes lb hb eb) = rw (ea, eb) (ground arith)
lex_ltb-ranges a b xs ys h (two_bytes la ha ea) (fixed n lb hb _ _ bb eb _) =
    rw (ea, eb) (ground arith)
lex_ltb-ranges a b xs ys h (three_bytes la ha ea) (one_byte hb eb) = absurd (omega arith)
lex_ltb-ranges a b xs ys h (three_bytes la ha ea) (two_bytes lb hb eb) = absurd (omega arith)
lex_ltb-ranges a b xs ys h (three_bytes la ha ea) (three_bytes lb hb eb) =
    rw (ea, eb) (ground arith)
lex_ltb-ranges a b xs ys h (three_bytes la ha ea) (fixed n lb hb _ _ bb eb _) =
    rw (ea, eb) (ground arith)
lex_ltb-ranges a b xs ys h (fixed n la ha ua na ba ea _) (one_byte hb eb) = absurd (omega arith)
lex_ltb-ranges a b xs ys h (fixed n la ha ua na ba ea _) (two_bytes lb hb eb) = absurd (omega arith)
lex_ltb-ranges a b xs ys h (fixed n la ha ua na ba ea _) (three_bytes lb hb eb) =
    absurd (omega arith)
lex_ltb-ranges a b xs ys h (fixed n la ha ua na ba ea _) (fixed m lb hb _ mb bb eb _) =
    rw (ea, eb, uint_be_to_bytes-append, uint_be_to_bytes-append)
      (lex_ltb-fixed n m a b xs ys h (width_mono n m a b lb na h bb) bb)

-- For numbers below 2^64, keys that begin with the encoding of the smaller number stand before
-- keys that begin with that of the larger, whatever follows.
pub lex_ltb-write_varint_sqlite4 :
    (a b : ℕ) (xs ys : List ℕ)
    → a < b
    → b < 2 ^ 64
    → lex_ltb (write_varint_sqlite4 a ++ xs) (write_varint_sqlite4 b ++ ys) ≡ true
lex_ltb-write_varint_sqlite4 a b xs ys h hb =
    lex_ltb-ranges a b xs ys h (range a (omega arith)) (range b hb)

lex_ltb-append_same : (p xs ys : List ℕ) → lex_ltb xs ys ≡ true → lex_ltb (p ++ xs) (p ++ ys) ≡ true
lex_ltb-append_same [] xs ys h = h
lex_ltb-append_same (x ∷ p) xs ys h =
    lex_ltb-tail x x (p ++ xs) (p ++ ys) refl (lex_ltb-append_same p xs ys h)

-- For numbers below 2^64, keys of two numbers behind a common prefix stand in the order of the
-- first number, then of the second.
pub lex_ltb-two_varints :
    (prefix : List ℕ) (a b c d : ℕ)
    → (a < c) ⊎ ((a ≡ c) × (b < d))
    → c < 2 ^ 64
    → d < 2 ^ 64
    → lex_ltb
        (prefix ++ (write_varint_sqlite4 a ++ write_varint_sqlite4 b))
        (prefix ++ (write_varint_sqlite4 c ++ write_varint_sqlite4 d))
      ≡ true
lex_ltb-two_varints prefix a b c d (inl lt) hc hd =
    lex_ltb-append_same prefix _ _ (lex_ltb-write_varint_sqlite4 a c _ _ lt hc)
lex_ltb-two_varints prefix a b c d (inr (e, lt)) hc hd =
    lex_ltb-append_same prefix _ _ (rw e (lex_ltb-append_same (write_varint_sqlite4 c) _ _ second))
  where
    second : lex_ltb (write_varint_sqlite4 b) (write_varint_sqlite4 d) ≡ true
    second = rw (append-nil, append-nil) at (lex_ltb-write_varint_sqlite4 b d [] [] lt hd)
