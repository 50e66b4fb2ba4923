-- ===== src/Prelude/Bits.antt =====
-- `|` of disjoint fields and `&` with a mask of ones, as arithmetic.
use Prim.Native.Nat.{
  ℕ, zero, suc, ◌+◌, ◌*◌, ◌/◌, ◌%◌, ◌^◌, ◌≤◌, ◌<◌, min, max, bit_and, bit_or, digits,
  bit_and-bitwise, bit_or-bitwise,
}
use mathlib.Core.Path.{◌≡◌, refl, ap}
use mathlib.Core.Bool.{Bool, true, ◌&&◌}
use native.Mathlib.Omega.{arith}
use native.Mathlib.Nat.{pow-suc}
use cryo_nero.Prelude.Tests.{◌==◌, ==_iff}

-- The digit recursion does not depend on spare fuel.
module _ (z : ℕ → ℕ) (f : ℕ → ℕ → ℕ) where
  digits-spare : (k a b : ℕ) (m : ℕ) → a ≤ k → a ≤ m → digits z f k a b ≡ digits z f m a b
  digits-spare zero zero b zero p q = refl
  digits-spare zero zero b (suc m) p q = refl
  digits-spare zero (suc a) b m p q = absurd (omega arith)
  digits-spare (suc k) zero b zero p q = refl
  digits-spare (suc k) zero b (suc m) p q = refl
  digits-spare (suc k) (suc a) b zero p q = absurd (omega arith)
  digits-spare (suc k) (suc a) b (suc m) p q =
      ap (λ (t : ℕ). t * 2 + f (suc a % 2) (b % 2))
        (digits-spare k (suc a / 2) (b / 2) m (omega arith) (omega arith))

-- One binary digit at a time.
pub bit_or_digit : (a b : ℕ) → bit_or a b ≡ bit_or (a / 2) (b / 2) * 2 + max (a % 2) (b % 2)
bit_or_digit zero b = omega (arith, bit_or-bitwise 0 b, bit_or-bitwise 0 (b / 2))
bit_or_digit (suc a) b = omega (
  arith,
  bit_or-bitwise (suc a) b,
  bit_or-bitwise (suc a / 2) (b / 2),
  digits-spare (λ y. y) max a (suc a / 2) (b / 2) (suc a / 2) (omega arith) (omega arith),
)

pub bit_and_digit : (a b : ℕ) → bit_and a b ≡ bit_and (a / 2) (b / 2) * 2 + min (a % 2) (b % 2)
bit_and_digit zero b = omega (arith, bit_and-bitwise 0 b, bit_and-bitwise 0 (b / 2))
bit_and_digit (suc a) b = omega (
  arith,
  bit_and-bitwise (suc a) b,
  bit_and-bitwise (suc a / 2) (b / 2),
  digits-spare (λ y. 0) min a (suc a / 2) (b / 2) (suc a / 2) (omega arith) (omega arith),
)

zero-bit_or : (b : ℕ) → bit_or 0 b ≡ b
zero-bit_or b = bit_or-bitwise 0 b

bit_or-zero_below : (n a : ℕ) → a ≤ n → bit_or a 0 ≡ a
bit_or-zero_below n zero h = refl
bit_or-zero_below zero (suc a) h = absurd (omega arith)
bit_or-zero_below (suc n) (suc a) h =
    omega (arith, bit_or_digit (suc a) 0, bit_or-zero_below n (suc a / 2) (omega arith))

pub bit_or-zero : (a : ℕ) → bit_or a 0 ≡ a
bit_or-zero a = bit_or-zero_below a a (omega arith)

shifted_suc : (q k : ℕ) → q * 2 ^ suc k ≡ q * 2 ^ k * 2
shifted_suc q k = omega (arith, ap (λ (t : ℕ). q * t) (pow-suc 2 k))

-- `(q << k) | r` is a sum when `r` has `k` bits, in either order.
pub bit_or_high_low : (k q r : ℕ) → r < 2 ^ k → bit_or (q * 2 ^ k) r ≡ q * 2 ^ k + r
bit_or_high_low zero q r h = ground (arith, bit_or-zero q)
bit_or_high_low (suc k) q r h = omega (
  arith,
  bit_or_digit (q * 2 ^ suc k) r,
  ap (λ (t : ℕ). bit_or t (r / 2)) halved,
  shifted_suc q k,
  bit_or_high_low k q (r / 2) (omega (arith, pow-suc 2 k)),
)
  where
    halved : q * 2 ^ suc k / 2 ≡ q * 2 ^ k
    halved = omega (arith, shifted_suc q k)

pub bit_or_low_high : (k q r : ℕ) → r < 2 ^ k → bit_or r (q * 2 ^ k) ≡ r + q * 2 ^ k
bit_or_low_high zero q zero h = omega (arith, zero-bit_or (q * 2 ^ 0))
bit_or_low_high zero q (suc r) h = absurd (omega arith)
bit_or_low_high (suc k) q r h = omega (
  arith,
  bit_or_digit r (q * 2 ^ suc k),
  ap (λ (t : ℕ). bit_or (r / 2) t) halved,
  shifted_suc q k,
  bit_or_low_high k q (r / 2) (omega (arith, pow-suc 2 k)),
)
  where
    halved : q * 2 ^ suc k / 2 ≡ q * 2 ^ k
    halved = omega (arith, shifted_suc q k)

-- Facts about one byte are tables, checked by evaluation.
unfoldable pub holds_below : (ℕ → Bool) → ℕ → Bool
holds_below test (suc top) = holds_below test top && test top
holds_below test zero = true

pub holds_below_at :
    {bound : ℕ} (test : ℕ → Bool) (n : ℕ)
    → n < bound
    → holds_below test bound ≡ true
    → test n ≡ true
unfolding holds_below
holds_below_at {bound = suc top} test n lt h = ground (arith, holds_below_at {bound = top} test n)
holds_below_at {bound = zero} test n lt h = absurd (omega arith)

low_seven_table : holds_below (λ x. bit_and x 0x7f == x % 128) 256 ≡ true
unfolding holds_below
low_seven_table = refl

pub low_seven : (x : ℕ) → x < 256 → bit_and x 0x7f ≡ x % 128
low_seven x h = (==_iff _ _).0 (holds_below_at _ x h low_seven_table)

top_bit_table : holds_below (λ x. bit_and x 0x80 == x / 128 * 128) 256 ≡ true
unfolding holds_below
top_bit_table = refl

pub top_bit : (x : ℕ) → x < 256 → bit_and x 0x80 ≡ x / 128 * 128
top_bit x h = (==_iff _ _).0 (holds_below_at _ x h top_bit_table)

with_top_bit_table : holds_below (λ x. bit_or x 0x80 == x + 128) 128 ≡ true
unfolding holds_below
with_top_bit_table = refl

pub with_top_bit : (x : ℕ) → x < 128 → bit_or x 0x80 ≡ x + 128
with_top_bit x h = (==_iff _ _).0 (holds_below_at _ x h with_top_bit_table)
