-- ===== src/Prelude/Powers.antt =====
-- Powers of two at variable exponents.
use native.Mathlib.Nat.{pow-suc, one-le-pow}
use cryo_nero.Prelude.{ℕ, zero, suc, ◌+◌, ◌*◌, ◌^◌, ◌≤◌, ◌<◌, ◌≡◌, ap, arith}

pub two_pow_pos : (k : ℕ) → 0 < 2 ^ k
two_pow_pos k = omega (arith, one-le-pow k 2)

-- The sum of the exponents is a variable, so that it may be `shift + 7` or a number of bits.
pub two_pow_sum : (a b c : ℕ) → a + b ≡ c → 2 ^ c ≡ 2 ^ a * 2 ^ b
two_pow_sum zero b c e = let e' : c ≡ b = omega arith in omega (arith, ap (λ (t : ℕ). 2 ^ t) e')
two_pow_sum (suc a) b zero e = absurd (omega arith)
two_pow_sum (suc a) b (suc c) e = omega (
  arith,
  pow-suc 2 a,
  pow-suc 2 c,
  ap (λ (t : ℕ). t * 2 ^ b) (pow-suc 2 a),
  two_pow_sum a b c (omega arith),
)

pub two_pow_mono : (a b : ℕ) → a ≤ b → 2 ^ a ≤ 2 ^ b
two_pow_mono zero b h = omega (arith, two_pow_pos b)
two_pow_mono (suc a) zero h = absurd (omega arith)
two_pow_mono (suc a) (suc b) h =
    omega (arith, pow-suc 2 a, pow-suc 2 b, two_pow_mono a b (omega arith))
