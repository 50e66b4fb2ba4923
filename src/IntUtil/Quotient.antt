-- ===== src/IntUtil/Quotient.antt =====
-- The long division `div128_32` of crypto/int-util.h.
use Prim.Native.Nat.{bit_or}
use native.Mathlib.Nat.{div-eq_of_lt-le, mod-eq_of_lt, div-add-mod, mod-lt, div-lt_iff_lt-mul}
use cryo_nero.Prelude.{ℕ, ◌+◌, ◌*◌, ◌/◌, ◌%◌, ◌^◌, ◌<◌, ◌≡◌, sym, ap, ◌∙◌, arith}
use cryo_nero.Prelude.Bits.{bit_or_low_high, bit_or_high_low}
use cryo_nero.IntUtil.{
  IsU32, Wide, wide_value, div_with_reminder, div_dwords, div128_32, hi_dword, lo_dword,
}

-- One step divides the number whose digits are the old remainder and the dword.
div_step :
    (x d r : ℕ)
    → IsU32 x
    → IsU32 d
    → r < d
    → (div_with_reminder x d r ≡ ((r * 2 ^ 32 + x) / d, (r * 2 ^ 32 + x) % d))
unfolding div_with_reminder
div_step x d r hx hd hr = ground (arith, joined, pair)
  where
    joined : bit_or x (r * 2 ^ 32) ≡ x + r * 2 ^ 32
    joined = bit_or_low_high 32 r x hx

    pair : (x + r * 2 ^ 32 ≡ r * 2 ^ 32 + x) × ((r * 2 ^ 32 + x) % d < d)
    pair = (omega arith, mod-lt (r * 2 ^ 32 + x) (omega arith))

-- A quotient digit fits 32 bits.
digit_fits : (x d r : ℕ) → IsU32 x → r < d → (r * 2 ^ 32 + x) / d < 2 ^ 32
digit_fits x d r hx hr = (div-lt_iff_lt-mul (omega arith)).1 (omega (arith))

digits_value :
    (h3 h2 h1 h0 d q3 q2 q1 q0 r3 r2 r1 r0 : ℕ)
    → d * q3 + r3 ≡ h3
    → d * q2 + r2 ≡ r3 * 2 ^ 32 + h2
    → d * q1 + r1 ≡ r2 * 2 ^ 32 + h1
    → d * q0 + r0 ≡ r1 * 2 ^ 32 + h0
    → d * ((q3 * 2 ^ 32 + q2) * 2 ^ 64 + (q1 * 2 ^ 32 + q0)) + r0
      ≡ (h3 * 2 ^ 32 + h2) * 2 ^ 64 + (h1 * 2 ^ 32 + h0)
digits_value h3 h2 h1 h0 d q3 q2 q1 q0 r3 r2 r1 r0 e3 e2 e1 e0 = omega arith

-- The quotient and the remainder are determined by their equation.
div_unique : (n d q r : ℕ) → d * q + r ≡ n → r < d → (q ≡ n / d) × (r ≡ n % d)
div_unique n d q r e h = (quotient, omega (arith, div-add-mod n d, ap (λ (t : ℕ). d * t) quotient))
  where
    quotient : q ≡ n / d
    quotient = sym (div-eq_of_lt-le {k = q} d (omega arith) (omega arith))

-- The pair of digits in one word.
word_of_digits :
    (h l : ℕ) → h < 2 ^ 32 → l < 2 ^ 32 → bit_or (h * 2 ^ 32 % 2 ^ 64) l ≡ h * 2 ^ 32 + l
word_of_digits h l hh hl =
    ap (λ (t : ℕ). bit_or t l) (mod-eq_of_lt (omega arith)) ∙ bit_or_high_low 32 h l hl

module _ (h3 h2 h1 h0 d : ℕ) (b3 : IsU32 h3) (b2 : IsU32 h2) (b1 : IsU32 h1) (b0 : IsU32 h0)
    (pos : 0 < d) (bd : IsU32 d) where
  n3 : ℕ
  n3 = 0 * 2 ^ 32 + h3

  n2 : ℕ
  n2 = n3 % d * 2 ^ 32 + h2

  n1 : ℕ
  n1 = n2 % d * 2 ^ 32 + h1

  n0 : ℕ
  n0 = n1 % d * 2 ^ 32 + h0

  long_division_value :
      d * ((n3 / d * 2 ^ 32 + n2 / d) * 2 ^ 64 + (n1 / d * 2 ^ 32 + n0 / d)) + n0 % d
      ≡ (h3 * 2 ^ 32 + h2) * 2 ^ 64 + (h1 * 2 ^ 32 + h0)
  unfolding n3 n2 n1 n0
  long_division_value =
      digits_value h3 h2 h1 h0 d (n3 / d) (n2 / d) (n1 / d) (n0 / d) (n3 % d) (n2 % d) (n1 % d)
        (n0 % d) (div-add-mod n3 d ∙ omega arith) (div-add-mod n2 d) (div-add-mod n1 d)
        (div-add-mod n0 d)

  quotient_hi : bit_or (n3 / d * 2 ^ 32 % 2 ^ 64) (n2 / d) ≡ n3 / d * 2 ^ 32 + n2 / d
  unfolding n3 n2
  quotient_hi =
      word_of_digits (n3 / d) (n2 / d) (digit_fits h3 d 0 b3 pos)
        (digit_fits h2 d (n3 % d) b2 (mod-lt n3 pos))

  quotient_lo : bit_or (n1 / d * 2 ^ 32 % 2 ^ 64) (n0 / d) ≡ n1 / d * 2 ^ 32 + n0 / d
  unfolding n1 n0
  quotient_lo =
      word_of_digits (n1 / d) (n0 / d) (digit_fits h1 d (n2 % d) b1 (mod-lt n2 pos))
        (digit_fits h0 d (n1 % d) b0 (mod-lt n1 pos))

  div_dwords_digits :
      div_dwords h3 h2 h1 h0 d
      ≡ (record { hi = n3 / d * 2 ^ 32 + n2 / d; lo = n1 / d * 2 ^ 32 + n0 / d }, n0 % d)
  unfolding div_dwords n3 n2 n1 n0
  div_dwords_digits = rw (
    div_step h3 d 0 b3 bd pos,
    div_step h2 d (n3 % d) b2 bd (mod-lt n3 pos),
    div_step h1 d (n2 % d) b1 bd (mod-lt n2 pos),
    div_step h0 d (n1 % d) b0 bd (mod-lt n1 pos),
    quotient_hi,
    quotient_lo,
  )

  div_dwords_lem :
      (wide_value (div_dwords h3 h2 h1 h0 d).0
        ≡ ((h3 * 2 ^ 32 + h2) * 2 ^ 64 + (h1 * 2 ^ 32 + h0)) / d)
      × ((div_dwords h3 h2 h1 h0 d).1 ≡ ((h3 * 2 ^ 32 + h2) * 2 ^ 64 + (h1 * 2 ^ 32 + h0)) % d)
  div_dwords_lem = rw div_dwords_digits (
      div_unique _ d
        (wide_value (record { hi = n3 / d * 2 ^ 32 + n2 / d; lo = n1 / d * 2 ^ 32 + n0 / d }))
        (n0 % d) long_division_value (mod-lt n0 pos))

  div_dwords_fits :
      ((div_dwords h3 h2 h1 h0 d).0.hi < 2 ^ 64) × ((div_dwords h3 h2 h1 h0 d).0.lo < 2 ^ 64)
  div_dwords_fits = rw div_dwords_digits (omega (arith, q3, q2, q1, q0))
    where
      q3 : n3 / d < 2 ^ 32
      q3 = unfold n3 in digit_fits h3 d 0 b3 pos

      q2 : n2 / d < 2 ^ 32
      q2 = unfold n2 in digit_fits h2 d (n3 % d) b2 (mod-lt n3 pos)

      q1 : n1 / d < 2 ^ 32
      q1 = unfold n1 in digit_fits h1 d (n2 % d) b1 (mod-lt n2 pos)

      q0 : n0 / d < 2 ^ 32
      q0 = unfold n0 in digit_fits h0 d (n1 % d) b0 (mod-lt n1 pos)

-- The long division of two 64-bit words by a positive 32-bit divisor gives quotient and
-- remainder of the 128-bit number that they hold.
pub div128_32-div_mod :
    (w : Wide) (d : ℕ)
    → w.hi < 2 ^ 64
    → w.lo < 2 ^ 64
    → 0 < d
    → d < 2 ^ 32
    → (wide_value (div128_32 w d).0 ≡ wide_value w / d) × ((div128_32 w d).1 ≡ wide_value w % d)
unfolding div128_32
div128_32-div_mod w d hh hl pos bd = rw (whole) at parts
  where
    parts :
        (wide_value (div128_32 w d).0
          ≡ ((hi_dword w.hi * 2 ^ 32 + lo_dword w.hi) * 2 ^ 64
              + (hi_dword w.lo * 2 ^ 32 + lo_dword w.lo))
            / d)
        × ((div128_32 w d).1
            ≡ ((hi_dword w.hi * 2 ^ 32 + lo_dword w.hi) * 2 ^ 64
                + (hi_dword w.lo * 2 ^ 32 + lo_dword w.lo))
              % d)
    parts =
        div_dwords_lem (hi_dword w.hi) (lo_dword w.hi) (hi_dword w.lo) (lo_dword w.lo) d
          (omega arith) (omega arith) (omega arith) (omega arith) pos bd

    whole :
        (hi_dword w.hi * 2 ^ 32 + lo_dword w.hi) * 2 ^ 64 + (hi_dword w.lo * 2 ^ 32 + lo_dword w.lo)
        ≡ wide_value w
    whole = omega arith

-- The words of the quotient are words again.
pub div128_32-IsU64 :
    (w : Wide) (d : ℕ)
    → w.hi < 2 ^ 64
    → w.lo < 2 ^ 64
    → 0 < d
    → d < 2 ^ 32
    → ((div128_32 w d).0.hi < 2 ^ 64) × ((div128_32 w d).0.lo < 2 ^ 64)
unfolding div128_32
div128_32-IsU64 w d hh hl pos bd =
    div_dwords_fits (hi_dword w.hi) (lo_dword w.hi) (hi_dword w.lo) (lo_dword w.lo) d (omega arith)
      (omega arith) (omega arith) (omega arith) pos bd
