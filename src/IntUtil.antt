-- ===== src/IntUtil.antt =====
-- crypto/int-util.h: products and quotients of 128 bits in two words of 64.
pub mod Product
pub mod Quotient
mod Runs
use Prim.Native.Nat.{bit_or}
use cryo_nero.Prelude.{ℕ, ◌+◌, ◌*◌, ◌/◌, ◌%◌, ◌^◌, ◌<◌, ltb, if◌then◌else◌}

abbrev pub IsU32 : ℕ → Type 0
IsU32 v = v < 2 ^ 32

abbrev pub IsU64 : ℕ → Type 0
IsU64 v = v < 2 ^ 64

abbrev pub hi_dword : ℕ → ℕ
hi_dword val = val / 2 ^ 32

-- `val & 0xFFFFFFFF`
abbrev pub lo_dword : ℕ → ℕ
lo_dword val = val % 2 ^ 32

-- Two words of 64 bits.
pub record Wide : Type 0 where
  pub hi : ℕ
  pub lo : ℕ

abbrev pub wide_value : Wide → ℕ
wide_value w = w.hi * 2 ^ 64 + w.lo

-- The `mulq` instruction and the `unsigned __int128` branch: the product in two words.
abbrev pub mul128 : ℕ → ℕ → Wide
mul128 multiplier multiplicand = record {
  hi = multiplier * multiplicand / 2 ^ 64;
  lo = multiplier * multiplicand % 2 ^ 64;
}

-- The branch for other compilers.
mul128_of_dwords : ℕ → ℕ → ℕ → ℕ → Wide
mul128_of_dwords a b c d =
    let ac = a * c % 2 ^ 64 in
    let ad = a * d % 2 ^ 64 in
    let bc = b * c % 2 ^ 64 in
    let bd = b * d % 2 ^ 64 in
    let adbc = (ad + bc) % 2 ^ 64 in
    let adbc_carry = if ltb adbc ad then 1 else 0 in
    let product_lo = (bd + adbc * 2 ^ 32 % 2 ^ 64) % 2 ^ 64 in
    let product_lo_carry = if ltb product_lo bd then 1 else 0 in
    record {
      hi = (ac + adbc / 2 ^ 32 + adbc_carry * 2 ^ 32 + product_lo_carry) % 2 ^ 64;
      lo = product_lo;
    }

pub mul128_portable : ℕ → ℕ → Wide
unfolding mul128_of_dwords
mul128_portable multiplier multiplicand =
    mul128_of_dwords (hi_dword multiplier) (lo_dword multiplier) (hi_dword multiplicand)
      (lo_dword multiplicand)

-- Quotient and new remainder of one step of the long division.
pub div_with_reminder : ℕ → ℕ → ℕ → ℕ × ℕ
div_with_reminder dividend divisor remainder =
    let dividend' = bit_or dividend (remainder * 2 ^ 32) in
    (dividend' / divisor, dividend' % divisor % 2 ^ 32)

-- The four divisions of `div128_32`, on the entries 3 to 0 of `dividend_dwords`.
div_dwords : ℕ → ℕ → ℕ → ℕ → ℕ → Wide × ℕ
div_dwords dword3 dword2 dword1 dword0 divisor =
    let (q3, r3) = div_with_reminder dword3 divisor 0 in
    let (q2, r2) = div_with_reminder dword2 divisor r3 in
    let (q1, r1) = div_with_reminder dword1 divisor r2 in
    let (q0, r0) = div_with_reminder dword0 divisor r1 in
    (record { hi = bit_or (q3 * 2 ^ 32 % 2 ^ 64) q2; lo = bit_or (q1 * 2 ^ 32 % 2 ^ 64) q0 }, r0)

-- Long division with base 2^32: the quotient and the remainder.
pub div128_32 : Wide → ℕ → Wide × ℕ
unfolding div_dwords
div128_32 dividend divisor =
    div_dwords (hi_dword dividend.hi) (lo_dword dividend.hi) (hi_dword dividend.lo)
      (lo_dword dividend.lo) divisor
