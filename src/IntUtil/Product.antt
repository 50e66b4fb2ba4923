-- ===== src/IntUtil/Product.antt =====
-- The two branches of `mul128` of crypto/int-util.h agree.
use cryo_nero.Prelude.{◌<◌, ◌/◌, ◌%◌, ℕ, ◌+◌, ◌*◌, ◌^◌, ◌≤◌, ◌≡◌, arith}
use cryo_nero.IntUtil.{
  Wide, mul128, mul128_portable, hi_dword, lo_dword, IsU32, wide_value, mul128_of_dwords,
}

dword_product : (a b : ℕ) → IsU32 a → IsU32 b → a * b ≤ 0xffff_fffe_0000_0001
dword_product a b ha hb = omega (
  arith,
  le_product a 0xffff_ffff b (omega arith),
  le_product b 0xffff_ffff 0xffff_ffff (omega arith),
)
  where
    le_product : (x y z : ℕ) → x ≤ y → x * z ≤ y * z
    le_product x y z h = grind arith

mul128_of_dwords_value :
    (a b c d : ℕ)
    → IsU32 a
    → IsU32 b
    → IsU32 c
    → IsU32 d
    → wide_value (mul128_of_dwords a b c d) ≡ (a * 2 ^ 32 + b) * (c * 2 ^ 32 + d)
unfolding mul128_of_dwords
mul128_of_dwords_value a b c d ha hb hc hd =
    ground (arith, dword_product a c, dword_product a d, dword_product b c, dword_product b d)

mul128_of_dwords-lo : (a b c d : ℕ) → (mul128_of_dwords a b c d).lo < 2 ^ 64
unfolding mul128_of_dwords
mul128_of_dwords-lo a b c d = omega arith

Wide_eq :
    (w : Wide) (n : ℕ)
    → wide_value w ≡ n
    → w.lo < 2 ^ 64
    → w ≡ record { hi = n / 2 ^ 64; lo = n % 2 ^ 64 }
Wide_eq w n e h = ground arith

joined : (x : ℕ) → hi_dword x * 2 ^ 32 + lo_dword x ≡ x
joined x = omega arith

-- On words of 64 bits the branch for other compilers computes the product that the instruction
-- computes, in two words.
pub mul128_portable-mul128 : (x y : ℕ) → x < 2 ^ 64 → y < 2 ^ 64 → mul128_portable x y ≡ mul128 x y
unfolding mul128_portable
mul128_portable-mul128 x y hx hy =
    Wide_eq (mul128_portable x y) (x * y)
      (omega (
        arith,
        mul128_of_dwords_value (hi_dword x) (lo_dword x) (hi_dword y) (lo_dword y) (omega arith)
            (omega arith) (omega arith) (omega arith),
        same_product,
      ))
      (mul128_of_dwords-lo (hi_dword x) (lo_dword x) (hi_dword y) (lo_dword y))
  where
    same_product : (hi_dword x * 2 ^ 32 + lo_dword x) * (hi_dword y * 2 ^ 32 + lo_dword y) ≡ x * y
    same_product = cc (joined x, joined y)
