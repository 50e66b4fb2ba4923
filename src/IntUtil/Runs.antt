-- ===== src/IntUtil/Runs.antt =====
-- Runs of crypto/int-util.h, and the theorems at concrete inputs.
use cryo_nero.Prelude.{◌≡◌, ◌^◌, ◌/◌, ◌%◌, ◌-◌, refl, arith}
use cryo_nero.IntUtil.{mul128, mul128_portable, div128_32, wide_value, Wide}
use cryo_nero.IntUtil.Product.{mul128_portable-mul128}
use cryo_nero.IntUtil.Quotient.{div128_32-div_mod}

portable_run : mul128_portable (2 ^ 64 - 1) (2 ^ 64 - 1) ≡ record { hi = 2 ^ 64 - 2; lo = 1 }
unfolding mul128_portable
portable_run = refl

mul128_portable-mul128_example :
    mul128_portable 0x1_0000_0001 0xffff_ffff_ffff ≡ mul128 0x1_0000_0001 0xffff_ffff_ffff
mul128_portable-mul128_example =
    mul128_portable-mul128 0x1_0000_0001 0xffff_ffff_ffff (omega arith) (omega arith)

abbrev ten_words : Wide
ten_words = record { hi = 10; lo = 7 }

div128_32-div_mod_example :
    (wide_value (div128_32 ten_words 3).0 ≡ wide_value ten_words / 3)
    × ((div128_32 ten_words 3).1 ≡ wide_value ten_words % 3)
div128_32-div_mod_example =
    div128_32-div_mod ten_words 3 (omega arith) (omega arith) (omega arith) (omega arith)
