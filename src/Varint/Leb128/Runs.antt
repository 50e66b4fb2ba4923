-- ===== src/Varint/Leb128/Runs.antt =====
-- Runs of the templates of common/Varint.hpp, and the theorems at concrete inputs.
use cryo_nero.Prelude.{◌≡◌, refl, arith, [], ◌∷◌, ◌++◌, length}
use cryo_nero.Prelude.Results.{ok, err}
use cryo_nero.Varint.Leb128.{write_varint, read_varint, overflow, non_canonical}
use cryo_nero.Varint.Leb128.Reader.{read_varint-write_varint, write_varint-read_varint}

write_300 : write_varint 300 ≡ 0xac ∷ 0x02 ∷ []
unfolding write_varint
write_300 = refl

read_300 : read_varint 64 (0xac ∷ 0x02 ∷ 7 ∷ []) ≡ ok (2, 300, 7 ∷ [])
unfolding read_varint
read_300 = refl

read_padded : read_varint 64 (0x80 ∷ 0x00 ∷ 7 ∷ []) ≡ err non_canonical
unfolding read_varint
read_padded = refl

read_narrow : read_varint 8 (0xff ∷ 0x02 ∷ []) ≡ err overflow
unfolding read_varint
read_narrow = refl

-- An input that ends inside a number is accepted, with what has been read.
read_truncated : read_varint 64 (0xac ∷ []) ≡ ok (1, 44, [])
unfolding read_varint
read_truncated = refl

read_varint-write_varint_example :
    read_varint 32 (write_varint 300 ++ (7 ∷ [])) ≡ ok (length (write_varint 300), 300, 7 ∷ [])
read_varint-write_varint_example = read_varint-write_varint 32 300 (7 ∷ []) (omega arith)

write_varint-read_varint_example : (0xac ∷ 0x02 ∷ 7 ∷ []) ≡ write_varint 300 ++ (7 ∷ [])
write_varint-read_varint_example =
    write_varint-read_varint 64 2 300 7 (0xac ∷ 0x02 ∷ 7 ∷ []) [] (omega arith) read_300
