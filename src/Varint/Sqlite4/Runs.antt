-- ===== src/Varint/Sqlite4/Runs.antt =====
-- Runs of the functions of common/Varint.cpp, and the theorems at concrete inputs.
use cryo_nero.Prelude.{◌≡◌, refl, arith, true, [], ◌∷◌, ◌++◌, inr, length}
use cryo_nero.Prelude.Results.{ok, err}
use cryo_nero.Varint.Sqlite4.{
  get_varint_sqlite4_size, read, read_varint_sqlite4, read_varint_sqlite4_string,
  write_varint_sqlite4, uint_be_to_bytes, end_of_read, excess_symbols,
}
use cryo_nero.Varint.Sqlite4.RoundTrip.{read-write_varint_sqlite4, length-write_varint_sqlite4}
use cryo_nero.Varint.Sqlite4.KeyOrder.{lex_ltb, lex_ltb-write_varint_sqlite4, lex_ltb-two_varints}

write_2287 : write_varint_sqlite4 2287 ≡ 248 ∷ 255 ∷ []
unfolding write_varint_sqlite4
write_2287 = refl

write_2288 : write_varint_sqlite4 2288 ≡ 249 ∷ 0 ∷ 0 ∷ []
unfolding write_varint_sqlite4
write_2288 = refl

write_wide : write_varint_sqlite4 0x123456 ≡ 250 ∷ 0x12 ∷ 0x34 ∷ 0x56 ∷ []
unfolding write_varint_sqlite4 uint_be_to_bytes
write_wide = refl

read_short : read_varint_sqlite4 (250 ∷ 1 ∷ 2 ∷ []) ≡ err end_of_read
unfolding read_varint_sqlite4 read
read_short = refl

read_excess : read_varint_sqlite4_string (7 ∷ 8 ∷ []) ≡ err excess_symbols
unfolding read_varint_sqlite4_string read
read_excess = refl

read-write_varint_sqlite4_example :
    read_varint_sqlite4 (write_varint_sqlite4 70000 ++ (9 ∷ [])) ≡ ok (70000, 9 ∷ [])
read-write_varint_sqlite4_example = read-write_varint_sqlite4 70000 (9 ∷ []) (omega arith)

length-write_varint_sqlite4_example :
    length (write_varint_sqlite4 70000) ≡ get_varint_sqlite4_size 70000
length-write_varint_sqlite4_example = length-write_varint_sqlite4 70000 (omega arith)

lex_ltb-write_varint_sqlite4_example :
    lex_ltb (write_varint_sqlite4 240 ++ (9 ∷ [])) (write_varint_sqlite4 70000 ++ []) ≡ true
lex_ltb-write_varint_sqlite4_example =
    lex_ltb-write_varint_sqlite4 240 70000 (9 ∷ []) [] (omega arith) (omega arith)

lex_ltb-two_varints_example :
    lex_ltb
      ((84 ∷ []) ++ (write_varint_sqlite4 1000 ++ write_varint_sqlite4 7))
      ((84 ∷ []) ++ (write_varint_sqlite4 1000 ++ write_varint_sqlite4 300))
    ≡ true
lex_ltb-two_varints_example =
    lex_ltb-two_varints (84 ∷ []) 1000 7 1000 300 (inr (refl, omega arith)) (omega arith)
      (omega arith)
