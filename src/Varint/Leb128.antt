-- ===== src/Varint/Leb128.antt =====
-- common/Varint.hpp: unsigned integers in groups of seven bits, lowest group first, as the binary
-- streams and the address codec write them. `bits` is `numeric_limits<T>::digits`.
pub mod Writer
pub mod Reader
mod Runs
use Prim.Native.Nat.{bit_and, bit_or}
use cryo_nero.Prelude.{
  ℕ, zero, suc, ◌+◌, ◌-◌, ◌*◌, ◌/◌, ◌%◌, ◌^◌, ◌<◌, List, [], ◌∷◌, ltb, leb, ◌==◌, not, ◌&&◌,
  if◌then◌else◌,
}
use cryo_nero.Prelude.Results.{Result, ok, err}

abbrev pub IsByte : ℕ → Type 0
IsByte b = b < 256

-- `while (i >= 0x80) { *dest++ = (uint8_t(i) & 0x7f) | 0x80; i >>= 7; } *dest++ = uint8_t(i);`
write_varint_loop : ℕ → ℕ → List ℕ
write_varint_loop zero i = []
write_varint_loop (suc fuel) i =
    let rest = write_varint_loop fuel (i / 2 ^ 7) in
    if leb 0x80 i then bit_or (bit_and (i % 256) 0x7f) 0x80 ∷ rest else (i % 256) ∷ []

-- The value falls at each round, so one round more than the value is enough (`write_varint_lem`).
pub write_varint : ℕ → List ℕ
unfolding write_varint_loop
write_varint i = write_varint_loop (suc i) i

-- The results -1 and -2.
pub data VarintError : Type 0 where
  overflow non_canonical : VarintError

-- `i |= static_cast<T>(byte & 0x7f) << shift;`
abbrev pub add_group : ℕ → ℕ → ℕ → ℕ → ℕ
add_group bits i byte shift = bit_or i (bit_and byte 0x7f * 2 ^ shift % 2 ^ bits)

-- The number of bytes read, the value, and the input that is left. An input that ends inside a
-- number is no error: the code returns what it has read.
read_varint_loop : ℕ → List ℕ → ℕ → ℕ → ℕ → Result VarintError (ℕ × ℕ × List ℕ)
read_varint_loop bits [] shift count i = ok (count, i, [])
read_varint_loop bits (byte ∷ rest) shift count i =
    let i' = add_group bits i byte shift in
    let more = read_varint_loop bits rest (shift + 7) (count + 1) i' in
    if leb bits (shift + 7) && leb (2 ^ (bits - shift)) byte
    then err overflow
    else if byte == 0 && not (shift == 0)
    then err non_canonical
    else if bit_and byte 0x80 == 0
    then ok (count + 1, i', rest)
    else more

pub read_varint : ℕ → List ℕ → Result VarintError (ℕ × ℕ × List ℕ)
unfolding read_varint_loop
read_varint bits bytes = read_varint_loop bits bytes 0 0 0
