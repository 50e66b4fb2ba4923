-- ===== src/Varint/Sqlite4.antt =====
-- common/Varint.cpp: the integers that make up the keys of the database, 1 to 9 bytes each.
-- A byte buffer is a list of numbers below 256.
pub mod BigEndian
pub mod Ranges
pub mod RoundTrip
pub mod KeyOrder
mod Runs
use Prim.Native.Nat.{bit_or}
use mathlib.Core.List.{foldl}
use cryo_nero.Prelude.{
  ℕ, zero, suc, ◌+◌, ◌-◌, ◌*◌, ◌/◌, ◌%◌, ◌^◌, ◌<◌, List, [], ◌∷◌, ltb, leb, ◌==◌, if◌then◌else◌,
  length, take, drop, get_or,
}
use cryo_nero.Prelude.Results.{Result, ok, err, ◌>>=◌}

abbrev pub IsU64 : ℕ → Type 0
IsU64 v = v < 2 ^ 64

-- `result <<= 8; result |= buf[i];` over the buffer
abbrev pub shift_in : ℕ → ℕ → ℕ
shift_in result b = bit_or (result * 2 ^ 8 % 2 ^ 64) b

pub uint_be_from_bytes : List ℕ → ℕ
uint_be_from_bytes buf = foldl shift_in 0 buf

-- The loop fills the buffer from its end: `out` is what stands behind position i.
pub uint_be_to_bytes : ℕ → ℕ → List ℕ → List ℕ
uint_be_to_bytes zero val out = out
uint_be_to_bytes (suc i) val out = uint_be_to_bytes i (val / 2 ^ 8) ((val % 256) ∷ out)

pub get_varint_sqlite4_size : ℕ → ℕ
get_varint_sqlite4_size val =
    if leb val 240
    then 1
    else if leb val 2287
    then 2
    else if leb val 67823
    then 3
    else if leb val 16777215
    then 4
    else if leb val 4294967295
    then 5
    else if leb val 1099511627775
    then 6
    else if leb val 281474976710655
    then 7
    else if leb val 72057594037927935
    then 8
    else 9

-- The two texts of the `runtime_error`s.
pub data ReadError : Type 0 where
  end_of_read excess_symbols : ReadError

-- `read` copies `len` bytes and moves `begin`, or throws.
unfoldable pub read : ℕ → List ℕ → Result ReadError (List ℕ × List ℕ)
read len bytes =
    if ltb (length bytes) len then err end_of_read else ok (take len bytes, drop len bytes)

-- Returns the number and what is left between `begin` and `end`.
pub read_varint_sqlite4 : List ℕ → Result ReadError (ℕ × List ℕ)
read_varint_sqlite4 bytes = do
  (first, rest) ← read 1 bytes
  let a0 = get_or first 0 0
  if leb a0 240
      then ok (a0, rest)
      else if leb a0 248
      then (do (next, rest') ← read 1 rest; ok (240 + 256 * (a0 - 241) + get_or next 0 0, rest'))
      else if a0 == 249
      then (do (buf, rest') ← read 2 rest; ok (2288 + 256 * get_or buf 0 0 + get_or buf 1 0, rest'))
      else (do (buf, rest') ← read (3 + a0 - 250) rest; ok (uint_be_from_bytes buf, rest'))

-- The overload that reads a whole string.
pub read_varint_sqlite4_string : List ℕ → Result ReadError ℕ
unfolding read_varint_sqlite4
read_varint_sqlite4_string str = do
  (val, rest) ← read_varint_sqlite4 str
  if length rest == 0 then ok val else err excess_symbols

pub write_varint_sqlite4 : ℕ → List ℕ
write_varint_sqlite4 val =
    if leb val 240
    then (val % 256) ∷ []
    else if leb val 2287
    then ((val - 240) / 256 + 241) % 256 ∷ (val - 240) % 256 ∷ []
    else if leb val 67823
    then 249 ∷ (val - 2288) / 256 % 256 ∷ (val - 2288) % 256 ∷ []
    else if leb val 16777215
    then 250 ∷ uint_be_to_bytes 3 val []
    else if leb val 4294967295
    then 251 ∷ uint_be_to_bytes 4 val []
    else if leb val 1099511627775
    then 252 ∷ uint_be_to_bytes 5 val []
    else if leb val 281474976710655
    then 253 ∷ uint_be_to_bytes 6 val []
    else if leb val 72057594037927935
    then 254 ∷ uint_be_to_bytes 7 val []
    else 255 ∷ uint_be_to_bytes 8 val []
