-- ===== src/Varint/Sqlite4/RoundTrip.antt =====
-- The reader of common/Varint.cpp against its writer and its size function.
use cryo_nero.Prelude.{
  ℕ, ◌+◌, ◌-◌, ◌*◌, ◌≤◌, ◌<◌, ◌^◌, ◌≡◌, refl, ap, ◌∙◌, arith, List, [], ◌∷◌, ◌++◌, length,
}
use cryo_nero.Prelude.Results.{ok}
use cryo_nero.Varint.Sqlite4.{
  IsU64, uint_be_to_bytes, get_varint_sqlite4_size, read, read_varint_sqlite4, write_varint_sqlite4,
}
use cryo_nero.Varint.Sqlite4.Ranges.{Range, one_byte, two_bytes, three_bytes, fixed, range}
use cryo_nero.Varint.Sqlite4.BigEndian.{
  length-uint_be_to_bytes, uint_be_to_bytes-append, uint_be_from_bytes-to_bytes, read-append,
  read-uint_be_to_bytes,
}

-- One case of the reader for each range of the first byte.
read_one : (v : ℕ) (rest : List ℕ) → v ≤ 240 → read_varint_sqlite4 (v ∷ rest) ≡ ok (v, rest)
unfolding read_varint_sqlite4
read_one v rest h = rw (read-append 1 (v ∷ []) rest refl) (ground arith)

read_two :
    (a b : ℕ) (rest : List ℕ)
    → 240 < a
    → a ≤ 248
    → read_varint_sqlite4 (a ∷ b ∷ rest) ≡ ok (240 + 256 * (a - 241) + b, rest)
unfolding read_varint_sqlite4
read_two a b rest lo hi =
    rw (read-append 1 (a ∷ []) (b ∷ rest) refl, read-append 1 (b ∷ []) rest refl) (ground arith)

read_three :
    (b c : ℕ) (rest : List ℕ)
    → read_varint_sqlite4 (249 ∷ b ∷ c ∷ rest) ≡ ok (2288 + 256 * b + c, rest)
unfolding read_varint_sqlite4
read_three b c rest =
    rw (read-append 1 (249 ∷ []) (b ∷ c ∷ rest) refl, read-append 2 (b ∷ c ∷ []) rest refl)

-- `read_fixed a n`: the first byte `a` announces `n` bytes.
read_fixed :
    (a n v : ℕ) (rest : List ℕ)
    → 250 ≤ a
    → 3 + a - 250 ≡ n
    → v < 256 ^ n
    → IsU64 v
    → read_varint_sqlite4 (a ∷ uint_be_to_bytes n v rest) ≡ ok (v, rest)
unfolding read_varint_sqlite4
read_fixed a n v rest lo e hv fits = rw (read-append 1 (a ∷ []) (uint_be_to_bytes n v rest) refl) (
    ground (
      arith,
      e,
      ap (λ (k : ℕ). read k (uint_be_to_bytes n v rest)) e,
      read-uint_be_to_bytes n v rest,
      uint_be_from_bytes-to_bytes n v hv fits,
    ))

read-Range :
    (v : ℕ) (rest : List ℕ)
    → IsU64 v
    → Range v
    → read_varint_sqlite4 (write_varint_sqlite4 v ++ rest) ≡ ok (v, rest)
read-Range v rest h (one_byte hi e) = rw e (read_one v rest hi)
read-Range v rest h (two_bytes lo hi e) =
    rw e
      (read_two _ _ rest (omega arith) (omega arith) ∙ ap (λ (t : ℕ). ok (t, rest)) (omega arith))
read-Range v rest h (three_bytes lo hi e) =
    rw e (read_three _ _ rest ∙ ap (λ (t : ℕ). ok (t, rest)) (omega arith))
read-Range v rest h (fixed n lo hi _ _ below e size) =
    rw (e, uint_be_to_bytes-append)
      (read_fixed (247 + n) n v rest (omega arith) (omega arith) below h)

-- For a number below 2^64, whatever follows: the reader returns the number that was written and
-- stops right behind it.
pub read-write_varint_sqlite4 :
    (v : ℕ) (rest : List ℕ)
    → v < 2 ^ 64
    → read_varint_sqlite4 (write_varint_sqlite4 v ++ rest) ≡ ok (v, rest)
read-write_varint_sqlite4 v rest h = read-Range v rest h (range v h)

length-Range : (v : ℕ) → Range v → length (write_varint_sqlite4 v) ≡ get_varint_sqlite4_size v
unfolding get_varint_sqlite4_size
length-Range v (one_byte hi e) = rw e (ground arith)
length-Range v (two_bytes lo hi e) = rw e (ground arith)
length-Range v (three_bytes lo hi e) = rw e (ground arith)
length-Range v (fixed n lo hi _ _ below e size) =
    rw (e, size) (omega (arith, length-uint_be_to_bytes n v []))

-- For a number below 2^64 the writer writes as many bytes as the size function says.
pub length-write_varint_sqlite4 :
    (v : ℕ) → v < 2 ^ 64 → length (write_varint_sqlite4 v) ≡ get_varint_sqlite4_size v
length-write_varint_sqlite4 v h = length-Range v (range v h)
