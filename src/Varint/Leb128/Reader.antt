-- ===== src/Varint/Leb128/Reader.antt =====
-- `read_varint` of common/Varint.hpp against `write_varint`.
use Prim.Native.Nat.{bit_and, bit_or}
use cryo_nero.Prelude.{
  ℕ, zero, suc, ◌+◌, ◌-◌, ◌*◌, ◌/◌, ◌%◌, ◌^◌, ◌≤◌, ◌<◌, ◌≡◌, ap, ◌∙◌, arith, List, [], ◌∷◌, leb,
  All, length, Bool-cases, inl, inr, leb→le, refl, ◌++◌, false,
}
use native.Mathlib.Nat.{mod-eq_of_lt, div-add-mod}
use native.Mathlib.Decide.{dec_lt}
use cryo_nero.Prelude.Bits.{low_seven, top_bit, bit_or_low_high}
use cryo_nero.Prelude.Powers.{two_pow_pos, two_pow_sum, two_pow_mono}
use cryo_nero.Prelude.Results.{ok}
use cryo_nero.Varint.Leb128.{IsByte, write_varint, read_varint, read_varint_loop, add_group}
use cryo_nero.Varint.Leb128.Writer.{write_varint_lem}

add_group_lem :
    (bits shift i byte g : ℕ)
    → byte < 256
    → g ≡ byte % 128
    → i < 2 ^ shift
    → g * 2 ^ shift < 2 ^ bits
    → add_group bits i byte shift ≡ i + g * 2 ^ shift
add_group_lem bits shift i byte g hb hg hi fits =
    ap (λ (t : ℕ). bit_or i t) small ∙ bit_or_low_high shift g i hi
  where
    group : bit_and byte 0x7f ≡ g
    group = omega (arith, low_seven byte hb)

    small : bit_and byte 0x7f * 2 ^ shift % 2 ^ bits ≡ g * 2 ^ shift
    small = rw group (mod-eq_of_lt fits)

mul_lt : (g p s : ℕ) → g < p → 0 < s → g * s < p * s
mul_lt g p s h k = grind arith

mul_le : (p g s : ℕ) → p ≤ g → p * s ≤ g * s
mul_le p g s h = grind arith

-- The overflow test: a group passes exactly if its value fits the type.
overflow_test :
    (bits shift g : ℕ)
    → shift ≤ bits
    → g * 2 ^ shift < 2 ^ bits
    → leb (2 ^ (bits - shift)) g ≡ false
overflow_test bits shift g h fits = ground (
  arith,
  two_pow_sum (bits - shift) shift bits (omega arith),
  mul_le (2 ^ (bits - shift)) g (2 ^ shift),
)

overflow_test_passed :
    (bits shift g : ℕ) → shift ≤ bits → g < 2 ^ (bits - shift) → g * 2 ^ shift < 2 ^ bits
overflow_test_passed bits shift g h lt = omega (
  arith,
  two_pow_sum (bits - shift) shift bits (omega arith),
  mul_lt g (2 ^ (bits - shift)) (2 ^ shift) lt (two_pow_pos shift),
)

shift_seven : (shift : ℕ) → 2 ^ (shift + 7) ≡ 128 * 2 ^ shift
shift_seven shift = omega (arith, two_pow_sum shift 7 (shift + 7) refl)

wide_enough : (bits shift : ℕ) → shift + 7 ≤ bits → 128 * 2 ^ shift ≤ 2 ^ bits
wide_enough bits shift h = omega (arith, shift_seven shift, two_pow_mono (shift + 7) bits h)

-- A value of more than one group leaves room for the next one.
room : (bits shift w : ℕ) → 128 ≤ w → w * 2 ^ shift < 2 ^ bits → shift + 7 < bits
room bits shift w h fits = elim (dec_lt (shift + 7) bits) [
  | yes p ↦ p
  | no p ↦ absurd (
      omega (
        arith,
        shift_seven shift,
        mul_le 128 w (2 ^ shift) h,
        two_pow_mono bits (shift + 7) (omega arith),
      ))
]

last_group :
    (bits shift count i w : ℕ) (rest : List ℕ)
    → shift ≤ bits
    → w < 128
    → (0 < shift → 0 < w)
    → i < 2 ^ shift
    → w * 2 ^ shift < 2 ^ bits
    → read_varint_loop bits (w ∷ rest) shift count i ≡ ok (count + 1, i + w * 2 ^ shift, rest)
unfolding read_varint_loop
last_group bits shift count i w rest hs hw canonical hi fits = ground (
  arith,
  overflow_test bits shift w hs fits,
  top_bit w,
  add_group_lem bits shift i w w (omega arith) (omega arith) hi fits,
)

inner_byte :
    (bits shift count i g : ℕ) (rest : List ℕ)
    → shift + 7 < bits
    → g < 128
    → i < 2 ^ shift
    → read_varint_loop bits ((g + 128) ∷ rest) shift count i
      ≡ read_varint_loop bits rest (shift + 7) (count + 1) (i + g * 2 ^ shift)
unfolding read_varint_loop
inner_byte bits shift count i g rest hs hg hi = ground (
  arith,
  top_bit (g + 128),
  add_group_lem bits shift i (g + 128) g (omega arith) (omega arith) hi fits,
)
  where
    fits : g * 2 ^ shift < 2 ^ bits
    fits = omega (
      arith,
      wide_enough bits shift (omega arith),
      mul_lt g 128 (2 ^ shift) hg (two_pow_pos shift),
    )

split_group : (w shift : ℕ) → w * 2 ^ shift ≡ w % 128 * 2 ^ shift + w / 128 * 2 ^ (shift + 7)
split_group w shift = omega (
  arith,
  ap (λ (t : ℕ). t * 2 ^ shift) (div-add-mod w 128),
  ap (λ (t : ℕ). w / 128 * t) (shift_seven shift),
)

read_loop-write :
    (f bits w shift count i : ℕ) (rest : List ℕ)
    → w < f
    → shift ≤ bits
    → (0 < shift → 0 < w)
    → i < 2 ^ shift
    → w * 2 ^ shift < 2 ^ bits
    → read_varint_loop bits (write_varint w ++ rest) shift count i
      ≡ ok (count + length (write_varint w), i + w * 2 ^ shift, rest)
read_loop-write zero bits w shift count i rest hf hs canonical hi fits = absurd (omega arith)
read_loop-write (suc f) bits w shift count i rest hf hs canonical hi fits =
    elim (Bool-cases (leb 0x80 w)) [
      | inl more ↦
          let big : 128 ≤ w = leb→le _ _ more in
          let wide : shift + 7 < bits = room bits shift w big fits in
          let part : w % 128 * 2 ^ shift ≤ 127 * 2 ^ shift =
            mul_le (w % 128) 127 (2 ^ shift) (omega arith) in
          rw (write_varint_lem w, more)
            (ground (
              arith,
              split_group w shift,
              shift_seven shift,
              inner_byte bits shift count i (w % 128) (write_varint (w / 128) ++ rest) wide
                  (omega arith) hi,
              read_loop-write f bits (w / 128) (shift + 7) (count + 1) (i + w % 128 * 2 ^ shift)
                  rest (omega arith) (omega arith) (omega arith) (omega (arith, shift_seven shift))
                  (omega (arith, split_group w shift)),
            ))
      | inr done ↦
          rw (write_varint_lem w, done)
            (last_group bits shift count i w rest hs (ground arith) canonical hi fits)
    ]

-- For a value of `bits` bits, whatever follows: the reader for that many bits returns the value
-- that was written with the count of its bytes, and stops behind it.
pub read_varint-write_varint :
    (bits v : ℕ) (rest : List ℕ)
    → v < 2 ^ bits
    → read_varint bits (write_varint v ++ rest) ≡ ok (length (write_varint v), v, rest)
unfolding read_varint
read_varint-write_varint bits v rest h = ground (
  arith,
  read_loop-write (suc v) bits v 0 0 0 rest (omega arith) (omega arith) (omega arith) (omega arith)
      (omega arith),
)

-- One round of the loop that does not fail, on a last byte and on any other.
accepted_last :
    (bits shift count i n v byte : ℕ) (bytes rest : List ℕ)
    → byte < 128
    → shift ≤ bits
    → i < 2 ^ shift
    → read_varint_loop bits (byte ∷ bytes) shift count i ≡ ok (n, v, rest)
    → (0 < shift → 0 < byte)
      × (byte * 2 ^ shift < 2 ^ bits)
      × (v ≡ i + byte * 2 ^ shift)
      × (rest ≡ bytes)
unfolding read_varint_loop
accepted_last bits shift count i n v byte bytes rest hb hs hi e =
    (ground arith, fits, ground (arith, group, top_bit byte), ground (arith, top_bit byte))
  where
    fits : byte * 2 ^ shift < 2 ^ bits
    fits = ground (
      arith,
      overflow_test_passed bits shift byte hs,
      wide_enough bits shift,
      mul_lt byte 128 (2 ^ shift) hb (two_pow_pos shift),
    )

    group : add_group bits i byte shift ≡ i + byte * 2 ^ shift
    group = add_group_lem bits shift i byte byte (omega arith) (omega arith) hi fits

accepted_inner :
    (bits shift count i n v byte : ℕ) (bytes rest : List ℕ)
    → 128 ≤ byte
    → byte < 256
    → shift ≤ bits
    → i < 2 ^ shift
    → read_varint_loop bits (byte ∷ bytes) shift count i ≡ ok (n, v, rest)
    → (shift + 7 < bits)
      × (read_varint_loop bits bytes (shift + 7) (count + 1) (i + byte % 128 * 2 ^ shift)
          ≡ ok (n, v, rest))
unfolding read_varint_loop
accepted_inner bits shift count i n v byte bytes rest lo hb hs hi e = (
  wide,
  ground (
    arith,
    group,
    top_bit byte,
    ap (λ (t : ℕ). read_varint_loop bits bytes (shift + 7) (count + 1) t) group,
  ),
)
  where
    wide : shift + 7 < bits
    wide = ground (arith, two_pow_mono (bits - shift) 7)

    group : add_group bits i byte shift ≡ i + byte % 128 * 2 ^ shift
    group = add_group_lem bits shift i byte (byte % 128) hb refl hi (
        omega (
          arith,
          wide_enough bits shift (omega (arith, wide)),
          mul_lt (byte % 128) 128 (2 ^ shift) (omega arith) (two_pow_pos shift),
        ))

write_varint_more :
    (g w : ℕ) → g < 128 → 0 < w → write_varint (g + w * 128) ≡ (g + 128) ∷ write_varint w
write_varint_more g w hg hw = rw (write_varint_lem (g + w * 128)) (ground (arith, low, high))
  where
    low : (g + w * 128) % 128 ≡ g
    low = omega arith

    high : write_varint ((g + w * 128) / 128) ≡ write_varint w
    high = ap write_varint (omega arith)

-- What the loop has accepted is what the writer writes. A rest behind the number shows that the
-- input did not end inside it.
read_loop-accepted :
    (bytes : List ℕ) (bits shift count i n v x : ℕ) (rest : List ℕ)
    → All IsByte bytes
    → shift ≤ bits
    → i < 2 ^ shift
    → read_varint_loop bits bytes shift count i ≡ ok (n, v, x ∷ rest)
    → (w : ℕ) × (bytes ≡ write_varint w ++ (x ∷ rest))
      × (v ≡ i + w * 2 ^ shift)
      × (0 < shift → 0 < w)
read_loop-accepted [] bits shift count i n v x rest small hs hi e =
    absurd (unfold read_varint_loop in cc)
read_loop-accepted (byte ∷ bytes) bits shift count i n v x rest (hb, hbs) hs hi e =
    elim (dec_lt byte 128) [
      | yes last ↦
          let (canonical, fits, value, same) =
            accepted_last bits shift count i n v byte bytes (x ∷ rest) last hs hi e in
          (byte, rw (write_varint_lem byte, same) (ground arith), value, canonical)
      | no inner ↦
          let (wide, e') =
            accepted_inner bits shift count i n v byte bytes (x ∷ rest) (omega arith) hb hs hi e in
          let (w, written, value, canonical) =
            read_loop-accepted bytes bits (shift + 7) (count + 1) (i + byte % 128 * 2 ^ shift) n v x
              rest hbs (omega arith)
              (omega (arith, shift_seven shift, mul_le (byte % 128) 127 (2 ^ shift) (omega arith)))
              e' in
          (
            byte % 128 + w * 128,
            rw (write_varint_more (byte % 128) w (omega arith) (canonical (omega arith)), ← written)
                (ap (λ (t : ℕ). t ∷ bytes) (omega arith)),
            omega (arith, value, ap (λ (t : ℕ). w * t) (shift_seven shift)),
            omega (arith, canonical),
          )
    ]

-- An input of bytes that is accepted and goes on behind the number begins with the writer's
-- encoding of the value: a number has one encoding only.
pub write_varint-read_varint :
    (bits n v x : ℕ) (bytes rest : List ℕ)
    → All IsByte bytes
    → read_varint bits bytes ≡ ok (n, v, x ∷ rest)
    → bytes ≡ write_varint v ++ (x ∷ rest)
unfolding read_varint
write_varint-read_varint bits n v x bytes rest small e =
    let (w, written, value, canonical) =
      read_loop-accepted bytes bits 0 0 0 n v x rest small (omega arith) (omega arith) e in
    let same : v ≡ w = omega arith in rw same written
