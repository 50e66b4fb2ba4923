-- ===== src/Varint/Leb128/Writer.antt =====
-- What `write_varint` of common/Varint.hpp writes.
use Prim.Native.Nat.{bit_and, bit_or}
use cryo_nero.Prelude.{
  ℕ, zero, suc, ◌+◌, ◌/◌, ◌%◌, ◌^◌, ◌<◌, ◌≡◌, ap, ◌∙◌, arith, [], ◌∷◌, leb, if◌then◌else◌,
}
use cryo_nero.Prelude.Bits.{low_seven, with_top_bit}
use cryo_nero.Varint.Leb128.{write_varint_loop, write_varint}

pub inner_group : (i : ℕ) → bit_or (bit_and (i % 256) 0x7f) 0x80 ≡ i % 128 + 128
inner_group i =
    ap (λ (t : ℕ). bit_or t 0x80) (low_seven (i % 256) (omega arith))
    ∙ with_top_bit (i % 256 % 128) (omega arith)
    ∙ omega arith

write_varint_loop-spare :
    (f g i : ℕ) → i < f → i < g → write_varint_loop f i ≡ write_varint_loop g i
unfolding write_varint_loop
write_varint_loop-spare zero g i p q = absurd (omega arith)
write_varint_loop-spare (suc f) zero i p q = absurd (omega arith)
write_varint_loop-spare (suc f) (suc g) i p q =
    ground (arith, write_varint_loop-spare f g (i / 2 ^ 7))

-- The loop of the source, unrolled once.
pub write_varint_lem :
    (i : ℕ)
    → write_varint i ≡ (if leb 0x80 i then (i % 128 + 128) ∷ write_varint (i / 128) else i ∷ [])
unfolding write_varint
write_varint_lem i =
    ground (arith, inner_group i, write_varint_loop-spare i (suc (i / 2 ^ 7)) (i / 2 ^ 7))
