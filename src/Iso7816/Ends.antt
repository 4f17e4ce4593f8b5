-- ===== src/Iso7816/Ends.antt =====
-- The readers of ber_tlv.go and the fuel of the model.
use go_skes.Prelude.{
  ℕ, zero, suc, ◌≢◌, ◌^◌, ◌*◌, ◌%◌, [], ◌∷◌, arith, bit_or, bit_and, Bytes, stuck, >>=-ne-stuck,
}
use go_skes.Iso7816.Tag.{Error, is_constructed, first, tag_bytes}
use go_skes.Iso7816.Tlv.{
  decode_tag, decode_tag_long, length_loop, decode_length, split_at, decode_value, decode_tlv,
  decode_compact_tlv,
}

decode_tag_long-ne-stuck : (b0 b1 : ℕ) (b : Bytes) → decode_tag_long b0 b1 b ≢ stuck
unfolding decode_tag_long
decode_tag_long-ne-stuck b0 b1 [] e = cc
decode_tag_long-ne-stuck b0 b1 (b2 ∷ b) e = cc

decode_tag-ne-stuck : (b : Bytes) → decode_tag b ≢ stuck
unfolding decode_tag
decode_tag-ne-stuck [] e = cc
decode_tag-ne-stuck (b0 ∷ []) e = ground arith
decode_tag-ne-stuck (b0 ∷ b1 ∷ b) e = ground (arith, decode_tag_long-ne-stuck b0 b1 b)

length_loop-ne-stuck : (n : ℕ) (b : Bytes) (l : ℕ) → length_loop n b l ≢ stuck
unfolding length_loop
length_loop-ne-stuck zero b l e = cc
length_loop-ne-stuck (suc n) [] l e = cc
length_loop-ne-stuck (suc n) (x ∷ b) l e =
    length_loop-ne-stuck n b (bit_or (l * 2 ^ 8 % 2 ^ 64) x) e

decode_length-ne-stuck : (b : Bytes) → decode_length b ≢ stuck
unfolding decode_length
decode_length-ne-stuck [] e = cc
decode_length-ne-stuck (b0 ∷ b) e = ground (arith, length_loop-ne-stuck (bit_and b0 0x7f) b 0)

split_at-ne-stuck : (l : ℕ) (b : Bytes) → split_at l b ≢ stuck
unfolding split_at
split_at-ne-stuck l b e = ground arith

decode_value-ne-stuck : (t : ℕ) (b : Bytes) → decode_value t b ≢ stuck
unfolding decode_value
decode_value-ne-stuck t b =
    >>=-ne-stuck (decode_length b) _ (decode_length-ne-stuck b)
      λ (l, b'). >>=-ne-stuck (split_at l b') _ (split_at-ne-stuck l b') λ w e. cc

pub decode_tlv-ne-stuck : (b : Bytes) → decode_tlv b ≢ stuck
unfolding decode_tlv
decode_tlv-ne-stuck b =
    >>=-ne-stuck (decode_tag b) _ (decode_tag-ne-stuck b)
      λ (t, b') e. ground (arith, decode_value-ne-stuck t b')

pub is_constructed-ne-stuck : (t : ℕ) → is_constructed t ≢ stuck
unfolding is_constructed
is_constructed-ne-stuck t =
    >>=-ne-stuck (first (tag_bytes t)) _ (first-ne-stuck (tag_bytes t)) λ b e. cc
  where
    first-ne-stuck : (b : Bytes) → first {E = Error} b ≢ stuck
    first-ne-stuck [] e = cc
    first-ne-stuck (x ∷ b) e = cc

pub decode_compact_tlv-ne-stuck : (b : Bytes) → decode_compact_tlv b ≢ stuck
unfolding decode_compact_tlv
decode_compact_tlv-ne-stuck [] e = cc
decode_compact_tlv-ne-stuck (b0 ∷ b) e = ground arith
