-- ===== src/Iso7816/Tlv.antt =====
-- internal/iso7816/ber_tlv.go: reading and writing tag-length-value objects.
-- Every `b[i]` and `b[i:]` of the source is a match here: it panics where the slice is too short.
use go_skes.Prelude.{
  ℕ, zero, suc, ◌+◌, ◌*◌, ◌/◌, ◌%◌, ◌^◌, ◌-◌, not, ◌&&◌, ◌||◌, [], ◌∷◌, ◌++◌, bit_and, bit_or, ltb,
  leb, ◌==◌, if◌then◌else◌, length, take, drop, Bytes, Outcome, ok, err, panic, ◌>>=◌,
}
use go_skes.Iso7816.Tag.{Error, invalid_tag, invalid_length, tag_invalid, tag_bytes}

unfoldable pub encode_tlv : ℕ → Bytes → Outcome Error Bytes
encode_tlv t content =
    if ltb 0x7f (length content)
    then panic
    else ok (tag_bytes t ++ ((length content % 256) ∷ content))

-- The third case of the switch: `b[0]` also stands in the place of the last byte.
-- A uint32 holds 24 bits, so that no shift loses a bit.
unfoldable pub decode_tag_long : ℕ → ℕ → Bytes → Outcome Error (ℕ × Bytes)
decode_tag_long b0 b1 [] = panic
decode_tag_long b0 b1 (b2 ∷ rest) = ok (bit_or (bit_or (b0 * 2 ^ 16) (b1 * 2 ^ 8)) b0, rest)

-- The cases that look at `b[1]`. The zero tag comes with a nil slice.
unfoldable pub decode_tag_more : ℕ → Bytes → Outcome Error (ℕ × Bytes)
unfolding decode_tag_long
decode_tag_more b0 [] = panic
decode_tag_more b0 (b1 ∷ rest) =
    if bit_and b1 0x80 == 0 && ltb 30 (bit_and b1 0x7f)
    then ok (bit_or (b0 * 2 ^ 8) b1, rest)
    else if bit_and b1 0x80 == 0x80 && not (bit_and b1 0x7f == 0)
    then decode_tag_long b0 b1 rest
    else ok (tag_invalid, [])

unfoldable pub decode_tag : Bytes → Outcome Error (ℕ × Bytes)
unfolding decode_tag_more
decode_tag [] = panic
decode_tag (b0 ∷ rest) =
    if not (bit_and b0 0x1f == 0x1f) then ok (b0, rest) else decode_tag_more b0 rest

-- The `for` of the long form, over the bytes that it reads. `l` is an int of 64 bits, kept as its
-- bit pattern: a pattern from 2 ^ 63 on is a negative length.
unfoldable pub length_loop : ℕ → Bytes → ℕ → Outcome Error (ℕ × Bytes)
length_loop zero b l = ok (l, b)
length_loop (suc n) [] l = panic
length_loop (suc n) (x ∷ b) l = length_loop n b (bit_or (l * 2 ^ 8 % 2 ^ 64) x)

unfoldable pub decode_length : Bytes → Outcome Error (ℕ × Bytes)
decode_length [] = panic
decode_length (b0 ∷ rest) =
    if leb b0 0x7f
    then ok (b0, rest)
    else if ltb (length rest + 1) (bit_and b0 0x7f + 1)
    then err invalid_length
    else length_loop (bit_and b0 0x7f) rest 0

-- `b[:l], b[l:]`: the second panics if `l` is negative or beyond the length, which is below 2 ^ 63.
unfoldable pub split_at : ℕ → Bytes → Outcome Error (Bytes × Bytes)
split_at l b = if ltb (length b) l then panic else ok (take l b, drop l b)

-- The end of DecodeTLV, for a tag that was read.
unfoldable pub decode_value : ℕ → Bytes → Outcome Error (ℕ × Bytes × Bytes)
unfolding split_at
decode_value t b = do (l, b') ← decode_length b; (v, c) ← split_at l b'; ok (t, v, c)

unfoldable pub decode_tlv : Bytes → Outcome Error (ℕ × Bytes × Bytes)
decode_tlv b = do
  (t, b') ← decode_tag b
  if t == tag_invalid then err invalid_tag else decode_value t b'

-- `s[lo:hi]` of a slice whose capacity is its length.
unfoldable pub slice : Bytes → ℕ → ℕ → Outcome Error Bytes
slice s lo hi = if ltb (length s) hi || ltb hi lo then panic else ok (take (hi - lo) (drop lo s))

-- The source slices its result `v`, which is still nil, in place of its argument.
unfoldable pub decode_compact_tlv : Bytes → Outcome Error (ℕ × Bytes × Bytes)
unfolding slice
decode_compact_tlv [] = err invalid_length
decode_compact_tlv (b0 ∷ rest) = do
  let l = bit_and b0 0xf
  v ← slice [] 1 (1 + l)
  c ← slice [] (1 + l) 0
  ok (b0 / 2 ^ 4, v, c)
