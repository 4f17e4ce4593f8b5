-- ===== src/Iso7816/Truncation.antt =====
-- The readers of ber_tlv.go on objects that are cut off, on tags of three bytes, and on compact
-- objects.
use go_skes.Prelude.{
  ℕ, ◌/◌, ◌%◌, ◌<◌, ◌^◌, ◌≡◌, ◌≢◌, ◌↔◌, ◌⊎◌, inl, inr, refl, [], ◌∷◌, ◌++◌, arith, ap, length,
  length-append, Bytes, ok, err, panic, ◌∙◌,
}
use go_skes.Prelude.Bits.{and_0x1f}
use go_skes.Iso7816.Tag.{invalid_length, tag_bytes}
use go_skes.Iso7816.Tlv.{
  encode_tlv, decode_tag, decode_length, decode_tlv, decode_value, decode_compact_tlv,
}
use go_skes.Iso7816.Header.{IsTag1, IsTag2, decode_tag_tag1, decode_tag_tag2, decode_tag_three}
use go_skes.Iso7816.RoundTrip.{IsTag}

decode_value_cut :
    (t : ℕ) (content p : Bytes) (x : ℕ) (q : Bytes)
    → length content < 128
    → length content ∷ content ≡ p ++ (x ∷ q)
    → decode_value t p ≡ panic
unfolding decode_value decode_length
decode_value_cut t content [] x q h e = refl
decode_value_cut t content (y ∷ p) x q h e =
    let tail : content ≡ p ++ (x ∷ q) = ground arith in
    let head : y ≡ length content = ground arith in
    ground (arith, head, ap length tail, length-append p (x ∷ q))

-- Past a tag that is not zero.
decode_tlv_tagged :
    (b : Bytes) (t : ℕ) (rest : Bytes)
    → decode_tag b ≡ ok (t, rest)
    → t ≢ 0
    → decode_tlv b ≡ decode_value t rest
unfolding decode_tlv
decode_tlv_tagged b t rest e nz = rw e (ground arith)

tag_bytes_one : (t : ℕ) → IsTag1 t → tag_bytes t ≡ t ∷ []
unfolding tag_bytes
tag_bytes_one t h = ground arith

tag_bytes_two : (t : ℕ) → IsTag2 t → tag_bytes t ≡ t / 256 ∷ t % 256 ∷ []
unfolding tag_bytes
tag_bytes_two t h = ground arith

module _ (t : ℕ) (content : Bytes) (x : ℕ) (q : Bytes) (short : length content < 128) where
  decode_tlv_cut1 :
      (p : Bytes) → IsTag1 t → t ∷ length content ∷ content ≡ p ++ (x ∷ q) → decode_tlv p ≡ panic
  decode_tlv_cut1 [] ht e = unfold decode_tlv decode_tag in refl
  decode_tlv_cut1 (y ∷ p) ht e =
      let head : t ≡ y = ground arith in
      let tag : decode_tag (y ∷ p) ≡ ok (t, p) =
        rw (← head) (rw (tag_bytes_one t ht) at (decode_tag_tag1 t p ht)) in
      decode_tlv_tagged (y ∷ p) t p tag (omega arith)
      ∙ decode_value_cut t content p x q short (ground arith)

  decode_tlv_cut2 :
      (p : Bytes)
      → IsTag2 t
      → t / 256 ∷ t % 256 ∷ length content ∷ content ≡ p ++ (x ∷ q)
      → decode_tlv p ≡ panic
  decode_tlv_cut2 [] ht e = unfold decode_tlv decode_tag in refl
  decode_tlv_cut2 (y ∷ []) ht e = unfold decode_tlv decode_tag in ground (arith, and_0x1f y)
  decode_tlv_cut2 (y ∷ z ∷ p) ht e =
      let head : t / 256 ≡ y = ground arith in
      let next : t % 256 ≡ z = ground arith in
      let tag : decode_tag (y ∷ z ∷ p) ≡ ok (t, p) =
        rw (← head, ← next) (rw (tag_bytes_two t ht) at (decode_tag_tag2 t p ht)) in
      decode_tlv_tagged (y ∷ z ∷ p) t p tag (omega arith)
      ∙ decode_value_cut t content p x q short (ground arith)

-- An object with a tag of one or two bytes that EncodeTLV wrote makes DecodeTLV panic, and not
-- return an error, wherever it is cut off before its end.
pub decode_tlv_truncated :
    (t : ℕ) (content e p : Bytes) (x : ℕ) (q : Bytes)
    → IsTag t
    → encode_tlv t content ≡ ok e
    → e ≡ p ++ (x ∷ q)
    → decode_tlv p ≡ panic
unfolding encode_tlv
decode_tlv_truncated t content e p x q (inl ht) he cut =
    decode_tlv_cut1 t content x q (ground arith) p ht (ground (arith, tag_bytes_one t ht))
decode_tlv_truncated t content e p x q (inr ht) he cut =
    decode_tlv_cut2 t content x q (ground arith) p ht (ground (arith, tag_bytes_two t ht))

tag_bytes_three :
    (t : ℕ)
    → t < 2 ^ 24
    → t / 2 ^ 16 % 32 ≡ 31
    → tag_bytes t ≡ t / 2 ^ 16 ∷ t / 2 ^ 8 % 256 ∷ t % 256 ∷ []
unfolding tag_bytes
tag_bytes_three t h n = ground arith

-- A tag of three bytes, whose first byte ends in 1F and whose second byte is above 80, is read back
-- exactly if its last byte equals its first one.
pub decode_tag_three_iff :
    (t : ℕ) (rest : Bytes)
    → t < 2 ^ 24
    → t / 2 ^ 16 % 32 ≡ 31
    → 128 < t / 2 ^ 8 % 256
    → (decode_tag (tag_bytes t ++ rest) ≡ ok (t, rest)) ↔ (t % 256 ≡ t / 2 ^ 16)
decode_tag_three_iff t rest h n lo = rw (tag_bytes_three t h n) (
  (λ p. ground (arith, decode_tag_three (t / 2 ^ 16) (t / 2 ^ 8 % 256) (t % 256) rest)),
  (λ p. ground (arith, decode_tag_three (t / 2 ^ 16) (t / 2 ^ 8 % 256) (t % 256) rest)),
)

-- DecodeCompactTLV never returns an object: it reports an empty slice, and panics on any other.
pub decode_compact_tlv_lem :
    (b : Bytes)
    → ((b ≡ []) × (decode_compact_tlv b ≡ err invalid_length)) ⊎ (decode_compact_tlv b ≡ panic)
unfolding decode_compact_tlv
decode_compact_tlv_lem [] = inl (refl, refl)
decode_compact_tlv_lem (b0 ∷ rest) = inr (ground arith)
