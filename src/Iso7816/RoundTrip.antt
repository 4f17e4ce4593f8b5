-- ===== src/Iso7816/RoundTrip.antt =====
-- EncodeTLV and DecodeTLV of ber_tlv.go against each other, and against the objects of ISO 7816-4
-- with lengths below 2 ^ 16.
use go_skes.Prelude.{
  panic, ℕ, zero, suc, bit_or, ◌*◌, ◌%◌, leb, length-take, ◌+◌, ◌≤◌, ◌<◌, ◌^◌, ◌≡◌, ◌≢◌, ◌⊎◌, inl,
  inr, refl, [], ◌∷◌, ◌++◌, bit_and, arith, ap, sym, append_assoc, length, length-append,
  take-append-drop, take-append, drop-append, Bytes, ok, err, ◌>>=◌, >>=-eq-ok, Bool-cases, ◌==◌,
  not, ◌&&◌, ltb, ◌∙◌, false, if◌then◌else◌,
}
use go_skes.Iso7816.Tag.{invalid_tag, tag_bytes, tag_invalid}
use go_skes.Iso7816.Tlv.{
  encode_tlv, decode_tag, decode_tag_more, decode_tag_long, length_loop, decode_length, split_at,
  decode_tlv, decode_value,
}
use go_skes.Iso7816.Header.{
  IsTag1, IsTag2, decode_tag_tag1, decode_tag_tag2, length_bytes, decode_length-length_bytes,
}

-- The tags that DecodeTag reads back: one byte, or two bytes.
abbrev pub IsTag : ℕ → Type 0
IsTag t = IsTag1 t ⊎ IsTag2 t

-- An object as ISO 7816-4 writes it, with the shortest length octets.
abbrev pub object : ℕ → Bytes → Bytes
object t content = tag_bytes t ++ (length_bytes (length content) ++ content)

decode_tag-tag_bytes :
    (t : ℕ) (rest : Bytes) → IsTag t → decode_tag (tag_bytes t ++ rest) ≡ ok (t, rest)
decode_tag-tag_bytes t rest (inl h) = decode_tag_tag1 t rest h
decode_tag-tag_bytes t rest (inr h) = decode_tag_tag2 t rest h

IsTag-ne-zero : (t : ℕ) → IsTag t → (t == tag_invalid) ≡ false
IsTag-ne-zero t (inl h) = ground arith
IsTag-ne-zero t (inr h) = ground arith

split_at-append : (v c : Bytes) → split_at (length v) (v ++ c) ≡ ok (v, c)
unfolding split_at
split_at-append v c = ground (arith, length-append v c, take-append v c, drop-append v c)

decode_value_lem :
    (t : ℕ) (v c : Bytes)
    → length v < 2 ^ 16
    → decode_value t (length_bytes (length v) ++ (v ++ c)) ≡ ok (t, v, c)
unfolding decode_value
decode_value_lem t v c h =
    rw (decode_length-length_bytes (length v) (v ++ c) h, split_at-append v c)

-- An ISO 7816-4 object with a tag of one or two bytes and fewer than 2 ^ 16 bytes of content, in
-- front of any bytes, is decoded to its tag and its value, and leaves those bytes.
pub decode_tlv-object :
    (t : ℕ) (content rest : Bytes)
    → IsTag t
    → length content < 2 ^ 16
    → decode_tlv (object t content ++ rest) ≡ ok (t, content, rest)
unfolding decode_tlv
decode_tlv-object t v rest ht hv =
    let shape : object t v ++ rest ≡ tag_bytes t ++ (length_bytes (length v) ++ (v ++ rest)) =
      rw (append_assoc, append_assoc) in
    rw
      (
        shape,
        decode_tag-tag_bytes t (length_bytes (length v) ++ (v ++ rest)) ht,
        IsTag-ne-zero t ht,
      )
      (decode_value_lem t v rest hv)

pub encode_tlv-object :
    (t : ℕ) (content e : Bytes)
    → encode_tlv t content ≡ ok e
    → (e ≡ object t content) × (length content < 128)
unfolding encode_tlv length_bytes
encode_tlv-object t content e h = (ground arith, ground arith)

-- For a tag of one or two bytes, whatever EncodeTLV returns is decoded, in front of any bytes, to
-- the tag and the value that it was given, and leaves those bytes.
pub decode_tlv-encode_tlv :
    (t : ℕ) (content rest e : Bytes)
    → IsTag t
    → encode_tlv t content ≡ ok e
    → decode_tlv (e ++ rest) ≡ ok (t, content, rest)
decode_tlv-encode_tlv t content rest e ht he =
    let (same, short) = encode_tlv-object t content e he in
    rw same (decode_tlv-object t content rest ht (omega arith))

-- What was read stands in front of what is left: the bytes taken, and how many at least.
abbrev Takes : ℕ → Bytes → Bytes → Type 0
Takes n b rest = (front : Bytes) × (b ≡ front ++ rest) × (n ≤ length front)

Takes-cons : {n : ℕ} {b rest : Bytes} (x : ℕ) → Takes n b rest → Takes (suc n) (x ∷ b) rest
Takes-cons x (front, e, h) = (x ∷ front, ap (λ r. x ∷ r) e, omega arith)

Takes-trans : {n m : ℕ} {a b c : Bytes} → Takes n a b → Takes m b c → Takes (n + m) a c
Takes-trans {c = c} (f, e, h) (g, e', h') =
    (f ++ g, e ∙ ap (λ r. f ++ r) e' ∙ sym (append_assoc f g c), omega (arith, length-append f g))

Takes-0 : (b : Bytes) → Takes 0 b b
Takes-0 b = ([], refl, omega arith)

Takes-eq : {b c : Bytes} → b ≡ c → Takes 0 b c
Takes-eq e = ([], e, omega arith)

Takes-weaken : {n : ℕ} {b c : Bytes} → Takes (suc n) b c → Takes n b c
Takes-weaken (front, e, h) = (front, e, omega arith)

decode_tag_long-Takes :
    (b0 b1 : ℕ) (b : Bytes) (t : ℕ) (rest : Bytes)
    → decode_tag_long b0 b1 b ≡ ok (t, rest)
    → Takes 0 b rest
unfolding decode_tag_long
decode_tag_long-Takes b0 b1 [] t rest h = cc
decode_tag_long-Takes b0 b1 (b2 ∷ b) t rest h =
    Takes-weaken (Takes-cons b2 (Takes-eq (ground arith)))

decode_tag_more-Takes :
    (b0 : ℕ) (b : Bytes) (t : ℕ) (rest : Bytes)
    → decode_tag_more b0 b ≡ ok (t, rest)
    → t ≢ 0
    → Takes 1 b rest
unfolding decode_tag_more
decode_tag_more-Takes b0 [] t rest h nz = cc
decode_tag_more-Takes b0 (b1 ∷ b) t rest h nz =
    elim (Bool-cases (bit_and b1 0x80 == 0 && ltb 30 (bit_and b1 0x7f))) [
      | inl two ↦ Takes-cons b1 (Takes-eq (ground arith))
      | inr more ↦ elim (Bool-cases (bit_and b1 0x80 == 0x80 && not (bit_and b1 0x7f == 0))) [
        | inl three ↦ Takes-cons b1 (decode_tag_long-Takes b0 b1 b t rest (ground arith))
        | inr none_fits ↦ absurd (nz (ground arith))
      ]
    ]

decode_tag-Takes :
    (b : Bytes) (t : ℕ) (rest : Bytes) → decode_tag b ≡ ok (t, rest) → t ≢ 0 → Takes 1 b rest
unfolding decode_tag
decode_tag-Takes [] t rest h nz = cc
decode_tag-Takes (b0 ∷ b) t rest h nz = elim (Bool-cases (not (bit_and b0 0x1f == 0x1f))) [
  | inl one ↦ Takes-cons b0 (Takes-eq (ground arith))
  | inr more ↦ Takes-weaken (Takes-cons b0 (decode_tag_more-Takes b0 b t rest (ground arith) nz))
]

length_loop-Takes :
    (n : ℕ) (b : Bytes) (acc l : ℕ) (rest : Bytes)
    → length_loop n b acc ≡ ok (l, rest)
    → Takes 0 b rest
unfolding length_loop
length_loop-Takes zero b acc l rest h = Takes-eq (ground arith)
length_loop-Takes (suc n) [] acc l rest h = cc
length_loop-Takes (suc n) (x ∷ b) acc l rest h =
    Takes-weaken (Takes-cons x (length_loop-Takes n b (bit_or (acc * 2 ^ 8 % 2 ^ 64) x) l rest h))

decode_length-Takes :
    (b : Bytes) (l : ℕ) (rest : Bytes) → decode_length b ≡ ok (l, rest) → Takes 1 b rest
unfolding decode_length
decode_length-Takes [] l rest h = cc
decode_length-Takes (b0 ∷ b) l rest h = elim (Bool-cases (leb b0 0x7f)) [
  | inl short ↦ Takes-cons b0 (Takes-eq (ground arith))
  | inr long ↦ Takes-cons b0 (length_loop-Takes (bit_and b0 0x7f) b 0 l rest (ground arith))
]

split_at_lem : (l : ℕ) (b v c : Bytes) → split_at l b ≡ ok (v, c) → (b ≡ v ++ c) × (length v ≡ l)
unfolding split_at
split_at_lem l b v c h = (ground (arith, take-append-drop l b), ground (arith, length-take l b))

decode_value-Takes :
    (t : ℕ) (b : Bytes) (t' : ℕ) (v c : Bytes)
    → decode_value t b ≡ ok (t', v, c)
    → Takes 1 b (v ++ c)
unfolding decode_value
decode_value-Takes t b t' v c h =
    let ((l, b'), read, h') =
      >>=-eq-ok (decode_length b) (λ (r : ℕ × Bytes). split_at r.0 r.1 >>= λ w. ok (t, w.0, w.1))
        h in
    let ((v', c'), cut, e) =
      >>=-eq-ok (split_at l b') (λ (w : Bytes × Bytes). ok (t, w.0, w.1)) h' in
    let same : b' ≡ v ++ c = ground (arith, split_at_lem l b' v' c' cut) in
    rw (← same) (decode_length-Takes b l b' read)

-- A decoded object stands in the slice as it was read: at least two header bytes, then the value,
-- then what is left.
pub decode_tlv_takes :
    (b : Bytes) (t : ℕ) (v c : Bytes)
    → decode_tlv b ≡ ok (t, v, c)
    → (header : Bytes) × (b ≡ header ++ (v ++ c)) × (2 ≤ length header)
unfolding decode_tlv
decode_tlv_takes b t v c h =
    let ((t', b'), read, h') =
      >>=-eq-ok (decode_tag b)
        (λ (r : ℕ × Bytes). if r.0 == tag_invalid then err invalid_tag else decode_value r.0 r.1)
        h in
    elim (Bool-cases (t' == tag_invalid)) [
      | inl zero_tag ↦ absurd (ground arith)
      | inr valid ↦
          Takes-trans (decode_tag-Takes b t' b' read (ground arith))
            (decode_value-Takes t' b' t v c (ground arith))
    ]

-- What EncodeTLV returns for a value that fits its one length byte, and that it panics on the others.
pub encode_tlv-short :
    (t : ℕ) (content : Bytes) → length content < 128 → encode_tlv t content ≡ ok (object t content)
unfolding encode_tlv length_bytes
encode_tlv-short t content h = ground arith

pub encode_tlv-long :
    (t : ℕ) (content : Bytes) → 127 < length content → encode_tlv t content ≡ panic
unfolding encode_tlv
encode_tlv-long t content h = ground arith

pub length-object :
    (t : ℕ) (content : Bytes)
    → length content < 128
    → length (object t content) ≡ length (tag_bytes t) + 1 + length content
unfolding length_bytes
length-object t content h = ground (arith, length-append (tag_bytes t) (length content ∷ content))
