-- ===== src/Iso7816/Runs.antt =====
-- Concrete runs of the package, and its theorems at concrete inputs.
use go_skes.Prelude.{
  ◌%◌, ◌/◌, ◌^◌, ◌↔◌, ◌≤◌, ◌≡◌, inl, refl, [], ◌∷◌, ◌++◌, arith, length, All, IsByte, Bytes, ok,
  err, panic, codes,
}
use go_skes.Iso7816.Tag.{invalid_tag, invalid_length, tag_bytes}
use go_skes.Iso7816.Tlv.{encode_tlv, decode_tag, decode_length, decode_tlv, decode_value}
use go_skes.Iso7816.RoundTrip.{decode_tlv-encode_tlv, decode_tlv_takes}
use go_skes.Iso7816.Truncation.{decode_tlv_truncated, decode_tag_three_iff}
use go_skes.Iso7816.Status.{code_error}
use go_skes.Iso7816.Length.{decode_length-read_length}

abbrev name_object : Bytes
name_object = 0x5b ∷ 2 ∷ b'h' ∷ b'i' ∷ []

encode_name : encode_tlv 0x5b (b'h' ∷ b'i' ∷ []) ≡ ok name_object
unfolding encode_tlv tag_bytes
encode_name = refl

decode_language : decode_tlv (0x5f ∷ 0x2d ∷ 1 ∷ 7 ∷ 9 ∷ []) ≡ ok (0x5f2d, 7 ∷ [], 9 ∷ [])
unfolding decode_tlv decode_value decode_tag decode_length
decode_language = refl

decode_zero_tag : decode_tlv (0 ∷ 0 ∷ []) ≡ err invalid_tag
unfolding decode_tlv decode_tag
decode_zero_tag = refl

decode_length_missing : decode_length (0x82 ∷ 1 ∷ []) ≡ err invalid_length
unfolding decode_length
decode_length_missing = refl

three_byte_tag : decode_tag (0x5f ∷ 0x81 ∷ 0x02 ∷ []) ≡ ok (0x5f815f, [])
unfolding decode_tag
three_byte_tag = refl

unknown_code : code_error (0x6f ∷ 0x00 ∷ []) ≡ codes "unknown (6f 00)"
unfolding code_error
unknown_code = refl

decode_tlv-encode_tlv_example :
    decode_tlv (name_object ++ (9 ∷ [])) ≡ ok (0x5b, b'h' ∷ b'i' ∷ [], 9 ∷ [])
decode_tlv-encode_tlv_example =
    decode_tlv-encode_tlv 0x5b (b'h' ∷ b'i' ∷ []) (9 ∷ []) name_object (inl (omega arith))
      encode_name

decode_tlv_takes_example :
    (header : Bytes) × (0x5f ∷ 0x2d ∷ 1 ∷ 7 ∷ 9 ∷ [] ≡ header ++ ((7 ∷ []) ++ (9 ∷ [])))
    × (2 ≤ length header)
decode_tlv_takes_example =
    decode_tlv_takes (0x5f ∷ 0x2d ∷ 1 ∷ 7 ∷ 9 ∷ []) 0x5f2d (7 ∷ []) (9 ∷ []) decode_language

decode_tlv_truncated_example : decode_tlv (0x5b ∷ 2 ∷ b'h' ∷ []) ≡ panic
decode_tlv_truncated_example =
    decode_tlv_truncated 0x5b (b'h' ∷ b'i' ∷ []) name_object (0x5b ∷ 2 ∷ b'h' ∷ []) b'i' []
      (inl (omega arith)) encode_name refl

abbrev service_tlv : Bytes
service_tlv = 0x31 ∷ 0xc5 ∷ []

abbrev more_code : Bytes
more_code = 0x61 ∷ 0x10 ∷ []

-- Nine octets: the first one is lost.
abbrev nine : Bytes
nine = 0x89 ∷ 1 ∷ 0 ∷ 0 ∷ 0 ∷ 0 ∷ 0 ∷ 0 ∷ 0 ∷ 2 ∷ 7 ∷ []

nine-All : All IsByte nine
nine-All = (
  omega arith,
  (
    omega arith,
    (
      omega arith,
      (
        omega arith,
        (
          omega arith,
          (
            omega arith,
            (omega arith, (omega arith, (omega arith, (omega arith, (omega arith, tt))))),
          ),
        ),
      ),
    ),
  ),
)

decode_length-read_length_example : decode_length nine ≡ ok (2, 7 ∷ [])
decode_length-read_length_example = decode_length-read_length nine nine-All

decode_tag_three_iff_example :
    (decode_tag (tag_bytes 0x5f8102 ++ (9 ∷ [])) ≡ ok (0x5f8102, 9 ∷ []))
    ↔ (0x5f8102 % 256 ≡ 0x5f8102 / 2 ^ 16)
decode_tag_three_iff_example =
    decode_tag_three_iff 0x5f8102 (9 ∷ []) (omega arith) refl (omega arith)
