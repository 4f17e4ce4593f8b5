-- ===== src/Openpgp/SharedSecret.antt =====
-- CalculateSharedSecret of internal/openpgp/card.go: the public key of the other side in three nested
-- objects.
use go_skes.Prelude.{
  ap, ℕ, ◌+◌, ◌≤◌, ◌<◌, ◌≡◌, ◌≢◌, inl, inr, refl, [], none, some, arith, append-nil, Bool-cases,
  ltb, length, ◌∙◌, Bytes, ok, panic,
}
use go_skes.Iso7816.Instructions.{ins_perform_security_operation}
use go_skes.Iso7816.Tag.{tag_bytes}
use go_skes.Iso7816.Tlv.{decode_tlv}
use go_skes.Iso7816.RoundTrip.{
  IsTag, object, encode_tlv-short, encode_tlv-long, length-object, decode_tlv-object,
}
use go_skes.Openpgp.Constants.{tag_cipher, tag_public_key, tag_external_public_key}
use go_skes.Openpgp.Framing.{parse_apdu, parse_apdu-command_apdu}
use go_skes.Openpgp.Reader.{Reader, Card, communicate}
use go_skes.Openpgp.Chaining.{Answers, verdict, communicate-Answers}
use go_skes.Openpgp.Card.{calculate_shared_secret}

decode-object :
    (t : ℕ) (v : Bytes) → IsTag t → length v < 128 → decode_tlv (object t v) ≡ ok (t, v, [])
decode-object t v ht h = rw append-nil at (decode_tlv-object t v [] ht (omega arith))

abbrev external_key : Bytes → Bytes
external_key pk = object tag_external_public_key pk

abbrev public_key : Bytes → Bytes
public_key pk = object tag_public_key (external_key pk)

abbrev cipher : Bytes → Bytes
cipher pk = object tag_cipher (public_key pk)

length-external_key : (pk : Bytes) → length pk < 128 → length (external_key pk) ≡ 2 + length pk
length-external_key pk h = unfold tag_bytes in length-object tag_external_public_key pk h

length-public_key : (pk : Bytes) → length pk < 126 → length (public_key pk) ≡ 5 + length pk
length-public_key pk h =
    let size : length (external_key pk) ≡ 2 + length pk = length-external_key pk (omega arith) in
    length-object tag_public_key (external_key pk) (omega arith)
    ∙ rw size (unfold tag_bytes in omega arith)

module _ (pk : Bytes) (small : length pk ≤ 122) where
  length-cipher : length (cipher pk) ≡ 7 + length pk
  length-cipher =
      length-object tag_cipher (public_key pk) (omega (arith, length-public_key pk (omega arith)))
      ∙ rw (length-public_key pk (omega arith)) (unfold tag_bytes in omega arith)

  -- The value of the outermost object holds the others, and the innermost one the key.
  cipher_nested :
      (decode_tlv (cipher pk) ≡ ok (tag_cipher, public_key pk, []))
      × (decode_tlv (public_key pk) ≡ ok (tag_public_key, external_key pk, []))
      × (decode_tlv (external_key pk) ≡ ok (tag_external_public_key, pk, []))
  cipher_nested = (
    decode-object tag_cipher (public_key pk) (inl (omega arith))
        (omega (arith, length-public_key pk (omega arith))),
    decode-object tag_public_key (external_key pk) (inr (omega arith))
        (omega (arith, length-external_key pk (omega arith))),
    decode-object tag_external_public_key pk (inl (omega arith)) (omega arith),
  )

  module _ (R : Reader) (fuel : ℕ) (c : Card) where
    calculate_shared_secret-cipher :
        (s : R.State)
        → calculate_shared_secret R fuel c pk s
          ≡ communicate R fuel ins_perform_security_operation 0x80 0x86 (cipher pk) c.longer s
    unfolding calculate_shared_secret
    calculate_shared_secret-cipher s = rw (
      encode_tlv-short tag_external_public_key pk (omega arith),
      encode_tlv-short tag_public_key (external_key pk)
          (omega (arith, length-external_key pk (omega arith))),
      encode_tlv-short tag_cipher (public_key pk)
          (omega (arith, length-public_key pk (omega arith))),
    )

-- For a key of at most 122 bytes, and `longer` 0 as in every card that NewCard returns, the card is
-- sent PSO: DECIPHER over data that DecodeTLV takes apart into the three nested objects with the
-- key in the innermost; the data of its answer, or its error, is returned.
pub calculate_shared_secret_lem :
    (R : Reader) (fuel : ℕ) (c : Card) (pk : Bytes)
    → length pk ≤ 122
    → c.longer ≡ 0
    → (content middle inner apdu : Bytes) × (decode_tlv content ≡ ok (tag_cipher, middle, []))
      × (decode_tlv middle ≡ ok (tag_public_key, inner, []))
      × (decode_tlv inner ≡ ok (tag_external_public_key, pk, []))
      × (parse_apdu apdu
          ≡ some (record {
            ins = ins_perform_security_operation;
            p1 = 0x80;
            p2 = 0x86;
            content = content;
            expected = none;
          }))
      × ((s t : R.State) (k : ℕ) (d : Bytes) (sw1 sw2 : ℕ)
          → Answers R s apdu k d sw1 sw2 t
          → k ≤ fuel + 1
          → calculate_shared_secret R fuel c pk s ≡ (t, verdict d sw1 sw2))
calculate_shared_secret_lem R fuel c pk small none_expected =
    let (outer, middle, inner) = cipher_nested pk small in
    let some_data : cipher pk ≢ [] = λ e. omega (arith, length-cipher pk small, ap length e) in
    let (apdu, built, parsed) =
      parse_apdu-command_apdu ins_perform_security_operation 0x80 0x86 (cipher pk) 0 some_data
        (omega (arith, length-cipher pk small)) (omega arith) (inr (inl refl)) in
    (
      cipher pk,
      public_key pk,
      external_key pk,
      apdu,
      outer,
      middle,
      inner,
      parsed,
      λ s t k d sw1 sw2 a h.
          calculate_shared_secret-cipher pk small R fuel c s
          ∙ rw none_expected (
              communicate-Answers R fuel ins_perform_security_operation 0x80 0x86 (cipher pk) 0
                built a h),
    )

-- For a key of more than 122 bytes, such as that of P-521 with 133 bytes, the call panics and sends
-- nothing.
pub calculate_shared_secret_long :
    (R : Reader) (fuel : ℕ) (c : Card) (pk : Bytes) (s : R.State)
    → 122 < length pk
    → calculate_shared_secret R fuel c pk s ≡ (s, panic)
unfolding calculate_shared_secret
calculate_shared_secret_long R fuel c pk s long = elim (Bool-cases (ltb (length pk) 128)) [
  | inr too_long ↦ rw (encode_tlv-long tag_external_public_key pk (ground arith))
  | inl fits ↦
      let short : length pk < 128 = ground arith in
      rw (encode_tlv-short tag_external_public_key pk short)
        (elim (Bool-cases (ltb (length pk) 126)) [
          | inr too_long ↦ rw (
              encode_tlv-long tag_public_key (external_key pk)
                (ground (arith, length-external_key pk short)))
          | inl fits' ↦
              let shorter : length pk < 126 = ground arith in
              rw
                (encode_tlv-short tag_public_key (external_key pk)
                  (omega (arith, length-external_key pk short)))
                (rw (
                  encode_tlv-long tag_cipher (public_key pk)
                    (omega (arith, length-public_key pk shorter))))
        ])
]
