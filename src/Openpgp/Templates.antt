-- ===== src/Openpgp/Templates.antt =====
-- internal/openpgp/objects.go: the constructed objects, whose `Decode` methods loop over the
-- objects inside. They fill their receiver step by step, so that it keeps what was read before an
-- error. Warnings about unknown tags are not modelled.
use go_skes.Prelude.{
  ℕ, zero, suc, not, List, [], ◌∷◌, ◌==◌, if◌then◌else◌, length, Bytes, Outcome, ok, err, stuck,
  map_err, ◌>>=◌ as and_then,
}
use go_skes.Prelude.Exec.{Exec, lift, modify, ◌>>=◌, ◌>>◌}
use go_skes.Iso7816.Tag
use go_skes.Iso7816.Tag.{is_constructed}
use go_skes.Iso7816.Tlv.{decode_tlv}
use go_skes.Openpgp.Constants.{
  tag_name, tag_language, tag_sex, tag_cert, tag_signature_counter, tag_cardholder_related,
  tag_security_support_template,
}
use go_skes.Openpgp.Errors.{Error, iso, invalid_length, invalid_response}

-- The start of the methods: one object with the tag of the template, which has to be constructed.
unfoldable pub open_template : ℕ → Bytes → Outcome Error Bytes
open_template tag b = and_then (map_err iso (decode_tlv b)) λ (t, v, rest).
    if not (t == tag)
    then err invalid_response
    else and_then (map_err iso (is_constructed t)) λ c. if c then ok v else err invalid_response

-- `for len(v) > 0`: decode an object and handle it. `fail` is what the loop returns for an error of
-- DecodeTLV. A round takes two bytes at least, so that `length v` rounds are enough.
unfoldable pub each_tlv :
    {S : Type 0}
    → (Tag.Error → Error)
    → (ℕ → Bytes → Exec S Error (Unit {0}))
    → ℕ
    → Bytes
    → Exec S Error (Unit {0})
each_tlv fail step n [] = lift (ok tt)
each_tlv fail step zero (x ∷ b) = lift stuck
each_tlv fail step (suc n) (x ∷ b) = do
  (t, w, rest) ← lift (map_err fail (decode_tlv (x ∷ b)))
  step t w
  each_tlv fail step n rest

pub record Cardholder : Type 0 where
  pub name : Bytes
  pub language : Bytes
  pub sex : ℕ

-- The switch of Cardholder.Decode.
unfoldable pub cardholder_object : ℕ → Bytes → Exec Cardholder Error (Unit {0})
cardholder_object t w =
    if t == tag_name
    then modify (λ ch. record ch { name = w })
    else if t == tag_sex
    then elim w [
      | [] ↦ lift (err invalid_length)
      | b0 ∷ rest ↦ modify (λ ch. record ch { sex = b0 })
    ]
    else if t == tag_language
    then modify (λ ch. record ch { language = w })
    else lift (ok tt)

unfoldable pub decode_cardholder : Bytes → Exec Cardholder Error (Unit {0})
decode_cardholder b = do
  v ← lift (open_template tag_cardholder_related b)
  each_tlv iso cardholder_object (length v) v

pub record SecuritySupportTemplate : Type 0 where
  pub signature_counter : Bytes
  pub card_holder_certs : List Bytes

-- `copy(dst, src)`
unfoldable pub copy : Bytes → Bytes → Bytes
copy [] src = []
copy (d ∷ dst) [] = d ∷ dst
copy (d ∷ dst) (s ∷ src) = s ∷ copy dst src

-- The switch of SecuritySupportTemplate.Decode; a certificate is only printed.
unfoldable pub security_support_object : ℕ → Bytes → Exec SecuritySupportTemplate Error (Unit {0})
security_support_object t w =
    if t == tag_signature_counter
    then modify (λ sst. record sst { signature_counter = copy sst.signature_counter w })
    else if t == tag_cert
    then lift (ok tt)
    else lift (ok tt)

unfoldable pub decode_security_support_template :
    Bytes → Exec SecuritySupportTemplate Error (Unit {0})
decode_security_support_template b = do
  v ← lift (open_template tag_security_support_template b)
  each_tlv (λ e. invalid_length) security_support_object (length v) v
