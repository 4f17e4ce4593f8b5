-- ===== src/Openpgp/Containers.antt =====
-- internal/openpgp/objects.go: the constructed objects on well-formed input.
use go_skes.Prelude.{
  ℕ, ◌≡◌, ◌<◌, ◌^◌, refl, sym, length-append, ◌≤◌, List, [], ◌∷◌, ◌++◌, append-nil, arith, length,
  All, Bytes, ok, true, inl, inr, ap, ◌∙◌,
}
use go_skes.Iso7816.Tag.{tag_bytes, is_constructed}
use go_skes.Iso7816.Header.{length_bytes}
use go_skes.Iso7816.Tlv.{decode_tlv}
use go_skes.Iso7816.RoundTrip.{object, length-object, decode_tlv-object}
use go_skes.Openpgp.Constants.{
  tag_name, tag_language, tag_sex, tag_signature_counter, tag_cardholder_related,
  tag_security_support_template, tag_application_related,
}
use go_skes.Openpgp.Errors.{iso, invalid_length}
use go_skes.Openpgp.Templates.{
  open_template, Cardholder, cardholder_object, decode_cardholder, SecuritySupportTemplate, copy,
  security_support_object, decode_security_support_template,
}
use go_skes.Openpgp.Application.{ApplicationRelated, application_object, decode_application_related}
use go_skes.Openpgp.Loops.{objects, steps, IsObject, each_tlv-objects}

open_template-object :
    (tag : ℕ) (v : Bytes)
    → IsObject (tag, v)
    → is_constructed tag ≡ ok true
    → open_template tag (object tag v) ≡ ok v
unfolding open_template
open_template-object tag v (ht, hv) c =
    let e : decode_tlv (object tag v) ≡ ok (tag, v, []) =
      ap decode_tlv (sym (append-nil (object tag v))) ∙ decode_tlv-object tag v [] ht hv in
    rw (e, c) (ground arith)

-- ApplicationRelated.Decode on an object that holds a sequence of objects, with tags of one or two
-- bytes and fewer than 2 ^ 16 bytes in all, makes the steps of its switch for them in their order,
-- up to the first that fails.
pub decode_application_related-objects :
    (l : List (ℕ × Bytes)) (ar : ApplicationRelated)
    → All IsObject l
    → length (objects l) < 2 ^ 16
    → decode_application_related (object tag_application_related (objects l)) ar
      ≡ steps application_object l ar
unfolding decode_application_related is_constructed
decode_application_related-objects l ar h n =
    rw (open_template-object tag_application_related (objects l) (inl ground arith, n) refl) (
      each_tlv-objects (λ e. invalid_length) application_object l (length (objects l)) ar h
        (omega arith))

-- Cardholder.Decode on an object that holds a sequence of objects makes the steps of its switch for
-- them in their order, up to the first that fails.
pub decode_cardholder-objects :
    (l : List (ℕ × Bytes)) (ch : Cardholder)
    → All IsObject l
    → length (objects l) < 2 ^ 16
    → decode_cardholder (object tag_cardholder_related (objects l)) ch
      ≡ steps cardholder_object l ch
unfolding decode_cardholder is_constructed
decode_cardholder-objects l ch h n =
    rw (open_template-object tag_cardholder_related (objects l) (inl ground arith, n) refl)
      (each_tlv-objects iso cardholder_object l (length (objects l)) ch h (omega arith))

content_fits : (t : ℕ) (w : Bytes) → length w ≤ length (object t w)
content_fits t w = omega (
  arith,
  length-append (tag_bytes t) (length_bytes (length w) ++ w),
  length-append (length_bytes (length w)) w,
)

-- The object of a cardholder: the name, the language and the sex.
abbrev pub cardholder_bytes : Cardholder → Bytes
cardholder_bytes ch =
    objects ((tag_name, ch.name) ∷ (tag_language, ch.language) ∷ (tag_sex, ch.sex ∷ []) ∷ [])

-- Cardholder.Decode reads every cardholder of fewer than 2 ^ 16 bytes back from its object,
-- whatever its receiver held.
pub decode_cardholder_lem :
    (ch before : Cardholder)
    → length (cardholder_bytes ch) < 2 ^ 16
    → decode_cardholder (object tag_cardholder_related (cardholder_bytes ch)) before ≡ (ch, ok tt)
unfolding cardholder_object
decode_cardholder_lem ch before n =
    decode_cardholder-objects
      ((tag_name, ch.name) ∷ (tag_language, ch.language) ∷ (tag_sex, ch.sex ∷ []) ∷ []) before
      (
        (
          inl ground arith,
          omega (
            arith,
            content_fits tag_name ch.name,
            length-append (object tag_name ch.name)
                (objects ((tag_language, ch.language) ∷ (tag_sex, ch.sex ∷ []) ∷ [])),
          ),
        ),
        (
          (
            inr ground arith,
            omega (
              arith,
              content_fits tag_language ch.language,
              length-append (object tag_name ch.name)
                  (objects ((tag_language, ch.language) ∷ (tag_sex, ch.sex ∷ []) ∷ [])),
              length-append (object tag_language ch.language)
                  (objects ((tag_sex, ch.sex ∷ []) ∷ [])),
            ),
          ),
          ((inr ground arith, omega arith), tt),
        ),
      )
      n

-- SecuritySupportTemplate.Decode on an object that holds a sequence of objects makes the steps of
-- its switch for them in their order, up to the first that fails.
pub decode_security_support_template-objects :
    (l : List (ℕ × Bytes)) (sst : SecuritySupportTemplate)
    → All IsObject l
    → length (objects l) < 2 ^ 16
    → decode_security_support_template (object tag_security_support_template (objects l)) sst
      ≡ steps security_support_object l sst
unfolding decode_security_support_template is_constructed
decode_security_support_template-objects l sst h n =
    rw (open_template-object tag_security_support_template (objects l) (inl ground arith, n) refl) (
      each_tlv-objects (λ e. invalid_length) security_support_object l (length (objects l)) sst h
        (omega arith))

-- SecuritySupportTemplate.Decode reads a signature counter of three bytes back, and changes nothing
-- else.
pub decode_security_support_template_lem :
    (c0 c1 c2 d0 d1 d2 : ℕ) (certs : List Bytes)
    → decode_security_support_template
        (object tag_security_support_template
          (objects ((tag_signature_counter, c0 ∷ c1 ∷ c2 ∷ []) ∷ [])))
        (record { signature_counter = d0 ∷ d1 ∷ d2 ∷ []; card_holder_certs = certs })
      ≡ (record { signature_counter = c0 ∷ c1 ∷ c2 ∷ []; card_holder_certs = certs }, ok tt)
unfolding security_support_object copy tag_bytes
decode_security_support_template_lem c0 c1 c2 d0 d1 d2 certs =
    decode_security_support_template-objects ((tag_signature_counter, c0 ∷ c1 ∷ c2 ∷ []) ∷ []) _
      ((inl ground arith, omega arith), tt)
      (ground (
        arith,
        length-append (object tag_signature_counter (c0 ∷ c1 ∷ c2 ∷ [])) [],
        length-object tag_signature_counter (c0 ∷ c1 ∷ c2 ∷ []),
      ))
