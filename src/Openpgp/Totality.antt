-- ===== src/Openpgp/Totality.antt =====
-- The templates of internal/openpgp/objects.go on any input: the end of their loops.
use Prim.Native.String.{String}
use go_skes.Prelude.{
  ℕ, suc, ◌≢◌, refl, [], ◌∷◌, arith, length, Bytes, Outcome, ok, err, panic, stuck, map_err,
  map_err-ne-stuck, >>=-ne-stuck,
}
use go_skes.Prelude.Exec.{Exec, lift, modify, Ends, Ends-bind, Ends-if}
use go_skes.Iso7816.Tlv.{decode_tlv}
use go_skes.Iso7816.Ends.{decode_tlv-ne-stuck, is_constructed-ne-stuck}
use go_skes.Openpgp.Errors.{Error, iso, invalid_length}
use go_skes.Openpgp.Constants.{
  tag_application_related, tag_cardholder_related, tag_security_support_template,
}
use go_skes.Openpgp.Historical.{decode_historical_bytes-Ends}
use go_skes.Openpgp.Objects.{
  KeyInfo, ApplicationIdentifier, decode_user_interaction_flag, decode_algorithm_attributes,
  decode_historical_bytes, decode_password_status, decode_extended_capabilities,
  decode_general_features, decode_application_identifier, decode_extended_length_info, decode_time,
}
use go_skes.Openpgp.Templates.{
  open_template, each_tlv, decode_cardholder, cardholder_object, decode_security_support_template,
  security_support_object,
}
use go_skes.Openpgp.Application.{
  ApplicationRelated, set_key, store, at_least, alg_attrs, user_interaction, fingerprint_at,
  fingerprint_ca_at, generation_time_at, key_info_loop, discretionary_object, historical,
  application_object, decode_application_related,
}
use go_skes.Openpgp.Loops.{each_tlv-Ends}

open_template-ne-stuck : (tag : ℕ) (b : Bytes) → open_template tag b ≢ stuck
unfolding open_template
open_template-ne-stuck tag b =
    >>=-ne-stuck (map_err iso (decode_tlv b)) _
      (map_err-ne-stuck iso (decode_tlv b) (decode_tlv-ne-stuck b))
      λ (t, v, rest) e. ground (arith, is_constructed-ne-stuck t)

Ends-lift : {S A : Type 0} (r : Outcome Error A) → r ≢ stuck → Ends {S = S} (lift r)
Ends-lift r h s = h

Ends-ok : {S : Type 0} → Ends {S = S} {E = Error} (lift (ok tt))
Ends-ok s e = cc

Ends-err : {S : Type 0} (x : Error) → Ends {S = S} {E = Error} {A = Unit {0}} (lift (err x))
Ends-err x s e = cc

Ends-modify : {S : Type 0} (f : S → S) → Ends {S = S} {E = Error} (modify f)
Ends-modify f s e = cc

Ends-set_key : (i : ℕ) (f : KeyInfo → KeyInfo) → Ends (set_key i f)
unfolding set_key
Ends-set_key i f s e = ground arith

Ends-store :
    {A : Type 0} (text : String) (r : Outcome Error A)
    (put : A → Exec ApplicationRelated Error (Unit {0}))
    → r ≢ stuck
    → ((a : A) → Ends (put a))
    → Ends (store text r put)
unfolding store
Ends-store text (ok a) put h hp s = hp a s
Ends-store text (err x) put h hp s = λ e. cc
Ends-store text panic put h hp s = λ e. cc
Ends-store text stuck put h hp s = λ e. h refl

Ends-at_least : (n : ℕ) (x : Bytes) → Ends (at_least n x)
unfolding at_least
Ends-at_least n x s e = ground arith

-- The methods without a loop.
decode_user_interaction_flag-ne-stuck : (b : Bytes) → decode_user_interaction_flag b ≢ stuck
unfolding decode_user_interaction_flag
decode_user_interaction_flag-ne-stuck b e = ground arith

decode_algorithm_attributes-ne-stuck : (b : Bytes) → decode_algorithm_attributes b ≢ stuck
unfolding decode_algorithm_attributes
decode_algorithm_attributes-ne-stuck b e = ground arith

decode_password_status-ne-stuck : (b : Bytes) → decode_password_status b ≢ stuck
unfolding decode_password_status
decode_password_status-ne-stuck b e = ground arith

decode_extended_capabilities-ne-stuck : (b : Bytes) → decode_extended_capabilities b ≢ stuck
unfolding decode_extended_capabilities
decode_extended_capabilities-ne-stuck b e = ground arith

decode_general_features-ne-stuck : (b : Bytes) → decode_general_features b ≢ stuck
unfolding decode_general_features
decode_general_features-ne-stuck b e = ground arith

decode_extended_length_info-ne-stuck : (b : Bytes) → decode_extended_length_info b ≢ stuck
unfolding decode_extended_length_info
decode_extended_length_info-ne-stuck b e = ground arith

decode_time-ne-stuck : (b : Bytes) → decode_time b ≢ stuck
unfolding decode_time
decode_time-ne-stuck b e = ground arith

decode_application_identifier-ne-stuck :
    (aid : ApplicationIdentifier) (b : Bytes) → decode_application_identifier aid b ≢ stuck
unfolding decode_application_identifier
decode_application_identifier-ne-stuck aid b e = ground arith

ruleset ends_rules = (
  Ends-bind, Ends-if, Ends-lift, Ends-ok, Ends-err, Ends-modify, Ends-set_key, Ends-store,
  Ends-at_least, decode_user_interaction_flag-ne-stuck, decode_algorithm_attributes-ne-stuck,
  decode_password_status-ne-stuck, decode_extended_capabilities-ne-stuck,
  decode_general_features-ne-stuck, decode_extended_length_info-ne-stuck, decode_time-ne-stuck,
)

alg_attrs-Ends : (slot : ℕ) (text : String) (x : Bytes) → Ends (alg_attrs slot text x)
unfolding alg_attrs
alg_attrs-Ends slot text x = search ends_rules

user_interaction-Ends : (slot : ℕ) (x : Bytes) → Ends (user_interaction slot x)
unfolding user_interaction
user_interaction-Ends slot x = search ends_rules

fingerprint_at-Ends : (slot i : ℕ) (x : Bytes) → Ends (fingerprint_at slot i x)
unfolding fingerprint_at
fingerprint_at-Ends slot i x = search ends_rules

fingerprint_ca_at-Ends : (slot i : ℕ) (x : Bytes) → Ends (fingerprint_ca_at slot i x)
unfolding fingerprint_ca_at
fingerprint_ca_at-Ends slot i x = search ends_rules

generation_time_at-Ends : (slot i : ℕ) (x : Bytes) → Ends (generation_time_at slot i x)
unfolding generation_time_at
generation_time_at-Ends slot i x = search ends_rules

key_info_loop-Ends : (i : ℕ) (x : Bytes) → Ends (key_info_loop i x)
unfolding key_info_loop
key_info_loop-Ends i [] = search ends_rules
key_info_loop-Ends i (x ∷ []) = search ends_rules
key_info_loop-Ends i (x ∷ y ∷ rest) =
    Ends-bind _ _ (Ends-set_key i (λ k. record k { reference = x; status = y }))
      λ u. key_info_loop-Ends (suc i) rest

ruleset object_rules = (
  ends_rules, alg_attrs-Ends, user_interaction-Ends, fingerprint_at-Ends, fingerprint_ca_at-Ends,
  generation_time_at-Ends, key_info_loop-Ends,
)

discretionary_object-Ends : (t : ℕ) (x : Bytes) → Ends (discretionary_object t x)
unfolding discretionary_object
discretionary_object-Ends t x = search object_rules depth 40 fits 100000

historical-Ends : (w : Bytes) → Ends (historical w)
unfolding historical
historical-Ends w ar =
    Ends-store "failed to decode historical bytes" _ (λ u. lift (ok tt))
      (decode_historical_bytes-Ends w ar.historical_bytes) (λ u. Ends-ok)
      (record ar { historical_bytes = (decode_historical_bytes w ar.historical_bytes).0 })

aid-Ends :
    (w : Bytes)
    → Ends (λ ar.
      store "failed to decode application identifier"
        (decode_application_identifier ar.aid w)
        (λ aid. modify (λ ar. record ar { aid = aid }))
        ar)
aid-Ends w ar =
    Ends-store _ _ _ (decode_application_identifier-ne-stuck ar.aid w)
      (λ aid. Ends-modify (λ ar. record ar { aid = aid })) ar

discretionary-Ends :
    (w : Bytes) → Ends (each_tlv (λ e. invalid_length) discretionary_object (length w) w)
discretionary-Ends w =
    each_tlv-Ends (λ e. invalid_length) discretionary_object (length w) w (omega arith)
      discretionary_object-Ends

application_object-Ends : (t : ℕ) (w : Bytes) → Ends (application_object t w)
unfolding application_object
application_object-Ends t w =
    search
      (ends_rules, historical-Ends, decode_general_features-ne-stuck, aid-Ends, discretionary-Ends)
      depth 40 fits 100000

-- ApplicationRelated.Decode ends on any bytes.
pub decode_application_related-Ends : (b : Bytes) → Ends (decode_application_related b)
unfolding decode_application_related
decode_application_related-Ends b =
    Ends-bind (lift (open_template tag_application_related b)) _
      (Ends-lift _ (open_template-ne-stuck tag_application_related b))
      λ v.
        each_tlv-Ends (λ e. invalid_length) application_object (length v) v (omega arith)
          application_object-Ends

cardholder_object-Ends : (t : ℕ) (w : Bytes) → Ends (cardholder_object t w)
unfolding cardholder_object
cardholder_object-Ends t [] = search ends_rules depth 20
cardholder_object-Ends t (x ∷ w) = search ends_rules depth 20

-- Cardholder.Decode ends on any bytes.
pub decode_cardholder-Ends : (b : Bytes) → Ends (decode_cardholder b)
unfolding decode_cardholder
decode_cardholder-Ends b =
    Ends-bind (lift (open_template tag_cardholder_related b)) _
      (Ends-lift _ (open_template-ne-stuck tag_cardholder_related b))
      λ v. each_tlv-Ends iso cardholder_object (length v) v (omega arith) cardholder_object-Ends

security_support_object-Ends : (t : ℕ) (w : Bytes) → Ends (security_support_object t w)
unfolding security_support_object
security_support_object-Ends t w = search ends_rules depth 20

-- SecuritySupportTemplate.Decode ends on any bytes.
pub decode_security_support_template-Ends : (b : Bytes) → Ends (decode_security_support_template b)
unfolding decode_security_support_template
decode_security_support_template-Ends b =
    Ends-bind (lift (open_template tag_security_support_template b)) _
      (Ends-lift _ (open_template-ne-stuck tag_security_support_template b))
      λ v.
        each_tlv-Ends (λ e. invalid_length) security_support_object (length v) v (omega arith)
          security_support_object-Ends
