-- ===== src/Openpgp/Application.antt =====
-- internal/openpgp/objects.go, ApplicationRelated: everything that the card says of itself and of its
-- four keys.
use Prim.Native.String.{String}
use go_skes.Prelude.{
  ℕ, zero, suc, List, [], ◌∷◌, ltb, ◌==◌, if◌then◌else◌, length, take, drop, Bytes, Outcome, ok,
  err, panic, stuck,
}
use go_skes.Prelude.Exec.{Exec, lift, modify, ◌>>=◌, ◌>>◌}
use go_skes.Openpgp.Constants.{
  tag_aid, tag_historical_bytes, tag_ext_len_info, tag_discretionary_dos, tag_ext_caps,
  tag_alg_attrs_sign, tag_alg_attrs_decrypt, tag_alg_attrs_authn, tag_alg_attrs_attest,
  tag_password_status, tag_fp, tag_fp_attest, tag_cafp, tag_cafp_attest, tag_gen_time,
  tag_gen_time_attest, tag_key_info, tag_uif_sign, tag_uif_decrypt, tag_uif_authn, tag_uif_attest,
  tag_general_feature_management, tag_application_related, slot_sign, slot_decrypt, slot_authn,
  slot_attest,
}
use go_skes.Openpgp.Errors.{Error, invalid_length, wrapped}
use go_skes.Openpgp.Objects.{
  KeyInfo, HistoricalBytes, PasswordStatus, ExtendedCapabilities, GeneralFeatures,
  ApplicationIdentifier, ExtendedLengthInfo, decode_user_interaction_flag,
  decode_algorithm_attributes, decode_historical_bytes, decode_password_status,
  decode_extended_capabilities, decode_general_features, decode_application_identifier,
  decode_extended_length_info, decode_time,
}
use go_skes.Openpgp.Templates.{open_template, each_tlv}

-- `keys` is an array of four.
pub record ApplicationRelated : Type 0 where
  pub aid : ApplicationIdentifier
  pub historical_bytes : HistoricalBytes
  pub length_info : ExtendedLengthInfo
  pub capabilities : ExtendedCapabilities
  pub features : GeneralFeatures
  pub password_status : PasswordStatus
  pub keys : List KeyInfo

-- `a[i] = f(a[i])`, out of range without effect: the callers test the index.
unfoldable pub modify_at : ℕ → (KeyInfo → KeyInfo) → List KeyInfo → List KeyInfo
modify_at i f [] = []
modify_at zero f (k ∷ ks) = f k ∷ ks
modify_at (suc i) f (k ∷ ks) = k ∷ modify_at i f ks

-- An assignment to a field of a key; Go panics for an index outside the array.
unfoldable pub set_key : ℕ → (KeyInfo → KeyInfo) → Exec ApplicationRelated Error (Unit {0})
set_key i f ar =
    if ltb i (length ar.keys)
    then (record ar { keys = modify_at i f ar.keys }, ok tt)
    else (ar, panic)

-- `if err := x.Decode(w); err != nil { return fmt.Errorf("failed to ...: %w", err) }`
unfoldable pub store :
    {A : Type 0}
    → String
    → Outcome Error A
    → (A → Exec ApplicationRelated Error (Unit {0}))
    → Exec ApplicationRelated Error (Unit {0})
store text (ok a) put = put a
store text (err e) put = lift (err (wrapped text e))
store text panic put = lift panic
store text stuck put = lift stuck

-- `if len(x) < n { return errInvalidLength }`
unfoldable pub at_least : ℕ → Bytes → Exec ApplicationRelated Error (Unit {0})
at_least n x = if ltb (length x) n then lift (err invalid_length) else lift (ok tt)

unfoldable pub alg_attrs : ℕ → String → Bytes → Exec ApplicationRelated Error (Unit {0})
unfolding store set_key
alg_attrs slot text x =
    store text (decode_algorithm_attributes x) λ a. set_key slot (λ k. record k { alg_attrs = a })

unfoldable pub user_interaction : ℕ → Bytes → Exec ApplicationRelated Error (Unit {0})
user_interaction slot x =
    store "failed to decode user interaction flag" (decode_user_interaction_flag x)
      λ u. set_key slot (λ k. record k { uif = u })

-- Twenty bytes of a list of fingerprints, and a time from four bytes, for the key in `slot`.
unfoldable pub fingerprint_at : ℕ → ℕ → Bytes → Exec ApplicationRelated Error (Unit {0})
fingerprint_at slot i x = set_key slot (λ k. record k { fingerprint = take 20 (drop i x) })

unfoldable pub fingerprint_ca_at : ℕ → ℕ → Bytes → Exec ApplicationRelated Error (Unit {0})
fingerprint_ca_at slot i x = set_key slot (λ k. record k { fingerprint_ca = take 20 (drop i x) })

unfoldable pub generation_time_at : ℕ → ℕ → Bytes → Exec ApplicationRelated Error (Unit {0})
generation_time_at slot i x = do
  time ← lift (decode_time (drop i x))
  set_key slot (λ k. record k { generation_time = time })

-- The case of the key information: a reference and a status for key `i`, and so on by twos.
unfoldable pub key_info_loop : ℕ → Bytes → Exec ApplicationRelated Error (Unit {0})
key_info_loop i [] = lift (ok tt)
key_info_loop i (x ∷ []) = lift (ok tt)
key_info_loop i (x ∷ y ∷ rest) = do
  set_key i (λ k. record k { reference = x; status = y })
  key_info_loop (suc i) rest

-- The switch over the discretionary data objects.
unfoldable pub discretionary_object : ℕ → Bytes → Exec ApplicationRelated Error (Unit {0})
discretionary_object t x =
    if t == tag_ext_len_info
    then store "failed to decode extended length information" (decode_extended_length_info x)
        (λ li. modify (λ ar. record ar { length_info = li }))
    else if t == tag_ext_caps
    then store "failed to decode extended capabilities" (decode_extended_capabilities x)
        (λ ec. modify (λ ar. record ar { capabilities = ec }))
    else if t == tag_alg_attrs_sign
    then alg_attrs slot_sign "failed to decode sign key attrs" x
    else if t == tag_alg_attrs_decrypt
    then alg_attrs slot_decrypt "failed to decode decrypt key attrs" x
    else if t == tag_alg_attrs_authn
    then alg_attrs slot_authn "failed to decode authentication key attrs" x
    else if t == tag_alg_attrs_attest
    then alg_attrs slot_attest "failed to decode attestation key attrs" x
    else if t == tag_uif_sign
    then user_interaction slot_sign x
    else if t == tag_uif_authn
    then user_interaction slot_authn x
    else if t == tag_uif_decrypt
    then user_interaction slot_decrypt x
    else if t == tag_uif_attest
    then user_interaction slot_attest x
    else if t == tag_password_status
    then store "failed to decode password status" (decode_password_status x)
        (λ ps. modify (λ ar. record ar { password_status = ps }))
    else if t == tag_fp
    then (do
      at_least 60 x
      fingerprint_at slot_sign 0 x
      fingerprint_at slot_decrypt 20 x
      fingerprint_at slot_authn 40 x)
    else if t == tag_fp_attest
    then (do at_least 20 x; fingerprint_at slot_attest 0 x)
    else if t == tag_cafp
    then (do
      at_least 60 x
      fingerprint_ca_at slot_sign 0 x
      fingerprint_ca_at slot_decrypt 20 x
      fingerprint_ca_at slot_authn 40 x)
    else if t == tag_cafp_attest
    then (do at_least 20 x; fingerprint_ca_at slot_attest 0 x)
    else if t == tag_gen_time
    then (do
      at_least 12 x
      generation_time_at slot_sign 0 x
      generation_time_at slot_decrypt 4 x
      generation_time_at slot_authn 8 x)
    else if t == tag_gen_time_attest
    then (do at_least 4 x; generation_time_at slot_attest 0 x)
    else if t == tag_key_info
    then key_info_loop 0 x
    else lift (ok tt)

-- HistoricalBytes.Decode on the field of the receiver.
unfoldable pub historical : Bytes → Exec ApplicationRelated Error (Unit {0})
historical w ar =
    let r = decode_historical_bytes w ar.historical_bytes in
    store "failed to decode historical bytes" r.1 (λ u. lift (ok tt))
      (record ar { historical_bytes = r.0 })

-- The switch of ApplicationRelated.Decode.
unfoldable pub application_object : ℕ → Bytes → Exec ApplicationRelated Error (Unit {0})
application_object t w =
    if t == tag_aid
    then (λ ar.
        store "failed to decode application identifier" (decode_application_identifier ar.aid w)
          (λ aid. modify (λ ar. record ar { aid = aid })) ar)
    else if t == tag_historical_bytes
    then historical w
    else if t == tag_general_feature_management
    then store "failed to decode general features" (decode_general_features w)
        (λ f. modify (λ ar. record ar { features = f }))
    else if t == tag_discretionary_dos
    then each_tlv (λ e. invalid_length) discretionary_object (length w) w
    else lift (ok tt)

unfoldable pub decode_application_related : Bytes → Exec ApplicationRelated Error (Unit {0})
decode_application_related b = do
  v ← lift (open_template tag_application_related b)
  each_tlv (λ e. invalid_length) application_object (length v) v
