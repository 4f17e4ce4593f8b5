-- ===== src/Ecdh/Applese/Device.antt =====
-- ecdh/applese/applese.go: a key of the Secure Enclave, and its creation.
use go_skes.Prelude.{
  ℕ, Option, none, some, [], ◌∷◌, ◌==◌, leb, take, length, if◌then◌else◌, Bytes, Outcome, ok, err,
  panic,
}
use go_skes.Prelude.Exec.{Exec, lift, ◌>>=◌, ◌>>◌}
use go_skes.Ecdh.PublicKey.{p256, Crypto}
use go_skes.Ecdh.Applese.{
  Ref, key_class, class_public, key_type, ec_sec_prime_random, key_size_in_bits, ref,
  requested_size, access_control, is_permanent, boolean_true, application_tag, label, token_id,
  secure_enclave, private_key_attrs, Framework, Error, generating_private_key, tag, deferred,
  new_cf_data, new_cf_dictionary, go_error,
}

module _ {S : Type 0} (F : Framework S) where
  -- newCFNumber
  unfoldable pub new_cf_number : ℕ → Exec S Error Ref
  new_cf_number u s = ((F.number_create u s).0, ok (F.number_create u s).1)

  -- The conversion of a slice to an array of 20 bytes, which panics for one that is shorter.
  abbrev pub key_label : Bytes → Outcome Error Bytes
  key_label l = if leb 20 (length l) then ok (take 20 l) else panic

  -- PrivateKey.Label
  unfoldable pub key_label_of : Ref → Exec S Error Bytes
  key_label_of k s =
      let attrs = F.copy_attributes k s in
      deferred F attrs.1 (λ s'. (s', key_label (F.application_label_of attrs.1 s'))) attrs.0

  -- PrivateKey.Public, which drops the error for bytes that are no key on P-256.
  unfoldable pub public_key : (C : Crypto) → Ref → Exec S Error (Option C.PublicKey)
  public_key C k s =
      let pk = F.copy_public_key k s in
      deferred F pk.1
        (λ s'.
          let attrs = F.copy_attributes pk.1 s' in
          deferred F attrs.1
            (λ s''. elim (F.value_data_of attrs.1 s'') [
              | none ↦ (s'', panic)
              | some bytes ↦ (s'', ok (C.new_public_key p256 bytes))
            ])
            attrs.0)
        pk.0

  -- loadPublicKey, of the bytes of the key.
  unfoldable pub load_public_key : Bytes → Exec S Error Ref
  unfolding new_cf_number new_cf_dictionary new_cf_data go_error
  load_public_key pk_bytes = do
    size ← new_cf_number 256
    attrs ← new_cf_dictionary F (
        (key_class, class_public)
        ∷ (key_type, ec_sec_prime_random)
        ∷ (key_size_in_bits, ref size)
        ∷ [])
    deferred F attrs (do
      pk_cf ← new_cf_data F pk_bytes
      deferred F pk_cf (λ s.
          let made = F.create_with_data pk_cf attrs s in
          (go_error F made.2 >> lift (ok made.1)) made.0))

  -- PrivateKey.DH, with the bytes of the public key.
  unfoldable pub dh : Ref → Bytes → Exec S Error Bytes
  unfolding load_public_key
  dh k pk_bytes = do
    size ← new_cf_number 32
    params ← new_cf_dictionary F ((requested_size, ref size) ∷ [])
    deferred F params (do
      pk_ref ← load_public_key pk_bytes
      deferred F pk_ref (λ s.
          let made = F.key_exchange k pk_ref params s in
          (do go_error F made.2; deferred F made.1 (λ s'. (s', ok (F.data_bytes made.1 s'))))
            made.0))

  -- An error that is released once it is read.
  abbrev pub go_error_released : Ref → Exec S Error (Unit {0})
  go_error_released e s =
      if e == 0 then (s, ok tt) else (F.release e (go_error F e s).0, (go_error F e s).1)

  -- The end of GenerateKey.
  abbrev pub new_key : Ref → Outcome Error Ref
  new_key sk = if sk == 0 then err generating_private_key else ok sk

  -- GenerateKey
  unfoldable pub generate_key : Bytes → Exec S Error Ref
  unfolding new_cf_number new_cf_dictionary new_cf_data go_error
  generate_key key_name s0 =
      let made = F.access_control_create s0 in
      (do
        go_error_released made.2
        deferred F made.1 (do
          cf_tag ← new_cf_data F tag
          deferred F cf_tag (do
            cf_label ← new_cf_data F key_name
            deferred F cf_label (do
              sk_attrs ← new_cf_dictionary F (
                  (access_control, ref made.1)
                  ∷ (is_permanent, boolean_true)
                  ∷ (application_tag, ref cf_tag)
                  ∷ (label, ref cf_label)
                  ∷ [])
              deferred F sk_attrs (do
                size ← new_cf_number 256
                attrs ← new_cf_dictionary F (
                    (key_type, ec_sec_prime_random)
                    ∷ (key_size_in_bits, ref size)
                    ∷ (token_id, secure_enclave)
                    ∷ (private_key_attrs, ref sk_attrs)
                    ∷ [])
                deferred F attrs (λ s.
                    let sk = F.create_random_key attrs s in
                    (go_error_released sk.2 >> lift (new_key sk.1)) sk.0))))))
        made.0
