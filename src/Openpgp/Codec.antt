-- ===== src/Openpgp/Codec.antt =====
-- internal/openpgp/objects.go: the data objects of a fixed length against an encoder of the same
-- object, as the OpenPGP card specification lays it out.
use go_skes.Prelude.{
  ℕ, ◌+◌, ◌*◌, ◌/◌, ◌%◌, ◌<◌, ◌≡◌, refl, [], ◌∷◌, arith, length, All, IsByte, inl, inr, ◌++◌, ◌≢◌,
  ◌⊎◌, Bytes, ok, err,
}
use go_skes.Prelude.Flags.{
  byte_of, test_bit0, test_bit1, test_bit2, test_bit3, test_bit4, test_bit5, test_bit6, test_bit7,
}
use go_skes.Openpgp.Errors.{invalid_length}
use go_skes.Openpgp.Objects.{
  PasswordStatus, ExtendedCapabilities, GeneralFeatures, ApplicationIdentifier,
  decode_password_status, decode_extended_capabilities, decode_general_features,
  decode_application_identifier,
}

halves : (n : ℕ) → n / 256 * 256 + n % 256 ≡ n
halves n = omega arith

-- The bytes of the extended capabilities.
abbrev pub capabilities_bytes : ExtendedCapabilities → Bytes
capabilities_bytes c =
    byte_of c.secure_messaging c.get_challenge c.key_import c.password_status_changeable
      c.private_do c.alg_attrs_changeable c.enc_dec_aes c.kdf_do
    ∷ c.alg_secure_messaging
    ∷ c.max_len_challenge / 256
    ∷ c.max_len_challenge % 256
    ∷ c.max_len_cardholder_cert / 256
    ∷ c.max_len_cardholder_cert % 256
    ∷ c.max_len_special_do / 256
    ∷ c.max_len_special_do % 256
    ∷ c.pin2_block_format
    ∷ c.command_mse
    ∷ []

-- ExtendedCapabilities.Decode reads every object back from its ten bytes.
pub decode_extended_capabilities_lem :
    (c : ExtendedCapabilities) → decode_extended_capabilities (capabilities_bytes c) ≡ ok c
unfolding decode_extended_capabilities
decode_extended_capabilities_lem c = rw (
  test_bit7,
  test_bit6,
  test_bit5,
  test_bit4,
  test_bit3,
  test_bit2,
  test_bit1,
  test_bit0,
  halves c.max_len_challenge,
  halves c.max_len_cardholder_cert,
  halves c.max_len_special_do,
)

-- The bytes of the general features; the last two are not read.
abbrev pub features_bytes : GeneralFeatures → ℕ → ℕ → Bytes
features_bytes f x y =
    byte_of f.display f.bio f.button f.key_pad f.led f.speaker f.mic f.touchscreen ∷ x ∷ y ∷ []

-- GeneralFeatures.Decode reads every object back, whatever the last two bytes are.
pub decode_general_features_lem :
    (f : GeneralFeatures) (x y : ℕ) → decode_general_features (features_bytes f x y) ≡ ok f
unfolding decode_general_features
decode_general_features_lem f x y =
    rw (test_bit7, test_bit6, test_bit5, test_bit4, test_bit3, test_bit2, test_bit1, test_bit0)

-- The bytes of an application identifier.
abbrev pub identifier_bytes : ApplicationIdentifier → Bytes
identifier_bytes a =
    a.rid
    ++ (a.application
        ∷ (a.version ++ (a.manufacturer / 256 ∷ a.manufacturer % 256 ∷ (a.serial ++ a.rfu))))

-- On bytes, ApplicationIdentifier.Decode accepts exactly the slices of sixteen, and what it reads
-- lays out as them; `SerialGPG` is left as it was.
pub decode_application_identifier_lem :
    (aid : ApplicationIdentifier) (b : Bytes)
    → All IsByte b
    → ((length b ≢ 16) × (decode_application_identifier aid b ≡ err invalid_length))
      ⊎ ((length b ≡ 16)
          × ((a : ApplicationIdentifier) × (decode_application_identifier aid b ≡ ok a)
              × (identifier_bytes a ≡ b)
              × (a.serial_gpg ≡ aid.serial_gpg)))
unfolding decode_application_identifier
decode_application_identifier_lem aid
      (b0 ∷ b1 ∷ b2 ∷ b3 ∷ b4 ∷ b5 ∷ b6 ∷ b7 ∷ b8 ∷ b9 ∷ b10 ∷ b11 ∷ b12 ∷ b13 ∷ b14 ∷ b15 ∷ [])
      (h0, (h1, (h2, (h3, (h4, (h5, (h6, (h7, (h8, (h9, hs)))))))))) =
    inr (refl, (_, refl, rw (high b8 b9 h9, low b8 b9 h9), refl))
  where
    high : (x y : ℕ) → y < 256 → (x * 256 + y) / 256 ≡ x
    high x y h = omega arith

    low : (x y : ℕ) → y < 256 → (x * 256 + y) % 256 ≡ y
    low x y h = omega arith
decode_application_identifier_lem aid ([]) hs = inl (ground arith, refl)
decode_application_identifier_lem aid (b0 ∷ []) hs = inl (ground arith, refl)
decode_application_identifier_lem aid (b0 ∷ b1 ∷ []) hs = inl (ground arith, refl)
decode_application_identifier_lem aid (b0 ∷ b1 ∷ b2 ∷ []) hs = inl (ground arith, refl)
decode_application_identifier_lem aid (b0 ∷ b1 ∷ b2 ∷ b3 ∷ []) hs = inl (ground arith, refl)
decode_application_identifier_lem aid (b0 ∷ b1 ∷ b2 ∷ b3 ∷ b4 ∷ []) hs = inl (ground arith, refl)
decode_application_identifier_lem aid (b0 ∷ b1 ∷ b2 ∷ b3 ∷ b4 ∷ b5 ∷ []) hs =
    inl (ground arith, refl)
decode_application_identifier_lem aid (b0 ∷ b1 ∷ b2 ∷ b3 ∷ b4 ∷ b5 ∷ b6 ∷ []) hs =
    inl (ground arith, refl)
decode_application_identifier_lem aid (b0 ∷ b1 ∷ b2 ∷ b3 ∷ b4 ∷ b5 ∷ b6 ∷ b7 ∷ []) hs =
    inl (ground arith, refl)
decode_application_identifier_lem aid (b0 ∷ b1 ∷ b2 ∷ b3 ∷ b4 ∷ b5 ∷ b6 ∷ b7 ∷ b8 ∷ []) hs =
    inl (ground arith, refl)
decode_application_identifier_lem aid (b0 ∷ b1 ∷ b2 ∷ b3 ∷ b4 ∷ b5 ∷ b6 ∷ b7 ∷ b8 ∷ b9 ∷ []) hs =
    inl (ground arith, refl)
decode_application_identifier_lem aid (b0 ∷ b1 ∷ b2 ∷ b3 ∷ b4 ∷ b5 ∷ b6 ∷ b7 ∷ b8 ∷ b9 ∷ b10 ∷ [])
      hs =
    inl (ground arith, refl)
decode_application_identifier_lem aid
      (b0 ∷ b1 ∷ b2 ∷ b3 ∷ b4 ∷ b5 ∷ b6 ∷ b7 ∷ b8 ∷ b9 ∷ b10 ∷ b11 ∷ []) hs =
    inl (ground arith, refl)
decode_application_identifier_lem aid
      (b0 ∷ b1 ∷ b2 ∷ b3 ∷ b4 ∷ b5 ∷ b6 ∷ b7 ∷ b8 ∷ b9 ∷ b10 ∷ b11 ∷ b12 ∷ []) hs =
    inl (ground arith, refl)
decode_application_identifier_lem aid
      (b0 ∷ b1 ∷ b2 ∷ b3 ∷ b4 ∷ b5 ∷ b6 ∷ b7 ∷ b8 ∷ b9 ∷ b10 ∷ b11 ∷ b12 ∷ b13 ∷ []) hs =
    inl (ground arith, refl)
decode_application_identifier_lem aid
      (b0 ∷ b1 ∷ b2 ∷ b3 ∷ b4 ∷ b5 ∷ b6 ∷ b7 ∷ b8 ∷ b9 ∷ b10 ∷ b11 ∷ b12 ∷ b13 ∷ b14 ∷ []) hs =
    inl (ground arith, refl)
decode_application_identifier_lem aid
      (b0 ∷ b1 ∷ b2 ∷ b3 ∷ b4 ∷ b5 ∷ b6 ∷ b7 ∷ b8 ∷ b9 ∷ b10 ∷ b11 ∷ b12 ∷ b13 ∷ b14 ∷ b15 ∷ b16
        ∷ b)
      hs =
    inl (ground arith, refl)

-- The bytes of a password status.
abbrev pub status_bytes : PasswordStatus → Bytes
status_bytes p =
    p.validity_pw1 ∷ p.length_pw1 ∷ p.length_rc ∷ p.length_pw3 ∷ p.attempts_pw1 ∷ p.attempts_rc
    ∷ p.attempts_pw3 ∷ []

-- PasswordStatus.Decode accepts exactly seven bytes, and what it reads lays out as them.
pub decode_password_status_lem :
    (b : Bytes)
    → ((length b ≢ 7) × (decode_password_status b ≡ err invalid_length))
      ⊎ ((length b ≡ 7)
          × ((p : PasswordStatus) × (decode_password_status b ≡ ok p) × (status_bytes p ≡ b)))
unfolding decode_password_status
decode_password_status_lem (b0 ∷ b1 ∷ b2 ∷ b3 ∷ b4 ∷ b5 ∷ b6 ∷ []) = inr (refl, (_, refl, refl))
decode_password_status_lem ([]) = inl (ground arith, refl)
decode_password_status_lem (b0 ∷ []) = inl (ground arith, refl)
decode_password_status_lem (b0 ∷ b1 ∷ []) = inl (ground arith, refl)
decode_password_status_lem (b0 ∷ b1 ∷ b2 ∷ []) = inl (ground arith, refl)
decode_password_status_lem (b0 ∷ b1 ∷ b2 ∷ b3 ∷ []) = inl (ground arith, refl)
decode_password_status_lem (b0 ∷ b1 ∷ b2 ∷ b3 ∷ b4 ∷ []) = inl (ground arith, refl)
decode_password_status_lem (b0 ∷ b1 ∷ b2 ∷ b3 ∷ b4 ∷ b5 ∷ []) = inl (ground arith, refl)
decode_password_status_lem (b0 ∷ b1 ∷ b2 ∷ b3 ∷ b4 ∷ b5 ∷ b6 ∷ b7 ∷ b) = inl (ground arith, refl)
