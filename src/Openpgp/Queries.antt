-- ===== src/Openpgp/Queries.antt =====
-- internal/openpgp/card.go: the queries that get an object of the card and decode it, and the name of
-- the manufacturer in objects.go.
use Prim.Native.String.{String}
use go_skes.Prelude.{
  ℕ, ◌+◌, ◌≤◌, ◌<◌, ◌^◌, ◌≡◌, refl, false, [], ◌∷◌, none, some, length, Bytes, Outcome, ok,
  ◌>>=◌ as and_then,
}
use go_skes.Prelude.Exec.{lift, ◌>>=◌}
use go_skes.Iso7816.Instructions.{ins_get_data}
use go_skes.Iso7816.RoundTrip.{object}
use go_skes.Openpgp.Constants.{
  tag_cardholder_related, tag_application_related, tag_security_support_template,
}
use go_skes.Openpgp.Tables.{manufacturers, lookup}
use go_skes.Openpgp.Errors.{Error}
use go_skes.Openpgp.Apdu.{command_part, response_part, command_apdu}
use go_skes.Openpgp.Objects.{KeyInfo, ApplicationIdentifier}
use go_skes.Openpgp.Templates.{
  Cardholder, decode_cardholder, SecuritySupportTemplate, decode_security_support_template,
}
use go_skes.Openpgp.Application.{ApplicationRelated, decode_application_related}
use go_skes.Openpgp.Reader.{Reader, Card, Io}
use go_skes.Openpgp.Card.{get_data}
use go_skes.Openpgp.Chaining.{Answers, communicate-Answers}
use go_skes.Openpgp.Containers.{cardholder_bytes, decode_cardholder_lem}

-- The zero values of the structs. The zero time.Time is `none`.
abbrev pub no_key : KeyInfo
no_key = record {
  reference = 0;
  status = 0;
  alg_attrs = record { algorithm = 0; more = [] };
  fingerprint = [];
  fingerprint_ca = [];
  generation_time = none;
  uif = record { requirement = 0; feature = 0 };
}

abbrev pub no_application : ApplicationRelated
no_application = record {
  aid = record {
    rid = 0 ∷ 0 ∷ 0 ∷ 0 ∷ 0 ∷ [];
    application = 0;
    version = 0 ∷ 0 ∷ [];
    serial = 0 ∷ 0 ∷ 0 ∷ 0 ∷ [];
    manufacturer = 0;
    rfu = 0 ∷ 0 ∷ [];
    serial_gpg = 0;
  };
  historical_bytes = record {
    category_indicator = 0;
    status_indicator = [];
    caps = record {
      cmd_chaining = false;
      ext_len = false;
      ext_len_info_in_ef_atr = false;
      logical_chan_num = false;
    };
    card_service = record {
      app_selection_full_df = false;
      app_select_partial_df = false;
      ef_dir_dos_available = false;
      mf = false;
    };
  };
  length_info = record { max_command_length = 0; max_response_length = 0 };
  capabilities = record {
    secure_messaging = false;
    get_challenge = false;
    key_import = false;
    password_status_changeable = false;
    private_do = false;
    alg_attrs_changeable = false;
    enc_dec_aes = false;
    kdf_do = false;
    alg_secure_messaging = 0;
    max_len_challenge = 0;
    max_len_cardholder_cert = 0;
    max_len_special_do = 0;
    pin2_block_format = 0;
    command_mse = 0;
  };
  features = record {
    display = false;
    bio = false;
    button = false;
    key_pad = false;
    led = false;
    speaker = false;
    mic = false;
    touchscreen = false;
  };
  password_status = record {
    validity_pw1 = 0;
    length_pw1 = 0;
    length_rc = 0;
    length_pw3 = 0;
    attempts_pw1 = 0;
    attempts_rc = 0;
    attempts_pw3 = 0;
  };
  keys = no_key ∷ no_key ∷ no_key ∷ no_key ∷ [];
}

abbrev pub no_cardholder : Cardholder
no_cardholder = record { name = []; language = []; sex = 0 }

abbrev pub no_template : SecuritySupportTemplate
no_template = record { signature_counter = 0 ∷ 0 ∷ 0 ∷ []; card_holder_certs = [] ∷ [] ∷ [] ∷ [] }

-- `return x, x.Decode(resp)`: what a caller without an error gets is the object that was filled.
unfoldable pub filled : {S : Type 0} → S × Outcome Error (Unit {0}) → Outcome Error S
filled (s, r) = and_then r λ u. ok s

module _ (R : Reader) (fuel : ℕ) where
  -- GetApplicationRelatedData
  unfoldable pub get_application_related_data : Card → Io R ApplicationRelated
  unfolding filled
  get_application_related_data c = do
    resp ← get_data R fuel c tag_application_related
    lift (filled (decode_application_related resp no_application))

  -- GetSecuritySupportTemplate
  unfoldable pub get_security_support_template : Card → Io R SecuritySupportTemplate
  unfolding filled
  get_security_support_template c = do
    resp ← get_data R fuel c tag_security_support_template
    lift (filled (decode_security_support_template resp no_template))

  -- GetCardholder
  unfoldable pub get_cardholder : Card → Io R Cardholder
  unfolding filled
  get_cardholder c = do
    resp ← get_data R fuel c tag_cardholder_related
    lift (filled (decode_cardholder resp no_cardholder))

-- ApplicationIdentifier.ManufacturerName
unfoldable pub manufacturer_name : ApplicationIdentifier → String
unfolding lookup
manufacturer_name aid = elim (lookup aid.manufacturer manufacturers) [
  | some manu ↦ manu
  | none ↦ "unknown"
]

-- The command for the cardholder's data.
abbrev pub cardholder_apdu : Bytes
cardholder_apdu = 0x00 ∷ 0xca ∷ 0x00 ∷ 0x65 ∷ 0x00 ∷ []

cardholder_built : command_apdu ins_get_data 0x00 0x65 [] 0 ≡ ok cardholder_apdu
unfolding command_apdu command_part response_part
cardholder_built = refl

-- GetCardholder returns the cardholder whose object, of fewer than 2 ^ 16 bytes inside, the card
-- answers with status 90 00, in however many responses it comes. The fuel is at least their number
-- less one, and `longer` is 0, as in every card that NewCard returns.
pub get_cardholder_lem :
    (R : Reader) (fuel : ℕ) (c : Card) (ch : Cardholder) (s t : R.State) (k : ℕ)
    → c.longer ≡ 0
    → length (cardholder_bytes ch) < 2 ^ 16
    → Answers R s cardholder_apdu k
        (object tag_cardholder_related (cardholder_bytes ch))
        0x90
        0x00
        t
    → k ≤ fuel + 1
    → get_cardholder R fuel c s ≡ (t, ok ch)
unfolding get_cardholder filled get_data
get_cardholder_lem R fuel c ch s t k none_expected small a h =
    rw (none_expected, communicate-Answers R fuel ins_get_data 0x00 0x65 [] 0 cardholder_built a h)
      (rw (decode_cardholder_lem ch no_cardholder small) refl)
