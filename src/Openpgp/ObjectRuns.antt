-- ===== src/Openpgp/ObjectRuns.antt =====
-- The theorems on the data objects at concrete inputs.
use go_skes.Prelude.{
  ℕ, ◌≡◌, ◌≢◌, ◌⊎◌, inr, List, [], ◌∷◌, true, false, arith, length, Bytes, ok, panic,
}
use go_skes.Prelude.Exec.{Ends}
use go_skes.Iso7816.Tag.{tag_bytes}
use go_skes.Iso7816.Header.{length_bytes}
use go_skes.Iso7816.RoundTrip.{object}
use go_skes.Openpgp.Constants.{tag_application_related}
use go_skes.Openpgp.Objects.{
  HistoricalBytes, ExtendedCapabilities, GeneralFeatures, ApplicationIdentifier,
  decode_historical_bytes,
}
use go_skes.Openpgp.Queries.{no_key}
use go_skes.Openpgp.Templates.{Cardholder}
use go_skes.Openpgp.Application.{
  ApplicationRelated, key_info_loop, application_object, decode_application_related,
}
use go_skes.Openpgp.Loops.{objects, steps}
use go_skes.Openpgp.Totality.{decode_application_related-Ends}
use go_skes.Openpgp.Historical.{decode_historical_bytes_lem}
use go_skes.Openpgp.Keys.{with_pairs, key_info_loop_lem}
use go_skes.Openpgp.Containers.{decode_application_related-objects}

-- The zero values of the source.
abbrev no_history : HistoricalBytes
no_history = record {
  category_indicator = 0;
  status_indicator = [];
  caps = record {
    cmd_chaining = false;
    ext_len = false;
    ext_len_info_in_ef_atr = false;
    logical_chan_num = false;
  };
  card_service = record {
    app_selection_full_df = false;
    app_select_partial_df = false;
    ef_dir_dos_available = false;
    mf = false;
  };
}

abbrev no_id : ApplicationIdentifier
no_id = record {
  rid = [];
  application = 0;
  version = [];
  serial = [];
  manufacturer = 0;
  rfu = [];
  serial_gpg = 0;
}

abbrev capable : ExtendedCapabilities
capable = record {
  secure_messaging = false;
  get_challenge = true;
  key_import = true;
  password_status_changeable = true;
  private_do = true;
  alg_attrs_changeable = true;
  enc_dec_aes = false;
  kdf_do = true;
  alg_secure_messaging = 0;
  max_len_challenge = 3063;
  max_len_cardholder_cert = 3063;
  max_len_special_do = 3063;
  pin2_block_format = 0;
  command_mse = 1;
}

abbrev no_features : GeneralFeatures
no_features = record {
  display = false;
  bio = false;
  button = true;
  key_pad = false;
  led = false;
  speaker = false;
  mic = false;
  touchscreen = false;
}

abbrev nothing : ApplicationRelated
nothing = record {
  aid = no_id;
  historical_bytes = no_history;
  length_info = record { max_command_length = 0; max_response_length = 0 };
  capabilities = capable;
  features = no_features;
  password_status = record {
    validity_pw1 = 0;
    length_pw1 = 0;
    length_rc = 0;
    length_pw3 = 0;
    attempts_pw1 = 0;
    attempts_rc = 0;
    attempts_pw3 = 0;
  };
  keys = no_key ∷ no_key ∷ no_key ∷ no_key ∷ [];
}

-- A general feature object that names a button.
abbrev button : List (ℕ × Bytes)
button = (0x7f74, 0x20 ∷ 0 ∷ 0 ∷ []) ∷ []

abbrev application : Bytes
application = object tag_application_related (objects button)

decode_application_related-objects_example :
    decode_application_related application nothing ≡ steps application_object button nothing
unfolding tag_bytes length_bytes
decode_application_related-objects_example =
    decode_application_related-objects button nothing ((inr (omega arith), omega arith), tt)
      (omega arith)

decode_application_related-Ends_example : Ends (decode_application_related application)
decode_application_related-Ends_example = decode_application_related-Ends application

abbrev five_keys : Bytes
five_keys = 1 ∷ 1 ∷ 2 ∷ 1 ∷ 3 ∷ 1 ∷ 4 ∷ 0 ∷ 5 ∷ 0 ∷ []

key_info_loop_lem_example :
    ((key_info_loop 0 five_keys nothing).0.keys ≡ with_pairs five_keys nothing.keys)
    × ((key_info_loop 0 five_keys nothing).1 ≡ panic)
key_info_loop_lem_example = key_info_loop_lem five_keys nothing

abbrev history : Bytes
history = 0x31 ∷ 0xc5 ∷ 0x73 ∷ []

abbrev zero_category : ℕ
zero_category = 0

decode_historical_bytes_lem_example :
    ((zero_category ≢ 0)
      × (zero_category ≢ 0x80)
      × (decode_historical_bytes (zero_category ∷ history) no_history
          ≡ (record no_history { category_indicator = zero_category }, ok tt)))
    ⊎ (((zero_category ≡ 0)
          × (length history ≡ 2)
          × (decode_historical_bytes (zero_category ∷ history) no_history ≡ (
            record no_history {
              category_indicator = zero_category;
              status_indicator = zero_category ∷ history;
            },
            ok tt,
          )))
        ⊎ (((zero_category ≡ 0x80) ⊎ ((zero_category ≡ 0) × (length history ≢ 2)))
            × ((decode_historical_bytes (zero_category ∷ history) no_history).1 ≡ panic)))
decode_historical_bytes_lem_example = decode_historical_bytes_lem 0x00 history no_history

abbrev holder : Cardholder
holder = record { name = b'h' ∷ b'i' ∷ []; language = b'd' ∷ b'e' ∷ []; sex = 0x39 }
