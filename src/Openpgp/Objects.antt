-- ===== src/Openpgp/Objects.antt =====
-- internal/openpgp/objects.go: the data objects of the card and their `Decode` methods, each on the
-- value of one TLV. A method that checks the length before it assigns returns the new object; where
-- it returns an error its receiver is unchanged.
use go_skes.Prelude.{
  ℕ, zero, suc, ◌+◌, ◌-◌, ◌*◌, ◌^◌, Bool, not, [], ◌∷◌, Option, some, bit_and, ltb, ◌==◌,
  if◌then◌else◌, length, take, drop, Bytes, Outcome, ok, err, panic, stuck, map_err,
}
use go_skes.Prelude.Exec.{Exec, lift, modify, ◌>>=◌, ◌>>◌}
use go_skes.Iso7816.Tlv.{decode_compact_tlv}
use go_skes.Openpgp.Errors.{Error, iso, invalid_length}

-- binary.BigEndian.Uint16 and Uint32 of the first bytes of a slice.
abbrev pub uint16 : ℕ → ℕ → ℕ
uint16 b0 b1 = b0 * 256 + b1

abbrev pub uint32 : ℕ → ℕ → ℕ → ℕ → ℕ
uint32 b0 b1 b2 b3 = ((b0 * 256 + b1) * 256 + b2) * 256 + b3

-- `b & (1 << k) != 0`
abbrev pub flag : ℕ → ℕ → Bool
flag b k = not (bit_and b (2 ^ k) == 0)

pub record UserInteractionFlag : Type 0 where
  pub requirement : ℕ
  pub feature : ℕ

unfoldable pub decode_user_interaction_flag : Bytes → Outcome Error UserInteractionFlag
decode_user_interaction_flag (b0 ∷ b1 ∷ []) = ok (record { requirement = b0; feature = b1 })
decode_user_interaction_flag _ = err invalid_length

pub record AlgorithmAttributes : Type 0 where
  pub algorithm : ℕ
  pub more : Bytes

unfoldable pub decode_algorithm_attributes : Bytes → Outcome Error AlgorithmAttributes
decode_algorithm_attributes [] = err invalid_length
decode_algorithm_attributes (b0 ∷ rest) = ok (record { algorithm = b0; more = rest })

-- A time of the source is the seconds since 1970, or `none` for the zero time.Time.
pub record KeyInfo : Type 0 where
  pub reference : ℕ
  pub status : ℕ
  pub alg_attrs : AlgorithmAttributes
  pub fingerprint : Bytes
  pub fingerprint_ca : Bytes
  pub generation_time : Option ℕ
  pub uif : UserInteractionFlag

pub record Capabilities : Type 0 where
  pub cmd_chaining : Bool
  pub ext_len : Bool
  pub ext_len_info_in_ef_atr : Bool
  pub logical_chan_num : Bool

pub record CardService : Type 0 where
  pub app_selection_full_df : Bool
  pub app_select_partial_df : Bool
  pub ef_dir_dos_available : Bool
  pub mf : Bool

pub record HistoricalBytes : Type 0 where
  pub category_indicator : ℕ
  pub status_indicator : Bytes
  pub caps : Capabilities
  pub card_service : CardService

-- The loop over compact objects, in which neither case of the switch does anything.
unfoldable pub compact_loop : ℕ → Bytes → Exec HistoricalBytes Error (Unit {0})
compact_loop n [] = lift (ok tt)
compact_loop zero (x ∷ b) = lift stuck
compact_loop (suc n) (x ∷ b) = do
  (t, v, rest) ← lift (map_err iso (decode_compact_tlv (x ∷ b)))
  compact_loop n rest

-- The case of category 0, which goes on with that of 0x80: `b[lb-3:]` panics on fewer than 3 bytes.
unfoldable pub with_status : Bytes → Exec HistoricalBytes Error (Unit {0})
unfolding compact_loop
with_status b = if ltb (length b) 3 then lift panic else do
  modify (λ h. record h { status_indicator = drop (length b - 3) b })
  compact_loop (length b - 3) (take (length b - 3) b)

-- Each round would take a byte, so that `length b` rounds are enough.
unfoldable pub decode_historical_bytes : Bytes → Exec HistoricalBytes Error (Unit {0})
unfolding with_status
decode_historical_bytes [] = lift panic
decode_historical_bytes (b0 ∷ rest) = do
  modify (λ h. record h { category_indicator = b0 })
  if b0 == 0x10
      then lift (ok tt)
      else if b0 == 0x00
      then with_status (b0 ∷ rest)
      else if b0 == 0x80
      then compact_loop (length (b0 ∷ rest)) (b0 ∷ rest)
      else lift (ok tt)

pub record PasswordStatus : Type 0 where
  pub validity_pw1 : ℕ
  pub length_pw1 : ℕ
  pub length_rc : ℕ
  pub length_pw3 : ℕ
  pub attempts_pw1 : ℕ
  pub attempts_rc : ℕ
  pub attempts_pw3 : ℕ

unfoldable pub decode_password_status : Bytes → Outcome Error PasswordStatus
decode_password_status (b0 ∷ b1 ∷ b2 ∷ b3 ∷ b4 ∷ b5 ∷ b6 ∷ []) = ok (record {
  validity_pw1 = b0;
  length_pw1 = b1;
  length_rc = b2;
  length_pw3 = b3;
  attempts_pw1 = b4;
  attempts_rc = b5;
  attempts_pw3 = b6;
})
decode_password_status _ = err invalid_length

pub record ExtendedCapabilities : Type 0 where
  pub secure_messaging : Bool
  pub get_challenge : Bool
  pub key_import : Bool
  pub password_status_changeable : Bool
  pub private_do : Bool
  pub alg_attrs_changeable : Bool
  pub enc_dec_aes : Bool
  pub kdf_do : Bool
  pub alg_secure_messaging : ℕ
  pub max_len_challenge : ℕ
  pub max_len_cardholder_cert : ℕ
  pub max_len_special_do : ℕ
  pub pin2_block_format : ℕ
  pub command_mse : ℕ

unfoldable pub decode_extended_capabilities : Bytes → Outcome Error ExtendedCapabilities
decode_extended_capabilities (b0 ∷ b1 ∷ b2 ∷ b3 ∷ b4 ∷ b5 ∷ b6 ∷ b7 ∷ b8 ∷ b9 ∷ []) = ok (record {
  secure_messaging = flag b0 7;
  get_challenge = flag b0 6;
  key_import = flag b0 5;
  password_status_changeable = flag b0 4;
  private_do = flag b0 3;
  alg_attrs_changeable = flag b0 2;
  enc_dec_aes = flag b0 1;
  kdf_do = flag b0 0;
  alg_secure_messaging = b1;
  max_len_challenge = uint16 b2 b3;
  max_len_cardholder_cert = uint16 b4 b5;
  max_len_special_do = uint16 b6 b7;
  pin2_block_format = b8;
  command_mse = b9;
})
decode_extended_capabilities _ = err invalid_length

pub record GeneralFeatures : Type 0 where
  pub display : Bool
  pub bio : Bool
  pub button : Bool
  pub key_pad : Bool
  pub led : Bool
  pub speaker : Bool
  pub mic : Bool
  pub touchscreen : Bool

-- Of the three bytes only the first one is looked at.
unfoldable pub decode_general_features : Bytes → Outcome Error GeneralFeatures
decode_general_features (b0 ∷ b1 ∷ b2 ∷ []) = ok (record {
  display = flag b0 7;
  bio = flag b0 6;
  button = flag b0 5;
  key_pad = flag b0 4;
  led = flag b0 3;
  speaker = flag b0 2;
  mic = flag b0 1;
  touchscreen = flag b0 0;
})
decode_general_features _ = err invalid_length

pub record ApplicationIdentifier : Type 0 where
  pub rid : Bytes
  pub application : ℕ
  pub version : Bytes
  pub serial : Bytes
  pub manufacturer : ℕ
  pub rfu : Bytes
  pub serial_gpg : ℕ

-- `SerialGPG` keeps the value that the receiver has.
unfoldable pub decode_application_identifier :
    ApplicationIdentifier → Bytes → Outcome Error ApplicationIdentifier
decode_application_identifier aid
      (b0 ∷ b1 ∷ b2 ∷ b3 ∷ b4 ∷ b5 ∷ b6 ∷ b7 ∷ b8 ∷ b9 ∷ b10 ∷ b11 ∷ b12 ∷ b13 ∷ b14 ∷ b15 ∷ []) =
    ok (record aid {
      rid = b0 ∷ b1 ∷ b2 ∷ b3 ∷ b4 ∷ [];
      application = b5;
      version = b6 ∷ b7 ∷ [];
      manufacturer = uint16 b8 b9;
      serial = b10 ∷ b11 ∷ b12 ∷ b13 ∷ [];
      rfu = b14 ∷ b15 ∷ [];
    })
decode_application_identifier aid _ = err invalid_length

pub record ExtendedLengthInfo : Type 0 where
  pub max_command_length : ℕ
  pub max_response_length : ℕ

unfoldable pub decode_extended_length_info : Bytes → Outcome Error ExtendedLengthInfo
decode_extended_length_info (b0 ∷ b1 ∷ b2 ∷ b3 ∷ b4 ∷ b5 ∷ b6 ∷ b7 ∷ []) =
    ok (record { max_command_length = uint16 b2 b3; max_response_length = uint16 b6 b7 })
decode_extended_length_info _ = err invalid_length

-- decodeTime: reading fewer than four bytes panics.
unfoldable pub decode_time : Bytes → Outcome Error (Option ℕ)
decode_time (b0 ∷ b1 ∷ b2 ∷ b3 ∷ rest) = ok (some (uint32 b0 b1 b2 b3))
decode_time _ = panic
