-- ===== src/Ecdh/Applese/Sample.antt =====
-- ecdh/applese: an enclave with two keys, of which none can be deleted, for the runs. Its world is the
-- number of the references that are held.
use go_skes.Prelude.{ℕ, suc, ◌-◌, some, [], ◌∷◌, codes, Bytes}
use go_skes.Ecdh.PublicKey.{p256, Crypto}
use go_skes.Ecdh.Applese.{success, fault, key_not_found, Framework}

abbrev pub enclave : Framework ℕ
enclave = record {
  data_create = λ d s. (suc s, 1);
  number_create = λ n s. (suc s, 2);
  dictionary_create = λ m s. (suc s, 3);
  release = λ r s. s - 1;
  retain = λ r s. suc s;
  error_code = λ e s. 4;
  item_delete = λ q s. (s, fault key_not_found);
  item_copy_matching = λ q s. (suc s, success, 5);
  array_values = λ r s. 6 ∷ 7 ∷ [];
  access_control_create = λ s. (suc s, 8, 0);
  create_random_key = λ attrs s. (suc s, 9, 0);
  create_with_data = λ d attrs s. (suc s, 10, 0);
  key_exchange = λ k pk params s. (suc s, 11, 0);
  copy_public_key = λ k s. (suc s, 12);
  copy_attributes = λ k s. (suc s, 13);
  application_label_of = λ r s. codes "0123456789abcdefghij";
  value_data_of = λ r s. some (r ∷ []);
  data_bytes = λ r s. r ∷ [];
}

-- Public keys that are their own bytes.
abbrev pub plain : Crypto
plain = record {
  Point = Bytes;
  PublicKey = Bytes;
  curve_of = λ pk. p256;
  bytes_of = λ pk. pk;
  new_public_key = λ c pk. some pk;
  unmarshal_point = λ c pk. some pk;
  encode_string = λ b. b;
  decode_string = λ t. some t;
}
