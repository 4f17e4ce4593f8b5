-- ===== src/Provider/Runs.antt =====
-- The theorems on the keys in files at concrete inputs.
use mathlib.Core.List.{Permᴰ}
use mathlib.Core.List.Permᴰ
use go_skes.Prelude.{true, ◌≡◌, refl, [], ◌∷◌, ◌++◌, some, false, bytes_equal, codes, Bytes, ok}
use go_skes.Provider.File.{
  Entry, listed, FileKey, key_files, keys, read_all, load_private_key, file_loop, list_keys,
  key_file_by_id, key_by_id, open_key,
}
use go_skes.Provider.Store.{complete, create_key, destroy_key}
use go_skes.Prelude.Bag.{as_bag}
use go_skes.Provider.Order.{as_bag-list_keys}
use go_skes.Ecdh.PublicKey
use go_skes.Ecdh.PublicKey.{p256}
use go_skes.Ecdh.Software.{Private, own, dh}
use go_skes.Provider.FileKey.{id, file_public, file_dh, id-open_key}
use go_skes.Prelude.Scan.{pos}
use go_skes.Provider.Slots.{
  PivSlotRef, Refuses, marshal_piv, unmarshal_openpgp, unmarshal_piv, unmarshal_pkcs11,
  unmarshal_tpm2, unmarshal_text_lem,
}
use go_skes.Provider.Sample.{load, plain, in_order, entries}
use go_skes.Provider.Lifecycle.{open_key-create_key, destroy_key-create_key}

abbrev label : Bytes
label = codes "work"

open_key-create_key_example :
    ((create_key plain complete label (ok (3 ∷ [])) (listed entries)).1 ≡ ok (3 ∷ []))
    × (open_key plain in_order
          (3 ∷ [])
          (create_key plain complete label (ok (3 ∷ [])) (listed entries)).0
        ≡ ok (record { key = 3 ∷ []; label = label }))
unfolding load keys key_files read_all bytes_equal
open_key-create_key_example =
    open_key-create_key plain in_order label (3 ∷ []) entries ((codes "a.key", 1 ∷ 2 ∷ []) ∷ [])
      Permᴰ.refl refl refl refl (((1 ∷ 2 ∷ []), refl), tt) ((λ (sk, loaded, same). cc), tt)

destroy_key-create_key_example :
    destroy_key plain in_order true
      (3 ∷ [])
      (create_key plain complete label (ok (3 ∷ [])) (listed entries)).0
    ≡ (listed entries, ok tt)
unfolding load keys key_files read_all bytes_equal
destroy_key-create_key_example =
    destroy_key-create_key plain in_order label (3 ∷ []) entries ((codes "a.key", 1 ∷ 2 ∷ []) ∷ [])
      Permᴰ.refl refl refl refl (((1 ∷ 2 ∷ []), refl), tt) ((λ (sk, loaded, same). cc), tt)

-- Two key files, in the two orders.
abbrev first_entry : Entry
first_entry = record { name = codes "a.key"; is_dir = false; content = some (1 ∷ 2 ∷ []) }

abbrev second_entry : Entry
second_entry = record { name = codes "b.key"; is_dir = false; content = some (5 ∷ []) }

as_bag-list_keys_example :
    as_bag (list_keys plain in_order (listed (first_entry ∷ second_entry ∷ [])))
    ≡ as_bag (list_keys plain in_order (listed (second_entry ∷ first_entry ∷ [])))
as_bag-list_keys_example =
    as_bag-list_keys plain in_order in_order Permᴰ.refl Permᴰ.refl (first_entry ∷ second_entry ∷ [])
      (second_entry ∷ first_entry ∷ []) (Permᴰ.swap refl refl)

-- The same keys as keys on P-256, whose secrets are the bytes of both.
abbrev curve : PublicKey.Crypto
curve = record {
  Point = Bytes;
  PublicKey = Bytes;
  curve_of = λ pk. p256;
  bytes_of = λ pk. pk;
  new_public_key = λ c. load;
  unmarshal_point = λ c. load;
  encode_string = λ b. b;
  decode_string = λ t. some t;
}

abbrev private : Private curve
private = record {
  PrivateKey = Bytes;
  Source = Bytes;
  rand_reader = 7 ∷ [];
  generate_key = λ c random. some random;
  new_private_key = λ c. load;
  private_curve = λ sk. p256;
  private_bytes = λ sk. sk;
  public_of = λ sk. sk;
  ecdh = λ sk pk. some (sk ++ pk);
}

abbrev key_of_a : FileKey
key_of_a = record { key = 1 ∷ 2 ∷ []; label = codes "a" }

id-open_key_example :
    (id curve private (λ b. b) key_of_a ≡ ok (1 ∷ 2 ∷ []))
    × ((sk : Bytes) × (file_public curve private (λ b. b) key_of_a ≡ ok (some (own sk)))
        × (sk ≡ 1 ∷ 2 ∷ [])
        × (file_dh curve private (λ b. b) key_of_a (own (9 ∷ []))
            ≡ dh curve private (some sk) (own (9 ∷ []))))
unfolding load open_key key_by_id key_file_by_id keys key_files read_all bytes_equal file_loop
    load_private_key
id-open_key_example =
    id-open_key curve private (λ b. b) in_order (1 ∷ 2 ∷ []) entries key_of_a (own (9 ∷ []))
      Permᴰ.refl ((refl, (refl, tt)), ((refl, tt), (tt, tt))) refl

-- The text of a reference to a slot of a PIV token, and those of the other kinds before it is read.
abbrev piv_slot : PivSlotRef
piv_slot = record { serial_no = pos 1234; slot = pos 9 }

unmarshal_text_lem_example :
    Refuses
      (record { serial_no = pos 0; slot = pos 0 })
      (unmarshal_openpgp (marshal_piv piv_slot) (record { serial_no = pos 0; slot = pos 0 }))
    × Refuses piv_slot (unmarshal_piv (marshal_piv piv_slot) piv_slot)
    × Refuses
        (record { slot = pos 0; library = [] })
        (unmarshal_pkcs11 (marshal_piv piv_slot) (record { slot = pos 0; library = [] }))
    × Refuses
        (record { device = [] })
        (unmarshal_tpm2 (marshal_piv piv_slot) (record { device = [] }))
unmarshal_text_lem_example =
    unmarshal_text_lem (marshal_piv piv_slot) (record { serial_no = pos 0; slot = pos 0 }) piv_slot
      (record { slot = pos 0; library = [] }) (record { device = [] })
