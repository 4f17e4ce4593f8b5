-- ===== src/Ecdh/Applese/Runs.antt =====
-- ecdh/applese/applese.go: the theorems on the objects at an enclave with two keys, of which one cannot
-- be deleted. Its world is the number of the references that are held.
use go_skes.Prelude.{◌≡◌, refl, Bool, some, codes, length}
use go_skes.Ecdh.Applese.{
  Ref, new_cf_data, new_cf_dictionary, go_error, remove_key, keys, private_key_by_label,
}
use go_skes.Ecdh.Applese.Sample.{enclave}
use go_skes.Ecdh.Applese.Balance.{Counted, Leaves, keys-Leaves_all}
use go_skes.Ecdh.Applese.Device.{new_cf_number, load_public_key, dh}
use go_skes.Ecdh.Applese.Leaks.{Made, dh-live}

counted : Counted enclave
counted = record {
  live = λ s. s;
  data_lem = λ d s. refl;
  dictionary_lem = λ m s. refl;
  release_lem = λ r s. refl;
  retain_lem = λ r s. refl;
  delete_lem = λ q s. refl;
  matching_lem = λ q s. refl;
}

keys-Leaves_all_example :
    Leaves enclave counted (λ (b : Bool). 0) (remove_key enclave 9 (codes "a")) 2
    × Leaves enclave counted length (keys enclave (some (codes "a"))) 2
    × Leaves enclave counted (λ (r : Ref). 1) (private_key_by_label enclave (codes "a")) 2
keys-Leaves_all_example = keys-Leaves_all enclave counted 9 (codes "a") (some (codes "a")) 2

made : Made enclave counted
unfolding counted
made = record {
  number_lem = λ u s. refl;
  with_data_lem = λ d attrs s. refl;
  exchange_lem = λ k pk params s. refl;
}

dh-live_example : (dh enclave 9 (codes "k") 5).0 ≡ 7
unfolding counted dh load_public_key new_cf_number new_cf_data new_cf_dictionary go_error
dh-live_example = dh-live enclave counted made 9 (codes "k") 5
