-- ===== src/Ecdh/Applese.antt =====
-- ecdh/applese/applese.go and corefoundation.go: keys in the Secure Enclave.
use go_skes.Prelude.{
  ℕ, zero, suc, Bool, true, false, List, [], ◌∷◌, ◌++◌, Option, none, some, ◌==◌, leb, take, length,
  if◌then◌else◌, codes, Bytes, Outcome, ok, err, panic, stuck,
}
use go_skes.Prelude.Exec.{Exec, lift, ◌>>=◌, ◌>>◌}
pub mod Device
pub mod Balance
pub mod Leaks
pub mod Sample
mod Runs

-- A reference to an object of Core Foundation; nil is 0.
abbrev pub Ref : Type 0
Ref = ℕ

-- The attributes of keys and queries, with the names of the Security framework.
pub data AttrName : Type 0 where
  class : AttrName
  key_class : AttrName
  key_type : AttrName
  token_id : AttrName
  application_tag : AttrName
  application_label : AttrName
  label : AttrName
  return_ref : AttrName
  match_limit : AttrName
  access_control : AttrName
  is_permanent : AttrName
  key_size_in_bits : AttrName
  private_key_attrs : AttrName
  requested_size : AttrName

pub data AttrValue : Type 0 where
  class_key : AttrValue
  class_private : AttrValue
  class_public : AttrValue
  ec_sec_prime_random : AttrValue
  secure_enclave : AttrValue
  boolean_true : AttrValue
  limit_all : AttrValue
  limit_one : AttrValue
  ref : Ref → AttrValue

abbrev pub Attrs : Type 0
Attrs = List (AttrName × AttrValue)

-- An OSStatus: 0, or a negative number, of which `fault` has the absolute value.
pub data OsStatus : Type 0 where
  success : OsStatus
  fault : ℕ → OsStatus

-- What the package uses of Core Foundation and the Security framework, which are not under the
-- repository, on a world `S`. Calls with an error reference return it as the second reference.
pub record Framework (S : Type 0) : Type 0 where
  pub data_create : Bytes → S → S × Ref
  pub number_create : ℕ → S → S × Ref
  pub dictionary_create : Attrs → S → S × Ref
  pub release : Ref → S → S
  pub retain : Ref → S → S
  pub error_code : Ref → S → ℕ
  pub item_delete : Ref → S → S × OsStatus
  pub item_copy_matching : Ref → S → S × OsStatus × Ref
  pub array_values : Ref → S → List Ref
  pub access_control_create : S → S × Ref × Ref
  pub create_random_key : Ref → S → S × Ref × Ref
  pub create_with_data : Ref → Ref → S → S × Ref × Ref
  pub key_exchange : Ref → Ref → Ref → S → S × Ref × Ref
  pub copy_public_key : Ref → S → S × Ref
  pub copy_attributes : Ref → S → S × Ref
  pub application_label_of : Ref → S → Bytes
  pub value_data_of : Ref → S → Option Bytes
  pub data_bytes : Ref → S → Bytes

-- errCreating, osStatusError, cfRefError, and errGeneratingPrivateKey.
pub data Error : Type 0 where
  creating : Error
  os_status : ℕ → Error
  cf_error : ℕ → Error
  generating_private_key : Error

-- errKeyNotFound, and errSecDuplicateItem.
abbrev pub key_not_found : ℕ
key_not_found = 25300

abbrev pub duplicate_item : ℕ
duplicate_item = 25299

abbrev pub tag : Bytes
tag = codes "li.cunicu.hawkes.se.v1"

-- The queries: the private keys of the enclave.
abbrev pub private_keys : Attrs
private_keys =
    (class, class_key)
    ∷ (key_class, class_private)
    ∷ (key_type, ec_sec_prime_random)
    ∷ (token_id, secure_enclave)
    ∷ []

module _ {S : Type 0} (F : Framework S) where
  -- `defer C.CFRelease(r)` around the rest of a function, which runs however that ends.
  abbrev pub deferred : {A : Type 0} → Ref → Exec S Error A → Exec S Error A
  deferred r m s = (F.release r (m s).0, (m s).1)

  -- newCFData
  unfoldable pub new_cf_data : Bytes → Exec S Error Ref
  new_cf_data d s =
      if (F.data_create d s).1 == 0
      then ((F.data_create d s).0, err creating)
      else ((F.data_create d s).0, ok (F.data_create d s).1)

  -- newCFDictionary, which indexes its empty slices where there are no attributes.
  unfoldable pub new_cf_dictionary : Attrs → Exec S Error Ref
  new_cf_dictionary [] s = (s, panic)
  new_cf_dictionary (a ∷ m) s =
      ((F.dictionary_create (a ∷ m) s).0, ok (F.dictionary_create (a ∷ m) s).1)

  -- goError of a status, and of a reference to an error.
  unfoldable pub go_status : OsStatus → Exec S Error (Unit {0})
  go_status success = lift (ok tt)
  go_status (fault v) = lift (err (os_status v))

  unfoldable pub go_error : Ref → Exec S Error (Unit {0})
  go_error e s = if e == 0 then (s, ok tt) else (s, err (cf_error (F.error_code e s)))

  -- What the loop of RemoveKey does with a status.
  unfoldable pub after_delete : (S → S × Outcome Error Bool) → S × OsStatus → S × Outcome Error Bool
  unfolding go_status
  after_delete again (s, success) = (s, ok true)
  after_delete again (s, fault v) =
      let rest = again s in
      if v == duplicate_item then rest else (go_status (fault v) >> lift (ok true)) s

  unfoldable pub delete_loop : ℕ → Ref → Exec S Error Bool
  unfolding after_delete
  delete_loop zero query s = (s, stuck)
  delete_loop (suc fuel) query s = after_delete (delete_loop fuel query) (F.item_delete query s)

  -- RemoveKey
  unfoldable pub remove_key : ℕ → Bytes → Exec S Error Bool
  unfolding new_cf_data new_cf_dictionary delete_loop
  remove_key fuel key = do
    cf_tag ← new_cf_data tag
    deferred cf_tag (do
      cf_app_label ← new_cf_data key
      deferred cf_app_label (do
        query ← new_cf_dictionary (private_keys ++ ((application_label, ref cf_app_label) ∷ []))
        deferred query (delete_loop fuel query)))

  abbrev pub retain_all : List Ref → S → S
  retain_all [] s = s
  retain_all (r ∷ refs) s = retain_all refs (F.retain r s)

  -- The references of an array: `&refs[0]` panics where it is empty.
  abbrev pub copy_refs : List Ref → Exec S Error (List Ref)
  copy_refs [] s = (s, panic)
  copy_refs (r ∷ refs) s = (retain_all (r ∷ refs) s, ok (r ∷ refs))

  -- What Keys does with the result of its query.
  unfoldable pub found_keys : OsStatus → Ref → Exec S Error (List Ref)
  found_keys success result s = deferred result (copy_refs (F.array_values result s)) s
  found_keys (fault v) result s = if v == key_not_found then (s, ok []) else (s, err (os_status v))

  unfoldable pub query_keys : Attrs → Exec S Error (List Ref)
  unfolding new_cf_dictionary found_keys
  query_keys m = do
    query ← new_cf_dictionary m
    deferred query
        (λ s. let found = F.item_copy_matching query s in found_keys found.1 found.2 found.0)

  -- Keys; a nil hash is `none`.
  unfoldable pub keys : Option Bytes → Exec S Error (List Ref)
  unfolding query_keys new_cf_data
  keys none =
      query_keys (private_keys ++ ((return_ref, boolean_true) ∷ (match_limit, limit_all) ∷ []))
  keys (some hash) = do
    cf_app_label ← new_cf_data hash
    deferred cf_app_label (
        query_keys (
          private_keys
          ++ ((return_ref, boolean_true)
              ∷ (match_limit, limit_all)
              ∷ (application_label, ref cf_app_label)
              ∷ [])))

  -- PrivateKeyByLabel
  unfoldable pub private_key_by_label : Bytes → Exec S Error Ref
  unfolding new_cf_data new_cf_dictionary go_status
  private_key_by_label key = do
    cf_tag ← new_cf_data tag
    deferred cf_tag (do
      cf_app_label ← new_cf_data key
      deferred cf_app_label (do
        query ← new_cf_dictionary (
            private_keys
            ++ ((application_tag, ref cf_tag)
                ∷ (application_label, ref cf_app_label)
                ∷ (return_ref, boolean_true)
                ∷ (match_limit, limit_one)
                ∷ []))
        deferred query (λ s.
            let found = F.item_copy_matching query s in
            (go_status found.1 >> lift (ok found.2)) found.0)))
