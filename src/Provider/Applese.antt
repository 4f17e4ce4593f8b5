-- ===== src/Provider/Applese.antt =====
-- provider/applese.go: the keys of the Secure Enclave as a source of keys.
use go_skes.Prelude.{
  ◌≡◌, ◌≢◌, refl, Bool, true, false, List, [], ◌∷◌, Option, none, some, bytes_equal, if◌then◌else◌,
  ◌==◌, Bytes, Outcome, ok, err, panic, stuck, map_err, map_err-eq-ok, ℕ, zero, suc,
}
use go_skes.Prelude.Exec.{Exec, resume, lift, ◌>>=◌, ◌>>◌, resume-eq-ok}
use go_skes.Ecdh.PublicKey.{Crypto}
use go_skes.Ecdh.Applese
use go_skes.Ecdh.Applese.{
  Ref, OsStatus, success, fault, duplicate_item, tag, private_keys, application_label, ref,
  Framework, deferred, new_cf_data, new_cf_dictionary, go_status, after_delete, delete_loop,
  remove_key, private_key_by_label,
}
use go_skes.Ecdh.Applese.Device.{key_label_of, public_key, generate_key}
pub mod Keychain
pub mod Ownership
pub mod Search
pub mod Opening
pub mod Deletion
mod Sample
mod SampleLaws
mod Runs

-- An error of ecdh/applese, os.ErrNotExist, and ErrKeyNotFound.
pub data Error : Type 0 where
  enclave : Applese.Error → Error
  not_exist : Error
  key_not_found : Error

abbrev pub from_enclave : {S A : Type 0} → Exec S Applese.Error A → Exec S Error A
from_enclave m s = ((m s).0, map_err enclave (m s).1)

module _ {S : Type 0} (F : Framework S) (C : Crypto) (sha256 : Bytes → Bytes) where
  -- keyID of the public key, which is nil where its bytes are no key on P-256.
  unfoldable pub key_id : Ref → Exec S Error Bytes
  key_id k = do
    pk ← from_enclave (public_key F C k)
    lift (elim pk [ none ↦ panic | some key ↦ ok (sha256 (C.bytes_of key)) ])

  -- The loop of Keys.
  unfoldable pub id_loop : List Ref → Exec S Error (List Bytes)
  unfolding key_id
  id_loop [] = lift (ok [])
  id_loop (sk ∷ keys) = do id ← key_id sk; ids ← id_loop keys; lift (ok (id ∷ ids))

  -- Keys
  unfoldable pub keys : Exec S Error (List Bytes)
  unfolding id_loop
  keys = do refs ← from_enclave (Applese.keys F none); id_loop refs

  -- CreateKey
  unfoldable pub create_key : Bytes → Exec S Error Bytes
  unfolding key_id
  create_key label = do sk ← from_enclave (generate_key F label); key_id sk

  -- The loop of keyLabel.
  unfoldable pub label_loop : Bytes → List Ref → Exec S Error Bytes
  unfolding key_id
  label_loop id [] = lift (err not_exist)
  label_loop id (key ∷ keys) =
      let rest = label_loop id keys in
      (do
        key_id' ← key_id key
        if bytes_equal id key_id' then from_enclave (key_label_of F key) else rest)

  -- keyLabel
  unfoldable pub key_label : Bytes → Exec S Error Bytes
  unfolding label_loop
  key_label id = do refs ← from_enclave (Applese.keys F none); label_loop id refs

  -- OpenKey
  unfoldable pub open_key : Bytes → Exec S Error Ref
  unfolding key_label
  open_key id = do label ← key_label id; from_enclave (private_key_by_label F label)

  -- The end of DestroyKey, by what RemoveKey returned.
  abbrev pub removed : Bool → Outcome Error (Unit {0})
  removed true = ok tt
  removed false = err key_not_found

  -- DestroyKey
  unfoldable pub destroy_key : ℕ → Bytes → Exec S Error (Unit {0})
  unfolding key_label
  destroy_key fuel id = do
    label ← key_label id
    found ← from_enclave (remove_key F fuel label)
    lift (removed found)

  -- appleSecureEnclaveKey.ID
  unfoldable pub id_of : Ref → Exec S Error Bytes
  unfolding key_id
  id_of k = key_id k

after_delete-true :
    {S : Type 0} (F : Framework S) (again : S → S × Outcome Applese.Error Bool) (r : S × OsStatus)
    (b : Bool)
    → ((s : S) → (again s).1 ≡ ok b → b ≡ true)
    → (after_delete F again r).1 ≡ ok b
    → b ≡ true
unfolding after_delete go_status
after_delete-true F again (s, success) b ih h = cc
after_delete-true F again (s, fault v) b ih h = go (v == duplicate_item) h
  where
    go :
        (once_more : Bool)
        → (if once_more then again s else (go_status F (fault v) >> lift (ok true)) s).1 ≡ ok b
        → b ≡ true
    go true e = ih s e
    go false e = cc

delete_loop-true :
    {S : Type 0} (F : Framework S) (fuel : ℕ) (query : Ref) (s : S) (b : Bool)
    → (delete_loop F fuel query s).1 ≡ ok b
    → b ≡ true
unfolding delete_loop
delete_loop-true F zero query s b h = cc
delete_loop-true F (suc fuel) query s b h =
    after_delete-true F (delete_loop F fuel query) (F.item_delete query s) b
      (λ s' e. delete_loop-true F fuel query s' b e) h

-- RemoveKey never returns false without an error: a key that is not there is an error.
pub remove_key-true :
    {S : Type 0} (F : Framework S) (fuel : ℕ) (key : Bytes) (s : S) (b : Bool)
    → (remove_key F fuel key s).1 ≡ ok b
    → b ≡ true
unfolding remove_key new_cf_dictionary
remove_key-true F fuel key s b h =
    let (cf_tag, made, h1) = resume-eq-ok (new_cf_data F tag s).0 (new_cf_data F tag s).1 _ h in
    let s1 = (new_cf_data F tag s).0 in
    let (cf_label, made', h2) =
      resume-eq-ok (new_cf_data F key s1).0 (new_cf_data F key s1).1 _ h1 in
    delete_loop-true F fuel _ _ b h2

map_err-ne :
    {A : Type 0} (r : Outcome Applese.Error A)
    → ◌≢◌ {A = Outcome Error A} (map_err enclave r) (err key_not_found)
map_err-ne (ok a) = λ p. cc
map_err-ne (err e) = λ p. cc
map_err-ne panic = λ p. cc
map_err-ne stuck = λ p. cc

resume-ne :
    {S A B : Type 0} (s : S) (r : Outcome Error A) (f : A → Exec S Error B)
    → r ≢ err key_not_found
    → ((a : A) (s' : S) → r ≡ ok a → (f a s').1 ≢ err key_not_found)
    → (resume s r f).1 ≢ err key_not_found
resume-ne s (ok a) f h fh = fh a s refl
resume-ne s (err e) f h fh = λ p. h (cc)
resume-ne s panic f h fh = λ p. cc
resume-ne s stuck f h fh = λ p. cc

module _ {S : Type 0} (F : Framework S) (C : Crypto) (sha256 : Bytes → Bytes) where
  key_id-ne : (k : Ref) (s : S) → (key_id F C sha256 k s).1 ≢ err key_not_found
  unfolding key_id
  key_id-ne k s =
      resume-ne (public_key F C k s).0 (map_err enclave (public_key F C k s).1) _
        (map_err-ne (public_key F C k s).1) (λ pk s' read. go pk)
    where
      go :
          (pk : Option C.PublicKey)
          → ◌≢◌ {A = Outcome Error Bytes}
              (elim pk [ none ↦ panic | some key ↦ ok (sha256 (C.bytes_of key)) ])
              (err key_not_found)
      go none = λ p. cc
      go (some key) = λ p. cc

  label_loop-ne :
      (id : Bytes) (keys : List Ref) (s : S)
      → (label_loop F C sha256 id keys s).1 ≢ err key_not_found
  unfolding label_loop
  label_loop-ne id [] s = λ p. cc
  label_loop-ne id (key ∷ keys) s =
      resume-ne (key_id F C sha256 key s).0 (key_id F C sha256 key s).1 _ (key_id-ne key s)
        (λ found s' read. go (bytes_equal id found) s' (label_loop-ne id keys s'))
    where
      go :
          (same : Bool) (s' : S)
          → (label_loop F C sha256 id keys s').1 ≢ err key_not_found
          → ((if same then from_enclave (key_label_of F key) else label_loop F C sha256 id keys)
              s').1
            ≢ err key_not_found
      go true s' rest = map_err-ne (key_label_of F key s').1
      go false s' rest = rest

  -- DestroyKey never fails with ErrKeyNotFound, since RemoveKey never returns false without an error.
  pub destroy_key-ne :
      (fuel : ℕ) (id : Bytes) (s : S) → (destroy_key F C sha256 fuel id s).1 ≢ err key_not_found
  unfolding destroy_key key_label
  destroy_key-ne fuel id s =
      let refs = Applese.keys F none s in
      let label = key_label F C sha256 id s in
      resume-ne label.0 label.1 _
        (resume-ne refs.0 (map_err enclave refs.1) _ (map_err-ne refs.1)
          (λ found s' read. label_loop-ne id found s'))
        λ l s' read.
          resume-ne (remove_key F fuel l s').0 (map_err enclave (remove_key F fuel l s').1) _
            (map_err-ne (remove_key F fuel l s').1)
            (λ found s'' gone.
              go found (remove_key-true F fuel l s' found (map_err-eq-ok enclave _ gone)))
    where
      go : (found : Bool) → found ≡ true → removed F C sha256 found ≢ err key_not_found
      go true is = λ p. cc
      go false is = λ p. cc
