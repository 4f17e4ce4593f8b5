-- ===== src/Provider/FileKey.antt =====
-- provider/file.go: an opened key of a file, which is a software key on P-256, and the directory that
-- the provider uses.
use go_skes.Prelude.{
  ◌≡◌, refl, ap, List, [], ◌∷◌, Option, none, some, codes, Bytes, Outcome, ok, err, panic, stuck,
  ◌>>=◌,
}
use go_skes.Prelude.Exec.{Exec}
use go_skes.Ecdh.PublicKey
use go_skes.Ecdh.PublicKey.{p256}
use go_skes.Ecdh.Software
use go_skes.Ecdh.Software.{Private, DhPublicKey, own, foreign, load_private_key, public, dh}
use go_skes.Provider.File.{Crypto, Directory, listed, absent, unlisted, Entry, FileKey, open_key}
use go_skes.Provider.Lookup.{Iterates}
use go_skes.Provider.Listing.{Distinct, open_key-HasId}

-- What newFileProvider fails with: no home directory, or one in which the directory of the keys
-- cannot be made.
pub data SetupError : Type 0 where
  home_dir : SetupError
  create : SetupError

-- newFileProvider; `home` is what os.UserHomeDir returns, and the directory of the keys is the one
-- below it: os.MkdirAll makes it where it is absent.
unfoldable pub new_file_provider : Option Bytes → Exec Directory SetupError (Unit {0})
new_file_provider none dir = (dir, err home_dir)
new_file_provider (some home) (listed des) = (listed des, ok tt)
new_file_provider (some home) absent = (listed [], ok tt)
new_file_provider (some home) unlisted = (unlisted, err create)

-- fileKey.HMAC, with HMAC-SHA256 of the standard library.
unfoldable pub hmac : (Bytes → Bytes → Bytes) → FileKey → Bytes → Bytes
hmac hmac_sha256 k chal = hmac_sha256 k.key chal

-- fileKey.Details
unfoldable pub details : FileKey → List (Bytes × Bytes)
details k = (codes "label", k.label) ∷ []

module _ (C : PublicKey.Crypto) (P : Private C) (sha256 : Bytes → Bytes) where
  -- The cryptography of the files: software keys on P-256.
  abbrev pub file_crypto : Crypto
  file_crypto = record {
    Key = P.PrivateKey;
    new_private_key = P.new_private_key p256;
    bytes = P.private_bytes;
    public = λ sk. C.bytes_of (P.public_of sk);
    sha256 = sha256;
  }

  abbrev pub public_bytes : DhPublicKey C → Bytes
  public_bytes (own pk) = C.bytes_of pk
  public_bytes foreign = []

  -- A failure that the code turns into a panic.
  abbrev pub or_panic : {E A : Type 0} → Outcome E A → Outcome E A
  or_panic (ok a) = ok a
  or_panic (err e) = panic
  or_panic panic = panic
  or_panic stuck = stuck

  -- fileKey.ID
  unfoldable pub id : FileKey → Outcome Software.Error Bytes
  id k = do
    sk ← or_panic (load_private_key C P p256 k.key)
    pk ← public C P sk
    ok (sha256 (public_bytes pk))

  -- fileKey.DH
  unfoldable pub file_dh : FileKey → DhPublicKey C → Outcome Software.Error Bytes
  file_dh k pk = do sk ← load_private_key C P p256 k.key; dh C P sk pk

  abbrev nil_on_error : {E A : Type 0} → Outcome E A → Outcome E (Option A)
  nil_on_error (ok a) = ok (some a)
  nil_on_error (err e) = ok none
  nil_on_error panic = panic
  nil_on_error stuck = stuck

  -- fileKey.Public, which returns nil where the key does not load.
  unfoldable pub file_public : FileKey → Outcome Software.Error (Option (DhPublicKey C))
  file_public k = elim (load_private_key C P p256 k.key) [
    | ok sk ↦ nil_on_error (public C P sk)
    | err e ↦ ok none
    | panic ↦ panic
    | stuck ↦ stuck
  ]

  -- In a directory of distinct names, the key that OpenKey returns has the identifier that was asked
  -- for as its ID, which does not panic; its Public is a key with that digest, and its DH is that of
  -- a software key with this public key.
  pub id-open_key :
      (order : List (Bytes × Bytes) → List (Bytes × Bytes)) (i : Bytes) (des : List Entry)
      (k : FileKey) (peer : DhPublicKey C)
      → Iterates order
      → Distinct des
      → open_key file_crypto order i (listed des) ≡ ok k
      → (id k ≡ ok i)
        × ((sk : P.PrivateKey) × (file_public k ≡ ok (some (own (P.public_of sk))))
            × (sha256 (C.bytes_of (P.public_of sk)) ≡ i)
            × (file_dh k peer ≡ dh C P (some sk) peer))
  unfolding id file_public file_dh public load_private_key
  id-open_key order i des k peer iterates distinct opened =
      let (sk, loads, same) = open_key-HasId file_crypto order i des k iterates distinct opened in
      let read : P.new_private_key p256 k.key ≡ some sk = loads in
      let digest : ◌≡◌ {A = Outcome Software.Error Bytes}
          (ok (sha256 (C.bytes_of (P.public_of sk)))) (ok i) =
        ap ok same in
      (
        rw read digest,
        (
          sk,
          rw (file_public, load_private_key, read) refl,
          same,
          rw (file_dh, load_private_key, read) refl,
        ),
      )
