-- ===== src/Ecdh/Check.antt =====
-- internal/test/ecdh.go: the check of a private key by an exchange with a software key. A failed
-- requirement ends the test.
use go_skes.Prelude.{
  ◌≡◌, ◌==◌, refl, Bool, bytes_equal, bytes_equal_refl, Option, none, some, if◌then◌else◌, length,
  Bytes, Outcome, ok, err, panic, ◌>>=◌, ◌>>◌, map_err,
}
use go_skes.Ecdh.PublicKey.{p256, Crypto}
use go_skes.Ecdh.Software
use go_skes.Ecdh.Software.{
  Private, DhPublicKey, own, foreign, PrivateKeys, software, openpgp, tpm2, generate_private_key,
  generate_keypair, public, dh, keys_public, keys_dh,
}

pub data TestFailure : Type 0 where
  requirement : TestFailure

-- require.NoError, and a requirement on values.
abbrev pub no_error : {A : Type 0} → Outcome Software.Error A → Outcome TestFailure A
no_error r = map_err (λ e. requirement) r

abbrev pub require : Bool → Outcome TestFailure (Unit {0})
require b = if b then ok tt else err requirement

module _ (C : Crypto) (P : Private C) (foreign_bytes : Bytes) where
  -- The method Bytes of a public key, which panics on the nil interface; `foreign_bytes` is what it
  -- gives for a key of another type.
  abbrev pub key_bytes : Option (DhPublicKey C) → Outcome TestFailure Bytes
  key_bytes none = panic
  key_bytes (some (own pk)) = ok (C.bytes_of pk)
  key_bytes (some foreign) = ok foreign_bytes

  -- DH with a key that may be nil: the type assertion fails on it.
  abbrev pub or_foreign : Option (DhPublicKey C) → DhPublicKey C
  or_foreign none = foreign
  or_foreign (some pk) = pk

  -- ECDH
  unfoldable pub ecdh_check : PrivateKeys C P → Outcome TestFailure (Unit {0})
  unfolding generate_keypair generate_private_key public dh keys_public keys_dh
  ecdh_check alice = do
    bob ← no_error (generate_keypair C P p256 (some P.rand_reader))
    pk_alice ← no_error (keys_public C P alice)
    pk_bob ← no_error (public C P bob)
    alice_bytes ← key_bytes pk_alice
    bob_bytes ← key_bytes (some pk_bob)
    require (length alice_bytes == 65)
    require (length bob_bytes == 65)
    ss_alice ← no_error (keys_dh C P alice pk_bob)
    ss_bob ← no_error (dh C P bob (or_foreign pk_alice))
    require (length ss_alice == 32)
    require (length ss_bob == 32)
    require (bytes_equal ss_alice ss_bob)

module _ (C : Crypto) (P : Private C) where
  -- The documented behaviour of crypto/ecdh on P-256: a public key has 65 bytes, and the exchange of
  -- any two keys gives 32 bytes, the same both ways.
  pub record Documented : Type 0 where
    pub bytes_lem :
        (sk : P.PrivateKey) → P.private_curve sk ≡ p256 → length (C.bytes_of (P.public_of sk)) ≡ 65
    pub generate_lem :
        (sk : P.PrivateKey)
        → P.generate_key p256 P.rand_reader ≡ some sk
        → P.private_curve sk ≡ p256
    pub ecdh_lem :
        (a b : P.PrivateKey)
        → P.private_curve a ≡ p256
        → P.private_curve b ≡ p256
        → (ss : Bytes) × (length ss ≡ 32)
          × (P.ecdh a (P.public_of b) ≡ some ss)
          × (P.ecdh b (P.public_of a) ≡ some ss)

module _ (C : Crypto) (P : Private C) (foreign_bytes : Bytes) (D : Documented C P)
    (bob : P.PrivateKey) (made : P.generate_key p256 P.rand_reader ≡ some bob) where
  passes :
      (alice : P.PrivateKey)
      → P.private_curve alice ≡ p256
      → ecdh_check C P foreign_bytes (software (some alice)) ≡ ok tt
  unfolding ecdh_check generate_keypair generate_private_key public dh keys_public keys_dh
  passes alice curve =
      let curve' = D.generate_lem bob made in
      let (ss, size, there, back) = D.ecdh_lem alice bob curve curve' in
      rw
        (
          made,
          D.bytes_lem alice curve,
          D.bytes_lem bob curve',
          there,
          back,
          size,
          bytes_equal_refl ss,
        )
        refl

  -- Where the source of randomness gives a key: the check passes for every software key on P-256, and
  -- panics for the keys of an OpenPGP card and of a TPM, whose public keys are nil.
  pub ecdh_check_lem :
      (alice : P.PrivateKey)
      → P.private_curve alice ≡ p256
      → (ecdh_check C P foreign_bytes (software (some alice)) ≡ ok tt)
        × (ecdh_check C P foreign_bytes openpgp ≡ panic)
        × (ecdh_check C P foreign_bytes tpm2 ≡ panic)
  unfolding ecdh_check generate_keypair generate_private_key public keys_public
  ecdh_check_lem alice curve = (passes alice curve, rw made refl, rw made refl)
