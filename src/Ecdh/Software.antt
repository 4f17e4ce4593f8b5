-- ===== src/Ecdh/Software.antt =====
-- ecdh/sw/sw.go, ecdh/sw/dh.go, ecdh/keypair.go, ecdh/openpgp/openpgp.go and ecdh/tpm2/tpm2.go: private
-- keys, and the key pairs that the Noise library is given.
use go_skes.Prelude.{ℕ, ◌+◌, ◌/◌, [], Option, none, some, Bytes, Outcome, ok, err, panic, ◌>>=◌}
use go_skes.Ecdh.PublicKey.{Curve, p256, p384, p521, x25519, Crypto}

-- What the packages use of private keys in crypto/ecdh; `Source` is a source of randomness, and
-- `rand_reader` the one of crypto/rand.
pub record Private (C : Crypto) : Type 1 where
  pub PrivateKey : Type 0
  pub Source : Type 0
  pub rand_reader : Source
  pub generate_key : Curve → Source → Option PrivateKey
  pub new_private_key : Curve → Bytes → Option PrivateKey
  pub private_curve : PrivateKey → Curve
  pub private_bytes : PrivateKey → Bytes
  pub public_of : PrivateKey → C.PublicKey
  pub ecdh : PrivateKey → C.PublicKey → Option Bytes

-- ErrInvalidPublicKeyType, an error of crypto/ecdh, and errors.ErrUnsupported.
pub data Error : Type 0 where
  invalid_public_key_type : Error
  crypto : Error
  unsupported : Error

-- A public key as the Noise library hands it on: one of this program's type, or of another.
pub data DhPublicKey (C : Crypto) : Type 0 where
  own : C.PublicKey → DhPublicKey C
  foreign : DhPublicKey C

-- curveSize
unfoldable pub curve_size : Curve → ℕ
curve_size p256 = (256 + 7) / 8
curve_size p384 = (348 + 7) / 8
curve_size p521 = (521 + 7) / 8
curve_size x25519 = (0 + 7) / 8

-- DH.Size
unfoldable pub size : Curve → ℕ
unfolding curve_size
size curve = curve_size curve + 1

module _ (C : Crypto) (P : Private C) where
  abbrev pub or_crypto : {A : Type 0} → Option A → Outcome Error A
  or_crypto none = err crypto
  or_crypto (some a) = ok a

  -- PrivateKey of ecdh/sw: nil after DropPrivate.
  abbrev pub SwKey : Type 0
  SwKey = Option P.PrivateKey

  -- GeneratePrivateKey; a nil source stands for the one of crypto/rand.
  unfoldable pub generate_private_key : Curve → Option P.Source → Outcome Error SwKey
  generate_private_key curve none = do
    sc ← or_crypto (P.generate_key curve P.rand_reader)
    ok (some sc)
  generate_private_key curve (some random) = do
    sc ← or_crypto (P.generate_key curve random)
    ok (some sc)

  -- LoadPrivateKey, and DH.ParsePrivateKey.
  unfoldable pub load_private_key : Curve → Bytes → Outcome Error SwKey
  load_private_key curve k = do sk ← or_crypto (P.new_private_key curve k); ok (some sk)

  unfoldable pub parse_private_key : Curve → Bytes → Outcome Error SwKey
  parse_private_key curve k = do sk ← or_crypto (P.new_private_key curve k); ok (some sk)

  -- DH.ParsePublicKey
  unfoldable pub parse_public_key : Curve → Bytes → Outcome Error (DhPublicKey C)
  parse_public_key curve k = do pk ← or_crypto (C.new_public_key curve k); ok (own pk)

  -- DH.GenerateKeypair
  unfoldable pub generate_keypair : Curve → Option P.Source → Outcome Error SwKey
  unfolding generate_private_key
  generate_keypair curve rng = generate_private_key curve rng

  -- PrivateKey.UnmarshalBinary
  unfoldable pub unmarshal_binary : Bytes → SwKey → SwKey × Outcome Error (Unit {0})
  unmarshal_binary k none = (none, panic)
  unmarshal_binary k (some sk) = elim (P.new_private_key (P.private_curve sk) k) [
    | none ↦ (some sk, err crypto)
    | some sk' ↦ (some sk', ok tt)
  ]

  -- PrivateKey.MarshalBinary
  unfoldable pub marshal_binary : SwKey → Outcome Error Bytes
  marshal_binary none = panic
  marshal_binary (some sk) = ok (P.private_bytes sk)

  -- PrivateKey.Public
  unfoldable pub public : SwKey → Outcome Error (DhPublicKey C)
  public none = panic
  public (some sk) = ok (own (P.public_of sk))

  abbrev exchange : SwKey → C.PublicKey → Outcome Error Bytes
  exchange none pk = panic
  exchange (some sk) pk = or_crypto (P.ecdh sk pk)

  -- PrivateKey.DH
  unfoldable pub dh : SwKey → DhPublicKey C → Outcome Error Bytes
  dh kp foreign = err invalid_public_key_type
  dh kp (own pk) = exchange kp pk

  -- PrivateKey.DropPrivate
  unfoldable pub drop_private : SwKey → SwKey
  drop_private kp = none

  -- The types that implement ecdh.PrivateKey, but for the one of the Secure Enclave: that of ecdh/sw,
  -- and those of ecdh/openpgp and ecdh/tpm2, which are stubs.
  pub data PrivateKeys : Type 0 where
    software : SwKey → PrivateKeys
    openpgp : PrivateKeys
    tpm2 : PrivateKeys

  -- The methods Public and DH of the three types; the stubs return a nil key, and openpgp a nil
  -- secret with no error.
  unfoldable pub keys_public : PrivateKeys → Outcome Error (Option (DhPublicKey C))
  unfolding public
  keys_public (software kp) = do pk ← public kp; ok (some pk)
  keys_public openpgp = ok none
  keys_public tpm2 = ok none

  unfoldable pub keys_dh : PrivateKeys → DhPublicKey C → Outcome Error Bytes
  unfolding dh
  keys_dh (software kp) pk = dh kp pk
  keys_dh openpgp pk = ok []
  keys_dh tpm2 pk = err unsupported

  -- The method Drop of InMemoryPrivateKey, where the type has it: none of them does.
  abbrev drop_method : PrivateKeys → Option PrivateKeys
  drop_method (software kp) = none
  drop_method openpgp = none
  drop_method tpm2 = none

  -- StaticKeypair.DropPrivate
  unfoldable pub static_drop_private : PrivateKeys → PrivateKeys
  static_drop_private kp = elim (drop_method kp) [ none ↦ kp | some dropped ↦ dropped ]

  -- StaticKeypair.MarshalBinary and UnmarshalBinary
  unfoldable pub static_marshal_binary : PrivateKeys → Outcome Error Bytes
  static_marshal_binary kp = err unsupported

  unfoldable pub static_unmarshal_binary :
      Bytes → PrivateKeys → PrivateKeys × Outcome Error (Unit {0})
  static_unmarshal_binary k kp = (kp, err unsupported)
