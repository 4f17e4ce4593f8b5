-- ===== src/Ecdh/Exchange.antt =====
-- ecdh/sw and ecdh/keypair.go: what two keys agree on, how keys are read back, and what is left of a
-- key that is dropped.
use go_skes.Prelude.{◌≡◌, refl, none, some, Bytes, ok, err, panic, ◌>>=◌}
use go_skes.Ecdh.PublicKey.{Curve, Crypto}
use go_skes.Ecdh.Software.{
  Private, invalid_public_key_type, own, foreign, DhPublicKey, SwKey, load_private_key,
  parse_private_key, parse_public_key, unmarshal_binary, marshal_binary, public, dh, drop_private,
  software, keys_public, keys_dh, static_drop_private,
}

module _ (C : Crypto) (P : Private C) where
  -- Two keys on a curve, whose public keys are read back from their bytes, compute the same secret,
  -- or fail alike, each from the bytes of the public key of the other, if the curve's exchange is
  -- symmetric.
  pub dh-parse_public_key :
      (curve : Curve) (a b : P.PrivateKey)
      → C.new_public_key curve (C.bytes_of (P.public_of a)) ≡ some (P.public_of a)
      → C.new_public_key curve (C.bytes_of (P.public_of b)) ≡ some (P.public_of b)
      → ((x y : P.PrivateKey) → P.ecdh x (P.public_of y) ≡ P.ecdh y (P.public_of x))
      → (do pk ← parse_public_key C P curve (C.bytes_of (P.public_of b)); dh C P (some a) pk)
        ≡ (do pk ← parse_public_key C P curve (C.bytes_of (P.public_of a)); dh C P (some b) pk)
  unfolding parse_public_key dh
  dh-parse_public_key curve a b reads_a reads_b symmetric =
      rw (reads_a, reads_b, symmetric a b) refl

  -- What MarshalBinary gives of a key that crypto/ecdh reads back is read as that key by
  -- LoadPrivateKey, by ParsePrivateKey, and by UnmarshalBinary on a key of the same curve.
  pub read-marshal_binary :
      (sk other : P.PrivateKey) (k : Bytes)
      → P.new_private_key (P.private_curve sk) (P.private_bytes sk) ≡ some sk
      → P.private_curve other ≡ P.private_curve sk
      → marshal_binary C P (some sk) ≡ ok k
      → (load_private_key C P (P.private_curve sk) k ≡ ok (some sk))
        × (parse_private_key C P (P.private_curve sk) k ≡ ok (some sk))
        × (unmarshal_binary C P k (some other) ≡ (some sk, ok tt))
  unfolding load_private_key parse_private_key unmarshal_binary marshal_binary
  read-marshal_binary sk other k reads same written =
      let bytes : P.private_bytes sk ≡ k = cc in
      let reads' : P.new_private_key (P.private_curve sk) k ≡ some sk = rw bytes at reads in
      (rw reads' refl, rw reads' refl, rw (unmarshal_binary, same, reads') refl)

  -- A software key that is dropped panics on every later call but a DH with a public key of another
  -- type. The key of a StaticKeypair that is dropped is not: it computes what it did before.
  pub drop_private_lem :
      (kp : SwKey C P) (pk : C.PublicKey) (peer : DhPublicKey C) (k : Bytes)
      → (public C P (drop_private C P kp) ≡ panic)
        × (dh C P (drop_private C P kp) (own pk) ≡ panic)
        × (dh C P (drop_private C P kp) foreign ≡ err invalid_public_key_type)
        × (marshal_binary C P (drop_private C P kp) ≡ panic)
        × (unmarshal_binary C P k (drop_private C P kp) ≡ (none, panic))
        × (keys_public C P (static_drop_private C P (software kp)) ≡ keys_public C P (software kp))
        × (keys_dh C P (static_drop_private C P (software kp)) peer
            ≡ keys_dh C P (software kp) peer)
  unfolding drop_private static_drop_private public dh marshal_binary unmarshal_binary
  drop_private_lem kp pk peer k = (refl, refl, refl, refl, refl, refl, refl)
