-- ===== src/Ecdh/PublicKey.antt =====
-- ecdh/public_key.go: public keys on elliptic curves. A text is a list of code points.
use go_skes.Prelude.{
  ◌≡◌, ◌↔◌, refl, sym, List, [], ◌∷◌, ◌++◌, Option, none, some, bytes_equal, codes, bytes_equal→eq,
  if◌then◌else◌, Bytes, Outcome, ok, err, panic, Bool, true, false,
}
use go_skes.Prelude.Scan.{Verb, verb_s, Arg, text, ScanError, scan, literal, scan-Fails, Fails}

-- The curves of the standard library's crypto/ecdh.
pub data Curve : Type 0 where
  p256 : Curve
  p384 : Curve
  p521 : Curve
  x25519 : Curve

-- What the package uses of crypto/ecdh, crypto/elliptic and encoding/base64. `unmarshal_point` is
-- elliptic.Unmarshal on the curve of that name in crypto/elliptic; a point is its two coordinates.
pub record Crypto : Type 1 where
  pub Point : Type 0
  pub PublicKey : Type 0
  pub curve_of : PublicKey → Curve
  pub bytes_of : PublicKey → Bytes
  pub new_public_key : Curve → Bytes → Option PublicKey
  pub unmarshal_point : Curve → Bytes → Option Point
  pub encode_string : Bytes → Bytes
  pub decode_string : Bytes → Option Bytes

-- ErrParse around an error of another package and without one, ErrUnsupportedCurve, ErrUnmarshal,
-- and an error of crypto/ecdh.
pub data Error : Type 0 where
  parse_because : Error
  parse : Error
  unsupported_curve : Error
  unmarshal : Error
  invalid_key : Error

-- curveFromName
unfoldable pub curve_from_name : Bytes → Option Curve
curve_from_name name =
    if bytes_equal name (codes "secp256r1")
    then some p256
    else if bytes_equal name (codes "secp348r1")
    then some p384
    else if bytes_equal name (codes "secp512r1")
    then some p521
    else if bytes_equal name (codes "cv25519")
    then some x25519
    else none

-- curveToName
unfoldable pub curve_to_name : Curve → Bytes
curve_to_name p256 = codes "secp256r1"
curve_to_name p384 = codes "secp348r1"
curve_to_name p521 = codes "secp512r1"
curve_to_name x25519 = codes "cv25519"

-- ellipticCurve: whether the curve has a counterpart in crypto/elliptic.
unfoldable pub elliptic_curve : Curve → Option Curve
elliptic_curve p256 = some p256
elliptic_curve p384 = some p384
elliptic_curve p521 = some p521
elliptic_curve x25519 = none

abbrev pub pk_format : List Verb
pk_format = literal (codes "ecdh:") (verb_s ∷ literal (codes ":pk:") (verb_s ∷ []))

module _ (C : Crypto) where
  -- MarshalBinary
  unfoldable pub marshal_binary : C.PublicKey → Bytes
  marshal_binary pk = C.bytes_of pk

  -- MarshalText
  unfoldable pub marshal_text : C.PublicKey → Bytes
  unfolding curve_to_name marshal_binary
  marshal_text pk =
      codes "ecdh:"
      ++ (curve_to_name (C.curve_of pk) ++ (codes ":pk:" ++ C.encode_string (marshal_binary pk)))

  -- The key of a name and a text, as UnmarshalText reads them. The receiver is a pointer to a key: it
  -- is nil after bytes that are no key of the curve.
  unfoldable pub read_key :
      Bytes → Bytes → Option C.PublicKey → Option C.PublicKey × Outcome Error (Unit {0})
  unfolding curve_from_name
  read_key curve_name key_str pk = elim (curve_from_name curve_name) [
    | none ↦ (pk, err unsupported_curve)
    | some curve ↦ elim (C.decode_string key_str) [
      | none ↦ (pk, err parse_because)
      | some key ↦ elim (C.new_public_key curve key) [
        | none ↦ (none, err invalid_key)
        | some pk' ↦ (some pk', ok tt)
      ]
    ]
  ]

  -- What UnmarshalText does with what Sscanf scanned: it wants one value, and reads two.
  unfoldable pub read_scanned :
      Option C.PublicKey
      → List Arg × Option ScanError
      → Option C.PublicKey × Outcome Error (Unit {0})
  unfolding read_key
  read_scanned pk (args, some e) = (pk, err parse_because)
  read_scanned pk (text curve_name ∷ [], none) = read_key curve_name [] pk
  read_scanned pk (args, none) = (pk, err parse)

  -- UnmarshalText
  unfoldable pub unmarshal_text :
      Bytes → Option C.PublicKey → Option C.PublicKey × Outcome Error (Unit {0})
  unfolding scan read_scanned
  unmarshal_text t pk = read_scanned pk (scan pk_format t [])

  -- UnmarshalBinary, which asks the key of the receiver for its curve.
  unfoldable pub unmarshal_binary :
      Bytes → Option C.PublicKey → Option C.PublicKey × Outcome Error (Unit {0})
  unmarshal_binary key none = (none, panic)
  unmarshal_binary key (some pk) = elim (C.new_public_key (C.curve_of pk) key) [
    | none ↦ (some pk, err invalid_key)
    | some ecpk ↦ (some ecpk, ok tt)
  ]

  -- ECDSA: the curve and the point.
  unfoldable pub ecdsa : C.PublicKey → Outcome Error (Curve × C.Point)
  unfolding elliptic_curve
  ecdsa pk = elim (elliptic_curve (C.curve_of pk)) [
    | none ↦ err unsupported_curve
    | some curve ↦ elim (C.unmarshal_point curve (C.bytes_of pk)) [
      | none ↦ err unmarshal
      | some point ↦ ok (curve, point)
    ]
  ]

  -- UnmarshalText fails with ErrParse on every text, those that MarshalText writes among them, and
  -- leaves the receiver as it was: the first `%s` takes the text up to the next space, so that the
  -- colon behind it never matches.
  pub unmarshal_text_fails :
      (t : Bytes) (pk : Option C.PublicKey) → unmarshal_text t pk ≡ (pk, err parse_because)
  unfolding unmarshal_text read_scanned
  unmarshal_text_fails t pk =
      go (scan pk_format t [])
        (scan-Fails (codes "ecdh:") b':' (literal (codes "pk:") (verb_s ∷ [])) t [] refl)
    where
      go :
          (r : List Arg × Option ScanError)
          → Fails [] r
          → read_scanned pk r ≡ (pk, err parse_because)
      go (args, none) (e, failed, stored) = cc
      go (args, some e') h = refl

  -- A key that crypto/ecdh reads back from its bytes is read back from what MarshalBinary gives, by a
  -- receiver with any key of its curve.
  pub unmarshal_binary-marshal_binary :
      (pk r : C.PublicKey)
      → C.new_public_key (C.curve_of pk) (C.bytes_of pk) ≡ some pk
      → C.curve_of r ≡ C.curve_of pk
      → unmarshal_binary (marshal_binary pk) (some r) ≡ (some pk, ok tt)
  unfolding unmarshal_binary marshal_binary
  unmarshal_binary-marshal_binary pk r reads same = rw (unmarshal_binary, same, reads)

from_to : (c : Curve) → curve_from_name (curve_to_name c) ≡ some c
unfolding curve_from_name curve_to_name bytes_equal
from_to p256 = refl
from_to p384 = refl
from_to p521 = refl
from_to x25519 = refl

to_from : (name : Bytes) (c : Curve) → curve_from_name name ≡ some c → curve_to_name c ≡ name
unfolding curve_from_name curve_to_name
to_from name c =
    go (bytes_equal name (codes "secp256r1")) (bytes_equal name (codes "secp348r1"))
      (bytes_equal name (codes "secp512r1")) (bytes_equal name (codes "cv25519")) refl refl refl
      refl
  where
    go :
        (a b d e : Bool)
        → bytes_equal name (codes "secp256r1") ≡ a
        → bytes_equal name (codes "secp348r1") ≡ b
        → bytes_equal name (codes "secp512r1") ≡ d
        → bytes_equal name (codes "cv25519") ≡ e
        → (if a
            then some p256
            else if b
            then some p384
            else if d
            then some p521
            else if e
            then some x25519
            else none)
          ≡ some c
        → curve_to_name c ≡ name
    go true b d e ha hb hd he h = let is : p256 ≡ c = cc in rw (← is) (sym (bytes_equal→eq _ _ ha))
    go false true d e ha hb hd he h =
        let is : p384 ≡ c = cc in rw (← is) (sym (bytes_equal→eq _ _ hb))
    go false false true e ha hb hd he h =
        let is : p521 ≡ c = cc in rw (← is) (sym (bytes_equal→eq _ _ hd))
    go false false false true ha hb hd he h =
        let is : x25519 ≡ c = cc in rw (← is) (sym (bytes_equal→eq _ _ he))
    go false false false false ha hb hd he h = cc

-- curveFromName gives a curve for exactly the name that curveToName gives it, and so for no two
-- names.
pub curve_from_name_iff :
    (name : Bytes) (c : Curve) → (curve_from_name name ≡ some c) ↔ (curve_to_name c ≡ name)
curve_from_name_iff name c = (to_from name c, λ same. rw same at (from_to c))
