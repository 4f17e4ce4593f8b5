-- ===== src/Handshake/Key.antt =====
-- handshake/key.go: a key together with its protocol, and its text form.
use go_skes.Prelude.{
  ℕ, ◌+◌, Bool, stuck, ◌==◌, not, List, [], ◌∷◌, ◌++◌, Option, none, some, bytes_equal, codes,
  if◌then◌else◌, ◌||◌, length, take, drop, Bytes, ok, err, panic,
}
use go_skes.Prelude.Exec.{Exec, lift, ◌>>◌}
use go_skes.Handshake.Protocol.{
  Error, parse, parse_because, Names, Protocol, split, join, protocol_string, parse_protocol,
}

-- base64.StdEncoding: a text that cannot be read gives the bytes in front of the fault, and false.
pub record Base64 : Type 0 where
  pub encode : Bytes → Bytes
  pub decode : Bytes → Bytes × Bool

-- `protocol` is `none` for the nil interface.
pub record Key (N : Names) : Type 0 where
  pub protocol : Option (Protocol N)
  pub key : Bytes

module _ (N : Names) (B : Base64) where
  -- `%s` of a protocol; fmt writes this for nil.
  abbrev pub shown : Option (Protocol N) → Bytes
  shown none = codes "%!s(<nil>)"
  shown (some p) = protocol_string N p

  -- Key.String, and so Key.MarshalText
  unfoldable pub key_string : Key N → Bytes
  key_string k = shown k.protocol ++ (b'_' ∷ B.encode k.key)

  -- The number of parts that the protocol's name has.
  abbrev pub proto_parts : Bytes → ℕ
  proto_parts kind =
      if bytes_equal kind (codes "Noise") || bytes_equal kind (codes "WireGuard")
      then 5
      else if bytes_equal kind (codes "OATH-HOTP")
      then 2
      else if bytes_equal kind (codes "OATH-TOTP")
      then 3
      else 0

  -- `k.Protocol, err = ParseProtocol(protocol)`; the nil pointer that nyquist returns with an error is
  -- taken for the nil interface.
  unfoldable pub read_protocol : Bytes → Exec (Key N) Error (Unit {0})
  read_protocol s k = elim (parse_protocol N s) [
    | ok p ↦ (record k { protocol = some p }, ok tt)
    | err e ↦ (record k { protocol = none }, err (parse_because e))
    | panic ↦ (k, panic)
    | stuck ↦ (k, stuck)
  ]

  -- `k.Key, err = base64.StdEncoding.DecodeString(key)`
  unfoldable pub read_key : List Bytes → Exec (Key N) Error (Unit {0})
  read_key [] k = (k, panic)
  read_key (s ∷ parts) k =
      let r = B.decode s in (record k { key = r.0 }, if r.1 then ok tt else err parse)

  -- Key.UnmarshalText from the parts of the text on.
  unfoldable pub read_parts : List Bytes → Exec (Key N) Error (Unit {0})
  unfolding join read_protocol read_key
  read_parts [] = lift panic
  read_parts (kind ∷ parts) =
      if not (length (kind ∷ parts) == proto_parts kind + 1) then lift (err parse) else do
        read_protocol (join (take (proto_parts kind) (kind ∷ parts)))
        read_key (drop (proto_parts kind) (kind ∷ parts))

  unfoldable pub unmarshal_text : Bytes → Exec (Key N) Error (Unit {0})
  unfolding split read_parts
  unmarshal_text t = read_parts (split t)
