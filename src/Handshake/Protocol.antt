-- ===== src/Handshake/Protocol.antt =====
-- handshake/protocol.go: the names of protocols. Texts are lists of codes.
use go_skes.Prelude.{
  ℕ, ◌==◌, List, [], ◌∷◌, ◌++◌, Option, none, some, bytes_equal, codes, if◌then◌else◌, Bytes,
  Outcome, ok, err, ◌>>=◌,
}

-- `parse` is ErrParse, also where it wraps an error of the standard library; `parse_because` is
-- ErrParse around an error of this package. `noise_protocol` is an error of nyquist.
pub data Error : Type 0 where
  parse : Error
  parse_because : Error → Error
  unsupported_hash_algorithm : Error
  noise_protocol : Error

-- What the code uses of the nyquist library, and of the durations of package time: names, and how
-- they are read. `make_noise` fills in a nyquist.Protocol, `new_protocol` is nyquist.NewProtocol.
pub record Names : Type 1 where
  pub Hash : Type 0
  pub Pattern : Type 0
  pub Dh : Type 0
  pub Cipher : Type 0
  pub Noise : Type 0
  pub Duration : Type 0
  pub hash_string : Hash → Bytes
  pub hash_from_string : Bytes → Option Hash
  pub pattern_from_string : Bytes → Option Pattern
  pub dh_from_string : Bytes → Option Dh
  pub cipher_from_string : Bytes → Option Cipher
  pub noise_string : Noise → Bytes
  pub new_protocol : Bytes → Option Noise
  pub make_noise : Pattern → Dh → Cipher → Hash → Noise
  pub wireguard : Noise
  pub duration_string : Duration → Bytes
  pub parse_duration : Bytes → Option Duration

-- A constructor for each type that has a `String` method.
pub data Protocol (N : Names) : Type 0 where
  oath_hotp : N.Hash → Protocol N
  oath_totp : N.Hash → N.Duration → Protocol N
  noise : N.Noise → Protocol N

-- strings.Split and strings.Join at an underscore.
abbrev pub put_first : ℕ → List Bytes → List Bytes
put_first c [] = (c ∷ []) ∷ []
put_first c (part ∷ parts) = (c ∷ part) ∷ parts

unfoldable pub split : Bytes → List Bytes
split [] = [] ∷ []
split (c ∷ s) = let rest = split s in if c == b'_' then [] ∷ rest else put_first c rest

unfoldable pub join : List Bytes → Bytes
join [] = []
join (part ∷ []) = part
join (part ∷ next ∷ parts) = part ++ (b'_' ∷ join (next ∷ parts))

-- An optional value, or this error.
abbrev pub or_err : {E A : Type 0} → E → Option A → Outcome E A
or_err e none = err e
or_err e (some a) = ok a

-- A value of a map[string]any.
pub data Value : Type 0 where
  text : Bytes → Value
  other : Value

abbrev pub find : Bytes → List (Bytes × Value) → Option Value
find k [] = none
find k ((j, v) ∷ m) = if bytes_equal j k then some v else find k m

-- getStr
unfoldable pub get_str : List (Bytes × Value) → Bytes → Option Bytes
get_str m k = elim (find k m) [ none ↦ none | some other ↦ none | some (text s) ↦ some s ]

module _ (N : Names) where
  unfoldable pub protocol_string : Protocol N → Bytes
  protocol_string (oath_hotp h) = codes "OATH-HOTP_" ++ N.hash_string h
  protocol_string (oath_totp h d) =
      codes "OATH-TOTP_" ++ (N.hash_string h ++ (b'_' ∷ N.duration_string d))
  protocol_string (noise p) = N.noise_string p

  -- The cases of the switch, on the parts behind the first one.
  unfoldable pub parse_hotp : List Bytes → Outcome Error (Protocol N)
  parse_hotp [] = err parse
  parse_hotp (name ∷ parts) = do
    hash ← or_err unsupported_hash_algorithm (N.hash_from_string name)
    ok (oath_hotp hash)

  unfoldable pub parse_totp : List Bytes → Outcome Error (Protocol N)
  parse_totp [] = err parse
  parse_totp (name ∷ []) = err parse
  parse_totp (name ∷ step ∷ parts) = do
    hash ← or_err unsupported_hash_algorithm (N.hash_from_string name)
    timestep ← or_err parse (N.parse_duration step)
    ok (oath_totp hash timestep)

  -- The switch of ParseProtocol, on the parts of `s`.
  unfoldable pub parse_parts : Bytes → List Bytes → Outcome Error (Protocol N)
  unfolding parse_hotp parse_totp
  parse_parts s [] = err parse
  parse_parts s (kind ∷ parts) =
      if bytes_equal kind (codes "OATH-HOTP")
      then parse_hotp parts
      else if bytes_equal kind (codes "OATH-TOTP")
      then parse_totp parts
      else if bytes_equal kind (codes "WireGuard")
      then ok (noise N.wireguard)
      else if bytes_equal kind (codes "Noise")
      then (do p ← or_err noise_protocol (N.new_protocol s); ok (noise p))
      else err parse

  -- ParseProtocol
  unfoldable pub parse_protocol : Bytes → Outcome Error (Protocol N)
  unfolding split parse_parts
  parse_protocol s = parse_parts s (split s)

  -- The case of Noise in ParseProtocolFromMap.
  unfoldable pub noise_from_map : List (Bytes × Value) → N.Hash → Outcome Error (Protocol N)
  unfolding get_str
  noise_from_map m hash = do
    pattern_str ← or_err parse (get_str m (codes "pattern"))
    dh_str ← or_err parse (get_str m (codes "dh"))
    cipher_str ← or_err parse (get_str m (codes "cipher"))
    p ← or_err parse (N.pattern_from_string pattern_str)
    d ← or_err parse (N.dh_from_string dh_str)
    c ← or_err parse (N.cipher_from_string cipher_str)
    ok (noise (N.make_noise p d c hash))

  -- ParseProtocolFromMap
  unfoldable pub parse_protocol_from_map : List (Bytes × Value) → Outcome Error (Protocol N)
  unfolding get_str noise_from_map
  parse_protocol_from_map m = do
    proto_str ← or_err parse (get_str m (codes "protocol"))
    hash_str ← or_err parse (get_str m (codes "hash"))
    hash ← or_err parse (N.hash_from_string hash_str)
    if bytes_equal proto_str (codes "OATH-TOTP")
        then (do
          step ← or_err parse (get_str m (codes "timestep"))
          timestep ← or_err parse (N.parse_duration step)
          ok (oath_totp hash timestep))
        else if bytes_equal proto_str (codes "OATH-HOTP")
        then ok (oath_hotp hash)
        else if bytes_equal proto_str (codes "WireGuard")
        then ok (noise N.wireguard)
        else if bytes_equal proto_str (codes "Noise")
        then noise_from_map m hash
        else err parse
