-- ===== src/Handshake/TextRuns.antt =====
-- The theorems on the texts at concrete inputs, with two hashes, one duration, and bytes written in
-- letters.
use go_skes.Prelude.{
  zero, suc, arith, ap, ◌∙◌, ℕ, ◌+◌, ◌==◌, ◌≡◌, refl, Bool, true, false, [], ◌∷◌, Option, none,
  some, bytes_equal, codes, if◌then◌else◌, Bytes, ok,
}
use go_skes.Handshake.Protocol.{Names, Protocol, oath_totp, parse_protocol, protocol_string}
use go_skes.Handshake.Key.{Base64, key_string, unmarshal_text}
use go_skes.Handshake.Texts.{
  OnePart, Readable, parse_protocol-protocol_string, unmarshal_text-key_string,
}

-- true is SHA-256, false is SHA-1.
abbrev hash_name : Bool → Bytes
hash_name true = codes "SHA256"
hash_name false = codes "SHA1"

read_hash : Bytes → Option Bool
read_hash s =
    if bytes_equal s (codes "SHA256")
    then some true
    else if bytes_equal s (codes "SHA1")
    then some false
    else none

abbrev names : Names
names = record {
  Hash = Bool;
  Pattern = Bool;
  Dh = Bool;
  Cipher = Bool;
  Noise = Bool;
  Duration = Unit {0};
  hash_string = hash_name;
  hash_from_string = read_hash;
  pattern_from_string = λ s. none;
  dh_from_string = λ s. none;
  cipher_from_string = λ s. none;
  noise_string = λ n. codes "Noise";
  new_protocol = λ s. none;
  make_noise = λ p d c h. h;
  wireguard = true;
  duration_string = λ d. codes "1m0s";
  parse_duration = λ s. some tt;
}

-- A byte as so many letters A, and a B behind them.
unary : ℕ → Bytes → Bytes
unary zero s = b'B' ∷ s
unary (suc n) s = b'A' ∷ unary n s

encode : Bytes → Bytes
unfolding unary
encode [] = []
encode (b ∷ bs) = unary b (encode bs)

decode_from : ℕ → Bytes → Bytes
decode_from k [] = []
decode_from k (c ∷ s) =
    let here = decode_from 0 s in
    let later = decode_from (suc k) s in if c == b'B' then k ∷ here else later

abbrev base64 : Base64
base64 = record { encode = encode; decode = λ s. (decode_from 0 s, true) }

decode_from-unary : (k n : ℕ) (s : Bytes) → decode_from k (unary n s) ≡ (k + n) ∷ decode_from 0 s
unfolding decode_from unary
decode_from-unary k zero s = ap (λ m. m ∷ decode_from 0 s) (omega arith)
decode_from-unary k (suc n) s =
    decode_from-unary (suc k) n s ∙ ap (λ m. m ∷ decode_from 0 s) (omega arith)

decode_from-encode : (b : Bytes) → decode_from 0 (encode b) ≡ b
unfolding decode_from encode
decode_from-encode [] = refl
decode_from-encode (b ∷ bs) =
    decode_from-unary 0 b (encode bs) ∙ rw (decode_from-encode bs) (ap (λ m. m ∷ bs) (omega arith))

unary-OnePart : (n : ℕ) (s : Bytes) → OnePart s → OnePart (unary n s)
unfolding unary
unary-OnePart zero s h = (refl, h)
unary-OnePart (suc n) s h = (refl, unary-OnePart n s h)

encode-OnePart : (b : Bytes) → OnePart (encode b)
unfolding encode
encode-OnePart [] = tt
encode-OnePart (b ∷ bs) = unary-OnePart b (encode bs) (encode-OnePart bs)

hash_read : (h : Bool) → read_hash (hash_name h) ≡ some h
unfolding read_hash bytes_equal
hash_read true = refl
hash_read false = refl

hash_part : (h : Bool) → OnePart (hash_name h)
hash_part true = ground arith
hash_part false = ground arith

readable : Readable names base64
readable = record {
  hash_read = hash_read;
  hash_part = hash_part;
  duration_read = λ d. refl;
  duration_part = λ d. ground arith;
  base64_read = λ b. ap (λ x. (x, true)) (decode_from-encode b);
  base64_part = encode-OnePart;
}

abbrev minutely : Protocol names
minutely = oath_totp true tt

parse_protocol-protocol_string_example :
    parse_protocol names (protocol_string names minutely) ≡ ok minutely
parse_protocol-protocol_string_example =
    parse_protocol-protocol_string names base64 readable minutely tt

unmarshal_text-key_string_example :
    unmarshal_text names base64
      (key_string names base64 (record { protocol = some minutely; key = 3 ∷ 1 ∷ [] }))
      (record { protocol = none; key = [] })
    ≡ (record { protocol = some minutely; key = 3 ∷ 1 ∷ [] }, ok tt)
unmarshal_text-key_string_example =
    unmarshal_text-key_string names base64 readable minutely (3 ∷ 1 ∷ [])
      (record { protocol = none; key = [] }) tt
