-- ===== src/Handshake/Texts.antt =====
-- handshake/protocol.go and key.go: the texts of protocols and of keys, printed and read again.
use go_skes.Prelude.{
  ◌==◌, ◌≡◌, refl, true, false, [], ◌∷◌, ◌++◌, append_assoc, some, All, bytes_equal, codes, Bytes,
  ok,
}
use go_skes.Handshake.Protocol.{
  Names, Protocol, oath_hotp, oath_totp, noise, split, join, protocol_string, parse_hotp,
  parse_totp, parse_parts, parse_protocol,
}
use go_skes.Handshake.Key.{
  Base64, Key, key_string, read_protocol, read_key, read_parts, unmarshal_text,
}

-- No underscore.
abbrev pub OnePart : Bytes → Type 0
OnePart s = All (λ c. (c == b'_') ≡ false) s

split_part : (s : Bytes) → OnePart s → split s ≡ s ∷ []
unfolding split
split_part [] h = refl
split_part (c ∷ s) (h, hs) = rw (h, split_part s hs)

split_next : (s t : Bytes) → OnePart s → split (s ++ (b'_' ∷ t)) ≡ s ∷ split t
unfolding split
split_next [] t h = refl
split_next (c ∷ s) t (h, hs) = rw (h, split_next s t hs)

-- What the names and the encoding have to promise: each is read back, and has no underscore.
pub record Readable (N : Names) (B : Base64) : Type 0 where
  pub hash_read : (h : N.Hash) → N.hash_from_string (N.hash_string h) ≡ some h
  pub hash_part : (h : N.Hash) → OnePart (N.hash_string h)
  pub duration_read : (d : N.Duration) → N.parse_duration (N.duration_string d) ≡ some d
  pub duration_part : (d : N.Duration) → OnePart (N.duration_string d)
  pub base64_read : (b : Bytes) → B.decode (B.encode b) ≡ (b, true)
  pub base64_part : (b : Bytes) → OnePart (B.encode b)

-- A protocol of one-time passwords.
abbrev pub IsOath : (N : Names) → Protocol N → Type 0
IsOath N (noise p) = ⊥
IsOath N _ = Unit {0}

module _ (N : Names) (B : Base64) (laws : Readable N B) where
  -- If hash names and durations are read back from their texts, and these have no underscore, then
  -- ParseProtocol reads the OATH protocols back from what their String methods print.
  pub parse_protocol-protocol_string :
      (p : Protocol N) → IsOath N p → parse_protocol N (protocol_string N p) ≡ ok p
  unfolding parse_protocol parse_parts parse_hotp parse_totp protocol_string bytes_equal split
  parse_protocol-protocol_string (oath_hotp h) oath =
      rw (split_part (N.hash_string h) (laws.hash_part h), laws.hash_read h)
  parse_protocol-protocol_string (oath_totp h d) oath = rw (
    split_next (N.hash_string h) (N.duration_string d) (laws.hash_part h),
    split_part (N.duration_string d) (laws.duration_part d),
    laws.hash_read h,
    laws.duration_read d,
  )
  parse_protocol-protocol_string (noise p) oath = absurd oath

  read_protocol_lem :
      (p : Protocol N) (before : Key N)
      → IsOath N p
      → read_protocol N B (protocol_string N p) before
        ≡ (record before { protocol = some p }, ok tt)
  unfolding read_protocol
  read_protocol_lem p before oath = rw (read_protocol, parse_protocol-protocol_string p oath)

  hotp_parts :
      (h : N.Hash) (key : Bytes)
      → split (key_string N B (record { protocol = some (oath_hotp h); key = key }))
        ≡ codes "OATH-HOTP" ∷ N.hash_string h ∷ B.encode key ∷ []
  unfolding key_string protocol_string split
  hotp_parts h key = rw (
    split_next (N.hash_string h) (B.encode key) (laws.hash_part h),
    split_part (B.encode key) (laws.base64_part key),
  )

  totp_parts :
      (h : N.Hash) (d : N.Duration) (key : Bytes)
      → split (key_string N B (record { protocol = some (oath_totp h d); key = key }))
        ≡ codes "OATH-TOTP" ∷ N.hash_string h ∷ N.duration_string d ∷ B.encode key ∷ []
  unfolding key_string protocol_string split
  totp_parts h d key = rw (
    append_assoc (N.hash_string h) (b'_' ∷ N.duration_string d) (b'_' ∷ B.encode key),
    split_next (N.hash_string h) (N.duration_string d ++ (b'_' ∷ B.encode key)) (laws.hash_part h),
    split_next (N.duration_string d) (B.encode key) (laws.duration_part d),
    split_part (B.encode key) (laws.base64_part key),
  )

  -- If hash names, durations and base64 are read back from their texts, and these have no
  -- underscore, then a key of an OATH protocol is read back from its text, whatever the receiver
  -- held before.
  pub unmarshal_text-key_string :
      (p : Protocol N) (key : Bytes) (before : Key N)
      → IsOath N p
      → unmarshal_text N B (key_string N B (record { protocol = some p; key = key })) before
        ≡ (record { protocol = some p; key = key }, ok tt)
  unfolding unmarshal_text read_parts read_key join protocol_string bytes_equal
  unmarshal_text-key_string (oath_hotp h) key before oath =
      rw (hotp_parts h key, read_protocol_lem (oath_hotp h) before oath, laws.base64_read key)
  unmarshal_text-key_string (oath_totp h d) key before oath =
      rw (totp_parts h d key, read_protocol_lem (oath_totp h d) before oath, laws.base64_read key)
  unmarshal_text-key_string (noise p) key before oath = absurd oath
