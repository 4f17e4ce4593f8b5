-- ===== src/Openpgp/Framing/Malformed.antt =====
-- Requests of `communicate` of internal/openpgp/card.go for which it does not send a command APDU of
-- ISO 7816-3.
use go_skes.Prelude.{
  ℕ, ◌≤◌, ◌<◌, ◌≡◌, ◌⊎◌, inl, inr, refl, ◌++◌, [], ◌∷◌, none, arith, leb, length, Bytes, ok, ◌∙◌,
  Bool-cases,
}
use go_skes.Openpgp.Apdu.{command_apdu}
use go_skes.Openpgp.Framing.{
  short_sent, long_sent, extended_parses, long_le-one_byte, length_field, command_of, parse_apdu,
}

empty_short :
    (ins p1 p2 le : ℕ)
    → 0 < le
    → le ≤ 256
    → parse_apdu ((0 ∷ ins ∷ p1 ∷ p2 ∷ 0 ∷ []) ++ length_field le) ≡ none
unfolding parse_apdu length_field
empty_short ins p1 p2 le pos h = ground arith

empty_long :
    (ins p1 p2 le : ℕ)
    → 256 < le
    → le ≤ 65536
    → parse_apdu ((0 ∷ ins ∷ p1 ∷ p2 ∷ 0 ∷ 0 ∷ 0 ∷ []) ++ length_field le) ≡ none
unfolding parse_apdu length_field
empty_long ins p1 p2 le h top = ground arith

-- A request that expects 1 to 65536 bytes is sent as bytes that are no command APDU of ISO 7816-3
-- if it has no data, or data of 256 to 65535 bytes and expects at most 256.
pub command_apdu_malformed :
    (ins p1 p2 : ℕ) (content : Bytes) (le : ℕ)
    → length content < 65536
    → 0 < le
    → le ≤ 65536
    → (content ≡ []) ⊎ ((256 ≤ length content) × (le ≤ 256))
    → (apdu : Bytes) × (command_apdu ins p1 p2 content le ≡ ok apdu) × (parse_apdu apdu ≡ none)
command_apdu_malformed ins p1 p2 [] le size pos top shape = elim (Bool-cases (leb le 256)) [
  | inl short ↦ (
    _,
    short_sent ins p1 p2 [] le top (omega arith) (ground arith),
    empty_short ins p1 p2 le pos (ground arith),
  )
  | inr long ↦ (
    _,
    long_sent ins p1 p2 [] le top (inr (ground arith)) size,
    empty_long ins p1 p2 le (ground arith) top,
  )
]
command_apdu_malformed ins p1 p2 (x ∷ content) le size pos top shape = (
  _,
  long_sent ins p1 p2 (x ∷ content) le top (ground arith) size,
  extended_parses ins p1 p2 x content (length_field le) (length (x ∷ content)) refl size
      ∙ rw (long_le-one_byte le pos (ground arith)) (unfold command_of in refl),
)
