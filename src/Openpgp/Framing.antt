-- ===== src/Openpgp/Framing.antt =====
-- ISO 7816-3 command APDUs, read independently of internal/openpgp/card.go, and the command APDUs
-- of `communicate` against them.
pub mod Malformed
use go_skes.Prelude.{
  ℕ, ◌+◌, ◌*◌, ◌/◌, ◌%◌, ◌^◌, ◌≤◌, ◌<◌, ◌≡◌, ◌⊎◌, inl, inr, ◌≢◌, refl, ◌&&◌, ◌++◌, [], ◌∷◌, Option,
  none, some, arith, bit_and, ltb, leb, ◌==◌, if◌then◌else◌, length, take, drop, length-append,
  take-append, drop-append, Bytes, ok, err, ◌∙◌, Bool-cases,
}
use go_skes.Prelude.Bits.{and_0xff}
use go_skes.Openpgp.Errors.{response_too_large, command_too_large}
use go_skes.Openpgp.Apdu.{command_part, response_part, command_apdu}

-- A command: instruction, parameters, data, and the number of bytes expected back, if any are.
pub record Command : Type 0 where
  pub ins : ℕ
  pub p1 : ℕ
  pub p2 : ℕ
  pub content : Bytes
  pub expected : Option ℕ

-- A length field of zero stands for the greatest length.
abbrev or_max : ℕ → ℕ → ℕ
or_max n m = if n == 0 then m else n

-- What follows the data: nothing, or a length of one byte, or one of two bytes.
unfoldable pub short_le : Bytes → Option (Option ℕ)
short_le [] = some none
short_le (x ∷ []) = some (some (or_max x 256))
short_le (x ∷ y ∷ rest) = none

unfoldable pub long_le : Bytes → Option (Option ℕ)
long_le [] = some none
long_le (x ∷ []) = none
long_le (hi ∷ lo ∷ []) = some (some (or_max (hi * 256 + lo) 65536))
long_le (x ∷ y ∷ z ∷ rest) = none

command_of : ℕ → ℕ → ℕ → Bytes → Option (Option ℕ) → Option Command
command_of ins p1 p2 content none = none
command_of ins p1 p2 content (some le) =
    some (record { ins = ins; p1 = p1; p2 = p2; content = content; expected = le })

-- A data field of `n` bytes and the length field behind it.
with_data : (Bytes → Option (Option ℕ)) → ℕ → ℕ → ℕ → ℕ → Bytes → Option Command
unfolding command_of
with_data le ins p1 p2 n body =
    if ltb (length body) n then none else command_of ins p1 p2 (take n body) (le (drop n body))

-- The body of an extended APDU behind its zero byte: the expected length alone, or the data.
extended : ℕ → ℕ → ℕ → Bytes → Option Command
unfolding command_of with_data
extended ins p1 p2 [] = none
extended ins p1 p2 (hi ∷ []) = none
extended ins p1 p2 (hi ∷ lo ∷ []) = command_of ins p1 p2 [] (long_le (hi ∷ lo ∷ []))
extended ins p1 p2 (hi ∷ lo ∷ x ∷ body) =
    if hi * 256 + lo == 0 then none else with_data long_le ins p1 p2 (hi * 256 + lo) (x ∷ body)

-- The seven cases of a body: empty, a short length alone, short data, or an extended body.
parse_body : ℕ → ℕ → ℕ → Bytes → Option Command
unfolding extended
parse_body ins p1 p2 [] = command_of ins p1 p2 [] (some none)
parse_body ins p1 p2 (x ∷ []) = command_of ins p1 p2 [] (short_le (x ∷ []))
parse_body ins p1 p2 (x ∷ y ∷ body) =
    if x == 0 then extended ins p1 p2 (y ∷ body) else with_data short_le ins p1 p2 x (y ∷ body)

unfoldable pub parse_apdu : Bytes → Option Command
unfolding parse_body
parse_apdu (cla ∷ ins ∷ p1 ∷ p2 ∷ body) = if cla == 0 then parse_body ins p1 p2 body else none
parse_apdu _ = none

-- The number of expected bytes as the code is given it: 0 for none.
abbrev pub expectation : ℕ → Option ℕ
expectation n = if n == 0 then none else some n

with_data-append :
    (le : Bytes → Option (Option ℕ)) (ins p1 p2 : ℕ) (content tail : Bytes)
    → with_data le ins p1 p2 (length content) (content ++ tail)
      ≡ command_of ins p1 p2 content (le tail)
unfolding with_data
with_data-append le ins p1 p2 content tail =
    ground (arith, length-append content tail, take-append content tail, drop-append content tail)

short_parses :
    (ins p1 p2 : ℕ) (x : ℕ) (content tail : Bytes)
    → length (x ∷ content) < 256
    → parse_apdu (0 ∷ ins ∷ p1 ∷ p2 ∷ (length (x ∷ content) % 256) ∷ ((x ∷ content) ++ tail))
      ≡ command_of ins p1 p2 (x ∷ content) (short_le tail)
unfolding parse_apdu
short_parses ins p1 p2 x content tail h =
    ground (arith, with_data-append short_le ins p1 p2 (x ∷ content) tail)

extended_parses :
    (ins p1 p2 : ℕ) (x : ℕ) (content tail : Bytes) (n : ℕ)
    → n ≡ length (x ∷ content)
    → n < 65536
    → parse_apdu
        (0 ∷ ins ∷ p1 ∷ p2 ∷ 0 ∷ (n / 2 ^ 8 % 256) ∷ bit_and n 0xff ∷ ((x ∷ content) ++ tail))
      ≡ command_of ins p1 p2 (x ∷ content) (long_le tail)
unfolding parse_apdu
extended_parses ins p1 p2 x content tail n e h =
    ground (arith, and_0xff n, with_data-append long_le ins p1 p2 (x ∷ content) tail)

-- What the second switch appends, as the two readers of a length field see it.
length_field : ℕ → Bytes
length_field le =
    if le == 0
    then []
    else if ltb le 256
    then le ∷ []
    else if le == 256
    then 0 ∷ []
    else if ltb le 65536
    then le / 256 ∷ le % 256 ∷ []
    else 0 ∷ 0 ∷ []

response_part-length_field : (le : ℕ) → le ≤ 65536 → response_part le ≡ ok (length_field le)
unfolding response_part length_field
response_part-length_field le h = ground (arith, and_0xff le)

short_le-length_field : (le : ℕ) → le ≤ 256 → short_le (length_field le) ≡ some (expectation le)
unfolding short_le length_field
short_le-length_field le h = ground arith

long_le-length_field :
    (le : ℕ)
    → (le ≡ 0) ⊎ (256 < le)
    → le ≤ 65536
    → long_le (length_field le) ≡ some (expectation le)
unfolding long_le length_field
long_le-length_field le h top = ground arith

long_le-one_byte : (le : ℕ) → 0 < le → le ≤ 256 → long_le (length_field le) ≡ none
unfolding long_le length_field
long_le-one_byte le pos h = ground arith

module _ (ins p1 p2 : ℕ) (content : Bytes) (le : ℕ) (top : le ≤ 65536) where
  short_sent :
      length content < 256
      → le ≤ 256
      → command_apdu ins p1 p2 content le
        ≡ ok ((0 ∷ ins ∷ p1 ∷ p2 ∷ (length content % 256) ∷ content) ++ length_field le)
  unfolding command_apdu command_part
  short_sent h hl = rw (response_part-length_field le top) (ground arith)

  long_sent :
      (256 ≤ length content) ⊎ (256 < le)
      → length content < 65536
      → command_apdu ins p1 p2 content le
        ≡ ok (
            (0
              ∷ ins
              ∷ p1
              ∷ p2
              ∷ 0
              ∷ (length content / 2 ^ 8 % 256)
              ∷ bit_and (length content) 0xff
              ∷ content)
            ++ length_field le)
  unfolding command_apdu command_part
  long_sent h size = rw (response_part-length_field le top) (ground arith)

-- A request with data of 1 to 65535 bytes that expects at most 65536 bytes back, and with fewer
-- than 256 bytes of data unless it expects none or more than 256, is sent as the ISO 7816-3 command
-- with the same instruction, parameters, data and expected length.
pub parse_apdu-command_apdu :
    (ins p1 p2 : ℕ) (content : Bytes) (le : ℕ)
    → content ≢ []
    → length content < 65536
    → le ≤ 65536
    → (length content < 256) ⊎ ((le ≡ 0) ⊎ (256 < le))
    → (apdu : Bytes) × (command_apdu ins p1 p2 content le ≡ ok apdu)
      × (parse_apdu apdu
          ≡ some (record {
            ins = ins;
            p1 = p1;
            p2 = p2;
            content = content;
            expected = expectation le;
          }))
parse_apdu-command_apdu ins p1 p2 [] le some_data size top shape = absurd (some_data refl)
parse_apdu-command_apdu ins p1 p2 (x ∷ content) le some_data size top shape =
    elim (Bool-cases (ltb (length (x ∷ content)) 256 && leb le 256)) [
      | inl short ↦ (
        _,
        short_sent ins p1 p2 (x ∷ content) le top (ground arith) (ground arith),
        short_parses ins p1 p2 x content (length_field le) (ground arith)
            ∙ rw (short_le-length_field le (ground arith)) (unfold command_of in refl),
      )
      | inr long ↦ (
        _,
        long_sent ins p1 p2 (x ∷ content) le top (ground arith) size,
        extended_parses ins p1 p2 x content (length_field le) (length (x ∷ content)) refl size
            ∙ rw (long_le-length_field le (ground arith) top) (unfold command_of in refl),
      )
    ]

-- Data of 2 ^ 16 bytes or more are refused, and so are expected lengths above 2 ^ 16; everything
-- else is sent.
pub command_apdu_errors :
    (ins p1 p2 : ℕ) (content : Bytes) (le : ℕ)
    → (65536 ≤ length content → command_apdu ins p1 p2 content le ≡ err command_too_large)
      × (length content < 65536
          → 65536 < le
          → command_apdu ins p1 p2 content le ≡ err response_too_large)
      × (length content < 65536
          → le ≤ 65536
          → (apdu : Bytes) × (command_apdu ins p1 p2 content le ≡ ok apdu))
unfolding command_apdu command_part response_part
command_apdu_errors ins p1 p2 content le = (
  (λ h. ground arith),
  (λ h h'. ground arith),
  (λ h h'. elim (Bool-cases (ltb (length content) 256 && leb le 256)) [
    | inl short ↦ (_, short_sent ins p1 p2 content le h' (ground arith) (ground arith))
    | inr long ↦ (_, long_sent ins p1 p2 content le h' (ground arith) h)
  ]),
)
