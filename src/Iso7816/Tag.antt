-- ===== src/Iso7816/Tag.antt =====
-- internal/iso7816/tag.go: a tag is a uint32, written with as few bytes as its value needs.
use go_skes.Prelude.{
  ℕ, ◌+◌, ◌-◌, ◌*◌, ◌/◌, ◌%◌, ◌^◌, ◌<◌, ◌≡◌, Bool, not, [], ◌∷◌, bit_and, arith, ◌==◌,
  if◌then◌else◌, length, ap,
}
use go_skes.Prelude.{Bytes, Outcome, ok, panic, ◌>>=◌}
use go_skes.Prelude.Bits.{and_0x20}

pub data Error : Type 0 where
  invalid_tag invalid_length : Error

abbrev pub tag_invalid : ℕ
tag_invalid = 0

unfoldable pub size : ℕ → ℕ
size t =
    if t / 2 ^ 8 == 0 then 1 else if t / 2 ^ 16 == 0 then 2 else if t / 2 ^ 24 == 0 then 3 else 4

-- `byte(t >> k)`
abbrev pub byte_at : ℕ → ℕ → ℕ
byte_at t k = t / 2 ^ k % 256

unfoldable pub tag_bytes : ℕ → Bytes
unfolding size
tag_bytes t =
    if size t == 1
    then byte_at t 0 ∷ []
    else if size t == 2
    then byte_at t 8 ∷ byte_at t 0 ∷ []
    else if size t == 3
    then byte_at t 16 ∷ byte_at t 8 ∷ byte_at t 0 ∷ []
    else if size t == 4
    then byte_at t 24 ∷ byte_at t 16 ∷ byte_at t 8 ∷ byte_at t 0 ∷ []
    else []

-- `b[0]`
abbrev pub first : {E : Type 0} → Bytes → Outcome E ℕ
first [] = panic
first (b ∷ bs) = ok b

unfoldable pub is_constructed : ℕ → Outcome Error Bool
unfolding tag_bytes
is_constructed t = do b ← first (tag_bytes t); ok (not (bit_and b 0x20 == 0))

-- The number that bytes stand for, most significant first.
abbrev pub big_endian : ℕ → Bytes → ℕ
big_endian acc [] = acc
big_endian acc (b ∷ bs) = big_endian (acc * 256 + b) bs

-- The bytes of a 32-bit tag are its value, most significant byte first, and `size` counts them.
pub tag_bytes_value :
    (t : ℕ) → t < 2 ^ 32 → (big_endian 0 (tag_bytes t) ≡ t) × (length (tag_bytes t) ≡ size t)
unfolding tag_bytes
tag_bytes_value t h = (ground arith, ground arith)

-- The most significant byte of the tag, by division.
abbrev pub leading_byte : ℕ → ℕ
leading_byte t = t / 256 ^ (size t - 1)

first-tag_bytes :
    (t : ℕ)
    → t < 2 ^ 32
    → (first {E = Error} (tag_bytes t) ≡ ok (leading_byte t)) × (leading_byte t < 256)
unfolding tag_bytes
first-tag_bytes t h = (ground arith, ground arith)

bit_set : (x : ℕ) → not (x % 2 * 32 == 0) ≡ (x % 2 == 1)
bit_set x = ground arith

-- A tag is constructed exactly if bit 6 of its leading byte is set, and asking never panics.
pub is_constructed_lem : (t : ℕ) → t < 2 ^ 32 → is_constructed t ≡ ok (leading_byte t / 32 % 2 == 1)
unfolding is_constructed
is_constructed_lem t h =
    let (e, low) = first-tag_bytes t h in
    rw (e, and_0x20 (leading_byte t) low) (ap ok (bit_set (leading_byte t / 32)))
