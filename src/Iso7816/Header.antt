-- ===== src/Iso7816/Header.antt =====
-- What the readers of a tag and of a length take from a slice, on any input.
use go_skes.Prelude.{
  bit_or, ltb, if◌then◌else◌, ℕ, ◌+◌, ◌*◌, ◌/◌, ◌%◌, ◌^◌, ◌≤◌, ◌<◌, ◌≡◌, ◌≢◌, refl, [], ◌∷◌, ◌++◌,
  arith, length, length-append, All, Bytes, IsByte, ok,
}
use go_skes.Prelude.Bits.{and_0x1f, and_0x7f, and_0x80, or_byte, or_fields}
use go_skes.Iso7816.Tag.{tag_bytes, big_endian}
use go_skes.Iso7816.Tlv.{decode_tag, length_loop, decode_length}

-- A tag of one byte, or of two bytes with a last byte in range, as ISO 7816-4 wants it.
abbrev pub IsTag1 : ℕ → Type 0
IsTag1 t = (0 < t) × (t < 256) × (t % 32 ≢ 31)

abbrev pub IsTag2 : ℕ → Type 0
IsTag2 t = (t / 256 < 256) × (t / 256 % 32 ≡ 31) × (30 < t % 256) × (t % 256 < 128)

decode_tag_one :
    (b0 : ℕ) (rest : Bytes) → b0 < 256 → b0 % 32 ≢ 31 → decode_tag (b0 ∷ rest) ≡ ok (b0, rest)
unfolding decode_tag
decode_tag_one b0 rest h n = ground (arith, and_0x1f b0)

decode_tag_two :
    (b0 b1 : ℕ) (rest : Bytes)
    → b0 < 256
    → b0 % 32 ≡ 31
    → 30 < b1
    → b1 < 128
    → decode_tag (b0 ∷ b1 ∷ rest) ≡ ok (b0 * 256 + b1, rest)
unfolding decode_tag
decode_tag_two b0 b1 rest h n lo hi =
    ground (arith, and_0x1f b0, and_0x7f b1, and_0x80 b1, or_byte b0 b1)

-- The three bytes of a long tag, of which the source takes the first one twice.
pub decode_tag_three :
    (b0 b1 b2 : ℕ) (rest : Bytes)
    → b0 < 256
    → b1 < 256
    → b0 % 32 ≡ 31
    → 128 < b1
    → decode_tag (b0 ∷ b1 ∷ b2 ∷ rest) ≡ ok ((b0 * 256 + b1) * 256 + b0, rest)
unfolding decode_tag
decode_tag_three b0 b1 b2 rest h h1 n lo = ground (
  arith,
  and_0x1f b0,
  and_0x7f b1,
  and_0x80 b1,
  or_fields 16 b0 (b1 * 256),
  or_byte (b0 * 256 + b1) b0,
)

-- The tag that EncodeTLV writes is read back, whatever follows it.
pub decode_tag_tag1 :
    (t : ℕ) (rest : Bytes) → IsTag1 t → decode_tag (tag_bytes t ++ rest) ≡ ok (t, rest)
unfolding tag_bytes
decode_tag_tag1 t rest (pos, low, n) = ground (arith, decode_tag_one t rest)

pub decode_tag_tag2 :
    (t : ℕ) (rest : Bytes) → IsTag2 t → decode_tag (tag_bytes t ++ rest) ≡ ok (t, rest)
unfolding tag_bytes
decode_tag_tag2 t rest (high, n, lo, hi) = ground (arith, decode_tag_two (t / 256) (t % 256) rest)

le-big_endian : (acc : ℕ) (bs : Bytes) → acc ≤ big_endian acc bs
le-big_endian acc [] = omega arith
le-big_endian acc (b ∷ bs) = omega (arith, le-big_endian (acc * 256 + b) bs)

length_loop_reads :
    (bs rest : Bytes) (acc : ℕ)
    → All IsByte bs
    → big_endian acc bs < 2 ^ 64
    → length_loop (length bs) (bs ++ rest) acc ≡ ok (big_endian acc bs, rest)
unfolding length_loop
length_loop_reads [] rest acc h fits = refl
length_loop_reads (b ∷ bs) rest acc (hb, hbs) fits =
    let low : acc * 256 + b < 2 ^ 64 = omega (arith, le-big_endian (acc * 256 + b) bs) in
    let same : bit_or (acc * 256 % 2 ^ 64) b ≡ acc * 256 + b = ground (arith, or_byte acc b) in
    rw same (length_loop_reads bs rest (acc * 256 + b) hbs fits)

-- The long form: the bytes after the first one are the length, most significant first.
pub decode_length_long :
    (bs rest : Bytes)
    → length bs < 128
    → All IsByte bs
    → big_endian 0 bs < 2 ^ 64
    → decode_length ((128 + length bs) ∷ (bs ++ rest)) ≡ ok (big_endian 0 bs, rest)
unfolding decode_length
decode_length_long bs rest h all fits =
    ground (
      arith,
      and_0x7f (128 + length bs),
      length-append bs rest,
      length_loop_reads bs rest 0 all fits,
    )

decode_length_short : (n : ℕ) (rest : Bytes) → n < 128 → decode_length (n ∷ rest) ≡ ok (n, rest)
unfolding decode_length
decode_length_short n rest h = ground arith

-- The length octets of ISO 7816-4, for a value of less than 2 ^ 16 bytes.
unfoldable pub length_bytes : ℕ → Bytes
length_bytes n =
    if ltb n 128 then n ∷ [] else if ltb n 256 then 0x81 ∷ n ∷ [] else 0x82 ∷ n / 256 ∷ n % 256 ∷ []

pub decode_length-length_bytes :
    (n : ℕ) (rest : Bytes) → n < 2 ^ 16 → decode_length (length_bytes n ++ rest) ≡ ok (n, rest)
unfolding length_bytes
decode_length-length_bytes n rest h = ground (
  arith,
  decode_length_short n rest,
  decode_length_long (n ∷ []) rest,
  decode_length_long (n / 256 ∷ n % 256 ∷ []) rest,
)
