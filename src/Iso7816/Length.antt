-- ===== src/Iso7816/Length.antt =====
-- DecodeLength of internal/iso7816/ber_tlv.go against the length octets of ISO 7816-4, read
-- independently, and what its 64-bit integer makes of them.
use go_skes.Prelude.{
  ℕ, zero, suc, ◌+◌, ◌*◌, ◌%◌, ◌^◌, ◌-◌, ◌<◌, ◌≤◌, ◌≡◌, refl, sym, ap, ◌∙◌, [], ◌∷◌, arith, bit_and,
  true, false, ltb, leb, if◌then◌else◌, length, take, drop, All, Bytes, IsByte, Outcome, ok, err,
  panic, Bool-cases, inl, inr,
}
use go_skes.Prelude.Bits.{and_0x7f, or_byte}
use go_skes.Iso7816.Tag.{Error, invalid_length, big_endian}
use go_skes.Iso7816.Tlv.{length_loop, decode_length}

-- The length octets: one below 128, or the number of those that follow, with 128 added, and they are
-- the length, most significant first.
abbrev pub read_length : Bytes → Outcome Error (ℕ × Bytes)
read_length [] = panic
read_length (b0 ∷ rest) =
    if ltb b0 128
    then ok (b0, rest)
    else if ltb (length rest) (b0 - 128)
    then err invalid_length
    else ok (big_endian 0 (take (b0 - 128) rest), drop (b0 - 128) rest)

-- A length as an int of 64 bits.
abbrev pub wrapped : Outcome Error (ℕ × Bytes) → Outcome Error (ℕ × Bytes)
wrapped (ok (l, rest)) = ok (l % 2 ^ 64, rest)
wrapped r = r

big_endian_mod :
    (bs : Bytes) (acc : ℕ) → big_endian (acc % 2 ^ 64) bs % 2 ^ 64 ≡ big_endian acc bs % 2 ^ 64
big_endian_mod [] acc = omega arith
big_endian_mod (b ∷ bs) acc =
    let same : (acc % 2 ^ 64 * 256 + b) % 2 ^ 64 ≡ (acc * 256 + b) % 2 ^ 64 = omega arith in
    sym (big_endian_mod bs (acc % 2 ^ 64 * 256 + b))
    ∙ (ap (λ a. big_endian a bs % 2 ^ 64) same ∙ big_endian_mod bs (acc * 256 + b))

length_loop_lem :
    (n : ℕ) (b : Bytes) (acc : ℕ)
    → All IsByte b
    → n ≤ length b
    → acc < 2 ^ 64
    → length_loop n b acc ≡ ok (big_endian acc (take n b) % 2 ^ 64, drop n b)
unfolding length_loop
length_loop_lem zero b acc hs le h =
    let fits : acc % 2 ^ 64 ≡ acc = omega (arith, h) in rw fits refl
length_loop_lem (suc n) [] acc hs le h = absurd (omega (arith, le))
length_loop_lem (suc n) (x ∷ b) acc (hx, hs) le h =
    let low = acc % 2 ^ 56 in
    let shifted : acc * 2 ^ 8 % 2 ^ 64 ≡ low * 256 = omega arith in
    let wrapped : low * 256 + x ≡ (acc * 256 + x) % 2 ^ 64 = omega (arith, hx) in
    rw (shifted, or_byte low x hx)
      (length_loop_lem n b (low * 256 + x) hs (omega (arith, le)) (omega (arith, hx))
        ∙ ap (λ l. ok (l, drop n b))
            (ap (λ a. big_endian a (take n b) % 2 ^ 64) wrapped
              ∙ big_endian_mod (take n b) (acc * 256 + x)))

-- The long form, behind its first octet.
long_form :
    (n : ℕ) (rest : Bytes)
    → All IsByte rest
    → (if ltb (length rest + 1) (n + 1) then err invalid_length else length_loop n rest 0)
      ≡ wrapped (
          if ltb (length rest) n
          then err invalid_length
          else ok (big_endian 0 (take n rest), drop n rest))
long_form n rest hs = elim (Bool-cases (ltb (length rest) n)) [
  | inl missing ↦
      let test : ltb (length rest + 1) (n + 1) ≡ true = ground (arith, missing) in
      rw (missing, test) refl
  | inr there ↦
      let test : ltb (length rest + 1) (n + 1) ≡ false = ground (arith, there) in
      rw (there, test) (length_loop_lem n rest 0 hs (ground (arith, there)) (omega arith))
]

-- On every byte slice DecodeLength returns what the length octets say, and the bytes behind them, with
-- the length taken modulo 2 ^ 64, as a bit pattern; it fails where octets are missing, and panics on
-- the empty slice.
pub decode_length-read_length :
    (b : Bytes) → All IsByte b → decode_length b ≡ wrapped (read_length b)
unfolding decode_length
decode_length-read_length [] hs = refl
decode_length-read_length (b0 ∷ rest) (h0, hs) = elim (Bool-cases (ltb b0 128)) [
  | inl short ↦
      let test : leb b0 0x7f ≡ true = ground (arith, short) in
      let fits : b0 % 2 ^ 64 ≡ b0 = omega (arith, h0) in rw (short, test, fits) refl
  | inr long ↦
      let test : leb b0 0x7f ≡ false = ground (arith, long) in
      let count : bit_and b0 0x7f ≡ b0 - 128 = ground (arith, long, and_0x7f b0 h0) in
      rw (long, test, count) (long_form (b0 - 128) rest hs)
]
