-- ===== src/Iso7816/Status.antt =====
-- internal/iso7816/error.go: the two status bytes of a response, as a slice.
use go_skes.Prelude.{
  sym, ℕ, ◌+◌, ◌/◌, ◌%◌, ◌≡◌, ◌↔◌, Bool, true, false, [], ◌∷◌, ◌++◌, arith, ◌==◌, ltb, ◌&&◌,
  if◌then◌else◌, length, Bytes, bytes_equal, bytes_equal→eq, bytes_equal_refl, codes,
}

-- `% x` of fmt: two lower-case digits for each byte, with spaces between.
hex_digit : ℕ → ℕ
hex_digit d = if ltb d 10 then d + b'0' else d + 87

hex_byte : ℕ → Bytes
unfolding hex_digit
hex_byte b = hex_digit (b / 16) ∷ hex_digit (b % 16) ∷ []

hex_spaced : Bytes → Bytes
unfolding hex_byte
hex_spaced [] = []
hex_spaced (b ∷ []) = hex_byte b
hex_spaced (b ∷ c ∷ bs) = hex_byte b ++ b' ' ∷ hex_spaced (c ∷ bs)

-- Code.Error
unfoldable pub code_error : Bytes → Bytes
unfolding hex_spaced bytes_equal
code_error c =
    if bytes_equal c (0x6a ∷ 0x80 ∷ [])
    then codes "wrong syntax"
    else if bytes_equal c (0x69 ∷ 0x84 ∷ [])
    then codes "no such object"
    else codes "unknown (" ++ (hex_spaced c ++ codes ")")

-- Code.IsMore
unfoldable pub is_more : Bytes → Bool
is_more [] = false
is_more (c0 ∷ c) = length (c0 ∷ c) == 2 && c0 == 0x61

-- Code.IsSuccess
unfoldable pub is_success : Bytes → Bool
is_success c = bytes_equal (0x90 ∷ 0x00 ∷ []) c

is_success_iff : (c : Bytes) → (is_success c ≡ true) ↔ (c ≡ 0x90 ∷ 0x00 ∷ [])
unfolding is_success
is_success_iff c = (
  (λ h. sym (bytes_equal→eq (0x90 ∷ 0x00 ∷ []) c h)),
  (λ e. rw e (bytes_equal_refl (0x90 ∷ 0x00 ∷ []))),
)

is_more_iff : (c : Bytes) → (is_more c ≡ true) ↔ ((n : ℕ) × (c ≡ 0x61 ∷ n ∷ []))
unfolding is_more
is_more_iff [] = ((λ h. cc), λ (n, e). cc)
is_more_iff (a ∷ []) = ((λ h. absurd (ground arith)), λ (n, e). cc)
is_more_iff (a ∷ b ∷ []) = ((λ h. (b, ground arith)), λ (n, e). ground arith)
is_more_iff (a ∷ b ∷ d ∷ c) = ((λ h. absurd (ground arith)), λ (n, e). cc)

-- `IsSuccess` holds of 90 00 alone, and `IsMore` of 61 with any second byte.
pub status_tests :
    (c : Bytes)
    → ((is_success c ≡ true) ↔ (c ≡ 0x90 ∷ 0x00 ∷ []))
      × ((is_more c ≡ true) ↔ ((n : ℕ) × (c ≡ 0x61 ∷ n ∷ [])))
status_tests c = (is_success_iff c, is_more_iff c)
