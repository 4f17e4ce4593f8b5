-- ===== src/Openpgp/Errors.antt =====
-- internal/openpgp/error.go, and the error values of the package.
use Prim.Native.String.{String}
use go_skes.Prelude.{
  ℕ, ◌+◌, ◌-◌, ◌++◌, [], ◌∷◌, Option, none, some, bit_and, ltb, ◌==◌, if◌then◌else◌, Bytes, codes,
}
use go_skes.Openpgp.Tables.{lookup, status_codes}
use go_skes.Iso7816.Tag

-- `iso` is an error of internal/iso7816, `card_status` a status word that the card answered,
-- `transport` an error code of the scard library, `wrapped` a text put in front by fmt.Errorf.
pub data Error : Type 0 where
  iso : Tag.Error → Error
  invalid_length invalid_response response_too_large command_too_large : Error
  card_status : ℕ → Error
  transport : ℕ → Error
  wrapped : String → Error → Error

-- `%d` of a number below 16.
pub decimal16 : ℕ → Bytes
decimal16 n = if ltb n 10 then (b'0' + n) ∷ [] else b'1' ∷ (b'0' + (n - 10)) ∷ []

status_or_unknown : Option String → Bytes
status_or_unknown none = codes "unknown error"
status_or_unknown (some str) = codes str

-- Error.Error
unfoldable pub status_text : ℕ → Bytes
unfolding decimal16 status_or_unknown lookup
status_text e =
    if bit_and e 0x63C0 == 0x63C0
    then codes "password not checked: " ++ (decimal16 (bit_and e 0xf) ++ codes " tries left")
    else status_or_unknown (lookup e status_codes)
