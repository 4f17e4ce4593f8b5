-- ===== src/Openpgp/Apdu.antt =====
-- The command APDU that `communicate` of internal/openpgp/card.go puts together, and the parts of a
-- response APDU.
use go_skes.Prelude.{
  ℕ, ◌/◌, ◌%◌, ◌^◌, ◌&&◌, ◌++◌, [], ◌∷◌, none, some, bit_and, ltb, leb, ◌==◌, if◌then◌else◌, length,
  take, get_elem?, ◌-◌, panic, Bytes, Outcome, ok, err, ◌>>=◌,
}
use go_skes.Openpgp.Constants.{apdu_short, apdu_long}
use go_skes.Openpgp.Errors.{Error, response_too_large, command_too_large}

-- The first switch: the header, the length of the data, and the data.
unfoldable pub command_part : ℕ → ℕ → ℕ → Bytes → ℕ → Outcome Error Bytes
command_part ins p1 p2 content len_exp_resp =
    let len_data = length content in
    if ltb len_data apdu_short && leb len_exp_resp apdu_short
    then ok (0 ∷ ins ∷ p1 ∷ p2 ∷ (len_data % 256) ∷ content)
    else if ltb len_data apdu_long
    then ok (0 ∷ ins ∷ p1 ∷ p2 ∷ 0 ∷ (len_data / 2 ^ 8 % 256) ∷ bit_and len_data 0xff ∷ content)
    else err command_too_large

-- The second switch: the length that is expected back. The source's int may be negative, and is
-- then treated like 0.
unfoldable pub response_part : ℕ → Outcome Error Bytes
response_part len_exp_resp =
    if ltb 0 len_exp_resp
    then (if ltb len_exp_resp apdu_short
        then ok ((len_exp_resp % 256) ∷ [])
        else if len_exp_resp == apdu_short
        then ok (0 ∷ [])
        else if ltb len_exp_resp apdu_long
        then ok ((len_exp_resp / 2 ^ 8 % 256) ∷ bit_and len_exp_resp 0xff ∷ [])
        else if len_exp_resp == apdu_long
        then ok (0 ∷ 0 ∷ [])
        else err response_too_large)
    else ok []

unfoldable pub command_apdu : ℕ → ℕ → ℕ → Bytes → ℕ → Outcome Error Bytes
command_apdu ins p1 p2 content len_exp_resp = do
  front ← command_part ins p1 p2 content len_exp_resp
  back ← response_part len_exp_resp
  ok (front ++ back)

-- `resp[i]`
abbrev pub at : Bytes → ℕ → Outcome Error ℕ
at b i = elim (get_elem? b i) [ none ↦ panic | some x ↦ ok x ]

-- The response APDU: `lenResp - 2` is negative for a response of fewer than two bytes.
unfoldable pub decode_response : Bytes → Outcome Error (Bytes × ℕ × ℕ)
decode_response resp = if ltb (length resp) 2 then panic else do
  sw1 ← at resp (length resp - 2)
  sw2 ← at resp (length resp - 1)
  ok (take (length resp - 2) resp, sw1, sw2)
