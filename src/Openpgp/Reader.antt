-- ===== src/Openpgp/Reader.antt =====
-- internal/openpgp/card.go, `communicate` and `send`: commands over a reader that the scard library
-- drives.
use go_skes.Prelude.{
  ℕ, zero, suc, ◌*◌, ◌^◌, ◌||◌, ◌++◌, not, [], ◌∷◌, Option, bit_or, ◌==◌, if◌then◌else◌, Bytes,
  Outcome, ok, err, stuck, Bool, true, false,
}
use go_skes.Prelude.Exec.{Exec, lift, ◌>>=◌, ◌>>◌}
use go_skes.Openpgp.Errors.{Error, card_status, transport, wrapped}
use go_skes.Openpgp.Apdu.{command_apdu, decode_response}

-- What scard.Card.Transmit returns: the response APDU, or the library's error code.
pub data Reply : Type 0 where
  received : Bytes → Reply
  failed : ℕ → Reply

-- The reader and the card behind it: not under the repository. `reconnect` is Card.Reconnect with
-- its error code, `transmit` is Card.Transmit.
pub record Reader : Type 1 where
  pub State : Type 0
  pub reconnect : State → State × Option ℕ
  pub transmit : Bytes → State → State × Reply

-- The fields of the source's Card beside the handle of the reader.
pub record Card : Type 0 where
  pub longer : ℕ

abbrev pub get_response_apdu : Bytes
get_response_apdu = 0x00 ∷ 0xc0 ∷ 0x00 ∷ 0x00 ∷ 0x00 ∷ []

-- The end of `communicate`.
unfoldable pub check_status : Bytes → ℕ → ℕ → Outcome Error Bytes
check_status resp sw1 sw2 =
    if not (sw1 == 0x90) || not (sw2 == 0x00)
    then err (card_status (bit_or (sw1 * 2 ^ 8) sw2))
    else ok resp

unfoldable pub as_reply : Reply → Outcome Error Bytes
as_reply (received resp) = ok resp
as_reply (failed code) = err (transport code)

-- errors.As(err, &gerr) for gerr of type Error
unfoldable pub is_card_status : Error → Bool
is_card_status (card_status sw) = true
is_card_status (wrapped text e) = is_card_status e
is_card_status _ = false

-- A call that talks to the card.
abbrev pub Io : Reader → Type 0 → Type 0
Io R A = Exec R.State Error A

module _ (R : Reader) where
  unfoldable pub transmit : Bytes → Io R Bytes
  unfolding as_reply
  transmit apdu s = let r = R.transmit apdu s in (r.0, as_reply r.1)

  -- `for sw1 == 0x61`
  unfoldable pub response_loop : ℕ → Bytes → ℕ → ℕ → Io R Bytes
  response_loop zero resp sw1 sw2 =
      if sw1 == 0x61 then lift stuck else lift (check_status resp sw1 sw2)
  response_loop (suc n) resp sw1 sw2 =
      let again : Io R Bytes = do
        reply ← transmit get_response_apdu
        (resp_rem, sw1', sw2') ← lift (decode_response reply)
        response_loop n (resp ++ resp_rem) sw1' sw2'
      in if sw1 == 0x61 then again else lift (check_status resp sw1 sw2)

-- `fuel` bounds the loop of `communicate`, which goes on as long as the card says.
module _ (R : Reader) (fuel : ℕ) where
  unfoldable pub communicate : ℕ → ℕ → ℕ → Bytes → ℕ → Io R Bytes
  communicate ins p1 p2 content len_exp_resp = do
    apdu ← lift (command_apdu ins p1 p2 content len_exp_resp)
    reply ← transmit R apdu
    (resp, sw1, sw2) ← lift (decode_response reply)
    response_loop R fuel resp sw1 sw2

  unfoldable pub send : ℕ → ℕ → ℕ → Bytes → Io R (Unit {0})
  send ins p1 p2 content = do communicate ins p1 p2 content 0; lift (ok tt)
