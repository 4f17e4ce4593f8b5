-- ===== src/Openpgp/Chaining.antt =====
-- What `communicate` of internal/openpgp/card.go makes of a card that answers in one or more parts.
use go_skes.Prelude.{
  false, ℕ, suc, zero, ◌+◌, ◌-◌, ◌*◌, ◌≤◌, ◌<◌, ◌≡◌, ◌≢◌, refl, ◌++◌, [], ◌∷◌, some, arith, ◌==◌,
  append_assoc, ◌∙◌, length, get_elem?, length-append, take-append, Bytes, Outcome, ok, err,
  if◌then◌else◌,
}
use go_skes.Prelude.Bits.{or_byte}
use go_skes.Prelude.Exec.{◌>>=◌, lift}
use go_skes.Openpgp.Errors.{Error, card_status}
use go_skes.Openpgp.Apdu.{command_apdu, decode_response}
use go_skes.Openpgp.Reader.{
  Reader, received, Io, check_status, get_response_apdu, transmit, response_loop, communicate,
}

get_elem?-middle :
    (front : Bytes) (x : ℕ) (back : Bytes) → get_elem? (front ++ (x ∷ back)) (length front) ≡ some x
get_elem?-middle [] x back = refl
get_elem?-middle (y ∷ front) x back = get_elem?-middle front x back

get_elem?-next :
    (front : Bytes) (x y : ℕ) → get_elem? (front ++ (x ∷ y ∷ [])) (suc (length front)) ≡ some y
get_elem?-next [] x y = refl
get_elem?-next (z ∷ front) x y = get_elem?-next front x y

-- A response is its data and the two status bytes behind them.
pub decode_response_lem :
    (front : Bytes) (sw1 sw2 : ℕ)
    → decode_response (front ++ (sw1 ∷ sw2 ∷ [])) ≡ ok (front, sw1, sw2)
unfolding decode_response
decode_response_lem front sw1 sw2 =
    let size : length (front ++ (sw1 ∷ sw2 ∷ [])) ≡ length front + 2 =
      length-append front (sw1 ∷ sw2 ∷ []) in
    let before : length (front ++ (sw1 ∷ sw2 ∷ [])) - 2 ≡ length front = omega arith in
    let behind : length (front ++ (sw1 ∷ sw2 ∷ [])) - 1 ≡ suc (length front) = omega arith in
    ground (
      arith,
      before,
      behind,
      get_elem?-middle front sw1 (sw2 ∷ []),
      get_elem?-next front sw1 sw2,
      take-append front (sw1 ∷ sw2 ∷ []),
    )

-- The final status as a result: 90 00 is success, anything else the error of that number.
abbrev pub verdict : Bytes → ℕ → ℕ → Outcome Error Bytes
verdict resp sw1 sw2 =
    if sw1 * 256 + sw2 == 0x9000 then ok resp else err (card_status (sw1 * 256 + sw2))

check_status-verdict :
    (resp : Bytes) (sw1 sw2 : ℕ)
    → sw1 < 256
    → sw2 < 256
    → check_status resp sw1 sw2 ≡ verdict resp sw1 sw2
unfolding check_status
check_status-verdict resp sw1 sw2 h h' = ground (arith, or_byte sw1 sw2)

-- `Answers R s apdu k d sw1 sw2 t`: from state `s` the card answers `apdu`, and the GET RESPONSE
-- commands that its status bytes 61 xx ask for, with `k` responses in all, whose data are `d`
-- together; the last one has the status bytes `sw1 sw2`, and `t` is the state after it.
pub data Answers (R : Reader) : R.State → Bytes → ℕ → Bytes → ℕ → ℕ → R.State → Type 0 where
  last :
      {s t : R.State} {apdu : Bytes} (d : Bytes) (sw1 sw2 : ℕ)
      → R.transmit apdu s ≡ (t, received (d ++ (sw1 ∷ sw2 ∷ [])))
      → sw1 ≢ 0x61
      → sw1 < 256
      → sw2 < 256
      → Answers R s apdu 1 d sw1 sw2 t
  more :
      {s t u : R.State} {apdu : Bytes} {k sw1 sw2 : ℕ} {rest : Bytes} (d : Bytes) (x : ℕ)
      → R.transmit apdu s ≡ (t, received (d ++ (0x61 ∷ x ∷ [])))
      → Answers R t get_response_apdu k rest sw1 sw2 u
      → Answers R s apdu (suc k) (d ++ rest) sw1 sw2 u

Answers-pos :
    {R : Reader} {s t : R.State} {apdu d : Bytes} {k sw1 sw2 : ℕ}
    → Answers R s apdu k d sw1 sw2 t
    → 0 < k
Answers-pos (last d sw1 sw2 e n h h') = omega arith
Answers-pos (more d x e a) = omega arith

module _ (R : Reader) where
  -- One command with the loop behind it.
  exchange : ℕ → Bytes → Bytes → Io R Bytes
  exchange n resp apdu = do
    reply ← transmit R apdu
    (resp_rem, sw1, sw2) ← lift (decode_response reply)
    response_loop R n (resp ++ resp_rem) sw1 sw2

  exchange_step :
      {s t : R.State} (n : ℕ) (resp apdu d : Bytes) (sw1 sw2 : ℕ)
      → R.transmit apdu s ≡ (t, received (d ++ (sw1 ∷ sw2 ∷ [])))
      → exchange n resp apdu s ≡ response_loop R n (resp ++ d) sw1 sw2 t
  unfolding exchange transmit
  exchange_step n resp apdu d sw1 sw2 h = rw (h, decode_response_lem)

  loop_stops :
      (n : ℕ) (resp : Bytes) (sw1 sw2 : ℕ) (s : R.State)
      → sw1 ≢ 0x61
      → response_loop R n resp sw1 sw2 s ≡ (s, check_status resp sw1 sw2)
  unfolding response_loop
  loop_stops zero resp sw1 sw2 s h = let other : (sw1 == 0x61) ≡ false = ground arith in rw other
  loop_stops (suc n) resp sw1 sw2 s h = let other : (sw1 == 0x61) ≡ false = ground arith in rw other

  loop_goes_on :
      (n : ℕ) (resp : Bytes) (sw2 : ℕ) (s : R.State)
      → response_loop R (suc n) resp 0x61 sw2 s ≡ exchange n resp get_response_apdu s
  unfolding response_loop exchange
  loop_goes_on n resp sw2 s = refl

  exchange-Answers :
      {s t : R.State} {apdu d : Bytes} {k sw1 sw2 : ℕ} (n : ℕ) (resp : Bytes)
      → Answers R s apdu k d sw1 sw2 t
      → k ≤ suc n
      → exchange n resp apdu s ≡ (t, verdict (resp ++ d) sw1 sw2)
  exchange-Answers {t = t} {apdu = apdu} n resp (last d sw1 sw2 e stop h h') hk =
      exchange_step n resp apdu d sw1 sw2 e
      ∙ loop_stops n (resp ++ d) sw1 sw2 t stop
      ∙ rw (check_status-verdict (resp ++ d) sw1 sw2 h h')
  exchange-Answers zero resp (more d x e a) hk = absurd (omega (arith, Answers-pos a))
  exchange-Answers {apdu = apdu} (suc n) resp (more {t = t} {rest = rest} d x e a) hk =
      exchange_step (suc n) resp apdu d 0x61 x e
      ∙ loop_goes_on n (resp ++ d) x t
      ∙ exchange-Answers n (resp ++ d) a (omega arith)
      ∙ rw (append_assoc resp d rest)

-- Where the command APDU is built and the card answers in `k` responses, `communicate` sends the
-- command and, while the card has more, GET RESPONSE: it returns the data of all the responses in
-- their order if the last status is 90 00, and the card's error otherwise. Fuel of `k - 1` rounds
-- is enough.
pub communicate-Answers :
    (R : Reader) (fuel ins p1 p2 : ℕ) (content : Bytes) (le : ℕ) {s t : R.State} {apdu d : Bytes}
    {k sw1 sw2 : ℕ}
    → command_apdu ins p1 p2 content le ≡ ok apdu
    → Answers R s apdu k d sw1 sw2 t
    → k ≤ fuel + 1
    → communicate R fuel ins p1 p2 content le s ≡ (t, verdict d sw1 sw2)
unfolding communicate
communicate-Answers R fuel ins p1 p2 content le built a h =
    rw built (unfold exchange in exchange-Answers R fuel [] a (omega arith))
