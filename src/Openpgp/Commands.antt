-- ===== src/Openpgp/Commands.antt =====
-- The commands of internal/openpgp/card.go that only report success: what they put on the wire and
-- what they make of the answer.
use go_skes.Prelude.{
  ap, length-append, ℕ, ◌+◌, ◌*◌, ◌≤◌, ◌<◌, ◌≡◌, ◌⊎◌, inl, inr, ◌≢◌, refl, ◌++◌, [], ◌∷◌, none,
  some, arith, ◌==◌, ltb, ◌&&◌, true, false, Bool-cases, length, Bytes, Outcome, ok, err,
  if◌then◌else◌,
}
use go_skes.Prelude.Exec.{resume, lift}
use go_skes.Iso7816.Instructions.{
  ins_change_reference_data, ins_terminate_df, ins_activate_file, ins_verify,
  ins_reset_retry_counter,
}
use go_skes.Openpgp.Constants.{pw1, pw3}
use go_skes.Openpgp.Errors.{Error, card_status, invalid_length}
use go_skes.Openpgp.Apdu.{command_part, response_part, command_apdu}
use go_skes.Openpgp.Framing.{Command, parse_apdu, parse_apdu-command_apdu}
use go_skes.Openpgp.Reader.{Reader, Io, send}
use go_skes.Openpgp.Chaining.{Answers, verdict, communicate-Answers}
use go_skes.Openpgp.Card.{
  terminate, activate, factory_reset, change_password, verify_password, reset_retry_counter,
  reset_retry_counter_with_reset_code,
}

-- Success or the card's error, with the data of the answer dropped.
abbrev pub done : ℕ → ℕ → Outcome Error (Unit {0})
done sw1 sw2 = if sw1 * 256 + sw2 == 0x9000 then ok tt else err (card_status (sw1 * 256 + sw2))

-- The call puts this command on the wire, and reports the final status of the card's answer.
abbrev pub Sends : (R : Reader) → ℕ → Io R (Unit {0}) → Command → Type 0
Sends R fuel m c =
    (apdu : Bytes) × (parse_apdu apdu ≡ some c)
    × ((s t : R.State) (k : ℕ) (d : Bytes) (sw1 sw2 : ℕ)
        → Answers R s apdu k d sw1 sw2 t
        → k ≤ fuel + 1
        → m s ≡ (t, done sw1 sw2))

module _ (R : Reader) (fuel : ℕ) where
  forget_data :
      (t : R.State) (d : Bytes) (sw1 sw2 : ℕ)
      → resume {B = Unit {0}} t (verdict d sw1 sw2) (λ x. lift (ok tt)) ≡ (t, done sw1 sw2)
  forget_data t d sw1 sw2 = elim (Bool-cases (sw1 * 256 + sw2 == 0x9000)) [
    | inl good ↦ rw good
    | inr bad ↦ rw bad
  ]

  pub send-Answers :
      (ins p1 p2 : ℕ) (content apdu : Bytes) (s t : R.State) (k : ℕ) (d : Bytes) (sw1 sw2 : ℕ)
      → command_apdu ins p1 p2 content 0 ≡ ok apdu
      → Answers R s apdu k d sw1 sw2 t
      → k ≤ fuel + 1
      → send R fuel ins p1 p2 content s ≡ (t, done sw1 sw2)
  unfolding send
  send-Answers ins p1 p2 content apdu s t k d sw1 sw2 built a h =
      rw (communicate-Answers R fuel ins p1 p2 content 0 built a h) (forget_data t d sw1 sw2)

  pub send-Sends :
      (ins p1 p2 : ℕ) (content : Bytes)
      → content ≢ []
      → length content < 65536
      → Sends R fuel
          (send R fuel ins p1 p2 content)
          (record { ins = ins; p1 = p1; p2 = p2; content = content; expected = none })
  send-Sends ins p1 p2 content some_data size =
      let (apdu, built, parsed) =
        parse_apdu-command_apdu ins p1 p2 content 0 some_data size (omega arith) (inr (inl refl)) in
      (
        apdu,
        parsed,
        λ s t k d sw1 sw2 a h. send-Answers ins p1 p2 content apdu s t k d sw1 sw2 built a h,
      )

-- A new password of the wrong length is refused before anything is sent: PW1 wants 6 characters at
-- least, PW3 wants 8. Any other one is sent behind the current password, as CHANGE REFERENCE DATA
-- for that password, and the call reports the card's status. The two passwords together have 1 to
-- 65535 bytes.
pub change_password_lem :
    (R : Reader) (fuel pw_type : ℕ) (pw_actual pw_new : Bytes)
    → pw_actual ++ pw_new ≢ []
    → length (pw_actual ++ pw_new) < 65536
    → ((s : R.State)
        → ((pw_type ≡ pw1) × (length pw_new < 6)) ⊎ ((pw_type ≡ pw3) × (length pw_new < 8))
        → change_password R fuel pw_type pw_actual pw_new s ≡ (s, err invalid_length))
      × ((pw_type ≡ pw1 → 6 ≤ length pw_new)
          → (pw_type ≡ pw3 → 8 ≤ length pw_new)
          → Sends R fuel (change_password R fuel pw_type pw_actual pw_new) (record {
            ins = ins_change_reference_data;
            p1 = 0x00;
            p2 = pw_type;
            content = pw_actual ++ pw_new;
            expected = none;
          }))
unfolding change_password
change_password_lem R fuel pw_type pw_actual pw_new some_data size = (
  (λ s short. refused s short),
  λ long1 long3. rw (passes long1 long3) (
      send-Sends R fuel ins_change_reference_data 0x00 pw_type (pw_actual ++ pw_new) some_data
        size),
)
  where
    refused :
        (s : R.State)
        → ((pw_type ≡ pw1) × (length pw_new < 6)) ⊎ ((pw_type ≡ pw3) × (length pw_new < 8))
        → change_password R fuel pw_type pw_actual pw_new s ≡ (s, err invalid_length)
    refused s (inl (e, short)) =
        let test1 : (pw_type == pw1 && ltb (length pw_new) 6) ≡ true = ground arith in rw test1
    refused s (inr (e, short)) =
        let test1 : (pw_type == pw1 && ltb (length pw_new) 6) ≡ false = ground arith in
        let test3 : (pw_type == pw3 && ltb (length pw_new) 8) ≡ true = ground arith in
        rw (test1, test3)

    passes :
        (pw_type ≡ pw1 → 6 ≤ length pw_new)
        → (pw_type ≡ pw3 → 8 ≤ length pw_new)
        → change_password R fuel pw_type pw_actual pw_new
          ≡ send R fuel ins_change_reference_data 0x00 pw_type (pw_actual ++ pw_new)
    passes long1 long3 =
        let test1 : (pw_type == pw1 && ltb (length pw_new) 6) ≡ false = ground (arith, long1) in
        let test3 : (pw_type == pw3 && ltb (length pw_new) 8) ≡ false = ground (arith, long3) in
        rw (test1, test3)

nonempty : (x : ℕ) (pw : Bytes) → (length (x ∷ pw) == 0) ≡ false
nonempty x pw = ground arith

-- A password of fewer than 2 ^ 16 bytes is checked by VERIFY with p1 FF, and the call reports the
-- card's status; for the empty one, VERIFY without data and with p1 00 is sent.
pub verify_password_lem :
    (R : Reader) (fuel pw_type : ℕ) (pw : Bytes)
    → length pw < 65536
    → (pw ≢ []
        → Sends R fuel
            (verify_password R fuel pw_type pw)
            (record { ins = ins_verify; p1 = 0xff; p2 = pw_type; content = pw; expected = none }))
      × (verify_password R fuel pw_type [] ≡ send R fuel ins_verify 0x00 pw_type [])
unfolding verify_password
verify_password_lem R fuel pw_type [] size = ((λ n. absurd (n refl)), refl)
verify_password_lem R fuel pw_type (x ∷ pw) size =
    ((λ n. rw (nonempty x pw) (send-Sends R fuel ins_verify 0xff pw_type (x ∷ pw) n size)), refl)

-- Resetting the retry counter of PW1 refuses a password of fewer than 6 characters before anything
-- is sent; otherwise it sends RESET RETRY COUNTER with the new password, behind the resetting code
-- where there is one, and p1 02 or 00 accordingly. The code and the password together have fewer
-- than 2 ^ 16 bytes.
pub reset_retry_counter_lem :
    (R : Reader) (fuel : ℕ) (pw rc : Bytes)
    → length (rc ++ pw) < 65536
    → ((s : R.State)
        → length pw < 6
        → (reset_retry_counter R fuel pw s ≡ (s, err invalid_length))
          × (reset_retry_counter_with_reset_code R fuel pw rc s ≡ (s, err invalid_length)))
      × (6 ≤ length pw
          → Sends R fuel (reset_retry_counter R fuel pw) (record {
            ins = ins_reset_retry_counter;
            p1 = 0x02;
            p2 = pw1;
            content = pw;
            expected = none;
          })
            × Sends R fuel (reset_retry_counter_with_reset_code R fuel pw rc) (record {
              ins = ins_reset_retry_counter;
              p1 = 0x00;
              p2 = pw1;
              content = rc ++ pw;
              expected = none;
            }))
unfolding reset_retry_counter reset_retry_counter_with_reset_code
reset_retry_counter_lem R fuel pw rc size = (
  (λ s short. let test : ltb (length pw) 6 ≡ true = ground arith in (rw test, rw test)),
  λ long.
      let test : ltb (length pw) 6 ≡ false = ground arith in
      let total : length (rc ++ pw) ≡ length rc + length pw = length-append rc pw in
      (
        rw test (
            send-Sends R fuel ins_reset_retry_counter 0x02 pw1 pw (λ e. omega (arith, ap length e))
              (omega arith)),
        rw test (
            send-Sends R fuel ins_reset_retry_counter 0x00 pw1 (rc ++ pw)
              (λ e. omega (arith, ap length e)) size),
      ),
)

-- The five bytes of a command without data, for which the source writes a zero length.
abbrev pub bare : ℕ → Bytes
bare ins = 0x00 ∷ ins ∷ 0x00 ∷ 0x00 ∷ 0x00 ∷ []

bare_built : (ins : ℕ) → command_apdu ins 0x00 0x00 [] 0 ≡ ok (bare ins)
unfolding command_apdu command_part response_part
bare_built ins = refl

-- A factory reset terminates the applet first. Where the card answers that with another status than
-- 90 00, the call ends with its error in the state after that answer: no second command is sent.
-- Otherwise the applet is activated, and the call ends with the status that the card answers to
-- that.
pub factory_reset_lem :
    (R : Reader) (fuel : ℕ) (s t : R.State) (k : ℕ) (d : Bytes) (sw1 sw2 : ℕ)
    → Answers R s (bare ins_terminate_df) k d sw1 sw2 t
    → k ≤ fuel + 1
    → (sw1 * 256 + sw2 ≢ 0x9000 → factory_reset R fuel s ≡ (t, err (card_status (sw1 * 256 + sw2))))
      × (sw1 * 256 + sw2 ≡ 0x9000
          → (u : R.State) (j : ℕ) (e : Bytes) (sw1' sw2' : ℕ)
          → Answers R t (bare ins_activate_file) j e sw1' sw2' u
          → j ≤ fuel + 1
          → factory_reset R fuel s ≡ (u, done sw1' sw2'))
unfolding factory_reset terminate activate
factory_reset_lem R fuel s t k d sw1 sw2 a hk =
    let first =
      send-Answers R fuel ins_terminate_df 0x00 0x00 [] (bare ins_terminate_df) s t k d sw1 sw2
        (bare_built ins_terminate_df) a hk in
    (
      (λ bad. let test : (sw1 * 256 + sw2 == 0x9000) ≡ false = ground arith in rw (first, test)),
      λ good u j e sw1' sw2' b hj.
          let test : (sw1 * 256 + sw2 == 0x9000) ≡ true = ground arith in
          rw (first, test)
            (send-Answers R fuel ins_activate_file 0x00 0x00 [] (bare ins_activate_file) t u j e
              sw1' sw2' (bare_built ins_activate_file) b hj),
    )
