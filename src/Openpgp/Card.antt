-- ===== src/Openpgp/Card.antt =====
-- internal/openpgp/card.go: the commands of the card.
use go_skes.Prelude.{
  ℕ, zero, suc, ◌&&◌, ◌++◌, List, [], ◌∷◌, none, some, ltb, ◌==◌, if◌then◌else◌, length, Bytes,
  Outcome, ok, err, panic, stuck, map_err,
}
use go_skes.Prelude.Exec.{lift, ◌>>=◌, ◌>>◌}
use go_skes.Iso7816.Instructions.{
  ins_get_data, ins_put_data, ins_select, ins_get_challenge, ins_perform_security_operation,
  ins_terminate_df, ins_activate_file, ins_manage_security_environment, ins_verify,
  ins_change_reference_data, ins_reset_retry_counter,
}
use go_skes.Iso7816.Tag.{tag_bytes, byte_at}
use go_skes.Iso7816.Tlv.{encode_tlv}
use go_skes.Openpgp.Constants.{
  pw1, pw3, ins_select_data, ins_get_next_data, tag_cipher, tag_public_key, tag_external_public_key,
  app_id,
}
use go_skes.Openpgp.Errors.{Error, iso, invalid_length, transport, wrapped}
use go_skes.Openpgp.Reader.{Reader, Card, Io, communicate, send, is_card_status}

-- `byte(t >> 8)` and `byte(t)`
abbrev p1_of : ℕ → ℕ
p1_of t = byte_at t 8

abbrev p2_of : ℕ → ℕ
p2_of t = byte_at t 0

-- `fuel` bounds the loops of `communicate` and `getAllData`, which go on as long as the card says.
module _ (R : Reader) (fuel : ℕ) where
  encode : ℕ → Bytes → Io R Bytes
  encode t content = lift (map_err iso (encode_tlv t content))

  unfoldable pub select_data : ℕ → ℕ → Io R (Unit {0})
  unfolding encode
  select_data t idx = do
    inner ← encode 0x5c (tag_bytes t)
    content ← encode 0x60 inner
    send R fuel ins_select_data idx 0x04 content

  unfoldable pub get_data : Card → ℕ → Io R Bytes
  get_data c t = communicate R fuel ins_get_data (p1_of t) (p2_of t) [] c.longer

  -- The tag is not looked at.
  unfoldable pub get_next_data : Card → ℕ → Io R Bytes
  get_next_data c t = communicate R fuel ins_get_next_data 0x7f 0x21 [] c.longer

  unfoldable pub get_data_index : Card → ℕ → ℕ → Io R Bytes
  get_data_index c t i = do select_data t i; get_data c t

  -- `get` is the local variable `getData`: `get_data` in the first round and `get_next_data` in the
  -- others. An error that the card reports ends the loop, any other error is returned.
  unfoldable pub get_all_loop : Card → ℕ → (ℕ → Io R Bytes) → ℕ → List Bytes → Io R (List Bytes)
  get_all_loop c zero get t datas s = (s, stuck)
  get_all_loop c (suc n) get t datas s = elim (get t s).1 [
    | ok content ↦ get_all_loop c n (get_next_data c) t (datas ++ content ∷ []) (get t s).0
    | err e ↦ ((get t s).0, if is_card_status e then ok datas else err e)
    | panic ↦ ((get t s).0, panic)
    | stuck ↦ ((get t s).0, stuck)
  ]

  unfoldable pub get_all_data : Card → ℕ → Io R (List Bytes)
  get_all_data c t = get_all_loop c fuel (get_data c) t []

  unfoldable pub put_data : ℕ → Bytes → Io R (Unit {0})
  put_data t content = send R fuel ins_put_data (p1_of t) (p2_of t) content

  unfoldable pub select : Io R (Unit {0})
  select = send R fuel ins_select 0x04 0x00 app_id

  reset : Io R (Unit {0})
  reset s = elim (R.reconnect s).1 [
    | none ↦ ((R.reconnect s).0, ok tt)
    | some code ↦ ((R.reconnect s).0, err (wrapped "failed to reset card" (transport code)))
  ]

  select_applet : Io R (Unit {0})
  select_applet s = elim (select s).1 [
    | ok u ↦ ((select s).0, ok tt)
    | err e ↦ ((select s).0, err (wrapped "failed to select applet" e))
    | panic ↦ ((select s).0, panic)
    | stuck ↦ ((select s).0, stuck)
  ]

  -- `longer` has its zero value, and no function of the package sets it.
  unfoldable pub new_card : Io R Card
  unfolding reset select_applet
  new_card = do reset; select_applet; lift (ok (record { longer = 0 }))

  unfoldable pub get_challenge : ℕ → Io R Bytes
  get_challenge cnt = communicate R fuel ins_get_challenge 0x00 0x00 [] cnt

  unfoldable pub calculate_shared_secret : Card → Bytes → Io R Bytes
  unfolding encode
  calculate_shared_secret c pk = do
    external ← encode tag_external_public_key pk
    public_key ← encode tag_public_key external
    content ← encode tag_cipher public_key
    communicate R fuel ins_perform_security_operation 0x80 0x86 content c.longer

  unfoldable pub terminate : Io R (Unit {0})
  terminate = send R fuel ins_terminate_df 0x00 0x00 []

  unfoldable pub activate : Io R (Unit {0})
  activate = send R fuel ins_activate_file 0x00 0x00 []

  unfoldable pub factory_reset : Io R (Unit {0})
  factory_reset = do terminate; activate

  unfoldable pub manage_security_environment : ℕ → ℕ → Io R (Unit {0})
  manage_security_environment crt slot =
      send R fuel ins_manage_security_environment 0x41 crt (0x83 ∷ 0x01 ∷ slot ∷ [])

  unfoldable pub verify_password : ℕ → Bytes → Io R (Unit {0})
  verify_password pw_type pw =
      if length pw == 0
      then send R fuel ins_verify 0x00 pw_type []
      else send R fuel ins_verify 0xff pw_type pw

  unfoldable pub change_password : ℕ → Bytes → Bytes → Io R (Unit {0})
  change_password pw_type pw_actual pw_new =
      if pw_type == pw1 && ltb (length pw_new) 6
      then lift (err invalid_length)
      else if pw_type == pw3 && ltb (length pw_new) 8
      then lift (err invalid_length)
      else send R fuel ins_change_reference_data 0x00 pw_type (pw_actual ++ pw_new)

  unfoldable pub reset_retry_counter : Bytes → Io R (Unit {0})
  reset_retry_counter pw =
      if ltb (length pw) 6
      then lift (err invalid_length)
      else send R fuel ins_reset_retry_counter 0x02 pw1 pw

  unfoldable pub reset_retry_counter_with_reset_code : Bytes → Bytes → Io R (Unit {0})
  reset_retry_counter_with_reset_code pw rc =
      if ltb (length pw) 6
      then lift (err invalid_length)
      else send R fuel ins_reset_retry_counter 0x00 pw1 (rc ++ pw)

-- Not implemented in the source: nil results, and no error.
unfoldable pub sign : Bytes → Outcome Error Bytes
sign content = ok []

unfoldable pub encipher : Bytes → Outcome Error Bytes
encipher content = ok []

unfoldable pub decipher : Bytes → Outcome Error Bytes
decipher content = ok []

unfoldable pub generate_key_pair : Outcome Error (Unit {0})
generate_key_pair = ok tt
