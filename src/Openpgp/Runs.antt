-- ===== src/Openpgp/Runs.antt =====
-- The package's theorems at concrete inputs, over a reader that gives the answers of a script.
use go_skes.Prelude.{
  panic, ℕ, zero, suc, codes, ◌≤◌, ◌<◌, ◌≡◌, ◌≢◌, ◌⊎◌, inl, inr, refl, ◌++◌, List, [], ◌∷◌, none,
  some, arith, Bytes, ok, err,
}
use go_skes.Iso7816.Instructions.{
  ins_change_reference_data, ins_perform_security_operation, ins_get_data, ins_terminate_df,
  ins_activate_file, ins_verify,
}
use go_skes.Iso7816.Tlv.{decode_tlv}
use go_skes.Openpgp.Constants.{
  tag_cardholder_related, pw1, pw3, tag_cipher, tag_public_key, tag_external_public_key,
}
use go_skes.Iso7816.RoundTrip.{object}
use go_skes.Iso7816.Tag.{tag_bytes}
use go_skes.Iso7816.Header.{length_bytes}
use go_skes.Openpgp.Templates.{Cardholder}
use go_skes.Openpgp.Containers.{cardholder_bytes}
use go_skes.Openpgp.Queries.{cardholder_apdu, get_cardholder, get_cardholder_lem}
use go_skes.Openpgp.Errors.{card_status, invalid_length}
use go_skes.Openpgp.Apdu.{decode_response, command_part, response_part, command_apdu}
use go_skes.Openpgp.Framing.{parse_apdu, expectation, parse_apdu-command_apdu}
use go_skes.Openpgp.Framing.Malformed.{command_apdu_malformed}
use go_skes.Openpgp.Reader.{
  Reply, received, failed, Reader, Card, is_card_status, communicate, transmit, response_loop,
  check_status,
}
use go_skes.Openpgp.Chaining.{Answers, last, more, verdict, communicate-Answers}
use go_skes.Openpgp.Card.{
  get_data, get_next_data, get_all_data, calculate_shared_secret, change_password, factory_reset,
}
use go_skes.Openpgp.Commands.{Sends, done, bare, change_password_lem, factory_reset_lem}
use go_skes.Openpgp.Listing.{no_more, one_more, get_all_data-Occurrences}
use go_skes.Openpgp.SharedSecret.{calculate_shared_secret_lem, calculate_shared_secret_long}

-- The script: the responses that are left. When none is, the reader fails with code 1.
answer : List Bytes → List Bytes × Reply
answer [] = ([], failed 1)
answer (r ∷ rs) = (rs, received r)

abbrev script : Reader
script = record { State = List Bytes; reconnect = λ s. (s, none); transmit = λ apdu s. answer s }

abbrev card : Card
card = record { longer = 0 }

abbrev two_parts : List Bytes
two_parts = (1 ∷ 2 ∷ 0x61 ∷ 1 ∷ []) ∷ (3 ∷ 0x90 ∷ 0x00 ∷ []) ∷ []

get_data_apdu : Bytes
get_data_apdu = 0x00 ∷ 0xca ∷ 0x00 ∷ 0x6e ∷ 0x00 ∷ []

get_data_built : command_apdu ins_get_data 0x00 0x6e [] 0 ≡ ok get_data_apdu
unfolding command_apdu command_part response_part get_data_apdu
get_data_built = refl

two_parts_answered : Answers script two_parts get_data_apdu 2 (1 ∷ 2 ∷ 3 ∷ []) 0x90 0x00 []
unfolding answer
two_parts_answered =
    more (1 ∷ 2 ∷ []) 1 refl
      (last (3 ∷ []) 0x90 0x00 refl (λ e. omega (arith, e)) (omega arith) (omega arith))

communicate-Answers_example :
    communicate script 1 ins_get_data 0x00 0x6e [] 0 two_parts ≡ ([], ok (1 ∷ 2 ∷ 3 ∷ []))
communicate-Answers_example =
    communicate-Answers script 1 ins_get_data 0x00 0x6e [] 0 get_data_built two_parts_answered
      (omega arith)

parse_apdu-command_apdu_example :
    (apdu : Bytes) × (command_apdu ins_verify 0xff 0x81 (1 ∷ 2 ∷ []) 0 ≡ ok apdu)
    × (parse_apdu apdu
        ≡ some (record {
          ins = ins_verify;
          p1 = 0xff;
          p2 = 0x81;
          content = 1 ∷ 2 ∷ [];
          expected = expectation 0;
        }))
parse_apdu-command_apdu_example =
    parse_apdu-command_apdu ins_verify 0xff 0x81 (1 ∷ 2 ∷ []) 0 (λ e. cc) (omega arith)
      (omega arith) (inr (inl refl))

command_apdu_malformed_example :
    (apdu : Bytes) × (command_apdu 0x84 0 0 [] 8 ≡ ok apdu) × (parse_apdu apdu ≡ none)
command_apdu_malformed_example =
    command_apdu_malformed 0x84 0 0 [] 8 (omega arith) (omega arith) (omega arith) (inl refl)

-- The card answers GET DATA and GET NEXT DATA with one value each, and then with status 6A 88.
abbrev two_values : List Bytes
two_values = (1 ∷ 0x90 ∷ 0x00 ∷ []) ∷ (2 ∷ 0x90 ∷ 0x00 ∷ []) ∷ (0x6a ∷ 0x88 ∷ []) ∷ []

get_all_data-Occurrences_example :
    get_all_data script 3 card 0x7f21 two_values ≡ ([], ok ((1 ∷ []) ∷ (2 ∷ []) ∷ []))
unfolding answer get_data get_next_data communicate command_apdu command_part response_part
    is_card_status decode_response response_loop check_status transmit
get_all_data-Occurrences_example =
    get_all_data-Occurrences script 3 card 0x7f21 two_values [] ((1 ∷ []) ∷ (2 ∷ []) ∷ [])
      (card_status 0x6a88) (one_more (1 ∷ []) refl (one_more (2 ∷ []) refl (no_more refl)))
      (omega arith)

abbrev zeros : ℕ → Bytes
zeros zero = []
zeros (suc n) = 0 ∷ zeros n

abbrev Script : Type 0
Script = List Bytes

-- The current and the new password, of six characters.
abbrev old_pw : Bytes
old_pw = codes "123456"

abbrev new_pw : Bytes
new_pw = codes "654321"

change_password_lem_example :
    ((s : Script)
      → ((pw1 ≡ pw1) × (6 < 6)) ⊎ ((pw1 ≡ pw3) × (6 < 8))
      → change_password script 1 pw1 old_pw new_pw s ≡ (s, err invalid_length))
    × ((pw1 ≡ pw1 → 6 ≤ 6)
        → (pw1 ≡ pw3 → 8 ≤ 6)
        → Sends script 1 (change_password script 1 pw1 old_pw new_pw) (record {
          ins = ins_change_reference_data;
          p1 = 0x00;
          p2 = pw1;
          content = old_pw ++ new_pw;
          expected = none;
        }))
change_password_lem_example = change_password_lem script 1 pw1 old_pw new_pw (λ e. cc) (omega arith)

-- The card terminates the applet, and then refuses to activate it.
abbrev refused : Script
refused = (0x69 ∷ 0x85 ∷ []) ∷ []

terminated :
    Answers script ((0x90 ∷ 0x00 ∷ []) ∷ refused) (bare ins_terminate_df) 1 [] 0x90 0x00 refused
unfolding answer
terminated = last [] 0x90 0x00 refl (λ e. omega (arith, e)) (omega arith) (omega arith)

abbrev good : ℕ
good = 0x9000

factory_reset_lem_example :
    (good ≢ 0x9000
      → factory_reset script 1 ((0x90 ∷ 0x00 ∷ []) ∷ refused) ≡ (refused, err (card_status 0x9000)))
    × (good ≡ 0x9000
        → (u : Script) (j : ℕ) (e : Bytes) (sw1' sw2' : ℕ)
        → Answers script refused (bare ins_activate_file) j e sw1' sw2' u
        → j ≤ 2
        → factory_reset script 1 ((0x90 ∷ 0x00 ∷ []) ∷ refused) ≡ (u, done sw1' sw2'))
factory_reset_lem_example =
    factory_reset_lem script 1 ((0x90 ∷ 0x00 ∷ []) ∷ refused) refused 1 [] 0x90 0x00 terminated
      (omega arith)

calculate_shared_secret_lem_example :
    (content middle inner apdu : Bytes) × (decode_tlv content ≡ ok (tag_cipher, middle, []))
    × (decode_tlv middle ≡ ok (tag_public_key, inner, []))
    × (decode_tlv inner ≡ ok (tag_external_public_key, 4 ∷ 1 ∷ 2 ∷ [], []))
    × (parse_apdu apdu
        ≡ some (record {
          ins = ins_perform_security_operation;
          p1 = 0x80;
          p2 = 0x86;
          content = content;
          expected = none;
        }))
    × ((s t : Script) (k : ℕ) (d : Bytes) (sw1 sw2 : ℕ)
        → Answers script s apdu k d sw1 sw2 t
        → k ≤ 2
        → calculate_shared_secret script 1 card (4 ∷ 1 ∷ 2 ∷ []) s ≡ (t, verdict d sw1 sw2))
calculate_shared_secret_lem_example =
    calculate_shared_secret_lem script 1 card (4 ∷ 1 ∷ 2 ∷ []) (omega arith) refl

abbrev holder : Cardholder
holder = record { name = b'h' ∷ b'i' ∷ []; language = b'd' ∷ b'e' ∷ []; sex = 0x39 }

-- The object of the cardholder, in two parts.
abbrev front : Bytes
front = 0x65 ∷ 0x0d ∷ 0x5b ∷ 0x02 ∷ b'h' ∷ b'i' ∷ []

abbrev back : Bytes
back = 0x5f ∷ 0x2d ∷ 0x02 ∷ b'd' ∷ b'e' ∷ 0x5f ∷ 0x35 ∷ 0x01 ∷ 0x39 ∷ []

abbrev holder_parts : Script
holder_parts = (front ++ (0x61 ∷ 0x09 ∷ [])) ∷ (back ++ (0x90 ∷ 0x00 ∷ [])) ∷ []

holder_answered :
    Answers script holder_parts cardholder_apdu 2
      (object tag_cardholder_related (cardholder_bytes holder))
      0x90
      0x00
      []
unfolding answer tag_bytes length_bytes
holder_answered =
    more front 9 refl (last back 0x90 0x00 refl (λ e. omega (arith, e)) (omega arith) (omega arith))

get_cardholder_lem_example : get_cardholder script 1 card holder_parts ≡ ([], ok holder)
unfolding tag_bytes length_bytes
get_cardholder_lem_example =
    get_cardholder_lem script 1 card holder holder_parts [] 2 refl (omega arith) holder_answered
      (omega arith)

-- As long as a key on P-521.
abbrev long_key : Bytes
long_key = 4 ∷ zeros 132

calculate_shared_secret_long_example :
    calculate_shared_secret script 1 card long_key [] ≡ ([], panic)
calculate_shared_secret_long_example =
    calculate_shared_secret_long script 1 card long_key [] (omega arith)
