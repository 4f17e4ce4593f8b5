-- ===== src/Iso7816/Instructions.antt =====
-- internal/iso7816/constants.go: the instruction bytes of ISO 7816.
use go_skes.Prelude.{ℕ}

abbrev pub ins_deactivate_file : ℕ
ins_deactivate_file = 0x04

abbrev pub ins_erase_record : ℕ
ins_erase_record = 0x0c

abbrev pub ins_erase_binary : ℕ
ins_erase_binary = 0x0e

abbrev pub ins_erase_binary_even : ℕ
ins_erase_binary_even = 0x0f

abbrev pub ins_perform_scql_operation : ℕ
ins_perform_scql_operation = 0x10

abbrev pub ins_perform_transaction_operation : ℕ
ins_perform_transaction_operation = 0x12

abbrev pub ins_perform_user_operation : ℕ
ins_perform_user_operation = 0x14

abbrev pub ins_verify : ℕ
ins_verify = 0x20

abbrev pub ins_verify_odd : ℕ
ins_verify_odd = 0x21

abbrev pub ins_manage_security_environment : ℕ
ins_manage_security_environment = 0x22

abbrev pub ins_change_reference_data : ℕ
ins_change_reference_data = 0x24

abbrev pub ins_disable_verification_requirement : ℕ
ins_disable_verification_requirement = 0x26

abbrev pub ins_enable_verification_requirement : ℕ
ins_enable_verification_requirement = 0x28

abbrev pub ins_perform_security_operation : ℕ
ins_perform_security_operation = 0x2a

abbrev pub ins_reset_retry_counter : ℕ
ins_reset_retry_counter = 0x2c

abbrev pub ins_activate_file : ℕ
ins_activate_file = 0x44

abbrev pub ins_generate_asymmetric_key_pair : ℕ
ins_generate_asymmetric_key_pair = 0x46

abbrev pub ins_manage_channel : ℕ
ins_manage_channel = 0x70

abbrev pub ins_external_or_mutual_authenticate : ℕ
ins_external_or_mutual_authenticate = 0x82

abbrev pub ins_get_challenge : ℕ
ins_get_challenge = 0x84

abbrev pub ins_general_authenticate : ℕ
ins_general_authenticate = 0x87

abbrev pub ins_internal_authenticate : ℕ
ins_internal_authenticate = 0x88

abbrev pub ins_search_binary : ℕ
ins_search_binary = 0xa0

abbrev pub ins_search_binary_odd : ℕ
ins_search_binary_odd = 0xa1

abbrev pub ins_search_record : ℕ
ins_search_record = 0xa2

abbrev pub ins_select : ℕ
ins_select = 0xa4

abbrev pub ins_read_binary : ℕ
ins_read_binary = 0xb0

abbrev pub ins_read_binary_odd : ℕ
ins_read_binary_odd = 0xb1

abbrev pub ins_read_record : ℕ
ins_read_record = 0xb3

abbrev pub ins_get_response : ℕ
ins_get_response = 0xc0

abbrev pub ins_envelope : ℕ
ins_envelope = 0xc2

abbrev pub ins_envelope_odd : ℕ
ins_envelope_odd = 0xc3

abbrev pub ins_get_data : ℕ
ins_get_data = 0xca

abbrev pub ins_get_data_odd : ℕ
ins_get_data_odd = 0xcb

abbrev pub ins_write_binary : ℕ
ins_write_binary = 0xd0

abbrev pub ins_write_binary_odd : ℕ
ins_write_binary_odd = 0xd1

abbrev pub ins_write_record : ℕ
ins_write_record = 0xd2

abbrev pub ins_update_binary : ℕ
ins_update_binary = 0xd7

abbrev pub ins_put_data : ℕ
ins_put_data = 0xda

abbrev pub ins_put_data_odd : ℕ
ins_put_data_odd = 0xdb

abbrev pub ins_update_record : ℕ
ins_update_record = 0xdc

abbrev pub ins_update_record_odd : ℕ
ins_update_record_odd = 0xdd

abbrev pub ins_create_file : ℕ
ins_create_file = 0xe0

abbrev pub ins_append_record : ℕ
ins_append_record = 0xe2

abbrev pub ins_delete_file : ℕ
ins_delete_file = 0xe4

abbrev pub ins_terminate_df : ℕ
ins_terminate_df = 0xe6

abbrev pub ins_terminate_ef : ℕ
ins_terminate_ef = 0xe8

abbrev pub ins_terminate_card_usage : ℕ
ins_terminate_card_usage = 0xfe
