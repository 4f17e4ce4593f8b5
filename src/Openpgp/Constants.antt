-- ===== src/Openpgp/Constants.antt =====
-- internal/openpgp/constants.go: the tags of the data objects, and the other numbers of the package.
use go_skes.Prelude.{ℕ, [], ◌∷◌, Bytes}

abbrev pub pw1 : ℕ
pw1 = 0x81

abbrev pub pw2 : ℕ
pw2 = 0x82

abbrev pub pw3 : ℕ
pw3 = 0x83

abbrev pub ins_select_data : ℕ
ins_select_data = 0xa5

abbrev pub ins_get_next_data : ℕ
ins_get_next_data = 0xcc

abbrev pub ctag_country_code : ℕ
ctag_country_code = 0x1

abbrev pub ctag_issuer_id : ℕ
ctag_issuer_id = 0x2

abbrev pub ctag_aid : ℕ
ctag_aid = 0xf

abbrev pub ctag_card_service : ℕ
ctag_card_service = 0x3

abbrev pub ctag_initial_access : ℕ
ctag_initial_access = 0x4

abbrev pub ctag_issuer : ℕ
ctag_issuer = 0x5

abbrev pub ctag_pre_issuing : ℕ
ctag_pre_issuing = 0x6

abbrev pub ctag_caps : ℕ
ctag_caps = 0x7

abbrev pub tag_private_use1 : ℕ
tag_private_use1 = 0x0101

abbrev pub tag_private_use2 : ℕ
tag_private_use2 = 0x0102

abbrev pub tag_private_use3 : ℕ
tag_private_use3 = 0x0103

abbrev pub tag_private_use4 : ℕ
tag_private_use4 = 0x0104

abbrev pub tag_aid : ℕ
tag_aid = 0x4f

abbrev pub tag_name : ℕ
tag_name = 0x5b

abbrev pub tag_login_data : ℕ
tag_login_data = 0x5e

abbrev pub tag_language : ℕ
tag_language = 0x5f2d

abbrev pub tag_sex : ℕ
tag_sex = 0x5f35

abbrev pub tag_public_key_url : ℕ
tag_public_key_url = 0x5f50

abbrev pub tag_historical_bytes : ℕ
tag_historical_bytes = 0x5f52

abbrev pub tag_external_public_key : ℕ
tag_external_public_key = 0x86

abbrev pub tag_cipher : ℕ
tag_cipher = 0xa6

abbrev pub tag_cert : ℕ
tag_cert = 0x7f21

abbrev pub tag_public_key : ℕ
tag_public_key = 0x7f49

abbrev pub tag_ext_len_info : ℕ
tag_ext_len_info = 0x7f66

abbrev pub tag_general_feature_managment : ℕ
tag_general_feature_managment = 0x7f74

abbrev pub tag_discretionary_dos : ℕ
tag_discretionary_dos = 0x73

abbrev pub tag_ext_caps : ℕ
tag_ext_caps = 0xc0

abbrev pub tag_alg_attrs_sign : ℕ
tag_alg_attrs_sign = 0xc1

abbrev pub tag_alg_attrs_decrypt : ℕ
tag_alg_attrs_decrypt = 0xc2

abbrev pub tag_alg_attrs_authn : ℕ
tag_alg_attrs_authn = 0xc3

abbrev pub tag_alg_attrs_attest : ℕ
tag_alg_attrs_attest = 0xda

abbrev pub tag_password_status : ℕ
tag_password_status = 0xc4

abbrev pub tag_fp : ℕ
tag_fp = 0xc5

abbrev pub tag_fp_attest : ℕ
tag_fp_attest = 0xdb

abbrev pub tag_cafp : ℕ
tag_cafp = 0xc6

abbrev pub tag_cafp_attest : ℕ
tag_cafp_attest = 0xdc

abbrev pub tag_gen_time : ℕ
tag_gen_time = 0xcd

abbrev pub tag_gen_time_attest : ℕ
tag_gen_time_attest = 0xdd

abbrev pub tag_key_info : ℕ
tag_key_info = 0xde

abbrev pub tag_uif_sign : ℕ
tag_uif_sign = 0xd6

abbrev pub tag_uif_decrypt : ℕ
tag_uif_decrypt = 0xd7

abbrev pub tag_uif_authn : ℕ
tag_uif_authn = 0xd8

abbrev pub tag_uif_attest : ℕ
tag_uif_attest = 0xd9

abbrev pub tag_signature_counter : ℕ
tag_signature_counter = 0x93

abbrev pub tag_kdf : ℕ
tag_kdf = 0xf9

abbrev pub tag_alg_info : ℕ
tag_alg_info = 0xfa

abbrev pub tag_cert_sm : ℕ
tag_cert_sm = 0xfb

abbrev pub tag_cert_att : ℕ
tag_cert_att = 0xfc

abbrev pub tag_general_feature_management : ℕ
tag_general_feature_management = 0x7f74

abbrev pub tag_application_related : ℕ
tag_application_related = 0x6e

abbrev pub tag_cardholder_related : ℕ
tag_cardholder_related = 0x65

abbrev pub tag_security_support_template : ℕ
tag_security_support_template = 0x7a

abbrev pub alg_rsa_enc_sign : ℕ
alg_rsa_enc_sign = 1

abbrev pub alg_rsa_enc : ℕ
alg_rsa_enc = 2

abbrev pub alg_rsa_sign : ℕ
alg_rsa_sign = 3

abbrev pub alg_elgamal : ℕ
alg_elgamal = 16

abbrev pub alg_dsa : ℕ
alg_dsa = 17

abbrev pub alg_ecdh : ℕ
alg_ecdh = 18

abbrev pub alg_ecdsa : ℕ
alg_ecdsa = 19

abbrev pub sex_unknown : ℕ
sex_unknown = b'0'

abbrev pub sex_male : ℕ
sex_male = b'1'

abbrev pub sex_female : ℕ
sex_female = b'2'

abbrev pub sex_not_applicable : ℕ
sex_not_applicable = b'9'

abbrev pub apdu_short : ℕ
apdu_short = 256

abbrev pub apdu_long : ℕ
apdu_long = 65536

abbrev pub slot_sign : ℕ
slot_sign = 0

abbrev pub slot_decrypt : ℕ
slot_decrypt = 1

abbrev pub slot_authn : ℕ
slot_authn = 2

abbrev pub slot_attest : ℕ
slot_attest = 3

abbrev pub app_id : Bytes
app_id = 0xD2 ∷ 0x76 ∷ 0x00 ∷ 0x01 ∷ 0x24 ∷ 0x01 ∷ []

abbrev pub rid_fsfe : Bytes
rid_fsfe = 0xD2 ∷ 0x76 ∷ 0x00 ∷ 0x01 ∷ 0x24 ∷ []

abbrev pub app_id_openpgp : ℕ
app_id_openpgp = 0x01
