-- ===== src/Openpgp/Tables.antt =====
-- internal/openpgp/constants.go and error.go: the names of algorithms, sexes, manufacturers, key types and status words.
use Prim.Native.String.{String}
use go_skes.Prelude.{ℕ, List, [], ◌∷◌, Option, none, some, ◌==◌, if◌then◌else◌}
use go_skes.Openpgp.Constants.{
  alg_rsa_enc_sign, alg_rsa_enc, alg_rsa_sign, alg_elgamal, alg_dsa, alg_ecdh, alg_ecdsa, sex_male,
  sex_female, sex_not_applicable, sex_unknown,
}

abbrev pub ecc_key_types : List (String × String)
ecc_key_types =
    ("2A8648CE3D030107", "nistp256")
    ∷ ("2B2403030208010107", "brainpoolP256r1")
    ∷ ("2B240303020801010B", "brainpoolP384r1")
    ∷ ("2B240303020801010D", "brainpoolP512r1")
    ∷ ("2B8104000A", "secp256k1")
    ∷ ("2B81040022", "nistp384")
    ∷ ("2B81040023", "nistp521")
    ∷ ("2B060104019755010501", "x25519")
    ∷ ("2B06010401DA470F01", "ed25519")
    ∷ ("2B656F", "x448")
    ∷ ("2B6571", "ed448")
    ∷ []

abbrev pub manufacturers : List (ℕ × String)
manufacturers =
    (0x0001, "PPC Card Systems")
    ∷ (0x0002, "Prism")
    ∷ (0x0003, "OpenFortress")
    ∷ (0x0004, "Wewid")
    ∷ (0x0005, "ZeitControl")
    ∷ (0x0006, "Yubico")
    ∷ (0x0007, "OpenKMS")
    ∷ (0x0008, "LogoEmail")
    ∷ (0x0009, "Fidesmo")
    ∷ (0x000A, "VivoKey")
    ∷ (0x000B, "Feitian Technologies")
    ∷ (0x000D, "Dangerous Things")
    ∷ (0x000E, "Excelsecu")
    ∷ (0x000F, "Nitrokey")
    ∷ (0x002A, "Magrathea")
    ∷ (0x0042, "GnuPG e.V.")
    ∷ (0x1337, "Warsaw Hackerspace")
    ∷ (0x2342, "warpzone")
    ∷ (0x4354, "Confidential Technologies")
    ∷ (0x5343, "SSE Carte à puce")
    ∷ (0x5443, "TIF-IT e.V.")
    ∷ (0x63AF, "Trustica")
    ∷ (0xBA53, "c-base e.V.")
    ∷ (0xBD0E, "Paranoidlabs")
    ∷ (0xCA05, "Atos CardOS")
    ∷ (0xF1D0, "CanoKeys")
    ∷ (0xF517, "FSIJ")
    ∷ (0xF5EC, "F-Secure")
    ∷ (0x2C97, "Ledger")
    ∷ (0xAFAF, "ANSSI")
    ∷ []

abbrev pub status_codes : List (ℕ × String)
status_codes =
    (0x6285, "in termination state")
    ∷ (0x640E, "out of memory")
    ∷ (0x6581, "memory failure")
    ∷ (0x6600, "security-related issues")
    ∷ (0x6700, "wrong length")
    ∷ (0x6881, "logical channel not supported")
    ∷ (0x6882, "secure messaging not supported")
    ∷ (0x6883, "last command of chain expected")
    ∷ (0x6884, "command chaining not supported")
    ∷ (0x6982, "security status not satisfied")
    ∷ (0x6983, "authentication method blocked")
    ∷ (0x6985, "condition of use not satisfied")
    ∷ (0x6987, "expected secure messaging data objects missing")
    ∷ (0x6988, "secure messaging data objects incorrect")
    ∷ (0x6A80, "incorrect parameters in the command")
    ∷ (0x6A82, "file not found")
    ∷ (0x6A88, "data object not found")
    ∷ (0x6B00, "wrong parameters")
    ∷ (0x6D00, "instruction code not supported")
    ∷ (0x6E00, "class not supported")
    ∷ (0x6F00, "no precise diagnosis")
    ∷ (0x9000, "command correct")
    ∷ []

-- `v, ok := m[k]` on a map with the entries of a literal, whose keys are all different.
unfoldable pub lookup : ℕ → List (ℕ × String) → Option String
lookup k [] = none
lookup k ((j, v) ∷ m) = if j == k then some v else lookup k m

-- Algorithm.String
unfoldable pub algorithm_string : ℕ → String
algorithm_string a =
    if a == alg_rsa_enc_sign
    then "RSAEncSign"
    else if a == alg_rsa_enc
    then "RSAEnc"
    else if a == alg_rsa_sign
    then "RSASign"
    else if a == alg_elgamal
    then "Elgamal"
    else if a == alg_dsa
    then "DSA"
    else if a == alg_ecdh
    then "ECDH"
    else if a == alg_ecdsa
    then "ECDSA"
    else "Unknown"

-- Sex.String
unfoldable pub sex_string : ℕ → String
sex_string s =
    if s == sex_male
    then "Male"
    else if s == sex_female
    then "Female"
    else if s == sex_not_applicable
    then "Not Applicable"
    else if s == sex_unknown
    then "Unknown"
    else ""
