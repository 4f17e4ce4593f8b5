-- ===== src/Provider/Slots.antt =====
-- provider/openpgp.go, provider/piv.go, provider/pkcs11.go and provider/tpm2.go: references to slots
-- of tokens, and their texts. A text is a list of code points.
use go_skes.Prelude.{
  ℕ, ◌≡◌, refl, inl, inr, ◌==◌, List, [], ◌∷◌, ◌++◌, Option, none, some, bytes_equal, codes,
  if◌then◌else◌, length, Bytes, Outcome, ok, err,
}
use go_skes.Prelude.Scan.{
  ℤ, print_int, Verb, lit, verb_s, verb_d, Arg, text, number, ScanError, scan, literal, scan-Fails,
  Fails,
}

-- ErrParse, with the error of Sscanf where there is one, and ErrUnsupportedCurve.
pub data Error : Type 0 where
  parse_because : ScanError → Error
  parse : Error
  unsupported_curve : Bytes → Error

-- openpgpSlotRef
pub record OpenpgpSlotRef : Type 0 where
  pub serial_no : ℤ
  pub slot : ℤ

-- pivSlotRef
pub record PivSlotRef : Type 0 where
  pub serial_no : ℤ
  pub slot : ℤ

-- pkcs11SlotRef; `library` is its field Module.
pub record Pkcs11SlotRef : Type 0 where
  pub slot : ℤ
  pub library : Bytes

-- tpm2SlotRef
pub record Tpm2SlotRef : Type 0 where
  pub device : Bytes

-- The start of each text.
abbrev pub sk_text : Bytes → Bytes
sk_text token = codes "ecdh:" ++ (codes "Secp256r1" ++ (codes ":sk:" ++ (token ++ codes ":")))

-- The four methods MarshalText.
unfoldable pub marshal_openpgp : OpenpgpSlotRef → Bytes
marshal_openpgp s =
    sk_text (codes "openpgp") ++ (print_int s.serial_no ++ (codes ":" ++ print_int s.slot))

unfoldable pub marshal_piv : PivSlotRef → Bytes
marshal_piv s = sk_text (codes "piv") ++ (print_int s.serial_no ++ (codes ":" ++ print_int s.slot))

unfoldable pub marshal_pkcs11 : Pkcs11SlotRef → Bytes
marshal_pkcs11 s = sk_text (codes "pkcs11") ++ (s.library ++ (codes ":" ++ print_int s.slot))

unfoldable pub marshal_tpm2 : Tpm2SlotRef → Bytes
marshal_tpm2 s = sk_text (codes "tpm2") ++ s.device

-- The formats of Sscanf: the verbs after the curve are written out by each method.
abbrev pub sk_format : Bytes → List Verb → List Verb
sk_format token verbs =
    literal (codes "ecdh:")
      (verb_s ∷ lit b':' ∷ literal (codes "sk:" ++ (token ++ codes ":")) verbs)

-- The curve that a method accepts.
abbrev pub check_curve : {A : Type 0} → A → List Arg → A × Outcome Error (Unit {0})
check_curve s (text curve ∷ args) =
    if bytes_equal curve (codes "Secp256r1") then (s, ok tt) else (s, err (unsupported_curve curve))
check_curve s args = (s, err (unsupported_curve []))

-- The end of a method that scans `n` values: the receiver has what was scanned.
abbrev pub finish :
    {A : Type 0} → ℕ → A → List Arg × Option ScanError → A × Outcome Error (Unit {0})
finish n s (args, some e) = (s, err (parse_because e))
finish n s (args, none) = if length args == n then check_curve s args else (s, err parse)

-- What Sscanf stores into the fields, as far as it came; the first value is the curve.
abbrev pub store_openpgp : List Arg → OpenpgpSlotRef → OpenpgpSlotRef
store_openpgp (c ∷ number n ∷ []) s = record s { serial_no = n }
store_openpgp (c ∷ number n ∷ number m ∷ args) s = record s { serial_no = n; slot = m }
store_openpgp args s = s

abbrev pub store_piv : List Arg → PivSlotRef → PivSlotRef
store_piv (c ∷ number n ∷ []) s = record s { serial_no = n }
store_piv (c ∷ number n ∷ number m ∷ args) s = record s { serial_no = n; slot = m }
store_piv args s = s

abbrev pub store_pkcs11 : List Arg → Pkcs11SlotRef → Pkcs11SlotRef
store_pkcs11 (c ∷ text m ∷ []) s = record s { library = m }
store_pkcs11 (c ∷ text m ∷ number n ∷ args) s = record s { library = m; slot = n }
store_pkcs11 args s = s

abbrev pub store_tpm2 : List Arg → Tpm2SlotRef → Tpm2SlotRef
store_tpm2 (c ∷ text d ∷ args) s = record s { device = d }
store_tpm2 args s = s

-- The four methods UnmarshalText.
unfoldable pub unmarshal_openpgp :
    Bytes → OpenpgpSlotRef → OpenpgpSlotRef × Outcome Error (Unit {0})
unfolding scan
unmarshal_openpgp t s =
    let r = scan (sk_format (codes "openpgp") (verb_d ∷ lit b':' ∷ verb_d ∷ [])) t [] in
    finish 3 (store_openpgp r.0 s) r

unfoldable pub unmarshal_piv : Bytes → PivSlotRef → PivSlotRef × Outcome Error (Unit {0})
unfolding scan
unmarshal_piv t s =
    let r = scan (sk_format (codes "piv") (verb_d ∷ lit b':' ∷ verb_d ∷ [])) t [] in
    finish 3 (store_piv r.0 s) r

unfoldable pub unmarshal_pkcs11 : Bytes → Pkcs11SlotRef → Pkcs11SlotRef × Outcome Error (Unit {0})
unfolding scan
unmarshal_pkcs11 t s =
    let r = scan (sk_format (codes "pkcs11") (verb_s ∷ lit b':' ∷ verb_d ∷ [])) t [] in
    finish 3 (store_pkcs11 r.0 s) r

unfoldable pub unmarshal_tpm2 : Bytes → Tpm2SlotRef → Tpm2SlotRef × Outcome Error (Unit {0})
unfolding scan
unmarshal_tpm2 t s =
    let r = scan (sk_format (codes "tpm2") (verb_s ∷ [])) t [] in finish 2 (store_tpm2 r.0 s) r

-- The call fails with ErrParse and leaves the receiver as it was.
abbrev pub Refuses : {A : Type 0} → A → A × Outcome Error (Unit {0}) → Type 0
Refuses s r = (e : ScanError) × (r ≡ (s, err (parse_because e)))

sk_format-Fails :
    (token : Bytes) (verbs : List Verb) (t : Bytes) → Fails [] (scan (sk_format token verbs) t [])
sk_format-Fails token verbs t =
    scan-Fails (codes "ecdh:") b':' (literal (codes "sk:" ++ (token ++ codes ":")) verbs) t [] refl

finish-Refuses :
    {A : Type 0} (n : ℕ) (s : A) (store : List Arg → A → A) (r : List Arg × Option ScanError)
    → store [] s ≡ s
    → ((w : Bytes) → store (text w ∷ []) s ≡ s)
    → Fails [] r
    → Refuses s (finish n (store r.0 s) r)
finish-Refuses n s store (args, none) h0 h1 (e, failed, stored) = cc
finish-Refuses n s store (args, some e') h0 h1 (e, failed, inl nothing) =
    let same : args ≡ [] = nothing in (e', rw (same, h0) refl)
finish-Refuses n s store (args, some e') h0 h1 (e, failed, inr (w, one)) =
    let same : args ≡ text w ∷ [] = one in (e', rw (same, h1 w) refl)

-- UnmarshalText of each of the four references fails with ErrParse on every text, those that
-- MarshalText writes among them, and leaves the receiver as it was: `%s` takes the text up to the
-- next space, so that the colon behind it never matches.
pub unmarshal_text_lem :
    (t : Bytes) (o : OpenpgpSlotRef) (p : PivSlotRef) (k : Pkcs11SlotRef) (m : Tpm2SlotRef)
    → Refuses o (unmarshal_openpgp t o)
      × Refuses p (unmarshal_piv t p)
      × Refuses k (unmarshal_pkcs11 t k)
      × Refuses m (unmarshal_tpm2 t m)
unfolding unmarshal_openpgp unmarshal_piv unmarshal_pkcs11 unmarshal_tpm2
unmarshal_text_lem t o p k m =
    let two_numbers = verb_d ∷ lit b':' ∷ verb_d ∷ [] in
    (
      finish-Refuses 3 o store_openpgp (scan (sk_format (codes "openpgp") two_numbers) t []) refl
          (λ w. refl) (sk_format-Fails (codes "openpgp") two_numbers t),
      finish-Refuses 3 p store_piv (scan (sk_format (codes "piv") two_numbers) t []) refl
          (λ w. refl) (sk_format-Fails (codes "piv") two_numbers t),
      finish-Refuses 3 k store_pkcs11
          (scan (sk_format (codes "pkcs11") (verb_s ∷ lit b':' ∷ verb_d ∷ [])) t []) refl
          (λ w. refl) (sk_format-Fails (codes "pkcs11") (verb_s ∷ lit b':' ∷ verb_d ∷ []) t),
      finish-Refuses 2 m store_tpm2 (scan (sk_format (codes "tpm2") (verb_s ∷ [])) t []) refl
          (λ w. refl) (sk_format-Fails (codes "tpm2") (verb_s ∷ []) t),
    )
