-- ===== src/Prelude/Scan.antt =====
-- fmt.Sscanf of the standard library, for formats of literals, `%s` and `%d`, and `%d` of package fmt
-- for an int. A text is a list of code points.
use Prim.Native.Nat.{ℕ, zero, suc, ◌^◌}
use mathlib.Core.Path.{◌≡◌, refl}
use mathlib.Core.Logic.{◌⊎◌, inl, inr}
use mathlib.Core.Bool.{Bool, true, false, ◌&&◌, ◌||◌, not}
use mathlib.Core.Option.{Option, none, some}
use mathlib.Core.List.{List, [], ◌∷◌, ◌++◌}
use native.Mathlib.Omega.{arith}
use go_skes.Prelude.Tests.{ltb, leb, ◌==◌, if◌then◌else◌}
use go_skes.Prelude.Decimal.{decimal, value}

-- `negsuc n` is -(n + 1).
pub data ℤ : Type 0 where
  pos : ℕ → ℤ
  negsuc : ℕ → ℤ

abbrev pub print_int : ℤ → List ℕ
print_int (pos n) = decimal n
print_int (negsuc n) = b'-' ∷ decimal (suc n)

-- The space characters of package fmt.
abbrev pub is_space : ℕ → Bool
is_space c =
    (leb 0x9 c && leb c 0xd)
    || c == 0x20
    || c == 0x85
    || c == 0xa0
    || c == 0x1680
    || (leb 0x2000 c && leb c 0x200a)
    || c == 0x2028
    || c == 0x2029
    || c == 0x202f
    || c == 0x205f
    || c == 0x3000

abbrev pub is_digit : ℕ → Bool
is_digit c = leb b'0' c && leb c b'9'

pub data Verb : Type 0 where
  lit : ℕ → Verb
  verb_s : Verb
  verb_d : Verb

-- What was scanned into an argument.
pub data Arg : Type 0 where
  text : List ℕ → Arg
  number : ℤ → Arg

pub data ScanError : Type 0 where
  unexpected_eof : ScanError
  unexpected_newline : ScanError
  mismatch : ScanError
  expected_integer : ScanError
  out_of_range : ScanError

-- The longest start of characters that pass the test, and what is left.
abbrev pub span : (ℕ → Bool) → List ℕ → List ℕ × List ℕ
span p [] = ([], [])
span p (c ∷ s) = if p c then (c ∷ (span p s).0, (span p s).1) else ([], c ∷ s)

-- SkipSpace: a newline is an error, but for one after a carriage return the return is skipped first.
unfoldable pub skip_space : List ℕ → List ℕ ⊎ ScanError
skip_space [] = inl []
skip_space (c ∷ s) =
    let rest = skip_space s in
    if c == b'\n' then inr unexpected_newline else if is_space c then rest else inl (c ∷ s)

-- strconv.ParseInt of a sign and digits, for 64 bits.
abbrev pub parse_int : Bool → List ℕ → ℤ ⊎ ScanError
parse_int true digits =
    if leb (value 0 digits) (2 ^ 63)
    then inl (elim (value 0 digits) [ zero ↦ pos 0 | suc n ↦ negsuc n ])
    else inr out_of_range
parse_int false digits =
    if ltb (value 0 digits) (2 ^ 63) then inl (pos (value 0 digits)) else inr out_of_range

-- `%s`: space is skipped, and what is not space is taken.
abbrev pub word : List ℕ → (List ℕ × List ℕ) ⊎ ScanError
word [] = inr unexpected_eof
word (c ∷ s) = inl (span (λ x. not (is_space x)) (c ∷ s))

abbrev pub word_after : List ℕ ⊎ ScanError → (List ℕ × List ℕ) ⊎ ScanError
word_after (inl rest) = word rest
word_after (inr e) = inr e

abbrev pub scan_string : List ℕ → (List ℕ × List ℕ) ⊎ ScanError
scan_string s = word_after (skip_space s)

abbrev pub with_rest : ℤ ⊎ ScanError → List ℕ → (ℤ × List ℕ) ⊎ ScanError
with_rest (inl i) s = inl (i, s)
with_rest (inr e) s = inr e

-- `%d` after its sign.
abbrev pub scan_digits : Bool → List ℕ → (ℤ × List ℕ) ⊎ ScanError
scan_digits negative [] = inr unexpected_eof
scan_digits negative (c ∷ s) =
    if is_digit c
    then with_rest (parse_int negative (span is_digit (c ∷ s)).0) (span is_digit (c ∷ s)).1
    else inr expected_integer

abbrev pub scan_sign : List ℕ → (ℤ × List ℕ) ⊎ ScanError
scan_sign [] = inr unexpected_eof
scan_sign (c ∷ s) =
    if c == b'-'
    then scan_digits true s
    else if c == b'+'
    then scan_digits false s
    else scan_digits false (c ∷ s)

abbrev pub scan_number : List ℕ → (ℤ × List ℕ) ⊎ ScanError
scan_number s = elim (skip_space s) [ inl rest ↦ scan_sign rest | inr e ↦ inr e ]

-- Sscanf: the arguments that were scanned, and the error that ended it. The number that the call
-- returns is their length.
unfoldable pub scan : List Verb → List ℕ → List Arg → List Arg × Option ScanError
scan [] s args = (args, none)
scan (lit c ∷ format) [] args = (args, some unexpected_eof)
scan (lit c ∷ format) (x ∷ s) args =
    let rest = scan format s args in if x == c then rest else (args, some mismatch)
scan (verb_s ∷ format) s args = elim (scan_string s) [
  | inl (w, rest) ↦ scan format rest (args ++ (text w ∷ []))
  | inr e ↦ (args, some e)
]
scan (verb_d ∷ format) s args = elim (scan_number s) [
  | inl (n, rest) ↦ scan format rest (args ++ (number n ∷ []))
  | inr e ↦ (args, some e)
]

abbrev pub literal : List ℕ → List Verb → List Verb
literal [] format = format
literal (c ∷ cs) format = lit c ∷ literal cs format

-- What `%s` leaves is empty or starts with a space.
AtSpace : List ℕ → Type 0
AtSpace [] = Unit {0}
AtSpace (c ∷ s) = is_space c ≡ true

-- So for what a word leaves.
Leaves : List ℕ × List ℕ → Type 0
unfolding AtSpace
Leaves r = AtSpace r.1

AtSpace-span : (s : List ℕ) → AtSpace (span (λ x. not (is_space x)) s).1
unfolding AtSpace Leaves
AtSpace-span [] = tt
AtSpace-span (c ∷ s) = go (is_space c) refl (AtSpace-span s)
  where
    go :
        (b : Bool)
        → is_space c ≡ b
        → AtSpace (span (λ x. not (is_space x)) s).1
        → Leaves (
            if not b
            then (c ∷ (span (λ x. not (is_space x)) s).0, (span (λ x. not (is_space x)) s).1)
            else ([], c ∷ s))
    go true e h = e
    go false e h = h

-- The scan ended with an error, with no new argument or with one.
abbrev pub Fails : List Arg → List Arg × Option ScanError → Type 0
Fails args r =
    (e : ScanError) × (r.1 ≡ some e)
    × ((r.0 ≡ args) ⊎ ((w : List ℕ) × (r.0 ≡ args ++ (text w ∷ []))))

-- A character that is no space never stands behind what `%s` takes.
scan-lit :
    (c : ℕ) (format : List Verb) (s : List ℕ) (args : List Arg)
    → is_space c ≡ false
    → AtSpace s
    → (e : ScanError) × (scan (lit c ∷ format) s args ≡ (args, some e))
unfolding scan AtSpace
scan-lit c format [] args h at_space = (unexpected_eof, refl)
scan-lit c format (x ∷ s) args h at_space = (mismatch, go (x == c) refl)
  where
    go :
        (b : Bool)
        → (x == c) ≡ b
        → (if b then scan format s args else (args, some mismatch)) ≡ (args, some mismatch)
    go true e = let same : x ≡ c = ground arith in cc
    go false e = refl

scan-word :
    (c : ℕ) (format : List Verb) (s : List ℕ) (args : List Arg)
    → is_space c ≡ false
    → Fails args (scan (verb_s ∷ lit c ∷ format) s args)
unfolding scan
scan-word c format s args h = go (skip_space s)
  where
    after :
        (w rest : List ℕ)
        → AtSpace rest
        → Fails args (scan (lit c ∷ format) rest (args ++ (text w ∷ [])))
    after w rest at_space =
        let (e, fails) = scan-lit c format rest (args ++ (text w ∷ [])) h at_space in
        rw fails (e, refl, inr (w, refl))

    go :
        (r : List ℕ ⊎ ScanError)
        → Fails args (elim (word_after r) [
          | inl (w, rest) ↦ scan (lit c ∷ format) rest (args ++ (text w ∷ []))
          | inr e ↦ (args, some e)
        ])
    go (inl []) = (unexpected_eof, refl, inl refl)
    go (inl (x ∷ rest)) =
        after (span (λ x. not (is_space x)) (x ∷ rest)).0
          (span (λ x. not (is_space x)) (x ∷ rest)).1 (AtSpace-span (x ∷ rest))
    go (inr e) = (e, refl, inl refl)

-- A format with a literal right behind `%s` matches no text, where the literal starts with no space.
pub scan-Fails :
    (prefix : List ℕ) (c : ℕ) (format : List Verb) (s : List ℕ) (args : List Arg)
    → is_space c ≡ false
    → Fails args (scan (literal prefix (verb_s ∷ lit c ∷ format)) s args)
unfolding scan
scan-Fails [] c format s args h = scan-word c format s args h
scan-Fails (p ∷ prefix) c format [] args h = (unexpected_eof, refl, inl refl)
scan-Fails (p ∷ prefix) c format (x ∷ s) args h = go (x == p) (scan-Fails prefix c format s args h)
  where
    go :
        (b : Bool)
        → Fails args (scan (literal prefix (verb_s ∷ lit c ∷ format)) s args)
        → Fails args (
            if b
            then scan (literal prefix (verb_s ∷ lit c ∷ format)) s args
            else (args, some mismatch))
    go true ih = ih
    go false ih = (mismatch, refl, inl refl)
