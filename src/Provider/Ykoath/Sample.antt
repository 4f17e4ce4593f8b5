-- ===== src/Provider/Ykoath/Sample.antt =====
-- provider/ykoath.go: a card with room for one credential, for the runs. Its codes are the secret and
-- the challenge in a row.
use mathlib.Core.Path.{fun_ext}
use go_skes.Prelude.{
  Any, update, ℕ, ◌≡◌, refl, sym, Bool, true, false, List, [], ◌∷◌, ◌++◌, Option, some, none,
  bytes_equal, bytes_equal→eq, bytes_equal_refl, if◌then◌else◌, All, Bytes, Outcome, ok, err, ◌==◌,
  ==_iff, Bool-cases, inl, inr,
}
use go_skes.Prelude.Post.{Post}
use go_skes.Provider.Ykoath.{Slot, Applet}
use go_skes.Provider.Ykoath.Behaviour.{Cred, Documented}

pub data Failure : Type 0 where
  no_such_object : Failure
  no_space : Failure

abbrev pub Card : Type 0
Card = Option (Bytes × Cred ℕ)

abbrev pub find : Card → Bytes → Option (Cred ℕ)
find none n = none
find (some (name, k)) n = if bytes_equal n name then some k else none

abbrev pub list : Card → Card × Outcome Failure (List (Slot ℕ))
list none = (none, ok [])
list (some (name, k)) = (some (name, k), ok (record { name = name; algorithm = k.algorithm } ∷ []))

abbrev pub calculate : Bytes → Bytes → Card → Card × Outcome Failure Bytes
calculate n c none = (none, err no_such_object)
calculate n c (some (name, k)) =
    (some (name, k), if bytes_equal n name then ok (k.secret ++ c) else err no_such_object)

abbrev pub put :
    Bytes → ℕ → Unit {0} → ℕ → Bytes → Bool → ℕ → Card → Card × Outcome Failure (Unit {0})
put n a t digits secret touch counter none =
    (some (n, record { algorithm = a; secret = secret }), ok tt)
put n a t digits secret touch counter (some (name, k)) =
    if bytes_equal n name
    then (some (n, record { algorithm = a; secret = secret }), ok tt)
    else (some (name, k), err no_space)

abbrev pub delete : Bytes → Card → Card × Outcome Failure (Unit {0})
delete n none = (none, err no_such_object)
delete n (some (name, k)) =
    if bytes_equal n name then (none, ok tt) else (some (name, k), err no_such_object)

abbrev pub one_slot : Applet
one_slot = record {
  Card = Card;
  Failure = Failure;
  Algorithm = ℕ;
  OathType = Unit {0};
  hmac_sha256 = 2;
  same_algorithm = ◌==◌;
  totp = tt;
  list = list;
  calculate = calculate;
  put = put;
  delete = delete;
}

pub replaced :
    (n name : Bytes) (k : Cred ℕ) (o : Option (Cred ℕ))
    → bytes_equal n name ≡ true
    → (λ m. if bytes_equal m n then o else none) ≡ update (find (some (name, k))) n o
replaced n name k o same =
    fun_ext λ m. go m (bytes_equal m n) (rw (bytes_equal→eq n name same) refl)
  where
    go :
        (m : Bytes) (b : Bool)
        → b ≡ bytes_equal m name
        → (if b then o else none) ≡ (if b then o else if bytes_equal m name then some k else none)
    go m true e = refl
    go m false e = rw (← e) refl

pub removed :
    (n name : Bytes) (k : Cred ℕ)
    → bytes_equal n name ≡ true
    → find none ≡ update (find (some (name, k))) n none
removed n name k same = fun_ext λ m. go m (bytes_equal m n) (rw (bytes_equal→eq n name same) refl)
  where
    go :
        (m : Bytes) (b : Bool)
        → b ≡ bytes_equal m name
        → none ≡ (if b then none else if bytes_equal m name then some k else none)
    go m true e = refl
    go m false e = rw (← e) refl

unfoldable pub documented : Documented one_slot
documented = record {
  vault = find;
  mac = λ k c. k.secret ++ c;
  same_iff = λ a e. (==_iff a 2).0 e;
  same_refl = refl;
  list_lem = λ s. list_documented s;
  calculate_lem = λ n c s. calculate_documented n c s;
  put_lem =
      λ n a t digits secret touch counter s. put_documented n a t digits secret touch counter s;
  delete_lem = λ n s. delete_documented n s;
}
  where
    list_documented :
        (s : Card)
        → Post
            (λ slots s'.
              (find s' ≡ find s)
              × All
                  (λ slot.
                    (k : Cred ℕ) × (find s slot.name ≡ some k) × (k.algorithm ≡ slot.algorithm))
                  slots
              × ((n : Bytes) (k : Cred ℕ) → find s n ≡ some k → Any (λ slot. slot.name ≡ n) slots))
            (λ f s'. find s' ≡ find s)
            list
            s
    list_documented none = (refl, tt, λ n k e. cc)
    list_documented (some (name, k)) = (
      refl,
      ((k, rw (bytes_equal_refl name), refl), tt),
      λ m k' e. elim (Bool-cases (bytes_equal m name)) [
        | inl same ↦ inl (sym (bytes_equal→eq m name same))
        | inr other ↦ cc (rw other at e)
      ],
    )

    calculate_documented :
        (n c : Bytes) (s : Card)
        → Post
            (λ code s'.
              (find s' ≡ find s) × ((k : Cred ℕ) × (find s n ≡ some k) × (code ≡ k.secret ++ c)))
            (λ f s'. find s' ≡ find s)
            (calculate n c)
            s
    calculate_documented n c none = refl
    calculate_documented n c (some (name, k)) = elim (Bool-cases (bytes_equal n name)) [
      | inl same ↦ rw same (refl, (k, refl, refl))
      | inr other ↦ rw other refl
    ]

    put_documented :
        (n : Bytes) (a : ℕ) (t : Unit {0}) (digits : ℕ) (secret : Bytes) (touch : Bool)
        (counter : ℕ) (s : Card)
        → Post
            (λ r s'. find s' ≡ update (find s) n (some (record { algorithm = a; secret = secret })))
            (λ f s'. find s' ≡ find s)
            (put n a t digits secret touch counter)
            s
    put_documented n a t digits secret touch counter none = refl
    put_documented n a t digits secret touch counter (some (name, k)) =
        elim (Bool-cases (bytes_equal n name)) [
          | inl same ↦
              rw same (replaced n name k (some (record { algorithm = a; secret = secret })) same)
          | inr other ↦ rw other refl
        ]

    delete_documented :
        (n : Bytes) (s : Card)
        → Post (λ r s'. find s' ≡ update (find s) n none) (λ f s'. find s' ≡ find s) (delete n) s
    delete_documented n none = refl
    delete_documented n (some (name, k)) = elim (Bool-cases (bytes_equal n name)) [
      | inl same ↦ rw same (removed n name k same)
      | inr other ↦ rw other refl
    ]
