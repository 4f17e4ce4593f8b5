-- ===== src/Cmd.antt =====
-- cmd/cmd.go: the command line, on a machine with a Secure Enclave.
use go_skes.Prelude.{
  ℕ, ◌≡◌, ◌<◌, refl, Bool, false, ◌||◌, List, [], ◌∷◌, ◌++◌, Option, none, some, arith, leb,
  get_elem?, bytes_equal, codes, if◌then◌else◌, length, Bytes, Outcome, ok, err, panic, stuck,
}
use go_skes.Prelude.Exec.{Exec, lift, ◌>>=◌}
use go_skes.Ecdh.PublicKey.{p256, Crypto}
use go_skes.Ecdh.Applese.{Ref, Framework, remove_key, keys, private_key_by_label}
use go_skes.Ecdh.Applese.Device.{key_label, key_label_of, public_key, dh, generate_key}

-- os.Exit(-1), behind a message in the log.
pub data Failure : Type 0 where
  exit : Failure

-- What is printed, line by line.
abbrev pub Output : Type 0
Output = List Bytes

-- A call that ends the program where it fails.
abbrev pub exit_on_err : {E A : Type 0} → Outcome E A → Outcome Failure A
exit_on_err (ok a) = ok a
exit_on_err (err e) = err exit
exit_on_err panic = panic
exit_on_err stuck = stuck

abbrev pub or_exit : {S E A : Type 0} → Exec S E A → Exec S Failure A
or_exit m s = ((m s).0, exit_on_err (m s).1)

abbrev pub some_or_exit : {A : Type 0} → Option A → Outcome Failure A
some_or_exit none = err exit
some_or_exit (some a) = ok a

module _ {S : Type 0} (F : Framework S) (C : Crypto) where
  -- An argument as it is decoded.
  abbrev pub decoded : Bytes → Exec S Failure Bytes
  decoded arg = lift (some_or_exit (C.decode_string arg))

  -- The conversion to a label, which panics for fewer than 20 bytes.
  abbrev pub to_label : Bytes → Exec S Failure Bytes
  to_label b = or_exit (lift (key_label F b))

  -- `hawkes genkey [label]`
  unfoldable pub genkey : Bytes → Exec S Failure Output
  genkey label = do
    sk ← or_exit (generate_key F label)
    l ← or_exit (key_label_of F sk)
    lift (ok (C.encode_string l ∷ []))

  -- `hawkes dh label public-key`
  unfoldable pub diffie_hellman : Bytes → Bytes → Exec S Failure Output
  diffie_hellman label_arg pk_arg = do
    label_bytes ← decoded label_arg
    label ← to_label label_bytes
    sk ← or_exit (private_key_by_label F label)
    pk_bytes ← decoded pk_arg
    pk ← lift (some_or_exit (C.new_public_key p256 pk_bytes))
    ss ← or_exit (dh F sk (C.bytes_of pk))
    lift (ok (C.encode_string ss ∷ []))

  -- `hawkes remove label`; what it logs is no output.
  unfoldable pub remove : ℕ → Bytes → Exec S Failure Output
  remove fuel arg = do
    hash ← decoded arg
    label ← to_label hash
    found ← or_exit (remove_key F fuel label)
    lift (ok [])

  -- The loop of `hawkes list`: the label and the public key of each key. A key whose bytes are none
  -- on P-256 is nil.
  unfoldable pub list_loop : List Ref → Exec S Failure Output
  list_loop [] = lift (ok [])
  list_loop (key ∷ refs) = do
    pk ← or_exit (public_key F C key)
    pk_str ← lift (elim pk [ none ↦ panic | some k ↦ ok (C.encode_string (C.bytes_of k)) ])
    l ← or_exit (key_label_of F key)
    rest ← list_loop refs
    lift (ok ((C.encode_string l ++ (b' ' ∷ pk_str)) ∷ rest))

  unfoldable pub list_keys : Option Bytes → Exec S Failure Output
  unfolding list_loop
  list_keys hash = do refs ← or_exit (keys F hash); list_loop refs

  unfoldable pub list : Option Bytes → Exec S Failure Output
  unfolding list_keys
  list none = list_keys none
  list (some arg) = do hash ← decoded arg; list_keys (some hash)

  abbrev pub is_command : Bytes → Bytes → Bytes → Bool
  is_command cmd name short = bytes_equal cmd name || bytes_equal cmd short

  -- The cases of the switch, with the arguments behind the command.
  unfoldable pub dispatch : ℕ → Bytes → List Bytes → Exec S Failure Output
  unfolding genkey diffie_hellman remove list
  dispatch fuel cmd args =
      if bytes_equal cmd (codes "genkey")
      then elim (get_elem? args 0) [ none ↦ genkey (codes "label") | some label ↦ genkey label ]
      else if is_command cmd (codes "diffie-helman") (codes "dh")
      then elim (get_elem? args 0) [
        | none ↦ lift (err exit)
        | some label ↦ elim (get_elem? args 1) [
          | none ↦ lift (err exit)
          | some pk ↦ diffie_hellman label pk
        ]
      ]
      else if is_command cmd (codes "remove") (codes "rm")
      then elim (get_elem? args 0) [ none ↦ lift (err exit) | some hash ↦ remove fuel hash ]
      else if is_command cmd (codes "list") (codes "ls")
      then list (get_elem? args 0)
      else lift (ok [])

  -- main, with os.Args.
  unfoldable pub main : ℕ → List Bytes → Exec S Failure Output
  unfolding dispatch
  main fuel [] = lift (err exit)
  main fuel (program ∷ []) = lift (err exit)
  main fuel (program ∷ cmd ∷ args) = dispatch fuel cmd args

  -- `hawkes remove` with an argument that decodes to fewer than 20 bytes panics, and touches no key.
  pub main_short_label :
      (fuel : ℕ) (program arg b : Bytes) (args : List Bytes) (s : S)
      → C.decode_string arg ≡ some b
      → length b < 20
      → main fuel (program ∷ codes "remove" ∷ arg ∷ args) s ≡ (s, panic)
  unfolding main dispatch remove bytes_equal
  main_short_label fuel program arg b args s read short =
      let no : leb 20 (length b) ≡ false = ground arith in rw (remove, read, key_label, no) refl

  -- A command of another name, or a mistyped one, does nothing and succeeds, with any arguments.
  pub main_unknown :
      (fuel : ℕ) (program cmd : Bytes) (args : List Bytes) (s : S)
      → bytes_equal cmd (codes "genkey") ≡ false
      → is_command cmd (codes "diffie-helman") (codes "dh") ≡ false
      → is_command cmd (codes "remove") (codes "rm") ≡ false
      → is_command cmd (codes "list") (codes "ls") ≡ false
      → main fuel (program ∷ cmd ∷ args) s ≡ (s, ok [])
  unfolding main dispatch
  main_unknown fuel program cmd args s g d r l = rw (main, dispatch, g, d, r, l) refl
