-- ===== src/Provider/Sample.antt =====
-- provider/file.go: keys and a directory for the runs. The keys are bytes that are their own public
-- keys and identifiers, and one that starts with 0xff does not load.
use go_skes.Prelude.{
  List, [], ◌∷◌, Option, none, some, true, false, ◌==◌, if◌then◌else◌, codes, Bytes,
}
use go_skes.Provider.File.{Entry, Crypto}

unfoldable pub load : Bytes → Option Bytes
load [] = none
load (b ∷ bs) = if b == 0xff then none else some (b ∷ bs)

abbrev pub plain : Crypto
plain = record {
  Key = Bytes;
  new_private_key = load;
  bytes = λ k. k;
  public = λ k. k;
  sha256 = λ b. b;
}

abbrev pub in_order : List (Bytes × Bytes) → List (Bytes × Bytes)
in_order l = l

-- A key file, a directory, and a file with another extension.
abbrev pub entries : List Entry
entries =
    record { name = codes "a.key"; is_dir = false; content = some (1 ∷ 2 ∷ []) }
    ∷ record { name = codes "b.key"; is_dir = true; content = none }
    ∷ record { name = codes "a.txt"; is_dir = false; content = some [] }
    ∷ []
