-- ===== src/Provider/Listing.antt =====
-- provider/file.go: the names and contents that the map of the keys has, and what Keys and OpenKey
-- return of them.
use mathlib.Core.List.Permᴰ
use go_skes.Prelude.{
  ◌≡◌, Bool, true, false, not, List, [], ◌∷◌, All, bytes_equal, bytes_equal→eq, bytes_equal_refl,
  Bool-cases, inl, inr, ◌⊎◌, Bytes, ok, if◌then◌else◌, >>=-eq-ok,
}
use go_skes.Provider.File.{
  Entry, listed, Crypto, FileKey, ext, key_suffix, select_files, key_files, read_entry, read_all,
  keys, read_named, read_path, key_file_by_id, key_by_id, open_key,
}
use go_skes.Provider.Lookup.{Iterates, All-Perm, HasId, file_loop-eq-ok}

-- No entry has that name; and the names of a directory are distinct.
abbrev pub Fresh : Bytes → List Entry → Type 0
Fresh name des = All (λ de. bytes_equal de.name name ≡ false) des

abbrev pub Distinct : List Entry → Type 0
Distinct [] = Unit {0}
Distinct (de ∷ des) = Fresh de.name des × Distinct des

Fresh-select_files :
    (name : Bytes) (des : List Entry) → Fresh name des → Fresh name (select_files des)
Fresh-select_files name [] h = tt
Fresh-select_files name (de ∷ des) (h, hs) =
    go de.is_dir (bytes_equal (ext de.name) key_suffix) (Fresh-select_files name des hs)
  where
    go :
        (d e : Bool)
        → Fresh name (select_files des)
        → Fresh name (
            if d
            then select_files des
            else if not e
            then select_files des
            else de ∷ select_files des)
    go true e hs = hs
    go false true hs = (h, hs)
    go false false hs = hs

pub read_all-cons :
    (de : Entry) (des : List Entry) (found : List (Bytes × Bytes))
    → read_all (de ∷ des) ≡ ok found
    → (key : Bytes) × (rest : List (Bytes × Bytes)) × (read_entry de ≡ ok key)
      × (read_all des ≡ ok rest)
      × (found ≡ (de.name, key) ∷ rest)
unfolding read_all
read_all-cons de des found e =
    let (key, read, after) = >>=-eq-ok (read_entry de) _ e in
    let (rest, read_rest, made) = >>=-eq-ok (read_all des) _ after in
    (key, rest, read, read_rest, cc)

pub read_all-nil : (found : List (Bytes × Bytes)) → read_all [] ≡ ok found → found ≡ []
unfolding read_all
read_all-nil found e = cc

read_all-Fresh :
    (name : Bytes) (des : List Entry) (found : List (Bytes × Bytes))
    → read_all des ≡ ok found
    → Fresh name des
    → All (λ b. bytes_equal b.0 name ≡ false) found
read_all-Fresh name [] found e h = rw (read_all-nil found e) tt
read_all-Fresh name (de ∷ des) found e (h, hs) =
    let (key, rest, read, read_rest, made) = read_all-cons de des found e in
    rw made (h, read_all-Fresh name des rest read_rest hs)

-- Each binding of the map is the content of the file of that name.
abbrev IsContent : List Entry → Bytes × Bytes → Type 0
IsContent des (name, key) = read_named name des ≡ ok key

IsContent-cons :
    (de : Entry) (des : List Entry) (found : List (Bytes × Bytes))
    → All (λ b. bytes_equal b.0 de.name ≡ false) found
    → All (IsContent des) found
    → All (IsContent (de ∷ des)) found
IsContent-cons de des [] hs cs = tt
IsContent-cons de des ((name, key) ∷ found) (h, hs) (c, cs) =
    (rw (other (Bool-cases (bytes_equal de.name name))) c, IsContent-cons de des found hs cs)
  where
    other :
        (bytes_equal de.name name ≡ true) ⊎ (bytes_equal de.name name ≡ false)
        → bytes_equal de.name name ≡ false
    other (inl e) =
        let same : de.name ≡ name = bytes_equal→eq de.name name e in
        let equal : bytes_equal name de.name ≡ true = rw same (bytes_equal_refl name) in cc
    other (inr e) = e

pub read_all-IsContent :
    (des : List Entry) (found : List (Bytes × Bytes))
    → Distinct des
    → read_all (select_files des) ≡ ok found
    → All (IsContent des) found
read_all-IsContent [] found h e = rw (read_all-nil found e) tt
read_all-IsContent (de ∷ des) found (fresh, distinct) e =
    go de.is_dir (bytes_equal (ext de.name) key_suffix) e (λ l. read_all-IsContent des l distinct)
  where
    Earlier : Type 0
    Earlier =
        (l : List (Bytes × Bytes)) → read_all (select_files des) ≡ ok l → All (IsContent des) l

    later :
        (l : List (Bytes × Bytes))
        → read_all (select_files des) ≡ ok l
        → Earlier
        → All (IsContent (de ∷ des)) l
    later l e earlier =
        IsContent-cons de des l
          (read_all-Fresh de.name (select_files des) l e (Fresh-select_files de.name des fresh))
          (earlier l e)

    go :
        (d x : Bool)
        → read_all (
            if d
            then select_files des
            else if not x
            then select_files des
            else de ∷ select_files des)
          ≡ ok found
        → Earlier
        → All (IsContent (de ∷ des)) found
    go true x e earlier = later found e earlier
    go false true e earlier =
        let (key, rest, read, read_rest, made) = read_all-cons de (select_files des) found e in
        rw made (rw (bytes_equal_refl de.name) read, later rest read_rest earlier)
    go false false e earlier = later found e earlier

-- In a directory of distinct names, the key that OpenKey returns is a private key with the
-- identifier that was asked for, in whatever order the loop runs over the map.
pub open_key-HasId :
    (C : Crypto) (order : List (Bytes × Bytes) → List (Bytes × Bytes)) (id : Bytes)
    (des : List Entry) (k : FileKey)
    → Iterates order
    → Distinct des
    → open_key C order id (listed des) ≡ ok k
    → HasId C id k.key
unfolding open_key key_by_id key_file_by_id keys key_files
open_key-HasId C order id des k h distinct e =
    let (pair, by_id, opened) = >>=-eq-ok (key_by_id C order id (listed des)) _ e in
    let (name, by_name, after) = >>=-eq-ok (key_file_by_id C order id (listed des)) _ by_id in
    let (key, read, made) = >>=-eq-ok (read_path name (listed des)) _ after in
    let (found, all, loop) = >>=-eq-ok (keys (listed des)) _ by_name in
    let contents : All (IsContent des) (order found) =
      All-Perm (IsContent des) (Permᴰ.symm (h found)) (read_all-IsContent des found distinct all) in
    let (key', content, has) =
      file_loop-eq-ok C (IsContent des) id name (order found) contents loop in
    let same : k.key ≡ key' = cc in rw same has
