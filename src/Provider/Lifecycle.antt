-- ===== src/Provider/Lifecycle.antt =====
-- provider/file.go: the life of a key, from its creation to its destruction.
use mathlib.Core.List.Permᴰ
use go_skes.Prelude.{
  ◌-◌, ◌≡◌, refl, ap, Bool, true, false, not, List, [], ◌∷◌, ◌++◌, some, arith, All, bytes_equal,
  bytes_equal_refl, inl, inr, ◌==◌, Bytes, ok, if◌then◌else◌, length, length-append, take-append,
  drop-append,
}
use go_skes.Provider.File.{
  Entry, listed, Crypto, ext_from, ext, key_suffix, key_file, has_entry, select_files, key_files,
  read_entry, read_all, keys, read_named, trim_suffix, key_id, key_file_by_id, key_by_id, open_key,
}
use go_skes.Provider.Store.{
  complete, write_file, without, remove, save_key, create_key, destroy_key,
}
use go_skes.Provider.Listing.{read_all-cons, read_all-nil}
use go_skes.Provider.Lookup.{Iterates, All-Perm, HasId, Loads, file_loop-finds}

-- The entry of a label.
abbrev entry : Bytes → Bytes → Entry
entry label key = record { name = key_file label; is_dir = false; content = some key }

ext_from-key_file : (label found : Bytes) → ext_from found (key_file label) ≡ key_suffix
ext_from-key_file [] found = refl
ext_from-key_file (c ∷ label) found =
    go (c == 0x2e) (ext_from-key_file label (c ∷ key_file label)) (ext_from-key_file label found)
  where
    go :
        (b : Bool)
        → ext_from (c ∷ key_file label) (key_file label) ≡ key_suffix
        → ext_from found (key_file label) ≡ key_suffix
        → (if b
            then ext_from (c ∷ key_file label) (key_file label)
            else ext_from found (key_file label))
          ≡ key_suffix
    go true dot other = dot
    go false dot other = other

trim_suffix-key_file : (label : Bytes) → trim_suffix (key_file label) key_suffix ≡ label
trim_suffix-key_file label =
    let size : length (key_file label) - length key_suffix ≡ length label =
      omega (arith, length-append label key_suffix) in
    rw (size, drop-append label key_suffix, bytes_equal_refl key_suffix)
      (take-append label key_suffix)

select_files-append :
    (des : List Entry) (label key : Bytes)
    → select_files (des ++ (entry label key ∷ [])) ≡ select_files des ++ (entry label key ∷ [])
select_files-append [] label key = rw (ext_from-key_file label [], bytes_equal_refl key_suffix)
select_files-append (de ∷ des) label key =
    go de.is_dir (bytes_equal (ext de.name) key_suffix) (select_files-append des label key)
  where
    go :
        (d x : Bool) {l : List Entry}
        → l ≡ select_files des ++ (entry label key ∷ [])
        → (if d then l else if not x then l else de ∷ l)
          ≡ (if d
              then select_files des
              else if not x
              then select_files des
              else de ∷ select_files des)
            ++ (entry label key ∷ [])
    go true x e = e
    go false true e = ap (λ l. de ∷ l) e
    go false false e = e

read_all-append :
    (des : List Entry) (found : List (Bytes × Bytes)) (label key : Bytes)
    → read_all des ≡ ok found
    → read_all (des ++ (entry label key ∷ [])) ≡ ok (found ++ ((key_file label, key) ∷ []))
unfolding read_all
read_all-append [] found label key e = rw (read_all-nil found e)
read_all-append (de ∷ des) found label key e =
    let (k, rest, read, read_rest, made) = read_all-cons de des found e in
    rw (read, read_all-append des rest label key read_rest, made)

read_named-append :
    (des : List Entry) (label key : Bytes)
    → has_entry (key_file label) des ≡ false
    → read_named (key_file label) (des ++ (entry label key ∷ [])) ≡ ok key
read_named-append [] label key h = rw (bytes_equal_refl (key_file label))
read_named-append (de ∷ des) label key h =
    go (bytes_equal de.name (key_file label)) h (read_named-append des label key)
  where
    go :
        (b : Bool)
        → (if b then true else has_entry (key_file label) des) ≡ false
        → (has_entry (key_file label) des ≡ false
            → read_named (key_file label) (des ++ (entry label key ∷ [])) ≡ ok key)
        → (if b then read_entry de else read_named (key_file label) (des ++ (entry label key ∷ [])))
          ≡ ok key
    go true h ih = cc
    go false h ih = ih h

has_entry-append :
    (des : List Entry) (label key : Bytes)
    → has_entry (key_file label) (des ++ (entry label key ∷ [])) ≡ true
has_entry-append [] label key = rw (bytes_equal_refl (key_file label))
has_entry-append (de ∷ des) label key =
    go (bytes_equal de.name (key_file label)) (has_entry-append des label key)
  where
    go : (b : Bool) {c : Bool} → c ≡ true → (if b then true else c) ≡ true
    go true e = refl
    go false e = e

without-append :
    (des : List Entry) (label key : Bytes)
    → has_entry (key_file label) des ≡ false
    → without (key_file label) (des ++ (entry label key ∷ [])) ≡ des
without-append [] label key h = rw (bytes_equal_refl (key_file label))
without-append (de ∷ des) label key h =
    go (bytes_equal de.name (key_file label)) h (without-append des label key)
  where
    go :
        (b : Bool)
        → (if b then true else has_entry (key_file label) des) ≡ false
        → (has_entry (key_file label) des ≡ false
            → without (key_file label) (des ++ (entry label key ∷ [])) ≡ des)
        → (if b
            then des ++ (entry label key ∷ [])
            else de ∷ without (key_file label) (des ++ (entry label key ∷ [])))
          ≡ de ∷ des
    go true h ih = cc
    go false h ih = ap (λ l. de ∷ l) (ih h)

All-append :
    {A : Type 0} (P : A → Type 0) (l : List A) (x : A) → All P l → P x → All P (l ++ (x ∷ []))
All-append P [] x h p = (p, tt)
All-append P (y ∷ l) x (h, hs) p = (h, All-append P l x hs p)

All-last : {A : Type 0} (P : A → Type 0) (l : List A) (x : A) → All P (l ++ (x ∷ [])) → P x
All-last P [] x (p, hs) = p
All-last P (y ∷ l) x (h, hs) = All-last P l x hs

only_new :
    (C : Crypto) (id name : Bytes) (l : List (Bytes × Bytes))
    → All (λ b. ¬ HasId C id b.1) l
    → All (λ b. HasId C id b.1 → b.0 ≡ name) l
only_new C id name [] h = tt
only_new C id name (b ∷ l) (h, hs) = ((λ has. absurd (h has)), only_new C id name l hs)

module _ (C : Crypto) (order : List (Bytes × Bytes) → List (Bytes × Bytes)) (label : Bytes)
    (sk : C.Key) (des : List Entry) (found : List (Bytes × Bytes)) (iterates : Iterates order)
    (loads : C.new_private_key (C.bytes sk) ≡ some sk)
    (free : has_entry (key_file label) des ≡ false) (read : keys (listed des) ≡ ok found)
    (all_keys : All (Loads C) found) (new : All (λ b. ¬ HasId C (key_id C sk) b.1) found) where
  after : List Entry
  after = des ++ (entry label (C.bytes sk) ∷ [])

  created : create_key C complete label (ok sk) (listed des) ≡ (listed after, ok (key_id C sk))
  unfolding create_key save_key write_file after
  created = rw free

  found_after : keys (listed after) ≡ ok (found ++ ((key_file label, C.bytes sk) ∷ []))
  unfolding keys key_files after
  found_after =
      rw (select_files-append des label (C.bytes sk))
        (read_all-append (select_files des) found label (C.bytes sk) read)

  finds : key_file_by_id C order (key_id C sk) (listed after) ≡ ok (key_file label)
  unfolding key_file_by_id
  finds =
      let all : List (Bytes × Bytes) = found ++ ((key_file label, C.bytes sk) ∷ []) in
      let ordered = Permᴰ.symm (iterates all) in
      rw found_after
        (elim (file_loop-finds C (key_id C sk) (key_file label) (order all)
          (All-Perm (Loads C) ordered (All-append (Loads C) found _ all_keys (sk, loads)))
          (All-Perm (λ b. HasId C (key_id C sk) b.1 → b.0 ≡ key_file label) ordered
            (All-append (λ b. HasId C (key_id C sk) b.1 → b.0 ≡ key_file label) found _
              (only_new C (key_id C sk) (key_file label) found new) (λ has. refl)))) [
                | inl e ↦ e
                | inr none_has ↦ absurd (
                    All-last (λ b. ¬ HasId C (key_id C sk) b.1) found (key_file label, C.bytes sk)
                      (All-Perm (λ b. ¬ HasId C (key_id C sk) b.1) (iterates all) none_has)
                      (sk, loads, refl))
              ])

  -- A key that is read back from its bytes and is created under a free label, in a directory whose
  -- key files all load and have other identifiers, with a write that succeeds, is opened by the identifier
  -- that was returned: with its bytes, under its label, in whatever order the loops run over the map.
  pub open_key-create_key :
      (create_key C complete label (ok sk) (listed des)).1 ≡ ok (key_id C sk)
      × (open_key C order (key_id C sk) (create_key C complete label (ok sk) (listed des)).0
          ≡ ok (record { key = C.bytes sk; label = label }))
  unfolding open_key key_by_id after
  open_key-create_key =
      rw (created, finds, read_named-append des label (C.bytes sk) free, trim_suffix-key_file label)
        (refl, refl)

  -- Under the same conditions, destroying the created key by its identifier leaves the directory as
  -- it was before.
  pub destroy_key-create_key :
      destroy_key C order true (key_id C sk) (create_key C complete label (ok sk) (listed des)).0
      ≡ (listed des, ok tt)
  unfolding destroy_key remove after
  destroy_key-create_key = rw (
    created,
    finds,
    has_entry-append des label (C.bytes sk),
    without-append des label (C.bytes sk) free,
  )
