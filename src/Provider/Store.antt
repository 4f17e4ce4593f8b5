-- ===== src/Provider/Store.antt =====
-- provider/file.go: the operations that change the directory of the keys.
use go_skes.Prelude.{
  ℕ, Bool, true, Option, none, take, false, List, [], ◌∷◌, ◌++◌, some, bytes_equal, if◌then◌else◌,
  Bytes, Outcome, ok, err,
}
use go_skes.Prelude.Exec.{Exec, lift, ◌>>=◌}
use go_skes.Provider.File.{
  Error, exist, not_exist, unwritten, not_removed, Entry, Directory, listed, absent, unlisted,
  Crypto, key_file, has_entry, stat, load_private_key, key_id, key_file_by_id,
}

-- What comes of a write: the file is written, or the system fails with no file made, or with one of
-- so many of the bytes.
pub data Write : Type 0 where
  complete : Write
  broken : Option ℕ → Write

abbrev new_entry : Bytes → Bytes → Entry
new_entry name key = record { name = name; is_dir = false; content = some key }

-- os.WriteFile for a name that is not there, and whether it succeeds. A directory that cannot be
-- listed may take a file all the same.
unfoldable pub write_file : Write → Bytes → Bytes → Directory → Directory × Bool
write_file complete name key (listed des) = (listed (des ++ (new_entry name key ∷ [])), true)
write_file (broken none) name key (listed des) = (listed des, false)
write_file (broken (some n)) name key (listed des) =
    (listed (des ++ (new_entry name (take n key) ∷ [])), false)
write_file w name key absent = (absent, false)
write_file complete name key unlisted = (unlisted, true)
write_file (broken n) name key unlisted = (unlisted, false)

-- The entries but the one of a name.
abbrev pub without : Bytes → List Entry → List Entry
without name [] = []
without name (de ∷ des) = if bytes_equal de.name name then des else de ∷ without name des

-- os.Remove; the system may fail to remove a file.
unfoldable pub remove : Bool → Bytes → Exec Directory Error (Unit {0})
remove works name (listed des) =
    if has_entry name des
    then if works then (listed (without name des), ok tt) else (listed des, err not_removed)
    else (listed des, err not_exist)
remove works name absent = (absent, err not_exist)
remove works name unlisted = (unlisted, err not_exist)

module _ (C : Crypto) where
  -- The end of both ways to create a key: its identifier, with the error of the write.
  unfoldable pub save_key : Write → Bytes → C.Key → Exec Directory Error Bytes
  unfolding write_file
  save_key w label sk dir =
      let r = write_file w (key_file label) (C.bytes sk) dir in
      (r.0, if r.1 then ok (key_id C sk) else err (unwritten (key_id C sk)))

  -- CreateKeyFromSecret
  unfoldable pub create_key_from_secret : Write → Bytes → Bytes → Exec Directory Error Bytes
  create_key_from_secret w label secret dir =
      if stat (key_file label) dir
      then (dir, err exist)
      else (do sk ← lift (load_private_key C secret); save_key w label sk) dir

  -- CreateKey; `generated` is what sw.GeneratePrivateKey returns.
  unfoldable pub create_key : Write → Bytes → Outcome Error C.Key → Exec Directory Error Bytes
  create_key w label generated dir =
      if stat (key_file label) dir
      then (dir, err exist)
      else (do sk ← lift generated; save_key w label sk) dir

module _ (C : Crypto) (order : List (Bytes × Bytes) → List (Bytes × Bytes)) where
  -- DestroyKey
  unfoldable pub destroy_key : Bool → Bytes → Exec Directory Error (Unit {0})
  destroy_key works id dir = (do name ← lift (key_file_by_id C order id dir); remove works name) dir
