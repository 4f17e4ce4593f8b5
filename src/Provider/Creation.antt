-- ===== src/Provider/Creation.antt =====
-- provider/file.go: creating a key, and the files that are there.
use go_skes.Prelude.{
  none, take, ◌≡◌, refl, some, Bool, true, false, List, [], ◌∷◌, ◌++◌, bytes_equal, Bytes, Outcome,
  err, if◌then◌else◌,
}
use go_skes.Prelude.Exec.{lift, Keeps, Keeps-bind, ◌>>=◌}
use go_skes.Provider.File.{
  Error, exist, Entry, Directory, listed, absent, unlisted, Crypto, key_file, has_entry, stat,
  read_entry, read_named, read_path, load_private_key,
}
use go_skes.Provider.Store.{
  Write, complete, broken, write_file, save_key, create_key, create_key_from_secret,
}

-- A file of this name is there, with this to read.
abbrev pub Holds : Bytes → Outcome Error Bytes → Directory → Type 0
Holds name content dir = (stat name dir ≡ true) × (read_path name dir ≡ content)

append_keeps :
    (name : Bytes) (des : List Entry) (de : Entry)
    → has_entry name des ≡ true
    → (has_entry name (des ++ (de ∷ [])) ≡ true)
      × (read_named name (des ++ (de ∷ [])) ≡ read_named name des)
append_keeps name [] de h = cc
append_keeps name (d ∷ des) de h = go (bytes_equal d.name name) h (append_keeps name des de)
  where
    go :
        (b : Bool)
        → (if b then true else has_entry name des) ≡ true
        → (has_entry name des ≡ true
            → (has_entry name (des ++ (de ∷ [])) ≡ true)
              × (read_named name (des ++ (de ∷ [])) ≡ read_named name des))
        → ((if b then true else has_entry name (des ++ (de ∷ []))) ≡ true)
          × ((if b then read_entry d else read_named name (des ++ (de ∷ [])))
              ≡ (if b then read_entry d else read_named name des))
    go true h ih = (refl, refl)
    go false h ih = ih h

module _ (C : Crypto) (name : Bytes) (content : Outcome Error Bytes) where
  save_key-Keeps :
      (w : Write) (label : Bytes) (sk : C.Key) → Keeps (Holds name content) (save_key C w label sk)
  unfolding save_key write_file
  save_key-Keeps complete label sk (listed des) (there, reads) =
      let (h, r) =
        append_keeps name des
          (record { name = key_file label; is_dir = false; content = some (C.bytes sk) }) there in
      (h, rw r reads)
  save_key-Keeps (broken none) label sk (listed des) h = h
  save_key-Keeps (broken (some n)) label sk (listed des) (there, reads) =
      let (h, r) =
        append_keeps name des
          (record { name = key_file label; is_dir = false; content = some (take n (C.bytes sk)) })
          there in
      (h, rw r reads)
  save_key-Keeps w label sk absent h = h
  save_key-Keeps complete label sk unlisted h = h
  save_key-Keeps (broken n) label sk unlisted h = h

  created_from :
      (r : Outcome Error C.Key) (w : Write) (label : Bytes)
      → Keeps (Holds name content) (do sk ← lift r; save_key C w label sk)
  created_from r w label =
      Keeps-bind {P = Holds name content} (lift r) (save_key C w label) (λ s h. h)
        (save_key-Keeps w label)

  -- Both ways of creating a key, however they end, leave every file that was there with the same
  -- content, or the same failure to read it.
  pub create_key-Keeps :
      (w : Write) (label secret : Bytes) (generated : Outcome Error C.Key)
      → Keeps (Holds name content) (create_key C w label generated)
        × Keeps (Holds name content) (create_key_from_secret C w label secret)
  unfolding create_key create_key_from_secret
  create_key-Keeps w label secret generated = (
    (λ dir h.
        go dir (stat (key_file label) dir) _ (err exist) (created_from generated w label dir h) h),
    λ dir h.
        go dir (stat (key_file label) dir) _ (err exist)
          (created_from (load_private_key C secret) w label dir h) h,
  )
    where
      go :
          (dir : Directory) (b : Bool) (r : Directory × Outcome Error Bytes)
          (x : Outcome Error Bytes)
          → Holds name content r.0
          → Holds name content dir
          → Holds name content (if b then (dir, x) else r).0
      go dir true r x h k = k
      go dir false r x h k = h
