-- ===== src/Provider/Session/Refinement.antt =====
-- provider/file.go: the provider as a store of files by name, over any sequence of calls.
use go_skes.Prelude.{
  All, Bool, true, take, if◌then◌else◌, ℕ, zero, suc, ◌≡◌, refl, inl, inr, false, List, [], ◌∷◌,
  ◌++◌, Option, none, some, update, Bytes, Outcome, ok, err, panic, stuck, Bool-cases,
}
use go_skes.Prelude.Exec.{resume, lift, ◌>>=◌}
use go_skes.Provider.File
use go_skes.Provider.File.{
  Error, Entry, Directory, Crypto, key_file, trim_suffix, key_suffix, select_files, key_files,
  read_all, has_entry, read_path, list_keys, key_file_by_id, key_by_id, open_key,
}
use go_skes.Provider.Store.{
  Write, complete, broken, write_file, without, remove, save_key, create_key,
  create_key_from_secret, destroy_key,
}
use go_skes.Provider.Lookup.{Iterates, load_private_key-some}
use go_skes.Provider.Listing.{Distinct}
use go_skes.Provider.Session.{
  view, Order, Call, keys, create, create_from, destroy, open_by, Reply, listed, created, destroyed,
  opened, failed, reply, generated, step, run, Does, Writes, saves, saves_none, saves_part,
  keeps_file, Named, Files, lists, stops_listing, creates, creates_none, creates_from,
  refuses_secret, exists, exists_from, removes, stops_removing, misses_destroy, opens,
  stops_opening, misses_open, DoesAll, done, more,
}
use go_skes.Provider.Session.View.{read_all-Reads}
use go_skes.Provider.Session.Changes.{
  has_entry-none, has_entry-some, view-append, view-without, Distinct-without, Distinct-append,
}
use go_skes.Provider.Session.Search.{load_cases, load_private_key-none}
use go_skes.Provider.Session.Ends.{
  OpenEnds, open_key-OpenEnds, ListEnds, SearchEnds, read-ListEnds, read-SearchEnds,
}

module _ (C : Crypto) where
  -- A call that leaves a directory of distinct names, and does what the specification says.
  abbrev Steps : List Entry → Call C.Key → Directory × Reply → Type 0
  Steps des c (dir, r) =
      (des' : List Entry) × (dir ≡ File.listed des')
      × Distinct des'
      × Does C (view des) c r (view des')

  module _ (order : Order) (iterates : Iterates order) (des : List Entry)
      (distinct : Distinct des) where
    pub list_keys-ListEnds : ListEnds C (view des) (list_keys C order (File.listed des))
    unfolding list_keys File.keys key_files
    list_keys-ListEnds = read-ListEnds C order iterates (view des) _ (read_all-Reads des distinct)

    search : (id : Bytes) → SearchEnds C (view des) id (key_file_by_id C order id (File.listed des))
    unfolding key_file_by_id File.keys key_files
    search id = read-SearchEnds C order iterates (view des) id _ (read_all-Reads des distinct)

    same :
        (c : Call C.Key) (r : Reply)
        → Does C (view des) c r (view des)
        → Steps des c (File.listed des, r)
    same c r does = (des, refl, distinct, does)

    keys-Steps :
        (r : Outcome Error (List Bytes))
        → ListEnds C (view des) r
        → Steps des keys (File.listed des, reply listed r)
    keys-Steps (ok ids) h = same keys (listed ids) (lists h)
    keys-Steps (err e) h = same keys (failed e) (stops_listing h)
    keys-Steps panic h = absurd h
    keys-Steps stuck h = absurd h

    -- A file is made for a free label.
    appended :
        (c : Call C.Key) (label content : Bytes) (r : Reply)
        → has_entry (key_file label) des ≡ false
        → Does C (view des) c r (
            update
              (view des)
              (key_file label)
              (some (record { is_dir = false; content = some content })))
        → let de : Entry = record {
          name = key_file label;
          is_dir = false;
          content = some content;
        } in
          Steps des c (File.listed (des ++ (de ∷ [])), r)
    appended c label content r free does =
        let de : Entry = record { name = key_file label; is_dir = false; content = some content } in
        (
          des ++ (de ∷ []),
          refl,
          Distinct-append des de free distinct,
          rw (view-append des de free) does,
        )

    saved :
        (c : Call C.Key) (label : Bytes) (sk : C.Key) (w : Write)
        → has_entry (key_file label) des ≡ false
        → ((r : Reply) (v : Files) → Writes C (view des) label sk w r v → Does C (view des) c r v)
        → let r = save_key C w label sk (File.listed des) in Steps des c (r.0, reply created r.1)
    unfolding save_key write_file
    saved c label sk complete free does =
        appended c label (C.bytes sk) (created (File.key_id C sk)) free (does _ _ saves)
    saved c label sk (broken none) free does =
        same c (failed (File.unwritten (File.key_id C sk))) (does _ _ saves_none)
    saved c label sk (broken (some n)) free does =
        appended c label (take n (C.bytes sk)) (failed (File.unwritten (File.key_id C sk))) free
          (does _ _ saves_part)

    create-Steps :
        (label : Bytes) (key : Option C.Key) (w : Write)
        → Steps des (create label key w) (step C order (create label key w) (File.listed des))
    unfolding step create_key
    create-Steps label key w = elim (Bool-cases (has_entry (key_file label) des)) [
      | inl there ↦ rw there (
          same (create label key w) (failed File.exist)
            (exists (has_entry-some (key_file label) des there)))
      | inr free ↦ rw free (made key free)
    ]
      where
        made :
            (key : Option C.Key)
            → has_entry (key_file label) des ≡ false
            → let r = (lift (generated key) >>= save_key C w label) (File.listed des) in
              Steps des (create label key w) (r.0, reply created r.1)
        made none free =
            same (create label none w) (failed File.generate_key)
              (creates_none (has_entry-none (key_file label) des free))
        made (some sk) free =
            saved (create label (some sk) w) label sk w free
              (λ r v writes. creates (has_entry-none (key_file label) des free) writes)

    create_from-Steps :
        (label secret : Bytes) (w : Write)
        → Steps des
            (create_from label secret w)
            (step C order (create_from label secret w) (File.listed des))
    unfolding step create_key_from_secret
    create_from-Steps label secret w = elim (Bool-cases (has_entry (key_file label) des)) [
      | inl there ↦ rw there (
          same (create_from label secret w) (failed File.exist)
            (exists_from (has_entry-some (key_file label) des there)))
      | inr free ↦ elim (load_cases C secret) [
        | inl (sk, loaded) ↦
            rw (free, load_private_key-some C secret sk loaded)
              (saved (create_from label secret w) label sk w free (λ r v writes.
                creates_from (has_entry-none (key_file label) des free) loaded writes))
        | inr no_key ↦
            rw (free, load_private_key-none C secret no_key)
              (same (create_from label secret w) (failed File.load_key)
                (refuses_secret (has_entry-none (key_file label) des free) no_key))
      ]
    ]

    destroy-Steps :
        (id : Bytes) (works : Bool) (r : Outcome Error Bytes)
        → SearchEnds C (view des) id r
        → let x = resume (File.listed des) r (remove works) in
          Steps des (destroy id works) (x.0, reply (λ u. destroyed) x.1)
    unfolding remove
    destroy-Steps id works (ok n) (key, file, has) = elim (Bool-cases (has_entry n des)) [
      | inl there ↦ rw there (removed works)
      | inr gone ↦ absurd (let nothing = has_entry-none n des gone in let f = file.0 in cc)
    ]
      where
        removed :
            (works : Bool)
            → let x : Directory × Outcome Error (Unit {0}) =
                if works
                then (File.listed (without n des), ok tt)
                else (File.listed des, err File.not_removed) in
              Steps des (destroy id works) (x.0, reply (λ u. destroyed) x.1)
        removed true = (
          without n des,
          refl,
          Distinct-without n des distinct,
          rw (view-without n des distinct) (removes file has),
        )
        removed false = same (destroy id false) (failed File.not_removed) (keeps_file file has)
    destroy-Steps id works (err e) (inl stops) =
        same (destroy id works) (failed e) (stops_removing stops)
    destroy-Steps id works (err e) (inr (is, misses)) =
        rw is (same (destroy id works) (failed File.not_exist) (misses_destroy misses))
    destroy-Steps id works panic h = absurd h
    destroy-Steps id works stuck h = absurd h

    open-Steps :
        (id : Bytes) (r : Outcome Error File.FileKey)
        → OpenEnds C (view des) id r
        → Steps des (open_by id) (File.listed des, reply opened r)
    open-Steps id (ok k) (n, key, file, has, is) = rw is (
        same (open_by id) (opened (record { key = key; label = trim_suffix n key_suffix }))
          (opens file has))
    open-Steps id (err e) (inl stops) = same (open_by id) (failed e) (stops_opening stops)
    open-Steps id (err e) (inr (is, misses)) =
        rw is (same (open_by id) (failed File.not_exist) (misses_open misses))
    open-Steps id panic h = absurd h
    open-Steps id stuck h = absurd h

    -- One call does what the specification says.
    step-Steps : (c : Call C.Key) → Steps des c (step C order c (File.listed des))
    unfolding step destroy_key
    step-Steps keys = keys-Steps (list_keys C order (File.listed des)) list_keys-ListEnds
    step-Steps (create label key w) = create-Steps label key w
    step-Steps (create_from label secret w) = create_from-Steps label secret w
    step-Steps (destroy id works) =
        destroy-Steps id works (key_file_by_id C order id (File.listed des)) (search id)
    step-Steps (open_by id) =
        open-Steps id (open_key C order id (File.listed des))
          (open_key-OpenEnds C order id des (search id))

  abbrev pub RunDoes : List Entry → List (Call C.Key) → Directory × List Reply → Type 0
  RunDoes des cs (dir, rs) =
      (des' : List Entry) × (dir ≡ File.listed des')
      × Distinct des'
      × DoesAll C (view des) cs rs (view des')

  after_step :
      (c : Call C.Key) (cs : List (Call C.Key)) (des : List Entry) (x : Directory × Reply)
      (rest : Directory → Directory × List Reply)
      → Steps des c x
      → ((des' : List Entry) → Distinct des' → RunDoes des' cs (rest (File.listed des')))
      → RunDoes des (c ∷ cs) ((rest x.0).0, x.1 ∷ (rest x.0).1)
  after_step c cs des (dir, r) rest (des', is, distinct, does) all =
      let (des'', is', distinct', does') = all des' distinct in
      rw is (des'', is', distinct', more does does')

  -- From a directory of distinct names any sequence of calls of the provider, with labels that have no
  -- separator and each in an order of its own over the map of the keys, leaves a directory of distinct
  -- names and is a sequence of the specification, a store of files by name: Keys returns the
  -- identifiers of the key files and no others; a key that is created is in the file of its label and
  -- no other file changes, or the label is taken; a key is opened with its content and label, or its
  -- file alone is removed, by an identifier that it has; os.ErrNotExist is returned where all key
  -- files are keys with other identifiers; and a key file that cannot be read or is no key stops a
  -- call with that error. Where the system fails to write a file, the error is returned next to the
  -- identifier, and the file is not there or has the first bytes of the key; where it fails to remove
  -- one, the error is returned and the file stays.
  pub run-RunDoes :
      (orders : ℕ → Order) (cs : List (Call C.Key)) (des : List Entry)
      → ((n : ℕ) → Iterates (orders n))
      → All Named cs
      → Distinct des
      → RunDoes des cs (run C orders cs (File.listed des))
  unfolding run
  run-RunDoes orders [] des iterates named distinct = (des, refl, distinct, done)
  run-RunDoes orders (c ∷ cs) des iterates (n, named) distinct =
      after_step c cs des (step C (orders zero) c (File.listed des))
        (run C (λ n. orders (suc n)) cs) (step-Steps (orders zero) (iterates zero) des distinct c)
        (λ des' distinct'.
          run-RunDoes (λ n. orders (suc n)) cs des' (λ n. iterates (suc n)) named distinct')
