-- ===== src/Provider/Session/View.antt =====
-- provider/file.go: the files by name, and what the loop over the key files reads of them.
use go_skes.Prelude.{
  ◌≡◌, refl, ap, sym, ◌∙◌, ◌⊎◌, inl, inr, true, false, List, [], ◌∷◌, Option, none, some, All, Any,
  bytes_equal, bytes_equal→eq, bytes_equal_refl, Bytes, Outcome, ok, err, panic, stuck, Bool-cases,
  ◌>>=◌,
}
use go_skes.Provider.File.{Error, read_file, Entry, ext, key_suffix, select_files, read_all}
use go_skes.Provider.Listing.{Fresh, Distinct}
use go_skes.Provider.Session.{File, Files, view, KeyFile}

abbrev pub file_of : Entry → File
file_of de = record { is_dir = de.is_dir; content = de.content }

pub view-Fresh : (name : Bytes) (des : List Entry) → Fresh name des → view des name ≡ none
view-Fresh name [] h = refl
view-Fresh name (de ∷ des) (h, hs) = rw h (view-Fresh name des hs)

pub bytes_equal_sym : (x y : Bytes) → bytes_equal x y ≡ true → bytes_equal y x ≡ true
bytes_equal_sym x y h = rw (bytes_equal→eq x y h) (bytes_equal_refl y)

-- A file behind the first entry is one of the directory, under the same name.
view-later :
    (de : Entry) (des : List Entry) (n : Bytes) (f : File)
    → Fresh de.name des
    → view des n ≡ some f
    → view (de ∷ des) n ≡ some f
view-later de des n f fresh h = elim (Bool-cases (bytes_equal de.name n)) [
  | inl e ↦
      let gone : view des n ≡ none =
        rw (← bytes_equal→eq de.name n e) (view-Fresh de.name des fresh) in
      cc
  | inr e ↦ rw e h
]

view-here : (de : Entry) (des : List Entry) → view (de ∷ des) de.name ≡ some (file_of de)
view-here de des = rw (bytes_equal_refl de.name) refl

view-cases :
    (de : Entry) (des : List Entry) (n : Bytes) (f : File)
    → view (de ∷ des) n ≡ some f
    → ((de.name ≡ n) × (file_of de ≡ f)) ⊎ (view des n ≡ some f)
view-cases de des n f h = elim (Bool-cases (bytes_equal de.name n)) [
  | inl e ↦ inl (bytes_equal→eq de.name n e, let s = rw e at h in cc)
  | inr e ↦ inr (rw e at h)
]

-- What the loop over the key files reads: their names and contents, and no others; or one of them
-- cannot be read.
abbrev pub Reads : Files → Outcome Error (List (Bytes × Bytes)) → Type 0
Reads v (ok found) =
    All (λ b. KeyFile v b.0 (some b.1)) found
    × ((n : Bytes) (c : Option Bytes)
        → KeyFile v n c
        → (key : Bytes) × (c ≡ some key) × Any (λ b. b ≡ (n, key)) found)
Reads v (err e) = (e ≡ read_file) × ((n : Bytes) × KeyFile v n none)
Reads v panic = ⊥
Reads v stuck = ⊥

module _ (de : Entry) (des : List Entry) (fresh : Fresh de.name des) where
  later : (n : Bytes) (c : Option Bytes) → KeyFile (view des) n c → KeyFile (view (de ∷ des)) n c
  later n c (h, x) = (view-later de des n (record { is_dir = false; content = c }) fresh h, x)

  All-later :
      (found : List (Bytes × Bytes))
      → All (λ b. KeyFile (view des) b.0 (some b.1)) found
      → All (λ b. KeyFile (view (de ∷ des)) b.0 (some b.1)) found
  All-later [] hs = tt
  All-later (b ∷ found) (h, hs) = (later b.0 (some b.1) h, All-later found hs)

  -- The first entry is one that the loop skips.
  Reads-skip :
      (r : Outcome Error (List (Bytes × Bytes)))
      → ((n : Bytes) (c : Option Bytes) → KeyFile (view (de ∷ des)) n c → KeyFile (view des) n c)
      → Reads (view des) r
      → Reads (view (de ∷ des)) r
  Reads-skip (ok found) down (sound, complete) =
      (All-later found sound, λ n c h. complete n c (down n c h))
  Reads-skip (err e) down (same, (n, h)) = (same, (n, later n none h))
  Reads-skip panic down h = h
  Reads-skip stuck down h = h

  skips :
      (de.is_dir ≡ true) ⊎ (bytes_equal (ext de.name) key_suffix ≡ false)
      → (n : Bytes) (c : Option Bytes) → KeyFile (view (de ∷ des)) n c
      → KeyFile (view des) n c
  skips why n c (h, x) = elim (view-cases de des n (record { is_dir = false; content = c }) h) [
    | inl (name, file) ↦ elim why [
      | inl dir ↦ absurd (let d : de.is_dir ≡ false = ap (λ (f : File). f.is_dir) file in cc)
      | inr other ↦ absurd (let y : bytes_equal (ext de.name) key_suffix ≡ true = rw name x in cc)
    ]
    | inr there ↦ (there, x)
  ]

  -- The first entry is a key file, and is read.
  Reads-add :
      (key : Bytes) (r : Outcome Error (List (Bytes × Bytes)))
      → KeyFile (view (de ∷ des)) de.name (some key)
      → Reads (view des) r
      → Reads (view (de ∷ des)) (r >>= λ l. ok ((de.name, key) ∷ l))
  Reads-add key (ok found) here (sound, complete) = (
    (here, All-later found sound),
    λ n c (h, x). elim (view-cases de des n (record { is_dir = false; content = c }) h) [
      | inl (name, file) ↦
          let content : some (record { is_dir = false; content = some key })
              ≡ some (record { is_dir = false; content = c }) =
            sym here.0 ∙ (ap (view (de ∷ des)) name ∙ h) in
          (key, (let s = content in cc), inl (ap (λ m. (m, key)) name))
      | inr there ↦ let (k, is, any) = complete n c (there, x) in (k, is, inr any)
    ],
  )
  Reads-add key (err e) here (same, (n, h)) = (same, (n, later n none h))
  Reads-add key panic here h = h
  Reads-add key stuck here h = h

  Reads-entry :
      (c : Option Bytes)
      → KeyFile (view (de ∷ des)) de.name c
      → Reads (view des) (read_all (select_files des))
      → Reads (view (de ∷ des)) (
          (elim c [ none ↦ err read_file | some key ↦ ok key ]) >>= λ key.
          read_all (select_files des) >>= λ l. ok ((de.name, key) ∷ l))
  Reads-entry none here h = (refl, (de.name, here))
  Reads-entry (some key) here h = Reads-add key (read_all (select_files des)) here h

-- In a directory of distinct names the loop reads exactly the key files.
pub read_all-Reads :
    (des : List Entry) → Distinct des → Reads (view des) (read_all (select_files des))
unfolding read_all
read_all-Reads [] distinct = (tt, λ n c h. let s = h.0 in cc)
read_all-Reads (de ∷ des) (fresh, distinct) =
    let ih = read_all-Reads des distinct in
    elim (Bool-cases de.is_dir) [
      | inl dir ↦ simp dir (Reads-skip de des fresh _ (skips de des fresh (inl dir)) ih)
      | inr file ↦ elim (Bool-cases (bytes_equal (ext de.name) key_suffix)) [
        | inr other ↦
            simp (file, other) (Reads-skip de des fresh _ (skips de des fresh (inr other)) ih)
        | inl is ↦
            let here : KeyFile (view (de ∷ des)) de.name de.content = (
              view-here de des ∙ ap (λ d. some (record { is_dir = d; content = de.content })) file,
              is,
            ) in
            simp (file, is) (Reads-entry de des fresh de.content here ih)
      ]
    ]
