-- ===== src/Provider/Session/Changes.antt =====
-- provider/file.go: what a new file, and one that is removed, do to the files by name.
use mathlib.Core.Path.{fun_ext}
use go_skes.Prelude.{
  ◌≡◌, ◌≢◌, refl, true, false, List, [], ◌∷◌, ◌++◌, none, some, update, bytes_equal, bytes_equal→eq,
  bytes_equal_refl, Bytes, inl, inr, Bool-cases,
}
use go_skes.Provider.File.{Entry, has_entry}
use go_skes.Provider.Listing.{Fresh, Distinct}
use go_skes.Provider.Store.{without}
use go_skes.Provider.Session.{view}
use go_skes.Provider.Session.View.{file_of, view-Fresh, bytes_equal_sym}

pub has_entry-none : (n : Bytes) (des : List Entry) → has_entry n des ≡ false → view des n ≡ none
has_entry-none n [] h = refl
has_entry-none n (de ∷ des) h = elim (Bool-cases (bytes_equal de.name n)) [
  | inl e ↦ absurd (let t = rw e at h in cc)
  | inr e ↦ rw e (has_entry-none n des (rw e at h))
]

pub has_entry-some : (n : Bytes) (des : List Entry) → has_entry n des ≡ true → view des n ≢ none
has_entry-some n [] h = cc
has_entry-some n (de ∷ des) h = elim (Bool-cases (bytes_equal de.name n)) [
  | inl e ↦ rw e (λ p. cc)
  | inr e ↦ rw e (has_entry-some n des (rw e at h))
]

-- A new file at the end of the directory.
view-append-at :
    (des : List Entry) (de : Entry) (n : Bytes)
    → has_entry de.name des ≡ false
    → view (des ++ (de ∷ [])) n ≡ update (view des) de.name (some (file_of de)) n
view-append-at [] de n h = elim (Bool-cases (bytes_equal de.name n)) [
  | inl e ↦ rw (e, bytes_equal_sym de.name n e) refl
  | inr e ↦ elim (Bool-cases (bytes_equal n de.name)) [
    | inl e' ↦ absurd (let t = bytes_equal_sym n de.name e' in cc)
    | inr e' ↦ rw (e, e') refl
  ]
]
view-append-at (d ∷ des) de n h = elim (Bool-cases (bytes_equal d.name de.name)) [
  | inl same ↦ absurd (let t = rw same at h in cc)
  | inr differs ↦
      let ih = view-append-at des de n (rw differs at h) in
      elim (Bool-cases (bytes_equal d.name n)) [
        | inr e ↦ rw e ih
        | inl e ↦ elim (Bool-cases (bytes_equal n de.name)) [
          | inl e' ↦
              absurd (let name = bytes_equal→eq d.name n e in let t = rw (← name) at e' in cc)
          | inr e' ↦ rw (e, e') refl
        ]
      ]
]

pub view-append :
    (des : List Entry) (de : Entry)
    → has_entry de.name des ≡ false
    → view (des ++ (de ∷ [])) ≡ update (view des) de.name (some (file_of de))
view-append des de h = fun_ext λ n. view-append-at des de n h

-- The file of a name is gone.
view-without-at :
    (name : Bytes) (des : List Entry) (n : Bytes)
    → Distinct des
    → view (without name des) n ≡ update (view des) name none n
view-without-at name [] n distinct = elim (Bool-cases (bytes_equal n name)) [
  | inl e ↦ rw e refl
  | inr e ↦ rw e refl
]
view-without-at name (de ∷ des) n (fresh, distinct) = elim (Bool-cases (bytes_equal de.name name)) [
  | inl same ↦
      let here : de.name ≡ name = bytes_equal→eq de.name name same in
      elim (Bool-cases (bytes_equal n name)) [
        | inl e ↦
            let at_n : n ≡ name = bytes_equal→eq n name e in
            rw (same, e) (rw (at_n, ← here) (view-Fresh de.name des fresh))
        | inr e ↦ elim (Bool-cases (bytes_equal de.name n)) [
          | inl e' ↦ absurd (
              let t : bytes_equal n name ≡ true =
                rw (← bytes_equal→eq de.name n e', here) (bytes_equal_refl name) in
              cc)
          | inr e' ↦ rw (same, e, e') refl
        ]
      ]
  | inr differs ↦
      let ih = view-without-at name des n distinct in
      elim (Bool-cases (bytes_equal de.name n)) [
        | inr e' ↦ rw (differs, e') ih
        | inl e' ↦ elim (Bool-cases (bytes_equal n name)) [
          | inl e ↦
              absurd
                (let t : bytes_equal de.name name ≡ true = rw (bytes_equal→eq de.name n e') e in cc)
          | inr e ↦ rw (differs, e', e) refl
        ]
      ]
]

pub view-without :
    (name : Bytes) (des : List Entry)
    → Distinct des
    → view (without name des) ≡ update (view des) name none
view-without name des distinct = fun_ext λ n. view-without-at name des n distinct

pub Fresh-without : (m name : Bytes) (des : List Entry) → Fresh m des → Fresh m (without name des)
Fresh-without m name [] h = tt
Fresh-without m name (de ∷ des) (h, hs) = elim (Bool-cases (bytes_equal de.name name)) [
  | inl e ↦ rw e hs
  | inr e ↦ rw e (h, Fresh-without m name des hs)
]

pub Distinct-without :
    (name : Bytes) (des : List Entry) → Distinct des → Distinct (without name des)
Distinct-without name [] h = tt
Distinct-without name (de ∷ des) (h, hs) = elim (Bool-cases (bytes_equal de.name name)) [
  | inl e ↦ rw e hs
  | inr e ↦ rw e (Fresh-without de.name name des h, Distinct-without name des hs)
]

Fresh-append :
    (m : Bytes) (des : List Entry) (de : Entry)
    → Fresh m des
    → bytes_equal de.name m ≡ false
    → Fresh m (des ++ (de ∷ []))
Fresh-append m [] de h e = (e, tt)
Fresh-append m (d ∷ des) de (h, hs) e = (h, Fresh-append m des de hs e)

pub Distinct-append :
    (des : List Entry) (de : Entry)
    → has_entry de.name des ≡ false
    → Distinct des
    → Distinct (des ++ (de ∷ []))
Distinct-append [] de h distinct = (tt, tt)
Distinct-append (d ∷ des) de h (fresh, distinct) = elim (Bool-cases (bytes_equal d.name de.name)) [
  | inl same ↦ absurd (let t = rw same at h in cc)
  | inr differs ↦ elim (Bool-cases (bytes_equal de.name d.name)) [
    | inl e ↦ absurd (let t = bytes_equal_sym de.name d.name e in cc)
    | inr e ↦
        (Fresh-append d.name des de fresh e, Distinct-append des de (rw differs at h) distinct)
  ]
]
