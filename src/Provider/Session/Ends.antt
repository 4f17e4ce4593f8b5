-- ===== src/Provider/Session/Ends.antt =====
-- provider/file.go: how the listing of the keys and the search for one end, by the files.
use mathlib.Core.List.Permᴰ
use go_skes.Prelude.{
  ◌≡◌, refl, ap, ◌⊎◌, inl, inr, false, List, [], ◌∷◌, Option, none, some, All, Any, bytes_equal,
  Bytes, Outcome, ok, err, panic, stuck, Bool-cases, ◌>>=◌,
}
use go_skes.Provider.File.{
  FileKey, listed, read_path, Error, not_exist, read_file, Entry, Crypto, trim_suffix, key_suffix,
  read_entry, read_named, key_id, key_file_by_id, key_by_id, open_key, id_loop, file_loop,
}
use go_skes.Provider.Lookup.{Iterates, All-Perm, HasId}
use go_skes.Provider.Session.{
  Files, view, KeyFile, Order, Stops, unreadable, no_key, Misses, AllIds,
}
use go_skes.Provider.Session.View.{Reads}
use go_skes.Provider.Session.Search.{Other, NoKey, Found, file_loop-Found, Lists, id_loop-Lists}

All-Any : {A : Type 0} (Q : A → Type 0) (x : A) (l : List A) → All Q l → Any (λ b. b ≡ x) l → Q x
All-Any Q x (y ∷ l) (h, hs) (inl here) = rw (← here) h
All-Any Q x (y ∷ l) (h, hs) (inr there) = All-Any Q x l hs there
All-Any Q x [] h any = absurd any

read_entry-some : (de : Entry) (key : Bytes) → de.content ≡ some key → read_entry de ≡ ok key
read_entry-some de key h = ap (λ c. read_content c) h
  where
    read_content : Option Bytes → Outcome Error Bytes
    read_content c = elim c [ none ↦ err read_file | some k ↦ ok k ]

pub read_named-view :
    (n key : Bytes) (des : List Entry)
    → view des n ≡ some (record { is_dir = false; content = some key })
    → read_named n des ≡ ok key
read_named-view n key [] h = cc
read_named-view n key (de ∷ des) h = elim (Bool-cases (bytes_equal de.name n)) [
  | inl e ↦
      let file : some (record { is_dir = de.is_dir; content = de.content })
          ≡ some (record { is_dir = false; content = some key }) =
        rw e at h in
      let is : de.content ≡ some key = cc in rw e (read_entry-some de key is)
  | inr e ↦ rw e (read_named-view n key des (rw e at h))
]

module _ (C : Crypto) where
  NoKey-Stops : (v : Files) (e : Error) → NoKey C (λ b. KeyFile v b.0 (some b.1)) e → Stops C v e
  NoKey-Stops v e (is, (b, file, broken)) = rw is (no_key file broken)

  -- How the listing of the keys ends.
  abbrev pub ListEnds : Files → Outcome Error (List Bytes) → Type 0
  ListEnds v (ok ids) = AllIds C v ids
  ListEnds v (err e) = Stops C v e
  ListEnds v panic = ⊥
  ListEnds v stuck = ⊥

  -- How the search for a key ends.
  abbrev pub SearchEnds : Files → Bytes → Outcome Error Bytes → Type 0
  SearchEnds v id (ok n) = (key : Bytes) × KeyFile v n (some key) × HasId C id key
  SearchEnds v id (err e) = Stops C v e ⊎ ((e ≡ not_exist) × Misses C v id)
  SearchEnds v id panic = ⊥
  SearchEnds v id stuck = ⊥

  module _ (order : Order) (iterates : Iterates order) (v : Files) where
    ordered :
        (Q : Bytes × Bytes → Type 0) (found : List (Bytes × Bytes))
        → All Q found
        → All Q (order found)
    ordered Q found = All-Perm Q (Permᴰ.symm (iterates found))

    of_found :
        (Q : Bytes × Bytes → Type 0) (found : List (Bytes × Bytes))
        → All Q (order found)
        → (n key : Bytes) → Any (λ b. b ≡ (n, key)) found
        → Q (n, key)
    of_found Q found hs n key = All-Any Q (n, key) found (All-Perm Q (iterates found) hs)

    after_listing :
        (found : List (Bytes × Bytes)) (r : Outcome Error (List Bytes))
        → Reads v (ok found)
        → Lists C (λ b. KeyFile v b.0 (some b.1)) (order found) r
        → ListEnds v r
    after_listing found (ok ids) (sound, complete) (ids_sound, all) = (
      ids_sound,
      λ n c h.
          let (key, is, any) = complete n c h in
          let (sk, loaded, in_ids) =
            of_found
              (λ b.
                (sk : C.Key) × (C.new_private_key b.1 ≡ some sk) × Any (λ id. id ≡ key_id C sk) ids)
              found all n key any in
          (key, sk, is, loaded, in_ids),
    )
    after_listing found (err e) reads stops = NoKey-Stops v e stops
    after_listing found panic reads h = h
    after_listing found stuck reads h = h

    pub read-ListEnds :
        (r : Outcome Error (List (Bytes × Bytes)))
        → Reads v r
        → ListEnds v (r >>= λ found. id_loop C (order found))
    read-ListEnds (ok found) h = after_listing found (id_loop C (order found)) h (
        id_loop-Lists C (λ b. KeyFile v b.0 (some b.1)) (order found)
          (ordered (λ b. KeyFile v b.0 (some b.1)) found h.0))
    read-ListEnds (err e) (is, (n, h)) = rw is (unreadable h)
    read-ListEnds panic h = h
    read-ListEnds stuck h = h

    after_search :
        (id : Bytes) (found : List (Bytes × Bytes)) (r : Outcome Error Bytes)
        → Reads v (ok found)
        → Found C (λ b. KeyFile v b.0 (some b.1)) id (order found) r
        → SearchEnds v id r
    after_search id found (ok n) reads h = h
    after_search id found (err e) reads (inl stops) = inl (NoKey-Stops v e stops)
    after_search id found (err e) (sound, complete) (inr (missing, others)) = inr (
      missing,
      λ n c h.
          let (key, is, any) = complete n c h in
          let (sk, loaded, other) = of_found (λ b. Other C id b.1) found others n key any in
          (key, sk, is, loaded, other),
    )
    after_search id found panic reads h = h
    after_search id found stuck reads h = h

    pub read-SearchEnds :
        (id : Bytes) (r : Outcome Error (List (Bytes × Bytes)))
        → Reads v r
        → SearchEnds v id (r >>= λ found. file_loop C id (order found))
    read-SearchEnds id (ok found) h = after_search id found (file_loop C id (order found)) h (
        file_loop-Found C (λ b. KeyFile v b.0 (some b.1)) id (order found)
          (ordered (λ b. KeyFile v b.0 (some b.1)) found h.0))
    read-SearchEnds id (err e) (is, (n, h)) = inl (rw is (unreadable h))
    read-SearchEnds id panic h = h
    read-SearchEnds id stuck h = h

  -- How OpenKey ends.
  abbrev pub OpenEnds : Files → Bytes → Outcome Error FileKey → Type 0
  OpenEnds v id (ok k) =
      (n : Bytes) × (key : Bytes) × KeyFile v n (some key)
      × HasId C id key
      × (k ≡ record { key = key; label = trim_suffix n key_suffix })
  OpenEnds v id (err e) = Stops C v e ⊎ ((e ≡ not_exist) × Misses C v id)
  OpenEnds v id panic = ⊥
  OpenEnds v id stuck = ⊥

  -- OpenKey behind the search.
  abbrev opened_by : List Entry → Outcome Error Bytes → Outcome Error FileKey
  opened_by des r = do
    (label, key) ← (do
      name ← r
      key ← read_path name (listed des)
      ok (trim_suffix name key_suffix, key))
    ok (record { key = key; label = label })

  opened-OpenEnds :
      (des : List Entry) (id : Bytes) (r : Outcome Error Bytes)
      → SearchEnds (view des) id r
      → OpenEnds (view des) id (opened_by des r)
  opened-OpenEnds des id (ok n) (key, file, has) =
      rw (read_named-view n key des file.0) (n, key, file, has, refl)
  opened-OpenEnds des id (err e) h = h
  opened-OpenEnds des id panic h = h
  opened-OpenEnds des id stuck h = h

  pub open_key-OpenEnds :
      (order : Order) (id : Bytes) (des : List Entry)
      → SearchEnds (view des) id (key_file_by_id C order id (listed des))
      → OpenEnds (view des) id (open_key C order id (listed des))
  unfolding open_key key_by_id
  open_key-OpenEnds order id des h =
      opened-OpenEnds des id (key_file_by_id C order id (listed des)) h
