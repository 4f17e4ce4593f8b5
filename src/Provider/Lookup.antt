-- ===== src/Provider/Lookup.antt =====
-- provider/file.go: what the loops over the map of the keys find, in whatever order they run.
use mathlib.Core.List.{Permᴰ}
use go_skes.Prelude.{
  ◌≡◌, ◌⊎◌, inl, inr, refl, ap, Bool, true, false, List, [], ◌∷◌, some, none, Option, All,
  bytes_equal, bytes_equal→eq, bytes_equal_refl, Bytes, ok, err, if◌then◌else◌, >>=-eq-ok,
}
use go_skes.Provider.File.{load_key, Crypto, load_private_key, key_id, file_loop}

-- The order of a loop over a map: the bindings of the map, each once.
abbrev pub Iterates : (List (Bytes × Bytes) → List (Bytes × Bytes)) → Type 0
Iterates order = (l : List (Bytes × Bytes)) → Permᴰ (order l) l

pub All-Perm : {A : Type 0} (P : A → Type 0) {l l' : List A} → Permᴰ l l' → All P l → All P l'
All-Perm P Permᴰ.nil h = h
All-Perm P (Permᴰ.cons e p) (h, hs) = (rw (← e) h, All-Perm P p hs)
All-Perm P (Permᴰ.swap e f) (h, (h', hs)) = (rw (← f) h', (rw (← e) h, hs))
All-Perm P (Permᴰ.trans p q) h = All-Perm P q (All-Perm P p h)

module _ (C : Crypto) where
  -- The bytes are a private key with this identifier.
  abbrev pub HasId : Bytes → Bytes → Type 0
  HasId id key = (sk : C.Key) × (C.new_private_key key ≡ some sk) × (key_id C sk ≡ id)

  abbrev pub Loads : Bytes × Bytes → Type 0
  Loads (name, key) = (sk : C.Key) × (C.new_private_key key ≡ some sk)

  pub load_private_key-some :
      (key : Bytes) (sk : C.Key) → C.new_private_key key ≡ some sk → load_private_key C key ≡ ok sk
  unfolding load_private_key
  load_private_key-some key sk e = rw (load_private_key, e)

  load_private_key-eq-ok :
      (key : Bytes) (sk : C.Key) → load_private_key C key ≡ ok sk → C.new_private_key key ≡ some sk
  unfolding load_private_key
  load_private_key-eq-ok key sk = go (C.new_private_key key)
    where
      go :
          (o : Option C.Key)
          → (elim o [ none ↦ err load_key | some sk ↦ ok sk ]) ≡ ok sk
          → o ≡ some sk
      go none e = cc
      go (some k) e = cc

  -- A file that the search finds holds a key with the identifier that is searched for.
  pub file_loop-eq-ok :
      (P : Bytes × Bytes → Type 0) (id name : Bytes) (l : List (Bytes × Bytes))
      → All P l
      → file_loop C id l ≡ ok name
      → (key : Bytes) × P (name, key) × HasId id key
  unfolding file_loop
  file_loop-eq-ok P id name [] hs e = cc
  file_loop-eq-ok P id name ((n, key) ∷ l) (h, hs) e =
      let (sk, loaded, found) = >>=-eq-ok (load_private_key C key) _ e in
      let rest : file_loop C id l ≡ ok name → (k : Bytes) × P (name, k) × HasId id k =
        file_loop-eq-ok P id name l hs in
      go (bytes_equal (key_id C sk) id) sk loaded refl found rest
    where
      go :
          (b : Bool) (sk : C.Key)
          → load_private_key C key ≡ ok sk
          → bytes_equal (key_id C sk) id ≡ b
          → (if b then ok n else file_loop C id l) ≡ ok name
          → (file_loop C id l ≡ ok name → (k : Bytes) × P (name, k) × HasId id k)
          → (k : Bytes) × P (name, k) × HasId id k
      go true sk loaded same found rest =
          let here : n ≡ name = cc in
          (
            key,
            rw (← here) h,
            (sk, load_private_key-eq-ok key sk loaded, bytes_equal→eq (key_id C sk) id same),
          )
      go false sk loaded differs found rest = rest found

  -- If all files are keys, and those with the identifier are in the file `name`, the search finds
  -- that file, or no file has the identifier.
  pub file_loop-finds :
      (id name : Bytes) (l : List (Bytes × Bytes))
      → All Loads l
      → All (λ b. HasId id b.1 → b.0 ≡ name) l
      → (file_loop C id l ≡ ok name) ⊎ (All (λ b. ¬ HasId id b.1) l)
  unfolding file_loop
  file_loop-finds id name [] hs only = inr tt
  file_loop-finds id name ((n, key) ∷ l) ((sk, loaded), hs) (one, only) =
      rw (load_private_key-some key sk loaded)
        (go (bytes_equal (key_id C sk) id) refl (file_loop-finds id name l hs only))
    where
      go :
          (b : Bool)
          → bytes_equal (key_id C sk) id ≡ b
          → (file_loop C id l ≡ ok name) ⊎ (All (λ b. ¬ HasId id b.1) l)
          → ((if b then ok n else file_loop C id l) ≡ ok name)
            ⊎ (All (λ b. ¬ HasId id b.1) ((n, key) ∷ l))
      go true same rest = inl (ap ok (one (sk, loaded, bytes_equal→eq (key_id C sk) id same)))
      go false differs (inl found) = inl found
      go false differs (inr none_has) = inr (
        (λ (sk', loaded', has).
            let key_same : sk ≡ sk' = cc in
            let equal : bytes_equal (key_id C sk) id ≡ true =
              rw (key_same, has) (bytes_equal_refl id) in
            cc),
        none_has,
      )
