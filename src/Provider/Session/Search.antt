-- ===== src/Provider/Session/Search.antt =====
-- provider/file.go: how the loops over the map of the keys end, by the bindings of the map.
use go_skes.Prelude.{
  ◌≡◌, ◌≢◌, refl, ◌⊎◌, inl, inr, List, [], ◌∷◌, Option, none, some, All, Any, bytes_equal,
  bytes_equal→eq, bytes_equal_refl, Bytes, Outcome, ok, err, panic, stuck, Bool-cases, ◌>>=◌,
}
use go_skes.Provider.File.{
  Error, not_exist, load_key, Crypto, load_private_key, key_id, id_loop, file_loop,
}
use go_skes.Provider.Lookup.{HasId, load_private_key-some}

module _ (C : Crypto) where
  pub load_cases :
      (key : Bytes)
      → ((sk : C.Key) × (C.new_private_key key ≡ some sk)) ⊎ (C.new_private_key key ≡ none)
  load_cases key = go (C.new_private_key key)
    where
      go : (o : Option C.Key) → ((sk : C.Key) × (o ≡ some sk)) ⊎ (o ≡ none)
      go none = inr refl
      go (some sk) = inl (sk, refl)

  pub load_private_key-none :
      (key : Bytes) → C.new_private_key key ≡ none → load_private_key C key ≡ err load_key
  unfolding load_private_key
  load_private_key-none key e = rw (load_private_key, e)

  -- The bytes are a key with another identifier.
  abbrev pub Other : Bytes → Bytes → Type 0
  Other id key = (sk : C.Key) × (C.new_private_key key ≡ some sk) × (key_id C sk ≢ id)

  module _ (P : Bytes × Bytes → Type 0) where
    -- A binding that is no key.
    abbrev pub NoKey : Error → Type 0
    NoKey e = (e ≡ load_key) × ((b : Bytes × Bytes) × P b × (C.new_private_key b.1 ≡ none))

    -- The search ends at a binding with the identifier, or at one that is no key; or all of them are
    -- keys with other identifiers.
    abbrev pub Found : Bytes → List (Bytes × Bytes) → Outcome Error Bytes → Type 0
    Found id l (ok name) = (key : Bytes) × P (name, key) × HasId C id key
    Found id l (err e) = NoKey e ⊎ ((e ≡ not_exist) × All (λ b. Other id b.1) l)
    Found id l panic = ⊥
    Found id l stuck = ⊥

    Found-cons :
        (id : Bytes) (b : Bytes × Bytes) (l : List (Bytes × Bytes)) (r : Outcome Error Bytes)
        → Other id b.1
        → Found id l r
        → Found id (b ∷ l) r
    Found-cons id b l (ok name) other h = h
    Found-cons id b l (err e) other (inl stops) = inl stops
    Found-cons id b l (err e) other (inr (missing, hs)) = inr (missing, (other, hs))
    Found-cons id b l panic other h = h
    Found-cons id b l stuck other h = h

    pub file_loop-Found :
        (id : Bytes) (l : List (Bytes × Bytes)) → All P l → Found id l (file_loop C id l)
    unfolding file_loop
    file_loop-Found id [] hs = inr (refl, tt)
    file_loop-Found id ((n, key) ∷ l) (h, hs) = elim (load_cases key) [
      | inr broken ↦ rw (load_private_key-none key broken) (inl (refl, ((n, key), h, broken)))
      | inl (sk, loaded) ↦
          rw (load_private_key-some C key sk loaded)
            (elim (Bool-cases (bytes_equal (key_id C sk) id)) [
              | inl same ↦ rw same (key, h, (sk, loaded, bytes_equal→eq (key_id C sk) id same))
              | inr differs ↦ rw differs (
                  Found-cons id (n, key) l (file_loop C id l)
                    (sk, loaded, λ same. let t = rw same at differs in cc (bytes_equal_refl id))
                    (file_loop-Found id l hs))
            ])
    ]

    -- The listing has the identifier of each binding, and no others; or a binding is no key.
    abbrev pub Lists : List (Bytes × Bytes) → Outcome Error (List Bytes) → Type 0
    Lists l (ok ids) =
        All (λ id. (b : Bytes × Bytes) × P b × HasId C id b.1) ids
        × All
            (λ b.
              (sk : C.Key) × (C.new_private_key b.1 ≡ some sk) × Any (λ id. id ≡ key_id C sk) ids)
            l
    Lists l (err e) = NoKey e
    Lists l panic = ⊥
    Lists l stuck = ⊥

    All-more :
        (id : Bytes) (ids : List Bytes) (l : List (Bytes × Bytes))
        → All
            (λ b. (sk : C.Key) × (C.new_private_key b.1 ≡ some sk) × Any (λ i. i ≡ key_id C sk) ids)
            l
        → All
            (λ b.
              (sk : C.Key) × (C.new_private_key b.1 ≡ some sk)
              × Any (λ i. i ≡ key_id C sk) (id ∷ ids))
            l
    All-more id ids [] hs = tt
    All-more id ids (b ∷ l) ((sk, loaded, any), hs) = ((sk, loaded, inr any), All-more id ids l hs)

    Lists-cons :
        (b : Bytes × Bytes) (l : List (Bytes × Bytes)) (sk : C.Key) (r : Outcome Error (List Bytes))
        → P b
        → C.new_private_key b.1 ≡ some sk
        → Lists l r
        → Lists (b ∷ l) (r >>= λ ids. ok (key_id C sk ∷ ids))
    Lists-cons b l sk (ok ids) h loaded (sound, complete) = (
      ((b, h, (sk, loaded, refl)), sound),
      ((sk, loaded, inl refl), All-more (key_id C sk) ids l complete),
    )
    Lists-cons b l sk (err e) h loaded stops = stops
    Lists-cons b l sk panic h loaded x = x
    Lists-cons b l sk stuck h loaded x = x

    pub id_loop-Lists : (l : List (Bytes × Bytes)) → All P l → Lists l (id_loop C l)
    unfolding id_loop
    id_loop-Lists [] hs = (tt, tt)
    id_loop-Lists ((n, key) ∷ l) (h, hs) = elim (load_cases key) [
      | inr broken ↦ rw (load_private_key-none key broken) (refl, ((n, key), h, broken))
      | inl (sk, loaded) ↦
          rw (load_private_key-some C key sk loaded)
            (Lists-cons (n, key) l sk (id_loop C l) h loaded (id_loop-Lists l hs))
    ]
