-- ===== src/Provider/Ykoath/Search.antt =====
-- provider/ykoath.go: the search for a key by its identifier.
use go_skes.Prelude.{
  Any, ◌≡◌, ◌≢◌, refl, sym, ◌⊎◌, inl, inr, List, [], ◌∷◌, some, All, bytes_equal, bytes_equal→eq,
  bytes_equal_refl, Bytes, ◌∙◌, Bool-cases,
}
use go_skes.Prelude.Post.{Post, Post-bind, Ensures-weaken}
use go_skes.Provider.Ykoath.{
  Slot, Applet, Error, not_exist, from_card, key_id, name_loop, name_by_id,
}
use go_skes.Provider.Ykoath.Behaviour.{
  Cred, Vault, Known, Documented, FromCard, ident, IsKey, Same, Failed, IdOf, key_id-Post,
  Known-key, Known-other, Listed, list-Post,
}

module _ (A : Applet) (D : Documented A) where
  -- The name is that of a key with this identifier.
  abbrev pub Named : Vault A → Bytes → Bytes → Type 0
  Named v id n = (k : Cred A.Algorithm) × IsKey A D v n k × (ident A D k ≡ id)

  -- A search that fails: in the library, or with os.ErrNotExist where none of the slots is a key
  -- with this identifier.
  abbrev NoneOf : Vault A → Bytes → List (Slot A.Algorithm) → Error A.Failure → A.Card → Type 0
  NoneOf v id slots e s =
      Same A D v s
      × (FromCard e
          ⊎ ((e ≡ not_exist)
              × ((n : Bytes) (k : Cred A.Algorithm)
                  → IsKey A D v n k
                  → Any (λ slot. slot.name ≡ n) slots
                  → ident A D k ≢ id)))

  NoneOf-cons :
      (v : Vault A) (id : Bytes) (slot : Slot A.Algorithm) (slots : List (Slot A.Algorithm))
      (e : Error A.Failure) (s : A.Card)
      → ((k : Cred A.Algorithm) → IsKey A D v slot.name k → ident A D k ≢ id)
      → NoneOf v id slots e s
      → NoneOf v id (slot ∷ slots) e s
  NoneOf-cons v id slot slots e s first (same, inl f) = (same, inl f)
  NoneOf-cons v id slot slots e s first (same, inr (missing, rest)) = (
    same,
    inr (
      missing,
      λ n k is_key any. elim any [
        | inl here ↦ first k (rw here is_key.0, is_key.1)
        | inr later ↦ rest n k is_key later
      ],
    ),
  )

  NoneOf-skip :
      (v : Vault A) (id : Bytes) (slot : Slot A.Algorithm) (slots : List (Slot A.Algorithm))
      (s : A.Card)
      → ((k : Cred A.Algorithm) → IsKey A D v slot.name k → ident A D k ≢ id)
      → Post (λ n s'. Same A D v s' × Named v id n) (NoneOf v id slots) (name_loop A id slots) s
      → Post
          (λ n s'. Same A D v s' × Named v id n)
          (NoneOf v id (slot ∷ slots))
          (name_loop A id slots)
          s
  NoneOf-skip v id slot slots s first h =
      Ensures-weaken (λ n s'. Same A D v s' × Named v id n) (λ n s'. Same A D v s' × Named v id n)
        (NoneOf v id slots) (NoneOf v id (slot ∷ slots)) (name_loop A id slots s).0
        (name_loop A id slots s).1 (λ n p. p)
        (λ e. NoneOf-cons v id slot slots e (name_loop A id slots s).0 first) h

  name_loop-Post :
      (v : Vault A) (id : Bytes) (slots : List (Slot A.Algorithm))
      → All (Known A v) slots
      → (s : A.Card) → Same A D v s
      → Post (λ n s'. Same A D v s' × Named v id n) (NoneOf v id slots) (name_loop A id slots) s
  unfolding name_loop
  name_loop-Post v id [] known s same = (same, inr (refl, λ n k is_key any. absurd any))
  name_loop-Post v id (slot ∷ slots) (known_slot, later) s same =
      elim (Bool-cases (A.same_algorithm slot.algorithm A.hmac_sha256)) [
        | inl is ↦ rw is (
            Post-bind (IdOf A D v slot.name) (λ n s'. Same A D v s' × Named v id n)
              (NoneOf v id (slot ∷ slots)) (key_id A slot.name) _ s
              (Ensures-weaken (IdOf A D v slot.name) (IdOf A D v slot.name) (Failed A D v)
                (NoneOf v id (slot ∷ slots)) (key_id A slot.name s).0 (key_id A slot.name s).1
                (λ a h. h) (λ e (same', f). (same', inl f)) (key_id-Post A D v slot.name s same))
              λ key s' (same', (k, there, made)). elim (Bool-cases (bytes_equal key id)) [
                | inl found ↦ rw found (
                  same',
                  (
                    k,
                    (there, Known-key A D v slot k known_slot is there),
                    sym made ∙ bytes_equal→eq key id found,
                  ),
                )
                | inr differs ↦ rw differs (
                    NoneOf-skip v id slot slots s'
                      (λ k' is_key e.
                        let found : key ≡ id = cc in cc (rw found at differs, bytes_equal_refl id))
                      (name_loop-Post v id slots later s' same'))
              ])
        | inr other ↦ rw other (
            NoneOf-skip v id slot slots s
              (λ k is_key e. Known-other A D v slot k known_slot other is_key)
              (name_loop-Post v id slots later s same))
      ]

  -- No key has this identifier, or the library failed.
  abbrev pub NotFound : Vault A → Bytes → Error A.Failure → A.Card → Type 0
  NotFound v id e s =
      Same A D v s
      × (FromCard e
          ⊎ ((e ≡ not_exist)
              × ((n : Bytes) (k : Cred A.Algorithm) → IsKey A D v n k → ident A D k ≢ id)))

  NoneOf-all :
      (v : Vault A) (id : Bytes) (slots : List (Slot A.Algorithm)) (e : Error A.Failure)
      (s : A.Card)
      → ((n : Bytes) (k : Cred A.Algorithm) → v n ≡ some k → Any (λ slot. slot.name ≡ n) slots)
      → NoneOf v id slots e s
      → NotFound v id e s
  NoneOf-all v id slots e s complete (same, inl f) = (same, inl f)
  NoneOf-all v id slots e s complete (same, inr (missing, rest)) =
      (same, inr (missing, λ n k is_key. rest n k is_key (complete n k is_key.0)))

  -- nameByID finds the name of a key with the identifier, and fails with os.ErrNotExist where there
  -- is none.
  pub name_by_id-Post :
      (v : Vault A) (id : Bytes) (s : A.Card)
      → Same A D v s
      → Post (λ n s'. Same A D v s' × Named v id n) (NotFound v id) (name_by_id A id) s
  unfolding name_by_id
  name_by_id-Post v id s same =
      Post-bind (Listed A D v) (λ n s'. Same A D v s' × Named v id n) (NotFound v id)
        (from_card A.list) (name_loop A id) s
        (Ensures-weaken (Listed A D v) (Listed A D v) (Failed A D v) (NotFound v id)
          (from_card A.list s).0 (from_card A.list s).1 (λ a h. h) (λ e (same', f). (same', inl f))
          (list-Post A D v s same))
        λ slots s' (same', known, complete).
          Ensures-weaken (λ n s''. Same A D v s'' × Named v id n)
            (λ n s''. Same A D v s'' × Named v id n) (NoneOf v id slots) (NotFound v id)
            (name_loop A id slots s').0 (name_loop A id slots s').1 (λ n p. p)
            (λ e. NoneOf-all v id slots e (name_loop A id slots s').0 complete)
            (name_loop-Post v id slots known s' same')
