-- ===== src/Provider/Applese/Search.antt =====
-- Keys and PrivateKeyByLabel of ecdh/applese/applese.go over the documented keychain.
use go_skes.Prelude.{
  ℕ, ◌≡◌, ◌≢◌, refl, ap, Bool-cases, inl, inr, List, [], ◌∷◌, Option, Any, Bytes, ◌==◌, arith, ok,
}
use go_skes.Prelude.Exec.{Exec, lift, ◌>>=◌, ◌>>◌}
use go_skes.Prelude.Post.{Post, Post-bind}
use go_skes.Ecdh.PublicKey.{Crypto}
use go_skes.Ecdh.Applese
use go_skes.Ecdh.Applese.{
  Ref, OsStatus, success, fault, tag, Framework, deferred, new_cf_data, new_cf_dictionary,
  go_status, copy_refs, found_keys, query_keys, private_key_by_label,
}
use go_skes.Provider.Applese.Keychain.{
  Item, Refs, all_query, one_query, View, Adds, Kept, Own, Keychain,
}
use go_skes.Provider.Applese.Ownership.{
  Adds-Kept, Drops-Kept, Drops-Own, Adds-Own, Refs-map, retain_all-Own, Droppable, Since,
  deferred-Post,
}

module _ {S : Type 0} (F : Framework S) (C : Crypto) (D : Keychain F C) where
  abbrev V : View S
  V = D.view

  -- The data that a call makes.
  abbrev pub Data : Bytes → S → Ref → S → Type 0
  Data d s r s' = Adds V s r s' × V.IsData s' r d

  pub new_cf_data-Post : (d : Bytes) (s : S) → Post (Data d s) (Since F C D s) (new_cf_data F d) s
  unfolding new_cf_data
  new_cf_data-Post d s =
      let made = F.data_create d s in
      let (nothing, something) = D.data_lem d s in
      elim (Bool-cases (made.1 == 0)) [
        | inl none_made ↦ rw none_made (nothing (ground (arith, none_made)))
        | inr there ↦ rw there (something (ground (arith, there)))
      ]

  -- A reference of the program's own to each key of the chain.
  abbrev pub AllKeys : S → List Ref → S → Type 0
  AllKeys s refs s' = Kept V s s' × Refs (λ k it. Own V s k it s') refs (V.chain s)

  AllKeys-Droppable : Droppable F C D AllKeys
  AllKeys-Droppable s0 r s1 refs s2 s3 adds drops (kept, own) = (
    Drops-Kept V s0 r s1 s2 s3 adds kept drops,
    Refs-map V (λ k it. Own V s1 k it s2) (λ k it. Own V s0 k it s3) refs (V.chain s0)
        (λ k it o. Drops-Own V s0 r s1 k it s2 s3 adds o drops) (rw adds.0 at own),
  )

  copy_refs-Post :
      (s : S) (refs : List Ref)
      → refs ≢ []
      → Refs (V.IsKey s) refs (V.chain s)
      → Post (AllKeys s) (Since F C D s) (copy_refs F refs) s
  copy_refs-Post s [] h is = absurd (h refl)
  copy_refs-Post s (r ∷ refs) h is = retain_all-Own F C D (r ∷ refs) (V.chain s) s is

  found_keys-Post :
      (s0 s : S) (status : OsStatus) (result : Ref)
      → (status ≡ success
          → Adds V s0 result s
            × (F.array_values result s ≢ [])
            × Refs (V.IsKey s) (F.array_values result s) (V.chain s0))
      → ((v : ℕ) → status ≡ fault v → Kept V s0 s)
      → (status ≡ fault Applese.key_not_found → V.chain s0 ≡ [])
      → Post (AllKeys s0) (Since F C D s0) (found_keys F status result) s
  unfolding found_keys
  found_keys-Post s0 s success result found failed nothing =
      let (adds, some_found, is) = found refl in
      deferred-Post F C D AllKeys s0 result s s (copy_refs F (F.array_values result s))
        AllKeys-Droppable adds
        (copy_refs-Post s (F.array_values result s) some_found (rw adds.0 is))
  found_keys-Post s0 s (fault v) result found failed nothing =
      elim (Bool-cases (v == Applese.key_not_found)) [
        | inl absent ↦
            let same : v ≡ Applese.key_not_found = ground (arith, absent) in
            let empty : V.chain s0 ≡ [] = nothing (ap fault same) in
            rw absent (failed v refl, rw empty tt)
        | inr other ↦ rw other (failed v refl)
      ]

  -- Keys returns a reference to each key, which the caller owns.
  pub keys-Post : (s : S) → Post (AllKeys s) (Since F C D s) (Applese.keys F Option.none) s
  unfolding Applese.keys query_keys new_cf_dictionary
  keys-Post s =
      let made = F.dictionary_create all_query s in
      let (adds, is_query) = D.dictionary_lem all_query s in
      let found = F.item_copy_matching made.1 made.0 in
      let (has, failed, nothing) = D.all_lem made.1 made.0 is_query in
      deferred-Post F C D AllKeys s made.1 made.0 made.0
        (λ s'.
          let found' = F.item_copy_matching made.1 s' in found_keys F found'.1 found'.2 found'.0)
        AllKeys-Droppable adds (found_keys-Post made.0 found.0 found.1 found.2 has failed nothing)

  -- A reference of the program's own to a key of the chain with this label.
  abbrev pub Labelled : Bytes → S → Ref → S → Type 0
  Labelled l s k s' =
      Kept V s s' × (it : Item) × Own V s k it s' × Any (λ i. i ≡ it) (V.chain s) × (it.label ≡ l)

  Labelled-Droppable : (l : Bytes) → Droppable F C D (Labelled l)
  Labelled-Droppable l s0 r s1 k s2 s3 adds drops (kept, it, own, there, named) = (
    Drops-Kept V s0 r s1 s2 s3 adds kept drops,
    it,
    Drops-Own V s0 r s1 k it s2 s3 adds own drops,
    rw adds.0 at there,
    named,
  )

  matched-Post :
      (s0 s : S) (l : Bytes) (status : OsStatus) (k : Ref)
      → (status ≡ success
          → Adds V s0 k s
            × (it : Item) × V.IsKey s k it
            × Any (λ i. i ≡ it) (V.chain s0)
            × (it.label ≡ l))
      → ((v : ℕ) → status ≡ fault v → Kept V s0 s)
      → Post (Labelled l s0) (Since F C D s0) (go_status F status >> lift (ok k)) s
  unfolding go_status
  matched-Post s0 s l success k found failed =
      let (adds, it, is, there, named) = found refl in
      (Adds-Kept V s0 k s adds, it, Adds-Own V s0 k it s adds is, there, named)
  matched-Post s0 s l (fault v) k found failed = failed v refl

  -- The parts of PrivateKeyByLabel behind the data of the tag, and of the label.
  abbrev search_one : Ref → Ref → Exec S Applese.Error Ref
  search_one tag_ref label_ref = do
    query ← new_cf_dictionary F (one_query tag_ref label_ref)
    deferred F query (λ s'.
        let found = F.item_copy_matching query s' in
        (go_status F found.1 >> lift (ok found.2)) found.0)

  abbrev search_label : Bytes → Ref → Exec S Applese.Error Ref
  search_label l tag_ref = do
    label_ref ← new_cf_data F l
    deferred F label_ref (search_one tag_ref label_ref)

  query-Post :
      (s : S) (l : Bytes) (tag_ref label_ref : Ref)
      → V.IsData s tag_ref tag
      → V.IsData s label_ref l
      → Post (Labelled l s) (Since F C D s) (search_one tag_ref label_ref) s
  unfolding new_cf_dictionary
  query-Post s l tag_ref label_ref is_tag is_label =
      let made = F.dictionary_create (one_query tag_ref label_ref) s in
      let (adds, is_query) = D.dictionary_lem (one_query tag_ref label_ref) s in
      let (chain, held, key, datum) = adds in
      let found = F.item_copy_matching made.1 made.0 in
      let (has, failed) =
        D.one_lem tag_ref label_ref made.1 l made.0 (datum tag_ref tag is_tag)
          (datum label_ref l is_label) is_query in
      deferred-Post F C D (Labelled l) s made.1 made.0 made.0
        (λ s'.
          let found' = F.item_copy_matching made.1 s' in
          (go_status F found'.1 >> lift (ok found'.2)) found'.0)
        (Labelled-Droppable l) adds (matched-Post made.0 found.0 l found.1 found.2 has failed)

  -- PrivateKeyByLabel returns a key with the label, in a reference that the caller owns.
  pub private_key_by_label-Post :
      (l : Bytes) (s : S) → Post (Labelled l s) (Since F C D s) (private_key_by_label F l) s
  unfolding private_key_by_label
  private_key_by_label-Post l s =
      Post-bind (Data tag s) (Labelled l s) (Since F C D s) (new_cf_data F tag)
        (λ tag_ref. deferred F tag_ref (search_label l tag_ref)) s (new_cf_data-Post tag s)
        λ tag_ref s1 (adds, is_tag).
          deferred-Post F C D (Labelled l) s tag_ref s1 s1 (search_label l tag_ref)
            (Labelled-Droppable l) adds
            (Post-bind (Data l s1) (Labelled l s1) (Since F C D s1) (new_cf_data F l)
              (λ label_ref. deferred F label_ref (search_one tag_ref label_ref)) s1
              (new_cf_data-Post l s1)
              λ label_ref s2 (adds', is_label).
                let (chain, held, key, datum) = adds' in
                deferred-Post F C D (Labelled l) s1 label_ref s2 s2 (search_one tag_ref label_ref)
                  (Labelled-Droppable l) adds'
                  (query-Post s2 l tag_ref label_ref (datum tag_ref tag is_tag) is_label))
