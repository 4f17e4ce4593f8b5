-- ===== src/Ecdh/Applese/Balance.antt =====
-- ecdh/applese/applese.go: the objects of Core Foundation that the calls leave behind.
use go_skes.Prelude.{
  ℕ, zero, suc, ◌+◌, ◌-◌, ◌≡◌, ap, ◌∙◌, Bool, List, [], ◌∷◌, Option, none, some, ◌==◌, arith,
  length, if◌then◌else◌, Bytes, Outcome, ok, Bool-cases, inl, inr,
}
use go_skes.Prelude.Exec.{Exec, lift, ◌>>=◌, ◌>>◌}
use go_skes.Ecdh.Applese.{
  Ref, AttrName, AttrValue, Attrs, OsStatus, success, fault, Framework, Error, key_not_found,
  duplicate_item, tag, deferred, new_cf_data, new_cf_dictionary, go_status, after_delete,
  delete_loop, remove_key, retain_all, copy_refs, found_keys, query_keys, keys,
  private_key_by_label,
}

-- The references after a query, which gives one more where it finds something.
abbrev pub matched : OsStatus → ℕ → ℕ
matched success n = suc n
matched (fault v) n = n

-- How many objects a result holds: none where the call failed.
abbrev pub held : {E A : Type 0} → (A → ℕ) → Outcome E A → ℕ
held size (ok a) = size a
held size other = 0

module _ {S : Type 0} (F : Framework S) where
  -- The documented behaviour of the framework: how many references are held. A call that creates or
  -- copies an object adds one, which CFRelease gives back.
  pub record Counted : Type 0 where
    pub live : S → ℕ
    pub data_lem :
        (d : Bytes) (s : S)
        → live (F.data_create d s).0 ≡ (if (F.data_create d s).1 == 0 then live s else suc (live s))
    pub dictionary_lem : (m : Attrs) (s : S) → live (F.dictionary_create m s).0 ≡ suc (live s)
    pub release_lem : (r : Ref) (s : S) → live (F.release r s) ≡ live s - 1
    pub retain_lem : (r : Ref) (s : S) → live (F.retain r s) ≡ suc (live s)
    pub delete_lem : (q : Ref) (s : S) → live (F.item_delete q s).0 ≡ live s
    pub matching_lem :
        (q : Ref) (s : S)
        → live (F.item_copy_matching q s).0 ≡ matched (F.item_copy_matching q s).1 (live s)

  module _ (D : Counted) {A : Type 0} (size : A → ℕ) where
    -- From `n` references the call leaves those that its result holds besides.
    abbrev pub Leaves : Exec S Error A → ℕ → Type 0
    Leaves m n = (s : S) → D.live s ≡ n → D.live (m s).0 ≡ held size (m s).1 + n

    -- What is released at the end is one reference less.
    deferred-live :
        (r : Ref) (m : Exec S Error A) (n : ℕ)
        → Leaves m (suc n)
        → (s : S) → D.live s ≡ suc n
        → D.live (deferred F r m s).0 ≡ held size (m s).1 + n
    deferred-live r m n h s e = omega (arith, D.release_lem r (m s).0, h s e)

    Leaves-data :
        (d : Bytes) (f : Ref → Exec S Error A) (n : ℕ)
        → ((r : Ref) → Leaves (f r) (suc n))
        → Leaves (do r ← new_cf_data F d; deferred F r (f r)) n
    unfolding new_cf_data
    Leaves-data d f n h s e = elim (Bool-cases ((F.data_create d s).1 == 0)) [
      | inl nothing ↦ rw nothing (omega (arith, rw nothing at (D.data_lem d s)))
      | inr made ↦ rw made (
          deferred-live (F.data_create d s).1 (f (F.data_create d s).1) n (h (F.data_create d s).1)
            (F.data_create d s).0 (rw made at (D.data_lem d s) ∙ ap suc e))
    ]

    Leaves-dictionary :
        (a : AttrName × AttrValue) (m : Attrs) (f : Ref → Exec S Error A) (n : ℕ)
        → ((r : Ref) → Leaves (f r) (suc n))
        → Leaves (do r ← new_cf_dictionary F (a ∷ m); deferred F r (f r)) n
    unfolding new_cf_dictionary
    Leaves-dictionary a m f n h s e =
        let made = F.dictionary_create (a ∷ m) s in
        deferred-live made.1 (f made.1) n (h made.1) made.0 (D.dictionary_lem (a ∷ m) s ∙ ap suc e)

  module _ (D : Counted) where
    after_delete-live :
        (m : Exec S Error Bool) (n : ℕ) (r : S × OsStatus)
        → Leaves D (λ b. 0) m n
        → D.live r.0 ≡ n
        → D.live (after_delete F m r).0 ≡ held (λ b. 0) (after_delete F m r).1 + n
    unfolding after_delete go_status
    after_delete-live m n (s, success) again h = omega arith
    after_delete-live m n (s, fault v) again h = elim (Bool-cases (v == duplicate_item)) [
      | inl once_more ↦ rw once_more (again s h)
      | inr failed ↦ rw failed (omega arith)
    ]

    delete_loop-Leaves : (fuel : ℕ) (q : Ref) (n : ℕ) → Leaves D (λ b. 0) (delete_loop F fuel q) n
    unfolding delete_loop
    delete_loop-Leaves zero q n s e = omega arith
    delete_loop-Leaves (suc fuel) q n s e =
        after_delete-live (delete_loop F fuel q) n (F.item_delete q s) (delete_loop-Leaves fuel q n)
          (D.delete_lem q s ∙ e)

    remove_key-Leaves :
        (fuel : ℕ) (key : Bytes) (n : ℕ) → Leaves D (λ b. 0) (remove_key F fuel key) n
    unfolding remove_key
    remove_key-Leaves fuel key n =
        Leaves-data D (λ b. 0) tag _ n
          λ cf_tag.
            Leaves-data D (λ b. 0) key _ (suc n)
              λ cf_app_label.
                Leaves-dictionary D (λ b. 0) _ _ _ (suc (suc n))
                  λ query. delete_loop-Leaves fuel query (suc (suc (suc n)))

    retain_all-live :
        (refs : List Ref) (s : S) → D.live (retain_all F refs s) ≡ length refs + D.live s
    retain_all-live [] s = omega arith
    retain_all-live (r ∷ refs) s =
        omega (arith, retain_all-live refs (F.retain r s), D.retain_lem r s)

    copy_refs-Leaves : (refs : List Ref) (n : ℕ) → Leaves D length (copy_refs F refs) n
    copy_refs-Leaves [] n s e = omega arith
    copy_refs-Leaves (r ∷ refs) n s e = omega (arith, retain_all-live (r ∷ refs) s)

    -- The end of Keys, behind its query.
    found_keys-live :
        (st : OsStatus) (result : Ref) (n : ℕ) (s : S)
        → D.live s ≡ matched st n
        → D.live (found_keys F st result s).0 ≡ held length (found_keys F st result s).1 + n
    unfolding found_keys
    found_keys-live success result n s h =
        deferred-live D length result (copy_refs F (F.array_values result s)) n
          (copy_refs-Leaves (F.array_values result s) (suc n)) s h
    found_keys-live (fault v) result n s h = elim (Bool-cases (v == key_not_found)) [
      | inl missing ↦ rw missing (omega arith)
      | inr failed ↦ rw failed (omega arith)
    ]

    query_keys-Leaves :
        (a : AttrName × AttrValue) (m : Attrs) (n : ℕ) → Leaves D length (query_keys F (a ∷ m)) n
    unfolding query_keys
    query_keys-Leaves a m n = Leaves-dictionary D length a m _ n λ query s e.
        let found = F.item_copy_matching query s in
        found_keys-live found.1 found.2 (suc n) found.0
          (D.matching_lem query s ∙ ap (matched found.1) e)

    keys-Leaves : (hash : Option Bytes) (n : ℕ) → Leaves D length (keys F hash) n
    unfolding keys
    keys-Leaves none n = query_keys-Leaves _ _ n
    keys-Leaves (some hash) n =
        Leaves-data D length hash _ n λ cf_app_label. query_keys-Leaves _ _ (suc n)

    by_label-live :
        (st : OsStatus) (result : Ref) (n : ℕ) (s : S)
        → D.live s ≡ matched st n
        → D.live ((go_status F st >> lift (ok result)) s).0
          ≡ held (λ r. 1) ((go_status F st >> lift (ok result)) s).1 + n
    unfolding go_status
    by_label-live success result n s h = omega arith
    by_label-live (fault v) result n s h = omega arith

    private_key_by_label-Leaves :
        (key : Bytes) (n : ℕ) → Leaves D (λ r. 1) (private_key_by_label F key) n
    unfolding private_key_by_label
    private_key_by_label-Leaves key n =
        Leaves-data D (λ r. 1) tag _ n
          λ cf_tag.
            Leaves-data D (λ r. 1) key _ (suc n)
              λ cf_app_label.
                Leaves-dictionary D (λ r. 1) _ _ _ (suc (suc n))
                  λ query s e.
                    let found = F.item_copy_matching query s in
                    by_label-live found.1 found.2 (suc (suc (suc n))) found.0
                      (D.matching_lem query s ∙ ap (matched found.1) e)

    -- Where each call that makes or copies an object adds one reference, and a release gives one
    -- back, RemoveKey, Keys and PrivateKeyByLabel release every object that they create, however they
    -- end: besides those that were held before, a call leaves only the keys that it returns.
    pub keys-Leaves_all :
        (fuel : ℕ) (key : Bytes) (hash : Option Bytes) (n : ℕ)
        → Leaves D (λ (b : Bool). 0) (remove_key F fuel key) n
          × Leaves D length (keys F hash) n
          × Leaves D (λ (r : Ref). 1) (private_key_by_label F key) n
    keys-Leaves_all fuel key hash n =
        (remove_key-Leaves fuel key n, keys-Leaves hash n, private_key_by_label-Leaves key n)
