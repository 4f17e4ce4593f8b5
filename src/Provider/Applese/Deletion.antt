-- ===== src/Provider/Applese/Deletion.antt =====
-- DestroyKey of provider/applese.go over the documented keychain.
use go_skes.Prelude.{
  ℕ, zero, suc, ◌≤◌, ◌≡◌, refl, ap, ◌∙◌, Bool, true, Bool-cases, inl, inr, List, [], ◌∷◌, ◌++◌, Any,
  Bytes, bytes_equal, if◌then◌else◌, ◌==◌, arith, Outcome,
}
use go_skes.Prelude.Exec.{Exec, lift, ◌>>=◌}
use go_skes.Prelude.Post.{Ensures, Post, Post-bind, Ensures-weaken}
use go_skes.Ecdh.PublicKey.{Crypto}
use go_skes.Ecdh.Applese
use go_skes.Ecdh.Applese.{
  Ref, Attrs, OsStatus, success, fault, tag, duplicate_item, private_keys, application_label, ref,
  Framework, deferred, new_cf_data, new_cf_dictionary, go_status, after_delete, delete_loop,
  remove_key,
}
use go_skes.Provider.Applese.{enclave, from_enclave, key_label, removed, destroy_key}
use go_skes.Provider.Applese.Keychain.{Item, View, Kept, Keychain}
use go_skes.Provider.Applese.Ownership.{Kept-refl, Kept-trans, Droppable, Since, deferred-Post}
use go_skes.Provider.Applese.Search.{Data, new_cf_data-Post}
use go_skes.Provider.Applese.Opening.{Ensures-enclave, enclave-ne, Chosen, Refused, key_label-Post}

-- The query of RemoveKey.
abbrev pub delete_query : Ref → Attrs
delete_query label_ref = private_keys ++ ((application_label, ref label_ref) ∷ [])

abbrev pub without : Bytes → List Item → List Item
without l [] = []
without l (it ∷ items) = if bytes_equal it.label l then without l items else it ∷ without l items

module _ {S : Type 0} (F : Framework S) (C : Crypto) (D : Keychain F C) where
  abbrev V : View S
  V = D.view

  -- The keys are those of a world but the ones with a label, and the program owns all references that
  -- it did.
  abbrev pub Without : S → Bytes → S → Type 0
  Without s0 l s' = (V.chain s' ≡ without l (V.chain s0)) × ((r : Ref) → V.held s0 r ≤ V.held s' r)

  -- SecItemDelete deletes the keys with the label, or leaves all keys; it says errSecDuplicateItem
  -- fewer than `n` times in a row.
  abbrev pub Deletes : ℕ → Bytes → Ref → S → Type 0
  Deletes zero l q s = ⊥
  Deletes (suc n) l q s =
      let gone = F.item_delete q s in
      (gone.1 ≡ success → Without s l gone.0)
      × ((v : ℕ) → gone.1 ≡ fault v → Kept V s gone.0)
      × (gone.1 ≡ fault duplicate_item → Deletes n l q gone.0)

  pub record Deleting : Type 0 where
    pub limit : ℕ
    pub delete_lem :
        (label_ref q : Ref) (l : Bytes) (s : S)
        → V.IsData s label_ref l
        → V.IsQuery s q (delete_query label_ref)
        → Deletes limit l q s

  abbrev Gone : Bytes → S → Bool → S → Type 0
  Gone l s0 found s' = (found ≡ true) × Without s0 l s'

  Gone-Droppable : (l : Bytes) → Droppable F C D (Gone l)
  Gone-Droppable l s0 r s1 found s2 s3 (chain, held, key, datum) (chain', held', key', datum')
        (is, (gone, more)) =
      (
        is,
        (chain' ∙ (gone ∙ ap (without l) chain), λ r'. omega (arith, held r', held' r', more r')),
      )

  after_delete-Post :
      (again : S → S × Outcome Applese.Error Bool) (s0 : S) (l : Bytes) (s : S) (status : OsStatus)
      → (status ≡ success → Without s0 l s)
      → ((v : ℕ) → status ≡ fault v → Kept V s0 s)
      → (status ≡ fault duplicate_item → Post (Gone l s0) (Since F C D s0) again s)
      → Ensures
          (Gone l s0)
          (Since F C D s0)
          (after_delete F again (s, status)).0
          (after_delete F again (s, status)).1
  unfolding after_delete go_status
  after_delete-Post again s0 l s success gone kept more = (refl, gone refl)
  after_delete-Post again s0 l s (fault v) gone kept more =
      elim (Bool-cases (v == duplicate_item)) [
        | inl same ↦
            let is : v ≡ duplicate_item = ground (arith, same) in rw same (more (ap fault is))
        | inr other ↦ rw other (kept v refl)
      ]

  delete_loop-Post :
      (n fuel : ℕ) (s0 s : S) (l : Bytes) (q : Ref)
      → n ≤ fuel
      → Kept V s0 s
      → Deletes n l q s
      → Post (Gone l s0) (Since F C D s0) (delete_loop F fuel q) s
  unfolding delete_loop
  delete_loop-Post zero fuel s0 s l q le since h = absurd h
  delete_loop-Post (suc n) zero s0 s l q le since h = absurd (omega (arith, le))
  delete_loop-Post (suc n) (suc fuel) s0 s l q le since (gone, kept, more) =
      let r = F.item_delete q s in
      let (chain, held, key, datum) = since in
      after_delete-Post (delete_loop F fuel q) s0 l r.0 r.1
        (λ h. (rw (← chain) (gone h).0, λ r'. omega (arith, held r', (gone h).1 r')))
        (λ v h. Kept-trans V s0 s r.0 since (kept v h))
        (λ h.
          delete_loop-Post n fuel s0 r.0 l q (omega (arith, le))
            (Kept-trans V s0 s r.0 since (kept duplicate_item h)) (more h))

  -- The parts of RemoveKey behind the data of the tag, and of the label.
  abbrev delete_all : ℕ → Ref → Exec S Applese.Error Bool
  delete_all fuel label_ref = do
    query ← new_cf_dictionary F (delete_query label_ref)
    deferred F query (delete_loop F fuel query)

  abbrev delete_label : ℕ → Bytes → Exec S Applese.Error Bool
  delete_label fuel l = do
    label_ref ← new_cf_data F l
    deferred F label_ref (delete_all fuel label_ref)

  module _ (M : Deleting) (fuel : ℕ) (enough : M.limit ≤ fuel) where
    delete_all-Post :
        (s : S) (l : Bytes) (label_ref : Ref)
        → V.IsData s label_ref l
        → Post (Gone l s) (Since F C D s) (delete_all fuel label_ref) s
    unfolding new_cf_dictionary
    delete_all-Post s l label_ref is_label =
        let made = F.dictionary_create (delete_query label_ref) s in
        let (adds, is_query) = D.dictionary_lem (delete_query label_ref) s in
        let (chain, held, key, datum) = adds in
        deferred-Post F C D (Gone l) s made.1 made.0 made.0 (delete_loop F fuel made.1)
          (Gone-Droppable l) adds
          (delete_loop-Post M.limit fuel made.0 made.0 l made.1 enough (Kept-refl V made.0)
            (M.delete_lem label_ref made.1 l made.0 (datum label_ref l is_label) is_query))

    remove_key-Post : (l : Bytes) (s : S) → Post (Gone l s) (Since F C D s) (remove_key F fuel l) s
    unfolding remove_key
    remove_key-Post l s =
        Post-bind (Data F C D tag s) (Gone l s) (Since F C D s) (new_cf_data F tag)
          (λ tag_ref. deferred F tag_ref (delete_label fuel l)) s (new_cf_data-Post F C D tag s)
          λ tag_ref s1 (adds, is_tag).
            deferred-Post F C D (Gone l) s tag_ref s1 s1 (delete_label fuel l) (Gone-Droppable l)
              adds
              (Post-bind (Data F C D l s1) (Gone l s1) (Since F C D s1) (new_cf_data F l)
                (λ label_ref. deferred F label_ref (delete_all fuel label_ref)) s1
                (new_cf_data-Post F C D l s1)
                λ label_ref s2 (adds', is_label).
                  deferred-Post F C D (Gone l) s1 label_ref s2 s2 (delete_all fuel label_ref)
                    (Gone-Droppable l) adds' (delete_all-Post s2 l label_ref is_label))

module _ {S : Type 0} (F : Framework S) (C : Crypto) (D : Keychain F C)
    (sha256 : Bytes → Bytes) where
  -- A key with the identifier was there, and all keys with its label are gone, but no others.
  abbrev pub Destroyed : S → Bytes → Unit {0} → S → Type 0
  Destroyed s0 id u s' =
      (it : Item) × Any (λ i. i ≡ it) (D.view.chain s0)
      × (sha256 it.public ≡ id)
      × Without F C D s0 it.label s'

  -- On a keychain that behaves as documented, and with more rounds for the deletion than the framework
  -- takes, DestroyKey deletes the key with the identifier that it is given, and no other key; or it
  -- fails and leaves all keys, with os.ErrNotExist only where no key has the identifier. The caller
  -- keeps every reference that it owned, and nothing panics.
  pub destroy_key-Post :
      (M : Deleting F C D) (fuel : ℕ) (id : Bytes) (s : S)
      → M.limit ≤ fuel
      → Post (Destroyed s id) (Refused F C D sha256 s id) (destroy_key F C sha256 fuel id) s
  unfolding destroy_key
  destroy_key-Post M fuel id s enough =
      let V = D.view in
      let Bad = Refused F C D sha256 s id in
      Post-bind (Chosen F C D sha256 (V.chain s) s id) (Destroyed s id) Bad
        (key_label F C sha256 id)
        (λ l. do found ← from_enclave (remove_key F fuel l); lift (removed F C sha256 found)) s
        (key_label-Post F C D sha256 id s)
        λ l s1 (since, it, there, is, named).
          let (chain, held, key, datum) = since in
          let r = remove_key F fuel l s1 in
          Post-bind (Gone F C D l s1) (Destroyed s id) Bad (from_enclave (remove_key F fuel l))
            (λ found. lift (removed F C sha256 found)) s1
            (Ensures-enclave (Gone F C D l s1) Bad r.0 r.1 (
              Ensures-weaken (Gone F C D l s1) (Gone F C D l s1) (Since F C D s1)
                (λ e s'. Bad (enclave e) s') r.0 r.1 (λ b h. h)
                (λ e kept. (Kept-trans V s s1 r.0 since kept, λ p. absurd (enclave-ne e p)))
                (remove_key-Post F C D M fuel enough l s1)))
            λ found s2 (was_found, (gone, more)).
              let left : V.chain s2 ≡ without it.label (V.chain s) =
                rw named (gone ∙ ap (without l) chain) in
              rw was_found (it, there, is, (left, λ r'. omega (arith, held r', more r')))
