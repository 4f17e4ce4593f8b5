-- ===== src/Provider/Ykoath/Listing.antt =====
-- provider/ykoath.go: the identifiers that Keys returns.
use go_skes.Prelude.{
  Any, ◌≡◌, sym, ap, inl, inr, true, false, List, [], ◌∷◌, some, All, Bytes, ok, ◌∙◌, Bool-cases,
}
use go_skes.Prelude.Exec.{lift}
use go_skes.Prelude.Post.{Post, Post-bind, Ensures-weaken}
use go_skes.Provider.Ykoath.{Slot, Applet, from_card, key_id, key_loop, keys}
use go_skes.Provider.Ykoath.Behaviour.{
  Cred, Vault, Known, Documented, ident, IsKey, Same, Failed, IdOf, key_id-Post, Known-key,
  Known-other, Listed, list-Post,
}

module _ (A : Applet) (D : Documented A) where
  abbrev Ids : Vault A → List (Slot A.Algorithm) → List Bytes → Type 0
  Ids v slots ids =
      All (λ id. (n : Bytes) × (k : Cred A.Algorithm) × IsKey A D v n k × (id ≡ ident A D k)) ids
      × ((n : Bytes) (k : Cred A.Algorithm)
          → IsKey A D v n k
          → Any (λ slot. slot.name ≡ n) slots
          → Any (λ id. id ≡ ident A D k) ids)

  Ids-skip :
      (v : Vault A) (slot : Slot A.Algorithm) (slots : List (Slot A.Algorithm)) (ids : List Bytes)
      → Known A v slot
      → A.same_algorithm slot.algorithm A.hmac_sha256 ≡ false
      → Ids v slots ids
      → Ids v (slot ∷ slots) ids
  Ids-skip v slot slots ids known other (sound, complete) = (
    sound,
    λ n k is_key any. elim any [
      | inl here ↦ absurd (Known-other A D v slot k known other (rw here is_key.0, is_key.1))
      | inr later ↦ complete n k is_key later
    ],
  )

  Ids-add :
      (v : Vault A) (slot : Slot A.Algorithm) (slots : List (Slot A.Algorithm)) (id : Bytes)
      (ids : List Bytes) (k : Cred A.Algorithm)
      → Known A v slot
      → A.same_algorithm slot.algorithm A.hmac_sha256 ≡ true
      → v slot.name ≡ some k
      → id ≡ ident A D k
      → Ids v slots ids
      → Ids v (slot ∷ slots) (id ∷ ids)
  Ids-add v slot slots id ids k known is there made (sound, complete) = (
    ((slot.name, k, (there, Known-key A D v slot k known is there), made), sound),
    λ n k' is_key any. elim any [
      | inl here ↦ inl (
          let one : some k ≡ some k' = sym there ∙ (ap v here ∙ is_key.0) in
          let key : k ≡ k' = cc in rw (← key) made)
      | inr later ↦ inr (complete n k' is_key later)
    ],
  )

  -- The identifiers that the loop of Keys returns, for the slots of a list.
  key_loop-Post :
      (v : Vault A) (slots : List (Slot A.Algorithm))
      → All (Known A v) slots
      → (s : A.Card) → Same A D v s
      → Post (λ ids s'. Same A D v s' × Ids v slots ids) (Failed A D v) (key_loop A slots) s
  unfolding key_loop
  key_loop-Post v [] known s same = (same, (tt, λ n k is_key any. absurd any))
  key_loop-Post v (slot ∷ slots) (here, later) s same =
      elim (Bool-cases (A.same_algorithm slot.algorithm A.hmac_sha256)) [
        | inl is ↦ rw is (
            Post-bind (IdOf A D v slot.name) (λ ids s'. Same A D v s' × Ids v (slot ∷ slots) ids)
              (Failed A D v) (key_id A slot.name) _ s (key_id-Post A D v slot.name s same)
              λ id s' (same', (k, there, made)).
                Post-bind (λ ids s''. Same A D v s'' × Ids v slots ids)
                  (λ ids s''. Same A D v s'' × Ids v (slot ∷ slots) ids) (Failed A D v)
                  (key_loop A slots) (λ ids. lift (ok (id ∷ ids))) s'
                  (key_loop-Post v slots later s' same')
                  λ ids s'' (same'', all).
                    (same'', Ids-add v slot slots id ids k here is there made all))
        | inr other ↦ rw other (
            Ensures-weaken (λ ids s'. Same A D v s' × Ids v slots ids)
              (λ ids s'. Same A D v s' × Ids v (slot ∷ slots) ids) (Failed A D v) (Failed A D v)
              (key_loop A slots s).0 (key_loop A slots s).1
              (λ ids (same', all). (same', Ids-skip v slot slots ids here other all)) (λ e h. h)
              (key_loop-Post v slots later s same))
      ]

  abbrev pub AllIds : Vault A → List Bytes → Type 0
  AllIds v ids =
      All (λ id. (n : Bytes) × (k : Cred A.Algorithm) × IsKey A D v n k × (id ≡ ident A D k)) ids
      × ((n : Bytes) (k : Cred A.Algorithm) → IsKey A D v n k → Any (λ id. id ≡ ident A D k) ids)

  -- Keys gives the identifiers of the credentials that are keys, and no others.
  pub keys-Post :
      (v : Vault A) (s : A.Card)
      → Same A D v s
      → Post (λ ids s'. Same A D v s' × AllIds v ids) (Failed A D v) (keys A) s
  unfolding keys
  keys-Post v s same =
      Post-bind (Listed A D v) (λ ids s'. Same A D v s' × AllIds v ids) (Failed A D v)
        (from_card A.list) (key_loop A) s (list-Post A D v s same)
        λ slots s' (same', known, complete).
          Ensures-weaken (λ ids s''. Same A D v s'' × Ids v slots ids)
            (λ ids s''. Same A D v s'' × AllIds v ids) (Failed A D v) (Failed A D v)
            (key_loop A slots s').0 (key_loop A slots s').1
            (λ ids (same'', (sound, whole)).
              (same'', (sound, λ n k is_key. whole n k is_key (complete n k is_key.0))))
            (λ e h. h) (key_loop-Post v slots known s' same')
