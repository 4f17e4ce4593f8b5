-- ===== src/Provider/Applese/Keychain.antt =====
-- The documented behaviour of the Security framework under provider/applese.go: its keychain, and what
-- references stand for.
use go_skes.Prelude.{ℕ, ◌+◌, ◌-◌, ◌<◌, ◌≤◌, if◌then◌else◌, ◌==◌}
use go_skes.Prelude.{◌≡◌, ◌≢◌, List, [], ◌∷◌, ◌++◌, some, Any, length, Bytes}
use go_skes.Ecdh.PublicKey.{p256, Crypto}
use go_skes.Ecdh.Applese.{
  Ref, Attrs, success, fault, key_not_found, Framework, tag, private_keys, return_ref, match_limit,
  limit_all, limit_one, boolean_true, application_tag, application_label, ref,
}

-- A private key of the enclave: the bytes of its public key, and its application label.
pub record Item : Type 0 where
  pub public : Bytes
  pub label : Bytes

-- The queries of Keys and of PrivateKeyByLabel.
abbrev pub all_query : Attrs
all_query = private_keys ++ ((return_ref, boolean_true) ∷ (match_limit, limit_all) ∷ [])

abbrev pub one_query : Ref → Ref → Attrs
one_query tag_ref label_ref =
    private_keys
    ++ ((application_tag, ref tag_ref)
        ∷ (application_label, ref label_ref)
        ∷ (return_ref, boolean_true)
        ∷ (match_limit, limit_one)
        ∷ [])

-- One reference for each key.
abbrev pub Refs : (Ref → Item → Type 0) → List Ref → List Item → Type 0
Refs Is [] [] = Unit {0}
Refs Is [] (it ∷ items) = ⊥
Refs Is (r ∷ refs) [] = ⊥
Refs Is (r ∷ refs) (it ∷ items) = Is r it × Refs Is refs items

-- The keys that there are, what a reference stands for - a key, data, or a query -, and how many
-- references to it the program owns.
pub record View (S : Type 0) : Type 1 where
  pub chain : S → List Item
  pub IsKey : S → Ref → Item → Type 0
  pub IsData : S → Ref → Bytes → Type 0
  pub IsQuery : S → Ref → Attrs → Type 0
  pub held : S → Ref → ℕ

abbrev pub one : Ref → Ref → ℕ
one r r' = if r == r' then 1 else 0

module _ {S : Type 0} (V : View S) where
  -- What a call of the framework does with the references: it gives the program one more to an object,
  -- and ends no object; or it takes one away, after which those objects are alive that the program
  -- still owns a reference to; or it leaves at least the references that there were, and their objects.
  abbrev pub Adds : S → Ref → S → Type 0
  Adds s r s' =
      (V.chain s' ≡ V.chain s)
      × ((r' : Ref) → V.held s' r' ≡ V.held s r' + one r r')
      × ((k : Ref) (it : Item) → V.IsKey s k it → V.IsKey s' k it)
      × ((k : Ref) (d : Bytes) → V.IsData s k d → V.IsData s' k d)

  abbrev pub Drops : S → Ref → S → Type 0
  Drops s r s' =
      (V.chain s' ≡ V.chain s)
      × ((r' : Ref) → V.held s' r' ≡ V.held s r' - one r r')
      × ((k : Ref) (it : Item) → 0 < V.held s' k → V.IsKey s k it → V.IsKey s' k it)
      × ((k : Ref) (d : Bytes) → 0 < V.held s' k → V.IsData s k d → V.IsData s' k d)

  abbrev pub Kept : S → S → Type 0
  Kept s s' =
      (V.chain s' ≡ V.chain s)
      × ((r : Ref) → V.held s r ≤ V.held s' r)
      × ((k : Ref) (it : Item) → 0 < V.held s k → V.IsKey s k it → V.IsKey s' k it)
      × ((k : Ref) (d : Bytes) → 0 < V.held s k → V.IsData s k d → V.IsData s' k d)

  -- A reference to a key that the program owns, beside those that it owned before.
  abbrev pub Own : S → Ref → Item → S → Type 0
  Own s k it s' = V.IsKey s' k it × (V.held s k < V.held s' k)

pub record Keychain {S : Type 0} (F : Framework S) (C : Crypto) : Type 1 where
  pub view : View S
  pub release_lem : (r : Ref) (s : S) → Drops view s r (F.release r s)
  pub retain_lem : (r : Ref) (s : S) → Adds view s r (F.retain r s)
  pub data_lem :
      (d : Bytes) (s : S)
      → let made = F.data_create d s in
        (made.1 ≡ 0 → Kept view s made.0)
        × (made.1 ≢ 0 → Adds view s made.1 made.0 × view.IsData made.0 made.1 d)
  pub dictionary_lem :
      (m : Attrs) (s : S)
      → let made = F.dictionary_create m s in
        Adds view s made.1 made.0 × view.IsQuery made.0 made.1 m
  -- The attributes of a key, and of its public key.
  pub label_lem :
      (r : Ref) (it : Item) (s : S)
      → view.IsKey s r it
      → let a = F.copy_attributes r s in
        Adds view s a.1 a.0 × (F.application_label_of a.1 a.0 ≡ it.label) × (length it.label ≡ 20)
  pub public_lem :
      (r : Ref) (it : Item) (s : S)
      → view.IsKey s r it
      → let p = F.copy_public_key r s in
        let a = F.copy_attributes p.1 p.0 in
        Adds view s p.1 p.0
        × Adds view p.0 a.1 a.0
        × (F.value_data_of a.1 a.0 ≡ some it.public)
        × (pk : C.PublicKey) × (C.new_public_key p256 it.public ≡ some pk)
        × (C.bytes_of pk ≡ it.public)
  -- The search for all keys finds them, in an array whose values the program does not own; the one for
  -- a label finds a key with this label.
  pub all_lem :
      (q : Ref) (s : S)
      → view.IsQuery s q all_query
      → let found = F.item_copy_matching q s in
        (found.1 ≡ success
          → Adds view s found.2 found.0
            × (F.array_values found.2 found.0 ≢ [])
            × Refs (view.IsKey found.0) (F.array_values found.2 found.0) (view.chain s))
        × ((v : ℕ) → found.1 ≡ fault v → Kept view s found.0)
        × (found.1 ≡ fault key_not_found → view.chain s ≡ [])
  pub one_lem :
      (tag_ref label_ref q : Ref) (l : Bytes) (s : S)
      → view.IsData s tag_ref tag
      → view.IsData s label_ref l
      → view.IsQuery s q (one_query tag_ref label_ref)
      → let found = F.item_copy_matching q s in
        (found.1 ≡ success
          → Adds view s found.2 found.0
            × (it : Item) × view.IsKey found.0 found.2 it
            × Any (λ i. i ≡ it) (view.chain s)
            × (it.label ≡ l))
        × ((v : ℕ) → found.1 ≡ fault v → Kept view s found.0)
  -- The label of a key is a digest of its public key, in which no two keys are the same.
  pub digest_lem :
      (s : S) (it it' : Item)
      → Any (λ i. i ≡ it) (view.chain s)
      → Any (λ i. i ≡ it') (view.chain s)
      → it.label ≡ it'.label
      → it ≡ it'
