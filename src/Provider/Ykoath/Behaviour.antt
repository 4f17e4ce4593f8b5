-- ===== src/Provider/Ykoath/Behaviour.antt =====
-- provider/ykoath.go: what the commands of a YKOATH applet do to the credentials on it, and what the
-- calls of the provider do by them.
use go_skes.Prelude.{
  Any, update, ℕ, ◌≡◌, refl, sym, ap, Bool, true, false, List, Option, some, none, All, Bytes,
  Outcome, ok, err, panic, stuck, map_err, ◌∙◌,
}
use go_skes.Prelude.Exec.{Exec, lift}
use go_skes.Prelude.Post.{Ensures, Post, Post-bind}
use go_skes.Provider.Ykoath.{Slot, Applet, Error, card, id_challenge, from_card, key_id}

-- A credential on the card.
pub record Cred (Algorithm : Type 0) : Type 0 where
  pub algorithm : Algorithm
  pub secret : Bytes

module _ (A : Applet) where
  abbrev pub Vault : Type 0
  Vault = Bytes → Option (Cred A.Algorithm)

  abbrev pub Known : Vault → Slot A.Algorithm → Type 0
  Known v slot = (k : Cred A.Algorithm) × (v slot.name ≡ some k) × (k.algorithm ≡ slot.algorithm)

  -- The documented behaviour of the applet: LIST gives the credentials, CALCULATE the code of a
  -- credential that is there, PUT stores a credential in the place of one with its name, and DELETE
  -- removes one. A command that fails leaves the credentials as they are.
  pub record Documented : Type 0 where
    pub vault : A.Card → Vault
    pub mac : Cred A.Algorithm → Bytes → Bytes
    pub same_iff : (a : A.Algorithm) → A.same_algorithm a A.hmac_sha256 ≡ true → a ≡ A.hmac_sha256
    pub same_refl : A.same_algorithm A.hmac_sha256 A.hmac_sha256 ≡ true
    pub list_lem :
        (s : A.Card)
        → Post
            (λ slots s'.
              (vault s' ≡ vault s)
              × All (Known (vault s)) slots
              × ((n : Bytes) (k : Cred A.Algorithm)
                  → vault s n ≡ some k
                  → Any (λ slot. slot.name ≡ n) slots))
            (λ f s'. vault s' ≡ vault s)
            A.list
            s
    pub calculate_lem :
        (n c : Bytes) (s : A.Card)
        → Post
            (λ code s'.
              (vault s' ≡ vault s)
              × ((k : Cred A.Algorithm) × (vault s n ≡ some k) × (code ≡ mac k c)))
            (λ f s'. vault s' ≡ vault s)
            (A.calculate n c)
            s
    pub put_lem :
        (n : Bytes) (a : A.Algorithm) (t : A.OathType) (digits : ℕ) (secret : Bytes) (touch : Bool)
        (counter : ℕ) (s : A.Card)
        → Post
            (λ r s'.
              vault s' ≡ update (vault s) n (some (record { algorithm = a; secret = secret })))
            (λ f s'. vault s' ≡ vault s)
            (A.put n a t digits secret touch counter)
            s
    pub delete_lem :
        (n : Bytes) (s : A.Card)
        → Post
            (λ r s'. vault s' ≡ update (vault s) n none)
            (λ f s'. vault s' ≡ vault s)
            (A.delete n)
            s

-- The error is one of the card.
abbrev pub FromCard : {F : Type 0} → Error F → Type 0
FromCard {F} e = (f : F) × (e ≡ card f)

Ensures-map_err :
    {S F A : Type 0} (good : A → S → Type 0) (same : S → Type 0) (s : S) (r : Outcome F A)
    → Ensures good (λ f s'. same s') s r
    → Ensures good (λ e s'. same s' × FromCard e) s (map_err card r)
Ensures-map_err good same s (ok a) h = h
Ensures-map_err good same s (err f) h = (h, (f, refl))
Ensures-map_err good same s panic h = h
Ensures-map_err good same s stuck h = h

module _ (A : Applet) (D : Documented A) where
  -- The identifier of a credential.
  abbrev pub ident : Cred A.Algorithm → Bytes
  ident k = D.mac k id_challenge

  -- The credential is the one that the name stands for, and is one of the algorithm of the keys.
  abbrev pub IsKey : Vault A → Bytes → Cred A.Algorithm → Type 0
  IsKey v n k = (v n ≡ some k) × (k.algorithm ≡ A.hmac_sha256)

  abbrev pub Same : Vault A → A.Card → Type 0
  Same v s = D.vault s ≡ v

  abbrev pub Failed : Vault A → Error A.Failure → A.Card → Type 0
  Failed v e s = Same v s × FromCard e

  -- A command that the library runs, as a call of the provider.
  pub from_card-Post :
      {R : Type 0} (good : R → A.Card → Type 0) (v : Vault A) (m : Exec A.Card A.Failure R)
      (s : A.Card)
      → Post good (λ f s'. Same v s') m s
      → Post good (Failed v) (from_card m) s
  from_card-Post good v m s h = Ensures-map_err good (Same v) (m s).0 (m s).1 h

  -- An identifier of the credential of this name.
  abbrev pub IdOf : Vault A → Bytes → Bytes → A.Card → Type 0
  IdOf v n id s = Same v s × ((k : Cred A.Algorithm) × (v n ≡ some k) × (id ≡ ident k))

  -- keyID gives the identifier of the credential of that name.
  pub key_id-Post :
      (v : Vault A) (n : Bytes) (s : A.Card) → Same v s → Post (IdOf v n) (Failed v) (key_id A n) s
  unfolding key_id
  key_id-Post v n s same =
      Post-bind (IdOf v n) (IdOf v n) (Failed v) (from_card (A.calculate n id_challenge))
        (λ key. lift (ok key)) s
        (from_card-Post (IdOf v n) v (A.calculate n id_challenge) s
          (rw same at (D.calculate_lem n id_challenge s)))
        (λ a s' h. h)

  pub Known-key :
      (v : Vault A) (slot : Slot A.Algorithm) (k : Cred A.Algorithm)
      → Known A v slot
      → A.same_algorithm slot.algorithm A.hmac_sha256 ≡ true
      → v slot.name ≡ some k
      → k.algorithm ≡ A.hmac_sha256
  Known-key v slot k (k₀, there₀, of) is there =
      let key : k₀ ≡ k = cc in
      sym (ap (λ (c : Cred A.Algorithm). c.algorithm) key) ∙ (of ∙ D.same_iff slot.algorithm is)

  pub Known-other :
      (v : Vault A) (slot : Slot A.Algorithm) (k : Cred A.Algorithm)
      → Known A v slot
      → A.same_algorithm slot.algorithm A.hmac_sha256 ≡ false
      → ¬ IsKey v slot.name k
  Known-other v slot k (k₀, there₀, of) other (there, is) =
      let key : k₀ ≡ k = cc in
      let alg : slot.algorithm ≡ A.hmac_sha256 =
        sym of ∙ (ap (λ (c : Cred A.Algorithm). c.algorithm) key ∙ is) in
      cc (rw alg at other, D.same_refl)

  abbrev pub Listed : Vault A → List (Slot A.Algorithm) → A.Card → Type 0
  Listed v slots s =
      Same v s
      × All (Known A v) slots
      × ((n : Bytes) (k : Cred A.Algorithm) → v n ≡ some k → Any (λ slot. slot.name ≡ n) slots)

  pub list-Post :
      (v : Vault A) (s : A.Card) → Same v s → Post (Listed v) (Failed v) (from_card A.list) s
  list-Post v s same = from_card-Post (Listed v) v A.list s (rw same at (D.list_lem s))
