-- ===== src/Provider/Applese/Opening.antt =====
-- OpenKey of provider/applese.go over the documented keychain.
use go_skes.Prelude.{
  ℕ, ◌<◌, ◌≡◌, ◌≢◌, refl, sym, ap, ◌∙◌, true, Bool-cases, inl, inr, List, [], ◌∷◌, none, All, Any,
  length, take, Bytes, bytes_equal, bytes_equal→eq, bytes_equal_refl, zero, suc, if◌then◌else◌,
  arith, leb, Outcome, ok, err, panic, stuck, map_err,
}
use go_skes.Prelude.Post.{Ensures, Post, Post-bind, Ensures-weaken}
use go_skes.Ecdh.PublicKey.{Crypto}
use go_skes.Ecdh.Applese
use go_skes.Ecdh.Applese.{Ref, Framework, deferred, private_key_by_label}
use go_skes.Ecdh.Applese.Device.{key_label_of, public_key}
use go_skes.Provider.Applese.{
  Error, enclave, not_exist, from_enclave, key_id, label_loop, key_label, open_key,
}
use go_skes.Provider.Applese.Keychain.{Item, Refs, View, Kept, Own, Keychain}
use go_skes.Provider.Applese.Ownership.{
  Kept-refl, Kept-trans, Drops-Kept, Own-since, Refs-map, Since,
}
use go_skes.Provider.Applese.Search.{AllKeys, Labelled, keys-Post, private_key_by_label-Post}

pub Ensures-enclave :
    {S A : Type 0} (good : A → S → Type 0) (bad : Error → S → Type 0) (s : S)
    (r : Outcome Applese.Error A)
    → Ensures good (λ e s'. bad (enclave e) s') s r
    → Ensures good bad s (map_err enclave r)
Ensures-enclave good bad s (ok a) h = h
Ensures-enclave good bad s (err e) h = h
Ensures-enclave good bad s panic h = h
Ensures-enclave good bad s stuck h = h

pub enclave-ne : (e : Applese.Error) → enclave e ≢ not_exist
enclave-ne e = λ p. cc

take_all : (l : Bytes) (n : ℕ) → length l ≡ n → take n l ≡ l
take_all [] zero h = refl
take_all [] (suc n) h = absurd (omega (arith, h))
take_all (x ∷ l) zero h = absurd (omega (arith, h))
take_all (x ∷ l) (suc n) h = ap (λ xs. x ∷ xs) (take_all l n (omega (arith, h)))

module _ {S : Type 0} (F : Framework S) (C : Crypto) (D : Keychain F C)
    (sha256 : Bytes → Bytes) where
  abbrev V : View S
  V = D.view

  -- A reference to a key that the program owns.
  abbrev Live : S → Ref → Item → Type 0
  Live s k it = V.IsKey s k it × (0 < V.held s k)

  Live-Kept : (s s' : S) (k : Ref) (it : Item) → Kept V s s' → Live s k it → Live s' k it
  Live-Kept s s' k it (chain, held, key, datum) (is, owned) =
      (key k it owned is, omega (arith, owned, held k))

  key_id-Post :
      (bad : Error → S → Type 0) (k : Ref) (it : Item) (s : S)
      → V.IsKey s k it
      → Post (λ id s'. Kept V s s' × (id ≡ sha256 it.public)) bad (key_id F C sha256 k) s
  unfolding key_id public_key
  key_id-Post bad k it s is =
      let p = F.copy_public_key k s in
      let a = F.copy_attributes p.1 p.0 in
      let (adds, adds', bytes, pk, parses, same) = D.public_lem k it s is in
      let s' = F.release a.1 a.0 in
      let kept = Drops-Kept V p.0 a.1 a.0 a.0 s' adds' (Kept-refl V a.0) (D.release_lem a.1 a.0) in
      rw (bytes, parses)
        (
          Drops-Kept V s p.1 p.0 s' (F.release p.1 s') adds kept (D.release_lem p.1 s'),
          ap sha256 same,
        )

  key_label_of-Post :
      (bad : Applese.Error → S → Type 0) (k : Ref) (it : Item) (s : S)
      → V.IsKey s k it
      → Post (λ l s'. Kept V s s' × (it.label ≡ l)) bad (key_label_of F k) s
  unfolding key_label_of
  key_label_of-Post bad k it s is =
      let a = F.copy_attributes k s in
      let (adds, read, size) = D.label_lem k it s is in
      let kept =
        Drops-Kept V s a.1 a.0 a.0 (F.release a.1 a.0) adds (Kept-refl V a.0)
          (D.release_lem a.1 a.0) in
      let enough : leb 20 (length it.label) ≡ true = rw size refl in
      rw (read, enough) (kept, sym (take_all it.label 20 size))

  -- One of the keys has the identifier, and the label.
  abbrev pub Chosen : List Item → S → Bytes → Bytes → S → Type 0
  Chosen items s0 id l s' =
      Kept V s0 s'
      × (it : Item) × Any (λ i. i ≡ it) items
      × (sha256 it.public ≡ id)
      × (it.label ≡ l)

  abbrev pub NoKey : List Item → Bytes → Type 0
  NoKey items id = All (λ (it : Item). sha256 it.public ≢ id) items

  abbrev Missing : List Item → S → Bytes → Error → S → Type 0
  Missing items s0 id e s' = Kept V s0 s' × NoKey items id

  label_loop-Post :
      (id : Bytes) (refs : List Ref) (items : List Item) (s0 s : S)
      → Kept V s0 s
      → Refs (Live s) refs items
      → Post (Chosen items s0 id) (Missing items s0 id) (label_loop F C sha256 id refs) s
  unfolding label_loop
  label_loop-Post id [] [] s0 s since is = (since, tt)
  label_loop-Post id [] (it ∷ items) s0 s since is = absurd is
  label_loop-Post id (k ∷ refs) [] s0 s since is = absurd is
  label_loop-Post id (k ∷ refs) (it ∷ items) s0 s since (is, hs) =
      let Good : Bytes → S → Type 0 = Chosen (it ∷ items) s0 id in
      Post-bind (λ kid s'. Kept V s s' × (kid ≡ sha256 it.public)) Good (Missing (it ∷ items) s0 id)
        (key_id F C sha256 k)
        (λ kid.
          if bytes_equal id kid
          then from_enclave (key_label_of F k)
          else label_loop F C sha256 id refs)
        s (key_id-Post (Missing (it ∷ items) s0 id) k it s is.0)
        λ kid s1 (kept, is_id).
          let since' = Kept-trans V s0 s s1 since kept in
          elim (Bool-cases (bytes_equal id kid)) [
            | inl same ↦
                let Bad : Applese.Error → S → Type 0 =
                  λ e s'. Missing (it ∷ items) s0 id (enclave e) s' in
                let found : sha256 it.public ≡ id = sym (bytes_equal→eq id kid same ∙ is_id) in
                let r = key_label_of F k s1 in
                rw same (
                  Ensures-enclave Good (Missing (it ∷ items) s0 id) r.0 r.1 (
                    Ensures-weaken (λ l s'. Kept V s1 s' × (it.label ≡ l)) Good Bad Bad r.0 r.1
                      (λ l (kept', named).
                        (Kept-trans V s0 s1 r.0 since' kept', it, inl refl, found, named))
                      (λ e h. h) (key_label_of-Post Bad k it s1 (Live-Kept s s1 k it kept is).0)))
            | inr other ↦
                let differs : sha256 it.public ≢ id = λ p.
                  let one_id : bytes_equal id kid ≡ true = rw (is_id ∙ p) (bytes_equal_refl id) in
                  cc in
                let r = label_loop F C sha256 id refs s1 in
                rw other (
                  Ensures-weaken (Chosen items s0 id) Good (Missing items s0 id)
                    (Missing (it ∷ items) s0 id) r.0 r.1
                    (λ l (since'', it', there, found, named).
                      (since'', it', inr there, found, named))
                    (λ e (since'', missing). (since'', (differs, missing)))
                    (label_loop-Post id refs items s0 s1 since' (
                      Refs-map V (Live s) (Live s1) refs items (λ r i h. Live-Kept s s1 r i kept h)
                        hs)))
          ]

  -- A failure: where it is os.ErrNotExist, no key has the identifier.
  abbrev pub Refused : S → Bytes → Error → S → Type 0
  Refused s0 id e s' = Kept V s0 s' × (e ≡ not_exist → NoKey (V.chain s0) id)

  pub key_label-Post :
      (id : Bytes) (s : S)
      → Post (Chosen (V.chain s) s id) (Refused s id) (key_label F C sha256 id) s
  unfolding key_label
  key_label-Post id s =
      let found = Applese.keys F none s in
      Post-bind (AllKeys F C D s) (Chosen (V.chain s) s id) (Refused s id)
        (from_enclave (Applese.keys F none)) (label_loop F C sha256 id) s
        (Ensures-enclave (AllKeys F C D s) (Refused s id) found.0 found.1 (
          Ensures-weaken (AllKeys F C D s) (AllKeys F C D s) (Since F C D s)
            (λ e s'. Refused s id (enclave e) s') found.0 found.1 (λ refs h. h)
            (λ e since. (since, λ p. absurd (enclave-ne e p))) (keys-Post F C D s)))
        λ refs s1 (since, own).
          Ensures-weaken (Chosen (V.chain s) s id) (Chosen (V.chain s) s id)
            (Missing (V.chain s) s id) (Refused s id) (label_loop F C sha256 id refs s1).0
            (label_loop F C sha256 id refs s1).1 (λ l h. h)
            (λ e (since', missing). (since', λ p. missing))
            (label_loop-Post id refs (V.chain s) s s1 since (
              Refs-map V (λ k it. Own V s k it s1) (Live s1) refs (V.chain s)
                (λ k it (is, more). (is, omega (arith, more))) own))

  -- On a keychain that behaves as documented, OpenKey returns a reference to the key with the
  -- identifier that it is given, which the caller owns beside those that it had, or an error, which is
  -- os.ErrNotExist only where no key has it. The keys stay as they were, the caller keeps every
  -- reference that it owned, to the same object, and nothing panics.
  pub open_key-Post :
      (id : Bytes) (s : S)
      → Post
          (λ k s'. Kept D.view s s' × (it : Item) × Own D.view s k it s' × (sha256 it.public ≡ id))
          (Refused s id)
          (open_key F C sha256 id)
          s
  unfolding open_key
  open_key-Post id s =
      let Opened : Ref → S → Type 0 =
        λ k s'. Kept V s s' × (it : Item) × Own V s k it s' × (sha256 it.public ≡ id) in
      Post-bind (Chosen (V.chain s) s id) Opened (Refused s id) (key_label F C sha256 id)
        (λ l. from_enclave (private_key_by_label F l)) s (key_label-Post id s)
        λ l s1 (since, it, there, found, named).
          let r = private_key_by_label F l s1 in
          Ensures-enclave Opened (Refused s id) r.0 r.1 (
            Ensures-weaken (Labelled F C D l s1) Opened (Since F C D s1)
              (λ e s'. Refused s id (enclave e) s') r.0 r.1
              (λ k (kept, it', own, there', named').
                let here = rw since.0 at there' in
                let same : it ≡ it' = D.digest_lem s it it' there here (named ∙ sym named') in
                (
                  Kept-trans V s s1 r.0 since kept,
                  it',
                  Own-since V s s1 k it' r.0 since own,
                  ap (λ (i : Item). sha256 i.public) (sym same) ∙ found,
                ))
              (λ e kept. (Kept-trans V s s1 r.0 since kept, λ p. absurd (enclave-ne e p)))
              (private_key_by_label-Post F C D l s1))
