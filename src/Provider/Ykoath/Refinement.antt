-- ===== src/Provider/Ykoath/Refinement.antt =====
-- provider/ykoath.go: the provider as a store of keys by name, over any sequence of calls.
use go_skes.Prelude.{
  update, bytes_equal_refl, ◌≡◌, refl, inl, inr, false, List, [], ◌∷◌, some, none, Bytes, Outcome,
  ok, err, panic, stuck,
}
use go_skes.Prelude.Exec.{lift, ◌>>=◌}
use go_skes.Prelude.Post.{Ensures, Post, Post-bind, Ensures-weaken}
use go_skes.Provider.Ykoath.{
  Applet, Error, from_card, key_id, keys, name_by_id, destroy_key, create_key_from_secret,
  YkoathKey, open_key,
}
use go_skes.Provider.Ykoath.Behaviour.{
  Cred, Vault, Documented, Same, Failed, from_card-Post, IdOf, key_id-Post,
}
use go_skes.Provider.Ykoath.Listing.{AllIds, keys-Post}
use go_skes.Provider.Ykoath.Search.{Named, NotFound, name_by_id-Post}
use go_skes.Provider.Ykoath.Calls.{
  Call, list_keys, create, destroy, open_by, Reply, listed, created, destroyed, opened, failed,
  reply, step, run, Does, fails, lists, stores, unread, removes, opens, misses_destroy, misses_open,
  DoesAll, done, more,
}

module _ (A : Applet) (D : Documented A) where
  abbrev Good : {R : Type 0} → Vault A → Call → (R → Reply A.Failure) → R → A.Card → Type 0
  Good v c f r s = Does A D v c (f r) (D.vault s)

  abbrev Bad : Vault A → Call → Error A.Failure → A.Card → Type 0
  Bad v c e s = Does A D v c (failed e) (D.vault s)

  reply-Does :
      {R : Type 0} (v : Vault A) (c : Call) (f : R → Reply A.Failure) (s : A.Card)
      (r : Outcome (Error A.Failure) R)
      → Ensures (Good v c f) (Bad v c) s r
      → Does A D v c (reply A f r) (D.vault s)
  reply-Does v c f s (ok a) h = h
  reply-Does v c f s (err e) h = h
  reply-Does v c f s panic h = absurd h
  reply-Does v c f s stuck h = absurd h

  Failed-Does :
      (v : Vault A) (c : Call) (e : Error A.Failure) (s : A.Card) → Failed A D v e s → Bad v c e s
  Failed-Does v c e s (same, (f, from)) = rw (same, from) (fails f)

  keys-Does :
      (s : A.Card) → Post (Good (D.vault s) list_keys listed) (Bad (D.vault s) list_keys) (keys A) s
  keys-Does s =
      let v = D.vault s in
      Ensures-weaken (λ ids s'. Same A D v s' × AllIds A D v ids) (Good v list_keys listed)
        (Failed A D v) (Bad v list_keys) (keys A s).0 (keys A s).1
        (λ ids (same, all). rw same (lists all)) (λ e. Failed-Does v list_keys e (keys A s).0)
        (keys-Post A D v s refl)

  NotFound-destroy :
      (v : Vault A) (id : Bytes) (e : Error A.Failure) (s : A.Card)
      → NotFound A D v id e s
      → Bad v (destroy id) e s
  NotFound-destroy v id e s (same, inl from) = Failed-Does v (destroy id) e s (same, from)
  NotFound-destroy v id e s (same, inr (missing, none_is)) =
      rw (same, missing) (misses_destroy none_is)

  NotFound-open :
      (v : Vault A) (id : Bytes) (e : Error A.Failure) (s : A.Card)
      → NotFound A D v id e s
      → Bad v (open_by id) e s
  NotFound-open v id e s (same, inl from) = Failed-Does v (open_by id) e s (same, from)
  NotFound-open v id e s (same, inr (missing, none_is)) = rw (same, missing) (misses_open none_is)

  search-Post :
      (c : Call) (id : Bytes) (s : A.Card)
      → ((e : Error A.Failure) (s' : A.Card)
          → NotFound A D (D.vault s) id e s'
          → Bad (D.vault s) c e s')
      → Post
          (λ n s'. Same A D (D.vault s) s' × Named A D (D.vault s) id n)
          (Bad (D.vault s) c)
          (name_by_id A id)
          s
  search-Post c id s bad =
      let v = D.vault s in
      Ensures-weaken (λ n s'. Same A D v s' × Named A D v id n)
        (λ n s'. Same A D v s' × Named A D v id n) (NotFound A D v id) (Bad v c)
        (name_by_id A id s).0 (name_by_id A id s).1 (λ n h. h) (λ e. bad e (name_by_id A id s).0)
        (name_by_id-Post A D v id s refl)

  destroy-Does :
      (id : Bytes) (s : A.Card)
      → Post
          (Good (D.vault s) (destroy id) (λ r. destroyed))
          (Bad (D.vault s) (destroy id))
          (destroy_key A id)
          s
  unfolding destroy_key
  destroy-Does id s =
      let v = D.vault s in
      Post-bind (λ n s'. Same A D v s' × Named A D v id n) (Good v (destroy id) (λ r. destroyed))
        (Bad v (destroy id)) (name_by_id A id) (λ name. from_card (A.delete name)) s
        (search-Post (destroy id) id s (NotFound-destroy v id))
        λ n s' (same, found).
          Ensures-weaken (λ r s''. D.vault s'' ≡ update v n none)
            (Good v (destroy id) (λ r. destroyed)) (Failed A D v) (Bad v (destroy id))
            (from_card (A.delete n) s').0 (from_card (A.delete n) s').1
            (λ r gone. rw gone (removes found))
            (λ e. Failed-Does v (destroy id) e (from_card (A.delete n) s').0)
            (from_card-Post A D (λ r s''. D.vault s'' ≡ update v n none) v (A.delete n) s'
              (rw same at (D.delete_lem n s')))

  open-Does :
      (id : Bytes) (s : A.Card)
      → Post
          (Good (D.vault s) (open_by id) (λ (k : YkoathKey A). opened k.name))
          (Bad (D.vault s) (open_by id))
          (open_key A id)
          s
  unfolding open_key
  open-Does id s =
      let v = D.vault s in
      Post-bind (λ n s'. Same A D v s' × Named A D v id n)
        (Good v (open_by id) (λ (k : YkoathKey A). opened k.name)) (Bad v (open_by id))
        (name_by_id A id) (λ name. lift (ok (record { name = name }))) s
        (search-Post (open_by id) id s (NotFound-open v id))
        λ n s' (same, found). rw same (opens found)

  -- The store with a key of this name.
  abbrev with_key : Vault A → Bytes → Bytes → Vault A
  with_key v label secret =
      update v label (some (record { algorithm = A.hmac_sha256; secret = secret }))

  stored_id :
      (v : Vault A) (label secret id : Bytes) (s : A.Card)
      → IdOf A D (with_key v label secret) label id s
      → Good v (create label secret) created id s
  stored_id v label secret id s (same, (k, there, made)) =
      let new : Cred A.Algorithm = record { algorithm = A.hmac_sha256; secret = secret } in
      let found : some new ≡ some k = rw (bytes_equal_refl label) at there in
      let key : k ≡ new = cc in rw same (stores (rw key at made))

  create-Does :
      (label secret : Bytes) (s : A.Card)
      → Post
          (Good (D.vault s) (create label secret) created)
          (Bad (D.vault s) (create label secret))
          (create_key_from_secret A label secret)
          s
  unfolding create_key_from_secret
  create-Does label secret s =
      let v = D.vault s in
      let c = create label secret in
      let v' = with_key v label secret in
      let put = A.put label A.hmac_sha256 A.totp 6 secret false 0 in
      Post-bind (λ r s'. Same A D v' s') (Good v c created) (Bad v c) (from_card put)
        (λ r. key_id A label >>= λ id. lift (ok id)) s
        (Ensures-weaken (λ r s'. Same A D v' s') (λ r s'. Same A D v' s') (Failed A D v) (Bad v c)
          (from_card put s).0 (from_card put s).1 (λ r h. h)
          (λ e. Failed-Does v c e (from_card put s).0)
          (from_card-Post A D (λ r s'. Same A D v' s') v put s
            (D.put_lem label A.hmac_sha256 A.totp 6 secret false 0 s)))
        λ r s' same'.
          Post-bind (IdOf A D v' label) (Good v c created) (Bad v c) (key_id A label)
            (λ id. lift (ok id)) s'
            (Ensures-weaken (IdOf A D v' label) (IdOf A D v' label) (Failed A D v') (Bad v c)
              (key_id A label s').0 (key_id A label s').1 (λ id h. h)
              (λ e (same'', (f, from)). rw (same'', from) (unread f))
              (key_id-Post A D v' label s' same'))
            (λ id s''. stored_id v label secret id s'')

  -- One call does what the specification says.
  step-Does :
      (c : Call) (s : A.Card) → Does A D (D.vault s) c (step A c s).1 (D.vault (step A c s).0)
  unfolding step
  step-Does list_keys s =
      reply-Does (D.vault s) list_keys listed (keys A s).0 (keys A s).1 (keys-Does s)
  step-Does (create label secret) s =
      reply-Does (D.vault s) (create label secret) created
        (create_key_from_secret A label secret s).0 (create_key_from_secret A label secret s).1
        (create-Does label secret s)
  step-Does (destroy id) s =
      reply-Does (D.vault s) (destroy id) (λ r. destroyed) (destroy_key A id s).0
        (destroy_key A id s).1 (destroy-Does id s)
  step-Does (open_by id) s =
      reply-Does (D.vault s) (open_by id) (λ (k : YkoathKey A). opened k.name) (open_key A id s).0
        (open_key A id s).1 (open-Does id s)

  -- Over a card that behaves as documented, any sequence of calls of the provider is one of the
  -- specification, a store of credentials by name: Keys returns the identifiers of its keys and no
  -- others, a key that is created is stored under its label and its identifier returned, one is
  -- destroyed or opened by an identifier that it has, os.ErrNotExist is returned where no key has
  -- it, and a failure of the library changes nothing but that a key may be stored with its
  -- identifier unread.
  pub run-DoesAll :
      (cs : List Call) (s : A.Card)
      → DoesAll A D (D.vault s) cs (run A cs s).1 (D.vault (run A cs s).0)
  unfolding run
  run-DoesAll [] s = done
  run-DoesAll (c ∷ cs) s = more (step-Does c s) (run-DoesAll cs (step A c s).0)
