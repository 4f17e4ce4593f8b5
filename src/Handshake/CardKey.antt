-- ===== src/Handshake/CardKey.antt =====
-- handshake/oath.go on top of provider/ykoath.go: the handshake with a key that is on a card.
use go_skes.Prelude.{
  ℕ, ◌≡◌, ◌≢◌, refl, sym, ◌∙◌, inl, inr, false, some, update, bytes_equal, bytes_equal_refl, Bytes,
  ok, Bool-cases,
}
use go_skes.Prelude.Exec.{lift, ◌>>=◌}
use go_skes.Prelude.Post.{Post, Post-bind, Ensures-weaken}
use go_skes.Provider.Ykoath.{
  Applet, Error, from_card, key_id, name_by_id, create_key_from_secret, YkoathKey, open_key, hmac,
  Run,
}
use go_skes.Provider.Ykoath.Behaviour.{
  Cred, Vault, Documented, FromCard, ident, IsKey, Same, Failed, from_card-Post, IdOf, key_id-Post,
}
use go_skes.Provider.Ykoath.Search.{Named, NotFound, name_by_id-Post}
use go_skes.Handshake.Oath.{
  put_uint64, time_counter, handshake_hotp, handshake_totp, handshake_secret,
}

module _ (A : Applet) (D : Documented A) where
  -- A key is created, opened by its identifier, and used by the handshake at a time.
  abbrev pub created_secret : Bytes → Bytes → ℕ → ℕ → Run A Bytes
  created_secret label secret timestep now = do
    id ← create_key_from_secret A label secret
    k ← open_key A id
    handshake_secret (hmac A k) timestep now

  module _ (v : Vault A) (label secret : Bytes)
      (alone : (n : Bytes) (k : Cred A.Algorithm)
        → IsKey A D v n k
        → ident A D k ≢ ident A D (record { algorithm = A.hmac_sha256; secret = secret })) where
    abbrev new : Cred A.Algorithm
    new = record { algorithm = A.hmac_sha256; secret = secret }

    -- The credentials once the key is stored.
    abbrev after : Vault A
    after = update v label (some new)

    abbrev CardFailed : Error A.Failure → A.Card → Type 0
    CardFailed e s = FromCard e

    create-Post :
        (s : A.Card)
        → Same A D v s
        → Post
            (λ id s'. Same A D after s' × (id ≡ ident A D new))
            CardFailed
            (create_key_from_secret A label secret)
            s
    unfolding create_key_from_secret
    create-Post s same =
        let put = A.put label A.hmac_sha256 A.totp 6 secret false 0 in
        Post-bind (λ r s'. Same A D after s') (λ id s'. Same A D after s' × (id ≡ ident A D new))
          CardFailed (from_card put) (λ r. key_id A label >>= λ id. lift (ok id)) s
          (Ensures-weaken (λ r s'. Same A D after s') (λ r s'. Same A D after s') (Failed A D v)
            CardFailed (from_card put s).0 (from_card put s).1 (λ r h. h) (λ e h. h.1)
            (from_card-Post A D (λ r s'. Same A D after s') v put s
              (rw same at (D.put_lem label A.hmac_sha256 A.totp 6 secret false 0 s))))
          λ r s' same'.
            Post-bind (IdOf A D after label) (λ id s''. Same A D after s'' × (id ≡ ident A D new))
              CardFailed (key_id A label) (λ id. lift (ok id)) s'
              (Ensures-weaken (IdOf A D after label) (IdOf A D after label) (Failed A D after)
                CardFailed (key_id A label s').0 (key_id A label s').1 (λ id h. h) (λ e h. h.1)
                (key_id-Post A D after label s' same'))
              λ id s'' (same'', (k, there, made)).
                let found : some new ≡ some k = rw (bytes_equal_refl label) at there in
                let key : k ≡ new = cc in (same'', rw key at made)

    -- The name that the search finds is that of the new key.
    Named-new : (n : Bytes) → Named A D after (ident A D new) n → after n ≡ some new
    Named-new n (k, (there, is), same) = elim (Bool-cases (bytes_equal n label)) [
      | inl e ↦ rw e refl
      | inr e ↦ absurd (alone n k (rw e at there, is) same)
    ]

    from_library :
        (e : Error A.Failure) (s : A.Card) → NotFound A D after (ident A D new) e s → FromCard e
    from_library e s (same, inl f) = f
    from_library e s (same, inr (missing, none_is)) =
        absurd (none_is label new (rw (bytes_equal_refl label) refl, refl) refl)

    open-Post :
        (s : A.Card)
        → Same A D after s
        → Post
            (λ (k : YkoathKey A) s'. Same A D after s' × (after k.name ≡ some new))
            CardFailed
            (open_key A (ident A D new))
            s
    unfolding open_key
    open-Post s same =
        let id = ident A D new in
        Post-bind (λ n s'. Same A D after s' × (after n ≡ some new))
          (λ (k : YkoathKey A) s'. Same A D after s' × (after k.name ≡ some new)) CardFailed
          (name_by_id A id) (λ name. lift (ok (record { name = name }))) s
          (Ensures-weaken (λ n s'. Same A D after s' × Named A D after id n)
            (λ n s'. Same A D after s' × (after n ≡ some new)) (NotFound A D after id) CardFailed
            (name_by_id A id s).0 (name_by_id A id s).1
            (λ n (same', named). (same', Named-new n named))
            (λ e. from_library e (name_by_id A id s).0) (name_by_id-Post A D after id s same))
          (λ n s' h. h)

    code-Post :
        (k : YkoathKey A) (timestep now : ℕ) (s : A.Card)
        → Same A D after s
        → after k.name ≡ some new
        → Post
            (λ code s'.
              Same A D after s' × (code ≡ D.mac new (put_uint64 (time_counter now timestep))))
            CardFailed
            (handshake_secret (hmac A k) timestep now)
            s
    unfolding handshake_secret handshake_totp handshake_hotp hmac
    code-Post k timestep now s same there =
        let chal = put_uint64 (time_counter now timestep) in
        let Good : Bytes → A.Card → Type 0 =
          λ code s'. Same A D after s' × (code ≡ D.mac new chal) in
        let Made : Bytes → A.Card → Type 0 = λ code s'.
          Same A D after s'
          × ((c : Cred A.Algorithm) × (after k.name ≡ some c) × (code ≡ D.mac c chal)) in
        Post-bind Good Good CardFailed (from_card (A.calculate k.name chal))
          (λ code. lift (ok code)) s
          (Ensures-weaken Made Good (Failed A D after) CardFailed
            (from_card (A.calculate k.name chal) s).0 (from_card (A.calculate k.name chal) s).1
            (λ code (same', (c, there', made)). (
              same',
              let one : some new ≡ some c = sym there ∙ there' in
                  let key : c ≡ new = cc in rw key at made,
            ))
            (λ e h. h.1)
            (from_card-Post A D Made after (A.calculate k.name chal) s
              (rw same at (D.calculate_lem k.name chal s))))
          (λ code s' h. h)

    -- On a card that behaves as documented, and on which no key has the identifier of the new one: a
    -- key that is created from a secret, opened by the identifier that this returns and used in an OATH
    -- handshake gives the HMAC of the counter of the time, in eight bytes, under that secret, and
    -- leaves the card with the new key under its label and all others; or the library of the card
    -- failed.
    pub created_secret-Post :
        (timestep now : ℕ) (s : A.Card)
        → Same A D v s
        → Post
            (λ code s'.
              Same A D after s' × (code ≡ D.mac new (put_uint64 (time_counter now timestep))))
            CardFailed
            (created_secret label secret timestep now)
            s
    created_secret-Post timestep now s same =
        let Good : Bytes → A.Card → Type 0 = λ code s'.
          Same A D after s' × (code ≡ D.mac new (put_uint64 (time_counter now timestep))) in
        Post-bind (λ id s'. Same A D after s' × (id ≡ ident A D new)) Good CardFailed
          (create_key_from_secret A label secret) _ s (create-Post s same)
          λ id s' (same', is). rw is (
            Post-bind (λ (k : YkoathKey A) s''. Same A D after s'' × (after k.name ≡ some new)) Good
              CardFailed (open_key A (ident A D new))
              (λ k. handshake_secret (hmac A k) timestep now) s' (open-Post s' same')
              (λ k s'' (same'', there). code-Post k timestep now s'' same'' there))
