-- ===== src/Ecdh/Pkcs11/Sessions.antt =====
-- ecdh/pkcs11/pkcs11.go: the sessions that New opens on a token.
use go_skes.Prelude.{
  ℕ, zero, suc, ◌≡◌, ◌<◌, ◌≤◌, refl, Bool, true, false, List, [], ◌∷◌, none, some, arith, get_elem?,
  length, Bytes, Outcome, ok, err, panic, stuck, map_err,
}
use go_skes.Prelude.Exec.{lift, ◌>>=◌, ◌>>◌}
use go_skes.Prelude.Post.{Ensures, Post, Post-bind}
use go_skes.Ecdh.Pkcs11.{
  Attribute, Library, Error, failed_to_load_library, slots_failed, session, login_failed,
  no_private_key, no_public_key, with_error, key_attrs, PkClient, find_derive_key, at_slot,
  new_client,
}

get_elem?-lt : {A : Type 0} (l : List A) (i : ℕ) → i < length l → (x : A) × (get_elem? l i ≡ some x)
get_elem?-lt [] i h = absurd (omega arith)
get_elem?-lt (x ∷ l) zero h = (x, refl)
get_elem?-lt (x ∷ l) (suc i) h = get_elem?-lt l i (omega arith)

get_elem?-le : {A : Type 0} (l : List A) (i : ℕ) → length l ≤ i → get_elem? l i ≡ none
get_elem?-le [] i h = refl
get_elem?-le (x ∷ l) zero h = absurd (omega arith)
get_elem?-le (x ∷ l) (suc i) h = get_elem?-le l i (omega arith)

module _ {S E : Type 0} (L : Library S E) where
  -- The documented behaviour of the library: how many slots the token has, and how many sessions are
  -- open on it.
  pub record Counts : Type 0 where
    pub opened : S → ℕ
    pub slot_count : ℕ
    pub open_module_lem :
        (path : Bytes) (s : S)
        → Post (λ m s'. opened s' ≡ opened s) (λ e s'. opened s' ≡ opened s) (L.open_module path) s
    pub slots_lem :
        (m : L.Module) (s : S)
        → Post
            (λ l s'. (opened s' ≡ opened s) × (length l ≡ slot_count))
            (λ e s'. opened s' ≡ opened s)
            (L.slots m)
            s
    pub open_write_session_lem :
        (slot : L.Slot) (s : S)
        → Post
            (λ x s'. opened s' ≡ suc (opened s))
            (λ e s'. opened s' ≡ opened s)
            (L.open_write_session slot)
            s
    pub login_lem :
        (x : L.Session) (pin : Bytes) (s : S)
        → Post (λ u s'. opened s' ≡ opened s) (λ e s'. opened s' ≡ opened s) (L.login x pin) s
    pub find_object_lem :
        (x : L.Session) (attrs : List Attribute) (s : S)
        → Post
            (λ o s'. opened s' ≡ opened s)
            (λ e s'. opened s' ≡ opened s)
            (L.find_object x attrs)
            s

  -- The sessions that are open after a failure of New, where `n` were open before.
  abbrev pub left_open : Error E → ℕ → ℕ
  left_open (login_failed e) n = suc n
  left_open (no_private_key e) n = suc n
  left_open (no_public_key e) n = suc n
  left_open other n = n

  Ensures-with_error :
      {F A : Type 0} (good : A → S → Type 0) (same : S → Type 0) (bad : F → S → Type 0) (f : E → F)
      (s : S) (r : Outcome E A)
      → ((e : E) → same s → bad (f e) s)
      → Ensures good (λ e s'. same s') s r
      → Ensures good bad s (map_err f r)
  Ensures-with_error good same bad f s (ok a) k h = h
  Ensures-with_error good same bad f s (err e) k h = k e h
  Ensures-with_error good same bad f s panic k h = h
  Ensures-with_error good same bad f s stuck k h = h

  module _ (D : Counts) (n : ℕ) where
    abbrev Open : {A : Type 0} → ℕ → A → S → Type 0
    Open k a s = D.opened s ≡ k

    abbrev pub Left : Error E → S → Type 0
    Left e s = D.opened s ≡ left_open e n

    -- The end of New, with the session open.
    found-Post :
        (x : L.Session) (get_pub_key : Bool) (f : E → Error E) (s : S)
        → D.opened s ≡ suc n
        → ((e : E) (s' : S) → D.opened s' ≡ suc n → Left (f e) s')
        → Post (Open (suc n)) Left (with_error f (find_derive_key L x get_pub_key)) s
    unfolding find_derive_key
    found-Post x get_pub_key f s h fails =
        Ensures-with_error (Open (suc n)) (λ s'. D.opened s' ≡ suc n) Left f
          (find_derive_key L x get_pub_key s).0 (find_derive_key L x get_pub_key s).1
          (λ e. fails e (find_derive_key L x get_pub_key s).0)
          (Post-bind (Open (suc n)) (Open (suc n)) (λ e s'. D.opened s' ≡ suc n)
            (L.find_object x (key_attrs get_pub_key)) (λ key. lift (ok key)) s
            (rw h at (D.find_object_lem x (key_attrs get_pub_key) s)) (λ a s' k. k))

    -- A client whose session is open.
    abbrev pub Ready : PkClient L → S → Type 0
    Ready c s = (D.opened s ≡ suc n) × (c.logged_in ≡ true)

    logged_in-Post :
        (path pin : Bytes) (slot : ℕ) (m : L.Module) (x : L.Session) (s : S)
        → D.opened s ≡ suc n
        → Post Ready Left
            (do
              with_error login_failed (L.login x pin)
              priv ← with_error no_private_key (find_derive_key L x false)
              public ← with_error no_public_key (find_derive_key L x true)
              lift (
                  ok (record {
                    slot = slot;
                    session_obj = x;
                    logged_in = true;
                    priv_key_obj = priv;
                    pub_key_obj = public;
                    module_obj = m;
                  })))
            s
    logged_in-Post path pin slot m x s h =
        Post-bind (Open (suc n)) Ready Left (with_error login_failed (L.login x pin)) _ s
          (Ensures-with_error (Open (suc n)) (λ s'. D.opened s' ≡ suc n) Left login_failed
            (L.login x pin s).0 (L.login x pin s).1 (λ e k. k) (rw h at (D.login_lem x pin s)))
          λ u s1 h1.
            Post-bind (Open (suc n)) Ready Left
              (with_error no_private_key (find_derive_key L x false)) _ s1
              (found-Post x false no_private_key s1 h1 (λ e s' k. k))
              λ priv s2 h2.
                Post-bind (Open (suc n)) Ready Left
                  (with_error no_public_key (find_derive_key L x true)) _ s2
                  (found-Post x true no_public_key s2 h2 (λ e s' k. k)) (λ public s3 h3. (h3, refl))

  -- New, for a slot that the token has, succeeds with one more session open and the client logged in;
  -- or it fails before it opens a session, and leaves those that were open; or it fails when it logs
  -- in or looks for the keys, and leaves the session that it opened: no one closes it.
  pub new_client-Post :
      (D : Counts) (path pin : Bytes) (slot : ℕ) (s : S)
      → slot < D.slot_count
      → Post (Ready D (D.opened s)) (Left D (D.opened s)) (new_client L path slot pin) s
  unfolding new_client
  new_client-Post D path pin slot s fits =
      let n = D.opened s in
      Post-bind (Open D n n) (Ready D n) (Left D n)
        (with_error (λ e. failed_to_load_library) (L.open_module path)) _ s
        (Ensures-with_error (Open D n n) (λ s'. D.opened s' ≡ n) (Left D n)
          (λ e. failed_to_load_library) (L.open_module path s).0 (L.open_module path s).1 (λ e k. k)
          (D.open_module_lem path s))
        λ m s1 h1.
          Post-bind (λ l s'. (D.opened s' ≡ n) × (length l ≡ D.slot_count)) (Ready D n) (Left D n)
            (with_error slots_failed (L.slots m)) _ s1
            (Ensures-with_error (λ l s'. (D.opened s' ≡ n) × (length l ≡ D.slot_count))
              (λ s'. D.opened s' ≡ n) (Left D n) slots_failed (L.slots m s1).0 (L.slots m s1).1
              (λ e k. k) (rw h1 at (D.slots_lem m s1)))
            λ l s2 (h2, size).
              let (at, is) = get_elem?-lt l slot (rw (← size) at fits) in
              rw (at_slot, is)
                (Post-bind (Open D n (suc n)) (Ready D n) (Left D n)
                  (with_error (λ e. session) (L.open_write_session at)) _ s2
                  (Ensures-with_error (Open D n (suc n)) (λ s'. D.opened s' ≡ n) (Left D n)
                    (λ e. session) (L.open_write_session at s2).0 (L.open_write_session at s2).1
                    (λ e k. k) (rw h2 at (D.open_write_session_lem at s2)))
                  λ x s3 h3. logged_in-Post D n path pin slot m x s3 h3)

  -- New panics for a slot that is not in the list that the library gives.
  pub new_client-panic :
      (path pin : Bytes) (slot : ℕ) (m : L.Module) (l : List L.Slot) (s s1 s2 : S)
      → L.open_module path s ≡ (s1, ok m)
      → L.slots m s1 ≡ (s2, ok l)
      → length l ≤ slot
      → new_client L path slot pin s ≡ (s2, panic)
  unfolding new_client
  new_client-panic path pin slot m l s s1 s2 opens lists out =
      rw (new_client, opens, lists, at_slot, get_elem?-le l slot out) refl
