-- ===== src/Ecdh/Pkcs11/Noise.antt =====
-- ecdh/pkcs11/pkcs11.go: the arrays of 32 bytes that the client returns.
use go_skes.Prelude.{
  ℕ, zero, suc, ◌-◌, ◌≡◌, ◌<◌, ◌≤◌, refl, Bool, true, false, [], ◌∷◌, ◌++◌, ltb, leb, arith,
  if◌then◌else◌, length, take, length-append, length-take, length-drop, drop-append, Bytes, Outcome,
  ok, panic, inl, inr, Bool-cases, map_err, lt→ltb,
}
use go_skes.Prelude.Exec.{lift, ◌>>=◌, resume-eq-ok, guarded-eq-ok}
use go_skes.Ecdh.Pkcs11.{
  Slice, attr_template, Library, Error, library, login_first, zeros, last_bytes, PkClient,
  slice_secret, public_key_noise, derive_noise,
}

length-zeros : (n : ℕ) → length (zeros n) ≡ n
length-zeros zero = refl
length-zeros (suc n) = omega (arith, length-zeros n)

last_bytes-append : (front key : Bytes) → length key ≡ 32 → last_bytes (front ++ key) ≡ key
last_bytes-append [] key h = rw h refl
last_bytes-append (x ∷ front) key h =
    let size = length-append (x ∷ front) key in
    let more : 32 < length ((x ∷ front) ++ key) = omega (arith, size) in
    let skip : length ((x ∷ front) ++ key) - 32 ≡ length (x ∷ front) = omega (arith, size) in
    rw (lt→ltb 32 (length ((x ∷ front) ++ key)) more, skip) (drop-append (x ∷ front) key)

ltb-append : (front key : Bytes) → length key ≡ 32 → ltb (length (front ++ key)) 32 ≡ false
ltb-append front key h = ground (arith, length-append front key)

length-last_bytes : (key : Bytes) → 32 ≤ length key → length (last_bytes key) ≡ 32
length-last_bytes key h = elim (Bool-cases (ltb 32 (length key))) [
  | inl more ↦ rw more (omega (arith, length-drop (length key - 32) key))
  | inr same ↦ rw same (ground arith)
]

length-returned :
    (key : Bytes) → length (if ltb (length key) 32 then zeros 32 else last_bytes key) ≡ 32
length-returned key = elim (Bool-cases (ltb (length key) 32)) [
  | inl short ↦ rw short refl
  | inr long ↦ rw long (length-last_bytes key (ground arith))
]

module _ {S E : Type 0} (L : Library S E) where
  -- The token gives a public key of 32 bytes, or one with a prefix before these: PublicKeyNoise
  -- returns the 32 bytes.
  pub public_key_noise-append :
      (c : PkClient L) (front key : Bytes) (s s' : S)
      → c.logged_in ≡ true
      → length key ≡ 32
      → L.value c.pub_key_obj s ≡ (s', ok (front ++ key))
      → public_key_noise L c s ≡ (s', ok key)
  unfolding public_key_noise
  public_key_noise-append c front key s s' logged h value =
      rw (public_key_noise, logged, value, ltb-append front key h, last_bytes-append front key h)
        refl

  -- A public key of fewer than 32 bytes is no error: PublicKeyNoise returns 32 zero bytes.
  pub public_key_noise_short :
      (c : PkClient L) (key : Bytes) (s s' : S)
      → c.logged_in ≡ true
      → length key < 32
      → L.value c.pub_key_obj s ≡ (s', ok key)
      → public_key_noise L c s ≡ (s', ok (zeros 32))
  unfolding public_key_noise
  public_key_noise_short c key s s' logged h value =
      rw (public_key_noise, logged, value, lt→ltb (length key) 32 h) refl

  length-slice_secret : (t : Slice) (k : Bytes) → slice_secret L t ≡ ok k → length k ≡ 32
  length-slice_secret t k = go (leb 32 (length (t.content ++ t.spare))) refl
    where
      go :
          (b : Bool)
          → leb 32 (length (t.content ++ t.spare)) ≡ b
          → ◌≡◌ {A = Outcome (Error E) Bytes}
              (if b then ok (take 32 (t.content ++ t.spare)) else panic)
              (ok k)
          → length k ≡ 32
      go true e h =
          let is : take 32 (t.content ++ t.spare) ≡ k = cc in
          rw (← is) (length-take 32 (t.content ++ t.spare) (ground arith))
      go false e h = cc

  length-key :
      (c : PkClient L) (s : S) (k : Bytes) → (public_key_noise L c s).1 ≡ ok k → length k ≡ 32
  unfolding public_key_noise
  length-key c s k h =
      let (v, read, made) =
        resume-eq-ok (L.value c.pub_key_obj s).0 (map_err library (L.value c.pub_key_obj s).1)
          (λ v. lift (ok (if ltb (length v) 32 then zeros 32 else last_bytes v)))
          (guarded-eq-ok c.logged_in login_first _ s h) in
      let is : (if ltb (length v) 32 then zeros 32 else last_bytes v) ≡ k = cc in
      rw (← is) (length-returned v)

  length-secret :
      (c : PkClient L) (peer : Bytes) (s : S) (k : Bytes)
      → (derive_noise L c peer s).1 ≡ ok k
      → length k ≡ 32
  unfolding derive_noise
  length-secret c peer s k h =
      let m = L.derive_key c.priv_key_obj (record { peer = peer }) attr_template in
      let (t, derived, after) =
        resume-eq-ok (m s).0 (map_err library (m s).1)
          (λ t. lift (slice_secret L t) >>= λ x. lift (ok x))
          (guarded-eq-ok c.logged_in login_first _ s h) in
      let (x, sliced, made) = resume-eq-ok (m s).0 (slice_secret L t) (λ x. lift (ok x)) after in
      let is : x ≡ k = cc in rw (← is) (length-slice_secret t x sliced)

  -- What PublicKeyNoise and DeriveNoise return is 32 bytes long, whatever the token gives.
  pub length-noise :
      (c : PkClient L) (peer : Bytes) (s : S) (key secret : Bytes)
      → (public_key_noise L c s).1 ≡ ok key
      → (derive_noise L c peer s).1 ≡ ok secret
      → (length key ≡ 32) × (length secret ≡ 32)
  length-noise c peer s key secret h k = (length-key c s key h, length-secret c peer s secret k)
