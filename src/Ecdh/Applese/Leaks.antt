-- ===== src/Ecdh/Applese/Leaks.antt =====
-- ecdh/applese/applese.go: the objects that PrivateKey.DH never releases.
use go_skes.Prelude.{
  ℕ, suc, ◌+◌, ◌≡◌, refl, [], ◌∷◌, ◌==◌, arith, Bytes, Outcome, ok, err, panic, stuck, Bool-cases,
  inl, inr,
}
use go_skes.Prelude.Exec.{Exec, lift, resume, ◌>>=◌, ◌>>◌}
use go_skes.Ecdh.Applese.{
  Ref, AttrName, AttrValue, Attrs, key_class, class_public, key_type, ec_sec_prime_random,
  key_size_in_bits, requested_size, ref, Framework, Error, cf_error, creating,
  generating_private_key, os_status, deferred, new_cf_data, new_cf_dictionary, go_error,
}
use go_skes.Ecdh.Applese.Balance.{Counted}
use go_skes.Ecdh.Applese.Device.{new_cf_number, load_public_key, dh}

-- What a call leaves of the object or of the error that its last step made: `kept` for a result, and
-- an error of the framework.
abbrev pub made_left : {A : Type 0} → ℕ → Outcome Error A → ℕ
made_left kept (ok a) = kept
made_left kept (err (cf_error code)) = 1
made_left kept other = 0

module _ {S : Type 0} (F : Framework S) where
  -- The calls that make a number, a public key or a shared secret: an object, or else an error.
  pub record Made (D : Counted F) : Type 0 where
    pub number_lem : (u : ℕ) (s : S) → D.live (F.number_create u s).0 ≡ suc (D.live s)
    pub with_data_lem :
        (d attrs : Ref) (s : S) → D.live (F.create_with_data d attrs s).0 ≡ suc (D.live s)
    pub exchange_lem :
        (k pk params : Ref) (s : S) → D.live (F.key_exchange k pk params s).0 ≡ suc (D.live s)

  module _ (D : Counted F) {A : Type 0} (more : Outcome Error A → ℕ) where
    abbrev pub Adds : Exec S Error A → Type 0
    Adds m = (s : S) → D.live (m s).0 ≡ more (m s).1 + D.live s

    deferred-Adds :
        (r : Ref) (m : Exec S Error A)
        → Adds m
        → (s : S) (n : ℕ) → D.live s ≡ suc n
        → D.live (deferred F r m s).0 ≡ more (m s).1 + n
    deferred-Adds r m h s n e = omega (arith, D.release_lem r (m s).0, h s, e)

    data-Adds :
        (d : Bytes) (f : Ref → Exec S Error A)
        → more (err creating) ≡ 0
        → ((r : Ref) → Adds (f r))
        → Adds (do r ← new_cf_data F d; deferred F r (f r))
    unfolding new_cf_data
    data-Adds d f none_left h s = elim (Bool-cases ((F.data_create d s).1 == 0)) [
      | inl nothing ↦ rw nothing (omega (arith, none_left, rw nothing at (D.data_lem d s)))
      | inr made ↦ rw made (
          deferred-Adds (F.data_create d s).1 (f (F.data_create d s).1) (h (F.data_create d s).1)
            (F.data_create d s).0 (D.live s) (rw made at (D.data_lem d s)))
    ]

    dictionary-Adds :
        (a : AttrName × AttrValue) (m : Attrs) (f : Ref → Exec S Error A)
        → ((r : Ref) → Adds (f r))
        → Adds (do r ← new_cf_dictionary F (a ∷ m); deferred F r (f r))
    unfolding new_cf_dictionary
    dictionary-Adds a m f h s =
        let made = F.dictionary_create (a ∷ m) s in
        deferred-Adds made.1 (f made.1) (h made.1) made.0 (D.live s) (D.dictionary_lem (a ∷ m) s)

  module _ (D : Counted F) (M : Made D) where
    number-Adds :
        {A : Type 0} (more : Outcome Error A → ℕ) (u : ℕ) (f : Ref → Exec S Error A)
        → ((r : Ref) → Adds D more (f r))
        → Adds D (λ r. suc (more r)) (do r ← new_cf_number F u; f r)
    unfolding new_cf_number
    number-Adds more u f h s =
        let made = F.number_create u s in omega (arith, h made.1 made.0, M.number_lem u s)

    loaded-Adds :
        (d attrs : Ref)
        → Adds D (made_left 1) (λ s.
          let made = F.create_with_data d attrs s in (go_error F made.2 >> lift (ok made.1)) made.0)
    unfolding go_error
    loaded-Adds d attrs s = elim (Bool-cases ((F.create_with_data d attrs s).2 == 0)) [
      | inl made ↦ rw made (omega (arith, M.with_data_lem d attrs s))
      | inr failed ↦ rw failed (omega (arith, M.with_data_lem d attrs s))
    ]

    load_public_key-Adds : (pk : Bytes) → Adds D (λ r. suc (made_left 1 r)) (load_public_key F pk)
    unfolding load_public_key
    load_public_key-Adds pk = number-Adds (made_left 1) 256 _ λ size.
        dictionary-Adds D (made_left 1) (key_class, class_public)
          ((key_type, ec_sec_prime_random) ∷ (key_size_in_bits, ref size) ∷ []) _
          λ attrs. data-Adds D (made_left 1) pk _ refl λ pk_cf. loaded-Adds pk_cf attrs

    exchanged-Adds :
        (k pk params : Ref)
        → Adds D (made_left 0) (λ s.
          let made = F.key_exchange k pk params s in
          (do go_error F made.2; deferred F made.1 (λ s'. (s', ok (F.data_bytes made.1 s'))))
            made.0)
    unfolding go_error
    exchanged-Adds k pk params s =
        let made = F.key_exchange k pk params s in
        elim (Bool-cases (made.2 == 0)) [
          | inl fine ↦
              rw fine (omega (arith, M.exchange_lem k pk params s, D.release_lem made.1 made.0))
          | inr failed ↦ rw failed (omega (arith, M.exchange_lem k pk params s))
        ]

    -- The rest of DH, behind the public key.
    resume-Adds :
        (r : Outcome Error Ref) (f : Ref → Exec S Error Bytes) (n : ℕ) (s : S)
        → ((pk : Ref) → Adds D (made_left 0) (f pk))
        → D.live s ≡ suc (made_left 1 r) + n
        → D.live (resume s r (λ pk. deferred F pk (f pk))).0
          ≡ suc (made_left 0 (resume s r (λ pk. deferred F pk (f pk))).1) + n
    resume-Adds (ok pk) f n s h e =
        omega (arith, deferred-Adds D (made_left 0) pk (f pk) (h pk) s (suc n) (omega (arith, e)))
    resume-Adds (err (cf_error code)) f n s h e = omega (arith, e)
    resume-Adds (err creating) f n s h e = omega (arith, e)
    resume-Adds (err generating_private_key) f n s h e = omega (arith, e)
    resume-Adds (err (os_status v)) f n s h e = omega (arith, e)
    resume-Adds panic f n s h e = omega (arith, e)
    resume-Adds stuck f n s h e = omega (arith, e)

    -- Where each call that makes an object, or an error in its place, adds one reference, and a release
    -- gives one back, a call of DH leaves two references more than before, however it ends, and
    -- a third one where it returns an error of the framework.
    pub dh-live :
        (k : Ref) (pk : Bytes) (s : S)
        → D.live (dh F k pk s).0 ≡ 2 + made_left 0 (dh F k pk s).1 + D.live s
    unfolding dh
    dh-live k pk s = omega (
      arith,
      number-Adds (λ r. suc (made_left 0 r)) 32 _
          (λ size.
            dictionary-Adds D (λ r. suc (made_left 0 r)) (requested_size, ref size) [] _
              λ params s'.
                resume-Adds (load_public_key F pk s').1 _ (D.live s') (load_public_key F pk s').0
                  (λ pk_ref. exchanged-Adds k pk_ref params) (load_public_key-Adds pk s'))
          s,
    )
