-- ===== src/Provider/Applese/Ownership.antt =====
-- The references that the program owns to objects of the Security framework, through the calls of
-- ecdh/applese/applese.go that make, retain and release them.
use go_skes.Prelude.{
  ◌≡◌, refl, ◌∙◌, List, [], ◌∷◌, ◌==◌, true, arith, Outcome, ok, err, panic, stuck,
}
use go_skes.Prelude.Exec.{Exec}
use go_skes.Prelude.Post.{Ensures, Post}
use go_skes.Ecdh.PublicKey.{Crypto}
use go_skes.Ecdh.Applese
use go_skes.Ecdh.Applese.{Ref, Framework, deferred, retain_all}
use go_skes.Provider.Applese.Keychain.{Item, Refs, View, one, Adds, Drops, Kept, Own, Keychain}

one_refl : (r : Ref) → one r r ≡ 1
one_refl r = let same : (r == r) ≡ true = ground arith in rw same refl

module _ {S : Type 0} (V : View S) where
  pub Kept-refl : (s : S) → Kept V s s
  Kept-refl s = (refl, λ r. omega arith, λ k it h is. is, λ k d h is. is)

  pub Kept-trans : (s s' s'' : S) → Kept V s s' → Kept V s' s'' → Kept V s s''
  Kept-trans s s' s'' (chain, held, key, datum) (chain', held', key', datum') = (
    chain' ∙ chain,
    λ r. omega (arith, held r, held' r),
    λ k it h is. key' k it (omega (arith, h, held k)) (key k it h is),
    λ k d h is. datum' k d (omega (arith, h, held k)) (datum k d h is),
  )

  pub Adds-Kept : (s : S) (r : Ref) (s' : S) → Adds V s r s' → Kept V s s'
  Adds-Kept s r s' (chain, held, key, datum) =
      (chain, λ r'. omega (arith, held r'), λ k it h is. key k it is, λ k d h is. datum k d is)

  -- An object that is made, used and released leaves what there was before it.
  pub Drops-Kept :
      (s0 : S) (r : Ref) (s1 s2 s3 : S)
      → Adds V s0 r s1
      → Kept V s1 s2
      → Drops V s2 r s3
      → Kept V s0 s3
  Drops-Kept s0 r s1 s2 s3 (chain, held, key, datum) (chain', held', key', datum')
        (chain'', held'', key'', datum'') =
      (
        chain'' ∙ (chain' ∙ chain),
        λ r'. omega (arith, held r', held' r', held'' r'),
        λ k it h is.
            key'' k it (omega (arith, h, held k, held' k, held'' k))
              (key' k it (omega (arith, h, held k)) (key k it is)),
        λ k d h is.
            datum'' k d (omega (arith, h, held k, held' k, held'' k))
              (datum' k d (omega (arith, h, held k)) (datum k d is)),
      )

  pub Drops-Own :
      (s0 : S) (r : Ref) (s1 : S) (k : Ref) (it : Item) (s2 s3 : S)
      → Adds V s0 r s1
      → Own V s1 k it s2
      → Drops V s2 r s3
      → Own V s0 k it s3
  Drops-Own s0 r s1 k it s2 s3 (chain, held, key, datum) (is, more) (chain', held', key', datum') =
      (key' k it (omega (arith, more, held k, held' k)) is, omega (arith, more, held k, held' k))

  pub Own-since :
      (s0 s1 : S) (k : Ref) (it : Item) (s2 : S)
      → Kept V s0 s1
      → Own V s1 k it s2
      → Own V s0 k it s2
  Own-since s0 s1 k it s2 (chain, held, key, datum) (is, more) = (is, omega (arith, more, held k))

  pub Own-Kept :
      (s0 : S) (k : Ref) (it : Item) (s1 s2 : S)
      → Own V s0 k it s1
      → Kept V s1 s2
      → Own V s0 k it s2
  Own-Kept s0 k it s1 s2 (is, more) (chain, held, key, datum) =
      (key k it (omega (arith, more)) is, omega (arith, more, held k))

  pub Adds-Own :
      (s : S) (k : Ref) (it : Item) (s' : S) → Adds V s k s' → V.IsKey s' k it → Own V s k it s'
  Adds-Own s k it s' (chain, held, key, datum) is = (is, omega (arith, held k, one_refl k))

  -- The same for a list of references.
  pub Refs-map :
      (P Q : Ref → Item → Type 0) (refs : List Ref) (items : List Item)
      → ((k : Ref) (it : Item) → P k it → Q k it)
      → Refs P refs items
      → Refs Q refs items
  Refs-map P Q [] [] f h = tt
  Refs-map P Q [] (it ∷ items) f h = h
  Refs-map P Q (r ∷ refs) [] f h = h
  Refs-map P Q (r ∷ refs) (it ∷ items) f (h, hs) = (f r it h, Refs-map P Q refs items f hs)

module _ {S : Type 0} (F : Framework S) (C : Crypto) (D : Keychain F C) where
  pub retain_all-Own :
      (refs : List Ref) (items : List Item) (s : S)
      → Refs (D.view.IsKey s) refs items
      → Kept D.view s (retain_all F refs s)
        × Refs (λ k it. Own D.view s k it (retain_all F refs s)) refs items
  retain_all-Own [] [] s is = (Kept-refl D.view s, tt)
  retain_all-Own [] (it ∷ items) s is = absurd is
  retain_all-Own (r ∷ refs) [] s is = absurd is
  retain_all-Own (r ∷ refs) (it ∷ items) s (is, hs) =
      let V = D.view in
      let s' = F.retain r s in
      let adds = D.retain_lem r s in
      let (chain, held, key, datum) = adds in
      let kept = Adds-Kept V s r s' adds in
      let (kept', own) =
        retain_all-Own refs items s' (Refs-map V (V.IsKey s) (V.IsKey s') refs items key hs) in
      let end = retain_all F refs s' in
      (
        Kept-trans V s s' end kept kept',
        (
          Own-Kept V s r it s' end (Adds-Own V s r it s' adds (key r it is)) kept',
          Refs-map V (λ k i. Own V s' k i end) (λ k i. Own V s k i end) refs items
              (λ k i o. Own-since V s s' k i end kept o) own,
        ),
      )

  -- What holds of a result in a world, given the one that the call started from, and still does where
  -- an object that was made before is released after it.
  abbrev pub Droppable : {A : Type 0} → (S → A → S → Type 0) → Type 0
  Droppable {A} P =
      (s0 : S) (r : Ref) (s1 : S) (a : A) (s2 s3 : S)
      → Adds D.view s0 r s1
      → Drops D.view s2 r s3
      → P s1 a s2
      → P s0 a s3

  -- A world with all references of a given one, and their objects.
  abbrev pub Since : {E : Type 0} → S → E → S → Type 0
  Since s e s' = Kept D.view s s'

  Ensures-Drops :
      {A : Type 0} (P : S → A → S → Type 0) (s0 : S) (r : Ref) (s1 s2 s3 : S)
      (x : Outcome Applese.Error A)
      → Droppable P
      → Adds D.view s0 r s1
      → Drops D.view s2 r s3
      → Ensures (P s1) (Since s1) s2 x
      → Ensures (P s0) (Since s0) s3 x
  Ensures-Drops P s0 r s1 s2 s3 (ok a) stable adds drops h = stable s0 r s1 a s2 s3 adds drops h
  Ensures-Drops P s0 r s1 s2 s3 (err e) stable adds drops h =
      Drops-Kept D.view s0 r s1 s2 s3 adds h drops
  Ensures-Drops P s0 r s1 s2 s3 panic stable adds drops h = h
  Ensures-Drops P s0 r s1 s2 s3 stuck stable adds drops h = h

  pub deferred-Post :
      {A : Type 0} (P : S → A → S → Type 0) (s0 : S) (r : Ref) (s1 s : S)
      (m : Exec S Applese.Error A)
      → Droppable P
      → Adds D.view s0 r s1
      → Ensures (P s1) (Since s1) (m s).0 (m s).1
      → Post (P s0) (Since s0) (deferred F r m) s
  deferred-Post P s0 r s1 s m stable adds h =
      Ensures-Drops P s0 r s1 (m s).0 (F.release r (m s).0) (m s).1 stable adds
        (D.release_lem r (m s).0) h
