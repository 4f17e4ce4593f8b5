-- ===== src/Provider/Multi/Joined.antt =====
-- provider/multi.go: the keys of joined sources, and the sources that NewProvider makes.
use go_skes.Prelude.{
  ℕ, ◌+◌, ◌≡◌, refl, sym, ap, ◌∙◌, List, [], ◌∷◌, ◌++◌, arith, append_assoc, length, length-append,
  Bytes, Outcome, ok, err, panic, stuck, map_err, map_err-eq-ok,
}
use go_skes.Prelude.Exec.{resume-eq-ok, Exec, resume, lift, ◌>>=◌}
use go_skes.Provider.Multi.{
  Provider, establish, cards_failed, tpms_failed, create_failed, System, Config, Constructor, std,
  per_card, per_tpm, func_std, func_card, MultiProvider, make_each, keys, open_tpms, construct,
  construct_all, new_provider,
}

module _ {S E : Type 0} where
  abbrev then_return : {A B : Type 0} → Exec S E A → (A → B) → Exec S E B
  then_return m f = m >>= λ a. lift (ok (f a))

  return_same : {A : Type 0} (s : S) (r : Outcome E A) → resume s r (λ a. lift (ok a)) ≡ (s, r)
  return_same s (ok a) = refl
  return_same s (err e) = refl
  return_same s panic = refl
  return_same s stuck = refl

  return_append :
      (ids xs : List Bytes) (s : S) (r : Outcome E (List Bytes))
      → resume
          (resume s r (λ ys. lift (ok (xs ++ ys)))).0
          (resume s r (λ ys. lift (ok (xs ++ ys)))).1
          (λ all. lift (ok (ids ++ all)))
        ≡ resume s r (λ ys. lift (ok ((ids ++ xs) ++ ys)))
  return_append ids xs s (ok ys) = ap (λ l. (s, ok l)) (sym (append_assoc ids xs ys))
  return_append ids xs s (err e) = refl
  return_append ids xs s panic = refl
  return_append ids xs s stuck = refl

  -- Listing after some keys, in the two ways of putting the calls together.
  append_after :
      (ids : List Bytes) (second : Exec S E (List Bytes)) (s : S) (r : Outcome E (List Bytes))
      → (then_return
            (λ s'. resume s r (λ xs. then_return second (λ ys. xs ++ ys)))
            (λ all. ids ++ all))
          s
        ≡ ((λ s'. resume s r (λ all. lift (ok (ids ++ all)))) >>= λ xs.
              then_return second (λ ys. xs ++ ys))
            s
  append_after ids second s (ok xs) = return_append ids xs (second s).0 (second s).1
  append_after ids second s (err e) = refl
  append_after ids second s panic = refl
  append_after ids second s stuck = refl

-- The keys of two lists of sources in a row are those of the first followed by those of the second,
-- with the calls in that order, and the first error of either ends the listing.
pub keys-append :
    {S E K : Type 0} (ps qs : List (Provider S E K)) (s : S)
    → keys (ps ++ qs) s ≡ (do xs ← keys ps; ys ← keys qs; lift (ok (xs ++ ys))) s
unfolding keys
keys-append [] qs s = sym (return_same (keys qs s).0 (keys qs s).1)
keys-append {S} {E} {K} (p ∷ ps) qs s = go (p.keys s).0 (p.keys s).1 (keys-append ps qs)
  where
    go :
        (s : S) (r : Outcome E (List Bytes))
        → ((s' : S)
            → keys (ps ++ qs) s' ≡ (keys ps >>= λ xs. then_return (keys qs) (λ ys. xs ++ ys)) s')
        → resume s r (λ ids. then_return (keys (ps ++ qs)) (λ all. ids ++ all))
          ≡ ((λ s'. resume s r (λ ids. then_return (keys ps) (λ all. ids ++ all))) >>= λ xs.
                then_return (keys qs) (λ ys. xs ++ ys))
              s
    go s (ok ids) ih =
        ap (λ x. resume x.0 x.1 (λ all. lift (ok (ids ++ all)))) (ih s)
        ∙ append_after ids (keys qs) (keys ps s).0 (keys ps s).1
    go s (err e) ih = refl
    go s panic ih = refl
    go s stuck ih = refl

-- How many sources a constructor makes of so many cards and devices.
abbrev pub made_by : {S E K C T : Type 0} → ℕ → ℕ → Constructor S E K C T → ℕ
made_by cards tpms (std ctor) = 1
made_by cards tpms (per_card ctor) = cards
made_by cards tpms (per_tpm ctor) = tpms
made_by cards tpms (func_std ctor) = 0
made_by cards tpms (func_card ctor) = 0

abbrev pub made_by_all : {S E K C T : Type 0} → ℕ → ℕ → List (Bytes × Constructor S E K C T) → ℕ
made_by_all cards tpms [] = 0
made_by_all cards tpms ((name, ctor) ∷ ctors) =
    made_by cards tpms ctor + made_by_all cards tpms ctors

length-make_each :
    {S E P C : Type 0} (ctor : C → Exec S E P) (cs : List C) (s : S) (ps : List P)
    → (make_each ctor cs s).1 ≡ ok ps
    → length ps ≡ length cs
unfolding make_each
length-make_each ctor [] s ps h = let none_made : [] ≡ ps = cc in rw (← none_made) refl
length-make_each ctor (c ∷ cs) s ps h =
    let (p, one, after) = resume-eq-ok (ctor c s).0 (ctor c s).1 _ h in
    let s' = (ctor c s).0 in
    let (rest, others, last) =
      resume-eq-ok (make_each ctor cs s').0 (make_each ctor cs s').1 _ after in
    let made : p ∷ rest ≡ ps = cc in
    rw (← made) (omega (arith, length-make_each ctor cs s' rest others))

module _ {S E K : Type 0} (sys : System S E) (cards : List sys.Card) (tpms : List sys.Tpm) where
  length-construct :
      (ctor : Constructor S E K sys.Card sys.Tpm) (s : S) (ps : List (Provider S E K))
      → (construct sys cards tpms ctor s).1 ≡ ok ps
      → length ps ≡ made_by (length cards) (length tpms) ctor
  unfolding construct
  length-construct (std ctor) s ps h =
      let (p, one, after) = resume-eq-ok (ctor s).0 (ctor s).1 _ h in
      let made : p ∷ [] ≡ ps = cc in rw (← made) refl
  length-construct (per_card ctor) s ps h = length-make_each ctor cards s ps h
  length-construct (per_tpm ctor) s ps h = length-make_each ctor tpms s ps h
  length-construct (func_std ctor) s ps h = let none_made : [] ≡ ps = cc in rw (← none_made) refl
  length-construct (func_card ctor) s ps h = let none_made : [] ≡ ps = cc in rw (← none_made) refl

  length-construct_all :
      (ctors : List (Bytes × Constructor S E K sys.Card sys.Tpm)) (s : S)
      (ps : List (Provider S E K))
      → (construct_all sys cards tpms ctors s).1 ≡ ok ps
      → length ps ≡ made_by_all (length cards) (length tpms) ctors
  unfolding construct_all
  length-construct_all [] s ps h = let none_made : [] ≡ ps = cc in rw (← none_made) refl
  length-construct_all ((name, ctor) ∷ ctors) s ps h =
      let (m, one, after) =
        resume-eq-ok (construct sys cards tpms ctor s).0
          (map_err (create_failed name) (construct sys cards tpms ctor s).1) _ h in
      let s' = (construct sys cards tpms ctor s).0 in
      let (rest, others, last) =
        resume-eq-ok (construct_all sys cards tpms ctors s').0
          (construct_all sys cards tpms ctors s').1 _ after in
      let made : m ++ rest ≡ ps = cc in
      let here : length m ≡ made_by (length cards) (length tpms) ctor =
        length-construct ctor s m (map_err-eq-ok _ _ one) in
      let there : length rest ≡ made_by_all (length cards) (length tpms) ctors =
        length-construct_all ctors s' rest others in
      rw (← made) (omega (arith, length-append m rest, here, there))

-- Where NewProvider succeeds, it has one source for each newProviderStd, one for each card that was
-- opened for a newProviderCard, one for each device for a NewProviderTPM, and none for a function of
-- an undefined type: whatever the order of its loop over the registered values.
pub new_provider-length :
    {S E K : Type 0} (sys : System S E) (cfg : Config) (fuel : ℕ)
    (registry : List (Bytes × Constructor S E K sys.Card sys.Tpm)) (s : S)
    (p : MultiProvider S E K sys.Card sys.Tpm)
    → (new_provider sys cfg fuel registry s).1 ≡ ok p
    → length p.providers ≡ made_by_all (length p.cards) (length p.tpms) registry
unfolding new_provider
new_provider-length {S} {E} sys cfg fuel registry s p h =
    let (u, context, h1) =
      resume-eq-ok (sys.establish_context s).0 (map_err establish (sys.establish_context s).1) _
        h in
    let s1 = (sys.establish_context s).0 in
    let (cards, opened, h2) =
      resume-eq-ok (sys.open_cards s1).0 (map_err cards_failed (sys.open_cards s1).1) _ h1 in
    let s2 = (sys.open_cards s1).0 in
    let (tpms, found, h3) =
      resume-eq-ok (open_tpms sys cfg fuel s2).0 (map_err tpms_failed (open_tpms sys cfg fuel s2).1)
        _ h2 in
    let s3 = (open_tpms sys cfg fuel s2).0 in
    let (ps, all, h4) =
      resume-eq-ok (construct_all sys cards tpms registry s3).0
        (construct_all sys cards tpms registry s3).1 _ h3 in
    let made : record { cards = cards; tpms = tpms; providers = ps } ≡ p = cc in
    rw (← made) (length-construct_all sys cards tpms registry s3 ps all)
