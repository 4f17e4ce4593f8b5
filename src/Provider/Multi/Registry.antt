-- ===== src/Provider/Multi/Registry.antt =====
-- The registration of sources in provider/applese.go, provider/file.go and provider/ykoath.go, and
-- what NewProvider of provider/multi.go makes of it.
use mathlib.Core.List.Permᴰ
use mathlib.Core.Path.{fun_ext}
use mathlib.Core.List.Permᴰ.{Permᴰ}
use go_skes.Prelude.{
  ℕ, ◌≡◌, ◌∙◌, Outcome, refl, sym, ap, Bool, true, false, Bool-cases, inl, inr, bytes_equal, List,
  [], ◌∷◌, All, Bytes, arith, length, ok, codes, if◌then◌else◌,
}
use go_skes.Prelude.Exec.{Exec, lift, ◌>>=◌, ◌>>◌}
use go_skes.Provider.Lookup.{All-Perm}
use go_skes.Provider.Multi.Joined.{new_provider-length}
use go_skes.Provider.Multi.{
  Provider, Error, System, Config, Constructor, std, per_card, per_tpm, func_std, func_card,
  register, construct, MultiProvider, construct_all, keys, wrap, plain, establish, cards_failed,
  tpms_failed, open_tpms, new_provider, as_provider,
}

-- The map of the registered values.
abbrev pub Registry : (S E K C T : Type 0) → Type 0
Registry S E K C T = List (Bytes × Constructor S E K C T)

module _ {S E K C T : Type 0} where
  -- The functions init of the three files.
  unfoldable pub init_applese : Exec S E (Provider S E K) → Registry S E K C T → Registry S E K C T
  unfolding register
  init_applese new_applese_provider = register (codes "AppleSE") (func_std new_applese_provider)

  unfoldable pub init_file : Exec S E (Provider S E K) → Registry S E K C T → Registry S E K C T
  unfolding register
  init_file new_file_provider = register (codes "File") (func_std new_file_provider)

  unfoldable pub init_ykoath :
      (C → Exec S E (Provider S E K)) → Registry S E K C T → Registry S E K C T
  unfolding register
  init_ykoath new_ykoath_provider = register (codes "YKOATH") (func_card new_ykoath_provider)

  -- The registry when the program has started: applese.go is a file of the package on macOS alone.
  unfoldable pub started :
      Bool
      → Exec S E (Provider S E K)
      → Exec S E (Provider S E K)
      → (C → Exec S E (Provider S E K))
      → Registry S E K C T
  unfolding init_applese init_file init_ykoath
  started is_darwin applese file ykoath =
      init_ykoath ykoath (init_file file (if is_darwin then init_applese applese [] else []))

  -- A function of an undefined type.
  abbrev pub IsFunc : Bytes × Constructor S E K C T → Type 0
  IsFunc (name, std ctor) = ⊥
  IsFunc (name, per_card ctor) = ⊥
  IsFunc (name, per_tpm ctor) = ⊥
  IsFunc (name, func_std ctor) = Unit {0}
  IsFunc (name, func_card ctor) = Unit {0}

  register-IsFunc :
      (name : Bytes) (c : Constructor S E K C T) (registry : Registry S E K C T)
      → IsFunc (name, c)
      → All IsFunc registry
      → All IsFunc (register name c registry)
  unfolding register
  register-IsFunc name c [] h hs = (h, tt)
  register-IsFunc name c ((n, c') ∷ registry) h (h', hs) =
      let rest = register-IsFunc name c registry h hs in
      elim (Bool-cases (bytes_equal n name)) [
        | inl same ↦ rw same (h, hs)
        | inr other ↦ rw other (h', rest)
      ]

module _ {S E K : Type 0} (sys : System S E) where
  portable-IsFunc :
      (file : Exec S E (Provider S E K)) (ykoath : sys.Card → Exec S E (Provider S E K))
      (registry : Registry S E K sys.Card sys.Tpm)
      → All IsFunc registry
      → All IsFunc (init_ykoath ykoath (init_file file registry))
  unfolding init_file init_ykoath
  portable-IsFunc file ykoath registry h =
      register-IsFunc (codes "YKOATH") (func_card ykoath) _ tt
        (register-IsFunc (codes "File") (func_std file) registry tt h)

  started-IsFunc :
      (is_darwin : Bool) (applese file : Exec S E (Provider S E K))
      (ykoath : sys.Card → Exec S E (Provider S E K))
      → All (IsFunc {T = sys.Tpm}) (started is_darwin applese file ykoath)
  unfolding started init_applese
  started-IsFunc true applese file ykoath =
      portable-IsFunc file ykoath (init_applese applese [])
        (register-IsFunc {C = sys.Card} {T = sys.Tpm} (codes "AppleSE") (func_std applese) [] tt tt)
  started-IsFunc false applese file ykoath = portable-IsFunc file ykoath [] tt

  construct_all-IsFunc :
      (cards : List sys.Card) (tpms : List sys.Tpm) (registry : Registry S E K sys.Card sys.Tpm)
      (s : S)
      → All IsFunc registry
      → construct_all sys cards tpms registry s ≡ (s, ok [])
  unfolding construct_all construct
  construct_all-IsFunc cards tpms [] s h = refl
  construct_all-IsFunc cards tpms ((name, std ctor) ∷ registry) s (h, hs) = absurd h
  construct_all-IsFunc cards tpms ((name, per_card ctor) ∷ registry) s (h, hs) = absurd h
  construct_all-IsFunc cards tpms ((name, per_tpm ctor) ∷ registry) s (h, hs) = absurd h
  construct_all-IsFunc cards tpms ((name, func_std ctor) ∷ registry) s (h, hs) =
      rw (construct_all-IsFunc cards tpms registry s hs) refl
  construct_all-IsFunc cards tpms ((name, func_card ctor) ∷ registry) s (h, hs) =
      rw (construct_all-IsFunc cards tpms registry s hs) refl

  new_provider-IsFunc :
      (cfg : Config) (fuel : ℕ) (registry : Registry S E K sys.Card sys.Tpm) (s : S)
      → All IsFunc registry
      → new_provider sys cfg fuel registry s ≡ new_provider {K = K} sys cfg fuel [] s
  unfolding new_provider
  new_provider-IsFunc cfg fuel registry s h =
      let Made : Type 0 =
        List sys.Card → List sys.Tpm → S → S × Outcome (Error E) (List (Provider S E K)) in
      let same : ◌≡◌ {A = Made} (λ cards tpms s'. construct_all sys cards tpms registry s')
          (λ cards tpms s'. construct_all sys cards tpms [] s') =
        fun_ext λ cards. fun_ext λ tpms. fun_ext λ s'.
          construct_all-IsFunc cards tpms registry s' h
          ∙ sym (construct_all-IsFunc cards tpms [] s' tt) in
      ap
        (λ (make : Made).
          (do
            wrap establish sys.establish_context
            cards ← wrap cards_failed sys.open_cards
            tpms ← wrap tpms_failed (open_tpms sys cfg fuel)
            providers ← make cards tpms
            lift (ok (record { cards = cards; tpms = tpms; providers = providers })))
            s)
        same

  no_sources :
      (ps : List (Provider S E K)) (s : S) → length ps ≡ 0 → wrap plain (keys ps) s ≡ (s, ok [])
  unfolding keys
  no_sources [] s h = refl
  no_sources (p ∷ ps) s h = absurd (omega (arith, h))

  -- The values that the program registers when it starts are functions of undefined types, which the
  -- switch of NewProvider passes over: in whatever order it runs over the map, it does what it does
  -- with no value registered, and the provider that it returns never has a key, whichever there are
  -- in files, on cards and in the Secure Enclave.
  pub new_provider-started :
      (is_darwin : Bool) (applese file : Exec S E (Provider S E K))
      (ykoath : sys.Card → Exec S E (Provider S E K)) (registry : Registry S E K sys.Card sys.Tpm)
      (cfg : Config) (fuel : ℕ) (s : S)
      → Permᴰ registry (started is_darwin applese file ykoath)
      → (new_provider sys cfg fuel registry s ≡ new_provider {K = K} sys cfg fuel [] s)
        × ((p : MultiProvider S E K sys.Card sys.Tpm)
            → (new_provider sys cfg fuel registry s).1 ≡ ok p
            → (s' : S) → (as_provider p).keys s' ≡ (s', ok []))
  unfolding as_provider keys
  new_provider-started is_darwin applese file ykoath registry cfg fuel s perm =
      let h : All IsFunc registry =
        All-Perm IsFunc (Permᴰ.symm perm) (started-IsFunc is_darwin applese file ykoath) in
      (
        new_provider-IsFunc cfg fuel registry s h,
        λ p returned s'.
            let none_made : length p.providers ≡ 0 =
              new_provider-length sys cfg fuel [] s p
                (rw (new_provider-IsFunc cfg fuel registry s h) at returned) in
            no_sources p.providers s' none_made,
      )
