-- ===== src/Provider/Multi.antt =====
-- provider/provider.go, the interface of a source of keys, and provider/multi.go: sources of keys
-- joined into one.
use go_skes.Prelude.{
  ℕ, zero, suc, ◌+◌, Bool, true, false, ◌&&◌, not, List, [], ◌∷◌, ◌++◌, Option, none, some,
  bytes_equal, codes, if◌then◌else◌, Bytes, Outcome, ok, err, panic, stuck, map_err,
}
use go_skes.Prelude.Decimal.{decimal}
use go_skes.Prelude.Exec.{Exec, lift, ◌>>=◌, ◌>>◌}
pub mod Devices
pub mod Joined
pub mod Laws
pub mod Registry
pub mod Sources
mod Runs
mod SourceRuns
mod RegistryRuns

-- Provider: calls on a world of cards and files, with an opened key of the type `K`.
pub record Provider (S E K : Type 0) : Type 0 where
  pub keys : Exec S E (List Bytes)
  pub create_key : Bytes → Exec S E Bytes
  pub open_key : Bytes → Exec S E K
  pub destroy_key : Bytes → Exec S E (Unit {0})

-- An error of a source of keys or of a library, with the prefix that NewProvider gives it, and
-- errors.ErrUnsupported.
pub data Error (E : Type 0) : Type 0 where
  plain : E → Error E
  establish : E → Error E
  cards_failed : E → Error E
  tpms_failed : E → Error E
  create_failed : Bytes → E → Error E
  unsupported : Error E

-- The bits of fs.ModeType in an fs.FileMode.
pub record Mode : Type 0 where
  pub dir : Bool
  pub symlink : Bool
  pub named_pipe : Bool
  pub socket : Bool
  pub device : Bool
  pub char_device : Bool
  pub irregular : Bool

-- `err == nil && fi.Mode().Type() == fs.ModeCharDevice`: of these bits the one and no other.
unfoldable pub is_char_device : Option Mode → Bool
is_char_device none = false
is_char_device (some m) =
    m.char_device
    && (not m.device
        && (not m.dir
            && (not m.symlink && (not m.named_pipe && (not m.socket && not m.irregular)))))

-- What the code uses of the scard, go-iso7816 and go-tpm libraries and of os.Stat, none of it under
-- the repository. `open_cards` is pcsc.OpenCards with the filter of the configuration, `open_tpm` is
-- transport.OpenTPM with the paths that it is given, and `stat` is the mode that os.Stat returns for
-- a path, or `none` for an error.
pub record System (S E : Type 0) : Type 1 where
  pub Card : Type 0
  pub Tpm : Type 0
  pub establish_context : Exec S E (Unit {0})
  pub open_cards : Exec S E (List Card)
  pub open_tpm : List Bytes → Exec S E Tpm
  pub close_card : Card → Exec S E (Unit {0})
  pub close_tpm : Tpm → Exec S E (Unit {0})
  pub stat : Bytes → Option Mode

abbrev pub tpmrm_path : ℕ → Bytes
tpmrm_path i = codes "/dev/tpmrm" ++ decimal i

abbrev pub tpm_path : ℕ → Bytes
tpm_path i = codes "/dev/tpm" ++ decimal i

-- The loop of findTPMs from an index on, with the paths found before it.
unfoldable pub find_loop :
    {E : Type 0} → (Bytes → Option Mode) → ℕ → ℕ → List Bytes → Outcome E (List Bytes)
unfolding is_char_device
find_loop stat zero i paths = stuck
find_loop {E} stat (suc fuel) i paths =
    let found = λ (path : Bytes). find_loop {E = E} stat fuel (suc i) (paths ++ (path ∷ [])) in
    if is_char_device (stat (tpmrm_path i))
    then found (tpmrm_path i)
    else if is_char_device (stat (tpm_path i))
    then found (tpm_path i)
    else ok paths

-- findTPMs, in as many rounds as the fuel gives.
unfoldable pub find_tpms : {E : Type 0} → (Bytes → Option Mode) → ℕ → Outcome E (List Bytes)
unfolding find_loop
find_tpms stat fuel = find_loop stat fuel 0 []

-- MultiProviderConfig; a nil slice of paths and a nil filter are `none`. The filter of the cards is a
-- part of `open_cards`.
pub record Config : Type 0 where
  pub tpm_paths : Option (List Bytes)
  pub filter_tpms : Option (Bytes → Bool)

-- What is registered under a name, an `any`, by its dynamic type: a newProviderStd, a newProviderCard
-- or a NewProviderTPM; or a function as it is, whose type `func() (Provider, error)` or
-- `func(iso7816.PCSCCard) (Provider, error)` is none of these defined types.
pub data Constructor (S E K C T : Type 0) : Type 0 where
  std : Exec S E (Provider S E K) → Constructor S E K C T
  per_card : (C → Exec S E (Provider S E K)) → Constructor S E K C T
  per_tpm : (T → Exec S E (Provider S E K)) → Constructor S E K C T
  func_std : Exec S E (Provider S E K) → Constructor S E K C T
  func_card : (C → Exec S E (Provider S E K)) → Constructor S E K C T

-- Register
unfoldable pub register : {V : Type 0} → Bytes → V → List (Bytes × V) → List (Bytes × V)
register name p [] = (name, p) ∷ []
register name p ((n, q) ∷ providers) =
    if bytes_equal n name then (name, p) ∷ providers else (n, q) ∷ register name p providers

-- MultiProvider
pub record MultiProvider (S E K C T : Type 0) : Type 0 where
  pub cards : List C
  pub tpms : List T
  pub providers : List (Provider S E K)

-- An error with its prefix.
abbrev pub wrap : {S E F A : Type 0} → (E → F) → Exec S E A → Exec S F A
wrap f m s = ((m s).0, map_err f (m s).1)

-- The loop over the cards, or over the devices, for one constructor.
unfoldable pub make_each : {S E P C : Type 0} → (C → Exec S E P) → List C → Exec S E (List P)
make_each ctor [] = lift (ok [])
make_each ctor (c ∷ cs) = do p ← ctor c; ps ← make_each ctor cs; lift (ok (p ∷ ps))

-- MultiProvider.Keys
unfoldable pub keys : {S E K : Type 0} → List (Provider S E K) → Exec S E (List Bytes)
keys [] = lift (ok [])
keys (p ∷ ps) = do ids ← p.keys; all ← keys ps; lift (ok (ids ++ all))

-- The loops of Close: they stop at the first error.
unfoldable pub close_each :
    {S E C : Type 0} → (C → Exec S E (Unit {0})) → List C → Exec S E (Unit {0})
close_each close [] = lift (ok tt)
close_each close (c ∷ cs) = do close c; close_each close cs

module _ {S E : Type 0} (sys : System S E) (cfg : Config) where
  -- The loop of openTPMs over the paths.
  unfoldable pub open_loop : List Bytes → Exec S E (List sys.Tpm)
  open_loop [] = lift (ok [])
  open_loop (path ∷ paths) =
      let rest = open_loop paths in
      elim cfg.filter_tpms [
        | none ↦ lift panic
        | some keeps ↦
            if keeps path
            then (do tpm ← sys.open_tpm (path ∷ []); tpms ← rest; lift (ok (tpm ∷ tpms)))
            else rest
      ]

  unfoldable pub open_paths : List Bytes → Exec S E (List sys.Tpm)
  unfolding open_loop
  open_paths [] = do tpm ← sys.open_tpm []; lift (ok (tpm ∷ []))
  open_paths (path ∷ paths) = open_loop (path ∷ paths)

  -- openTPMs
  unfoldable pub open_tpms : ℕ → Exec S E (List sys.Tpm)
  unfolding find_tpms open_paths
  open_tpms fuel = do
    paths ← lift (elim cfg.tpm_paths [ none ↦ find_tpms sys.stat fuel | some given ↦ ok given ])
    open_paths paths

module _ {S E K : Type 0} (sys : System S E) where
  -- One value in the loop of NewProvider: the switch on its type has no case for the last two.
  unfoldable pub construct :
      List sys.Card
      → List sys.Tpm
      → Constructor S E K sys.Card sys.Tpm
      → Exec S E (List (Provider S E K))
  unfolding make_each
  construct cards tpms (std ctor) = do p ← ctor; lift (ok (p ∷ []))
  construct cards tpms (per_card ctor) = make_each ctor cards
  construct cards tpms (per_tpm ctor) = make_each ctor tpms
  construct cards tpms (func_std ctor) = lift (ok [])
  construct cards tpms (func_card ctor) = lift (ok [])

  unfoldable pub construct_all :
      List sys.Card
      → List sys.Tpm
      → List (Bytes × Constructor S E K sys.Card sys.Tpm)
      → Exec S (Error E) (List (Provider S E K))
  unfolding construct
  construct_all cards tpms [] = lift (ok [])
  construct_all cards tpms ((name, ctor) ∷ ctors) = do
    made ← wrap (create_failed name) (construct cards tpms ctor)
    rest ← construct_all cards tpms ctors
    lift (ok (made ++ rest))

  -- NewProvider; `registry` is the map of the registered constructors in the order of its loop.
  unfoldable pub new_provider :
      Config
      → ℕ
      → List (Bytes × Constructor S E K sys.Card sys.Tpm)
      → Exec S (Error E) (MultiProvider S E K sys.Card sys.Tpm)
  unfolding open_tpms construct_all
  new_provider cfg fuel registry = do
    wrap establish sys.establish_context
    cards ← wrap cards_failed sys.open_cards
    tpms ← wrap tpms_failed (open_tpms sys cfg fuel)
    providers ← construct_all cards tpms registry
    lift (ok (record { cards = cards; tpms = tpms; providers = providers }))

  -- Close
  unfoldable pub close : MultiProvider S E K sys.Card sys.Tpm → Exec S E (Unit {0})
  unfolding close_each
  close p = do close_each sys.close_card p.cards; close_each sys.close_tpm p.tpms

-- The joined provider as a provider: it lists keys, and the other calls are not supported.
unfoldable pub as_provider : {S E K C T : Type 0} → MultiProvider S E K C T → Provider S (Error E) K
unfolding keys
as_provider p = record {
  keys = wrap plain (keys p.providers);
  create_key = λ label. lift (err unsupported);
  open_key = λ id. lift (err unsupported);
  destroy_key = λ id. lift (err unsupported);
}
