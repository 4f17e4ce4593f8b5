-- ===== src/Provider/Multi/RegistryRuns.antt =====
-- The theorem on the registered sources of provider/multi.go, on a machine with a card, where each of
-- the registered functions would make a source with a key.
use mathlib.Core.List.Permᴰ
use go_skes.Prelude.{ℕ, suc, ◌≡◌, true, [], ◌∷◌, none, codes, Bytes, ok, err}
use go_skes.Prelude.Exec.{Exec, lift}
use go_skes.Provider.Multi.{Provider, System, Config, MultiProvider, new_provider, as_provider}
use go_skes.Provider.Multi.Registry.{Registry, started, new_provider-started}

-- The world counts the contexts that were established.
abbrev machine : System ℕ Bytes
machine = record {
  Card = ℕ;
  Tpm = ℕ;
  establish_context = λ s. (suc s, ok tt);
  open_cards = lift (ok (7 ∷ []));
  open_tpm = λ paths. lift (ok 0);
  close_card = λ c. lift (ok tt);
  close_tpm = λ t. lift (ok tt);
  stat = λ path. none;
}

abbrev source : Bytes → Exec ℕ Bytes (Provider ℕ Bytes Bytes)
source id = lift (
    ok (record {
      keys = lift (ok (id ∷ []));
      create_key = λ label. lift (err (codes "full"));
      open_key = λ i. lift (ok i);
      destroy_key = λ i. lift (ok tt);
    }))

abbrev registry : Registry ℕ Bytes Bytes ℕ ℕ
registry = started true (source (1 ∷ [])) (source (2 ∷ [])) (λ c. source (c ∷ []))

abbrev config : Config
config = record { tpm_paths = none; filter_tpms = none }

new_provider-started_example :
    (new_provider machine config 3 registry 0 ≡ new_provider {K = Bytes} machine config 3 [] 0)
    × ((p : MultiProvider ℕ Bytes Bytes ℕ ℕ)
        → (new_provider machine config 3 registry 0).1 ≡ ok p
        → (s' : ℕ) → (as_provider p).keys s' ≡ (s', ok []))
new_provider-started_example =
    new_provider-started machine true (source (1 ∷ [])) (source (2 ∷ [])) (λ c. source (c ∷ []))
      registry config 3 0 (Permᴰ.refl registry)
