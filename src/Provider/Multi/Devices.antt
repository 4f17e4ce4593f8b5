-- ===== src/Provider/Multi/Devices.antt =====
-- provider/multi.go: the devices that findTPMs and openTPMs find.
use go_skes.Prelude.{
  ℕ, suc, ◌≡◌, refl, true, false, [], ◌∷◌, Option, none, some, Bytes, ok, Bool-cases, inl, inr,
}
use go_skes.Prelude.Exec.{lift, ◌>>=◌}
use go_skes.Provider.Multi.{
  Mode, is_char_device, System, Config, tpmrm_path, tpm_path, find_loop, find_tpms, open_paths,
  open_tpms,
}

-- The documentation of fs.FileMode: ModeCharDevice is the bit of a character device "when ModeDevice is
-- set", so that a mode has it only together with ModeDevice.
abbrev pub Documented : (Bytes → Option Mode) → Type 0
Documented stat =
    (path : Bytes) (m : Mode) → stat path ≡ some m → m.char_device ≡ true → m.device ≡ true

mode-fails : (m : Mode) → (m.char_device ≡ true → m.device ≡ true) → is_char_device (some m) ≡ false
unfolding is_char_device
mode-fails m both = elim (Bool-cases m.char_device) [
  | inl char ↦ rw (char, both char) refl
  | inr other ↦ rw other refl
]

module _ (stat : Bytes → Option Mode) (doc : Documented stat) where
  test-fails : (path : Bytes) → is_char_device (stat path) ≡ false
  unfolding is_char_device
  test-fails path = go (stat path) (doc path)
    where
      go :
          (found : Option Mode)
          → ((m : Mode) → found ≡ some m → m.char_device ≡ true → m.device ≡ true)
          → is_char_device found ≡ false
      go none both = refl
      go (some m) both = mode-fails m (both m refl)

  find_tpms-none : {E : Type 0} (fuel : ℕ) → find_tpms {E = E} stat (suc fuel) ≡ ok []
  unfolding find_tpms find_loop
  find_tpms-none fuel = rw (test-fails (tpmrm_path 0), test-fails (tpm_path 0)) refl

-- findTPMs compares the type bits of a mode with ModeCharDevice alone, which no mode has without
-- ModeDevice: it ends in the first round and finds no device, whichever there are. Where the
-- configuration has no paths, openTPMs then opens the default device and no other, and does not ask
-- the filter.
pub open_tpms-default :
    {S E : Type 0} (sys : System S E) (cfg : Config) (fuel : ℕ) (s : S)
    → Documented sys.stat
    → cfg.tpm_paths ≡ none
    → (find_tpms {E = E} sys.stat (suc fuel) ≡ ok [])
      × (open_tpms sys cfg (suc fuel) s ≡ (do tpm ← sys.open_tpm []; lift (ok (tpm ∷ []))) s)
unfolding open_tpms open_paths
open_tpms-default {S} {E} sys cfg fuel s doc no_paths =
    (find_tpms-none sys.stat doc fuel, rw (no_paths, find_tpms-none sys.stat doc {E = E} fuel) refl)
