-- ===== src/Provider/Multi/Runs.antt =====
-- provider/multi.go: the theorem on the search for devices, on a machine with a device that has a
-- resource manager. Its world is the list of the paths that were opened.
use go_skes.Prelude.{
  ℕ, ◌≡◌, refl, true, false, List, [], ◌∷◌, Option, none, some, bytes_equal, if◌then◌else◌, codes,
  Bytes, ok, Bool-cases, inl, inr,
}
use go_skes.Prelude.Exec.{lift, ◌>>=◌}
use go_skes.Provider.Multi.{Mode, System, Config, find_tpms, open_tpms}
use go_skes.Provider.Multi.Devices.{Documented, open_tpms-default}

-- The mode of a character device.
abbrev char_device : Mode
char_device = record {
  dir = false;
  symlink = false;
  named_pipe = false;
  socket = false;
  device = true;
  char_device = true;
  irregular = false;
}

abbrev stat : Bytes → Option Mode
stat path = if bytes_equal path (codes "/dev/tpmrm0") then some char_device else none

abbrev machine : System (List Bytes) Bytes
machine = record {
  Card = ℕ;
  Tpm = Bytes;
  establish_context = lift (ok tt);
  open_cards = lift (ok (7 ∷ []));
  open_tpm = λ paths s. (paths, ok (codes "tpm"));
  close_card = λ c. lift (ok tt);
  close_tpm = λ t. lift (ok tt);
  stat = stat;
}

abbrev config : Config
config = record { tpm_paths = none; filter_tpms = none }

stat-Documented : Documented stat
stat-Documented path m h char = elim (Bool-cases (bytes_equal path (codes "/dev/tpmrm0"))) [
  | inl there ↦
      let same : some char_device ≡ some m = rw there at h in
      let is : char_device ≡ m = cc in rw (← is) refl
  | inr gone ↦ absurd (let none_there : none ≡ some m = rw gone at h in cc)
]

open_tpms-default_example :
    (find_tpms {E = Bytes} stat 1 ≡ ok [])
    × (open_tpms machine config 1 [] ≡ (do tpm ← machine.open_tpm []; lift (ok (tpm ∷ []))) [])
open_tpms-default_example = open_tpms-default machine config 0 [] stat-Documented refl
