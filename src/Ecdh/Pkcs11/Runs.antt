-- ===== src/Ecdh/Pkcs11/Runs.antt =====
-- ecdh/pkcs11/pkcs11.go: the theorems at a token with one slot. Its world is the number of its open
-- sessions.
use go_skes.Prelude.{
  ℕ, suc, ◌-◌, ◌≡◌, refl, true, [], ◌∷◌, bytes_equal, arith, codes, if◌then◌else◌, Bytes, ok, err,
  Bool-cases, inl, inr,
}
use go_skes.Prelude.Exec.{Exec, lift}
use go_skes.Prelude.Post.{Post}
use go_skes.Ecdh.Pkcs11.{Library, PkClient, new_client}
use go_skes.Ecdh.Pkcs11.Sessions.{Counts, Ready, Left, new_client-Post}

abbrev raw_key : Bytes
raw_key = codes "0123456789abcdef0123456789abcdef"

abbrev login : Bytes → Bytes → Exec ℕ ℕ (Unit {0})
login x pin s = (s, if bytes_equal pin (codes "123456") then ok tt else err 0xa0)

-- Objects are the values that the token gives for them.
abbrev one_slot : Library ℕ ℕ
one_slot = record {
  Module = Bytes;
  Slot = ℕ;
  Session = Bytes;
  Object = Bytes;
  open_module = λ path. lift (ok path);
  slots = λ m. lift (ok (0 ∷ []));
  open_write_session = λ slot s. (suc s, ok (codes "session"));
  login = login;
  logout = λ x. lift (ok tt);
  close_session = λ x s. (s - 1, ok tt);
  destroy = λ m. lift (ok tt);
  find_object = λ x attrs. lift (ok (4 ∷ 32 ∷ raw_key));
  value = λ o. lift (ok o);
  derive_key = λ o mechanism attrs. lift (ok (record { content = raw_key; spare = [] }));
}

login_counts : (x pin : Bytes) (s : ℕ) → Post (λ u s'. s' ≡ s) (λ e s'. s' ≡ s) (login x pin) s
login_counts x pin s = elim (Bool-cases (bytes_equal pin (codes "123456"))) [
  | inl right ↦ rw right refl
  | inr wrong ↦ rw wrong refl
]

counts : Counts one_slot
counts = record {
  opened = λ s. s;
  slot_count = 1;
  open_module_lem = λ path s. refl;
  slots_lem = λ m s. (refl, refl);
  open_write_session_lem = λ slot s. refl;
  login_lem = login_counts;
  find_object_lem = λ x attrs s. refl;
}

abbrev client : Bytes → PkClient one_slot
client key = record {
  slot = 0;
  session_obj = codes "session";
  logged_in = true;
  priv_key_obj = raw_key;
  pub_key_obj = key;
  module_obj = codes "hsm.so";
}

-- A wrong PIN leaves a session open.
new_client-Post_example :
    Post
      (Ready one_slot counts 0)
      (Left one_slot counts 0)
      (new_client one_slot (codes "hsm.so") 0 (codes "ask"))
      0
unfolding counts
new_client-Post_example =
    new_client-Post one_slot counts (codes "hsm.so") (codes "ask") 0 0 (omega arith)
