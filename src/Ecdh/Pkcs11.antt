-- ===== src/Ecdh/Pkcs11.antt =====
-- ecdh/pkcs11/pkcs11.go: a Curve25519 key on a PKCS #11 token.
use go_skes.Prelude.{
  ℕ, zero, suc, ◌-◌, Bool, true, false, ◌||◌, List, [], ◌∷◌, ◌++◌, Option, none, some, ltb, leb,
  get_elem?, if◌then◌else◌, length, take, drop, codes, Bytes, Outcome, ok, err, panic, stuck,
  map_err,
}
use go_skes.Prelude.Exec.{Exec, lift, ◌>>=◌, ◌>>◌}
pub mod Sessions
pub mod Noise
mod Runs

-- The attributes that the code writes, with the names of PKCS #11.
pub data ObjectClass : Type 0 where
  public_key : ObjectClass
  private_key : ObjectClass
  secret_key : ObjectClass

pub data Attribute : Type 0 where
  token : Bool → Attribute
  class : ObjectClass → Attribute
  generic_secret : Attribute
  sensitive : Bool → Attribute
  extractable : Bool → Attribute
  encrypt : Bool → Attribute
  decrypt : Bool → Attribute
  wrap : Bool → Attribute
  unwrap : Bool → Attribute
  ec_params : Bytes → Attribute
  derive : Bool → Attribute

-- CKM_ECDH1_DERIVE with CKD_NULL, no shared data, and the public key of the peer.
pub record Mechanism : Type 0 where
  pub peer : Bytes

-- A slice of bytes, with what its array has behind it.
pub record Slice : Type 0 where
  pub content : Bytes
  pub spare : Bytes

-- What the code uses of the p11 library, which is not under the repository, on a world `S`.
pub record Library (S E : Type 0) : Type 1 where
  pub Module : Type 0
  pub Slot : Type 0
  pub Session : Type 0
  pub Object : Type 0
  pub open_module : Bytes → Exec S E Module
  pub slots : Module → Exec S E (List Slot)
  pub open_write_session : Slot → Exec S E Session
  pub login : Session → Bytes → Exec S E (Unit {0})
  pub logout : Session → Exec S E (Unit {0})
  pub close_session : Session → Exec S E (Unit {0})
  pub destroy : Module → Exec S E (Unit {0})
  pub find_object : Session → List Attribute → Exec S E Object
  pub value : Object → Exec S E Bytes
  pub derive_key : Object → Mechanism → List Attribute → Exec S E Slice

-- The errors of the package, and those of the library, with the place where they come from.
pub data Error (E : Type 0) : Type 0 where
  failed_to_load_library : Error E
  slots_failed : E → Error E
  session : Error E
  login_failed : E → Error E
  no_private_key : E → Error E
  no_public_key : E → Error E
  login_first : Error E
  library : E → Error E

-- NoisePrivateKeySize and NoisePublicKeySize
abbrev pub noise_size : ℕ
noise_size = 32

abbrev pub zeros : ℕ → Bytes
zeros zero = []
zeros (suc n) = 0 ∷ zeros n

-- Curve25519OidRaw, decoded.
abbrev pub raw_oid : Bytes
raw_oid = 0x06 ∷ 0x03 ∷ 0x2b ∷ 0x65 ∷ 0x6e ∷ []

-- The attributes that findDeriveKey looks for.
abbrev pub key_attrs : Bool → List Attribute
key_attrs get_pub_key =
    ec_params raw_oid ∷ derive true ∷ class (if get_pub_key then public_key else private_key) ∷ []

-- The attributes of the secret that DeriveNoise asks for.
abbrev pub attr_template : List Attribute
attr_template =
    token false
    ∷ class secret_key
    ∷ generic_secret
    ∷ sensitive false
    ∷ extractable true
    ∷ encrypt true
    ∷ decrypt true
    ∷ wrap true
    ∷ unwrap true
    ∷ []

-- The last bytes that PublicKeyNoise takes of a key that is long enough.
abbrev pub last_bytes : Bytes → Bytes
last_bytes src_key =
    if ltb noise_size (length src_key) then drop (length src_key - noise_size) src_key else src_key

abbrev pub with_error : {S E F A : Type 0} → (E → F) → Exec S E A → Exec S F A
with_error f m s = ((m s).0, map_err f (m s).1)

-- A call whose error is dropped.
abbrev pub ignored : {E A : Type 0} → Outcome E A → Outcome E (Unit {0})
ignored (ok a) = ok tt
ignored (err e) = ok tt
ignored panic = panic
ignored stuck = stuck

abbrev pub ignore : {S E A : Type 0} → Exec S E A → Exec S E (Unit {0})
ignore m s = ((m s).0, ignored (m s).1)

module _ {S E : Type 0} (L : Library S E) where
  -- PKClient, less the label and the number of the key, which are not used.
  pub record PkClient : Type 0 where
    pub slot : ℕ
    pub session_obj : L.Session
    pub logged_in : Bool
    pub priv_key_obj : L.Object
    pub pub_key_obj : L.Object
    pub module_obj : L.Module

  -- findDeriveKey
  unfoldable pub find_derive_key : L.Session → Bool → Exec S E L.Object
  find_derive_key s get_pub_key = do key ← L.find_object s (key_attrs get_pub_key); lift (ok key)

  -- slots[slot]
  abbrev pub at_slot : List L.Slot → ℕ → Outcome (Error E) L.Slot
  at_slot slots slot = elim (get_elem? slots slot) [ none ↦ panic | some s ↦ ok s ]

  -- New
  unfoldable pub new_client : Bytes → ℕ → Bytes → Exec S (Error E) PkClient
  unfolding find_derive_key
  new_client hsm_path slot pin = do
    m ← with_error (λ e. failed_to_load_library) (L.open_module hsm_path)
    slots ← with_error slots_failed (L.slots m)
    at ← lift (at_slot slots slot)
    s ← with_error (λ e. session) (L.open_write_session at)
    with_error login_failed (L.login s pin)
    priv ← with_error no_private_key (find_derive_key s false)
    public ← with_error no_public_key (find_derive_key s true)
    lift (
        ok (record {
          slot = slot;
          session_obj = s;
          logged_in = true;
          priv_key_obj = priv;
          pub_key_obj = public;
          module_obj = m;
        }))

  -- NewAskPin
  unfoldable pub new_ask_pin : Bytes → ℕ → Exec S (Error E) PkClient
  unfolding new_client
  new_ask_pin hsm_path slot = do c ← new_client hsm_path slot (codes "ask"); lift (ok c)

  -- Close, which leaves the client as it is.
  unfoldable pub close : PkClient → Exec S (Error E) (Unit {0})
  close c = do
    with_error library (L.logout c.session_obj)
    ignore (with_error library (L.close_session c.session_obj))
    ignore (with_error library (L.destroy c.module_obj))

  -- PublicKeyRaw
  unfoldable pub public_key_raw : PkClient → Exec S (Error E) Bytes
  public_key_raw c = do key ← with_error library (L.value c.pub_key_obj); lift (ok key)

  -- PublicKeyNoise; it returns an array, which is zero at first.
  unfoldable pub public_key_noise : PkClient → Exec S (Error E) Bytes
  public_key_noise c =
      if c.logged_in
      then (do
        src_key ← with_error library (L.value c.pub_key_obj)
        lift
            (ok (if ltb (length src_key) noise_size then zeros noise_size else last_bytes src_key)))
      else lift (err login_first)

  -- `tmpKey[:NoisePrivateKeySize]`, which reaches into what stands behind the slice.
  abbrev pub slice_secret : Slice → Outcome (Error E) Bytes
  slice_secret t =
      if leb noise_size (length (t.content ++ t.spare))
      then ok (take noise_size (t.content ++ t.spare))
      else panic

  -- DeriveNoise
  unfoldable pub derive_noise : PkClient → Bytes → Exec S (Error E) Bytes
  derive_noise c peer_pub_key =
      if c.logged_in
      then (do
        tmp_key ←
            with_error library
              (L.derive_key c.priv_key_obj (record { peer = peer_pub_key }) attr_template)
        secret ← lift (slice_secret tmp_key)
        lift (ok secret))
      else lift (err login_first)
