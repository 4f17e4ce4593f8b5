-- ===== src/Provider/Ykoath.antt =====
-- provider/ykoath.go: the keys in the slots of a YKOATH applet.
use go_skes.Prelude.{
  ℕ, Bool, true, false, not, List, [], ◌∷◌, bytes_equal, codes, if◌then◌else◌, Bytes, Option, some,
  none, Outcome, ok, err, panic, stuck, map_err, ltb, length,
}
use go_skes.Prelude.Exec.{Exec, lift, ◌>>=◌, ◌>>◌}
pub mod Behaviour
pub mod Listing
pub mod Search
pub mod Calls
pub mod Refinement
pub mod Sample
mod Runs

-- A slot that the applet lists.
pub record Slot (Algorithm : Type 0) : Type 0 where
  pub name : Bytes
  pub algorithm : Algorithm

-- What the provider uses of the go-ykoath library, which is not under the repository: a card with the
-- applet selected, and its commands. `calculate` is CalculateChallengeResponse, whose second result
-- the provider drops; `put` takes the label, the algorithm, the type, the digits, the secret, whether
-- a touch is needed, and the counter.
pub record Applet : Type 1 where
  pub Card : Type 0
  pub Failure : Type 0
  pub Algorithm : Type 0
  pub OathType : Type 0
  pub hmac_sha256 : Algorithm
  pub same_algorithm : Algorithm → Algorithm → Bool
  pub totp : OathType
  pub list : Card → Card × Outcome Failure (List (Slot Algorithm))
  pub calculate : Bytes → Bytes → Card → Card × Outcome Failure Bytes
  pub put :
      Bytes → Algorithm → OathType → ℕ → Bytes → Bool → ℕ → Card → Card × Outcome Failure (Unit {0})
  pub delete : Bytes → Card → Card × Outcome Failure (Unit {0})

-- What goes wrong in the library, os.ErrNotExist, and an error of the source of randomness.
pub data Error (Failure : Type 0) : Type 0 where
  card : Failure → Error Failure
  not_exist : Error Failure
  random : Error Failure

-- The errors of newYKOATHProvider.
pub data OpenError (Failure : Type 0) : Type 0 where
  no_card : Failure → OpenError Failure
  failed_to_select : Failure → OpenError Failure

-- idChallenge
abbrev pub id_challenge : Bytes
id_challenge = codes "hawkes/v1"

-- An error of the library, handed on.
abbrev pub from_card : {S F A : Type 0} → Exec S F A → Exec S (Error F) A
from_card m s = ((m s).0, map_err card (m s).1)

module _ (A : Applet) where
  abbrev pub Run : Type 0 → Type 0
  Run R = Exec A.Card (Error A.Failure) R

  -- keyID
  unfoldable pub key_id : Bytes → Run Bytes
  key_id name = do key ← from_card (A.calculate name id_challenge); lift (ok key)

  -- The loop of Keys.
  unfoldable pub key_loop : List (Slot A.Algorithm) → Run (List Bytes)
  key_loop [] = lift (ok [])
  key_loop (slot ∷ slots) =
      let rest = key_loop slots in
      if not (A.same_algorithm slot.algorithm A.hmac_sha256)
      then rest
      else (do id ← key_id slot.name; ids ← rest; lift (ok (id ∷ ids)))

  -- Keys
  unfoldable pub keys : Run (List Bytes)
  keys = do slots ← from_card A.list; key_loop slots

  -- The loop of nameByID.
  unfoldable pub name_loop : Bytes → List (Slot A.Algorithm) → Run Bytes
  name_loop id [] = lift (err not_exist)
  name_loop id (slot ∷ slots) =
      let rest = name_loop id slots in
      if not (A.same_algorithm slot.algorithm A.hmac_sha256)
      then rest
      else (do key ← key_id slot.name; if bytes_equal key id then lift (ok slot.name) else rest)

  -- nameByID
  unfoldable pub name_by_id : Bytes → Run Bytes
  name_by_id id = do slots ← from_card A.list; name_loop id slots

  -- DestroyKey
  unfoldable pub destroy_key : Bytes → Run (Unit {0})
  destroy_key id = do name ← name_by_id id; from_card (A.delete name)

  -- CreateKeyFromSecret
  unfoldable pub create_key_from_secret : Bytes → Bytes → Run Bytes
  create_key_from_secret label secret = do
    from_card (A.put label A.hmac_sha256 A.totp 6 secret false 0)
    id ← key_id label
    lift (ok id)

  -- CreateKey; `generated` is what rand.Read puts into the twenty bytes, or nothing where it fails.
  unfoldable pub create_key : Bytes → Option Bytes → Run Bytes
  unfolding create_key_from_secret
  create_key label (some secret) = create_key_from_secret label secret
  create_key label none = lift (err random)

  -- ykoathKey: the name of the slot.
  pub record YkoathKey : Type 0 where
    pub name : Bytes

  -- OpenKey
  unfoldable pub open_key : Bytes → Run YkoathKey
  open_key id = do name ← name_by_id id; lift (ok (record { name = name }))

  -- ykoathKey.HMAC
  unfoldable pub hmac : YkoathKey → Bytes → Run Bytes
  hmac k chal = do secret ← from_card (A.calculate k.name chal); lift (ok secret)

  -- ykoathKey.ID, which drops the error.
  unfoldable pub key_id_of : YkoathKey → A.Card → A.Card × Bytes
  key_id_of k s = ((key_id k.name s).0, elim (key_id k.name s).1 [ ok id ↦ id | _ ↦ [] ])

  -- The rest of newYKOATHProvider, by what Select returned: the log line indexes the first three bytes
  -- of the version.
  unfoldable pub selected : A.Card × Outcome A.Failure Bytes → Outcome (OpenError A.Failure) A.Card
  selected (c, ok version) = if ltb 2 (length version) then ok c else panic
  selected (c, err e) = err (failed_to_select e)
  selected (c, panic) = panic
  selected (c, stuck) = stuck

  -- newYKOATHProvider, over ykoath.NewCard and Select, which gives the version of the applet.
  unfoldable pub new_ykoath_provider :
      {Pcsc : Type 0}
      → (Pcsc → Outcome A.Failure A.Card)
      → (A.Card → A.Card × Outcome A.Failure Bytes)
      → Pcsc
      → Outcome (OpenError A.Failure) A.Card
  unfolding selected
  new_ykoath_provider new_card select pcsc = elim (new_card pcsc) [
    | ok c ↦ selected (select c)
    | err e ↦ err (no_card e)
    | panic ↦ panic
    | stuck ↦ stuck
  ]
