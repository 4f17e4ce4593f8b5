-- ===== src/Provider/Session.antt =====
-- provider/file.go: the calls of the provider in a row, and the store of files by name that they are
-- to be.
use go_skes.Prelude.{
  ◌==◌, ◌||◌, take, ℕ, zero, suc, ◌≡◌, ◌≢◌, Bool, true, false, List, [], ◌∷◌, Option, none, some,
  All, Any, update, bytes_equal, if◌then◌else◌, Bytes, Outcome, ok, err, panic, stuck,
}
use go_skes.Provider.File.{
  Error, exist, not_exist, read_file, load_key, generate_key, unwritten, not_removed, Entry,
  Directory, Crypto, ext, key_suffix, key_file, trim_suffix, key_id, FileKey, list_keys, open_key,
}
use go_skes.Provider.Store.{
  Write, complete, broken, create_key_from_secret, create_key, destroy_key,
}
use go_skes.Provider.Lookup.{HasId}
pub mod View
pub mod Changes
pub mod Search
pub mod Ends
pub mod Refinement
mod Runs

-- A file or a directory; `content` is `none` for one that cannot be read.
pub record File : Type 0 where
  pub is_dir : Bool
  pub content : Option Bytes

-- What the directory is to the caller: its files by name, in no order.
abbrev pub Files : Type 0
Files = Bytes → Option File

abbrev pub view : List Entry → Files
view [] n = none
view (de ∷ des) n =
    if bytes_equal de.name n
    then some (record { is_dir = de.is_dir; content = de.content })
    else view des n

-- A file of this content, whose name ends in the extension of the keys.
abbrev pub KeyFile : Files → Bytes → Option Bytes → Type 0
KeyFile v n content =
    (v n ≡ some (record { is_dir = false; content = content }))
    × (bytes_equal (ext n) key_suffix ≡ true)

-- The label of a call has no separator: joined with the path of the directory, one that has names a
-- file of another directory.
abbrev pub has_separator : Bytes → Bool
has_separator [] = false
has_separator (c ∷ label) = (c == 0x2f) || has_separator label

abbrev pub IsName : Bytes → Type 0
IsName label = has_separator label ≡ false

-- The order in which a call runs over the map of the keys.
abbrev pub Order : Type 0
Order = List (Bytes × Bytes) → List (Bytes × Bytes)

-- A call of the provider, and what it returns. `create` has the key that is generated, or nothing
-- where the source of randomness fails; it has, and `create_from`, what comes of the write, and
-- `destroy` whether the system removes a file.
pub data Call (Key : Type 0) : Type 0 where
  keys : Call Key
  create : Bytes → Option Key → Write → Call Key
  create_from : Bytes → Bytes → Write → Call Key
  destroy : Bytes → Bool → Call Key
  open_by : Bytes → Call Key

pub data Reply : Type 0 where
  listed : List Bytes → Reply
  created : Bytes → Reply
  destroyed : Reply
  opened : FileKey → Reply
  failed : Error → Reply
  crashed : Reply

abbrev pub Named : {Key : Type 0} → Call Key → Type 0
Named (create label key w) = IsName label
Named (create_from label secret w) = IsName label
Named c = Unit {0}

abbrev pub reply : {R : Type 0} → (R → Reply) → Outcome Error R → Reply
reply f (ok r) = f r
reply f (err e) = failed e
reply f panic = crashed
reply f stuck = crashed

abbrev pub generated : {Key : Type 0} → Option Key → Outcome Error Key
generated none = err generate_key
generated (some sk) = ok sk

module _ (C : Crypto) where
  unfoldable pub step : Order → Call C.Key → Directory → Directory × Reply
  step order keys dir = (dir, reply listed (list_keys C order dir))
  step order (create label key w) dir =
      let r = create_key C w label (generated key) dir in (r.0, reply created r.1)
  step order (create_from label secret w) dir =
      let r = create_key_from_secret C w label secret dir in (r.0, reply created r.1)
  step order (destroy id works) dir =
      let r = destroy_key C order works id dir in (r.0, reply (λ u. destroyed) r.1)
  step order (open_by id) dir = (dir, reply opened (open_key C order id dir))

  -- The calls in a row, with their replies; each runs over the map in an order of its own.
  unfoldable pub run : (ℕ → Order) → List (Call C.Key) → Directory → Directory × List Reply
  unfolding step
  run orders [] dir = (dir, [])
  run orders (c ∷ cs) dir =
      let (dir', r) = step (orders zero) c dir in
      let (dir'', rs) = run (λ n. orders (suc n)) cs dir' in (dir'', r ∷ rs)

  -- The file that a new key is written to.
  abbrev pub new_file : C.Key → File
  new_file sk = record { is_dir = false; content = some (C.bytes sk) }

  -- A key file stops a call that looks at all of them: it cannot be read, or is no key.
  pub data Stops (v : Files) : Error → Type 0 where
    unreadable : {n : Bytes} → KeyFile v n none → Stops v read_file
    no_key :
        {n key : Bytes} → KeyFile v n (some key) → C.new_private_key key ≡ none → Stops v load_key

  -- Every key file is a key whose identifier is another one.
  abbrev pub Misses : Files → Bytes → Type 0
  Misses v id =
      (n : Bytes) (c : Option Bytes)
      → KeyFile v n c
      → (key : Bytes) × (sk : C.Key) × (c ≡ some key)
        × (C.new_private_key key ≡ some sk)
        × (key_id C sk ≢ id)

  -- The identifiers are those of the key files, which are all keys.
  abbrev pub AllIds : Files → List Bytes → Type 0
  AllIds v ids =
      All (λ id. (b : Bytes × Bytes) × KeyFile v b.0 (some b.1) × HasId C id b.1) ids
      × ((n : Bytes) (c : Option Bytes)
          → KeyFile v n c
          → (key : Bytes) × (sk : C.Key) × (c ≡ some key)
            × (C.new_private_key key ≡ some sk)
            × Any (λ id. id ≡ key_id C sk) ids)

  -- What a write of a new key does to the files, and the reply: a failure leaves no file, or one with
  -- the first bytes of the key, and tells the identifier all the same.
  pub data Writes (v : Files) (label : Bytes) (sk : C.Key) : Write → Reply → Files → Type 0 where
    saves :
        Writes v label sk complete
          (created (key_id C sk))
          (update v (key_file label) (some (new_file sk)))
    saves_none : Writes v label sk (broken none) (failed (unwritten (key_id C sk))) v
    saves_part :
        {n : ℕ}
        → Writes v label sk (broken (some n)) (failed (unwritten (key_id C sk))) (
            update v
              (key_file label)
              (some (record { is_dir = false; content = some (take n (C.bytes sk)) })))

  -- The specification: a relation between a call, the files before, the reply, and the files after.
  pub data Does (v : Files) : Call C.Key → Reply → Files → Type 0 where
    lists : {ids : List Bytes} → AllIds v ids → Does v keys (listed ids) v
    stops_listing : {e : Error} → Stops v e → Does v keys (failed e) v
    creates :
        {label : Bytes} {sk : C.Key} {w : Write} {r : Reply} {v' : Files}
        → v (key_file label) ≡ none
        → Writes v label sk w r v'
        → Does v (create label (some sk) w) r v'
    creates_none :
        {label : Bytes} {w : Write}
        → v (key_file label) ≡ none
        → Does v (create label none w) (failed generate_key) v
    creates_from :
        {label secret : Bytes} {sk : C.Key} {w : Write} {r : Reply} {v' : Files}
        → v (key_file label) ≡ none
        → C.new_private_key secret ≡ some sk
        → Writes v label sk w r v'
        → Does v (create_from label secret w) r v'
    refuses_secret :
        {label secret : Bytes} {w : Write}
        → v (key_file label) ≡ none
        → C.new_private_key secret ≡ none
        → Does v (create_from label secret w) (failed load_key) v
    exists :
        {label : Bytes} {key : Option C.Key} {w : Write}
        → v (key_file label) ≢ none
        → Does v (create label key w) (failed exist) v
    exists_from :
        {label secret : Bytes} {w : Write}
        → v (key_file label) ≢ none
        → Does v (create_from label secret w) (failed exist) v
    removes :
        {id n key : Bytes}
        → KeyFile v n (some key)
        → HasId C id key
        → Does v (destroy id true) destroyed (update v n none)
    keeps_file :
        {id n key : Bytes}
        → KeyFile v n (some key)
        → HasId C id key
        → Does v (destroy id false) (failed not_removed) v
    stops_removing :
        {id : Bytes} {works : Bool} {e : Error} → Stops v e → Does v (destroy id works) (failed e) v
    misses_destroy :
        {id : Bytes} {works : Bool} → Misses v id → Does v (destroy id works) (failed not_exist) v
    opens :
        {id n key : Bytes}
        → KeyFile v n (some key)
        → HasId C id key
        → Does v (open_by id) (opened (record { key = key; label = trim_suffix n key_suffix })) v
    stops_opening : {id : Bytes} {e : Error} → Stops v e → Does v (open_by id) (failed e) v
    misses_open : {id : Bytes} → Misses v id → Does v (open_by id) (failed not_exist) v

  -- A sequence of calls of the specification.
  pub data DoesAll : Files → List (Call C.Key) → List Reply → Files → Type 0 where
    done : {v : Files} → DoesAll v [] [] v
    more :
        {v v' v'' : Files} {c : Call C.Key} {cs : List (Call C.Key)} {r : Reply} {rs : List Reply}
        → Does v c r v'
        → DoesAll v' cs rs v''
        → DoesAll v (c ∷ cs) (r ∷ rs) v''
