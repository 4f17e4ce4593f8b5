-- ===== src/Provider/File.antt =====
-- provider/file.go: the keys in the files of one directory, and the tests on file names that it takes
-- from path/filepath. A file is named by its last path element: the directory's path and the joining
-- with it are left out, and labels are without a separator.
use go_skes.Prelude.{
  true, false, not, ◌-◌, Bool, not, List, [], ◌∷◌, ◌++◌, Option, none, some, ◌==◌, bytes_equal,
  codes, if◌then◌else◌, length, take, drop, Bytes, Outcome, ok, err, ◌>>=◌,
}

-- What can go wrong: os.ErrExist, os.ErrNotExist, a file that os.ReadFile cannot read, a directory
-- that os.ReadDir cannot list, bytes that are no private key, a source of randomness that fails, a write
-- that fails, with the identifier that is returned next to the error, and a file that os.Remove keeps.
pub data Error : Type 0 where
  exist : Error
  not_exist : Error
  read_file : Error
  read_dir : Error
  load_key : Error
  generate_key : Error
  unwritten : Bytes → Error
  not_removed : Error

-- An entry of the directory; `content` is `none` for a file that cannot be read.
pub record Entry : Type 0 where
  pub name : Bytes
  pub is_dir : Bool
  pub content : Option Bytes

-- The directory as os.ReadDir reports it.
pub data Directory : Type 0 where
  listed : List Entry → Directory
  absent : Directory
  unlisted : Directory

-- What the provider uses of the standard library's crypto/ecdh on P-256 and crypto/sha256: not under
-- the repository. `public` is the encoding of the public key.
pub record Crypto : Type 1 where
  pub Key : Type 0
  pub new_private_key : Bytes → Option Key
  pub bytes : Key → Bytes
  pub public : Key → Bytes
  pub sha256 : Bytes → Bytes

-- filepath.Ext: the name from its last dot on.
abbrev pub ext_from : Bytes → Bytes → Bytes
ext_from found [] = found
ext_from found (c ∷ name) = if c == 0x2e then ext_from (c ∷ name) name else ext_from found name

abbrev pub ext : Bytes → Bytes
ext name = ext_from [] name

-- strings.TrimSuffix
abbrev pub trim_suffix : Bytes → Bytes → Bytes
trim_suffix name suffix =
    if bytes_equal (drop (length name - length suffix) name) suffix
    then take (length name - length suffix) name
    else name

abbrev pub key_suffix : Bytes
key_suffix = codes ".key"

-- The file of a label.
abbrev pub key_file : Bytes → Bytes
key_file label = label ++ key_suffix

abbrev pub select_files : List Entry → List Entry
select_files [] = []
select_files (de ∷ des) =
    if de.is_dir
    then select_files des
    else if not (bytes_equal (ext de.name) key_suffix)
    then select_files des
    else de ∷ select_files des

-- keyFiles, with the entries in the place of their paths.
unfoldable pub key_files : Directory → Outcome Error (List Entry)
key_files absent = ok []
key_files unlisted = err read_dir
key_files (listed des) = ok (select_files des)

-- os.ReadFile of an entry.
abbrev pub read_entry : Entry → Outcome Error Bytes
read_entry de = elim de.content [ none ↦ err read_file | some key ↦ ok key ]

unfoldable pub read_all : List Entry → Outcome Error (List (Bytes × Bytes))
read_all [] = ok []
read_all (de ∷ des) = do key ← read_entry de; keys ← read_all des; ok ((de.name, key) ∷ keys)

-- keys: the contents by file name. The names of a directory are distinct, so that the map has a
-- binding for each of them.
unfoldable pub keys : Directory → Outcome Error (List (Bytes × Bytes))
keys dir = do files ← key_files dir; read_all files

-- fileKey
pub record FileKey : Type 0 where
  pub key : Bytes
  pub label : Bytes

-- os.Stat: whether the directory has an entry of that name.
abbrev pub has_entry : Bytes → List Entry → Bool
has_entry name [] = false
has_entry name (de ∷ des) = if bytes_equal de.name name then true else has_entry name des

abbrev pub stat : Bytes → Directory → Bool
stat name (listed des) = has_entry name des
stat name absent = false
stat name unlisted = false

-- os.ReadFile by name.
abbrev pub read_named : Bytes → List Entry → Outcome Error Bytes
read_named name [] = err read_file
read_named name (de ∷ des) = if bytes_equal de.name name then read_entry de else read_named name des

abbrev pub read_path : Bytes → Directory → Outcome Error Bytes
read_path name (listed des) = read_named name des
read_path name absent = err read_file
read_path name unlisted = err read_file

module _ (C : Crypto) where
  -- sw.LoadPrivateKey with the configuration of the file
  unfoldable pub load_private_key : Bytes → Outcome Error C.Key
  load_private_key key = elim (C.new_private_key key) [ none ↦ err load_key | some sk ↦ ok sk ]

  -- keyID of provider/provider.go
  abbrev pub key_id : C.Key → Bytes
  key_id sk = C.sha256 (C.public sk)

  unfoldable pub id_loop : List (Bytes × Bytes) → Outcome Error (List Bytes)
  id_loop [] = ok []
  id_loop ((name, key) ∷ l) = do sk ← load_private_key key; ids ← id_loop l; ok (key_id sk ∷ ids)

  unfoldable pub file_loop : Bytes → List (Bytes × Bytes) → Outcome Error Bytes
  file_loop id [] = err not_exist
  file_loop id ((name, key) ∷ l) = do
    sk ← load_private_key key
    let rest : Outcome Error Bytes = file_loop id l
    if bytes_equal (key_id sk) id then ok name else rest

-- `order` is the order in which the loops run over the map, which Go leaves open.
module _ (C : Crypto) (order : List (Bytes × Bytes) → List (Bytes × Bytes)) where
  -- Keys
  unfoldable pub list_keys : Directory → Outcome Error (List Bytes)
  unfolding keys id_loop
  list_keys dir = do found ← keys dir; id_loop C (order found)

  unfoldable pub key_file_by_id : Bytes → Directory → Outcome Error Bytes
  unfolding keys file_loop
  key_file_by_id id dir = do found ← keys dir; file_loop C id (order found)

  unfoldable pub key_by_id : Bytes → Directory → Outcome Error (Bytes × Bytes)
  unfolding key_file_by_id
  key_by_id id dir = do
    name ← key_file_by_id id dir
    key ← read_path name dir
    ok (trim_suffix name key_suffix, key)

  -- OpenKey
  unfoldable pub open_key : Bytes → Directory → Outcome Error FileKey
  unfolding key_by_id
  open_key id dir = do (label, key) ← key_by_id id dir; ok (record { key = key; label = label })
