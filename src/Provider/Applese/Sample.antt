-- ===== src/Provider/Applese/Sample.antt =====
-- The Secure Enclave with some of two keys, for the runs: its world is the list of the data and queries
-- that were made, whose references start at 10, the list of the keys, whose references are 1 and 2, and how
-- many references the program owns to each object.
use go_skes.Prelude.{◌<◌, ◌⊎◌}
use go_skes.Prelude.{
  ℕ, suc, ◌+◌, ◌-◌, ◌≡◌, Bool, true, false, List, [], ◌∷◌, ◌++◌, Option, some, none, length,
  get_elem?, codes, bytes_equal, if◌then◌else◌, Bytes,
}
use go_skes.Ecdh.Applese.{
  Ref, Attrs, OsStatus, success, fault, key_not_found, Framework, application_label, ref,
}
use go_skes.Provider.Applese.Keychain.{Item, View, one}

pub data Object : Type 0 where
  datum : Bytes → Object
  query : Attrs → Object

abbrev pub World : Type 0
World = List Object × List Bool × (Ref → ℕ)

abbrev pub first : Item
first = record { public = 4 ∷ 1 ∷ []; label = codes "0123456789abcdefghij" }

abbrev pub second : Item
second = record { public = 4 ∷ 2 ∷ []; label = codes "abcdefghij0123456789" }

abbrev pub item : Ref → Item
item (suc (suc r)) = second
item r = first

abbrev pub pick : Bool → Item
pick false = first
pick true = second

abbrev pub key_ref : Bool → Ref
key_ref false = 1
key_ref true = 2

abbrev pub items : List Bool → List Item
items [] = []
items (b ∷ bs) = pick b ∷ items bs

abbrev pub refs : List Bool → List Ref
refs [] = []
refs (b ∷ bs) = key_ref b ∷ refs bs

abbrev pub at : Ref → World → Option Object
at r s = get_elem? s.0 (r - 10)

abbrev pub more : Ref → (Ref → ℕ) → Ref → ℕ
more r h r' = h r' + one r r'

abbrev pub make : Object → World → World × Ref
make o s = ((s.0 ++ (o ∷ []), s.1, more (length s.0 + 10) s.2), length s.0 + 10)

-- One more reference to an object.
abbrev pub own : Ref → World → World
own r s = (s.0, s.1, more r s.2)

-- The result of a search, which the program owns.
abbrev pub given : OsStatus × Ref → World → World
given (success, r) s = own r s
given (fault v, r) s = s

abbrev pub label_ref : Attrs → Option Ref
label_ref [] = none
label_ref ((application_label, ref r) ∷ m) = some r
label_ref (a ∷ m) = label_ref m

abbrev pub find : Bytes → List Bool → OsStatus × Ref
find l [] = (fault key_not_found, 0)
find l (b ∷ bs) =
    let rest = find l bs in if bytes_equal (pick b).label l then (success, key_ref b) else rest

abbrev pub labelled : Option Object → List Bool → OsStatus × Ref
labelled (some (datum l)) bs = find l bs
labelled o bs = (fault 50, 0)

abbrev pub find_all : List Bool → OsStatus × Ref
find_all [] = (fault key_not_found, 0)
find_all (b ∷ bs) = (success, 3)

abbrev pub search : Option Object → World → OsStatus × Ref
search (some (query m)) s = elim (label_ref m) [
  | none ↦ find_all s.1
  | some r ↦ labelled (at r s) s.1
]
search o s = (fault 50, 0)

abbrev pub keep : Bytes → List Bool → List Bool
keep l [] = []
keep l (b ∷ bs) = let rest = keep l bs in if bytes_equal (pick b).label l then rest else b ∷ rest

abbrev pub drop_labelled : Option Object → World → World × OsStatus
drop_labelled (some (datum l)) s = ((s.0, keep l s.1, s.2), success)
drop_labelled o s = (s, fault 50)

abbrev pub delete : Option Object → World → World × OsStatus
delete (some (query m)) s = elim (label_ref m) [
  | none ↦ (s, fault 50)
  | some r ↦ drop_labelled (at r s) s
]
delete o s = (s, fault 50)

abbrev pub two_keys : Framework World
two_keys = record {
  data_create = λ d. make (datum d);
  number_create = λ n. make (datum (n ∷ []));
  dictionary_create = λ m. make (query m);
  release = λ r s. (s.0, s.1, λ r'. s.2 r' - one r r');
  retain = own;
  error_code = λ e s. 4;
  item_delete = λ q s. delete (at q s) s;
  item_copy_matching =
      λ q s. (given (search (at q s) s) s, (search (at q s) s).0, (search (at q s) s).1);
  array_values = λ r s. refs s.1;
  access_control_create = λ s. (s, 8, 0);
  create_random_key = λ attrs s. (s, 0, 9);
  create_with_data = λ d attrs s. (s, 0, 9);
  key_exchange = λ k pk params s. (s, 0, 9);
  copy_public_key = λ k s. (own k s, k);
  copy_attributes = λ k s. (own k s, k);
  application_label_of = λ r s. (item r).label;
  value_data_of = λ r s. some (item r).public;
  data_bytes = λ r s. r ∷ [];
}

-- A key is alive while the program owns a reference to it, or to the array 3 of the keys.
abbrev pub Alive : (Ref → ℕ) → Ref → Type 0
Alive h r = (0 < h r) ⊎ (0 < h 3)

abbrev pub IsKey : World → Ref → Item → Type 0
IsKey s r it = (it ≡ item r) × Alive s.2 r

abbrev pub view : View World
view = record {
  chain = λ s. items s.1;
  IsKey = IsKey;
  IsData = λ s r d. at r s ≡ some (datum d);
  IsQuery = λ s r m. at r s ≡ some (query m);
  held = λ s. s.2;
}
