-- ===== src/Provider/Applese/SampleLaws.antt =====
-- The documented behaviour of the framework over the Secure Enclave of the runs.
use go_skes.Prelude.{◌<◌, ◌==◌, length}
use go_skes.Prelude.{
  ℕ, zero, suc, ◌+◌, ◌-◌, ◌≡◌, ◌≢◌, refl, sym, ap, ◌∙◌, Bool, true, false, Bool-cases, List, [],
  ◌∷◌, ◌++◌, some, Any, inl, inr, get_elem?, bytes_equal, bytes_equal→eq, bytes_equal_refl, Bytes,
  arith,
}
use go_skes.Ecdh.Applese.{Ref, OsStatus, success, fault, key_not_found}
use go_skes.Ecdh.Applese.Sample.{plain}
use go_skes.Provider.Applese.Deletion.{delete_query, without, Deletes, Deleting}
use go_skes.Provider.Applese.Keychain.{
  one, Adds, Drops, Kept, Refs, Item, all_query, one_query, Keychain,
}
use go_skes.Provider.Applese.Sample.{
  Object, World, first, second, item, pick, key_ref, items, refs, at, make, find, find_all, search,
  keep, two_keys, IsKey, datum, query, more, own, given, Alive, view,
}

get_elem?-more :
    (o : Object) (l : List Object) (i : ℕ) (o' : Object)
    → get_elem? l i ≡ some o'
    → get_elem? (l ++ (o ∷ [])) i ≡ some o'
get_elem?-more o [] i o' h = cc
get_elem?-more o (x ∷ l) zero o' h = h
get_elem?-more o (x ∷ l) (suc i) o' h = get_elem?-more o l i o' h

get_elem?-end : (o : Object) (l : List Object) → get_elem? (l ++ (o ∷ [])) (length l) ≡ some o
get_elem?-end o [] = refl
get_elem?-end o (x ∷ l) = get_elem?-end o l

more-Alive : (r k : Ref) (h : Ref → ℕ) → Alive h k → Alive (more r h) k
more-Alive r k h (inl owned) = inl (omega (arith, owned))
more-Alive r k h (inr array) = inr (omega (arith, array))

one_refl : (r : Ref) → one r r ≡ 1
one_refl r = let same : (r == r) ≡ true = ground arith in rw same refl

own-Alive : (r : Ref) (h : Ref → ℕ) → Alive (more r h) r
own-Alive r h = inl (omega (arith, one_refl r))

pub own-Adds : (r : Ref) (s : World) → Adds view s r (own r s)
own-Adds r s = (refl, λ r'. refl, λ k it (is, alive). (is, more-Alive r k s.2 alive), λ k d is. is)

pub release-Drops : (r : Ref) (s : World) → Drops view s r (two_keys.release r s)
release-Drops r s =
    (refl, λ r'. refl, λ k it owned (is, alive). (is, inl owned), λ k d owned is. is)

pub same-Kept : (s : World) → Kept view s s
same-Kept s = (refl, λ r. omega arith, λ k it owned is. is, λ k d owned is. is)

pub make-Adds : (o : Object) (s : World) → Adds view s (make o s).1 (make o s).0
make-Adds o s = (
  refl,
  λ r'. refl,
  λ k it (is, alive). (is, more-Alive (length s.0 + 10) k s.2 alive),
  λ k d is. get_elem?-more o s.0 (k - 10) (datum d) is,
)

pub at-make : (o : Object) (s : World) → at (make o s).1 (make o s).0 ≡ some o
at-make o s =
    let place : (length s.0 + 10) - 10 ≡ length s.0 = omega arith in rw place (get_elem?-end o s.0)

key_ref-item : (b : Bool) → pick b ≡ item (key_ref b)
key_ref-item true = refl
key_ref-item false = refl

-- The values of the array are alive as long as it is.
pub refs-Refs : (bs : List Bool) (s : World) → 0 < s.2 3 → Refs (IsKey s) (refs bs) (items bs)
refs-Refs [] s owned = tt
refs-Refs (b ∷ bs) s owned = ((key_ref-item b, inr owned), refs-Refs bs s owned)

-- What a search for a label finds.
abbrev pub Finds : Bytes → List Bool → OsStatus × Ref → Type 0
Finds l bs r =
    r.0 ≡ success → (it : Item) × (it ≡ item r.1) × Any (λ i. i ≡ it) (items bs) × (it.label ≡ l)

find-Finds : (l : Bytes) (bs : List Bool) → Finds l bs (find l bs)
find-Finds l [] = λ p. cc
find-Finds l (b ∷ bs) =
    let rest = find-Finds l bs in
    elim (Bool-cases (bytes_equal (pick b).label l)) [
      | inl same ↦
          rw same (λ p. (pick b, key_ref-item b, inl refl, bytes_equal→eq (pick b).label l same))
      | inr other ↦
          rw other (λ p. let (it, is, there, named) = rest p in (it, is, inr there, named))
    ]

pub search-one :
    (tag_ref key q : Ref) (l : Bytes) (s : World)
    → at key s ≡ some (datum l)
    → at q s ≡ some (query (one_query tag_ref key))
    → Finds l s.1 (search (at q s) s)
search-one tag_ref key q l s is_label is_query = rw (is_query, is_label) (find-Finds l s.1)

-- What a search in a world gives to the program.
pub searched :
    (q : Ref) (l : Bytes) (s : World) (r : OsStatus × Ref)
    → Finds l s.1 r
    → (r.0 ≡ success
        → Adds view s r.1 (given r s)
          × (it : Item) × IsKey (given r s) r.1 it
          × Any (λ i. i ≡ it) (items s.1)
          × (it.label ≡ l))
      × ((v : ℕ) → r.0 ≡ fault v → Kept view s (given r s))
searched q l s (success, r) finds = (
  λ p.
      let (it, is, there, named) = finds refl in
      (own-Adds r s, it, (is, own-Alive r s.2), there, named),
  λ v p. absurd cc,
)
searched q l s (fault v, r) finds = (λ p. absurd cc, λ v' p. same-Kept s)

pub all_found :
    (s : World) (bs : List Bool)
    → bs ≡ s.1
    → let r = find_all bs in
      (r.0 ≡ success
        → Adds view s r.1 (given r s)
          × (refs (given r s).1 ≢ [])
          × Refs (IsKey (given r s)) (refs (given r s).1) (items s.1))
      × ((v : ℕ) → r.0 ≡ fault v → Kept view s (given r s))
      × (r.0 ≡ fault key_not_found → items s.1 ≡ [])
all_found s [] is = (λ p. absurd cc, λ v p. same-Kept s, λ p. rw (← is) refl)
all_found s (b ∷ bs) is = (
  λ p. (own-Adds 3 s, rw (← is) (λ e. cc), refs-Refs s.1 (own 3 s) (omega (arith, one_refl 3))),
  λ v p. absurd cc,
  λ p. absurd cc,
)

items-keep : (l : Bytes) (bs : List Bool) → items (keep l bs) ≡ without l (items bs)
items-keep l [] = refl
items-keep l (b ∷ bs) = elim (Bool-cases (bytes_equal (pick b).label l)) [
  | inl same ↦ rw same (items-keep l bs)
  | inr other ↦ rw other (ap (λ its. pick b ∷ its) (items-keep l bs))
]

pub label_length : (r : Ref) → length (item r).label ≡ 20
label_length zero = refl
label_length (suc zero) = refl
label_length (suc (suc r)) = refl

-- The labels of the two keys differ.
same_key : (b b' : Bool) → (pick b).label ≡ (pick b').label → b ≡ b'
unfolding bytes_equal
same_key true true h = refl
same_key false false h = refl
same_key true false h =
    let differ : false ≡ true =
      ap (λ l. bytes_equal l first.label) h ∙ bytes_equal_refl first.label in
    cc
same_key false true h =
    let differ : false ≡ true =
      ap (λ l. bytes_equal l second.label) h ∙ bytes_equal_refl second.label in
    cc

picked : (it : Item) (bs : List Bool) → Any (λ i. i ≡ it) (items bs) → (b : Bool) × (pick b ≡ it)
picked it (b ∷ bs) (inl is) = (b, is)
picked it (b ∷ bs) (inr later) = picked it bs later
picked it [] h = absurd h

pub digest :
    (s : World) (it it' : Item)
    → Any (λ i. i ≡ it) (items s.1)
    → Any (λ i. i ≡ it') (items s.1)
    → it.label ≡ it'.label
    → it ≡ it'
digest s it it' there there' same =
    let (b, is) = picked it s.1 there in
    let (b', is') = picked it' s.1 there' in
    let one : b ≡ b' =
      same_key b b'
        (ap (λ (i : Item). i.label) is ∙ (same ∙ sym (ap (λ (i : Item). i.label) is'))) in
    sym is ∙ (ap pick one ∙ is')

pub search-all :
    (q : Ref) (s : World)
    → at q s ≡ some (query all_query)
    → let r = search (at q s) s in
      (r.0 ≡ success
        → Adds view s r.1 (given r s)
          × (refs (given r s).1 ≢ [])
          × Refs (IsKey (given r s)) (refs (given r s).1) (items s.1))
      × ((v : ℕ) → r.0 ≡ fault v → Kept view s (given r s))
      × (r.0 ≡ fault key_not_found → items s.1 ≡ [])
search-all q s is_query = rw is_query (all_found s s.1 refl)

abbrev pub keychain : Keychain two_keys plain
keychain = record {
  view = view;
  release_lem = release-Drops;
  retain_lem = own-Adds;
  data_lem =
      λ d s. (λ z. absurd (omega (arith, z)), λ nz. (make-Adds (datum d) s, at-make (datum d) s));
  dictionary_lem = λ m s. (make-Adds (query m) s, at-make (query m) s);
  label_lem = λ r it s is. (
    own-Adds r s,
    sym (ap (λ (i : Item). i.label) is.0),
    ap (λ (i : Item). length i.label) is.0 ∙ label_length r,
  );
  public_lem = λ r it s is. (
    own-Adds r s,
    own-Adds r (own r s),
    ap (λ (i : Item). some i.public) (sym is.0),
    it.public,
    refl,
    refl,
  );
  all_lem = search-all;
  one_lem = λ t key q l s is_tag is_label is.
      searched q l s (search (at q s) s) (search-one t key q l s is_label is);
  digest_lem = digest;
}

pub delete-Deletes :
    (key q : Ref) (l : Bytes) (s : World)
    → at key s ≡ some (datum l)
    → at q s ≡ some (query (delete_query key))
    → Deletes two_keys plain keychain 1 l q s
delete-Deletes key q l s is_label is_query =
    rw (is_query, is_label)
      (λ p. (items-keep l s.1, λ r. omega arith), λ v p. absurd cc, λ p. absurd cc)

abbrev pub deleting : Deleting two_keys plain keychain
deleting = record { limit = 1; delete_lem = delete-Deletes }
