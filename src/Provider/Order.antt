-- ===== src/Provider/Order.antt =====
-- provider/file.go: what Keys returns does not hang on the order of the directory, nor on the order in
-- which the loop runs over the map.
use mathlib.Core.List.{Permᴰ}
use mathlib.Core.List.Permᴰ
use go_skes.Prelude.{
  ◌≡◌, refl, ◌⊎◌, inl, inr, Bool, true, false, not, List, [], ◌∷◌, Option, none, some, bytes_equal,
  if◌then◌else◌, Bytes, Outcome, ok, err, panic, stuck, ◌>>=◌,
}
use go_skes.Provider.File.{
  Error, read_file, load_key, Entry, listed, Crypto, ext, key_suffix, select_files, key_files,
  read_entry, read_all, keys, load_private_key, key_id, id_loop, list_keys,
}
use go_skes.Provider.Lookup.{Iterates}
use go_skes.Prelude.Bag.{
  as_bag, SameUpTo, both, neither, as_bag-SameUpTo, traverse, Answers, traverse-Perm,
}

-- The loops of the provider stop at the first error, and have but one.
named_entry : Entry → Outcome Error (Bytes × Bytes)
named_entry de = do key ← read_entry de; ok (de.name, key)

read_all-traverse : (des : List Entry) → read_all des ≡ traverse named_entry des
unfolding read_all named_entry
read_all-traverse [] = refl
read_all-traverse (de ∷ des) = rw (read_all-traverse des) (go (read_entry de))
  where
    go :
        (r : Outcome Error Bytes)
        → (r >>= λ key. traverse named_entry des >>= λ l. ok ((de.name, key) ∷ l)) ≡ (
            (r >>= λ key. ok (de.name, key)) >>= λ y.
            traverse named_entry des >>= λ ys. ok (y ∷ ys))
    go (ok key) = refl
    go (err e) = refl
    go panic = refl
    go stuck = refl

named_entry-Answers : (de : Entry) → Answers named_entry read_file de
unfolding named_entry
named_entry-Answers de = go de.content
  where
    go :
        (c : Option Bytes)
        → let named : Bytes → Outcome Error (Bytes × Bytes) = λ key. ok (de.name, key) in
          let r = (elim c [ none ↦ err read_file | some key ↦ ok key ]) >>= named in
          ((y : Bytes × Bytes) × (r ≡ ok y)) ⊎ (r ≡ err read_file)
    go none = inr refl
    go (some key) = inl ((de.name, key), refl)

select_files-cons :
    (de : Entry) (l l' : List Entry)
    → Permᴰ (select_files l) (select_files l')
    → Permᴰ (select_files (de ∷ l)) (select_files (de ∷ l'))
select_files-cons de l l' p = go de.is_dir (bytes_equal (ext de.name) key_suffix)
  where
    go :
        (d x : Bool)
        → Permᴰ
            (if d then select_files l else if not x then select_files l else de ∷ select_files l)
            (if d then select_files l' else if not x then select_files l' else de ∷ select_files l')
    go true x = p
    go false true = Permᴰ.cons refl p
    go false false = p

select_files-swap :
    (a b : Entry) (l : List Entry) → Permᴰ (select_files (a ∷ b ∷ l)) (select_files (b ∷ a ∷ l))
select_files-swap a b l =
    go a.is_dir (bytes_equal (ext a.name) key_suffix) b.is_dir (bytes_equal (ext b.name) key_suffix)
  where
    pick : Bool → Bool → Entry → List Entry → List Entry
    pick d x de l = if d then l else if not x then l else de ∷ l

    go :
        (d x d' x' : Bool)
        → Permᴰ
            (pick d x a (pick d' x' b (select_files l)))
            (pick d' x' b (pick d x a (select_files l)))
    go true x d' x' = Permᴰ.refl _
    go false false d' x' = Permᴰ.refl _
    go false true true x' = Permᴰ.refl _
    go false true false false = Permᴰ.refl _
    go false true false true = Permᴰ.swap refl refl

select_files-Perm : {l l' : List Entry} → Permᴰ l l' → Permᴰ (select_files l) (select_files l')
select_files-Perm Permᴰ.nil = Permᴰ.nil
select_files-Perm (Permᴰ.cons {a = a} {l₁ = l} {l₂ = l'} same p) =
    rw (← same) (select_files-cons a l l' (select_files-Perm p))
select_files-Perm (Permᴰ.swap {a = a} {b = b} {l = l} e₁ e₂) =
    rw (← e₁, ← e₂) (select_files-swap a b l)
select_files-Perm (Permᴰ.trans p q) = Permᴰ.trans (select_files-Perm p) (select_files-Perm q)

module _ (C : Crypto) where
  id_of : Bytes × Bytes → Outcome Error Bytes
  id_of (n, key) = do sk ← load_private_key C key; ok (key_id C sk)

  id_loop-traverse : (l : List (Bytes × Bytes)) → id_loop C l ≡ traverse id_of l
  unfolding id_loop id_of
  id_loop-traverse [] = refl
  id_loop-traverse ((n, key) ∷ l) = rw (id_loop-traverse l) (go (load_private_key C key))
    where
      go :
          (r : Outcome Error C.Key)
          → (r >>= λ sk. traverse id_of l >>= λ ids. ok (key_id C sk ∷ ids))
            ≡ ((r >>= λ sk. ok (key_id C sk)) >>= λ y. traverse id_of l >>= λ ys. ok (y ∷ ys))
      go (ok sk) = refl
      go (err e) = refl
      go panic = refl
      go stuck = refl

  id_of-Answers : (b : Bytes × Bytes) → Answers id_of load_key b
  unfolding id_of load_private_key
  id_of-Answers (n, key) = go (C.new_private_key key)
    where
      go :
          (o : Option C.Key)
          → let named : C.Key → Outcome Error Bytes = λ sk. ok (key_id C sk) in
            let r = (elim o [ none ↦ err load_key | some sk ↦ ok sk ]) >>= named in
            ((y : Bytes) × (r ≡ ok y)) ⊎ (r ≡ err load_key)
      go none = inr refl
      go (some sk) = inl (key_id C sk, refl)

  module _ (order order' : List (Bytes × Bytes) → List (Bytes × Bytes)) (h : Iterates order)
      (h' : Iterates order') where
    listed-SameUpTo :
        {r r' : Outcome Error (List (Bytes × Bytes))}
        → SameUpTo r r'
        → SameUpTo
            (r >>= λ found. id_loop C (order found))
            (r' >>= λ found. id_loop C (order' found))
    listed-SameUpTo (both {l = l} {l' = l'} p) =
        rw (id_loop-traverse (order l), id_loop-traverse (order' l'))
          (traverse-Perm id_of load_key id_of-Answers
            (Permᴰ.trans (h l) (Permᴰ.trans p (Permᴰ.symm (h' l')))))
    listed-SameUpTo (neither e) = neither e

    pub as_bag-list_keys :
        (des des' : List Entry)
        → Permᴰ des des'
        → as_bag (list_keys C order (listed des)) ≡ as_bag (list_keys C order' (listed des'))
    unfolding list_keys keys key_files
    as_bag-list_keys des des' p = as_bag-SameUpTo (
        listed-SameUpTo (
          rw (read_all-traverse (select_files des), read_all-traverse (select_files des'))
            (traverse-Perm named_entry read_file named_entry-Answers (select_files-Perm p))))
