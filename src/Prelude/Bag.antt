-- ===== src/Prelude/Bag.antt =====
-- Lists up to order, and loops over lists that stop at the first error.
use mathlib.Core.List.{Permᴰ}
use mathlib.Core.Quot
use mathlib.Core.Quot.{Quot}
use mathlib.Core.Path.{◌≡◌, refl, ap}
use mathlib.Core.Logic.{◌⊎◌, inl, inr}
use mathlib.Core.List.{List, [], ◌∷◌}
use go_skes.Prelude.Go.{Outcome, ok, err, panic, stuck, ◌>>=◌}

-- Lists up to order.
abbrev pub Bag : Type 0 → Type 0
Bag A = Quot (λ (xs ys : List A). Permᴰ xs ys)

-- A result that is a list, up to order.
abbrev pub as_bag : {E A : Type 0} → Outcome E (List A) → Outcome E (Bag A)
as_bag (ok l) = ok (Quot.mk l)
as_bag (err e) = err e
as_bag panic = panic
as_bag stuck = stuck

-- Both calls return the same list up to order, or fail with the same error.
pub data SameUpTo {E A : Type 0} : Outcome E (List A) → Outcome E (List A) → Type 0 where
  both : {l l' : List A} → Permᴰ l l' → SameUpTo (ok l) (ok l')
  neither : (e : E) → SameUpTo (err e) (err e)

pub as_bag-SameUpTo :
    {E A : Type 0} {r r' : Outcome E (List A)} → SameUpTo r r' → as_bag r ≡ as_bag r'
as_bag-SameUpTo (both p) = ap ok (Quot.sound p)
as_bag-SameUpTo (neither e) = refl

SameUpTo-trans :
    {E A : Type 0} {r r' r'' : Outcome E (List A)}
    → SameUpTo r r'
    → SameUpTo r' r''
    → SameUpTo r r''
SameUpTo-trans (both p) (both q) = both (Permᴰ.trans p q)
SameUpTo-trans (neither e) h = h

-- A loop that calls `f` for each item, and stops at the first error.
abbrev pub traverse : {E A B : Type 0} → (A → Outcome E B) → List A → Outcome E (List B)
traverse f [] = ok []
traverse f (x ∷ l) = do y ← f x; ys ← traverse f l; ok (y ∷ ys)

module _ {E A B : Type 0} (f : A → Outcome E B) (e : E) where
  -- The call returns, or fails with the one error.
  abbrev pub Answers : A → Type 0
  Answers x = ((y : B) × (f x ≡ ok y)) ⊎ (f x ≡ err e)

  SameUpTo-put :
      (y : B) {r r' : Outcome E (List B)}
      → SameUpTo r r'
      → SameUpTo (r >>= λ ys. ok (y ∷ ys)) (r' >>= λ ys. ok (y ∷ ys))
  SameUpTo-put y (both p) = both (Permᴰ.cons refl p)
  SameUpTo-put y (neither e') = neither e'

  module _ (answers : (x : A) → Answers x) where
    traverse-Answers :
        (l : List A) → ((ys : List B) × (traverse f l ≡ ok ys)) ⊎ (traverse f l ≡ err e)
    traverse-Answers [] = inl ([], refl)
    traverse-Answers (x ∷ l) = elim (answers x) [
      | inr failed ↦ inr (rw failed refl)
      | inl (y, made) ↦ elim (traverse-Answers l) [
        | inr failed ↦ inr (rw (made, failed) refl)
        | inl (ys, rest) ↦ inl (y ∷ ys, rw (made, rest) refl)
      ]
    ]

    traverse-cons :
        (x : A) (l l' : List A)
        → SameUpTo (traverse f l) (traverse f l')
        → SameUpTo (traverse f (x ∷ l)) (traverse f (x ∷ l'))
    traverse-cons x l l' h = elim (answers x) [
      | inr failed ↦ rw failed (neither e)
      | inl (y, made) ↦ rw made (SameUpTo-put y h)
    ]

    traverse-swap :
        (x y : A) (l : List A) → SameUpTo (traverse f (x ∷ y ∷ l)) (traverse f (y ∷ x ∷ l))
    traverse-swap x y l = elim (answers x) [
      | inr failed ↦ elim (answers y) [
        | inr failed' ↦ rw (failed, failed') (neither e)
        | inl (b, made') ↦ rw (failed, made') (neither e)
      ]
      | inl (a, made) ↦ elim (answers y) [
        | inr failed' ↦ rw (made, failed') (neither e)
        | inl (b, made') ↦ elim (traverse-Answers l) [
          | inr failed ↦ rw (made, made', failed) (neither e)
          | inl (ys, rest) ↦ rw (made, made', rest) (both (Permᴰ.swap refl refl))
        ]
      ]
    ]

    -- Whatever the order of the items, the loop returns the same results up to order, or fails.
    pub traverse-Perm : {l l' : List A} → Permᴰ l l' → SameUpTo (traverse f l) (traverse f l')
    traverse-Perm Permᴰ.nil = both Permᴰ.nil
    traverse-Perm (Permᴰ.cons {a = a} {l₁ = l} {l₂ = l'} same p) =
        rw (← same) (traverse-cons a l l' (traverse-Perm p))
    traverse-Perm (Permᴰ.swap {a = a} {b = b} {l = l} e₁ e₂) = rw (← e₁, ← e₂) (traverse-swap a b l)
    traverse-Perm (Permᴰ.trans p q) = SameUpTo-trans (traverse-Perm p) (traverse-Perm q)
