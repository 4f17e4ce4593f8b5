-- ===== src/Prelude/Post.antt =====
-- What holds after a call that changes a state and may fail.
use go_skes.Prelude.Go.{Outcome, ok, err, panic, stuck}
use go_skes.Prelude.Exec.{Exec, resume, ◌>>=◌}

-- The call returns with `good`, or fails with `bad`, of its result and the state after it; it
-- neither panics nor runs out of fuel.
abbrev pub Ensures :
    {S E A : Type 0} → (A → S → Type 0) → (E → S → Type 0) → S → Outcome E A → Type 0
Ensures good bad s (ok a) = good a s
Ensures good bad s (err e) = bad e s
Ensures good bad s panic = ⊥
Ensures good bad s stuck = ⊥

abbrev pub Post : {S E A : Type 0} → (A → S → Type 0) → (E → S → Type 0) → Exec S E A → S → Type 0
Post good bad m s = Ensures good bad (m s).0 (m s).1

Ensures-resume :
    {S E A B : Type 0} (mid : A → S → Type 0) (good : B → S → Type 0) (bad : E → S → Type 0) (s : S)
    (r : Outcome E A) (f : A → Exec S E B)
    → Ensures mid bad s r
    → ((a : A) (s' : S) → mid a s' → Post good bad (f a) s')
    → Ensures good bad (resume s r f).0 (resume s r f).1
Ensures-resume mid good bad s (ok a) f h k = k a s h
Ensures-resume mid good bad s (err e) f h k = h
Ensures-resume mid good bad s panic f h k = absurd h
Ensures-resume mid good bad s stuck f h k = absurd h

-- Two calls in a row.
pub Post-bind :
    {S E A B : Type 0} (mid : A → S → Type 0) (good : B → S → Type 0) (bad : E → S → Type 0)
    (m : Exec S E A) (f : A → Exec S E B) (s : S)
    → Post mid bad m s
    → ((a : A) (s' : S) → mid a s' → Post good bad (f a) s')
    → Post good bad (m >>= f) s
Post-bind mid good bad m f s h k = Ensures-resume mid good bad (m s).0 (m s).1 f h k

-- A weaker postcondition.
pub Ensures-weaken :
    {S E A : Type 0} (good good' : A → S → Type 0) (bad bad' : E → S → Type 0) (s : S)
    (r : Outcome E A)
    → ((a : A) → good a s → good' a s)
    → ((e : E) → bad e s → bad' e s)
    → Ensures good bad s r
    → Ensures good' bad' s r
Ensures-weaken good good' bad bad' s (ok a) g b h = g a h
Ensures-weaken good good' bad bad' s (err e) g b h = b e h
Ensures-weaken good good' bad bad' s panic g b h = h
Ensures-weaken good good' bad bad' s stuck g b h = h
