-- ===== src/Prelude/Exec.antt =====
-- Calls that change a state (a card behind a reader, an object being filled) and may fail.
use go_skes.Prelude.Go.{Outcome, ok, err, panic, stuck}
use mathlib.Core.Path.{◌≡◌, refl}
use mathlib.Core.Logic.{◌≢◌}
use mathlib.Core.Bool.{Bool, true, false}
use go_skes.Prelude.Tests.{if◌then◌else◌}

-- The state is changed also by a call that fails.
abbrev pub Exec {ℓ} : Type ℓ → Type 0 → Type ℓ → Type ℓ
Exec S E A = S → S × Outcome E A

abbrev pub resume {ℓ} :
    {S : Type ℓ} {E : Type 0} {A B : Type ℓ} → S → Outcome E A → (A → Exec S E B) → S × Outcome E B
resume s (ok a) f = f a s
resume s (err e) f = (s, err e)
resume s panic f = (s, panic)
resume s stuck f = (s, stuck)

infixl 5 ◌>>=◌ ◌>>◌
abbrev pub ◌>>=◌ {ℓ} :
    {S : Type ℓ} {E : Type 0} {A B : Type ℓ} → Exec S E A → (A → Exec S E B) → Exec S E B
◌>>=◌ m f s = resume (m s).0 (m s).1 f

abbrev pub ◌>>◌ {ℓ} :
    {S : Type ℓ} {E : Type 0} {A B : Type ℓ} → Exec S E A → Exec S E B → Exec S E B
m >> k = m >>= λ _. k

-- A call that leaves the state alone.
abbrev pub lift {ℓ} : {S : Type ℓ} {E : Type 0} {A : Type ℓ} → Outcome E A → Exec S E A
lift r s = (s, r)

-- An assignment to the state, with nothing to return.
abbrev pub modify : {S E : Type 0} → (S → S) → Exec S E (Unit {0})
modify f s = (f s, ok tt)

-- `P` holds of the state after the call if it held before, however the call ends.
abbrev pub Keeps : {S E A : Type 0} → (S → Type 0) → Exec S E A → Type 0
Keeps {S} P m = (s : S) → P s → P (m s).0

Keeps-resume :
    {S E A B : Type 0} {P : S → Type 0} (s : S) (r : Outcome E A) (f : A → Exec S E B)
    → P s
    → ((a : A) → Keeps P (f a))
    → P (resume s r f).0
Keeps-resume s (ok a) f h kf = kf a s h
Keeps-resume s (err e) f h kf = h
Keeps-resume s panic f h kf = h
Keeps-resume s stuck f h kf = h

pub Keeps-bind :
    {S E A B : Type 0} {P : S → Type 0} (m : Exec S E A) (f : A → Exec S E B)
    → Keeps P m
    → ((a : A) → Keeps P (f a))
    → Keeps P (m >>= f)
Keeps-bind {P = P} m f km kf s h = Keeps-resume {P = P} (m s).0 (m s).1 f (km s h) kf

-- The call does not run out of fuel.
abbrev pub Ends : {S E A : Type 0} → Exec S E A → Type 0
Ends {S} m = (s : S) → (m s).1 ≢ stuck

pub Ends-resume :
    {S E A B : Type 0} (s : S) (r : Outcome E A) (f : A → Exec S E B)
    → r ≢ stuck
    → ((a : A) → Ends (f a))
    → (resume s r f).1 ≢ stuck
Ends-resume s (ok a) f h kf = kf a s
Ends-resume s (err e) f h kf = λ p. cc
Ends-resume s panic f h kf = λ p. cc
Ends-resume s stuck f h kf = λ p. h refl

pub Ends-bind :
    {S E A B : Type 0} (m : Exec S E A) (f : A → Exec S E B)
    → Ends m
    → ((a : A) → Ends (f a))
    → Ends (m >>= f)
Ends-bind m f km kf s = Ends-resume (m s).0 (m s).1 f (km s) kf

pub Ends-if :
    {S E A : Type 0} (b : Bool) (m n : Exec S E A) → Ends m → Ends n → Ends (if b then m else n)
Ends-if true m n hm hn = hm
Ends-if false m n hm hn = hn

pub Keeps-if :
    {S E A : Type 0} {P : S → Type 0} (b : Bool) (m n : Exec S E A)
    → Keeps P m
    → Keeps P n
    → Keeps P (if b then m else n)
Keeps-if true m n hm hn = hm
Keeps-if false m n hm hn = hn

-- A call that succeeds has a first part that succeeds, and goes on from the state that this leaves.
pub resume-eq-ok :
    {S E A B : Type 0} (s : S) (r : Outcome E A) (f : A → Exec S E B) {b : B}
    → (resume s r f).1 ≡ ok b
    → (a : A) × (r ≡ ok a) × ((f a s).1 ≡ ok b)
resume-eq-ok s (ok a) f h = (a, refl, h)
resume-eq-ok s (err e) f h = cc
resume-eq-ok s panic f h = cc
resume-eq-ok s stuck f h = cc

-- A call that succeeds behind a test passed it.
pub guarded-eq-ok :
    {S E A : Type 0} (b : Bool) (e : E) (m : Exec S E A) (s : S) {a : A}
    → ((if b then m else lift (err e)) s).1 ≡ ok a
    → (m s).1 ≡ ok a
guarded-eq-ok true e m s h = h
guarded-eq-ok false e m s h = cc
