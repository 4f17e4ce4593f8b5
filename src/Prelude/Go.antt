-- ===== src/Prelude/Go.antt =====
-- What a Go call can end in: its value, an error value, a run-time panic, or (no Go value at all)
-- a loop of the model that ran out of its fuel.
use mathlib.Core.Path.{◌≡◌, refl}
use mathlib.Core.Logic.{◌≢◌}
use mathlib.Core.List.{List}
use Prim.Native.Nat.{ℕ, ◌<◌}

-- A byte slice. The contents are all that the code looks at; the elements are below 256.
abbrev pub Bytes : Type 0
Bytes = List ℕ

abbrev pub IsByte : ℕ → Type 0
IsByte b = b < 256

pub data Outcome {ℓ} (E : Type 0) (A : Type ℓ) : Type ℓ where
  ok : A → Outcome E A
  err : E → Outcome E A
  panic : Outcome E A
  stuck : Outcome E A

infixl 5 ◌>>=◌ ◌>>◌
abbrev pub ◌>>=◌ {ℓ κ} :
    {E : Type 0} {A : Type ℓ} {B : Type κ} → Outcome E A → (A → Outcome E B) → Outcome E B
panic >>= f = panic
stuck >>= f = stuck
err e >>= f = err e
ok a >>= f = f a

abbrev pub ◌>>◌ {ℓ} : {E : Type 0} {B : Type ℓ} → Outcome E (Unit {0}) → Outcome E B → Outcome E B
m >> k = m >>= λ _. k

-- An error of one package as an error of another.
abbrev pub map_err {ℓ} : {E F : Type 0} {A : Type ℓ} → (E → F) → Outcome E A → Outcome F A
map_err g panic = panic
map_err g stuck = stuck
map_err g (err e) = err (g e)
map_err g (ok a) = ok a

-- A chain that succeeds has a first part that succeeds, and goes on with its value.
pub >>=-eq-ok {ℓ κ} :
    {E : Type 0} {A : Type ℓ} {B : Type κ} (first : Outcome E A) (next : A → Outcome E B) {b : B}
    → (first >>= next) ≡ ok b
    → (a : A) × (first ≡ ok a) × (next a ≡ ok b)
>>=-eq-ok panic next h = cc
>>=-eq-ok stuck next h = cc
>>=-eq-ok (err e) next h = cc
>>=-eq-ok (ok value) next h = (value, refl, h)

pub >>=-ne-stuck {ℓ κ} :
    {E : Type 0} {A : Type ℓ} {B : Type κ} (m : Outcome E A) (f : A → Outcome E B)
    → m ≢ stuck
    → ((a : A) → f a ≢ stuck)
    → (m >>= f) ≢ stuck
>>=-ne-stuck (ok a) f hm hf = hf a
>>=-ne-stuck (err e) f hm hf = λ p. cc
>>=-ne-stuck panic f hm hf = λ p. cc
>>=-ne-stuck stuck f hm hf = λ p. hm refl

pub map_err-ne-stuck {ℓ} :
    {E F : Type 0} {A : Type ℓ} (g : E → F) (r : Outcome E A) → r ≢ stuck → map_err g r ≢ stuck
map_err-ne-stuck g (ok a) h e = cc
map_err-ne-stuck g (err x) h e = cc
map_err-ne-stuck g panic h e = cc
map_err-ne-stuck g stuck h e = h refl

pub map_err-eq-ok :
    {E F A : Type 0} (g : E → F) (r : Outcome E A) {a : A} → map_err g r ≡ ok a → r ≡ ok a
map_err-eq-ok g (ok a) h = cc
map_err-eq-ok g (err e) h = cc
map_err-eq-ok g panic h = cc
map_err-eq-ok g stuck h = cc
