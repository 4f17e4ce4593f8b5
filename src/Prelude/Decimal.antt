-- ===== src/Prelude/Decimal.antt =====
-- Decimal numerals, as `%d` of package fmt prints a number that is not negative.
use Prim.Native.Nat.{ℕ, zero, suc, ◌+◌, ◌-◌, ◌*◌, ◌/◌, ◌%◌, ◌<◌}
use mathlib.Core.Path.{◌≡◌, ap, ◌∙◌}
use mathlib.Core.Logic.{inl, inr}
use mathlib.Core.List.{List, [], ◌∷◌}
use native.Mathlib.Omega.{arith}
use go_skes.Prelude.Tests.{ltb, Bool-cases, if◌then◌else◌}

-- The digits of `n` before those of `acc`, in as many rounds as the fuel allows.
unfoldable pub digits : ℕ → ℕ → List ℕ → List ℕ
digits zero n acc = acc
digits (suc fuel) n acc =
    let rest = digits fuel (n / 10) ((b'0' + n % 10) ∷ acc) in
    if ltb n 10 then (b'0' + n) ∷ acc else rest

-- A number has fewer digits than `n + 1` rounds give.
unfoldable pub decimal : ℕ → List ℕ
unfolding digits
decimal n = digits (suc n) n []

-- The number that a list of digits stands for, after `before`.
abbrev pub value : ℕ → List ℕ → ℕ
value before [] = before
value before (c ∷ cs) = value (before * 10 + (c - b'0')) cs

value-digits : (fuel n : ℕ) (acc : List ℕ) → n < fuel → value 0 (digits fuel n acc) ≡ value n acc
unfolding digits
value-digits zero n acc h = elim h [ ]
value-digits (suc fuel) n acc h =
    let last : 0 * 10 + ((b'0' + n) - b'0') ≡ n = omega arith in
    let more : n / 10 * 10 + ((b'0' + n % 10) - b'0') ≡ n = omega arith in
    elim (Bool-cases (ltb n 10)) [
      | inl small ↦ rw small (ap (λ m. value m acc) last)
      | inr big ↦ rw big (
          value-digits fuel (n / 10) ((b'0' + n % 10) ∷ acc) (ground arith)
          ∙ ap (λ m. value m acc) more)
    ]

-- Printing a number and reading its digits gives the number.
pub value-decimal : (n : ℕ) → value 0 (decimal n) ≡ n
unfolding decimal
value-decimal n = value-digits (suc n) n [] (omega arith)
