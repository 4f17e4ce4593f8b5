-- ===== src/Prelude/Bits.antt =====
-- Masks and shifts as arithmetic: those on one byte by a table, the others by the digit recursion.
use Prim.Native.Nat.{
  ℕ, zero, suc, ◌+◌, ◌*◌, ◌/◌, ◌%◌, ◌^◌, ◌≤◌, ◌<◌, max, min, bit_and, bit_or, digits,
  bit_or-bitwise, bit_and-bitwise,
}
use mathlib.Core.Path.{◌≡◌, refl, sym, ap, ◌∙◌}
use mathlib.Core.Bool.{Bool, true, false}
use mathlib.Core.Logic.{ite}
use native.Mathlib.Decide.{ℕ_discrete}
use native.Mathlib.Nat.{pow-suc}
use native.Mathlib.Omega.{arith}

module _ (f g : ℕ → ℕ) where
  agree_below : ℕ → Bool
  unfolding ℕ_discrete
  agree_below zero = true
  agree_below (suc n) = ite (ℕ_discrete (f n) (g n)) (agree_below n) false

  agree_below→eq : (n : ℕ) → agree_below n ≡ true → (i : ℕ) → i < n → f i ≡ g i
  unfolding agree_below
  agree_below→eq zero e i h = absurd (omega arith)
  agree_below→eq (suc n) e i h = ground (arith, agree_below→eq n (ground arith) i)

pub and_0x1f : (b : ℕ) → b < 256 → bit_and b 0x1f ≡ b % 32
unfolding agree_below
and_0x1f = agree_below→eq _ _ 256 refl

pub and_0x7f : (b : ℕ) → b < 256 → bit_and b 0x7f ≡ b % 128
unfolding agree_below
and_0x7f = agree_below→eq _ _ 256 refl

pub and_0x80 : (b : ℕ) → b < 256 → bit_and b 0x80 ≡ b / 128 * 128
unfolding agree_below
and_0x80 = agree_below→eq _ _ 256 refl

pub and_0x20 : (b : ℕ) → b < 256 → bit_and b 0x20 ≡ b / 32 % 2 * 32
unfolding agree_below
and_0x20 = agree_below→eq _ _ 256 refl

-- Both operations go through the binary digits. Fuel above the first number is not used, so that one
-- digit can be split off with the same fuel as the number that is left.
module _ (rest : ℕ → ℕ) (op : ℕ → ℕ → ℕ) where
  no_digit : (fuel b : ℕ) → digits rest op fuel 0 b ≡ rest b
  no_digit zero b = refl
  no_digit (suc fuel) b = refl

  spare :
      (a : ℕ) (fuel larger b : ℕ)
      → a ≤ fuel
      → fuel ≤ larger
      → digits rest op larger a b ≡ digits rest op fuel a b
  spare zero fuel larger b h l = no_digit larger b ∙ sym (no_digit fuel b)
  spare (suc a) zero larger b h l = absurd (omega arith)
  spare (suc a) (suc fuel) zero b h l = absurd (omega arith)
  spare (suc a) (suc fuel) (suc larger) b h l =
      ap (λ n. n * 2 + op (suc a % 2) (b % 2))
        (spare (suc a / 2) fuel larger (b / 2) (omega arith) (omega arith))

  split :
      (a b : ℕ)
      → digits rest op (suc a) (suc a) b
        ≡ digits rest op (suc a / 2) (suc a / 2) (b / 2) * 2 + op (suc a % 2) (b % 2)
  split a b =
      ap (λ n. n * 2 + op (suc a % 2) (b % 2))
        (spare (suc a / 2) (suc a / 2) a (b / 2) (omega arith) (omega arith))

-- One digit of `or`.
bit_or_step : (a b : ℕ) → bit_or a b ≡ bit_or (a / 2) (b / 2) * 2 + max (a % 2) (b % 2)
bit_or_step zero b =
    let whole : bit_or 0 b ≡ b = bit_or-bitwise 0 b in
    let half : bit_or 0 (b / 2) ≡ b / 2 = bit_or-bitwise 0 (b / 2) in omega arith
bit_or_step (suc a) b =
    bit_or-bitwise (suc a) b
    ∙ split (λ b. b) max a b
    ∙ ap (λ n. n * 2 + max (suc a % 2) (b % 2)) (sym (bit_or-bitwise (suc a / 2) (b / 2)))

bit_or_even : (a b : ℕ) → bit_or (a * 2) b ≡ bit_or a (b / 2) * 2 + b % 2
bit_or_even a b =
    let half : a * 2 / 2 ≡ a = omega arith in bit_or_step (a * 2) b ∙ rw half (omega arith)

or_nothing : (n a : ℕ) → a ≤ n → bit_or a 0 ≡ a
or_nothing n zero h = bit_or-bitwise 0 0
or_nothing zero (suc a) h = absurd (omega arith)
or_nothing (suc n) (suc a) h =
    omega (arith, or_nothing n (suc a / 2) (omega arith), bit_or_step (suc a) 0)

double : (k hi : ℕ) → hi * 2 ^ suc k ≡ hi * 2 ^ k * 2
double k hi = rw pow-suc (omega arith)

-- `hi << k | lo` joins two fields.
pub or_fields : (k hi lo : ℕ) → lo < 2 ^ k → bit_or (hi * 2 ^ k) lo ≡ hi * 2 ^ k + lo
or_fields zero hi lo h =
    let none_left : lo ≡ 0 = omega arith in
    rw none_left (or_nothing (hi * 2 ^ 0) (hi * 2 ^ 0) (omega arith) ∙ omega arith)
or_fields (suc k) hi lo h = rw double (
    bit_or_even (hi * 2 ^ k) lo
    ∙ omega (arith, or_fields k hi (lo / 2) (omega (arith, pow-suc 2 k))))

-- The two shifts that the code joins bytes by.
pub or_byte : (hi lo : ℕ) → lo < 256 → bit_or (hi * 256) lo ≡ hi * 256 + lo
or_byte hi lo h = or_fields 8 hi lo h

pub or_short : (hi lo : ℕ) → lo < 65536 → bit_or (hi * 65536) lo ≡ hi * 65536 + lo
or_short hi lo h = or_fields 16 hi lo h

-- One digit of `and`.
pub bit_and_step : (a b : ℕ) → bit_and a b ≡ bit_and (a / 2) (b / 2) * 2 + min (a % 2) (b % 2)
bit_and_step zero b =
    let whole : bit_and 0 b ≡ 0 = bit_and-bitwise 0 b in
    let half : bit_and 0 (b / 2) ≡ 0 = bit_and-bitwise 0 (b / 2) in omega arith
bit_and_step (suc a) b =
    bit_and-bitwise (suc a) b
    ∙ split (λ b. 0) min a b
    ∙ ap (λ n. n * 2 + min (suc a % 2) (b % 2)) (sym (bit_and-bitwise (suc a / 2) (b / 2)))

and_nothing : (n a : ℕ) → a ≤ n → bit_and a 0 ≡ 0
and_nothing n zero h = bit_and-bitwise 0 0
and_nothing zero (suc a) h = absurd (omega arith)
and_nothing (suc n) (suc a) h =
    omega (arith, and_nothing n (suc a / 2) (omega arith), bit_and_step (suc a) 0)

-- The masks of 1 to 8 ones, each from the one before.
pub and_0x01 : (a : ℕ) → bit_and a 0x01 ≡ a % 2
and_0x01 a = omega (arith, bit_and_step a 1, and_nothing (a / 2) (a / 2) (omega arith))

and_0x03 : (a : ℕ) → bit_and a 0x03 ≡ a % 4
and_0x03 a = omega (arith, bit_and_step a 0x03, and_0x01 (a / 2))

and_0x07 : (a : ℕ) → bit_and a 0x07 ≡ a % 8
and_0x07 a = omega (arith, bit_and_step a 0x07, and_0x03 (a / 2))

pub and_0x0f : (a : ℕ) → bit_and a 0x0f ≡ a % 16
and_0x0f a = omega (arith, bit_and_step a 0x0f, and_0x07 (a / 2))

mask_0x1f : (a : ℕ) → bit_and a 0x1f ≡ a % 32
mask_0x1f a = omega (arith, bit_and_step a 0x1f, and_0x0f (a / 2))

and_0x3f : (a : ℕ) → bit_and a 0x3f ≡ a % 64
and_0x3f a = omega (arith, bit_and_step a 0x3f, mask_0x1f (a / 2))

mask_0x7f : (a : ℕ) → bit_and a 0x7f ≡ a % 128
mask_0x7f a = omega (arith, bit_and_step a 0x7f, and_0x3f (a / 2))

pub and_0xff : (a : ℕ) → bit_and a 0xff ≡ a % 256
and_0xff a = omega (arith, bit_and_step a 0xff, mask_0x7f (a / 2))
