-- ===== src/Prelude/Flags.antt =====
-- A byte of eight flags, and the tests of its bits.
use Prim.Native.Nat.{ℕ, suc, ◌+◌, ◌*◌, ◌/◌, ◌%◌, ◌≤◌, bit_and}
use mathlib.Core.Path.{◌≡◌}
use mathlib.Core.Bool.{Bool, true, false, not}
use native.Mathlib.Omega.{arith}
use go_skes.Prelude.Tests.{◌==◌}
use go_skes.Prelude.Bits.{and_0x01, bit_and_step}

-- A mask of one bit.
and_bit1 : (a : ℕ) → bit_and a 2 ≡ a / 2 % 2 * 2
and_bit1 a = omega (arith, bit_and_step a 2, and_0x01 (a / 2))

and_bit2 : (a : ℕ) → bit_and a 4 ≡ a / 4 % 2 * 4
and_bit2 a = omega (arith, bit_and_step a 4, and_bit1 (a / 2))

and_bit3 : (a : ℕ) → bit_and a 8 ≡ a / 8 % 2 * 8
and_bit3 a = omega (arith, bit_and_step a 8, and_bit2 (a / 2))

and_bit4 : (a : ℕ) → bit_and a 16 ≡ a / 16 % 2 * 16
and_bit4 a = omega (arith, bit_and_step a 16, and_bit3 (a / 2))

and_bit5 : (a : ℕ) → bit_and a 32 ≡ a / 32 % 2 * 32
and_bit5 a = omega (arith, bit_and_step a 32, and_bit4 (a / 2))

and_bit6 : (a : ℕ) → bit_and a 64 ≡ a / 64 % 2 * 64
and_bit6 a = omega (arith, bit_and_step a 64, and_bit5 (a / 2))

and_bit7 : (a : ℕ) → bit_and a 128 ≡ a / 128 % 2 * 128
and_bit7 a = omega (arith, bit_and_step a 128, and_bit6 (a / 2))

-- A byte from its bits, most significant first.
abbrev pub bit : Bool → ℕ
bit true = 1
bit false = 0

bit_bound : (c : Bool) → bit c ≤ 1
bit_bound true = omega arith
bit_bound false = omega arith

test_bit : (c : Bool) (x m : ℕ) → x ≡ bit c * suc m → not (x == 0) ≡ c
test_bit true x m e = ground arith
test_bit false x m e = ground arith

abbrev pub byte_of : Bool → Bool → Bool → Bool → Bool → Bool → Bool → Bool → ℕ
byte_of c7 c6 c5 c4 c3 c2 c1 c0 =
    bit c7 * 128
    + bit c6 * 64
    + bit c5 * 32
    + bit c4 * 16
    + bit c3 * 8
    + bit c2 * 4
    + bit c1 * 2
    + bit c0

pub test_bit7 :
    (c7 c6 c5 c4 c3 c2 c1 c0 : Bool) → not (bit_and (byte_of c7 c6 c5 c4 c3 c2 c1 c0) 128 == 0) ≡ c7
test_bit7 c7 c6 c5 c4 c3 c2 c1 c0 = test_bit c7 _ 127 (
    omega (
      arith,
      and_bit7 (byte_of c7 c6 c5 c4 c3 c2 c1 c0),
      bit_bound c0,
      bit_bound c1,
      bit_bound c2,
      bit_bound c3,
      bit_bound c4,
      bit_bound c5,
      bit_bound c6,
      bit_bound c7,
    ))

pub test_bit6 :
    (c7 c6 c5 c4 c3 c2 c1 c0 : Bool) → not (bit_and (byte_of c7 c6 c5 c4 c3 c2 c1 c0) 64 == 0) ≡ c6
test_bit6 c7 c6 c5 c4 c3 c2 c1 c0 = test_bit c6 _ 63 (
    omega (
      arith,
      and_bit6 (byte_of c7 c6 c5 c4 c3 c2 c1 c0),
      bit_bound c0,
      bit_bound c1,
      bit_bound c2,
      bit_bound c3,
      bit_bound c4,
      bit_bound c5,
      bit_bound c6,
      bit_bound c7,
    ))

pub test_bit5 :
    (c7 c6 c5 c4 c3 c2 c1 c0 : Bool) → not (bit_and (byte_of c7 c6 c5 c4 c3 c2 c1 c0) 32 == 0) ≡ c5
test_bit5 c7 c6 c5 c4 c3 c2 c1 c0 = test_bit c5 _ 31 (
    omega (
      arith,
      and_bit5 (byte_of c7 c6 c5 c4 c3 c2 c1 c0),
      bit_bound c0,
      bit_bound c1,
      bit_bound c2,
      bit_bound c3,
      bit_bound c4,
      bit_bound c5,
      bit_bound c6,
      bit_bound c7,
    ))

pub test_bit4 :
    (c7 c6 c5 c4 c3 c2 c1 c0 : Bool) → not (bit_and (byte_of c7 c6 c5 c4 c3 c2 c1 c0) 16 == 0) ≡ c4
test_bit4 c7 c6 c5 c4 c3 c2 c1 c0 = test_bit c4 _ 15 (
    omega (
      arith,
      and_bit4 (byte_of c7 c6 c5 c4 c3 c2 c1 c0),
      bit_bound c0,
      bit_bound c1,
      bit_bound c2,
      bit_bound c3,
      bit_bound c4,
      bit_bound c5,
      bit_bound c6,
      bit_bound c7,
    ))

pub test_bit3 :
    (c7 c6 c5 c4 c3 c2 c1 c0 : Bool) → not (bit_and (byte_of c7 c6 c5 c4 c3 c2 c1 c0) 8 == 0) ≡ c3
test_bit3 c7 c6 c5 c4 c3 c2 c1 c0 = test_bit c3 _ 7 (
    omega (
      arith,
      and_bit3 (byte_of c7 c6 c5 c4 c3 c2 c1 c0),
      bit_bound c0,
      bit_bound c1,
      bit_bound c2,
      bit_bound c3,
      bit_bound c4,
      bit_bound c5,
      bit_bound c6,
      bit_bound c7,
    ))

pub test_bit2 :
    (c7 c6 c5 c4 c3 c2 c1 c0 : Bool) → not (bit_and (byte_of c7 c6 c5 c4 c3 c2 c1 c0) 4 == 0) ≡ c2
test_bit2 c7 c6 c5 c4 c3 c2 c1 c0 = test_bit c2 _ 3 (
    omega (
      arith,
      and_bit2 (byte_of c7 c6 c5 c4 c3 c2 c1 c0),
      bit_bound c0,
      bit_bound c1,
      bit_bound c2,
      bit_bound c3,
      bit_bound c4,
      bit_bound c5,
      bit_bound c6,
      bit_bound c7,
    ))

pub test_bit1 :
    (c7 c6 c5 c4 c3 c2 c1 c0 : Bool) → not (bit_and (byte_of c7 c6 c5 c4 c3 c2 c1 c0) 2 == 0) ≡ c1
test_bit1 c7 c6 c5 c4 c3 c2 c1 c0 = test_bit c1 _ 1 (
    omega (
      arith,
      and_bit1 (byte_of c7 c6 c5 c4 c3 c2 c1 c0),
      bit_bound c0,
      bit_bound c1,
      bit_bound c2,
      bit_bound c3,
      bit_bound c4,
      bit_bound c5,
      bit_bound c6,
      bit_bound c7,
    ))

pub test_bit0 :
    (c7 c6 c5 c4 c3 c2 c1 c0 : Bool) → not (bit_and (byte_of c7 c6 c5 c4 c3 c2 c1 c0) 1 == 0) ≡ c0
test_bit0 c7 c6 c5 c4 c3 c2 c1 c0 = test_bit c0 _ 0 (
    omega (
      arith,
      and_0x01 (byte_of c7 c6 c5 c4 c3 c2 c1 c0),
      bit_bound c0,
      bit_bound c1,
      bit_bound c2,
      bit_bound c3,
      bit_bound c4,
      bit_bound c5,
      bit_bound c6,
      bit_bound c7,
    ))
