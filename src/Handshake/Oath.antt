-- ===== src/Handshake/Oath.antt =====
-- hmac/oath.go and handshake/oath.go: one-time passwords over a counter. The keyed hash is a
-- parameter: crypto/hmac with the hash of the configuration, or the HMAC of a provider's key. The
-- log line is left out.
use go_skes.Prelude.{
  ℕ, ◌+◌, ◌*◌, ◌/◌, ◌%◌, ◌^◌, ◌<◌, ◌≤◌, sym, ◌≡◌, ◌≢◌, ap, ◌↔◌, refl, Bool, true, false, [], ◌∷◌,
  arith, ◌==◌, bytes_equal, bytes_equal_refl, bytes_equal→eq, if◌then◌else◌, length, Bytes,
}
use native.Mathlib.Nat.{div-eq_of_lt-le}
use go_skes.Iso7816.Tag.{big_endian}

-- binary.BigEndian.PutUint64
unfoldable pub put_uint64 : ℕ → Bytes
put_uint64 n =
    n / 2 ^ 56 % 256
    ∷ n / 2 ^ 48 % 256
    ∷ n / 2 ^ 40 % 256
    ∷ n / 2 ^ 32 % 256
    ∷ n / 2 ^ 24 % 256
    ∷ n / 2 ^ 16 % 256
    ∷ n / 2 ^ 8 % 256
    ∷ n % 256
    ∷ []

-- The counter of a time: `uint64(math.Floor(float64(t.Unix()) / period.Seconds()))` for a time from
-- 1970 on and below 2 ^ 52 seconds, and a period of at least one and of whole seconds, where the
-- rounding of the quotient does not reach the next integer.
abbrev pub time_counter : ℕ → ℕ → ℕ
time_counter unix period = unix / period

-- subtle.ConstantTimeCompare: 1 for equal slices, and 0 otherwise.
abbrev pub constant_time_compare : Bytes → Bytes → ℕ
constant_time_compare x y = if bytes_equal x y then 1 else 0

module _ (mac : Bytes → Bytes) where
  unfoldable pub calculate_hotp : ℕ → Bytes
  unfolding put_uint64
  calculate_hotp counter = mac (put_uint64 counter)

  unfoldable pub calculate_totp : ℕ → ℕ → Bytes
  unfolding calculate_hotp
  calculate_totp period t = calculate_hotp (time_counter t period)

  unfoldable pub validate_hotp : ℕ → Bytes → Bool
  unfolding calculate_hotp
  validate_hotp counter code = constant_time_compare (calculate_hotp counter) code == 0

  unfoldable pub validate_totp : ℕ → ℕ → Bytes → Bool
  unfolding calculate_totp
  validate_totp period t code = constant_time_compare (calculate_totp period t) code == 0

-- The handshake's methods. `mac` is the HMAC of a provider's key: a call that may fail and may change
-- the world, of the type `R`.
module _ {R : Type 0} (mac : Bytes → R) where
  unfoldable pub handshake_hotp : ℕ → R
  unfolding put_uint64
  handshake_hotp counter = mac (put_uint64 counter)

  unfoldable pub handshake_totp : ℕ → ℕ → R
  unfolding handshake_hotp
  handshake_totp timestep t = handshake_hotp (time_counter t timestep)

  -- OATHHandshake.Secret, with what the clock says.
  unfoldable pub handshake_secret : ℕ → ℕ → R
  unfolding handshake_totp
  handshake_secret timestep now = handshake_totp timestep now

-- The challenge is the counter in eight bytes, most significant first: counters below 2 ^ 64 have
-- different challenges.
pub put_uint64_lem :
    (n : ℕ) → n < 2 ^ 64 → (big_endian 0 (put_uint64 n) ≡ n) × (length (put_uint64 n) ≡ 8)
unfolding put_uint64
put_uint64_lem n h = (omega arith, refl)

-- ValidateHOTP returns true exactly for the codes that differ from the calculated one.
pub validate_hotp_lem :
    (mac : Bytes → Bytes) (counter : ℕ) (code : Bytes)
    → (validate_hotp mac counter code ≡ true) ↔ (code ≢ calculate_hotp mac counter)
unfolding validate_hotp
validate_hotp_lem mac counter code = go (bytes_equal (calculate_hotp mac counter) code) refl
  where
    go :
        (b : Bool)
        → bytes_equal (calculate_hotp mac counter) code ≡ b
        → (((if b then 1 else 0) == 0) ≡ true) ↔ (code ≢ calculate_hotp mac counter)
    go true e =
        ((λ p. cc), λ n. absurd (n (sym (bytes_equal→eq (calculate_hotp mac counter) code e))))
    go false e = (
      (λ p same.
          let equal : bytes_equal (calculate_hotp mac counter) code ≡ true =
            rw same (bytes_equal_refl (calculate_hotp mac counter)) in
          cc),
      λ n. refl,
    )

-- The one-time password of a time in the period with a number, of a positive length, is the
-- password of that number as the counter.
pub calculate_totp_lem :
    (mac : Bytes → Bytes) (period number t : ℕ)
    → 0 < period
    → number * period ≤ t
    → t < number * period + period
    → calculate_totp mac period t ≡ calculate_hotp mac number
unfolding calculate_totp
calculate_totp_lem mac period number t p lo hi =
    ap (calculate_hotp mac) (div-eq_of_lt-le period lo (grind arith))
