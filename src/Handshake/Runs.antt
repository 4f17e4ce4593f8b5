-- ===== src/Handshake/Runs.antt =====
-- The theorems on the secrets at concrete inputs.
use go_skes.Prelude.{
  ℕ, zero, suc, ◌<◌, ◌≡◌, ◌≢◌, ◌↔◌, true, List, [], ◌∷◌, ◌++◌, Option, none, some, arith, codes,
  Bytes, ok, err, stuck,
}
use go_skes.Prelude.Exec.{lift}
use go_skes.Handshake.Noise.{
  StateError, done, Connection, Progress, noise_secret, noise_secret-ne-stuck,
}
use go_skes.Handshake.NoiseTrace.{start, recorded, EndsAt, noise_secret-EndsAt}
use go_skes.Handshake.Chained.{Finished, secret, secret_lem}
use go_skes.Handshake.Oath.{calculate_hotp, validate_hotp, validate_hotp_lem}

-- A keyed digest that keeps the key and the data.
abbrev join : Bytes → Bytes → Bytes
join k d = k ++ (0xff ∷ d)

-- The second of two handshakes fails with 7, before the first one ends.
abbrev race : List (Finished ℕ)
race =
    record { index = 1; secret = []; failure = some 7 }
    ∷ record { index = 0; secret = 1 ∷ 2 ∷ []; failure = none }
    ∷ []

secret_lem_example : secret join 2 race ≡ err 7
secret_lem_example = secret_lem join 2 race

abbrev keyed : Bytes → Bytes
keyed b = 1 ∷ b

validate_hotp_lem_example :
    (validate_hotp keyed 3 (9 ∷ []) ≡ true) ↔ (9 ∷ [] ≢ calculate_hotp keyed 3)
validate_hotp_lem_example = validate_hotp_lem keyed 3 (9 ∷ [])

-- A handshake whose world is the number of the messages that are left.
abbrev write_message : ℕ → ℕ × (Bytes × Option (StateError ℕ))
write_message zero = (zero, ([], some done))
write_message (suc n) = (n, (suc n ∷ [], none))

abbrev connection : Connection ℕ ℕ
connection = record {
  write_message = write_message;
  read_message = λ msg s. (s, none);
  handshake_hash = λ s. codes "hash";
  write = λ msg. lift (ok tt);
  read = λ n. lift (ok (1 ∷ []));
}

writes_fewer : (s : ℕ) → (write_message s).1.1 ≡ none → (write_message s).0 < s
writes_fewer zero e = cc
writes_fewer (suc n) e = omega arith

progress : Progress connection
progress = record {
  left = λ s. s;
  write_message_lem = writes_fewer;
  read_message_lem = λ msg s. omega arith;
  write_lem = λ msg s. (omega arith, λ p. cc);
  read_lem = λ n s. (omega arith, λ p. cc);
}

noise_secret-ne-stuck_example : (noise_secret connection 4 3).1 ≢ stuck
unfolding progress
noise_secret-ne-stuck_example = noise_secret-ne-stuck connection progress 4 3 (omega arith)

noise_secret-EndsAt_example : EndsAt connection (noise_secret (recorded connection) 3 ([], 2))
noise_secret-EndsAt_example = noise_secret-EndsAt connection 3 [] 2 start
