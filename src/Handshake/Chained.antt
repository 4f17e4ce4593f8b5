-- ===== src/Handshake/Chained.antt =====
-- handshake/handshake_chained.go: several handshakes that run at the same time, and the hash that is
-- meant to mix their secrets. A Go error is of the type `E`.
use go_skes.Prelude.{
  ℕ, zero, suc, ◌≡◌, refl, List, [], ◌∷◌, ◌++◌, Option, none, some, bit_xor, ltb, if◌then◌else◌,
  length, Bytes, Outcome, ok, err, panic, ◌>>=◌,
}

-- BLAKE2b-256 of golang.org/x/crypto with a key, and of some data: not under the repository.
abbrev pub Digest : Type 0
Digest = Bytes → Bytes → Bytes

-- The loop `for i := range iKey`, which writes into both slices; an index out of range panics.
unfoldable pub key_loop : {E : Type 0} → Bytes → Bytes → Bytes → Outcome E (Bytes × Bytes)
key_loop [] o_key k = ok ([], o_key)
key_loop (i ∷ i_key) (o ∷ o_key) (b ∷ k) = do
  (i_rest, o_rest) ← key_loop i_key o_key k
  ok (bit_xor b 0x36 ∷ i_rest, bit_xor b 0x5c ∷ o_rest)
key_loop (i ∷ i_key) [] k = panic
key_loop (i ∷ i_key) (o ∷ o_key) [] = panic

-- NewChainedHandshake, with its loop.
unfoldable pub chained_loop : {H : Type 0} → List H → List H → List H
chained_loop chs [] = chs
chained_loop chs (s ∷ slots) = chained_loop (chs ++ (s ∷ [])) slots

unfoldable pub new_chained_handshake : {H : Type 0} → List H → List H
unfolding chained_loop
new_chained_handshake slots = chained_loop [] slots

-- What one of the handshakes returned, with its index.
pub record Finished (E : Type 0) : Type 0 where
  pub index : ℕ
  pub secret : Bytes
  pub failure : Option E

-- `res[i] = ...`, for an index of the slice.
abbrev pub set_at : ℕ → Bytes → List Bytes → List Bytes
set_at i s [] = []
set_at zero s (r ∷ res) = s ∷ res
set_at (suc i) s (r ∷ res) = r ∷ set_at i s res

-- `make([]Secret, n)`
abbrev pub nil_slices : ℕ → List Bytes
nil_slices zero = []
nil_slices (suc n) = [] ∷ nil_slices n

-- The goroutines of the group in the order in which they finish: each stores its secret, and the
-- group keeps the first error.
unfoldable pub wait :
    {E : Type 0} → List (Finished E) → List Bytes → Option E → List Bytes × Option E
wait [] res failed = (res, failed)
wait (f ∷ fs) res failed =
    wait fs (set_at f.index f.secret res) (elim failed [ none ↦ f.failure | some e ↦ some e ])

module _ (digest : Digest) {E : Type 0} where
  -- `blake2b.New256` refuses a key of more than 64 bytes: the code drops that error, and then calls
  -- a method of a nil hash.
  unfoldable pub blake2 : Bytes → Bytes → Outcome E Bytes
  blake2 k d = if ltb 64 (length k) then panic else ok (digest k d)

  -- hmac; both keys are nil slices when the loop starts.
  unfoldable pub hmac : Bytes → Bytes → Outcome E Bytes
  unfolding key_loop blake2
  hmac k d = do (i_key, o_key) ← key_loop [] [] k; outer ← blake2 i_key d; blake2 o_key outer

  -- Secret.hash
  unfoldable pub hash : Bytes → List Bytes → Outcome E Bytes
  unfolding hmac
  hash k [] = ok k
  hash k (d ∷ data_left) = do k' ← hmac k d; hash k' data_left

  -- Secret.mix
  unfoldable pub mix : Bytes → List Bytes → Outcome E Bytes
  unfolding hash
  mix k [] = ok k
  mix k (d ∷ data_left) = do k' ← hash k (d ∷ []); mix k' data_left

  -- The loop over the secrets: what `mix` returns is dropped.
  unfoldable pub mix_loop : Bytes → List Bytes → Outcome E Bytes
  unfolding mix
  mix_loop s [] = ok s
  mix_loop s (t ∷ res) = do mixed ← mix s (t ∷ []); mix_loop s res

  -- ChainedHandshake.Secret of `n` handshakes that finish in this order.
  unfoldable pub secret : ℕ → List (Finished E) → Outcome E Bytes
  unfolding wait mix_loop
  secret n fs =
      let done = wait fs (nil_slices n) none in
      elim done.1 [ some e ↦ err e | none ↦ mix_loop [] done.0 ]

  -- The key has no part in the hash: mixing any data into any key gives the double digest, under the
  -- empty key, of the last one.
  pub mix_last :
      (k : Bytes) (before : List Bytes) (d : Bytes)
      → mix k (before ++ (d ∷ [])) ≡ ok (digest [] (digest [] d))
  unfolding mix hash hmac key_loop blake2
  mix_last k [] d = refl
  mix_last k (x ∷ before) d = mix_last (digest [] (digest [] x)) before d

  mix_loop_lem : (s : Bytes) (res : List Bytes) → mix_loop s res ≡ ok s
  unfolding mix_loop mix hash hmac key_loop blake2
  mix_loop_lem s [] = refl
  mix_loop_lem s (t ∷ res) = mix_loop_lem s res

  -- The error of the handshake that failed first.
  abbrev first_failure : List (Finished E) → Option E
  first_failure [] = none
  first_failure (f ∷ fs) = elim f.failure [ some e ↦ some e | none ↦ first_failure fs ]

  wait-some :
      (fs : List (Finished E)) (res : List Bytes) (e : E) → (wait fs res (some e)).1 ≡ some e
  unfolding wait
  wait-some [] res e = refl
  wait-some (f ∷ fs) res e = wait-some fs (set_at f.index f.secret res) e

  wait-none : (fs : List (Finished E)) (res : List Bytes) → (wait fs res none).1 ≡ first_failure fs
  unfolding wait
  wait-none [] res = refl
  wait-none (f ∷ fs) res =
      go f.failure (set_at f.index f.secret res) (wait-none fs (set_at f.index f.secret res))
    where
      go :
          (o : Option E) (res : List Bytes)
          → (wait fs res none).1 ≡ first_failure fs
          → (wait fs res o).1 ≡ elim o [ some e ↦ some e | none ↦ first_failure fs ]
      go none res ih = ih
      go (some e) res ih = wait-some fs res e

  -- The chained handshake returns the error of the handshake that failed first, in whatever order
  -- they finish, and the empty secret where none failed: no secret of a handshake has part in it.
  pub secret_lem :
      (n : ℕ) (fs : List (Finished E))
      → secret n fs ≡ elim (first_failure fs) [ some e ↦ err e | none ↦ ok [] ]
  unfolding secret
  secret_lem n fs =
      rw (secret, wait-none fs (nil_slices n))
        (go (first_failure fs) (wait fs (nil_slices n) none).0)
    where
      go :
          (o : Option E) (res : List Bytes)
          → (elim o [ some e ↦ err e | none ↦ mix_loop [] res ])
            ≡ elim o [ some e ↦ err e | none ↦ ok [] ]
      go none res = mix_loop_lem [] res
      go (some e) res = refl
