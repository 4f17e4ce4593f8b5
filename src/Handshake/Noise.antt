-- ===== src/Handshake/Noise.antt =====
-- handshake/noise.go and handshake/pipe.go: the loop of a Noise handshake over a connection, and the
-- pipe that joins two handshakes of one process.
use go_skes.Prelude.{
  ℕ, zero, suc, ◌≡◌, ◌≢◌, ◌<◌, ◌≤◌, refl, Bool, Option, none, some, arith, Bytes, Outcome, ok, err,
  panic, stuck, map_err,
}
use go_skes.Prelude.Exec.{Exec, resume, ◌>>=◌}

-- nyquist.ErrDone, and any other error of the library.
pub data StateError (E : Type 0) : Type 0 where
  done : StateError E
  other : E → StateError E

-- What the loop uses of nyquist.HandshakeState and of the connection, neither of which is under the
-- repository. The world holds the state of both; `write_message` and `read_message` are called with
-- nil for what they append to and, for a message that is written, for its payload.
pub record Connection (S E : Type 0) : Type 0 where
  pub write_message : S → S × (Bytes × Option (StateError E))
  pub read_message : Bytes → S → S × Option (StateError E)
  pub handshake_hash : S → Bytes
  pub write : Bytes → Exec S E (Unit {0})
  pub read : ℕ → Exec S E Bytes

-- The errors of Secret, with the step that failed.
pub data Error (E : Type 0) : Type 0 where
  failed_to_write : E → Error E
  failed_to_send : E → Error E
  failed_to_receive : E → Error E
  failed_to_read : E → Error E

-- The error of NewNoiseHandshake.
pub data CreateError (E : Type 0) : Type 0 where
  failed_to_create : E → CreateError E

-- nyquist.HandshakeConfig, with its DHConfig.
pub record Config (Protocol Keypair PublicKey : Type 0) : Type 0 where
  pub local_static : Keypair
  pub remote_static : Option PublicKey
  pub is_initiator : Bool
  pub protocol : Protocol

-- The handshake with its connection, by what nyquist.NewHandshake returned.
unfoldable pub created :
    {E State Rw : Type 0} → Rw → Outcome E State → Outcome (CreateError E) (State × Rw)
created rw_end (ok state) = ok (state, rw_end)
created rw_end (err e) = err (failed_to_create e)
created rw_end panic = panic
created rw_end stuck = stuck

-- NewNoiseHandshake, over nyquist.NewHandshake; the second part of the result is the connection.
unfoldable pub new_noise_handshake :
    {E P K Q State Rw : Type 0}
    → (Config P K Q → Outcome E State)
    → P
    → K
    → Option Q
    → Rw
    → Bool
    → Outcome (CreateError E) (State × Rw)
unfolding created
new_noise_handshake new_handshake proto ss sp rw_end initiator = created rw_end (
    new_handshake (record {
      local_static = ss;
      remote_static = sp;
      is_initiator = initiator;
      protocol = proto;
    }))

-- The size of the buffer for a message.
abbrev pub buffer_size : ℕ
buffer_size = 1500

module _ {S E : Type 0} (c : Connection S E) where
  abbrev pub status : S → S × Outcome (Error E) Bytes
  status s = (s, ok (c.handshake_hash s))

  -- A message is sent, and the answer received.
  unfoldable pub exchange : Bytes → Exec S (Error E) Bytes
  exchange msg s =
      let written = c.write msg s in
      resume written.0 (map_err failed_to_send written.1)
        (λ u s'. ((c.read buffer_size s').0, map_err failed_to_receive (c.read buffer_size s').1))

  -- The end of a round, by what ReadMessage returned.
  abbrev pub after_read :
      (S → S × Outcome (Error E) Bytes) → S × Option (StateError E) → S × Outcome (Error E) Bytes
  after_read again (s, none) = again s
  after_read again (s, some done) = status s
  after_read again (s, some (other e)) = (s, err (failed_to_read e))

  abbrev pub after_write :
      (S → S × Outcome (Error E) Bytes)
      → S × (Bytes × Option (StateError E))
      → S × Outcome (Error E) Bytes
  after_write again (s, (msg, none)) =
      (exchange msg >>= λ answer s'. after_read again (c.read_message answer s')) s
  after_write again (s, (msg, some done)) = status s
  after_write again (s, (msg, some (other e))) = (s, err (failed_to_write e))

  -- NoiseHandshake.Secret: the loop, in as many rounds as the fuel gives.
  unfoldable pub noise_secret : ℕ → S → S × Outcome (Error E) Bytes
  unfolding exchange
  noise_secret zero s = (s, stuck)
  noise_secret (suc n) s = after_write (noise_secret n) (c.write_message s)

  -- The handshake has a number of messages left, which each message that is written lowers, and
  -- nothing else raises; the calls of the library and of the connection return.
  pub record Progress : Type 0 where
    pub left : S → ℕ
    pub write_message_lem :
        (s : S) → (c.write_message s).1.1 ≡ none → left (c.write_message s).0 < left s
    pub read_message_lem : (msg : Bytes) (s : S) → left (c.read_message msg s).0 ≤ left s
    pub write_lem :
        (msg : Bytes) (s : S) → (left (c.write msg s).0 ≤ left s) × ((c.write msg s).1 ≢ stuck)
    pub read_lem : (n : ℕ) (s : S) → (left (c.read n s).0 ≤ left s) × ((c.read n s).1 ≢ stuck)

  module _ (P : Progress) where
    -- The call returned, and with fewer than `k` messages left where it succeeded.
    abbrev Below : {F A : Type 0} → ℕ → S → Outcome F A → Type 0
    Below k s (ok a) = P.left s < k
    Below k s (err e) = Unit
    Below k s panic = Unit
    Below k s stuck = ⊥

    Below-map_err :
        {A : Type 0} (k : ℕ) (f : E → Error E) (s : S) (r : Outcome E A)
        → r ≢ stuck
        → P.left s < k
        → Below k s (map_err f r)
    Below-map_err k f s (ok a) h lt = lt
    Below-map_err k f s (err e) h lt = tt
    Below-map_err k f s panic h lt = tt
    Below-map_err k f s stuck h lt = absurd (h refl)

    Below-resume :
        {A B : Type 0} (k : ℕ) (s : S) (r : Outcome (Error E) A) (f : A → Exec S (Error E) B)
        → Below k s r
        → ((a : A) (t : S) → P.left t < k → Below k (f a t).0 (f a t).1)
        → Below k (resume s r f).0 (resume s r f).1
    Below-resume k s (ok a) f h fh = fh a s h
    Below-resume k s (err e) f h fh = tt
    Below-resume k s panic f h fh = tt
    Below-resume k s stuck f h fh = absurd h

    resume-ne-stuck :
        {A B : Type 0} (k : ℕ) (s : S) (r : Outcome (Error E) A) (f : A → Exec S (Error E) B)
        → Below k s r
        → ((a : A) (t : S) → P.left t < k → (f a t).1 ≢ stuck)
        → (resume s r f).1 ≢ stuck
    resume-ne-stuck k s (ok a) f h fh = fh a s h
    resume-ne-stuck k s (err e) f h fh = λ p. cc
    resume-ne-stuck k s panic f h fh = λ p. cc
    resume-ne-stuck k s stuck f h fh = absurd h

    exchange-Below :
        (k : ℕ) (msg : Bytes) (s : S) → P.left s < k → Below k (exchange msg s).0 (exchange msg s).1
    unfolding exchange
    exchange-Below k msg s lt =
        Below-resume k (c.write msg s).0 (map_err failed_to_send (c.write msg s).1) _
          (Below-map_err k failed_to_send (c.write msg s).0 (c.write msg s).1 (P.write_lem msg s).1
            (omega (arith, (P.write_lem msg s).0)))
          (λ u t lt'.
            Below-map_err k failed_to_receive (c.read buffer_size t).0 (c.read buffer_size t).1
              (P.read_lem buffer_size t).1 (omega (arith, (P.read_lem buffer_size t).0)))

    after_read-ne-stuck :
        (n : ℕ) (r : S × Option (StateError E))
        → P.left r.0 < n
        → ((s : S) → P.left s < n → (noise_secret n s).1 ≢ stuck)
        → (after_read (noise_secret n) r).1 ≢ stuck
    after_read-ne-stuck n (s, none) lt again = again s lt
    after_read-ne-stuck n (s, some done) lt again = λ p. cc
    after_read-ne-stuck n (s, some (other e)) lt again = λ p. cc

    after_write-ne-stuck :
        (n : ℕ) (r : S × (Bytes × Option (StateError E)))
        → (r.1.1 ≡ none → P.left r.0 < n)
        → ((s : S) → P.left s < n → (noise_secret n s).1 ≢ stuck)
        → (after_write (noise_secret n) r).1 ≢ stuck
    after_write-ne-stuck n (s, (msg, none)) lt again =
        resume-ne-stuck n (exchange msg s).0 (exchange msg s).1 _ (exchange-Below n msg s (lt refl))
          (λ answer t lt'.
            after_read-ne-stuck n (c.read_message answer t)
              (omega (arith, P.read_message_lem answer t)) again)
    after_write-ne-stuck n (s, (msg, some done)) lt again = λ p. cc
    after_write-ne-stuck n (s, (msg, some (other e))) lt again = λ p. cc

    -- Where the calls of the library and of the connection return, and each message that is written
    -- leaves fewer of them, the loop of a handshake with fewer messages left than it has rounds ends
    -- before its rounds do.
    pub noise_secret-ne-stuck : (n : ℕ) (s : S) → P.left s < n → (noise_secret n s).1 ≢ stuck
    unfolding noise_secret
    noise_secret-ne-stuck zero s lt = elim lt [ ]
    noise_secret-ne-stuck (suc n) s lt =
        after_write-ne-stuck n (c.write_message s)
          (λ none_failed. omega (arith, P.write_message_lem s none_failed))
          (noise_secret-ne-stuck n)

-- InProcessPipe: which of the two pipes it reads, and which one it writes.
pub record InProcessPipe : Type 0 where
  pub reader : ℕ
  pub writer : ℕ

-- NewInProcessPipe
unfoldable pub new_in_process_pipe : InProcessPipe × InProcessPipe
new_in_process_pipe = (record { reader = 1; writer = 2 }, record { reader = 2; writer = 1 })

-- What one end writes, the other one reads.
new_in_process_pipe_crossed :
    (new_in_process_pipe.0.writer ≡ new_in_process_pipe.1.reader)
    × (new_in_process_pipe.1.writer ≡ new_in_process_pipe.0.reader)
unfolding new_in_process_pipe
new_in_process_pipe_crossed = (refl, refl)
