-- ===== src/Handshake/NoiseTrace.antt =====
-- handshake/noise.go: the order in which Secret makes, sends, receives and reads messages, as a state
-- machine.
use go_skes.Prelude.{
  ℕ, zero, suc, ◌≡◌, refl, List, [], ◌∷◌, ◌++◌, Option, none, some, Bytes, Outcome, ok, err, panic,
  stuck, map_err,
}
use go_skes.Prelude.Exec.{resume}
use go_skes.Handshake.Noise.{
  StateError, done, other, Connection, Error, failed_to_write, failed_to_send, failed_to_receive,
  failed_to_read, buffer_size, exchange, after_read, after_write, noise_secret,
}

-- A call that succeeded: WriteMessage with a message, or with a message and ErrDone; a message sent, or
-- received; ReadMessage of a message, or with ErrDone.
pub data Event : Type 0 where
  made : Bytes → Event
  made_last : Bytes → Event
  sent : Bytes → Event
  received : Bytes → Event
  read : Bytes → Event
  read_last : Bytes → Event

pub data Phase : Type 0 where
  idle : Phase
  to_send : Bytes → Phase
  waiting : Phase
  to_read : Bytes → Phase
  over : Phase

-- The state machine: a message that is made is sent before anything else, then one is awaited, and
-- read. A message that comes with ErrDone is never sent.
pub data Step : Phase → Event → Phase → Type 0 where
  make : {m : Bytes} → Step idle (made m) (to_send m)
  make_last : {m : Bytes} → Step idle (made_last m) over
  send : {m : Bytes} → Step (to_send m) (sent m) waiting
  receive : {m : Bytes} → Step waiting (received m) (to_read m)
  take_in : {m : Bytes} → Step (to_read m) (read m) idle
  take_last : {m : Bytes} → Step (to_read m) (read_last m) over

-- The phases that a list of calls leads to, from the start.
pub data Leads : List Event → Phase → Type 0 where
  start : Leads [] idle
  next :
      {l : List Event} {p q : Phase} {e : Event} → Leads l p → Step p e q → Leads (l ++ (e ∷ [])) q

module _ {E : Type 0} where
  -- What is noted of a call.
  abbrev pub note_write : List Event → Bytes → Option (StateError E) → List Event
  note_write l m none = l ++ (made m ∷ [])
  note_write l m (some done) = l ++ (made_last m ∷ [])
  note_write l m (some (other e)) = l

  abbrev pub note_read : List Event → Bytes → Option (StateError E) → List Event
  note_read l m none = l ++ (read m ∷ [])
  note_read l m (some done) = l ++ (read_last m ∷ [])
  note_read l m (some (other e)) = l

  abbrev pub note_ok : {A : Type 0} → (A → Event) → List Event → Outcome E A → List Event
  note_ok f l (ok a) = l ++ (f a ∷ [])
  note_ok f l r = l

  -- A handshake with its connection that notes the calls that succeed.
  abbrev pub recorded : {S : Type 0} → Connection S E → Connection (List Event × S) E
  recorded c = record {
    write_message = λ x. let r = c.write_message x.1 in ((note_write x.0 r.1.0 r.1.1, r.0), r.1);
    read_message = λ msg x. let r = c.read_message msg x.1 in ((note_read x.0 msg r.1, r.0), r.1);
    handshake_hash = λ x. c.handshake_hash x.1;
    write = λ msg x. let r = c.write msg x.1 in ((note_ok (λ u. sent msg) x.0 r.1, r.0), r.1);
    read = λ n x. let r = c.read n x.1 in ((note_ok received x.0 r.1, r.0), r.1);
  }

module _ {S E : Type 0} (c : Connection S E) where
  -- Where the calls of Secret have led when it ends.
  abbrev pub EndsAt : (List Event × S) × Outcome (Error E) Bytes → Type 0
  EndsAt ((l, s), ok h) = Leads l over × (h ≡ c.handshake_hash s)
  EndsAt ((l, s), err (failed_to_write e)) = Leads l idle
  EndsAt ((l, s), err (failed_to_send e)) = (m : Bytes) × Leads l (to_send m)
  EndsAt ((l, s), err (failed_to_receive e)) = Leads l waiting
  EndsAt ((l, s), err (failed_to_read e)) = (m : Bytes) × Leads l (to_read m)
  EndsAt ((l, s), panic) = (p : Phase) × Leads l p
  EndsAt ((l, s), stuck) = (p : Phase) × Leads l p

  -- The rest of a handshake, from a phase in which nothing is under way.
  abbrev Goes : (List Event × S → (List Event × S) × Outcome (Error E) Bytes) → Type 0
  Goes again = (l : List Event) (s : S) → Leads l idle → EndsAt (again (l, s))

  after_read-EndsAt :
      (again : List Event × S → (List Event × S) × Outcome (Error E) Bytes) (l : List Event) (s : S)
      (m : Bytes) (e : Option (StateError E))
      → Goes again
      → Leads l (to_read m)
      → EndsAt (after_read (recorded c) again ((note_read l m e, s), e))
  after_read-EndsAt again l s m none goes h = goes (l ++ (read m ∷ [])) s (next h take_in)
  after_read-EndsAt again l s m (some done) goes h = (next h take_last, refl)
  after_read-EndsAt again l s m (some (other e)) goes h = (m, h)

  answered-EndsAt :
      (again : List Event × S → (List Event × S) × Outcome (Error E) Bytes) (l : List Event) (s : S)
      (r : Outcome E Bytes)
      → Goes again
      → Leads l waiting
      → let x : List Event × S = (note_ok received l r, s) in
        EndsAt (
          resume x
            (map_err failed_to_receive r)
            (λ answer y. after_read (recorded c) again ((recorded c).read_message answer y)))
  answered-EndsAt again l s (ok answer) goes h =
      after_read-EndsAt again (l ++ (received answer ∷ [])) (c.read_message answer s).0 answer
        (c.read_message answer s).1 goes (next h receive)
  answered-EndsAt again l s (err e) goes h = h
  answered-EndsAt again l s panic goes h = (waiting, h)
  answered-EndsAt again l s stuck goes h = (waiting, h)

  sent-EndsAt :
      (again : List Event × S → (List Event × S) × Outcome (Error E) Bytes) (l : List Event) (s : S)
      (m : Bytes) (r : Outcome E (Unit {0}))
      → Goes again
      → Leads l (to_send m)
      → let x : List Event × S = (note_ok (λ u. sent m) l r, s) in
        let ex = resume x (map_err failed_to_send r) (λ u y. (
          ((recorded c).read buffer_size y).0,
          map_err failed_to_receive ((recorded c).read buffer_size y).1,
        )) in
        EndsAt (
          resume ex.0 ex.1
            (λ answer y. after_read (recorded c) again ((recorded c).read_message answer y)))
  sent-EndsAt again l s m (ok u) goes h =
      answered-EndsAt again (l ++ (sent m ∷ [])) (c.read buffer_size s).0 (c.read buffer_size s).1
        goes (next h send)
  sent-EndsAt again l s m (err e) goes h = (m, h)
  sent-EndsAt again l s m panic goes h = (to_send m, h)
  sent-EndsAt again l s m stuck goes h = (to_send m, h)

  after_write-EndsAt :
      (again : List Event × S → (List Event × S) × Outcome (Error E) Bytes) (l : List Event) (s : S)
      (m : Bytes) (e : Option (StateError E))
      → Goes again
      → Leads l idle
      → EndsAt (after_write (recorded c) again ((note_write l m e, s), (m, e)))
  unfolding exchange
  after_write-EndsAt again l s m none goes h =
      sent-EndsAt again (l ++ (made m ∷ [])) (c.write m s).0 m (c.write m s).1 goes (next h make)
  after_write-EndsAt again l s m (some done) goes h = (next h make_last, refl)
  after_write-EndsAt again l s m (some (other e)) goes h = h

  -- However many rounds there are, the calls that Secret makes with success follow the state machine:
  -- each message that is made is sent at once, one is received after it and read, and so on. Secret
  -- returns the hash of the handshake where a message was made or read with ErrDone, and in the first
  -- case without sending it; an error tells the phase in which the calls stopped.
  pub noise_secret-EndsAt :
      (n : ℕ) (l : List Event) (s : S) → Leads l idle → EndsAt (noise_secret (recorded c) n (l, s))
  unfolding noise_secret
  noise_secret-EndsAt zero l s h = (idle, h)
  noise_secret-EndsAt (suc n) l s h =
      after_write-EndsAt (noise_secret (recorded c) n) l (c.write_message s).0
        (c.write_message s).1.0 (c.write_message s).1.1 (noise_secret-EndsAt n) h
