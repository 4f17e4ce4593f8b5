-- ===== src/Openpgp/Keys.antt =====
-- The array of keys in internal/openpgp/objects.go: its length, and the key information.
use Prim.Native.String.{String}
use go_skes.Prelude.{
  ℕ, zero, suc, ◌/◌, ◌≤◌, ◌<◌, ◌≡◌, refl, List, [], ◌∷◌, ◌++◌, arith, length-append, append_assoc,
  ltb, length, Bytes, Outcome, ok, err, panic, stuck, if◌then◌else◌, ap, ◌∙◌,
}
use go_skes.Prelude.Exec.{Exec, lift, modify, Keeps, Keeps-bind, Keeps-if}
use go_skes.Openpgp.Errors.{Error, invalid_length}
use go_skes.Openpgp.Constants.{tag_application_related}
use go_skes.Openpgp.Objects.{
  KeyInfo, decode_historical_bytes, decode_application_identifier, decode_general_features,
}
use go_skes.Openpgp.Templates.{open_template, each_tlv}
use go_skes.Openpgp.Application.{
  ApplicationRelated, modify_at, set_key, store, at_least, alg_attrs, user_interaction,
  fingerprint_at, fingerprint_ca_at, generation_time_at, key_info_loop, discretionary_object,
  historical, application_object, decode_application_related,
}
use go_skes.Openpgp.Loops.{each_tlv-Keeps}

length-modify_at :
    (i : ℕ) (f : KeyInfo → KeyInfo) (ks : List KeyInfo) → length (modify_at i f ks) ≡ length ks
unfolding modify_at
length-modify_at i f [] = refl
length-modify_at zero f (k ∷ ks) = refl
length-modify_at (suc i) f (k ∷ ks) = omega (arith, length-modify_at i f ks)

module _ (n : ℕ) where
  abbrev HasKeys : ApplicationRelated → Type 0
  HasKeys ar = length ar.keys ≡ n

  Keeps-set_key : (i : ℕ) (f : KeyInfo → KeyInfo) → Keeps HasKeys (set_key i f)
  unfolding set_key
  Keeps-set_key i f ar h = ground (arith, length-modify_at i f ar.keys)

  Keeps-lift : {A : Type 0} (r : Outcome Error A) → Keeps HasKeys (lift r)
  Keeps-lift r ar h = h

  Keeps-store :
      {A : Type 0} (text : String) (r : Outcome Error A)
      (put : A → Exec ApplicationRelated Error (Unit {0}))
      → ((a : A) → Keeps HasKeys (put a))
      → Keeps HasKeys (store text r put)
  unfolding store
  Keeps-store text (ok a) put hp ar h = hp a ar h
  Keeps-store text (err x) put hp ar h = h
  Keeps-store text panic put hp ar h = h
  Keeps-store text stuck put hp ar h = h

  Keeps-at_least : (m : ℕ) (x : Bytes) → Keeps HasKeys (at_least m x)
  unfolding at_least
  Keeps-at_least m x =
      Keeps-if {P = HasKeys} (ltb (length x) m) (lift (err invalid_length)) (lift (ok tt))
        (Keeps-lift {A = Unit {0}} (err invalid_length)) (Keeps-lift (ok tt))

  alg_attrs-Keeps : (slot : ℕ) (text : String) (x : Bytes) → Keeps HasKeys (alg_attrs slot text x)
  unfolding alg_attrs
  alg_attrs-Keeps slot text x = search (Keeps-store, Keeps-set_key)

  user_interaction-Keeps : (slot : ℕ) (x : Bytes) → Keeps HasKeys (user_interaction slot x)
  unfolding user_interaction
  user_interaction-Keeps slot x = search (Keeps-store, Keeps-set_key)

  fingerprint_at-Keeps : (slot i : ℕ) (x : Bytes) → Keeps HasKeys (fingerprint_at slot i x)
  unfolding fingerprint_at
  fingerprint_at-Keeps slot i x = search Keeps-set_key

  fingerprint_ca_at-Keeps : (slot i : ℕ) (x : Bytes) → Keeps HasKeys (fingerprint_ca_at slot i x)
  unfolding fingerprint_ca_at
  fingerprint_ca_at-Keeps slot i x = search Keeps-set_key

  generation_time_at-Keeps : (slot i : ℕ) (x : Bytes) → Keeps HasKeys (generation_time_at slot i x)
  unfolding generation_time_at
  generation_time_at-Keeps slot i x = search (Keeps-bind, Keeps-lift, Keeps-set_key)

  key_info_loop-Keeps : (i : ℕ) (x : Bytes) → Keeps HasKeys (key_info_loop i x)
  unfolding key_info_loop
  key_info_loop-Keeps i [] ar h = h
  key_info_loop-Keeps i (x ∷ []) ar h = h
  key_info_loop-Keeps i (x ∷ y ∷ rest) ar h =
      Keeps-bind {P = HasKeys} (set_key i (λ k. record k { reference = x; status = y }))
        (λ u. key_info_loop (suc i) rest)
        (Keeps-set_key i (λ k. record k { reference = x; status = y }))
        (λ u. key_info_loop-Keeps (suc i) rest) ar h

  discretionary_object-Keeps : (t : ℕ) (x : Bytes) → Keeps HasKeys (discretionary_object t x)
  unfolding discretionary_object
  discretionary_object-Keeps t x =
      search
        (
          Keeps-bind, Keeps-if, Keeps-lift, Keeps-store, Keeps-at_least, alg_attrs-Keeps,
          user_interaction-Keeps, fingerprint_at-Keeps, fingerprint_ca_at-Keeps,
          generation_time_at-Keeps, key_info_loop-Keeps,
        )
        depth 40 fits 100000

  historical-Keeps : (w : Bytes) → Keeps HasKeys (historical w)
  unfolding historical
  historical-Keeps w ar h =
      Keeps-store "failed to decode historical bytes"
        (decode_historical_bytes w ar.historical_bytes).1 (λ u. lift (ok tt)) (λ u ar h. h)
        (record ar { historical_bytes = (decode_historical_bytes w ar.historical_bytes).0 }) h

  Keeps-modify :
      (f : ApplicationRelated → ApplicationRelated)
      → ((ar : ApplicationRelated) → (f ar).keys ≡ ar.keys)
      → Keeps {E = Error} HasKeys (modify f)
  Keeps-modify f same ar h = rw (same ar) h

  aid-Keeps :
      (w : Bytes)
      → Keeps HasKeys (λ ar.
        store "failed to decode application identifier"
          (decode_application_identifier ar.aid w)
          (λ aid. modify (λ ar. record ar { aid = aid }))
          ar)
  aid-Keeps w ar h =
      Keeps-store "failed to decode application identifier" (decode_application_identifier ar.aid w)
        (λ aid. modify (λ ar. record ar { aid = aid })) (λ aid ar h. h) ar h

  discretionary-Keeps :
      (w : Bytes) → Keeps HasKeys (each_tlv (λ e. invalid_length) discretionary_object (length w) w)
  discretionary-Keeps w =
      each_tlv-Keeps (λ e. invalid_length) discretionary_object {P = HasKeys} (length w) w
        discretionary_object-Keeps

  features-Keeps :
      (w : Bytes)
      → Keeps HasKeys (
          store "failed to decode general features"
            (decode_general_features w)
            (λ f. modify (λ ar. record ar { features = f })))
  features-Keeps w =
      Keeps-store "failed to decode general features" (decode_general_features w)
        (λ f. modify (λ ar. record ar { features = f })) (λ f ar h. h)

  application_object-Keeps : (t : ℕ) (w : Bytes) → Keeps HasKeys (application_object t w)
  unfolding application_object
  application_object-Keeps t w =
      search
        (Keeps-if, Keeps-lift, historical-Keeps, aid-Keeps, features-Keeps, discretionary-Keeps)
        depth 30 fits 10000

-- ApplicationRelated.Decode keeps the number of keys, whatever it reads and however it ends.
pub decode_application_related-Keeps :
    (n : ℕ) (b : Bytes) → Keeps (λ ar. length ar.keys ≡ n) (decode_application_related b)
unfolding decode_application_related
decode_application_related-Keeps n b =
    Keeps-bind {P = HasKeys n} (lift (open_template tag_application_related b)) _ (λ s p. p)
      λ v.
        each_tlv-Keeps (λ e. invalid_length) application_object {P = HasKeys n} (length v) v
          (application_object-Keeps n)

-- The keys with the pairs of a reference and a status put in, one after the other.
abbrev pub with_pairs : Bytes → List KeyInfo → List KeyInfo
with_pairs (x ∷ y ∷ rest) (k ∷ ks) = record k { reference = x; status = y } ∷ with_pairs rest ks
with_pairs _ ks = ks

modify_at-append :
    (f : KeyInfo → KeyInfo) (pre : List KeyInfo) (k : KeyInfo) (ks : List KeyInfo)
    → modify_at (length pre) f (pre ++ (k ∷ ks)) ≡ (pre ++ (f k ∷ [])) ++ ks
unfolding modify_at
modify_at-append f [] k ks = refl
modify_at-append f (p ∷ pre) k ks = ap (λ l. p ∷ l) (modify_at-append f pre k ks)

PutPairs :
    Bytes → List KeyInfo → List KeyInfo → ApplicationRelated × Outcome Error (Unit {0}) → Type 0
PutPairs x pre ks r =
    (r.0.keys ≡ pre ++ with_pairs x ks)
    × (r.1 ≡ (if ltb (length ks) (length x / 2) then panic else ok tt))

set_key_outside :
    (i : ℕ) (f : KeyInfo → KeyInfo) (ar : ApplicationRelated)
    → length ar.keys ≤ i
    → set_key i f ar ≡ (ar, panic)
unfolding set_key
set_key_outside i f ar h = ground arith

set_key_append :
    (i : ℕ) (f : KeyInfo → KeyInfo) (pre : List KeyInfo) (k : KeyInfo) (ks : List KeyInfo)
    (ar : ApplicationRelated)
    → length pre ≡ i
    → ar.keys ≡ pre ++ (k ∷ ks)
    → set_key i f ar ≡ (record ar { keys = (pre ++ (f k ∷ [])) ++ ks }, ok tt)
unfolding set_key
set_key_append i f pre k ks ar n h =
    let inside : i < length ar.keys = ground (arith, ap length h, length-append pre (k ∷ ks)) in
    let keys : modify_at i f ar.keys ≡ (pre ++ (f k ∷ [])) ++ ks =
      rw (h, ← n) (modify_at-append f pre k ks) in
    ground (arith, keys)

key_info_loop_after :
    (x : Bytes) (i : ℕ) (pre ks : List KeyInfo) (ar : ApplicationRelated)
    → length pre ≡ i
    → ar.keys ≡ pre ++ ks
    → PutPairs x pre ks (key_info_loop i x ar)
unfolding key_info_loop PutPairs
key_info_loop_after [] i pre ks ar n h = (h, ground arith)
key_info_loop_after (x ∷ []) i pre ks ar n h = (h, ground arith)
key_info_loop_after (x ∷ y ∷ rest) i pre [] ar n h =
    rw
      (set_key_outside i (λ k. record k { reference = x; status = y }) ar
        (omega (arith, ap length h, length-append pre [])))
      (h, ground arith)
key_info_loop_after (x ∷ y ∷ rest) i pre (k ∷ ks) ar n h =
    let k' : KeyInfo = record k { reference = x; status = y } in
    let ar' : ApplicationRelated = record ar { keys = (pre ++ (k' ∷ [])) ++ ks } in
    let (filled, outcome) =
      key_info_loop_after rest (suc i) (pre ++ (k' ∷ [])) ks ar'
        (omega (arith, length-append pre (k' ∷ []))) refl in
    rw (set_key_append i (λ k. record k { reference = x; status = y }) pre k ks ar n h)
      (filled ∙ append_assoc pre (k' ∷ []) (with_pairs rest ks), outcome ∙ ground arith)

-- The case of the key information puts the pairs into the keys from the first one on, and panics
-- exactly when there are more pairs than keys; the keys are filled in then all the same.
pub key_info_loop_lem :
    (x : Bytes) (ar : ApplicationRelated)
    → ((key_info_loop 0 x ar).0.keys ≡ with_pairs x ar.keys)
      × ((key_info_loop 0 x ar).1 ≡ (if ltb (length ar.keys) (length x / 2) then panic else ok tt))
unfolding PutPairs
key_info_loop_lem x ar = key_info_loop_after x 0 [] ar.keys ar refl refl
