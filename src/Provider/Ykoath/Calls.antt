-- ===== src/Provider/Ykoath/Calls.antt =====
-- provider/ykoath.go: the calls of the provider in a row, and the store of keys by name that they are
-- to be.
use go_skes.Prelude.{
  update, ◌≡◌, ◌≢◌, List, [], ◌∷◌, some, none, Bytes, Outcome, ok, err, panic, stuck,
}
use go_skes.Provider.Ykoath.{
  Applet, Error, card, not_exist, keys, destroy_key, create_key_from_secret, YkoathKey, open_key,
}
use go_skes.Provider.Ykoath.Behaviour.{Cred, Vault, Documented, ident, IsKey}
use go_skes.Provider.Ykoath.Listing.{AllIds}
use go_skes.Provider.Ykoath.Search.{Named}

-- A call of the provider, and what it returns.
pub data Call : Type 0 where
  list_keys : Call
  create : Bytes → Bytes → Call
  destroy : Bytes → Call
  open_by : Bytes → Call

pub data Reply (F : Type 0) : Type 0 where
  listed : List Bytes → Reply F
  created : Bytes → Reply F
  destroyed : Reply F
  opened : Bytes → Reply F
  failed : Error F → Reply F
  crashed : Reply F

module _ (A : Applet) where
  abbrev pub reply :
      {R : Type 0} → (R → Reply A.Failure) → Outcome (Error A.Failure) R → Reply A.Failure
  reply f (ok r) = f r
  reply f (err e) = failed e
  reply f panic = crashed
  reply f stuck = crashed

  -- One call on the card.
  unfoldable pub step : Call → A.Card → A.Card × Reply A.Failure
  step list_keys s = ((keys A s).0, reply listed (keys A s).1)
  step (create label secret) s = (
    (create_key_from_secret A label secret s).0,
    reply created (create_key_from_secret A label secret s).1,
  )
  step (destroy id) s = ((destroy_key A id s).0, reply (λ r. destroyed) (destroy_key A id s).1)
  step (open_by id) s =
      ((open_key A id s).0, reply (λ (k : YkoathKey A). opened k.name) (open_key A id s).1)

  -- The calls in a row, with their replies.
  unfoldable pub run : List Call → A.Card → A.Card × List (Reply A.Failure)
  unfolding step
  run [] s = (s, [])
  run (c ∷ cs) s = let (s', r) = step c s in let (s'', rs) = run cs s' in (s'', r ∷ rs)

module _ (A : Applet) (D : Documented A) where
  -- The specification: a store of credentials by name, a relation between a call, the store before,
  -- the reply, and the store after. Any call may fail in the library, and then changes nothing,
  -- except that a key may have been stored whose identifier could not be read.
  pub data Does (v : Vault A) : Call → Reply A.Failure → Vault A → Type 0 where
    fails : {c : Call} (f : A.Failure) → Does v c (failed (card f)) v
    lists : {ids : List Bytes} → AllIds A D v ids → Does v list_keys (listed ids) v
    stores :
        {label secret id : Bytes}
        → id ≡ ident A D (record { algorithm = A.hmac_sha256; secret = secret })
        → Does v
            (create label secret)
            (created id)
            (update v label (some (record { algorithm = A.hmac_sha256; secret = secret })))
    unread :
        {label secret : Bytes} (f : A.Failure)
        → Does v
            (create label secret)
            (failed (card f))
            (update v label (some (record { algorithm = A.hmac_sha256; secret = secret })))
    removes : {id n : Bytes} → Named A D v id n → Does v (destroy id) destroyed (update v n none)
    opens : {id n : Bytes} → Named A D v id n → Does v (open_by id) (opened n) v
    misses_destroy :
        {id : Bytes}
        → ((n : Bytes) (k : Cred A.Algorithm) → IsKey A D v n k → ident A D k ≢ id)
        → Does v (destroy id) (failed not_exist) v
    misses_open :
        {id : Bytes}
        → ((n : Bytes) (k : Cred A.Algorithm) → IsKey A D v n k → ident A D k ≢ id)
        → Does v (open_by id) (failed not_exist) v

  -- A sequence of calls of the specification.
  pub data DoesAll : Vault A → List Call → List (Reply A.Failure) → Vault A → Type 0 where
    done : {v : Vault A} → DoesAll v [] [] v
    more :
        {v v' v'' : Vault A} {c : Call} {cs : List Call} {r : Reply A.Failure}
        {rs : List (Reply A.Failure)}
        → Does v c r v'
        → DoesAll v' cs rs v''
        → DoesAll v (c ∷ cs) (r ∷ rs) v''
