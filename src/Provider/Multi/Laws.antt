-- ===== src/Provider/Multi/Laws.antt =====
-- provider/provider.go and provider/multi.go: what a source of keys promises, and the keys of joined
-- sources that keep to it.
use go_skes.Prelude.{
  All-map, All-join, Any-map, Any-append, ◌≡◌, inl, inr, List, [], ◌∷◌, ◌++◌, All, Any, Bytes, ok,
  err, panic, stuck, refl, Outcome,
}
use go_skes.Prelude.Exec.{lift, ◌>>=◌}
use go_skes.Prelude.Post.{Ensures, Post, Post-bind, Ensures-weaken}
use go_skes.Provider.Multi.{Provider, keys}

-- The identifiers are those of which `H` holds.
abbrev pub Lists : (Bytes → Type 0) → List Bytes → Type 0
Lists H ids = All H ids × ((id : Bytes) → H id → Any (λ i. i ≡ id) ids)

-- Worlds of cards and files: which of them there are, and when the sources have the same keys in two.
pub record Worlds (S : Type 0) : Type 1 where
  pub Valid : S → Type 0
  pub Same : S → S → Type 0
  pub same_refl : (s : S) → Same s s
  pub same_sym : (s s' : S) → Same s s' → Same s' s
  pub same_trans : (s s' s'' : S) → Same s s' → Same s' s'' → Same s s''

-- A world that a call leaves, with the keys as they were.
abbrev pub Kept : {S : Type 0} → Worlds S → S → S → Type 0
Kept W s s' = W.Valid s' × W.Same s s'

-- A source with the promise of its Keys: it returns the identifiers of its keys and no others, or an
-- error, and neither changes the keys of any source nor panics.
pub record Source (S E K : Type 0) (W : Worlds S) : Type 1 where
  pub provider : Provider S E K
  pub Has : S → Bytes → Type 0
  pub has_same : (s s' : S) (id : Bytes) → W.Same s s' → Has s id → Has s' id
  pub keys_lem :
      (s : S)
      → W.Valid s
      → Post
          (λ ids s'. W.Valid s' × W.Same s s' × Lists (Has s) ids)
          (λ e s'. Kept W s s')
          provider.keys
          s

-- A failure, with the call that it is of.
with_call :
    {S E A : Type 0} (good : A → S → Type 0) (bad : E → S → Type 0) (x : S × Outcome E A)
    → Ensures good bad x.0 x.1
    → Ensures good (λ e s'. bad e s' × (x ≡ (s', err e))) x.0 x.1
with_call good bad (s, ok a) h = h
with_call good bad (s, err e) h = (h, refl)
with_call good bad (s, panic) h = h
with_call good bad (s, stuck) h = h

module _ {S E K : Type 0} (W : Worlds S) where
  abbrev pub providers : List (Source S E K W) → List (Provider S E K)
  providers [] = []
  providers (q ∷ qs) = q.provider ∷ providers qs

  -- One of the sources has a key with this identifier.
  abbrev pub HasAny : List (Source S E K W) → S → Bytes → Type 0
  HasAny qs s id = Any (λ (q : Source S E K W). q.Has s id) qs

  HasAny-Same :
      (qs : List (Source S E K W)) (s s' : S) (id : Bytes)
      → W.Same s s'
      → HasAny qs s id
      → HasAny qs s' id
  HasAny-Same qs s s' id same =
      Any-map (λ (q : Source S E K W). q.Has s id) (λ (q : Source S E K W). q.Has s' id) qs
        (λ q h. q.has_same s s' id same h)

  Lists-cons :
      (q : Source S E K W) (qs : List (Source S E K W)) (s s' : S) (ids all : List Bytes)
      → W.Same s s'
      → Lists (q.Has s) ids
      → Lists (HasAny qs s') all
      → Lists (HasAny (q ∷ qs) s) (ids ++ all)
  Lists-cons q qs s s' ids all same (sound, complete) (sound', complete') = (
    All-join (HasAny (q ∷ qs) s) ids all
        (All-map (q.Has s) (HasAny (q ∷ qs) s) ids (λ id h. inl h) sound)
        (All-map (HasAny qs s') (HasAny (q ∷ qs) s) all
          (λ id h. inr (HasAny-Same qs s' s id (W.same_sym s s' same) h)) sound'),
    λ id h.
        Any-append (λ i. i ≡ id) ids all
          (elim h [
            | inl here ↦ inl (complete id here)
            | inr later ↦ inr (complete' id (HasAny-Same qs s s' id same later))
          ]),
  )

  -- The error of Keys of one of the sources, in a world with the same keys.
  abbrev pub FailsIn : List (Source S E K W) → S → E → S → Type 0
  FailsIn qs s e s' =
      Kept W s s'
      × Any (λ (q : Source S E K W). (s1 : S) × Kept W s s1 × (q.provider.keys s1 ≡ (s', err e))) qs

  FailsIn-later :
      (q : Source S E K W) (qs : List (Source S E K W)) (s s' : S) (e : E) (s'' : S)
      → Kept W s s'
      → FailsIn qs s' e s''
      → FailsIn (q ∷ qs) s e s''
  FailsIn-later q qs s s' e s'' (v, same) ((v', same'), fails) = (
    (v', W.same_trans s s' s'' same same'),
    inr (
        Any-map
          (λ (q' : Source S E K W). (s1 : S) × Kept W s' s1 × (q'.provider.keys s1 ≡ (s'', err e)))
          (λ (q' : Source S E K W). (s1 : S) × Kept W s s1 × (q'.provider.keys s1 ≡ (s'', err e)))
          qs (λ q' (s1, (v1, same1), call). (s1, (v1, W.same_trans s s' s1 same same1), call))
          fails),
  )

  -- Keys of joined sources that keep to the promise keeps to it: it returns the identifiers of the
  -- keys of all of them and no others; or the error that Keys of one of them returned. Neither changes
  -- the keys of any source, nor panics.
  pub keys-Lists :
      (qs : List (Source S E K W)) (s : S)
      → W.Valid s
      → Post
          (λ ids s'. W.Valid s' × W.Same s s' × Lists (HasAny qs s) ids)
          (FailsIn qs s)
          (keys (providers qs))
          s
  unfolding keys
  keys-Lists [] s valid = (valid, W.same_refl s, (tt, λ id h. h))
  keys-Lists (q ∷ qs) s valid =
      let Good : List Bytes → S → Type 0 =
        λ ids s'. W.Valid s' × W.Same s s' × Lists (HasAny (q ∷ qs) s) ids in
      let Mid : List Bytes → S → Type 0 =
        λ ids s'. W.Valid s' × W.Same s s' × Lists (q.Has s) ids in
      let first = q.provider.keys s in
      Post-bind Mid Good (FailsIn (q ∷ qs) s) q.provider.keys
        (λ ids. keys (providers qs) >>= λ all. lift (ok (ids ++ all))) s
        (Ensures-weaken Mid Mid (λ e s'. Kept W s s' × (first ≡ (s', err e))) (FailsIn (q ∷ qs) s)
          first.0 first.1 (λ ids h. h)
          (λ e (kept, call). (kept, inl (s, (valid, W.same_refl s), call)))
          (with_call Mid (λ e s'. Kept W s s') first (q.keys_lem s valid)))
        λ ids s' (valid', same, here).
          let rest = keys (providers qs) s' in
          Post-bind (λ all s''. W.Valid s'' × W.Same s s'' × Lists (HasAny qs s') all) Good
            (FailsIn (q ∷ qs) s) (keys (providers qs)) (λ all. lift (ok (ids ++ all))) s'
            (Ensures-weaken (λ all s''. W.Valid s'' × W.Same s' s'' × Lists (HasAny qs s') all)
              (λ all s''. W.Valid s'' × W.Same s s'' × Lists (HasAny qs s') all) (FailsIn qs s')
              (FailsIn (q ∷ qs) s) rest.0 rest.1
              (λ all (v, same', later). (v, W.same_trans s s' _ same same', later))
              (λ e fails. FailsIn-later q qs s s' e rest.0 (valid', same) fails)
              (keys-Lists qs s' valid'))
            λ all s'' (v, same'', later). (v, same'', Lists-cons q qs s s' ids all same here later)
