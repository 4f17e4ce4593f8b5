-- ===== src/Openpgp/Listing.antt =====
-- getAllData of internal/openpgp/card.go: the loop over the occurrences of a data object.
use go_skes.Prelude.{
  ℕ, zero, suc, ◌<◌, ◌≡◌, ◌++◌, List, [], ◌∷◌, arith, append-nil, append_assoc, if◌then◌else◌,
  length, ◌∙◌, Bytes, ok, err,
}
use go_skes.Openpgp.Errors.{Error}
use go_skes.Openpgp.Reader.{Reader, Card, Io, is_card_status}
use go_skes.Openpgp.Card.{get_data, get_next_data, get_all_loop, get_all_data}

module _ (R : Reader) (fuel : ℕ) (c : Card) (tag : ℕ) where
  -- `Occurrences get s ds e t`: from `s` on, `get` and then GET NEXT DATA return the values `ds`, and
  -- the call after them fails with `e`, in state `t`.
  pub data Occurrences : (ℕ → Io R Bytes) → R.State → List Bytes → Error → R.State → Type 0 where
    no_more :
        {get : ℕ → Io R Bytes} {s t : R.State} {e : Error}
        → get tag s ≡ (t, err e)
        → Occurrences get s [] e t
    one_more :
        {get : ℕ → Io R Bytes} {s t u : R.State} {ds : List Bytes} {e : Error} (d : Bytes)
        → get tag s ≡ (t, ok d)
        → Occurrences (get_next_data R fuel c) t ds e u
        → Occurrences get s (d ∷ ds) e u

  get_all_loop-Occurrences :
      (n : ℕ) (get : ℕ → Io R Bytes) (s u : R.State) (ds datas : List Bytes) (e : Error)
      → Occurrences get s ds e u
      → length ds < n
      → get_all_loop R fuel c n get tag datas s
        ≡ (u, if is_card_status e then ok (datas ++ ds) else err e)
  unfolding get_all_loop
  get_all_loop-Occurrences zero get s u ds datas e o h = absurd (omega arith)
  get_all_loop-Occurrences (suc n) get s u ds datas e (no_more failed) h =
      rw (failed, get_all_loop, append-nil) (rw failed)
  get_all_loop-Occurrences (suc n) get s u ds datas e (one_more {t = t} {ds = rest} d read o) h =
      rw (read, get_all_loop)
        (rw read (
          get_all_loop-Occurrences n (get_next_data R fuel c) t u rest (datas ++ d ∷ []) e o
            (omega arith)
          ∙ rw append_assoc))

-- Where the card returns values to GET DATA and the GET NEXT DATA commands after it, and then the
-- next one fails, getAllData returns these values in their order if that failure is an error status
-- of the card, and returns any other error in their place. Fuel above the number of values is
-- enough.
pub get_all_data-Occurrences :
    (R : Reader) (fuel : ℕ) (c : Card) (tag : ℕ) (s u : R.State) (ds : List Bytes) (e : Error)
    → Occurrences R fuel c tag (get_data R fuel c) s ds e u
    → length ds < fuel
    → get_all_data R fuel c tag s ≡ (u, if is_card_status e then ok ds else err e)
unfolding get_all_data
get_all_data-Occurrences R fuel c tag s u ds e o h =
    get_all_loop-Occurrences R fuel c tag fuel (get_data R fuel c) s u ds [] e o h
