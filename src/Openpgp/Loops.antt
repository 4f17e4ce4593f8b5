-- ===== src/Openpgp/Loops.antt =====
-- The loop of the templates of internal/openpgp/objects.go: on any bytes, and on a sequence of
-- well-formed objects.
use go_skes.Prelude.{
  ℕ, zero, suc, ◌≤◌, ◌<◌, ◌^◌, ◌≡◌, ◌≢◌, refl, ◌++◌, List, [], ◌∷◌, arith, length, length-append,
  All, Bytes, Outcome, ok, err, panic, stuck, map_err, ◌∙◌, ap,
}
use go_skes.Prelude.Exec.{Exec, resume, lift, ◌>>◌, Ends, Ends-bind, Keeps, Keeps-bind}
use go_skes.Iso7816.Tag
use go_skes.Iso7816.Tag.{tag_bytes, size}
use go_skes.Iso7816.Tlv.{decode_tlv}
use go_skes.Iso7816.RoundTrip.{IsTag, object, decode_tlv-object, decode_tlv_takes}
use go_skes.Iso7816.Ends.{decode_tlv-ne-stuck}
use go_skes.Openpgp.Errors.{Error}
use go_skes.Openpgp.Templates.{each_tlv}

-- A sequence of objects as bytes, and the steps for them one after the other.
abbrev pub objects : List (ℕ × Bytes) → Bytes
objects [] = []
objects ((t, w) ∷ l) = object t w ++ objects l

abbrev pub steps :
    {S : Type 0}
    → (ℕ → Bytes → Exec S Error (Unit {0}))
    → List (ℕ × Bytes)
    → Exec S Error (Unit {0})
steps step [] = lift (ok tt)
steps step ((t, w) ∷ l) = do step t w; steps step l

abbrev pub IsObject : ℕ × Bytes → Type 0
IsObject (t, w) = IsTag t × (length w < 2 ^ 16)

object_bytes :
    (t : ℕ) (w rest : Bytes) → IsObject (t, w) → length rest < length (object t w ++ rest)
object_bytes t w rest h =
    let (header, shape, two) =
      decode_tlv_takes (object t w ++ rest) t w rest (decode_tlv-object t w rest h.0 h.1) in
    omega (arith, ap length shape, length-append header (w ++ rest), length-append w rest)

module _ {S : Type 0} (fail : Tag.Error → Error) (step : ℕ → Bytes → Exec S Error (Unit {0})) where
  each_tlv_object :
      (n : ℕ) (b : Bytes) (t : ℕ) (w rest : Bytes) (s : S)
      → decode_tlv b ≡ ok (t, w, rest)
      → b ≢ []
      → each_tlv fail step (suc n) b s
        ≡ resume (step t w s).0 (step t w s).1 (λ u. each_tlv fail step n rest)
  unfolding each_tlv
  each_tlv_object n [] t w rest s e some_bytes = absurd (some_bytes refl)
  each_tlv_object n (x ∷ b) t w rest s e some_bytes = rw e

  -- Over well-formed objects the loop makes their steps in order, up to the first that fails.
  pub each_tlv-objects :
      (l : List (ℕ × Bytes)) (n : ℕ) (s : S)
      → All IsObject l
      → length (objects l) ≤ n
      → each_tlv fail step n (objects l) s ≡ steps step l s
  each_tlv-objects [] n s h hn = unfold each_tlv in refl
  each_tlv-objects ((t, w) ∷ l) zero s (h, hs) hn =
      absurd (omega (arith, object_bytes t w (objects l) h))
  each_tlv-objects ((t, w) ∷ l) (suc n) s (h, hs) hn =
      each_tlv_object n (object t w ++ objects l) t w (objects l) s
        (decode_tlv-object t w (objects l) h.0 h.1)
        (λ e. omega (arith, ap length e, object_bytes t w (objects l) h))
      ∙ resume_same (step t w s).0 (step t w s).1
          (λ s'. each_tlv-objects l n s' hs (omega (arith, object_bytes t w (objects l) h)))
    where
      resume_same :
          (s' : S) (r : Outcome Error (Unit {0}))
          → ((s'' : S) → each_tlv fail step n (objects l) s'' ≡ steps step l s'')
          → resume s' r (λ u. each_tlv fail step n (objects l)) ≡ resume s' r (λ u. steps step l)
      resume_same s' (ok u) same = same s'
      resume_same s' (err e) same = refl
      resume_same s' panic same = refl
      resume_same s' stuck same = refl

  -- The loop ends on any bytes if the steps do.
  pub each_tlv-Ends :
      (n : ℕ) (b : Bytes)
      → length b ≤ n
      → ((t : ℕ) (w : Bytes) → Ends (step t w))
      → Ends (each_tlv fail step n b)
  unfolding each_tlv
  each_tlv-Ends n [] h hs s = λ e. cc
  each_tlv-Ends zero (x ∷ b) h hs s = absurd (omega arith)
  each_tlv-Ends (suc n) (x ∷ b) h hs s =
      after (decode_tlv (x ∷ b)) refl (decode_tlv-ne-stuck (x ∷ b))
        (λ rest short. each_tlv-Ends n rest short hs)
    where
      after :
          (r : Outcome Tag.Error (ℕ × Bytes × Bytes))
          → decode_tlv (x ∷ b) ≡ r
          → r ≢ stuck
          → ((rest : Bytes) → length rest ≤ n → Ends (each_tlv fail step n rest))
          → (resume s (map_err fail r) (λ p. step p.0 p.1 >> each_tlv fail step n p.2)).1 ≢ stuck
      after (ok (t, w, rest)) read ends ih =
          let (header, shape, two) = decode_tlv_takes (x ∷ b) t w rest read in
          Ends-bind (step t w) (λ u. each_tlv fail step n rest) (hs t w)
            (λ u. ih rest (
              omega
                (arith, ap length shape, length-append header (w ++ rest), length-append w rest)))
            s
      after (err e) read ends ih = λ p. cc
      after panic read ends ih = λ p. cc
      after stuck read ends ih = λ p. ends refl

  -- The loop keeps what the steps keep.
  pub each_tlv-Keeps :
      {P : S → Type 0} (n : ℕ) (b : Bytes)
      → ((t : ℕ) (w : Bytes) → Keeps P (step t w))
      → Keeps P (each_tlv fail step n b)
  unfolding each_tlv
  each_tlv-Keeps n [] hs s p = p
  each_tlv-Keeps zero (x ∷ b) hs s p = p
  each_tlv-Keeps {P} (suc n) (x ∷ b) hs s p =
      Keeps-bind {P = P} (lift (map_err fail (decode_tlv (x ∷ b)))) _ (λ s p. p)
        (λ (t, w, rest).
          Keeps-bind {P = P} (step t w) _ (hs t w) (λ u. each_tlv-Keeps {P = P} n rest hs))
        s p
