-- ===== src/Openpgp/Historical.antt =====
-- The historical bytes of internal/openpgp/objects.go on every input.
use go_skes.Prelude.{
  ℕ, suc, ◌-◌, ◌≡◌, ◌≢◌, false, ◌⊎◌, inl, inr, refl, [], ◌∷◌, arith, ltb, length, take, Bytes, ok,
  panic, ◌∙◌, ap,
}
use Prim.{yes, no}
use native.Mathlib.Decide.{ℕ_discrete}
use go_skes.Prelude.Exec.{Ends}
use go_skes.Iso7816.Tlv.{decode_compact_tlv}
use go_skes.Iso7816.Truncation.{decode_compact_tlv_lem}
use go_skes.Openpgp.Objects.{HistoricalBytes, compact_loop, with_status, decode_historical_bytes}

decode_compact_tlv_panics : (x : ℕ) (b : Bytes) → decode_compact_tlv (x ∷ b) ≡ panic
decode_compact_tlv_panics x b = elim (decode_compact_tlv_lem (x ∷ b)) [
  | inl (e, f) ↦ absurd (grind arith)
  | inr e ↦ e
]

compact_loop_panics :
    (n x : ℕ) (b : Bytes) (h : HistoricalBytes) → compact_loop (suc n) (x ∷ b) h ≡ (h, panic)
unfolding compact_loop
compact_loop_panics n x b h = rw (decode_compact_tlv_panics x b)

with_status_three :
    (b0 b1 b2 : ℕ) (h : HistoricalBytes)
    → with_status (b0 ∷ b1 ∷ b2 ∷ []) h ≡ (record h { status_indicator = b0 ∷ b1 ∷ b2 ∷ [] }, ok tt)
unfolding with_status compact_loop
with_status_three b0 b1 b2 h = refl

with_status_panics : (b : Bytes) (h : HistoricalBytes) → length b ≢ 3 → (with_status b h).1 ≡ panic
unfolding with_status compact_loop
with_status_panics [] h n = refl
with_status_panics (b0 ∷ []) h n = refl
with_status_panics (b0 ∷ b1 ∷ []) h n = refl
with_status_panics (b0 ∷ b1 ∷ b2 ∷ []) h n = absurd (n refl)
with_status_panics (b0 ∷ b1 ∷ b2 ∷ b3 ∷ b) h n =
    let long : ltb (length (b0 ∷ b1 ∷ b2 ∷ b3 ∷ b)) 3 ≡ false = ground arith in
    let less : length (b0 ∷ b1 ∷ b2 ∷ b3 ∷ b) - 3 ≡ suc (length b) = omega arith in
    rw (long, less)
      (ap (λ r. r.1) (compact_loop_panics (length b) b0 (take (length b) (b1 ∷ b2 ∷ b3 ∷ b)) _))

category_zero :
    (rest : Bytes) (h : HistoricalBytes)
    → decode_historical_bytes (0 ∷ rest) h
      ≡ with_status (0 ∷ rest) (record h { category_indicator = 0 })
unfolding decode_historical_bytes
category_zero rest h = refl

category_80 :
    (rest : Bytes) (h : HistoricalBytes) → (decode_historical_bytes (0x80 ∷ rest) h).1 ≡ panic
unfolding decode_historical_bytes
category_80 rest h =
    ap (λ r. r.1)
      (compact_loop_panics (length rest) 0x80 rest (record h { category_indicator = 0x80 }))

category_other :
    (b0 : ℕ) (rest : Bytes) (h : HistoricalBytes)
    → b0 ≢ 0
    → b0 ≢ 0x80
    → decode_historical_bytes (b0 ∷ rest) h ≡ (record h { category_indicator = b0 }, ok tt)
unfolding decode_historical_bytes
category_other b0 rest h n n8 = ground arith

category_zero_three :
    (rest : Bytes) (h : HistoricalBytes)
    → length rest ≡ 2
    → decode_historical_bytes (0 ∷ rest) h
      ≡ (record h { category_indicator = 0; status_indicator = 0 ∷ rest }, ok tt)
category_zero_three (b1 ∷ b2 ∷ []) h e = category_zero _ h ∙ with_status_three 0 b1 b2 _
category_zero_three [] h e = absurd (omega arith)
category_zero_three (b1 ∷ []) h e = absurd (omega arith)
category_zero_three (b1 ∷ b2 ∷ b3 ∷ b) h e = absurd (omega arith)

-- HistoricalBytes.Decode takes the category and succeeds for a category other than 0 and 0x80, takes
-- the status indicator of exactly three bytes of category 0, and panics for the category 0x80 and
-- for any other length of category 0.
pub decode_historical_bytes_lem :
    (b0 : ℕ) (rest : Bytes) (h : HistoricalBytes)
    → ((b0 ≢ 0)
        × (b0 ≢ 0x80)
        × (decode_historical_bytes (b0 ∷ rest) h ≡ (record h { category_indicator = b0 }, ok tt)))
      ⊎ (((b0 ≡ 0)
            × (length rest ≡ 2)
            × (decode_historical_bytes (b0 ∷ rest) h
                ≡ (record h { category_indicator = b0; status_indicator = b0 ∷ rest }, ok tt)))
          ⊎ (((b0 ≡ 0x80) ⊎ ((b0 ≡ 0) × (length rest ≢ 2)))
              × ((decode_historical_bytes (b0 ∷ rest) h).1 ≡ panic)))
unfolding decode_historical_bytes
decode_historical_bytes_lem b0 rest h = elim (ℕ_discrete b0 0) [
  | yes z ↦ elim (ℕ_discrete (length rest) 2) [
    | yes two ↦ inr (inl (z, two, rw z (category_zero_three rest h two)))
    | no n ↦ inr (
        inr (
          inr (z, n),
          rw z (
              ap (λ r. r.1) (category_zero rest h)
              ∙ with_status_panics (0 ∷ rest) _ (λ e. n (omega arith))),
        ))
  ]
  | no nz ↦ elim (ℕ_discrete b0 0x80) [
    | yes e ↦ inr (inr (inl e, rw e (category_80 rest h)))
    | no n ↦ inl (nz, n, category_other b0 rest h nz n)
  ]
]

pub decode_historical_bytes-Ends : (b : Bytes) → Ends (decode_historical_bytes b)
unfolding decode_historical_bytes
decode_historical_bytes-Ends [] s = λ e. cc
decode_historical_bytes-Ends (b0 ∷ rest) s = elim (decode_historical_bytes_lem b0 rest s) [
  | inl (n0, n8, e) ↦ λ p. grind arith
  | inr (inl (z, two, e)) ↦ λ p. grind arith
  | inr (inr (w, e)) ↦ λ p. grind arith
]
