-- ===== src/Verifier/Fields/Bounds.antt =====
-- The integers that are read lie in the range that is asked for.
use chers.Base.{ℕ, inl, inr, ◌≤◌, ◌≡◌, some, List, [], String, ℤ, pos, ◌≤ℤ◌, arith, Option-cases}
use chers.Base.Decimal.{codes}
use chers.Verifier.Audit.{Label, ok, Finding}
use chers.Verifier.Fields.{integer_text, csv_integer, csv_natural}

-- An integer that is read is the text's, lies between the bounds, and nothing is reported.
pub csv_integer-ok :
    (text : String) (label : Label) (minimum maximum v : ℤ) (found : List Finding)
    → csv_integer text label minimum maximum ≡ (ok v, found)
    → (integer_text (codes text) ≡ some v) × (minimum ≤ℤ v) × (v ≤ℤ maximum) × (found ≡ [])
unfolding csv_integer
csv_integer-ok text label minimum maximum v found e =
    elim (Option-cases (integer_text (codes text))) [
      | inl bad ↦ ground arith
      | inr (w, good) ↦ ground arith
    ]

pub csv_natural-ok :
    (text : String) (label : Label) (maximum v : ℕ) (found : List Finding)
    → csv_natural text label maximum ≡ (ok v, found)
    → (integer_text (codes text) ≡ some (pos v)) × (v ≤ maximum) × (found ≡ [])
unfolding csv_natural csv_integer
csv_natural-ok text label maximum v found e = elim (Option-cases (integer_text (codes text))) [
  | inl bad ↦ ground arith
  | inr (w, good) ↦ ground arith
]
