-- ===== src/Verifier/Table/Columns.antt =====
-- The numbers of a row's columns.
use chers.Base.{ℕ, ◌+◌, inl, inr, ◌≤◌, ◌≡◌, Option-cases, List, [], String, arith}
use chers.Verifier.Audit.{ok, Finding, cell}
use chers.Verifier.Fields.Bounds.{csv_natural-ok}
use chers.Verifier.Table.{Row, lookup_text, natural_column}

pub natural_column-ok :
    (file : String) (index : ℕ) (name : String) (maximum : ℕ) (row : Row) (v : ℕ)
    (found : List Finding)
    → natural_column file index name maximum row ≡ (ok v, found)
    → (v ≤ maximum) × (found ≡ [])
unfolding natural_column
natural_column-ok file index name maximum row v found e =
    elim (Option-cases (lookup_text name row)) [
      | inl missing ↦ ground arith
      | inr (text, e') ↦
          ground (arith, csv_natural-ok text (cell file (index + 2) name) maximum v found)
    ]
