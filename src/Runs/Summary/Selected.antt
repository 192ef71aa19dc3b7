-- ===== src/Runs/Summary/Selected.antt =====
-- The rows that the report selects.
use chers.Base.{
  both, ◌≡◌, refl, sym, ◌∙◌, subst, true, Option, none, some, List, [], ◌∷◌, inl, inr, branch,
}
use chers.Base.Predicates.{All, All-append, All-map}
use chers.Verifier.Json.{Numbers}
use chers.Runs.{
  Text, Row, Model, eligible, is_chosen, choose, sort, rank_le, configuration_le, select_runs,
}
use chers.Runs.Among.{Among}
use chers.Runs.Order.{sort-All}
use chers.Runs.Summary.{
  RunFiles, SummaryRow, summarize_run, summarize_all, report_le, rows_of, excluded_rows, RunReport,
  generate_report,
}
use chers.Runs.Summary.Evidence.{Evidenced, summarize_run-Evidenced, Evidenced-summarize_run}

module _ (numbers : Numbers) where
  open numbers use {Float}

  -- A row of one of the directories.
  abbrev Sourced : List (Text × RunFiles) → SummaryRow Float → Type 0
  Sourced directories s =
      (directory : Text) × (files : RunFiles) × Among (directory, files) directories
      × (summarize_run numbers directory files ≡ some s)

  -- A row that stands for a directory with its evidence.
  abbrev pub Backed : List (Text × RunFiles) → Row → Type 0
  Backed directories r =
      (files : RunFiles) × Among (r.directory, files) directories × Evidenced files

  abbrev Backable : List (Text × RunFiles) → Row → Type 0
  Backable directories r = r.publishable ≡ true → Backed directories r

  abbrev SourcedAll : List (Text × RunFiles) → Option (List (SummaryRow Float)) → Type 0
  SourcedAll directories none = Unit
  SourcedAll directories (some rows) = All (Sourced directories) rows

  summarize_all-Sourced :
      (before directories : List (Text × RunFiles))
      → ((d : Text × RunFiles) → Among d directories → Among d before)
      → SourcedAll before (summarize_all numbers directories)
  unfolding summarize_all
  summarize_all-Sourced before [] f = tt
  summarize_all-Sourced before ((directory, files) ∷ rest) f =
      by_row (summarize_run numbers directory files) refl (summarize_all numbers rest)
        (summarize_all-Sourced before rest (λ d a. f d (inr a)))
    where
      by_row :
          (o : Option (SummaryRow Float))
          → summarize_run numbers directory files ≡ o
          → (later : Option (List (SummaryRow Float))) → SourcedAll before later
          → SourcedAll before (elim o as (λ _. Option (List (SummaryRow Float))) [
            | none ↦ none
            | some row ↦ elim later [ none ↦ none | some rows ↦ some (row ∷ rows) ]
          ])
      by_row none e later k = tt
      by_row (some row) e none k = tt
      by_row (some row) e (some rows) k = ((directory, files, f _ (inl refl), e), k)

  Sourced-Backable :
      (directories : List (Text × RunFiles)) (s : SummaryRow Float)
      → Sourced directories s
      → Backable directories s.row
  Sourced-Backable directories s (directory, files, a, e) p =
      let v = summarize_run-Evidenced numbers directory files s p e in
      let same : s.row.directory ≡ directory =
        row_directory (sym e ∙ Evidenced-summarize_run numbers directory files v) in
      (files, rw same a, v)
    where
      row_directory : {t : SummaryRow Float} → some s ≡ some t → s.row.directory ≡ t.row.directory
      row_directory h = cc h

  rows_of-All :
      (P : Row → Type 0) (rows : List (SummaryRow Float))
      → All (λ (s : SummaryRow Float). P s.row) rows
      → All P (rows_of numbers rows)
  rows_of-All P [] h = tt
  rows_of-All P (s ∷ ss) h = (h.0, rows_of-All P ss h.1)

-- What all rows have, and eligible ones, the selected rows have.
choose-All :
    (P : Row → Type 0) (rows selected : List Row)
    → All P rows
    → All (λ r. P r × (r.publishable ≡ true)) selected
    → All (λ r. P r × (r.publishable ≡ true)) (choose rows selected).0
unfolding choose eligible
choose-All P [] selected h k = k
choose-All P (r ∷ rows) selected h k = choose-All P rows _ h.1 (
    branch (All (λ r. P r × (r.publishable ≡ true))) (is_chosen r selected) _ _
      (λ c.
        All-append _ selected (r ∷ []) k
          ((h.0, (both r.publishable _ (both (eligible r) _ c).0).0), tt))
      (λ _. k))

some-injective {ℓ} : {A : Type ℓ} {a b : A} → some a ≡ some b → a ≡ b
some-injective e = cc e

module _ (numbers : Numbers) where
  -- Every row that the report selects stands for one of the directories, whose files have all the
  -- evidence: published as completed and verified, a completed and valid result that the verifier
  -- passed, the requested model and effort, the keyboard as the input, and at least one note.
  pub generate_report-Backed :
      (directories : List (Text × RunFiles)) (models : List Model) (report : RunReport numbers)
      → generate_report numbers directories models ≡ some report
      → All (Backed numbers directories) report.selection.selected
  unfolding generate_report select_runs
  generate_report-Backed directories models report e =
      by_rows (summarize_all numbers directories)
        (summarize_all-Sourced numbers directories directories (λ d a. a)) e
    where
      selected_Backed :
          (rows : List (SummaryRow numbers.Float))
          → All (Sourced numbers directories) rows
          → All
              (Backed numbers directories)
              (select_runs (rows_of numbers (sort (report_le numbers models) rows)) models).selected
      selected_Backed rows k =
          let ordered = sort (report_le numbers models) rows in
          let sourced = sort-All (report_le numbers models) (Sourced numbers directories) rows k in
          let backable = rows_of-All numbers (Backable numbers directories) ordered (
            All-map (Sourced numbers directories) _ ordered (Sourced-Backable numbers directories)
              sourced) in
          let chosen =
            choose-All (Backable numbers directories) (sort rank_le (rows_of numbers ordered)) []
              (sort-All rank_le (Backable numbers directories) (rows_of numbers ordered) backable)
              tt in
          sort-All (configuration_le models) (Backed numbers directories)
            (choose (sort rank_le (rows_of numbers ordered)) []).0
            (All-map (λ r. Backable numbers directories r × (r.publishable ≡ true)) _ _
              (λ r v. v.0 v.1) chosen)

      by_rows :
          (o : Option (List (SummaryRow numbers.Float)))
          → SourcedAll numbers directories o
          → elim o as (λ _. Option (RunReport numbers)) [
            | none ↦ none
            | some rows ↦ some (record {
              rows = sort (report_le numbers models) rows;
              selection =
                  select_runs (rows_of numbers (sort (report_le numbers models) rows)) models;
              errors = excluded_rows numbers (sort (report_le numbers models) rows);
            })
          ]
            ≡ some report
          → All (Backed numbers directories) report.selection.selected
      by_rows none k e = absurd (cc e)
      by_rows (some rows) k e =
          subst (λ (r : RunReport numbers). All (Backed numbers directories) r.selection.selected)
            (some-injective e) (selected_Backed rows k)
