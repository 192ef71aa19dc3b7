-- ===== src/Runs/Summary.antt =====
-- `summarize_run` of tools/report_codex_runs.py, on what its JSON files hold, and the parts of
-- `generate_report` that order, select and exclude rows. The files are a parameter: what the function
-- reads of each, if it can be read. Passed-on values that no test looks at are left out.
pub mod Evidence
pub mod Selected
pub mod Gaps
mod Tests
use chers.Base.{
  ℕ, suc, ◌+◌, ◌-◌, Bool, true, false, ◌&&◌, ◌||◌, not, Option, none, some, List, [], ◌∷◌, ◌++◌, ℤ,
  pos, ◌+ℤ◌, leb_ℤ, ltb_ℤ, sub_ℕ, if◌then◌else◌, length,
}
use chers.Base.Decimal.{codes}
use chers.Verifier.Json.{Numbers}
use chers.Bridge.Snapshot.{EventType, proposed_type, dropped_type, sent_type, count_of}
use chers.Runs.{
  Text, same_text, Started, start_time, Row, Model, rank_le, configuration_le, sort, Selection,
  select_runs,
}

-- run.json: the requested and the resolved model and effort, the truth of `publishable`, whether
-- `verification_passed` is `True`, and the number of decisions.
pub record RunFile : Type 0 where
  pub requested_model : Text
  pub effort : Text
  pub status : Text
  pub publishable : Bool
  pub verification_passed : Bool
  pub error : Option Text
  pub started : Started
  pub resolved_model : Option Text
  pub resolved_effort : Option Text
  pub tool_calls : ℕ

-- The counts of the trial in the benchmark's result.json.
pub record Counted : Type 0 where
  pub perfect : ℤ
  pub good : ℤ
  pub empty : ℤ
  pub missed : ℤ
  pub notes : ℤ

-- result.json: the truth of its flags.
pub record ResultFile : Type 0 where
  pub completed : Bool
  pub valid : Bool
  pub trial : Counted

-- agent/bridge.json: the input mode, the counts of the events, and the times at which observations
-- were returned.
pub record BridgeFile : Type 0 where
  pub input_mode : Text
  pub counts : List (EventType × ℕ)
  pub handoffs : List ℕ

-- The files of a run; `verification` is the truth of `passed` in verification.json.
pub record RunFiles : Type 0 where
  pub run : RunFile
  pub result : Option ResultFile
  pub verification : Option Bool
  pub bridge : Option BridgeFile

-- `tool_image_handoff_gaps_ms`, in nanoseconds.
pub record GapSummary : Type 0 where
  pub gap_count : ℕ
  pub gap_max : Option ℤ
  pub over_16ms : ℕ

-- The numbers that a publishable row has.
pub record Figures (F : Type 0) : Type 0 where
  pub notes : ℤ
  pub hits : ℤ
  pub hit_rate : F
  pub perfect : ℤ
  pub good : ℤ
  pub empty : ℤ
  pub missed : ℤ
  pub tool_calls : ℕ
  pub actions_proposed : ℕ
  pub actions_sent : ℕ
  pub actions_dropped : ℕ
  pub handoff_gaps : GapSummary

-- A row: the part on which runs are selected, the status, and its numbers, if it has them.
pub record SummaryRow (F : Type 0) : Type 0 where
  pub row : Row
  pub status : Text
  pub figures : Option (Figures F)

-- `[(b-a)/1e6 for a,b in zip(handoffs, handoffs[1:])]`, in nanoseconds, which are not rounded as the
-- code's milliseconds are.
unfoldable pub gaps_of : List ℕ → List ℤ
gaps_of [] = []
gaps_of (a ∷ []) = []
gaps_of (a ∷ b ∷ times) = sub_ℕ b a ∷ gaps_of (b ∷ times)

-- `max(gaps) if gaps else None`
unfoldable pub max_of : List ℤ → Option ℤ
max_of [] = none
max_of (a ∷ as_) = elim (max_of as_) [ none ↦ some a | some m ↦ some (if ltb_ℤ m a then a else m) ]

-- `sum(g > 16 for g in gaps)`
unfoldable pub count_over : List ℤ → ℕ
count_over [] = 0
count_over (a ∷ as_) = (if ltb_ℤ (pos 16_000_000) a then 1 else 0) + count_over as_

unfoldable pub gap_summary : List ℕ → GapSummary
unfolding gaps_of max_of count_over
gap_summary handoffs = record {
  gap_count = length (gaps_of handoffs);
  gap_max = max_of (gaps_of handoffs);
  over_16ms = count_over (gaps_of handoffs);
}

abbrev pub or_text : Option Text → Text → Text
or_text none other = other
or_text (some t) other = t

abbrev pub is_same : Option Text → Text → Bool
is_same none text = false
is_same (some t) text = same_text t text

-- A row that is not publishable, with its `error`.
abbrev pub row_of : Bool → Option Text → Text → RunFile → Row
row_of publishable error directory r = record {
  model = r.requested_model;
  effort = r.effort;
  directory = directory;
  publishable = publishable;
  started = r.started;
  error = error;
}

abbrev pub excluded : {F : Type 0} → Text → Text → RunFile → SummaryRow F
excluded error directory r = record {
  row = row_of false (some error) directory r;
  status = r.status;
  figures = none;
}

module _ (numbers : Numbers) where
  open numbers use {Float, quotient}

  abbrev pub figures_of : RunFile → Counted → BridgeFile → Figures Float
  figures_of r trial bridge = record {
    notes = trial.notes;
    hits = trial.perfect +ℤ trial.good;
    hit_rate = quotient (trial.perfect +ℤ trial.good) trial.notes;
    perfect = trial.perfect;
    good = trial.good;
    empty = trial.empty;
    missed = trial.missed;
    tool_calls = r.tool_calls;
    actions_proposed = count_of proposed_type bridge.counts;
    actions_sent = count_of sent_type bridge.counts;
    actions_dropped = count_of dropped_type bridge.counts;
    handoff_gaps = gap_summary bridge.handoffs;
  }

  -- From the bridge's file on.
  abbrev pub summarize_bridge :
      Text → RunFile → ResultFile → Option BridgeFile → Option (SummaryRow Float)
  summarize_bridge directory r result none = none
  summarize_bridge directory r result (some bridge) =
      if not (same_text bridge.input_mode (codes "keyboard"))
      then some (excluded (codes "not the declared keyboard input route") directory r)
      else if leb_ℤ result.trial.notes (pos 0)
      then some (excluded (codes "no scored notes") directory r)
      else some (record {
        row = row_of true none directory r;
        status = r.status;
        figures = some (figures_of r result.trial bridge);
      })

  -- From the result and the verification on.
  abbrev pub summarize_result :
      Text
      → RunFile
      → Option BridgeFile
      → Option ResultFile
      → Option Bool
      → Option (SummaryRow Float)
  summarize_result directory r bridge (some result) (some verified) =
      if not result.completed
        || not result.valid
        || not verified
        || not (is_same r.resolved_model r.requested_model)
        || not (is_same r.resolved_effort r.effort)
      then some
          (excluded (codes "completed/valid/replay/model/effort evidence mismatch") directory r)
      else summarize_bridge directory r result bridge
  summarize_result directory r bridge _ _ = none

  -- `summarize_run`; `none` is what a missing file raises.
  unfoldable pub summarize_run : Text → RunFiles → Option (SummaryRow Float)
  unfolding gap_summary
  summarize_run directory files =
      let r = files.run in
      if not r.publishable
        || not (same_text r.status (codes "completed"))
        || not r.verification_passed
      then some (
          excluded (or_text r.error (codes "run not eligible for numeric publication")) directory r)
      else summarize_result directory r files.bridge files.result files.verification

  -- The loop of `generate_report` over the directories.
  unfoldable pub summarize_all : List (Text × RunFiles) → Option (List (SummaryRow Float))
  unfolding summarize_run
  summarize_all [] = some []
  summarize_all ((directory, files) ∷ rest) =
      let later = summarize_all rest in
      elim (summarize_run directory files) [
        | none ↦ none
        | some row ↦ elim later [ none ↦ none | some rows ↦ some (row ∷ rows) ]
      ]

  -- The keys of `rows.sort`: the configuration, the start and the directory.
  unfoldable pub report_le : List Model → SummaryRow Float → SummaryRow Float → Bool
  unfolding configuration_le rank_le
  report_le models a b =
      configuration_le models a.row b.row
      && (not (configuration_le models b.row a.row) || rank_le a.row b.row)

  abbrev pub rows_of : List (SummaryRow Float) → List Row
  rows_of [] = []
  rows_of (s ∷ ss) = s.row ∷ rows_of ss

  -- `[row for row in rows if not row["publishable"]]`
  abbrev pub excluded_rows : List (SummaryRow Float) → List (SummaryRow Float)
  excluded_rows [] = []
  excluded_rows (s ∷ ss) = if not s.row.publishable then s ∷ excluded_rows ss else excluded_rows ss

  -- A line of `markdown_table`: its status, or the row with its numbers.
  unfoldable pub table_status : SummaryRow Float → Option Text
  table_status s =
      if not s.row.publishable
      then some
          (if not (same_text s.status (codes "completed")) then s.status else codes "unverified")
      else none

  pub record RunReport : Type 0 where
    pub rows : List (SummaryRow Float)
    pub selection : Selection
    pub errors : List (SummaryRow Float)

  -- `generate_report`
  unfoldable pub generate_report : List (Text × RunFiles) → List Model → Option RunReport
  unfolding summarize_all report_le
  generate_report directories models = elim (summarize_all directories) [
    | none ↦ none
    | some rows ↦
        let ordered = sort (report_le models) rows in
        some (record {
          rows = ordered;
          selection = select_runs (rows_of ordered) models;
          errors = excluded_rows ordered;
        })
  ]
