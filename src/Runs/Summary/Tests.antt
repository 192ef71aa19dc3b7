-- ===== src/Runs/Summary/Tests.antt =====
-- A run with all its evidence, and one that was not verified.
use chers.Base.{ℕ, ◌≡◌, refl, ◌↔◌, Bool, true, false, Option, none, some, List, [], ◌∷◌, pos}
use chers.Base.Decimal.{codes}
use chers.Base.Predicates.{All}
use chers.Bridge.Snapshot.{proposed_type, sent_type}
use chers.Verifier.Report.Sample.{billionths}
use chers.Runs.{
  Text, instant, Model, select_runs, sort, rank_le, configuration_le, choose, eligible, start_time,
  position, efforts_of, effort_order,
}
use chers.Runs.Summary.{
  RunFile, RunFiles, SummaryRow, RunReport, summarize_run, summarize_all, gap_summary, report_le,
  generate_report, row_of, figures_of,
}
use chers.Runs.Summary.Evidence.{Evidenced, summarize_run_iff}
use chers.Runs.Summary.Selected.{Backed, generate_report-Backed}
use chers.Runs.Summary.Gaps.{Measured, gap_summary-Measured}

abbrev run : Bool → RunFile
run verified = record {
  requested_model = codes "m";
  effort = codes "low";
  status = codes "completed";
  publishable = true;
  verification_passed = verified;
  error = none;
  started = instant 5;
  resolved_model = some (codes "m");
  resolved_effort = some (codes "low");
  tool_calls = 3;
}

abbrev files : Bool → RunFiles
files verified = record {
  run = run verified;
  result = some (record {
    completed = true;
    valid = true;
    trial = record { perfect = pos 2; good = pos 1; empty = pos 0; missed = pos 1; notes = pos 4 };
  });
  verification = some true;
  bridge = some (record {
    input_mode = codes "keyboard";
    counts = (proposed_type, 4) ∷ (sent_type, 3) ∷ [];
    handoffs = 0 ∷ 10_000_000 ∷ 40_000_000 ∷ [];
  });
}

abbrev good_row : SummaryRow ℕ
good_row = record {
  row = row_of true none (codes "a") (run true);
  status = codes "completed";
  figures = some (
      figures_of billionths (run true)
        (record { perfect = pos 2; good = pos 1; empty = pos 0; missed = pos 1; notes = pos 4 })
        (record {
          input_mode = codes "keyboard";
          counts = (proposed_type, 4) ∷ (sent_type, 3) ∷ [];
          handoffs = 0 ∷ 10_000_000 ∷ 40_000_000 ∷ [];
        }));
}

summary_runs : summarize_run billionths (codes "a") (files true) ≡ some good_row
unfolding summarize_run
summary_runs = refl

summarize_run_iff_example : (good_row.row.publishable ≡ true) ↔ Evidenced (files true)
summarize_run_iff_example =
    summarize_run_iff billionths (codes "a") (files true) good_row summary_runs

abbrev two_runs : List (Text × RunFiles)
two_runs = (codes "b", files false) ∷ (codes "a", files true) ∷ []

abbrev catalog : List Model
catalog = record { name = codes "m"; efforts = codes "low" ∷ [] } ∷ []

abbrev report_of : Option (RunReport billionths) → RunReport billionths
report_of (some r) = r
report_of none = record {
  rows = [];
  selection = record { selected = []; attempts = []; missing_configurations = [] };
  errors = [];
}

abbrev report : RunReport billionths
report = report_of (generate_report billionths two_runs catalog)

report_runs : generate_report billionths two_runs catalog ≡ some report
unfolding generate_report summarize_all summarize_run
report_runs = refl

selected_runs : report.selection.selected ≡ good_row.row ∷ []
unfolding generate_report summarize_all summarize_run report_le select_runs sort rank_le
    configuration_le choose eligible start_time position efforts_of effort_order
selected_runs = refl

generate_report-Backed_example : All (Backed billionths two_runs) report.selection.selected
generate_report-Backed_example =
    generate_report-Backed billionths two_runs catalog report report_runs

gap_summary-Measured_example :
    Measured (0 ∷ 10_000_000 ∷ 40_000_000 ∷ []) (gap_summary (0 ∷ 10_000_000 ∷ 40_000_000 ∷ []))
gap_summary-Measured_example = gap_summary-Measured (0 ∷ 10_000_000 ∷ 40_000_000 ∷ [])
