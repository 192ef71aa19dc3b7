-- ===== src/Verifier/Report/Tests.antt =====
-- The theorems on reports at a run that passes.
use chers.Base.{arith, ℕ, ◌≡◌, ◌↔◌, true, List, [], ◌∷◌}
use chers.Verifier.Audit.{ok}
use chers.Verifier.Table.{Row}
use chers.Verifier.Chart.{Chart}
use chers.Verifier.Json.{Members}
use chers.Verifier.Timing as Timing
use chers.Verifier.Timing.Places.{IsPlace, timing_summary-IsPlace}
use chers.Verifier.Reading.{load_manifest}
use chers.Verifier.Report.{verify_run}
use chers.Verifier.Report.Passed.{verify_run-passed}
use chers.Verifier.Report.Rules.{Honest, verify_run-Honest}
use chers.Verifier.Report.Sample.{billionths, files, files_pass}

verify_run-passed_example :
    ((verify_run billionths files true).passed ≡ true)
    ↔ ((verify_run billionths files true).errors ≡ [])
verify_run-passed_example = verify_run-passed billionths files true

verify_run-Honest_example :
    (m : Members ℕ) × (lanes : ℕ) × (c : Chart) × (input_rows : List Row) × ((load_manifest
        billionths files.result).0
      ≡ ok m)
    × Honest files m lanes c input_rows
verify_run-Honest_example = verify_run-Honest billionths files true files_pass.0

timing_summary-IsPlace_example :
    let u = Timing.timing_summary billionths (30 ∷ 10 ∷ 20 ∷ []) in
    IsPlace billionths 1 u.p50_ms (30 ∷ 10 ∷ 20 ∷ [])
    × IsPlace billionths 2 u.p99_ms (30 ∷ 10 ∷ 20 ∷ [])
    × IsPlace billionths 2 u.max_ms (30 ∷ 10 ∷ 20 ∷ [])
timing_summary-IsPlace_example =
    timing_summary-IsPlace billionths (30 ∷ 10 ∷ 20 ∷ []) (ground arith)
