-- ===== src/Verifier/Report/Passed.antt =====
-- When `verify_run` passes a run.
use chers.Base.{Bool, true, [], ◌≡◌, ◌↔◌, arith}
use chers.Verifier.Json.{Numbers}
use chers.Verifier.Report.{Report, Evidence, conclude, verify_run, verify, caught, empty_report}

conclude-passed :
    (require_timing : Bool) (r : Report)
    → ((conclude require_timing r).passed ≡ true) ↔ ((conclude require_timing r).errors ≡ [])
unfolding conclude
conclude-passed b r = ground arith

module _ (numbers : Numbers) where
  open numbers use {Float}

  -- The report of `verify_run` on any directory says that the run passed exactly if its list of
  -- errors is empty.
  pub verify_run-passed :
      (files : Evidence Float) (require_timing : Bool)
      → ((verify_run numbers files require_timing).passed ≡ true)
        ↔ ((verify_run numbers files require_timing).errors ≡ [])
  unfolding verify_run
  verify_run-passed files require_timing =
      conclude-passed require_timing (caught (verify numbers files empty_report))
