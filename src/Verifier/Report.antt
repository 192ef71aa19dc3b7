-- ===== src/Verifier/Report.antt =====
-- `_verify` and `verify_run` of tools/verify_run.py: the whole check of a run's directory, which
-- fills in a report. What is set before a raise stays in it.
pub mod Passed
pub mod Sound
pub mod Rules
pub mod Sample
mod Tests
use chers.Base.{
  Bool, true, false, ◌&&◌, ◌||◌, not, Option, none, some, List, [], ◌∷◌, ◌++◌, String, pos, eqb_ℤ,
  is_empty,
}
use chers.Verifier.Audit.{
  Audit, Result, ok, raised, Finding, malformed, plain, inconsistent, not_completed, not_valid,
  timing_required, report_if,
}
use chers.Verifier.Json.{Numbers, Value, Members, item}
use chers.Verifier.Chart.{Chart}
use chers.Verifier.Replay.{Replay}
use chers.Verifier.Reading.{
  Timings, boolean_item, reason_given, load_manifest, replay_manifest, check_claims, read_timing,
  check_compliance, is_compliant_series,
}

pub record Report : Type 0 where
  pub passed : Bool
  pub artifacts_consistent : Bool
  pub completed : Bool
  pub run_valid : Bool
  pub timing_compliant : Option Bool
  pub errors : List Finding

-- The files of the directory, as far as they can be read: the parsed JSON and the cells of the CSV
-- files.
pub record Evidence (F : Type 0) : Type 0 where
  pub result : Option (Value F)
  pub notes : Option (List (List String))
  pub inputs : Option (List (List String))
  pub timing_samples : Option (List (List String))

-- A part of `_verify`, which works on the report.
abbrev pub Check : Type 0 → Type 0
Check A = Report → Result A × Report

infixl 5 ◌>>=◌ ◌>>◌
abbrev pub continue : {A B : Type 0} → Result A × Report → (A → Check B) → Result B × Report
continue (ok a, r) f = f a r
continue (raised e, r) f = (raised e, r)

abbrev pub ◌>>=◌ : {A B : Type 0} → Check A → (A → Check B) → Check B
◌>>=◌ m f r = continue (m r) f

abbrev pub ◌>>◌ : {B : Type 0} → Check (Unit {0}) → Check B → Check B
m >> k = m >>= λ _. k

abbrev pub add_errors : List Finding → Report → Report
add_errors found r = record r { errors = r.errors ++ found }

-- A part that only reads, and appends to the list of errors.
abbrev pub audit : {A : Type 0} → Audit A → Check A
audit (x, found) r = (x, add_errors found r)

-- `report[key] = value`
abbrev pub set_report : (Report → Report) → Check (Unit {0})
set_report f r = (ok tt, f r)

-- The flags of the manifest.
unfoldable pub verify_flags : {F : Type 0} → Members F → Check (Unit {0})
verify_flags manifest = do
  completed ← audit (boolean_item "completed" manifest)
  set_report (λ r. record r { completed = completed })
  valid ← audit (boolean_item "valid" manifest)
  set_report (λ r. record r { run_valid = valid })
  reason_value ← audit (item "invalid_reason" manifest)
  reason ← audit (reason_given reason_value)
  audit (report_if (valid && (not completed || reason)) (inconsistent (plain "valid")))

-- `if report["completed"] and (frames["count"] == 0 or polling["count"] == 0)`
abbrev pub check_measured : {F : Type 0} → Timings F → Check (Unit {0})
check_measured t r =
    audit
      (report_if (r.completed && (eqb_ℤ t.frames.count (pos 0) || eqb_ℤ t.polling.count (pos 0)))
        (inconsistent (plain "measurements")))
      r

-- The report that `verify_run` begins with.
abbrev pub empty_report : Report
empty_report = record {
  passed = false;
  artifacts_consistent = false;
  completed = false;
  run_valid = false;
  timing_compliant = none;
  errors = [];
}

-- The caught exception, as the last error.
abbrev pub caught : Result (Unit {0}) × Report → Report
caught (ok _, r) = r
caught (raised e, r) = add_errors (malformed e ∷ []) r

abbrev pub is_compliant : Option Bool → Bool
is_compliant none = false
is_compliant (some b) = b

abbrev pub error_if : Bool → Finding → List Finding
error_if true e = e ∷ []
error_if false e = []

-- What `verify_run` adds to the report of `_verify`.
unfoldable pub conclude : Bool → Report → Report
conclude require_timing r =
    add_errors
      (error_if (not r.completed) not_completed
        ++ error_if (not r.run_valid) not_valid
        ++ error_if (require_timing && not (is_compliant r.timing_compliant)) timing_required)
      (record r {
        artifacts_consistent = is_empty r.errors;
        passed =
            is_empty r.errors
            && r.completed
            && r.run_valid
            && (not require_timing || is_compliant r.timing_compliant);
      })

module _ (numbers : Numbers) where
  open numbers use {Float}

  -- The timing part, with the flag that it sets.
  unfoldable pub verify_compliance : Timings Float → Check (Unit {0})
  verify_compliance t = do
    set_report (λ r. record r { timing_compliant = some (is_compliant_series t.series) })
    audit (check_compliance numbers t)
    check_measured t

  -- What follows the replay.
  unfoldable pub verify_claims :
      Members Float → Option (List (List String)) → Chart → Replay → Check (Unit {0})
  verify_claims manifest timing_samples c s = do
    audit (check_claims numbers manifest c s)
    t ← audit (read_timing numbers manifest timing_samples)
    verify_compliance t

  -- `_verify`
  unfoldable pub verify : Evidence Float → Check (Unit {0})
  verify files = do
    manifest ← audit (load_manifest numbers files.result)
    verify_flags manifest
    (lanes, c, s) ← audit (replay_manifest numbers manifest files.notes files.inputs)
    verify_claims manifest files.timing_samples c s

  -- `verify_run`
  unfoldable pub verify_run : Evidence Float → Bool → Report
  verify_run files require_timing = conclude require_timing (caught (verify files empty_report))
