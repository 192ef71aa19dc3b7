-- ===== src/Verifier/Reading.antt =====
-- The parts of `_verify` in tools/verify_run.py that read the evidence and compare it, and leave the
-- report alone except for its errors.
use chers.Base.{
  ℕ, Bool, true, false, ◌&&◌, not, Option, none, some, List, [], ◌∷◌, String, str_eq, ltb, ◌==◌,
}
use chers.Verifier.Audit.{
  Audit, plain, field, unreadable, not_string, value_claim, ◌>>=◌, ◌>>◌, pure, raise, report_if,
}
use chers.Verifier.Table.{Row, read_rows}
use chers.Verifier.Json.{Numbers, Value, Members, text, load_json, mapping, item, boolean_value}
use chers.Verifier.Chart.{Chart, empty_chart, load_notes}
use chers.Verifier.Replay.{Replay, init_replay, replay_inputs}
use chers.Verifier.Manifest.{
  check_version, check_settings, check_summary, check_generation, check_observation, Distribution,
  distribution,
}
use chers.Verifier.Timing.{Kind, frame_gap, render, poll, TimingSummary, replay_timing}

-- `_rows`, on a file that may be missing.
abbrev pub file_rows : List String → Option (List (List String)) → String → Audit (List Row)
file_rows fields none file = raise (unreadable file)
file_rows fields (some cells) file = read_rows file fields cells

abbrev pub note_fields : List String
note_fields = "id" ∷ "lane" ∷ "target_ns" ∷ "stage" ∷ []

abbrev pub input_fields : List String
input_fields = "event_ns" ∷ "lane" ∷ "note_id" ∷ "stage" ∷ "judgment" ∷ "delay_ns" ∷ []

abbrev pub timing_fields : List String
timing_fields = "kind" ∷ "index" ∷ "duration_ns" ∷ []

-- `isinstance(reason, str)`; the result is whether it is a text that is not empty.
abbrev pub reason_given : {F : Type 0} → Value F → Audit Bool
reason_given (text t) = pure (not (str_eq t ""))
reason_given v = raise (not_string (plain "invalid_reason"))

-- `_boolean(data[key], key)`
abbrev pub boolean_item : {F : Type 0} → String → Members F → Audit Bool
boolean_item key members = item key members >>= λ v. boolean_value v (plain key)

-- `_mapping(data[key], key)`
abbrev pub object_item : {F : Type 0} → String → Members F → Audit (Members F)
object_item key members = item key members >>= λ v. mapping v (plain key)

-- The notes are loaded and the inputs replayed.
unfoldable pub replay_run :
    ℕ → Option (List (List String)) → Option (List (List String)) → Audit (Chart × Replay)
replay_run lanes notes inputs = do
  note_rows ← file_rows note_fields notes "notes.csv"
  c ← load_notes lanes 0 note_rows (empty_chart lanes)
  input_rows ← file_rows input_fields inputs "inputs.csv"
  s ←
      replay_inputs lanes c.lanes_notes 0 input_rows
        (init_replay lanes c.calibration_count c.scored_count)
  pure (c, s)

-- A series that has samples, and none over 16 ms.
abbrev pub compliant : ℕ → ℕ → Bool
compliant samples over = ltb 0 samples && over == 0

abbrev pub same_bool : Bool → Bool → Bool
same_bool true b = b
same_bool false b = not b

-- What the timing part of `_verify` has read.
pub record Timings (F : Type 0) : Type 0 where
  pub observation : Members F
  pub frames : Distribution F
  pub polling : Distribution F
  pub series : TimingSummary F

abbrev pub is_compliant_series : {F : Type 0} → TimingSummary F → Bool
is_compliant_series series = compliant series.samples series.over_16ms

module _ (numbers : Numbers) where
  open numbers use {Float}

  unfoldable pub load_manifest : Option (Value Float) → Audit (Members Float)
  load_manifest none = raise (unreadable "result.json")
  load_manifest (some v) = do
    load_json v
    manifest ← mapping v (plain "result.json")
    check_version manifest
    pure manifest

  -- The settings, and with their lanes the notes and the inputs.
  unfoldable pub replay_manifest :
      Members Float
      → Option (List (List String))
      → Option (List (List String))
      → Audit (ℕ × Chart × Replay)
  replay_manifest manifest notes inputs = do
    lanes ← check_settings numbers manifest
    (c, s) ← replay_run lanes notes inputs
    pure (lanes, c, s)

  -- The claimed summaries and the accounting.
  unfoldable pub check_claims : Members Float → Chart → Replay → Audit (Unit {0})
  check_claims manifest c s = do
    check_summary numbers "calibration" manifest s.calibration_summary
    check_summary numbers "trial" manifest s.scored_summary
    check_generation numbers c.scored_count manifest

  abbrev pub claimed_series :
      Distribution Float → Distribution Float → Distribution Float → Kind → Distribution Float
  claimed_series frames rendering polling frame_gap = frames
  claimed_series frames rendering polling render = rendering
  claimed_series frames rendering polling poll = polling

  -- The observation and the timing series.
  unfoldable pub read_timing : Members Float → Option (List (List String)) → Audit (Timings Float)
  read_timing manifest timing_samples = do
    observation ← object_item "observation" manifest
    check_observation numbers observation
    gaps ← item "publication_gaps" observation
    frames ← distribution numbers gaps "observation.publication_gaps"
    renders ← item "render_and_publish" observation
    rendering ← distribution numbers renders "observation.render_and_publish"
    polls ← item "input_poll_gaps" manifest
    polling ← distribution numbers polls "input_poll_gaps"
    rows ← file_rows timing_fields timing_samples "timing_samples.csv"
    series ← replay_timing numbers rows (claimed_series frames rendering polling)
    pure (record { observation = observation; frames = frames; polling = polling; series = series })

  -- `observation["timing_compliant"]` against the recomputed series.
  unfoldable pub check_compliance : Timings Float → Audit (Unit {0})
  check_compliance t = do
    claimed ← boolean_item "timing_compliant" t.observation
    report_if (not (same_bool claimed (is_compliant_series t.series)))
        (value_claim (field "observation" "timing_compliant"))
