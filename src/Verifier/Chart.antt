-- ===== src/Verifier/Chart.antt =====
-- The notes of a run: the loop over `notes.csv` in `_verify` of tools/verify_run.py, which checks
-- each note and splits the chart by lanes.
pub mod Loaded
pub mod Loading
use chers.Base.{
  ℕ, suc, ◌+◌, ◌-◌, ◌^◌, Bool, true, false, ◌&&◌, not, Option, none, some, List, [], ◌∷◌, ◌++◌,
  String, str_eq, ℤ, pos, negsuc, ltb_ℤ, ltb, leb, ◌==◌, if◌then◌else◌, get_or, set, replicate,
}
use chers.Verifier.Rules.{Stage, calibration, scored, stage_text, window_start, window_end, lock_ns}
use chers.Verifier.Audit.{
  Audit, Result, cell, unknown_stage, unsorted_notes, note_id_gap, note_outside_stage,
  lock_violated, ◌>>=◌, ◌>>◌, pure, raise_if, report_if, or_raise,
}
use chers.Verifier.Fields.{csv_natural}
use chers.Verifier.Table.{Row, column, natural_column}

pub record Note : Type 0 where
  pub id : ℕ
  pub lane : ℕ
  pub target_ns : ℕ
  pub stage : Stage

-- A row of the file with its numbers read.
pub record NoteRow : Type 0 where
  pub id : ℕ
  pub lane : ℕ
  pub target_ns : ℕ
  pub stage_name : String

-- The variables of the loop. `notes.append` adds at the end.
pub record Chart : Type 0 where
  pub notes : List Note
  pub lanes_notes : List (List Note)
  pub calibration_count : ℕ
  pub scored_count : ℕ
  pub previous_target : ℤ

unfoldable pub empty_chart : ℕ → Chart
empty_chart lanes = record {
  notes = [];
  lanes_notes = replicate lanes [];
  calibration_count = 0;
  scored_count = 0;
  previous_target = negsuc 0;
}

unfoldable pub read_note : ℕ → ℕ → Row → Audit NoteRow
read_note lanes index row = do
  note_id ← natural_column "notes.csv" index "id" (2 ^ 64 - 2) row
  lane ← natural_column "notes.csv" index "lane" (lanes - 1) row
  target ← natural_column "notes.csv" index "target_ns" (2 ^ 63 - 1) row
  name ← column "stage" row
  pure (record { id = note_id; lane = lane; target_ns = target; stage_name = name })

-- `TARGET_WINDOWS` has the stage's name for a key.
unfoldable pub stage_named : String → Option Stage
stage_named name =
    if str_eq name "calibration"
    then some calibration
    else if str_eq name "scored"
    then some scored
    else none

abbrev pub in_window : Stage → ℕ → Bool
in_window s target = leb (window_start s) target && ltb target (window_end s)

-- `lanes_notes[lane][-1]`, if the list is not empty.
abbrev pub last? : List Note → Option Note
last? [] = none
last? (n ∷ []) = some n
last? (n ∷ m ∷ ns) = last? (m ∷ ns)

-- `lanes_notes[lane] and target - lanes_notes[lane][-1]["target_ns"] < LOCK`
abbrev pub is_locked : Option Note → ℕ → Bool
is_locked none target = false
is_locked (some n) target = ltb target (n.target_ns + lock_ns)

abbrev pub bump : Stage → Stage → ℕ → ℕ
bump calibration calibration n = n + 1
bump scored scored n = n + 1
bump _ _ n = n

-- The appends and the counters at the end of the loop's body.
unfoldable pub append_note : Note → Chart → Chart
append_note n c = record {
  notes = c.notes ++ n ∷ [];
  lanes_notes = set c.lanes_notes n.lane (get_or c.lanes_notes n.lane [] ++ n ∷ []);
  calibration_count = bump calibration n.stage c.calibration_count;
  scored_count = bump scored n.stage c.scored_count;
  previous_target = pos n.target_ns;
}

-- The checks of the loop's body, on a row that is read.
unfoldable pub add_note : ℕ → NoteRow → Chart → Audit Chart
add_note index r c = do
  report_if (not (r.id == index)) (note_id_gap index)
  stage ← or_raise (stage_named r.stage_name) (unknown_stage index)
  report_if (not (in_window stage r.target_ns)) (note_outside_stage index)
  raise_if (ltb_ℤ (pos r.target_ns) c.previous_target) (unsorted_notes index)
  report_if (is_locked (last? (get_or c.lanes_notes r.lane [])) r.target_ns) (lock_violated index)
  pure (append_note (record { id = r.id; lane = r.lane; target_ns = r.target_ns; stage = stage }) c)

unfoldable pub load_notes : ℕ → ℕ → List Row → Chart → Audit Chart
load_notes lanes index [] c = pure c
load_notes lanes index (row ∷ rows) c = do
  r ← read_note lanes index row
  c' ← add_note index r c
  load_notes lanes (suc index) rows c'
