-- ===== src/Verifier/Replay.antt =====
-- The inputs of a run: the loop over `inputs.csv` in `_verify` of tools/verify_run.py, which matches
-- each tap to the earliest note of its lane that is still available, and scores it.
use chers.Base.{
  ℕ, suc, ◌+◌, ◌-◌, ◌^◌, Bool, true, false, ◌&&◌, not, Option, none, some, List, [], ◌∷◌, String,
  str_eq, ℤ, pos, negsuc, ◌+ℤ◌, ◌-ℤ◌, sub_ℕ, abs, ltb_ℤ, eqb_ℤ, ltb, leb, ◌==◌, if◌then◌else◌,
  get_or, get_elem?, drop, set, replicate,
}
use chers.Verifier.Rules.{
  Stage, calibration, scored, stage_text, same_stage, stage_at, good_ns, perfect_ns, empty_delay_ns,
  Judgment, judgment_text,
}
use chers.Verifier.Audit.{
  Audit, cell, backwards_input, input_outside, stage_claim, note_claim, delay_claim, judgment_claim,
  ◌>>=◌, ◌>>◌, pure, raise_if, report_if, or_raise,
}
use chers.Verifier.Fields.{csv_natural, csv_integer}
use chers.Verifier.Table.{Row, column, natural_column}
use chers.Verifier.Chart.{Note}

-- `_summary`; `missed` and `raw_score` are the two counters that the loop also lowers.
pub record Summary : Type 0 where
  pub notes : ℕ
  pub perfect : ℕ
  pub good : ℕ
  pub empty : ℕ
  pub missed : ℤ
  pub raw_score : ℤ
  pub delay_sum_ns : ℕ
  pub hit_delay_sum_ns : ℕ

unfoldable pub summary : ℕ → Summary
summary note_count = record {
  notes = note_count;
  perfect = 0;
  good = 0;
  empty = 0;
  missed = pos note_count;
  raw_score = pos 0;
  delay_sum_ns = 0;
  hit_delay_sum_ns = 0;
}

-- The variables of the loop; `summaries` has a field for each stage.
pub record Replay : Type 0 where
  pub cursors : List ℕ
  pub previous_event : ℤ
  pub calibration_summary : Summary
  pub scored_summary : Summary

abbrev pub summary_of : Stage → Replay → Summary
summary_of calibration s = s.calibration_summary
summary_of scored s = s.scored_summary

abbrev pub put_summary : Stage → Summary → Replay → Replay
put_summary calibration u s = record s { calibration_summary = u }
put_summary scored u s = record s { scored_summary = u }

unfoldable pub init_replay : ℕ → ℕ → ℕ → Replay
unfolding summary
init_replay lanes calibration_count scored_count = record {
  cursors = replicate lanes 0;
  previous_event = negsuc 0;
  calibration_summary = summary calibration_count;
  scored_summary = summary scored_count;
}

-- A row of the file with its numbers read.
pub record InputRow : Type 0 where
  pub event_ns : ℕ
  pub lane : ℕ
  pub claimed_delay : ℤ
  pub claimed_note : Option ℕ
  pub stage_name : String
  pub judgment_name : String

-- `None if row["note_id"] == "" else _csv_integer(row["note_id"], ...)`
unfoldable pub claimed_note_column : ℕ → Row → Audit (Option ℕ)
claimed_note_column index row = do
  text ← column "note_id" row
  let present =
      csv_natural text (cell "inputs.csv" (index + 2) "note_id") (2 ^ 64 - 2) >>= λ n. pure (some n)
  if str_eq text "" then pure none else present

unfoldable pub claimed_delay_column : ℕ → Row → Audit ℤ
claimed_delay_column index row = do
  text ← column "delay_ns" row
  csv_integer text (cell "inputs.csv" (index + 2) "delay_ns") (negsuc (2 ^ 63 - 1))
      (pos (2 ^ 63 - 1))

unfoldable pub read_input : ℕ → ℕ → Row → Audit InputRow
read_input lanes index row = do
  event ← natural_column "inputs.csv" index "event_ns" (2 ^ 63 - 1) row
  lane ← natural_column "inputs.csv" index "lane" (lanes - 1) row
  delay ← claimed_delay_column index row
  note ← claimed_note_column index row
  stage_name ← column "stage" row
  judgment_name ← column "judgment" row
  pure (record {
    event_ns = event;
    lane = lane;
    claimed_delay = delay;
    claimed_note = note;
    stage_name = stage_name;
    judgment_name = judgment_name;
  })

-- The `while` loop on a lane's cursor, over what the chart holds from the cursor on: it passes the
-- notes with `target_ns < event_ns - GOOD`.
unfoldable pub expire : ℕ → List Note → ℕ → ℕ
expire event [] cursor = cursor
expire event (n ∷ ns) cursor =
    let rest = expire event ns (suc cursor) in
    if ltb (n.target_ns + good_ns) event then rest else cursor

-- `candidate["stage"] == stage and candidate["target_ns"] <= event_ns + GOOD`
abbrev pub accepts : Stage → ℕ → Option Note → Option Note
accepts stage event none = none
accepts stage event (some n) =
    if same_stage n.stage stage && leb n.target_ns (event + good_ns) then some n else none

-- `judgment = "perfect" if abs(expected_delay) <= PERFECT else "good"`
unfoldable pub judge : ℤ → Judgment
judge delay = if leb (abs delay) perfect_ns then Judgment.perfect else Judgment.good

-- The loop's score updates for a tap that matches nothing, and for a hit with its delay.
unfoldable pub score_empty : Summary → Summary
score_empty u = record u {
  empty = u.empty + 1;
  raw_score = u.raw_score -ℤ pos 5;
  delay_sum_ns = u.delay_sum_ns + empty_delay_ns;
}

unfoldable pub score_hit : ℤ → Summary → Summary
unfolding judge
score_hit delay u = elim (judge delay) [
  | Judgment.perfect ↦ record u {
    perfect = u.perfect + 1;
    missed = u.missed -ℤ pos 1;
    raw_score = u.raw_score +ℤ pos 2;
    delay_sum_ns = u.delay_sum_ns + abs delay;
    hit_delay_sum_ns = u.hit_delay_sum_ns + abs delay;
  }
  | _ ↦ record u {
    good = u.good + 1;
    missed = u.missed -ℤ pos 1;
    raw_score = u.raw_score +ℤ pos 1;
    delay_sum_ns = u.delay_sum_ns + abs delay;
    hit_delay_sum_ns = u.hit_delay_sum_ns + abs delay;
  }
]

-- What the replay expects of an input: the note, the delay and the judgment.
pub record Expected : Type 0 where
  pub note : Option ℕ
  pub delay : ℤ
  pub judgment : Judgment

-- `event_ns - matched["target_ns"]`
abbrev pub delay_of : ℕ → Note → ℤ
delay_of event n = sub_ℕ event n.target_ns

unfoldable pub expected : ℕ → Option Note → Expected
unfolding judge
expected event none = record { note = none; delay = pos 0; judgment = Judgment.empty }
expected event (some n) = record {
  note = some n.id;
  delay = delay_of event n;
  judgment = judge (delay_of event n);
}

unfoldable pub scored_by : ℕ → Option Note → Summary → Summary
unfolding score_empty score_hit
scored_by event none u = score_empty u
scored_by event (some n) u = score_hit (delay_of event n) u

-- Where a cursor is after a tap: past the note that it consumed.
abbrev pub consumed : Option Note → ℕ → ℕ
consumed none cursor = cursor
consumed (some n) cursor = suc cursor

abbrev pub same_note : Option ℕ → Option ℕ → Bool
same_note none none = true
same_note (some a) (some b) = a == b
same_note _ _ = false

-- The tap's effects once the cursor has passed the early notes: the match, the cursor behind a
-- consumed note, and the score.
abbrev pub settle : Stage → ℕ → ℕ → ℕ → Option Note → Replay → Option Note × Replay
settle stage event lane cursor matched s = (
  matched,
  put_summary stage (scored_by event matched (summary_of stage s))
      (record s { cursors = set s.cursors lane (consumed matched cursor) }),
)

-- The part of the loop's body that looks for a note, moves the cursor and scores, at a known stage.
unfoldable pub match_input : List (List Note) → Stage → ℕ → ℕ → Replay → Option Note × Replay
match_input lanes_notes stage event lane s =
    let chart = get_or lanes_notes lane [] in
    let cursor = expire event (drop (get_or s.cursors lane 0) chart) (get_or s.cursors lane 0) in
    settle stage event lane cursor (accepts stage event (get_elem? chart cursor)) s

-- The checks of the loop's body, on a row that is read.
unfoldable pub replay_input : List (List Note) → ℕ → InputRow → Replay → Audit Replay
replay_input lanes_notes index r s = do
  raise_if (ltb_ℤ (pos r.event_ns) s.previous_event) (backwards_input index)
  stage ← or_raise (stage_at r.event_ns) (input_outside index)
  report_if (not (str_eq r.stage_name (stage_text stage))) (stage_claim index)
  let (matched, s') =
      match_input lanes_notes stage r.event_ns r.lane (record s { previous_event = pos r.event_ns })
  let e = expected r.event_ns matched
  report_if (not (same_note r.claimed_note e.note)) (note_claim index)
  report_if (not (eqb_ℤ r.claimed_delay e.delay)) (delay_claim index)
  report_if (not (str_eq r.judgment_name (judgment_text e.judgment))) (judgment_claim index)
  pure s'

unfoldable pub replay_inputs : ℕ → List (List Note) → ℕ → List Row → Replay → Audit Replay
replay_inputs lanes lanes_notes index [] s = pure s
replay_inputs lanes lanes_notes index (row ∷ rows) s = do
  r ← read_input lanes index row
  s' ← replay_input lanes_notes index r s
  replay_inputs lanes lanes_notes (suc index) rows s'
