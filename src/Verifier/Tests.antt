-- ===== src/Verifier/Tests.antt =====
-- A small run of two lanes, and the verifier's theorems at it.
use chers.Base.{
  ◌⊎◌, ◌≡◌, ◌↔◌, refl, some, List, [], ◌∷◌, String, pos, negsuc, ◌-ℤ◌, ◌+ℤ◌, arith, length,
}
use chers.Base.Decimal.{value}
use chers.Verifier.Rules.{Stage, calibration, scored, stage_at}
use chers.Verifier.Audit.{ok, Finding}
use chers.Verifier.Fields.{
  natural_text, integer_text, integer, csv_integer, csv_natural, print_integer,
}
use chers.Verifier.Fields.RoundTrip.{integer_text_iff, minus_zero}
use chers.Verifier.Table.{Row, dict_row, natural_column}
use chers.Verifier.Chart.{
  Note, Chart, empty_chart, read_note, stage_named, append_note, add_note, load_notes,
}
use chers.Verifier.Chart.Loaded.{IsLoaded, IsClean}
use chers.Verifier.Chart.Loading.{load_notes-IsLoaded, load_notes-IsClean}
use chers.Verifier.Replay.{
  summary_of, Replay, init_replay, replay_inputs, summary, read_input, replay_input,
  claimed_note_column, claimed_delay_column, match_input, expire, judge, score_empty, score_hit,
  scored_by, expected,
}
use chers.Verifier.Spec.{play, expected_summary}
use chers.Verifier.Spec.Refines.{taps, ClaimsHold, replay_inputs-refines}

abbrev note_row : String → String → String → String → Row
note_row id lane target stage =
    dict_row ("id" ∷ "lane" ∷ "target_ns" ∷ "stage" ∷ []) (id ∷ lane ∷ target ∷ stage ∷ [])

abbrev input_row : String → String → String → String → String → String → Row
input_row event lane note stage judgment delay =
    dict_row ("event_ns" ∷ "lane" ∷ "note_id" ∷ "stage" ∷ "judgment" ∷ "delay_ns" ∷ [])
      (event ∷ lane ∷ note ∷ stage ∷ judgment ∷ delay ∷ [])

abbrev note_rows : List Row
note_rows =
    note_row "0" "0" "1000000000" "calibration"
    ∷ note_row "1" "1" "1010000000" "calibration"
    ∷ note_row "2" "0" "1040000000" "calibration"
    ∷ note_row "3" "0" "11020000000" "scored"
    ∷ []

-- A hit 6 ms early, an empty tap, and a hit 20 ms late.
abbrev input_rows : List Row
input_rows =
    input_row "994000000" "0" "0" "calibration" "perfect" "-6000000"
    ∷ input_row "1015000000" "0" "" "calibration" "empty" "0"
    ∷ input_row "11040000000" "0" "3" "scored" "good" "20000000"
    ∷ []

abbrev chart_0 : Note
chart_0 = record { id = 0; lane = 0; target_ns = 1_000_000_000; stage = calibration }

abbrev chart_1 : Note
chart_1 = record { id = 1; lane = 1; target_ns = 1_010_000_000; stage = calibration }

abbrev chart_2 : Note
chart_2 = record { id = 2; lane = 0; target_ns = 1_040_000_000; stage = calibration }

abbrev chart_3 : Note
chart_3 = record { id = 3; lane = 0; target_ns = 11_020_000_000; stage = scored }

abbrev chart : Chart
chart = record {
  notes = chart_0 ∷ chart_1 ∷ chart_2 ∷ chart_3 ∷ [];
  lanes_notes = (chart_0 ∷ chart_2 ∷ chart_3 ∷ []) ∷ (chart_1 ∷ []) ∷ [];
  calibration_count = 3;
  scored_count = 1;
  previous_target = pos 11_020_000_000;
}

chart_loads : load_notes 2 0 note_rows (empty_chart 2) ≡ (ok chart, [])
unfolding load_notes read_note natural_column csv_natural csv_integer integer integer_text
    natural_text value add_note stage_named append_note empty_chart
chart_loads = refl

abbrev final : Replay
final = record {
  cursors = 3 ∷ 0 ∷ [];
  previous_event = pos 11_040_000_000;
  calibration_summary = record {
    notes = 3;
    perfect = 1;
    good = 0;
    empty = 1;
    missed = pos 2;
    raw_score = negsuc 2;
    delay_sum_ns = 106_000_000;
    hit_delay_sum_ns = 6_000_000;
  };
  scored_summary = record {
    notes = 1;
    perfect = 0;
    good = 1;
    empty = 0;
    missed = pos 0;
    raw_score = pos 1;
    delay_sum_ns = 20_000_000;
    hit_delay_sum_ns = 20_000_000;
  };
}

inputs_replay :
    replay_inputs 2 chart.lanes_notes 0 input_rows
      (init_replay 2 chart.calibration_count chart.scored_count)
    ≡ (ok final, [])
unfolding replay_inputs read_input natural_column claimed_note_column claimed_delay_column
    csv_natural csv_integer integer integer_text natural_text value replay_input stage_at
    match_input expire scored_by score_empty score_hit judge expected init_replay summary ◌+ℤ◌ ◌-ℤ◌
inputs_replay = refl

chart-IsLoaded : IsLoaded 2 chart
chart-IsLoaded = (load_notes-IsLoaded 2 note_rows chart [] (omega arith) chart_loads).0

chart-IsClean : IsClean chart
chart-IsClean = load_notes-IsClean 2 note_rows chart (omega arith) chart_loads

integer_text_iff_example : (integer_text (b'-' ∷ b'4' ∷ b'2' ∷ []) ≡ some (negsuc 41)) ↔ (
    (print_integer (negsuc 41) ≡ b'-' ∷ b'4' ∷ b'2' ∷ [])
    ⊎ ((b'-' ∷ b'4' ∷ b'2' ∷ [] ≡ minus_zero) × (negsuc 41 ≡ pos 0)))
integer_text_iff_example = integer_text_iff (b'-' ∷ b'4' ∷ b'2' ∷ []) (negsuc 41)

load_notes-IsLoaded_example : IsLoaded 2 chart × (length chart.notes ≡ length note_rows)
load_notes-IsLoaded_example = load_notes-IsLoaded 2 note_rows chart [] (omega arith) chart_loads

load_notes-IsClean_example : IsClean chart
load_notes-IsClean_example = load_notes-IsClean 2 note_rows chart (omega arith) chart_loads

replay_inputs-refines_example :
    let (os, left) = play (taps 2 0 input_rows) chart.notes in
    ((t : Stage) → summary_of t final ≡ expected_summary t chart.notes os left)
    × ((◌≡◌ {A = List Finding} [] []) ↔ ClaimsHold 2 0 input_rows os)
replay_inputs-refines_example =
    replay_inputs-refines 2 chart input_rows final [] chart-IsLoaded chart-IsClean (omega arith)
      inputs_replay
