-- ===== src/Verifier/Report/Sample.antt =====
-- A run of two notes that passes. Multiples of a billionth stand in for the floats.
use chers.Base.{
  ℕ, suc, ◌+◌, ◌-◌, ◌*◌, ◌/◌, ◌^◌, ◌≡◌, refl, true, false, Option, none, some, [], ◌∷◌, String, ℤ,
  pos, negsuc, ltb, leb, ◌==◌, ◌+ℤ◌, ◌-ℤ◌,
}
use chers.Base.Decimal.{value}
use chers.Verifier.Rules.{stage_at}
use chers.Verifier.Fields.{natural_text, integer_text, integer, csv_integer, csv_natural}
use chers.Verifier.Table.{read_rows, natural_column}
use chers.Verifier.Chart.{empty_chart, read_note, stage_named, append_note, add_note, load_notes}
use chers.Verifier.Replay.{
  summary, init_replay, claimed_note_column, claimed_delay_column, read_input, expire, judge,
  score_empty, score_hit, expected, scored_by, match_input, replay_input, replay_inputs,
}
use chers.Verifier.Json.{
  Numbers, Value, Members, whole, boolean, text, float, object, end, member, no_duplicates,
  load_json, load_members, integer_value, boolean_value, mapping, item, number,
}
use chers.Verifier.Manifest as Manifest
use chers.Verifier.Timing as Timing
use chers.Verifier.Reading.{
  replay_run, load_manifest, replay_manifest, check_claims, read_timing, check_compliance,
}
use chers.Verifier.Report.{
  Evidence, verify_flags, verify_compliance, verify_claims, verify, verify_run, conclude,
}

abbrev pub billion : ℕ
billion = 1_000_000_000

abbrev pub scale : ℕ → ℤ → ℕ
scale m (pos e) = m * 10 ^ e * billion
scale m (negsuc e) = m * billion / 10 ^ suc e

abbrev pub divide : ℤ → ℤ → ℕ
divide (pos a) (pos b) = a * billion / b
divide _ _ = 0

abbrev pub of_integer : ℤ → Option ℕ
of_integer (pos n) = some (n * billion)
of_integer (negsuc n) = none

abbrev pub billionths : Numbers
billionths = record {
  Float = ℕ;
  of_int = of_integer;
  decimal = scale;
  is_finite = λ _. true;
  lt = ltb;
  le = leb;
  equal = λ a b. a == b;
  plus = λ a b. a + b;
  minus = λ a b. a - b;
  over = λ a b. a * billion / b;
  quotient = divide;
  isclose = λ a b _ _. a == b;
}

abbrev pub int : String → ℕ → Members ℕ → Members ℕ
int k n ms = member k (whole (pos n)) ms

abbrev pub summary_value : Value ℕ
summary_value = object (
    int "notes" 1 (
      int "perfect" 1 (
        int "good" 0 (
          int "empty" 0 (
            int "missed" 0 (
              int "raw_score" 2
                (int "score" 1 (int "delaySum_ms" 0 (int "hit_delay_sum_ms" 0 end)))))))))

abbrev pub series : ℕ → ℕ → ℕ → ℕ → Value ℕ
series count over16 over2 each = object (
    int "count" count (
      int "over_16ms" over16 (
        int "over_2ms" over2
          (int "mean_ms" each (int "p50_ms" each (int "p99_ms" each (int "max_ms" each end)))))))

abbrev pub timeline_value : Value ℕ
timeline_value = object (
    int "calibration_start" 1_000_000_000 (
      int "calibration_end" 6_000_000_000 (
        int "scored_start" 11_020_000_000
          (int "scored_end" 61_020_000_000 (int "finish" 61_040_000_000 end)))))

abbrev pub generation_value : Value ℕ
generation_value = object (
    int "attempts" 1
      (int "emitted" 1 (int "dropped" 0 (member "actual_notes_per_second" (float 20_000_000) end))))

abbrev pub observation_value : Value ℕ
observation_value = object (
    int "width" 640 (
      int "height" 360 (
        int "target_fps" 80 (
          int "target_max_gap_ms" 16 (
            member "format" (text "RGBA8") (
              member "publication_gaps" (series 1 0 1 10) (
                member "render_and_publish" (series 0 0 0 0)
                  (member "timing_compliant" (boolean true) end))))))))

abbrev pub manifest : Value ℕ
manifest = object (
    member "benchmark" (text "CHERS") (
      member "version" (text "0.2.0") (
        member "completed" (boolean true) (
          member "valid" (boolean true) (
            member "invalid_reason" (text "") (
              int "lanes" 2 (
                int "density_attempts_per_second" 4 (
                  member "entropy_source" (text "CPU RDSEED hardware entropy (no PRNG expansion)") (
                    member "timeline_ns" timeline_value (
                      member "calibration" summary_value (
                        member "trial" summary_value (
                          member "generation" generation_value (
                            member "observation" observation_value
                              (member "input_poll_gaps" (series 1 0 0 1) end))))))))))))))

abbrev pub files : Evidence ℕ
files = record {
  result = some manifest;
  notes = some (
      ("id" ∷ "lane" ∷ "target_ns" ∷ "stage" ∷ [])
      ∷ ("0" ∷ "0" ∷ "1000000000" ∷ "calibration" ∷ [])
      ∷ ("1" ∷ "1" ∷ "11020000000" ∷ "scored" ∷ [])
      ∷ []);
  inputs = some (
      ("event_ns" ∷ "lane" ∷ "note_id" ∷ "stage" ∷ "judgment" ∷ "delay_ns" ∷ [])
      ∷ ("1000000000" ∷ "0" ∷ "0" ∷ "calibration" ∷ "perfect" ∷ "0" ∷ [])
      ∷ ("11020000000" ∷ "1" ∷ "1" ∷ "scored" ∷ "perfect" ∷ "0" ∷ [])
      ∷ []);
  timing_samples = some (
      ("kind" ∷ "index" ∷ "duration_ns" ∷ [])
      ∷ ("frame_gap" ∷ "0" ∷ "10000000" ∷ [])
      ∷ ("poll" ∷ "0" ∷ "1000000" ∷ [])
      ∷ []);
}

pub files_pass :
    ((verify_run billionths files true).passed ≡ true)
    × ((verify_run billionths files false).passed ≡ true)
unfolding verify_run verify conclude verify_flags verify_compliance verify_claims replay_run
    load_manifest replay_manifest check_claims read_timing check_compliance no_duplicates load_json
    load_members integer_value boolean_value mapping item number natural_text integer_text integer
    csv_integer csv_natural value read_rows natural_column empty_chart read_note stage_named
    append_note add_note load_notes stage_at summary init_replay claimed_note_column
    claimed_delay_column read_input expire judge score_empty score_hit expected scored_by
    match_input replay_input replay_inputs Manifest.check_version Manifest.check_time
    Manifest.check_timeline Manifest.check_count Manifest.check_counts Manifest.check_close
    Manifest.read_lanes Manifest.check_density Manifest.check_entropy Manifest.check_times
    Manifest.check_settings Manifest.check_score Manifest.check_summary Manifest.check_generation
    Manifest.check_threshold Manifest.distribution Manifest.check_fixed Manifest.check_observation
    Timing.kind_named Timing.append_sample Timing.add_sample Timing.add_samples Timing.sorted
    Timing.timing_summary Timing.compare_timing Timing.replay_timing ◌+ℤ◌ ◌-ℤ◌
files_pass = (refl, refl)
