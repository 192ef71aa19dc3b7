-- ===== src/Verifier/Manifest.antt =====
-- What `_verify` of tools/verify_run.py checks in result.json: the settings of the run, the claimed
-- summaries against the replay's, the accounting of the generation, and the timing summaries.
pub mod Checked
use chers.Base.{
  ℕ, ◌+◌, ◌*◌, ◌^◌, Bool, true, false, ◌&&◌, ◌||◌, not, Option, none, some, List, [], ◌∷◌, String,
  ℤ, pos, negsuc, ◌+ℤ◌, ltb_ℤ, eqb_ℤ, pos_part, ◌==◌, if◌then◌else◌,
}
use chers.Verifier.Rules.{
  ms, second, finish_ns, window_start, window_end, Stage, calibration, scored,
}
use chers.Verifier.Audit.{
  Audit, Label, plain, field, value_claim, inconsistent, unsupported_version, ◌>>=◌, ◌>>◌, pure,
  raise_if, report_if,
}
use chers.Verifier.Fields.{max_int64}
use chers.Verifier.Json.{
  Numbers, Value, Members, null, text, is_text, integer_value, boolean_value, mapping, item, number,
}
use chers.Verifier.Replay.{Summary}

abbrev pub is_null : {F : Type 0} → Value F → Bool
is_null null = true
is_null v = false

-- `_integer(data[key], f"{label}.{key}", minimum, maximum)`
abbrev pub integer_item : {F : Type 0} → String → String → ℤ → ℤ → Members F → Audit ℤ
integer_item label key minimum maximum members = do
  v ← item key members
  integer_value v (field label key) minimum maximum

-- `_integer` with the default bounds.
abbrev pub count_item : {F : Type 0} → String → String → Members F → Audit ℤ
count_item label key members = integer_item label key (pos 0) (pos max_int64) members

-- The version that the benchmark states.
unfoldable pub check_version : {F : Type 0} → Members F → Audit (Unit {0})
check_version manifest = do
  benchmark ← item "benchmark" manifest
  version ← item "version" manifest
  raise_if
      (not (
        is_text "CHERS" benchmark && is_text "0.2.0" version
        || is_text "ChronoLane" benchmark && is_text "0.1.0" version))
      unsupported_version

-- One entry of `TIMELINE` against the manifest's.
unfoldable pub check_time : {F : Type 0} → Members F → String × ℕ → Audit (Unit {0})
check_time timeline (name, expected) = do
  v ← count_item "timeline_ns" name timeline
  report_if (not (eqb_ℤ v (pos expected))) (value_claim (field "timeline_ns" name))

-- The items of `TIMELINE`.
abbrev pub timeline_items : List (String × ℕ)
timeline_items =
    ("calibration_start", window_start calibration)
    ∷ ("calibration_end", window_end calibration)
    ∷ ("scored_start", window_start scored)
    ∷ ("scored_end", window_end scored)
    ∷ ("finish", finish_ns)
    ∷ []

unfoldable pub check_timeline : {F : Type 0} → Members F → List (String × ℕ) → Audit (Unit {0})
check_timeline timeline [] = pure tt
check_timeline timeline (t ∷ ts) = check_time timeline t >> check_timeline timeline ts

-- One of the integers of a claimed summary against the replay's.
unfoldable pub check_count : {F : Type 0} → String → Members F → String × ℤ × ℤ → Audit (Unit {0})
check_count key claimed (name, minimum, replayed) = do
  v ← integer_item key name minimum (pos max_int64) claimed
  report_if (not (eqb_ℤ v replayed)) (value_claim (field key name))

unfoldable pub check_counts :
    {F : Type 0} → String → Members F → List (String × ℤ × ℤ) → Audit (Unit {0})
check_counts key claimed [] = pure tt
check_counts key claimed (c ∷ cs) = check_count key claimed c >> check_counts key claimed cs

-- The names of the loop, with the minimum of each and the replay's value.
abbrev pub replayed_counts : Summary → List (String × ℤ × ℤ)
replayed_counts u =
    ("notes", pos 0, pos u.notes)
    ∷ ("perfect", pos 0, pos u.perfect)
    ∷ ("good", pos 0, pos u.good)
    ∷ ("empty", pos 0, pos u.empty)
    ∷ ("missed", pos 0, u.missed)
    ∷ ("raw_score", negsuc max_int64, u.raw_score)
    ∷ []

-- The timing series' claims that the recomputation is compared with.
pub record Distribution (F : Type 0) : Type 0 where
  pub count : ℤ
  pub over_16ms : ℤ
  pub over_2ms : ℤ
  pub mean_ms : F
  pub p50_ms : F
  pub p99_ms : F
  pub max_ms : F

module _ (numbers : Numbers) where
  open numbers use {Float, of_int, decimal, lt, le, equal, plus, minus, over, quotient, isclose}

  -- A literal without a fraction.
  abbrev pub small : ℕ → Float
  small n = decimal n (pos 0)

  abbrev pub number_item : String → String → Members Float → Audit Float
  number_item label key members = do v ← item key members; number numbers v (field label key)

  -- `_close`
  unfoldable pub check_close : Value Float → Float → Label → Audit (Unit {0})
  check_close claimed expected label = do
    value ← number numbers claimed label
    report_if (not (isclose value expected (decimal 5 (negsuc 11)) (decimal 5 (negsuc 9))))
        (value_claim label)

  unfoldable pub read_lanes : Members Float → Audit ℕ
  read_lanes manifest = do
    v ← item "lanes" manifest
    lanes ← integer_value v (plain "lanes") (pos 2) (pos 16)
    pure (pos_part lanes)

  unfoldable pub check_density : ℕ → Members Float → Audit (Unit {0})
  check_density lanes manifest = do
    v ← item "density_attempts_per_second" manifest
    density ← number numbers v (plain "density_attempts_per_second")
    report_if (not (le (small (2 * lanes)) density && le density (small (24 * lanes))))
        (value_claim (plain "density_attempts_per_second"))

  unfoldable pub check_entropy : Members Float → Audit (Unit {0})
  check_entropy manifest = do
    entropy ← item "entropy_source" manifest
    report_if (not (is_text "CPU RDSEED hardware entropy (no PRNG expansion)" entropy))
        (value_claim (plain "entropy_source"))

  unfoldable pub check_times : Members Float → Audit (Unit {0})
  check_times manifest = do
    v ← item "timeline_ns" manifest
    timeline ← mapping v (plain "timeline_ns")
    check_timeline timeline timeline_items

  -- The settings: the lanes are the result.
  unfoldable pub check_settings : Members Float → Audit ℕ
  check_settings manifest = do
    lanes ← read_lanes manifest
    check_density lanes manifest
    check_entropy manifest
    check_times manifest
    pure lanes

  -- `score["score"]` against the claim: none without notes.
  unfoldable pub check_score : String → Members Float → Summary → Audit (Unit {0})
  check_score key claimed u = do
    v ← item "score" claimed
    let scored_claim = check_close v (quotient u.raw_score (pos (2 * u.notes))) (field key "score")
    let null_claim = report_if (not (is_null v)) (value_claim (field key "score"))
    if u.notes == 0 then null_claim else scored_claim

  -- A stage of the loop over `summaries`.
  unfoldable pub check_summary : String → Members Float → Summary → Audit (Unit {0})
  unfolding check_counts
  check_summary key manifest u = do
    claimed_value ← item key manifest
    claimed ← mapping claimed_value (plain key)
    check_counts key claimed (replayed_counts u)
    check_score key claimed u
    delay ← item "delaySum_ms" claimed
    check_close delay (quotient (pos u.delay_sum_ns) (pos ms)) (field key "delaySum_ms")
    hit_delay ← item "hit_delay_sum_ms" claimed
    check_close hit_delay (quotient (pos u.hit_delay_sum_ns) (pos ms))
        (field key "hit_delay_sum_ms")

  -- The accounting of the generated notes, for the count of notes in the scored window.
  unfoldable pub check_generation : ℕ → Members Float → Audit (Unit {0})
  check_generation scored_count manifest = do
    generation_value ← item "generation" manifest
    generation ← mapping generation_value (plain "generation")
    attempted ← count_item "generation" "attempts" generation
    emitted ← count_item "generation" "emitted" generation
    dropped ← count_item "generation" "dropped" generation
    report_if (not (eqb_ℤ attempted (emitted +ℤ dropped)) || not (eqb_ℤ emitted (pos scored_count)))
        (inconsistent (plain "generation"))
    rate ← item "actual_notes_per_second" generation
    check_close rate (quotient (pos scored_count) (pos 50))
        (field "generation" "actual_notes_per_second")

  -- `_distribution`, the tests on a threshold.
  unfoldable pub check_threshold : String → Float → ℕ → ℤ → Audit (Unit {0})
  check_threshold label maximum threshold exceedances = do
    report_if
        (lt (plus (small threshold) (decimal 1 (negsuc 7))) maximum && eqb_ℤ exceedances (pos 0))
        (inconsistent (field label "max_ms"))
    report_if
        (lt maximum (minus (small threshold) (decimal 1 (negsuc 7))) && ltb_ℤ (pos 0) exceedances)
        (inconsistent (field label "exceedances"))

  -- `_distribution`
  unfoldable pub distribution : Value Float → String → Audit (Distribution Float)
  distribution value label = do
    members ← mapping value (plain label)
    count ← count_item label "count" members
    over16 ← integer_item label "over_16ms" (pos 0) count members
    over2 ← integer_item label "over_2ms" (pos 0) count members
    mean ← number_item label "mean_ms" members
    p50 ← number_item label "p50_ms" members
    p99 ← number_item label "p99_ms" members
    maximum ← number_item label "max_ms" members
    report_if (lt mean (small 0) || lt p50 (small 0) || lt p99 (small 0) || lt maximum (small 0))
        (inconsistent (field label "negative"))
    report_if (ltb_ℤ over2 over16 || ltb_ℤ count over2) (inconsistent (field label "thresholds"))
    report_if (not (le p50 p99 && le p99 maximum)) (inconsistent (field label "percentiles"))
    report_if (lt maximum mean) (inconsistent (field label "mean_ms"))
    report_if
        (eqb_ℤ count (pos 0)
          && not (
              equal mean (small 0)
              && equal p50 (small 0)
              && equal p99 (small 0)
              && equal maximum (small 0)))
        (inconsistent (field label "empty"))
    check_threshold label maximum 16 over16
    check_threshold label maximum 2 over2
    pure (record {
      count = count;
      over_16ms = over16;
      over_2ms = over2;
      mean_ms = mean;
      p50_ms = p50;
      p99_ms = p99;
      max_ms = maximum;
    })

  -- One of the fixed numbers of the observation.
  unfoldable pub check_fixed : Members Float → String × ℕ → Audit (Unit {0})
  check_fixed observation (name, expected) = do
    v ← number_item "observation" name observation
    report_if (not (equal v (small expected))) (value_claim (field "observation" name))

  -- The format of the observation.
  unfoldable pub check_observation : Members Float → Audit (Unit {0})
  check_observation observation = do
    check_fixed observation ("width", 640)
    check_fixed observation ("height", 360)
    check_fixed observation ("target_fps", 80)
    check_fixed observation ("target_max_gap_ms", 16)
    format ← item "format" observation
    report_if (not (is_text "RGBA8" format)) (value_claim (field "observation" "format"))
