-- ===== src/Verifier/Rules.antt =====
-- The constants and the timeline of tools/verify_run.py, in nanoseconds, and the stage at a time.
use chers.Base.{
  ℕ, ◌+◌, ◌-◌, ◌*◌, Bool, true, false, ◌&&◌, Option, none, some, String, ltb, leb, if◌then◌else◌,
}

abbrev pub ms : ℕ
ms = 1_000_000

abbrev pub second : ℕ
second = 1_000_000_000

abbrev pub perfect_ns : ℕ
perfect_ns = 8 * ms

abbrev pub good_ns : ℕ
good_ns = 20 * ms

abbrev pub lock_ns : ℕ
lock_ns = 40 * ms

abbrev pub empty_delay_ns : ℕ
empty_delay_ns = 100 * ms

-- The keys of `TARGET_WINDOWS`.
pub data Stage : Type 0 where
  calibration scored : Stage

-- `TIMELINE` and `TARGET_WINDOWS`.
abbrev pub window_start : Stage → ℕ
window_start calibration = second
window_start scored = 11_020 * ms

abbrev pub window_end : Stage → ℕ
window_end calibration = 6 * second
window_end scored = 61_020 * ms

abbrev pub finish_ns : ℕ
finish_ns = 61_040 * ms

abbrev pub stage_text : Stage → String
stage_text calibration = "calibration"
stage_text scored = "scored"

abbrev pub same_stage : Stage → Stage → Bool
same_stage calibration calibration = true
same_stage scored scored = true
same_stage calibration scored = false
same_stage scored calibration = false

-- `start - GOOD <= event_ns < end + GOOD`
abbrev pub in_scoring_window : Stage → ℕ → Bool
in_scoring_window s event =
    leb (window_start s - good_ns) event && ltb event (window_end s + good_ns)

-- `_stage_at`
unfoldable pub stage_at : ℕ → Option Stage
stage_at event =
    if in_scoring_window calibration event
    then some calibration
    else if in_scoring_window scored event
    then some scored
    else none

pub data Judgment : Type 0 where
  perfect good empty : Judgment

abbrev pub judgment_text : Judgment → String
judgment_text perfect = "perfect"
judgment_text good = "good"
judgment_text empty = "empty"
