-- ===== src/Trial/Ending.antt =====
-- What follows the loop of `run_trial`: the bridge is closed and exported, the game's result is
-- verified, and the report says whether the trial may be published.
pub mod Published
pub mod Accounted
use chers.Base.{
  ℕ, Bool, true, false, ◌&&◌, not, Option, none, some, List, [], ◌∷◌, String, ℤ, pos, eqb_ℤ,
  is_empty, if◌then◌else◌,
}
use chers.Bridge.State.{Bridge, Outcome, done, raised}
use chers.Bridge.Actions.{Floats}
use chers.Bridge.Dispatch.{close}
use chers.Verifier.Json.{Numbers, Value, Members, object, boolean, find_member}
use chers.Verifier.Report.{Evidence, verify_run}
use chers.Trial.{Work, Round, TrialError, Trial, Status, completed, failed, begin}
use chers.Trial.Calls.{work}
use chers.Trial.Rounds.{LoopEnd, exited, stopped, waits, play_rounds}

-- `data.get(key) is True`, for an object.
abbrev pub is_true : {F : Type 0} → Option (Value F) → Bool
is_true (some (boolean true)) = true
is_true _ = false

abbrev pub flag_is_true : {F : Type 0} → String → Value F → Bool
flag_is_true key (object ms) = is_true (find_member key ms)
flag_is_true key _ = false

-- What the cleaning up meets: the threads' work before the bridge is closed, whether they stop,
-- whether the keyboard closes and the evidence is written; and the results that the game has left.
pub record Cleanup (F : Type 0) : Type 0 where
  pub before : List Work
  pub workers_stop : Bool
  pub keys_close : Bool
  pub exports : Bool
  pub results : List (Evidence F)

-- The entries of the report that the end sets, with the trial.
pub record TrialReport : Type 0 where
  pub trial : Trial
  pub status : Status
  pub verification_passed : Bool
  pub publishable : Bool

abbrev pub has_exited_well : Option ℤ → Bool
has_exited_well none = false
has_exited_well (some code) = eqb_ℤ code (pos 0)

-- The status after the loop, or after what it has raised.
unfoldable pub status_after : Option TrialError → Trial → Status
status_after none t =
    if has_exited_well t.game_exit && is_empty t.model_errors then completed else failed
status_after (some e) t = failed

-- How `run_trial` ends: its loop has not ended, it raises on a damaged result, or it returns a
-- report.
pub data TrialEnd : Type 0 where
  unfinished damaged_result : TrialEnd
  reported : TrialReport → TrialEnd

abbrev pub is_completed : Status → Bool
is_completed completed = true
is_completed _ = false

-- `export` writes only for a closed bridge.
unfoldable pub export : Bool → Bridge → Bool
export writes b = b.closed && writes

-- `bridge.close()` and `bridge.export(...)`: the status, which a raise sets to failed.
abbrev pub status_closed : Bool → Status → Outcome (Unit {0}) × Bridge → Status
status_closed exports status (raised e, b) = failed
status_closed exports status (done _, b) = if not (export exports b) then failed else status

module _ (clock : ℕ → ℕ) (key_works : ℕ → ℕ → Bool) (floats : Floats) (other_upper : ℕ → List ℕ)
    (encode : List ℕ → List ℕ) (numbers : Numbers) where
  open numbers use {Float}

  abbrev pub conclude_with : Value Float → Evidence Float → Trial → Status → TrialReport
  conclude_with benchmark files t status =
      let passed = (verify_run numbers files false).passed in
      record {
        trial = t;
        status = status;
        verification_passed = passed;
        publishable =
            is_completed status
            && passed
            && flag_is_true "completed" benchmark
            && flag_is_true "valid" benchmark;
      }

  -- The results: with exactly one, it is verified and read; to read a damaged one raises.
  unfoldable pub conclude_trial : List (Evidence Float) → Trial → Status → TrialEnd
  conclude_trial (files ∷ []) t status = elim files.result [
    | none ↦ damaged_result
    | some benchmark ↦ reported (conclude_with benchmark files t status)
  ]
  conclude_trial _ t status =
      reported
        (record { trial = t; status = status; verification_passed = false; publishable = false })

  -- The bridge is closed.
  abbrev pub close_bridge : Cleanup Float → Trial → Outcome (Unit {0}) × Bridge
  close_bridge c t =
      close c.workers_stop c.keys_close
        (work clock key_works floats other_upper encode c.before t.bridge)

  -- The `finally` of `run_trial`, with what the loop has raised, if anything.
  unfoldable pub finish : Cleanup Float → Option TrialError → Trial → TrialEnd
  unfolding work status_after conclude_trial
  finish c error t =
      conclude_trial c.results (record t { bridge = (close_bridge c t).1 })
        (status_closed c.exports (status_after error t) (close_bridge c t))

  -- `run_trial` on a workload, from its first turn on.
  unfoldable pub run_trial : ℕ → List (Round floats.Float) → Cleanup Float → TrialEnd
  unfolding finish begin
  run_trial lanes rounds c =
      elim (play_rounds clock key_works floats other_upper encode rounds (begin lanes)) [
        | exited t ↦ finish c none t
        | stopped e t ↦ finish c (some e) t
        | waits t ↦ unfinished
      ]
