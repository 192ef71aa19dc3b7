-- ===== src/Trial/Ending/Published.antt =====
-- What a trial that may be published has gone through.
use chers.Base.{
  both, ℕ, ◌≡◌, refl, ◌∙◌, subst, Bool, true, false, ◌&&◌, not, Option, none, some, List, [], ◌∷◌,
  ℤ, pos, negsuc, is_empty, arith, if◌then◌else◌,
}
use chers.Bridge.State.{Bridge, Outcome, done, raised}
use chers.Bridge.Actions.{Floats}
use chers.Bridge.Steps.Dispatching.{Inv}
use chers.Bridge.Steps.Invariant.{step-Inv, init-Inv}
use chers.Verifier.Json.{Numbers, Value, Members}
use chers.Verifier.Audit.{ok}
use chers.Verifier.Table.{Row}
use chers.Verifier.Chart.{Chart}
use chers.Verifier.Reading.{load_manifest}
use chers.Verifier.Report.{Evidence, verify_run}
use chers.Verifier.Report.Rules.{Honest, verify_run-Honest}
use chers.Trial.{
  Round, TrialError, Trial, Status, setup, waiting_for_start, running, completed, failed, begin,
}
use chers.Trial.Rounds.{LoopEnd, exited, stopped, waits, play_rounds}
use chers.Trial.Bridged.{ended_trial, play_rounds-keep, close_bridge-keep}
use chers.Trial.Ending.{
  Cleanup, TrialReport, TrialEnd, unfinished, damaged_result, reported, has_exited_well,
  status_after, is_completed, export, status_closed, flag_is_true, conclude_with, conclude_trial,
  close_bridge, finish, run_trial,
}

exited_well : (o : Option ℤ) → has_exited_well o ≡ true → o ≡ some (pos 0)
exited_well none e = absurd (cc e)
exited_well (some (pos n)) e = let zero_ : n ≡ 0 = ground arith in rw zero_
exited_well (some (negsuc n)) e = absurd (ground arith)

no_errors : {A : Type 0} (xs : List A) → is_empty xs ≡ true → xs ≡ []
no_errors [] e = refl
no_errors (x ∷ xs) e = absurd (cc e)

passed_test : (t : Bool) → (if t then completed else failed) ≡ completed → t ≡ true
passed_test true e = refl
passed_test false e = absurd (cc e)

failed_test :
    (t : Bool) (s : Status)
    → (if t then failed else s) ≡ completed
    → (not t ≡ true) × (s ≡ completed)
failed_test true s e = absurd (cc e)
failed_test false s e = (refl, e)

completed_after :
    (error : Option TrialError) (t : Trial)
    → status_after error t ≡ completed
    → (t.game_exit ≡ some (pos 0)) × (t.model_errors ≡ [])
unfolding status_after
completed_after (some e) t h = absurd (cc h)
completed_after none t h =
    let (exit, errors) =
      both (has_exited_well t.game_exit) (is_empty t.model_errors) (passed_test _ h) in
    (exited_well t.game_exit exit, no_errors t.model_errors errors)

pub closed_well :
    (exports : Bool) (status : Status) (r : Outcome (Unit {0}) × Bridge)
    → status_closed exports status r ≡ completed
    → (status ≡ completed) × (r.1.closed ≡ true)
unfolding export
closed_well exports status (raised e, b) h = absurd (cc h)
closed_well exports status (done _, b) h =
    let (written, same) = failed_test (not (b.closed && exports)) status h in
    (same, (both b.closed exports (not_not (b.closed && exports) written)).0)
  where
    not_not : (a : Bool) → not (not a) ≡ true → a ≡ true
    not_not true e = refl
    not_not false e = e

is_completed-eq : (s : Status) → is_completed s ≡ true → s ≡ completed
is_completed-eq setup e = absurd (cc e)
is_completed-eq waiting_for_start e = absurd (cc e)
is_completed-eq running e = absurd (cc e)
is_completed-eq completed e = refl
is_completed-eq failed e = absurd (cc e)

module _ (clock : ℕ → ℕ) (key_works : ℕ → ℕ → Bool) (floats : Floats) (other_upper : ℕ → List ℕ)
    (encode : List ℕ → List ℕ) (numbers : Numbers) where
  open numbers use {Float}

  -- The verified results of a published trial.
  abbrev pub Verified : List (Evidence Float) → Type 0
  Verified results =
      (files : Evidence Float) × (manifest : Members Float) × (lanes : ℕ) × (c : Chart)
      × (input_rows : List Row) × (results ≡ files ∷ [])
      × ((load_manifest numbers files.result).0 ≡ ok manifest)
      × Honest files manifest lanes c input_rows

  -- What the end says of the results, for a trial and a status.
  abbrev pub Concludes : List (Evidence Float) → Trial → Status → TrialEnd → Type 0
  Concludes results t status (reported r) =
      (r.trial ≡ t)
      × (r.status ≡ status)
      × (r.publishable ≡ true → (status ≡ completed) × Verified results)
  Concludes results t status _ = Unit

  conclude_with-Concludes :
      (benchmark : Value Float) (files : Evidence Float) (t : Trial) (status : Status)
      → Concludes (files ∷ []) t status (
          reported (
            conclude_with clock key_works floats other_upper encode numbers benchmark files t
              status))
  conclude_with-Concludes benchmark files t status = (
    refl,
    refl,
    λ h.
        let good = (verify_run numbers files false).passed in
        let was_completed = flag_is_true "completed" benchmark in
        let (first, _) =
          both (is_completed status && good && was_completed) (flag_is_true "valid" benchmark) h in
        let (second, _) = both (is_completed status && good) was_completed first in
        let (finished, passed) = both (is_completed status) good second in
        let (manifest, lanes, c, rows, loads, honest) =
          verify_run-Honest numbers files false passed in
        (is_completed-eq status finished, (files, manifest, lanes, c, rows, refl, loads, honest)),
  )

  pub conclude-Concludes :
      (results : List (Evidence Float)) (t : Trial) (status : Status)
      → Concludes results t status
          (conclude_trial clock key_works floats other_upper encode numbers results t status)
  unfolding conclude_trial
  conclude-Concludes [] t status = (refl, refl, λ h. absurd (cc h))
  conclude-Concludes (files ∷ []) t status = by_result files.result
    where
      by_result :
          (v : Option (Value Float))
          → Concludes (files ∷ []) t status (elim v as (λ _. TrialEnd) [
            | none ↦ damaged_result
            | some benchmark ↦ reported (
                conclude_with clock key_works floats other_upper encode numbers benchmark files t
                  status)
          ])
      by_result none = tt
      by_result (some benchmark) = conclude_with-Concludes benchmark files t status
  conclude-Concludes (files ∷ g ∷ gs) t status = (refl, refl, λ h. absurd (cc h))

  -- A publishable report is of a completed trial, whose game exited with code 0 and whose model had no
  -- errors; the bridge is closed and has no action left; and the results are verified.
  pub record Published (c : Cleanup Float) (r : TrialReport) : Type 0 where
    pub status : r.status ≡ completed
    pub exit : r.trial.game_exit ≡ some (pos 0)
    pub no_model_errors : r.trial.model_errors ≡ []
    pub closed : r.trial.bridge.closed ≡ true
    pub drained : r.trial.bridge.pending ≡ []
    pub verified : Verified c.results

  abbrev Ends : Cleanup Float → TrialEnd → Type 0
  Ends c (reported r) = Inv r.trial.bridge × (r.publishable ≡ true → Published c r)
  Ends c _ = Unit

  finish-Ends :
      (c : Cleanup Float) (error : Option TrialError) (t : Trial)
      → Inv t.bridge
      → Ends c (finish clock key_works floats other_upper encode numbers c error t)
  unfolding finish
  finish-Ends c error t v = by_end _ (
      conclude-Concludes c.results (record t { bridge = closing.1 })
        (status_closed c.exports (status_after error t) closing))
    where
      closing : Outcome (Unit {0}) × Bridge
      closing = close_bridge clock key_works floats other_upper encode numbers c t

      kept : Inv closing.1
      kept =
          close_bridge-keep clock key_works floats other_upper encode Inv
            (step-Inv clock key_works floats other_upper) c t v

      by_end :
          (e : TrialEnd)
          → Concludes c.results
              (record t { bridge = closing.1 })
              (status_closed c.exports (status_after error t) closing)
              e
          → Ends c e
      by_end unfinished k = tt
      by_end damaged_result k = tt
      by_end (reported r) (same, ended, k) = (
        rw same kept,
        λ h.
            let (finished, verified) = k h in
            let (after, shut) = closed_well c.exports (status_after error t) closing finished in
            let (exit, errors) = completed_after error t after in
            record {
              status = ended ∙ finished;
              exit = rw same exit;
              no_model_errors = rw same errors;
              closed = rw same shut;
              drained = rw same (kept.drained shut);
              verified = verified;
            },
      )

  run_trial-Ends :
      (lanes : ℕ) (rounds : List (Round floats.Float)) (c : Cleanup Float)
      → Ends c (run_trial clock key_works floats other_upper encode numbers lanes rounds c)
  unfolding run_trial begin
  run_trial-Ends lanes rounds c =
      by_loop (play_rounds clock key_works floats other_upper encode rounds (begin lanes)) (
        play_rounds-keep clock key_works floats other_upper encode Inv
          (step-Inv clock key_works floats other_upper) rounds (begin lanes) (init-Inv lanes))
    where
      by_loop :
          (e : LoopEnd)
          → Inv (ended_trial e).bridge
          → Ends c (elim e as (λ _. TrialEnd) [
            | exited t ↦ finish clock key_works floats other_upper encode numbers c none t
            | stopped e t ↦ finish clock key_works floats other_upper encode numbers c (some e) t
            | waits t ↦ unfinished
          ])
      by_loop (exited t) v = finish-Ends c none t v
      by_loop (stopped e t) v = finish-Ends c (some e) t v
      by_loop (waits t) v = tt

  -- A trial that is reported as publishable has the status completed: its game exited with the code 0
  -- and its model reported no error; its bridge is closed, with no action left in the queue; and the
  -- game left exactly one result, which the verifier passes, so that every input row and the integers
  -- of both summaries keep the scoring rules.
  pub run_trial-Published :
      (lanes : ℕ) (rounds : List (Round floats.Float)) (c : Cleanup Float) (r : TrialReport)
      → run_trial clock key_works floats other_upper encode numbers lanes rounds c ≡ reported r
      → r.publishable ≡ true
      → Published c r
  run_trial-Published lanes rounds c r e h = (subst (Ends c) e (run_trial-Ends lanes rounds c)).1 h
