-- ===== src/Bridge/Timely/Reached.antt =====
-- The presses in every state that the bridge reaches.
use chers.Base.{ℕ, suc, ◌≤◌, sym, subst, Bool, List, [], ◌∷◌}
use chers.Base.Predicates.{All}
use chers.Bridge.State.{Bridge, Outcome, done, raised, init, check}
use chers.Bridge.Actions.{Floats, validate}
use chers.Bridge.Operations.{Counts, capture_once, enqueue, submit}
use chers.Bridge.Dispatch.{dispatch, dispatch_due}
use chers.Bridge.Steps.{
  Call, captures, dispatches, takes, stores, starts, submits, closes, step, run,
}
use chers.Bridge.Steps.Dispatching.{guarded}
use chers.Bridge.Steps.Quiet.{After, Quiet, capture-Quiet, take-Quiet}
use chers.Bridge.Timely.{Timing, TimingOf, Timely}
use chers.Bridge.Timely.Sending.{
  handled-Timing, store-Timing, enqueue-Timing, start-Timing, dispatch-Timing, close-Timing,
}

Quiet-Timing : (b b' : Bridge) → Quiet b b' → TimingOf b → TimingOf b'
Quiet-Timing b b' q t =
    subst (λ e. Timing e b'.pending) (sym q.events) (subst (Timing b.events) (sym q.pending) t)

module _ (clock : ℕ → ℕ) (key_works : ℕ → ℕ → Bool) (floats : Floats)
    (other_upper : ℕ → List ℕ) where
  open floats use {Float}

  submitted-Timing :
      (id : List ℕ) (o : Outcome (List (ℕ × ℕ))) (b : Bridge)
      → TimingOf b
      → TimingOf
          (elim o as (λ _. Outcome Counts × Bridge) [
            | raised e ↦ (raised e, b)
            | done valid ↦ enqueue clock id valid b
          ]).1
  submitted-Timing id (raised e) b t = t
  submitted-Timing id (done as_) b t = enqueue-Timing clock id as_ b t

  dispatch_due-Timing :
      (b : Bridge)
      → ((n : ℕ) → clock n ≤ clock (suc n))
      → TimingOf b
      → TimingOf (dispatch_due clock key_works b).1
  unfolding dispatch_due
  dispatch_due-Timing b mono t =
      guarded (After TimingOf) (check b) b (dispatch clock key_works b.pending b) (λ e. t)
        (λ fine. dispatch-Timing clock key_works b.pending b mono t)

  step-Timing :
      (c : Call Float) (b : Bridge)
      → ((n : ℕ) → clock n ≤ clock (suc n))
      → TimingOf b
      → TimingOf (step clock key_works floats other_upper c b)
  unfolding step submit
  step-Timing (captures v) b mono t =
      handled-Timing clock (capture_once clock v b) (Quiet-Timing b _ (capture-Quiet clock v b) t)
  step-Timing dispatches b mono t =
      handled-Timing clock (dispatch_due clock key_works b) (dispatch_due-Timing b mono t)
  step-Timing takes b mono t = Quiet-Timing b _ (take-Quiet clock b) t
  step-Timing (stores receipt png) b mono t = store-Timing clock receipt png b t
  step-Timing starts b mono t = start-Timing clock key_works b t
  step-Timing (submits id actions) b mono t =
      submitted-Timing id (validate floats other_upper b.lanes actions) b t
  step-Timing (closes w k) b mono t = close-Timing w k b t

  run_from-Timing :
      (cs : List (Call Float)) (b : Bridge)
      → ((n : ℕ) → clock n ≤ clock (suc n))
      → TimingOf b
      → TimingOf (run clock key_works floats other_upper cs b)
  unfolding run
  run_from-Timing [] b mono t = t
  run_from-Timing (c ∷ cs) b mono t =
      run_from-Timing cs (step clock key_works floats other_upper c b) mono (step-Timing c b mono t)

  init-Timing : (lanes : ℕ) → TimingOf (init lanes)
  unfolding init
  init-Timing lanes = record { sent = tt; queued = tt }

  -- With a clock that never goes backwards, whatever order the threads and the callers take their
  -- steps in, from a bridge that was just made: each press in the log is that of an action that the
  -- log holds as proposed, in the proposed lane; the key was pressed at the proposed due time or
  -- later, and at most 20 ms later; and the lateness that is logged is the time between the two.
  pub run-Timely :
      (cs : List (Call Float)) (lanes : ℕ)
      → ((n : ℕ) → clock n ≤ clock (suc n))
      → let b = run clock key_works floats other_upper cs (init lanes) in
        All (Timely b.events) b.events
  run-Timely cs lanes mono = (run_from-Timing cs (init lanes) mono (init-Timing lanes)).sent
