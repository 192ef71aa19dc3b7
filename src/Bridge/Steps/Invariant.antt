-- ===== src/Bridge/Steps/Invariant.antt =====
-- What holds of the bridge in every state that it reaches.
use chers.Base.{ℕ, ◌≡◌, ap, ◌∙◌, Bool, true, Option, none, List, [], ◌∷◌, arith}
use chers.Bridge.State.{Bridge, Outcome, done, raised, init}
use chers.Bridge.Actions.{Floats, ActionsValue, validate}
use chers.Bridge.Operations.{Counts, capture_once, submit, enqueue}
use chers.Bridge.Ledger.{LedgerOf, init-Ledger, proposal, ending, waiting}
use chers.Base.Predicates.{sum_by}
use chers.Bridge.Steps.Dispatching.{Bounded, Inv, handled-Inv, dispatch_due-Inv}
use chers.Bridge.Steps.{
  handled, Call, captures, dispatches, takes, stores, starts, submits, closes, step, run,
}
use chers.Bridge.Steps.Quiet.{Quiet-Inv, capture-Quiet, take-Quiet}
use chers.Bridge.Steps.Sections.{start-Inv, store-Inv, enqueue-Inv, close-Inv}

module _ (clock : ℕ → ℕ) (key_works : ℕ → ℕ → Bool) where
  captured-Inv :
      (v : Option (ℕ × ℕ × ℕ × List ℕ)) (b : Bridge)
      → Inv b
      → Inv (handled clock (capture_once clock v b))
  captured-Inv v b i =
      let q = capture-Quiet clock v b in
      let after = Quiet-Inv b _ q i in
      handled-Inv clock key_works (capture_once clock v b) after.bounded after.drained
        (λ h _ _. after.ledger h)

  validated-Inv :
      (id : List ℕ) (o : Outcome (List (ℕ × ℕ))) (b : Bridge)
      → Inv b
      → Inv
          (elim o as (λ _. Outcome Counts × Bridge) [
            | raised e ↦ (raised e, b)
            | done valid ↦ enqueue clock id valid b
          ]).1
  validated-Inv id (raised e) b v = v
  validated-Inv id (done as_) b v = enqueue-Inv clock key_works id as_ b v

  submit-Inv :
      (floats : Floats) (other_upper : ℕ → List ℕ) (id : List ℕ)
      (actions : ActionsValue floats.Float) (b : Bridge)
      → Inv b
      → Inv (submit floats other_upper clock id actions b).1
  unfolding submit
  submit-Inv floats other_upper id actions b v =
      validated-Inv id (validate floats other_upper b.lanes actions) b v

  pub step-Inv :
      (floats : Floats) (other_upper : ℕ → List ℕ) (c : Call (floats.Float)) (b : Bridge)
      → Inv b
      → Inv (step clock key_works floats other_upper c b)
  unfolding step
  step-Inv floats other_upper (captures value) b v = captured-Inv value b v
  step-Inv floats other_upper dispatches b v = dispatch_due-Inv clock key_works b v
  step-Inv floats other_upper takes b v = Quiet-Inv b _ (take-Quiet clock b) v
  step-Inv floats other_upper (stores receipt png) b v = store-Inv clock key_works receipt png b v
  step-Inv floats other_upper starts b v = start-Inv clock key_works b v
  step-Inv floats other_upper (submits id actions) b v =
      submit-Inv floats other_upper id actions b v
  step-Inv floats other_upper (closes w k) b v = close-Inv w k b v

  run-Inv :
      (floats : Floats) (other_upper : ℕ → List ℕ) (cs : List (Call (floats.Float))) (b : Bridge)
      → Inv b
      → Inv (run clock key_works floats other_upper cs b)
  unfolding run
  run-Inv floats other_upper [] b v = v
  run-Inv floats other_upper (c ∷ cs) b v =
      run-Inv floats other_upper cs (step clock key_works floats other_upper c b)
        (step-Inv floats other_upper c b v)

pub init-Inv : (lanes : ℕ) → Inv (init lanes)
unfolding init
init-Inv lanes = record {
  bounded = record {
    pending = omega arith;
    actions = omega arith;
    observations = omega arith;
    bytes = omega arith;
  };
  ledger = λ _. init-Ledger lanes;
  drained = λ h. absurd (cc);
}

module _ (clock : ℕ → ℕ) (key_works : ℕ → ℕ → Bool) (floats : Floats)
    (other_upper : ℕ → List ℕ) where
  open floats use {Float}

  reached :
      (cs : List (Call Float)) (lanes : ℕ)
      → Inv (run clock key_works floats other_upper cs (init lanes))
  reached cs lanes = run-Inv clock key_works floats other_upper cs (init lanes) (init-Inv lanes)

  -- Whatever order the threads and the callers take their steps in, from a bridge that was just
  -- made, the queue, the action numbers, the observations and their bytes keep within their
  -- capacities.
  pub run-Bounded :
      (cs : List (Call Float)) (lanes : ℕ)
      → Bounded (run clock key_works floats other_upper cs (init lanes))
  run-Bounded cs lanes = (reached cs lanes).bounded

  -- Whatever order the threads and the callers take their steps in, as long as the bridge has not
  -- failed: the actions with the numbers from 1 to the count have each been proposed exactly once,
  -- and no others; and each is exactly once either in the queue, or logged as sent, or logged as
  -- dropped.
  pub run-Ledger :
      (cs : List (Call Float)) (lanes : ℕ)
      → (run clock key_works floats other_upper cs (init lanes)).failure ≡ none
      → LedgerOf (run clock key_works floats other_upper cs (init lanes))
  run-Ledger cs lanes fine = (reached cs lanes).ledger fine

  -- Whatever order the threads and the callers take their steps in, when the bridge is closed and
  -- has not failed, no action waits in the queue, and every proposed action is logged as sent or
  -- dropped exactly once.
  pub run-closed :
      (cs : List (Call Float)) (lanes k : ℕ)
      → (run clock key_works floats other_upper cs (init lanes)).failure ≡ none
      → (run clock key_works floats other_upper cs (init lanes)).closed ≡ true
      → ((run clock key_works floats other_upper cs (init lanes)).pending ≡ [])
        × (sum_by (proposal k) (run clock key_works floats other_upper cs (init lanes)).events
            ≡ sum_by (ending k) (run clock key_works floats other_upper cs (init lanes)).events)
  run-closed cs lanes k fine shut =
      let v = reached cs lanes in
      let empty = v.drained shut in
      (empty, (v.ledger fine).accounted k ∙ omega (arith, ap (sum_by (waiting k)) empty))
