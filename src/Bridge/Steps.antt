-- ===== src/Bridge/Steps.antt =====
-- The bridge under any interleaving of its threads and callers: each call, or each section of a call
-- under the lock, is one step. What a thread raises goes to `_fail`.
pub mod Dispatching
pub mod Quiet
pub mod Sections
pub mod Invariant
use chers.Base.{ℕ, Bool, List, [], ◌∷◌, Option}
use chers.Bridge.State.{Bridge, BridgeError, Outcome, done, raised}
use chers.Bridge.Actions.{Floats, ActionsValue}
use chers.Bridge.Operations.{fail, capture_once, observe_take, observe_store, submit}
use chers.Bridge.Dispatch.{start_game, dispatch_due, close}

-- `_capture_loop` and `_schedule_loop` hand what their round raises to `_fail`.
abbrev pub handled {ℓ} : {A : Type ℓ} → (ℕ → ℕ) → Outcome A × Bridge → Bridge
handled clock (done _, b) = b
handled clock (raised e, b) = fail clock e b

-- The steps: a round of a thread, and the sections of the methods.
pub data Call (F : Type 0) : Type 0 where
  captures : Option (ℕ × ℕ × ℕ × List ℕ) → Call F
  dispatches : Call F
  takes : Call F
  stores : ℕ → List ℕ → Call F
  starts : Call F
  submits : List ℕ → ActionsValue F → Call F
  closes : Bool → Bool → Call F

module _ (clock : ℕ → ℕ) (key_works : ℕ → ℕ → Bool) (floats : Floats)
    (other_upper : ℕ → List ℕ) where
  open floats use {Float}

  unfoldable pub step : Call Float → Bridge → Bridge
  step (captures v) b = handled clock (capture_once clock v b)
  step dispatches b = handled clock (dispatch_due clock key_works b)
  step takes b = (observe_take clock b).1
  step (stores receipt png) b = (observe_store clock receipt png b).1
  step starts b = (start_game clock key_works b).1
  step (submits id actions) b = (submit floats other_upper clock id actions b).1
  step (closes workers_stop keys_close) b = (close workers_stop keys_close b).1

  unfoldable pub run : List (Call Float) → Bridge → Bridge
  run [] b = b
  run (c ∷ cs) b = run cs (step c b)
