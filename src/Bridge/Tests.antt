-- ===== src/Bridge/Tests.antt =====
-- Runs of the bridge: a workload of four lanes, a clock that advances by a millisecond at each
-- reading, and a keyboard that works.
use chers.Base.{
  ℕ, ◌*◌, ◌≤◌, ◌≡◌, refl, Bool, true, none, List, [], ◌∷◌, pos, leb, length, arith, map,
}
use chers.Base.Decimal.{codes, decimal, decimal_fuel}
use chers.Base.Predicates.{All, count, sum_by}
use chers.Bridge.Queue.{push}
use chers.Bridge.State.{
  Bridge, Event, action_proposed, action_dropped, action_sent, done, init, check, identifier,
  max_actions,
}
use chers.Bridge.Actions.{
  Floats, ActionsValue, LaneValue, DelayValue, action, list, text, float, upper, lane_index,
  delay_ns, validate_action, validate_all, validate,
}
use chers.Bridge.Actions.Bounds.{InRange, validate-InRange}
use chers.Bridge.Operations.{find_observation, observe_store, propose, propose_all, enqueue, submit}
use chers.Bridge.Operations.Observations.{Stored, observe_store-Stored}
use chers.Bridge.Operations.Submits.{Submitted, submit-Submitted}
use chers.Bridge.Dispatch.{start_game, send, dispatch, dispatch_due, drop_all, close}
use chers.Bridge.Ledger.{LedgerOf, proposal, ending}
use chers.Bridge.Steps.{Call, stores, starts, submits, dispatches, closes, step, run}
use chers.Bridge.Steps.Dispatching.{Bounded}
use chers.Bridge.Timely.{Timely}
use chers.Bridge.Timely.Reached.{run-Timely}
use chers.Bridge.Snapshot.{dropped_type, event_type, same_type, count_of, snapshot, snapshot-counts}
use chers.Bridge.Steps.Invariant.{run-Bounded, run-Ledger, run-closed}

abbrev clock : ℕ → ℕ
clock n = n * 1_000_000

abbrev keys : ℕ → ℕ → Bool
keys _ _ = true

abbrev no_upper : ℕ → List ℕ
no_upper c = c ∷ []

-- Delays in whole nanoseconds stand in for the floats.
abbrev whole_floats : Floats
whole_floats = record {
  Float = ℕ;
  is_finite = λ _. true;
  in_delay_range = λ x. leb x 1_000_000_000;
  nanoseconds = λ x. x;
  converts = λ _. true;
  nanoseconds-le = λ x h. ground arith;
}

abbrev three_taps : ActionsValue ℕ
three_taps = list (
    action (text (codes "a")) (float 5_000_000)
    ∷ action (LaneValue.whole (pos 3)) (DelayValue.whole (pos 900))
    ∷ action (text (codes "D")) (float 0)
    ∷ [])

abbrev opening : List (Call ℕ)
opening = stores 0 (1 ∷ 2 ∷ 3 ∷ []) ∷ starts ∷ submits (codes "obs-000001") three_taps ∷ []

abbrev played : List (Call ℕ)
played =
    stores 0 (1 ∷ 2 ∷ 3 ∷ [])
    ∷ starts
    ∷ submits (codes "obs-000001") three_taps
    ∷ dispatches
    ∷ closes true true
    ∷ []

-- The action that an event is about.
abbrev event_id : Event → ℕ
event_id (action_proposed id _ _ _ _ _) = id
event_id (action_dropped id _) = id
event_id (action_sent id _ _ _ _) = id
event_id _ = 0

-- The states that the runs reach; the second one is closed.
abbrev opened : Bridge
opened = run clock keys whole_floats no_upper opening (init 4)

abbrev finished : Bridge
finished = run clock keys whole_floats no_upper played (init 4)

taps_validate :
    validate whole_floats no_upper 4 three_taps
    ≡ done ((0, 5_000_000) ∷ (3, 900_000_000) ∷ (3, 0) ∷ [])
unfolding validate validate_all validate_action lane_index delay_ns upper
taps_validate = refl

opening_runs : (length opened.pending ≡ 3) × (opened.failure ≡ none)
unfolding run step init identifier decimal decimal_fuel find_observation observe_store start_game
    submit enqueue propose_all propose push check validate validate_all validate_action lane_index
    delay_ns upper
opening_runs = (refl, refl)

-- Two taps are sent in time, and the third, with a delay of 900 ms, is dropped at the close.
played_runs :
    (finished.failure ≡ none)
    × (finished.closed ≡ true)
    × (map event_id finished.events ≡ 0 ∷ 0 ∷ 1 ∷ 2 ∷ 3 ∷ 3 ∷ 1 ∷ 2 ∷ [])
unfolding run step init identifier decimal decimal_fuel find_observation observe_store start_game
    submit enqueue propose_all propose push check validate validate_all validate_action lane_index
    delay_ns upper dispatch_due dispatch send close drop_all
played_runs = (refl, refl, refl)

run-Bounded_example : Bounded opened
run-Bounded_example = run-Bounded clock keys whole_floats no_upper opening 4

run-Ledger_example : LedgerOf opened
run-Ledger_example = run-Ledger clock keys whole_floats no_upper opening 4 opening_runs.1

run-closed_example :
    (finished.pending ≡ [])
    × (sum_by (proposal 2) finished.events ≡ sum_by (ending 2) finished.events)
run-closed_example =
    run-closed clock keys whole_floats no_upper played 4 2 played_runs.0 played_runs.1

validate-InRange_example :
    All (InRange 4) ((0, 5_000_000) ∷ (3, 900_000_000) ∷ (3, 0) ∷ []) × (3 ≤ max_actions)
validate-InRange_example =
    validate-InRange whole_floats no_upper 4 three_taps
      ((0, 5_000_000) ∷ (3, 900_000_000) ∷ (3, 0) ∷ []) taps_validate

submit-Submitted_example :
    Submitted 3 opened (submit whole_floats no_upper clock (codes "obs-000001") three_taps opened)
submit-Submitted_example =
    submit-Submitted whole_floats no_upper clock (codes "obs-000001") three_taps opened

observe_store-Stored_example :
    Stored 7 (1 ∷ 2 ∷ []) opened (observe_store clock 7 (1 ∷ 2 ∷ []) opened)
observe_store-Stored_example = observe_store-Stored clock 7 (1 ∷ 2 ∷ []) opened

run-Timely_example : All (Timely finished.events) finished.events
run-Timely_example = run-Timely clock keys whole_floats no_upper played 4 (λ n. ground arith)

snapshot-counts_example :
    count_of dropped_type (snapshot finished).counts
    ≡ count (λ e. same_type (event_type e) dropped_type) finished.events
snapshot-counts_example = snapshot-counts finished dropped_type
