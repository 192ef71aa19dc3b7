-- ===== src/Trial/Calls.antt =====
-- A call of the tool `chers_step` in `run_trial`: the checks of its arguments, what it has the bridge
-- do, and the response.
pub mod Answers
use chers.Base.{
  ℕ, suc, Bool, true, false, not, Option, none, some, List, [], ◌∷◌, ◌++◌, ℤ, sub_ℕ, map, ltb, ◌==◌,
  if◌then◌else◌,
}
use chers.Bridge.State.{
  Bridge, BridgeError, Frame, Event, observation, Outcome, done, raised, identifier,
}
use chers.Bridge.Actions.{Floats, ActionsValue}
use chers.Bridge.Operations.{Counts, observe_take, observe_store, submit}
use chers.Bridge.Dispatch.{start_game}
use chers.Bridge.Steps.{Call, run}
use chers.Trial.{
  Work, as_call, Json, not_object, other_object, actions_object, Arguments, Round, Refusal,
  not_json, not_json_object, overlapping, not_exactly_actions, first_not_empty, no_observation,
  rejected, TrialError, not_responded, no_observation_event, bridge_raised, Seen, CallAnswer,
  decided, invalid_arguments, Decision, Trial, running, is_argument_error, load_arguments,
  is_no_actions,
}

-- How the inner `try` ends: with a result, or with an exception that it does not catch.
pub data Verdict : Type 0 where
  result : CallAnswer → Verdict
  escaped : TrialError → Verdict

abbrev pub bridge_raise : BridgeError → Verdict
bridge_raise e =
    if is_argument_error e
    then result (invalid_arguments (rejected e))
    else escaped (bridge_raised e)

pub record CallAttempt : Type 0 where
  pub verdict : Verdict
  pub reference : Option (ℕ × ℤ)
  pub trial : Trial

-- `next(...)` on the reversed events: the receipt of the last observation with a number.
abbrev pub or_later : Option ℕ → Option ℕ → Option ℕ
or_later (some n) here = some n
or_later none here = here

unfoldable pub find_receipt : ℕ → List Event → Option ℕ
find_receipt number [] = none
find_receipt number (observation n receipt returned ∷ es) =
    or_later (find_receipt number es) (if n == number then some receipt else none)
find_receipt number (_ ∷ es) = find_receipt number es

-- `received_ns < last_observation["return_ns"]`
abbrev pub overlaps : ℕ → Option Seen → Bool
overlaps received none = false
overlaps received (some o) = ltb received o.return_ns

abbrev pub reference_of : ℕ → Option Seen → Option (ℕ × ℤ)
reference_of received none = none
reference_of received (some o) = some (o.number, sub_ℕ received o.receipt_ns)

-- A round that goes on, that leaves the loop, and one that raises.
pub data Turned : Type 0 where
  goes_on exits : Trial → Turned
  raises : TrialError → Trial → Turned

abbrev pub is_decided : CallAnswer → Bool
is_decided (decided _ _) = true
is_decided (invalid_arguments _) = false

-- `last_observation["return_ns"] = ...`, if an observation was returned.
abbrev pub touch : ℕ → CallAnswer → Option Seen → Option Seen
touch responded (decided _ _) (some o) = some (record o { return_ns = responded })
touch responded _ seen = seen

module _ (clock : ℕ → ℕ) (key_works : ℕ → ℕ → Bool) (floats : Floats) (other_upper : ℕ → List ℕ)
    (encode : List ℕ → List ℕ) where
  open floats use {Float}

  -- What the threads of the bridge do.
  unfoldable pub work : List Work → Bridge → Bridge
  work ws b = run clock key_works floats other_upper (map as_call ws) b

  abbrev pub then_store : Round Float → Outcome Frame × Bridge → Outcome ℕ × Bridge
  then_store r (raised e, b) = (raised e, b)
  then_store r (done f, b) = observe_store clock f.receipt (encode f.pixels) (work r.encoding b)

  -- `observe`, between the threads' work.
  unfoldable pub observe : Round Float → Bridge → Outcome ℕ × Bridge
  unfolding work
  observe r b = then_store r (observe_take clock (work r.waiting b))

  abbrev pub record_seen :
      Round Float → Counts → Option (ℕ × ℤ) → ℕ → Trial → Option ℕ → CallAttempt
  record_seen r counts reference number t none = record {
    verdict = escaped no_observation_event;
    reference = reference;
    trial = t;
  }
  record_seen r counts reference number t (some receipt) = record {
    verdict = result (decided counts number);
    reference = reference;
    trial = record t {
      last_observation =
          some (record { number = number; receipt_ns = receipt; return_ns = r.returned_ns });
    };
  }

  -- What follows `bridge.observe()`.
  unfoldable pub after_observe :
      Round Float → Counts → Option (ℕ × ℤ) → Trial → Outcome ℕ × Bridge → CallAttempt
  unfolding find_receipt
  after_observe r counts reference t (raised e, b) = record {
    verdict = bridge_raise e;
    reference = reference;
    trial = record t { bridge = b };
  }
  after_observe r counts reference t (done number, b) =
      record_seen r counts reference number (record t { bridge = b }) (find_receipt number b.events)

  -- The first call: `bridge.start()` and what follows.
  abbrev pub after_start :
      Round Float → Option (ℕ × ℤ) → Trial → Outcome (Unit {0}) × Bridge → CallAttempt
  after_start r reference t (raised e, b) = record {
    verdict = bridge_raise e;
    reference = reference;
    trial = record t { bridge = b };
  }
  after_start r reference t (done _, b) =
      after_observe r (record { accepted = 0; scheduled = 0; dropped_late = 0 }) reference
        (record t { bridge = b; start_ns = some r.started_ns; status = running }) (observe r b)

  abbrev pub after_submit :
      Round Float → Option (ℕ × ℤ) → Trial → Outcome Counts × Bridge → CallAttempt
  after_submit r reference t (raised e, b) = record {
    verdict = bridge_raise e;
    reference = reference;
    trial = record t { bridge = b };
  }
  after_submit r reference t (done counts, b) =
      after_observe r counts reference (record t { bridge = b }) (observe r b)

  abbrev pub reject : Refusal → Option (ℕ × ℤ) → Trial → CallAttempt
  reject reason reference t = record {
    verdict = result (invalid_arguments reason);
    reference = reference;
    trial = t;
  }

  -- A call that gives actions for the last observation. With none, `None[...]` is a `TypeError`.
  abbrev pub submit_for :
      Round Float → Option (ℕ × ℤ) → ActionsValue Float → Option Seen → Trial → CallAttempt
  submit_for r reference actions none t = reject no_observation reference t
  submit_for r reference actions (some o) t =
      after_submit r reference t
        (submit floats other_upper clock (identifier o.number) actions t.bridge)

  abbrev pub use_actions :
      Round Float → Option (ℕ × ℤ) → ActionsValue Float → Option ℕ → Trial → CallAttempt
  use_actions r reference actions none t =
      if not (is_no_actions actions)
      then reject first_not_empty reference t
      else after_start r reference t (start_game clock key_works t.bridge)
  use_actions r reference actions (some _) t = submit_for r reference actions t.last_observation t

  abbrev pub use_object : Round Float → Option (ℕ × ℤ) → Json Float → Trial → CallAttempt
  use_object r reference (actions_object actions) t = use_actions r reference actions t.start_ns t
  use_object r reference _ t = reject not_exactly_actions reference t

  abbrev pub use_json : Round Float → ℕ → Option (Json Float) → Trial → CallAttempt
  use_json r received none t = reject not_json none t
  use_json r received (some not_object) t = reject not_json_object none t
  use_json r received (some object) t =
      if overlaps received t.last_observation
      then reject overlapping none t
      else use_object r (reference_of received t.last_observation) object t

  -- The inner `try` of a tool call that was received at a time.
  unfoldable pub attempt : Round Float → ℕ → Arguments Float → Trial → CallAttempt
  unfolding observe after_observe
  attempt r received args t = use_json r received (load_arguments args) t

  -- The response to the request, and the entry of the decisions.
  abbrev pub respond : Round Float → ℕ → ℕ → CallAttempt → Verdict → Turned
  respond r received id a (escaped e) = raises e a.trial
  respond r received id a (result given) =
      if not r.responds
      then raises not_responded a.trial
      else goes_on (record (a.trial) {
        last_observation = touch r.responded_ns given a.trial.last_observation;
        decisions =
            a.trial.decisions
            ++ record { received_ns = received; reference = a.reference; result = given } ∷ [];
        responses = a.trial.responses ++ (id, is_decided given) ∷ [];
      })

  -- The branch of the loop for `item/tool/call`.
  unfoldable pub call_tool : Round Float → ℕ → ℕ → Arguments Float → Trial → Turned
  unfolding attempt
  call_tool r received id args t =
      let a = attempt r received args t in respond r received id a a.verdict
