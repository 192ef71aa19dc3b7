-- ===== src/Trial.antt =====
-- `run_trial` of tools/run_codex_evaluations.py, from the first turn on: the loop that answers the
-- model's tool calls with the bridge, and the report. The bridge is that of Bridge/State.antt; what
-- its threads do in between, the game, the clock readings and the messages are given round by round.
pub mod Calls
pub mod Rounds
pub mod Ending
pub mod Bridged
pub mod Tally
mod Tests
use chers.Base.{ℕ, suc, Bool, true, false, Option, none, some, List, [], ◌∷◌, String, ℤ, map}
use chers.Bridge.State.{
  Bridge, BridgeError, bad_actions, bad_action, bad_lane, bad_delay, lane_type, unknown_observation,
  init,
}
use chers.Bridge.Actions.{ActionsValue, list}
use chers.Bridge.Operations.{Counts}
use chers.Bridge.Steps.{Call, captures, dispatches}

-- A round of one of the bridge's threads.
pub data Work : Type 0 where
  captured : Option (ℕ × ℕ × ℕ × List ℕ) → Work
  dispatched : Work

abbrev pub as_call : {F : Type 0} → Work → Call F
as_call (captured frame) = captures frame
as_call dispatched = dispatches

-- The arguments of a tool call as JSON: an object whose only key is `actions`, with its value,
-- another object, or another value.
pub data Json (F : Type 0) : Type 0 where
  not_object other_object : Json F
  actions_object : ActionsValue F → Json F

-- `params["arguments"]`: a text, with what `json.loads` gives for it, or a value.
pub data Arguments (F : Type 0) : Type 0 where
  text : Option (Json F) → Arguments F
  given : Json F → Arguments F

pub data TurnStatus : Type 0 where
  turn_completed turn_failed turn_other : TurnStatus

-- The messages by their `method`; the others with and without an `id`.
pub data Content (F : Type 0) : Type 0 where
  tool_call : ℕ → Bool → Arguments F → Content F
  error_notice : String → Content F
  token_usage : Content F
  turn_ended : TurnStatus → Content F
  other_request other_notice : Content F

-- A message: when it was received, whether the transport ended, whether `threadId` is the trial's.
pub record Notice (F : Type 0) : Type 0 where
  pub received_ns : ℕ
  pub transport_ended : Bool
  pub own_thread : Bool
  pub content : Content F

-- What a round of the loop meets: the exit code of a game that has ended; the clock, and whether the
-- deadline for START has passed; a message, if one is received; the threads' work before the round,
-- before the observation is taken and before it is stored; the times of START, of the observation and
-- of the response; and whether the response, and the next turn, reach the server.
pub record Round (F : Type 0) : Type 0 where
  pub poll : Option ℤ
  pub now : ℕ
  pub ready_passed : Bool
  pub notice : Option (Notice F)
  pub before : List Work
  pub waiting : List Work
  pub encoding : List Work
  pub started_ns : ℕ
  pub returned_ns : ℕ
  pub responded_ns : ℕ
  pub responds : Bool
  pub still_running : Bool
  pub continues : Bool

-- The texts of the `ValueError`s that a tool call ends with, and the errors of the bridge.
pub data Refusal : Type 0 where
  not_json not_json_object overlapping not_exactly_actions first_not_empty no_observation : Refusal
  rejected : BridgeError → Refusal

-- What ends the trial.
pub data TrialError : Type 0 where
  bridge_failed_early not_started_in_time not_finished_in_time lost_transport : TrialError
  unexpected_tool model_turn_failed unexpected_request : TrialError
  not_responded not_continued no_observation_event : TrialError
  bridge_raised : BridgeError → TrialError

-- `last_observation`; the identifier is that of the number.
pub record Seen : Type 0 where
  pub number : ℕ
  pub receipt_ns : ℕ
  pub return_ns : ℕ

pub data CallAnswer : Type 0 where
  decided : Counts → ℕ → CallAnswer
  invalid_arguments : Refusal → CallAnswer

-- An entry of `model_decisions`: the observation before it, with the nanoseconds since its receipt.
pub record Decision : Type 0 where
  pub received_ns : ℕ
  pub reference : Option (ℕ × ℤ)
  pub result : CallAnswer

pub data Status : Type 0 where
  setup waiting_for_start running completed failed : Status

-- The variables of the loop, and the entries of the report. `responses` are the identifiers of the
-- requests that were answered, with whether they succeeded.
pub record Trial : Type 0 where
  pub bridge : Bridge
  pub status : Status
  pub start_ns : Option ℕ
  pub last_observation : Option Seen
  pub decisions : List Decision
  pub responses : List (ℕ × Bool)
  pub model_errors : List String
  pub turns : List (Option TurnStatus)
  pub continuation_prompts : ℕ
  pub game_exit : Option ℤ

-- The trial when the loop begins: its first turn has started.
unfoldable pub begin : ℕ → Trial
begin lanes = record {
  bridge = init lanes;
  status = waiting_for_start;
  start_ns = none;
  last_observation = none;
  decisions = [];
  responses = [];
  model_errors = [];
  turns = none ∷ [];
  continuation_prompts = 0;
  game_exit = none;
}

-- `ValueError` and `TypeError` of the bridge are answered; the others end the trial.
abbrev pub is_argument_error : BridgeError → Bool
is_argument_error bad_actions = true
is_argument_error bad_action = true
is_argument_error bad_lane = true
is_argument_error bad_delay = true
is_argument_error lane_type = true
is_argument_error unknown_observation = true
is_argument_error _ = false

-- `json.loads`, for a text.
abbrev pub load_arguments : {F : Type 0} → Arguments F → Option (Json F)
load_arguments (text value) = value
load_arguments (given value) = some value

-- `args == {"actions": []}`
abbrev pub is_no_actions : {F : Type 0} → ActionsValue F → Bool
is_no_actions (list []) = true
is_no_actions _ = false
