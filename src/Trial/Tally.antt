-- ===== src/Trial/Tally.antt =====
-- What the decisions and the responses of a trial account for.
pub mod Actions
pub mod Attempts
pub mod Loop
pub mod Requests
use chers.Base.{
  ℕ, suc, ◌+◌, ◌≤◌, ◌≡◌, refl, ap, ◌∙◌, sym, subst, Bool, true, false, ◌&&◌, not, Option, none,
  some, List, [], ◌∷◌, ◌++◌, ℤ, map, arith, branch, inl, inr, Bool-cases,
}
use chers.Base.Predicates.{sum_by, sum_by-snoc}
use chers.Bridge.State.{max_actions, Bridge, BridgeError, Outcome, done, raised, identifier, init}
use chers.Bridge.Actions.{Floats, ActionsValue}
use chers.Bridge.Actions.Bounds.{handed_in}
use chers.Bridge.Operations.{Counts, submit}
use chers.Bridge.Operations.Submits.{Submitted, submit-Submitted}
use chers.Bridge.Dispatch.{start_game}
use chers.Trial.{
  Json, not_object, other_object, actions_object, Arguments, Round, Notice, Content, tool_call,
  error_notice, token_usage, turn_ended, other_request, other_notice, TurnStatus, turn_completed,
  turn_failed, turn_other, TrialError, Refusal, Seen, CallAnswer, decided, invalid_arguments,
  Decision, Trial, begin, is_argument_error, load_arguments, is_no_actions,
}
use chers.Trial.Calls.{
  Verdict, result, escaped, CallAttempt, bridge_raise, overlaps, reference_of, find_receipt,
  record_seen, Turned, goes_on, exits, raises, is_decided, work, observe, after_observe,
  after_start, after_submit, reject, submit_for, use_actions, use_object, use_json, attempt,
  respond, call_tool,
}
use chers.Trial.Rounds.{
  too_early, has_failed, start_missed, finish_missed, end_last, end_turn, LoopEnd, exited, waits,
  stopped, handle, receive, check_and_receive, after_poll, play_round, play_rounds,
}
use chers.Trial.Bridged.{by_turned}
use chers.Trial.Tally.Actions.{Graver, start-next_action, work-next_action, observe-Graver}

abbrev pub accepted : CallAnswer → ℕ
accepted (decided counts number) = counts.accepted
accepted (invalid_arguments reason) = 0

-- No action has a number before START.
abbrev pub Early : Option ℕ → ℕ → Type 0
Early none n = n ≡ 0
Early (some start) n = Unit

abbrev pub outcomes : List Decision → List Bool
outcomes ds = map (λ (d : Decision). is_decided d.result) ds

-- The decisions account for the actions with a number, as `Count` says, and each has had its response.
pub record TallyBy (Count : ℕ → ℕ → Type 0) (t : Trial) : Type 0 where
  pub actions :
      Count t.bridge.next_action (sum_by (λ (d : Decision). accepted d.result) t.decisions)
  pub answers : map (λ (r : ℕ × Bool). r.1) t.responses ≡ outcomes t.decisions
  pub early : Early t.start_ns t.bridge.next_action

abbrev pub Tally : Trial → Type 0
Tally t = TallyBy (λ m n. m ≡ n) t

-- When a round raises, the actions of one call without a response may be left over: at most as many as
-- a call may have.
abbrev pub Leftover : Trial → Type 0
Leftover t = TallyBy (λ m n. (n ≤ m) × (m ≤ n + max_actions)) t

abbrev pub TallyEnd : LoopEnd → Type 0
TallyEnd (exited t) = Tally t
TallyEnd (waits t) = Tally t
TallyEnd (stopped e t) = Leftover t

pub Tally-Leftover : (t : Trial) → Tally t → Leftover t
Tally-Leftover t v = record {
  actions = (omega (arith, v.actions), omega (arith, v.actions));
  answers = v.answers;
  early = v.early;
}

pub begin-Tally : (lanes : ℕ) → Tally (begin lanes)
unfolding begin init
begin-Tally lanes = record { actions = refl; answers = refl; early = refl }
