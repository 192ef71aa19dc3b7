-- ===== src/Trial/Rounds.antt =====
-- The loop of `run_trial`, round by round.
pub mod Stops
use chers.Base.{
  ℕ, zero, suc, ◌+◌, Bool, true, false, ◌&&◌, ◌||◌, not, Option, none, some, List, [], ◌∷◌, ◌++◌,
  ltb, ℤ, if◌then◌else◌,
}
use chers.Bridge.State.{Bridge, BridgeError}
use chers.Bridge.Actions.{Floats}
use chers.Trial.{
  Content, tool_call, error_notice, token_usage, turn_ended, other_request, other_notice, Notice,
  Round, TurnStatus, turn_completed, turn_failed, turn_other, TrialError, bridge_failed_early,
  not_started_in_time, not_finished_in_time, lost_transport, unexpected_tool, model_turn_failed,
  unexpected_request, not_continued, Trial,
}
use chers.Trial.Calls.{Turned, goes_on, exits, raises, work, call_tool}

-- `bridge_error and (start_ns is None or now - start_ns < 61_040_000_000)`
abbrev pub too_early : Option ℕ → ℕ → Bool
too_early none now = true
too_early (some start) now = ltb now (start + 61_040_000_000)

abbrev pub has_failed : Option BridgeError → Bool
has_failed none = false
has_failed (some e) = true

-- The tests of the two deadlines: for START, and 66 seconds from it.
abbrev pub start_missed : Option ℕ → Bool → Bool
start_missed none ready_passed = ready_passed
start_missed (some start) ready_passed = false

abbrev pub finish_missed : Option ℕ → ℕ → Bool
finish_missed none now = false
finish_missed (some start) now = ltb (start + 66_000_000_000) now

-- `report["turns"][-1].update(status=status, ...)`
abbrev pub end_last : TurnStatus → List (Option TurnStatus) → List (Option TurnStatus)
end_last status [] = []
end_last status (t ∷ []) = some status ∷ []
end_last status (t ∷ u ∷ turns) = t ∷ end_last status (u ∷ turns)

-- The branch for `turn/completed`: a turn that has completed is followed by another while the game
-- runs.
unfoldable pub end_turn : Bool → Bool → TurnStatus → Trial → Turned
end_turn still_running continues turn_completed t =
    let ended = record t { turns = end_last turn_completed t.turns } in
    if not still_running
    then goes_on ended
    else if not continues
    then raises not_continued (record ended { continuation_prompts = suc t.continuation_prompts })
    else goes_on (record ended {
      continuation_prompts = suc t.continuation_prompts;
      turns = ended.turns ++ none ∷ [];
    })
end_turn still_running continues turn_failed t =
    raises model_turn_failed (record t { turns = end_last turn_failed t.turns })
end_turn still_running continues turn_other t =
    goes_on (record t { turns = end_last turn_other t.turns })

-- How the loop ends; `waits` is after rounds in which it has not.
pub data LoopEnd : Type 0 where
  exited waits : Trial → LoopEnd
  stopped : TrialError → Trial → LoopEnd

module _ (clock : ℕ → ℕ) (key_works : ℕ → ℕ → Bool) (floats : Floats) (other_upper : ℕ → List ℕ)
    (encode : List ℕ → List ℕ) where
  open floats use {Float}

  -- The branches on `method`.
  unfoldable pub handle : Round Float → ℕ → Content Float → Trial → Turned
  unfolding call_tool end_turn
  handle r received (tool_call id known args) t =
      if not known
      then raises unexpected_tool t
      else call_tool clock key_works floats other_upper encode r received id args t
  handle r received (error_notice e) t =
      goes_on (record t { model_errors = t.model_errors ++ e ∷ [] })
  handle r received token_usage t = goes_on t
  handle r received (turn_ended status) t = end_turn r.still_running r.continues status t
  handle r received other_request t = raises unexpected_request t
  handle r received other_notice t = goes_on t

  -- `server.receive` and the tests of the message.
  abbrev pub receive : Round Float → Option (Notice Float) → Trial → Turned
  receive r none t = goes_on t
  receive r (some n) t =
      if n.transport_ended
      then raises lost_transport t
      else if not n.own_thread
      then goes_on t
      else handle r n.received_ns n.content t

  abbrev pub check_and_receive : Round Float → Trial → Turned
  check_and_receive r t =
      if has_failed t.bridge.failure && too_early t.start_ns r.now
      then raises bridge_failed_early t
      else if start_missed t.start_ns r.ready_passed
      then raises not_started_in_time t
      else if finish_missed t.start_ns r.now
      then raises not_finished_in_time t
      else receive r r.notice t

  -- `game.poll()`
  abbrev pub after_poll : Round Float → Option ℤ → Trial → Turned
  after_poll r none t = check_and_receive r t
  after_poll r (some code) t = exits (record t { game_exit = some code })

  -- One round of the loop.
  unfoldable pub play_round : Round Float → Trial → Turned
  unfolding work handle
  play_round r t =
      after_poll r r.poll
        (record t { bridge = work clock key_works floats other_upper encode r.before t.bridge })

  unfoldable pub play_rounds : List (Round Float) → Trial → LoopEnd
  unfolding play_round
  play_rounds [] t = waits t
  play_rounds (r ∷ rs) t = elim (play_round r t) [
    | goes_on t' ↦ play_rounds rs t'
    | exits t' ↦ exited t'
    | raises e t' ↦ stopped e t'
  ]
