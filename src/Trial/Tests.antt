-- ===== src/Trial/Tests.antt =====
-- A trial in the middle of its game: a call with three taps, a call that overlaps it, and the game's
-- end; and a whole trial that may be published.
mod Whole
use chers.Base.{
  ℕ, ℤ, Option, zero, suc, ap, ◌==◌, ==_iff, ◌*◌, ◌≡◌, refl, Bool, true, false, none, some, List,
  [], ◌∷◌, pos, leb, length, map, arith,
}
use chers.Base.Decimal.{codes, decimal, decimal_fuel}
use chers.Bridge.Queue.{push}
use chers.Bridge.State.{Bridge, observation, init, check, identifier}
use chers.Bridge.Actions.{
  Floats, ActionsValue, action, list, float, upper, lane_index, delay_ns, validate_action,
  validate_all, validate,
}
use chers.Bridge.Actions as Actions
use chers.Bridge.Operations.{
  find_observation, capture_once, count_gap, fail, observe_take, observe_store, propose,
  propose_all, enqueue, submit,
}
use chers.Bridge.Dispatch.{start_game, close, drop_all}
use chers.Bridge.Steps.{step, run}
use chers.Verifier.Report.Sample.{billionths, files, files_pass}
use chers.Trial.{
  actions_object, given, tool_call, Round, decided, Trial, running, completed, captured, begin,
}
use chers.Trial.Calls.{
  Turned, goes_on, respond, then_store, work, observe, find_receipt, after_observe, attempt,
  call_tool,
}
use chers.Trial.Calls.Answers.{Answers, attempt-Answers}
use chers.Trial.Rounds.{handle, play_round, play_rounds}
use chers.Trial.Rounds.Stops.{HasEnded, play_rounds-HasEnded}
use chers.Trial.Bridged.{ended_trial, turned_trial}
use chers.Trial.Ending.{
  Cleanup, TrialReport, TrialEnd, reported, status_after, export, conclude_trial, finish, run_trial,
}
use chers.Trial.Ending.Published.{Published, run_trial-Published}
use chers.Trial.Tally.{TallyEnd}
use chers.Trial.Tally.Requests.{AnsweredEnd, play_rounds-TallyEnd}

abbrev clock : ℕ → ℕ
clock n = n * 1_000_000

abbrev keys : ℕ → ℕ → Bool
keys _ _ = true

abbrev no_upper : ℕ → List ℕ
no_upper c = c ∷ []

abbrev same : List ℕ → List ℕ
same pixels = pixels

abbrev nanoseconds : Floats
nanoseconds = record {
  Float = ℕ;
  is_finite = λ _. true;
  in_delay_range = λ x. leb x 1_000_000_000;
  nanoseconds = λ x. x;
  converts = λ _. true;
  nanoseconds-le = λ x h. ground arith;
}

abbrev two_taps : ActionsValue ℕ
two_taps = list (
    action (Actions.text (codes "a")) (float 50_000_000)
    ∷ action (Actions.text (codes "D")) (float 900_000_000)
    ∷ [])

abbrev playing_bridge : Bridge
playing_bridge = record (init 4) {
  latest = some (record { number = 2; receipt = 40_000_000; pixels = 1 ∷ 2 ∷ [] });
  last_returned_frame = 1;
  observations = record { receipt_ns = 20_000_000; png = 9 ∷ [] } ∷ [];
  png_bytes = 1;
  events = observation 1 20_000_000 21_000_000 ∷ [];
  started = true;
  frames = 2;
}

abbrev playing : Trial
playing = record (begin 4) {
  bridge = playing_bridge;
  status = running;
  start_ns = some 10_000_000;
  last_observation = some (record { number = 1; receipt_ns = 20_000_000; return_ns = 22_000_000 });
  decisions =
      record {
        received_ns = 9_000_000;
        reference = none;
        result = decided (record { accepted = 0; scheduled = 0; dropped_late = 0 }) 1;
      }
      ∷ [];
  responses = (7, true) ∷ [];
}

abbrev quiet : Round ℕ
quiet = record {
  poll = none;
  now = 50_000_000;
  ready_passed = false;
  notice = none;
  before = [];
  waiting = [];
  encoding = [];
  started_ns = 0;
  returned_ns = 45_000_000;
  responded_ns = 46_000_000;
  responds = true;
  still_running = true;
  continues = true;
}

abbrev calls : ℕ → ℕ → Round ℕ
calls id received = record quiet {
  notice = some (record {
    received_ns = received;
    transport_ended = false;
    own_thread = true;
    content = tool_call id true (given (actions_object two_taps));
  });
}

abbrev game : List (Round ℕ)
game = calls 8 30_000_000 ∷ calls 9 31_000_000 ∷ record quiet { poll = some (pos 0) } ∷ []

abbrev played : Trial
played = ended_trial (play_rounds clock keys nanoseconds no_upper same game playing)

-- The second call was received before the response to the first.
played_runs :
    (map (λ (r : ℕ × Bool). r.1) played.responses ≡ true ∷ true ∷ false ∷ [])
    × (played.bridge.next_action ≡ 2)
    × (length played.bridge.pending ≡ 2)
unfolding play_rounds play_round handle call_tool attempt observe work run observe_take
    observe_store find_receipt after_observe check init begin submit validate validate_all
    validate_action lane_index delay_ns upper enqueue find_observation propose_all propose push
    identifier decimal decimal_fuel
played_runs = (refl, refl, refl)

play_rounds-TallyEnd_example :
    let e = play_rounds clock keys nanoseconds no_upper same game playing in
    TallyEnd e × AnsweredEnd game playing e
unfolding begin init
play_rounds-TallyEnd_example =
    play_rounds-TallyEnd clock keys nanoseconds no_upper same game playing
      (record { actions = refl; answers = refl; early = tt })

attempt-Answers_example :
    let a =
      attempt clock keys nanoseconds no_upper same quiet 30_000_000
        (given (actions_object two_taps))
        playing in
    Answers 30_000_000 (given (actions_object two_taps)) playing a.verdict a.trial
attempt-Answers_example =
    attempt-Answers clock keys nanoseconds no_upper same quiet 30_000_000
      (given (actions_object two_taps)) playing

play_rounds-HasEnded_example : HasEnded (
    play_rounds clock keys nanoseconds no_upper same
      (calls 8 30_000_000 ∷ record quiet { now = 66_020_000_000; ready_passed = true } ∷ quiet ∷ [])
      playing)
unfolding begin
play_rounds-HasEnded_example =
    play_rounds-HasEnded clock keys nanoseconds no_upper same 10_000_000 (calls 8 30_000_000 ∷ [])
      (quiet ∷ []) (record quiet { now = 66_020_000_000; ready_passed = true }) playing
      (omega arith) (omega arith, tt) refl (omega arith)

abbrev cleanup : Cleanup ℕ
cleanup = record {
  before = [];
  workers_stop = true;
  keys_close = true;
  exports = true;
  results = files ∷ [];
}

abbrev ended_game : List (Round ℕ)
ended_game = calls 8 30_000_000 ∷ record quiet { poll = some (pos 0) } ∷ []

abbrev report_of : TrialEnd → TrialReport
report_of (reported r) = r
report_of _ = record {
  trial = playing;
  status = running;
  verification_passed = false;
  publishable = false;
}

abbrev report : TrialReport
report = report_of (run_trial clock keys nanoseconds no_upper same billionths 4 ended_game cleanup)

-- The first call is no empty one, and is refused; the game ends well.
ended_runs :
    (run_trial clock keys nanoseconds no_upper same billionths 4 ended_game cleanup
      ≡ reported report)
    × (report.publishable ≡ true)
    × (report.trial.bridge.failure ≡ none)
    × (report.trial.bridge.closed ≡ true)
unfolding run_trial play_rounds play_round handle call_tool attempt work run begin init finish
    status_after export conclude_trial close drop_all
ended_runs = (refl, rw files_pass.1 refl, refl, refl)

run_trial-Published_example :
    Published clock keys nanoseconds no_upper same billionths cleanup report
run_trial-Published_example =
    run_trial-Published clock keys nanoseconds no_upper same billionths 4 ended_game cleanup report
      ended_runs.0 ended_runs.1
