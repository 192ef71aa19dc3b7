-- ===== src/Trial/Tests/Whole.antt =====
-- A whole trial in which two taps are accepted, round by round.
use chers.Base.{ℕ, ℤ, Option, zero, suc, ◌*◌, true, false, none, some, List, [], ◌∷◌, ◌++◌, pos}
use chers.Bridge.State.{Bridge, observation, start, action_proposed, Outcome, init, identifier}
use chers.Bridge.Actions.{ActionsValue, list}
use chers.Bridge.Operations.{Counts, published, now, tick, count_gap, observe_take}
use chers.Bridge.Dispatch.{start_game}
use chers.Bridge.Steps.{handled}
use chers.Verifier.Report.Sample.{billionths}
use chers.Trial.{decided, actions_object, given, tool_call, Round, Trial, running, captured, begin}
use chers.Trial.Calls.{
  after_submit, Turned, goes_on, exits, raises, respond, then_store, after_observe,
}
use chers.Trial.Rounds.{LoopEnd, stopped, play_rounds, exited}
use chers.Trial.Ending.{TrialReport, finish}
use chers.Trial.Tests.{clock, keys, no_upper, nanoseconds, two_taps, quiet, report_of, cleanup}

-- A whole trial: START, with a first frame, then two taps on it, and a second frame. The pixels are
-- never looked at.
zeros : ℕ → List ℕ
zeros zero = []
zeros (suc n) = 0 ∷ zeros n

abbrev frame_pixels : List ℕ
frame_pixels = zeros (640 * 360 * 4)

abbrev one_byte : List ℕ → List ℕ
one_byte pixels = 1 ∷ []

abbrev with_frame : ℕ → ActionsValue ℕ → ℕ → Round ℕ
with_frame id actions received = record quiet {
  notice = some (record {
    received_ns = received;
    transport_ended = false;
    own_thread = true;
    content = tool_call id true (given (actions_object actions));
  });
  waiting = captured (some (640, 360, 2560, frame_pixels)) ∷ [];
}

abbrev whole_game : List (Round ℕ)
whole_game =
    with_frame 1 (list []) 30_000_000
    ∷ with_frame 2 two_taps 47_000_000
    ∷ record quiet { poll = some (pos 0) }
    ∷ []

-- The bridge with a frame that was captured.
framed : Bridge → Bridge
framed b =
    handled clock
      (published clock (now clock b) frame_pixels (tick b) (count_gap clock (now clock b) (tick b)))

-- The end of a call whose observation is given.
abbrev turn_of : Round ℕ → ℕ → ℕ → Counts → Option (ℕ × ℤ) → Trial → Outcome ℕ × Bridge → Turned
turn_of r received id counts reference u o =
    let a = after_observe clock keys nanoseconds no_upper one_byte r counts reference u o in
    respond clock keys nanoseconds no_upper one_byte r received id a a.verdict

abbrev observed : Round ℕ → Bridge → Outcome ℕ × Bridge
observed r b = then_store clock keys nanoseconds no_upper one_byte r (observe_take clock (framed b))

abbrev first_call : Round ℕ
first_call = with_frame 1 (list []) 30_000_000

abbrev second_call : Round ℕ
second_call = with_frame 2 two_taps 47_000_000

abbrev none_of : Counts
none_of = record { accepted = 0; scheduled = 0; dropped_late = 0 }

abbrev started_trial : Trial
started_trial = record (begin 4) {
  bridge = (start_game clock keys (begin 4).bridge).1;
  status = running;
  start_ns = some 0;
}

abbrev first_bridge : Bridge
first_bridge = record (init 4) {
  latest = some (record { number = 1; receipt = 1_000_000; pixels = frame_pixels });
  last_returned_frame = 1;
  observations = record { receipt_ns = 1_000_000; png = 1 ∷ [] } ∷ [];
  png_bytes = 1;
  events = start 0 ∷ observation 1 1_000_000 2_000_000 ∷ [];
  started = true;
  frames = 1;
  previous_receipt = some 1_000_000;
  ticks = 3;
}

abbrev after_first : Trial
after_first = record (begin 4) {
  bridge = first_bridge;
  status = running;
  start_ns = some 0;
  last_observation = some (record { number = 1; receipt_ns = 1_000_000; return_ns = 46_000_000 });
  decisions =
      record { received_ns = 30_000_000; reference = none; result = decided none_of 1 } ∷ [];
  responses = (1, true) ∷ [];
}

abbrev both_taps : Counts
both_taps = record { accepted = 2; scheduled = 2; dropped_late = 0 }

abbrev submitted_bridge : Bridge
submitted_bridge = record first_bridge {
  pending =
      record { due = 51_000_000; action_id = 1; lane = 0 }
      ∷ record { due = 901_000_000; action_id = 2; lane = 3 }
      ∷ [];
  events =
      start 0
      ∷ observation 1 1_000_000 2_000_000
      ∷ action_proposed 1 (identifier 1) 0 50_000_000 51_000_000 3_000_000
      ∷ action_proposed 2 (identifier 1) 3 900_000_000 901_000_000 3_000_000
      ∷ [];
  next_action = 2;
  ticks = 4;
}

abbrev submitted_trial : Trial
submitted_trial = record after_first { bridge = submitted_bridge }

abbrev second_bridge : Bridge
second_bridge = record submitted_bridge {
  latest = some (record { number = 2; receipt = 4_000_000; pixels = frame_pixels });
  last_returned_frame = 2;
  observations =
      record { receipt_ns = 1_000_000; png = 1 ∷ [] }
      ∷ record { receipt_ns = 4_000_000; png = 1 ∷ [] }
      ∷ [];
  png_bytes = 2;
  events = submitted_bridge.events ++ observation 2 4_000_000 5_000_000 ∷ [];
  frames = 2;
  previous_receipt = some 4_000_000;
  gap_sum_ns = 3_000_000;
  gap_max_ns = 3_000_000;
  ticks = 6;
}

abbrev after_second : Trial
after_second = record after_first {
  bridge = second_bridge;
  last_observation = some (record { number = 2; receipt_ns = 4_000_000; return_ns = 46_000_000 });
  decisions =
      record { received_ns = 30_000_000; reference = none; result = decided none_of 1 }
      ∷ record {
        received_ns = 47_000_000;
        reference = some (1, pos 46_000_000);
        result = decided both_taps 2;
      }
      ∷ [];
  responses = (1, true) ∷ (2, true) ∷ [];
}

-- A call with actions, from the outcome of its submission on.
abbrev answered_call : Outcome Counts × Bridge → Turned
answered_call o =
    let a =
      after_submit clock keys nanoseconds no_upper one_byte second_call (some (1, pos 46_000_000))
        after_first o in
    respond clock keys nanoseconds no_upper one_byte second_call 47_000_000 2 a a.verdict

abbrev last : Round ℕ
last = record quiet { poll = some (pos 0) }

last_trial : Trial
last_trial = record after_second { game_exit = some (pos 0) }

abbrev next : List (Round ℕ) → Turned → LoopEnd
next rounds u = elim u [
  | goes_on t ↦ play_rounds clock keys nanoseconds no_upper one_byte rounds t
  | exits t ↦ exited t
  | raises e t ↦ stopped e t
]

abbrev whole_report : TrialReport
whole_report =
    report_of (finish clock keys nanoseconds no_upper one_byte billionths cleanup none last_trial)
