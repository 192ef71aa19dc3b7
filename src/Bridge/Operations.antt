-- ===== src/Bridge/Operations.antt =====
-- The methods of `NativeVisionBridge`, section by section of the lock.
pub mod Observations
pub mod Submits
use chers.Base.{
  ℕ, zero, suc, ◌+◌, ◌-◌, ◌*◌, Bool, true, false, ◌&&◌, ◌||◌, not, Option, none, some, List, [],
  ◌∷◌, ◌++◌, length, get_elem?, ltb, leb, ◌==◌, if◌then◌else◌,
}
use chers.Bridge.Queue.{Scheduled, push}
use chers.Bridge.State.{
  Bridge, Frame, Observation, Event, BridgeError, Outcome, done, raised, error, observation, start,
  action_proposed, action_dropped, action_sent, late_at_submission, late_at_dispatch, bridge_closed,
  bridge_failed, bridge_closed_already, started_twice, not_started, queue_full, actions_exhausted,
  observations_exhausted, shape_changed, incomplete_frame, clock_backwards, key_failed,
  unknown_observation, no_new_frame, workers_alive, identifier, late_ns, max_pending,
  max_observations, max_png_bytes, max_total_actions, check, log,
}
use chers.Bridge.Actions.{Floats, ActionsValue, validate}

abbrev pub tick : Bridge → Bridge
tick b = record b { ticks = suc b.ticks }

-- The variables of the loop in `submit`.
pub record Submission : Type 0 where
  pub bridge : Bridge
  pub scheduled : ℕ
  pub dropped_late : ℕ

-- The dictionary that `submit` returns.
pub record Counts : Type 0 where
  pub accepted : ℕ
  pub scheduled : ℕ
  pub dropped_late : ℕ

abbrev pub same_codes : List ℕ → List ℕ → Bool
same_codes [] [] = true
same_codes (a ∷ as_) (b ∷ bs) = a == b && same_codes as_ bs
same_codes _ _ = false

-- `self._observations[observation_id]`: the keys are the identifiers from a number on.
unfoldable pub find_observation : List ℕ → ℕ → List Observation → Option Observation
find_observation id n [] = none
find_observation id n (o ∷ os) =
    let rest = find_observation id (suc n) os in
    if same_codes (identifier n) id then some o else rest

-- What the environment gives: the clock's readings.
module _ (clock : ℕ → ℕ) where
  -- `self._clock()`
  abbrev pub now : Bridge → ℕ
  now b = clock b.ticks

  -- `_fail`
  unfoldable pub fail : BridgeError → Bridge → Bridge
  fail e b = elim b.failure [
    | none ↦ record (log (error (now b) e) (tick b)) { failure = some e; stopped = true }
    | some _ ↦ record b { stopped = true }
  ]

  -- The section of `_capture_once` under the lock, for a frame received at a reading of the clock.
  unfoldable pub count_gap : ℕ → Bridge → Outcome Bridge
  count_gap receipt b = elim b.previous_receipt [
    | none ↦ done b
    | some previous ↦
        if ltb receipt previous
        then raised clock_backwards
        else done (record b {
          gap_sum_ns = b.gap_sum_ns + (receipt - previous);
          gap_max_ns =
              if ltb b.gap_max_ns (receipt - previous) then receipt - previous else b.gap_max_ns;
          gaps_over_16ms =
              b.gaps_over_16ms + (if ltb 16_000_000 (receipt - previous) then 1 else 0);
        })
  ]

  abbrev pub publish : ℕ → List ℕ → Bridge → Bridge
  publish receipt pixels b = record b {
    frames = suc b.frames;
    previous_receipt = some receipt;
    latest = some (record { number = suc b.frames; receipt = receipt; pixels = pixels });
  }

  abbrev pub published : ℕ → List ℕ → Bridge → Outcome Bridge → Outcome Bool × Bridge
  published receipt pixels b (done b') = (done true, publish receipt pixels b')
  published receipt pixels b (raised e) = (raised e, b)

  -- `_capture_once`, on what `client.frame` returned: no frame, or its width, height, stride and
  -- bytes.
  unfoldable pub capture_once : Option (ℕ × ℕ × ℕ × List ℕ) → Bridge → Outcome Bool × Bridge
  unfolding count_gap
  capture_once none b = (done false, b)
  capture_once (some (width, height, stride, rgba)) b =
      if not (width == 640 && (height == 360 && stride == 2560))
      then (raised shape_changed, tick b)
      else if not (length rgba == 640 * 360 * 4)
      then (raised incomplete_frame, tick b)
      else published (now b) rgba (tick b) (count_gap (now b) (tick b))

  -- `observe`, the section that takes the latest frame: `no_new_frame` while there is none that was
  -- not returned, where the code waits and, at its deadline, raises `TimeoutError`.
  abbrev pub take_latest : Option Frame → Bridge → Outcome Frame × Bridge
  take_latest none b = (raised no_new_frame, b)
  take_latest (some f) b =
      if leb f.number b.last_returned_frame
      then (raised no_new_frame, b)
      else (done f, record b { last_returned_frame = f.number })

  unfoldable pub observe_take : Bridge → Outcome Frame × Bridge
  unfolding check
  observe_take b = elim (check b) [ some e ↦ (raised e, b) | none ↦ take_latest b.latest b ]

  -- `observe`, the section that stores the encoded frame, and returns its identifier's number.
  unfoldable pub observe_store : ℕ → List ℕ → Bridge → Outcome ℕ × Bridge
  unfolding check
  observe_store receipt png b = elim (check b) [
    | some e ↦ (raised e, b)
    | none ↦
        if leb max_observations (length b.observations)
          || ltb max_png_bytes (b.png_bytes + length png)
        then (raised observations_exhausted, b)
        else (
          done (suc (length b.observations)),
          log (observation (suc (length b.observations)) receipt (now b)) (
              tick (record b {
                observations = b.observations ++ record { receipt_ns = receipt; png = png } ∷ [];
                png_bytes = b.png_bytes + length png;
              })),
        )
  ]

  -- One validated action of `submit`, with the receipt and the time of the submission.
  unfoldable pub propose : List ℕ → ℕ → ℕ → ℕ × ℕ → Submission → Submission
  propose id receipt time (lane, delay) s =
      let action_id = suc s.bridge.next_action in
      let b =
        log (action_proposed action_id id lane delay (receipt + delay) time)
          (record (s.bridge) { next_action = action_id }) in
      if ltb (receipt + delay + late_ns) time
      then record s {
        bridge = log (action_dropped action_id late_at_submission) b;
        dropped_late = suc s.dropped_late;
      }
      else record s {
        bridge = record b {
          pending =
              push (record { due = receipt + delay; action_id = action_id; lane = lane }) b.pending;
        };
        scheduled = suc s.scheduled;
      }

  unfoldable pub propose_all : List ℕ → ℕ → ℕ → List (ℕ × ℕ) → Submission → Submission
  propose_all id receipt time [] s = s
  propose_all id receipt time (a ∷ as_) s =
      propose_all id receipt time as_ (propose id receipt time a s)

  abbrev pub enqueue_for :
      Option Observation → List ℕ → List (ℕ × ℕ) → Bridge → Outcome Counts × Bridge
  enqueue_for none id actions b = (raised unknown_observation, b)
  enqueue_for (some o) id actions b =
      if ltb max_pending (length b.pending + length actions)
      then (raised queue_full, b)
      else if ltb max_total_actions (b.next_action + length actions)
      then (raised actions_exhausted, b)
      else let s =
          propose_all id o.receipt_ns (now b) actions
            (record { bridge = tick b; scheduled = 0; dropped_late = 0 }) in
        (
          done (record {
            accepted = length actions;
            scheduled = s.scheduled;
            dropped_late = s.dropped_late;
          }),
          s.bridge,
        )

  -- The section of `submit` under the lock.
  unfoldable pub enqueue : List ℕ → List (ℕ × ℕ) → Bridge → Outcome Counts × Bridge
  enqueue id actions b = elim (check b) [
    | some e ↦ (raised e, b)
    | none ↦
        if not b.started
        then (raised not_started, b)
        else enqueue_for (find_observation id 1 b.observations) id actions b
  ]

-- `submit`
module _ (floats : Floats) (other_upper : ℕ → List ℕ) (clock : ℕ → ℕ) where
  open floats use {Float}

  unfoldable pub submit : List ℕ → ActionsValue Float → Bridge → Outcome Counts × Bridge
  submit id actions b = elim (validate floats other_upper b.lanes actions) [
    | raised e ↦ (raised e, b)
    | done valid ↦ enqueue clock id valid b
  ]
