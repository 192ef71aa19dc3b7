-- ===== src/Bridge/State.antt =====
-- The fields of `NativeVisionBridge`, and the events of its log. The clock is a sequence of
-- readings, of which `ticks` have been taken. The threads, the lock and the condition variable are
-- not part of it: each section under the lock is one step.
use chers.Base.{
  ℤ, ℕ, Bool, false, Option, none, some, List, [], ◌∷◌, ◌++◌, ◌*◌, ◌-◌, length, replicate,
  if◌then◌else◌,
}
use chers.Base.Decimal.{decimal}
use chers.Bridge.Queue.{Scheduled}

abbrev pub late_ns : ℕ
late_ns = 20_000_000

abbrev pub max_actions : ℕ
max_actions = 128

abbrev pub max_pending : ℕ
max_pending = 8192

abbrev pub max_observations : ℕ
max_observations = 8192

abbrev pub max_png_bytes : ℕ
max_png_bytes = 128 * 1024 * 1024

abbrev pub max_total_actions : ℕ
max_total_actions = 32768

-- What the methods raise.
pub data BridgeError : Type 0 where
  bridge_failed bridge_closed_already started_twice not_started : BridgeError
  queue_full actions_exhausted observations_exhausted : BridgeError
  shape_changed incomplete_frame clock_backwards key_failed : BridgeError
  bad_actions bad_action bad_lane bad_delay lane_type delay_overflow unknown_observation :
      BridgeError
  no_new_frame workers_alive : BridgeError

pub data DropReason : Type 0 where
  late_at_submission late_at_dispatch bridge_closed : DropReason

-- The dictionaries appended to `self._events`. A lateness is `now - due`, in nanoseconds.
pub data Event : Type 0 where
  error : ℕ → BridgeError → Event
  observation : ℕ → ℕ → ℕ → Event
  start : ℕ → Event
  action_proposed : ℕ → List ℕ → ℕ → ℕ → ℕ → ℕ → Event
  action_dropped : ℕ → DropReason → Event
  action_sent : ℕ → ℕ → ℕ → ℕ → ℤ → Event

-- A captured frame: its number, its receipt and its bytes.
pub record Frame : Type 0 where
  pub number : ℕ
  pub receipt : ℕ
  pub pixels : List ℕ

-- A stored observation; its key in the dictionary is the identifier of its place, from 1.
pub record Observation : Type 0 where
  pub receipt_ns : ℕ
  pub png : List ℕ

pub record Bridge : Type 0 where
  pub lanes : ℕ
  pub latest : Option Frame
  pub last_returned_frame : ℕ
  pub observations : List Observation
  pub png_bytes : ℕ
  pub pending : List Scheduled
  pub events : List Event
  pub failure : Option BridgeError
  pub closed : Bool
  pub started : Bool
  pub stopped : Bool
  pub next_action : ℕ
  pub frames : ℕ
  pub previous_receipt : Option ℕ
  pub gap_sum_ns : ℕ
  pub gap_max_ns : ℕ
  pub gaps_over_16ms : ℕ
  pub ticks : ℕ

-- `f"obs-{n:06d}"`
unfoldable pub identifier : ℕ → List ℕ
identifier n = b'o' ∷ b'b' ∷ b's' ∷ b'-' ∷ (replicate (6 - length (decimal n)) b'0' ++ decimal n)

-- The fields that `__init__` sets.
unfoldable pub init : ℕ → Bridge
init lanes = record {
  lanes = lanes;
  latest = none;
  last_returned_frame = 0;
  observations = [];
  png_bytes = 0;
  pending = [];
  events = [];
  failure = none;
  closed = false;
  started = false;
  stopped = false;
  next_action = 0;
  frames = 0;
  previous_receipt = none;
  gap_sum_ns = 0;
  gap_max_ns = 0;
  gaps_over_16ms = 0;
  ticks = 0;
}

-- A method ends with a value or a raise, and with the state that it leaves.
pub data Outcome {ℓ} (A : Type ℓ) : Type ℓ where
  done : A → Outcome A
  raised : BridgeError → Outcome A

-- `_check`, for errors whose text is not empty, as those of the bridge and of its keyboard are.
unfoldable pub check : Bridge → Option BridgeError
check b = elim b.failure [
  | some e ↦ some bridge_failed
  | none ↦ if b.closed then some bridge_closed_already else none
]

abbrev pub log : Event → Bridge → Bridge
log e b = record b { events = b.events ++ e ∷ [] }
