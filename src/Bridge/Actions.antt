-- ===== src/Bridge/Actions.antt =====
-- The validation in `NativeVisionBridge.submit`, on the values that a caller may pass.
pub mod Bounds
use chers.Base.{
  ℕ, zero, suc, ◌+◌, ◌-◌, ◌*◌, ◌≤◌, ◌≡◌, Bool, true, false, ◌&&◌, not, Option, none, some, List, [],
  ◌∷◌, ℤ, pos, negsuc, ltb, leb, length, if◌then◌else◌,
}
use chers.Bridge.State.{
  BridgeError, bad_actions, bad_action, bad_lane, bad_delay, lane_type, delay_overflow, Outcome,
  done, raised, max_actions,
}

-- Python's floats, as far as `submit` uses them: the tests on a delay in milliseconds, and
-- `round(delay * 1_000_000)`; and for which integers `math.isfinite` finds a float.
pub record Floats : Type 1 where
  pub Float : Type 0
  pub is_finite : Float → Bool
  pub in_delay_range : Float → Bool
  pub nanoseconds : Float → ℕ
  pub converts : ℤ → Bool
  pub nanoseconds-le : (x : Float) → in_delay_range x ≡ true → nanoseconds x ≤ 1_000_000_000

-- The code points of `c.upper()`: ASCII by its table, and any other by a parameter.
unfoldable pub upper : (ℕ → List ℕ) → ℕ → List ℕ
upper other c =
    if leb b'a' c && leb c b'z' then (c - 32) ∷ [] else if ltb c 128 then c ∷ [] else other c

-- `action["lane"]`: a text, an integer, or a value of another type (a bool among them).
pub data LaneValue : Type 0 where
  text : List ℕ → LaneValue
  whole : ℤ → LaneValue
  other_lane : LaneValue

-- `action["delay_ms"]`, likewise.
pub data DelayValue (F : Type 0) : Type 0 where
  float : F → DelayValue F
  whole : ℤ → DelayValue F
  other_delay : DelayValue F

-- An entry of the list: a dictionary with exactly the two keys, or anything else.
pub data ActionValue (F : Type 0) : Type 0 where
  action : LaneValue → DelayValue F → ActionValue F
  other_action : ActionValue F

-- The argument `actions`.
pub data ActionsValue (F : Type 0) : Type 0 where
  list : List (ActionValue F) → ActionsValue F
  other_actions : ActionsValue F

abbrev pub bind {ℓ κ} : {A : Type ℓ} {B : Type κ} → Outcome A → (A → Outcome B) → Outcome B
bind (done a) f = f a
bind (raised e) f = raised e

-- `ord(lane.upper()) - ord("A")`, and the range test on it.
abbrev pub lane_of_upper : ℕ → List ℕ → Outcome ℕ
lane_of_upper lanes [] = raised lane_type
lane_of_upper lanes (d ∷ []) =
    if leb b'A' d && ltb (d - b'A') lanes then done (d - b'A') else raised bad_lane
lane_of_upper lanes (d ∷ e ∷ ds) = raised lane_type

unfoldable pub lane_index : (ℕ → List ℕ) → ℕ → LaneValue → Outcome ℕ
lane_index other lanes (text []) = raised bad_lane
lane_index other lanes (text (c ∷ [])) = lane_of_upper lanes (upper other c)
lane_index other lanes (text (c ∷ d ∷ cs)) = raised bad_lane
lane_index other lanes (LaneValue.whole (pos n)) = if ltb n lanes then done n else raised bad_lane
lane_index other lanes (LaneValue.whole (negsuc n)) = raised bad_lane
lane_index other lanes other_lane = raised bad_lane

module _ (floats : Floats) (other_upper : ℕ → List ℕ) where
  open floats use {Float, is_finite, in_delay_range, nanoseconds, converts}

  -- The test on the delay, and `round(delay * 1_000_000)`.
  unfoldable pub delay_ns : DelayValue Float → Outcome ℕ
  delay_ns (float x) =
      if is_finite x && in_delay_range x then done (nanoseconds x) else raised bad_delay
  delay_ns (DelayValue.whole (pos n)) =
      if not (converts (pos n))
      then raised delay_overflow
      else if leb n 1000
      then done (n * 1_000_000)
      else raised bad_delay
  delay_ns (DelayValue.whole (negsuc n)) =
      if not (converts (negsuc n)) then raised delay_overflow else raised bad_delay
  delay_ns other_delay = raised bad_delay

  -- One round of the loop: the lane and the delay in nanoseconds.
  unfoldable pub validate_action : ℕ → ActionValue Float → Outcome (ℕ × ℕ)
  validate_action lanes other_action = raised bad_action
  validate_action lanes (action lane delay) =
      bind (lane_index other_upper lanes lane) (λ l. bind (delay_ns delay) (λ d. done (l, d)))

  unfoldable pub validate_all : ℕ → List (ActionValue Float) → Outcome (List (ℕ × ℕ))
  validate_all lanes [] = done []
  validate_all lanes (a ∷ as_) =
      bind (validate_action lanes a) (λ v. bind (validate_all lanes as_) (λ vs. done (v ∷ vs)))

  -- The validation before the lock is taken.
  unfoldable pub validate : ℕ → ActionsValue Float → Outcome (List (ℕ × ℕ))
  validate lanes other_actions = raised bad_actions
  validate lanes (list as_) =
      if ltb max_actions (length as_) then raised bad_actions else validate_all lanes as_
