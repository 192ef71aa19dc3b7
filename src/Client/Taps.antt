-- ===== src/Client/Taps.antt =====
-- Which lanes a tap reaches.
use chers.Base.{ℕ, ◌≤◌, ◌≡◌, List, [], ◌∷◌, pos, negsuc, arith}
use chers.Bridge.Actions.{LaneValue, text, whole, other_lane, upper, lane_of_upper, lane_index}
use chers.Bridge.State as State
use chers.Client.{
  cl_tap, Library, ClientResult, done, raised, Client, letter_lane, then_in_range, tapped_lane,
  check_result,
}

-- A tap raises before any call of the library, or makes exactly one, with a lane from 0 to 15, and
-- passes on what the library says of it.
abbrev pub Taps : Library → Client → ClientResult ℕ → ClientResult (Unit {0}) × Client → Type 0
Taps library client (raised e) r = r ≡ (raised e, client)
Taps library client (done n) r =
    (n ≤ 15)
    × (r.0 ≡ check_result (library.returns (cl_tap n) client.calls))
    × (r.1.calls ≡ cl_tap n ∷ client.calls)
    × (r.1.handle ≡ client.handle)

abbrev InLanes : ClientResult ℕ → Type 0
InLanes (raised e) = Unit
InLanes (done n) = n ≤ 15

-- The bridge's lanes, where it accepts them.
ord-agrees :
    (lanes n : ℕ) (up : List ℕ)
    → lanes ≤ 16
    → lane_of_upper lanes up ≡ State.done n
    → then_in_range (letter_lane up) ≡ done n
ord-agrees lanes n [] le h = absurd (cc h)
ord-agrees lanes n (d ∷ []) le h = ground arith
ord-agrees lanes n (d ∷ e ∷ ds) le h = absurd (cc h)

-- A lane that the bridge accepts for a workload of at most sixteen lanes is the same lane for the
-- client.
pub tapped_lane-agrees :
    (other_upper : ℕ → List ℕ) (lanes n : ℕ) (lane : LaneValue)
    → lanes ≤ 16
    → lane_index other_upper lanes lane ≡ State.done n
    → tapped_lane other_upper lane ≡ done n
unfolding tapped_lane lane_index
tapped_lane-agrees other_upper lanes n (text []) le h = absurd (cc h)
tapped_lane-agrees other_upper lanes n (text (c ∷ [])) le h =
    ord-agrees lanes n (upper other_upper c) le h
tapped_lane-agrees other_upper lanes n (text (c ∷ d ∷ cs)) le h = absurd (cc h)
tapped_lane-agrees other_upper lanes n (whole (pos m)) le h = ground arith
tapped_lane-agrees other_upper lanes n (whole (negsuc m)) le h = absurd (cc h)
tapped_lane-agrees other_upper lanes n other_lane le h = absurd (cc h)
