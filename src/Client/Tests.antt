-- ===== src/Client/Tests.antt =====
-- A tap on the lane C, and the lane of the bridge.
use chers.Base.{ℕ, ◌≡◌, refl, true, List, [], ◌∷◌, pos, arith}
use chers.Base.Decimal.{codes}
use chers.Bridge.State as State
use chers.Bridge.Actions.{text, upper, lane_index}
use chers.Client.{
  cl_connect, cl_tap, Library, done, raised, ord_of_text, Client, check_result, checked_call,
  tapped_lane, tap_client,
}
use chers.Client.Taps.{Taps, tapped_lane-agrees}

-- The library accepts every call.
abbrev library : Library
library = record { returns = λ c calls. pos 0; frame_read = λ calls. (640, 360, 2560, []) }

abbrev client : Client
client = record { handle = true; calls = cl_connect ∷ [] }

-- The upper case of `ﬁ` is the text FI, which lies between A and P.
abbrev upper_ligature : ℕ → List ℕ
upper_ligature c = b'F' ∷ b'I' ∷ []

tap_runs :
    tap_client library upper_ligature (text (codes "c")) client
    ≡ (done tt, record client { calls = cl_tap 2 ∷ cl_connect ∷ [] })
unfolding tap_client tapped_lane checked_call check_result upper
tap_runs = refl

ligature_raises : tapped_lane upper_ligature (text (0xfb01 ∷ [])) ≡ raised ord_of_text
unfolding tapped_lane upper
ligature_raises = refl

bridge_lane : lane_index upper_ligature 8 (text (codes "c")) ≡ State.done 2
unfolding lane_index upper
bridge_lane = refl

tapped_lane-agrees_example : tapped_lane upper_ligature (text (codes "c")) ≡ done 2
tapped_lane-agrees_example =
    tapped_lane-agrees upper_ligature 8 2 (text (codes "c")) (omega arith) bridge_lane
