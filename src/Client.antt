-- ===== src/Client.antt =====
-- `Client` of examples/python_client.py, over the C client's library: the calls of the library are
-- kept in a history, latest first, and what they return is a parameter that may depend on the calls
-- before. And `_TransportKeys` of examples/codex_vision_bridge.py, which taps through it.
pub mod Taps
mod Tests
use chers.Base.{
  ℕ, ◌-◌, Bool, true, false, ◌&&◌, not, Option, none, some, List, [], ◌∷◌, ◌==◌, ℤ, pos, negsuc,
  leb, if◌then◌else◌,
}
use chers.Bridge.Actions.{LaneValue, text, whole, other_lane, upper}
use chers.Runs.{Text, text_le}

-- The calls of the library on an open handle; a frame's is with its timeout.
pub data LibraryCall : Type 0 where
  cl_connect cl_start cl_stop cl_close : LibraryCall
  cl_read_frame cl_tap : ℕ → LibraryCall

-- What the library answers: the number that a call returns, by the calls before, and the frame that
-- is read: its width, its height, its stride and its bytes.
pub record Library : Type 0 where
  pub returns : LibraryCall → List LibraryCall → ℤ
  pub frame_read : List LibraryCall → ℕ × ℕ × ℕ × List ℕ

pub data ClientError : Type 0 where
  library_error : ℤ → ClientError
  not_letter not_lane ord_of_text : ClientError

pub data ClientResult {ℓ} (A : Type ℓ) : Type ℓ where
  done : A → ClientResult A
  raised : ClientError → ClientResult A

-- `handle` is whether the handle is open.
pub record Client : Type 0 where
  pub handle : Bool
  pub calls : List LibraryCall

-- `_check`
unfoldable pub check_result : ℤ → ClientResult (Unit {0})
check_result (pos n) = if n == 0 then done tt else raised (library_error (pos n))
check_result (negsuc n) = raised (library_error (negsuc n))

-- The lane of a letter, once `lane.upper()` is known. `ord` raises `TypeError` on a longer text, which
-- may lie between A and P too.
abbrev pub letter_lane : Text → ClientResult ℕ
letter_lane [] = raised not_letter
letter_lane (d ∷ ds) =
    if not (text_le (b'A' ∷ []) (d ∷ ds) && text_le (d ∷ ds) (b'P' ∷ []))
    then raised not_letter
    else ord_lane ds d
  where
    ord_lane : Text → ℕ → ClientResult ℕ
    ord_lane [] d = done (d - b'A')
    ord_lane (_ ∷ _) d = raised ord_of_text

abbrev pub lane_in_range : ℕ → ClientResult ℕ
lane_in_range n = if leb n 15 then done n else raised not_lane

abbrev pub then_in_range : ClientResult ℕ → ClientResult ℕ
then_in_range (done n) = lane_in_range n
then_in_range (raised e) = raised e

-- The tests of `tap`: the number of the lane. A bool is an integer here, so it counts as `whole`.
unfoldable pub tapped_lane : (ℕ → List ℕ) → LaneValue → ClientResult ℕ
unfolding upper
tapped_lane other_upper (text (c ∷ [])) = then_in_range (letter_lane (upper other_upper c))
tapped_lane other_upper (text _) = raised not_letter
tapped_lane other_upper (whole (pos n)) = lane_in_range n
tapped_lane other_upper (whole (negsuc n)) = raised not_lane
tapped_lane other_upper other_lane = raised not_lane

module _ (library : Library) where
  abbrev pub called : LibraryCall → Client → Client
  called c client = record client { calls = c ∷ client.calls }

  -- A call whose result is checked.
  unfoldable pub checked_call : LibraryCall → Client → ClientResult (Unit {0}) × Client
  unfolding check_result
  checked_call c client = (check_result (library.returns c client.calls), called c client)

  -- `__init__`, from the connection on.
  unfoldable pub connect : ClientResult Client
  unfolding check_result
  connect = elim (check_result (library.returns cl_connect [])) [
    | done _ ↦ done (record { handle = true; calls = cl_connect ∷ [] })
    | raised e ↦ raised e
  ]

  abbrev pub frame_result : ℤ → ℕ × ℕ × ℕ × List ℕ → ClientResult (Option (ℕ × ℕ × ℕ × List ℕ))
  frame_result (pos n) frame =
      if n == 1
      then done none
      else if n == 0
      then done (some frame)
      else raised (library_error (pos n))
  frame_result (negsuc n) frame = raised (library_error (negsuc n))

  -- `frame`
  unfoldable pub read_frame : ℕ → Client → ClientResult (Option (ℕ × ℕ × ℕ × List ℕ)) × Client
  read_frame timeout client = (
    frame_result (library.returns (cl_read_frame timeout) client.calls)
        (library.frame_read client.calls),
    called (cl_read_frame timeout) client,
  )

  -- `start` and `stop`
  unfoldable pub start_client : Client → ClientResult (Unit {0}) × Client
  unfolding checked_call
  start_client client = checked_call cl_start client

  unfoldable pub stop_client : Client → ClientResult (Unit {0}) × Client
  unfolding checked_call
  stop_client client = checked_call cl_stop client

  -- `tap`
  unfoldable pub tap_client : (ℕ → List ℕ) → LaneValue → Client → ClientResult (Unit {0}) × Client
  unfolding tapped_lane checked_call
  tap_client other_upper lane client = elim (tapped_lane other_upper lane) [
    | raised e ↦ (raised e, client)
    | done n ↦ checked_call (cl_tap n) client
  ]

  -- `close`
  unfoldable pub close_client : Client → Client
  close_client client =
      if client.handle then record (called cl_close client) { handle = false } else client

  -- `_TransportKeys`, whose lanes are numbers and whose `close` leaves the client open.
  unfoldable pub transport_tap : (ℕ → List ℕ) → ℕ → Client → ClientResult (Unit {0}) × Client
  unfolding tap_client
  transport_tap other_upper lane client = tap_client other_upper (whole (pos lane)) client

  unfoldable pub transport_close : Client → Client
  transport_close client = client
