-- ===== src/Bridge/Opening.antt =====
-- `NativeVisionBridge.__init__` of examples/codex_vision_bridge.py, up to the start of the threads.
pub mod Guarded
mod Tests
use chers.Base.{
  ℕ, ℤ, pos, negsuc, Bool, true, false, ◌&&◌, not, Option, none, some, leb, if◌then◌else◌,
}
use chers.Bridge.State.{Bridge, init}
use chers.Client.{Library, Client, ClientError, ClientResult, connect, close_client}
use chers.Client as Bindings
use chers.Keyboard.{Keyboard, KeyError, KeyResult}
use chers.Keyboard as Keys
use chers.Keyboard.Opening.{NumberArgument, whole, other_number, Desktop, open_keyboard}

-- `mode`, a key sink's among them.
pub data Mode : Type 0 where
  keyboard_mode transport_test injected_test other_mode : Mode

-- `_keys`: the sink that was given, `_TransportKeys`, or the keyboard.
pub data KeySource : Type 0 where
  injected transport : KeySource
  native : Keyboard → KeySource

pub data OpeningError : Type 0 where
  bad_lanes bad_mode : OpeningError
  no_client : ClientError → OpeningError
  no_keys : KeyError → OpeningError

pub record OpenedBridge : Type 0 where
  pub bridge : Bridge
  pub keys : KeySource
  pub mode : Mode

pub data OpeningResult (A : Type 0) : Type 0 where
  done : A → OpeningResult A
  raised : OpeningError → OpeningResult A

-- An integer from 2 to 16, and no bool.
abbrev pub bridge_lanes : NumberArgument → Option ℕ
bridge_lanes (whole (pos n)) = if leb 2 n && leb n 16 then some n else none
bridge_lanes (whole (negsuc n)) = none
bridge_lanes other_number = none

-- What a caller may pass.
abbrev pub is_mode : Mode → Bool
is_mode keyboard_mode = true
is_mode transport_test = true
is_mode _ = false

abbrev pub native_keys : KeyResult Keyboard → OpeningResult KeySource
native_keys (Keys.done k) = done (native k)
native_keys (Keys.raised e) = raised (no_keys e)

abbrev pub keys_for :
    Desktop → NumberArgument → Option ℕ → (key_sink : Bool) → Mode → OpeningResult KeySource
keys_for desktop window_id expected_pid true mode = done injected
keys_for desktop window_id expected_pid false transport_test = done transport
keys_for desktop window_id expected_pid false _ =
    native_keys (open_keyboard desktop window_id expected_pid).0

-- The client that is given, or a new one.
abbrev pub client_for : Library → Option Client → ClientResult Client
client_for library (some client) = Bindings.done client
client_for library none = connect library

-- The fields from `_keys` on, or the raise, with the client as it is left.
abbrev pub with_keys :
    Library
    → ℕ
    → Client
    → Bool
    → Mode
    → OpeningResult KeySource
    → OpeningResult OpenedBridge × Option Client
with_keys library lanes client key_sink mode (raised e) =
    (raised e, some (close_client library client))
with_keys library lanes client key_sink mode (done keys) = (
  done (record {
    bridge = init lanes;
    keys = keys;
    mode = if key_sink then injected_test else mode;
  }),
  some client,
)

abbrev pub with_client :
    Library
    → Desktop
    → ℕ
    → NumberArgument
    → Option ℕ
    → Bool
    → Mode
    → ClientResult Client
    → OpeningResult OpenedBridge × Option Client
with_client library desktop lanes window_id expected_pid key_sink mode (Bindings.raised e) =
    (raised (no_client e), none)
with_client library desktop lanes window_id expected_pid key_sink mode (Bindings.done client) =
    with_keys library lanes client key_sink mode
      (keys_for desktop window_id expected_pid key_sink mode)

-- `__init__`, and the client that there is at its end.
unfoldable pub open_bridge :
    Library
    → Desktop
    → NumberArgument
    → NumberArgument
    → Option ℕ
    → Option Client
    → Bool
    → Mode
    → OpeningResult OpenedBridge × Option Client
open_bridge library desktop lanes window_id expected_pid given key_sink mode =
    elim (bridge_lanes lanes) [
      | none ↦ (raised bad_lanes, given)
      | some n ↦
          if not (is_mode mode)
          then (raised bad_mode, given)
          else with_client library desktop n window_id expected_pid key_sink mode
              (client_for library given)
    ]
