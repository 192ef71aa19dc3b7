-- ===== src/Bridge/Opening/Tests.antt =====
-- Bridges that open, and one whose keyboard is refused.
use chers.Base.{◌≡◌, refl, true, false, none, some, [], ◌∷◌, pos}
use chers.Bridge.State.{init}
use chers.Client.{Library, cl_connect, cl_close, connect, check_result, close_client}
use chers.Keyboard.{inspect}
use chers.Keyboard.Opening.{whole, other_number, Desktop, open_keyboard, verify_window}
use chers.Bridge.Opening.{
  keyboard_mode, transport_test, transport, bad_lanes, done, raised, open_bridge,
}
use chers.Bridge.Opening.Guarded.{Guarded, open_bridge-Guarded}

abbrev library : Library
library = record { returns = λ call calls. pos 0; frame_read = λ calls. (640, 360, 2560, []) }

-- A display whose window has no name.
abbrev nameless : Desktop
nameless = record {
  threads = true;
  opens = true;
  errors = [];
  title = none;
  owners = record { atom_known = true; errors = []; result = 0; format = 32; items = some [] };
  keycode = λ key. 30;
}

transport_opens :
    open_bridge library nameless (whole (pos 8)) other_number none none false transport_test ≡ (
      done (record { bridge = init 8; keys = transport; mode = transport_test }),
      some (record { handle = true; calls = cl_connect ∷ [] }),
    )
unfolding open_bridge connect check_result
transport_opens = refl

one_lane :
    open_bridge library nameless (whole (pos 1)) other_number none none false transport_test
    ≡ (raised bad_lanes, none)
unfolding open_bridge
one_lane = refl

keyboard_refused :
    (open_bridge library nameless (whole (pos 8)) (whole (pos 7)) none none false keyboard_mode).1
    ≡ some (record { handle = false; calls = cl_close ∷ cl_connect ∷ [] })
unfolding open_bridge connect check_result close_client open_keyboard verify_window inspect
keyboard_refused = refl

open_bridge-Guarded_example :
    Guarded library nameless
      (whole (pos 8))
      (whole (pos 7))
      none
      none
      false
      keyboard_mode
      (open_bridge library nameless (whole (pos 8)) (whole (pos 7)) none none false keyboard_mode)
open_bridge-Guarded_example =
    open_bridge-Guarded library nameless (whole (pos 8)) (whole (pos 7)) none none false
      keyboard_mode
