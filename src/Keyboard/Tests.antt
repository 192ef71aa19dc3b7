-- ===== src/Keyboard/Tests.antt =====
-- A keyboard that starts the game, taps with a refused release, and closes; and a search for its
-- window.
use chers.Base.{ℕ, ◌+◌, ◌≡◌, refl, true, false, some, List, [], ◌∷◌, arith, leb, length, ◌==◌, pos}
use chers.Base.Predicates.{count}
use chers.Keyboard.{
  X11, sync, set_input_focus, fake_key, XError, Keyboard, done, raised, keyup_failed, Method,
  starts, taps, method, methods, tap, press, press_start, pair, assert_focus, checked_x11, inspect,
  find_code, close_keyboard, record_x11_error, space,
}
use chers.Keyboard.Opening.{
  PropertyReply, property32, whole, find_window_for_pid, search_rounds, search_round, owned_window,
  Desktop, open_keyboard,
}
use chers.Keyboard.Opening.Owned.{Ends, find_window_for_pid-Ends}
use chers.Keyboard.Opening.Opened.{Opened, open_keyboard-Opened}
use chers.Keyboard.Presses.{Steady, methods-Steady}
use chers.Keyboard.Releases.{Stuck, Shut, methods-Stuck, is_release, close-Releases}

-- Window 7 has the focus; a key event with ten calls before it is refused.
abbrev x11 : X11
x11 = record {
  focus = λ calls. 7;
  accepts_key = λ calls. elim (length calls == 10) [ true ↦ false | false ↦ true ];
  errors = λ calls. [];
}

abbrev keyboard : Keyboard
keyboard = record {
  window = 7;
  display = true;
  codes = (space, 65) ∷ (b'a' ∷ [], 38) ∷ (b'b' ∷ [], 56) ∷ [];
  pressed = [];
  calls = [];
}

abbrev session : List Method
session = starts ∷ taps 1 ∷ []

-- START is pressed and released; the release of lane B is refused, and stays to be done.
session_runs :
    ((methods x11 session keyboard).pressed ≡ 56 ∷ [])
    × ((tap x11 1 (methods x11 (starts ∷ []) keyboard)).0 ≡ raised keyup_failed)
unfolding methods method press_start tap press pair assert_focus checked_x11 inspect find_code
session_runs = (refl, refl)

methods-Steady_example : Steady x11 7 (methods x11 session keyboard)
methods-Steady_example = methods-Steady x11 7 session keyboard (refl, tt)

methods-Stuck_example : Stuck x11 (methods x11 session keyboard)
methods-Stuck_example = methods-Stuck x11 session keyboard tt

abbrev stuck : Keyboard
stuck = record keyboard { pressed = 56 ∷ []; calls = fake_key 56 false ∷ fake_key 56 true ∷ [] }

-- After `close`, `start` still tries to set the focus, and raises.
start_closed :
    (press_start x11 (close_keyboard stuck)).1.calls
    ≡ sync ∷ set_input_focus ∷ (close_keyboard stuck).calls
unfolding press_start press checked_x11 inspect close_keyboard
start_closed = refl

close-Releases_example :
    let k' = close_keyboard stuck in
    (count (is_release 56) k'.calls
      ≡ count (is_release 56) stuck.calls + count (λ c. c == 56) stuck.pressed)
    × Shut x11 k'.calls (methods x11 session k')
close-Releases_example = close-Releases x11 stuck 56 session refl

abbrev window_error : XError
window_error = record { code = 3; request = 20; resource = 9 }

abbrev items : List ℕ → PropertyReply
items ns = record { atom_known = true; errors = []; result = 0; format = 32; items = some ns }

-- Window 9 is gone, and window 7 is of process 42 from the third round on.
abbrev owners : ℕ → ℕ → PropertyReply
owners round window = elim (window == 9) [
  | true ↦ record (items []) { errors = window_error ∷ [] }
  | false ↦ elim (leb 2 round) [ true ↦ items (42 ∷ []) | false ↦ items (1 ∷ []) ]
]

search_runs :
    find_window_for_pid
      (λ round. items (9 ∷ 7 ∷ []))
      owners
      (λ round. leb 4 round)
      5
      (whole (pos 42))
      true
      true
    ≡ some (done 7)
unfolding find_window_for_pid search_rounds search_round owned_window property32 inspect
    record_x11_error
search_runs = refl

find_window_for_pid-Ends_example :
    Ends
      (λ round. items (9 ∷ 7 ∷ []))
      owners
      (λ round. leb 4 round)
      (whole (pos 42))
      (find_window_for_pid
        (λ round. items (9 ∷ 7 ∷ []))
        owners
        (λ round. leb 4 round)
        5
        (whole (pos 42))
        true
        true)
find_window_for_pid-Ends_example =
    find_window_for_pid-Ends (λ round. items (9 ∷ 7 ∷ [])) owners (λ round. leb 4 round) 5 4
      (whole (pos 42)) true true refl (omega arith)

abbrev desktop : Desktop
desktop = record {
  threads = true;
  opens = true;
  errors = [];
  title = some (b'C' ∷ b'H' ∷ b'E' ∷ b'R' ∷ b'S' ∷ b' ' ∷ b'8' ∷ []);
  owners = items (42 ∷ []);
  keycode = λ key. length key + 30;
}

open_keyboard-Opened_example :
    Opened desktop (whole (pos 7)) (some 42) (open_keyboard desktop (whole (pos 7)) (some 42))
open_keyboard-Opened_example = open_keyboard-Opened desktop (whole (pos 7)) (some 42)
