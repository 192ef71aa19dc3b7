-- ===== src/Keyboard.antt =====
-- `XTestKeyboard` of examples/codex_vision_bridge.py: key presses through X11 and XTest. The calls
-- of the two libraries are kept in a history, latest first, and what they answer is a parameter that
-- may depend on the calls before.
pub mod Opening
pub mod Presses
pub mod Releases
mod Tests
use chers.Base.{
  ℕ, suc, ◌+◌, Bool, true, false, ◌&&◌, ◌||◌, not, Option, none, some, List, [], ◌∷◌, ◌++◌, ◌==◌,
  if◌then◌else◌, length, ltb, drop, ◌-◌,
}

-- The calls that matter, with the code of a key and whether it goes down.
pub data XCall : Type 0 where
  set_input_focus get_input_focus sync close_display : XCall
  fake_key : ℕ → Bool → XCall

-- An error event: its code, its request and its window.
pub record XError : Type 0 where
  pub code : ℕ
  pub request : ℕ
  pub resource : ℕ

-- What the methods raise.
pub data KeyError : Type 0 where
  keyboard_closed focus_lost keydown_failed keyup_failed unknown_key : KeyError
  protocol_error : ℕ → ℕ → ℕ → KeyError
  bad_window_id threads_failed no_display unverified_window bad_title bad_owner : KeyError
  unmapped_key : List ℕ → KeyError
  bad_pid no_window : KeyError

pub data KeyResult {ℓ} (A : Type ℓ) : Type ℓ where
  done : A → KeyResult A
  raised : KeyError → KeyResult A

-- What the libraries answer, by the calls before: which window has the focus, whether a key event is
-- accepted, and which error events a synchronisation brings.
pub record X11 : Type 0 where
  pub focus : List XCall → ℕ
  pub accepts_key : List XCall → Bool
  pub errors : List XCall → List XError

-- The fields of a keyboard. `display` says whether the connection is open.
pub record Keyboard : Type 0 where
  pub window : ℕ
  pub display : Bool
  pub codes : List (List ℕ × ℕ)
  pub pressed : List ℕ
  pub calls : List XCall

-- `_record_x11_error`: the last 32 errors are kept.
unfoldable pub record_x11_error : List XError → XError → List XError
record_x11_error errors e = drop (length (errors ++ e ∷ []) - 32) (errors ++ e ∷ [])

abbrev pub record_all : List XError → List XError → List XError
record_all errors [] = errors
record_all errors (e ∷ es) = record_all (record_x11_error errors e) es

-- `all(error[1] == 3 for error in errors)`: the windows were missing.
abbrev pub all_missing : List XError → Bool
all_missing [] = true
all_missing (e ∷ es) = e.code == 3 && all_missing es

-- The end of `_checked_x11`, after a call that did not raise.
unfoldable pub inspect : {A : Type 0} → Bool → List XError → A → KeyResult (Option A)
inspect missing_window_ok [] result = done (some result)
inspect missing_window_ok (e ∷ es) result =
    if missing_window_ok && all_missing (e ∷ es)
    then done none
    else raised (protocol_error e.code e.request e.resource)

abbrev pub with_call : XCall → Keyboard → Keyboard
with_call c k = record k { calls = c ∷ k.calls }

abbrev pub inspected : KeyResult (Option (Unit {0})) → KeyResult (Unit {0})
inspected (done _) = done tt
inspected (raised e) = raised e

-- The end of `_assert_focus`: the window that has the focus is compared.
abbrev pub compare_focus : ℕ → KeyResult (Unit {0}) × Keyboard → KeyResult (Unit {0}) × Keyboard
compare_focus current (raised e, k) = (raised e, k)
compare_focus current (done _, k) =
    if not (current == k.window) then (raised focus_lost, k) else (done tt, k)

module _ (x11 : X11) where
  -- `_checked_x11` on the state after the call and what the call returned or raised. `XSync` is
  -- called on both ways.
  unfoldable pub checked_x11 : KeyResult (Unit {0}) × Keyboard → KeyResult (Unit {0}) × Keyboard
  unfolding inspect
  checked_x11 (raised e, k) = (raised e, with_call sync k)
  checked_x11 (done _, k) =
      (inspected (inspect false (record_all [] (x11.errors (sync ∷ k.calls))) tt), with_call sync k)

  -- `_assert_focus`
  unfoldable pub assert_focus : Keyboard → KeyResult (Unit {0}) × Keyboard
  unfolding checked_x11
  assert_focus k =
      compare_focus (x11.focus k.calls) (checked_x11 (done tt, with_call get_input_focus k))

-- The key of START.
abbrev pub space : List ℕ
space = b's' ∷ b'p' ∷ b'a' ∷ b'c' ∷ b'e' ∷ []

-- `self._codes[key]`
abbrev pub same_key : List ℕ → List ℕ → Bool
same_key [] [] = true
same_key (a ∷ as_) (b ∷ bs) = a == b && same_key as_ bs
same_key _ _ = false

unfoldable pub find_code : List ℕ → List (List ℕ × ℕ) → Option ℕ
find_code key [] = none
find_code key ((k, code) ∷ codes) = if same_key k key then some code else find_code key codes

-- `self._pressed.add` and `self._pressed.discard`
abbrev pub holds : ℕ → List ℕ → Bool
holds code [] = false
holds code (c ∷ cs) = c == code || holds code cs

abbrev pub add : ℕ → List ℕ → List ℕ
add code pressed = if holds code pressed then pressed else pressed ++ code ∷ []

abbrev pub discard : ℕ → List ℕ → List ℕ
discard code [] = []
discard code (c ∷ cs) = if c == code then discard code cs else c ∷ discard code cs

module _ (x11 : X11) where
  -- `pair` of `_press`: the key goes up again even if it did not go down, and what raises last counts.
  unfoldable pub pair : ℕ → Keyboard → KeyResult (Unit {0}) × Keyboard
  pair code k =
      let before = k.calls in
      let lowered = fake_key code true ∷ before in
      let k' = record k { pressed = add code k.pressed; calls = fake_key code false ∷ lowered } in
      if x11.accepts_key lowered
      then (
        (if x11.accepts_key before then done tt else raised keydown_failed),
        record k' { pressed = discard code (add code k.pressed) },
      )
      else (raised keyup_failed, k')

  abbrev pub press_code : Option ℕ → Keyboard → KeyResult (Unit {0}) × Keyboard
  press_code none k = (raised unknown_key, k)
  press_code (some code) k = checked_x11 x11 (pair code k)

  -- `_press`
  unfoldable pub press : List ℕ → Keyboard → KeyResult (Unit {0}) × Keyboard
  unfolding assert_focus find_code
  press key k =
      if not k.display
      then (raised keyboard_closed, k)
      else let (focused, k') = assert_focus x11 k in
        elim focused [ raised e ↦ (raised e, k') | done _ ↦ press_code (find_code key k'.codes) k' ]

  -- `start`. It has no test of the display: on a closed keyboard `XSetInputFocus` gets a null display,
  -- and what Xlib does then is its own, like all its answers.
  unfoldable pub press_start : Keyboard → KeyResult (Unit {0}) × Keyboard
  unfolding checked_x11 press
  press_start k =
      let (focused, k') = checked_x11 x11 (done tt, with_call set_input_focus k) in
      elim focused [ raised e ↦ (raised e, k') | done _ ↦ press space k' ]

  -- `tap`
  unfoldable pub tap : ℕ → Keyboard → KeyResult (Unit {0}) × Keyboard
  unfolding press
  tap lane k = press ((b'a' + lane) ∷ []) k

-- The loop of `close`.
unfoldable pub release_all : List ℕ → List XCall → List XCall
release_all [] calls = calls
release_all (code ∷ codes) calls = release_all codes (fake_key code false ∷ calls)

-- `close`, whose calls' results are not looked at.
unfoldable pub close_keyboard : Keyboard → Keyboard
unfolding release_all
close_keyboard k =
    if k.display
    then record k {
      display = false;
      pressed = [];
      calls = close_display ∷ sync ∷ release_all k.pressed k.calls;
    }
    else k

-- The methods, in any order.
pub data Method : Type 0 where
  starts closes : Method
  taps : ℕ → Method

module _ (x11 : X11) where
  unfoldable pub method : Method → Keyboard → Keyboard
  method starts k = (press_start x11 k).1
  method (taps lane) k = (tap x11 lane k).1
  method closes k = close_keyboard k

  unfoldable pub methods : List Method → Keyboard → Keyboard
  methods [] k = k
  methods (m ∷ ms) k = methods ms (method m k)
