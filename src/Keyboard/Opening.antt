-- ===== src/Keyboard/Opening.antt =====
-- What stands before the first key press in examples/codex_vision_bridge.py: the properties of
-- windows, `find_window_for_pid`, and `XTestKeyboard.__init__`.
pub mod Owned
pub mod Opened
use chers.Base.{
  ℕ, zero, suc, ℤ, pos, negsuc, Bool, true, false, ◌&&◌, ◌||◌, not, Option, none, some, List, [],
  ◌∷◌, ◌++◌, ◌==◌, leb, if◌then◌else◌, length,
}
use chers.Base.Decimal.{starts_with}
use chers.Keyboard.{
  XError, KeyError, KeyResult, done, raised, bad_window_id, threads_failed, no_display,
  unverified_window, bad_title, bad_owner, unmapped_key, bad_pid, no_window, Keyboard, record_all,
  inspect, space,
}

-- What the calls of `_property32` give: whether the name is an atom, the error events, and what
-- `XGetWindowProperty` returns, with its format and its items.
pub record PropertyReply : Type 0 where
  pub atom_known : Bool
  pub errors : List XError
  pub result : ℕ
  pub format : ℕ
  pub items : Option (List ℕ)

-- The tests of `_property32` on the result of `_checked_x11`, which is `None` for a missing window.
abbrev pub property_items : Option ℕ → ℕ → Option (List ℕ) → List ℕ
property_items (some zero) format (some items) = if format == 32 then items else []
property_items _ _ _ = []

abbrev pub read_items : PropertyReply → KeyResult (Option ℕ) → KeyResult (List ℕ)
read_items r (raised e) = raised e
read_items r (done result) = done (property_items result r.format r.items)

-- `_property32`
unfoldable pub property32 : PropertyReply → KeyResult (List ℕ)
unfolding inspect
property32 r =
    if not r.atom_known
    then done []
    else read_items r (inspect true (record_all [] r.errors) r.result)

-- `owners == [pid]`
abbrev pub is_owner : List ℕ → ℕ → Bool
is_owner (owner ∷ []) pid = owner == pid
is_owner _ pid = false

-- A number that a caller passes: an integer, or a value of another type (a bool among them).
pub data NumberArgument : Type 0 where
  whole : ℤ → NumberArgument
  other_number : NumberArgument

-- `isinstance(n, bool) or not isinstance(n, int) or n <= 0` is false for these.
abbrev pub positive : NumberArgument → Option ℕ
positive (whole (pos (suc n))) = some (suc n)
positive _ = none

-- The rounds of the loop in `find_window_for_pid`: what a property of a window is in a round, and
-- whether the deadline has passed at its end. The root window is 0.
module _ (client_list : ℕ → PropertyReply) (window_pid : ℕ → ℕ → PropertyReply)
    (late : ℕ → Bool) where
  -- The loop over the windows of a round.
  unfoldable pub owned_window : ℕ → ℕ → List ℕ → KeyResult (Option ℕ)
  unfolding property32
  owned_window pid round [] = done none
  owned_window pid round (window ∷ windows) =
      let rest = owned_window pid round windows in
      elim (property32 (window_pid round window)) [
        | raised e ↦ raised e
        | done owners ↦ if is_owner owners pid then done (some window) else rest
      ]

  -- `windows = _property32(...)` and the loop over them.
  unfoldable pub search_round : ℕ → ℕ → KeyResult (Option ℕ)
  unfolding owned_window property32
  search_round pid round = elim (property32 (client_list round)) [
    | raised e ↦ raised e
    | done windows ↦ owned_window pid round windows
  ]

  -- The loop, with fuel; `none` means that the fuel ran out.
  unfoldable pub search_rounds : ℕ → ℕ → ℕ → Option (KeyResult ℕ)
  unfolding search_round
  search_rounds zero pid round = none
  search_rounds (suc fuel) pid round =
      let rest = search_rounds fuel pid (suc round) in
      elim (search_round pid round) [
        | raised e ↦ some (raised e)
        | done (some window) ↦ some (done window)
        | done none ↦ if late round then some (raised no_window) else rest
      ]

  -- `find_window_for_pid`, given whether the threads of Xlib and the display can be opened.
  unfoldable pub find_window_for_pid : ℕ → NumberArgument → Bool → Bool → Option (KeyResult ℕ)
  unfolding search_rounds
  find_window_for_pid fuel pid threads opens = elim (positive pid) [
    | none ↦ some (raised bad_pid)
    | some n ↦
        if not threads
        then some (raised threads_failed)
        else if not opens
        then some (raised no_display)
        else search_rounds fuel n 0
  ]

-- What `XTestKeyboard.__init__` gets from the libraries: whether they and the display open, the error
-- events and the result of `XFetchName`, with the title, the owners of the window, and the codes of
-- keys, where 0 is none.
pub record Desktop : Type 0 where
  pub threads : Bool
  pub opens : Bool
  pub errors : List XError
  pub title : Option (List ℕ)
  pub owners : PropertyReply
  pub keycode : List ℕ → ℕ

-- `["space"] + list("abcdefghijklmnop")`
abbrev pub lane_keys : ℕ → ℕ → List (List ℕ)
lane_keys zero c = []
lane_keys (suc n) c = (c ∷ []) ∷ lane_keys n (suc c)

abbrev pub key_names : List (List ℕ)
key_names = space ∷ lane_keys 16 b'a'

-- The loop that fills `_codes`.
unfoldable pub map_keys : (List ℕ → ℕ) → List (List ℕ) → KeyResult (List (List ℕ × ℕ))
map_keys keycode [] = done []
map_keys keycode (key ∷ rest) =
    let codes = map_keys keycode rest in
    if keycode key == 0
    then raised (unmapped_key key)
    else elim codes [ raised e ↦ raised e | done cs ↦ done ((key, keycode key) ∷ cs) ]

-- The window is owned by the expected process, if one is expected.
abbrev pub owner_result : Option ℕ → KeyResult (List ℕ) → KeyResult (Unit {0})
owner_result none owners = done tt
owner_result (some pid) (raised e) = raised e
owner_result (some pid) (done owners) = if is_owner owners pid then done tt else raised bad_owner

abbrev pub chers_title : List ℕ
chers_title = b'C' ∷ b'H' ∷ b'E' ∷ b'R' ∷ b'S' ∷ []

abbrev pub title_result : Option (List ℕ) → KeyResult (Unit {0})
title_result none = raised unverified_window
title_result (some title) = if starts_with chers_title title then done tt else raised bad_title

abbrev pub then_ : {A : Type 0} → KeyResult (Unit {0}) → KeyResult A → KeyResult A
then_ (raised e) rest = raised e
then_ (done _) rest = rest

abbrev pub fetched : KeyResult (Option (Unit {0})) → KeyResult (Unit {0})
fetched (raised e) = raised e
fetched (done _) = done tt

-- The part of `__init__` that closes the display when it raises: the codes of the keys.
unfoldable pub verify_window : Desktop → Option ℕ → KeyResult (List (List ℕ × ℕ))
unfolding property32 map_keys inspect
verify_window d expected_pid = then_ (fetched (inspect false (record_all [] d.errors) tt)) (
    then_ (title_result d.title)
      (then_ (owner_result expected_pid (property32 d.owners)) (map_keys d.keycode key_names)))

abbrev pub keyboard_of : ℕ → KeyResult (List (List ℕ × ℕ)) → KeyResult Keyboard × Bool
keyboard_of window (raised e) = (raised e, true)
keyboard_of window (done codes) = (
  done (record { window = window; display = true; codes = codes; pressed = []; calls = [] }),
  false,
)

-- `__init__`: the keyboard, or what is raised; and whether a display was closed.
unfoldable pub open_keyboard : Desktop → NumberArgument → Option ℕ → KeyResult Keyboard × Bool
unfolding verify_window
open_keyboard d window_id expected_pid = elim (positive window_id) [
  | none ↦ (raised bad_window_id, false)
  | some window ↦
      if not d.threads
      then (raised threads_failed, false)
      else if not d.opens
      then (raised no_display, false)
      else keyboard_of window (verify_window d expected_pid)
]
