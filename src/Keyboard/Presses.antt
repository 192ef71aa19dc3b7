-- ===== src/Keyboard/Presses.antt =====
-- What the history of the calls of X11 looks like, whatever the libraries answer.
use chers.Base.{
  ℕ, ◌+◌, ◌≡◌, refl, ap, ◌∙◌, sym, subst, true, false, not, Option, none, some, List, [], ◌∷◌, inl,
  inr, Bool-cases, branch, arith, ==_iff, ◌==◌,
}
use chers.Keyboard.{
  X11, XCall, set_input_focus, get_input_focus, sync, close_display, fake_key, Keyboard, KeyResult,
  done, raised, checked_x11, assert_focus, compare_focus, with_call, pair, press_code, find_code,
  press, press_start, space, tap, release_all, close_keyboard, Method, starts, closes, taps, method,
  methods,
}

module _ (x11 : X11) (window : ℕ) where
  -- The last calls found the focus at the window.
  abbrev pub Found : List XCall → Type 0
  Found (sync ∷ get_input_focus ∷ calls) = x11.focus calls ≡ window
  Found _ = ⊥

  -- From the latest call on: each key that goes down goes up in the next call, and the focus was
  -- found at the window right before. The first argument is the key that went up in the call after.
  abbrev pub Proper : Option ℕ → List XCall → Type 0
  Proper up [] = Unit
  Proper up (fake_key code true ∷ calls) = (up ≡ some code) × Found calls × Proper none calls
  Proper up (fake_key code false ∷ calls) = Proper (some code) calls
  Proper up (_ ∷ calls) = Proper none calls

  -- A keyboard of the window with such a history.
  abbrev pub Steady : Keyboard → Type 0
  Steady k = (k.window ≡ window) × Proper none k.calls

  Proper-up : (up : Option ℕ) (calls : List XCall) → Proper none calls → Proper up calls
  Proper-up up [] p = tt
  Proper-up up (fake_key code true ∷ calls) p = absurd (cc (p.0))
  Proper-up up (fake_key code false ∷ calls) p = p
  Proper-up up (set_input_focus ∷ calls) p = p
  Proper-up up (get_input_focus ∷ calls) p = p
  Proper-up up (sync ∷ calls) p = p
  Proper-up up (close_display ∷ calls) p = p

  -- A method that goes on after a part that did not raise.
  pub go_on :
      (P : Keyboard → Type 0) (r : KeyResult (Unit {0})) (k : Keyboard)
      (rest : KeyResult (Unit {0}) × Keyboard)
      → P k
      → (r ≡ done tt → P rest.1)
      → P
          (elim r as (λ _. KeyResult (Unit {0}) × Keyboard) [
            | raised e ↦ (raised e, k)
            | done _ ↦ rest
          ]).1
  go_on P (raised e) k rest p q = p
  go_on P (done _) k rest p q = q refl

  pub checked-state :
      (r : KeyResult (Unit {0}) × Keyboard) → (checked_x11 x11 r).1 ≡ with_call sync r.1
  unfolding checked_x11
  checked-state (raised e, k) = refl
  checked-state (done _, k) = refl

  checked-Steady : (r : KeyResult (Unit {0}) × Keyboard) → Steady r.1 → Steady (checked_x11 x11 r).1
  checked-Steady r s = subst Steady (sym (checked-state r)) s

  compare_focus-state :
      (current : ℕ) (r : KeyResult (Unit {0}) × Keyboard)
      → ((compare_focus current r).1 ≡ r.1)
        × ((compare_focus current r).0 ≡ done tt → current ≡ r.1.window)
  compare_focus-state current (raised e, k) = (refl, λ h. absurd (cc))
  compare_focus-state current (done _, k) = elim (Bool-cases (current == k.window)) [
    | inl same ↦ rw same (refl, λ _. (==_iff current k.window).0 same)
    | inr other ↦ rw other (refl, λ h. absurd (cc h))
  ]

  -- The focus test calls two functions, and passes only if the window has the focus.
  pub assert_focus-state :
      (k : Keyboard)
      → ((assert_focus x11 k).1 ≡ with_call sync (with_call get_input_focus k))
        × ((assert_focus x11 k).0 ≡ done tt → x11.focus k.calls ≡ k.window)
  unfolding assert_focus
  assert_focus-state k =
      let focused = checked_x11 x11 (done tt, with_call get_input_focus k) in
      let (state, found) = compare_focus-state (x11.focus k.calls) focused in
      let state' = checked-state (done tt, with_call get_input_focus k) in
      (state ∙ state', λ h. found h ∙ ap (λ (k : Keyboard). k.window) state')

  pair-state :
      (code : ℕ) (k : Keyboard)
      → ((pair x11 code k).1.calls ≡ fake_key code false ∷ fake_key code true ∷ k.calls)
        × ((pair x11 code k).1.window ≡ k.window)
  unfolding pair
  pair-state code k = ground arith

  press_code-Steady :
      (o : Option ℕ) (k : Keyboard)
      → k.window ≡ window
      → Found k.calls
      → Proper none k.calls
      → Steady (press_code x11 o k).1
  press_code-Steady none k w f p = (w, p)
  press_code-Steady (some code) k w f p =
      let (calls, same) = pair-state code k in
      checked-Steady (pair x11 code k) (same ∙ w, rw calls (refl, f, p))

  press-Steady : (key : List ℕ) (k : Keyboard) → Steady k → Steady (press x11 key k).1
  unfolding press
  press-Steady key k s =
      branch (λ (r : KeyResult (Unit {0}) × Keyboard). Steady r.1) (not k.display) _ _ (λ _. s)
        (λ _.
          let (state, found) = assert_focus-state k in
          go_on Steady (assert_focus x11 k).0 (assert_focus x11 k).1 _ (rw state s) (λ e. rw state (
            press_code-Steady (find_code key k.codes) (with_call sync (with_call get_input_focus k))
              s.0 (found e ∙ s.0) s.1)))

  press_start-Steady : (k : Keyboard) → Steady k → Steady (press_start x11 k).1
  unfolding press_start
  press_start-Steady k s =
      let r = checked_x11 x11 (done tt, with_call set_input_focus k) in
      let focused = checked-Steady (done tt, with_call set_input_focus k) s in
      go_on Steady r.0 r.1 (press x11 space r.1) focused (λ _. press-Steady space r.1 focused)

  release_all-Proper :
      (codes : List ℕ) (calls : List XCall)
      → Proper none calls
      → Proper none (release_all codes calls)
  unfolding release_all
  release_all-Proper [] calls p = p
  release_all-Proper (code ∷ codes) calls p =
      release_all-Proper codes (fake_key code false ∷ calls) (Proper-up (some code) calls p)

  close-Steady : (k : Keyboard) → Steady k → Steady (close_keyboard k)
  unfolding close_keyboard
  close-Steady k s =
      branch Steady k.display _ _ (λ _. (s.0, release_all-Proper k.pressed k.calls s.1)) (λ _. s)

  method-Steady : (m : Method) (k : Keyboard) → Steady k → Steady (method x11 m k)
  unfolding method tap
  method-Steady starts k s = press_start-Steady k s
  method-Steady (taps lane) k s = press-Steady ((b'a' + lane) ∷ []) k s
  method-Steady closes k s = close-Steady k s

  -- Whatever X11 and XTest answer, after any calls of `start`, `tap` and `close` on a keyboard with
  -- such a history, each key that was sent down was sent up by the very next call, and the focus had
  -- been found at the keyboard's own window right before it went down.
  pub methods-Steady : (ms : List Method) (k : Keyboard) → Steady k → Steady (methods x11 ms k)
  unfolding methods
  methods-Steady [] k s = s
  methods-Steady (m ∷ ms) k s = methods-Steady ms (method x11 m k) (method-Steady m k s)
