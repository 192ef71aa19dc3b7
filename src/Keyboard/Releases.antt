-- ===== src/Keyboard/Releases.antt =====
-- Which keys a keyboard takes as pressed, and what `close` does about them.
use chers.Base.{
  ℕ, ◌+◌, ◌≡◌, refl, sym, subst, ◌⊎◌, Bool, true, false, not, Option, none, some, List, [], ◌∷◌,
  inl, inr, branch, arith, ==_iff, ◌==◌,
}
use chers.Base.Predicates.{All, All-append, All-map, count}
use chers.Keyboard.{
  X11, XCall, set_input_focus, sync, fake_key, Keyboard, KeyResult, done, checked_x11, assert_focus,
  with_call, pair, press_code, find_code, press, add, discard, holds, press_start, space, tap,
  release_all, close_keyboard, Method, starts, closes, taps, method, methods,
}
use chers.Keyboard.Presses.{checked-state, assert_focus-state, go_on}

-- How often a key was sent up.
abbrev pub is_release : ℕ → XCall → Bool
is_release code (fake_key c false) = c == code
is_release code _ = false

count-release_all :
    (code : ℕ) (codes : List ℕ) (calls : List XCall)
    → count (is_release code) (release_all codes calls)
      ≡ count (is_release code) calls + count (λ c. c == code) codes
unfolding release_all
count-release_all code [] calls = omega arith
count-release_all code (c ∷ cs) calls =
    ground (arith, count-release_all code cs (fake_key c false ∷ calls))

module _ (x11 : X11) where
  -- A release of the key has been refused.
  abbrev pub Refused : List XCall → ℕ → Type 0
  Refused [] code = ⊥
  Refused (fake_key c false ∷ calls) code =
      ((c ≡ code) × (x11.accepts_key calls ≡ false)) ⊎ Refused calls code
  Refused (_ ∷ calls) code = Refused calls code

  -- The keys that count as pressed are only those.
  abbrev pub Stuck : Keyboard → Type 0
  Stuck k = All (Refused k.calls) k.pressed

  All-discard :
      (P : ℕ → Type 0) (code : ℕ) (pressed : List ℕ)
      → All (λ c. (c ≡ code) ⊎ P c) pressed
      → All P (discard code pressed)
  All-discard P code [] h = tt
  All-discard P code (c ∷ cs) (inl same, h) = rw ((==_iff c code).1 same) (All-discard P code cs h)
  All-discard P code (c ∷ cs) (inr p, h) =
      branch (All P) (c == code) _ _ (λ _. All-discard P code cs h)
        (λ _. (p, All-discard P code cs h))

  All-add :
      (P : ℕ → Type 0) (code : ℕ) (pressed : List ℕ)
      → P code
      → All P pressed
      → All P (add code pressed)
  All-add P code pressed p h =
      branch (All P) (holds code pressed) _ _ (λ _. h)
        (λ _. All-append P pressed (code ∷ []) h (p, tt))

  pair-Stuck : (code : ℕ) (k : Keyboard) → Stuck k → Stuck (pair x11 code k).1
  unfolding pair
  pair-Stuck code k s =
      branch (λ (r : KeyResult (Unit {0}) × Keyboard). Stuck r.1) (x11.accepts_key lowered) _ _
        (λ _. All-discard (Refused calls) code (add code k.pressed) (
          All-add (λ c. (c ≡ code) ⊎ Refused calls c) code k.pressed (inl refl)
            (All-map (Refused k.calls) _ k.pressed (λ c r. inr (inr r)) s)))
        (λ refused.
          All-add (Refused calls) code k.pressed (inl (refl, refused))
            (All-map (Refused k.calls) (Refused calls) k.pressed (λ c r. inr r) s))
    where
      lowered : List XCall
      lowered = fake_key code true ∷ k.calls

      calls : List XCall
      calls = fake_key code false ∷ lowered

  checked-Stuck : (r : KeyResult (Unit {0}) × Keyboard) → Stuck r.1 → Stuck (checked_x11 x11 r).1
  checked-Stuck r s = subst Stuck (sym (checked-state x11 0 r)) s

  press_code-Stuck : (o : Option ℕ) (k : Keyboard) → Stuck k → Stuck (press_code x11 o k).1
  press_code-Stuck none k s = s
  press_code-Stuck (some code) k s = checked-Stuck (pair x11 code k) (pair-Stuck code k s)

  press-Stuck : (key : List ℕ) (k : Keyboard) → Stuck k → Stuck (press x11 key k).1
  unfolding press
  press-Stuck key k s =
      branch (λ (r : KeyResult (Unit {0}) × Keyboard). Stuck r.1) (not k.display) _ _ (λ _. s)
        (λ _.
          let r = assert_focus x11 k in
          let focused : Stuck r.1 = subst Stuck (sym (assert_focus-state x11 0 k).0) s in
          go_on x11 0 Stuck r.0 r.1 (press_code x11 (find_code key r.1.codes) r.1) focused
            (λ _. press_code-Stuck (find_code key r.1.codes) r.1 focused))

  press_start-Stuck : (k : Keyboard) → Stuck k → Stuck (press_start x11 k).1
  unfolding press_start
  press_start-Stuck k s =
      let r = checked_x11 x11 (done tt, with_call set_input_focus k) in
      let focused = checked-Stuck (done tt, with_call set_input_focus k) s in
      go_on x11 0 Stuck r.0 r.1 (press x11 space r.1) focused (λ _. press-Stuck space r.1 focused)

  close-Stuck : (k : Keyboard) → Stuck k → Stuck (close_keyboard k)
  unfolding close_keyboard
  close-Stuck k s = branch Stuck k.display _ _ (λ _. tt) (λ _. s)

  method-Stuck : (m : Method) (k : Keyboard) → Stuck k → Stuck (method x11 m k)
  unfolding method tap
  method-Stuck starts k s = press_start-Stuck k s
  method-Stuck (taps lane) k s = press-Stuck ((b'a' + lane) ∷ []) k s
  method-Stuck closes k s = close-Stuck k s

  -- After any calls of the methods, the keys that the keyboard takes as pressed are only keys whose
  -- release XTest has refused, if this was so before.
  pub methods-Stuck : (ms : List Method) (k : Keyboard) → Stuck k → Stuck (methods x11 ms k)
  unfolding methods
  methods-Stuck [] k s = s
  methods-Stuck (m ∷ ms) k s = methods-Stuck ms (method x11 m k) (method-Stuck m k s)

  -- A closed keyboard without pressed keys, whose calls since then, if any, are those of `start`: a
  -- try to set the focus and the synchronisation behind it.
  abbrev pub Refocused : List XCall → List XCall → Type 0
  Refocused before (sync ∷ set_input_focus ∷ calls) =
      ((sync ∷ set_input_focus ∷ calls) ≡ before) ⊎ Refocused before calls
  Refocused before calls = calls ≡ before

  pub record Shut (before : List XCall) (k : Keyboard) : Type 0 where
    pub display : k.display ≡ false
    pub pressed : k.pressed ≡ []
    pub calls : Refocused before k.calls

  press-closed : (key : List ℕ) (k : Keyboard) → k.display ≡ false → (press x11 key k).1 ≡ k
  unfolding press
  press-closed key k e = rw e refl

  start-Shut :
      (before : List XCall) (k : Keyboard) → Shut before k → Shut before (press_start x11 k).1
  unfolding press_start
  start-Shut before k s =
      let r = checked_x11 x11 (done tt, with_call set_input_focus k) in
      let focused : Shut before r.1 =
        subst (Shut before) (sym (checked-state x11 0 (done tt, with_call set_input_focus k)))
          (record { display = s.display; pressed = s.pressed; calls = inr s.calls }) in
      go_on x11 0 (Shut before) r.0 r.1 (press x11 space r.1) focused
        (λ _. subst (Shut before) (sym (press-closed space r.1 focused.display)) focused)

  method-Shut :
      (before : List XCall) (m : Method) (k : Keyboard)
      → Shut before k
      → Shut before (method x11 m k)
  unfolding method tap close_keyboard
  method-Shut before starts k s = start-Shut before k s
  method-Shut before (taps lane) k s =
      subst (Shut before) (sym (press-closed ((b'a' + lane) ∷ []) k s.display)) s
  method-Shut before closes k s =
      branch (Shut before) k.display _ _ (λ opens. absurd (cc (opens, s.display))) (λ _. s)

  methods-Shut :
      (before : List XCall) (ms : List Method) (k : Keyboard)
      → Shut before k
      → Shut before (methods x11 ms k)
  unfolding methods
  methods-Shut before [] k s = s
  methods-Shut before (m ∷ ms) k s =
      methods-Shut before ms (method x11 m k) (method-Shut before m k s)

  -- Closing an open keyboard sends each key that it takes as pressed up once more, and no other, takes
  -- none as pressed afterwards, and closes the display as its last call. Whatever methods follow, and
  -- whatever X11 answers, the display stays closed, no key is taken as pressed, and the only calls are
  -- tries of `start` to set the focus, each with its synchronisation: no key is sent.
  pub close-Releases :
      (k : Keyboard) (code : ℕ) (ms : List Method)
      → k.display ≡ true
      → let k' = close_keyboard k in
        (count (is_release code) k'.calls
          ≡ count (is_release code) k.calls + count (λ c. c == code) k.pressed)
        × Shut k'.calls (methods x11 ms k')
  unfolding close_keyboard
  close-Releases k code ms e = rw e (
    count-release_all code k.pressed k.calls,
    methods-Shut _ ms _ (record { display = refl; pressed = refl; calls = refl }),
  )
