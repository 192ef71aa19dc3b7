-- ===== src/Keyboard/Opening/Opened.antt =====
-- Which keyboards `XTestKeyboard.__init__` opens.
use chers.Base.{
  ℕ, suc, ◌<◌, ◌≡◌, refl, ap, Bool, true, false, not, ◌&&◌, Option, none, some, List, [], ◌∷◌, inl,
  inr, Bool-cases, branch, arith, ◌==◌, pos,
}
use chers.Base.Decimal.{starts_with}
use chers.Keyboard.{KeyResult, done, raised, Keyboard, inspect, record_all}
use chers.Keyboard.Opening.{
  property32, is_owner, NumberArgument, whole, positive, Desktop, chers_title, key_names, map_keys,
  owner_result, title_result, then_, fetched, verify_window, keyboard_of, open_keyboard,
}
use chers.Keyboard.Opening.Owned.{is_owner-eq}

-- The codes are those of the given key_names, in order, and none is 0.
abbrev pub Mapped : (List ℕ → ℕ) → List (List ℕ) → List (List ℕ × ℕ) → Type 0
Mapped keycode [] codes = codes ≡ []
Mapped keycode (key ∷ rest) [] = ⊥
Mapped keycode (key ∷ rest) ((k, code) ∷ codes) =
    (k ≡ key) × (code ≡ keycode key) × (0 < code) × Mapped keycode rest codes

-- The owner is the expected one, where one is expected.
abbrev pub ExpectedOwner : Option ℕ → KeyResult (List ℕ) → Type 0
ExpectedOwner none owners = Unit
ExpectedOwner (some pid) owners = owners ≡ done (pid ∷ [])

abbrev pub Titled : Option (List ℕ) → Type 0
Titled none = ⊥
Titled (some title) = starts_with chers_title title ≡ true

abbrev pub is_positive : Option ℕ → Bool
is_positive none = false
is_positive (some n) = true

-- An opened keyboard is on the given window, which has the title and the owner, with no key pressed;
-- and its key_names have the codes of the desktop. A raise has closed the display if it was opened.
abbrev pub Opened : Desktop → NumberArgument → Option ℕ → KeyResult Keyboard × Bool → Type 0
Opened d window_id expected_pid (raised e, display_closed) =
    display_closed ≡ (is_positive (positive window_id) && (d.threads && d.opens))
Opened d window_id expected_pid (done k, display_closed) =
    (positive window_id ≡ some k.window)
    × Titled d.title
    × ExpectedOwner expected_pid (property32 d.owners)
    × Mapped d.keycode key_names k.codes
    × (k.display ≡ true)
    × (k.pressed ≡ [])
    × (k.calls ≡ [])
    × (display_closed ≡ false)

-- What `verify_window` returns.
abbrev Verified : Desktop → Option ℕ → KeyResult (List (List ℕ × ℕ)) → Type 0
Verified d expected_pid (raised e) = Unit
Verified d expected_pid (done codes) =
    Titled d.title
    × ExpectedOwner expected_pid (property32 d.owners)
    × Mapped d.keycode key_names codes

abbrev MappedResult : (List ℕ → ℕ) → List (List ℕ) → KeyResult (List (List ℕ × ℕ)) → Type 0
MappedResult keycode ks (raised e) = Unit
MappedResult keycode ks (done codes) = Mapped keycode ks codes

map_keys-Mapped :
    (keycode : List ℕ → ℕ) (ks : List (List ℕ)) → MappedResult keycode ks (map_keys keycode ks)
unfolding map_keys
map_keys-Mapped keycode [] = refl
map_keys-Mapped keycode (key ∷ rest) =
    branch (MappedResult keycode (key ∷ rest)) (keycode key == 0) _ _ (λ _. tt)
      (λ mapped. step (map_keys keycode rest) (ground arith) (map_keys-Mapped keycode rest))
  where
    step :
        (r : KeyResult (List (List ℕ × ℕ)))
        → 0 < keycode key
        → MappedResult keycode rest r
        → MappedResult keycode (key ∷ rest) (elim r as (λ _. KeyResult (List (List ℕ × ℕ))) [
          | raised e ↦ raised e
          | done cs ↦ done ((key, keycode key) ∷ cs)
        ])
    step (raised e) p m = tt
    step (done cs) p m = (refl, refl, p, m)

then-Verified :
    (d : Desktop) (expected_pid : Option ℕ) (r : KeyResult (Unit {0}))
    (rest : KeyResult (List (List ℕ × ℕ)))
    → (r ≡ done tt → Verified d expected_pid rest)
    → Verified d expected_pid (then_ r rest)
then-Verified d expected_pid (raised e) rest f = tt
then-Verified d expected_pid (done _) rest f = f refl

title_result-Titled : (title : Option (List ℕ)) → title_result title ≡ done tt → Titled title
title_result-Titled none h = absurd (cc h)
title_result-Titled (some title) h = ground arith

owner_result-ExpectedOwner :
    (expected_pid : Option ℕ) (owners : KeyResult (List ℕ))
    → owner_result expected_pid owners ≡ done tt
    → ExpectedOwner expected_pid owners
owner_result-ExpectedOwner none owners h = tt
owner_result-ExpectedOwner (some pid) (raised e) h = absurd (cc h)
owner_result-ExpectedOwner (some pid) (done owners) h = elim (Bool-cases (is_owner owners pid)) [
  | inl own ↦ ap done (is_owner-eq owners pid own)
  | inr other ↦ absurd (ground arith)
]

verify_window-Verified :
    (d : Desktop) (expected_pid : Option ℕ) → Verified d expected_pid (verify_window d expected_pid)
unfolding verify_window
verify_window-Verified d expected_pid =
    then-Verified d expected_pid (fetched (inspect false (record_all [] d.errors) tt)) _ (λ _.
      then-Verified d expected_pid (title_result d.title) _ (λ titled.
        then-Verified d expected_pid (owner_result expected_pid (property32 d.owners)) _ (λ owned.
          mapped titled owned (map_keys d.keycode key_names)
            (map_keys-Mapped d.keycode key_names))))
  where
    mapped :
        title_result d.title ≡ done tt
        → owner_result expected_pid (property32 d.owners) ≡ done tt
        → (r : KeyResult (List (List ℕ × ℕ))) → MappedResult d.keycode key_names r
        → Verified d expected_pid r
    mapped titled owned (raised e) m = tt
    mapped titled owned (done codes) m = (
      title_result-Titled d.title titled,
      owner_result-ExpectedOwner expected_pid (property32 d.owners) owned,
      m,
    )

keyboard_of-Opened :
    (d : Desktop) (window_id : NumberArgument) (expected_pid : Option ℕ) (window : ℕ)
    (r : KeyResult (List (List ℕ × ℕ)))
    → positive window_id ≡ some window
    → (d.threads && d.opens) ≡ true
    → Verified d expected_pid r
    → Opened d window_id expected_pid (keyboard_of window r)
keyboard_of-Opened d window_id expected_pid window (raised e) w t v = rw (w, t) refl
keyboard_of-Opened d window_id expected_pid window (done codes) w t v =
    (w, v.0, v.1, v.2, refl, refl, refl, refl)

-- Whatever the desktop, a keyboard is opened only for a positive window number, on a window whose
-- title begins with CHERS and whose only owner is the expected process, if one is expected; it has
-- the non-zero codes of START and of the sixteen lanes, its display open, no key pressed and no call
-- made. A display that was opened is closed when `__init__` raises, and only then.
pub open_keyboard-Opened :
    (d : Desktop) (window_id : NumberArgument) (expected_pid : Option ℕ)
    → Opened d window_id expected_pid (open_keyboard d window_id expected_pid)
unfolding open_keyboard
open_keyboard-Opened d (whole (pos (suc n))) expected_pid =
    branch (Opened d (whole (pos (suc n))) expected_pid) (not d.threads) _ _ (λ t. ground arith)
      (λ t.
        branch (Opened d (whole (pos (suc n))) expected_pid) (not d.opens) _ _ (λ o. ground arith)
          (λ o.
            keyboard_of-Opened d (whole (pos (suc n))) expected_pid (suc n)
              (verify_window d expected_pid) refl (ground arith)
              (verify_window-Verified d expected_pid)))
open_keyboard-Opened d _ expected_pid = refl
