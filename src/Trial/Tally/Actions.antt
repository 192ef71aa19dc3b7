-- ===== src/Trial/Tally/Actions.antt =====
-- Which steps of the bridge give actions their numbers, and what an observation may raise.
use chers.Base.{
  ℕ, ◌+◌, ◌≡◌, refl, ◌∙◌, Bool, true, false, ◌||◌, Option, none, some, List, [], ◌∷◌, arith, branch,
  leb, ltb, length, if◌then◌else◌,
}
use chers.Bridge.State.{
  Bridge, BridgeError, Frame, Outcome, done, raised, bridge_failed, bridge_closed_already, check,
  max_observations, max_png_bytes,
}
use chers.Bridge.Actions.{Floats}
use chers.Bridge.Operations.{fail, capture_once, take_latest, observe_take, observe_store}
use chers.Bridge.Dispatch.{start_game, dispatch, dispatch_due}
use chers.Bridge.Steps.{handled, step, run}
use chers.Bridge.Steps.Dispatching.{guarded, dispatch-Within}
use chers.Bridge.Steps.Quiet.{capture-Quiet, take-Quiet}
use chers.Trial.{Work, captured, dispatched, as_call, Round, is_argument_error}
use chers.Trial.Calls.{work, then_store, observe}

-- So many actions have been proposed.
abbrev pub Numbers : ℕ → Bridge → Type 0
Numbers n b = b.next_action ≡ n

-- An outcome that is no argument error.
abbrev pub Graver : {A : Type 0} → Outcome A × Bridge → Type 0
Graver (raised e, b) = is_argument_error e ≡ false
Graver (done a, b) = Unit

check-Graver : (b : Bridge) (e : BridgeError) → check b ≡ some e → is_argument_error e ≡ false
unfolding check
check-Graver b e h = by_failure b.failure b.closed h
  where
    by_failure :
        (f : Option BridgeError) (closed : Bool)
        → elim f as (λ _. Option BridgeError) [
          | some x ↦ some bridge_failed
          | none ↦ if closed then some bridge_closed_already else none
        ]
          ≡ some e
        → is_argument_error e ≡ false
    by_failure (some x) closed h = let same : bridge_failed ≡ e = cc h in rw (← same) refl
    by_failure none true h = let same : bridge_closed_already ≡ e = cc h in rw (← same) refl
    by_failure none false h = absurd (cc h)

module _ (clock : ℕ → ℕ) (key_works : ℕ → ℕ → Bool) where
  fail-next_action : (e : BridgeError) (b : Bridge) → (fail clock e b).next_action ≡ b.next_action
  unfolding fail
  fail-next_action e b = ground arith

  handled-next_action :
      {A : Type 0} (r : Outcome A × Bridge) → (handled clock r).next_action ≡ r.1.next_action
  handled-next_action (done a, b) = refl
  handled-next_action (raised e, b) = fail-next_action e b

  dispatch_due-next_action :
      (b : Bridge) → (dispatch_due clock key_works b).1.next_action ≡ b.next_action
  unfolding dispatch_due
  dispatch_due-next_action b =
      guarded (λ r. r.1.next_action ≡ b.next_action) (check b) b
        (dispatch clock key_works b.pending b) (λ e. refl)
        (λ _. (dispatch-Within clock key_works b.pending b).0.next_action)

  pub start-next_action :
      (b : Bridge) → (start_game clock key_works b).1.next_action ≡ b.next_action
  unfolding start_game
  start-next_action b =
      guarded (λ r. r.1.next_action ≡ b.next_action) (check b) b _ (λ e. refl) (λ _. ground arith)

  store-next_action :
      (receipt : ℕ) (png : List ℕ) (b : Bridge)
      → (observe_store clock receipt png b).1.next_action ≡ b.next_action
  unfolding observe_store
  store-next_action receipt png b =
      guarded (λ r. r.1.next_action ≡ b.next_action) (check b) b _ (λ e. refl) (λ _. ground arith)

  pub guarded-Graver :
      (A : Type 0) (b : Bridge) (body : Outcome A × Bridge)
      → (check b ≡ none → Graver body)
      → Graver
          (elim (check b) as (λ _. Outcome A × Bridge) [ some e ↦ (raised e, b) | none ↦ body ])
  guarded-Graver A b body g = by_check (check b) refl
    where
      by_check :
          (m : Option BridgeError)
          → check b ≡ m
          → Graver (elim m as (λ _. Outcome A × Bridge) [ some e ↦ (raised e, b) | none ↦ body ])
      by_check none q = g q
      by_check (some e) q = check-Graver b e q

  store-Graver :
      (receipt : ℕ) (png : List ℕ) (b : Bridge) → Graver (observe_store clock receipt png b)
  unfolding observe_store
  store-Graver receipt png b = guarded-Graver ℕ b _ (λ _.
      branch Graver
        (leb max_observations (length b.observations)
          || ltb max_png_bytes (b.png_bytes + length png))
        _ _ (λ _. refl) (λ _. tt))

  take_latest-Graver : (o : Option Frame) (b : Bridge) → Graver (take_latest clock o b)
  take_latest-Graver none b = refl
  take_latest-Graver (some f) b =
      branch Graver (leb f.number b.last_returned_frame) _ _ (λ _. refl) (λ _. tt)

  take-Graver : (b : Bridge) → Graver (observe_take clock b)
  unfolding observe_take
  take-Graver b = guarded-Graver Frame b _ (λ _. take_latest-Graver b.latest b)

module _ (clock : ℕ → ℕ) (key_works : ℕ → ℕ → Bool) (floats : Floats) (other_upper : ℕ → List ℕ)
    (encode : List ℕ → List ℕ) where
  open floats use {Float}

  step-next_action :
      (w : Work) (b : Bridge)
      → (step clock key_works floats other_upper (as_call w) b).next_action ≡ b.next_action
  unfolding step
  step-next_action (captured frame) b =
      handled-next_action clock key_works (capture_once clock frame b)
      ∙ (capture-Quiet clock frame b).same.next_action
  step-next_action dispatched b =
      handled-next_action clock key_works (dispatch_due clock key_works b)
      ∙ dispatch_due-next_action clock key_works b

  pub work-next_action :
      (ws : List Work) (b : Bridge)
      → (work clock key_works floats other_upper encode ws b).next_action ≡ b.next_action
  unfolding work run
  work-next_action [] b = refl
  work-next_action (w ∷ ws) b =
      work-next_action ws (step clock key_works floats other_upper (as_call w) b)
      ∙ step-next_action w b

  then_store-next_action :
      (r : Round Float) (taken : Outcome Frame × Bridge)
      → ((then_store clock key_works floats other_upper encode r taken).1.next_action
          ≡ taken.1.next_action)
        × (Graver taken → Graver (then_store clock key_works floats other_upper encode r taken))
  then_store-next_action r (raised e, b) = (refl, λ g. g)
  then_store-next_action r (done f, b) = (
    store-next_action clock key_works f.receipt (encode f.pixels) _ ∙ work-next_action r.encoding b,
    λ g. store-Graver clock key_works f.receipt (encode f.pixels) _,
  )

  -- An observation gives no action its number, and raises no argument error.
  pub observe-Graver :
      (r : Round Float) (b : Bridge)
      → ((observe clock key_works floats other_upper encode r b).1.next_action ≡ b.next_action)
        × Graver (observe clock key_works floats other_upper encode r b)
  unfolding observe
  observe-Graver r b =
      let waited = work clock key_works floats other_upper encode r.waiting b in
      let (same, grave) = then_store-next_action r (observe_take clock waited) in
      (
        same ∙ (take-Quiet clock waited).same.next_action ∙ work-next_action r.waiting b,
        grave (take-Graver clock key_works waited),
      )
