-- ===== src/Trial/Calls/Answers.antt =====
-- What a tool call is answered with, and what it leaves.
use chers.Base.{
  not-false, ℕ, ◌≡◌, refl, ap, Bool, true, false, not, Option, none, some, List, ℤ, branch,
}
use chers.Bridge.State.{Bridge, BridgeError, Outcome, done, raised, identifier}
use chers.Bridge.Actions.{Floats, ActionsValue}
use chers.Bridge.Actions.Bounds.{handed_in}
use chers.Bridge.Operations.{Counts}
use chers.Bridge.Operations.Submits.{Submitted, submit-Submitted}
use chers.Bridge.Dispatch.{start_game}
use chers.Trial.{
  Json, not_object, other_object, actions_object, Arguments, Round, Seen, decided,
  invalid_arguments, Trial, is_argument_error, load_arguments, is_no_actions,
}
use chers.Trial.Calls.{
  Verdict, result, escaped, CallAttempt, bridge_raise, overlaps, reference_of, find_receipt,
  record_seen, after_observe, after_start, after_submit, submit_for, use_actions, use_json, attempt,
}
use chers.Trial.Tally.Actions.{Graver, guarded-Graver, observe-Graver}

-- A call before START has no actions.
abbrev pub FirstEmpty : {F : Type 0} → Option ℕ → ActionsValue F → Type 0
FirstEmpty none actions = is_no_actions actions ≡ true
FirstEmpty (some start) actions = Unit

-- The trial has seen an observation that its bridge has logged with this receipt.
abbrev pub Sees : ℕ → Option Seen → Trial → Type 0
Sees number none t = ⊥
Sees number (some o) t =
    (o.number ≡ number) × (find_receipt number t.bridge.events ≡ some o.receipt_ns)

-- What is refused leaves the trial as it was. What is accepted did not overlap, is an object with
-- just its actions, none of them before START, and has left an observation.
abbrev pub Answers : {F : Type 0} → ℕ → Arguments F → Trial → Verdict → Trial → Type 0
Answers received args t (escaped e) u = Unit
Answers received args t (result (invalid_arguments reason)) u = u ≡ t
Answers {F} received args t (result (decided counts number)) u =
    (overlaps received t.last_observation ≡ false)
    × ((actions : ActionsValue F) × (load_arguments args ≡ some (actions_object actions))
        × FirstEmpty t.start_ns actions)
    × Sees number u.last_observation u

-- The same, for arguments that are known to be good.
abbrev LeavesBy : Trial → Verdict → Trial → Type 0
LeavesBy t (escaped e) u = Unit
LeavesBy t (result (invalid_arguments reason)) u = u ≡ t
LeavesBy t (result (decided counts number)) u = Sees number u.last_observation u

abbrev Leaves : Trial → CallAttempt → Type 0
Leaves t a = LeavesBy t a.verdict a.trial

bridge_raise-Leaves :
    (e : BridgeError) (t u : Trial)
    → (is_argument_error e ≡ true → u ≡ t)
    → LeavesBy t (bridge_raise e) u
bridge_raise-Leaves e t u f = branch (λ v. LeavesBy t v u) (is_argument_error e) _ _ f (λ _. tt)

contradiction : {A : Type 0} (b : Bool) → b ≡ false → b ≡ true → A
contradiction b p q = absurd (cc (p, q))

module _ (clock : ℕ → ℕ) (key_works : ℕ → ℕ → Bool) (floats : Floats) (other_upper : ℕ → List ℕ)
    (encode : List ℕ → List ℕ) where
  open floats use {Float}

  start-Graver : (b : Bridge) → Graver (start_game clock key_works b)
  unfolding start_game
  start-Graver b = guarded-Graver clock key_works (Unit {0}) b _ (λ _.
      branch Graver b.started _ _ (λ _. refl)
        (λ _. branch Graver (key_works b.ticks 16) _ _ (λ _. tt) (λ _. refl)))

  after_observe-Leaves :
      (r : Round Float) (counts : Counts) (reference : Option (ℕ × ℤ)) (t u : Trial)
      (o : Outcome ℕ × Bridge)
      → Graver o
      → Leaves t (after_observe clock key_works floats other_upper encode r counts reference u o)
  unfolding after_observe
  after_observe-Leaves r counts reference t u (raised e, b) g =
      bridge_raise-Leaves e t _ (contradiction _ g)
  after_observe-Leaves r counts reference t u (done number, b) g =
      by_receipt (find_receipt number b.events) refl
    where
      by_receipt :
          (o : Option ℕ)
          → find_receipt number b.events ≡ o
          → Leaves t (
              record_seen clock key_works floats other_upper encode r counts reference number
                (record u { bridge = b })
                o)
      by_receipt none e = tt
      by_receipt (some receipt) e = (refl, e)

  after_start-Leaves :
      (r : Round Float) (reference : Option (ℕ × ℤ)) (t : Trial) (o : Outcome (Unit {0}) × Bridge)
      → Graver o
      → Leaves t (after_start clock key_works floats other_upper encode r reference t o)
  after_start-Leaves r reference t (raised e, b) g = bridge_raise-Leaves e t _ (contradiction _ g)
  after_start-Leaves r reference t (done _, b) g =
      after_observe-Leaves r _ reference t _ _
        (observe-Graver clock key_works floats other_upper encode r b).1

  after_submit-Leaves :
      (n : ℕ) (r : Round Float) (reference : Option (ℕ × ℤ)) (t : Trial)
      (o : Outcome Counts × Bridge)
      → Submitted n t.bridge o
      → Leaves t (after_submit clock key_works floats other_upper encode r reference t o)
  after_submit-Leaves n r reference t (raised e, b) sub =
      bridge_raise-Leaves e t _ (λ _. ap (λ b. record t { bridge = b }) sub)
  after_submit-Leaves n r reference t (done counts, b) sub =
      after_observe-Leaves r counts reference t _ _
        (observe-Graver clock key_works floats other_upper encode r b).1

  submit_for-Leaves :
      (r : Round Float) (reference : Option (ℕ × ℤ)) (actions : ActionsValue Float)
      (seen : Option Seen) (t : Trial)
      → Leaves t (submit_for clock key_works floats other_upper encode r reference actions seen t)
  submit_for-Leaves r reference actions none t = refl
  submit_for-Leaves r reference actions (some o) t =
      after_submit-Leaves (handed_in floats actions) r reference t _
        (submit-Submitted floats other_upper clock (identifier o.number) actions t.bridge)

  -- A good call is answered so.
  Leaves-Answers :
      (received : ℕ) (args : Arguments Float) (actions : ActionsValue Float) (t : Trial)
      (v : Verdict) (u : Trial)
      → overlaps received t.last_observation ≡ false
      → load_arguments args ≡ some (actions_object actions)
      → FirstEmpty t.start_ns actions
      → LeavesBy t v u
      → Answers received args t v u
  Leaves-Answers received args actions t (escaped e) u o l f k = tt
  Leaves-Answers received args actions t (result (invalid_arguments reason)) u o l f k = k
  Leaves-Answers received args actions t (result (decided counts number)) u o l f k =
      (o, (actions, l, f), k)

  use_actions-Answers :
      (r : Round Float) (received : ℕ) (args : Arguments Float) (reference : Option (ℕ × ℤ))
      (actions : ActionsValue Float) (start : Option ℕ) (t : Trial)
      → t.start_ns ≡ start
      → overlaps received t.last_observation ≡ false
      → load_arguments args ≡ some (actions_object actions)
      → (let a =
            use_actions clock key_works floats other_upper encode r reference actions start t in
          Answers received args t a.verdict a.trial)
  use_actions-Answers r received args reference actions none t s o l =
      branch (λ (a : CallAttempt). Answers received args t a.verdict a.trial)
        (not (is_no_actions actions)) _ _ (λ _. refl)
        (λ empty.
          Leaves-Answers received args actions t _ _ o l
            (rw s (not-false (is_no_actions actions) empty))
            (after_start-Leaves r reference t (start_game clock key_works t.bridge)
              (start-Graver t.bridge)))
  use_actions-Answers r received args reference actions (some start) t s o l =
      Leaves-Answers received args actions t _ _ o l (rw s tt)
        (submit_for-Leaves r reference actions t.last_observation t)

  use_json-Answers :
      (r : Round Float) (received : ℕ) (args : Arguments Float) (value : Option (Json Float))
      (t : Trial)
      → load_arguments args ≡ value
      → (let a = use_json clock key_works floats other_upper encode r received value t in
          Answers received args t a.verdict a.trial)
  use_json-Answers r received args none t l = refl
  use_json-Answers r received args (some not_object) t l = refl
  use_json-Answers r received args (some other_object) t l =
      branch (λ (a : CallAttempt). Answers received args t a.verdict a.trial)
        (overlaps received t.last_observation) _ _ (λ _. refl) (λ _. refl)
  use_json-Answers r received args (some (actions_object actions)) t l =
      branch (λ (a : CallAttempt). Answers received args t a.verdict a.trial)
        (overlaps received t.last_observation) _ _ (λ _. refl)
        (λ o.
          use_actions-Answers r received args (reference_of received t.last_observation) actions
            t.start_ns t refl o l)

  -- A tool call that is refused leaves the whole trial as it was, its bridge included. One that is
  -- accepted was received no earlier than the last observation was returned; its arguments are an
  -- object with just its actions, and no actions before START; and the observation that it returns is
  -- then the last one, with the receipt that the bridge's log has for it.
  pub attempt-Answers :
      (r : Round Float) (received : ℕ) (args : Arguments Float) (t : Trial)
      → let a = attempt clock key_works floats other_upper encode r received args t in
        Answers received args t a.verdict a.trial
  unfolding attempt
  attempt-Answers r received args t = use_json-Answers r received args (load_arguments args) t refl
