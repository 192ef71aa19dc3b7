-- ===== src/Trial/Tally/Attempts.antt =====
-- A tool call, and what it adds to the count of actions.
use chers.Base.{
  ℕ, ◌+◌, ◌≤◌, ◌≡◌, refl, ap, sym, subst, Bool, false, not, Option, none, some, List, ℤ, arith,
  branch,
}
use chers.Bridge.State.{max_actions, Bridge, BridgeError, Outcome, done, raised, identifier}
use chers.Bridge.Actions.{Floats, ActionsValue}
use chers.Bridge.Actions.Bounds.{handed_in}
use chers.Bridge.Operations.{Counts}
use chers.Bridge.Operations.Submits.{Submitted, submit-Submitted, Few, submit-Few}
use chers.Bridge.Dispatch.{start_game}
use chers.Trial.{
  Json, not_object, other_object, actions_object, Round, Refusal, Seen, Trial, is_argument_error,
  is_no_actions,
}
use chers.Trial.Calls.{
  Verdict, result, escaped, CallAttempt, bridge_raise, overlaps, reference_of, find_receipt,
  record_seen, observe, after_observe, after_start, after_submit, reject, submit_for, use_actions,
  use_json,
}
use chers.Trial.Tally.Actions.{Graver, start-next_action, observe-Graver}
use chers.Trial.Tally.{accepted, Early, Tally}

abbrev pub Weighs : ℕ → Verdict → ℕ → Type 0
Weighs n (result r) m = (m ≡ n + accepted r) × (accepted r ≤ max_actions)
Weighs n (escaped e) m = (n ≤ m) × (m ≤ n + max_actions)

pub record Attempted (t : Trial) (a : CallAttempt) : Type 0 where
  pub decisions : a.trial.decisions ≡ t.decisions
  pub responses : a.trial.responses ≡ t.responses
  pub weighs : Weighs t.bridge.next_action a.verdict a.trial.bridge.next_action
  pub early : Early a.trial.start_ns a.trial.bridge.next_action

bridge_raise-Weighs : (e : BridgeError) (m n : ℕ) → m ≡ n → Weighs n (bridge_raise e) m
bridge_raise-Weighs e m n same =
    branch (λ v. Weighs n v m) (is_argument_error e) _ _ (λ _. (omega (arith, same), omega arith))
      (λ _. (omega (arith, same), omega (arith, same)))

bridge_raise-escaped :
    (e : BridgeError) (m n : ℕ)
    → is_argument_error e ≡ false
    → (n ≤ m) × (m ≤ n + max_actions)
    → Weighs n (bridge_raise e) m
bridge_raise-escaped e m n grave le = rw grave le

module _ (clock : ℕ → ℕ) (key_works : ℕ → ℕ → Bool) (floats : Floats) (other_upper : ℕ → List ℕ)
    (encode : List ℕ → List ℕ) where
  open floats use {Float}

  reject-Attempted :
      (reason : Refusal) (reference : Option (ℕ × ℤ)) (t : Trial)
      → Tally t
      → Attempted t (reject clock key_works floats other_upper encode reason reference t)
  reject-Attempted reason reference t v = record {
    decisions = refl;
    responses = refl;
    weighs = (omega arith, omega arith);
    early = v.early;
  }

  -- After an observation of a started trial; `t` is the trial before the call.
  after_observe-Attempted :
      (r : Round Float) (counts : Counts) (reference : Option (ℕ × ℤ)) (t u : Trial) (start : ℕ)
      (o : Outcome ℕ × Bridge)
      → u.start_ns ≡ some start
      → (u.decisions ≡ t.decisions) × (u.responses ≡ t.responses)
      → o.1.next_action ≡ t.bridge.next_action + counts.accepted
      → counts.accepted ≤ max_actions
      → Graver o
      → Attempted t (after_observe clock key_works floats other_upper encode r counts reference u o)
  unfolding after_observe
  after_observe-Attempted r counts reference t u start (raised e, b) s (ds, rs) n few g = record {
    decisions = ds;
    responses = rs;
    weighs =
        bridge_raise-escaped e b.next_action t.bridge.next_action g
          (omega (arith, n), omega (arith, n, few));
    early = rw s tt;
  }
  after_observe-Attempted r counts reference t u start (done number, b) s (ds, rs) n few g =
      by_receipt (find_receipt number b.events)
    where
      by_receipt :
          (o : Option ℕ)
          → Attempted t (
              record_seen clock key_works floats other_upper encode r counts reference number
                (record u { bridge = b })
                o)
      by_receipt none = record {
        decisions = ds;
        responses = rs;
        weighs = (omega (arith, n), omega (arith, n, few));
        early = rw s tt;
      }
      by_receipt (some receipt) = record {
        decisions = ds;
        responses = rs;
        weighs = (n, few);
        early = rw s tt;
      }

  after_start-Attempted :
      (r : Round Float) (reference : Option (ℕ × ℤ)) (t : Trial) (o : Outcome (Unit {0}) × Bridge)
      → Tally t
      → t.start_ns ≡ none
      → o.1.next_action ≡ t.bridge.next_action
      → Attempted t (after_start clock key_works floats other_upper encode r reference t o)
  after_start-Attempted r reference t (raised e, b) v s n = record {
    decisions = refl;
    responses = refl;
    weighs = bridge_raise-Weighs e b.next_action t.bridge.next_action n;
    early = subst (λ m. Early t.start_ns m) (sym n) v.early;
  }
  after_start-Attempted r reference t (done _, b) v s n =
      let (same, grave) = observe-Graver clock key_works floats other_upper encode r b in
      after_observe-Attempted r _ reference t _ r.started_ns
        (observe clock key_works floats other_upper encode r b) refl (refl, refl)
        (omega (arith, same, n)) (omega arith) grave

  Submitted-Attempted :
      (n : ℕ) (r : Round Float) (reference : Option (ℕ × ℤ)) (t : Trial) (start : ℕ)
      (o : Outcome Counts × Bridge)
      → t.start_ns ≡ some start
      → Submitted n t.bridge o
      → Few floats other_upper clock o
      → Attempted t (after_submit clock key_works floats other_upper encode r reference t o)
  Submitted-Attempted n r reference t start (raised e, b) s sub few = record {
    decisions = refl;
    responses = refl;
    weighs =
        bridge_raise-Weighs e b.next_action t.bridge.next_action
          (ap (λ (b : Bridge). b.next_action) sub);
    early = rw s tt;
  }
  Submitted-Attempted n r reference t start (done counts, b) s sub few =
      let (same, grave) = observe-Graver clock key_works floats other_upper encode r b in
      after_observe-Attempted r counts reference t _ start
        (observe clock key_works floats other_upper encode r b) s (refl, refl)
        (omega (arith, same, sub.0, sub.2)) few grave

  submit_for-Attempted :
      (r : Round Float) (reference : Option (ℕ × ℤ)) (actions : ActionsValue Float)
      (seen : Option Seen) (t : Trial) (start : ℕ)
      → Tally t
      → t.start_ns ≡ some start
      → Attempted t
          (submit_for clock key_works floats other_upper encode r reference actions seen t)
  submit_for-Attempted r reference actions none t start v s = reject-Attempted _ reference t v
  submit_for-Attempted r reference actions (some o) t start v s =
      Submitted-Attempted (handed_in floats actions) r reference t start _ s
        (submit-Submitted floats other_upper clock (identifier o.number) actions t.bridge)
        (submit-Few floats other_upper clock (identifier o.number) actions t.bridge)

  use_actions-Attempted :
      (r : Round Float) (reference : Option (ℕ × ℤ)) (actions : ActionsValue Float)
      (start : Option ℕ) (t : Trial)
      → Tally t
      → t.start_ns ≡ start
      → Attempted t
          (use_actions clock key_works floats other_upper encode r reference actions start t)
  use_actions-Attempted r reference actions none t v s =
      branch (Attempted t) (not (is_no_actions actions)) _ _ (λ _. reject-Attempted _ reference t v)
        (λ _.
          after_start-Attempted r reference t (start_game clock key_works t.bridge) v s
            (start-next_action clock key_works t.bridge))
  use_actions-Attempted r reference actions (some start) t v s =
      submit_for-Attempted r reference actions t.last_observation t start v s

  pub use_json-Attempted :
      (r : Round Float) (received : ℕ) (value : Option (Json Float)) (t : Trial)
      → Tally t
      → Attempted t (use_json clock key_works floats other_upper encode r received value t)
  use_json-Attempted r received none t v = reject-Attempted _ none t v
  use_json-Attempted r received (some not_object) t v = reject-Attempted _ none t v
  use_json-Attempted r received (some other_object) t v =
      branch (Attempted t) (overlaps received t.last_observation) _ _
        (λ _. reject-Attempted _ none t v)
        (λ _. reject-Attempted _ (reference_of received t.last_observation) t v)
  use_json-Attempted r received (some (actions_object actions)) t v =
      branch (Attempted t) (overlaps received t.last_observation) _ _
        (λ _. reject-Attempted _ none t v)
        (λ _.
          use_actions-Attempted r (reference_of received t.last_observation) actions t.start_ns t v
            refl)
