-- ===== src/Trial/Bridged.antt =====
-- What every step of the bridge keeps, a whole trial keeps.
use chers.Base.{
  ℕ, ◌≡◌, refl, Bool, ◌&&◌, not, Option, none, some, List, [], ◌∷◌, map, branch, ℤ, subst,
}
use chers.Bridge.State.{Bridge, Frame, Outcome, done, raised, identifier}
use chers.Bridge.Actions.{Floats, ActionsValue}
use chers.Bridge.Operations.{Counts, submit}
use chers.Bridge.Dispatch.{start_game, close}
use chers.Bridge.Steps.{Call, takes, stores, starts, submits, closes, step, run}
use chers.Trial.{
  Work, as_call, Json, not_object, other_object, actions_object, Round, Notice, Content, tool_call,
  error_notice, token_usage, turn_ended, other_request, other_notice, TurnStatus, turn_completed,
  turn_failed, turn_other, TrialError, Seen, Trial, load_arguments, is_no_actions,
}
use chers.Trial.Calls.{
  Verdict, result, escaped, CallAttempt, overlaps, reference_of, find_receipt, record_seen, Turned,
  goes_on, exits, raises, work, observe, then_store, after_observe, after_start, after_submit,
  submit_for, use_actions, use_json, attempt, respond, call_tool,
}
use chers.Trial.Rounds.{
  too_early, has_failed, start_missed, finish_missed, end_turn, LoopEnd, exited, waits, stopped,
  handle, receive, after_poll, play_round, play_rounds,
}
use chers.Trial.Ending.{Cleanup}

abbrev pub turned_trial : Turned → Trial
turned_trial (goes_on t) = t
turned_trial (exits t) = t
turned_trial (raises e t) = t

abbrev pub ended_trial : LoopEnd → Trial
ended_trial (exited t) = t
ended_trial (waits t) = t
ended_trial (stopped e t) = t

-- A split on how a round ends.
pub by_turned {ℓ} :
    (Q : LoopEnd → Type ℓ) (u : Turned) (next : Trial → LoopEnd)
    → ((t : Trial) → u ≡ goes_on t → Q (next t))
    → ((t : Trial) → u ≡ exits t → Q (exited t))
    → ((e : TrialError) (t : Trial) → u ≡ raises e t → Q (stopped e t))
    → Q (elim u as (λ _. LoopEnd) [
      | goes_on t' ↦ next t'
      | exits t' ↦ exited t'
      | raises e t' ↦ stopped e t'
    ])
by_turned Q (goes_on t) next f g h = f t refl
by_turned Q (exits t) next f g h = g t refl
by_turned Q (raises e t) next f g h = h e t refl

module _ (clock : ℕ → ℕ) (key_works : ℕ → ℕ → Bool) (floats : Floats) (other_upper : ℕ → List ℕ)
    (encode : List ℕ → List ℕ) (P : Bridge → Type 0)
    (keep : (c : Call (floats.Float)) (b : Bridge)
      → P b
      → P (step clock key_works floats other_upper c b)) where
  open floats use {Float}

  abbrev Keeps : Turned → Type 0
  Keeps u = P (turned_trial u).bridge

  run-keep :
      (cs : List (Call Float)) (b : Bridge) → P b → P (run clock key_works floats other_upper cs b)
  unfolding run
  run-keep [] b p = p
  run-keep (c ∷ cs) b p = run-keep cs (step clock key_works floats other_upper c b) (keep c b p)

  pub work-keep :
      (ws : List Work) (b : Bridge) → P b → P (work clock key_works floats other_upper encode ws b)
  unfolding work
  work-keep ws b p = run-keep (map as_call ws) b p

  store-keep :
      (r : Round Float) (taken : Outcome Frame × Bridge)
      → P taken.1
      → P (then_store clock key_works floats other_upper encode r taken).1
  unfolding step
  store-keep r (raised e, b) p = p
  store-keep r (done f, b) p =
      keep (stores f.receipt (encode f.pixels)) _ (work-keep r.encoding b p)

  observe-keep :
      (r : Round Float) (b : Bridge)
      → P b
      → P (observe clock key_works floats other_upper encode r b).1
  unfolding observe step
  observe-keep r b p = store-keep r _ (keep takes _ (work-keep r.waiting b p))

  abbrev KeepsAttempt : CallAttempt → Type 0
  KeepsAttempt a = P a.trial.bridge

  record_seen-keep :
      (r : Round Float) (counts : Counts) (reference : Option (ℕ × ℤ)) (number : ℕ) (t : Trial)
      (receipt : Option ℕ)
      → P t.bridge
      → KeepsAttempt (
          record_seen clock key_works floats other_upper encode r counts reference number t receipt)
  record_seen-keep r counts reference number t none p = p
  record_seen-keep r counts reference number t (some receipt) p = p

  after_observe-keep :
      (r : Round Float) (counts : Counts) (reference : Option (ℕ × ℤ)) (t : Trial)
      (o : Outcome ℕ × Bridge)
      → P o.1
      → KeepsAttempt
          (after_observe clock key_works floats other_upper encode r counts reference t o)
  unfolding after_observe
  after_observe-keep r counts reference t (raised e, b) p = p
  after_observe-keep r counts reference t (done number, b) p =
      record_seen-keep r counts reference number (record t { bridge = b })
        (find_receipt number b.events) p

  after_start-keep :
      (r : Round Float) (reference : Option (ℕ × ℤ)) (t : Trial) (o : Outcome (Unit {0}) × Bridge)
      → P o.1
      → KeepsAttempt (after_start clock key_works floats other_upper encode r reference t o)
  after_start-keep r reference t (raised e, b) p = p
  after_start-keep r reference t (done _, b) p =
      after_observe-keep r _ reference _ (observe clock key_works floats other_upper encode r b)
        (observe-keep r b p)

  after_submit-keep :
      (r : Round Float) (reference : Option (ℕ × ℤ)) (t : Trial) (o : Outcome Counts × Bridge)
      → P o.1
      → KeepsAttempt (after_submit clock key_works floats other_upper encode r reference t o)
  after_submit-keep r reference t (raised e, b) p = p
  after_submit-keep r reference t (done counts, b) p =
      after_observe-keep r counts reference _
        (observe clock key_works floats other_upper encode r b) (observe-keep r b p)

  submit_for-keep :
      (r : Round Float) (reference : Option (ℕ × ℤ)) (actions : ActionsValue Float)
      (seen : Option Seen) (t : Trial)
      → P t.bridge
      → KeepsAttempt
          (submit_for clock key_works floats other_upper encode r reference actions seen t)
  unfolding step
  submit_for-keep r reference actions none t p = p
  submit_for-keep r reference actions (some o) t p =
      after_submit-keep r reference t
        (submit floats other_upper clock (identifier o.number) actions t.bridge)
        (keep (submits (identifier o.number) actions) t.bridge p)

  use_actions-keep :
      (r : Round Float) (reference : Option (ℕ × ℤ)) (actions : ActionsValue Float)
      (start : Option ℕ) (t : Trial)
      → P t.bridge
      → KeepsAttempt
          (use_actions clock key_works floats other_upper encode r reference actions start t)
  unfolding step
  use_actions-keep r reference actions none t p =
      branch KeepsAttempt (not (is_no_actions actions)) _ _ (λ _. p)
        (λ _.
          after_start-keep r reference t (start_game clock key_works t.bridge)
            (keep starts t.bridge p))
  use_actions-keep r reference actions (some n) t p =
      submit_for-keep r reference actions t.last_observation t p

  use_json-keep :
      (r : Round Float) (received : ℕ) (value : Option (Json Float)) (t : Trial)
      → P t.bridge
      → KeepsAttempt (use_json clock key_works floats other_upper encode r received value t)
  use_json-keep r received none t p = p
  use_json-keep r received (some not_object) t p = p
  use_json-keep r received (some other_object) t p =
      branch KeepsAttempt (overlaps received t.last_observation) _ _ (λ _. p) (λ _. p)
  use_json-keep r received (some (actions_object actions)) t p =
      branch KeepsAttempt (overlaps received t.last_observation) _ _ (λ _. p)
        (λ _. use_actions-keep r (reference_of received t.last_observation) actions t.start_ns t p)

  respond-keep :
      (r : Round Float) (received id : ℕ) (a : CallAttempt) (v : Verdict)
      → KeepsAttempt a
      → Keeps (respond clock key_works floats other_upper encode r received id a v)
  respond-keep r received id a (escaped e) p = p
  respond-keep r received id a (result given) p =
      branch Keeps (not r.responds) _ _ (λ _. p) (λ _. p)

  end_turn-keep :
      (still_running continues : Bool) (status : TurnStatus) (t : Trial)
      → P t.bridge
      → Keeps (end_turn still_running continues status t)
  unfolding end_turn
  end_turn-keep still_running continues turn_completed t p =
      branch Keeps (not still_running) _ _ (λ _. p)
        (λ _. branch Keeps (not continues) _ _ (λ _. p) (λ _. p))
  end_turn-keep still_running continues turn_failed t p = p
  end_turn-keep still_running continues turn_other t p = p

  handle-keep :
      (r : Round Float) (received : ℕ) (content : Content Float) (t : Trial)
      → P t.bridge
      → Keeps (handle clock key_works floats other_upper encode r received content t)
  unfolding handle call_tool attempt
  handle-keep r received (tool_call id known args) t p =
      branch Keeps (not known) _ _ (λ _. p)
        (λ _.
          let a = attempt clock key_works floats other_upper encode r received args t in
          respond-keep r received id a a.verdict
            (use_json-keep r received (load_arguments args) t p))
  handle-keep r received (error_notice e) t p = p
  handle-keep r received token_usage t p = p
  handle-keep r received (turn_ended status) t p =
      end_turn-keep r.still_running r.continues status t p
  handle-keep r received other_request t p = p
  handle-keep r received other_notice t p = p

  receive-keep :
      (r : Round Float) (n : Option (Notice Float)) (t : Trial)
      → P t.bridge
      → Keeps (receive clock key_works floats other_upper encode r n t)
  receive-keep r none t p = p
  receive-keep r (some n) t p =
      branch Keeps n.transport_ended _ _ (λ _. p)
        (λ _.
          branch Keeps (not n.own_thread) _ _ (λ _. p)
            (λ _. handle-keep r n.received_ns n.content t p))

  after_poll-keep :
      (r : Round Float) (poll : Option ℤ) (t : Trial)
      → P t.bridge
      → Keeps (after_poll clock key_works floats other_upper encode r poll t)
  after_poll-keep r (some code) t p = p
  after_poll-keep r none t p =
      branch Keeps (has_failed t.bridge.failure && too_early t.start_ns r.now) _ _ (λ _. p)
        (λ _.
          branch Keeps (start_missed t.start_ns r.ready_passed) _ _ (λ _. p)
            (λ _.
              branch Keeps (finish_missed t.start_ns r.now) _ _ (λ _. p)
                (λ _. receive-keep r r.notice t p)))

  play_round-keep :
      (r : Round Float) (t : Trial)
      → P t.bridge
      → Keeps (play_round clock key_works floats other_upper encode r t)
  unfolding play_round
  play_round-keep r t p = after_poll-keep r r.poll _ (work-keep r.before t.bridge p)

  pub play_rounds-keep :
      (rs : List (Round Float)) (t : Trial)
      → P t.bridge
      → P (ended_trial (play_rounds clock key_works floats other_upper encode rs t)).bridge
  unfolding play_rounds
  play_rounds-keep [] t p = p
  play_rounds-keep (r ∷ rs) t p =
      by_turned (λ e. P (ended_trial e).bridge)
        (play_round clock key_works floats other_upper encode r t)
        (play_rounds clock key_works floats other_upper encode rs)
        (λ t' e. play_rounds-keep rs t' (kept _ e)) (λ t' e. kept _ e) (λ x t' e. kept _ e)
    where
      kept : (u : Turned) → play_round clock key_works floats other_upper encode r t ≡ u → Keeps u
      kept u e = subst Keeps e (play_round-keep r t p)

  -- The bridge after the loop is closed.
  pub close_bridge-keep :
      {E : Type 0} (c : Cleanup E) (t : Trial)
      → P t.bridge
      → P
          (close c.workers_stop c.keys_close
            (work clock key_works floats other_upper encode c.before t.bridge)).1
  unfolding step
  close_bridge-keep c t p =
      keep (closes c.workers_stop c.keys_close) _ (work-keep c.before t.bridge p)
