-- ===== src/Trial/Rounds/Stops.antt =====
-- The deadlines end the loop.
use chers.Base.{
  ℕ, ◌+◌, ◌≤◌, ◌<◌, ◌≡◌, refl, subst, Bool, true, false, ◌&&◌, not, Option, none, some, List, [],
  ◌∷◌, ◌++◌, ℤ, arith, branch, lt→ltb,
}
use chers.Base.Predicates.{All}
use chers.Bridge.State.{Bridge, Outcome, done, raised}
use chers.Bridge.Actions.{Floats, ActionsValue}
use chers.Bridge.Operations.{Counts}
use chers.Bridge.Dispatch.{start_game}
use chers.Trial.{
  Json, not_object, other_object, actions_object, Round, Notice, Content, tool_call, error_notice,
  token_usage, turn_ended, other_request, other_notice, TurnStatus, turn_completed, turn_failed,
  turn_other, Seen, Trial, load_arguments, is_no_actions,
}
use chers.Trial.Calls.{
  Verdict, result, escaped, CallAttempt, overlaps, reference_of, find_receipt, record_seen, Turned,
  goes_on, exits, raises, after_observe, after_start, after_submit, submit_for, use_actions,
  use_json, attempt, respond, call_tool,
}
use chers.Trial.Rounds.{
  too_early, has_failed, start_missed, finish_missed, end_turn, LoopEnd, exited, waits, stopped,
  handle, receive, after_poll, play_round, play_rounds,
}

-- The game was not started after a time.
abbrev pub StartBy : ℕ → Option ℕ → Type 0
StartBy limit none = Unit
StartBy limit (some start) = start ≤ limit

abbrev pub HasEnded : LoopEnd → Type 0
HasEnded (waits t) = ⊥
HasEnded _ = Unit

-- A round that goes on leaves a trial that was not started after the time.
abbrev TurnBy : ℕ → Turned → Type 0
TurnBy limit (goes_on t) = StartBy limit t.start_ns
TurnBy limit _ = Unit

abbrev By : ℕ → CallAttempt → Type 0
By limit a = StartBy limit a.trial.start_ns

by_end :
    (u : Turned) (next : Trial → LoopEnd)
    → ((t : Trial) → u ≡ goes_on t → HasEnded (next t))
    → HasEnded (elim u as (λ _. LoopEnd) [
      | goes_on t ↦ next t
      | exits t ↦ exited t
      | raises e t ↦ stopped e t
    ])
by_end (goes_on t) next f = f t refl
by_end (exits t) next f = tt
by_end (raises e t) next f = tt

abbrev IsLast : Turned → Type 0
IsLast (goes_on t) = ⊥
IsLast _ = Unit

one_missed :
    (limit : ℕ) (start : Option ℕ) (ready_passed : Bool) (now : ℕ)
    → StartBy limit start
    → ready_passed ≡ true
    → limit + 66_000_000_000 < now
    → start_missed start ready_passed ≡ false
    → finish_missed start now ≡ false
    → ⊥
one_missed limit none ready_passed now p ready late started finished = cc (ready, started)
one_missed limit (some start) ready_passed now p ready late started finished =
    cc (finished, lt→ltb (start + 66_000_000_000) now (omega arith))

end_turn-By :
    (limit : ℕ) (still_running continues : Bool) (status : TurnStatus) (t : Trial)
    → StartBy limit t.start_ns
    → TurnBy limit (end_turn still_running continues status t)
unfolding end_turn
end_turn-By limit still_running continues turn_completed t p =
    branch (TurnBy limit) (not still_running) _ _ (λ _. p)
      (λ _. branch (TurnBy limit) (not continues) _ _ (λ _. tt) (λ _. p))
end_turn-By limit still_running continues turn_failed t p = tt
end_turn-By limit still_running continues turn_other t p = p

module _ (clock : ℕ → ℕ) (key_works : ℕ → ℕ → Bool) (floats : Floats) (other_upper : ℕ → List ℕ)
    (encode : List ℕ → List ℕ) (limit : ℕ) where
  open floats use {Float}

  after_observe-By :
      (r : Round Float) (counts : Counts) (reference : Option (ℕ × ℤ)) (t : Trial)
      (o : Outcome ℕ × Bridge)
      → StartBy limit t.start_ns
      → By limit (after_observe clock key_works floats other_upper encode r counts reference t o)
  unfolding after_observe
  after_observe-By r counts reference t (raised e, b) p = p
  after_observe-By r counts reference t (done number, b) p =
      by_receipt (find_receipt number b.events)
    where
      by_receipt :
          (o : Option ℕ)
          → By limit (
              record_seen clock key_works floats other_upper encode r counts reference number
                (record t { bridge = b })
                o)
      by_receipt none = p
      by_receipt (some receipt) = p

  after_start-By :
      (r : Round Float) (reference : Option (ℕ × ℤ)) (t : Trial) (o : Outcome (Unit {0}) × Bridge)
      → r.started_ns ≤ limit
      → StartBy limit t.start_ns
      → By limit (after_start clock key_works floats other_upper encode r reference t o)
  after_start-By r reference t (raised e, b) l p = p
  after_start-By r reference t (done _, b) l p = after_observe-By r _ reference _ _ l

  after_submit-By :
      (r : Round Float) (reference : Option (ℕ × ℤ)) (t : Trial) (o : Outcome Counts × Bridge)
      → StartBy limit t.start_ns
      → By limit (after_submit clock key_works floats other_upper encode r reference t o)
  after_submit-By r reference t (raised e, b) p = p
  after_submit-By r reference t (done counts, b) p = after_observe-By r counts reference _ _ p

  submit_for-By :
      (r : Round Float) (reference : Option (ℕ × ℤ)) (actions : ActionsValue Float)
      (seen : Option Seen) (t : Trial)
      → StartBy limit t.start_ns
      → By limit (submit_for clock key_works floats other_upper encode r reference actions seen t)
  submit_for-By r reference actions none t p = p
  submit_for-By r reference actions (some o) t p = after_submit-By r reference t _ p

  use_actions-By :
      (r : Round Float) (reference : Option (ℕ × ℤ)) (actions : ActionsValue Float)
      (start : Option ℕ) (t : Trial)
      → r.started_ns ≤ limit
      → StartBy limit t.start_ns
      → By limit (use_actions clock key_works floats other_upper encode r reference actions start t)
  use_actions-By r reference actions none t l p =
      branch (By limit) (not (is_no_actions actions)) _ _ (λ _. p)
        (λ _. after_start-By r reference t (start_game clock key_works t.bridge) l p)
  use_actions-By r reference actions (some n) t l p =
      submit_for-By r reference actions t.last_observation t p

  use_json-By :
      (r : Round Float) (received : ℕ) (value : Option (Json Float)) (t : Trial)
      → r.started_ns ≤ limit
      → StartBy limit t.start_ns
      → By limit (use_json clock key_works floats other_upper encode r received value t)
  use_json-By r received none t l p = p
  use_json-By r received (some not_object) t l p = p
  use_json-By r received (some other_object) t l p =
      branch (By limit) (overlaps received t.last_observation) _ _ (λ _. p) (λ _. p)
  use_json-By r received (some (actions_object actions)) t l p =
      branch (By limit) (overlaps received t.last_observation) _ _ (λ _. p)
        (λ _. use_actions-By r (reference_of received t.last_observation) actions t.start_ns t l p)

  respond-By :
      (r : Round Float) (received id : ℕ) (a : CallAttempt) (v : Verdict)
      → By limit a
      → TurnBy limit (respond clock key_works floats other_upper encode r received id a v)
  respond-By r received id a (escaped e) p = tt
  respond-By r received id a (result given) p =
      branch (TurnBy limit) (not r.responds) _ _ (λ _. tt) (λ _. p)

  handle-By :
      (r : Round Float) (received : ℕ) (content : Content Float) (t : Trial)
      → r.started_ns ≤ limit
      → StartBy limit t.start_ns
      → TurnBy limit (handle clock key_works floats other_upper encode r received content t)
  unfolding handle call_tool attempt
  handle-By r received (tool_call id known args) t l p =
      branch (TurnBy limit) (not known) _ _ (λ _. tt)
        (λ _.
          let a = attempt clock key_works floats other_upper encode r received args t in
          respond-By r received id a a.verdict (use_json-By r received (load_arguments args) t l p))
  handle-By r received (error_notice e) t l p = p
  handle-By r received token_usage t l p = p
  handle-By r received (turn_ended status) t l p =
      end_turn-By limit r.still_running r.continues status t p
  handle-By r received other_request t l p = tt
  handle-By r received other_notice t l p = p

  receive-By :
      (r : Round Float) (n : Option (Notice Float)) (t : Trial)
      → r.started_ns ≤ limit
      → StartBy limit t.start_ns
      → TurnBy limit (receive clock key_works floats other_upper encode r n t)
  receive-By r none t l p = p
  receive-By r (some n) t l p =
      branch (TurnBy limit) n.transport_ended _ _ (λ _. tt)
        (λ _.
          branch (TurnBy limit) (not n.own_thread) _ _ (λ _. p)
            (λ _. handle-By r n.received_ns n.content t l p))

  after_poll-By :
      (r : Round Float) (poll : Option ℤ) (t : Trial)
      → r.started_ns ≤ limit
      → StartBy limit t.start_ns
      → TurnBy limit (after_poll clock key_works floats other_upper encode r poll t)
  after_poll-By r (some code) t l p = tt
  after_poll-By r none t l p =
      branch (TurnBy limit) (has_failed t.bridge.failure && too_early t.start_ns r.now) _ _
        (λ _. tt)
        (λ _.
          branch (TurnBy limit) (start_missed t.start_ns r.ready_passed) _ _ (λ _. tt)
            (λ _.
              branch (TurnBy limit) (finish_missed t.start_ns r.now) _ _ (λ _. tt)
                (λ _. receive-By r r.notice t l p)))

  -- Past both deadlines a round does not go on.
  late_poll :
      (r : Round Float) (poll : Option ℤ) (t : Trial)
      → StartBy limit t.start_ns
      → r.ready_passed ≡ true
      → limit + 66_000_000_000 < r.now
      → IsLast (after_poll clock key_works floats other_upper encode r poll t)
  late_poll r (some code) t p ready late = tt
  late_poll r none t p ready late =
      branch IsLast (has_failed t.bridge.failure && too_early t.start_ns r.now) _ _ (λ _. tt)
        (λ _.
          branch IsLast (start_missed t.start_ns r.ready_passed) _ _ (λ _. tt)
            (λ started.
              branch IsLast (finish_missed t.start_ns r.now) _ _ (λ _. tt)
                (λ running_. absurd (
                  one_missed limit t.start_ns r.ready_passed r.now p ready late started running_))))

  -- However the rounds before it go, the loop has ended by a round in which the deadline for START
  -- has passed, and more than 66 seconds have passed since a time by which every START was sent, if
  -- any was.
  pub play_rounds-HasEnded :
      (before after : List (Round Float)) (r : Round Float) (t : Trial)
      → StartBy limit t.start_ns
      → All (λ (q : Round Float). q.started_ns ≤ limit) before
      → r.ready_passed ≡ true
      → limit + 66_000_000_000 < r.now
      → HasEnded (play_rounds clock key_works floats other_upper encode (before ++ r ∷ after) t)
  unfolding play_rounds play_round
  play_rounds-HasEnded [] after r t p l ready late =
      by_end (play_round clock key_works floats other_upper encode r t)
        (play_rounds clock key_works floats other_upper encode after)
        (λ u e. absurd (subst IsLast e (late_poll r r.poll _ p ready late)))
  play_rounds-HasEnded (q ∷ before) after r t p (l, ls) ready late =
      by_end (play_round clock key_works floats other_upper encode q t)
        (play_rounds clock key_works floats other_upper encode (before ++ r ∷ after))
        (λ u e.
          play_rounds-HasEnded before after r u
            (subst (TurnBy limit) e (after_poll-By q q.poll _ l p)) ls ready late)
