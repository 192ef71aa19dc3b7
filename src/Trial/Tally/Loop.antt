-- ===== src/Trial/Tally/Loop.antt =====
-- The loop keeps the tally.
use chers.Base.{
  ℕ, suc, ◌+◌, ◌≤◌, ◌≡◌, refl, ap, ◌∙◌, sym, subst, Bool, ◌&&◌, not, Option, none, some, List, [],
  ◌∷◌, ◌++◌, ℤ, map, arith, branch,
}
use chers.Base.Predicates.{sum_by, sum_by-snoc}
use chers.Bridge.State.{max_actions}
use chers.Bridge.Actions.{Floats}
use chers.Trial.{
  Round, Notice, Content, tool_call, error_notice, token_usage, turn_ended, other_request,
  other_notice, TurnStatus, turn_completed, turn_failed, turn_other, TrialError, Decision, Trial,
  load_arguments,
}
use chers.Trial.Calls.{
  Verdict, result, escaped, CallAttempt, Turned, goes_on, exits, raises, is_decided, work, attempt,
  respond, call_tool,
}
use chers.Trial.Rounds.{
  too_early, has_failed, start_missed, finish_missed, end_last, end_turn, handle, receive,
  after_poll, play_round, play_rounds,
}
use chers.Trial.Bridged.{by_turned}
use chers.Trial.Tally.Actions.{work-next_action}
use chers.Trial.Tally.{accepted, Early, outcomes, Tally, Leftover, TallyEnd, Tally-Leftover}
use chers.Trial.Tally.Attempts.{Weighs, Attempted, use_json-Attempted}

abbrev pub TallyTurn : Turned → Type 0
TallyTurn (goes_on t) = Tally t
TallyTurn (exits t) = Tally t
TallyTurn (raises e t) = Leftover t

pub map-snoc :
    {A B : Type 0} (f : A → B) (xs : List A) (x : A) → map f (xs ++ x ∷ []) ≡ map f xs ++ f x ∷ []
map-snoc f [] x = refl
map-snoc f (y ∷ ys) x = ap (λ zs. f y ∷ zs) (map-snoc f ys x)

escaped-Leftover :
    (t : Trial) (a : CallAttempt) (e : TrialError)
    → Tally t
    → a.verdict ≡ escaped e
    → Attempted t a
    → Leftover a.trial
escaped-Leftover t a e v q h =
    let w = subst (λ x. Weighs t.bridge.next_action x a.trial.bridge.next_action) q h.weighs in
    record {
      actions =
          let sums = ap (sum_by (λ (d : Decision). accepted d.result)) h.decisions in
          (omega (arith, v.actions, sums, w.0), omega (arith, v.actions, sums, w.1));
      answers =
          ap (map (λ (x : ℕ × Bool). x.1)) h.responses ∙ v.answers ∙ ap outcomes (sym h.decisions);
      early = h.early;
    }

module _ (clock : ℕ → ℕ) (key_works : ℕ → ℕ → Bool) (floats : Floats) (other_upper : ℕ → List ℕ)
    (encode : List ℕ → List ℕ) where
  open floats use {Float}

  respond-Tally :
      (r : Round Float) (received id : ℕ) (t : Trial) (a : CallAttempt) (verdict : Verdict)
      → Tally t
      → a.verdict ≡ verdict
      → Attempted t a
      → TallyTurn (respond clock key_works floats other_upper encode r received id a verdict)
  respond-Tally r received id t a (escaped e) v q h = escaped-Leftover t a e v q h
  respond-Tally r received id t a (result given) v q h =
      branch TallyTurn (not r.responds) _ _ (λ _. refused)
        (λ _. record {
          actions = omega (arith, v.actions, sums, w.0, more);
          answers =
              map-snoc (λ (x : ℕ × Bool). x.1) a.trial.responses (id, is_decided given)
              ∙ ap (λ bs. bs ++ is_decided given ∷ []) same
              ∙ sym (map-snoc (λ (d : Decision). is_decided d.result) a.trial.decisions entry);
          early = h.early;
        })
    where
      entry : Decision
      entry = record { received_ns = received; reference = a.reference; result = given }

      w :
          (a.trial.bridge.next_action ≡ t.bridge.next_action + accepted given)
          × (accepted given ≤ max_actions)
      w = subst (λ x. Weighs t.bridge.next_action x a.trial.bridge.next_action) q h.weighs

      sums :
          sum_by (λ (d : Decision). accepted d.result) a.trial.decisions
          ≡ sum_by (λ (d : Decision). accepted d.result) t.decisions
      sums = ap (sum_by (λ (d : Decision). accepted d.result)) h.decisions

      more :
          sum_by (λ (d : Decision). accepted d.result) (a.trial.decisions ++ entry ∷ [])
          ≡ sum_by (λ (d : Decision). accepted d.result) a.trial.decisions + accepted given
      more = sum_by-snoc (λ (d : Decision). accepted d.result) a.trial.decisions entry

      same : map (λ (x : ℕ × Bool). x.1) a.trial.responses ≡ outcomes a.trial.decisions
      same =
          ap (map (λ (x : ℕ × Bool). x.1)) h.responses ∙ v.answers ∙ ap outcomes (sym h.decisions)

      refused : Leftover a.trial
      refused = record {
        actions = (omega (arith, v.actions, sums, w.0), omega (arith, v.actions, sums, w.0, w.1));
        answers = same;
        early = h.early;
      }

  end_turn-Tally :
      (still_running continues : Bool) (status : TurnStatus) (t : Trial)
      → Tally t
      → TallyTurn (end_turn still_running continues status t)
  unfolding end_turn
  end_turn-Tally still_running continues turn_completed t v =
      branch TallyTurn (not still_running) _ _ (λ _. kept ended t.continuation_prompts)
        (λ _.
          branch TallyTurn (not continues) _ _
            (λ _. Tally-Leftover _ (kept ended (suc t.continuation_prompts)))
            (λ _. kept (ended ++ none ∷ []) (suc t.continuation_prompts)))
    where
      ended : List (Option TurnStatus)
      ended = end_last turn_completed t.turns

      kept :
          (turns : List (Option TurnStatus)) (prompts : ℕ)
          → Tally (record t { turns = turns; continuation_prompts = prompts })
      kept turns prompts = record { actions = v.actions; answers = v.answers; early = v.early }
  end_turn-Tally still_running continues turn_failed t v = record {
    actions = (omega (arith, v.actions), omega (arith, v.actions));
    answers = v.answers;
    early = v.early;
  }
  end_turn-Tally still_running continues turn_other t v = record {
    actions = v.actions;
    answers = v.answers;
    early = v.early;
  }

  handle-Tally :
      (r : Round Float) (received : ℕ) (content : Content Float) (t : Trial)
      → Tally t
      → TallyTurn (handle clock key_works floats other_upper encode r received content t)
  unfolding handle call_tool attempt
  handle-Tally r received (tool_call id known args) t v =
      branch TallyTurn (not known) _ _ (λ _. Tally-Leftover t v)
        (λ _.
          let a = attempt clock key_works floats other_upper encode r received args t in
          respond-Tally r received id t a a.verdict v refl (
            use_json-Attempted clock key_works floats other_upper encode r received
              (load_arguments args) t v))
  handle-Tally r received (error_notice e) t v = record {
    actions = v.actions;
    answers = v.answers;
    early = v.early;
  }
  handle-Tally r received token_usage t v = v
  handle-Tally r received (turn_ended status) t v =
      end_turn-Tally r.still_running r.continues status t v
  handle-Tally r received other_request t v = Tally-Leftover t v
  handle-Tally r received other_notice t v = v

  receive-Tally :
      (r : Round Float) (n : Option (Notice Float)) (t : Trial)
      → Tally t
      → TallyTurn (receive clock key_works floats other_upper encode r n t)
  receive-Tally r none t v = v
  receive-Tally r (some n) t v =
      branch TallyTurn n.transport_ended _ _ (λ _. Tally-Leftover t v)
        (λ _.
          branch TallyTurn (not n.own_thread) _ _ (λ _. v)
            (λ _. handle-Tally r n.received_ns n.content t v))

  after_poll-Tally :
      (r : Round Float) (poll : Option ℤ) (t : Trial)
      → Tally t
      → TallyTurn (after_poll clock key_works floats other_upper encode r poll t)
  after_poll-Tally r (some code) t v = record {
    actions = v.actions;
    answers = v.answers;
    early = v.early;
  }
  after_poll-Tally r none t v =
      branch TallyTurn (has_failed t.bridge.failure && too_early t.start_ns r.now) _ _
        (λ _. Tally-Leftover t v)
        (λ _.
          branch TallyTurn (start_missed t.start_ns r.ready_passed) _ _ (λ _. Tally-Leftover t v)
            (λ _.
              branch TallyTurn (finish_missed t.start_ns r.now) _ _ (λ _. Tally-Leftover t v)
                (λ _. receive-Tally r r.notice t v)))

  -- After the threads' work before a round.
  pub polled-Tally :
      (r : Round Float) (t : Trial)
      → Tally t
      → Tally
          (record t { bridge = work clock key_works floats other_upper encode r.before t.bridge })
  polled-Tally r t v =
      let same = work-next_action clock key_works floats other_upper encode r.before t.bridge in
      record {
        actions = same ∙ v.actions;
        answers = v.answers;
        early = subst (Early t.start_ns) (sym same) v.early;
      }

  pub play_round-Tally :
      (r : Round Float) (t : Trial)
      → Tally t
      → TallyTurn (play_round clock key_works floats other_upper encode r t)
  unfolding play_round
  play_round-Tally r t v = after_poll-Tally r r.poll _ (polled-Tally r t v)

  -- From a trial whose decisions account for the actions, the loop keeps the tally.
  pub play_rounds-kept :
      (rs : List (Round Float)) (t : Trial)
      → Tally t
      → TallyEnd (play_rounds clock key_works floats other_upper encode rs t)
  unfolding play_rounds
  play_rounds-kept [] t v = v
  play_rounds-kept (r ∷ rs) t v =
      by_turned TallyEnd (play_round clock key_works floats other_upper encode r t)
        (play_rounds clock key_works floats other_upper encode rs)
        (λ t' e. play_rounds-kept rs t' (kept _ e)) (λ t' e. kept _ e) (λ x t' e. kept _ e)
    where
      kept :
          (u : Turned) → play_round clock key_works floats other_upper encode r t ≡ u → TallyTurn u
      kept u e = subst TallyTurn e (play_round-Tally r t v)
