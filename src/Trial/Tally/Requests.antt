-- ===== src/Trial/Tally/Requests.antt =====
-- Which requests of the model the loop answers.
use chers.Base.{
  ℕ, ◌≡◌, refl, ap, ◌∙◌, sym, subst, Bool, true, false, ◌&&◌, not, Option, none, some, List, [],
  ◌∷◌, ◌++◌, ℤ, map, append-nil, append_assoc, branch, if◌then◌else◌,
}
use chers.Bridge.Actions.{Floats}
use chers.Trial.{
  Round, Notice, Content, tool_call, error_notice, token_usage, turn_ended, other_request,
  other_notice, TurnStatus, turn_completed, turn_failed, turn_other, Trial, load_arguments,
}
use chers.Trial.Calls.{
  Verdict, result, escaped, CallAttempt, Turned, goes_on, exits, raises, is_decided, attempt,
  respond, call_tool,
}
use chers.Trial.Rounds.{
  too_early, has_failed, start_missed, finish_missed, end_turn, LoopEnd, exited, waits, stopped,
  handle, receive, after_poll, play_round, play_rounds,
}
use chers.Trial.Bridged.{by_turned}
use chers.Trial.Tally.{Tally, TallyEnd}
use chers.Trial.Tally.Attempts.{use_json-Attempted}
use chers.Trial.Tally.Loop.{map-snoc, TallyTurn, polled-Tally, play_round-Tally, play_rounds-kept}

-- The identifier of a tool call.
abbrev content_request : {F : Type 0} → Content F → List ℕ
content_request (tool_call id known args) = id ∷ []
content_request _ = []

abbrev notice_request : {F : Type 0} → Option (Notice F) → List ℕ
notice_request none = []
notice_request (some n) = if n.own_thread then content_request n.content else []

-- The requests of the trial's thread in the rounds, in the order in which they were received.
abbrev pub requests : {F : Type 0} → List (Round F) → List ℕ
requests [] = []
requests (r ∷ rs) = notice_request r.notice ++ requests rs

-- The requests that have been answered.
abbrev pub answered : Trial → List ℕ
answered t = map (λ (r : ℕ × Bool). r.0) t.responses

-- What a round adds.
abbrev AnsweredTurn : List ℕ → Trial → Turned → Type 0
AnsweredTurn ids t (goes_on t') = answered t' ≡ answered t ++ ids
AnsweredTurn ids t (exits t') = answered t' ≡ answered t
AnsweredTurn ids t (raises e t') = answered t' ≡ answered t

no_request : (t : Trial) → answered t ≡ answered t ++ []
no_request t = sym (append-nil (answered t))

end_turn-AnsweredTurn :
    (still_running continues : Bool) (status : TurnStatus) (t : Trial)
    → AnsweredTurn [] t (end_turn still_running continues status t)
unfolding end_turn
end_turn-AnsweredTurn still_running continues turn_completed t =
    branch (AnsweredTurn [] t) (not still_running) _ _ (λ _. no_request t)
      (λ _. branch (AnsweredTurn [] t) (not continues) _ _ (λ _. refl) (λ _. no_request t))
end_turn-AnsweredTurn still_running continues turn_failed t = refl
end_turn-AnsweredTurn still_running continues turn_other t = no_request t

module _ {F : Type 0} where
  -- The loop ended in the last of these rounds, and answered just the requests of the rounds before.
  pub record EndedIn (rounds : List (Round F)) (t t' : Trial) : Type 0 where
    pub before : List (Round F)
    pub last : Round F
    pub later : List (Round F)
    pub split : rounds ≡ before ++ last ∷ later
    pub answers : answered t' ≡ answered t ++ requests before

  abbrev pub AnsweredEnd : List (Round F) → Trial → LoopEnd → Type 0
  AnsweredEnd rounds t (waits t') = answered t' ≡ answered t ++ requests rounds
  AnsweredEnd rounds t (exited t') = EndedIn rounds t t'
  AnsweredEnd rounds t (stopped e t') = EndedIn rounds t t'

  ended_now :
      (r : Round F) (rs : List (Round F)) (t t' : Trial)
      → answered t' ≡ answered t
      → EndedIn (r ∷ rs) t t'
  ended_now r rs t t' e = record {
    before = [];
    last = r;
    later = rs;
    split = refl;
    answers = e ∙ no_request t;
  }

  one_more :
      (r : Round F) (rs : List (Round F)) (t t' t'' : Trial)
      → answered t' ≡ answered t ++ notice_request r.notice
      → answered t'' ≡ answered t' ++ requests rs
      → answered t'' ≡ answered t ++ requests (r ∷ rs)
  one_more r rs t t' t'' e more =
      more
      ∙ ap (λ ids. ids ++ requests rs) e
      ∙ append_assoc (answered t) (notice_request r.notice) (requests rs)

  ended_later :
      (r : Round F) (rs : List (Round F)) (t t' t'' : Trial)
      → answered t' ≡ answered t ++ notice_request r.notice
      → EndedIn rs t' t''
      → EndedIn (r ∷ rs) t t''
  ended_later r rs t t' t'' e m = record {
    before = r ∷ m.before;
    last = m.last;
    later = m.later;
    split = ap (λ xs. r ∷ xs) m.split;
    answers = one_more r m.before t t' t'' e m.answers;
  }

  later-AnsweredEnd :
      (r : Round F) (rs : List (Round F)) (t t' : Trial) (e : LoopEnd)
      → answered t' ≡ answered t ++ notice_request r.notice
      → AnsweredEnd rs t' e
      → AnsweredEnd (r ∷ rs) t e
  later-AnsweredEnd r rs t t' (waits t'') e m = one_more r rs t t' t'' e m
  later-AnsweredEnd r rs t t' (exited t'') e m = ended_later r rs t t' t'' e m
  later-AnsweredEnd r rs t t' (stopped x t'') e m = ended_later r rs t t' t'' e m

module _ (clock : ℕ → ℕ) (key_works : ℕ → ℕ → Bool) (floats : Floats) (other_upper : ℕ → List ℕ)
    (encode : List ℕ → List ℕ) where
  open floats use {Float}

  respond-AnsweredTurn :
      (r : Round Float) (received id : ℕ) (t : Trial) (a : CallAttempt) (verdict : Verdict)
      → a.trial.responses ≡ t.responses
      → AnsweredTurn
          (id ∷ [])
          t
          (respond clock key_works floats other_upper encode r received id a verdict)
  respond-AnsweredTurn r received id t a (escaped e) same = ap (map (λ (x : ℕ × Bool). x.0)) same
  respond-AnsweredTurn r received id t a (result given) same =
      branch (AnsweredTurn (id ∷ []) t) (not r.responds) _ _
        (λ _. ap (map (λ (x : ℕ × Bool). x.0)) same)
        (λ _.
          map-snoc (λ (x : ℕ × Bool). x.0) a.trial.responses (id, is_decided given)
          ∙ ap (λ ids. map (λ (x : ℕ × Bool). x.0) ids ++ id ∷ []) same)

  handle-AnsweredTurn :
      (r : Round Float) (received : ℕ) (content : Content Float) (t : Trial)
      → Tally t
      → AnsweredTurn
          (content_request content)
          t
          (handle clock key_works floats other_upper encode r received content t)
  unfolding handle call_tool attempt
  handle-AnsweredTurn r received (tool_call id known args) t v =
      branch (AnsweredTurn (id ∷ []) t) (not known) _ _ (λ _. refl)
        (λ _.
          let a = attempt clock key_works floats other_upper encode r received args t in
          respond-AnsweredTurn r received id t a a.verdict
            (use_json-Attempted clock key_works floats other_upper encode r received
              (load_arguments args) t v).responses)
  handle-AnsweredTurn r received (error_notice e) t v = no_request t
  handle-AnsweredTurn r received token_usage t v = no_request t
  handle-AnsweredTurn r received (turn_ended status) t v =
      end_turn-AnsweredTurn r.still_running r.continues status t
  handle-AnsweredTurn r received other_request t v = refl
  handle-AnsweredTurn r received other_notice t v = no_request t

  receive-AnsweredTurn :
      (r : Round Float) (n : Option (Notice Float)) (t : Trial)
      → Tally t
      → AnsweredTurn (notice_request n) t (receive clock key_works floats other_upper encode r n t)
  receive-AnsweredTurn r none t v = no_request t
  receive-AnsweredTurn r (some n) t v =
      branch (AnsweredTurn (notice_request (some n)) t) n.transport_ended _ _ (λ _. refl)
        (λ _. own n.own_thread)
    where
      own :
          (b : Bool)
          → AnsweredTurn (if b then content_request n.content else []) t (
              if not b
              then goes_on t
              else handle clock key_works floats other_upper encode r n.received_ns n.content t)
      own true = handle-AnsweredTurn r n.received_ns n.content t v
      own false = no_request t

  after_poll-AnsweredTurn :
      (r : Round Float) (poll : Option ℤ) (t : Trial)
      → Tally t
      → AnsweredTurn
          (notice_request r.notice)
          t
          (after_poll clock key_works floats other_upper encode r poll t)
  after_poll-AnsweredTurn r (some code) t v = refl
  after_poll-AnsweredTurn r none t v =
      let Q = AnsweredTurn (notice_request r.notice) t in
      branch Q (has_failed t.bridge.failure && too_early t.start_ns r.now) _ _ (λ _. refl)
        (λ _.
          branch Q (start_missed t.start_ns r.ready_passed) _ _ (λ _. refl)
            (λ _.
              branch Q (finish_missed t.start_ns r.now) _ _ (λ _. refl)
                (λ _. receive-AnsweredTurn r r.notice t v)))

  play_round-AnsweredTurn :
      (r : Round Float) (t : Trial)
      → Tally t
      → AnsweredTurn
          (notice_request r.notice)
          t
          (play_round clock key_works floats other_upper encode r t)
  unfolding play_round
  play_round-AnsweredTurn r t v =
      after_poll-AnsweredTurn r r.poll _
        (polled-Tally clock key_works floats other_upper encode r t v)

  play_rounds-AnsweredEnd :
      (rs : List (Round Float)) (t : Trial)
      → Tally t
      → AnsweredEnd rs t (play_rounds clock key_works floats other_upper encode rs t)
  unfolding play_rounds
  play_rounds-AnsweredEnd [] t v = no_request t
  play_rounds-AnsweredEnd (r ∷ rs) t v =
      by_turned (AnsweredEnd (r ∷ rs) t) (play_round clock key_works floats other_upper encode r t)
        (play_rounds clock key_works floats other_upper encode rs)
        (λ t' e.
          let tally =
            subst TallyTurn e (play_round-Tally clock key_works floats other_upper encode r t v) in
          later-AnsweredEnd r rs t t' _ (turn _ e) (play_rounds-AnsweredEnd rs t' tally))
        (λ t' e. ended_now r rs t t' (turn _ e)) (λ x t' e. ended_now r rs t t' (turn _ e))
    where
      turn :
          (u : Turned)
          → play_round clock key_works floats other_upper encode r t ≡ u
          → AnsweredTurn (notice_request r.notice) t u
      turn u e = subst (AnsweredTurn (notice_request r.notice) t) e (play_round-AnsweredTurn r t v)

  -- From a trial whose decisions account for the actions, whatever the rounds: while the loop goes on,
  -- and when it ends with the game, as many actions have been proposed as the answered decisions have
  -- accepted, none of them before START; when it raises, at most 128 more, of a call without a
  -- response. In every case there are as many responses as decisions, in the same order, with success
  -- exactly if the decision was accepted; and the responses since then have gone to the requests of the
  -- trial's thread, each under its own identifier, once and in the order in which they were received:
  -- to all of them while the loop goes on, and otherwise to all in the rounds before its last one.
  pub play_rounds-TallyEnd :
      (rs : List (Round Float)) (t : Trial)
      → Tally t
      → let e = play_rounds clock key_works floats other_upper encode rs t in
        TallyEnd e × AnsweredEnd rs t e
  play_rounds-TallyEnd rs t v = (
    play_rounds-kept clock key_works floats other_upper encode rs t v,
    play_rounds-AnsweredEnd rs t v,
  )
