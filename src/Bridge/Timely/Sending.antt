-- ===== src/Bridge/Timely/Sending.antt =====
-- The presses in the log, after each of the methods that change it.
use chers.Base.{
  ℕ, suc, ◌+◌, ◌≤◌, ◌≡◌, inl, inr, refl, subst, List, [], ◌∷◌, ◌++◌, sub_ℕ, Bool, true, false, ◌||◌,
  not, Option, none, some, branch, arith, ltb, leb, length, not_ltb→le, Bool-cases, Option-cases,
}
use chers.Bridge.Queue.{Scheduled}
use chers.Bridge.State.{
  Bridge, Event, BridgeError, Observation, Outcome, done, raised, error, observation, start,
  action_proposed, action_dropped, action_sent, late_at_submission, late_at_dispatch, bridge_closed,
  late_ns, log, check, max_pending, max_observations, max_png_bytes, max_total_actions,
}
use chers.Bridge.Operations.{
  Submission, tick, now, fail, observe_store, propose, propose_all, enqueue_for, enqueue,
  find_observation,
}
use chers.Bridge.Dispatch.{send, dispatch, drop_all, start_game, close}
use chers.Bridge.Steps.{handled}
use chers.Bridge.Steps.Dispatching.{guarded, either_way}
use chers.Bridge.Steps.Quiet.{After}
use chers.Bridge.Timely.{
  Timing, TimingOf, Proposes-last, Timing-log, Timing-push, Timing-pop, Proposes-grow,
}

pub drop_all-Timing :
    (q : List Scheduled) (b : Bridge) → Timing b.events q → TimingOf (drop_all q b)
unfolding drop_all
drop_all-Timing [] b t = t
drop_all-Timing (a ∷ q) b t = drop_all-Timing q (log (action_dropped a.action_id bridge_closed) b) (
    Timing-log b.events q (action_dropped a.action_id bridge_closed) tt (Timing-pop b.events q a t))

pub close-Timing : (w k : Bool) (b : Bridge) → TimingOf b → TimingOf (close w k b).1
unfolding close
close-Timing w k b t =
    branch (After TimingOf) b.closed _ _ (λ _. t)
      (λ _.
        branch (After TimingOf) (not w) _ _ (λ _. t)
          (λ _. drop_all-Timing b.pending (record b { stopped = true }) t))

module _ (clock : ℕ → ℕ) where
  fail-Timing : (e : BridgeError) (b : Bridge) → TimingOf b → TimingOf (fail clock e b)
  unfolding fail
  fail-Timing e b t = elim (Option-cases b.failure) [
    | inl fine ↦ rw (fine, fail) (Timing-log b.events b.pending (error (now clock b) e) tt t)
    | inr (x, bad) ↦ rw (bad, fail) t
  ]

  pub handled-Timing :
      {A : Type 0} (r : Outcome A × Bridge) → TimingOf r.1 → TimingOf (handled clock r)
  handled-Timing (done a, b) t = t
  handled-Timing (raised e, b) t = fail-Timing e b t

  pub store-Timing :
      (receipt : ℕ) (png : List ℕ) (b : Bridge)
      → TimingOf b
      → TimingOf (observe_store clock receipt png b).1
  unfolding observe_store
  store-Timing receipt png b t =
      guarded (After TimingOf) (check b) b _ (λ e. t)
        (λ fine.
          branch (After TimingOf)
            (leb max_observations (length b.observations)
              || ltb max_png_bytes (b.png_bytes + length png))
            _ _ (λ _. t)
            (λ _.
              Timing-log b.events b.pending
                (observation (suc (length b.observations)) receipt (now clock b)) tt t))

  propose-Timing :
      (id : List ℕ) (receipt time lane delay : ℕ) (s : Submission)
      → TimingOf s.bridge
      → TimingOf (propose clock id receipt time (lane, delay) s).bridge
  unfolding propose
  propose-Timing id receipt time lane delay s t =
      branch (λ (u : Submission). TimingOf u.bridge) (ltb (receipt + delay + late_ns) time) _ _
        (λ _.
          Timing-log _ s.bridge.pending
            (action_dropped (suc s.bridge.next_action) late_at_submission) tt proposed)
        (λ _.
          Timing-push _ s.bridge.pending
            (record { due = receipt + delay; action_id = suc s.bridge.next_action; lane = lane })
            (Proposes-last (suc s.bridge.next_action) lane (receipt + delay) s.bridge.events event
              (refl, refl, refl))
            proposed)
    where
      event : Event
      event = action_proposed (suc s.bridge.next_action) id lane delay (receipt + delay) time

      proposed : Timing (s.bridge.events ++ event ∷ []) s.bridge.pending
      proposed = Timing-log s.bridge.events s.bridge.pending event tt t

  propose_all-Timing :
      (id : List ℕ) (receipt time : ℕ) (as_ : List (ℕ × ℕ)) (s : Submission)
      → TimingOf s.bridge
      → TimingOf (propose_all clock id receipt time as_ s).bridge
  unfolding propose_all
  propose_all-Timing id receipt time [] s t = t
  propose_all-Timing id receipt time ((lane, delay) ∷ as_) s t =
      propose_all-Timing id receipt time as_ (propose clock id receipt time (lane, delay) s)
        (propose-Timing id receipt time lane delay s t)

  enqueue_for-Timing :
      (o : Option Observation) (id : List ℕ) (as_ : List (ℕ × ℕ)) (b : Bridge)
      → TimingOf b
      → TimingOf (enqueue_for clock o id as_ b).1
  enqueue_for-Timing none id as_ b t = t
  enqueue_for-Timing (some o) id as_ b t =
      branch (After TimingOf) (ltb max_pending (length b.pending + length as_)) _ _ (λ _. t)
        (λ _.
          branch (After TimingOf) (ltb max_total_actions (b.next_action + length as_)) _ _ (λ _. t)
            (λ _.
              propose_all-Timing id o.receipt_ns (now clock b) as_
                (record { bridge = tick b; scheduled = 0; dropped_late = 0 }) t))

  pub enqueue-Timing :
      (id : List ℕ) (as_ : List (ℕ × ℕ)) (b : Bridge)
      → TimingOf b
      → TimingOf (enqueue clock id as_ b).1
  unfolding enqueue
  enqueue-Timing id as_ b t =
      guarded (After TimingOf) (check b) b _ (λ e. t)
        (λ fine.
          branch (After TimingOf) (not b.started) _ _ (λ _. t)
            (λ _. enqueue_for-Timing (find_observation id 1 b.observations) id as_ b t))

module _ (clock : ℕ → ℕ) (key_works : ℕ → ℕ → Bool) where
  pub start-Timing : (b : Bridge) → TimingOf b → TimingOf (start_game clock key_works b).1
  unfolding start_game
  start-Timing b t =
      guarded (After TimingOf) (check b) b _ (λ e. t)
        (λ fine.
          branch (After TimingOf) b.started _ _ (λ _. t)
            (λ _.
              branch (After TimingOf) (key_works b.ticks 16) _ _
                (λ _. Timing-log b.events b.pending (start (now clock b)) tt t) (λ _. t)))

  -- An action whose time has come leaves the queue and is sent or dropped.
  send-Timing :
      (a : Scheduled) (b : Bridge)
      → ((n : ℕ) → clock n ≤ clock (suc n))
      → a.due ≤ now clock b
      → Timing b.events (a ∷ b.pending)
      → TimingOf (send clock key_works a b).1
  unfolding send
  send-Timing a b mono ready t =
      branch (After TimingOf) (ltb (a.due + late_ns) (now clock b)) _ _
        (λ _. Timing-log b.events b.pending (action_dropped a.action_id late_at_dispatch) tt rest)
        (λ in_time.
          branch (After TimingOf) (key_works (suc b.ticks) a.lane) _ _
            (λ _.
              Timing-log b.events b.pending event
                (
                  a.due,
                  Proposes-grow a.action_id a.lane a.due b.events (event ∷ []) t.queued.0,
                  ready,
                  not_ltb→le _ _ in_time,
                  mono b.ticks,
                  ground arith,
                )
                rest)
            (λ _. rest))
    where
      event : Event
      event =
          action_sent a.action_id a.lane (now clock b) (now clock (tick b))
            (sub_ℕ (now clock b) a.due)

      rest : Timing b.events b.pending
      rest = Timing-pop b.events b.pending a t

  send-queue : (a : Scheduled) (b : Bridge) → (send clock key_works a b).1.pending ≡ b.pending
  unfolding send
  send-queue a b = ground arith

  pub dispatch-Timing :
      (q : List Scheduled) (b : Bridge)
      → ((n : ℕ) → clock n ≤ clock (suc n))
      → Timing b.events q
      → TimingOf (dispatch clock key_works q b).1
  unfolding dispatch
  dispatch-Timing [] b mono t = t
  dispatch-Timing (a ∷ q) b mono t = elim (Bool-cases (ltb (now clock b) a.due)) [
    | inl early ↦ rw early t
    | inr ready ↦ rw ready (
        either_way TimingOf sent.0 sent.1 (dispatch clock key_works q sent.1) (after ready) (
          dispatch-Timing q sent.1 mono
            (subst (Timing sent.1.events) (send-queue a popped) (after ready))))
  ]
    where
      popped : Bridge
      popped = record (tick b) { pending = q }

      sent : Outcome (Unit {0}) × Bridge
      sent = send clock key_works a popped

      after : ltb (now clock b) a.due ≡ false → TimingOf sent.1
      after ready = send-Timing a popped mono (omega (arith, not_ltb→le _ _ ready, mono b.ticks)) t
