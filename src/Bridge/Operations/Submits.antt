-- ===== src/Bridge/Operations/Submits.antt =====
-- What `submit` leaves, when it returns and when it raises.
use chers.Base.{
  ℕ, ◌≤◌, ◌+◌, ◌≡◌, refl, not, Option, none, some, List, length, ltb, arith, branch, subst,
}
use chers.Bridge.State.{
  Bridge, Observation, Outcome, done, raised, check, max_pending, max_total_actions, max_actions,
}
use chers.Bridge.Actions.{Floats, ActionsValue, validate}
use chers.Bridge.Actions.Bounds.{handed_in, validate-length, validate-InRange}
use chers.Bridge.Operations.{
  Submission, Counts, tick, now, find_observation, enqueue_for, enqueue, submit,
}
use chers.Bridge.Steps.Dispatching.{guarded}
use chers.Bridge.Ledger.Counts.{Apart, propose_all-Apart}

-- After a call of `submit` on so many validated actions, from the state `b`.
abbrev pub Submitted : ℕ → Bridge → Outcome Counts × Bridge → Type 0
Submitted n b (raised e, b') = b' ≡ b
Submitted n b (done c, b') =
    (c.accepted ≡ n)
    × (c.scheduled + c.dropped_late ≡ n)
    × (b'.next_action ≡ b.next_action + n)
    × (length b'.pending ≡ length b.pending + c.scheduled)

queued-Submitted :
    (n : ℕ) (b : Bridge) (s : Submission)
    → Apart n (record { bridge = tick b; scheduled = 0; dropped_late = 0 }) s
    → Submitted n b (
      done (record { accepted = n; scheduled = s.scheduled; dropped_late = s.dropped_late }),
      s.bridge,
    )
queued-Submitted n b s a = (refl, omega (arith, a.both), a.ids, omega (arith, a.grows))

module _ (clock : ℕ → ℕ) where
  enqueue_for-Submitted :
      (o : Option Observation) (id : List ℕ) (as_ : List (ℕ × ℕ)) (b : Bridge)
      → Submitted (length as_) b (enqueue_for clock o id as_ b)
  enqueue_for-Submitted none id as_ b = refl
  enqueue_for-Submitted (some o) id as_ b =
      branch (Submitted (length as_) b) (ltb max_pending (length b.pending + length as_)) _ _
        (λ _. refl)
        (λ _.
          branch (Submitted (length as_) b) (ltb max_total_actions (b.next_action + length as_)) _ _
            (λ _. refl)
            (λ _. queued-Submitted (length as_) b _ (
              propose_all-Apart clock id o.receipt_ns (now clock b) as_
                (record { bridge = tick b; scheduled = 0; dropped_late = 0 }))))

  enqueue-Submitted :
      (id : List ℕ) (as_ : List (ℕ × ℕ)) (b : Bridge)
      → Submitted (length as_) b (enqueue clock id as_ b)
  unfolding enqueue
  enqueue-Submitted id as_ b =
      guarded (Submitted (length as_) b) (check b) b _ (λ e. refl)
        (λ fine.
          branch (Submitted (length as_) b) (not b.started) _ _ (λ _. refl)
            (λ _. enqueue_for-Submitted (find_observation id 1 b.observations) id as_ b))

module _ (floats : Floats) (other_upper : ℕ → List ℕ) (clock : ℕ → ℕ) where
  open floats use {Float}

  validated-Submitted :
      (id : List ℕ) (n : ℕ) (o : Outcome (List (ℕ × ℕ))) (b : Bridge)
      → ((as_ : List (ℕ × ℕ)) → o ≡ done as_ → length as_ ≡ n)
      → Submitted n b (elim o as (λ _. Outcome Counts × Bridge) [
        | raised e ↦ (raised e, b)
        | done valid ↦ enqueue clock id valid b
      ])
  validated-Submitted id n (raised e) b size = refl
  validated-Submitted id n (done as_) b size =
      subst (λ m. Submitted m b (enqueue clock id as_ b)) (size as_ refl)
        (enqueue-Submitted clock id as_ b)

  -- A call of `submit` that raises leaves the bridge as it was: no action of a batch is queued unless
  -- all of it is valid. A call that returns has accepted every action it was handed: each took the
  -- next number, and was scheduled or dropped as late; the queue grew by those scheduled.
  pub submit-Submitted :
      (id : List ℕ) (actions : ActionsValue Float) (b : Bridge)
      → Submitted (handed_in floats actions) b (submit floats other_upper clock id actions b)
  unfolding submit
  submit-Submitted id actions b =
      validated-Submitted id (handed_in floats actions)
        (validate floats other_upper b.lanes actions) b
        (λ vs e. validate-length floats other_upper b.lanes actions vs e)

  -- How many actions a call accepts.
  abbrev pub Few : Outcome Counts × Bridge → Type 0
  Few (raised e, b) = Unit
  Few (done c, b) = c.accepted ≤ max_actions

  Submitted-Few :
      (n : ℕ) (b : Bridge) (r : Outcome Counts × Bridge) → Submitted n b r → n ≤ max_actions → Few r
  Submitted-Few n b (raised e, b') s le = tt
  Submitted-Few n b (done c, b') s le = omega (arith, s.0, le)

  -- A call accepts at most 128 actions.
  pub submit-Few :
      (id : List ℕ) (actions : ActionsValue Float) (b : Bridge)
      → Few (submit floats other_upper clock id actions b)
  unfolding submit
  submit-Few id actions b = validated (validate floats other_upper b.lanes actions) refl
    where
      validated :
          (o : Outcome (List (ℕ × ℕ)))
          → validate floats other_upper b.lanes actions ≡ o
          → Few (elim o as (λ _. Outcome Counts × Bridge) [
            | raised e ↦ (raised e, b)
            | done valid ↦ enqueue clock id valid b
          ])
      validated (raised x) e = tt
      validated (done as_) e =
          Submitted-Few (length as_) b _ (enqueue-Submitted clock id as_ b)
            (validate-InRange floats other_upper b.lanes actions as_ e).1
