-- ===== src/Bridge/Ledger.antt =====
-- Where each proposed action of the bridge is: in the queue, or ended by being sent or dropped.
pub mod Counts
use chers.Base.{
  subst, sub_ℕ, ℕ, zero, suc, ◌+◌, ◌≤◌, ◌<◌, ◌≡◌, ◌≢◌, refl, sym, ap, ◌∙◌, inl, inr, Bool, true,
  false, ◌&&◌, Option, none, some, List, [], ◌∷◌, ◌++◌, ltb, leb, ◌==◌, if◌then◌else◌, Bool-cases,
  Option-cases, arith,
}
use chers.Base.Predicates.{sum_by, sum_by-snoc}
use chers.Bridge.Queue.{Scheduled, push, precedes}
use chers.Bridge.State.{
  Bridge, Event, Outcome, done, raised, error, observation, start, action_proposed, action_dropped,
  action_sent, late_at_submission, late_at_dispatch, bridge_closed, log, init, check, late_ns,
}
use chers.Bridge.Operations.{Submission, propose, propose_all, tick, now}
use chers.Bridge.Dispatch.{send, dispatch, drop_all}

-- 1 for the number `k`, and 0 for any other.
abbrev pub one_at : ℕ → ℕ → ℕ
one_at k id = if id == k then 1 else 0

abbrev pub proposal : ℕ → Event → ℕ
proposal k (action_proposed id _ _ _ _ _) = one_at k id
proposal k _ = 0

abbrev pub ending : ℕ → Event → ℕ
ending k (action_dropped id _) = one_at k id
ending k (action_sent id _ _ _ _) = one_at k id
ending k _ = 0

abbrev pub waiting : ℕ → Scheduled → ℕ
waiting k a = one_at k a.action_id

-- Of a count of proposals, a log and a queue: the ids from 1 to the count have each been proposed
-- once, and no other; and an action has been proposed as often as it waits or has ended.
pub record Ledger (next : ℕ) (events : List Event) (pending : List Scheduled) : Type 0 where
  pub numbered : (k : ℕ) → sum_by (proposal k) events ≡ (if ltb 0 k && leb k next then 1 else 0)
  pub accounted :
      (k : ℕ) → sum_by (proposal k) events ≡ sum_by (waiting k) pending + sum_by (ending k) events

abbrev pub LedgerOf : Bridge → Type 0
LedgerOf b = Ledger b.next_action b.events b.pending

pub sum_by-push :
    (f : Scheduled → ℕ) (a : Scheduled) (q : List Scheduled)
    → sum_by f (push a q) ≡ f a + sum_by f q
unfolding push
sum_by-push f a [] = refl
sum_by-push f a (b ∷ q) = elim (Bool-cases (precedes a b)) [
  | inl before ↦ rw before
  | inr behind ↦ rw behind (omega (arith, sum_by-push f a q))
]

pub init-Ledger : (lanes : ℕ) → LedgerOf (init lanes)
unfolding init
init-Ledger lanes = record { numbered = λ k. ground arith; accounted = λ k. refl }

module _ (next : ℕ) (events : List Event) (pending : List Scheduled) where
  -- An event that proposes and ends nothing keeps the ledger.
  pub Ledger-other :
      (e : Event)
      → ((k : ℕ) → proposal k e ≡ 0)
      → ((k : ℕ) → ending k e ≡ 0)
      → Ledger next events pending
      → Ledger next (events ++ e ∷ []) pending
  Ledger-other e p q l = record {
    numbered = λ k. sum_by-snoc (proposal k) events e ∙ omega (arith, p k) ∙ l.numbered k;
    accounted = λ k. omega (
      arith,
      sum_by-snoc (proposal k) events e,
      sum_by-snoc (ending k) events e,
      p k,
      q k,
      l.accounted k,
    );
  }

  -- An action of the queue ends.
  pub Ledger-end :
      (e : Event) (a : Scheduled)
      → ((k : ℕ) → proposal k e ≡ 0)
      → ((k : ℕ) → ending k e ≡ waiting k a)
      → Ledger next events (a ∷ pending)
      → Ledger next (events ++ e ∷ []) pending
  Ledger-end e a p q l = record {
    numbered = λ k. sum_by-snoc (proposal k) events e ∙ omega (arith, p k) ∙ l.numbered k;
    accounted = λ k. omega (
      arith,
      sum_by-snoc (proposal k) events e,
      sum_by-snoc (ending k) events e,
      p k,
      q k,
      l.accounted k,
    );
  }

  numbered_next :
      (k p : ℕ)
      → p ≡ (if ltb 0 k && leb k next then 1 else 0)
      → p + one_at k (suc next) ≡ (if ltb 0 k && leb k (suc next) then 1 else 0)
  numbered_next k p e = ground arith

  -- A new action is proposed, and goes into the queue or is dropped at once.
  pub Ledger-queued :
      (e : Event) (a : Scheduled)
      → ((k : ℕ) → proposal k e ≡ one_at k (suc next))
      → ((k : ℕ) → ending k e ≡ 0)
      → a.action_id ≡ suc next
      → Ledger next events pending
      → Ledger (suc next) (events ++ e ∷ []) (push a pending)
  Ledger-queued e a p q same l = record {
    numbered = λ k.
        sum_by-snoc (proposal k) events e
        ∙ ap (λ (n : ℕ). sum_by (proposal k) events + n) (p k)
        ∙ numbered_next k (sum_by (proposal k) events) (l.numbered k);
    accounted = λ k. omega (
      arith,
      sum_by-snoc (proposal k) events e,
      sum_by-snoc (ending k) events e,
      sum_by-push (waiting k) a pending,
      ap (one_at k) same,
      p k,
      q k,
      l.accounted k,
    );
  }

  pub Ledger-dropped :
      (e f : Event)
      → ((k : ℕ) → proposal k e ≡ one_at k (suc next))
      → ((k : ℕ) → ending k e ≡ 0)
      → ((k : ℕ) → proposal k f ≡ 0)
      → ((k : ℕ) → ending k f ≡ one_at k (suc next))
      → Ledger next events pending
      → Ledger (suc next) ((events ++ e ∷ []) ++ f ∷ []) pending
  Ledger-dropped e f p q p' q' l = record {
    numbered = λ k.
        sum_by-snoc (proposal k) (events ++ e ∷ []) f
        ∙ omega (arith, sum_by-snoc (proposal k) events e, p k, p' k)
        ∙ numbered_next k (sum_by (proposal k) events) (l.numbered k);
    accounted = λ k. omega (
      arith,
      sum_by-snoc (proposal k) (events ++ e ∷ []) f,
      sum_by-snoc (proposal k) events e,
      sum_by-snoc (ending k) (events ++ e ∷ []) f,
      sum_by-snoc (ending k) events e,
      p k,
      q k,
      p' k,
      q' k,
      l.accounted k,
    );
  }

module _ (clock : ℕ → ℕ) where
  propose-Ledger :
      (id : List ℕ) (receipt time : ℕ) (a : ℕ × ℕ) (s : Submission)
      → LedgerOf s.bridge
      → LedgerOf (propose clock id receipt time a s).bridge
  unfolding propose
  propose-Ledger id receipt time (lane, delay) s l =
      elim (Bool-cases (ltb (receipt + delay + late_ns) time)) [
        | inl late ↦ rw late (
            Ledger-dropped s.bridge.next_action s.bridge.events s.bridge.pending
              (action_proposed (suc s.bridge.next_action) id lane delay (receipt + delay) time)
              (action_dropped (suc s.bridge.next_action) late_at_submission) (λ k. refl) (λ k. refl)
              (λ k. refl) (λ k. refl) l)
        | inr in_time ↦ rw in_time (
            Ledger-queued s.bridge.next_action s.bridge.events s.bridge.pending
              (action_proposed (suc s.bridge.next_action) id lane delay (receipt + delay) time)
              (record { due = receipt + delay; action_id = suc s.bridge.next_action; lane = lane })
              (λ k. refl) (λ k. refl) refl l)
      ]

  pub propose_all-Ledger :
      (id : List ℕ) (receipt time : ℕ) (as_ : List (ℕ × ℕ)) (s : Submission)
      → LedgerOf s.bridge
      → LedgerOf (propose_all clock id receipt time as_ s).bridge
  unfolding propose_all
  propose_all-Ledger id receipt time [] s l = l
  propose_all-Ledger id receipt time (a ∷ as_) s l =
      propose_all-Ledger id receipt time as_ (propose clock id receipt time a s)
        (propose-Ledger id receipt time a s l)

-- The loop of `close` ends every action that waits.
pub drop_all-Ledger :
    (q : List Scheduled) (b : Bridge)
    → Ledger b.next_action b.events q
    → LedgerOf (drop_all q b) × ((drop_all q b).pending ≡ [])
unfolding drop_all
drop_all-Ledger [] b l = (l, refl)
drop_all-Ledger (a ∷ q) b l = drop_all-Ledger q (log (action_dropped a.action_id bridge_closed) b) (
    Ledger-end b.next_action b.events q (action_dropped a.action_id bridge_closed) a (λ k. refl)
      (λ k. refl) l)

-- The ledger holds of the state of a call that was not broken off by a raise.
abbrev pub Kept : Outcome (Unit {0}) × Bridge → Type 0
Kept (done _, b) = LedgerOf b
Kept (raised _, b) = Unit

Kept-after :
    (o : Outcome (Unit {0})) (b : Bridge) (rest : Outcome (Unit {0}) × Bridge)
    → Kept (o, b)
    → (LedgerOf b → Kept rest)
    → Kept (elim o [ done _ ↦ rest | raised e ↦ (raised e, b) ])
Kept-after (done _) b rest k f = f k
Kept-after (raised e) b rest k f = tt

module _ (clock : ℕ → ℕ) (key_works : ℕ → ℕ → Bool) where
  -- An action that is taken from the queue ends, unless its key cannot be pressed.
  send-Kept :
      (a : Scheduled) (b : Bridge)
      → Ledger b.next_action b.events (a ∷ b.pending)
      → Kept (send clock key_works a b)
  unfolding send
  send-Kept a b l = elim (Bool-cases (ltb (a.due + late_ns) (now clock b))) [
    | inl late ↦ rw late (
        Ledger-end b.next_action b.events b.pending (action_dropped a.action_id late_at_dispatch) a
          (λ k. refl) (λ k. refl) l)
    | inr in_time ↦ elim (Bool-cases (key_works (suc b.ticks) a.lane)) [
      | inl works ↦
          rw (in_time, works)
            (Ledger-end b.next_action b.events b.pending
              (action_sent a.action_id a.lane (now clock b) (now clock (tick b))
                (sub_ℕ (now clock b) a.due))
              a (λ k. refl) (λ k. refl) l)
      | inr broken ↦ rw (in_time, broken) tt
    ]
  ]

  send-pending : (a : Scheduled) (b : Bridge) → (send clock key_works a b).1.pending ≡ b.pending
  unfolding send
  send-pending a b = ground arith

  pub dispatch-Kept :
      (q : List Scheduled) (b : Bridge)
      → Ledger b.next_action b.events q
      → Kept (dispatch clock key_works q b)
  unfolding dispatch
  dispatch-Kept [] b l = l
  dispatch-Kept (a ∷ q) b l = elim (Bool-cases (ltb (now clock b) a.due)) [
    | inl early ↦ rw early l
    | inr ready ↦ rw ready (
        Kept-after sent.0 sent.1 (dispatch clock key_works q sent.1)
          (send-Kept a (record (tick b) { pending = q }) l)
          (λ l'. dispatch-Kept q sent.1 (
            subst (Ledger sent.1.next_action sent.1.events)
              (send-pending a (record (tick b) { pending = q })) l')))
  ]
    where
      sent : Outcome (Unit {0}) × Bridge
      sent = send clock key_works a (record (tick b) { pending = q })
