-- ===== src/Bridge/Timely.antt =====
-- When keys are pressed: the presses in the log of the bridge, next to the proposed actions.
pub mod Sending
pub mod Reached
use chers.Base.{
  ℕ, ◌+◌, ◌-◌, ◌≤◌, ◌≡◌, ◌⊎◌, inl, inr, refl, sym, subst, ◌∙◌, ap, List, [], ◌∷◌, ◌++◌, ℤ, pos,
  Bool, true, false, branch, arith,
}
use chers.Base.Predicates.{All, All-append, All-map}
use chers.Bridge.Queue.{Scheduled, push, precedes}
use chers.Bridge.State.{
  Bridge, Event, error, observation, start, action_proposed, action_dropped, action_sent, late_ns,
}

abbrev pub IsProposal : ℕ → ℕ → ℕ → Event → Type 0
IsProposal id lane due (action_proposed i _ l _ d _) = (i ≡ id) × (l ≡ lane) × (d ≡ due)
IsProposal id lane due _ = ⊥

-- A log proposes an action with this number, lane and due time.
abbrev pub Proposes : ℕ → ℕ → ℕ → List Event → Type 0
Proposes id lane due [] = ⊥
Proposes id lane due (e ∷ es) = IsProposal id lane due e ⊎ Proposes id lane due es

-- A press is that of a proposed action, in its lane, from its due time on and at most 20 ms behind it,
-- and is logged with its lateness.
abbrev pub Timely : List Event → Event → Type 0
Timely log (action_sent id lane sent returned lateness) =
    (due : ℕ) × Proposes id lane due log
    × (due ≤ sent)
    × (sent ≤ due + late_ns)
    × (sent ≤ returned)
    × (lateness ≡ pos (sent - due))
Timely log _ = Unit

-- All presses of the log are timely, and whatever waits was proposed.
pub record Timing (events : List Event) (pending : List Scheduled) : Type 0 where
  pub sent : All (Timely events) events
  pub queued : All (λ a. Proposes a.action_id a.lane a.due events) pending

abbrev pub TimingOf : Bridge → Type 0
TimingOf b = Timing b.events b.pending

pub Proposes-grow :
    (id lane due : ℕ) (es fs : List Event)
    → Proposes id lane due es
    → Proposes id lane due (es ++ fs)
Proposes-grow id lane due [] fs h = absurd h
Proposes-grow id lane due (e ∷ es) fs (inl here) = inl here
Proposes-grow id lane due (e ∷ es) fs (inr later) = inr (Proposes-grow id lane due es fs later)

pub Proposes-last :
    (id lane due : ℕ) (es : List Event) (e : Event)
    → IsProposal id lane due e
    → Proposes id lane due (es ++ e ∷ [])
Proposes-last id lane due [] e h = inl h
Proposes-last id lane due (d ∷ es) e h = inr (Proposes-last id lane due es e h)

Timely-grow : (es fs : List Event) (e : Event) → Timely es e → Timely (es ++ fs) e
Timely-grow es fs (error _ _) h = tt
Timely-grow es fs (observation _ _ _) h = tt
Timely-grow es fs (start _) h = tt
Timely-grow es fs (action_proposed _ _ _ _ _ _) h = tt
Timely-grow es fs (action_dropped _ _) h = tt
Timely-grow es fs (action_sent id lane sent returned lateness) (due, p, early, late, back, gap) =
    (due, Proposes-grow id lane due es fs p, early, late, back, gap)

-- A timely event is logged.
pub Timing-log :
    (es : List Event) (q : List Scheduled) (e : Event)
    → Timely (es ++ e ∷ []) e
    → Timing es q
    → Timing (es ++ e ∷ []) q
Timing-log es q e h t = record {
  sent =
      All-append (Timely (es ++ e ∷ [])) es (e ∷ [])
        (All-map (Timely es) (Timely (es ++ e ∷ [])) es (Timely-grow es (e ∷ [])) t.sent) (h, tt);
  queued = All-map _ _ q (λ a. Proposes-grow a.action_id a.lane a.due es (e ∷ [])) t.queued;
}

push-All :
    (P : Scheduled → Type 0) (a : Scheduled) (q : List Scheduled) → P a → All P q → All P (push a q)
unfolding push
push-All P a [] p h = (p, tt)
push-All P a (b ∷ q) p h =
    branch (All P) (precedes a b) _ _ (λ _. (p, h)) (λ _. (h.0, push-All P a q p h.1))

pub Timing-push :
    (es : List Event) (q : List Scheduled) (a : Scheduled)
    → Proposes a.action_id a.lane a.due es
    → Timing es q
    → Timing es (push a q)
Timing-push es q a p t = record { sent = t.sent; queued = push-All _ a q p t.queued }

-- An action leaves the queue.
pub Timing-pop :
    (es : List Event) (q : List Scheduled) (a : Scheduled) → Timing es (a ∷ q) → Timing es q
Timing-pop es q a t = record { sent = t.sent; queued = t.queued.1 }
