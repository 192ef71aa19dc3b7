-- ===== src/Bridge/Steps/Quiet.antt =====
-- The sections of the methods that change neither the log nor the queue.
use chers.Base.{
  ℕ, ◌*◌, ◌≡◌, refl, sym, ap, subst, ◌∙◌, ◌&&◌, not, Option, none, some, List, leb, ◌==◌, arith,
  length, branch,
}
use chers.Bridge.State.{Bridge, Frame, Outcome, done, raised, check}
use chers.Bridge.Operations.{
  tick, now, capture_once, count_gap, observe_take, publish, published, take_latest,
}
use chers.Bridge.Ledger.{Ledger, LedgerOf}
use chers.Bridge.Steps.Dispatching.{Bounded, Inv, Same, Within-Bounded, guarded}

abbrev pub After : {A : Type 0} → (Bridge → Type 0) → Outcome A × Bridge → Type 0
After P r = P r.1

-- A step that changes neither the log nor the queue.
pub record Quiet (b b' : Bridge) : Type 0 where
  pub same : Same b b'
  pub events : b'.events ≡ b.events
  pub pending : b'.pending ≡ b.pending

Quiet-Bounded : (b b' : Bridge) → Quiet b b' → Bounded b → Bounded b'
Quiet-Bounded b b' q v = Within-Bounded b b' v (q.same, omega (arith, ap length q.pending))

Quiet-Ledger : (b b' : Bridge) → Quiet b b' → LedgerOf b → LedgerOf b'
Quiet-Ledger b b' q l =
    subst (λ n. Ledger n b'.events b'.pending) (sym q.same.next_action)
      (subst (λ e. Ledger b.next_action e b'.pending) (sym q.events)
        (subst (Ledger b.next_action b.events) (sym q.pending) l))

pub Quiet-Inv : (b b' : Bridge) → Quiet b b' → Inv b → Inv b'
Quiet-Inv b b' q v = record {
  bounded = Quiet-Bounded b b' q v.bounded;
  ledger = λ h. Quiet-Ledger b b' q (v.ledger (sym q.same.failure ∙ h));
  drained = λ h. q.pending ∙ v.drained (sym q.same.closed ∙ h);
}

Quiet-refl : (b : Bridge) → Quiet b b
Quiet-refl b = record {
  same = record {
    next_action = refl;
    observations = refl;
    png_bytes = refl;
    closed = refl;
    failure = refl;
  };
  events = refl;
  pending = refl;
}

tick-Quiet : (b : Bridge) → Quiet b (tick b)
tick-Quiet b = record {
  same = record {
    next_action = refl;
    observations = refl;
    png_bytes = refl;
    closed = refl;
    failure = refl;
  };
  events = refl;
  pending = refl;
}

Quiet-trans : (b c d : Bridge) → Quiet b c → Quiet c d → Quiet b d
Quiet-trans b c d p q = record {
  same = record {
    next_action = q.same.next_action ∙ p.same.next_action;
    observations = q.same.observations ∙ p.same.observations;
    png_bytes = q.same.png_bytes ∙ p.same.png_bytes;
    closed = q.same.closed ∙ p.same.closed;
    failure = q.same.failure ∙ p.same.failure;
  };
  events = q.events ∙ p.events;
  pending = q.pending ∙ p.pending;
}

module _ (clock : ℕ → ℕ) where
  gap-Quiet : (receipt : ℕ) (b b' : Bridge) → count_gap clock receipt b ≡ done b' → Quiet b b'
  unfolding count_gap
  gap-Quiet receipt b b' e = record {
    same = record {
      next_action = ground arith;
      observations = ground arith;
      png_bytes = ground arith;
      closed = ground arith;
      failure = ground arith;
    };
    events = ground arith;
    pending = ground arith;
  }

  publish-Quiet :
      (receipt : ℕ) (rgba : List ℕ) (b : Bridge) → Quiet b (publish clock receipt rgba b)
  publish-Quiet receipt rgba b = record {
    same = record {
      next_action = refl;
      observations = refl;
      png_bytes = refl;
      closed = refl;
      failure = refl;
    };
    events = refl;
    pending = refl;
  }

  published-Quiet :
      (receipt : ℕ) (rgba : List ℕ) (b c : Bridge)
      → Quiet b c
      → (o : Outcome Bridge) → ((b' : Bridge) → o ≡ done b' → Quiet c b')
      → Quiet b (published clock receipt rgba c o).1
  published-Quiet receipt rgba b c p (done b') q =
      Quiet-trans b b' (publish clock receipt rgba b') (Quiet-trans b c b' p (q b' refl))
        (publish-Quiet receipt rgba b')
  published-Quiet receipt rgba b c p (raised e) q = p

  pub capture-Quiet :
      (v : Option (ℕ × ℕ × ℕ × List ℕ)) (b : Bridge) → Quiet b (capture_once clock v b).1
  unfolding capture_once
  capture-Quiet none b = Quiet-refl b
  capture-Quiet (some (width, height, stride, rgba)) b =
      branch (After (Quiet b)) (not (width == 640 && (height == 360 && stride == 2560))) _ _
        (λ _. tick-Quiet b)
        (λ _.
          branch (After (Quiet b)) (not (length rgba == 640 * 360 * 4)) _ _ (λ _. tick-Quiet b)
            (λ _.
              published-Quiet (now clock b) rgba b (tick b) (tick-Quiet b)
                (count_gap clock (now clock b) (tick b)) (gap-Quiet (now clock b) (tick b))))

  take_latest-Quiet : (f : Option Frame) (b : Bridge) → Quiet b (take_latest clock f b).1
  take_latest-Quiet none b = Quiet-refl b
  take_latest-Quiet (some f) b =
      branch (After (Quiet b)) (leb f.number b.last_returned_frame) _ _ (λ _. Quiet-refl b)
        (λ _. record {
          same = record {
            next_action = refl;
            observations = refl;
            png_bytes = refl;
            closed = refl;
            failure = refl;
          };
          events = refl;
          pending = refl;
        })

  pub take-Quiet : (b : Bridge) → Quiet b (observe_take clock b).1
  unfolding observe_take
  take-Quiet b =
      guarded (After (Quiet b)) (check b) b _ (λ e. Quiet-refl b)
        (λ fine. take_latest-Quiet b.latest b)
