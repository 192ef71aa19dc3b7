-- ===== src/Bridge/Ledger/Counts.antt =====
-- How much the loop of `submit` adds: each action takes the next id and is scheduled or dropped.
use chers.Base.{ℕ, suc, ◌+◌, ◌≡◌, refl, ◌∙◌, List, [], ◌∷◌, ltb, branch, arith, length}
use chers.Bridge.Queue.{Scheduled, push, precedes}
use chers.Bridge.State.{late_ns}
use chers.Bridge.Operations.{Submission, propose, propose_all}

pub length-push : (a : Scheduled) (q : List Scheduled) → length (push a q) ≡ suc (length q)
unfolding push
length-push a [] = refl
length-push a (b ∷ q) =
    branch (λ l. length l ≡ suc (suc (length q))) (precedes a b) (a ∷ b ∷ q) (b ∷ push a q)
      (λ _. refl) (λ _. omega (arith, length-push a q))

-- Between two states of the loop that are so many actions apart.
pub record Apart (n : ℕ) (s s' : Submission) : Type 0 where
  pub ids : s'.bridge.next_action ≡ s.bridge.next_action + n
  pub both : s'.scheduled + s'.dropped_late ≡ s.scheduled + s.dropped_late + n
  pub grows : s.scheduled + length s'.bridge.pending ≡ s'.scheduled + length s.bridge.pending
  pub observations : s'.bridge.observations ≡ s.bridge.observations
  pub png_bytes : s'.bridge.png_bytes ≡ s.bridge.png_bytes
  pub closed : s'.bridge.closed ≡ s.bridge.closed
  pub failure : s'.bridge.failure ≡ s.bridge.failure

module _ (clock : ℕ → ℕ) (id : List ℕ) (receipt time : ℕ) where
  propose-Apart :
      (lane delay : ℕ) (s : Submission) → Apart 1 s (propose clock id receipt time (lane, delay) s)
  unfolding propose
  propose-Apart lane delay s =
      branch (Apart 1 s) (ltb (receipt + delay + late_ns) time) _ _
        (λ _. record {
          ids = omega arith;
          both = omega arith;
          grows = refl;
          observations = refl;
          png_bytes = refl;
          closed = refl;
          failure = refl;
        })
        (λ _. record {
          ids = omega arith;
          both = omega arith;
          grows = omega (
            arith,
            length-push
                (record {
                  due = receipt + delay;
                  action_id = suc s.bridge.next_action;
                  lane = lane;
                })
                s.bridge.pending,
          );
          observations = refl;
          png_bytes = refl;
          closed = refl;
          failure = refl;
        })

  Apart-suc : (n : ℕ) (r s t : Submission) → Apart 1 r s → Apart n s t → Apart (suc n) r t
  Apart-suc n r s t p q = record {
    ids = omega (arith, p.ids, q.ids);
    both = omega (arith, p.both, q.both);
    grows = omega (arith, p.grows, q.grows);
    observations = q.observations ∙ p.observations;
    png_bytes = q.png_bytes ∙ p.png_bytes;
    closed = q.closed ∙ p.closed;
    failure = q.failure ∙ p.failure;
  }

  pub propose_all-Apart :
      (as_ : List (ℕ × ℕ)) (s : Submission)
      → Apart (length as_) s (propose_all clock id receipt time as_ s)
  unfolding propose_all
  propose_all-Apart [] s = record {
    ids = omega arith;
    both = omega arith;
    grows = refl;
    observations = refl;
    png_bytes = refl;
    closed = refl;
    failure = refl;
  }
  propose_all-Apart ((lane, delay) ∷ as_) s =
      Apart-suc (length as_) s (propose clock id receipt time (lane, delay) s) _
        (propose-Apart lane delay s)
        (propose_all-Apart as_ (propose clock id receipt time (lane, delay) s))
