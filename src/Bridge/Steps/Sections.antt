-- ===== src/Bridge/Steps/Sections.antt =====
-- The sections of `start`, `observe`, `submit` and `close`, and the invariant.
use chers.Base.{
  ℕ, suc, ◌+◌, ◌≤◌, ◌<◌, ◌≡◌, refl, sym, ap, ◌∙◌, Bool, true, false, ◌||◌, not, Option, none, some,
  List, [], ◌∷◌, ltb, leb, arith, not_ltb→le, length, length-append, branch,
}
use chers.Bridge.Queue.{Scheduled}
use chers.Bridge.State.{
  Bridge, Observation, observation, start, action_dropped, bridge_closed, log, check, max_pending,
  max_observations, max_png_bytes, max_total_actions,
}
use chers.Bridge.Operations.{
  Submission, tick, now, observe_store, enqueue, enqueue_for, find_observation,
}
use chers.Bridge.Dispatch.{drop_all, start_game, close}
use chers.Bridge.Ledger.{LedgerOf, drop_all-Ledger, propose_all-Ledger, Ledger-other}
use chers.Bridge.Ledger.Counts.{Apart, propose_all-Apart}
use chers.Bridge.Steps.Dispatching.{Inv, Same, guarded, check-none, open-closed}
use chers.Bridge.Steps.Quiet.{After}

room_left :
    (m n : ℕ)
    → (leb max_observations m || ltb max_png_bytes n) ≡ false
    → (m < max_observations) × (n ≤ max_png_bytes)
room_left m n e = ground arith

drop_all-pending : (q : List Scheduled) (b : Bridge) → (drop_all q b).pending ≡ []
unfolding drop_all
drop_all-pending [] b = refl
drop_all-pending (a ∷ q) b = drop_all-pending q (log (action_dropped a.action_id bridge_closed) b)

pub drop_all-Same : (q : List Scheduled) (b : Bridge) → Same b (drop_all q b)
unfolding drop_all
drop_all-Same [] b = record {
  next_action = refl;
  observations = refl;
  png_bytes = refl;
  closed = refl;
  failure = refl;
}
drop_all-Same (a ∷ q) b =
    let s = drop_all-Same q (log (action_dropped a.action_id bridge_closed) b) in
    record {
      next_action = s.next_action;
      observations = s.observations;
      png_bytes = s.png_bytes;
      closed = s.closed;
      failure = s.failure;
    }

closed-Inv :
    (b : Bridge)
    → Inv b
    → Inv (record (drop_all b.pending (record b { stopped = true })) { closed = true })
closed-Inv b v =
    let s = drop_all-Same b.pending (record b { stopped = true }) in
    let empty = drop_all-pending b.pending (record b { stopped = true }) in
    record {
      bounded = record {
        pending = omega (arith, ap length empty);
        actions = omega (arith, v.bounded.actions, s.next_action);
        observations = omega (arith, v.bounded.observations, ap length s.observations);
        bytes = omega (arith, v.bounded.bytes, s.png_bytes);
      };
      ledger = λ h.
          (drop_all-Ledger b.pending (record b { stopped = true })
            (v.ledger (sym s.failure ∙ h))).0;
      drained = λ h. empty;
    }

pub close-Inv : (w k : Bool) (b : Bridge) → Inv b → Inv (close w k b).1
unfolding close
close-Inv w k b v =
    branch (After Inv) b.closed _ _ (λ _. v)
      (λ is_open.
        branch (After Inv) (not w) _ _
          (λ _. record {
            bounded = record {
              pending = v.bounded.pending;
              actions = v.bounded.actions;
              observations = v.bounded.observations;
              bytes = v.bounded.bytes;
            };
            ledger = v.ledger;
            drained = v.drained;
          })
          (λ _. closed-Inv b v))

module _ (clock : ℕ → ℕ) (key_works : ℕ → ℕ → Bool) where
  pub start-Inv : (b : Bridge) → Inv b → Inv (start_game clock key_works b).1
  unfolding start_game
  start-Inv b v =
      guarded (After Inv) (check b) b _ (λ e. v)
        (λ fine.
          branch (After Inv) b.started _ _ (λ _. v)
            (λ _.
              branch (After Inv) (key_works b.ticks 16) _ _
                (λ _. record {
                  bounded = record {
                    pending = v.bounded.pending;
                    actions = v.bounded.actions;
                    observations = v.bounded.observations;
                    bytes = v.bounded.bytes;
                  };
                  ledger = λ h.
                      Ledger-other b.next_action b.events b.pending (start (now clock b))
                        (λ k. refl) (λ k. refl) (v.ledger h);
                  drained = v.drained;
                })
                (λ _. v)))

  pub store-Inv :
      (receipt : ℕ) (png : List ℕ) (b : Bridge) → Inv b → Inv (observe_store clock receipt png b).1
  unfolding observe_store
  store-Inv receipt png b v =
      guarded (After Inv) (check b) b _ (λ e. v)
        (λ fine.
          branch (After Inv)
            (leb max_observations (length b.observations)
              || ltb max_png_bytes (b.png_bytes + length png))
            _ _ (λ _. v)
            (λ room. record {
              bounded = record {
                pending = v.bounded.pending;
                actions = v.bounded.actions;
                observations = omega (
                  arith,
                  length-append b.observations (record { receipt_ns = receipt; png = png } ∷ []),
                  (room_left (length b.observations) (b.png_bytes + length png) room).0,
                );
                bytes = (room_left (length b.observations) (b.png_bytes + length png) room).1;
              };
              ledger = λ h.
                  Ledger-other b.next_action b.events b.pending
                    (observation (suc (length b.observations)) receipt (now clock b)) (λ k. refl)
                    (λ k. refl) (v.ledger h);
              drained = v.drained;
            }))

  submitted-Inv :
      (n : ℕ) (b : Bridge) (s : Submission)
      → Inv b
      → b.closed ≡ false
      → length b.pending + n ≤ max_pending
      → b.next_action + n ≤ max_total_actions
      → Apart n (record { bridge = tick b; scheduled = 0; dropped_late = 0 }) s
      → (b.failure ≡ none → LedgerOf s.bridge)
      → Inv s.bridge
  submitted-Inv n b s v is_open room ids a l = record {
    bounded = record {
      pending = omega (arith, a.grows, a.both);
      actions = omega (arith, a.ids);
      observations = omega (arith, v.bounded.observations, ap length a.observations);
      bytes = omega (arith, v.bounded.bytes, a.png_bytes);
    };
    ledger = λ h. l (sym a.failure ∙ h);
    drained = λ h. absurd (open-closed _ _ is_open a.closed h);
  }

  enqueue_for-Inv :
      (o : Option Observation) (id : List ℕ) (as_ : List (ℕ × ℕ)) (b : Bridge)
      → (b.closed ≡ false)
      → Inv b
      → Inv (enqueue_for clock o id as_ b).1
  enqueue_for-Inv none id as_ b is_open v = v
  enqueue_for-Inv (some o) id as_ b is_open v =
      branch (After Inv) (ltb max_pending (length b.pending + length as_)) _ _ (λ _. v)
        (λ room.
          branch (After Inv) (ltb max_total_actions (b.next_action + length as_)) _ _ (λ _. v)
            (λ ids.
              submitted-Inv (length as_) b _ v is_open (omega (arith, not_ltb→le _ _ room))
                (omega (arith, not_ltb→le _ _ ids))
                (propose_all-Apart clock id o.receipt_ns (now clock b) as_
                  (record { bridge = tick b; scheduled = 0; dropped_late = 0 }))
                (λ h.
                  propose_all-Ledger clock id o.receipt_ns (now clock b) as_
                    (record { bridge = tick b; scheduled = 0; dropped_late = 0 }) (v.ledger h))))

  pub enqueue-Inv :
      (id : List ℕ) (as_ : List (ℕ × ℕ)) (b : Bridge) → Inv b → Inv (enqueue clock id as_ b).1
  unfolding enqueue
  enqueue-Inv id as_ b v =
      guarded (After Inv) (check b) b _ (λ e. v)
        (λ fine.
          branch (After Inv) (not b.started) _ _ (λ _. v)
            (λ _.
              enqueue_for-Inv (find_observation id 1 b.observations) id as_ b (check-none b fine).1
                v))
