-- ===== src/Bridge/Steps/Dispatching.antt =====
-- The invariant of the bridge, and that a round of the scheduling thread keeps it.
use chers.Base.{
  ℕ, suc, ◌≤◌, ◌≡◌, refl, ap, ◌∙◌, inl, inr, Bool, true, false, Option, none, some, List, [], ◌∷◌,
  ltb, Bool-cases, Option-cases, arith, length,
}
use chers.Bridge.Queue.{Scheduled}
use chers.Bridge.State.{
  Bridge, BridgeError, Outcome, done, raised, check, max_pending, max_observations, max_png_bytes,
  max_total_actions,
}
use chers.Bridge.Operations.{tick, now, fail}
use chers.Bridge.Dispatch.{send, dispatch, dispatch_due}
use chers.Bridge.Ledger.{LedgerOf, Kept, dispatch-Kept}
use chers.Bridge.Steps.{handled}

-- The capacities.
pub record Bounded (b : Bridge) : Type 0 where
  pub pending : length b.pending ≤ max_pending
  pub actions : b.next_action ≤ max_total_actions
  pub observations : length b.observations ≤ max_observations
  pub bytes : b.png_bytes ≤ max_png_bytes

-- Until the bridge has failed its ledger is right, and a closed bridge has an empty queue.
pub record Inv (b : Bridge) : Type 0 where
  pub bounded : Bounded b
  pub ledger : b.failure ≡ none → LedgerOf b
  pub drained : b.closed ≡ true → b.pending ≡ []

-- The parts of the state that dispatching leaves alone.
pub record Same (b b' : Bridge) : Type 0 where
  pub next_action : b'.next_action ≡ b.next_action
  pub observations : b'.observations ≡ b.observations
  pub png_bytes : b'.png_bytes ≡ b.png_bytes
  pub closed : b'.closed ≡ b.closed
  pub failure : b'.failure ≡ b.failure

Same-trans : {b c d : Bridge} → Same b c → Same c d → Same b d
Same-trans s t = record {
  next_action = t.next_action ∙ s.next_action;
  observations = t.observations ∙ s.observations;
  png_bytes = t.png_bytes ∙ s.png_bytes;
  closed = t.closed ∙ s.closed;
  failure = t.failure ∙ s.failure;
}

-- A queue of at most so many actions besides.
abbrev pub Within : Bridge → ℕ → Bridge → Type 0
Within b n b' = Same b b' × (length b'.pending ≤ n)

-- A method that `_check` guards.
pub guarded :
    {A : Type 0} (P : Outcome A × Bridge → Type 0) (m : Option BridgeError) (b : Bridge)
    (body : Outcome A × Bridge)
    → ((e : BridgeError) → P (raised e, b))
    → (m ≡ none → P body)
    → P (elim m as (λ _. Outcome A × Bridge) [ some e ↦ (raised e, b) | none ↦ body ])
guarded P none b body p q = q refl
guarded P (some e) b body p q = p e

pub either_way :
    (P : Bridge → Type 0) (o : Outcome (Unit {0})) (b : Bridge) (rest : Outcome (Unit {0}) × Bridge)
    → P b
    → P rest.1
    → P
        (elim o as (λ _. Outcome (Unit {0}) × Bridge) [
          | done _ ↦ rest
          | raised e ↦ (raised e, b)
        ]).1
either_way P (done _) b rest p q = q
either_way P (raised e) b rest p q = p

pub open-closed : (x y : Bool) → x ≡ false → y ≡ x → y ≡ true → ⊥
open-closed x y a b c = cc

pub check-none : (b : Bridge) → check b ≡ none → (b.failure ≡ none) × (b.closed ≡ false)
unfolding check
check-none b e = ground arith

pub Within-Bounded : (b b' : Bridge) → Bounded b → Within b (length b.pending) b' → Bounded b'
Within-Bounded b b' v (s, n) = record {
  pending = omega (arith, v.pending);
  actions = omega (arith, v.actions, s.next_action);
  observations = omega (arith, v.observations, ap length s.observations);
  bytes = omega (arith, v.bytes, s.png_bytes);
}

module _ (clock : ℕ → ℕ) (key_works : ℕ → ℕ → Bool) where
  send-Same :
      (a : Scheduled) (b : Bridge)
      → Same b (send clock key_works a b).1 × ((send clock key_works a b).1.pending ≡ b.pending)
  unfolding send
  send-Same a b = (
    record {
      next_action = ground arith;
      observations = ground arith;
      png_bytes = ground arith;
      closed = ground arith;
      failure = ground arith;
    },
    ground arith,
  )

  pub dispatch-Within :
      (q : List Scheduled) (b : Bridge) → Within b (length q) (dispatch clock key_works q b).1
  unfolding dispatch
  dispatch-Within [] b = (
    record {
      next_action = refl;
      observations = refl;
      png_bytes = refl;
      closed = refl;
      failure = refl;
    },
    omega arith,
  )
  dispatch-Within (a ∷ q) b = elim (Bool-cases (ltb (now clock b) a.due)) [
    | inl early ↦ rw early (
      record {
        next_action = refl;
        observations = refl;
        png_bytes = refl;
        closed = refl;
        failure = refl;
      },
      omega arith,
    )
    | inr ready ↦ rw ready (
        either_way (Within b (suc (length q))) sent.0 sent.1 (dispatch clock key_works q sent.1)
          (here, omega (arith, ap length taken))
          (let (same, size) = dispatch-Within q sent.1 in (Same-trans here same, omega arith)))
  ]
    where
      popped : Bridge
      popped = record (tick b) { pending = q }

      sent : Outcome (Unit {0}) × Bridge
      sent = send clock key_works a popped

      taken : sent.1.pending ≡ q
      taken = (send-Same a popped).1

      here : Same b sent.1
      here =
          let s = (send-Same a popped).0 in
          record {
            next_action = s.next_action;
            observations = s.observations;
            png_bytes = s.png_bytes;
            closed = s.closed;
            failure = s.failure;
          }

  fail-Inv :
      (e : BridgeError) (b : Bridge)
      → Bounded b
      → (b.closed ≡ true → b.pending ≡ [])
      → Inv (fail clock e b)
  unfolding fail
  fail-Inv e b v d = elim (Option-cases b.failure) [
    | inl fine ↦
        rw (fine, fail)
          (record {
            bounded = record {
              pending = v.pending;
              actions = v.actions;
              observations = v.observations;
              bytes = v.bytes;
            };
            ledger = λ h. absurd (cc);
            drained = d;
          })
    | inr (x, bad) ↦
        rw (bad, fail)
          (record {
            bounded = record {
              pending = v.pending;
              actions = v.actions;
              observations = v.observations;
              bytes = v.bytes;
            };
            ledger = λ h. absurd (cc);
            drained = d;
          })
  ]

  -- The state that a thread's round leaves, when it is handled.
  pub handled-Inv :
      {A : Type 0} (r : Outcome A × Bridge)
      → Bounded r.1
      → (r.1.closed ≡ true → r.1.pending ≡ [])
      → (r.1.failure ≡ none → (a : A) → r.0 ≡ done a → LedgerOf r.1)
      → Inv (handled clock r)
  handled-Inv (done a, b) v d l = record { bounded = v; ledger = λ h. l h a refl; drained = d }
  handled-Inv (raised e, b) v d l = fail-Inv e b v d

  Kept-ledger :
      (r : Outcome (Unit {0}) × Bridge) → Kept r → (u : Unit {0}) → r.0 ≡ done u → LedgerOf r.1
  Kept-ledger (done _, b) k u e = k
  Kept-ledger (raised x, b) k u e = absurd (cc)

  pub dispatch_due-Inv : (b : Bridge) → Inv b → Inv (handled clock (dispatch_due clock key_works b))
  unfolding dispatch_due
  dispatch_due-Inv b v =
      guarded (λ r. Inv (handled clock r)) (check b) b (dispatch clock key_works b.pending b)
        (λ e. fail-Inv e b v.bounded v.drained)
        (λ fine.
          let (no_failure, is_open) = check-none b fine in
          let within = dispatch-Within b.pending b in
          let kept = dispatch-Kept clock key_works b.pending b (v.ledger no_failure) in
          handled-Inv (dispatch clock key_works b.pending b)
            (Within-Bounded b (dispatch clock key_works b.pending b).1 v.bounded within)
            (λ h. absurd (open-closed _ _ is_open within.0.closed h))
            (λ h. Kept-ledger (dispatch clock key_works b.pending b) kept))
