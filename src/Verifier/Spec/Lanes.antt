-- ===== src/Verifier/Spec/Lanes.antt =====
-- One tap in one lane: the cursor of tools/verify_run.py finds the note that the rules give to it.
use chers.Base.{
  subst, zero, ℕ, suc, ◌+◌, ◌≤◌, ◌<◌, ◌≡◌, refl, sym, ap, ◌∙◌, ◌⊎◌, inl, inr, true, false, Option,
  none, some, List, [], ◌∷◌, ◌++◌, append_assoc, ltb, get_elem?, drop, drop-get_elem?, drop-nil,
  Bool-cases, arith,
}
use chers.Base.Predicates.{All, All-append, All-map}
use chers.Verifier.Rules.{Stage, calibration, scored, same_stage, stage_at, good_ns}
use chers.Verifier.Chart.{Note}
use chers.Verifier.Chart.Loaded.{Sorted, InWindow}
use chers.Verifier.Replay.{expire, accepts}
use chers.Verifier.Spec.{take_first, near}
use chers.Verifier.Spec.TakeFirst.{Fails, take_first-none, take_first-prefix}

-- A note is too early for a tap at a time, and for all later ones.
abbrev pub Past : ℕ → Note → Type 0
Past event n = n.target_ns + good_ns < event

abbrev HeadFresh : ℕ → List Note → Type 0
HeadFresh event [] = Unit {0}
HeadFresh event (n ∷ ns) = event ≤ n.target_ns + good_ns

record Expired (event : ℕ) (chart : List Note) (cursor : ℕ) (notes : List Note) : Type 0 where
  past : List Note
  fresh : List Note
  parts : notes ≡ past ++ fresh
  here : drop (expire event notes cursor) chart ≡ fresh
  all_past : All (Past event) past
  head_fresh : HeadFresh event fresh

expire-Expired :
    (event : ℕ) (chart : List Note) (cursor : ℕ) (notes : List Note)
    → drop cursor chart ≡ notes
    → Expired event chart cursor notes
unfolding expire
expire-Expired event chart cursor [] e = record {
  past = [];
  fresh = [];
  parts = refl;
  here = e;
  all_past = tt;
  head_fresh = tt;
}
expire-Expired event chart cursor (n ∷ ns) e =
    elim (Bool-cases (ltb (n.target_ns + good_ns) event)) [
      | inl early ↦
          let r =
            expire-Expired event chart (suc cursor) ns (drop-get_elem? chart cursor n ns e).1 in
          record {
            past = n ∷ r.past;
            fresh = r.fresh;
            parts = ap (λ (l : List Note). n ∷ l) r.parts;
            here = rw early r.here;
            all_past = (ground arith, r.all_past);
            head_fresh = r.head_fresh;
          }
      | inr late ↦ record {
        past = [];
        fresh = n ∷ ns;
        parts = refl;
        here = rw late e;
        all_past = tt;
        head_fresh = ground arith;
      }
    ]

Past-Fails : (event : ℕ) (n : Note) → Past event n → Fails (near event) n
Past-Fails event n h = ground arith

-- A note in its stage's window that a tap is near to is of the tap's stage.
pub near-stage :
    (event : ℕ) (n : Note) (s : Stage)
    → InWindow n
    → near event n ≡ true
    → stage_at event ≡ some s
    → n.stage ≡ s
unfolding stage_at
near-stage event n s w h e = ground arith

-- What a tap does in a lane whose available notes are `available`: in the code, `matched` and the
-- new cursor; by the rules, the first note near the tap.
abbrev pub LaneStep : ℕ → List Note → List Note → ℕ → Option Note → Type 0
LaneStep event chart available cursor matched =
    (early : List Note) × All (Past event) early
    × (((matched ≡ none)
          × (take_first (near event) available ≡ none)
          × (available ≡ early ++ drop cursor chart))
        ⊎ ((n : Note) × (rest : List Note) × (matched ≡ some n)
            × (take_first (near event) available ≡ some (n, rest))
            × (rest ≡ early ++ drop (suc cursor) chart)
            × (near event n ≡ true)
            × InWindow n))

pub same_stage_refl : (s : Stage) → same_stage s s ≡ true
same_stage_refl calibration = refl
same_stage_refl scored = refl

accepts-near :
    (s : Stage) (event : ℕ) (n : Note)
    → InWindow n
    → event ≤ n.target_ns + good_ns
    → stage_at event ≡ some s
    → near event n ≡ true
    → accepts s event (some n) ≡ some n
accepts-near s event n w f e h =
    let same : n.stage ≡ s = near-stage event n s w h e in
    rw (← same, same_stage_refl) (ground arith)

accepts-far :
    (s : Stage) (event : ℕ) (n : Note)
    → event ≤ n.target_ns + good_ns
    → near event n ≡ false
    → accepts s event (some n) ≡ none
accepts-far s event n f h = ground arith

All-drop : (P : Note → Type 0) (k : ℕ) (ns : List Note) → All P ns → All P (drop k ns)
All-drop P zero ns h = h
All-drop P (suc k) [] h = tt
All-drop P (suc k) (n ∷ ns) h = All-drop P k ns h.1

Sorted-drop : (k : ℕ) (ns : List Note) → Sorted ns → Sorted (drop k ns)
Sorted-drop zero ns o = o
Sorted-drop (suc k) [] o = tt
Sorted-drop (suc k) (n ∷ ns) o = Sorted-drop k ns o.1

-- After a note that is too late for a tap, all notes are.
late-Fails :
    (event : ℕ) (n : Note) (ns : List Note)
    → event ≤ n.target_ns + good_ns
    → near event n ≡ false
    → All (λ m. n.target_ns ≤ m.target_ns) ns
    → All (Fails (near event)) (n ∷ ns)
late-Fails event n ns f h after = (h, All-map _ _ ns (λ m b. ground arith) after)

step_at :
    (s : Stage) (event : ℕ) (chart early : List Note) (cursor : ℕ) (fresh : List Note)
    → drop cursor chart ≡ fresh
    → All (Past event) early
    → HeadFresh event fresh
    → Sorted fresh
    → All InWindow fresh
    → stage_at event ≡ some s
    → LaneStep event chart (early ++ fresh) cursor (accepts s event (get_elem? chart cursor))
step_at s event chart early cursor [] here past f o w at = (
  early,
  past,
  inl (
    rw (drop-nil chart cursor here),
    take_first-none (near event) (early ++ [])
        (All-append _ early [] (All-map _ _ early (Past-Fails event) past) tt),
    rw here,
  ),
)
step_at s event chart early cursor (n ∷ ns) here past f o w at =
    let (found, next) = drop-get_elem? chart cursor n ns here in
    let fails = All-map _ _ early (Past-Fails event) past in
    elim (Bool-cases (near event n)) [
      | inl hit ↦ (
        early,
        past,
        inr (
          n,
          early ++ ns,
          rw found (accepts-near s event n w.0 f at hit),
          take_first-prefix (near event) early n ns fails hit,
          rw next,
          hit,
          w.0,
        ),
      )
      | inr miss ↦ (
        early,
        past,
        inl (
          rw found (accepts-far s event n f miss),
          take_first-none (near event) (early ++ n ∷ ns)
              (All-append _ early (n ∷ ns) fails (late-Fails event n ns f miss o.0)),
          rw here,
        ),
      )
    ]

-- On a sorted lane with every target in its stage's window, where the notes that are available and
-- not too early are those from the cursor on, the code's match is the first note near the tap.
pub lane_step :
    (s : Stage) (event : ℕ) (chart early available : List Note) (cursor : ℕ)
    → available ≡ early ++ drop cursor chart
    → All (Past event) early
    → Sorted chart
    → All InWindow chart
    → stage_at event ≡ some s
    → LaneStep event chart available
        (expire event (drop cursor chart) cursor)
        (accepts s event (get_elem? chart (expire event (drop cursor chart) cursor)))
lane_step s event chart early available cursor e past sorted windows at =
    let r = expire-Expired event chart cursor (drop cursor chart) refl in
    let whole : (early ++ r.past) ++ r.fresh ≡ available =
      append_assoc early r.past r.fresh
      ∙ ap (λ (l : List Note). early ++ l) (sym r.parts)
      ∙ sym e in
    let new = expire event (drop cursor chart) cursor in
    subst (λ l. LaneStep event chart l new (accepts s event (get_elem? chart new))) whole
      (step_at s event chart (early ++ r.past) new r.fresh r.here
        (All-append _ early r.past past r.all_past) r.head_fresh
        (subst Sorted r.here (Sorted-drop new chart sorted))
        (subst (All InWindow) r.here (All-drop InWindow new chart windows)) at)
