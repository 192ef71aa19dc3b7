-- ===== src/Verifier/Spec/Tracks.antt =====
-- How the variables of the loop in tools/verify_run.py stand for the notes that the rules still have,
-- and for the sums of what has come of the taps.
use chers.Base.{
  ℕ, ◌+◌, ◌<◌, ◌≡◌, refl, sym, subst, ◌∙◌, inl, inr, true, false, some, List, [], ◌++◌, ℤ, pos,
  ◌≤ℤ◌, ◌==◌, ==_iff, get_or, drop, set, length, get_or-set_self, get_or-set_ne, Bool-cases, arith,
}
use chers.Base.Predicates.{All, Ordered-select, All-select, All-map}
use chers.Verifier.Rules.{Stage, calibration, scored, same_stage, stage_at, good_ns}
use chers.Verifier.Chart.{Note, Chart}
use chers.Verifier.Chart.Loaded.{Sorted, InWindow, IsLoaded, IsClean, in_lane}
use chers.Verifier.Replay.{Replay, Summary, summary_of, put_summary}
use chers.Verifier.Spec.{Outcome, expected_summary, at_stage}
use chers.Verifier.Spec.Lanes.{Past}

abbrev pub PastBy : ℤ → Note → Type 0
PastBy time n = pos (n.target_ns + good_ns + 1) ≤ℤ time

module _ (lanes : ℕ) (c : Chart) where
  -- In a lane the notes still available are those from the cursor on, and some that are too early.
  abbrev pub TracksLane : List ℕ → ℤ → List Note → ℕ → Type 0
  TracksLane cursors time available l =
      (early : List Note) × All (PastBy time) early
      × (in_lane l available ≡ early ++ drop (get_or cursors l 0) (get_or c.lanes_notes l []))

  pub record Tracks (s : Replay) (done : List Outcome) (available : List Note) : Type 0 where
    pub width : length s.cursors ≡ lanes
    pub tracked : (l : ℕ) → TracksLane s.cursors s.previous_event available l
    pub sums : (t : Stage) → summary_of t s ≡ expected_summary t c.notes done available

pub at_stage_here : (s : Stage) (event : ℕ) → stage_at event ≡ some s → at_stage s event ≡ true
at_stage_here calibration event e = rw (e, at_stage)
at_stage_here scored event e = rw (e, at_stage)

pub at_stage_elsewhere :
    (s t : Stage) (event : ℕ)
    → stage_at event ≡ some s
    → same_stage s t ≡ false
    → at_stage t event ≡ false
at_stage_elsewhere s t event e h = rw (e, at_stage) h

module _ (lanes : ℕ) (c : Chart) (v : IsLoaded lanes c) (w : IsClean c) where
  pub lane-Sorted : (l : ℕ) → Sorted (get_or c.lanes_notes l [])
  lane-Sorted l = subst Sorted (sym (v.split l)) (Ordered-select _ _ c.notes v.sorted)

  pub lane_windows : (l : ℕ) → All InWindow (get_or c.lanes_notes l [])
  lane_windows l = subst (All InWindow) (sym (v.split l)) (All-select _ _ c.notes w.windows)

module _ (lanes : ℕ) (c : Chart) where
  -- A tap moves the cursor of its lane only.
  pub retrack :
      (cursors : List ℕ) (time : ℤ) (event lane k : ℕ) (available left early : List Note)
      → lane < length cursors
      → time ≤ℤ pos event
      → ((l : ℕ) → TracksLane lanes c cursors time available l)
      → All (Past event) early
      → in_lane lane left ≡ early ++ drop k (get_or c.lanes_notes lane [])
      → ((l : ℕ) → (lane == l) ≡ false → in_lane l left ≡ in_lane l available)
      → (l : ℕ) → TracksLane lanes c (set cursors lane k) (pos event) left l
  retrack cursors time event lane k available left early p t tracked past here others l =
      elim (Bool-cases (lane == l)) [
        | inl same ↦
            subst (TracksLane lanes c (set cursors lane k) (pos event) left)
              ((==_iff lane l).0 same)
              (
                early,
                All-map _ _ early (λ n b. omega arith) past,
                rw (get_or-set_self cursors lane k 0 p) here,
              )
        | inr other ↦
            let (old, old_past, old_here) = tracked l in
            (
              old,
              All-map _ _ old (λ n b. omega arith) old_past,
              rw (get_or-set_ne cursors lane l k 0 (ground arith)) (others l other ∙ old_here),
            )
      ]

pub sums_put :
    (stage : Stage) (u : Summary) (s : Replay) (F : Stage → Summary)
    → u ≡ F stage
    → ((t : Stage) → same_stage stage t ≡ false → summary_of t s ≡ F t)
    → (t : Stage) → summary_of t (put_summary stage u s) ≡ F t
sums_put calibration u s F h k calibration = h
sums_put calibration u s F h k scored = k scored refl
sums_put scored u s F h k calibration = k calibration refl
sums_put scored u s F h k scored = h

module _ (lanes : ℕ) (c : Chart) where
  pub Tracks-put :
      (stage : Stage) (u : Summary) (s : Replay) (done : List Outcome) (left : List Note)
      → length s.cursors ≡ lanes
      → ((l : ℕ) → TracksLane lanes c s.cursors s.previous_event left l)
      → ((t : Stage) → summary_of t (put_summary stage u s) ≡ expected_summary t c.notes done left)
      → Tracks lanes c (put_summary stage u s) done left
  Tracks-put calibration u s done left a b d = record { width = a; tracked = b; sums = d }
  Tracks-put scored u s done left a b d = record { width = a; tracked = b; sums = d }
