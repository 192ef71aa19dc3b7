-- ===== src/Verifier/Spec/Step.antt =====
-- One tap of the replay in tools/verify_run.py, on a clean chart.
use chers.Base.{
  ℕ, suc, ◌+◌, ◌<◌, ◌≡◌, refl, sym, ap, subst, ◌∙◌, ◌⊎◌, inl, inr, Bool, false, Option, none, some,
  List, [], ◌∷◌, ◌++◌, pos, ◌≤ℤ◌, ◌==◌, if◌then◌else◌, get_or, drop, set, length-set, arith,
}
use chers.Base.Predicates.{All, All-map}
use chers.Verifier.Rules.{Stage, calibration, scored, same_stage, stage_at}
use chers.Verifier.Chart.{Note, Chart}
use chers.Verifier.Chart.Loaded.{IsLoaded, IsClean, in_lane, of_stage}
use chers.Verifier.Replay.{
  settle, Replay, summary_of, match_input, scored_by, expire, score_empty, score_hit, delay_of,
}
use chers.Verifier.Spec.{Outcome, take_first, near, hittable, expected_summary}
use chers.Verifier.Spec.TakeFirst.{Took, take_first-select, take_first-select-none}
use chers.Verifier.Spec.Lanes.{Past, lane_step, near-stage, same_stage_refl}
use chers.Verifier.Spec.Sums.{elsewhere, empty_here, hit_here}
use chers.Verifier.Spec.Tracks.{
  Tracks, at_stage_here, at_stage_elsewhere, lane-Sorted, lane_windows, retrack, sums_put,
  Tracks-put,
}

-- What a tap does in the code, next to what the rules give it.
abbrev pub StepOk : ℕ → Chart → ℕ → ℕ → List Outcome → List Note → Option Note × Replay → Type 0
StepOk lanes c event lane done available (matched, s') =
    ((matched ≡ none)
      × (take_first (hittable lane event) available ≡ none)
      × Tracks lanes c s' (done ++ (event, none) ∷ []) available)
    ⊎ ((n : Note) × (left : List Note) × (matched ≡ some n)
        × (take_first (hittable lane event) available ≡ some (n, left))
        × Tracks lanes c s' (done ++ (event, some n) ∷ []) left)

-- A note counts for its own stage, and for no other.
count_own :
    (stage : Stage) (n : Note) (k l : ℕ)
    → n.stage ≡ stage
    → k ≡ l + (if of_stage stage n then 1 else 0)
    → k ≡ l + 1
count_own stage n k l own e =
    e
    ∙ ap (λ (t : Stage). l + (if same_stage t stage then 1 else 0)) own
    ∙ ap (λ (b : Bool). l + (if b then 1 else 0)) (same_stage_refl stage)

count_other :
    (stage u : Stage) (n : Note) (k l : ℕ)
    → n.stage ≡ stage
    → same_stage stage u ≡ false
    → k ≡ l + (if of_stage u n then 1 else 0)
    → k ≡ l
count_other stage u n k l own other e =
    e
    ∙ ap (λ (t : Stage). l + (if same_stage t u then 1 else 0)) own
    ∙ ap (λ (b : Bool). l + (if b then 1 else 0)) other
    ∙ omega arith

module _ (lanes : ℕ) (c : Chart) (s : Replay) (event lane : ℕ) (stage : Stage) where
  abbrev now : Replay
  now = record s { previous_event = pos event }

  -- The state before the score is put.
  abbrev moved : ℕ → Replay
  moved cursor = record now { cursors = set s.cursors lane cursor }

  abbrev lane_chart : List Note
  lane_chart = get_or c.lanes_notes lane []

  module _ (done : List Outcome) (available : List Note) where
    sums_now :
        Tracks lanes c s done available
        → (u : Stage) → summary_of u now ≡ expected_summary u c.notes done available
    sums_now k calibration = k.sums calibration
    sums_now k scored = k.sums scored

    sums_moved :
        (cursor : ℕ)
        → Tracks lanes c s done available
        → (u : Stage) → summary_of u (moved cursor) ≡ expected_summary u c.notes done available
    sums_moved cursor k calibration = k.sums calibration
    sums_moved cursor k scored = k.sums scored

  module _ (done : List Outcome) (available : List Note) (cursor : ℕ) (early : List Note) where
    settle-none :
        lane < lanes
        → s.previous_event ≤ℤ pos event
        → stage_at event ≡ some stage
        → Tracks lanes c s done available
        → All (Past event) early
        → in_lane lane available ≡ early ++ drop cursor lane_chart
        → Tracks lanes c
            (settle stage event lane cursor none now).1
            (done ++ (event, none) ∷ [])
            available
    unfolding scored_by
    settle-none p t at k past here =
        Tracks-put lanes c stage (score_empty (summary_of stage now)) (moved cursor)
          (done ++ (event, none) ∷ []) available (length-set s.cursors lane cursor ∙ k.width)
          (retrack lanes c s.cursors s.previous_event event lane cursor available available early
            (omega (arith, k.width)) t k.tracked past here (λ l e. refl))
          (sums_put stage (score_empty (summary_of stage now)) (moved cursor)
            (λ u. expected_summary u c.notes (done ++ (event, none) ∷ []) available)
            (ap score_empty (sums_now done available k stage)
              ∙ empty_here stage c.notes done event available (at_stage_here stage event at))
            (λ u e.
              sums_moved done available cursor k u
              ∙ elsewhere u c.notes done event none available available
                  (at_stage_elsewhere stage u event at e) refl))

    settle-some :
        (n : Note) (rest : List Note)
        → lane < lanes
        → s.previous_event ≤ℤ pos event
        → stage_at event ≡ some stage
        → Tracks lanes c s done available
        → All (Past event) early
        → n.stage ≡ stage
        → rest ≡ early ++ drop (suc cursor) lane_chart
        → (took : Took (λ m. m.lane == lane) (near event) available n rest)
        → Tracks lanes c
            (settle stage event lane cursor (some n) now).1
            (done ++ (event, some n) ∷ [])
            took.left
    unfolding scored_by
    settle-some n rest p t at k past own here took =
        Tracks-put lanes c stage (score_hit (delay_of event n) (summary_of stage now))
          (moved (suc cursor)) (done ++ (event, some n) ∷ []) took.left
          (length-set s.cursors lane (suc cursor) ∙ k.width)
          (retrack lanes c s.cursors s.previous_event event lane (suc cursor) available took.left
            early (omega (arith, k.width)) t k.tracked past (took.of_selected ∙ here)
            (λ l e. took.of_others (λ m. m.lane == l) (ground (arith, took.passed))))
          (sums_put stage (score_hit (delay_of event n) (summary_of stage now)) (moved (suc cursor))
            (λ u. expected_summary u c.notes (done ++ (event, some n) ∷ []) took.left)
            (ap (score_hit (delay_of event n)) (sums_now done available k stage)
              ∙ hit_here stage c.notes done event n available took.left
                  (at_stage_here stage event at)
                  (count_own stage n _ _ own (took.counted (of_stage stage))))
            (λ u e.
              sums_moved done available (suc cursor) k u
              ∙ elsewhere u c.notes done event (some n) available took.left
                  (at_stage_elsewhere stage u event at e)
                  (count_other stage u n _ _ own e (took.counted (of_stage u)))))

module _ (lanes : ℕ) (c : Chart) (v : IsLoaded lanes c) (w : IsClean c) where
  -- A tap in range and in time, at a stage, does in the code what the rules say.
  pub match_input-StepOk :
      (s : Replay) (event lane : ℕ) (stage : Stage) (done : List Outcome) (available : List Note)
      → lane < lanes
      → s.previous_event ≤ℤ pos event
      → stage_at event ≡ some stage
      → Tracks lanes c s done available
      → StepOk lanes c event lane done available
          (match_input c.lanes_notes stage event lane (record s { previous_event = pos event }))
  unfolding match_input
  match_input-StepOk s event lane stage done available p t at k =
      let (early, early_past, split) = k.tracked lane in
      let chart : List Note = get_or c.lanes_notes lane [] in
      let old : ℕ = get_or s.cursors lane 0 in
      let cursor : ℕ = expire event (drop old chart) old in
      let (early', past, outcome) =
        lane_step stage event chart early (in_lane lane available) old split
          (All-map _ _ early (λ n b. omega arith) early_past) (lane-Sorted lanes c v w lane)
          (lane_windows lanes c v w lane) at in
      let now' : Replay = record s { previous_event = pos event } in
      elim outcome [
        | inl (no_match, no_take, rest) ↦
            subst
              (λ m.
                StepOk lanes c event lane done available (settle stage event lane cursor m now'))
              (sym no_match)
              (inl (
                refl,
                take_first-select-none _ _ available no_take,
                settle-none lanes c s event lane stage done available cursor early' p t at k past
                    rest,
              ))
        | inr (n, rest, match, take, left, hit, window) ↦
            let took = take_first-select _ _ available n rest take in
            subst
              (λ m.
                StepOk lanes c event lane done available (settle stage event lane cursor m now'))
              (sym match)
              (inr (
                n,
                took.left,
                refl,
                took.taken,
                settle-some lanes c s event lane stage done available cursor early' n rest p t at k
                    past (near-stage event n stage window hit at) left took,
              ))
      ]
