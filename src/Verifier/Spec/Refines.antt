-- ===== src/Verifier/Spec/Refines.antt =====
-- The loop over `inputs.csv` in tools/verify_run.py refines the scoring rules: on a clean chart its
-- summaries are the rules' sums, and it reports nothing exactly if all claims of the rows are right.
use chers.Base.{
  ℕ, suc, ◌<◌, ◌≡◌, ◌↔◌, refl, sym, ap, subst, ◌∙◌, inl, inr, true, Option, none, some, List, [],
  ◌∷◌, ◌++◌, ◌-ℤ◌, append-nil, append_assoc, append-eq-nil, pos, length-replicate, get_or-replicate,
  arith,
}
use chers.Verifier.Rules.{Stage, calibration, scored, stage_text}
use chers.Verifier.Audit.{Audit, ok, raised, Finding}
use chers.Verifier.Audit.Laws.{>>=-eq-ok}
use chers.Verifier.Table.{Row}
use chers.Verifier.Chart.{Note, Chart}
use chers.Verifier.Chart.Loaded.{IsLoaded, IsClean}
use chers.Verifier.Replay.{
  InputRow, Replay, read_input, replay_inputs, init_replay, summary, summary_of, match_input,
}
use chers.Verifier.Spec.{Tap, Outcome, play, take_first, hittable, expected_summary, summary_from}
use chers.Verifier.Spec.Claims.{
  Claim, StageClaim, Round, replay_input-Round, agrees, agrees_iff, read_input-lane,
}
use chers.Verifier.Spec.Tracks.{Tracks}
use chers.Verifier.Spec.Step.{match_input-StepOk}

-- The taps of the rows.
pub taps : ℕ → ℕ → List Row → List Tap
taps lanes index [] = []
taps lanes index (row ∷ rows) = elim (read_input lanes index row).0 [
  | ok r ↦ (r.event_ns, r.lane) ∷ taps lanes (suc index) rows
  | raised _ ↦ []
]

-- Each row's claims are right for what came of its tap.
pub ClaimsHold : ℕ → ℕ → List Row → List Outcome → Type 0
ClaimsHold lanes index [] os = Unit
ClaimsHold lanes index (row ∷ rows) [] = ⊥
ClaimsHold lanes index (row ∷ rows) ((event, o) ∷ os) =
    ((r : InputRow) × (read_input lanes index row ≡ (ok r, [])) × StageClaim r × Claim r o)
    × ClaimsHold lanes (suc index) rows os

play-none :
    (event lane : ℕ) (ts : List Tap) (available : List Note)
    → take_first (hittable lane event) available ≡ none
    → play ((event, lane) ∷ ts) available
      ≡ ((event, none) ∷ (play ts available).0, (play ts available).1)
unfolding play
play-none event lane ts available e = rw (e, play)

play-some :
    (event lane : ℕ) (ts : List Tap) (available left : List Note) (n : Note)
    → take_first (hittable lane event) available ≡ some (n, left)
    → play ((event, lane) ∷ ts) available ≡ ((event, some n) ∷ (play ts left).0, (play ts left).1)
unfolding play
play-some event lane ts available left n e = rw (e, play)

taps-cons :
    (lanes index : ℕ) (row : Row) (rows : List Row) (r : InputRow) (found : List Finding)
    → read_input lanes index row ≡ (ok r, found)
    → taps lanes index (row ∷ rows) ≡ (r.event_ns, r.lane) ∷ taps lanes (suc index) rows
unfolding taps
taps-cons lanes index row rows r found e = rw (ap (λ (m : Audit InputRow). m.0) e, taps)

ok-injective : (a b : InputRow) → ◌≡◌ {A = Audit InputRow} (ok a, []) (ok b, []) → a ≡ b
ok-injective a b e = cc

some-injective : (a b : Stage) → ◌≡◌ {A = Option Stage} (some a) (some b) → a ≡ b
some-injective a b e = cc

module _ (lanes : ℕ) (c : Chart) (v : IsLoaded lanes c) (w : IsClean c) (p : 0 < lanes) where
  -- What the loop from a state has done when it ends.
  abbrev Done :
      ℕ → List Row → List Outcome → List Outcome × List Note → Replay → List Finding → Type 0
  Done index rows done (os, left) s' found =
      Tracks lanes c s' (done ++ os) left × ((found ≡ []) ↔ ClaimsHold lanes index rows os)

  -- One round before a loop that is done.
  Round-Done :
      (index : ℕ) (row : Row) (rows : List Row) (r : InputRow) (s t s' : Replay)
      (f₁ f₂ g₂ found : List Finding) (done : List Outcome) (o : Option Note)
      (rest : List Outcome × List Note)
      → read_input lanes index row ≡ (ok r, f₁)
      → f₁ ≡ []
      → (round : Round c.lanes_notes r s t f₂)
      → (match_input c.lanes_notes round.stage r.event_ns r.lane
          (record s { previous_event = pos r.event_ns })).0
        ≡ o
      → Done (suc index) rows (done ++ (r.event_ns, o) ∷ []) rest s' g₂
      → found ≡ f₁ ++ (f₂ ++ g₂)
      → Done index (row ∷ rows) done ((r.event_ns, o) ∷ rest.0, rest.1) s' found
  unfolding ClaimsHold
  Round-Done index row rows r s t s' f₁ f₂ g₂ found done o rest e quiet round m (k, claims) same = (
    subst (λ d. Tracks lanes c s' d rest.1) (append_assoc done ((r.event_ns, o) ∷ []) rest.0) k,
    (
      (λ none_found.
          let (n₁, n₂) = append-eq-nil f₂ g₂ (sym all ∙ none_found) in
          ((r, e', (right n₁).0, (right n₁).1), claims.0 n₂)),
      λ h.
          let n₁ = wrong h.0.0 h.0.1 (h.0.2, h.0.3) in
          all ∙ ap (λ (f : List Finding). f ++ g₂) n₁ ∙ claims.1 h.1,
    ),
  )
    where
      all : found ≡ f₂ ++ g₂
      all = same ∙ ap (λ (f : List Finding). f ++ (f₂ ++ g₂)) quiet

      e' : read_input lanes index row ≡ (ok r, [])
      e' = subst (λ f. read_input lanes index row ≡ (ok r, f)) quiet e

      right : f₂ ≡ [] → StageClaim r × Claim r o
      right h =
          let claim =
            (agrees_iff r round.stage o).0
              (subst (λ x. agrees r round.stage x ≡ true) m (round.quiet.0 h)) in
          ((round.stage, round.in_stage, claim.0), claim.1)

      wrong :
          (r' : InputRow)
          → read_input lanes index row ≡ (ok r', [])
          → StageClaim r' × Claim r' o
          → f₂ ≡ []
      wrong r' e₂ claim =
          let same_row : r' ≡ r = ok-injective _ _ (sym e₂ ∙ e') in
          let (stage_claim, claim') = subst (λ x. StageClaim x × Claim x o) same_row claim in
          let (u, at, name) = stage_claim in
          let same_stage : u ≡ round.stage = some-injective _ _ (sym at ∙ round.in_stage) in
          round.quiet.1 (
            subst (λ x. agrees r round.stage x ≡ true) (sym m)
              ((agrees_iff r round.stage o).1
                (subst (λ x. r.stage_name ≡ stage_text x) same_stage name, claim')))

  replay_inputs-Done :
      (index : ℕ) (rows : List Row) (s s' : Replay) (found : List Finding) (done : List Outcome)
      (available : List Note)
      → replay_inputs lanes c.lanes_notes index rows s ≡ (ok s', found)
      → Tracks lanes c s done available
      → Done index rows done (play (taps lanes index rows) available) s' found
  unfolding replay_inputs taps play ClaimsHold
  replay_inputs-Done index [] s s' found done available e k =
      let same : s ≡ s' = ground arith in
      let quiet : found ≡ [] = ground arith in
      (
        subst (λ d. Tracks lanes c s' d available) (sym (append-nil done))
            (subst (λ t. Tracks lanes c t done available) same k),
        ((λ _. tt), λ _. quiet),
      )
  replay_inputs-Done index (row ∷ rows) s s' found done available e k =
      let (r, f₁, g₁, e₁, r₁, s₁) = >>=-eq-ok _ _ s' found e in
      let (t, f₂, g₂, e₂, r₂, s₂) = >>=-eq-ok _ _ s' g₁ r₁ in
      let (lane, quiet) = read_input-lane lanes index row r f₁ p e₁ in
      let round = replay_input-Round c.lanes_notes index r s t f₂ e₂ in
      let whole : found ≡ f₁ ++ (f₂ ++ g₂) = s₁ ∙ ap (λ (f : List Finding). f₁ ++ f) s₂ in
      elim (match_input-StepOk lanes c v w s r.event_ns r.lane round.stage done available lane
        round.in_time round.in_stage k) [
          | inl (m, none_near, k') ↦
              subst (λ x. Done index (row ∷ rows) done x s' found)
                (sym (
                  ap (λ (ts : List Tap). play ts available) (taps-cons lanes index row rows r f₁ e₁)
                  ∙ play-none r.event_ns r.lane _ available none_near))
                (Round-Done index row rows r s t s' f₁ f₂ g₂ found done none _ e₁ quiet round m
                  (replay_inputs-Done (suc index) rows t s' g₂ (done ++ (r.event_ns, none) ∷ [])
                    available r₂
                    (subst (λ x. Tracks lanes c x (done ++ (r.event_ns, none) ∷ []) available)
                      (sym round.moved) k'))
                  whole)
          | inr (n, left, m, taken, k') ↦
              subst (λ x. Done index (row ∷ rows) done x s' found)
                (sym (
                  ap (λ (ts : List Tap). play ts available) (taps-cons lanes index row rows r f₁ e₁)
                  ∙ play-some r.event_ns r.lane _ available left n taken))
                (Round-Done index row rows r s t s' f₁ f₂ g₂ found done (some n) _ e₁ quiet round m
                  (replay_inputs-Done (suc index) rows t s' g₂ (done ++ (r.event_ns, some n) ∷ [])
                    left r₂
                    (subst (λ x. Tracks lanes c x (done ++ (r.event_ns, some n) ∷ []) left)
                      (sym round.moved) k'))
                  whole)
        ]

summary-from : (k : ℕ) → summary k ≡ summary_from k 0 0 0 0 k
unfolding summary summary_from ◌-ℤ◌
summary-from k = refl

init_replay-Tracks :
    (lanes : ℕ) (c : Chart)
    → IsLoaded lanes c
    → Tracks lanes c (init_replay lanes c.calibration_count c.scored_count) [] c.notes
unfolding init_replay expected_summary
init_replay-Tracks lanes c v = record {
  width = length-replicate lanes 0;
  tracked = λ l. ([], tt, rw (get_or-replicate {A = ℕ} lanes l 0) (sym (v.split l)));
  sums = start;
}
  where
    start :
        (t : Stage)
        → summary_of t (init_replay lanes c.calibration_count c.scored_count)
          ≡ expected_summary t c.notes [] c.notes
    start calibration =
        summary-from c.calibration_count ∙ ap (λ (k : ℕ). summary_from k 0 0 0 0 k) v.calibrations
    start scored = summary-from c.scored_count ∙ ap (λ (k : ℕ). summary_from k 0 0 0 0 k) v.scoreds

-- On a loaded and clean chart of at least one lane, a replay that ends without a raise gives each
-- stage the summary of the scoring rules on the same taps, and it has reported nothing exactly if
-- the note, the delay, the judgment and the stage that each row claims are those of the rules.
pub replay_inputs-refines :
    (lanes : ℕ) (c : Chart) (rows : List Row) (s' : Replay) (found : List Finding)
    → IsLoaded lanes c
    → IsClean c
    → 0 < lanes
    → replay_inputs lanes c.lanes_notes 0 rows
        (init_replay lanes c.calibration_count c.scored_count)
      ≡ (ok s', found)
    → let (os, left) = play (taps lanes 0 rows) c.notes in
      ((t : Stage) → summary_of t s' ≡ expected_summary t c.notes os left)
      × ((found ≡ []) ↔ ClaimsHold lanes 0 rows os)
replay_inputs-refines lanes c rows s' found v w p e =
    let (k, claims) =
      replay_inputs-Done lanes c v w p 0 rows (init_replay lanes c.calibration_count c.scored_count)
        s' found [] c.notes e (init_replay-Tracks lanes c v) in
    (k.sums, claims)
