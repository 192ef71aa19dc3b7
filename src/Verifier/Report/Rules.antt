-- ===== src/Verifier/Report/Rules.antt =====
-- A run that `verify_run` passes, next to the scoring rules.
use chers.Base.{
  ℕ, ◌≤◌, ◌<◌, ◌≡◌, refl, sym, subst, ap, ◌∙◌, Bool, true, Option, List, [], String, arith,
}
use chers.Verifier.Rules.{Stage, calibration, scored}
use chers.Verifier.Audit.{Audit, ok, pure}
use chers.Verifier.Audit.Laws.{>>=-eq-quiet}
use chers.Verifier.Table.{Row}
use chers.Verifier.Json.{Numbers, Members}
use chers.Verifier.Chart.{Chart, load_notes, empty_chart}
use chers.Verifier.Chart.Loaded.{IsClean}
use chers.Verifier.Chart.Loading.{load_notes-IsLoaded, load_notes-IsClean}
use chers.Verifier.Replay.{Replay, Summary, replay_inputs, init_replay, summary_of}
use chers.Verifier.Spec.{play, expected_summary}
use chers.Verifier.Spec.Refines.{taps, ClaimsHold, replay_inputs-refines}
use chers.Verifier.Manifest.{check_settings, check_summary}
use chers.Verifier.Manifest.Checked.{Claims, check_settings-range, check_summary-Claims}
use chers.Verifier.Reading.{
  file_rows, note_fields, input_fields, load_manifest, replay_run, replay_manifest, check_claims,
}
use chers.Verifier.Report.{Evidence, verify_run}
use chers.Verifier.Report.Sound.{verify_run-Shown}

-- The notes and inputs that were read, for so many lanes, keep the rules in all that they claim.
pub record Replayed (notes inputs : Option (List (List String))) (lanes : ℕ) (c : Chart)
    (input_rows : List Row) : Type 0 where
  pub note_rows : List Row
  pub notes_read : file_rows note_fields notes "notes.csv" ≡ (ok note_rows, [])
  pub loaded : load_notes lanes 0 note_rows (empty_chart lanes) ≡ (ok c, [])
  pub clean : IsClean c
  pub inputs_read : file_rows input_fields inputs "inputs.csv" ≡ (ok input_rows, [])
  pub claims_hold : ClaimsHold lanes 0 input_rows (play (taps lanes 0 input_rows) c.notes).0

-- The summary of a stage by the rules.
abbrev pub rules_summary : Stage → ℕ → Chart → List Row → Summary
rules_summary stage lanes c input_rows =
    let (os, left) = play (taps lanes 0 input_rows) c.notes in
    expected_summary stage c.notes os left

pair-injective :
    {A B : Type 0} (a a' : A) (b b' : B)
    → ◌≡◌ {A = Audit (A × B)} (ok (a, b), []) (ok (a', b'), [])
    → (a ≡ a') × (b ≡ b')
pair-injective a a' b b' e = (cc, cc)

triple-injective :
    {A B C : Type 0} (a a' : A) (b b' : B) (c c' : C)
    → ◌≡◌ {A = Audit (A × B × C)} (ok (a, b, c), []) (ok (a', b', c'), [])
    → (a ≡ a') × (b ≡ b') × (c ≡ c')
triple-injective a a' b b' c c' e = (cc, cc, cc)

replay_run-Replayed :
    (lanes : ℕ) (notes inputs : Option (List (List String))) (c : Chart) (s : Replay)
    → 0 < lanes
    → replay_run lanes notes inputs ≡ (ok (c, s), [])
    → (input_rows : List Row) × Replayed notes inputs lanes c input_rows
      × ((t : Stage) → summary_of t s ≡ rules_summary t lanes c input_rows)
unfolding replay_run
replay_run-Replayed lanes notes inputs c s p e =
    let (note_rows, notes_read, e₁) =
      >>=-eq-quiet (file_rows note_fields notes "notes.csv") _ (c, s) e in
    let (c', loads, e₂) =
      >>=-eq-quiet (load_notes lanes 0 note_rows (empty_chart lanes)) _ (c, s) e₁ in
    let (input_rows, inputs_read, e₃) =
      >>=-eq-quiet (file_rows input_fields inputs "inputs.csv") _ (c, s) e₂ in
    let (s', replays, last) =
      >>=-eq-quiet
        (replay_inputs lanes c'.lanes_notes 0 input_rows
          (init_replay lanes c'.calibration_count c'.scored_count))
        (λ t. pure (c', t)) (c, s) e₃ in
    let (same_c, same_s) = pair-injective c' c s' s last in
    let (v, _) = load_notes-IsLoaded lanes note_rows c' [] p loads in
    let w = load_notes-IsClean lanes note_rows c' p loads in
    let (sums, claims) = replay_inputs-refines lanes c' input_rows s' [] v w p replays in
    (
      input_rows,
      record {
        note_rows = note_rows;
        notes_read = notes_read;
        loaded =
            subst (λ k. load_notes lanes 0 note_rows (empty_chart lanes) ≡ (ok k, [])) same_c loads;
        clean = subst IsClean same_c w;
        inputs_read = inputs_read;
        claims_hold =
            subst (λ k. ClaimsHold lanes 0 input_rows (play (taps lanes 0 input_rows) k.notes).0)
              same_c (claims.0 refl);
      },
      λ t.
          ap (summary_of t) (sym same_s)
          ∙ sums t
          ∙ ap (λ k. rules_summary t lanes k input_rows) same_c,
    )

-- A passing run: what its files hold.
pub record Honest {F : Type 0} (files : Evidence F) (manifest : Members F) (lanes : ℕ) (c : Chart)
    (input_rows : List Row) : Type 0 where
  pub lanes_in_range : (2 ≤ lanes) × (lanes ≤ 16)
  pub replayed : Replayed files.notes files.inputs lanes c input_rows
  pub calibration_claims :
      Claims manifest "calibration" (rules_summary calibration lanes c input_rows)
  pub trial_claims : Claims manifest "trial" (rules_summary scored lanes c input_rows)

module _ (numbers : Numbers) where
  open numbers use {Float}

  check_claims-Claims :
      (manifest : Members Float) (c : Chart) (s : Replay)
      → check_claims numbers manifest c s ≡ (ok tt, [])
      → Claims manifest "calibration" (summary_of calibration s)
        × Claims manifest "trial" (summary_of scored s)
  unfolding check_claims
  check_claims-Claims manifest c s e =
      let (_, first, e₁) =
        >>=-eq-quiet (check_summary numbers "calibration" manifest s.calibration_summary) _ tt e in
      let (_, second, _) =
        >>=-eq-quiet (check_summary numbers "trial" manifest s.scored_summary) _ tt e₁ in
      (
        check_summary-Claims numbers "calibration" manifest s.calibration_summary first,
        check_summary-Claims numbers "trial" manifest s.scored_summary second,
      )

  replay_manifest-quiet :
      (manifest : Members Float) (notes inputs : Option (List (List String))) (lanes : ℕ)
      (c : Chart) (s : Replay)
      → replay_manifest numbers manifest notes inputs ≡ (ok (lanes, c, s), [])
      → (2 ≤ lanes) × (lanes ≤ 16) × (replay_run lanes notes inputs ≡ (ok (c, s), []))
  unfolding replay_manifest
  replay_manifest-quiet manifest notes inputs lanes c s e =
      let (lanes', settings, e₁) =
        >>=-eq-quiet (check_settings numbers manifest) _ (lanes, c, s) e in
      let (cs, replays, last) =
        >>=-eq-quiet (replay_run lanes' notes inputs) (λ p. pure (lanes', p.0, p.1)) (lanes, c, s)
          e₁ in
      let (same, same_c, same_s) = triple-injective lanes' lanes cs.0 c cs.1 s last in
      let (low, high) = check_settings-range numbers manifest lanes' settings in
      (
        subst (λ k. 2 ≤ k) same low,
        subst (λ k. k ≤ 16) same high,
        subst (λ k. replay_run k notes inputs ≡ (ok (c, s), [])) same
            (replays ∙ (λ i. (ok (same_c i, same_s i), []))),
      )

  -- When `verify_run` passes a directory, its manifest loads, with 2 to 16 lanes; the notes load and
  -- are clean; every input row claims what the scoring rules give for its tap; and the integers of
  -- both claimed summaries, the points among them, are those of the rules.
  pub verify_run-Honest :
      (files : Evidence Float) (require_timing : Bool)
      → (verify_run numbers files require_timing).passed ≡ true
      → (manifest : Members Float) × (lanes : ℕ) × (c : Chart) × (input_rows : List Row)
        × ((load_manifest numbers files.result).0 ≡ ok manifest)
        × Honest files manifest lanes c input_rows
  verify_run-Honest files require_timing e =
      let (manifest, lanes, c, s, shown) = verify_run-Shown numbers files require_timing e in
      let (low, high, replays) =
        replay_manifest-quiet manifest files.notes files.inputs lanes c s shown.replays in
      let (input_rows, replayed, sums) =
        replay_run-Replayed lanes files.notes files.inputs c s (omega (arith, low)) replays in
      let (first, second) = check_claims-Claims manifest c s shown.claims in
      (
        manifest,
        lanes,
        c,
        input_rows,
        shown.manifest_loads,
        record {
          lanes_in_range = (low, high);
          replayed = replayed;
          calibration_claims = subst (Claims manifest "calibration") (sums calibration) first;
          trial_claims = subst (Claims manifest "trial") (sums scored) second;
        },
      )
