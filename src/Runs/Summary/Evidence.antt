-- ===== src/Runs/Summary/Evidence.antt =====
-- What stands behind a row with numbers, and behind a selected one.
use chers.Base.{
  neither, not-false, ◌≡◌, refl, sym, ap, ◌∙◌, ◌↔◌, Bool, true, false, ◌||◌, not, Option, none,
  some, pos, leb_ℤ, if◌then◌else◌,
}
use chers.Base.Decimal.{codes}
use chers.Verifier.Json.{Numbers}
use chers.Runs.{Text, same_text}
use chers.Runs.Rank.{same_text-eq, same_text_refl}
use chers.Runs.Summary.{
  RunFile, ResultFile, BridgeFile, RunFiles, SummaryRow, is_same, row_of, figures_of,
  summarize_bridge, summarize_result, summarize_run,
}

-- The evidence of a run: it was published as completed and verified, its result is completed and
-- valid, the verifier passed, the model and the effort are those requested, the keys were pressed on
-- the keyboard, and there were notes.
pub record Evidenced (files : RunFiles) : Type 0 where
  pub publishable : files.run.publishable ≡ true
  pub completed : files.run.status ≡ codes "completed"
  pub verified : files.run.verification_passed ≡ true
  pub result : ResultFile
  pub bridge : BridgeFile
  pub has_result : files.result ≡ some result
  pub has_verification : files.verification ≡ some true
  pub has_bridge : files.bridge ≡ some bridge
  pub result_completed : result.completed ≡ true
  pub result_valid : result.valid ≡ true
  pub model : files.run.resolved_model ≡ some files.run.requested_model
  pub effort : files.run.resolved_effort ≡ some files.run.effort
  pub keyboard : bridge.input_mode ≡ codes "keyboard"
  pub has_notes : leb_ℤ result.trial.notes (pos 0) ≡ false

is_same-eq : (o : Option Text) (t : Text) → is_same o t ≡ true → o ≡ some t
is_same-eq none t e = absurd (cc e)
is_same-eq (some u) t e = ap some (same_text-eq u t e)

-- A row that a function gives when a test holds, which has no numbers, and else another.
publishable_row :
    {F : Type 0} (t : Bool) (bad : SummaryRow F) (rest : Option (SummaryRow F)) (s : SummaryRow F)
    → bad.row.publishable ≡ false
    → s.row.publishable ≡ true
    → (if t then some bad else rest) ≡ some s
    → (t ≡ false) × (rest ≡ some s)
publishable_row true bad rest s b p e = absurd (cc (b, p, e))
publishable_row false bad rest s b p e = (refl, e)

module _ (numbers : Numbers) where
  open numbers use {Float}

  summarize_bridge-Evidenced :
      (directory : Text) (r : RunFile) (result : ResultFile) (bridge : Option BridgeFile)
      (s : SummaryRow Float)
      → s.row.publishable ≡ true
      → summarize_bridge numbers directory r result bridge ≡ some s
      → (b : BridgeFile) × (bridge ≡ some b)
        × (b.input_mode ≡ codes "keyboard")
        × (leb_ℤ result.trial.notes (pos 0) ≡ false)
  summarize_bridge-Evidenced directory r result none s p e = absurd (cc e)
  summarize_bridge-Evidenced directory r result (some b) s p e =
      let (keyed, e₁) = publishable_row _ _ _ s refl p e in
      let (noted, _) = publishable_row _ _ _ s refl p e₁ in
      (b, refl, same_text-eq b.input_mode (codes "keyboard") (not-false _ keyed), noted)

  pub summarize_run-Evidenced :
      (directory : Text) (files : RunFiles) (s : SummaryRow Float)
      → s.row.publishable ≡ true
      → summarize_run numbers directory files ≡ some s
      → Evidenced files
  unfolding summarize_run
  summarize_run-Evidenced directory files s p e =
      let (shown, e₁) = publishable_row _ _ _ s refl p e in
      let (first, third) = neither _ (not files.run.verification_passed) shown in
      let (one, two) =
        neither (not files.run.publishable) (not (same_text files.run.status (codes "completed")))
          first in
      by_files files.result files.verification refl refl e₁ (not-false _ one)
        (same_text-eq _ _ (not-false _ two)) (not-false _ third)
    where
      by_files :
          (result : Option ResultFile) (verification : Option Bool)
          → files.result ≡ result
          → files.verification ≡ verification
          → summarize_result numbers directory files.run files.bridge result verification ≡ some s
          → files.run.publishable ≡ true
          → files.run.status ≡ codes "completed"
          → files.run.verification_passed ≡ true
          → Evidenced files
      by_files none v q u e₁ a b c = absurd (cc e₁)
      by_files (some result) none q u e₁ a b c = absurd (cc e₁)
      by_files (some result) (some verified) q u e₁ a b c =
          let (fine, e₂) = publishable_row _ _ _ s refl p e₁ in
          let (f₁, effort) =
            neither _ (not (is_same files.run.resolved_effort files.run.effort)) fine in
          let (f₂, model) =
            neither _ (not (is_same files.run.resolved_model files.run.requested_model)) f₁ in
          let (f₃, passed) = neither (not result.completed || not result.valid) (not verified) f₂ in
          let (done, valid) = neither (not result.completed) (not result.valid) f₃ in
          let (bridge, has, keyed, noted) =
            summarize_bridge-Evidenced directory files.run result files.bridge s p e₂ in
          record {
            publishable = a;
            completed = b;
            verified = c;
            result = result;
            bridge = bridge;
            has_result = q;
            has_verification = u ∙ ap some (not-false verified passed);
            has_bridge = has;
            result_completed = not-false _ done;
            result_valid = not-false _ valid;
            model = is_same-eq _ _ (not-false _ model);
            effort = is_same-eq _ _ (not-false _ effort);
            keyboard = keyed;
            has_notes = noted;
          }

  -- With the evidence the row is publishable, and has its numbers.
  pub Evidenced-summarize_run :
      (directory : Text) (files : RunFiles) (v : Evidenced files)
      → summarize_run numbers directory files
        ≡ some (record {
          row = row_of true none directory files.run;
          status = files.run.status;
          figures = some (figures_of numbers files.run v.result.trial v.bridge);
        })
  unfolding summarize_run
  Evidenced-summarize_run directory files v =
      rw
        (
          v.publishable,
          v.completed,
          v.verified,
          v.has_result,
          v.has_verification,
          v.has_bridge,
          v.result_completed,
          v.result_valid,
          v.model,
          v.effort,
          v.keyboard,
          v.has_notes,
          same_text_refl files.run.requested_model,
          same_text_refl files.run.effort,
        )
        refl

  -- The row of a run is publishable exactly if its files have all the evidence: published as
  -- completed and verified, a completed and valid result that the verifier passed, the requested model
  -- and effort, the keyboard as the input, and at least one note.
  pub summarize_run_iff :
      (directory : Text) (files : RunFiles) (s : SummaryRow Float)
      → summarize_run numbers directory files ≡ some s
      → (s.row.publishable ≡ true) ↔ Evidenced files
  summarize_run_iff directory files s e = (
    λ p. summarize_run-Evidenced directory files s p e,
    λ v. publishable_by (sym e ∙ Evidenced-summarize_run directory files v),
  )
    where
      publishable_by :
          {t : SummaryRow Float} → some s ≡ some t → s.row.publishable ≡ t.row.publishable
      publishable_by h = cc h
