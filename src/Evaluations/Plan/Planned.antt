-- ===== src/Evaluations/Plan/Planned.antt =====
-- Which trials `main` runs.
use chers.Base.{
  ℕ, zero, suc, ◌+◌, ◌≤◌, ◌≡◌, ◌≢◌, refl, subst, true, false, ◌||◌, not, not-false, not-true,
  neither, Option, none, some, List, [], ◌∷◌, branch, arith,
}
use chers.Base.Predicates.{All, All-append, Ordered, Ordered-snoc}
use chers.Runs.{Text, same_text, is_among}
use chers.Runs.Rank.{same_text_refl}
use chers.Evaluations.Plan.{
  CatalogModel, Entry, preflight_failed, trial_run, find_model, resolve_effort, Planning, and_then,
  label, is_taken, Evaluation, start_trial, repeat_trials, run_effort, run_efforts, run_model,
  run_models, requested_models, run_evaluations,
}

-- Two trials do not share a directory.
abbrev pub Apart : Entry → Entry → Type 0
Apart (trial_run n e r) (trial_run n' e' r') = label n e r ≢ label n' e' r'
Apart _ _ = Unit

module _ (v : Evaluation) where
  -- An entry of a model in the catalog: it failed the preflight; or it passed, and the trial has an
  -- effort that it supports, and a number from 1 to the repetitions.
  abbrev pub Planned : Entry → Type 0
  Planned (preflight_failed name) =
      ((m : CatalogModel) × (find_model name v.catalog ≡ some m)) × (v.preflight name ≡ false)
  Planned (trial_run name effort repeat) =
      ((m : CatalogModel) × (find_model name v.catalog ≡ some m)
        × (is_among effort m.model.efforts ≡ true))
      × (v.preflight name ≡ true)
      × (1 ≤ repeat)
      × (repeat ≤ v.repetitions)

  -- The entries are planned, and their trials have directories of their own.
  abbrev pub GoodPlan : List Entry → Type 0
  GoodPlan entries = All Planned entries × Ordered Apart entries

  abbrev Good : Planning → Type 0
  Good p = GoodPlan p.0

  and_then-Good :
      (p : Planning) (next : List Entry → Planning)
      → Good p
      → ((entries : List Entry) → GoodPlan entries → Good (next entries))
      → Good (and_then p next)
  and_then-Good (entries, none) next g f = f entries g
  and_then-Good (entries, some e) next g f = g

  not_taken :
      (name effort : Text) (repeat : ℕ) (entries : List Entry)
      → is_taken (label name effort repeat) entries ≡ false
      → All (λ e. Apart e (trial_run name effort repeat)) entries
  unfolding is_taken
  not_taken name effort repeat [] h = tt
  not_taken name effort repeat (preflight_failed other ∷ entries) h =
      (tt, not_taken name effort repeat entries h)
  not_taken name effort repeat (trial_run n e r ∷ entries) h =
      let (differs, rest) = neither (same_text (label n e r) (label name effort repeat)) _ h in
      (
        λ same. clash (label n e r) (label name effort repeat) same differs,
        not_taken name effort repeat entries rest,
      )
    where
      clash : (a b : Text) → a ≡ b → same_text a b ≡ false → ⊥
      clash a b same differs =
          cc (differs, subst (λ x. same_text a x ≡ true) same (same_text_refl a))

  start_trial-Good :
      (name effort : Text) (repeat : ℕ) (entries : List Entry)
      → Planned (trial_run name effort repeat)
      → GoodPlan entries
      → Good (start_trial v name effort repeat entries)
  unfolding start_trial
  start_trial-Good name effort repeat entries p g =
      branch Good
        (v.has_trial (label name effort repeat) || is_taken (label name effort repeat) entries) _ _
        (λ _. g)
        (λ free.
          branch Good (not (v.trial_returns (label name effort repeat))) _ _ (λ _. g)
            (λ _. (
              All-append Planned entries (trial_run name effort repeat ∷ []) g.0 (p, tt),
              Ordered-snoc Apart entries (trial_run name effort repeat) g.1 (
                  not_taken name effort repeat entries
                    (neither (v.has_trial (label name effort repeat)) _ free).1),
            )))

  -- A model of the catalog that has passed its preflight.
  abbrev Ready : Text → CatalogModel → Type 0
  Ready name m = (find_model name v.catalog ≡ some m) × (v.preflight name ≡ true)

  repeat_trials-Good :
      (name effort : Text) (m : CatalogModel) (first n : ℕ) (entries : List Entry)
      → Ready name m
      → is_among effort m.model.efforts ≡ true
      → 1 ≤ first
      → first + n ≤ suc v.repetitions
      → GoodPlan entries
      → Good (repeat_trials v name effort first n entries)
  unfolding repeat_trials
  repeat_trials-Good name effort m first zero entries r a lo hi g = g
  repeat_trials-Good name effort m first (suc n) entries r a lo hi g =
      and_then-Good (start_trial v name effort first entries)
        (repeat_trials v name effort (suc first) n)
        (start_trial-Good name effort first entries ((m, r.0, a), r.1, lo, omega arith) g)
        (λ more h.
          repeat_trials-Good name effort m (suc first) n more r a (omega arith) (omega arith) h)

  run_effort-Good :
      (name : Text) (m : CatalogModel) (o : Option Text) (entries : List Entry)
      → Ready name m
      → GoodPlan entries
      → Good (run_effort v name m.model.efforts o entries)
  run_effort-Good name m none entries r g = g
  run_effort-Good name m (some effort) entries r g =
      branch Good (not (is_among effort m.model.efforts)) _ _ (λ _. g)
        (λ e.
          repeat_trials-Good name effort m 1 v.repetitions entries r
            (not-false (is_among effort m.model.efforts) e) (omega arith) (omega arith) g)

  run_efforts-Good :
      (name : Text) (m : CatalogModel) (efforts : List Text) (entries : List Entry)
      → Ready name m
      → GoodPlan entries
      → Good (run_efforts v name m.model.efforts efforts entries)
  unfolding run_efforts
  run_efforts-Good name m [] entries r g = g
  run_efforts-Good name m (e ∷ efforts) entries r g =
      and_then-Good (run_effort v name m.model.efforts (resolve_effort e m.model.efforts) entries)
        (run_efforts v name m.model.efforts efforts)
        (run_effort-Good name m (resolve_effort e m.model.efforts) entries r g)
        (λ more h. run_efforts-Good name m efforts more r h)

  failed-Ordered :
      (name : Text) (entries : List Entry) → All (λ e. Apart e (preflight_failed name)) entries
  failed-Ordered name [] = tt
  failed-Ordered name (preflight_failed other ∷ entries) = (tt, failed-Ordered name entries)
  failed-Ordered name (trial_run n e r ∷ entries) = (tt, failed-Ordered name entries)

  run_model-Good :
      (name : Text) (seen : List Text) (o : Option CatalogModel) (entries : List Entry)
      → find_model name v.catalog ≡ o
      → GoodPlan entries
      → Good (run_model v name seen o entries)
  run_model-Good name seen none entries f g = g
  run_model-Good name seen (some m) entries f g =
      branch Good (v.has_preflight name || is_among name seen) _ _ (λ _. g)
        (λ _.
          branch Good (not (v.preflight_returns name)) _ _ (λ _. g)
            (λ _.
              branch Good (not (v.preflight name)) _ _
                (λ failed. (
                  All-append Planned entries (preflight_failed name ∷ []) g.0
                      (((m, f), not-true (v.preflight name) failed), tt),
                  Ordered-snoc Apart entries (preflight_failed name) g.1
                      (failed-Ordered name entries),
                ))
                (λ passed.
                  run_efforts-Good name m v.efforts entries (f, not-false (v.preflight name) passed)
                    g)))

  run_models-Good :
      (seen names : List Text) (entries : List Entry)
      → GoodPlan entries
      → Good (run_models v seen names entries)
  unfolding run_models
  run_models-Good seen [] entries g = g
  run_models-Good seen (name ∷ names) entries g =
      and_then-Good (run_model v name seen (find_model name v.catalog) entries)
        (run_models v (name ∷ seen) names)
        (run_model-Good name seen (find_model name v.catalog) entries refl g)
        (λ more h. run_models-Good (name ∷ seen) names more h)

  -- Whatever models are chosen, and wherever `main` raises, each of its entries is of a model of the
  -- catalog: either one that failed the preflight, or a trial of one that passed, with an effort that
  -- it supports, and a number from 1 to the repetitions. No two trials share a directory.
  pub run_evaluations-GoodPlan : (chosen : List Text) → GoodPlan (run_evaluations v chosen).0
  unfolding run_evaluations
  run_evaluations-GoodPlan chosen =
      run_models-Good [] (requested_models chosen v.catalog) [] (tt, tt)
