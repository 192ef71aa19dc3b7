-- ===== src/Evaluations/Plan.antt =====
-- The loops of `main` in tools/run_codex_evaluations.py over models, efforts and repetitions. How a
-- preflight ends is a parameter, as are the directories that are there before.
pub mod Planned
use chers.Base.{
  ℕ, zero, suc, ◌+◌, Bool, true, false, ◌&&◌, ◌||◌, not, Option, none, some, List, [], ◌∷◌, ◌++◌,
  if◌then◌else◌,
}
use chers.Base.Decimal.{codes, decimal}
use chers.Runs.{Text, same_text, Model, efforts_of, is_among}

-- An entry of the catalog: the name and the efforts, and whether it takes images.
pub record CatalogModel : Type 0 where
  pub model : Model
  pub takes_images : Bool

-- An entry of `summaries`.
pub data Entry : Type 0 where
  preflight_failed : Text → Entry
  trial_run : Text → Text → ℕ → Entry

pub data PlanError : Type 0 where
  unknown_model no_efforts : Text → PlanError
  unsupported_effort : Text → Text → PlanError
  directory_exists : Text → PlanError
  preflight_raised trial_raised : Text → PlanError

-- `args.models or [...]`: without a choice, the models that take images.
unfoldable pub image_models : List CatalogModel → List Text
image_models [] = []
image_models (m ∷ ms) = if m.takes_images then m.model.name ∷ image_models ms else image_models ms

abbrev pub requested_models : List Text → List CatalogModel → List Text
requested_models [] catalog = image_models catalog
requested_models (name ∷ names) catalog = name ∷ names

-- `next((m for m in models if m["model"] == name), None)`
unfoldable pub find_model : Text → List CatalogModel → Option CatalogModel
find_model name [] = none
find_model name (m ∷ ms) =
    let rest = find_model name ms in if same_text m.model.name name then some m else rest

-- `supported[-1]`
abbrev pub last_effort : List Text → Option Text
last_effort [] = none
last_effort (e ∷ []) = some e
last_effort (e ∷ f ∷ es) = last_effort (f ∷ es)

-- `supported[-1] if requested_effort == "maximum" else requested_effort`; the index raises on no
-- efforts.
abbrev pub resolve_effort : Text → List Text → Option Text
resolve_effort requested_effort supported =
    if same_text requested_effort (codes "maximum")
    then last_effort supported
    else some requested_effort

-- A part of `main`: the entries so far, and what it has raised.
abbrev pub Planning : Type 0
Planning = List Entry × Option PlanError

abbrev pub and_then : Planning → (List Entry → Planning) → Planning
and_then (entries, none) next = next entries
and_then (entries, some e) next = (entries, some e)

-- `f"{name}-{effort}-{repeat}"`, the trial's directory.
unfoldable pub label : Text → Text → ℕ → Text
label name effort repeat = name ++ b'-' ∷ effort ++ b'-' ∷ decimal repeat

-- The directory of a trial that has run.
unfoldable pub is_taken : Text → List Entry → Bool
unfolding label
is_taken directory [] = false
is_taken directory (preflight_failed name ∷ entries) = is_taken directory entries
is_taken directory (trial_run name effort repeat ∷ entries) =
    same_text (label name effort repeat) directory || is_taken directory entries

-- What `main` is given: the catalog, the efforts and the repetitions; how a model's preflight ends, and
-- whether it returns; whether the trial in a directory returns, which it does not on a damaged result;
-- and the directories that are there before.
pub record Evaluation : Type 0 where
  pub catalog : List CatalogModel
  pub efforts : List Text
  pub repetitions : ℕ
  pub preflight : Text → Bool
  pub preflight_returns : Text → Bool
  pub trial_returns : Text → Bool
  pub has_trial : Text → Bool
  pub has_preflight : Text → Bool

module _ (v : Evaluation) where
  -- `run_trial`, which makes its directory, and the entry of its end.
  unfoldable pub start_trial : Text → Text → ℕ → List Entry → Planning
  unfolding is_taken
  start_trial name effort repeat entries =
      if v.has_trial (label name effort repeat) || is_taken (label name effort repeat) entries
      then (entries, some (directory_exists (label name effort repeat)))
      else if not (v.trial_returns (label name effort repeat))
      then (entries, some (trial_raised (label name effort repeat)))
      else (entries ++ trial_run name effort repeat ∷ [], none)

  -- `for repeat in range(1, repetitions + 1)`, from a number on.
  unfoldable pub repeat_trials : Text → Text → ℕ → ℕ → List Entry → Planning
  unfolding start_trial
  repeat_trials name effort first zero entries = (entries, none)
  repeat_trials name effort first (suc n) entries =
      and_then (start_trial name effort first entries) (repeat_trials name effort (suc first) n)

  abbrev pub run_effort : Text → List Text → Option Text → List Entry → Planning
  run_effort name supported none entries = (entries, some (no_efforts name))
  run_effort name supported (some effort) entries =
      if not (is_among effort supported)
      then (entries, some (unsupported_effort name effort))
      else repeat_trials name effort 1 v.repetitions entries

  -- The loop over the efforts.
  unfoldable pub run_efforts : Text → List Text → List Text → List Entry → Planning
  unfolding repeat_trials
  run_efforts name supported [] entries = (entries, none)
  run_efforts name supported (requested_effort ∷ efforts) entries =
      and_then (run_effort name supported (resolve_effort requested_effort supported) entries)
        (run_efforts name supported efforts)

  -- A model; `seen` are the models before, whose preflight has a directory.
  abbrev pub run_model : Text → List Text → Option CatalogModel → List Entry → Planning
  run_model name seen none entries = (entries, some (unknown_model name))
  run_model name seen (some m) entries =
      if v.has_preflight name || is_among name seen
      then (entries, some (directory_exists name))
      else if not (v.preflight_returns name)
      then (entries, some (preflight_raised name))
      else if not (v.preflight name)
      then (entries ++ preflight_failed name ∷ [], none)
      else run_efforts name m.model.efforts v.efforts entries

  -- The loop over the models.
  unfoldable pub run_models : List Text → List Text → List Entry → Planning
  unfolding find_model run_efforts
  run_models seen [] entries = (entries, none)
  run_models seen (name ∷ names) entries =
      and_then (run_model name seen (find_model name v.catalog) entries)
        (run_models (name ∷ seen) names)

  -- `main`, with the models that were chosen.
  unfoldable pub run_evaluations : List Text → Planning
  unfolding run_models image_models
  run_evaluations chosen = run_models [] (requested_models chosen v.catalog) []
