-- ===== src/Evaluations/Tests.antt =====
-- A model that passes the preflight, and the trials of a catalog of two models.
use chers.Base.{ℕ, ◌≡◌, ◌↔◌, refl, Bool, true, false, none, some, List, [], ◌∷◌, ◌==◌}
use chers.Base.Decimal.{codes, decimal, decimal_fuel}
use chers.Evaluations.Probe.{
  probe_call, agent_message, probe_turn, ProbeContent, ProbeRound, probe_message, probe_loop,
  probe_passed, start_probe, strip, probe_vision,
}
use chers.Evaluations.Probe.Passing.{SawImage, probe_vision-SawImage}
use chers.Evaluations.Plan.{
  CatalogModel, trial_run, directory_exists, image_models, find_model, label, is_taken, Evaluation,
  start_trial, repeat_trials, run_efforts, run_models, run_evaluations,
}
use chers.Evaluations.Plan.Planned.{GoodPlan, run_evaluations-GoodPlan}
use chers.Evaluations.Events.{
  EventValue, array, object, nil, cons, end, field, other, text, truth, safe_event,
}
use chers.Evaluations.Events.Scrubbed.{has_image, safe_event-has_image}

abbrev is_space : ℕ → Bool
is_space c = c == b' '

abbrev receives : ProbeContent → ProbeRound
receives content = record { late = false; message = some (false, true, content); responds = true }

abbrev exchange : List ProbeRound
exchange =
    receives (probe_call 4 true)
    ∷ record { late = false; message = none; responds = true }
    ∷ receives (agent_message (codes " 12345 "))
    ∷ receives (probe_turn (codes "completed"))
    ∷ []

exchange_passes : probe_vision is_space (codes "12345") exchange ≡ true
unfolding probe_vision probe_passed probe_loop probe_message start_probe strip
exchange_passes = refl

probe_vision-SawImage_example : SawImage is_space (codes "12345") (probe_loop exchange start_probe)
probe_vision-SawImage_example =
    probe_vision-SawImage is_space (codes "12345") exchange exchange_passes

abbrev catalog : List CatalogModel
catalog =
    record {
      model = record { name = codes "a"; efforts = codes "low" ∷ codes "high" ∷ [] };
      takes_images = true;
    }
    ∷ record {
      model = record { name = codes "b"; efforts = codes "low" ∷ [] };
      takes_images = false;
    }
    ∷ []

abbrev evaluation : Evaluation
evaluation = record {
  catalog = catalog;
  efforts = codes "low" ∷ codes "maximum" ∷ [];
  repetitions = 2;
  preflight = λ _. true;
  preflight_returns = λ _. true;
  trial_returns = λ _. true;
  has_trial = λ _. false;
  has_preflight = λ _. false;
}

plan_runs : run_evaluations evaluation [] ≡ (
  trial_run (codes "a") (codes "low") 1
      ∷ trial_run (codes "a") (codes "low") 2
      ∷ trial_run (codes "a") (codes "high") 1
      ∷ trial_run (codes "a") (codes "high") 2
      ∷ [],
  none,
)
unfolding run_evaluations run_models image_models find_model run_efforts repeat_trials start_trial
    is_taken label decimal decimal_fuel
plan_runs = refl

-- The only effort of the model is also its maximum, and its first trial is already there.
same_effort_raises : run_evaluations evaluation (codes "b" ∷ []) ≡ (
  trial_run (codes "b") (codes "low") 1 ∷ trial_run (codes "b") (codes "low") 2 ∷ [],
  some (directory_exists (codes "b-low-1")),
)
unfolding run_evaluations run_models image_models find_model run_efforts repeat_trials start_trial
    is_taken label decimal decimal_fuel
same_effort_raises = refl

run_evaluations-GoodPlan_example : GoodPlan evaluation (run_evaluations evaluation []).0
run_evaluations-GoodPlan_example = run_evaluations-GoodPlan evaluation []

-- A message with an image, and a stand-in for the digest.
abbrev digest : List ℕ → List ℕ
digest t = b'0' ∷ t

abbrev image_message : EventValue ℕ
image_message = object (
    field (codes "id") (other 3) (
      field (codes "output")
        (array (cons (text (codes "data:image/png;")) (cons (text (codes "data:")) nil))) end))

image_replaced :
    safe_event digest image_message
    ≡ object (
        field (codes "id") (other 3) (
          field
            (codes "output")
            (array (
              cons
                (object (
                  field
                    (codes "image_data_omitted")
                    (truth true)
                    (field (codes "data_url_sha256") (text (codes "0data:image/png;")) end)))
                (cons (text (codes "data:")) nil)))
            end))
unfolding safe_event
image_replaced = refl

safe_event-has_image_example :
    (has_image (safe_event digest image_message) ≡ false)
    × ((safe_event digest image_message ≡ image_message) ↔ (has_image image_message ≡ false))
safe_event-has_image_example = safe_event-has_image digest image_message (λ t. refl)
