-- ===== src/Runs/Tests.antt =====
-- Three runs of one configuration: the earliest is not publishable, and the second is selected.
use chers.Base.{◌≡◌, refl, inl, Bool, true, false, none, List, [], ◌∷◌, map}
use chers.Base.Decimal.{codes}
use chers.Runs.{
  Text, Started, instant, Row, Model, start_time, rank_le, sort, eligible, reason_of, choose,
  position, efforts_of, effort_order, configuration_le, requested, missing_efforts, missing,
  select_runs,
}
use chers.Runs.Chosen.{Elected, select_runs-Elected}

abbrev run : Text → Bool → Started → Row
run directory publishable started = record {
  model = codes "m";
  effort = codes "low";
  directory = directory;
  publishable = publishable;
  started = started;
  error = none;
}

abbrev late : Row
late = run (codes "a") true (instant 30)

abbrev early : Row
early = run (codes "b") true (instant 20)

abbrev failed : Row
failed = run (codes "c") false (instant 10)

abbrev runs : List Row
runs = late ∷ early ∷ failed ∷ []

abbrev catalog : List Model
catalog = record { name = codes "m"; efforts = codes "low" ∷ codes "high" ∷ [] } ∷ []

selects_early :
    (map (λ r. r.directory) (select_runs runs catalog).selected ≡ codes "b" ∷ [])
    × ((select_runs runs catalog).missing_configurations ≡ (codes "m", codes "high") ∷ [])
unfolding select_runs missing missing_efforts requested configuration_le effort_order efforts_of
    position choose reason_of eligible sort rank_le start_time
selects_early = (refl, refl)

late_is_eligible : eligible late ≡ true
unfolding eligible start_time
late_is_eligible = refl

select_runs-Elected_example : (s : Row) × Elected runs catalog late s
select_runs-Elected_example = select_runs-Elected runs catalog late (inl refl) late_is_eligible
