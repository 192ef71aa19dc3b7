-- ===== src/Verifier/Spec.antt =====
-- The rules of scoring in agent.md, stated with no cursors: the notes that are still available are
-- one list, and a tap takes the earliest of its lane that is within 20 ms.
pub mod TakeFirst
pub mod Lanes
pub mod Sums
pub mod Tracks
pub mod Step
pub mod Claims
pub mod Refines
use chers.Base.{
  ℕ, ◌+◌, ◌-◌, ◌*◌, Bool, true, false, ◌&&◌, not, Option, none, some, List, [], ◌∷◌, ◌++◌, ℤ, pos,
  ◌-ℤ◌, ltb, leb, ◌==◌, if◌then◌else◌,
}
use chers.Base.Predicates.{count}
use chers.Verifier.Rules.{Stage, same_stage, stage_at, perfect_ns, good_ns, empty_delay_ns}
use chers.Verifier.Chart.{Note}
use chers.Verifier.Chart.Loaded.{of_stage}
use chers.Verifier.Replay.{Summary}

abbrev pub prepend {ℓ} : {A : Type ℓ} → A → Option (A × List A) → Option (A × List A)
prepend x none = none
prepend x (some (y, ys)) = some (y, x ∷ ys)

-- The first element that passes, and the list without it.
abbrev pub take_first {ℓ} : {A : Type ℓ} → (A → Bool) → List A → Option (A × List A)
take_first p [] = none
take_first p (x ∷ xs) = if p x then some (x, xs) else prepend x (take_first p xs)

abbrev pub near : ℕ → Note → Bool
near event n = leb n.target_ns (event + good_ns) && leb event (n.target_ns + good_ns)

abbrev pub hittable : ℕ → ℕ → Note → Bool
hittable lane event n = n.lane == lane && near event n

-- A tap: its time and its lane; and what came of it: its time and the note that it took.
abbrev pub Tap : Type 0
Tap = ℕ × ℕ

abbrev pub Outcome : Type 0
Outcome = ℕ × Option Note

unfoldable pub play : List Tap → List Note → List Outcome × List Note
play [] available = ([], available)
play ((event, lane) ∷ taps) available = elim (take_first (hittable lane event) available) [
  | none ↦ let (os, left) = play taps available in ((event, none) ∷ os, left)
  | some (n, rest) ↦ let (os, left) = play taps rest in ((event, some n) ∷ os, left)
]

-- The distance of two times.
abbrev pub distance : ℕ → ℕ → ℕ
distance a b = (a - b) + (b - a)

abbrev pub at_stage : Stage → ℕ → Bool
at_stage s event = elim (stage_at event) [ none ↦ false | some t ↦ same_stage t s ]

abbrev pub is_perfect : Stage → Outcome → Bool
is_perfect s (event, none) = false
is_perfect s (event, some n) = at_stage s event && leb (distance event n.target_ns) perfect_ns

abbrev pub is_good : Stage → Outcome → Bool
is_good s (event, none) = false
is_good s (event, some n) = at_stage s event && ltb perfect_ns (distance event n.target_ns)

abbrev pub is_empty_tap : Stage → Outcome → Bool
is_empty_tap s (event, none) = at_stage s event
is_empty_tap s (event, some n) = false

-- The sum of the distances of a stage's hits.
abbrev pub total_error : Stage → List Outcome → ℕ
total_error s [] = 0
total_error s ((event, none) ∷ os) = total_error s os
total_error s ((event, some n) ∷ os) =
    if at_stage s event then distance event n.target_ns + total_error s os else total_error s os

-- A stage's summary from its counts: the notes that are left are missed, a perfect hit is 2 points,
-- a good one 1, and an empty tap costs 5 points and adds 100 ms to the delay sum.
unfoldable pub summary_from : ℕ → ℕ → ℕ → ℕ → ℕ → ℕ → Summary
summary_from notes perfects goods empties error left = record {
  notes = notes;
  perfect = perfects;
  good = goods;
  empty = empties;
  missed = pos left;
  raw_score = pos (2 * perfects + goods) -ℤ pos (5 * empties);
  delay_sum_ns = error + empties * empty_delay_ns;
  hit_delay_sum_ns = error;
}

-- The counts of a stage after a play of the notes.
unfoldable pub expected_summary : Stage → List Note → List Outcome → List Note → Summary
expected_summary s notes os left =
    summary_from (count (of_stage s) notes) (count (is_perfect s) os) (count (is_good s) os)
      (count (is_empty_tap s) os) (total_error s os) (count (of_stage s) left)
