-- ===== src/Verifier/Spec/Sums.antt =====
-- The score updates of the loop over `inputs.csv` keep the summaries equal to the rules' sums.
use chers.Base.{
  ℕ, ◌+◌, ◌*◌, ◌≤◌, ◌<◌, ◌≡◌, refl, sym, ◌∙◌, Bool, true, false, Option, none, some, List, [], ◌∷◌,
  ◌++◌, ℤ, pos, ◌+ℤ◌, ◌-ℤ◌, int_laws, abs, leb, if◌then◌else◌, inl, inr, Bool-cases, arith,
}
use chers.Base.Predicates.{count, count-append}
use chers.Verifier.Rules.{Stage, perfect_ns}
use chers.Verifier.Chart.{Note}
use chers.Verifier.Chart.Loaded.{of_stage}
use chers.Verifier.Replay.{judge, score_empty, score_hit, delay_of}
use chers.Verifier.Spec.{Outcome, distance, at_stage, total_error, summary_from, expected_summary}

-- The code's updates on a summary that is made from counts.
score_empty-from :
    (k p g e d l : ℕ) → score_empty (summary_from k p g e d l) ≡ summary_from k p g (e + 1) d l
unfolding score_empty summary_from
score_empty-from k p g e d l =
    let raw : pos (2 * p + g) -ℤ pos (5 * e) -ℤ pos 5 ≡ pos (2 * p + g) -ℤ pos (5 * (e + 1)) =
      omega int_laws in
    ground arith

score_hit-perfect :
    (k p g e d l : ℕ) (delay : ℤ)
    → abs delay ≤ perfect_ns
    → score_hit delay (summary_from k p g e d (l + 1))
      ≡ summary_from k (p + 1) g e (d + abs delay) l
unfolding score_hit summary_from judge
score_hit-perfect k p g e d l delay h =
    let raw : pos (2 * p + g) -ℤ pos (5 * e) +ℤ pos 2 ≡ pos (2 * (p + 1) + g) -ℤ pos (5 * e) =
      omega int_laws in
    let miss : pos (l + 1) -ℤ pos 1 ≡ pos l = omega int_laws in ground arith

score_hit-good :
    (k p g e d l : ℕ) (delay : ℤ)
    → perfect_ns < abs delay
    → score_hit delay (summary_from k p g e d (l + 1))
      ≡ summary_from k p (g + 1) e (d + abs delay) l
unfolding score_hit summary_from judge
score_hit-good k p g e d l delay h =
    let raw : pos (2 * p + g) -ℤ pos (5 * e) +ℤ pos 1 ≡ pos (2 * p + (g + 1)) -ℤ pos (5 * e) =
      omega int_laws in
    let miss : pos (l + 1) -ℤ pos 1 ≡ pos l = omega int_laws in ground arith

abs-delay_of : (event : ℕ) (n : Note) → abs (delay_of event n) ≡ distance event n.target_ns
abs-delay_of event n = ground arith

total_error_snoc_empty :
    (s : Stage) (os : List Outcome) (event : ℕ)
    → total_error s (os ++ (event, none) ∷ []) ≡ total_error s os
total_error_snoc_empty s [] event = refl
total_error_snoc_empty s ((e, none) ∷ os) event = total_error_snoc_empty s os event
total_error_snoc_empty s ((e, some n) ∷ os) event = rw (total_error_snoc_empty s os event)

total_error_snoc_hit :
    (s : Stage) (os : List Outcome) (event : ℕ) (n : Note)
    → total_error s (os ++ (event, some n) ∷ [])
      ≡ total_error s os + (if at_stage s event then distance event n.target_ns else 0)
total_error_snoc_hit s [] event n = ground arith
total_error_snoc_hit s ((e, none) ∷ os) event n = total_error_snoc_hit s os event n
total_error_snoc_hit s ((e, some m) ∷ os) event n =
    rw (total_error_snoc_hit s os event n) (ground arith)

from-cong :
    (k : ℕ) {p p' g g' e e' d d' l l' : ℕ}
    → p ≡ p'
    → g ≡ g'
    → e ≡ e'
    → d ≡ d'
    → l ≡ l'
    → summary_from k p g e d l ≡ summary_from k p' g' e' d' l'
from-cong k p g e d l = λ i. summary_from k (p i) (g i) (e i) (d i) (l i)

count_snoc :
    {A : Type 0} (q : A → Bool) (xs : List A) (x : A)
    → count q (xs ++ x ∷ []) ≡ count q xs + (if q x then 1 else 0)
count_snoc q xs x = rw count-append (ground arith)

module _ (s : Stage) (notes : List Note) (os : List Outcome) (event : ℕ) where
  -- A tap outside the stage leaves the stage's sums as they are.
  pub elsewhere :
      (o : Option Note) (left left' : List Note)
      → at_stage s event ≡ false
      → count (of_stage s) left ≡ count (of_stage s) left'
      → expected_summary s notes os left ≡ expected_summary s notes (os ++ (event, o) ∷ []) left'
  unfolding expected_summary
  elsewhere none left left' h e =
      from-cong _ (rw count_snoc (ground arith)) (rw count_snoc (ground arith))
        (rw count_snoc (ground arith)) (sym (total_error_snoc_empty s os event)) e
  elsewhere (some n) left left' h e =
      from-cong _ (rw count_snoc (ground arith)) (rw count_snoc (ground arith))
        (rw count_snoc (ground arith)) (rw total_error_snoc_hit (ground arith)) e

  -- An empty tap of the stage.
  pub empty_here :
      (left : List Note)
      → at_stage s event ≡ true
      → score_empty (expected_summary s notes os left)
        ≡ expected_summary s notes (os ++ (event, none) ∷ []) left
  unfolding expected_summary
  empty_here left h =
      score_empty-from _ _ _ _ _ _
      ∙ from-cong _ (rw count_snoc (ground arith)) (rw count_snoc (ground arith))
          (rw count_snoc (ground arith)) (sym (total_error_snoc_empty s os event)) refl

  -- A hit in the stage, which takes one of the stage's notes.
  pub hit_here :
      (n : Note) (left left' : List Note)
      → at_stage s event ≡ true
      → count (of_stage s) left ≡ count (of_stage s) left' + 1
      → score_hit (delay_of event n) (expected_summary s notes os left)
        ≡ expected_summary s notes (os ++ (event, some n) ∷ []) left'
  unfolding expected_summary
  hit_here n left left' h e =
      rw e (elim (Bool-cases (leb (distance event n.target_ns) perfect_ns)) [
        | inl close ↦
            score_hit-perfect _ _ _ _ _ _ (delay_of event n) (ground (arith, abs-delay_of event n))
            ∙ from-cong _ (rw count_snoc (ground arith)) (rw count_snoc (ground arith))
                (rw count_snoc (ground arith))
                (rw total_error_snoc_hit (ground (arith, abs-delay_of event n))) refl
        | inr wide ↦
            score_hit-good _ _ _ _ _ _ (delay_of event n) (ground (arith, abs-delay_of event n))
            ∙ from-cong _ (rw count_snoc (ground arith)) (rw count_snoc (ground arith))
                (rw count_snoc (ground arith))
                (rw total_error_snoc_hit (ground (arith, abs-delay_of event n))) refl
      ])
