-- ===== src/Verifier/Timing/Places.antt =====
-- The percentiles and the maximum of a recomputed timing summary.
use chers.Base.{
  ℕ, zero, suc, ◌+◌, ◌-◌, ◌*◌, ◌/◌, ◌≤◌, ◌<◌, ◌≡◌, refl, ap, subst, ◌∙◌, Bool, List, [], ◌∷◌, pos,
  ltb, leb, ◌==◌, length, get_or, branch, arith, ==_iff,
}
use chers.Base.Predicates.{All, All-map, Ordered, count}
use chers.Verifier.Rules.{ms}
use chers.Verifier.Json.{Numbers}
use chers.Verifier.Timing.{insert, sorted, timing_summary, p50_index, p99_index, in_ms}

-- A value has the place `k`, from 0, in the order of the values: at most `k` values are smaller, and
-- more than `k` are at most as large.
abbrev pub Place : ℕ → ℕ → List ℕ → Type 0
Place k x values = (count (λ v. ltb v x) values ≤ k) × (k < count (λ v. leb v x) values)

count-insert : (p : ℕ → Bool) (x : ℕ) (ys : List ℕ) → count p (insert x ys) ≡ count p (x ∷ ys)
count-insert p x [] = refl
count-insert p x (y ∷ ys) = ground (arith, count-insert p x ys)

count-sorted : (p : ℕ → Bool) (xs : List ℕ) → count p (sorted xs) ≡ count p xs
unfolding sorted
count-sorted p [] = refl
count-sorted p (x ∷ xs) = count-insert p x (sorted xs) ∙ ground (arith, count-sorted p xs)

length-insert : (x : ℕ) (ys : List ℕ) → length (insert x ys) ≡ suc (length ys)
length-insert x [] = refl
length-insert x (y ∷ ys) = ground (arith, length-insert x ys)

length-sorted : (xs : List ℕ) → length (sorted xs) ≡ length xs
unfolding sorted
length-sorted [] = refl
length-sorted (x ∷ xs) = length-insert x (sorted xs) ∙ ap suc (length-sorted xs)

insert-All : (P : ℕ → Type 0) (x : ℕ) (ys : List ℕ) → P x → All P ys → All P (insert x ys)
insert-All P x [] p h = (p, tt)
insert-All P x (y ∷ ys) p h =
    branch (All P) (leb x y) _ _ (λ _. (p, h)) (λ _. (h.0, insert-All P x ys p h.1))

insert-Ordered : (x : ℕ) (ys : List ℕ) → Ordered ◌≤◌ ys → Ordered ◌≤◌ (insert x ys)
insert-Ordered x [] o = (tt, tt)
insert-Ordered x (y ∷ ys) o =
    branch (Ordered ◌≤◌) (leb x y) _ _
      (λ first. ((ground arith, All-map (λ z. y ≤ z) (λ z. x ≤ z) ys (λ z h. ground arith) o.0), o))
      (λ later. (insert-All (λ z. y ≤ z) x ys (ground arith) o.0, insert-Ordered x ys o.1))

sorted-Ordered : (xs : List ℕ) → Ordered ◌≤◌ (sorted xs)
unfolding sorted
sorted-Ordered [] = tt
sorted-Ordered (x ∷ xs) = insert-Ordered x (sorted xs) (sorted-Ordered xs)

get_or-All : (P : ℕ → Type 0) (xs : List ℕ) (k : ℕ) → k < length xs → All P xs → P (get_or xs k 0)
get_or-All P [] k h a = absurd (omega (arith, h))
get_or-All P (x ∷ xs) zero h a = a.0
get_or-All P (x ∷ xs) (suc k) h a = get_or-All P xs k (omega arith) a.1

none_below : (x : ℕ) (ys : List ℕ) → All (λ y. x ≤ y) ys → count (λ v. ltb v x) ys ≡ 0
none_below x [] a = refl
none_below x (y ∷ ys) a = ground (arith, none_below x ys)

get_or-Place : (xs : List ℕ) (k : ℕ) → k < length xs → Ordered ◌≤◌ xs → Place k (get_or xs k 0) xs
get_or-Place [] k h o = absurd (omega (arith, h))
get_or-Place (x ∷ xs) zero h o = (ground (arith, none_below x xs o.0), ground arith)
get_or-Place (x ∷ xs) (suc k) h o =
    let (below, upto) = get_or-Place xs k (omega arith) o.1 in
    let least = get_or-All (λ y. x ≤ y) xs k (omega arith) o.0 in
    (ground (arith, below), ground (arith, upto, least))

-- The value at a place of the sorted samples.
sorted-Place :
    (values : List ℕ) (k : ℕ) → k < length values → Place k (get_or (sorted values) k 0) values
sorted-Place values k h =
    let (below, upto) =
      get_or-Place (sorted values) k (omega (arith, length-sorted values))
        (sorted-Ordered values) in
    (
      omega (arith, below, count-sorted (λ v. ltb v (get_or (sorted values) k 0)) values),
      omega (arith, upto, count-sorted (λ v. leb v (get_or (sorted values) k 0)) values),
    )

module _ (numbers : Numbers) where
  open numbers use {Float, quotient}

  -- A number of a summary is the sample of a place, in milliseconds.
  abbrev pub IsPlace : ℕ → Float → List ℕ → Type 0
  IsPlace k y values = (x : ℕ) × Place k x values × (y ≡ quotient (pos x) (pos ms))

  in_ms-sample : (n x : ℕ) → 0 < n → in_ms numbers n x ≡ quotient (pos x) (pos ms)
  in_ms-sample n x h =
      branch (λ y. y ≡ quotient (pos x) (pos ms)) (n == 0) _ _
        (λ none. absurd (omega (arith, (==_iff n 0).0 none, h))) (λ _. refl)

  sample-IsPlace :
      (values : List ℕ) (k : ℕ)
      → k < length values
      → IsPlace k (in_ms numbers (length values) (get_or (sorted values) k 0)) values
  sample-IsPlace values k h = (
    get_or (sorted values) k 0,
    sorted-Place values k h,
    in_ms-sample (length values) (get_or (sorted values) k 0) (omega (arith, h)),
  )

  -- Of a series that has samples, the recomputed median, 99th percentile and maximum are, in
  -- milliseconds, the samples with the places (n - 1) / 2, ⌈99 n / 100⌉ - 1 and n - 1 in the order of
  -- the n samples.
  pub timing_summary-IsPlace :
      (values : List ℕ)
      → 0 < length values
      → let u = timing_summary numbers values in
        let n = length values in
        IsPlace ((n - 1) / 2) u.p50_ms values
        × IsPlace ((99 * n + 99) / 100 - 1) u.p99_ms values
        × IsPlace (n - 1) u.max_ms values
  unfolding timing_summary
  timing_summary-IsPlace values h =
      let commuted : length values * 99 + 99 ≡ 99 * length values + 99 = omega arith in
      (
        sample-IsPlace values (p50_index (length values)) (omega arith),
        subst (λ k. IsPlace (k / 100 - 1) (timing_summary numbers values).p99_ms values) commuted
            (sample-IsPlace values (p99_index (length values)) (omega arith)),
        sample-IsPlace values (length values - 1) (omega arith),
      )
