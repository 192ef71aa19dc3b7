-- ===== src/Runs/Summary/Gaps.antt =====
-- The statistics of the gaps between observations.
use chers.Base.{
  ap, ◌⊎◌, ◌+◌, ◌+ℤ◌, sub_ℕ, ltb, Bool, ℕ, ◌-◌, ◌≤◌, ◌≡◌, refl, inl, inr, true, false, Option, none,
  some, List, [], ◌∷◌, ℤ, pos, ltb_ℤ, ◌≤ℤ◌, if◌then◌else◌, length, arith, branch,
}
use chers.Base.Predicates.{All, All-map, count}
use chers.Runs.Among.{Among}
use chers.Runs.Summary.{gaps_of, max_of, count_over, GapSummary, gap_summary}

-- The longest of the gaps, if there are any.
abbrev IsMax : List ℤ → Option ℤ → Type 0
IsMax gaps none = gaps ≡ []
IsMax gaps (some m) = Among m gaps × All (λ g. g ≤ℤ m) gaps

-- Each time with the next one.
abbrev pub neighbours : List ℕ → List (ℕ × ℕ)
neighbours [] = []
neighbours (a ∷ []) = []
neighbours (a ∷ b ∷ times) = (a, b) ∷ neighbours (b ∷ times)

abbrev pub Any : {A : Type 0} → (A → Type 0) → List A → Type 0
Any P [] = ⊥
Any P (x ∷ xs) = P x ⊎ Any P xs

-- The second time is so much after the first, and at most so much.
abbrev pub IsAfter : ℤ → ℕ × ℕ → Type 0
IsAfter gap pair = pos pair.1 ≡ pos pair.0 +ℤ gap

abbrev pub IsWithin : ℤ → ℕ × ℕ → Type 0
IsWithin gap pair = pos pair.1 ≤ℤ pos pair.0 +ℤ gap

-- The longest step between neighbours: one has it, and none is longer.
abbrev pub IsLongest : List ℕ → Option ℤ → Type 0
IsLongest times none = length times ≤ 1
IsLongest times (some gap) =
    (Any (IsAfter gap) (neighbours times)) × All (IsWithin gap) (neighbours times)

-- More than 16 ms apart.
abbrev pub is_long : ℕ × ℕ → Bool
is_long pair = ltb (pair.0 + 16_000_000) pair.1

length-gaps_of : (times : List ℕ) → length (gaps_of times) ≡ length times - 1
unfolding gaps_of
length-gaps_of [] = refl
length-gaps_of (a ∷ []) = refl
length-gaps_of (a ∷ b ∷ times) = omega (arith, length-gaps_of (b ∷ times))

≤ℤ-step : (g m a : ℤ) → g ≤ℤ m → ltb_ℤ m a ≡ true → g ≤ℤ a
≤ℤ-step g m a le less = ground arith

≤ℤ-not : (a m : ℤ) → ltb_ℤ m a ≡ false → a ≤ℤ m
≤ℤ-not a m more = ground arith

max_of-IsMax : (gaps : List ℤ) → IsMax gaps (max_of gaps)
unfolding max_of
max_of-IsMax [] = refl
max_of-IsMax (a ∷ as_) = by_max (max_of as_) (max_of-IsMax as_)
  where
    by_max :
        (o : Option ℤ)
        → IsMax as_ o
        → IsMax (a ∷ as_) (elim o as (λ _. Option ℤ) [
          | none ↦ some a
          | some m ↦ some (if ltb_ℤ m a then a else m)
        ])
    by_max none e = (inl refl, (omega arith, rw e tt))
    by_max (some m) (among, bound) =
        branch (λ k. IsMax (a ∷ as_) (some k)) (ltb_ℤ m a) a m
          (λ less. (
            inl refl,
            (
              omega arith,
              All-map (λ g. g ≤ℤ m) (λ g. g ≤ℤ a) as_ (λ g le. ≤ℤ-step g m a le less) bound,
            ),
          ))
          (λ more. (inr among, (≤ℤ-not a m more, bound)))

sub_ℕ-IsAfter : (a b : ℕ) (m : ℤ) → m ≡ sub_ℕ b a → IsAfter m (a, b)
unfolding ◌+ℤ◌
sub_ℕ-IsAfter a b m e = rw e (ground arith)

sub_ℕ-IsWithin : (a b : ℕ) (m : ℤ) → sub_ℕ b a ≤ℤ m → IsWithin m (a, b)
unfolding ◌+ℤ◌
sub_ℕ-IsWithin a b m le = ground arith

gaps_of-Any :
    (m : ℤ) (times : List ℕ) → Among m (gaps_of times) → Any (IsAfter m) (neighbours times)
unfolding gaps_of
gaps_of-Any m [] h = h
gaps_of-Any m (a ∷ []) h = h
gaps_of-Any m (a ∷ b ∷ times) (inl e) = inl (sub_ℕ-IsAfter a b m e)
gaps_of-Any m (a ∷ b ∷ times) (inr h) = inr (gaps_of-Any m (b ∷ times) h)

gaps_of-All :
    (m : ℤ) (times : List ℕ)
    → All (λ g. g ≤ℤ m) (gaps_of times)
    → All (IsWithin m) (neighbours times)
unfolding gaps_of
gaps_of-All m [] h = tt
gaps_of-All m (a ∷ []) h = tt
gaps_of-All m (a ∷ b ∷ times) (le, h) = (sub_ℕ-IsWithin a b m le, gaps_of-All m (b ∷ times) h)

IsMax-IsLongest : (times : List ℕ) (m : Option ℤ) → IsMax (gaps_of times) m → IsLongest times m
IsMax-IsLongest times none e = omega (arith, length-gaps_of times, ap length e)
IsMax-IsLongest times (some m) (among, bound) =
    (gaps_of-Any m times among, gaps_of-All m times bound)

count_over-is_long :
    (times : List ℕ) → count_over (gaps_of times) ≡ count is_long (neighbours times)
unfolding count_over gaps_of
count_over-is_long [] = refl
count_over-is_long (a ∷ []) = refl
count_over-is_long (a ∷ b ∷ times) = ground (arith, count_over-is_long (b ∷ times))

-- What the statistics of the times of observations say: one gap fewer than times; the longest step
-- between neighbours, if there are two; and how many neighbours are more than 16 ms apart.
pub record Measured (times : List ℕ) (s : GapSummary) : Type 0 where
  pub gap_count : s.gap_count ≡ length times - 1
  pub longest : IsLongest times s.gap_max
  pub over : s.over_16ms ≡ count is_long (neighbours times)

-- For any times at which observations were returned, the summary has the number of the times less
-- one; the longest step from a time to the next one, if there are two times: one of the steps is as
-- long, and none is longer; and the number of the steps of more than 16 ms.
pub gap_summary-Measured : (times : List ℕ) → Measured times (gap_summary times)
unfolding gap_summary
gap_summary-Measured times = record {
  gap_count = length-gaps_of times;
  longest = IsMax-IsLongest times (max_of (gaps_of times)) (max_of-IsMax (gaps_of times));
  over = count_over-is_long times;
}
