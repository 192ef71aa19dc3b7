-- ===== src/Verifier/Timing.antt =====
-- `_replay_timing` of tools/verify_run.py: the timing series are read from timing_samples.csv, and
-- their summaries computed again and compared with the claims.
pub mod Places
use chers.Base.{
  ℕ, suc, ◌+◌, ◌-◌, ◌*◌, ◌/◌, not, Option, none, some, List, [], ◌∷◌, ◌++◌, String, str_eq, ℤ, pos,
  negsuc, eqb_ℤ, ltb, leb, ◌==◌, if◌then◌else◌, length, get_or,
}
use chers.Base.Predicates.{count, sum_by}
use chers.Verifier.Rules.{ms}
use chers.Verifier.Audit.{
  Audit, field, value_claim, index_gap, unknown_kind, ◌>>=◌, ◌>>◌, pure, report_if, or_raise,
}
use chers.Verifier.Fields.{max_int64}
use chers.Verifier.Table.{Row, column, natural_column}
use chers.Verifier.Json.{Numbers}
use chers.Verifier.Manifest.{Distribution, small}

-- The keys of `samples`.
pub data Kind : Type 0 where
  frame_gap render poll : Kind

abbrev pub kind_text : Kind → String
kind_text frame_gap = "frame_gap"
kind_text render = "render"
kind_text poll = "poll"

unfoldable pub kind_named : String → Option Kind
kind_named name =
    if str_eq name "frame_gap"
    then some frame_gap
    else if str_eq name "render"
    then some render
    else if str_eq name "poll"
    then some poll
    else none

pub record Samples : Type 0 where
  pub frame_gaps : List ℕ
  pub renders : List ℕ
  pub polls : List ℕ

abbrev pub no_samples : Samples
no_samples = record { frame_gaps = []; renders = []; polls = [] }

abbrev pub samples_of : Kind → Samples → List ℕ
samples_of frame_gap s = s.frame_gaps
samples_of render s = s.renders
samples_of poll s = s.polls

unfoldable pub append_sample : Kind → ℕ → Samples → Samples
append_sample frame_gap d s = record s { frame_gaps = s.frame_gaps ++ d ∷ [] }
append_sample render d s = record s { renders = s.renders ++ d ∷ [] }
append_sample poll d s = record s { polls = s.polls ++ d ∷ [] }

-- The body of the loop over the rows.
unfoldable pub add_sample : ℕ → Row → Samples → Audit Samples
unfolding append_sample
add_sample line row s = do
  name ← column "kind" row
  kind ← or_raise (kind_named name) (unknown_kind line)
  index ← natural_column "timing_samples.csv" line "index" max_int64 row
  report_if (not (index == length (samples_of kind s))) (index_gap line)
  duration ← natural_column "timing_samples.csv" line "duration_ns" max_int64 row
  pure (append_sample kind duration s)

unfoldable pub add_samples : ℕ → List Row → Samples → Audit Samples
add_samples line [] s = pure s
add_samples line (row ∷ rows) s = do s' ← add_sample line row s; add_samples (suc line) rows s'

abbrev pub insert : ℕ → List ℕ → List ℕ
insert x [] = x ∷ []
insert x (y ∷ ys) = if leb x y then x ∷ y ∷ ys else y ∷ insert x ys

-- `sorted(values)`
unfoldable pub sorted : List ℕ → List ℕ
sorted [] = []
sorted (x ∷ xs) = insert x (sorted xs)

-- The places in the sorted values, of which there are some.
abbrev pub p50_index : ℕ → ℕ
p50_index n = (n - 1) / 2

abbrev pub p99_index : ℕ → ℕ
p99_index n = (n * 99 + 99) / 100 - 1

-- `sum(value > n * MS for value in values)`
abbrev pub over_ms : ℕ → List ℕ → ℕ
over_ms n values = count (ltb (n * ms)) values

pub record TimingSummary (F : Type 0) : Type 0 where
  pub samples : ℕ
  pub mean_ms : F
  pub p50_ms : F
  pub p99_ms : F
  pub max_ms : F
  pub over_16ms : ℕ
  pub over_2ms : ℕ

module _ (numbers : Numbers) where
  open numbers use {Float, decimal, over, quotient, isclose}

  -- `x / MS if count else 0`
  abbrev pub in_ms : ℕ → ℕ → Float
  in_ms n x = if n == 0 then small numbers 0 else quotient (pos x) (pos ms)

  unfoldable pub timing_summary : List ℕ → TimingSummary Float
  unfolding sorted
  timing_summary values =
      let n = length values in
      let ordered = sorted values in
      record {
        samples = n;
        mean_ms =
            if n == 0
            then small numbers 0
            else over (quotient (pos (sum_by (λ v. v) values)) (pos n)) (small numbers ms);
        p50_ms = in_ms n (get_or ordered (p50_index n) 0);
        p99_ms = in_ms n (get_or ordered (p99_index n) 0);
        max_ms = in_ms n (get_or ordered (n - 1) 0);
        over_16ms = over_ms 16 values;
        over_2ms = over_ms 2 values;
      }

  -- A number that is compared exactly, and one up to the tolerance.
  abbrev pub check_exact : Kind → String → ℤ → ℕ → Audit (Unit {0})
  check_exact kind name claimed expected =
      report_if (not (eqb_ℤ claimed (pos expected))) (value_claim (field (kind_text kind) name))

  abbrev pub check_ms : Kind → String → Float → Float → Audit (Unit {0})
  check_ms kind name claimed expected =
      report_if (not (isclose claimed expected (decimal 5 (negsuc 11)) (decimal 1 (negsuc 5))))
        (value_claim (field (kind_text kind) name))

  -- The loop over the fields of a summary.
  unfoldable pub compare_timing : Kind → Distribution Float → TimingSummary Float → Audit (Unit {0})
  compare_timing kind claimed expected = do
    check_exact kind "count" claimed.count expected.samples
    check_ms kind "mean_ms" claimed.mean_ms expected.mean_ms
    check_ms kind "p50_ms" claimed.p50_ms expected.p50_ms
    check_ms kind "p99_ms" claimed.p99_ms expected.p99_ms
    check_ms kind "max_ms" claimed.max_ms expected.max_ms
    check_exact kind "over_16ms" claimed.over_16ms expected.over_16ms
    check_exact kind "over_2ms" claimed.over_2ms expected.over_2ms

  -- The whole: the result is the summary of the frame gaps.
  unfoldable pub replay_timing :
      List Row → (Kind → Distribution Float) → Audit (TimingSummary Float)
  replay_timing rows claimed = do
    s ← add_samples 0 rows no_samples
    compare_timing frame_gap (claimed frame_gap) (timing_summary s.frame_gaps)
    compare_timing render (claimed render) (timing_summary s.renders)
    compare_timing poll (claimed poll) (timing_summary s.polls)
    pure (timing_summary s.frame_gaps)
