-- ===== src/Verifier/Chart/Loaded.antt =====
-- What the loop over `notes.csv` has established of a chart when it ends.
use chers.Base.{
  subst, ℕ, suc, ◌+◌, ◌≤◌, ◌<◌, ◌≡◌, refl, sym, ap, ◌∙◌, inl, inr, Bool, false, Option, none, some,
  List, [], ◌∷◌, ◌++◌, pos, ◌≤ℤ◌, ◌==◌, ==_iff, get_or, set, length, length-set, get_or-set_self,
  get_or-set_ne, arith, Bool-cases,
}
use chers.Base.Predicates.{
  All, Ordered, select, count, All-append, All-map, Ordered-snoc, Ordered-select, count-append,
}
use chers.Verifier.Rules.{Stage, calibration, scored, same_stage, window_start, window_end, lock_ns}
use chers.Verifier.Chart.{Note, Chart, append_note, last?, is_locked, bump}

abbrev pub in_lane : ℕ → List Note → List Note
in_lane l = select (λ n. n.lane == l)

abbrev pub of_stage : Stage → Note → Bool
of_stage s n = same_stage n.stage s

-- Target times do not fall.
abbrev pub Sorted : List Note → Type 0
Sorted = Ordered (λ m n. m.target_ns ≤ n.target_ns)

-- Two notes of a lane are at least 40 ms apart, the later one in the chart being the later in time.
abbrev pub Locked : Note → Note → Type 0
Locked m n = m.lane ≡ n.lane → m.target_ns + lock_ns ≤ n.target_ns

-- The ids count up from a number.
abbrev pub Numbered : ℕ → List Note → Type 0
Numbered k [] = Unit {0}
Numbered k (n ∷ ns) = (n.id ≡ k) × Numbered (suc k) ns

-- A target lies in the half-open interval of its stage.
abbrev pub InWindow : Note → Type 0
InWindow n = (window_start n.stage ≤ n.target_ns) × (n.target_ns < window_end n.stage)

-- What holds of the loop's variables, whatever was reported.
pub record IsLoaded (lanes : ℕ) (c : Chart) : Type 0 where
  pub width : length c.lanes_notes ≡ lanes
  pub split : (l : ℕ) → get_or c.lanes_notes l [] ≡ in_lane l c.notes
  pub calibrations : c.calibration_count ≡ count (of_stage calibration) c.notes
  pub scoreds : c.scored_count ≡ count (of_stage scored) c.notes
  pub in_range : All (λ n. n.lane < lanes) c.notes
  pub sorted : Sorted c.notes
  pub before : All (λ n. pos n.target_ns ≤ℤ c.previous_target) c.notes

-- What holds as well if nothing was reported.
pub record IsClean (c : Chart) : Type 0 where
  pub numbered : Numbered 0 c.notes
  pub windows : All InWindow c.notes
  pub locks : Ordered Locked c.notes

in_lane_self :
    (n : Note) (ns : List Note) → in_lane n.lane (ns ++ n ∷ []) ≡ in_lane n.lane ns ++ n ∷ []
in_lane_self n [] = ground arith
in_lane_self n (m ∷ ns) = ground (arith, in_lane_self n ns)

in_lane_other :
    (l : ℕ) (n : Note) (ns : List Note)
    → (n.lane == l) ≡ false
    → in_lane l (ns ++ n ∷ []) ≡ in_lane l ns
in_lane_other l n [] h = ground arith
in_lane_other l n (m ∷ ns) h = ground (arith, in_lane_other l n ns)

split-append :
    (lanes : ℕ) (c : Chart) (n : Note)
    → IsLoaded lanes c
    → n.lane < lanes
    → (l : ℕ) → get_or (append_note n c).lanes_notes l [] ≡ in_lane l (append_note n c).notes
unfolding append_note
split-append lanes c n v h l = elim (Bool-cases (n.lane == l)) [
  | inl same ↦
      subst (λ k. get_or (set c.lanes_notes n.lane new) k [] ≡ in_lane k (c.notes ++ n ∷ []))
        ((==_iff n.lane l).0 same) own
  | inr other ↦
      get_or-set_ne c.lanes_notes n.lane l new [] (ground arith)
      ∙ v.split l
      ∙ sym (in_lane_other l n c.notes other)
]
  where
    new : List Note
    new = get_or c.lanes_notes n.lane [] ++ n ∷ []

    own : get_or (set c.lanes_notes n.lane new) n.lane [] ≡ in_lane n.lane (c.notes ++ n ∷ [])
    own =
        get_or-set_self c.lanes_notes n.lane new [] (omega (arith, v.width))
        ∙ ap (λ (l : List Note). l ++ n ∷ []) (v.split n.lane)
        ∙ sym (in_lane_self n c.notes)

bump-count :
    (s : Stage) (n : Note) (ns : List Note) (k : ℕ)
    → k ≡ count (of_stage s) ns
    → bump s n.stage k ≡ count (of_stage s) (ns ++ n ∷ [])
bump-count s n ns k e = rw count-append (ground arith)

pub append_note-IsLoaded :
    (lanes : ℕ) (c : Chart) (n : Note)
    → IsLoaded lanes c
    → n.lane < lanes
    → c.previous_target ≤ℤ pos n.target_ns
    → IsLoaded lanes (append_note n c)
unfolding append_note
append_note-IsLoaded lanes c n v h t = record {
  width = length-set c.lanes_notes n.lane _ ∙ v.width;
  split = split-append lanes c n v h;
  calibrations = bump-count calibration n c.notes c.calibration_count v.calibrations;
  scoreds = bump-count scored n c.notes c.scored_count v.scoreds;
  in_range = All-append _ c.notes (n ∷ []) v.in_range (h, tt);
  sorted = Ordered-snoc _ c.notes n v.sorted (All-map _ _ c.notes (λ m b. omega arith) v.before);
  before =
      All-append _ c.notes (n ∷ []) (All-map _ _ c.notes (λ m b. omega arith) v.before)
        (omega arith, tt);
}

-- The last note of a sorted list is the latest.
last?-latest :
    (ns : List Note) (z : Note)
    → Sorted ns
    → last? ns ≡ some z
    → All (λ m. m.target_ns ≤ z.target_ns) ns
last?-latest [] z o e = tt
last?-latest (n ∷ []) z o e = (ground arith, tt)
last?-latest (n ∷ m ∷ ns) z o e = let rest = last?-latest (m ∷ ns) z o.1 e in (omega arith, rest)

last?-none : (ns : List Note) → last? ns ≡ none → ns ≡ []
last?-none [] e = refl
last?-none (n ∷ []) e = cc
last?-none (n ∷ m ∷ ns) e = absurd (nonempty (last?-none (m ∷ ns) e))
  where
    nonempty : (m ∷ ns) ≡ [] → ⊥
    nonempty e' = cc

-- What holds of a lane's notes holds of those notes of the chart.
All-in_lane :
    (P : Note → Type 0) (l : ℕ) (ns : List Note)
    → All P (in_lane l ns)
    → All (λ m. m.lane ≡ l → P m) ns
All-in_lane P l [] h = tt
All-in_lane P l (n ∷ ns) h = elim (Bool-cases (n.lane == l)) [
  | inl e ↦ let k : All P (n ∷ in_lane l ns) = rw e at h in ((λ _. k.0), All-in_lane P l ns k.1)
  | inr e ↦
      let k : All P (in_lane l ns) = rw e at h in ((λ same. ground arith), All-in_lane P l ns k)
]

-- A new note that the last note of its lane does not lock is 40 ms from all notes of its lane.
unlocked-Locked :
    (n : Note) (ns : List Note) (z : Option Note)
    → Sorted ns
    → last? (in_lane n.lane ns) ≡ z
    → is_locked z n.target_ns ≡ false
    → All (λ m. Locked m n) ns
unlocked-Locked n ns none o e f =
    let k : All (λ m. m.target_ns + lock_ns ≤ n.target_ns) (in_lane n.lane ns) =
      rw (last?-none (in_lane n.lane ns) e) tt in
    All-in_lane _ n.lane ns k
unlocked-Locked n ns (some z) o e f = All-in_lane _ n.lane ns (
    All-map _ _ (in_lane n.lane ns) (λ m b. ground arith)
      (last?-latest (in_lane n.lane ns) z (Ordered-select _ _ ns o) e))

Numbered-snoc :
    (k : ℕ) (ns : List Note) (n : Note)
    → Numbered k ns
    → n.id ≡ k + length ns
    → Numbered k (ns ++ n ∷ [])
Numbered-snoc k [] n h e = (omega arith, tt)
Numbered-snoc k (m ∷ ns) n h e = (h.0, Numbered-snoc (suc k) ns n h.1 (omega arith))

pub append_note-IsClean :
    (lanes : ℕ) (c : Chart) (n : Note)
    → IsLoaded lanes c
    → IsClean c
    → n.id ≡ length c.notes
    → InWindow n
    → is_locked (last? (get_or c.lanes_notes n.lane [])) n.target_ns ≡ false
    → IsClean (append_note n c)
unfolding append_note
append_note-IsClean lanes c n v w i t f = record {
  numbered = Numbered-snoc 0 c.notes n w.numbered (omega arith);
  windows = All-append _ c.notes (n ∷ []) w.windows (t, tt);
  locks =
      Ordered-snoc _ c.notes n w.locks
        (unlocked-Locked n c.notes _ v.sorted (ap last? (sym (v.split n.lane))) f);
}
