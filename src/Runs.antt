-- ===== src/Runs.antt =====
-- The selection of runs for the report, `select_runs` of tools/report_codex_runs.py, on the rows that
-- `summarize_run` gives.
pub mod Order
pub mod Among
pub mod Rank
pub mod Chosen
pub mod Summary
mod Tests
use chers.Base.{
  ℕ, suc, ◌+◌, ◌-◌, ◌*◌, Bool, true, false, ◌&&◌, ◌||◌, not, Option, none, some, List, [], ◌∷◌,
  ◌++◌, ltb, ◌==◌, if◌then◌else◌, length,
}
use chers.Base.Decimal.{codes}

-- Texts are lists of code points, which is how Python compares them.
abbrev pub Text : Type 0
Text = List ℕ

abbrev pub same_text : Text → Text → Bool
same_text [] [] = true
same_text (a ∷ as_) (b ∷ bs) = a == b && same_text as_ bs
same_text _ _ = false

abbrev pub text_le : Text → Text → Bool
text_le [] bs = true
text_le (a ∷ as_) [] = false
text_le (a ∷ as_) (b ∷ bs) = ltb a b || (a == b && text_le as_ bs)

-- `row["started_utc"]`: missing or no text, no ISO time, a time with no time zone, or an instant, in
-- microseconds from the first of January of the year 1.
pub data Started : Type 0 where
  no_text : Started
  unreadable : Started
  no_zone : Started
  instant : ℕ → Started

pub record Row : Type 0 where
  pub model : Text
  pub effort : Text
  pub directory : Text
  pub publishable : Bool
  pub started : Started
  pub error : Option Text

-- `_start_time`
unfoldable pub start_time : Started → Option ℕ
start_time (instant t) = some t
start_time _ = none

-- `datetime.max`
abbrev pub max_time : ℕ
max_time = 3652059 * 86400 * 1000000 - 1

abbrev pub or_max : Option ℕ → ℕ
or_max none = max_time
or_max (some t) = t

-- The order of the keys of `chronology`.
unfoldable pub rank_le : Row → Row → Bool
rank_le a b =
    ltb (or_max (start_time a.started)) (or_max (start_time b.started))
    || (or_max (start_time a.started) == or_max (start_time b.started)
        && text_le a.directory b.directory)

module _ {A : Type 0} (le : A → A → Bool) where
  abbrev pub insert : A → List A → List A
  insert x [] = x ∷ []
  insert x (y ∷ ys) = if le x y then x ∷ y ∷ ys else y ∷ insert x ys

  -- `sorted` by keys in an order: elements with equal keys keep their order.
  unfoldable pub sort : List A → List A
  sort [] = []
  sort (x ∷ xs) = insert x (sort xs)

abbrev pub is_some : Option ℕ → Bool
is_some none = false
is_some (some t) = true

-- `row["publishable"] and valid_time`
unfoldable pub eligible : Row → Bool
eligible r = r.publishable && is_some (start_time r.started)

-- `(row["model"], row["effort"])` is the key.
abbrev pub has_key : Text → Text → Row → Bool
has_key model effort r = same_text r.model model && same_text r.effort effort

-- `key in selected`
abbrev pub in_selected : Text → Text → List Row → Bool
in_selected model effort [] = false
in_selected model effort (s ∷ ss) = has_key model effort s || in_selected model effort ss

pub data Reason : Type 0 where
  first_eligible : Reason
  not_publishable : Option Text → Reason
  bad_start : Reason
  earlier_selected : Reason

pub record Attempt : Type 0 where
  pub row : Row
  pub eligible : Bool
  pub selected : Bool
  pub reason : Reason

unfoldable pub reason_of : Bool → Row → Reason
reason_of chosen r =
    if chosen
    then first_eligible
    else if not r.publishable
    then not_publishable r.error
    else if not (is_some (start_time r.started))
    then bad_start
    else earlier_selected

abbrev pub is_chosen : Row → List Row → Bool
is_chosen r selected = eligible r && not (in_selected r.model r.effort selected)

-- The loop over the chronology: the rows of the dictionary `selected`, in its order, and the
-- attempts.
unfoldable pub choose : List Row → List Row → List Row × List Attempt
choose [] selected = (selected, [])
choose (r ∷ rs) selected =
    let chosen = is_chosen r selected in
    let rest = choose rs (if chosen then selected ++ r ∷ [] else selected) in
    (
      rest.0,
      record { row = r; eligible = eligible r; selected = chosen; reason = reason_of chosen r }
          ∷ rest.1,
    )

-- An entry of `catalog["models"]`: its name and the efforts that it supports.
pub record Model : Type 0 where
  pub name : Text
  pub efforts : List Text

-- `positions.get(model, len(models))`: the last place of a name counts.
abbrev pub position_from : ℕ → Text → List Model → Option ℕ
position_from i name [] = none
position_from i name (m ∷ ms) = elim (position_from (suc i) name ms) [
  | some j ↦ some j
  | none ↦ if same_text m.name name then some i else none
]

unfoldable pub position : Text → List Model → ℕ
position name ms = elim (position_from 0 name ms) [ some i ↦ i | none ↦ length ms ]

-- The efforts of the first entry of a name.
unfoldable pub efforts_of : Text → List Model → List Text
efforts_of name [] = []
efforts_of name (m ∷ ms) =
    let rest = efforts_of name ms in if same_text m.name name then m.efforts else rest

-- `efforts[-1:]`
abbrev pub last_of : List Text → List Text
last_of [] = []
last_of (e ∷ []) = e ∷ []
last_of (e ∷ f ∷ es) = last_of (f ∷ es)

abbrev pub is_among : Text → List Text → Bool
is_among e [] = false
is_among e (f ∷ fs) = same_text f e || is_among e fs

-- `order` of `_configuration_key`
unfoldable pub effort_order : Text → List Text → ℕ
effort_order effort efforts =
    if same_text effort (codes "low") then 0 else if is_among effort (last_of efforts) then 1 else 2

-- The order of the keys that `_configuration_key` makes.
unfoldable pub configuration_le : List Model → Row → Row → Bool
configuration_le ms a b =
    let p = position a.model ms in
    let q = position b.model ms in
    let i = effort_order a.effort (efforts_of a.model ms) in
    let j = effort_order b.effort (efforts_of b.model ms) in
    ltb p q
    || (p == q
        && ((not (same_text a.model b.model) && text_le a.model b.model)
            || (same_text a.model b.model && (ltb i j || (i == j && text_le a.effort b.effort)))))

-- `dict.fromkeys` on at most two efforts.
abbrev pub without_repeat : List Text → List Text
without_repeat (e ∷ f ∷ []) = if same_text e f then e ∷ [] else e ∷ f ∷ []
without_repeat es = es

-- `requested`: low, if there is one, and the last effort.
unfoldable pub requested : List Text → List Text
requested efforts =
    without_repeat
      ((if is_among (codes "low") efforts then codes "low" ∷ [] else []) ++ last_of efforts)

unfoldable pub missing_efforts : Text → List Text → List Row → List (Text × Text)
missing_efforts model [] selected = []
missing_efforts model (e ∷ es) selected =
    let rest = missing_efforts model es selected in
    if in_selected model e selected then rest else (model, e) ∷ rest

-- The loop that fills `expected`.
unfoldable pub missing : List Model → List Row → List (Text × Text)
missing [] selected = []
missing (m ∷ ms) selected =
    missing_efforts m.name (requested m.efforts) selected ++ missing ms selected

pub record Selection : Type 0 where
  pub selected : List Row
  pub attempts : List Attempt
  pub missing_configurations : List (Text × Text)

-- `select_runs`
unfoldable pub select_runs : List Row → List Model → Selection
unfolding sort rank_le configuration_le choose missing
select_runs rows models =
    let (selected, attempts) = choose (sort rank_le rows) [] in
    record {
      selected = sort (configuration_le models) selected;
      attempts = attempts;
      missing_configurations = missing models selected;
    }
