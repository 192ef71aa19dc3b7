-- ===== src/Verifier/Spec/Claims.antt =====
-- What a row of `inputs.csv` claims, next to what came of its tap by the rules; and what one round of
-- the loop in tools/verify_run.py reports of it.
use chers.Base.{
  ℕ, ◌+◌, ◌-◌, ◌^◌, ◌<◌, ◌≡◌, ◌↔◌, inl, inr, Bool, true, ◌&&◌, Option, none, some, List, [], String,
  str_eq, eq_iff, ℤ, pos, negsuc, ◌+ℤ◌, ◌≤ℤ◌, eqb_ℤ, leb, if◌then◌else◌, Bool-cases, Option-cases,
  arith, sub_ℕ,
}
use chers.Verifier.Rules.{Stage, stage_text, stage_at, perfect_ns, judgment_text}
use chers.Verifier.Fields.{csv_natural, csv_integer, integer}
use chers.Verifier.Audit.{Label, ok, Finding, cell}
use chers.Verifier.Audit.Laws.{>>=-eq-ok}
use chers.Verifier.Fields.Bounds.{csv_integer-ok}
use chers.Verifier.Table.{Row, lookup_text}
use chers.Verifier.Table.Columns.{natural_column-ok}
use chers.Verifier.Chart.{Note}
use chers.Verifier.Replay.{
  InputRow, Replay, read_input, claimed_note_column, claimed_delay_column, replay_input,
  match_input, expected, same_note, judge,
}
use chers.Verifier.Spec.{distance}

-- A row's claims are right: its stage, and of its tap the note, the signed delay and the judgment.
abbrev pub Claim : InputRow → Option Note → Type 0
Claim r none = (r.claimed_note ≡ none) × (r.claimed_delay ≡ pos 0) × (r.judgment_name ≡ "empty")
Claim r (some n) =
    (r.claimed_note ≡ some n.id)
    × (r.claimed_delay +ℤ pos n.target_ns ≡ pos r.event_ns)
    × (r.judgment_name
        ≡ (if leb (distance r.event_ns n.target_ns) perfect_ns then "perfect" else "good"))

abbrev pub StageClaim : InputRow → Type 0
StageClaim r = (s : Stage) × (stage_at r.event_ns ≡ some s) × (r.stage_name ≡ stage_text s)

-- The tests of the loop's body, joined.
abbrev pub agrees : InputRow → Stage → Option Note → Bool
agrees r s m =
    let e = expected r.event_ns m in
    str_eq r.stage_name (stage_text s)
    && (same_note r.claimed_note e.note
        && (eqb_ℤ r.claimed_delay e.delay && str_eq r.judgment_name (judgment_text e.judgment)))

-- A round that goes on: the input is in time and in a window, the state is that of the match, and
-- nothing is reported exactly if all tests agree.
pub record Round (lanes_notes : List (List Note)) (r : InputRow) (s s' : Replay)
    (found : List Finding) : Type 0 where
  pub stage : Stage
  pub in_time : s.previous_event ≤ℤ pos r.event_ns
  pub in_stage : stage_at r.event_ns ≡ some stage
  pub moved :
      s'
      ≡ (match_input lanes_notes stage r.event_ns r.lane
          (record s { previous_event = pos r.event_ns })).1
  pub quiet : (found ≡ []) ↔ (
      agrees r stage
        (match_input lanes_notes stage r.event_ns r.lane
          (record s { previous_event = pos r.event_ns })).0
      ≡ true)

pub replay_input-Round :
    (lanes_notes : List (List Note)) (index : ℕ) (r : InputRow) (s s' : Replay)
    (found : List Finding)
    → replay_input lanes_notes index r s ≡ (ok s', found)
    → Round lanes_notes r s s' found
unfolding replay_input
replay_input-Round lanes_notes index r s s' found e = elim (Option-cases (stage_at r.event_ns)) [
  | inl outside ↦ absurd (ground arith)
  | inr (stage, at) ↦ record {
    stage = stage;
    in_time = ground arith;
    in_stage = at;
    moved = ground arith;
    quiet = ((λ h. ground arith), (λ h. ground arith));
  }
]

agrees-none :
    (r : InputRow) (s : Stage)
    → (agrees r s none ≡ true) ↔ ((r.stage_name ≡ stage_text s) × Claim r none)
unfolding expected
agrees-none r s = (
  (λ h. ground (arith, eq_iff r.stage_name (stage_text s), eq_iff r.judgment_name "empty")),
  (λ h. ground (arith, eq_iff r.stage_name (stage_text s), eq_iff r.judgment_name "empty")),
)

-- The code compares the claimed delay with the difference of the times.
delay_iff :
    (d : ℤ) (event target : ℕ)
    → (eqb_ℤ d (sub_ℕ event target) ≡ true) ↔ (d +ℤ pos target ≡ pos event)
unfolding ◌+ℤ◌
delay_iff d event target = ((λ h. ground arith), λ h. ground arith)

judgment_text-judge :
    (event target : ℕ)
    → judgment_text (judge (sub_ℕ event target))
      ≡ (if leb (distance event target) perfect_ns then "perfect" else "good")
unfolding judge
judgment_text-judge event target = ground arith

agrees-some :
    (r : InputRow) (s : Stage) (n : Note)
    → (agrees r s (some n) ≡ true) ↔ ((r.stage_name ≡ stage_text s) × Claim r (some n))
unfolding expected
agrees-some r s n =
    let text = judgment_text-judge r.event_ns n.target_ns in
    let judged : String =
      if leb (distance r.event_ns n.target_ns) perfect_ns then "perfect" else "good" in
    (
      (λ h. ground (
        arith,
        eq_iff r.stage_name (stage_text s),
        eq_iff r.judgment_name (judgment_text (judge (sub_ℕ r.event_ns n.target_ns))),
        delay_iff r.claimed_delay r.event_ns n.target_ns,
        text,
      )),
      λ h. ground (
        arith,
        eq_iff r.stage_name (stage_text s),
        eq_iff r.judgment_name (judgment_text (judge (sub_ℕ r.event_ns n.target_ns))),
        delay_iff r.claimed_delay r.event_ns n.target_ns,
        text,
      ),
    )

pub agrees_iff :
    (r : InputRow) (s : Stage) (m : Option Note)
    → (agrees r s m ≡ true) ↔ ((r.stage_name ≡ stage_text s) × Claim r m)
agrees_iff r s none = agrees-none r s
agrees_iff r s (some n) = agrees-some r s n

-- An integer that is read reports nothing, in whatever way it ends.
csv_natural-quiet :
    (text : String) (label : Label) (maximum : ℕ) → (csv_natural text label maximum).1 ≡ []
unfolding csv_natural csv_integer integer
csv_natural-quiet text label maximum = ground arith

claimed_note_column-quiet :
    (index : ℕ) (row : Row) (n : Option ℕ) (found : List Finding)
    → claimed_note_column index row ≡ (ok n, found)
    → found ≡ []
unfolding claimed_note_column
claimed_note_column-quiet index row n found e = elim (Option-cases (lookup_text "note_id" row)) [
  | inl missing ↦ ground arith
  | inr (text, e') ↦ elim (Bool-cases (str_eq text "")) [
    | inl blank ↦ ground arith
    | inr present ↦
        ground
          (arith, csv_natural-quiet text (cell "inputs.csv" (index + 2) "note_id") (2 ^ 64 - 2))
  ]
]

claimed_delay_column-quiet :
    (index : ℕ) (row : Row) (d : ℤ) (found : List Finding)
    → claimed_delay_column index row ≡ (ok d, found)
    → found ≡ []
unfolding claimed_delay_column
claimed_delay_column-quiet index row d found e = elim (Option-cases (lookup_text "delay_ns" row)) [
  | inl missing ↦ ground arith
  | inr (text, e') ↦ ground (
    arith,
    csv_integer-ok text (cell "inputs.csv" (index + 2) "delay_ns") (negsuc (2 ^ 63 - 1))
        (pos (2 ^ 63 - 1)) d found,
  )
]

pub read_input-lane :
    (lanes index : ℕ) (row : Row) (r : InputRow) (found : List Finding)
    → 0 < lanes
    → read_input lanes index row ≡ (ok r, found)
    → (r.lane < lanes) × (found ≡ [])
unfolding read_input
read_input-lane lanes index row r found p e =
    let (t, f₁, g₁, e₁, r₁, s₁) = >>=-eq-ok _ _ r found e in
    let (l, f₂, g₂, e₂, r₂, s₂) = >>=-eq-ok _ _ r g₁ r₁ in
    let (d, f₃, g₃, e₃, r₃, s₃) = >>=-eq-ok _ _ r g₂ r₂ in
    let (n, f₄, g₄, e₄, r₄, s₄) = >>=-eq-ok _ _ r g₃ r₃ in
    ground (
      arith,
      natural_column-ok "inputs.csv" index "event_ns" (2 ^ 63 - 1) row t f₁ e₁,
      natural_column-ok "inputs.csv" index "lane" (lanes - 1) row l f₂ e₂,
      claimed_delay_column-quiet index row d f₃ e₃,
      claimed_note_column-quiet index row n f₄ e₄,
    )
