-- ===== src/Verifier/Chart/Loading.antt =====
-- The loop over `notes.csv` ends in a chart that is split by lanes and sorted, and that is clean if
-- the loop reported nothing.
use chers.Base.{
  ℕ, suc, ◌+◌, ◌-◌, ◌^◌, ◌<◌, ◌≡◌, refl, sym, ◌∙◌, inl, inr, false, List, [], ◌∷◌, pos, ◌≤ℤ◌,
  get_or, length, length-append, length-replicate, get_or-replicate, arith, append-eq-nil,
  Option-cases,
}
use chers.Verifier.Rules.{Stage}
use chers.Verifier.Audit.{ok, Finding}
use chers.Verifier.Audit.Laws.{>>=-eq-ok}
use chers.Verifier.Chart.{
  Note, NoteRow, Chart, empty_chart, append_note, add_note, last?, is_locked, stage_named,
  load_notes, read_note,
}
use chers.Verifier.Chart.Loaded.{
  IsLoaded, IsClean, InWindow, append_note-IsLoaded, append_note-IsClean,
}
use chers.Verifier.Table.{Row}
use chers.Verifier.Table.Columns.{natural_column-ok}

abbrev pub note_of : NoteRow → Stage → Note
note_of r s = record { id = r.id; lane = r.lane; target_ns = r.target_ns; stage = s }

-- The checks go on only with a known stage and a target that does not fall, and report nothing
-- only if the id, the target and the lane's lock are right.
add_note-ok :
    (index : ℕ) (r : NoteRow) (c c' : Chart) (found : List Finding)
    → add_note index r c ≡ (ok c', found)
    → (s : Stage) × (c' ≡ append_note (note_of r s) c)
      × (c.previous_target ≤ℤ pos r.target_ns)
      × (found ≡ []
          → (r.id ≡ index)
            × InWindow (note_of r s)
            × (is_locked (last? (get_or c.lanes_notes r.lane [])) r.target_ns ≡ false))
unfolding add_note
add_note-ok index r c c' found e = elim (Option-cases (stage_named r.stage_name)) [
  | inl bad ↦ ground arith
  | inr (s, good) ↦ (s, ground arith, ground arith, ground arith)
]

read_note-lane :
    (lanes index : ℕ) (row : Row) (r : NoteRow) (found : List Finding)
    → 0 < lanes
    → read_note lanes index row ≡ (ok r, found)
    → (r.lane < lanes) × (found ≡ [])
unfolding read_note
read_note-lane lanes index row r found p e =
    let (i, f₁, g₁, e₁, r₁, s₁) = >>=-eq-ok _ _ r found e in
    let (l, f₂, g₂, e₂, r₂, s₂) = >>=-eq-ok _ _ r g₁ r₁ in
    let (t, f₃, g₃, e₃, r₃, s₃) = >>=-eq-ok _ _ r g₂ r₂ in
    ground (
      arith,
      natural_column-ok "notes.csv" index "id" (2 ^ 64 - 2) row i f₁ e₁,
      natural_column-ok "notes.csv" index "lane" (lanes - 1) row l f₂ e₂,
      natural_column-ok "notes.csv" index "target_ns" (2 ^ 63 - 1) row t f₃ e₃,
    )

-- One round of the loop.
load_note-ok :
    (lanes index : ℕ) (r : NoteRow) (c c' : Chart) (found : List Finding)
    → r.lane < lanes
    → add_note index r c ≡ (ok c', found)
    → IsLoaded lanes c
    → IsLoaded lanes c'
      × (length c'.notes ≡ length c.notes + 1)
      × (found ≡ [] → index ≡ length c.notes → IsClean c → IsClean c')
load_note-ok lanes index r c c' found p e v =
    let (s, same, order, clean) = add_note-ok index r c c' found e in
    rw same (
      append_note-IsLoaded lanes c (note_of r s) v p order,
      (unfold append_note in omega (arith, length-append {0} c.notes (note_of r s ∷ []))),
      λ none_found at w.
          let (i, t, f) = clean none_found in
          append_note-IsClean lanes c (note_of r s) v w (i ∙ at) t f,
    )

load_notes-ok :
    (lanes index : ℕ) (rows : List Row) (c c' : Chart) (found : List Finding)
    → 0 < lanes
    → load_notes lanes index rows c ≡ (ok c', found)
    → IsLoaded lanes c
    → IsLoaded lanes c'
      × (length c'.notes ≡ length c.notes + length rows)
      × (found ≡ [] → index ≡ length c.notes → IsClean c → IsClean c')
unfolding load_notes
load_notes-ok lanes index [] c c' found p e v =
    let same : c ≡ c' = ground arith in rw (← same) (v, omega arith, λ _ _ w. w)
load_notes-ok lanes index (row ∷ rows) c c' found p e v =
    let (r, f₁, g₁, e₁, r₁, s₁) = >>=-eq-ok _ _ c' found e in
    let (c₁, f₂, g₂, e₂, r₂, s₂) = >>=-eq-ok _ _ c' g₁ r₁ in
    let (lane, quiet) = read_note-lane lanes index row r f₁ p e₁ in
    let (v₁, size, clean) = load_note-ok lanes index r c c₁ f₂ lane e₂ v in
    let (v', size', clean') = load_notes-ok lanes (suc index) rows c₁ c' g₂ p r₂ v₁ in
    (
      v',
      omega arith,
      λ none_found at w.
          let (n₁, n₂) = append-eq-nil f₁ g₁ (sym s₁ ∙ none_found) in
          let (n₃, n₄) = append-eq-nil f₂ g₂ (sym s₂ ∙ n₂) in
          clean' n₄ (omega arith) (clean n₃ at w),
    )

empty_chart-IsLoaded : (lanes : ℕ) → IsLoaded lanes (empty_chart lanes)
unfolding empty_chart
empty_chart-IsLoaded lanes = record {
  width = length-replicate lanes [];
  split = λ l. get_or-replicate lanes l [];
  calibrations = refl;
  scoreds = refl;
  in_range = tt;
  sorted = tt;
  before = tt;
}

empty_chart-IsClean : (lanes : ℕ) → IsClean (empty_chart lanes)
unfolding empty_chart
empty_chart-IsClean lanes = record { numbered = tt; windows = tt; locks = tt }

-- Notes that are loaded without a raise, for at least one lane, whatever was reported: there is one
-- for each row, they are sorted by target, their lanes are in range, each lane's list holds the
-- lane's notes in their order, and the counts are those of the two stages.
pub load_notes-IsLoaded :
    (lanes : ℕ) (rows : List Row) (c : Chart) (found : List Finding)
    → 0 < lanes
    → load_notes lanes 0 rows (empty_chart lanes) ≡ (ok c, found)
    → IsLoaded lanes c × (length c.notes ≡ length rows)
load_notes-IsLoaded lanes rows c found p e =
    let (v, size, _) =
      load_notes-ok lanes 0 rows (empty_chart lanes) c found p e (empty_chart-IsLoaded lanes) in
    let none_yet : length (empty_chart lanes).notes ≡ 0 = unfold empty_chart in refl in
    (v, omega arith)

-- When the loading neither raises nor reports anything, the ids count up from zero, each target lies
-- in its stage's half-open window, and any two notes of a lane are at least 40 ms apart.
pub load_notes-IsClean :
    (lanes : ℕ) (rows : List Row) (c : Chart)
    → 0 < lanes
    → load_notes lanes 0 rows (empty_chart lanes) ≡ (ok c, [])
    → IsClean c
load_notes-IsClean lanes rows c p e =
    let (_, _, clean) =
      load_notes-ok lanes 0 rows (empty_chart lanes) c [] p e (empty_chart-IsLoaded lanes) in
    let none_yet : length (empty_chart lanes).notes ≡ 0 = unfold empty_chart in refl in
    clean refl (sym none_yet) (empty_chart-IsClean lanes)
