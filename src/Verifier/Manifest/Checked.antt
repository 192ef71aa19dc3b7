-- ===== src/Verifier/Manifest/Checked.antt =====
-- What result.json holds where the checks of its integers report nothing.
use chers.Base.{
  ℕ, ◌≤◌, ◌≡◌, refl, subst, ap, ◌∙◌, Bool, true, false, not, some, List, [], ◌∷◌, String, ℤ, pos,
  negsuc, eqb_ℤ, pos_part, leb_ℤ, arith,
}
use chers.Base.Predicates.{All}
use chers.Verifier.Audit.{Result, pure, plain, Audit, Label, ok, report_if, Finding}
use chers.Verifier.Audit.Laws.{>>=-eq-quiet}
use chers.Verifier.Fields.{integer, max_int64}
use chers.Verifier.Json.{
  Numbers, Value, Members, null, constant, array, boolean, whole, float, text, object, find_member,
  item, mapping, integer_value,
}
use chers.Verifier.Manifest.{
  read_lanes, check_density, check_entropy, check_times, check_settings, check_summary, check_count,
  check_counts, replayed_counts,
}
use chers.Verifier.Replay.{Summary}

item-ok :
    {F : Type 0} (key : String) (ms : Members F) (v : Value F)
    → item key ms ≡ (ok v, [])
    → find_member key ms ≡ some v
unfolding item
item-ok key ms v e = ground arith

integer_value-ok :
    {F : Type 0} (v : Value F) (label : Label) (low high n : ℤ)
    → integer_value v label low high ≡ (ok n, [])
    → (v ≡ whole n) × (leb_ℤ low n ≡ true) × (leb_ℤ n high ≡ true)
unfolding integer_value integer
integer_value-ok null label low high n e = absurd (ground arith)
integer_value-ok constant label low high n e = absurd (ground arith)
integer_value-ok (array vs) label low high n e = absurd (ground arith)
integer_value-ok (boolean b) label low high n e = absurd (ground arith)
integer_value-ok (whole m) label low high n e = ground arith
integer_value-ok (float x) label low high n e = absurd (ground arith)
integer_value-ok (text s) label low high n e = absurd (ground arith)
integer_value-ok (object ms) label low high n e = absurd (ground arith)

mapping-ok :
    {F : Type 0} (v : Value F) (label : Label) (ms : Members F)
    → mapping v label ≡ (ok ms, [])
    → v ≡ object ms
unfolding mapping
mapping-ok null label ms e = absurd (ground arith)
mapping-ok constant label ms e = absurd (ground arith)
mapping-ok (array vs) label ms e = absurd (ground arith)
mapping-ok (boolean b) label ms e = absurd (ground arith)
mapping-ok (whole m) label ms e = absurd (ground arith)
mapping-ok (float x) label ms e = absurd (ground arith)
mapping-ok (text s) label ms e = absurd (ground arith)
mapping-ok (object m) label ms e = ground arith

report_if-quiet : (b : Bool) (f : Finding) → report_if (not b) f ≡ (ok tt, []) → b ≡ true
report_if-quiet true f e = refl
report_if-quiet false f e = absurd (ground arith)

eqb_ℤ-eq : (a b : ℤ) → eqb_ℤ a b ≡ true → a ≡ b
eqb_ℤ-eq (pos a) (pos b) e = ground arith
eqb_ℤ-eq (pos a) (negsuc b) e = absurd (ground arith)
eqb_ℤ-eq (negsuc a) (pos b) e = absurd (ground arith)
eqb_ℤ-eq (negsuc a) (negsuc b) e = ground arith

-- A claimed summary holds each of the integers of the replay's.
abbrev pub Holds : {F : Type 0} → Members F → String × ℤ × ℤ → Type 0
Holds claimed (name, minimum, replayed) = find_member name claimed ≡ some (whole replayed)

check_count-Holds :
    {F : Type 0} (key : String) (claimed : Members F) (c : String × ℤ × ℤ)
    → check_count key claimed c ≡ (ok tt, [])
    → Holds claimed c
unfolding check_count
check_count-Holds key claimed (name, minimum, replayed) e =
    let (n, read, tested) = >>=-eq-quiet _ _ tt e in
    let (v, found, checked) = >>=-eq-quiet _ _ n read in
    let (shape, _, _) = integer_value-ok v _ minimum (pos max_int64) n checked in
    let same = eqb_ℤ-eq n replayed (report_if-quiet (eqb_ℤ n replayed) _ tested) in
    item-ok name claimed v found ∙ ap some shape ∙ ap (λ k. some (whole k)) same

check_counts-Holds :
    {F : Type 0} (key : String) (claimed : Members F) (cs : List (String × ℤ × ℤ))
    → check_counts key claimed cs ≡ (ok tt, [])
    → All (Holds claimed) cs
unfolding check_counts
check_counts-Holds key claimed [] e = tt
check_counts-Holds key claimed (c ∷ cs) e =
    let (_, first, rest) = >>=-eq-quiet _ _ tt e in
    (check_count-Holds key claimed c first, check_counts-Holds key claimed cs rest)

-- The manifest has an object under a key that holds the integers of a summary.
abbrev pub Claims : {F : Type 0} → Members F → String → Summary → Type 0
Claims {F} manifest key u =
    (claimed : Members F) × (find_member key manifest ≡ some (object claimed))
    × All (Holds claimed) (replayed_counts u)

ok-injective : (m n : ℕ) → ◌≡◌ {A = Result ℕ} (ok m) (ok n) → m ≡ n
ok-injective m n e = cc

module _ (numbers : Numbers) where
  open numbers use {Float}

  pub check_summary-Claims :
      (key : String) (manifest : Members Float) (u : Summary)
      → check_summary numbers key manifest u ≡ (ok tt, [])
      → Claims manifest key u
  unfolding check_summary
  check_summary-Claims key manifest u e =
      let (v, found, e₁) = >>=-eq-quiet _ _ tt e in
      let (claimed, shape, e₂) = >>=-eq-quiet _ _ tt e₁ in
      let (_, counts, _) = >>=-eq-quiet _ _ tt e₂ in
      (
        claimed,
        item-ok key manifest v found ∙ ap some (mapping-ok v _ claimed shape),
        check_counts-Holds key claimed (replayed_counts u) counts,
      )

  in_range :
      (n : ℤ) (lanes : ℕ)
      → leb_ℤ (pos 2) n ≡ true
      → leb_ℤ n (pos 16) ≡ true
      → ◌≡◌ {A = Audit ℕ} (ok (pos_part n), []) (ok lanes, [])
      → (2 ≤ lanes) × (lanes ≤ 16)
  in_range (pos n) lanes low high e = (ground arith, ground arith)
  in_range (negsuc n) lanes low high e = absurd (ground arith)

  read_lanes-range :
      (manifest : Members Float) (lanes : ℕ)
      → read_lanes numbers manifest ≡ (ok lanes, [])
      → (2 ≤ lanes) × (lanes ≤ 16)
  unfolding read_lanes
  read_lanes-range manifest lanes e =
      let (v, _, e₁) = >>=-eq-quiet (item "lanes" manifest) _ lanes e in
      let (n, read, last) =
        >>=-eq-quiet (integer_value v (plain "lanes") (pos 2) (pos 16)) (λ k. pure (pos_part k))
          lanes e₁ in
      let (_, low, high) = integer_value-ok v _ (pos 2) (pos 16) n read in
      in_range n lanes low high last

  pub check_settings-range :
      (manifest : Members Float) (lanes : ℕ)
      → check_settings numbers manifest ≡ (ok lanes, [])
      → (2 ≤ lanes) × (lanes ≤ 16)
  unfolding check_settings
  check_settings-range manifest lanes e =
      let (n, read, e₁) = >>=-eq-quiet (read_lanes numbers manifest) _ lanes e in
      let (_, _, e₂) = >>=-eq-quiet (check_density numbers n manifest) _ lanes e₁ in
      let (_, _, e₃) = >>=-eq-quiet (check_entropy numbers manifest) _ lanes e₂ in
      let (_, _, last) = >>=-eq-quiet (check_times numbers manifest) _ lanes e₃ in
      let same = ap (λ (m : Audit ℕ). m.0) last in
      subst (λ k. (2 ≤ k) × (k ≤ 16)) (ok-injective n lanes same) (read_lanes-range manifest n read)
