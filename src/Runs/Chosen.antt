-- ===== src/Runs/Chosen.antt =====
-- Which runs are selected.
use chers.Base.{
  ℕ, ◌<◌, ◌⊎◌, ◌||◌, Option, some, none, ltb, ◌==◌, ==_iff, both, ◌≡◌, inl, inr, refl, subst, ap,
  ◌∙◌, Bool, true, false, ◌&&◌, List, [], ◌∷◌, ◌++◌, Bool-cases, arith, append-nil, branch,
}
use chers.Base.Predicates.{All, All-select, Ordered, Ordered-select, select, select-append}
use chers.Runs.{
  Row, Model, Text, rank_le, sort, eligible, has_key, in_selected, is_chosen, choose, select_runs,
  configuration_le, text_le, start_time, or_max, is_some,
}
use chers.Runs.Order.{sort-All, sort-Ordered, sort-select_one}
use chers.Runs.Among.{Among, Among-select, select-All, Among-All, All-Among, Among-sort}
use chers.Runs.Rank.{same_text-eq, same_text_refl, rank_le_total, rank_le_trans, rank_le_refl}

-- The first element, if there is one.
abbrev first : List Row → List Row
first [] = []
first (r ∷ rs) = r ∷ []

abbrev keep : List Row → List Row → List Row
keep [] rs = first rs
keep (x ∷ xs) rs = x ∷ xs

-- A row of a model and an effort that may be selected.
abbrev ready : Text → Text → Row → Bool
ready model effort r = has_key model effort r && eligible r

in_selected-select :
    (m e : Text) (ss : List Row) → in_selected m e ss ≡ false → select (has_key m e) ss ≡ []
in_selected-select m e [] n = refl
in_selected-select m e (s ∷ ss) n =
    branch (λ l. l ≡ []) (has_key m e s) _ _ (λ k. absurd (ground arith))
      (λ _. in_selected-select m e ss (ground arith))

-- A filter that keeps something keeps it whatever comes.
keep_selected :
    (m e : Text) (ss rs rs' : List Row)
    → in_selected m e ss ≡ true
    → keep (select (has_key m e) ss) rs ≡ keep (select (has_key m e) ss) rs'
keep_selected m e [] rs rs' n = absurd (ground arith)
keep_selected m e (s ∷ ss) rs rs' n = elim (Bool-cases (has_key m e s)) [
  | inl k ↦ rw k refl
  | inr o ↦ rw o (keep_selected m e ss rs rs' (ground arith))
]

-- The row at the head of what is left, when it is not selected.
choose_skip :
    (m e : Text) (r : Row) (rs ss : List Row)
    → is_chosen r ss ≡ false
    → keep (select (has_key m e) ss) (select (ready m e) rs)
      ≡ keep (select (has_key m e) ss) (select (ready m e) (r ∷ rs))
choose_skip m e r rs ss n = elim (Bool-cases (ready m e r)) [
  | inr out ↦ rw out refl
  | inl is_ready ↦
      let same_m = same_text-eq r.model m (ground arith) in
      let same_e = same_text-eq r.effort e (ground arith) in
      let there : in_selected r.model r.effort ss ≡ true = ground arith in
      keep_selected m e ss _ _ (
        subst (λ k. in_selected m k ss ≡ true) same_e
          (subst (λ k. in_selected k r.effort ss ≡ true) same_m there))
]

-- The row at the head of what is left, when it is selected.
choose_take :
    (m e : Text) (r : Row) (rs ss : List Row)
    → is_chosen r ss ≡ true
    → keep (select (has_key m e) (ss ++ r ∷ [])) (select (ready m e) rs)
      ≡ keep (select (has_key m e) ss) (select (ready m e) (r ∷ rs))
choose_take m e r rs ss n = elim (Bool-cases (has_key m e r)) [
  | inr other ↦
      let none_new : select (has_key m e) (r ∷ []) ≡ [] = rw other refl in
      let out : ready m e r ≡ false = ground arith in
      rw (with_new none_new ∙ append-nil (select (has_key m e) ss), out) refl
  | inl key ↦
      let same_m = same_text-eq r.model m (ground arith) in
      let same_e = same_text-eq r.effort e (ground arith) in
      let new : in_selected r.model r.effort ss ≡ false = ground arith in
      let absent : in_selected m e ss ≡ false =
        subst (λ k. in_selected m k ss ≡ false) same_e
          (subst (λ k. in_selected k r.effort ss ≡ false) same_m new) in
      let one_new : select (has_key m e) (r ∷ []) ≡ r ∷ [] = rw key refl in
      let is_ready : ready m e r ≡ true = ground arith in
      let none = in_selected-select m e ss absent in
      rw (with_new one_new ∙ ap (λ l. l ++ r ∷ []) none, none, is_ready) refl
]
  where
    with_new :
        {l : List Row}
        → select (has_key m e) (r ∷ []) ≡ l
        → select (has_key m e) (ss ++ r ∷ []) ≡ select (has_key m e) ss ++ l
    with_new q = select-append (has_key m e) ss (r ∷ []) ∙ ap (λ k. select (has_key m e) ss ++ k) q

keep_nil : (xs : List Row) → xs ≡ keep xs []
keep_nil [] = refl
keep_nil (x ∷ xs) = refl

choose_lem :
    (m e : Text) (rs ss : List Row)
    → select (has_key m e) (choose rs ss).0 ≡ keep (select (has_key m e) ss) (select (ready m e) rs)
unfolding choose
choose_lem m e [] ss = keep_nil (select (has_key m e) ss)
choose_lem m e (r ∷ rs) ss = elim (Bool-cases (is_chosen r ss)) [
  | inl take ↦ rw take (choose_lem m e rs (ss ++ r ∷ []) ∙ choose_take m e r rs ss take)
  | inr skip ↦ rw skip (choose_lem m e rs ss ∙ choose_skip m e r rs ss skip)
]

-- Both have a start, and the first one's is before, or at the same time and in a directory that is not
-- behind the other's.
abbrev pub Before : Text → Text → Option ℕ → Option ℕ → Type 0
Before d e (some a) (some b) = (a < b) ⊎ ((a ≡ b) × (text_le d e ≡ true))
Before d e _ _ = ⊥

abbrev pub Earlier : Row → Row → Type 0
Earlier s r = Before s.directory r.directory (start_time s.started) (start_time r.started)

-- What `select_runs` makes of a run that is eligible.
pub record Elected (rows : List Row) (models : List Model) (r s : Row) : Type 0 where
  pub only : select (has_key r.model r.effort) (select_runs rows models).selected ≡ s ∷ []
  pub is_eligible : eligible s ≡ true
  pub is_run : Among s rows
  pub is_first : Earlier s r

by_starts :
    (d e : Text) (a b : Option ℕ)
    → is_some a ≡ true
    → is_some b ≡ true
    → (ltb (or_max a) (or_max b) || (or_max a == or_max b && text_le d e)) ≡ true
    → Before d e a b
by_starts d e none b p q h = absurd (cc p)
by_starts d e (some a) none p q h = absurd (cc q)
by_starts d e (some a) (some b) p q h = elim (Bool-cases (ltb a b)) [
  | inl less ↦ inl (ground (arith, less))
  | inr more ↦
      let (same, behind) = both (a == b) (text_le d e) (rest (ltb a b) more h) in
      inr ((==_iff a b).0 same, behind)
]
  where
    rest : (t : Bool) {u : Bool} → t ≡ false → (t || u) ≡ true → u ≡ true
    rest true n h = absurd (cc n)
    rest false n h = h

eligible-starts : (r : Row) → eligible r ≡ true → is_some (start_time r.started) ≡ true
unfolding eligible
eligible-starts r e = (both r.publishable (is_some (start_time r.started)) e).1

rank_le-Earlier :
    (s r : Row) → eligible s ≡ true → eligible r ≡ true → rank_le s r ≡ true → Earlier s r
unfolding rank_le
rank_le-Earlier s r p q h =
    by_starts s.directory r.directory (start_time s.started) (start_time r.started)
      (eligible-starts s p) (eligible-starts r q) h

elect :
    (rows : List Row) (models : List Model) (r : Row) (cs : List Row)
    → eligible r ≡ true
    → select (ready r.model r.effort) (sort rank_le rows) ≡ cs
    → Among r cs
    → Ordered (λ a b. rank_le a b ≡ true) cs
    → All (λ s. Among s rows) cs
    → All (λ s. ready r.model r.effort s ≡ true) cs
    → (s : Row) × Elected rows models r s
unfolding select_runs
elect rows models r [] fit e h o runs keys = absurd h
elect rows models r (s ∷ cs) fit e h o runs keys = (
  s,
  record {
    only =
        sort-select_one (configuration_le models) (has_key r.model r.effort)
          (choose (sort rank_le rows) []).0 s
          (choose_lem r.model r.effort (sort rank_le rows) [] ∙ ap first e);
    is_eligible = ground arith;
    is_run = runs.0;
    is_first = rank_le-Earlier s r (ground arith) fit (elim h [
      | inl here ↦ subst (λ t. rank_le t r ≡ true) here (rank_le_refl r)
      | inr later ↦ All-Among (λ t. rank_le s t ≡ true) r cs o.0 later
    ]);
  },
)

-- For every run that is eligible there is exactly one selected run of its model and effort: it is
-- one of the eligible runs, and it started before the run, or at the same time and with a directory
-- that is not behind the run's in the order of texts.
pub select_runs-Elected :
    (rows : List Row) (models : List Model) (r : Row)
    → Among r rows
    → eligible r ≡ true
    → (s : Row) × Elected rows models r s
select_runs-Elected rows models r h e =
    let own = ready r.model r.effort in
    let is_ready : own r ≡ true = ground (arith, same_text_refl r.model, same_text_refl r.effort) in
    elect rows models r (select own (sort rank_le rows)) e refl
      (Among-select own r (sort rank_le rows) is_ready (Among-sort rank_le r rows h))
      (Ordered-select _ own (sort rank_le rows)
        (sort-Ordered rank_le rank_le_total rank_le_trans rows))
      (All-select _ own (sort rank_le rows)
        (sort-All rank_le (λ s. Among s rows) rows (Among-All _ rows (λ s a. a))))
      (select-All own (sort rank_le rows))
