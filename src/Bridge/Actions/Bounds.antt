-- ===== src/Bridge/Actions/Bounds.antt =====
-- What the validation of `submit` lets through.
use chers.Base.{
  ℕ, suc, ◌≤◌, ◌<◌, ◌≡◌, refl, Bool, false, List, [], ◌∷◌, pos, negsuc, ltb, length, if◌then◌else◌,
  arith, sym, ◌∙◌, subst, not_ltb→le, ap, Bool-cases, inl, inr,
}
use chers.Base.Predicates.{All}
use chers.Bridge.State.{Outcome, done, raised, max_actions, bad_actions}
use chers.Bridge.Actions.{
  Floats, LaneValue, DelayValue, ActionValue, ActionsValue, text, other_lane, float, other_delay,
  action, other_action, list, other_actions, bind, upper, lane_of_upper, lane_index, delay_ns,
  validate_action, validate_all, validate,
}

-- A validated action: its lane is one of the workload's and its delay at most a second.
abbrev pub InRange : ℕ → ℕ × ℕ → Type 0
InRange lanes (lane, delay) = (lane < lanes) × (delay ≤ 1_000_000_000)

-- A chain of outcomes ends well only if both links do.
bind-done {ℓ κ} :
    {A : Type ℓ} {B : Type κ} (o : Outcome A) (f : A → Outcome B) (b : B)
    → bind o f ≡ done b
    → (a : A) × ((o ≡ done a) × (f a ≡ done b))
bind-done (done a) f b e = (a, (refl, e))
bind-done (raised x) f b e = absurd (ground arith)

done-injective {ℓ} : {A : Type ℓ} {a b : A} → done a ≡ done b → a ≡ b
done-injective {a} e = ap (λ o. elim o [ done x ↦ x | raised _ ↦ a ]) e

lane_of_upper-lt : (lanes : ℕ) (cs : List ℕ) (l : ℕ) → lane_of_upper lanes cs ≡ done l → l < lanes
lane_of_upper-lt lanes [] l e = absurd (ground arith)
lane_of_upper-lt lanes (d ∷ []) l e = ground arith
lane_of_upper-lt lanes (d ∷ c ∷ cs) l e = absurd (ground arith)

lane_index-lt :
    (other : ℕ → List ℕ) (lanes : ℕ) (v : LaneValue) (l : ℕ)
    → lane_index other lanes v ≡ done l
    → l < lanes
unfolding lane_index
lane_index-lt other lanes (text []) l e = absurd (ground arith)
lane_index-lt other lanes (text (c ∷ [])) l e = lane_of_upper-lt lanes (upper other c) l e
lane_index-lt other lanes (text (c ∷ d ∷ cs)) l e = absurd (ground arith)
lane_index-lt other lanes (LaneValue.whole (pos n)) l e = ground arith
lane_index-lt other lanes (LaneValue.whole (negsuc n)) l e = absurd (ground arith)
lane_index-lt other lanes other_lane l e = absurd (ground arith)

-- How many actions a call hands in.
abbrev pub handed_in : (floats : Floats) → ActionsValue (floats.Float) → ℕ
handed_in floats (list as_) = length as_
handed_in floats other_actions = 0

module _ (floats : Floats) (other_upper : ℕ → List ℕ) where
  open floats use {Float, is_finite, in_delay_range, nanoseconds, converts}

  delay_ns-le :
      (v : DelayValue Float) (d : ℕ) → delay_ns floats other_upper v ≡ done d → d ≤ 1_000_000_000
  unfolding delay_ns
  delay_ns-le (float x) d e = ground (arith, floats.nanoseconds-le x)
  delay_ns-le (DelayValue.whole (pos n)) d e = ground arith
  delay_ns-le (DelayValue.whole (negsuc n)) d e = absurd (ground arith)
  delay_ns-le other_delay d e = absurd (ground arith)

  validate_action-InRange :
      (lanes : ℕ) (a : ActionValue Float) (v : ℕ × ℕ)
      → validate_action floats other_upper lanes a ≡ done v
      → InRange lanes v
  unfolding validate_action
  validate_action-InRange lanes other_action v e = absurd (ground arith)
  validate_action-InRange lanes (action lane delay) (l, d) e =
      let (l', (el, rest)) = bind-done (lane_index other_upper lanes lane) _ (l, d) e in
      let (d', (ed, same)) = bind-done (delay_ns floats other_upper delay) _ (l, d) rest in
      let pair = done-injective same in
      (
        subst (λ n. n < lanes) (ap (λ (p : ℕ × ℕ). p.0) pair)
            (lane_index-lt other_upper lanes lane l' el),
        subst (λ n. n ≤ 1_000_000_000) (ap (λ (p : ℕ × ℕ). p.1) pair) (delay_ns-le delay d' ed),
      )

  validate_all-InRange :
      (lanes : ℕ) (as_ : List (ActionValue Float)) (vs : List (ℕ × ℕ))
      → validate_all floats other_upper lanes as_ ≡ done vs
      → All (InRange lanes) vs × (length vs ≡ length as_)
  unfolding validate_all
  validate_all-InRange lanes [] vs e =
      subst (λ xs. All (InRange lanes) xs × (length xs ≡ 0)) (done-injective e) (tt, refl)
  validate_all-InRange lanes (a ∷ as_) vs e =
      let (v, (ev, rest)) = bind-done (validate_action floats other_upper lanes a) _ vs e in
      let (ws, (ew, same)) = bind-done (validate_all floats other_upper lanes as_) _ vs rest in
      let (ih, size) = validate_all-InRange lanes as_ ws ew in
      subst (λ xs. All (InRange lanes) xs × (length xs ≡ suc (length as_))) (done-injective same)
        ((validate_action-InRange lanes a v ev, ih), ap suc size)

  -- The validation of a list that is not too long.
  within_limit :
      {A : Type 0} {t : Bool} (x : Outcome A) {y : Outcome A} {v : A}
      → t ≡ false
      → (if t then x else y) ≡ done v
      → y ≡ done v
  within_limit {A} {t} x {y} {v} f e = sym (ap (λ u. if u then x else y) f) ∙ e

  pub validate-length :
      (lanes : ℕ) (v : ActionsValue Float) (vs : List (ℕ × ℕ))
      → validate floats other_upper lanes v ≡ done vs
      → length vs ≡ handed_in floats v
  unfolding validate
  validate-length lanes other_actions vs e = absurd (ground arith)
  validate-length lanes (list as_) vs e = elim (Bool-cases (ltb max_actions (length as_))) [
    | inl long ↦ absurd (ground arith)
    | inr short ↦ (validate_all-InRange lanes as_ vs (within_limit (raised bad_actions) short e)).1
  ]

  -- A list of actions that `submit` accepts has at most 128 entries, and every one of them a lane of
  -- the workload and a delay of at most 1000 ms.
  pub validate-InRange :
      (lanes : ℕ) (v : ActionsValue Float) (vs : List (ℕ × ℕ))
      → validate floats other_upper lanes v ≡ done vs
      → All (InRange lanes) vs × (length vs ≤ max_actions)
  unfolding validate
  validate-InRange lanes other_actions vs e = absurd (ground arith)
  validate-InRange lanes (list as_) vs e = elim (Bool-cases (ltb max_actions (length as_))) [
    | inl long ↦ absurd (ground arith)
    | inr short ↦
        let (ranges, size) =
          validate_all-InRange lanes as_ vs (within_limit (raised bad_actions) short e) in
        (ranges, omega (arith, size, not_ltb→le _ _ short))
  ]
