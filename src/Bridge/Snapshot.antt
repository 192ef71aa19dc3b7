-- ===== src/Bridge/Snapshot.antt =====
-- The counts of `snapshot`: how many events of each type the log holds.
use chers.Base.{
  ℕ, ◌+◌, ◌≡◌, refl, Bool, true, false, List, [], ◌∷◌, if◌then◌else◌, Bool-cases, inl, inr, arith,
  ◌∙◌, ap, sym, subst, ◌-◌, length,
}
use chers.Base.Predicates.{count}
use chers.Bridge.State.{
  Bridge, Event, error, observation, start, action_proposed, action_dropped, action_sent,
}

-- `event["type"]`
pub data EventType : Type 0 where
  error_type observation_type start_type proposed_type dropped_type sent_type : EventType

abbrev pub event_type : Event → EventType
event_type (error _ _) = error_type
event_type (observation _ _ _) = observation_type
event_type (start _) = start_type
event_type (action_proposed _ _ _ _ _ _) = proposed_type
event_type (action_dropped _ _) = dropped_type
event_type (action_sent _ _ _ _ _) = sent_type

abbrev pub same_type : EventType → EventType → Bool
same_type error_type error_type = true
same_type observation_type observation_type = true
same_type start_type start_type = true
same_type proposed_type proposed_type = true
same_type dropped_type dropped_type = true
same_type sent_type sent_type = true
same_type _ _ = false

-- `counts.get(type, 0)`
abbrev pub count_of : EventType → List (EventType × ℕ) → ℕ
count_of t [] = 0
count_of t ((u, n) ∷ counts) = if same_type u t then n else count_of t counts

-- `counts[type] = counts.get(type, 0) + 1`: a new type goes to the end.
abbrev pub add_one : EventType → List (EventType × ℕ) → List (EventType × ℕ)
add_one t [] = (t, 1) ∷ []
add_one t ((u, n) ∷ counts) =
    if same_type u t then (u, n + 1) ∷ counts else (u, n) ∷ add_one t counts

-- The loop over the events.
unfoldable pub count_types : List Event → List (EventType × ℕ) → List (EventType × ℕ)
count_types [] counts = counts
count_types (e ∷ es) counts = count_types es (add_one (event_type e) counts)

-- The numbers of `snapshot`, without the texts.
pub record Snapshot : Type 0 where
  pub frames_received : ℕ
  pub receipt_gap_count : ℕ
  pub receipt_gaps_over_16ms : ℕ
  pub observations_returned : ℕ
  pub pending_actions : ℕ
  pub counts : List (EventType × ℕ)

unfoldable pub snapshot : Bridge → Snapshot
unfolding count_types
snapshot b = record {
  frames_received = b.frames;
  receipt_gap_count = b.frames - 1;
  receipt_gaps_over_16ms = b.gaps_over_16ms;
  observations_returned = length b.observations;
  pending_actions = length b.pending;
  counts = count_types b.events [];
}

same_type_refl : (t : EventType) → same_type t t ≡ true
same_type_refl error_type = refl
same_type_refl observation_type = refl
same_type_refl start_type = refl
same_type_refl proposed_type = refl
same_type_refl dropped_type = refl
same_type_refl sent_type = refl

count_of-add_one_self :
    (t : EventType) (counts : List (EventType × ℕ))
    → count_of t (add_one t counts) ≡ count_of t counts + 1
count_of-add_one_self t [] = rw (same_type_refl t) refl
count_of-add_one_self t ((u, n) ∷ counts) = ground (arith, count_of-add_one_self t counts)

same_type-eq : (t u : EventType) → same_type t u ≡ true → t ≡ u
same_type-eq error_type u e = ground arith
same_type-eq observation_type u e = ground arith
same_type-eq start_type u e = ground arith
same_type-eq proposed_type u e = ground arith
same_type-eq dropped_type u e = ground arith
same_type-eq sent_type u e = ground arith

count_of-add_one_other :
    (t u : EventType) (counts : List (EventType × ℕ))
    → same_type u t ≡ false
    → count_of t (add_one u counts) ≡ count_of t counts
count_of-add_one_other t u [] e = rw e refl
count_of-add_one_other t u ((v, n) ∷ counts) e = elim (Bool-cases (same_type v u)) [
  | inl here ↦ rw (here, same_type-eq v u here, e) refl
  | inr past ↦
      rw past (ap (λ (k : ℕ). if same_type v t then n else k) (count_of-add_one_other t u counts e))
]

count_types_lem :
    (t : EventType) (es : List Event) (counts : List (EventType × ℕ))
    → count_of t (count_types es counts)
      ≡ count_of t counts + count (λ e. same_type (event_type e) t) es
unfolding count_types
count_types_lem t [] counts = omega arith
count_types_lem t (e ∷ es) counts = elim (Bool-cases (same_type (event_type e) t)) [
  | inl own ↦
      let added =
        subst (λ u. count_of t (add_one u counts) ≡ count_of t counts + 1)
          (sym (same_type-eq (event_type e) t own)) (count_of-add_one_self t counts) in
      rw own (omega (arith, count_types_lem t es (add_one (event_type e) counts), added))
  | inr other ↦ rw other (
      count_types_lem t es (add_one (event_type e) counts)
      ∙ ap (λ (k : ℕ). k + count (λ d. same_type (event_type d) t) es)
          (count_of-add_one_other t (event_type e) counts other))
]

-- The snapshot of any bridge counts, for each type, the events of this type in its log; a type that
-- has no entry has no event.
pub snapshot-counts :
    (b : Bridge) (t : EventType)
    → count_of t (snapshot b).counts ≡ count (λ e. same_type (event_type e) t) b.events
unfolding snapshot
snapshot-counts b t = count_types_lem t b.events [] ∙ omega arith
