-- ===== src/Bridge/Operations/Observations.antt =====
-- The dictionary of observations: its keys, and what `observe` stores under them.
use chers.Base.{
  ℕ, zero, suc, ◌+◌, ◌-◌, ◌≡◌, ◌≢◌, refl, ap, sym, subst, ◌∙◌, inl, inr, true, false, ◌||◌, none,
  some, List, [], ◌∷◌, ◌++◌, ltb, leb, length, get_elem?, drop, replicate, arith, Bool-cases,
  branch, ◌⊎◌,
}
use chers.Base.Decimal.{decimal, value, value-decimal}
use chers.Bridge.State.{
  Bridge, Observation, Outcome, done, raised, identifier, check, max_observations, max_png_bytes,
}
use chers.Bridge.Steps.Dispatching.{guarded}
use chers.Bridge.Operations.{same_codes, find_observation, observe_store}

value_zeros : (k : ℕ) (cs : List ℕ) → value 0 (replicate k b'0' ++ cs) ≡ value 0 cs
unfolding value
value_zeros zero cs = refl
value_zeros (suc k) cs = value_zeros k cs

-- The number of an identifier.
identifier-value : (n : ℕ) → value 0 (drop 4 (identifier n)) ≡ n
unfolding identifier
identifier-value n = value_zeros (6 - length (decimal n)) (decimal n) ∙ value-decimal n

identifier-injective : (m n : ℕ) → identifier m ≡ identifier n → m ≡ n
identifier-injective m n e =
    sym (identifier-value m) ∙ ap (λ (l : List ℕ). value 0 (drop 4 l)) e ∙ identifier-value n

same_codes-eq : (a b : List ℕ) → same_codes a b ≡ true → a ≡ b
same_codes-eq [] [] e = refl
same_codes-eq [] (y ∷ b) e = absurd (ground arith)
same_codes-eq (x ∷ a) [] e = absurd (ground arith)
same_codes-eq (x ∷ a) (y ∷ b) e = ground (arith, same_codes-eq a b)

pub same_codes_refl : (a : List ℕ) → same_codes a a ≡ true
same_codes_refl [] = refl
same_codes_refl (x ∷ a) = ground (arith, same_codes_refl a)

same_identifier : (m n : ℕ) → m ≢ n → same_codes (identifier m) (identifier n) ≡ false
same_identifier m n d = elim (Bool-cases (same_codes (identifier m) (identifier n))) [
  | inl same ↦ absurd (d (identifier-injective m n (same_codes-eq _ _ same)))
  | inr other ↦ other
]

find_from :
    (n i : ℕ) (os : List Observation) → find_observation (identifier (n + i)) n os ≡ get_elem? os i
unfolding find_observation
find_from n i [] = refl
find_from n zero (o ∷ os) =
    let same : n + 0 ≡ n = omega arith in rw (same, same_codes_refl (identifier n)) refl
find_from n (suc i) (o ∷ os) =
    let later : n + suc i ≡ suc n + i = omega arith in
    rw (same_identifier n (n + suc i) (omega arith)) (
      subst (λ k. find_observation (identifier k) (suc n) os ≡ get_elem? os i) (sym later)
        (find_from (suc n) i os))

find-append :
    (id : List ℕ) (n : ℕ) (os : List Observation) (o : Observation)
    → (find_observation id n os ≡ none)
      ⊎ (find_observation id n (os ++ o ∷ []) ≡ find_observation id n os)
unfolding find_observation
find-append id n [] o = inl refl
find-append id n (x ∷ os) o = elim (Bool-cases (same_codes (identifier n) id)) [
  | inl here ↦ rw here (inr refl)
  | inr past ↦ rw past (find-append id (suc n) os o)
]

get_elem?-snoc :
    (os : List Observation) (o : Observation) → get_elem? (os ++ o ∷ []) (length os) ≡ some o
get_elem?-snoc [] o = refl
get_elem?-snoc (x ∷ os) o = get_elem?-snoc os o

-- A lookup under the identifier of a number gives the observation that was stored as that number.
find_stored :
    (i : ℕ) (os : List Observation) → find_observation (identifier (suc i)) 1 os ≡ get_elem? os i
find_stored i os = let shift : suc i ≡ 1 + i = omega arith in rw shift (find_from 1 i os)

-- Each identifier was unknown before, or still names what it named.
abbrev pub Preserved : Bridge → Bridge → Type 0
Preserved b b' =
    (id : List ℕ)
    → (find_observation id 1 b.observations ≡ none)
      ⊎ (find_observation id 1 b'.observations ≡ find_observation id 1 b.observations)

-- What an outcome of the storing section says of the state before and after.
abbrev pub Stored : ℕ → List ℕ → Bridge → Outcome ℕ × Bridge → Type 0
Stored receipt png b (raised e, b') = b' ≡ b
Stored receipt png b (done n, b') =
    (find_observation (identifier n) 1 b'.observations
      ≡ some (record { receipt_ns = receipt; png = png }))
    × (find_observation (identifier n) 1 b.observations ≡ none)
    × Preserved b b'

get_elem?-past : (os : List Observation) → get_elem? os (length os) ≡ none
get_elem?-past [] = refl
get_elem?-past (x ∷ os) = get_elem?-past os

module _ (clock : ℕ → ℕ) where
  -- The section of `observe` that stores a frame: when it raises, nothing has changed; when it returns
  -- an identifier, that identifier was new, it now names the frame's receipt and image, and every
  -- identifier that was given before still names what it named.
  pub observe_store-Stored :
      (receipt : ℕ) (png : List ℕ) (b : Bridge)
      → Stored receipt png b (observe_store clock receipt png b)
  unfolding observe_store
  observe_store-Stored receipt png b =
      guarded (Stored receipt png b) (check b) b _ (λ e. refl)
        (λ fine.
          branch (Stored receipt png b)
            (leb max_observations (length b.observations)
              || ltb max_png_bytes (b.png_bytes + length png))
            _ _ (λ _. refl)
            (λ _. (
              find_stored (length b.observations) (b.observations ++ o ∷ [])
                  ∙ get_elem?-snoc b.observations o,
              find_stored (length b.observations) b.observations ∙ get_elem?-past b.observations,
              λ id. find-append id 1 b.observations o,
            )))
    where
      o : Observation
      o = record { receipt_ns = receipt; png = png }
