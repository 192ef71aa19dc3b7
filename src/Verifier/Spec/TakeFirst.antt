-- ===== src/Verifier/Spec/TakeFirst.antt =====
-- How the first passing element of a list stands to a prefix that fails, to a lane's part of the
-- list, and to what the list holds.
use chers.Base.{
  subst, ◌+◌, ◌≡◌, refl, Bool, true, false, ◌&&◌, Option, none, some, List, [], ◌∷◌, ◌++◌, inl, inr,
  if◌then◌else◌, Bool-cases, arith,
}
use chers.Base.Predicates.{All, select, count}
use chers.Verifier.Spec.{take_first, prepend}

module _ {ℓ} {A : Type ℓ} where
  abbrev pub Fails : (A → Bool) → A → Type 0
  Fails p x = p x ≡ false

  pub take_first-none : (p : A → Bool) (xs : List A) → All (Fails p) xs → take_first p xs ≡ none
  take_first-none p [] h = refl
  take_first-none p (x ∷ xs) h = rw (h.0, take_first-none p xs h.1)

  -- A prefix that fails is passed over, and stays.
  pub take_first-prefix :
      (p : A → Bool) (xs : List A) (y : A) (ys : List A)
      → All (Fails p) xs
      → p y ≡ true
      → take_first p (xs ++ y ∷ ys) ≡ some (y, xs ++ ys)
  take_first-prefix p [] y ys h e = rw e
  take_first-prefix p (x ∷ xs) y ys h e = rw (h.0, take_first-prefix p xs y ys h.1 e)

  pub take_first-select-none :
      (p q : A → Bool) (xs : List A)
      → take_first q (select p xs) ≡ none
      → take_first (λ x. p x && q x) xs ≡ none
  take_first-select-none p q [] e = refl
  take_first-select-none p q (x ∷ xs) e = ground (arith, take_first-select-none p q xs)

  pub record Took (p q : A → Bool) (xs : List A) (y : A) (rest : List A) : Type ℓ where
    pub left : List A
    pub taken : take_first (λ x. p x && q x) xs ≡ some (y, left)
    pub passed : p y ≡ true
    pub of_selected : select p left ≡ rest
    pub of_others : (r : A → Bool) → r y ≡ false → select r left ≡ select r xs
    pub counted : (r : A → Bool) → count r xs ≡ count r left + (if r y then 1 else 0)

  Took-here :
      (p q : A → Bool) (x : A) (xs : List A)
      → p x ≡ true
      → q x ≡ true
      → Took p q (x ∷ xs) x (select p xs)
  Took-here p q x xs a b = record {
    left = xs;
    taken = rw (a, b);
    passed = a;
    of_selected = refl;
    of_others = λ r h. rw h;
    counted = λ r. ground arith;
  }

  Took-later :
      (p q : A → Bool) (x : A) (xs : List A) (y : A) (rest rest' : List A)
      → (p x && q x) ≡ false
      → ((ys : List A) → select p ys ≡ rest → select p (x ∷ ys) ≡ rest')
      → Took p q xs y rest
      → Took p q (x ∷ xs) y rest'
  Took-later p q x xs y rest rest' f s t = record {
    left = x ∷ t.left;
    taken = rw (f, t.taken);
    passed = t.passed;
    of_selected = s t.left t.of_selected;
    of_others = λ r h. ground (arith, t.of_others r h);
    counted = λ r. ground (arith, t.counted r);
  }

  prepend-eq-some :
      (x y : A) (rest : List A) (o : Option (A × List A))
      → prepend x o ≡ some (y, rest)
      → (ys : List A) × (o ≡ some (y, ys)) × (x ∷ ys ≡ rest)
  prepend-eq-some x y rest none e = absurd (cc)
  prepend-eq-some x y rest (some (z, zs)) e = (zs, ground arith, ground arith)

  taken_head :
      (q : A → Bool) (x y : A) (zs rest : List A)
      → q x ≡ true
      → take_first q (x ∷ zs) ≡ some (y, rest)
      → (x ≡ y) × (zs ≡ rest)
  taken_head q x y zs rest h e = ground arith

  -- What a second test takes of the elements that pass a first is what both take of the list.
  pub take_first-select :
      (p q : A → Bool) (xs : List A) (y : A) (rest : List A)
      → take_first q (select p xs) ≡ some (y, rest)
      → Took p q xs y rest
  take_first-select p q [] y rest e = absurd (cc)
  take_first-select p q (x ∷ xs) y rest e = elim (Bool-cases (p x)) [
    | inr out ↦
        Took-later p q x xs y rest rest (rw out) (λ ys h. rw out h)
          (take_first-select p q xs y rest (rw out at e))
    | inl within ↦ elim (Bool-cases (q x)) [
      | inl hit ↦
          let (same, remains) = taken_head q x y (select p xs) rest hit (rw within at e) in
          subst (λ z. Took p q (x ∷ xs) z rest) same
            (subst (λ r. Took p q (x ∷ xs) x r) remains (Took-here p q x xs within hit))
      | inr miss ↦
          let e' : prepend x (take_first q (select p xs)) ≡ some (y, rest) = ground arith in
          let (ys, o, same) = prepend-eq-some x y rest (take_first q (select p xs)) e' in
          Took-later p q x xs y ys rest (rw (within, miss)) (λ zs h. rw (within, h) same)
            (take_first-select p q xs y ys o)
    ]
  ]
