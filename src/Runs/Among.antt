-- ===== src/Runs/Among.antt =====
-- The elements of a list, and what filters and sorting do to them.
use chers.Base.{
  ◌≡◌, ◌⊎◌, inl, inr, refl, sym, subst, ap, ◌∙◌, Bool, true, false, List, [], ◌∷◌, Bool-cases,
  branch,
}
use chers.Base.Predicates.{All, select}
use chers.Runs.{insert, sort}

abbrev pub Among : {A : Type 0} → A → List A → Type 0
Among x [] = ⊥
Among x (y ∷ ys) = (x ≡ y) ⊎ Among x ys

module _ {A : Type 0} where
  pub Among-select :
      (p : A → Bool) (x : A) (xs : List A) → p x ≡ true → Among x xs → Among x (select p xs)
  Among-select p x [] e h = absurd h
  Among-select p x (y ∷ ys) e h = elim (Bool-cases (p y)) [
    | inl kept ↦
        rw kept (elim h [ inl here ↦ inl here | inr later ↦ inr (Among-select p x ys e later) ])
    | inr out ↦ rw out (elim h [
      | inl here ↦ absurd (clash (p x) e (ap p here ∙ out))
      | inr later ↦ Among-select p x ys e later
    ])
  ]
    where
      clash : (b : Bool) → b ≡ true → b ≡ false → ⊥
      clash b f g = cc

  pub select-All : (p : A → Bool) (xs : List A) → All (λ x. p x ≡ true) (select p xs)
  select-All p [] = tt
  select-All p (x ∷ xs) = elim (Bool-cases (p x)) [
    | inl kept ↦ rw kept (kept, select-All p xs)
    | inr out ↦ rw out (select-All p xs)
  ]

  pub Among-All : (P : A → Type 0) (xs : List A) → ((x : A) → Among x xs → P x) → All P xs
  Among-All P [] f = tt
  Among-All P (x ∷ xs) f = (f x (inl refl), Among-All P xs (λ y h. f y (inr h)))

  pub All-Among : (P : A → Type 0) (x : A) (xs : List A) → All P xs → Among x xs → P x
  All-Among P x [] h a = absurd a
  All-Among P x (y ∷ ys) h (inl e) = subst P (sym e) h.0
  All-Among P x (y ∷ ys) h (inr l) = All-Among P x ys h.1 l

  Among-insert_new : (le : A → A → Bool) (x : A) (ys : List A) → Among x (insert le x ys)
  Among-insert_new le x [] = inl refl
  Among-insert_new le x (y ∷ ys) =
      branch (Among x) (le x y) _ _ (λ _. inl refl) (λ _. inr (Among-insert_new le x ys))

  Among-insert_old :
      (le : A → A → Bool) (x z : A) (ys : List A) → Among z ys → Among z (insert le x ys)
  Among-insert_old le x z [] h = absurd h
  Among-insert_old le x z (y ∷ ys) h =
      branch (Among z) (le x y) _ _ (λ _. inr h)
        (λ _. elim h [ inl here ↦ inl here | inr later ↦ inr (Among-insert_old le x z ys later) ])

  pub Among-sort : (le : A → A → Bool) (x : A) (xs : List A) → Among x xs → Among x (sort le xs)
  unfolding sort
  Among-sort le x [] h = absurd h
  Among-sort le x (y ∷ ys) (inl e) =
      subst (λ z. Among z (insert le y (sort le ys))) (sym e) (Among-insert_new le y (sort le ys))
  Among-sort le x (y ∷ ys) (inr h) = Among-insert_old le y x (sort le ys) (Among-sort le x ys h)
