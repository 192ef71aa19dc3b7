-- ===== src/Runs/Order.antt =====
-- Sorting by a Boolean order, and what it does to filters.
use chers.Base.{
  ◌≡◌, refl, ◌∙◌, ap, inl, inr, Bool, true, false, List, [], ◌∷◌, if◌then◌else◌, Bool-cases, arith,
  branch,
}
use chers.Base.Predicates.{All, All-map, Ordered, select}
use chers.Runs.{insert, sort}

module _ {A : Type 0} (le : A → A → Bool) where
  -- All of a sorted list's elements are those of the list.
  pub insert-All : (P : A → Type 0) (x : A) (ys : List A) → P x → All P ys → All P (insert le x ys)
  insert-All P x [] p h = (p, tt)
  insert-All P x (y ∷ ys) p h =
      branch (All P) (le x y) _ _ (λ _. (p, h)) (λ _. (h.0, insert-All P x ys p h.1))

  pub sort-All : (P : A → Type 0) (xs : List A) → All P xs → All P (sort le xs)
  unfolding sort
  sort-All P [] h = tt
  sort-All P (x ∷ xs) h = insert-All P x (sort le xs) h.0 (sort-All P xs h.1)

  insert-Ordered :
      ((x y : A) → le x y ≡ false → le y x ≡ true)
      → ((x y z : A) → le x y ≡ true → le y z ≡ true → le x z ≡ true)
      → (x : A) (ys : List A) → Ordered (λ a b. le a b ≡ true) ys
      → Ordered (λ a b. le a b ≡ true) (insert le x ys)
  insert-Ordered total trans x [] o = (tt, tt)
  insert-Ordered total trans x (y ∷ ys) o =
      branch (Ordered (λ a b. le a b ≡ true)) (le x y) _ _
        (λ first. ((first, All-map _ _ ys (λ z. trans x y z first) o.0), o))
        (λ later. (
          insert-All (λ z. le y z ≡ true) x ys (total x y later) o.0,
          insert-Ordered total trans x ys o.1,
        ))

  pub sort-Ordered :
      ((x y : A) → le x y ≡ false → le y x ≡ true)
      → ((x y z : A) → le x y ≡ true → le y z ≡ true → le x z ≡ true)
      → (xs : List A) → Ordered (λ a b. le a b ≡ true) (sort le xs)
  unfolding sort
  sort-Ordered total trans [] = tt
  sort-Ordered total trans (x ∷ xs) =
      insert-Ordered total trans x (sort le xs) (sort-Ordered total trans xs)

  -- A filter that leaves out the new element, or keeps it alone.
  insert-select_out :
      (p : A → Bool) (x : A) (ys : List A) → p x ≡ false → select p (insert le x ys) ≡ select p ys
  insert-select_out p x [] e = rw e refl
  insert-select_out p x (y ∷ ys) e =
      branch (λ l. select p l ≡ select p (y ∷ ys)) (le x y) _ _ (λ _. rw e refl)
        (λ _. ap (λ l. if p y then y ∷ l else l) (insert-select_out p x ys e))

  insert-select_alone :
      (p : A → Bool) (x : A) (ys : List A)
      → p x ≡ true
      → select p ys ≡ []
      → select p (insert le x ys) ≡ x ∷ []
  insert-select_alone p x [] e n = rw e refl
  insert-select_alone p x (y ∷ ys) e n = elim (Bool-cases (p y)) [
    | inl kept ↦ absurd (ground arith)
    | inr out ↦
        branch (λ l. select p l ≡ x ∷ []) (le x y) _ _ (λ _. rw (e, out) (ground arith))
          (λ _. rw out (insert-select_alone p x ys e (ground arith)))
  ]

  -- A filter that leaves nothing, or one element, leaves the same of the sorted list.
  pub sort-select_none :
      (p : A → Bool) (xs : List A) → select p xs ≡ [] → select p (sort le xs) ≡ []
  unfolding sort
  sort-select_none p [] n = refl
  sort-select_none p (x ∷ xs) n = elim (Bool-cases (p x)) [
    | inl kept ↦ absurd (ground arith)
    | inr out ↦ insert-select_out p x (sort le xs) out ∙ sort-select_none p xs (ground arith)
  ]

  pub sort-select_one :
      (p : A → Bool) (xs : List A) (s : A) → select p xs ≡ s ∷ [] → select p (sort le xs) ≡ s ∷ []
  unfolding sort
  sort-select_one p [] s n = absurd (ground arith)
  sort-select_one p (x ∷ xs) s n = elim (Bool-cases (p x)) [
    | inl kept ↦
        let none_left : select p xs ≡ [] = ground arith in
        let same : x ≡ s = ground arith in
        insert-select_alone p x (sort le xs) kept (sort-select_none p xs none_left)
        ∙ ap (λ y. y ∷ []) same
    | inr out ↦ insert-select_out p x (sort le xs) out ∙ sort-select_one p xs s (ground arith)
  ]
