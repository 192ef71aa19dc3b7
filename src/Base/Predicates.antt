-- ===== src/Base/Predicates.antt =====
-- Predicates on the elements of a list, in order, and how they pass through `++` and filters.
use chers.Base.Tests.{if◌then◌else◌, Bool-cases}
use Prim.Native.Nat.{ℕ, ◌+◌}
use mathlib.Core.Path.{◌≡◌, refl}
use mathlib.Core.Logic.{inl, inr}
use mathlib.Core.Bool.{Bool}
use mathlib.Core.List.{List, [], ◌∷◌, ◌++◌}
use native.Mathlib.Omega.{arith}

module _ {ℓ κ} {A : Type ℓ} where
  abbrev pub All : (A → Type κ) → List A → Type κ
  All P [] = Unit
  All P (x ∷ xs) = P x × All P xs

  -- `R` holds from each element to each later one.
  abbrev pub Ordered : (A → A → Type κ) → List A → Type κ
  Ordered R [] = Unit
  Ordered R (x ∷ xs) = All (R x) xs × Ordered R xs

module _ {ℓ} {A : Type ℓ} where
  -- The elements that pass a test.
  abbrev pub select : (A → Bool) → List A → List A
  select p [] = []
  select p (x ∷ xs) = if p x then x ∷ select p xs else select p xs

  abbrev pub count : (A → Bool) → List A → ℕ
  count p [] = 0
  count p (x ∷ xs) = if p x then 1 + count p xs else count p xs

module _ {ℓ κ} {A : Type ℓ} where
  pub All-append : (P : A → Type κ) (xs ys : List A) → All P xs → All P ys → All P (xs ++ ys)
  All-append P [] ys h k = k
  All-append P (x ∷ xs) ys h k = (h.0, All-append P xs ys h.1 k)

  pub All-left : (P : A → Type κ) (xs ys : List A) → All P (xs ++ ys) → All P xs
  All-left P [] ys h = tt
  All-left P (x ∷ xs) ys h = (h.0, All-left P xs ys h.1)

  pub All-right : (P : A → Type κ) (xs ys : List A) → All P (xs ++ ys) → All P ys
  All-right P [] ys h = h
  All-right P (x ∷ xs) ys h = All-right P xs ys h.1

  pub All-map {ρ} :
      (P : A → Type κ) (Q : A → Type ρ) (xs : List A) → ((x : A) → P x → Q x) → All P xs → All Q xs
  All-map P Q [] f h = tt
  All-map P Q (x ∷ xs) f h = (f x h.0, All-map P Q xs f h.1)

  pub All-select : (P : A → Type κ) (p : A → Bool) (xs : List A) → All P xs → All P (select p xs)
  All-select P p [] h = tt
  All-select P p (x ∷ xs) h = elim (Bool-cases (p x)) [
    | inl e ↦ rw e (h.0, All-select P p xs h.1)
    | inr e ↦ rw e (All-select P p xs h.1)
  ]

  pub Ordered-snoc :
      (R : A → A → Type κ) (xs : List A) (y : A)
      → Ordered R xs
      → All (λ x. R x y) xs
      → Ordered R (xs ++ y ∷ [])
  Ordered-snoc R [] y o h = (tt, tt)
  Ordered-snoc R (x ∷ xs) y o h =
      (All-append (R x) xs (y ∷ []) o.0 (h.0, tt), Ordered-snoc R xs y o.1 h.1)

  pub Ordered-right : (R : A → A → Type κ) (xs ys : List A) → Ordered R (xs ++ ys) → Ordered R ys
  Ordered-right R [] ys o = o
  Ordered-right R (x ∷ xs) ys o = Ordered-right R xs ys o.1

  pub Ordered-select :
      (R : A → A → Type κ) (p : A → Bool) (xs : List A) → Ordered R xs → Ordered R (select p xs)
  Ordered-select R p [] o = tt
  Ordered-select R p (x ∷ xs) o = elim (Bool-cases (p x)) [
    | inl e ↦ rw e (All-select (R x) p xs o.0, Ordered-select R p xs o.1)
    | inr e ↦ rw e (Ordered-select R p xs o.1)
  ]

module _ {ℓ} {A : Type ℓ} where
  pub select-append :
      (p : A → Bool) (xs ys : List A) → select p (xs ++ ys) ≡ select p xs ++ select p ys
  select-append p [] ys = refl
  select-append p (x ∷ xs) ys = elim (Bool-cases (p x)) [
    | inl e ↦ rw (e, select-append p xs ys)
    | inr e ↦ rw (e, select-append p xs ys)
  ]

  pub count-append : (p : A → Bool) (xs ys : List A) → count p (xs ++ ys) ≡ count p xs + count p ys
  count-append p [] ys = omega arith
  count-append p (x ∷ xs) ys = ground (arith, count-append p xs ys)

module _ {ℓ} {A : Type ℓ} where
  -- The sum of a weight over a list.
  abbrev pub sum_by : (A → ℕ) → List A → ℕ
  sum_by f [] = 0
  sum_by f (x ∷ xs) = f x + sum_by f xs

module _ {ℓ} {A : Type ℓ} where
  pub sum_by-snoc : (f : A → ℕ) (xs : List A) (y : A) → sum_by f (xs ++ y ∷ []) ≡ sum_by f xs + f y
  sum_by-snoc f [] y = omega arith
  sum_by-snoc f (x ∷ xs) y = omega (arith, sum_by-snoc f xs y)
