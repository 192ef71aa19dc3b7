-- ===== src/Base/Decimal.antt =====
-- Decimal numerals as lists of code points, and how they are printed.
use chers.Base.Tests.{◌==◌, ltb, leb, if◌then◌else◌, Bool-cases}
use Prim.Native.Nat.{ℕ, zero, suc, ◌+◌, ◌-◌, ◌*◌, ◌/◌, ◌%◌, ◌≤◌, ◌<◌}
use Prim.Native.Char.{code}
use Prim.Native.String.{String}
use mathlib.Core.Path.{◌≡◌, refl, sym, ap, ◌∙◌}
use mathlib.Core.Logic.{inl, inr}
use mathlib.Core.Bool.{Bool, true, false, ◌&&◌}
use mathlib.Core.List.{List, [], ◌∷◌, ◌++◌, append-nil, append_assoc}
use native.Mathlib.Omega.{arith}

-- The code points of a text.
abbrev pub codes : String → List ℕ
codes String.[] = []
codes (String.◌∷◌ c s) = code c ∷ codes s

-- `startswith`, the prefix first.
abbrev pub starts_with : List ℕ → List ℕ → Bool
starts_with [] text = true
starts_with (c ∷ cs) [] = false
starts_with (c ∷ cs) (d ∷ ds) = c == d && starts_with cs ds

-- `[0-9]`
abbrev pub is_digit : ℕ → Bool
is_digit c = leb b'0' c && leb c b'9'

abbrev pub all_digits : List ℕ → Bool
all_digits [] = true
all_digits (c ∷ cs) = is_digit c && all_digits cs

-- `int` on a run of digits, after a prefix of value `acc`.
unfoldable pub value : ℕ → List ℕ → ℕ
value acc [] = acc
value acc (c ∷ cs) = value (acc * 10 + (c - b'0')) cs

unfoldable pub decimal_fuel : ℕ → ℕ → List ℕ
decimal_fuel zero n = []
decimal_fuel (suc f) n =
    let rest = decimal_fuel f (n / 10) in
    if ltb n 10 then (b'0' + n) ∷ [] else rest ++ (b'0' + n % 10) ∷ []

-- `str(n)` of a number. The fuel is one more than the number, and each round divides it by ten.
unfoldable pub decimal : ℕ → List ℕ
unfolding decimal_fuel
decimal n = decimal_fuel (suc n) n

decimal_fuel-enough : (f g n : ℕ) → n < f → n < g → decimal_fuel f n ≡ decimal_fuel g n
unfolding decimal_fuel
decimal_fuel-enough zero g n h k = absurd (omega arith)
decimal_fuel-enough (suc f) zero n h k = absurd (omega arith)
decimal_fuel-enough (suc f) (suc g) n h k = ground (arith, decimal_fuel-enough f g (n / 10))

pub decimal_digit : (d : ℕ) → d < 10 → decimal d ≡ (b'0' + d) ∷ []
unfolding decimal decimal_fuel
decimal_digit d h = ground arith

decimal_step : (n : ℕ) → 10 ≤ n → decimal n ≡ decimal (n / 10) ++ (b'0' + n % 10) ∷ []
unfolding decimal decimal_fuel
decimal_step n h = ground (arith, decimal_fuel-enough n (suc (n / 10)) (n / 10))

pub decimal_snoc : (v d : ℕ) → 0 < v → d < 10 → decimal (v * 10 + d) ≡ decimal v ++ (b'0' + d) ∷ []
decimal_snoc v d p h =
    let q : (v * 10 + d) / 10 ≡ v = omega arith in
    let r : (v * 10 + d) % 10 ≡ d = omega arith in
    decimal_step (v * 10 + d) (omega arith)
    ∙ ap (λ (k : ℕ). decimal k ++ (b'0' + (v * 10 + d) % 10) ∷ []) q
    ∙ ap (λ (k : ℕ). decimal v ++ (b'0' + k) ∷ []) r

value_snoc : (acc c : ℕ) (cs : List ℕ) → value acc (cs ++ c ∷ []) ≡ value acc cs * 10 + (c - b'0')
unfolding value
value_snoc acc c [] = refl
value_snoc acc c (d ∷ cs) = value_snoc (acc * 10 + (d - b'0')) c cs

value-decimal_fuel : (f n : ℕ) → n < f → value 0 (decimal_fuel f n) ≡ n
unfolding decimal_fuel
value-decimal_fuel zero n h = absurd (omega arith)
value-decimal_fuel (suc f) n h = elim (Bool-cases (ltb n 10)) [
  | inl small ↦ rw small (unfold value in ground arith)
  | inr large ↦
      rw (large, value_snoc 0 (b'0' + n % 10) (decimal_fuel f (n / 10)))
        (ground (arith, value-decimal_fuel f (n / 10)))
]

-- Printing a number and reading it gives the number.
pub value-decimal : (n : ℕ) → value 0 (decimal n) ≡ n
unfolding decimal
value-decimal n = value-decimal_fuel (suc n) n (omega arith)

-- Reading digits behind a positive prefix and printing gives the prefix and the digits.
pub decimal-value :
    (v : ℕ) (cs : List ℕ) → 0 < v → all_digits cs ≡ true → decimal (value v cs) ≡ decimal v ++ cs
unfolding value
decimal-value v [] p h = sym (append-nil (decimal v))
decimal-value v (c ∷ cs) p h =
    let digit : (b'0' ≤ c) × (c ≤ b'9') × (all_digits cs ≡ true) = ground arith in
    let last : b'0' + (c - b'0') ≡ c = omega arith in
    decimal-value (v * 10 + (c - b'0')) cs (omega arith) digit.2
    ∙ ap (λ (l : List ℕ). l ++ cs) (decimal_snoc v (c - b'0') p (omega arith))
    ∙ append_assoc (decimal v) ((b'0' + (c - b'0')) ∷ []) cs
    ∙ ap (λ (k : ℕ). decimal v ++ k ∷ cs) last

-- The first digit of a positive number is not 0, and all of its code points are digits.
abbrev pub IsNumeral : List ℕ → Type 0
IsNumeral [] = ⊥
IsNumeral (c ∷ cs) = (b'1' ≤ c) × (c ≤ b'9') × (all_digits cs ≡ true)

all_digits_snoc :
    (d : ℕ) (cs : List ℕ)
    → d < 10
    → all_digits cs ≡ true
    → all_digits (cs ++ (b'0' + d) ∷ []) ≡ true
all_digits_snoc d [] p h = ground arith
all_digits_snoc d (c ∷ cs) p h = ground (arith, all_digits_snoc d cs p)

IsNumeral-snoc : (d : ℕ) (cs : List ℕ) → d < 10 → IsNumeral cs → IsNumeral (cs ++ (b'0' + d) ∷ [])
IsNumeral-snoc d [] p h = absurd h
IsNumeral-snoc d (c ∷ cs) p h = (h.0, h.1, all_digits_snoc d cs p h.2)

decimal_fuel-IsNumeral : (f n : ℕ) → 0 < n → n < f → IsNumeral (decimal_fuel f n)
unfolding decimal_fuel
decimal_fuel-IsNumeral zero n p h = absurd (omega arith)
decimal_fuel-IsNumeral (suc f) n p h = elim (Bool-cases (ltb n 10)) [
  | inl small ↦ rw small (ground arith, ground arith, refl)
  | inr large ↦ rw large (
      IsNumeral-snoc (n % 10) (decimal_fuel f (n / 10)) (omega arith)
        (decimal_fuel-IsNumeral f (n / 10) (ground arith) (ground arith)))
]

pub decimal-IsNumeral : (n : ℕ) → 0 < n → IsNumeral (decimal n)
unfolding decimal
decimal-IsNumeral n p = decimal_fuel-IsNumeral (suc n) n p (omega arith)

pub decimal-injective : (m n : ℕ) → decimal m ≡ decimal n → m ≡ n
decimal-injective m n e = sym (value-decimal m) ∙ ap (value 0) e ∙ value-decimal n
