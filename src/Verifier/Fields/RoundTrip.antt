-- ===== src/Verifier/Fields/RoundTrip.antt =====
-- Canonical integers: what `INTEGER` and `int` accept is what printing an integer gives.
use chers.Base.{
  ◌↔◌, ℕ, zero, suc, ◌+◌, ◌-◌, ◌*◌, ◌≡◌, refl, sym, ap, ◌∙◌, ◌⊎◌, inl, inr, false, some, List, [],
  ◌∷◌, ◌++◌, ℤ, pos, negsuc, ◌==◌, arith, Option-cases, Bool-cases,
}
use chers.Base.Decimal.{
  value, decimal, decimal_digit, decimal-value, value-decimal, decimal-IsNumeral, IsNumeral,
}
use chers.Verifier.Fields.{natural_text, negated, integer_text, print_integer}

natural_text-numeral : (cs : List ℕ) → IsNumeral cs → natural_text cs ≡ some (value 0 cs)
unfolding natural_text value
natural_text-numeral [] h = absurd h
natural_text-numeral (c ∷ cs) h =
    let e : 0 * 10 + (c - b'0') ≡ c - b'0' = omega arith in ground arith

natural_text-decimal : (n : ℕ) → natural_text (decimal n) ≡ some n
natural_text-decimal zero = rw (decimal_digit 0 (omega arith)) (unfold natural_text in refl)
natural_text-decimal (suc n) =
    natural_text-numeral (decimal (suc n)) (decimal-IsNumeral (suc n) (omega arith))
    ∙ ap some (value-decimal (suc n))

-- What is read is the numeral 0, or a numeral with no leading zero.
natural_text-cases :
    (c n : ℕ) (cs : List ℕ)
    → natural_text (c ∷ cs) ≡ some n
    → ((c ≡ b'0') × (cs ≡ []) × (n ≡ 0)) ⊎ (IsNumeral (c ∷ cs) × (n ≡ value (c - b'0') cs))
unfolding natural_text
natural_text-cases c n [] e = ground arith
natural_text-cases c n (d ∷ cs) e = ground arith

decimal-numeral :
    (cs : List ℕ) (c : ℕ) → IsNumeral (c ∷ cs) → decimal (value (c - b'0') cs) ≡ c ∷ cs
decimal-numeral cs c h =
    let e : b'0' + (c - b'0') ≡ c = omega arith in
    decimal-value (c - b'0') cs (omega arith) h.2
    ∙ ap (λ (l : List ℕ). l ++ cs) (decimal_digit (c - b'0') (omega arith))
    ∙ ap (λ (k : ℕ). k ∷ cs) e

decimal-natural_text : (cs : List ℕ) (n : ℕ) → natural_text cs ≡ some n → decimal n ≡ cs
decimal-natural_text [] n e = absurd (unfold natural_text in cc)
decimal-natural_text (c ∷ cs) n e = elim (natural_text-cases c n cs e) [
  | inl (a, b, z) ↦ rw (a, b, z) (decimal_digit 0 (omega arith))
  | inr (h, v) ↦ rw v (decimal-numeral cs c h)
]

-- A numeral does not begin with a minus sign.
numeral-ne-minus : (cs : List ℕ) (c : ℕ) → IsNumeral (c ∷ cs) → (c == b'-') ≡ false
numeral-ne-minus cs c h = ground arith

integer_text-numeral :
    (cs : List ℕ) (n : ℕ) → IsNumeral cs → natural_text cs ≡ some n → integer_text cs ≡ some (pos n)
unfolding integer_text
integer_text-numeral [] n h e = absurd h
integer_text-numeral (c ∷ cs) n h e = rw (numeral-ne-minus cs c h, e)

integer_text-print : (v : ℤ) → integer_text (print_integer v) ≡ some v
unfolding print_integer
integer_text-print (pos zero) =
    rw (decimal_digit 0 (omega arith)) (unfold integer_text natural_text in refl)
integer_text-print (pos (suc n)) =
    integer_text-numeral (decimal (suc n)) (suc n) (decimal-IsNumeral (suc n) (omega arith))
      (natural_text-decimal (suc n))
integer_text-print (negsuc n) = unfold integer_text in rw (natural_text-decimal (suc n))

abbrev pub minus_zero : List ℕ
minus_zero = b'-' ∷ b'0' ∷ []

print-negated :
    (cs : List ℕ) (n : ℕ)
    → natural_text cs ≡ some n
    → (print_integer (negated n) ≡ b'-' ∷ cs) ⊎ ((cs ≡ b'0' ∷ []) × (n ≡ 0))
unfolding print_integer
print-negated cs zero e =
    inr (sym (decimal-natural_text cs zero e) ∙ decimal_digit 0 (omega arith), refl)
print-negated cs (suc n) e = inl (ap (λ (l : List ℕ). b'-' ∷ l) (decimal-natural_text cs (suc n) e))

print-integer_text :
    (cs : List ℕ) (v : ℤ)
    → integer_text cs ≡ some v
    → (print_integer v ≡ cs) ⊎ ((cs ≡ minus_zero) × (v ≡ pos 0))
unfolding integer_text print_integer
print-integer_text [] v e = ground arith
print-integer_text (c ∷ cs) v e = elim (Bool-cases (c == b'-')) [
  | inl minus ↦ elim (Option-cases (natural_text cs)) [
    | inl none_e ↦ ground arith
    | inr (n, some_e) ↦ ground (arith, print-negated cs n some_e)
  ]
  | inr plus ↦ elim (Option-cases (natural_text (c ∷ cs))) [
    | inl none_e ↦ ground arith
    | inr (n, some_e) ↦ ground (arith, decimal-natural_text (c ∷ cs) n some_e)
  ]
]

integer_text-minus_zero : integer_text minus_zero ≡ some (pos 0)
unfolding integer_text natural_text
integer_text-minus_zero = refl

-- A text is read as the integer `v` exactly when it is `v` printed in decimal, with no plus sign
-- and no leading zero, or when it is "-0" and `v` is 0.
pub integer_text_iff :
    (cs : List ℕ) (v : ℤ)
    → (integer_text cs ≡ some v) ↔ ((print_integer v ≡ cs) ⊎ ((cs ≡ minus_zero) × (v ≡ pos 0)))
integer_text_iff cs v = (print-integer_text cs v, back)
  where
    back : (print_integer v ≡ cs) ⊎ ((cs ≡ minus_zero) × (v ≡ pos 0)) → integer_text cs ≡ some v
    back (inl e) = rw (← e) (integer_text-print v)
    back (inr (e, z)) = rw (e, z) integer_text-minus_zero
