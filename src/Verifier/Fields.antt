-- ===== src/Verifier/Fields.antt =====
-- The integers of the evidence: `INTEGER`, `_csv_integer` and `_integer` of tools/verify_run.py.
pub mod RoundTrip
pub mod Bounds
use chers.Base.{
  ℕ, zero, suc, ◌-◌, ◌^◌, true, false, ◌&&◌, not, Option, none, some, List, [], ◌∷◌, String, ℤ, pos,
  negsuc, pos_part, leb_ℤ, ◌==◌, leb, if◌then◌else◌,
}
use chers.Base.Decimal.{codes, all_digits, value, decimal}
use chers.Verifier.Audit.{
  Label, Audit, out_of_range, not_canonical, ◌>>=◌, ◌>>◌, pure, raise_if, or_raise,
}

-- `0|[1-9][0-9]*`, and the value that `int` gives it.
unfoldable pub natural_text : List ℕ → Option ℕ
natural_text [] = none
natural_text (c ∷ cs) =
    if c == b'0' && (elim cs [ [] ↦ true | _ ∷ _ ↦ false ])
    then some 0
    else if leb b'1' c && leb c b'9' && all_digits cs
    then some (value (c - b'0') cs)
    else none

-- The integer -n.
abbrev pub negated : ℕ → ℤ
negated zero = pos 0
negated (suc k) = negsuc k

-- `INTEGER.fullmatch(text)` and `int(text)`: an optional minus sign before the numeral.
unfoldable pub integer_text : List ℕ → Option ℤ
unfolding natural_text
integer_text [] = none
integer_text (c ∷ cs) =
    if c == b'-'
    then elim (natural_text cs) [ none ↦ none | some n ↦ some (negated n) ]
    else elim (natural_text (c ∷ cs)) [ none ↦ none | some n ↦ some (pos n) ]

-- `str(n)` of an integer.
unfoldable pub print_integer : ℤ → List ℕ
print_integer (pos n) = decimal n
print_integer (negsuc n) = b'-' ∷ decimal (suc n)

abbrev pub max_int64 : ℕ
max_int64 = 2 ^ 63 - 1

-- `_integer`, on a value that is an integer.
unfoldable pub integer : ℤ → Label → ℤ → ℤ → Audit ℤ
integer v label minimum maximum = do
  raise_if (not (leb_ℤ minimum v && leb_ℤ v maximum)) (out_of_range label)
  pure v

-- `_csv_integer`
unfoldable pub csv_integer : String → Label → ℤ → ℤ → Audit ℤ
unfolding integer_text integer
csv_integer text label minimum maximum = do
  v ← or_raise (integer_text (codes text)) (not_canonical label)
  integer v label minimum maximum

-- `_csv_integer` with the default minimum 0: the integer is the number `pos_part`.
unfoldable pub csv_natural : String → Label → ℕ → Audit ℕ
unfolding csv_integer
csv_natural text label maximum = do
  v ← csv_integer text label (pos 0) (pos maximum)
  pure (pos_part v)
