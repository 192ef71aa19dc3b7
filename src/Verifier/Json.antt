-- ===== src/Verifier/Json.antt =====
-- The values of result.json, and the readers of single values in tools/verify_run.py: `_number`,
-- `_integer`, `_boolean`, `_mapping`, and the hooks of `json.load`.
use chers.Base.{
  ℕ, Bool, false, ◌||◌, not, Option, none, some, List, [], ◌∷◌, String, str_eq, ℤ, if◌then◌else◌,
}
use chers.Verifier.Audit.{
  Audit, Label, plain, repeated_key, non_finite_json, out_of_range, not_finite, not_boolean,
  not_object, missing_key, ◌>>=◌, ◌>>◌, pure, raise, raise_if, or_raise,
}
use chers.Verifier.Fields.{integer}

-- Python's floats, as far as the verifier uses them. `of_int` has no value where `float` raises
-- `OverflowError`; `decimal m e` is the literal with the digits `m` and the exponent `e`.
pub record Numbers : Type 1 where
  pub Float : Type 0
  pub of_int : ℤ → Option Float
  pub decimal : ℕ → ℤ → Float
  pub is_finite : Float → Bool
  pub lt : Float → Float → Bool
  pub le : Float → Float → Bool
  pub equal : Float → Float → Bool
  pub plus : Float → Float → Float
  pub minus : Float → Float → Float
  pub over : Float → Float → Float
  pub quotient : ℤ → ℤ → Float
  pub isclose : Float → Float → Float → Float → Bool

-- A parsed value. A constant is `NaN` or an infinity.
mutual
  pub data Value (F : Type 0) : Type 0 where
    null : Value F
    constant : Value F
    array : Elements F → Value F
    boolean : Bool → Value F
    whole : ℤ → Value F
    float : F → Value F
    text : String → Value F
    object : Members F → Value F

  pub data Elements (F : Type 0) : Type 0 where
    last : Elements F
    element : Value F → Elements F → Elements F

  pub data Members (F : Type 0) : Type 0 where
    end : Members F
    member : String → Value F → Members F → Members F

abbrev pub find_member : {F : Type 0} → String → Members F → Option (Value F)
find_member k end = none
find_member k (member j v ms) = if str_eq j k then some v else find_member k ms

abbrev pub has_member : {F : Type 0} → String → Members F → Bool
has_member k end = false
has_member k (member j v ms) = str_eq j k || has_member k ms

abbrev pub among : String → List String → Bool
among k [] = false
among k (j ∷ js) = str_eq j k || among k js

-- `_object_no_duplicates`, on the pairs of an object: the first key that was there before raises.
-- `seen` holds the keys before.
unfoldable pub no_duplicates : {F : Type 0} → List String → Members F → Audit (Unit {0})
no_duplicates seen end = pure tt
no_duplicates seen (member k v ms) = do
  raise_if (among k seen) (repeated_key k)
  no_duplicates (k ∷ seen) ms

-- What `json.load` calls on the way: `_nonfinite_json` on constants, and `_object_no_duplicates` on
-- an object after its members.
unfoldable mutual
  pub load_json : {F : Type 0} → Value F → Audit (Unit {0})
  load_json constant = raise non_finite_json
  load_json (array vs) = load_elements vs
  load_json (object ms) = load_members ms >> no_duplicates [] ms
  load_json v = pure tt

  pub load_elements : {F : Type 0} → Elements F → Audit (Unit {0})
  load_elements last = pure tt
  load_elements (element v vs) = load_json v >> load_elements vs

  pub load_members : {F : Type 0} → Members F → Audit (Unit {0})
  load_members end = pure tt
  load_members (member k v ms) = load_json v >> load_members ms

-- `_integer`, on any value.
unfoldable pub integer_value : {F : Type 0} → Value F → Label → ℤ → ℤ → Audit ℤ
integer_value (whole n) label minimum maximum = integer n label minimum maximum
integer_value v label minimum maximum = raise (out_of_range label)

-- `_boolean`
unfoldable pub boolean_value : {F : Type 0} → Value F → Label → Audit Bool
boolean_value (boolean b) label = pure b
boolean_value v label = raise (not_boolean label)

-- `_mapping`
unfoldable pub mapping : {F : Type 0} → Value F → Label → Audit (Members F)
mapping (object ms) label = pure ms
mapping v label = raise (not_object label)

-- `data[key]`
unfoldable pub item : {F : Type 0} → String → Members F → Audit (Value F)
item key ms = or_raise (find_member key ms) (missing_key (plain key))

-- `value != "..."`
abbrev pub is_text : {F : Type 0} → String → Value F → Bool
is_text s (text t) = str_eq t s
is_text s v = false

module _ (numbers : Numbers) where
  open numbers use {Float, of_int, is_finite}

  abbrev pub finite : Float → Label → Audit Float
  finite x label = raise_if (not (is_finite x)) (not_finite label) >> pure x

  -- `_number`
  unfoldable pub number : Value Float → Label → Audit Float
  number (whole n) label = or_raise (of_int n) (out_of_range label) >>= λ x. finite x label
  number (float x) label = finite x label
  number v label = raise (not_finite label)
