-- ===== src/Verifier/Audit.antt =====
-- What a step of the verifier does: it raises `EvidenceError`, or goes on with a value; either
-- way it has appended findings to the `errors` list of the report, which stay after a raise.
-- Messages are data: what each names (the file's line or the field), without its wording.
pub mod Laws
use chers.Base.{ℕ, Bool, true, false, Option, none, some, List, [], ◌∷◌, ◌++◌, String}

-- The label of a value in the messages.
pub data Label : Type 0 where
  cell : String → ℕ → String → Label
  field : String → String → Label
  plain : String → Label

-- The raises of `EvidenceError`, and of the exceptions that `verify_run` catches with it.
pub data Malformed : Type 0 where
  repeated_key : String → Malformed
  non_finite_json : Malformed
  out_of_range : Label → Malformed
  not_canonical : Label → Malformed
  not_finite : Label → Malformed
  not_boolean : Label → Malformed
  not_object : Label → Malformed
  not_string : Label → Malformed
  missing_key : Label → Malformed
  wrong_header : String → Malformed
  wrong_field_count : String → Malformed
  unknown_stage : ℕ → Malformed
  unsorted_notes : ℕ → Malformed
  backwards_input : ℕ → Malformed
  input_outside : ℕ → Malformed
  unknown_kind : ℕ → Malformed
  unsupported_version : Malformed
  unreadable : String → Malformed

-- The messages appended to `errors`.
pub data Finding : Type 0 where
  malformed : Malformed → Finding
  note_id_gap : ℕ → Finding
  note_outside_stage : ℕ → Finding
  lock_violated : ℕ → Finding
  stage_claim : ℕ → Finding
  note_claim : ℕ → Finding
  delay_claim : ℕ → Finding
  judgment_claim : ℕ → Finding
  value_claim : Label → Finding
  index_gap : ℕ → Finding
  inconsistent : Label → Finding
  not_completed not_valid timing_required : Finding

pub data Result {ℓ} (A : Type ℓ) : Type ℓ where
  ok : A → Result A
  raised : Malformed → Result A

abbrev pub Audit {ℓ} : Type ℓ → Type ℓ
Audit A = Result A × List Finding

abbrev pub after {ℓ} : {A : Type ℓ} → List Finding → Audit A → Audit A
after found (r, more) = (r, found ++ more)

infixl 5 ◌>>=◌ ◌>>◌
abbrev pub ◌>>=◌ {ℓ κ} : {A : Type ℓ} {B : Type κ} → Audit A → (A → Audit B) → Audit B
◌>>=◌ (ok a, found) f = after found (f a)
◌>>=◌ (raised e, found) f = (raised e, found)

abbrev pub ◌>>◌ {ℓ} : {B : Type ℓ} → Audit (Unit {0}) → Audit B → Audit B
m >> k = m >>= λ _. k

abbrev pub pure {ℓ} : {A : Type ℓ} → A → Audit A
pure a = (ok a, [])

abbrev pub raise {ℓ} : {A : Type ℓ} → Malformed → Audit A
raise e = (raised e, [])

-- `if test: raise EvidenceError(...)`
abbrev pub raise_if : Bool → Malformed → Audit (Unit {0})
raise_if true e = (raised e, [])
raise_if false e = (ok tt, [])

-- `if test: errors.append(...)`
abbrev pub report_if : Bool → Finding → Audit (Unit {0})
report_if true e = (ok tt, e ∷ [])
report_if false e = (ok tt, [])

abbrev pub or_raise {ℓ} : {A : Type ℓ} → Option A → Malformed → Audit A
or_raise none e = raise e
or_raise (some a) e = pure a
