-- ===== src/Verifier/Table.antt =====
-- A CSV file of the evidence: `_rows` of tools/verify_run.py over the cells that the `csv` module
-- splits the file into. `csv.DictReader` takes the first row for the header, skips blank rows, and
-- marks a row of another length than the header's.
pub mod Columns
use chers.Base.{
  ℕ, ◌+◌, Bool, true, false, ◌&&◌, ◌||◌, not, Option, none, some, List, [], ◌∷◌, String, str_eq,
  length, is_empty, ◌==◌, if◌then◌else◌,
}
use chers.Verifier.Fields.{csv_natural}
use chers.Verifier.Audit.{
  ◌>>=◌, cell, Audit, plain, wrong_header, wrong_field_count, missing_key, ◌>>◌, pure, raise,
  raise_if, or_raise,
}

-- A row as a dictionary from the header's names.
abbrev pub Row : Type 0
Row = List (String × String)

abbrev pub dict_row : List String → List String → Row
dict_row [] cells = []
dict_row (f ∷ fs) [] = []
dict_row (f ∷ fs) (c ∷ cs) = (f, c) ∷ dict_row fs cs

abbrev pub same_texts : List String → List String → Bool
same_texts [] [] = true
same_texts (a ∷ as_) (b ∷ bs) = str_eq a b && same_texts as_ bs
same_texts _ _ = false

-- Does some row that is not blank differ in length from the header?
pub any_wrong_count : List String → List (List String) → Bool
any_wrong_count fields [] = false
any_wrong_count fields (row ∷ rows) =
    (not (is_empty row) && not (length row == length fields)) || any_wrong_count fields rows

pub dict_rows : List String → List (List String) → List Row
dict_rows fields [] = []
dict_rows fields (row ∷ rows) =
    let rest = dict_rows fields rows in if is_empty row then rest else dict_row fields row ∷ rest

unfoldable pub read_rows : String → List String → List (List String) → Audit (List Row)
unfolding any_wrong_count dict_rows
read_rows file fields [] = raise (wrong_header file)
read_rows file fields (header ∷ rows) = do
  raise_if (not (same_texts header fields)) (wrong_header file)
  raise_if (any_wrong_count fields rows) (wrong_field_count file)
  pure (dict_rows fields rows)

abbrev pub lookup_text : String → Row → Option String
lookup_text k [] = none
lookup_text k ((j, v) ∷ row) = if str_eq j k then some v else lookup_text k row

-- `row[name]`
abbrev pub column : String → Row → Audit String
column name row = or_raise (lookup_text name row) (missing_key (plain name))

-- `_csv_integer(row[name], f"{label}.{name}", maximum=maximum)`, where the label names the file and
-- the line, `index + 2`.
unfoldable pub natural_column : String → ℕ → String → ℕ → Row → Audit ℕ
natural_column file index name maximum row = do
  text ← column name row
  csv_natural text (cell file (index + 2) name) maximum
