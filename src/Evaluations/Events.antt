-- ===== src/Evaluations/Events.antt =====
-- `safe_event` of tools/run_codex_evaluations.py. The SHA-256 of a text, in hexadecimal digits, is a
-- parameter.
pub mod Scrubbed
use chers.Base.{ℕ, Bool, true, false, ◌&&◌, ◌||◌, List, [], ◌∷◌, ◌==◌, String, if◌then◌else◌}
use chers.Base.Decimal.{codes, starts_with}
use chers.Runs.{Text}

-- The values of a message. `other` stands for the numbers and for null.
mutual
  pub data EventValue (A : Type 0) : Type 0 where
    other : A → EventValue A
    truth : Bool → EventValue A
    text : Text → EventValue A
    array : EventItems A → EventValue A
    object : EventFields A → EventValue A

  pub data EventItems (A : Type 0) : Type 0 where
    nil : EventItems A
    cons : EventValue A → EventItems A → EventItems A

  pub data EventFields (A : Type 0) : Type 0 where
    end : EventFields A
    field : Text → EventValue A → EventFields A → EventFields A

abbrev pub is_image : Text → Bool
is_image t = starts_with (codes "data:image/") t

-- What an image is replaced by.
abbrev pub omitted : {A : Type 0} → (Text → Text) → Text → EventValue A
omitted sha256 t = object (
    field (codes "image_data_omitted") (truth true)
      (field (codes "data_url_sha256") (text (sha256 t)) end))

unfoldable mutual
  -- `safe_event`; the keys of objects stay.
  pub safe_event : {A : Type 0} → (Text → Text) → EventValue A → EventValue A
  safe_event sha256 (text t) = if is_image t then omitted sha256 t else text t
  safe_event sha256 (array xs) = array (safe_items sha256 xs)
  safe_event sha256 (object fs) = object (safe_fields sha256 fs)
  safe_event sha256 (other a) = other a
  safe_event sha256 (truth b) = truth b

  pub safe_items : {A : Type 0} → (Text → Text) → EventItems A → EventItems A
  safe_items sha256 nil = nil
  safe_items sha256 (cons x xs) = cons (safe_event sha256 x) (safe_items sha256 xs)

  pub safe_fields : {A : Type 0} → (Text → Text) → EventFields A → EventFields A
  safe_fields sha256 end = end
  safe_fields sha256 (field k v fs) = field k (safe_event sha256 v) (safe_fields sha256 fs)
