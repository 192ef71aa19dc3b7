-- ===== src/Evaluations/Events/Scrubbed.antt =====
-- What the log of events holds of images.
use chers.Base.{◌≡◌, ◌↔◌, refl, sym, ap, ◌∙◌, Bool, false, ◌||◌, Bool-cases, inl, inr, neither}
use chers.Runs.{Text}
use chers.Evaluations.Events.{
  EventValue, EventItems, EventFields, other, truth, text, array, object, nil, cons, end, field,
  is_image, safe_event, safe_items, safe_fields,
}

-- Whether a text that is a value somewhere in it is an image.
unfoldable mutual
  pub has_image : {A : Type 0} → EventValue A → Bool
  has_image (other a) = false
  has_image (truth b) = false
  has_image (text t) = is_image t
  has_image (array xs) = item_has_image xs
  has_image (object fs) = field_has_image fs

  pub item_has_image : {A : Type 0} → EventItems A → Bool
  item_has_image nil = false
  item_has_image (cons x xs) = has_image x || item_has_image xs

  pub field_has_image : {A : Type 0} → EventFields A → Bool
  field_has_image end = false
  field_has_image (field k v fs) = has_image v || field_has_image fs

module _ {A : Type 0} (sha256 : Text → Text) (hex : (t : Text) → is_image (sha256 t) ≡ false) where
  mutual
    unfolding safe_event has_image

    clean : (v : EventValue A) → has_image (safe_event sha256 v) ≡ false
    clean (other a) = refl
    clean (truth b) = refl
    clean (text t) = elim (Bool-cases (is_image t)) [
      | inl h ↦ rw (h, hex t) refl
      | inr h ↦ rw (h, h) refl
    ]
    clean (array xs) = clean_items xs
    clean (object fs) = clean_fields fs

    clean_items : (xs : EventItems A) → item_has_image (safe_items sha256 xs) ≡ false
    clean_items nil = refl
    clean_items (cons x xs) = rw (clean x, clean_items xs) refl

    clean_fields : (fs : EventFields A) → field_has_image (safe_fields sha256 fs) ≡ false
    clean_fields end = refl
    clean_fields (field k v fs) = rw (clean v, clean_fields fs) refl

mutual
  unfolding safe_event has_image

  kept :
      {A : Type 0} (sha256 : Text → Text) (v : EventValue A)
      → has_image v ≡ false
      → safe_event sha256 v ≡ v
  kept sha256 (other a) h = refl
  kept sha256 (truth b) h = refl
  kept sha256 (text t) h = rw h refl
  kept sha256 (array xs) h = ap array (kept_items sha256 xs h)
  kept sha256 (object fs) h = ap object (kept_fields sha256 fs h)

  kept_items :
      {A : Type 0} (sha256 : Text → Text) (xs : EventItems A)
      → item_has_image xs ≡ false
      → safe_items sha256 xs ≡ xs
  kept_items sha256 nil h = refl
  kept_items sha256 (cons x xs) h =
      let (this, those) = neither _ _ h in rw (kept sha256 x this, kept_items sha256 xs those) refl

  kept_fields :
      {A : Type 0} (sha256 : Text → Text) (fs : EventFields A)
      → field_has_image fs ≡ false
      → safe_fields sha256 fs ≡ fs
  kept_fields sha256 end h = refl
  kept_fields sha256 (field k v fs) h =
      let (this, those) = neither _ _ h in rw (kept sha256 v this, kept_fields sha256 fs those) refl

-- If no digest reads as an image, no value of a logged message is an image, and a message is logged
-- as it is exactly if none of its values is an image.
pub safe_event-has_image :
    {A : Type 0} (sha256 : Text → Text) (v : EventValue A)
    → ((t : Text) → is_image (sha256 t) ≡ false)
    → (has_image (safe_event sha256 v) ≡ false)
      × ((safe_event sha256 v ≡ v) ↔ (has_image v ≡ false))
safe_event-has_image sha256 v hex =
    (clean sha256 hex v, ((λ same. sym (ap has_image same) ∙ clean sha256 hex v), kept sha256 v))
