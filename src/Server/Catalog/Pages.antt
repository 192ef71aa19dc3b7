-- ===== src/Server/Catalog/Pages.antt =====
-- A catalog that is served in pages is read whole.
use chers.Base.{
  ℕ, zero, suc, ◌≤◌, ◌≡◌, sym, ap, ◌∙◌, true, false, Option, none, some, List, [], ◌∷◌, ◌++◌,
  append-nil, append_assoc, length, arith,
}
use chers.Runs.{Text}
use chers.Server.Catalog.{Page, has_cursor, done, sent_cursor, fetch_pages, models}

module _ {A : Type 0} (fetch : ℕ → Option Text → Option (Page A)) where
  -- From a request on, and for its cursor, the server gives these pages, the last of which has no
  -- further cursor.
  abbrev pub Serves : ℕ → Option Text → List (Page A) → Type 0
  Serves n cursor [] = ⊥
  Serves n cursor (page ∷ []) =
      (fetch n (sent_cursor fetch cursor) ≡ some page) × (has_cursor page.next_cursor ≡ false)
  Serves n cursor (page ∷ next ∷ pages) =
      (fetch n (sent_cursor fetch cursor) ≡ some page)
      × (has_cursor page.next_cursor ≡ true)
      × Serves (suc n) page.next_cursor (next ∷ pages)

  abbrev pub entries : List (Page A) → List A
  entries [] = []
  entries (page ∷ pages) = page.data_ ++ entries pages

  fetch_pages-entries :
      (fuel n : ℕ) (cursor : Option Text) (found : List A) (pages : List (Page A))
      → Serves n cursor pages
      → length pages ≤ fuel
      → fetch_pages fetch fuel n cursor found ≡ some (done (found ++ entries pages))
  unfolding fetch_pages
  fetch_pages-entries fuel n cursor found [] s le = absurd s
  fetch_pages-entries zero n cursor found (page ∷ pages) s le = absurd (omega arith)
  fetch_pages-entries (suc fuel) n cursor found (page ∷ []) (f, last) le =
      rw (f, last, fetch_pages)
        (ap (λ (xs : List A). some (done (found ++ xs))) (sym (append-nil page.data_)))
  fetch_pages-entries (suc fuel) n cursor found (page ∷ next ∷ pages) (f, more, s) le =
      rw (f, more, fetch_pages)
        (fetch_pages-entries fuel (suc n) page.next_cursor (found ++ page.data_) (next ∷ pages) s
            (omega arith)
          ∙ ap (λ (xs : List A). some (done xs))
              (append_assoc found page.data_ (entries (next ∷ pages))))

  -- If the server serves some pages, the last of which has no further cursor, `models` ends with as
  -- many requests, and returns the entries of all pages in their order.
  pub models-entries :
      (fuel : ℕ) (pages : List (Page A))
      → Serves 0 none pages
      → length pages ≤ fuel
      → models fetch fuel ≡ some (done (entries pages))
  unfolding models
  models-entries fuel pages s le = fetch_pages-entries fuel 0 none [] pages s le
