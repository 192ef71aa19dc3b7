-- ===== src/Server/Catalog.antt =====
-- `models`, `start_thread` and `close` of `AppServer` in examples/codex_appserver_client.py. What the
-- calls return is a parameter: the answer to the n-th request for a page, given its cursor.
pub mod Pages
use chers.Base.{
  ℕ, zero, suc, ◌+◌, Bool, true, false, not, Option, none, some, List, [], ◌∷◌, ◌++◌, is_empty,
  if◌then◌else◌,
}
use chers.Runs.{Text, same_text}

-- A page of the catalog, and `nextCursor`, if it has one.
pub record Page (A : Type 0) : Type 0 where
  pub data_ : List A
  pub next_cursor : Option Text

-- The truth of a cursor: an empty text is none.
abbrev pub has_cursor : Option Text → Bool
has_cursor none = false
has_cursor (some cursor) = not (is_empty cursor)

-- What a call raises.
pub data CatalogError : Type 0 where
  call_failed : CatalogError
  model_replaced : Text → CatalogError
  effort_replaced : Option Text → CatalogError

pub data CatalogResult (A : Type 0) : Type 0 where
  done : A → CatalogResult A
  raised : CatalogError → CatalogResult A

module _ {A : Type 0} (fetch : ℕ → Option Text → Option (Page A)) where
  -- The cursor that is sent: none, if it is empty.
  abbrev pub sent_cursor : Option Text → Option Text
  sent_cursor cursor = if has_cursor cursor then cursor else none

  -- The loop of `models`, with fuel; `none` means that the fuel ran out.
  unfoldable pub fetch_pages : ℕ → ℕ → Option Text → List A → Option (CatalogResult (List A))
  fetch_pages zero n cursor found = none
  fetch_pages (suc fuel) n cursor found = elim (fetch n (sent_cursor cursor)) [
    | none ↦ some (raised call_failed)
    | some page ↦
        let rest = fetch_pages fuel (suc n) page.next_cursor (found ++ page.data_) in
        if not (has_cursor page.next_cursor) then some (done (found ++ page.data_)) else rest
  ]

  -- `models`
  unfoldable pub models : ℕ → Option (CatalogResult (List A))
  unfolding fetch_pages
  models fuel = fetch_pages fuel 0 none []

-- What `thread/start` returns, as far as it is looked at.
pub record Thread : Type 0 where
  pub model : Text
  pub effort : Option Text

abbrev pub same_effort : Option Text → Text → Bool
same_effort none effort = false
same_effort (some e) effort = same_text e effort

-- `start_thread`, on what the call returned.
unfoldable pub start_thread : Text → Text → Option Thread → CatalogResult Thread
start_thread model effort none = raised call_failed
start_thread model effort (some t) =
    if not (same_text t.model model)
    then raised (model_replaced t.model)
    else if not (same_effort t.effort effort)
    then raised (effort_replaced t.effort)
    else done t

-- What `close` does to the process.
pub data Signal : Type 0 where
  terminate wait_5 kill wait : Signal

-- `close`, given whether the process still runs and whether it ends within five seconds.
unfoldable pub close_process : Bool → Bool → List Signal
close_process running ends =
    if running
    then (if ends then terminate ∷ wait_5 ∷ [] else terminate ∷ wait_5 ∷ kill ∷ wait ∷ [])
    else []
