-- ===== src/Server/Tests.antt =====
-- A call with messages before and behind its answer.
use chers.Base.{
  ℕ, zero, suc, ◌+◌, ◌≡◌, refl, arith, Option, true, false, none, some, List, [], ◌∷◌, map,
}
use chers.Base.Predicates.{count}
use chers.Server.{Message, answered, Server, await, request, call}
use chers.Server.Catalog.{Page, done, models}
use chers.Server.Catalog.Pages.{models-entries}
use chers.Server.Delivery.{arrivals, taken, Answers, call-Delivers}

abbrev notice : ℕ → Message ℕ
notice n = record {
  transport_ended = false;
  id = none;
  has_method = true;
  has_error = false;
  payload = n;
}

abbrev answer : ℕ → Message ℕ
answer i = record {
  transport_ended = false;
  id = some i;
  has_method = false;
  has_error = false;
  payload = 0;
}

abbrev rounds : List (List (Message ℕ))
rounds = [] ∷ (answer 4 ∷ answer 3 ∷ notice 8 ∷ []) ∷ [] ∷ (notice 9 ∷ []) ∷ []

abbrev server : Server ℕ
server = record { messages = notice 7 ∷ []; next_id = 3; sent = [] }

-- The answer is found; the messages that were deferred come behind the one that was not read.
call_runs :
    ((call 5 rounds server).0 ≡ answered (answer 3))
    × (map (λ m. m.payload) (call 5 rounds server).2.messages ≡ 8 ∷ 7 ∷ 0 ∷ [])
unfolding call await request
call_runs = (refl, refl)

call-Delivers_example :
    let (result, left, s') = call 5 rounds server in
    (s'.next_id ≡ 4)
    × Answers 3 result
    × (count (λ m. m.has_method) server.messages + count (λ m. m.has_method) (arrivals rounds)
        ≡ count (λ m. m.has_method) s'.messages
          + count (λ m. m.has_method) (arrivals left)
          + count (λ m. m.has_method) (taken result))
call-Delivers_example = call-Delivers 5 rounds server (λ m. m.has_method)

abbrev page : List ℕ → Option (List ℕ) → Page ℕ
page ns cursor = record { data_ = ns; next_cursor = cursor }

-- Two pages; the cursor of the second is an empty text.
abbrev pages : ℕ → Option (List ℕ) → Option (Page ℕ)
pages zero none = some (page (1 ∷ 2 ∷ []) (some (b'x' ∷ [])))
pages (suc zero) (some (b ∷ [])) = some (page (3 ∷ []) (some []))
pages _ _ = none

models-entries_example : models pages 5 ≡ some (done (1 ∷ 2 ∷ 3 ∷ []))
models-entries_example =
    models-entries pages 5 (page (1 ∷ 2 ∷ []) (some (b'x' ∷ [])) ∷ page (3 ∷ []) (some []) ∷ [])
      (refl, refl, (refl, refl)) (omega arith)

-- A reader that has ended at a line that is no JSON.
abbrev closing : Message ℕ
closing = record {
  transport_ended = true;
  id = none;
  has_method = false;
  has_error = false;
  payload = 0;
}

-- It has put one line into the queue before the call, and the rest comes in the second round.
abbrev lost : Server ℕ
lost = record { messages = notice 7 ∷ notice 8 ∷ []; next_id = 3; sent = [] }

abbrev last_rounds : List (List (Message ℕ))
last_rounds = [] ∷ (closing ∷ closing ∷ []) ∷ []

abbrev quiet : List (List (Message ℕ))
quiet = [] ∷ [] ∷ [] ∷ [] ∷ []
