-- ===== src/Bridge/Queue.antt =====
-- `self._pending`: the queue of scheduled taps. `heapq` keeps the least tuple `(due, action_id,
-- lane)` at the front; here the whole list is kept in that order.
use chers.Base.{ℕ, Bool, ◌&&◌, ◌||◌, List, [], ◌∷◌, ltb, leb, ◌==◌, if◌then◌else◌}

pub record Scheduled : Type 0 where
  pub due : ℕ
  pub action_id : ℕ
  pub lane : ℕ

-- The order of the tuples; action ids differ, so lanes are never compared.
abbrev pub precedes : Scheduled → Scheduled → Bool
precedes a b = ltb a.due b.due || (a.due == b.due && leb a.action_id b.action_id)

-- `heapq.heappush`
unfoldable pub push : Scheduled → List Scheduled → List Scheduled
push a [] = a ∷ []
push a (b ∷ q) = if precedes a b then a ∷ b ∷ q else b ∷ push a q
