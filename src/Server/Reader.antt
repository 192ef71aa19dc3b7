-- ===== src/Server/Reader.antt =====
-- `_read` of `AppServer`, and how a call ends after it.
use chers.Base.{ℕ, zero, suc, Bool, true, false, ◌||◌, Option, none, some, List, [], ◌∷◌}
use chers.Server.{Message, CallResult, timed_out, Server}

module _ {P : Type 0} where
  -- What the reader puts into the queue, when the process has ended: a line is none, if `json.loads`
  -- raises on it. `error` and `closed` are the messages of the two last clauses.
  unfoldable pub read_lines :
      (error closed : Message P) → List (Option (Message P)) → List (Message P)
  read_lines error closed [] = closed ∷ []
  read_lines error closed (none ∷ lines) = error ∷ closed ∷ []
  read_lines error closed (some m ∷ lines) = m ∷ read_lines error closed lines

  abbrev pub is_timed_out : CallResult P → Bool
  is_timed_out timed_out = true
  is_timed_out _ = false

  -- Whether the transport's end is among the first messages.
  abbrev ends_within : ℕ → List (Message P) → Bool
  ends_within zero ms = false
  ends_within (suc k) [] = false
  ends_within (suc k) (m ∷ ms) = m.transport_ended || ends_within k ms
