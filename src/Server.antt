-- ===== src/Server.antt =====
-- The exchange of requests and responses of `AppServer` in examples/codex_appserver_client.py. The
-- reader thread's messages arrive in rounds: what has arrived by each turn of the loop in `call`,
-- for as many turns as there are before the deadline.
pub mod Delivery
pub mod Catalog
pub mod Reader
mod Tests
use chers.Base.{
  ℕ, suc, ◌+◌, Bool, true, false, ◌&&◌, not, Option, none, some, List, [], ◌∷◌, ◌++◌, ◌==◌,
  if◌then◌else◌,
}

-- A message from the server: `transport_closed` or `transport_error`, the number that its `id` equals,
-- if there is one, and which of `method` and `error` it has. The rest of it is a parameter.
pub record Message (P : Type 0) : Type 0 where
  pub transport_ended : Bool
  pub id : Option ℕ
  pub has_method : Bool
  pub has_error : Bool
  pub payload : P

-- What `call` returns or raises, with the message that it took for it.
pub data CallResult (P : Type 0) : Type 0 where
  answered : Message P → CallResult P
  refused : Message P → CallResult P
  transport_lost : Message P → CallResult P
  timed_out : CallResult P

-- The client: the queue of messages, the next request's number and the requests that it has sent.
pub record Server (P : Type 0) : Type 0 where
  pub messages : List (Message P)
  pub next_id : ℕ
  pub sent : List (ℕ × P)

abbrev pub same_id : Option ℕ → ℕ → Bool
same_id none number = false
same_id (some i) number = i == number

-- `msg.get("id") == number and "method" not in msg`
abbrev pub answers : {P : Type 0} → ℕ → Message P → Bool
answers number m = same_id m.id number && not m.has_method

-- The state of the loop when it ends: the result, the queue with the deferred messages put back, and
-- the rounds that are still to come.
pub record Ended (P : Type 0) : Type 0 where
  pub result : CallResult P
  pub messages : List (Message P)
  pub rounds : List (List (Message P))

abbrev pub ended :
    {P : Type 0}
    → CallResult P
    → List (Message P)
    → List (Message P)
    → List (List (Message P))
    → Ended P
ended result queue deferred rounds = record {
  result = result;
  messages = queue ++ deferred;
  rounds = rounds;
}

-- The loop of `call`. With an empty queue `receive` raises `queue.Empty`, and the loop goes on.
unfoldable pub await :
    {P : Type 0} → ℕ → List (List (Message P)) → List (Message P) → List (Message P) → Ended P
await number [] queue deferred = ended timed_out queue deferred []
await number (new ∷ rounds) queue deferred = elim (queue ++ new) [
  | [] ↦ await number rounds [] deferred
  | m ∷ rest ↦
      let later = await number rounds rest (deferred ++ m ∷ []) in
      if m.transport_ended
      then ended (transport_lost m) rest deferred rounds
      else if answers number m
      then (if m.has_error
          then ended (refused m) rest deferred rounds
          else ended (answered m) rest deferred rounds)
      else later
]

-- `request`: the number of a request, and the client that has sent it.
unfoldable pub request : {P : Type 0} → P → Server P → ℕ × Server P
request params s =
    (s.next_id, record s { next_id = suc s.next_id; sent = s.sent ++ (s.next_id, params) ∷ [] })

-- `call`
unfoldable pub call :
    {P : Type 0}
    → P
    → List (List (Message P))
    → Server P
    → CallResult P × List (List (Message P)) × Server P
unfolding request await
call params rounds s =
    let (number, s') = request params s in
    let e = await number rounds s'.messages [] in
    (e.result, e.rounds, record s' { messages = e.messages })
