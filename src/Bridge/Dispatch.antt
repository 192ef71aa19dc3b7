-- ===== src/Bridge/Dispatch.antt =====
-- The methods of `NativeVisionBridge` that press keys: `start`, `_dispatch_due` and `close`.
use chers.Base.{ℕ, suc, ◌+◌, sub_ℕ, Bool, true, not, none, some, List, [], ◌∷◌, ltb, if◌then◌else◌}
use chers.Bridge.Queue.{Scheduled}
use chers.Bridge.State.{
  Bridge, Outcome, done, raised, start, action_dropped, action_sent, late_at_dispatch,
  bridge_closed, started_twice, key_failed, workers_alive, late_ns, check, log,
}
use chers.Bridge.Operations.{tick, now}

-- What the environment gives: the clock's readings; which key presses succeed, by the count of
-- readings and the lane.
module _ (clock : ℕ → ℕ) (key_works : ℕ → ℕ → Bool) where
  -- `start`; the start key is lane-less, and is asked for at 16, past the lanes.
  unfoldable pub start_game : Bridge → Outcome (Unit {0}) × Bridge
  unfolding check
  start_game b = elim (check b) [
    | some e ↦ (raised e, b)
    | none ↦
        if b.started
        then (raised started_twice, b)
        else if key_works b.ticks 16
        then (done tt, log (start (now clock b)) (tick (record b { started = true })))
        else (raised key_failed, b)
  ]

  -- One ready action of `_dispatch_due`, which has left the queue: it is dropped if it is late, and
  -- else its key is pressed.
  unfoldable pub send : Scheduled → Bridge → Outcome (Unit {0}) × Bridge
  send a b =
      if ltb (a.due + late_ns) (now clock b)
      then (done tt, log (action_dropped a.action_id late_at_dispatch) (tick b))
      else if key_works (suc b.ticks) a.lane
      then (
        done tt,
        log
            (action_sent a.action_id a.lane (now clock b) (now clock (tick b))
              (sub_ℕ (now clock b) a.due))
            (tick (tick b)),
      )
      else (raised key_failed, tick b)

  -- The loop of `_dispatch_due` over the queue, which it takes from the front.
  unfoldable pub dispatch : List Scheduled → Bridge → Outcome (Unit {0}) × Bridge
  dispatch [] b = (done tt, record b { pending = [] })
  dispatch (a ∷ q) b =
      let sent = send a (record (tick b) { pending = q }) in
      let rest = dispatch q sent.1 in
      if ltb (now clock b) a.due
      then (done tt, record (tick b) { pending = a ∷ q })
      else elim sent.0 [ done _ ↦ rest | raised e ↦ (raised e, sent.1) ]

  -- `_dispatch_due`
  unfoldable pub dispatch_due : Bridge → Outcome (Unit {0}) × Bridge
  dispatch_due b = elim (check b) [ some e ↦ (raised e, b) | none ↦ dispatch b.pending b ]

-- The loop of `close` that empties the queue.
unfoldable pub drop_all : List Scheduled → Bridge → Bridge
drop_all [] b = record b { pending = [] }
drop_all (a ∷ q) b = drop_all q (log (action_dropped a.action_id bridge_closed) b)

-- `close`, given whether the workers stop in time and whether the keyboard closes without a raise.
unfoldable pub close : Bool → Bool → Bridge → Outcome (Unit {0}) × Bridge
close workers_stop keys_close b =
    if b.closed
    then (done tt, b)
    else if not workers_stop
    then (
      (if keys_close then raised workers_alive else raised key_failed),
      record b { stopped = true },
    )
    else (
      (if keys_close then done tt else raised key_failed),
      record (drop_all b.pending (record b { stopped = true })) { closed = true },
    )
