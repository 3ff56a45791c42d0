-- ===== src/Event/Tests.antt =====
-- Timers, descriptors and signals at concrete inputs.
use reckoning.Common.{
  ℕ, true, false, none, some, List, [], ◌∷◌, ◌++◌, ◌≡◌, refl, arith, ◌==◌, if◌then◌else◌, All,
}
use reckoning.Event.Timers.{
  timeout, interval, is_interval, Store, ms, is_active, add_timer, fire, wait_time,
}
use reckoning.Event.Timers.Sorted.{IsSorted, add_timer-IsSorted}
use reckoning.Event.Timers.Pass.{all_due, KeptAt}
use reckoning.Event.Timers.Firing.{fire-due}
use reckoning.Event.Timers.Waiting.{wait_time-in_time, wait_time-unlimited}
use reckoning.Event.Fds.{Handler, Fds, register, process_fd}
use reckoning.Event.Fds.Register.{register-fault}
use reckoning.Event.Fds.Kept.{survivors, register-total}
use reckoning.Event.Fds.Process.{process_fd-called}
use reckoning.Event.Signal.{Connections, disconnect, emit}
use reckoning.Event.Signal.Emission.{IsSilent, emit-disconnect}
use reckoning.Event.Queue.{Queue, drain}
use reckoning.Event.Queue.Order.{fifo, drain-fifo}
use reckoning.Common.{length, Bool}

-- Timer `t` fires `t` milliseconds after 0; timer 1 is an interval.
abbrev timers_at : Store
timers_at t = record { timeout_ms = t; next = ms t; flag = if t == 1 then interval else timeout }

abbrev three_timers : List ℕ
three_timers = 1 ∷ 2 ∷ 5 ∷ []

three_timers-IsSorted : IsSorted timers_at three_timers
three_timers-IsSorted = ((omega arith, (omega arith, tt)), ((omega arith, tt), (tt, tt)))

add_timer-IsSorted_example :
    IsSorted (add_timer 0 3 timers_at three_timers).0 (add_timer 0 3 timers_at three_timers).1
add_timer-IsSorted_example =
    add_timer-IsSorted 0 3 timers_at three_timers three_timers-IsSorted (unfold is_active in refl)

fire_runs : (fire (ms 2) timers_at three_timers).0 ≡ 1 ∷ 2 ∷ []
unfolding fire is_interval
fire_runs = refl

fire-due_example :
    ((fire (ms 2) timers_at three_timers).0 ≡ all_due (ms 2) timers_at three_timers)
    × IsSorted (fire (ms 2) timers_at three_timers).1 (fire (ms 2) timers_at three_timers).2
    × ((t : ℕ)
        → KeptAt
            (ms 2)
            timers_at
            three_timers
            (fire (ms 2) timers_at three_timers).1
            (fire (ms 2) timers_at three_timers).2
            t)
unfolding is_active
fire-due_example =
    fire-due (ms 2) timers_at three_timers three_timers-IsSorted (refl, (refl, (refl, tt)))

wait_time-in_time_example : wait_time 0 (some 10) timers_at (2 ∷ 5 ∷ []) ≡ some 2
wait_time-in_time_example =
    wait_time-in_time 0 (some 10) timers_at 2 (5 ∷ []) (omega arith) (omega arith)

-- A timer of thirty days.
wait_time-unlimited_example : wait_time 0 (some 10) timers_at (2592000000 ∷ []) ≡ none
wait_time-unlimited_example =
    wait_time-unlimited 0 (some 10) timers_at 2592000000 [] (omega arith) (omega arith)

abbrev handlers : List Handler
handlers =
    record { fd = 3; callback = 30 }
    ∷ record { fd = 4; callback = 40 }
    ∷ record { fd = 5; callback = 50 }
    ∷ []

abbrev one_pending : Fds
one_pending = record {
  fds = handlers;
  pending = record { fd = 4; callback = 41 } ∷ [];
  updates = [];
  removed = [];
}

abbrev two_pending : Fds
two_pending = record one_pending {
  pending = record { fd = 6; callback = 60 } ∷ record { fd = 7; callback = 70 } ∷ [];
}

register-fault_example : register two_pending ≡ none
register-fault_example =
    register-fault two_pending (record { fd = 6; callback = 60 })
      (record { fd = 7; callback = 70 } ∷ []) 1 1 refl refl (omega arith) (omega arith)

-- The descriptors of the pending handlers are those of the registered ones, in another order.
abbrev again_pending : Fds
again_pending = record one_pending {
  pending =
      record { fd = 3; callback = 31 }
      ∷ record { fd = 5; callback = 51 }
      ∷ record { fd = 4; callback = 41 }
      ∷ [];
}

-- Only the handler of 3 meets its pending one: those of 4 and 5 stay.
register-total_example :
    register again_pending
    ≡ some (
      record again_pending {
        fds =
            survivors
              (record { fd = 3; callback = 31 }
                ∷ record { fd = 5; callback = 51 }
                ∷ record { fd = 4; callback = 41 }
                ∷ [])
              0
              handlers
            ++ again_pending.pending;
        pending = [];
      },
      3 ∷ 5 ∷ 4 ∷ [],
    )
register-total_example =
    register-total again_pending (record { fd = 3; callback = 31 })
      (record { fd = 5; callback = 51 } ∷ record { fd = 4; callback = 41 } ∷ []) 1 refl refl

process_fd-called_example :
    (process_fd 4 false handlers ≡ some (some 40, handlers))
    × ((h' : Handler)
        → process_fd 4 true (
            record { fd = 3; callback = 30 }
            ∷ record { fd = 4; callback = 40 }
            ∷ h'
            ∷ record { fd = 5; callback = 50 }
            ∷ [])
          ≡ some (
            some h'.callback,
            record { fd = 3; callback = 30 } ∷ h' ∷ record { fd = 5; callback = 50 } ∷ [],
          ))
    × (process_fd 4 true (record { fd = 3; callback = 30 } ∷ record { fd = 4; callback = 40 } ∷ [])
        ≡ none)
process_fd-called_example =
    process_fd-called (record { fd = 3; callback = 30 } ∷ [])
      (record { fd = 5; callback = 50 } ∷ []) (record { fd = 4; callback = 40 }) (refl, tt)

-- Connection 1 belongs to loop 7, the others to none; all are connected.
abbrev connections : Connections
connections n = record { function = n; loop = if n == 1 then some 7 else none; connected = true }

emit-disconnect_example :
    IsSilent 2 (emit none (λ f. f ∷ []) (disconnect 2 connections) (1 ∷ 2 ∷ 3 ∷ [])).0
    × All
        (λ n. (n == 2) ≡ false)
        (emit none (λ f. f ∷ []) (disconnect 2 connections) (1 ∷ 2 ∷ 3 ∷ [])).2
emit-disconnect_example = emit-disconnect none (λ f. f ∷ []) connections (1 ∷ 2 ∷ 3 ∷ []) 2

-- Event 1 posts event 3, and event 2 calls `exit`.
abbrev posts : ℕ → List ℕ × Bool
posts e = (if e == 1 then 3 ∷ [] else [], e == 2)

abbrev two_events : Queue
two_events = record { events = 1 ∷ 2 ∷ []; stopped = false }

drain_stops : drain posts 5 two_events ≡ (1 ∷ 2 ∷ [], record { events = 3 ∷ []; stopped = true })
unfolding drain
drain_stops = refl

drain-fifo_example :
    fifo posts (length (drain posts 5 two_events).0) (1 ∷ 2 ∷ [])
    ≡ ((drain posts 5 two_events).0, (drain posts 5 two_events).1.events)
drain-fifo_example = drain-fifo posts 5 two_events
