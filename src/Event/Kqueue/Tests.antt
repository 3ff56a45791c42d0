-- ===== src/Event/Kqueue/Tests.antt =====
-- The turn of the loop over kqueue, and the events of both loops, at concrete inputs.
use reckoning.Common.{◌≡◌, refl, true, false, none, some, List, [], ◌∷◌}
use reckoning.Event.Timers.{Store, timeout}
use reckoning.Event.Fds.{Update}
use reckoning.Event.Kqueue.{
  wait, changes, read_filter, write_filter, ready, Dispatch, fd_read, fd_write, fd_error, Kevent,
  on_kevent, on_kevents,
}
use reckoning.Event.Kqueue.Wait.{Lasts, wait-shortest}
use reckoning.Event.Kqueue.Changes.{asked, changes-modifications}
use reckoning.Event.Epoll.{EpollEvent, modifications, on_event, on_events}
use reckoning.Event.Epoll.Dropped.{ends, ends_kevent, each, up_to, on_events-dropped}

-- Four weeks away, which is more milliseconds than an int counts.
abbrev late : Store
late t = record { timeout_ms = 2500000000; next = 2500000000000000; flag = timeout }

wait-shortest_example : Lasts (wait 0 none late (0 ∷ [])) 2500000000000000
wait-shortest_example = wait-shortest 0 none late 0 [] tt

abbrev two_updates : List Update
two_updates =
    record { fd = 4; flags = record { error = false; readable = true; writable = true } }
    ∷ record { fd = 4; flags = record { error = false; readable = true; writable = false } }
    ∷ []

changes-modifications_example : asked (changes two_updates) 4 write_filter ≡ some false
unfolding modifications
changes-modifications_example = changes-modifications two_updates 4 write_filter

abbrev dispatch : Dispatch
dispatch = record {
  handlers = record { fd = 4; callback = 40 } ∷ record { fd = 5; callback = 50 } ∷ [];
  calls = [];
  closed = [];
  overwritten = false;
}

-- Data and room at the descriptor 4, an error at 4 with a handler behind it, and data at 5.
abbrev three_events : List EpollEvent
three_events =
    record { fd = 4; error_or_hup = false; rdhup = false; epollin = true; epollout = true }
    ∷ record { fd = 4; error_or_hup = true; rdhup = false; epollin = true; epollout = false }
    ∷ record { fd = 5; error_or_hup = false; rdhup = false; epollin = true; epollout = false }
    ∷ []

-- The wakeup pipe, which is 3, has data before 5 has.
abbrev two_kevents : List Kevent
two_kevents = ready read_filter 3 ∷ ready read_filter 5 ∷ []

on_events-dropped_example :
    (on_events (λ callback hs. hs) 3 three_events dispatch
      ≡ each (on_event (λ callback hs. hs) 3) (up_to (ends 3) three_events) dispatch)
    × (on_kevents (λ callback hs. hs) 3 two_kevents dispatch
        ≡ each (on_kevent (λ callback hs. hs) 3) (up_to (ends_kevent 3) two_kevents) dispatch)
on_events-dropped_example =
    on_events-dropped (λ callback hs. hs) 3 three_events two_kevents dispatch refl

-- The callback of 5 is called for the error of 4, and not for its own data.
on_events_test :
    on_events (λ callback hs. hs) 3 three_events dispatch
    ≡ some (record {
      handlers = record { fd = 5; callback = 50 } ∷ [];
      calls = (40, 4, fd_read) ∷ (40, 4, fd_write) ∷ (50, 4, fd_error) ∷ [];
      closed = 4 ∷ [];
      overwritten = true;
    })
unfolding on_events
on_events_test = refl
