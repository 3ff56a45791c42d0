-- ===== src/Net/HttpClient/Multi.antt =====
-- HttpClient of lib/net/HttpClient.cpp between libcurl's multi interface and the loop: the
-- callbacks for sockets and for the timer, and the events of a socket. A timeout is not negative.
pub mod Sockets
pub mod Timeouts
pub mod Transfers
pub mod Balance
use reckoning.Common.{
  ℕ, zero, suc, ◌+◌, Bool, true, false, not, Option, none, some, List, [], ◌∷◌, ◌++◌, ◌==◌,
  if◌then◌else◌, ◌>>=◌, ◌>>◌, guard, Bytes,
}
use reckoning.Event.Fds.{Fds, Flags, add_fd, update_fd, remove_fd}
use reckoning.Event.Timers.{Timer, Store, timeout, update, add_timer, stop, is_active}

-- What libcurl asks for: CURL_POLL_NONE, IN, OUT, INOUT and REMOVE.
pub data Poll : Type 0 where
  poll_none poll_in poll_out poll_inout poll_remove : Poll

-- `curlToReckoning`.
abbrev pub curl_to_reckoning : Poll → Flags
curl_to_reckoning poll_in = record { error = false; readable = true; writable = false }
curl_to_reckoning poll_out = record { error = false; readable = false; writable = true }
curl_to_reckoning poll_inout = record { error = false; readable = true; writable = true }
curl_to_reckoning _ = record { error = false; readable = false; writable = false }

-- The callback that is added is `callback`. What libcurl keeps for the socket is an
-- HttpSocketInfo, of which the descriptor counts.
unfoldable pub watch : ℕ → Poll → ℕ → Option ℕ → Fds → Option (Option ℕ × Fds)
unfolding add_fd update_fd remove_fd
watch callback what socket none s = do
  s' ← add_fd s socket (curl_to_reckoning what) callback
  some (some socket, s')
watch callback what socket (some fd) s =
    if socket == fd
    then (do s' ← update_fd s socket (curl_to_reckoning what); some (some fd, s'))
    else (do
      s' ← add_fd (remove_fd s socket) socket (curl_to_reckoning what) callback
      some (some socket, s'))

-- `multiSocketCallback`, where the loop is still there or not.
unfoldable pub multi_socket : Bool → ℕ → Poll → ℕ → Option ℕ → Fds → Option (Option ℕ × Fds)
unfolding watch
multi_socket false callback what socket info s = some (info, s)
multi_socket true callback poll_remove socket info s = some (none, remove_fd s socket)
multi_socket true callback what socket info s = watch callback what socket info s

-- The timers of the loop, and the timer of HttpCurlInfo, if there is one.
pub record Timers : Type 0 where
  pub store : Store
  pub timers : List ℕ
  pub timer : Option ℕ

abbrev pub arm : ℕ → ℕ → Timers → Timers
arm now t s =
    let (store, timers) = add_timer now t s.store s.timers in
    record { store = store; timers = timers; timer = some t }

-- A new timer gets the name `fresh`; otherwise the timer is stopped, and `updateTimeout` asserts
-- that it is.
unfoldable pub set_timer : ℕ → ℕ → ℕ → Option ℕ → Timers → Option Timers
unfolding add_timer stop is_active
set_timer now fresh timeout_ms none s =
    let t : Timer = record { timeout_ms = timeout_ms; next = 0; flag = timeout } in
    some (arm now fresh (record s { store = update s.store fresh t }))
set_timer now fresh timeout_ms (some t) s = do
  let timers' : List ℕ = stop t s.timers
  _ ← guard (not (is_active t timers'))
  let store' : Store = update s.store t (record (s.store t) { timeout_ms = timeout_ms })
  some (arm now t (record s { store = store'; timers = timers' }))

-- `multiTimerCallback`.
unfoldable pub multi_timer : Bool → ℕ → ℕ → ℕ → Timers → Option Timers
unfolding set_timer
multi_timer false now fresh timeout_ms s = some s
multi_timer true now fresh timeout_ms s = set_timer now fresh timeout_ms s.timer s

-- The timer once no transfer runs, in `socketEventCallback`.
unfoldable pub end_timer : Option ℕ → Timers → Timers
unfolding stop
end_timer none s = s
end_timer (some t) s = record s { timers = stop t s.timers; timer = none }
