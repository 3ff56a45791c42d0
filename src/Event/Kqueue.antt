-- ===== src/Event/Kqueue.antt =====
-- One turn of execute in lib/event/Loop_kqueue.cpp that differs from Loop_epoll.cpp: the wait,
-- the changes of filters, and the events that come. The rest of the turn is in Event/Queue,
-- Event/Fds and Event/Timers.
pub mod Wait
pub mod Changes
mod Tests
use reckoning.Common.{
  ℕ, zero, suc, ◌+◌, ◌-◌, ◌*◌, ◌/◌, ◌%◌, Bool, true, false, ◌&&◌, ◌||◌, Option, none, some, List,
  [], ◌∷◌, ◌++◌, ltb, leb, ◌==◌, if◌then◌else◌, ◌>>=◌,
}
use reckoning.Event.Timers.{Store, narrow}
use reckoning.Event.Fds.{Fds, Flags, Update, Handler, process_fd}

pub record Timespec : Type 0 where
  pub tv_sec : ℕ
  pub tv_nsec : ℕ

-- `duration_cast<timespec>` of nanoseconds.
unfoldable pub to_timespec : ℕ → Timespec
to_timespec n = record { tv_sec = n / 1000000000; tv_nsec = (n - n / 1000000000 * 1000000000) }

-- What kevent is given: no limit, a timespec, or one that is negative, which it refuses.
pub data Limit : Type 0 where
  without_limit : Limit
  limited_by : Timespec → Limit
  negative : Limit

-- `ets`, from the count of milliseconds of `execute`, narrowed to an int; `none` if it is negative.
unfoldable pub execute_timespec : ℕ → Option Timespec
unfolding narrow
execute_timespec n = do
  m ← narrow n
  some (record { tv_sec = m / 1000; tv_nsec = m % 1000 * 1000000 })

abbrev pub is_earlier : Timespec → Timespec → Bool
is_earlier a b = ltb a.tv_sec b.tv_sec || a.tv_sec == b.tv_sec && ltb a.tv_nsec b.tv_nsec

-- A negative `ets` is earlier than every `ts`.
abbrev pub earlier_of : Option Timespec → Timespec → Limit
earlier_of none ts = negative
earlier_of (some ets) ts = if is_earlier ets ts then limited_by ets else limited_by ts

abbrev pub limit_of : Option Timespec → Limit
limit_of none = negative
limit_of (some ets) = limited_by ets

-- `tsptr` where the first timer is `n` nanoseconds away.
unfoldable pub until_timer : Option ℕ → ℕ → Limit
unfolding to_timespec execute_timespec
until_timer none n = limited_by (to_timespec n)
until_timer (some m) n = earlier_of (execute_timespec m) (to_timespec n)

-- `tsptr`, at a time and with the time of `execute`, if it has one; without one, and without a
-- timer, kevent waits without limit.
unfoldable pub wait : ℕ → Option ℕ → Store → List ℕ → Limit
unfolding until_timer execute_timespec
wait now none s [] = without_limit
wait now (some m) s [] = limit_of (execute_timespec m)
wait now limit s (t ∷ ts) =
    if leb now (s t).next
    then until_timer limit ((s t).next - now)
    else limited_by (record { tv_sec = 0; tv_nsec = 0 })

pub data Filter : Type 0 where
  read_filter write_filter : Filter

-- EV_ADD|EV_ENABLE, or EV_DELETE|EV_DISABLE, for a filter of a descriptor.
pub data Change : Type 0 where
  adds : ℕ → Filter → Change
  deletes : ℕ → Filter → Change

abbrev pub change : Bool → ℕ → Filter → Change
change true fd f = adds fd f
change false fd f = deletes fd f

-- "update sockets": the changes for mUpdateFds, which is then empty.
unfoldable pub changes : List Update → List Change
changes [] = []
changes (u ∷ us) =
    change u.flags.readable u.fd read_filter
    ∷ change u.flags.writable u.fd write_filter
    ∷ changes us

abbrev pub take_updates : Fds → List Change × Fds
take_updates s = (changes s.updates, record s { updates = [] })

-- "process removed fds" and "remove fds": the descriptors that are closed.
unfoldable pub take_removed : Fds → List ℕ × Fds
take_removed s = (s.removed, record s { removed = [] })

-- An event with EV_ERROR, or of a filter.
pub data Kevent : Type 0 where
  failed : ℕ → Kevent
  ready : Filter → ℕ → Kevent

pub data FdFlag : Type 0 where
  fd_error fd_read fd_write : FdFlag

-- mFds, the calls of callbacks so far, the descriptors that were closed, and whether `e`, the
-- bound of the loop over the events, has been overwritten: `eintrwrap(e, ...)` sets it to what
-- close or the last read gives, which is 0 or -1.
pub record Dispatch : Type 0 where
  pub handlers : List Handler
  pub calls : List (ℕ × ℕ × FdFlag)
  pub closed : List ℕ
  pub overwritten : Bool

abbrev pub is_fd_error : FdFlag → Bool
is_fd_error fd_error = true
is_fd_error _ = false

module _ (run : ℕ → List Handler → List Handler) (wakeup : ℕ) where
  abbrev pub called_with :
      ℕ → FdFlag → Dispatch → Option (Option ℕ × List Handler) → Option Dispatch
  called_with fd flag d none = none
  called_with fd flag d (some (none, hs)) = some (record d { handlers = hs })
  called_with fd flag d (some (some callback, hs)) =
      some (record d { handlers = run callback hs; calls = d.calls ++ (callback, fd, flag) ∷ [] })

  -- `processFd(fd, flag)`; `run` is what a callback does to mFds.
  unfoldable pub deliver : ℕ → FdFlag → Dispatch → Option Dispatch
  unfolding process_fd
  deliver fd flag d = called_with fd flag d (process_fd fd (is_fd_error flag) d.handlers)

  -- The wakeup pipe is read until it is empty, by reads into `e`.
  unfoldable pub readable : ℕ → Dispatch → Option Dispatch
  unfolding deliver
  readable fd d =
      if fd == wakeup then some (record d { overwritten = true }) else deliver fd fd_read d

  -- After an error the descriptor is closed, by a close into `e`.
  unfoldable pub broken : ℕ → Dispatch → Option Dispatch
  unfolding deliver
  broken fd d = do
    d' ← deliver fd fd_error d
    some (record d' { closed = d'.closed ++ fd ∷ []; overwritten = true })

  unfoldable pub on_kevent : Kevent → Dispatch → Option Dispatch
  unfolding readable broken deliver
  on_kevent (failed fd) d = broken fd d
  on_kevent (ready read_filter fd) d = readable fd d
  on_kevent (ready write_filter fd) d = deliver fd fd_write d

  -- The loop over the events that kevent gave, up to the bound `e`.
  unfoldable pub on_kevents : List Kevent → Dispatch → Option Dispatch
  unfolding on_kevent
  on_kevents [] d = some d
  on_kevents (e ∷ es) d = if d.overwritten then some d else on_kevent e d >>= on_kevents es
