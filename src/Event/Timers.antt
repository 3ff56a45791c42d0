-- ===== src/Event/Timers.antt =====
-- The timers of include/event/Loop.h and lib/event/Loop_epoll.cpp. A timer is an object that the
-- loop and others share, so it is a name into a store, and the loop holds a list of names. Times
-- are those of the steady clock, in nanoseconds; timeouts are in milliseconds.
pub mod Sorted
pub mod Pass
pub mod Firing
pub mod Stopped
pub mod Waiting
use reckoning.Common.{
  ℕ, suc, ◌+◌, ◌-◌, ◌*◌, ◌/◌, ◌%◌, ◌^◌, ◌≤◌, ◌<◌, Bool, true, false, Option, none, some, List, [],
  ◌∷◌, ◌++◌, ltb, leb, ◌==◌, if◌then◌else◌, min, ◌>>=◌,
}

pub data TimerFlag : Type 0 where
  timeout interval : TimerFlag

pub record Timer : Type 0 where
  pub timeout_ms : ℕ
  pub next : ℕ
  pub flag : TimerFlag

abbrev pub Store : Type 0
Store = ℕ → Timer

abbrev pub update : Store → ℕ → Timer → Store
update s t v u = if u == t then v else s u

abbrev pub ms : ℕ → ℕ
ms n = n * 1000000

-- `t->mNext = now + t->mTimeout`.
unfoldable pub schedule : ℕ → ℕ → Store → Store
schedule now t s = update s t (record (s t) { next = now + ms (s t).timeout_ms })

-- std::lower_bound and insert: in front of the first timer that is not due before `t`.
unfoldable pub insert_sorted : Store → ℕ → List ℕ → List ℕ
insert_sorted s t [] = t ∷ []
insert_sorted s t (u ∷ us) =
    if ltb (s u).next (s t).next then u ∷ insert_sorted s t us else t ∷ u ∷ us

-- `addTimer(t)` at time `now`.
unfoldable pub add_timer : ℕ → ℕ → Store → List ℕ → Store × List ℕ
unfolding schedule insert_sorted
add_timer now t s timers = let s' = schedule now t s in (s', insert_sorted s' t timers)

-- `stop()`: the first entry of this timer is erased.
unfoldable pub stop : ℕ → List ℕ → List ℕ
stop t [] = []
stop t (u ∷ us) = if u == t then us else u ∷ stop t us

-- `isActive()`.
unfoldable pub is_active : ℕ → List ℕ → Bool
is_active t [] = false
is_active t (u ∷ us) = if u == t then true else is_active t us

unfoldable pub is_interval : TimerFlag → Bool
is_interval timeout = false
is_interval interval = true

-- An interval timer that is due is set again.
unfoldable pub visit : ℕ → ℕ → Store → Store
unfolding schedule
visit now t s = if is_interval (s t).flag then schedule now t s else s

-- One pass over the due timers: those to execute, the store, and the timers that are left.
unfoldable pub collect : ℕ → Store → List ℕ → List ℕ × Store × List ℕ
unfolding visit
collect now s [] = ([], s, [])
collect now s (t ∷ ts) =
    let (due, s', rest) = collect now (visit now t s) ts in
    if leb (s t).next now
    then (t ∷ due, s', if is_interval (s t).flag then t ∷ rest else rest)
    else ([], s, t ∷ ts)

-- The sort that follows, by insertion; std::sort leaves open how equal times are ordered.
unfoldable pub resort : Store → List ℕ → List ℕ
unfolding insert_sorted
resort s [] = []
resort s (u ∷ us) = insert_sorted s u (resort s us)

-- "fire timers", up to their execution.
unfoldable pub fire : ℕ → Store → List ℕ → List ℕ × Store × List ℕ
unfolding collect resort
fire now s timers = let (due, s', rest) = collect now s timers in (due, s', resort s' rest)

-- The value of an int that a 64-bit count, in two's complement, is narrowed to; `none` if it is
-- negative.
unfoldable pub narrow : ℕ → Option ℕ
narrow n = if ltb (n % 2 ^ 32) (2 ^ 31) then some (n % 2 ^ 32) else none

-- `executeTimeout`: the count of milliseconds of `execute`, narrowed to an int, or the greatest int
-- if it has none. After a turn it is what is left, which is a positive int.
unfoldable pub int_timeout : Option ℕ → Option ℕ
unfolding narrow
int_timeout none = some (2 ^ 31 - 1)
int_timeout (some m) = narrow m

-- `hasTimeout ? executeTimeout : -1`.
unfoldable pub no_timer : Option ℕ → Option ℕ
unfolding narrow
no_timer none = none
no_timer (some m) = narrow m

-- `epollTimeout`: the time to the first timer, which `std::min<int>` narrows before it compares;
-- with no timer, the time of `execute`. `none` is a negative number.
unfoldable pub poll_timeout : ℕ → Option ℕ → Store → List ℕ → Option ℕ
unfolding narrow no_timer
poll_timeout now execute_timeout s [] = no_timer execute_timeout
poll_timeout now execute_timeout s (t ∷ ts) =
    if leb now (s t).next then narrow (((s t).next - now) / 1000000) else some 0

-- `std::min(a, b)` of two ints.
abbrev pub limited : Option ℕ → Option ℕ → Option ℕ
limited none b = none
limited (some m) none = none
limited (some m) (some n) = some (min m n)

-- The wait of epoll_wait; on `none`, which is negative, it waits without limit.
unfoldable pub wait_time : ℕ → Option ℕ → Store → List ℕ → Option ℕ
unfolding poll_timeout int_timeout
wait_time now execute_timeout s timers =
    limited (int_timeout execute_timeout) (poll_timeout now execute_timeout s timers)
