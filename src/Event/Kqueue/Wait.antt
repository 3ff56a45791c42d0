-- ===== src/Event/Kqueue/Wait.antt =====
-- How long execute of lib/event/Loop_kqueue.cpp waits.
use reckoning.Common.{
  ℕ, ◌+◌, ◌-◌, ◌*◌, ◌≤◌, ◌<◌, ◌/◌, ◌%◌, ◌^◌, ◌>>=◌, subst, min, ◌≡◌, refl, sym, ap, ◌∙◌, inl, inr,
  true, false, Option, none, some, List, [], ◌∷◌, leb, arith, Bool-cases,
}
use reckoning.Event.Timers.{Store}
use reckoning.Event.Timers.Waiting.{narrow_small, narrow_negative, IsIntTime}
use reckoning.Event.Kqueue.{
  Timespec, Limit, limited_by, negative, limit_of, to_timespec, execute_timespec, is_earlier,
  earlier_of, until_timer, wait,
}

-- A timespec in nanoseconds.
abbrev pub nanoseconds : Timespec → ℕ
nanoseconds ts = ts.tv_sec * 1000000000 + ts.tv_nsec

-- The time to wait: to the first timer, but no longer than what is left of the time of `execute`.
abbrev pub shortest : Option ℕ → ℕ → ℕ
shortest none n = n
shortest (some limit) n = min (limit * 1000000) n

nanoseconds-to_timespec : (n : ℕ) → nanoseconds (to_timespec n) ≡ n
unfolding to_timespec
nanoseconds-to_timespec n = omega arith

-- The timespec of a time of `execute` that an int counts.
abbrev ets : ℕ → Timespec
ets n = record { tv_sec = n / 1000; tv_nsec = n % 1000 * 1000000 }

execute_timespec-ets : (n : ℕ) → n < 2 ^ 31 → execute_timespec n ≡ some (ets n)
unfolding execute_timespec
execute_timespec-ets n h = ap (λ o. o >>= λ m. some (ets m)) (narrow_small n h)

nanoseconds-ets : (n : ℕ) → nanoseconds (ets n) ≡ n * 1000000
nanoseconds-ets n = omega arith

-- With fewer than 1000000000 nanoseconds beside the seconds.
abbrev IsNormal : Timespec → Type 0
IsNormal ts = ts.tv_nsec < 1000000000

is_earlier-lt :
    (a b : Timespec)
    → IsNormal a
    → IsNormal b
    → (is_earlier a b ≡ true → nanoseconds a < nanoseconds b)
      × (is_earlier a b ≡ false → nanoseconds b ≤ nanoseconds a)
is_earlier-lt a b na nb = ((λ e. ground arith), (λ e. ground arith))

ets-IsNormal : (n : ℕ) → IsNormal (ets n)
ets-IsNormal n = omega arith

to_timespec-IsNormal : (n : ℕ) → IsNormal (to_timespec n)
unfolding to_timespec
to_timespec-IsNormal n = omega arith

-- A limit of so many nanoseconds.
abbrev pub Lasts : Limit → ℕ → Type 0
Lasts l n = (ts : Timespec) × (l ≡ limited_by ts) × (nanoseconds ts ≡ n)

earlier-Lasts : (n k : ℕ) → Lasts (earlier_of (some (ets n)) (to_timespec k)) (min (n * 1000000) k)
earlier-Lasts n k =
    let (less, more) =
      is_earlier-lt (ets n) (to_timespec k) (ets-IsNormal n) (to_timespec-IsNormal k) in
    elim (Bool-cases (is_earlier (ets n) (to_timespec k))) [
      | inl e ↦
          let lt : nanoseconds (ets n) < nanoseconds (to_timespec k) = less e in
          (ets n, rw e refl, omega (arith, lt, nanoseconds-ets n, nanoseconds-to_timespec k))
      | inr e ↦
          let le : nanoseconds (to_timespec k) ≤ nanoseconds (ets n) = more e in
          (
            to_timespec k,
            rw e refl,
            omega (arith, le, nanoseconds-ets n, nanoseconds-to_timespec k),
          )
    ]

until_timer-Lasts :
    (limit : Option ℕ) → (k : ℕ) → IsIntTime limit → Lasts (until_timer limit k) (shortest limit k)
unfolding until_timer
until_timer-Lasts none k h = (to_timespec k, refl, nanoseconds-to_timespec k)
until_timer-Lasts (some n) k h = rw (execute_timespec-ets n h) (earlier-Lasts n k)

shortest_zero : (limit : Option ℕ) → shortest limit 0 ≡ 0
shortest_zero none = refl
shortest_zero (some n) = omega arith

wait-later :
    (now : ℕ)
    → (limit : Option ℕ) → (s : Store) → (t : ℕ) → (timers : List ℕ) → leb now (s t).next ≡ true
    → wait now limit s (t ∷ timers) ≡ until_timer limit ((s t).next - now)
unfolding wait
wait-later now none s t timers e = ground arith
wait-later now (some n) s t timers e = ground arith

wait-due :
    (now : ℕ)
    → (limit : Option ℕ) → (s : Store) → (t : ℕ) → (timers : List ℕ) → leb now (s t).next ≡ false
    → wait now limit s (t ∷ timers) ≡ limited_by (record { tv_sec = 0; tv_nsec = 0 })
unfolding wait
wait-due now none s t timers e = ground arith
wait-due now (some n) s t timers e = ground arith

-- With a timer, and with a time of `execute` of less than 2^31 milliseconds, if it has one, kevent
-- waits exactly until the first timer is due, however late that is, or until the time of
-- `execute` has passed, if that is sooner, and not at all if the first timer is due already.
pub wait-shortest :
    (now : ℕ)
    → (limit : Option ℕ) → (s : Store) → (t : ℕ) → (timers : List ℕ) → IsIntTime limit
    → Lasts (wait now limit s (t ∷ timers)) (shortest limit ((s t).next - now))
wait-shortest now limit s t timers h = elim (Bool-cases (leb now (s t).next)) [
  | inl e ↦
      subst (λ l. Lasts l (shortest limit ((s t).next - now)))
        (sym (wait-later now limit s t timers e)) (until_timer-Lasts limit ((s t).next - now) h)
  | inr e ↦
      let late : (s t).next - now ≡ 0 = ground arith in
      (
        record { tv_sec = 0; tv_nsec = 0 },
        wait-due now limit s t timers e,
        sym (ap (shortest limit) late ∙ shortest_zero limit),
      )
]

execute_timespec-negative : (m : ℕ) → 2 ^ 31 ≤ m → m < 2 ^ 32 → execute_timespec m ≡ none
unfolding execute_timespec
execute_timespec-negative m l h = ap (λ o. o >>= λ k. some (ets k)) (narrow_negative m l h)

-- From 2^31 to 2^32 milliseconds, the time of `execute` is narrowed to a negative number, and what
-- kevent is given is negative: with a timer that is not due, and with none.
pub wait-negative :
    (now m : ℕ)
    → (s : Store) → (t : ℕ) → (timers : List ℕ) → 2 ^ 31 ≤ m
    → m < 2 ^ 32
    → now ≤ (s t).next
    → (wait now (some m) s (t ∷ timers) ≡ negative) × (wait now (some m) s [] ≡ negative)
unfolding wait until_timer
wait-negative now m s t timers l h later =
    let e : execute_timespec m ≡ none = execute_timespec-negative m l h in
    (
      wait-later now (some m) s t timers (ground arith)
          ∙ ap (λ o. earlier_of o (to_timespec ((s t).next - now))) e,
      ap limit_of e,
    )
