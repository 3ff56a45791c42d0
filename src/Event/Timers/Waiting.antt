-- ===== src/Event/Timers/Waiting.antt =====
-- How long execute of lib/event/Loop_epoll.cpp waits for events when timers are set.
use reckoning.Common.{
  ℕ, ◌+◌, ◌-◌, ◌*◌, ◌/◌, ◌^◌, ◌≤◌, ◌<◌, min, refl, Option, none, some, List, ◌∷◌, ◌≡◌, ap, ◌∙◌,
  arith, leb, Bool-cases, inl, inr,
}
use reckoning.Event.Timers.{Store, narrow, int_timeout, poll_timeout, limited, wait_time}

pub narrow_small : (n : ℕ) → n < 2 ^ 31 → narrow n ≡ some n
unfolding narrow
narrow_small n h = ground arith

pub narrow_negative : (n : ℕ) → 2 ^ 31 ≤ n → n < 2 ^ 32 → narrow n ≡ none
unfolding narrow
narrow_negative n l h = ground arith

poll_timeout-later :
    (now : ℕ) (execute_timeout : Option ℕ) (s : Store) (t : ℕ) (ts : List ℕ)
    → now ≤ (s t).next
    → poll_timeout now execute_timeout s (t ∷ ts) ≡ narrow (((s t).next - now) / 1000000)
unfolding poll_timeout
poll_timeout-later now m s t ts h = ground arith

poll_timeout-due :
    (now : ℕ) (execute_timeout : Option ℕ) (s : Store) (t : ℕ) (ts : List ℕ)
    → (s t).next < now
    → poll_timeout now execute_timeout s (t ∷ ts) ≡ some 0
unfolding poll_timeout
poll_timeout-due now m s t ts h = ground arith

-- A time of `execute` that an int counts, if there is one.
abbrev pub IsIntTime : Option ℕ → Type 0
IsIntTime none = Unit {0}
IsIntTime (some m) = m < 2 ^ 31

-- The shorter of the time of `execute` and `n`.
abbrev pub shorter : Option ℕ → ℕ → ℕ
shorter none n = n
shorter (some m) n = min m n

limited-shorter :
    (execute_timeout : Option ℕ) (n : ℕ)
    → IsIntTime execute_timeout
    → n < 2 ^ 31
    → limited (int_timeout execute_timeout) (some n) ≡ some (shorter execute_timeout n)
unfolding int_timeout
limited-shorter none n h k = ap some (omega arith)
limited-shorter (some m) n h k = ap (λ o. limited o (some n)) (narrow_small m h)

limited-none : (o : Option ℕ) → limited o none ≡ none
limited-none none = refl
limited-none (some m) = refl

wait_time-poll_timeout :
    (now : ℕ) (execute_timeout : Option ℕ) (s : Store) (ts : List ℕ) (n : ℕ)
    → IsIntTime execute_timeout
    → n < 2 ^ 31
    → poll_timeout now execute_timeout s ts ≡ some n
    → wait_time now execute_timeout s ts ≡ some (shorter execute_timeout n)
unfolding wait_time
wait_time-poll_timeout now m s ts n h k e = ap (limited (int_timeout m)) e ∙ limited-shorter m n h k

-- Where the first timer is less than 2^31 milliseconds away, and the time of `execute`, if it has
-- one, is less than 2^31 milliseconds, the wait has a limit: it is the time to that timer in whole
-- milliseconds, or the time of `execute` if that is shorter.
pub wait_time-in_time :
    (now : ℕ) (execute_timeout : Option ℕ) (s : Store) (t : ℕ) (ts : List ℕ)
    → IsIntTime execute_timeout
    → (s t).next < now + 1000000 * 2 ^ 31
    → wait_time now execute_timeout s (t ∷ ts)
      ≡ some (shorter execute_timeout (((s t).next - now) / 1000000))
wait_time-in_time now m s t ts i h = elim (Bool-cases (leb now (s t).next)) [
  | inl later ↦
      let k : ℕ = ((s t).next - now) / 1000000 in
      wait_time-poll_timeout now m s (t ∷ ts) k i (omega arith)
        (poll_timeout-later now m s t ts (ground arith) ∙ narrow_small k (omega arith))
  | inr due ↦
      let lt : (s t).next < now = ground arith in
      let zero : 0 ≡ ((s t).next - now) / 1000000 = omega arith in
      wait_time-poll_timeout now m s (t ∷ ts) 0 i (omega arith)
        (poll_timeout-due now m s t ts (ground arith))
      ∙ ap (λ n. some (shorter m n)) zero
]

-- Where the first timer is from 2^31 to 2^32 milliseconds away, the count is narrowed to a negative
-- number, and the wait has no limit: the timer does not end it, nor does the time of `execute`.
pub wait_time-unlimited :
    (now : ℕ) (execute_timeout : Option ℕ) (s : Store) (t : ℕ) (ts : List ℕ)
    → now + 1000000 * 2 ^ 31 ≤ (s t).next
    → (s t).next < now + 1000000 * 2 ^ 32
    → wait_time now execute_timeout s (t ∷ ts) ≡ none
unfolding wait_time
wait_time-unlimited now m s t ts l h =
    ap (limited (int_timeout m)) (
      poll_timeout-later now m s t ts (omega arith)
      ∙ narrow_negative (((s t).next - now) / 1000000) (omega arith) (omega arith))
    ∙ limited-none (int_timeout m)
