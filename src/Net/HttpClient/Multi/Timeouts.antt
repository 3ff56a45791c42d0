-- ===== src/Net/HttpClient/Multi/Timeouts.antt =====
-- The timer that lib/net/HttpClient.cpp keeps for libcurl, among the timers of the loop.
use reckoning.Common.{
  ℕ, ◌+◌, ◌≡◌, refl, ◌∙◌, ◌≢◌, inl, inr, true, false, ◌||◌, Option, none, some, List, [], ◌∷◌, ltb,
  ◌==◌, arith, Bool-cases,
}
use reckoning.Event.Timers.{
  Timer, Store, timeout, update, ms, schedule, insert_sorted, add_timer, stop, is_active,
}
use reckoning.Event.Timers.Sorted.{From, IsSorted, add_timer-IsSorted}
use reckoning.Event.Timers.Pass.{IsDistinct}
use reckoning.Event.Timers.Stopped.{stop-is_active}
use reckoning.Net.HttpClient.Multi.{Timers, arm, set_timer, multi_timer}

is_active-insert :
    (s : Store)
    → (t u : ℕ) → (us : List ℕ) → is_active u (insert_sorted s t us) ≡ ((t == u) || is_active u us)
unfolding is_active insert_sorted
is_active-insert s t u [] = ground arith
is_active-insert s t u (v ∷ vs) = ground (arith, is_active-insert s t u vs)

insert-IsDistinct :
    (s : Store)
    → (t : ℕ) → (us : List ℕ) → is_active t us ≡ false
    → IsDistinct us
    → IsDistinct (insert_sorted s t us)
unfolding is_active insert_sorted
insert-IsDistinct s t [] a d = (refl, tt)
insert-IsDistinct s t (v ∷ vs) a (d, ds) = elim (Bool-cases (ltb (s v).next (s t).next)) [
  | inl lt ↦
      rw lt (is_active-insert s t v vs ∙ ground arith, insert-IsDistinct s t vs (ground arith) ds)
  | inr ge ↦ rw ge (a, (d, ds))
]

stop-IsDistinct : (t : ℕ) → (us : List ℕ) → IsDistinct us → IsDistinct (stop t us)
unfolding stop is_active
stop-IsDistinct t [] d = tt
stop-IsDistinct t (u ∷ us) (d, ds) = elim (Bool-cases (u == t)) [
  | inl same ↦ rw same ds
  | inr other ↦ rw other (still t u us d, stop-IsDistinct t us ds)
]
  where
    still : (t u : ℕ) → (us : List ℕ) → is_active u us ≡ false → is_active u (stop t us) ≡ false
    still t u [] a = refl
    still t u (v ∷ vs) a = ground (arith, still t u vs)

From-update :
    (n t : ℕ)
    → (v : Timer) → (s : Store) → (us : List ℕ) → is_active t us ≡ false
    → From s n us
    → From (update s t v) n us
unfolding is_active
From-update n t v s [] a f = tt
From-update n t v s (u ∷ us) a f = elim (Bool-cases (u == t)) [
  | inl same ↦ ground arith
  | inr other ↦ (rw other f.0, From-update n t v s us (ground arith) f.1)
]

IsSorted-update :
    (t : ℕ)
    → (v : Timer) → (s : Store) → (us : List ℕ) → is_active t us ≡ false
    → IsSorted s us
    → IsSorted (update s t v) us
unfolding is_active
IsSorted-update t v s [] a h = tt
IsSorted-update t v s (u ∷ us) a h = elim (Bool-cases (u == t)) [
  | inl same ↦ ground arith
  | inr other ↦ rw other (
    From-update (s u).next t v s us (ground arith) h.0,
    IsSorted-update t v s us (ground arith) h.1,
  )
]

-- The timer is set: it is the timer that is kept, in a list that is sorted and holds no timer
-- twice, it is due after the timeout, and the other timers are as they were.
abbrev pub IsArmed : ℕ → ℕ → ℕ → Timers → Timers → Type 0
IsArmed now timeout_ms t s s' =
    (s'.timer ≡ some t)
    × (is_active t s'.timers ≡ true)
    × ((s'.store t).next ≡ now + ms timeout_ms)
    × IsSorted s'.store s'.timers
    × IsDistinct s'.timers
    × ((u : ℕ) → u ≢ t → (is_active u s'.timers ≡ is_active u s.timers) × (s'.store u ≡ s.store u))

-- On a store in which the timer has the timeout, in a list without it.
arm-IsArmed :
    (now timeout_ms t : ℕ)
    → (v : Timer) → (s : Timers) → v.timeout_ms ≡ timeout_ms
    → is_active t s.timers ≡ false
    → IsSorted s.store s.timers
    → IsDistinct s.timers
    → IsArmed now timeout_ms t s (arm now t (record s { store = update s.store t v }))
unfolding add_timer schedule
arm-IsArmed now timeout_ms t v s e a sorted distinct =
    let store : Store = update s.store t v in
    (
      refl,
      is_active-insert (schedule now t store) t t s.timers ∙ ground arith,
      ground arith,
      add_timer-IsSorted now t store s.timers (IsSorted-update t v s.store s.timers a sorted) a,
      insert-IsDistinct (schedule now t store) t s.timers a distinct,
      (λ u ne. (is_active-insert (schedule now t store) t u s.timers ∙ ground arith, ground arith)),
    )

set_timer-stopped :
    (now fresh timeout_ms t : ℕ)
    → (s : Timers) → is_active t (stop t s.timers) ≡ false
    → set_timer now fresh timeout_ms (some t) s
      ≡ some (
          arm now t (record s {
            store = update s.store t (record (s.store t) { timeout_ms = timeout_ms });
            timers = stop t s.timers;
          }))
unfolding set_timer
set_timer-stopped now fresh timeout_ms t s e = ground arith

set_timer-IsArmed :
    (now fresh timeout_ms : ℕ)
    → (timer : Option ℕ) → (s : Timers) → IsSorted s.store s.timers
    → IsDistinct s.timers
    → is_active fresh s.timers ≡ false
    → (t : ℕ) × (s' : Timers) × (set_timer now fresh timeout_ms timer s ≡ some s')
      × IsArmed now timeout_ms t s s'
set_timer-IsArmed now fresh timeout_ms none s sorted distinct new =
    let v : Timer = record { timeout_ms = timeout_ms; next = 0; flag = timeout } in
    (
      fresh,
      arm now fresh (record s { store = update s.store fresh v }),
      (unfold set_timer in refl),
      arm-IsArmed now timeout_ms fresh v s refl new sorted distinct,
    )
set_timer-IsArmed now fresh timeout_ms (some t) s sorted distinct new =
    let v : Timer = record (s.store t) { timeout_ms = timeout_ms } in
    let (active, sorted') = stop-is_active s.store t s.timers sorted distinct in
    let gone : is_active t (stop t s.timers) ≡ false = active t ∙ ground arith in
    let s' : Timers = record s { timers = stop t s.timers } in
    let (kept, on, at, in_order, once, others) =
      arm-IsArmed now timeout_ms t v s' refl gone sorted' (stop-IsDistinct t s.timers distinct) in
    (
      t,
      arm now t (record s' { store = update s.store t v }),
      set_timer-stopped now fresh timeout_ms t s gone,
      (
        kept,
        on,
        at,
        in_order,
        once,
        (λ u ne. ((others u ne).0 ∙ active u ∙ ground arith, (others u ne).1)),
      ),
    )

-- When libcurl sets its timer, no assertion fails, and one timer of the loop is due after the
-- timeout: the one that was kept, which is stopped first, or a new one; the loop's list stays
-- sorted, holds no timer twice, and keeps the other timers. It holds for a list that is sorted,
-- holds no timer twice, and does not hold the new one.
pub multi_timer-IsArmed :
    (now fresh timeout_ms : ℕ)
    → (s : Timers) → IsSorted s.store s.timers
    → IsDistinct s.timers
    → is_active fresh s.timers ≡ false
    → (t : ℕ) × (s' : Timers) × (multi_timer true now fresh timeout_ms s ≡ some s')
      × IsArmed now timeout_ms t s s'
unfolding multi_timer
multi_timer-IsArmed now fresh timeout_ms s sorted distinct new =
    set_timer-IsArmed now fresh timeout_ms s.timer s sorted distinct new
