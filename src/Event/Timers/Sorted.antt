-- ===== src/Event/Timers/Sorted.antt =====
-- The list of timers stays sorted by their times, and holds the timers that were added.
use reckoning.Common.{
  ℕ, ◌≤◌, false, List, [], ◌∷◌, ◌≡◌, inl, inr, arith, ltb, ◌==◌, Bool-cases, All,
}
use reckoning.Event.Timers.{Store, schedule, insert_sorted, add_timer, is_active, resort}

-- Every time in the list is at least `n`.
abbrev pub From : Store → ℕ → List ℕ → Type 0
From s n = All (λ u. n ≤ (s u).next)

abbrev pub IsSorted : Store → List ℕ → Type 0
IsSorted s [] = Unit {0}
IsSorted s (u ∷ us) = From s (s u).next us × IsSorted s us

From-mono : {m n : ℕ} (s : Store) (us : List ℕ) → m ≤ n → From s n us → From s m us
From-mono s [] h f = tt
From-mono s (u ∷ us) h f = (omega arith, From-mono s us h f.1)

From-insert_sorted :
    (s : Store) (n t : ℕ) (us : List ℕ)
    → n ≤ (s t).next
    → From s n us
    → From s n (insert_sorted s t us)
unfolding insert_sorted
From-insert_sorted s n t [] h f = (h, tt)
From-insert_sorted s n t (u ∷ us) h f = elim (Bool-cases (ltb (s u).next (s t).next)) [
  | inl before ↦ rw before (f.0, From-insert_sorted s n t us h f.1)
  | inr after ↦ rw after (h, f)
]

pub insert_sorted-IsSorted :
    (s : Store) (t : ℕ) (us : List ℕ) → IsSorted s us → IsSorted s (insert_sorted s t us)
unfolding insert_sorted
insert_sorted-IsSorted s t [] h = (tt, tt)
insert_sorted-IsSorted s t (u ∷ us) h = elim (Bool-cases (ltb (s u).next (s t).next)) [
  | inl before ↦
      rw before
        (From-insert_sorted s (s u).next t us (ground arith) h.0, insert_sorted-IsSorted s t us h.1)
  | inr after ↦ rw after ((ground arith, From-mono s us (ground arith) h.0), h)
]

pub resort-IsSorted : (s : Store) (us : List ℕ) → IsSorted s (resort s us)
unfolding resort
resort-IsSorted s [] = tt
resort-IsSorted s (u ∷ us) = insert_sorted-IsSorted s u (resort s us) (resort-IsSorted s us)

-- A timer's time matters only where it is in the list.
From-schedule :
    (now t n : ℕ) (s : Store) (us : List ℕ)
    → is_active t us ≡ false
    → From s n us
    → From (schedule now t s) n us
unfolding schedule is_active
From-schedule now t n s [] a f = tt
From-schedule now t n s (u ∷ us) a f = elim (Bool-cases (u == t)) [
  | inl same ↦ ground arith
  | inr other ↦ (rw other f.0, From-schedule now t n s us (ground arith) f.1)
]

IsSorted-schedule :
    (now t : ℕ) (s : Store) (us : List ℕ)
    → is_active t us ≡ false
    → IsSorted s us
    → IsSorted (schedule now t s) us
unfolding schedule is_active
IsSorted-schedule now t s [] a h = tt
IsSorted-schedule now t s (u ∷ us) a h = elim (Bool-cases (u == t)) [
  | inl same ↦ ground arith
  | inr other ↦ rw other (
    From-schedule now t (s u).next s us (ground arith) h.0,
    IsSorted-schedule now t s us (ground arith) h.1,
  )
]

-- `addTimer` on a timer that is not in the list keeps the list sorted by the times of the timers.
pub add_timer-IsSorted :
    (now t : ℕ) (s : Store) (timers : List ℕ)
    → IsSorted s timers
    → is_active t timers ≡ false
    → IsSorted (add_timer now t s timers).0 (add_timer now t s timers).1
unfolding add_timer
add_timer-IsSorted now t s timers h a =
    insert_sorted-IsSorted (schedule now t s) t timers (IsSorted-schedule now t s timers a h)
