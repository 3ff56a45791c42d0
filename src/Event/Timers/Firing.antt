-- ===== src/Event/Timers/Firing.antt =====
-- Which timers "fire timers" of lib/event/Loop_epoll.cpp executes, and which it leaves.
use reckoning.Common.{
  ℕ, true, List, [], ◌∷◌, ◌≡◌, inl, inr, refl, ap, ◌∙◌, arith, ltb, ◌==◌, if◌then◌else◌, Bool-cases,
}
use reckoning.Event.Timers.{Store, is_active, collect, resort, insert_sorted, fire}
use reckoning.Event.Timers.Sorted.{IsSorted, resort-IsSorted}
use reckoning.Event.Timers.Pass.{all_due, IsDistinct, KeptAt, collect-all_due, collect-Kept}

active-cons :
    (t u : ℕ) (us vs : List ℕ)
    → is_active u us ≡ is_active u vs
    → is_active u (t ∷ us) ≡ is_active u (t ∷ vs)
unfolding is_active
active-cons t u us vs e = ap (λ b. if t == u then true else b) e

active-swap : (t u v : ℕ) (us : List ℕ) → is_active v (t ∷ u ∷ us) ≡ is_active v (u ∷ t ∷ us)
unfolding is_active
active-swap t u v us = ground arith

active-insert :
    (s : Store) (t u : ℕ) (ts : List ℕ) → is_active u (insert_sorted s t ts) ≡ is_active u (t ∷ ts)
unfolding insert_sorted
active-insert s t u [] = refl
active-insert s t u (v ∷ vs) = elim (Bool-cases (ltb (s v).next (s t).next)) [
  | inl before ↦ rw before (
      active-cons v u (insert_sorted s t vs) (t ∷ vs) (active-insert s t u vs)
      ∙ active-swap v t u vs)
  | inr after ↦ rw after refl
]

active-resort : (s : Store) (u : ℕ) (ts : List ℕ) → is_active u (resort s ts) ≡ is_active u ts
unfolding resort
active-resort s u [] = refl
active-resort s u (t ∷ ts) =
    active-insert s t u (resort s ts) ∙ active-cons t u (resort s ts) ts (active-resort s u ts)

-- When timers fire on a sorted list that holds no timer twice, exactly the due timers of the list
-- are executed, in order; afterwards the list is sorted again, it holds the timers that it held
-- less the due ones that fire once, and each due interval timer is set to fire a timeout from now
-- while every other timer keeps its time.
pub fire-due :
    (now : ℕ) (s : Store) (timers : List ℕ)
    → IsSorted s timers
    → IsDistinct timers
    → ((fire now s timers).0 ≡ all_due now s timers)
      × IsSorted (fire now s timers).1 (fire now s timers).2
      × ((t : ℕ) → KeptAt now s timers (fire now s timers).1 (fire now s timers).2 t)
unfolding fire
fire-due now s timers h d = (
  collect-all_due now s timers h d,
  resort-IsSorted (collect now s timers).1 (collect now s timers).2,
  λ t.
      rw (active-resort (collect now s timers).1 t (collect now s timers).2)
        (collect-Kept now s timers h d t),
)
