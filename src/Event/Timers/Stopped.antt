-- ===== src/Event/Timers/Stopped.antt =====
-- What `stop` of include/event/Loop.h leaves in the loop's list of timers.
use reckoning.Common.{
  ℕ, true, false, not, ◌&&◌, List, [], ◌∷◌, ◌≡◌, inl, inr, refl, arith, ◌==◌, Bool-cases,
}
use reckoning.Event.Timers.{Store, stop, is_active}
use reckoning.Event.Timers.Sorted.{From, IsSorted}
use reckoning.Event.Timers.Pass.{IsDistinct}

is_active-stop :
    (t u : ℕ) (timers : List ℕ)
    → IsDistinct timers
    → is_active u (stop t timers) ≡ is_active u timers && not (t == u)
unfolding stop is_active
is_active-stop t u [] d = refl
is_active-stop t u (v ∷ vs) d = elim (Bool-cases (v == t)) [
  | inl same ↦
      let a : is_active v vs ≡ false = d.0 in
      rw same (elim (Bool-cases (t == u)) [
        | inl mine ↦
            let e : v ≡ u = ground arith in
            let e' : (v == u) ≡ true = ground arith in rw (mine, e', ← e, a) refl
        | inr other ↦ let e : (v == u) ≡ false = ground arith in ground arith
      ])
  | inr other ↦
      let ih : is_active u (stop t vs) ≡ is_active u vs && not (t == u) =
        is_active-stop t u vs d.1 in
      rw (other, ih)
        (elim (Bool-cases (v == u)) [
          | inl mine ↦ let e : (t == u) ≡ false = ground arith in rw (mine, e) refl
          | inr theirs ↦ rw theirs refl
        ])
]

From-stop : (s : Store) (n t : ℕ) (us : List ℕ) → From s n us → From s n (stop t us)
unfolding stop
From-stop s n t [] f = tt
From-stop s n t (u ∷ us) f = elim (Bool-cases (u == t)) [
  | inl same ↦ rw same f.1
  | inr other ↦ rw other (f.0, From-stop s n t us f.1)
]

stop-IsSorted :
    (s : Store) (t : ℕ) (timers : List ℕ) → IsSorted s timers → IsSorted s (stop t timers)
unfolding stop
stop-IsSorted s t [] h = tt
stop-IsSorted s t (u ∷ us) h = elim (Bool-cases (u == t)) [
  | inl same ↦ rw same h.1
  | inr other ↦ rw other (From-stop s (s u).next t us h.0, stop-IsSorted s t us h.1)
]

-- In a sorted list that holds no timer twice, `stop` takes out just its timer, which is then not
-- active, and the list stays sorted.
pub stop-is_active :
    (s : Store) (t : ℕ) (timers : List ℕ)
    → IsSorted s timers
    → IsDistinct timers
    → ((u : ℕ) → is_active u (stop t timers) ≡ is_active u timers && not (t == u))
      × IsSorted s (stop t timers)
stop-is_active s t timers h d = (λ u. is_active-stop t u timers d, stop-IsSorted s t timers h)
