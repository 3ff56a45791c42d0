-- ===== src/Event/Timers/Pass.antt =====
-- One pass of "fire timers" of lib/event/Loop_epoll.cpp over a sorted list of timers.
use reckoning.Common.{
  ℕ, ◌+◌, ◌<◌, Bool, true, false, not, ◌&&◌, ◌||◌, List, [], ◌∷◌, ◌≡◌, inl, inr, refl, sym, ap,
  subst, ◌∙◌, arith, leb, ◌==◌, if◌then◌else◌, Bool-cases,
}
use reckoning.Event.Timers.{Timer, Store, ms, is_interval, schedule, visit, is_active, collect}
use reckoning.Event.Timers.Sorted.{IsSorted, From}

pub is_due : ℕ → Store → ℕ → Bool
is_due now s t = leb (s t).next now

-- The timers of a list that are due.
pub all_due : ℕ → Store → List ℕ → List ℕ
unfolding is_due
all_due now s [] = []
all_due now s (t ∷ ts) = if is_due now s t then t ∷ all_due now s ts else all_due now s ts

-- No timer is in the list twice.
abbrev pub IsDistinct : List ℕ → Type 0
IsDistinct [] = Unit {0}
IsDistinct (t ∷ ts) = (is_active t ts ≡ false) × IsDistinct ts

all_due_none : (now n : ℕ) (s : Store) (ts : List ℕ) → now < n → From s n ts → all_due now s ts ≡ []
unfolding all_due is_due
all_due_none now n s [] h f = refl
all_due_none now n s (t ∷ ts) h f =
    let late : leb (s t).next now ≡ false = ground arith in rw late (all_due_none now n s ts h f.1)

active-not_due :
    (now n t : ℕ) (s : Store) (ts : List ℕ)
    → now < n
    → From s n ts
    → is_active t ts ≡ true
    → is_due now s t ≡ false
unfolding is_active is_due
active-not_due now n t s [] h f a = ground arith
active-not_due now n t s (u ∷ us) h f a = elim (Bool-cases (u == t)) [
  | inl same ↦ ground arith
  | inr other ↦ active-not_due now n t s us h f.1 (ground arith)
]

-- After a pass over `timers`, `rest` holds the timers that were there, less the due ones that fire
-- once, and only the times of the due interval timers are set: the two equations of one timer.
abbrev pub KeptAt : ℕ → Store → List ℕ → Store → List ℕ → ℕ → Type 0
KeptAt now s timers s' rest t =
    (is_active t rest ≡ is_active t timers && (not (is_due now s t) || is_interval (s t).flag))
    × (s' t ≡ (
        if is_active t timers && (is_due now s t && is_interval (s t).flag)
        then record (s t) { next = now + ms (s t).timeout_ms }
        else s t))

-- Where every timer of the list that is due is known, both equations are Boolean.
Kept-not_due :
    (a d i : Bool) (x y : Timer)
    → (a ≡ true → d ≡ false)
    → (a ≡ a && (not d || i)) × (x ≡ (if a && (d && i) then y else x))
Kept-not_due false d i x y h = (refl, refl)
Kept-not_due true d i x y h = rw (h refl) (refl, refl)

Kept-later :
    (now n : ℕ) (s : Store) (ts : List ℕ) → now < n → From s n ts → (u : ℕ) → KeptAt now s ts s ts u
Kept-later now n s ts h f u =
    Kept-not_due (is_active u ts) (is_due now s u) (is_interval (s u).flag) (s u) _
      λ a. active-not_due now n u s ts h f a

visit-other : (now t u : ℕ) (s : Store) → (t == u) ≡ false → visit now t s u ≡ s u
unfolding visit schedule
visit-other now t u s h = ground arith

visit_self :
    (now t : ℕ) (s : Store)
    → visit now t s t
      ≡ (if is_interval (s t).flag then record (s t) { next = now + ms (s t).timeout_ms } else s t)
unfolding visit schedule
visit_self now t s = ground arith

head-other : (t u : ℕ) (us : List ℕ) → is_active t (u ∷ us) ≡ false → (t == u) ≡ false
unfolding is_active
head-other t u us a = ground arith

tail-other : (t u : ℕ) (us : List ℕ) → is_active t (u ∷ us) ≡ false → is_active t us ≡ false
unfolding is_active
tail-other t u us a = ground arith

From-visit :
    (now t n : ℕ) (s : Store) (us : List ℕ)
    → is_active t us ≡ false
    → From s n us
    → From (visit now t s) n us
From-visit now t n s [] a f = tt
From-visit now t n s (u ∷ us) a f = (
  rw (visit-other now t u s (head-other t u us a)) f.0,
  From-visit now t n s us (tail-other t u us a) f.1,
)

IsSorted-visit :
    (now t : ℕ) (s : Store) (us : List ℕ)
    → is_active t us ≡ false
    → IsSorted s us
    → IsSorted (visit now t s) us
IsSorted-visit now t s [] a h = tt
IsSorted-visit now t s (u ∷ us) a h = (
  rw (visit-other now t u s (head-other t u us a))
      (From-visit now t (s u).next s us (tail-other t u us a) h.0),
  IsSorted-visit now t s us (tail-other t u us a) h.1,
)

all_due-visit :
    (now m t : ℕ) (s : Store) (us : List ℕ)
    → is_active t us ≡ false
    → all_due m (visit now t s) us ≡ all_due m s us
unfolding all_due is_due
all_due-visit now m t s [] a = refl
all_due-visit now m t s (u ∷ us) a =
    rw
      (
        visit-other now t u s (head-other t u us a),
        all_due-visit now m t s us (tail-other t u us a),
      )
      refl

-- One step of the pass, by whether the first timer is due.
collect-due :
    (now t : ℕ) (s : Store) (ts : List ℕ)
    → is_due now s t ≡ true
    → collect now s (t ∷ ts) ≡ (
      t ∷ (collect now (visit now t s) ts).0,
      (collect now (visit now t s) ts).1,
      if is_interval (s t).flag
          then t ∷ (collect now (visit now t s) ts).2
          else (collect now (visit now t s) ts).2,
    )
unfolding collect is_due
collect-due now t s ts h = rw h refl

collect-later :
    (now t : ℕ) (s : Store) (ts : List ℕ)
    → is_due now s t ≡ false
    → collect now s (t ∷ ts) ≡ ([], s, t ∷ ts)
unfolding collect is_due
collect-later now t s ts h = rw h refl

late : (now t : ℕ) (s : Store) → is_due now s t ≡ false → now < (s t).next
unfolding is_due
late now t s h = ground arith

-- A pass over a sorted list that holds no timer twice.
pub collect-all_due :
    (now : ℕ) (s : Store) (ts : List ℕ)
    → IsSorted s ts
    → IsDistinct ts
    → (collect now s ts).0 ≡ all_due now s ts
unfolding all_due
collect-all_due now s [] h d = unfold collect in refl
collect-all_due now s (t ∷ ts) h d = elim (Bool-cases (is_due now s t)) [
  | inl due ↦
      rw (collect-due now t s ts due, due)
        (ap (λ l. t ∷ l)
          (collect-all_due now (visit now t s) ts (IsSorted-visit now t s ts d.0 h.1) d.1
            ∙ all_due-visit now now t s ts d.0))
  | inr later ↦
      rw (collect-later now t s ts later, later)
        (sym (all_due_none now (s t).next s ts (late now t s later) h.0))
]

active_self :
    (i : Bool) (t : ℕ) (rest : List ℕ)
    → is_active t rest ≡ false
    → is_active t (if i then t ∷ rest else rest) ≡ i
unfolding is_active
active_self true t rest a = ground arith
active_self false t rest a = a

active-other :
    (i : Bool) (t u : ℕ) (rest : List ℕ)
    → (t == u) ≡ false
    → is_active u (if i then t ∷ rest else rest) ≡ is_active u rest
unfolding is_active
active-other true t u rest o = rw o refl
active-other false t u rest o = refl

active-head : (t : ℕ) (ts : List ℕ) → is_active t (t ∷ ts) ≡ true
unfolding is_active
active-head t ts = ground arith

active-tail : (t u : ℕ) (ts : List ℕ) → (t == u) ≡ false → is_active u (t ∷ ts) ≡ is_active u ts
unfolding is_active
active-tail t u ts o = rw o refl

KeptAt-self :
    (now t : ℕ) (s : Store) (ts : List ℕ)
    → is_due now s t ≡ true
    → is_active t ts ≡ false
    → (s' : Store) (rest : List ℕ) → KeptAt now (visit now t s) ts s' rest t
    → KeptAt now s (t ∷ ts) s' (if is_interval (s t).flag then t ∷ rest else rest) t
KeptAt-self now t s ts due a s' rest k = (
  active_self (is_interval (s t).flag) t rest (k.0 ∙ rw a refl) ∙ rw (active-head t ts, due) refl,
  rw (active-head t ts, due) (k.1 ∙ rw a (visit_self now t s)),
)

KeptAt-other :
    (now t u : ℕ) (s : Store) (ts : List ℕ)
    → (t == u) ≡ false
    → (s' : Store) (rest : List ℕ) → KeptAt now (visit now t s) ts s' rest u
    → KeptAt now s (t ∷ ts) s' (if is_interval (s t).flag then t ∷ rest else rest) u
unfolding is_due
KeptAt-other now t u s ts o s' rest k =
    let e : visit now t s u ≡ s u = visit-other now t u s o in
    (
      active-other (is_interval (s t).flag) t u rest o ∙ k.0 ∙ rw (active-tail t u ts o, e) refl,
      k.1 ∙ rw (active-tail t u ts o, e) refl,
    )

KeptAt-due :
    (now u : ℕ) (s : Store) (us : List ℕ)
    → is_due now s u ≡ true
    → is_active u us ≡ false
    → (s' : Store) (rest : List ℕ) → ((t : ℕ) → KeptAt now (visit now u s) us s' rest t)
    → (t : ℕ) → KeptAt now s (u ∷ us) s' (if is_interval (s u).flag then u ∷ rest else rest) t
KeptAt-due now u s us due a s' rest k t = elim (Bool-cases (u == t)) [
  | inl same ↦
      let e : u ≡ t = ground arith in
      subst (λ w. KeptAt now s (u ∷ us) s' (if is_interval (s u).flag then u ∷ rest else rest) w) e
        (KeptAt-self now u s us due a s' rest (k u))
  | inr other ↦ KeptAt-other now u t s us other s' rest (k t)
]

pub collect-Kept :
    (now : ℕ) (s : Store) (ts : List ℕ)
    → IsSorted s ts
    → IsDistinct ts
    → (t : ℕ) → KeptAt now s ts (collect now s ts).1 (collect now s ts).2 t
collect-Kept now s [] h d t = unfold collect is_active in (refl, refl)
collect-Kept now s (u ∷ us) h d t = elim (Bool-cases (is_due now s u)) [
  | inl due ↦ rw (collect-due now u s us due) (
      KeptAt-due now u s us due d.0 _ _
        (collect-Kept now (visit now u s) us (IsSorted-visit now u s us d.0 h.1) d.1) t)
  | inr later ↦
      rw (collect-later now u s us later)
        (Kept-later now (s u).next s (u ∷ us) (late now u s later) ((omega arith), h.0) t)
]
