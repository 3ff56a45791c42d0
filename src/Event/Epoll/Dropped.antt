-- ===== src/Event/Epoll/Dropped.antt =====
-- Which of the events of lib/event/Loop_epoll.cpp and lib/event/Loop_kqueue.cpp are handled.
use reckoning.Common.{
  ℕ, Bool, true, false, not, ◌&&◌, ◌||◌, Option, none, some, List, [], ◌∷◌, if◌then◌else◌, ◌>>=◌,
  subst, ap, ◌∙◌, ◌≡◌, refl, Bool-cases, Option-cases, inl, inr, ◌==◌,
}
use reckoning.Event.Fds.{Handler, process_fd}
use reckoning.Event.Kqueue.{
  FdFlag, fd_read, fd_write, fd_error, Kevent, failed, ready, read_filter, write_filter, Dispatch,
  is_fd_error, called_with, deliver, readable, broken, on_kevent, on_kevents,
}
use reckoning.Event.Epoll.{EpollEvent, on_ready, on_event, on_events}

-- One call after another, whatever they overwrite.
abbrev pub each :
    {A : Type 0} → (A → Dispatch → Option Dispatch) → List A → Dispatch → Option Dispatch
each f [] d = some d
each f (x ∷ xs) d = f x d >>= each f xs

-- The list up to and including the first that passes the test.
abbrev pub up_to : {A : Type 0} → (A → Bool) → List A → List A
up_to p [] = []
up_to p (x ∷ xs) = x ∷ (if p x then [] else up_to p xs)

-- What a call leaves of `overwritten`, if it does not fail.
Leaves : Bool → Option Dispatch → Type 0
Leaves b none = Unit {0}
Leaves b (some d) = d.overwritten ≡ b

bind-Leaves :
    (b : Bool)
    → (f : Dispatch → Option Dispatch) → (o : Option Dispatch) → Leaves b o
    → ((d : Dispatch) → Leaves d.overwritten (f d))
    → Leaves b (o >>= f)
unfolding Leaves
bind-Leaves b f none l keeps = tt
bind-Leaves b f (some d) l keeps = subst (λ x. Leaves x (f d)) l (keeps d)

-- The rest of the loop, behind a call: it ends at once if the bound was overwritten.
rest-up_to :
    {A : Type 0}
    → (f : A → Dispatch → Option Dispatch) → (xs : List A) → (rest : Dispatch → Option Dispatch)
    → (b : Bool) → (o : Option Dispatch) → Leaves b o
    → ((d : Dispatch) → d.overwritten ≡ true → rest d ≡ some d)
    → ((d : Dispatch) → d.overwritten ≡ false → rest d ≡ each f xs d)
    → (o >>= rest) ≡ (o >>= each f (if b then [] else xs))
unfolding Leaves
rest-up_to f xs rest b none l stops goes = refl
rest-up_to f xs rest true (some d) l stops goes = stops d l
rest-up_to f xs rest false (some d) l stops goes = goes d l

-- An event of epoll behind which the loop ends: an error, or data in the wakeup pipe.
abbrev pub ends : ℕ → EpollEvent → Bool
ends wakeup e = e.error_or_hup && not e.rdhup || (e.epollin || e.rdhup) && e.fd == wakeup

abbrev pub ends_kevent : ℕ → Kevent → Bool
ends_kevent wakeup (failed fd) = true
ends_kevent wakeup (ready read_filter fd) = fd == wakeup
ends_kevent wakeup (ready write_filter fd) = false

module _ (run : ℕ → List Handler → List Handler) (wakeup : ℕ) where
  called_with-Leaves :
      (fd : ℕ)
      → (flag : FdFlag) → (d : Dispatch) → (o : Option (Option ℕ × List Handler))
      → Leaves d.overwritten (called_with run wakeup fd flag d o)
  unfolding Leaves
  called_with-Leaves fd flag d none = tt
  called_with-Leaves fd flag d (some (none, hs)) = refl
  called_with-Leaves fd flag d (some (some c, hs)) = refl

  deliver-Leaves :
      (fd : ℕ)
      → (flag : FdFlag) → (d : Dispatch) → Leaves d.overwritten (deliver run wakeup fd flag d)
  unfolding deliver
  deliver-Leaves fd flag d =
      called_with-Leaves fd flag d (process_fd fd (is_fd_error flag) d.handlers)

  kept-deliver :
      (fd : ℕ)
      → (flag : FdFlag) → (d : Dispatch) → d.overwritten ≡ false
      → Leaves false (deliver run wakeup fd flag d)
  kept-deliver fd flag d h =
      subst (λ x. Leaves x (deliver run wakeup fd flag d)) h (deliver-Leaves fd flag d)

  broken-Leaves : (fd : ℕ) → (d : Dispatch) → Leaves true (broken run wakeup fd d)
  unfolding broken Leaves
  broken-Leaves fd d = elim (Option-cases (deliver run wakeup fd fd_error d)) [
    | inl e ↦ rw e tt
    | inr (d', e) ↦ rw e refl
  ]

  readable-Leaves :
      (fd : ℕ)
      → (d : Dispatch) → d.overwritten ≡ false
      → Leaves (fd == wakeup) (readable run wakeup fd d)
  unfolding readable Leaves
  readable-Leaves fd d h = elim (Bool-cases (fd == wakeup)) [
    | inl e ↦ rw e refl
    | inr e ↦ rw e (unfold Leaves in kept-deliver fd fd_read d h)
  ]

  on_ready-Leaves :
      (i o : Bool)
      → (fd : ℕ) → (d : Dispatch) → d.overwritten ≡ false
      → Leaves (i && fd == wakeup) (on_ready run wakeup i o fd d)
  unfolding on_ready
  on_ready-Leaves false false fd d h = unfold Leaves in h
  on_ready-Leaves true false fd d h = readable-Leaves fd d h
  on_ready-Leaves false true fd d h = kept-deliver fd fd_write d h
  on_ready-Leaves true true fd d h =
      bind-Leaves (fd == wakeup) (deliver run wakeup fd fd_write) (readable run wakeup fd d)
        (readable-Leaves fd d h) (deliver-Leaves fd fd_write)

  on_event-Leaves :
      (e : EpollEvent)
      → (d : Dispatch) → d.overwritten ≡ false
      → Leaves (ends wakeup e) (on_event run wakeup e d)
  unfolding on_event
  on_event-Leaves e d h = elim (Bool-cases (e.error_or_hup && not e.rdhup)) [
    | inl b ↦ rw b (broken-Leaves e.fd d)
    | inr b ↦ rw b (on_ready-Leaves (e.epollin || e.rdhup) e.epollout e.fd d h)
  ]

  on_kevent-Leaves :
      (k : Kevent)
      → (d : Dispatch) → d.overwritten ≡ false
      → Leaves (ends_kevent wakeup k) (on_kevent run wakeup k d)
  unfolding on_kevent
  on_kevent-Leaves (failed fd) d h = broken-Leaves fd d
  on_kevent-Leaves (ready read_filter fd) d h = readable-Leaves fd d h
  on_kevent-Leaves (ready write_filter fd) d h = kept-deliver fd fd_write d h

  on_events-stops :
      (es : List EpollEvent)
      → (d : Dispatch) → d.overwritten ≡ true
      → on_events run wakeup es d ≡ some d
  unfolding on_events
  on_events-stops [] d h = refl
  on_events-stops (e ∷ es) d h = rw h refl

  on_kevents-stops :
      (ks : List Kevent)
      → (d : Dispatch) → d.overwritten ≡ true
      → on_kevents run wakeup ks d ≡ some d
  unfolding on_kevents
  on_kevents-stops [] d h = refl
  on_kevents-stops (k ∷ ks) d h = rw h refl

  on_events-up_to :
      (es : List EpollEvent)
      → (d : Dispatch) → d.overwritten ≡ false
      → on_events run wakeup es d ≡ each (on_event run wakeup) (up_to (ends wakeup) es) d
  unfolding on_events
  on_events-up_to [] d h = refl
  on_events-up_to (e ∷ es) d h =
      ap (λ b. if b then some d else on_event run wakeup e d >>= on_events run wakeup es) h
      ∙ rest-up_to (on_event run wakeup) (up_to (ends wakeup) es) (on_events run wakeup es)
          (ends wakeup e) (on_event run wakeup e d) (on_event-Leaves e d h) (on_events-stops es)
          (on_events-up_to es)

  on_kevents-up_to :
      (ks : List Kevent)
      → (d : Dispatch) → d.overwritten ≡ false
      → on_kevents run wakeup ks d ≡ each (on_kevent run wakeup) (up_to (ends_kevent wakeup) ks) d
  unfolding on_kevents
  on_kevents-up_to [] d h = refl
  on_kevents-up_to (k ∷ ks) d h =
      ap (λ b. if b then some d else on_kevent run wakeup k d >>= on_kevents run wakeup ks) h
      ∙ rest-up_to (on_kevent run wakeup) (up_to (ends_kevent wakeup) ks) (on_kevents run wakeup ks)
          (ends_kevent wakeup k) (on_kevent run wakeup k d) (on_kevent-Leaves k d h)
          (on_kevents-stops ks) (on_kevents-up_to ks)

  -- From a bound that is not overwritten yet: of the events that epoll_wait or kevent gave, those
  -- behind the first error, or behind the first data in the wakeup pipe, are dropped: the loop
  -- does what the calls for the events up to that one do, in order, and no more.
  pub on_events-dropped :
      (es : List EpollEvent)
      → (ks : List Kevent) → (d : Dispatch) → d.overwritten ≡ false
      → (on_events run wakeup es d ≡ each (on_event run wakeup) (up_to (ends wakeup) es) d)
        × (on_kevents run wakeup ks d
            ≡ each (on_kevent run wakeup) (up_to (ends_kevent wakeup) ks) d)
  on_events-dropped es ks d h = (on_events-up_to es d h, on_kevents-up_to ks d h)
