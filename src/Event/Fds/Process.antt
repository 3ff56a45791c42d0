-- ===== src/Event/Fds/Process.antt =====
-- What `processFd` of lib/event/Loop_epoll.cpp calls, and what `removeFd` of include/event/Loop.h
-- leaves.
use reckoning.Common.{
  ℕ, Bool, true, false, Option, none, some, List, [], ◌∷◌, ◌++◌, ◌≡◌, refl, ◌∙◌, arith, ◌==◌, All,
}
use reckoning.Event.Fds.{
  Handler, Fds, Update, erase_handler, erase_update, erase_removed, add_fd, remove_fd, found,
  called, process_fd,
}

-- The descriptor has no handler in the list.
abbrev pub IsUnhandled : ℕ → List Handler → Type 0
IsUnhandled fd = All (λ h. (h.fd == fd) ≡ false)

process_fd-skip :
    (fd : ℕ) (error : Bool) (before hs : List Handler) (c : Option ℕ) (hs' : List Handler)
    → IsUnhandled fd before
    → process_fd fd error hs ≡ some (c, hs')
    → process_fd fd error (before ++ hs) ≡ some (c, before ++ hs')
unfolding process_fd
process_fd-skip fd error [] hs c hs' u e = e
process_fd-skip fd error (b ∷ bs) hs c hs' u e =
    rw (u.0, process_fd-skip fd error bs hs c hs' u.1 e) refl

process_fd-skip_fault :
    (fd : ℕ) (error : Bool) (before hs : List Handler)
    → IsUnhandled fd before
    → process_fd fd error hs ≡ none
    → process_fd fd error (before ++ hs) ≡ none
unfolding process_fd
process_fd-skip_fault fd error [] hs u e = e
process_fd-skip_fault fd error (b ∷ bs) hs u e =
    rw (u.0, process_fd-skip_fault fd error bs hs u.1 e) refl

process_fd-head :
    (error : Bool) (h : Handler) (hs : List Handler)
    → process_fd h.fd error (h ∷ hs) ≡ called (found error (h ∷ hs))
unfolding process_fd
process_fd-head error h hs = let e : (h.fd == h.fd) ≡ true = ground arith in rw e refl

-- A read or write event calls the callback of its descriptor and keeps the handlers. An error takes
-- the descriptor's handler out, but the callback that is called is that of the handler that stood
-- behind it, and where none did the call reads past the end of the vector.
pub process_fd-called :
    (before after : List Handler) (h : Handler)
    → IsUnhandled h.fd before
    → (process_fd h.fd false (before ++ h ∷ after) ≡ some (some h.callback, before ++ h ∷ after))
      × ((h' : Handler)
          → process_fd h.fd true (before ++ h ∷ h' ∷ after)
            ≡ some (some h'.callback, before ++ h' ∷ after))
      × (process_fd h.fd true (before ++ h ∷ []) ≡ none)
process_fd-called before after h u = (
  process_fd-skip h.fd false before (h ∷ after) (some h.callback) (h ∷ after) u
      (process_fd-head false h after ∙ unfold found in refl),
  λ h'.
      process_fd-skip h.fd true before (h ∷ h' ∷ after) (some h'.callback) (h' ∷ after) u
        (process_fd-head true h (h' ∷ after) ∙ unfold found in refl),
  process_fd-skip_fault h.fd true before (h ∷ []) u
      (process_fd-head true h [] ∙ unfold found in refl),
)

erase_handler-once :
    (fd : ℕ) (before after : List Handler) (h : Handler)
    → IsUnhandled fd before
    → h.fd ≡ fd
    → erase_handler fd (before ++ h ∷ after) ≡ before ++ after
unfolding erase_handler
erase_handler-once fd [] after h u e = ground arith
erase_handler-once fd (b ∷ bs) after h u e = rw (u.0, erase_handler-once fd bs after h u.1 e) refl

erase_handler-absent : (fd : ℕ) (hs : List Handler) → IsUnhandled fd hs → erase_handler fd hs ≡ hs
unfolding erase_handler
erase_handler-absent fd [] u = refl
erase_handler-absent fd (h ∷ hs) u = rw (u.0, erase_handler-absent fd hs u.1) refl

erase_removed-last :
    (fd : ℕ) (ms : List ℕ) → All (λ m. (m == fd) ≡ false) ms → erase_removed fd (ms ++ fd ∷ []) ≡ ms
unfolding erase_removed
erase_removed-last fd [] u = ground arith
erase_removed-last fd (m ∷ ms) u = rw (u.0, erase_removed-last fd ms u.1) refl

erase_update-absent :
    (fd : ℕ) (us : List Update) → All (λ u. (u.fd == fd) ≡ false) us → erase_update fd us ≡ us
unfolding erase_update
erase_update-absent fd [] u = refl
erase_update-absent fd (x ∷ us) u = rw (u.0, erase_update-absent fd us u.1) refl

-- A descriptor that is added, registered at the end of mFds, removed and added again before the
-- loop has dealt with the removal is not closed: it has left mRemovedFds, and mFds, and waits
-- with its new callback.
pub add_fd-remove_fd :
    (s : Fds) (h : Handler) (callback : ℕ) (before after : List Handler)
    → s.fds ≡ before ++ h ∷ after
    → IsUnhandled h.fd before
    → IsUnhandled h.fd s.pending
    → All (λ u. (u.fd == h.fd) ≡ false) s.updates
    → All (λ m. (m == h.fd) ≡ false) s.removed
    → add_fd
        (remove_fd s h.fd)
        h.fd
        (record { error = false; readable = true; writable = false })
        callback
      ≡ some (record s {
        fds = before ++ after;
        pending = s.pending ++ record { fd = h.fd; callback = callback } ∷ [];
      })
unfolding add_fd remove_fd
add_fd-remove_fd s h callback before after e b p u r =
    rw
      (
        e,
        erase_handler-once h.fd before after h b refl,
        erase_handler-absent h.fd s.pending p,
        erase_update-absent h.fd s.updates u,
        erase_removed-last h.fd s.removed r,
      )
      refl
