-- ===== src/Event/Epoll.antt =====
-- The events of execute in lib/event/Loop_epoll.cpp, and the calls of epoll_ctl for mUpdateFds.
pub mod Dropped
use reckoning.Common.{
  ℕ, Bool, true, false, not, ◌&&◌, ◌||◌, Option, none, some, List, [], ◌∷◌, ◌++◌, ◌==◌,
  if◌then◌else◌, ◌>>=◌, ◌≡◌, refl, ap, sym, ◌∙◌, Bool-cases, Option-cases, inl, inr, arith,
}
use reckoning.Event.Fds.{Fds, Flags, Update, Handler}
use reckoning.Event.Kqueue.{
  Kevent, failed, ready, read_filter, write_filter, fd_write, Dispatch, deliver, readable, broken,
  on_kevent, on_kevents,
}

-- EPOLLIN and EPOLLOUT of an EPOLL_CTL_MOD; EPOLLRDHUP and EPOLLET are always set.
pub record Modified : Type 0 where
  pub fd : ℕ
  pub epollin : Bool
  pub epollout : Bool

-- "update sockets".
unfoldable pub modifications : List Update → List Modified
modifications [] = []
modifications (u ∷ us) =
    record { fd = u.fd; epollin = u.flags.readable; epollout = u.flags.writable } ∷ modifications us

-- An epoll_event: is EPOLLERR or EPOLLHUP set, and EPOLLRDHUP, EPOLLIN, EPOLLOUT?
pub record EpollEvent : Type 0 where
  pub fd : ℕ
  pub error_or_hup : Bool
  pub rdhup : Bool
  pub epollin : Bool
  pub epollout : Bool

module _ (run : ℕ → List Handler → List Handler) (wakeup : ℕ) where
  unfoldable pub on_ready : Bool → Bool → ℕ → Dispatch → Option Dispatch
  unfolding readable deliver
  on_ready false false fd d = some d
  on_ready true false fd d = readable run wakeup fd d
  on_ready false true fd d = deliver run wakeup fd fd_write d
  on_ready true true fd d = do d' ← readable run wakeup fd d; deliver run wakeup fd fd_write d'

  unfoldable pub on_event : EpollEvent → Dispatch → Option Dispatch
  unfolding on_ready broken
  on_event e d =
      if e.error_or_hup && not e.rdhup
      then broken run wakeup e.fd d
      else on_ready (e.epollin || e.rdhup) e.epollout e.fd d

  -- The loop over the events that epoll_wait gave, up to the bound `e`.
  unfoldable pub on_events : List EpollEvent → Dispatch → Option Dispatch
  unfolding on_event
  on_events [] d = some d
  on_events (e ∷ es) d = if d.overwritten then some d else on_event e d >>= on_events es
