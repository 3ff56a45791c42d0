-- ===== src/Event/Fds.antt =====
-- The file descriptors of include/event/Loop.h and of execute in lib/event/Loop_epoll.cpp. A
-- callback is a name; a run that reads past the end of a vector is `none`.
pub mod Register
pub mod Kept
pub mod Process
use reckoning.Common.{
  ℕ, Bool, true, false, not, ◌&&◌, Option, none, some, List, [], ◌∷◌, ◌++◌, ◌==◌, if◌then◌else◌,
  ◌>>=◌, ◌>>◌, guard, length, map, zero, suc,
}

-- FdError, FdRead and FdWrite.
pub record Flags : Type 0 where
  pub error : Bool
  pub readable : Bool
  pub writable : Bool

pub record Handler : Type 0 where
  pub fd : ℕ
  pub callback : ℕ

pub record Update : Type 0 where
  pub fd : ℕ
  pub flags : Flags

-- mFds, mPendingFds, mUpdateFds and mRemovedFds.
pub record Fds : Type 0 where
  pub fds : List Handler
  pub pending : List Handler
  pub updates : List Update
  pub removed : List ℕ

-- The first handler of a descriptor is erased.
unfoldable pub erase_handler : ℕ → List Handler → List Handler
erase_handler n [] = []
erase_handler n (h ∷ hs) = if h.fd == n then hs else h ∷ erase_handler n hs

unfoldable pub erase_update : ℕ → List Update → List Update
erase_update n [] = []
erase_update n (u ∷ us) = if u.fd == n then us else u ∷ erase_update n us

unfoldable pub erase_removed : ℕ → List ℕ → List ℕ
erase_removed n [] = []
erase_removed n (m ∷ ms) = if m == n then ms else m ∷ erase_removed n ms

-- `addFd(fd, flags, callback)`, which asserts that the flags have no FdError.
unfoldable pub add_fd : Fds → ℕ → Flags → ℕ → Option Fds
unfolding erase_removed
add_fd s fd flags callback = do
  _ ← guard (not flags.error)
  some record {
    fds = s.fds;
    pending = s.pending ++ record { fd = fd; callback = callback } ∷ [];
    updates =
        if flags.writable
        then s.updates ++ record { fd = fd; flags = record flags { error = false } } ∷ []
        else s.updates;
    removed = erase_removed fd s.removed;
  }

-- `updateFd(fd, flags)`.
unfoldable pub update_fd : Fds → ℕ → Flags → Option Fds
update_fd s fd flags = do
  _ ← guard (not flags.error)
  some (record s { updates = s.updates ++ record { fd = fd; flags = flags } ∷ [] })

-- `removeFd(fd)`.
unfoldable pub remove_fd : Fds → ℕ → Fds
unfolding erase_handler erase_update
remove_fd s fd = record {
  fds = erase_handler fd s.fds;
  pending = erase_handler fd s.pending;
  updates = erase_update fd s.updates;
  removed = s.removed ++ fd ∷ [];
}

-- One round of the loop that removes what is pending from mFds: for every pending handler the
-- iterator moves on, by an erasure or a step. `kept` is what it has passed.
unfoldable pub round :
    List Handler → List Handler → List Handler → Option (List Handler × List Handler)
round [] kept rest = some (kept, rest)
round (p ∷ ps) kept [] = none
round (p ∷ ps) kept (h ∷ hs) =
    if p.fd == h.fd then round ps kept hs else round ps (kept ++ h ∷ []) hs

-- The rounds up to the end of mFds, on fuel: each takes at least one handler.
unfoldable pub rounds : ℕ → List Handler → List Handler → List Handler → Option (List Handler)
unfolding round
rounds fuel ps kept [] = some kept
rounds zero ps kept (h ∷ hs) = none
rounds (suc fuel) ps kept (h ∷ hs) = do
  (kept', rest) ← round ps kept (h ∷ hs)
  rounds fuel ps kept' rest

-- "process new fds" for what is pending.
unfoldable pub register_all : Fds → List Handler → Option (Fds × List ℕ)
unfolding rounds
register_all s [] = some (s, [])
register_all s (p ∷ ps) = do
  kept ← rounds (length s.fds) (p ∷ ps) [] s.fds
  some (record s { fds = kept ++ p ∷ ps; pending = [] }, map (λ h. h.fd) (p ∷ ps))

-- "process new fds": the state, and the descriptors that are then given to epoll.
unfoldable pub register : Fds → Option (Fds × List ℕ)
unfolding register_all
register s = register_all s s.pending

-- What `processFd` does when it has found the descriptor at the head of `hs`. On an error the
-- iterator is erased, and what it then designates is the handler that followed.
unfoldable pub found : Bool → List Handler → Option (ℕ × List Handler)
found error [] = none
found false (h ∷ hs) = some (h.callback, h ∷ hs)
found true (h ∷ []) = none
found true (h ∷ h' ∷ hs) = some (h'.callback, h' ∷ hs)

abbrev pub called : Option (ℕ × List Handler) → Option (Option ℕ × List Handler)
called none = none
called (some (c, hs)) = some (some c, hs)

abbrev pub skipped : Handler → Option (Option ℕ × List Handler) → Option (Option ℕ × List Handler)
skipped h none = none
skipped h (some (c, hs)) = some (c, h ∷ hs)

-- `processFd(fd, flags)`: the callback that is called, if any, and mFds.
unfoldable pub process_fd : ℕ → Bool → List Handler → Option (Option ℕ × List Handler)
unfolding found
process_fd fd error [] = some (none, [])
process_fd fd error (h ∷ hs) =
    let rest = process_fd fd error hs in
    if h.fd == fd then called (found error (h ∷ hs)) else skipped h rest
