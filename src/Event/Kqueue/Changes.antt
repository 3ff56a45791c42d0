-- ===== src/Event/Kqueue/Changes.antt =====
-- The filters that lib/event/Loop_kqueue.cpp asks for, and those of lib/event/Loop_epoll.cpp.
use reckoning.Common.{
  ℕ, Bool, true, false, Option, none, some, List, [], ◌∷◌, ◌==◌, if◌then◌else◌, ◌≡◌, refl, sym, ap,
  ap₂, ◌∙◌,
}
use reckoning.Event.Fds.{Update}
use reckoning.Event.Kqueue.{
  Filter, read_filter, write_filter, Change, adds, deletes, change, changes,
}
use reckoning.Event.Epoll.{Modified, modifications}

abbrev pub or_else : {A : Type 0} → Option A → Option A → Option A
or_else none o = o
or_else (some a) o = some a

abbrev pub is_same : Filter → Filter → Bool
is_same read_filter read_filter = true
is_same write_filter write_filter = true
is_same _ _ = false

-- Is the filter asked for by this change?
abbrev pub asked_by : Change → ℕ → Filter → Option Bool
asked_by (adds n g) fd f = if n == fd then if is_same g f then some true else none else none
asked_by (deletes n g) fd f = if n == fd then if is_same g f then some false else none else none

-- What the last change for a filter of a descriptor asks for, if there is one.
abbrev pub asked : List Change → ℕ → Filter → Option Bool
asked [] fd f = none
asked (c ∷ cs) fd f = or_else (asked cs fd f) (asked_by c fd f)

-- The last modification of a descriptor.
abbrev pub last_modified : List Modified → ℕ → Option Modified
last_modified [] fd = none
last_modified (m ∷ ms) fd = or_else (last_modified ms fd) (if m.fd == fd then some m else none)

abbrev pub events_of : Filter → Modified → Bool
events_of read_filter m = m.epollin
events_of write_filter m = m.epollout

abbrev pub asked_of : Filter → Option Modified → Option Bool
asked_of f none = none
asked_of f (some m) = some (events_of f m)

asked_by-change :
    (b : Bool)
    → (n fd : ℕ) → (g f : Filter)
    → asked_by (change b n g) fd f
      ≡ (if n == fd then if is_same g f then some b else none else none)
asked_by-change true n fd g f = refl
asked_by-change false n fd g f = refl

asked_of-or_else :
    (f : Filter)
    → (o : Option Modified) → (b : Bool) → (m : Modified)
    → asked_of f (or_else o (if b then some m else none))
      ≡ or_else (asked_of f o) (if b then some (events_of f m) else none)
asked_of-or_else f none true m = refl
asked_of-or_else f none false m = refl
asked_of-or_else f (some x) b m = refl

abbrev chosen : Filter → Bool → Bool → Bool
chosen read_filter r w = r
chosen write_filter r w = w

two_answers :
    (o : Option Bool)
    → (r w same : Bool) → (f : Filter)
    → or_else
        (or_else o (if same then if is_same write_filter f then some w else none else none))
        (if same then if is_same read_filter f then some r else none else none)
      ≡ or_else o (if same then some (chosen f r w) else none)
two_answers (some b) r w same f = refl
two_answers none r w false f = refl
two_answers none r w true read_filter = refl
two_answers none r w true write_filter = refl

events_of-chosen :
    (f : Filter)
    → (n : ℕ) → (r w : Bool)
    → events_of f (record { fd = n; epollin = r; epollout = w }) ≡ chosen f r w
events_of-chosen read_filter n r w = refl
events_of-chosen write_filter n r w = refl

two_changes :
    (o : Option Bool)
    → (n fd : ℕ) → (r w : Bool) → (f : Filter)
    → or_else
        (or_else o (asked_by (change w n write_filter) fd f))
        (asked_by (change r n read_filter) fd f)
      ≡ or_else o (
          if n == fd
          then some (events_of f (record { fd = n; epollin = r; epollout = w }))
          else none)
two_changes o n fd r w f =
    ap₂ (λ a b. or_else (or_else o a) b) (asked_by-change w n fd write_filter f)
      (asked_by-change r n fd read_filter f)
    ∙ two_answers o r w (n == fd) f
    ∙ ap (λ b. or_else o (if n == fd then some b else none)) (sym (events_of-chosen f n r w))

-- For every descriptor and filter, kevent and epoll_ctl are asked for the same: what the last
-- update of the descriptor says, and nothing if there is no update.
pub changes-modifications :
    (us : List Update)
    → (fd : ℕ) → (f : Filter)
    → asked (changes us) fd f ≡ asked_of f (last_modified (modifications us) fd)
unfolding changes modifications
changes-modifications [] fd f = refl
changes-modifications (u ∷ us) fd f =
    let m : Modified = record {
      fd = u.fd;
      epollin = u.flags.readable;
      epollout = u.flags.writable;
    } in
    two_changes (asked (changes us) fd f) u.fd fd u.flags.readable u.flags.writable f
    ∙ ap (λ o. or_else o (if u.fd == fd then some (events_of f m) else none))
        (changes-modifications us fd f)
    ∙ sym (asked_of-or_else f (last_modified (modifications us) fd) (u.fd == fd) m)
