-- ===== src/Event/Fds/Kept.antt =====
-- Which of the registered handlers of lib/event/Loop_epoll.cpp stay when others are registered.
use native.Mathlib.Nat.{add-mod_right, mod-eq_of_lt}
use reckoning.Common.{
  ℕ, zero, suc, ◌+◌, ◌-◌, ◌*◌, ◌%◌, ◌≤◌, ◌<◌, Bool, false, Option, none, some, List, [], ◌∷◌, ◌++◌,
  ◌≡◌, refl, sym, ap, ◌∙◌, arith, ◌==◌, if◌then◌else◌, inl, inr, Bool-cases, length, drop,
  length-drop, length-append, map, append_assoc, append-nil,
}
use reckoning.Event.Fds.{Handler, Fds, round, rounds, register, register_all}

-- The descriptor at an index of a list of handlers.
abbrev pub fd_at : ℕ → List Handler → Option ℕ
fd_at n [] = none
fd_at zero (h ∷ hs) = some h.fd
fd_at (suc n) (h ∷ hs) = fd_at n hs

abbrev pub is_some_of : Option ℕ → ℕ → Bool
is_some_of none fd = false
is_some_of (some m) fd = m == fd

-- The handlers from the index `i` of mFds on that registration keeps: those with another descriptor
-- than the pending handler whose index is theirs modulo the number of those pending.
pub survivors : List Handler → ℕ → List Handler → List Handler
survivors ps i [] = []
survivors ps i (h ∷ hs) =
    let rest = survivors ps (suc i) hs in
    if is_some_of (fd_at (i % length ps) ps) h.fd then rest else h ∷ rest

mod_index : (k n r : ℕ) → r < n → (k * n + r) % n ≡ r
mod_index zero n r h =
    let first : 0 * n + r ≡ r = omega arith in ap (λ x. x % n) first ∙ mod-eq_of_lt h
mod_index (suc k) n r h =
    ap (λ x. x % n) (omega arith) ∙ add-mod_right (k * n + r) n ∙ mod_index k n r h

fd_at-append :
    (ps : List Handler) (q : Handler) (qs : List Handler)
    → fd_at (length ps) (ps ++ q ∷ qs) ≡ some q.fd
fd_at-append [] q qs = refl
fd_at-append (p ∷ ps) q qs = fd_at-append ps q qs

survivors-cons :
    (all : List Handler) (i : ℕ) (q h : Handler) (hs kept : List Handler)
    → fd_at (i % length all) all ≡ some q.fd
    → (if q.fd == h.fd then kept else kept ++ h ∷ []) ++ survivors all (suc i) hs
      ≡ kept ++ survivors all i (h ∷ hs)
unfolding survivors
survivors-cons all i q h hs kept e = elim (Bool-cases (q.fd == h.fd)) [
  | inl same ↦ rw (e, same) refl
  | inr other ↦ rw (e, other) (append_assoc kept (h ∷ []) (survivors all (suc i) hs))
]

round-cons :
    (q r : Handler) (qs kept rs : List Handler)
    → round (q ∷ qs) kept (r ∷ rs) ≡ round qs (if q.fd == r.fd then kept else kept ++ r ∷ []) rs
unfolding round
round-cons q r qs kept rs = elim (Bool-cases (q.fd == r.fd)) [
  | inl same ↦ rw same refl
  | inr other ↦ rw other refl
]

-- A round over the pending handlers `qs`, behind the `ps`, from an index of mFds on.
round-survivors :
    (all ps qs kept rest : List Handler) (k : ℕ)
    → all ≡ ps ++ qs
    → length qs ≤ length rest
    → (kept' : List Handler) × (round qs kept rest ≡ some (kept', drop (length qs) rest))
      × (kept' ++ survivors all (suc k * length all) (drop (length qs) rest)
          ≡ kept ++ survivors all (k * length all + length ps) rest)
round-survivors all ps [] kept rest k e h =
    let size : length all ≡ length ps = ap length (e ∙ append-nil ps) in
    (kept, unfold round in refl, ap (λ i. kept ++ survivors all i rest) (omega arith))
round-survivors all ps (q ∷ qs) kept [] k e h = ground arith
round-survivors all ps (q ∷ qs) kept (r ∷ rs) k e h =
    let size : length all ≡ length ps + suc (length qs) = ap length e ∙ length-append ps (q ∷ qs) in
    let at : fd_at ((k * length all + length ps) % length all) all ≡ some q.fd =
      ap (λ i. fd_at i all) (mod_index k (length all) (length ps) (omega arith))
      ∙ ap (fd_at (length ps)) e
      ∙ fd_at-append ps q qs in
    let (kept', run, same) =
      round-survivors all (ps ++ q ∷ []) qs (if q.fd == r.fd then kept else kept ++ r ∷ []) rs k
        (e ∙ sym (append_assoc ps (q ∷ []) qs)) (omega arith) in
    let next : k * length all + length (ps ++ q ∷ []) ≡ suc (k * length all + length ps) =
      omega (arith, length-append ps (q ∷ [])) in
    (
      kept',
      round-cons q r qs kept rs ∙ run,
      same
          ∙ ap (λ i. (if q.fd == r.fd then kept else kept ++ r ∷ []) ++ survivors all i rs) next
          ∙ survivors-cons all (k * length all + length ps) q r rs kept at,
    )

rounds-survivors :
    (fuel k j : ℕ) (p : Handler) (ps kept rest : List Handler)
    → length rest ≡ k * suc (length ps)
    → length rest ≤ fuel
    → rounds fuel (p ∷ ps) kept rest ≡ some (kept ++ survivors (p ∷ ps) (j * suc (length ps)) rest)
unfolding rounds
rounds-survivors fuel k j p ps kept [] e h = unfold survivors in ap some (sym (append-nil kept))
rounds-survivors zero k j p ps kept (q ∷ qs) e h = ground arith
rounds-survivors (suc fuel) zero j p ps kept (q ∷ qs) e h = ground arith
rounds-survivors (suc fuel) (suc k) j p ps kept (q ∷ qs) e h =
    let n : ℕ = suc (length ps) in
    let (kept', run, same) =
      round-survivors (p ∷ ps) [] (p ∷ ps) kept (q ∷ qs) j refl (omega arith) in
    let l : length (drop n (q ∷ qs)) ≡ suc (length qs) - n = length-drop n (q ∷ qs) in
    let start : j * n + 0 ≡ j * n = omega arith in
    rw run (
      rounds-survivors fuel k (suc j) p ps kept' (drop n (q ∷ qs)) (omega arith) (omega arith)
      ∙ ap some (same ∙ ap (λ i. kept ++ survivors (p ∷ ps) i (q ∷ qs)) start))

-- Where the number of registered handlers is a multiple of the number of those pending,
-- registration ends: a registered handler stays unless the pending handler whose index is its own
-- modulo the number of those pending has its descriptor; the pending handlers come behind those
-- that stay, nothing stays pending, and their descriptors are given to epoll.
pub register-total :
    (s : Fds) (p : Handler) (ps : List Handler) (k : ℕ)
    → s.pending ≡ p ∷ ps
    → length s.fds ≡ k * suc (length ps)
    → register s
      ≡ some (
        record s { fds = survivors (p ∷ ps) 0 s.fds ++ p ∷ ps; pending = [] },
        map (λ h. h.fd) (p ∷ ps),
      )
unfolding register register_all
register-total s p ps k e n =
    let start : 0 * suc (length ps) ≡ 0 = omega arith in
    let run : rounds (length s.fds) (p ∷ ps) [] s.fds ≡ some (survivors (p ∷ ps) 0 s.fds) =
      rounds-survivors (length s.fds) k 0 p ps [] s.fds n (omega arith)
      ∙ ap (λ i. some (survivors (p ∷ ps) i s.fds)) start in
    rw (e, run) refl
