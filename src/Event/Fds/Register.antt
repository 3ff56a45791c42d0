-- ===== src/Event/Fds/Register.antt =====
-- What happens to the handlers of lib/event/Loop_epoll.cpp that wait to be registered.
use reckoning.Common.{
  ℕ, zero, suc, ◌+◌, ◌*◌, ◌≤◌, ◌<◌, none, some, List, [], ◌∷◌, ◌++◌, ◌≡◌, refl, sym, ap, ◌∙◌, arith,
  ◌==◌, if◌then◌else◌, inl, inr, Bool-cases, length, drop, length-drop, append_assoc, append-nil,
}
use reckoning.Event.Fds.{Handler, Fds, round, rounds, register, register_all}

round-short : (ps kept rest : List Handler) → length rest < length ps → round ps kept rest ≡ none
unfolding round
round-short [] kept rest h = ground arith
round-short (p ∷ ps) kept [] h = refl
round-short (p ∷ ps) kept (r ∷ rs) h = elim (Bool-cases (p.fd == r.fd)) [
  | inl same ↦ rw same (round-short ps kept rs (omega arith))
  | inr other ↦ rw other (round-short ps (kept ++ r ∷ []) rs (omega arith))
]

-- A round takes one handler for each that is pending.
round-long :
    (ps kept rest : List Handler)
    → length ps ≤ length rest
    → (kept' : List Handler) × (round ps kept rest ≡ some (kept', drop (length ps) rest))
unfolding round
round-long [] kept rest h = (kept, refl)
round-long (p ∷ ps) kept [] h = ground arith
round-long (p ∷ ps) kept (r ∷ rs) h = elim (Bool-cases (p.fd == r.fd)) [
  | inl same ↦ rw same (round-long ps kept rs (omega arith))
  | inr other ↦ rw other (round-long ps (kept ++ r ∷ []) rs (omega arith))
]

-- The rounds read past the end of mFds if what is pending does not divide it.
rounds-fault :
    (fuel k r : ℕ) (p : Handler) (ps kept rest : List Handler)
    → length rest ≡ k * suc (length ps) + r
    → 0 < r
    → r < suc (length ps)
    → rounds fuel (p ∷ ps) kept rest ≡ none
unfolding rounds
rounds-fault fuel k r p ps kept [] e z h = ground arith
rounds-fault zero k r p ps kept (q ∷ qs) e z h = refl
rounds-fault (suc fuel) zero r p ps kept (q ∷ qs) e z h =
    rw (round-short (p ∷ ps) kept (q ∷ qs) (omega arith)) refl
rounds-fault (suc fuel) (suc k) r p ps kept (q ∷ qs) e z h =
    let n : ℕ = suc (length ps) in
    let (kept', e') = round-long (p ∷ ps) kept (q ∷ qs) (omega arith) in
    rw e' (
      rounds-fault fuel k r p ps kept' (drop n (q ∷ qs)) (length-drop n (q ∷ qs) ∙ omega arith) z h)

-- A handler list without a descriptor.
pub without : ℕ → List Handler → List Handler
without n [] = []
without n (h ∷ hs) = if n == h.fd then without n hs else h ∷ without n hs

rounds-without :
    (fuel : ℕ) (p : Handler) (kept rest : List Handler)
    → length rest ≤ fuel
    → rounds fuel (p ∷ []) kept rest ≡ some (kept ++ without p.fd rest)
unfolding rounds round without
rounds-without fuel p kept [] h = ap some (sym (append-nil kept))
rounds-without zero p kept (q ∷ qs) h = ground arith
rounds-without (suc fuel) p kept (q ∷ qs) h = elim (Bool-cases (p.fd == q.fd)) [
  | inl same ↦ rw same (rounds-without fuel p kept qs (omega arith))
  | inr other ↦ rw other (
      rounds-without fuel p (kept ++ q ∷ []) qs (omega arith)
      ∙ ap some (append_assoc kept (q ∷ []) (without p.fd qs)))
]

-- Where one handler is pending, it takes the place of every handler that its descriptor had, the
-- other handlers stay, and its descriptor is given to epoll.
pub register-single :
    (s : Fds) (p : Handler)
    → s.pending ≡ p ∷ []
    → register s ≡ some (record s { fds = without p.fd s.fds ++ p ∷ []; pending = [] }, p.fd ∷ [])
unfolding register register_all
register-single s p e = rw (e, rounds-without (length s.fds) p [] s.fds (omega arith)) refl

-- Where several handlers are pending, the rounds over the registered ones run past the end of the
-- vector as soon as their number is no multiple of the number of those pending.
pub register-fault :
    (s : Fds) (p : Handler) (ps : List Handler) (k r : ℕ)
    → s.pending ≡ p ∷ ps
    → length s.fds ≡ k * suc (length ps) + r
    → 0 < r
    → r < suc (length ps)
    → register s ≡ none
unfolding register register_all
register-fault s p ps k r e n z h = rw (e, rounds-fault (length s.fds) k r p ps [] s.fds n z h) refl
