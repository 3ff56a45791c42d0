-- ===== src/Then/Steps/Chains.antt =====
-- A chain of promises of include/then/Then.h: `then` on a promise, `then` on the promise that this
-- returns, and so on, and what `resolve` or `reject` of the first does to the last.
use reckoning.Common.{
  ℕ, suc, ◌≤◌, ◌<◌, ◌≡◌, refl, sym, ap, ◌∙◌, Bool, true, none, some, List, [], ◌∷◌, Bytes, arith,
}
use reckoning.Then.Promise.{
  MaybeFail, holds, fails, Next, next_maybe, next_value, rejects, Promise, World, pending, put, set,
}
use reckoning.Then.Steps.{
  Task, do_resolve, do_reject, do_next, do_fail, done, settle_maybe, call_next, call_fail, step,
  settle,
}
use reckoning.Then.Steps.Calls.{
  settle-idle, settle-step, resolve-next, resolve-last, reject-fail, reject-last,
}
use reckoning.Then.Steps.Frame.{put_self, put-other, waiting}

-- A functor that returns a value, or a MaybeFail of one.
pub data Link (V : Type 0) : Type 0 where
  value : (V → V) → Link V
  maybe : (V → MaybeFail V) → Link V

module _ {V : Type 0} where
  unfoldable pub apply : Link V → V → MaybeFail V
  apply (value f) v = holds (f v)
  apply (maybe f) v = f v

  -- What a chain makes of a result: after a failure no functor is called.
  unfoldable pub outcome : List (Link V) → MaybeFail V → MaybeFail V
  unfolding apply
  outcome [] r = r
  outcome (l ∷ ls) (holds v) = outcome ls (apply l v)
  outcome (l ∷ ls) (fails e) = outcome ls (fails e)

  -- A promise that waits for nothing, settled.
  unfoldable pub settled : MaybeFail V → Promise V
  settled (holds v) = record pending { arg = some v }
  settled (fails e) = record pending { failed = true; failure = e }

  abbrev pub next_of : ℕ → Link V → Next V
  next_of c (value f) = next_value c f
  next_of c (maybe f) = next_maybe c f

  -- The promises from `n` to `last`: each waits with the functor of the next.
  unfoldable pub Linked : Bool → (ℕ → Promise V) → ℕ → List (Link V) → ℕ → Type 0
  Linked loop ps n [] last = (n ≡ last) × (ps n ≡ pending)
  Linked loop ps n (l ∷ ls) last =
      (c : ℕ) × (n < c) × (ps n ≡ waiting (next_of c l) c loop) × Linked loop ps c ls last

  pub Linked-frame :
      (loop : Bool)
      → (ps qs : ℕ → Promise V) → (n : ℕ) → (ls : List (Link V)) → (last : ℕ)
      → ((m : ℕ) → n ≤ m → qs m ≡ ps m)
      → Linked loop ps n ls last
      → Linked loop qs n ls last
  unfolding Linked
  Linked-frame loop ps qs n [] last same (e, p) = (e, same n (omega arith) ∙ p)
  Linked-frame loop ps qs n (l ∷ ls) last same (c, lt, p, rest) = (
    c,
    lt,
    same n (omega arith) ∙ p,
    Linked-frame loop ps qs c ls last (λ m le. same m (omega arith)) rest,
  )

  Linked-put :
      (loop : Bool)
      → (ps : ℕ → Promise V) → (n c : ℕ) → (p : Promise V) → (ls : List (Link V)) → (last : ℕ)
      → n < c
      → Linked loop ps c ls last
      → Linked loop (put n p ps) c ls last
  Linked-put loop ps n c p ls last lt linked =
      Linked-frame loop ps (put n p ps) c ls last (λ m le. put-other n p ps m (omega arith)) linked

  pub Linked-le :
      (loop : Bool)
      → (ps : ℕ → Promise V) → (n : ℕ) → (ls : List (Link V)) → (last : ℕ)
      → Linked loop ps n ls last
      → n ≤ last
  unfolding Linked
  Linked-le loop ps n [] last (e, p) = omega arith
  Linked-le loop ps n (l ∷ ls) last (c, lt, p, rest) =
      let le : c ≤ last = Linked-le loop ps c ls last rest in omega arith

  -- A chain reaches from its first name to its last, and a change above the last is none to it.
  pub Linked-below :
      (loop : Bool)
      → (ps qs : ℕ → Promise V) → (n : ℕ) → (ls : List (Link V)) → (last : ℕ)
      → ((m : ℕ) → m ≤ last → qs m ≡ ps m)
      → Linked loop ps n ls last
      → Linked loop qs n ls last
  unfolding Linked
  Linked-below loop ps qs n [] last same (e, p) = (e, same n (omega arith) ∙ p)
  Linked-below loop ps qs n (l ∷ ls) last same (c, lt, p, rest) =
      let le : c ≤ last = Linked-le loop ps c ls last rest in
      (c, lt, same n (omega arith) ∙ p, Linked-below loop ps qs c ls last same rest)

  put-last : (n last : ℕ) → (p : Promise V) → (ps : ℕ → Promise V) → n ≡ last → put n p ps last ≡ p
  put-last n last p ps e = ap (put n p ps) (sym e) ∙ put_self n p ps

  pub call-fail :
      (c : ℕ) → (x : Bytes) → (w : World V) → call_fail (rejects c) x w ≡ (w, do_reject c x ∷ [])
  unfolding call_fail
  call-fail c x w = refl

  abbrev pub fuel_of : ℕ → List (Link V) → ℕ
  fuel_of k [] = suc k
  fuel_of k (l ∷ ls) = suc (suc (fuel_of k ls))

  module _ (moved : V → V) (moved_failure : Bytes → Bytes) (unit : V) where
    pub call-link :
        (c : ℕ)
        → (l : Link V) → (v : V) → (w : World V)
        → call_next moved moved_failure unit (next_of c l) v w
          ≡ some (w, settle_maybe c (apply l v) ∷ [])
    unfolding call_next apply
    call-link c (value f) v w = refl
    call-link c (maybe f) v w = refl

    -- Two calls for each functor and one for the last promise settle the chain, from the first.
    pub settle-chain :
        (k : ℕ)
        → (r : MaybeFail V) → (n last : ℕ) → (ls : List (Link V)) → (ts : List (Task V))
        → (w : World V) → Linked w.has_loop w.promises n ls last
        → (w' : World V) × (settle moved moved_failure unit (fuel_of k ls) (settle_maybe n r ∷ ts) w
            ≡ settle moved moved_failure unit k ts w')
          × (w'.promises last ≡ settled (outcome ls r))
          × (w'.calls ≡ w.calls)
          × (w'.posted ≡ w.posted)
          × ((m : ℕ) → last < m → w'.promises m ≡ w.promises m)
    unfolding Linked outcome settled step
    settle-chain k (holds v) n last [] ts w (e, p) =
        let q : Promise V = record (w.promises n) { arg = some v } in
        (
          set n q w,
          settle-step moved moved_failure unit k (do_resolve n v) ts [] w (set n q w)
              (ap some (resolve-last n v w (ap (λ q. q.next) p))),
          put-last n last q w.promises e ∙ ap {B = Promise V} (λ q. record q { arg = some v }) p,
          refl,
          refl,
          (λ m lt. put-other n q w.promises m (omega (arith, e, lt))),
        )
    settle-chain k (fails x) n last [] ts w (e, p) =
        let q : Promise V = record (w.promises n) { failed = true; failure = x } in
        (
          set n q w,
          settle-step moved moved_failure unit k (do_reject n x) ts [] w (set n q w)
              (ap some (reject-last n x w (ap (λ q. q.fail) p))),
          put-last n last q w.promises e
              ∙ ap {B = Promise V} (λ q. record q { failed = true; failure = x }) p,
          refl,
          refl,
          (λ m lt. put-other n q w.promises m (omega (arith, e, lt))),
        )
    settle-chain k (holds v) n last (l ∷ ls) ts w (c, lt, p, rest) =
        let q : Promise V = record (w.promises n) { next = none } in
        let le : c ≤ last = Linked-le w.has_loop w.promises c ls last rest in
        let (w', run, at_last, calls, posted, same) =
          settle-chain k (apply l v) c last ls ts (set n q w)
            (Linked-put w.has_loop w.promises n c q ls last lt rest) in
        (
          w',
          settle-step moved moved_failure unit (suc (fuel_of k ls)) (do_resolve n v) ts
                (do_next (next_of c l) v ∷ []) w (set n q w)
                (ap some (resolve-next n (next_of c l) v w (ap (λ q. q.next) p)))
              ∙ settle-step moved moved_failure unit (fuel_of k ls) (do_next (next_of c l) v) ts
                  (settle_maybe c (apply l v) ∷ []) (set n q w) (set n q w)
                  (call-link c l v (set n q w))
              ∙ run,
          at_last,
          calls,
          posted,
          (λ m gt. same m gt ∙ put-other n q w.promises m (omega arith)),
        )
    settle-chain k (fails x) n last (l ∷ ls) ts w (c, lt, p, rest) =
        let q : Promise V = record (w.promises n) { fail = none } in
        let le : c ≤ last = Linked-le w.has_loop w.promises c ls last rest in
        let (w', run, at_last, calls, posted, same) =
          settle-chain k (fails x) c last ls ts (set n q w)
            (Linked-put w.has_loop w.promises n c q ls last lt rest) in
        (
          w',
          settle-step moved moved_failure unit (suc (fuel_of k ls)) (do_reject n x) ts
                (do_fail (rejects c) x ∷ []) w (set n q w)
                (ap some (reject-fail n (rejects c) x w (ap (λ q. q.fail) p)))
              ∙ settle-step moved moved_failure unit (fuel_of k ls) (do_fail (rejects c) x) ts
                  (do_reject c x ∷ []) (set n q w) (set n q w) (ap some (call-fail c x (set n q w)))
              ∙ run,
          at_last,
          calls,
          posted,
          (λ m gt. same m gt ∙ put-other n q w.promises m (omega arith)),
        )

    -- With nothing else to do, that is all.
    pub settle-alone :
        (k : ℕ)
        → (r : MaybeFail V) → (n last : ℕ) → (ls : List (Link V)) → (w : World V) → w.posted ≡ []
        → Linked w.has_loop w.promises n ls last
        → (w' : World V) × (settle moved moved_failure unit (fuel_of k ls) (settle_maybe n r ∷ []) w
            ≡ done w')
          × (w'.promises last ≡ settled (outcome ls r))
          × (w'.calls ≡ w.calls)
    settle-alone k r n last ls w idle linked =
        let (w', run, at_last, calls, posted, _) = settle-chain k r n last ls [] w linked in
        (w', run ∙ settle-idle moved moved_failure unit k w' (posted ∙ idle), at_last, calls)
