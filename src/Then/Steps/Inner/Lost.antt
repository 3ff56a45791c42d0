-- ===== src/Then/Steps/Inner/Lost.antt =====
-- A functor of `then` in include/then/Then.h that returns a promise which is settled later.
use reckoning.Common.{
  ℕ, suc, ◌+◌, ◌<◌, ◌≡◌, refl, ap, ◌∙◌, ◌≢◌, true, none, some, List, [], ◌∷◌, Bytes, arith,
}
use reckoning.Then.Promise.{
  holds, Returned, given, next_then, next_resolve, rejects, Promise, World, pending, put, set,
  attach, fail, post_failure, post_argument,
}
use reckoning.Then.Steps.{
  done, settle, do_next, do_fail, do_resolve, do_reject, step, forward, call_next, returned,
}
use reckoning.Then.Steps.Frame.{put-other}
use reckoning.Then.Steps.Calls.{
  settle-idle, settle-step, resolve-next, resolve-last, reject-fail, reject-last,
}
use reckoning.Then.Steps.Chains.{
  Link, outcome, settled, Linked, Linked-below, fuel_of, settle-chain, call-fail,
}

module _ {V : Type 0} (moved : V → V) (moved_failure : Bytes → Bytes) (unit : V) where
  -- The promise that the functor returned, when it waits: `m` is the promise of `then` on it.
  abbrev waits : ℕ → ℕ → Promise V
  waits c m = record pending {
    next = some (next_resolve m c);
    fail = some (rejects m);
    loop = true;
  }

  abbrev waiting_world : ℕ → ℕ → World V → World V
  waiting_world c n w = record w {
    promises = put n (waits c w.fresh) (
        put n (waits c w.fresh) (
          put w.fresh pending (
            put n (record pending { fail = some (rejects c); loop = true })
              (put n (record pending { fail = some (rejects c) }) w.promises))));
    fresh = w.fresh + 1;
  }

  forward-pending :
      (c n : ℕ)
      → (w : World V) → n < w.fresh
      → w.promises n ≡ pending
      → w.has_loop ≡ true
      → forward moved moved_failure unit c n w ≡ some (waiting_world c n w, [])
  unfolding forward attach fail post_failure post_argument put
  forward-pending c n w lt e loop = ground arith

  waiting_self : (c n : ℕ) → (w : World V) → (waiting_world c n w).promises n ≡ waits c w.fresh
  unfolding put
  waiting_self c n w = ground arith

  waiting-new :
      (c n : ℕ) → (w : World V) → n < w.fresh → (waiting_world c n w).promises w.fresh ≡ pending
  unfolding put
  waiting-new c n w lt = ground arith

  waiting-other :
      (c n : ℕ)
      → (w : World V) → (m : ℕ) → m ≢ n
      → m ≢ w.fresh
      → (waiting_world c n w).promises m ≡ w.promises m
  unfolding put
  waiting-other c n w m ne ne' = ground arith

  step-given :
      (c n : ℕ)
      → (f : V → Returned V) → (v : V) → (w : World V) → f v ≡ given n
      → n < w.fresh
      → w.promises n ≡ pending
      → w.has_loop ≡ true
      → step moved moved_failure unit (do_next (next_then c f) v) w ≡ some (waiting_world c n w, [])
  unfolding step call_next returned
  step-given c n f v w e lt p loop =
      ap (λ x. forward moved moved_failure unit c (returned x w).0 (returned x w).1) e
      ∙ forward-pending c n w lt p loop

-- A promise that a functor returns and that is resolved later settles the chain with its value,
-- where the functor made it after the chain: the last promise ends with what the functors make of
-- the value.
pub given-Settles :
    {V : Type 0}
    → (moved : V → V) → (moved_failure : Bytes → Bytes) → (unit : V) → (k : ℕ) → (c last n : ℕ)
    → (f : V → Returned V) → (v u : V) → (ls : List (Link V)) → (w : World V) → f v ≡ given n
    → last < n
    → n < w.fresh
    → w.promises n ≡ pending
    → w.has_loop ≡ true
    → w.posted ≡ []
    → Linked w.has_loop w.promises c ls last
    → (w' : World V) × (settle moved moved_failure unit
          (suc (suc (suc (fuel_of (suc k) ls))))
          (do_next (next_then c f) v ∷ do_resolve n u ∷ [])
          w
        ≡ done w')
      × (w'.promises last ≡ settled (outcome ls (holds u)))
      × (w'.calls ≡ w.calls)
unfolding step call_next
given-Settles moved moved_failure unit k c last n f v u ls w e below lt p loop idle linked =
    let m : ℕ = w.fresh in
    let w1 : World _ = waiting_world moved moved_failure unit c n w in
    let q : Promise _ = record (w1.promises n) { next = none } in
    let at_n = waiting_self moved moved_failure unit c n w in
    let (w2, run, at_last, calls, empty, same) =
      settle-chain moved moved_failure unit (suc k) (holds u) c last ls (do_resolve m unit ∷ [])
        (set n q w1)
        (Linked-below w.has_loop w.promises (put n q w1.promises) c ls last
          (λ z le.
            put-other n q w1.promises z (omega arith)
            ∙ waiting-other moved moved_failure unit c n w z (omega arith) (omega arith))
          linked) in
    let q' : Promise _ = record (w2.promises m) { arg = some unit } in
    (
      set m q' w2,
      settle-step moved moved_failure unit (suc (suc (fuel_of (suc k) ls)))
            (do_next (next_then c f) v) (do_resolve n u ∷ []) [] w w1
            (step-given moved moved_failure unit c n f v w e lt p loop)
          ∙ settle-step moved moved_failure unit (suc (fuel_of (suc k) ls)) (do_resolve n u) []
              (do_next (next_resolve m c) u ∷ []) w1 (set n q w1)
              (ap some (resolve-next n (next_resolve m c) u w1 (ap (λ q. q.next) at_n)))
          ∙ settle-step moved moved_failure unit (fuel_of (suc k) ls) (do_next (next_resolve m c) u)
              [] (do_resolve c u ∷ do_resolve m unit ∷ []) (set n q w1) (set n q w1) refl
          ∙ run
          ∙ settle-step moved moved_failure unit k (do_resolve m unit) [] [] w2 (set m q' w2) (
              ap some (
                resolve-last m unit w2 (
                  ap (λ q. q.next)
                    (same m (omega arith)
                      ∙ put-other n q w1.promises m (omega arith)
                      ∙ waiting-new moved moved_failure unit c n w lt))))
          ∙ settle-idle moved moved_failure unit k (set m q' w2) (empty ∙ idle),
      put-other m q' w2.promises last (omega arith) ∙ at_last,
      calls,
    )

-- A functor of `then` returns a promise that is not settled, on a thread with a loop that has
-- nothing posted. When that promise is then rejected, the chain is not: the run ends with no
-- promise changed but the one that was returned and the one of `then` on it, and no handler
-- called.
pub given-lost :
    {V : Type 0}
    → (moved : V → V) → (moved_failure : Bytes → Bytes) → (unit : V) → (k : ℕ) → (c n : ℕ)
    → (f : V → Returned V) → (v : V) → (x : Bytes) → (w : World V) → f v ≡ given n
    → n < w.fresh
    → w.promises n ≡ pending
    → w.has_loop ≡ true
    → w.posted ≡ []
    → (w' : World V) × (settle moved moved_failure unit
          (suc (suc (suc (suc k))))
          (do_next (next_then c f) v ∷ do_reject n x ∷ [])
          w
        ≡ done w')
      × ((z : ℕ) → z ≢ n → z ≢ w.fresh → w'.promises z ≡ w.promises z)
      × (w'.calls ≡ w.calls)
unfolding step
given-lost moved moved_failure unit k c n f v x w e lt p loop idle =
    let m : ℕ = w.fresh in
    let w1 : World _ = waiting_world moved moved_failure unit c n w in
    let q : Promise _ = record (w1.promises n) { fail = none } in
    let w2 : World _ = set n q w1 in
    let q' : Promise _ = record (w2.promises m) { failed = true; failure = x } in
    (
      set m q' w2,
      settle-step moved moved_failure unit (suc (suc (suc k))) (do_next (next_then c f) v)
            (do_reject n x ∷ []) [] w w1 (step-given moved moved_failure unit c n f v w e lt p loop)
          ∙ settle-step moved moved_failure unit (suc (suc k)) (do_reject n x) []
              (do_fail (rejects m) x ∷ []) w1 w2
              (ap some (
                reject-fail n (rejects m) x w1
                  (ap (λ q. q.fail) (waiting_self moved moved_failure unit c n w))))
          ∙ settle-step moved moved_failure unit (suc k) (do_fail (rejects m) x) []
              (do_reject m x ∷ []) w2 w2 (ap some (call-fail m x w2))
          ∙ settle-step moved moved_failure unit k (do_reject m x) [] [] w2 (set m q' w2) (
              ap some (
                reject-last m x w2 (
                  ap (λ q. q.fail)
                    (put-other n q w1.promises m (omega arith)
                      ∙ waiting-new moved moved_failure unit c n w lt))))
          ∙ settle-idle moved moved_failure unit k (set m q' w2) idle,
      (λ z ne ne'.
          put-other m q' w2.promises z ne'
          ∙ put-other n q w1.promises z ne
          ∙ waiting-other moved moved_failure unit c n w z ne ne'),
      refl,
    )
