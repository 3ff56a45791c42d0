-- ===== src/Then/Steps/Posts.antt =====
-- The posted calls of a promise that a functor returns, in `then` of include/then/Then.h: they
-- settle the promise of the chain.
use reckoning.Common.{ℕ, suc, ◌<◌, ◌≡◌, refl, ap, ◌∙◌, true, some, List, [], ◌∷◌, Bytes, arith}
use reckoning.Then.Promise.{
  MaybeFail, holds, fails, next_resolve, rejects, Promise, Posted, run_next, run_fail, World,
  pending, set,
}
use reckoning.Then.Steps.{done, settle, do_next, do_fail, do_resolve, do_reject, step, call_next}
use reckoning.Then.Steps.Frame.{put-other}
use reckoning.Then.Steps.Calls.{settle-idle, settle-step, settle-post, resolve-last, reject-last}
use reckoning.Then.Steps.Chains.{Link, outcome, settled, Linked, fuel_of, settle-chain, call-fail}

module _ {V : Type 0} where
  module _ (moved : V → V) (moved_failure : Bytes → Bytes) (unit : V) where
    -- What is posted for the chain `c` and the promise `m` of `then`.
    abbrev pub events : ℕ → ℕ → MaybeFail V → List (Posted V)
    events c m (holds u) = run_next (next_resolve m c) u ∷ []
    events c m (fails e) = run_fail (rejects c) e ∷ run_fail (rejects m) (moved_failure e) ∷ []

    -- The posted calls, from the first: those for the chain, and those for the promise `m` of
    -- `then` on what the functor returned, which nothing waits for.
    pub run-events :
        (k : ℕ)
        → (c last m : ℕ) → (ls : List (Link V)) → (r : MaybeFail V) → (w : World V) → last < m
        → w.posted ≡ events c m r
        → w.promises m ≡ pending
        → Linked w.has_loop w.promises c ls last
        → (w' : World V) × (settle moved moved_failure unit
              (suc (suc (fuel_of (suc (suc (suc k))) ls)))
              []
              w
            ≡ done w')
          × (w'.promises last ≡ settled (outcome ls r))
          × (w'.calls ≡ w.calls)
    unfolding step call_next
    run-events k c last m ls (holds u) w lt posted new linked =
        let w1 : World V = record w { posted = [] } in
        let (w2, run, at_last, calls, empty, same) =
          settle-chain moved moved_failure unit (suc (suc (suc k))) (holds u) c last ls
            (do_resolve m unit ∷ []) w1 linked in
        let q : Promise V = record (w2.promises m) { arg = some unit } in
        (
          set m q w2,
          settle-post moved moved_failure unit (suc (fuel_of (suc (suc (suc k))) ls))
                (run_next (next_resolve m c) u) [] w posted
              ∙ settle-step moved moved_failure unit (fuel_of (suc (suc (suc k))) ls)
                  (do_next (next_resolve m c) u) [] (do_resolve c u ∷ do_resolve m unit ∷ []) w1 w1
                  refl
              ∙ run
              ∙ settle-step moved moved_failure unit (suc (suc k)) (do_resolve m unit) [] [] w2
                  (set m q w2)
                  (ap some (resolve-last m unit w2 (ap (λ q. q.next) (same m lt ∙ new))))
              ∙ settle-idle moved moved_failure unit (suc (suc k)) (set m q w2) empty,
          put-other m q w2.promises last (omega arith) ∙ at_last,
          calls,
        )
    run-events k c last m ls (fails x) w lt posted new linked =
        let w1 : World V = record w { posted = run_fail (rejects m) (moved_failure x) ∷ [] } in
        let (w2, run, at_last, calls, rest, same) =
          settle-chain moved moved_failure unit (suc (suc (suc k))) (fails x) c last ls [] w1
            linked in
        let w3 : World V = record w2 { posted = [] } in
        let q : Promise V = record (w2.promises m) { failed = true; failure = moved_failure x } in
        (
          set m q w3,
          settle-post moved moved_failure unit (suc (fuel_of (suc (suc (suc k))) ls))
                (run_fail (rejects c) x) (run_fail (rejects m) (moved_failure x) ∷ []) w posted
              ∙ settle-step moved moved_failure unit (fuel_of (suc (suc (suc k))) ls)
                  (do_fail (rejects c) x) [] (do_reject c x ∷ []) w1 w1 (ap some (call-fail c x w1))
              ∙ run
              ∙ settle-post moved moved_failure unit (suc (suc k))
                  (run_fail (rejects m) (moved_failure x)) [] w2 rest
              ∙ settle-step moved moved_failure unit (suc k) (do_fail (rejects m) (moved_failure x))
                  [] (do_reject m (moved_failure x) ∷ []) w3 w3
                  (ap some (call-fail m (moved_failure x) w3))
              ∙ settle-step moved moved_failure unit k (do_reject m (moved_failure x)) [] [] w3
                  (set m q w3)
                  (ap some
                    (reject-last m (moved_failure x) w3 (ap (λ q. q.fail) (same m lt ∙ new))))
              ∙ settle-idle moved moved_failure unit k (set m q w3) refl,
          put-other m q w2.promises last (omega arith) ∙ at_last,
          calls,
        )
