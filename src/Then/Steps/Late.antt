-- ===== src/Then/Steps/Late.antt =====
-- `then` of include/then/Then.h on a promise that is settled already: its continuation or its
-- failure is posted to the loop.
use reckoning.Common.{
  ℕ, suc, ◌<◌, ◌≡◌, refl, sym, ap, subst, ◌∙◌, ◌≢◌, true, none, some, List, [], ◌∷◌, ◌++◌, Bytes,
  arith,
}
use reckoning.Then.Promise.{
  MaybeFail, holds, fails, Next, rejects, Promise, Posted, run_next, run_fail, World, pending, put,
  make, post, attach, post_failure, post_argument,
}
use reckoning.Then.Steps.{done, settle_maybe, settle, task, step}
use reckoning.Then.Steps.Frame.{put_self, put-other}
use reckoning.Then.Steps.Calls.{settle-step, settle-post}
use reckoning.Then.Steps.Chains.{
  Link, outcome, settled, next_of, Linked, fuel_of, settle-alone, call-link, call-fail,
}
use reckoning.Then.Steps.Built.{
  IsFresh, then_link, then_all, Keeps, then_all-Linked, then_link-attach,
}

module _ {V : Type 0} where
  abbrev pub event_of : Next V → ℕ → MaybeFail V → Posted V
  event_of nx c (holds v) = run_next nx v
  event_of nx c (fails e) = run_fail (rejects c) e

  module _ (moved : V → V) (moved_failure : Bytes → Bytes) where
    abbrev first : Next V → ℕ → MaybeFail V → Promise V
    first nx c (holds v) = record pending { next = some nx; fail = some (rejects c); arg = some v }
    first nx c (fails e) = record pending {
      next = some nx;
      fail = some (rejects c);
      failure = e;
      failed = true;
    }

    abbrev taken : ℕ → Next V → ℕ → MaybeFail V → (ℕ → Promise V) → ℕ → Promise V
    taken n nx c (holds v) ps =
        put n (record (first nx c (holds v)) { next = none; arg = some (moved v) }) ps
    taken n nx c (fails e) ps =
        put n
          (record (first nx c (fails e)) { fail = none; failure = moved_failure e; loop = true })
          (put n (record (first nx c (fails e)) { fail = none; failure = moved_failure e }) ps)

    -- The world after `then` on a settled promise.
    abbrev late : ℕ → Next V → ℕ → MaybeFail V → World V → World V
    late n nx c r w = record w {
      promises = taken n nx c r (put n (first nx c r) w.promises);
      posted = w.posted ++ event_of nx c r ∷ [];
    }

    attach-settled :
        (n : ℕ)
        → (nx : Next V) → (c : ℕ) → (r : MaybeFail V) → (w : World V) → w.promises n ≡ settled r
        → w.has_loop ≡ true
        → attach moved moved_failure n nx c w ≡ some (late n nx c r w)
    unfolding attach settled post_failure post_argument post put
    attach-settled n nx c (holds v) w e loop = ground arith
    attach-settled n nx c (fails x) w e loop = ground arith

    late-other :
        (n : ℕ)
        → (nx : Next V) → (c : ℕ) → (r : MaybeFail V) → (w : World V) → (m : ℕ) → m ≢ n
        → (late n nx c r w).promises m ≡ w.promises m
    unfolding put
    late-other n nx c (holds v) w m ne = ground arith
    late-other n nx c (fails x) w m ne = ground arith

    late-IsFresh :
        (n : ℕ)
        → (nx : Next V) → (r : MaybeFail V) → (w : World V) → n < w.fresh
        → IsFresh w
        → IsFresh (late n nx w.fresh r (make w))
    unfolding IsFresh
    late-IsFresh n nx r w lt f m le =
        late-other n nx w.fresh r (make w) m (omega arith)
        ∙ put-other w.fresh pending w.promises m (omega arith)
        ∙ f m (omega arith)

    module _ (unit : V) where
      pub step-event :
          (c : ℕ)
          → (l : Link V) → (r : MaybeFail V) → (w : World V)
          → step moved moved_failure unit (task (event_of (next_of c l) c r)) w
            ≡ some (w, settle_maybe c (outcome (l ∷ []) r) ∷ [])
      unfolding step outcome
      step-event c l (holds v) w = call-link moved moved_failure unit c l v w
      step-event c l (fails x) w = ap some (call-fail c x w)

    pub outcome-link :
        (l : Link V)
        → (ls : List (Link V)) → (r : MaybeFail V)
        → outcome ls (outcome (l ∷ []) r) ≡ outcome (l ∷ ls) r
    unfolding outcome
    outcome-link l ls (holds v) = refl
    outcome-link l ls (fails x) = refl

  -- A chain of at least one functor, where each returns a value or a MaybeFail of a value (not
  -- nothing, nor a promise), that `then` builds on a promise that is settled already, on a thread
  -- with a loop that has nothing posted, ends as one that is built before: once the loop has
  -- taken what `then` posted to it, with the same fuel, the last promise has what the functors
  -- make of the result, one after another, or the first failure.
  pub then_all-late :
      (moved : V → V)
      → (moved_failure : Bytes → Bytes) → (unit : V) → (k : ℕ) → (n : ℕ) → (l : Link V)
      → (ls : List (Link V)) → (r : MaybeFail V) → (w : World V) → n < w.fresh
      → w.promises n ≡ settled r
      → IsFresh w
      → w.posted ≡ []
      → w.has_loop ≡ true
      → (last : ℕ) × (w' w'' : World V) × (then_all moved moved_failure n (l ∷ ls) w
          ≡ some (last, w'))
        × (settle moved moved_failure unit (fuel_of k (l ∷ ls)) [] w' ≡ done w'')
        × (w''.promises last ≡ settled (outcome (l ∷ ls) r))
        × (w''.calls ≡ w.calls)
  unfolding Keeps then_all
  then_all-late moved moved_failure unit k n l ls r w lt p f idle on_loop =
      let c : ℕ = w.fresh in
      let w1 : World V = late moved moved_failure n (next_of c l) c r (make w) in
      let linked : then_link moved moved_failure n l w ≡ some (c, w1) =
        then_link-attach moved moved_failure n l w w1 (
          attach-settled moved moved_failure n (next_of c l) c r (make w)
            (put-other c pending w.promises n (omega arith) ∙ p) on_loop) in
      let (last, w', built, ok, (_, posted, calls, loop)) =
        then_all-Linked moved moved_failure c ls w1 (omega arith)
          (late-other moved moved_failure n (next_of c l) c r (make w) c (omega arith)
            ∙ put_self c pending w.promises)
          (late-IsFresh moved moved_failure n (next_of c l) r w lt f) in
      let (w'', run, at_last, same) =
        settle-alone moved moved_failure unit k (outcome (l ∷ []) r) c last ls
          (record w' { posted = [] }) refl
          (subst (λ b. Linked b w'.promises c ls last) (sym loop) ok) in
      (
        last,
        w',
        w'',
        rw linked built,
        settle-post moved moved_failure unit (suc (fuel_of k ls)) (event_of (next_of c l) c r) [] w'
              (posted ∙ ap (λ es. es ++ event_of (next_of c l) c r ∷ []) idle)
            ∙ settle-step moved moved_failure unit (fuel_of k ls)
                (task (event_of (next_of c l) c r)) [] (settle_maybe c (outcome (l ∷ []) r) ∷ [])
                (record w' { posted = [] }) (record w' { posted = [] })
                (step-event moved moved_failure unit c l r (record w' { posted = [] }))
            ∙ run,
        at_last ∙ ap settled (outcome-link moved moved_failure l ls r),
        same ∙ calls,
      )
