-- ===== src/Then/Steps/Inner.antt =====
-- The promise that a functor returns, in `then` of include/then/Then.h: it is given a handler of
-- its failure and a continuation, which settle the promise of the chain.
pub mod Lost
use reckoning.Common.{
  ℕ, suc, ◌+◌, ◌≤◌, ◌<◌, ◌≡◌, refl, sym, ap, subst, ◌∙◌, ◌≢◌, Bool, true, false, Option, none, some,
  List, [], ◌∷◌, ◌++◌, Bytes, arith,
}
use reckoning.Then.Promise.{
  MaybeFail, holds, fails, Returned, given, resolved, rejected, Next, next_then, next_resolve,
  rejects, Promise, Posted, run_next, run_fail, World, pending, put, set, make, post, attach, fail,
  post_failure, post_argument,
}
use reckoning.Then.Steps.{
  done, settle_maybe, settle, do_next, do_fail, do_resolve, do_reject, step, forward, call_next,
  returned, make_resolved, make_rejected, resolve, reject, resolve_next, reject_fail,
}
use reckoning.Then.Steps.Frame.{put_self, put-other}
use reckoning.Then.Steps.Calls.{settle-idle, settle-step, settle-post, resolve-last, reject-last}
use reckoning.Then.Steps.Chains.{
  Link, outcome, settled, Linked, Linked-frame, fuel_of, settle-chain, call-fail, Linked-below,
}
use reckoning.Then.Steps.Posts.{events, run-events}

module _ {V : Type 0} where
  -- A functor's result that is settled already.
  abbrev pub back : MaybeFail V → Returned V
  back (holds u) = resolved u
  back (fails e) = rejected e

  abbrev returned_world : MaybeFail V → World V → World V
  returned_world (holds u) w = set w.fresh (record pending { arg = some u }) (make w)
  returned_world (fails e) w = set w.fresh (record pending { failed = true; failure = e }) (make w)

  returned-back :
      (r : MaybeFail V) → (w : World V) → returned (back r) w ≡ (w.fresh, returned_world r w)
  unfolding returned make_resolved make_rejected resolve reject resolve_next reject_fail put
  returned-back (holds u) w = ground arith
  returned-back (fails e) w = ground arith

  module _ (moved : V → V) (moved_failure : Bytes → Bytes) (unit : V) where
    -- The world after the functor: the promise that it returned is `n`, the one of `then` on it
    -- `m`.
    abbrev forwarded : ℕ → ℕ → ℕ → MaybeFail V → (ℕ → Promise V) → ℕ → Promise V
    forwarded c n m (holds u) ps =
        put n (record pending { fail = some (rejects m); arg = some (moved u); loop = true })
          (put n
            (record pending {
              next = some (next_resolve m c);
              fail = some (rejects m);
              arg = some u;
              loop = true;
            })
            (put m pending (
              put n (record pending { fail = some (rejects c); arg = some u; loop = true })
                (put n (record pending { fail = some (rejects c); arg = some u }) ps))))
    forwarded c n m (fails e) ps =
        put n
          (record pending {
            next = some (next_resolve m c);
            failed = true;
            failure = moved_failure (moved_failure e);
            loop = true;
          })
          (put n
            (record pending {
              next = some (next_resolve m c);
              failed = true;
              failure = moved_failure (moved_failure e);
            })
            (put n
              (record pending {
                next = some (next_resolve m c);
                fail = some (rejects m);
                failed = true;
                failure = moved_failure e;
              })
              (put m pending (
                put n (record pending { failed = true; failure = moved_failure e })
                  (put n (record pending { fail = some (rejects c); failed = true; failure = e })
                    ps)))))

    forward-settled :
        (c n : ℕ)
        → (r : MaybeFail V) → (w : World V) → n < w.fresh
        → w.promises n ≡ settled r
        → w.has_loop ≡ true
        → w.posted ≡ []
        → forward moved moved_failure unit c n w
          ≡ some (
            record w {
              promises = forwarded c n w.fresh r w.promises;
              fresh = w.fresh + 1;
              posted = events moved moved_failure unit c w.fresh r;
            },
            [],
          )
    unfolding forward attach fail settled post_failure post_argument post put
    forward-settled c n (holds u) w lt e loop idle = ground arith
    forward-settled c n (fails x) w lt e loop idle = ground arith

    pub forwarded-other :
        (c n m : ℕ)
        → (r : MaybeFail V) → (ps : ℕ → Promise V) → (z : ℕ) → z ≢ n
        → z ≢ m
        → forwarded c n m r ps z ≡ ps z
    unfolding put
    forwarded-other c n m (holds u) ps z ne ne' = ground arith
    forwarded-other c n m (fails e) ps z ne ne' = ground arith

    forwarded-new :
        (c n m : ℕ)
        → (r : MaybeFail V) → (ps : ℕ → Promise V) → m ≢ n
        → forwarded c n m r ps m ≡ pending
    unfolding put
    forwarded-new c n m (holds u) ps ne = ground arith
    forwarded-new c n m (fails e) ps ne = ground arith

    -- The world when the functor of `then` has returned a settled promise and the code has attached
    -- to it.
    abbrev attached_world : ℕ → MaybeFail V → World V → World V
    attached_world c r w = record w {
      promises = forwarded c w.fresh (w.fresh + 1) r (returned_world r w).promises;
      fresh = w.fresh + 1 + 1;
      posted = events moved moved_failure unit c (w.fresh + 1) r;
    }

    returned_world-settled :
        (r : MaybeFail V) → (w : World V) → (returned_world r w).promises w.fresh ≡ settled r
    unfolding put settled
    returned_world-settled (holds u) w = ground arith
    returned_world-settled (fails e) w = ground arith

    returned_world-other :
        (r : MaybeFail V)
        → (w : World V) → (m : ℕ) → m ≢ w.fresh
        → (returned_world r w).promises m ≡ w.promises m
    unfolding put
    returned_world-other (holds u) w m ne = ground arith
    returned_world-other (fails e) w m ne = ground arith

    step-returned :
        (c : ℕ)
        → (f : V → Returned V) → (v : V) → (r : MaybeFail V) → (w : World V) → f v ≡ back r
        → w.has_loop ≡ true
        → w.posted ≡ []
        → step moved moved_failure unit (do_next (next_then c f) v) w
          ≡ some (attached_world c r w, [])
    unfolding step call_next
    step-returned c f v (holds u) w e loop idle =
        ap (λ x. forward moved moved_failure unit c (returned x w).0 (returned x w).1) e
        ∙ ap (λ x. forward moved moved_failure unit c x.0 x.1) (returned-back (holds u) w)
        ∙ forward-settled c w.fresh (holds u) (returned_world (holds u) w) (omega arith)
            (returned_world-settled (holds u) w) loop idle
    step-returned c f v (fails x) w e loop idle =
        ap (λ x. forward moved moved_failure unit c (returned x w).0 (returned x w).1) e
        ∙ ap (λ x. forward moved moved_failure unit c x.0 x.1) (returned-back (fails x) w)
        ∙ forward-settled c w.fresh (fails x) (returned_world (fails x) w) (omega arith)
            (returned_world-settled (fails x) w) loop idle

    attached-other :
        (c : ℕ)
        → (r : MaybeFail V) → (w : World V) → (m : ℕ) → m < w.fresh
        → (attached_world c r w).promises m ≡ w.promises m
    attached-other c r w m lt =
        forwarded-other c w.fresh (w.fresh + 1) r (returned_world r w).promises m (omega arith)
          (omega arith)
        ∙ returned_world-other r w m (omega arith)

    attached-Linked :
        (c last : ℕ)
        → (ls : List (Link V)) → (r : MaybeFail V) → (w : World V) → last < w.fresh
        → w.has_loop ≡ true
        → Linked w.has_loop w.promises c ls last
        → Linked w.has_loop (attached_world c r w).promises c ls last
    attached-Linked c last ls r w lt loop linked =
        Linked-below w.has_loop w.promises (attached_world c r w).promises c ls last
          (λ m le. attached-other c r w m (omega arith)) linked

  -- A functor of `then` that returns a new promise made by `resolved` or `rejected`, on a thread
  -- with a loop that has nothing posted, settles the chain behind it, whose functors each return
  -- a value or a MaybeFail of a value: the last promise ends with what they make of the result,
  -- or with its failure, with two units of fuel for each of them and seven more.
  pub returned-Settles :
      (moved : V → V)
      → (moved_failure : Bytes → Bytes) → (unit : V) → (k : ℕ) → (c last : ℕ) → (f : V → Returned V)
      → (v : V) → (ls : List (Link V)) → (r : MaybeFail V) → (w : World V) → f v ≡ back r
      → last < w.fresh
      → w.has_loop ≡ true
      → w.posted ≡ []
      → Linked w.has_loop w.promises c ls last
      → (w' : World V) × (settle moved moved_failure unit
            (suc (suc (suc (fuel_of (suc (suc (suc k))) ls))))
            (do_next (next_then c f) v ∷ [])
            w
          ≡ done w')
        × (w'.promises last ≡ settled (outcome ls r))
        × (w'.calls ≡ w.calls)
  returned-Settles moved moved_failure unit k c last f v ls r w e lt loop idle linked =
      let w1 : World V = attached_world moved moved_failure unit c r w in
      let (w', run, at_last, calls) =
        run-events moved moved_failure unit k c last (w.fresh + 1) ls r w1 (omega arith) refl
          (forwarded-new moved moved_failure unit c w.fresh (w.fresh + 1) r
            (returned_world r w).promises (omega arith))
          (attached-Linked moved moved_failure unit c last ls r w lt loop linked) in
      (
        w',
        settle-step moved moved_failure unit (suc (suc (fuel_of (suc (suc (suc k))) ls)))
              (do_next (next_then c f) v) [] [] w w1
              (step-returned moved moved_failure unit c f v r w e loop idle)
            ∙ run,
        at_last,
        calls,
      )
