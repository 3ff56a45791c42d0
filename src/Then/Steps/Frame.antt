-- ===== src/Then/Steps/Frame.antt =====
-- What `put`, `make` and `attach` of Then/Promise.antt do to the promises of include/then/Then.h.
use reckoning.Common.{ℕ, ◌≡◌, ◌≢◌, Bool, false, some, Bytes, arith}
use reckoning.Then.Promise.{
  Next, Handler, rejects, Promise, World, pending, put, post_failure, attach,
}

module _ {V : Type 0} where
  pub put_self : (n : ℕ) → (p : Promise V) → (ps : ℕ → Promise V) → put n p ps n ≡ p
  unfolding put
  put_self n p ps = ground arith

  pub put-other :
      (n : ℕ) → (p : Promise V) → (ps : ℕ → Promise V) → (m : ℕ) → m ≢ n → put n p ps m ≡ ps m
  unfolding put
  put-other n p ps m ne = ground arith

  -- A promise that waits: its continuation, the promise that its failure rejects, and the loop.
  abbrev pub waiting : Next V → ℕ → Bool → Promise V
  waiting nx c loop = record pending { next = some nx; fail = some (rejects c); loop = loop }

  -- The promises after `then` on the promise `n`.
  abbrev pub attached : ℕ → Next V → ℕ → Bool → (ℕ → Promise V) → ℕ → Promise V
  attached n nx c loop ps = put n (waiting nx c loop) (put n (waiting nx c false) ps)

  module _ (moved : V → V) (moved_failure : Bytes → Bytes) where
    pub post_failure-none :
        (n : ℕ)
        → (h : Handler) → (w : World V) → (w.promises n).failed ≡ false
        → post_failure moved moved_failure n h w ≡ some w
    unfolding post_failure
    post_failure-none n h w e = rw e

    pub attach-pending :
        (n : ℕ)
        → (nx : Next V) → (c : ℕ) → (w : World V) → w.promises n ≡ pending
        → attach moved moved_failure n nx c w
          ≡ some (record w { promises = attached n nx c w.has_loop w.promises })
    unfolding attach
    attach-pending n nx c w e = ground arith
