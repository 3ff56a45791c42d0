-- ===== src/Then/Steps/Calls.antt =====
-- One call of `resolve`, `reject` or a continuation of include/then/Then.h, on the loop's thread.
use reckoning.Common.{ℕ, zero, suc, ◌≡◌, true, none, some, List, [], ◌∷◌, ◌++◌, Bytes, arith}
use reckoning.Then.Promise.{Next, Handler, Posted, World, set}
use reckoning.Then.Steps.{
  Task, do_next, do_fail, done, send, resolve, reject, resolve_next, reject_fail, step, settle,
  task,
}

module _ {V : Type 0} where
  pub resolve-next :
      (n : ℕ)
      → (nx : Next V) → (v : V) → (w : World V) → (w.promises n).next ≡ some nx
      → resolve true n v w ≡ (set n (record (w.promises n) { next = none }) w, do_next nx v ∷ [])
  unfolding resolve resolve_next send
  resolve-next n nx v w e = ground arith

  pub resolve-last :
      (n : ℕ)
      → (v : V) → (w : World V) → (w.promises n).next ≡ none
      → resolve true n v w ≡ (set n (record (w.promises n) { arg = some v }) w, [])
  unfolding resolve resolve_next
  resolve-last n v w e = ground arith

  pub reject-fail :
      (n : ℕ)
      → (h : Handler) → (x : Bytes) → (w : World V) → (w.promises n).fail ≡ some h
      → reject true n x w ≡ (set n (record (w.promises n) { fail = none }) w, do_fail h x ∷ [])
  unfolding reject reject_fail send
  reject-fail n h x w e = ground arith

  pub reject-last :
      (n : ℕ)
      → (x : Bytes) → (w : World V) → (w.promises n).fail ≡ none
      → reject true n x w ≡ (set n (record (w.promises n) { failed = true; failure = x }) w, [])
  unfolding reject reject_fail
  reject-last n x w e = ground arith

  module _ (moved : V → V) (moved_failure : Bytes → Bytes) (unit : V) where
    pub settle-idle :
        (k : ℕ) → (w : World V) → w.posted ≡ [] → settle moved moved_failure unit k [] w ≡ done w
    unfolding settle
    settle-idle zero w e = rw e
    settle-idle (suc k) w e = rw e

    pub settle-step :
        (k : ℕ)
        → (t : Task V) → (ts us : List (Task V)) → (w w' : World V)
        → step moved moved_failure unit t w ≡ some (w', us)
        → settle moved moved_failure unit (suc k) (t ∷ ts) w
          ≡ settle moved moved_failure unit k (us ++ ts) w'
    unfolding settle
    settle-step k t ts us w w' e = ground arith

    pub settle-post :
        (k : ℕ)
        → (e : Posted V) → (es : List (Posted V)) → (w : World V) → w.posted ≡ e ∷ es
        → settle moved moved_failure unit (suc k) [] w
          ≡ settle moved moved_failure unit k (task e ∷ []) (record w { posted = es })
    unfolding settle
    settle-post k e es w h = ground arith
