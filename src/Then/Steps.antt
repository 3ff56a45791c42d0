-- ===== src/Then/Steps.antt =====
-- How promises of include/then/Then.h are settled: `resolve`, `reject`, and the continuations
-- that they call. A call that the code makes last, or one after another, is a task; the loop
-- takes what is posted to it in order (Event/Queue/Order).
pub mod Frame
pub mod Calls
pub mod Chains
pub mod Built
pub mod Late
pub mod Elsewhere
pub mod Posts
pub mod Inner
use reckoning.Common.{
  ℕ, zero, suc, ◌+◌, Bool, true, false, not, ◌&&◌, ◌||◌, Option, none, some, List, [], ◌∷◌, ◌++◌,
  ◌==◌, if◌then◌else◌, ◌>>=◌, ◌>>◌, guard, Bytes,
}
use reckoning.Then.Promise.{
  MaybeFail, holds, fails, Returned, given, resolved, rejected, Next, next_then, next_maybe,
  next_maybe_void, next_value, next_void, next_resolve, Handler, rejects, user, Promise, Posted,
  run_next, run_fail, Call, called, handled, World, put, set, make, attach, fail,
}

pub data Task (V : Type 0) : Type 0 where
  do_resolve : ℕ → V → Task V
  do_reject : ℕ → Bytes → Task V
  do_next : Next V → V → Task V
  do_fail : Handler → Bytes → Task V

abbrev pub task : {V : Type 0} → Posted V → Task V
task (run_next nx v) = do_next nx v
task (run_fail h e) = do_fail h e

-- A run ends, or an assertion fails or a null pointer is dereferenced, or the fuel is spent.
pub data Run (V : Type 0) : Type 0 where
  done : World V → Run V
  fault : Run V
  out_of_fuel : Run V

abbrev pub Step : Type 0 → Type 0
Step V = World V × List (Task V)

module _ {V : Type 0} where
  -- `loop->send(…)`, or a call if there is no loop: on the loop's thread, where `here` says so, the
  -- call is made on the spot.
  unfoldable pub send : Bool → Bool → Posted V → World V → Step V
  send here loop e w =
      if loop && not here then (record w { posted = w.posted ++ e ∷ [] }, []) else (w, task e ∷ [])

  unfoldable pub resolve_next : Bool → ℕ → V → Option (Next V) → World V → Step V
  unfolding send put
  resolve_next here n v none w = (set n (record (w.promises n) { arg = some v }) w, [])
  resolve_next here n v (some nx) w =
      send here (w.promises n).loop (run_next nx v)
        (set n (record (w.promises n) { next = none }) w)

  -- `resolve(arg)`, on the loop's thread or not.
  unfoldable pub resolve : Bool → ℕ → V → World V → Step V
  unfolding resolve_next
  resolve here n v w = resolve_next here n v (w.promises n).next w

  unfoldable pub reject_fail : Bool → ℕ → Bytes → Option Handler → World V → Step V
  unfolding send put
  reject_fail here n e none w = (set n (record (w.promises n) { failed = true; failure = e }) w, [])
  reject_fail here n e (some h) w =
      send here (w.promises n).loop (run_fail h e) (set n (record (w.promises n) { fail = none }) w)

  -- `reject(failure)`.
  unfoldable pub reject : Bool → ℕ → Bytes → World V → Step V
  unfolding reject_fail
  reject here n e w = reject_fail here n e (w.promises n).fail w

  -- mFail of a promise with a `then`, and the handler of `fail`.
  unfoldable pub call_fail : Handler → Bytes → World V → Step V
  call_fail (rejects chain) e w = (w, do_reject chain e ∷ [])
  call_fail (user name) e w = (record w { calls = w.calls ++ handled name e ∷ [] }, [])

  abbrev pub settle_maybe : ℕ → MaybeFail V → Task V
  settle_maybe chain (holds v) = do_resolve chain v
  settle_maybe chain (fails e) = do_reject chain e

  abbrev pub settle_maybe_void : V → ℕ → MaybeFail (Unit {0}) → Task V
  settle_maybe_void unit chain (holds u) = do_resolve chain unit
  settle_maybe_void unit chain (fails e) = do_reject chain e

  -- `resolved(value)` and `rejected(failure)`: a new promise, which nothing waits for yet.
  unfoldable pub make_resolved : V → World V → ℕ × World V
  unfolding resolve
  make_resolved v w = (w.fresh, (resolve true w.fresh v (make w)).0)

  unfoldable pub make_rejected : Bytes → World V → ℕ × World V
  unfolding reject
  make_rejected e w = (w.fresh, (reject true w.fresh e (make w)).0)

  -- The promise that a functor returned.
  unfoldable pub returned : Returned V → World V → ℕ × World V
  unfolding make_resolved make_rejected
  returned (given n) w = (n, w)
  returned (resolved v) w = make_resolved v w
  returned (rejected e) w = make_rejected e w

  module _ (moved : V → V) (moved_failure : Bytes → Bytes) (unit : V) where
    -- What the continuation of the overload for a functor that returns a promise does with that
    -- promise `n`: its failure rejects the chain, its value resolves it.
    unfoldable pub forward : ℕ → ℕ → World V → Option (Step V)
    unfolding attach fail
    forward chain n w = do
      w' ← fail moved moved_failure n (rejects chain) w
      w'' ← attach moved moved_failure n (next_resolve w'.fresh chain) w'.fresh (make w')
      some (w'', [])

    -- mNext of the overloads of `then`.
    unfoldable pub call_next : Next V → V → World V → Option (Step V)
    unfolding forward returned
    call_next (next_then chain f) v w = let (n, w') = returned (f v) w in forward chain n w'
    call_next (next_maybe chain f) v w = some (w, settle_maybe chain (f v) ∷ [])
    call_next (next_maybe_void chain f) v w = some (w, settle_maybe_void unit chain (f v) ∷ [])
    call_next (next_value chain f) v w = some (w, do_resolve chain (f v) ∷ [])
    call_next (next_void chain name) v w =
        some (record w { calls = w.calls ++ called name v ∷ [] }, do_resolve chain unit ∷ [])
    call_next (next_resolve chain target) v w =
        some (w, do_resolve target v ∷ do_resolve chain unit ∷ [])

    -- A task on the loop's thread, with the calls that it makes.
    unfoldable pub step : Task V → World V → Option (Step V)
    unfolding resolve reject call_fail call_next
    step (do_resolve n v) w = some (resolve true n v w)
    step (do_reject n e) w = some (reject true n e w)
    step (do_next nx v) w = call_next nx v w
    step (do_fail h e) w = some (call_fail h e w)

    -- The tasks, and then what is posted, until nothing is left, on fuel.
    unfoldable pub settle : ℕ → List (Task V) → World V → Run V
    unfolding step
    settle zero [] w = elim w.posted [ [] ↦ done w | _ ∷ _ ↦ out_of_fuel ]
    settle zero (t ∷ ts) w = out_of_fuel
    settle (suc fuel) [] w = elim w.posted [
      | [] ↦ done w
      | e ∷ es ↦ settle fuel (task e ∷ []) (record w { posted = es })
    ]
    settle (suc fuel) (t ∷ ts) w = elim (step t w) [
      | none ↦ fault
      | some (w', us) ↦ settle fuel (us ++ ts) w'
    ]
