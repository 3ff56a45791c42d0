-- ===== src/Then/Promise.antt =====
-- The operations of Then in include/then/Then.h: the overloads of `then`, and `fail`.
use reckoning.Common.{
  ℕ, ◌+◌, Bool, true, false, not, ◌&&◌, Option, none, some, List, [], ◌∷◌, ◌++◌, ◌==◌,
  if◌then◌else◌, ◌>>=◌, guard, Bytes,
}

-- MaybeFail<T>: a value, or the error of a Fail.
pub data MaybeFail (A : Type 0) : Type 0 where
  holds : A → MaybeFail A
  fails : Bytes → MaybeFail A

-- What a functor returns that returns a promise: one that is there already, or a new one that
-- `resolved(value)` or `rejected(failure)` has settled.
pub data Returned (V : Type 0) : Type 0 where
  given : ℕ → Returned V
  resolved : V → Returned V
  rejected : Bytes → Returned V

-- mNext, by the promise that it settles. A functor that returns nothing has a name, and the last is
-- the functor by which a promise that a functor returned resolves the promise `target`.
pub data Next (V : Type 0) : Type 0 where
  next_then : (chain : ℕ) → (V → Returned V) → Next V
  next_maybe : (chain : ℕ) → (V → MaybeFail V) → Next V
  next_maybe_void : (chain : ℕ) → (V → MaybeFail (Unit {0})) → Next V
  next_value : (chain : ℕ) → (V → V) → Next V
  next_void : (chain : ℕ) → (name : ℕ) → Next V
  next_resolve : (chain : ℕ) → (target : ℕ) → Next V

-- mFail: it rejects a promise, or calls a handler of the program's user.
pub data Handler : Type 0 where
  rejects : ℕ → Handler
  user : ℕ → Handler

-- `loop` says whether mLoop is a loop; where mNext or mFail was moved from, it is empty.
pub record Promise (V : Type 0) : Type 0 where
  pub next : Option (Next V)
  pub fail : Option Handler
  pub arg : Option V
  pub loop : Bool
  pub failure : Bytes
  pub failed : Bool

-- What is posted to the loop.
pub data Posted (V : Type 0) : Type 0 where
  run_next : Next V → V → Posted V
  run_fail : Handler → Bytes → Posted V

-- The calls of functors that return nothing and of handlers.
pub data Call (V : Type 0) : Type 0 where
  called : ℕ → V → Call V
  handled : ℕ → Bytes → Call V

-- The promises by name, the next name, the events of the loop, the calls so far, and whether the
-- thread has a loop.
pub record World (V : Type 0) : Type 0 where
  pub promises : ℕ → Promise V
  pub fresh : ℕ
  pub posted : List (Posted V)
  pub calls : List (Call V)
  pub has_loop : Bool

module _ {V : Type 0} where
  -- A new promise.
  abbrev pub pending : Promise V
  pending = record {
    next = none;
    fail = none;
    arg = none;
    loop = false;
    failure = [];
    failed = false;
  }

  unfoldable pub put : ℕ → Promise V → (ℕ → Promise V) → ℕ → Promise V
  put n p ps m = if m == n then p else ps m

  abbrev pub set : ℕ → Promise V → World V → World V
  set n p w = record w { promises = put n p w.promises }

  -- `std::make_shared<Then<…> >()`.
  abbrev pub make : World V → World V
  make w = record w { promises = put w.fresh pending w.promises; fresh = w.fresh + 1 }

  -- `loop->post(…)`, where the thread has a loop.
  unfoldable pub post : Posted V → World V → Option (World V)
  post e w = if w.has_loop then some (record w { posted = w.posted ++ e ∷ [] }) else none

  abbrev pub has_value : Option V → Bool
  has_value none = false
  has_value (some v) = true

  -- `moved` is what an argument or a failure is after it was moved from.
  module _ (moved : V → V) (moved_failure : Bytes → Bytes) where
    -- `if (mFailed)` of `then` and `fail`: the handler is posted with the failure.
    unfoldable pub post_failure : ℕ → Handler → World V → Option (World V)
    unfolding post put
    post_failure n h w = do
      let p : Promise V = w.promises n
      if p.failed
          then post (run_fail h p.failure)
              (set n (record p { fail = none; failure = moved_failure p.failure }) w)
          else some w

    -- `if (mArg.has_value())` of `then`: the continuation is posted with the argument; otherwise
    -- the loop is kept.
    unfoldable pub post_argument : ℕ → Next V → Option V → World V → Option (World V)
    unfolding post put
    post_argument n nx none w = some (set n (record (w.promises n) { loop = w.has_loop }) w)
    post_argument n nx (some v) w =
        post (run_next nx v) (set n (record (w.promises n) { next = none; arg = some (moved v) }) w)

    -- What every overload of `then` does with its continuation, which settles the promise `chain`.
    unfoldable pub attach : ℕ → Next V → ℕ → World V → Option (World V)
    unfolding post_failure post_argument put
    attach n nx chain w = do
      let p : Promise V = w.promises n
      _ ← guard (not (p.failed && has_value p.arg))
      w' ←
          post_failure n (rejects chain)
            (set n (record p { next = some nx; fail = some (rejects chain) }) w)
      post_argument n nx p.arg w'

    -- The overloads of `then` for a functor of an argument, by what it returns: a promise, a
    -- MaybeFail of a value, a MaybeFail of nothing, a value, nothing. Each gives its new promise.
    unfoldable pub then_then : ℕ → (V → Returned V) → World V → Option (ℕ × World V)
    unfolding attach
    then_then n f w = do w' ← attach n (next_then w.fresh f) w.fresh (make w); some (w.fresh, w')

    unfoldable pub then_maybe : ℕ → (V → MaybeFail V) → World V → Option (ℕ × World V)
    unfolding attach
    then_maybe n f w = do w' ← attach n (next_maybe w.fresh f) w.fresh (make w); some (w.fresh, w')

    unfoldable pub then_maybe_void : ℕ → (V → MaybeFail (Unit {0})) → World V → Option (ℕ × World V)
    unfolding attach
    then_maybe_void n f w = do
      w' ← attach n (next_maybe_void w.fresh f) w.fresh (make w)
      some (w.fresh, w')

    unfoldable pub then_value : ℕ → (V → V) → World V → Option (ℕ × World V)
    unfolding attach
    then_value n f w = do w' ← attach n (next_value w.fresh f) w.fresh (make w); some (w.fresh, w')

    unfoldable pub then_void : ℕ → ℕ → World V → Option (ℕ × World V)
    unfolding attach
    then_void n name w = do
      w' ← attach n (next_void w.fresh name) w.fresh (make w)
      some (w.fresh, w')

    -- `fail(func)`.
    unfoldable pub fail : ℕ → Handler → World V → Option (World V)
    unfolding post_failure put
    fail n h w = do
      let p : Promise V = w.promises n
      _ ← guard (not (p.failed && has_value p.arg))
      let w' : World V = set n (record p { fail = some h }) w
      if p.failed
          then post_failure n h w'
          else some (set n (record p { fail = some h; loop = w.has_loop }) w')
