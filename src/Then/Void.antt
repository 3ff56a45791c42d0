-- ===== src/Then/Void.antt =====
-- Then<void> of include/then/Then.h, whose functors have no argument and whose mResolved stands
-- for the argument.
use reckoning.Common.{ℕ, Option, some, ◌>>=◌, Bytes}
use reckoning.Then.Promise.{
  MaybeFail, Returned, World, next_then, next_maybe, next_maybe_void, next_value, next_void, make,
  attach,
}

module _ {V : Type 0} (moved : V → V) (moved_failure : Bytes → Bytes) where
  unfoldable pub then_then : ℕ → (Unit {0} → Returned V) → World V → Option (ℕ × World V)
  unfolding attach
  then_then n f w = do
    w' ← attach moved moved_failure n (next_then w.fresh (λ _. f tt)) w.fresh (make w)
    some (w.fresh, w')

  unfoldable pub then_maybe : ℕ → (Unit {0} → MaybeFail V) → World V → Option (ℕ × World V)
  unfolding attach
  then_maybe n f w = do
    w' ← attach moved moved_failure n (next_maybe w.fresh (λ _. f tt)) w.fresh (make w)
    some (w.fresh, w')

  unfoldable pub then_maybe_void :
      ℕ → (Unit {0} → MaybeFail (Unit {0})) → World V → Option (ℕ × World V)
  unfolding attach
  then_maybe_void n f w = do
    w' ← attach moved moved_failure n (next_maybe_void w.fresh (λ _. f tt)) w.fresh (make w)
    some (w.fresh, w')

  unfoldable pub then_value : ℕ → (Unit {0} → V) → World V → Option (ℕ × World V)
  unfolding attach
  then_value n f w = do
    w' ← attach moved moved_failure n (next_value w.fresh (λ _. f tt)) w.fresh (make w)
    some (w.fresh, w')

  unfoldable pub then_void : ℕ → ℕ → World V → Option (ℕ × World V)
  unfolding attach
  then_void n name w = do
    w' ← attach moved moved_failure n (next_void w.fresh name) w.fresh (make w)
    some (w.fresh, w')
