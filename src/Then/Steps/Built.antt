-- ===== src/Then/Steps/Built.antt =====
-- Chains that `then` of include/then/Then.h builds on a promise that is not settled.
use reckoning.Common.{
  ℕ, ◌≤◌, ◌<◌, ◌≡◌, refl, sym, subst, ◌∙◌, ◌≢◌, Option, some, List, [], ◌∷◌, Bytes, arith, ◌>>=◌,
}
use reckoning.Then.Promise.{MaybeFail, World, pending, put, make, attach, then_maybe, then_value}
use reckoning.Then.Steps.{done, settle_maybe, settle}
use reckoning.Then.Steps.Frame.{put-other, waiting, attached, attach-pending}
use reckoning.Then.Steps.Chains.{
  Link, value, maybe, outcome, settled, next_of, Linked, fuel_of, settle-alone,
}

module _ {V : Type 0} where
  -- The names from the next on are of promises that are not made yet.
  unfoldable pub IsFresh : World V → Type 0
  IsFresh w = (m : ℕ) → w.fresh ≤ m → w.promises m ≡ pending

  module _ (moved : V → V) (moved_failure : Bytes → Bytes) where
    unfoldable pub then_link : ℕ → Link V → World V → Option (ℕ × World V)
    unfolding then_value then_maybe
    then_link n (value f) w = then_value moved moved_failure n f w
    then_link n (maybe f) w = then_maybe moved moved_failure n f w

    -- `then` on the promise `n`, `then` on what that returns, and so on: the last promise.
    unfoldable pub then_all : ℕ → List (Link V) → World V → Option (ℕ × World V)
    unfolding then_link
    then_all n [] w = some (n, w)
    then_all n (l ∷ ls) w = do (c, w') ← then_link n l w; then_all c ls w'

    abbrev pub linked : ℕ → Link V → World V → World V
    linked n l w = record (make w) {
      promises = attached n (next_of w.fresh l) w.fresh w.has_loop (make w).promises;
    }

    pub then_link-attach :
        (n : ℕ)
        → (l : Link V) → (w w' : World V)
        → attach moved moved_failure n (next_of w.fresh l) w.fresh (make w) ≡ some w'
        → then_link n l w ≡ some (w.fresh, w')
    unfolding then_link then_value then_maybe
    then_link-attach n (value f) w w' e = rw e
    then_link-attach n (maybe f) w w' e = rw e

    then_link-linked :
        (n : ℕ)
        → (l : Link V) → (w : World V) → n < w.fresh
        → w.promises n ≡ pending
        → then_link n l w ≡ some (w.fresh, linked n l w)
    then_link-linked n l w lt p = then_link-attach n l w (linked n l w) (
        attach-pending moved moved_failure n (next_of w.fresh l) w.fresh (make w)
          (put-other w.fresh pending w.promises n (omega arith) ∙ p))

    -- What building a chain keeps.
    unfoldable pub Keeps : ℕ → World V → World V → Type 0
    Keeps n w w' =
        ((m : ℕ) → m < w.fresh → m ≢ n → w'.promises m ≡ w.promises m)
        × (w'.posted ≡ w.posted)
        × (w'.calls ≡ w.calls)
        × (w'.has_loop ≡ w.has_loop)

    linked-other :
        (n : ℕ)
        → (l : Link V) → (w : World V) → (m : ℕ) → m ≢ n
        → m ≢ w.fresh
        → (linked n l w).promises m ≡ w.promises m
    unfolding put
    linked-other n l w m ne ne' = ground arith

    linked-IsFresh :
        (n : ℕ) → (l : Link V) → (w : World V) → n < w.fresh → IsFresh w → IsFresh (linked n l w)
    unfolding IsFresh
    linked-IsFresh n l w lt f m le =
        linked-other n l w m (omega arith) (omega arith) ∙ f m (omega arith)

    linked-new :
        (n : ℕ)
        → (l : Link V) → (w : World V) → n < w.fresh
        → (linked n l w).promises w.fresh ≡ pending
    unfolding put
    linked-new n l w lt = ground arith

    linked-old :
        (n : ℕ)
        → (l : Link V) → (w : World V)
        → (linked n l w).promises n ≡ waiting (next_of w.fresh l) w.fresh w.has_loop
    unfolding put
    linked-old n l w = ground arith

    pub then_all-Linked :
        (n : ℕ)
        → (ls : List (Link V)) → (w : World V) → n < w.fresh
        → w.promises n ≡ pending
        → IsFresh w
        → (last : ℕ) × (w' : World V) × (then_all n ls w ≡ some (last, w'))
          × Linked w.has_loop w'.promises n ls last
          × Keeps n w w'
    unfolding then_all Linked Keeps
    then_all-Linked n [] w lt p f = (n, w, refl, (refl, p), ((λ m _ _. refl), refl, refl, refl))
    then_all-Linked n (l ∷ ls) w lt p f =
        let (last, w', run, ok, (keep, posted, calls, loop)) =
          then_all-Linked w.fresh ls (linked n l w) (omega arith) (linked-new n l w lt)
            (linked-IsFresh n l w lt f) in
        (
          last,
          w',
          rw (then_link-linked n l w lt p) run,
          (w.fresh, lt, keep n (omega arith) (omega arith) ∙ linked-old n l w, ok),
          (
            (λ m lt' ne.
                keep m (omega arith) (omega arith) ∙ linked-other n l w m ne (omega arith)),
            posted,
            calls,
            loop,
          ),
        )

  -- A chain that `then` builds on an unsettled promise, of functors that take the argument and
  -- return a value or a MaybeFail of a value (not nothing, nor a promise), with nothing posted to
  -- the loop and no promise under a new name, settles, whatever its length: once the first
  -- promise is resolved or rejected on the loop's thread, with two units of fuel for each functor
  -- and one more, the last promise has what the functors make of the result, one after another,
  -- or the first failure, and no other call is made.
  pub then_all-Settles :
      (moved : V → V)
      → (moved_failure : Bytes → Bytes) → (unit : V) → (k : ℕ) → (n : ℕ) → (ls : List (Link V))
      → (r : MaybeFail V) → (w : World V) → n < w.fresh
      → w.promises n ≡ pending
      → IsFresh w
      → w.posted ≡ []
      → (last : ℕ) × (w' w'' : World V) × (then_all moved moved_failure n ls w ≡ some (last, w'))
        × (settle moved moved_failure unit (fuel_of k ls) (settle_maybe n r ∷ []) w' ≡ done w'')
        × (w''.promises last ≡ settled (outcome ls r))
        × (w''.calls ≡ w.calls)
  unfolding Keeps
  then_all-Settles moved moved_failure unit k n ls r w lt p f idle =
      let (last, w', built, ok, (_, posted, calls, loop)) =
        then_all-Linked moved moved_failure n ls w lt p f in
      let (w'', run, at_last, same) =
        settle-alone moved moved_failure unit k r n last ls w' (posted ∙ idle)
          (subst (λ b. Linked b w'.promises n ls last) (sym loop) ok) in
      (last, w', w'', built, run, at_last, same ∙ calls)
