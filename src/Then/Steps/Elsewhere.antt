-- ===== src/Then/Steps/Elsewhere.antt =====
-- `resolve` and `reject` of include/then/Then.h on another thread than the loop's:
-- `loop->send(…)` posts the continuation or the failure.
use reckoning.Common.{
  ℕ, suc, ◌≡◌, refl, ap, ◌∙◌, Bool, true, false, none, some, List, [], ◌∷◌, ◌++◌, Bytes, arith,
}
use reckoning.Then.Promise.{MaybeFail, holds, fails, Next, rejects, Promise, World, put}
use reckoning.Then.Steps.{
  done, settle, settle_maybe, task, Step, send, resolve, reject, resolve_next, reject_fail,
}
use reckoning.Then.Steps.Frame.{put-other}
use reckoning.Then.Steps.Calls.{settle-step, settle-post}
use reckoning.Then.Steps.Chains.{
  Link, outcome, settled, next_of, Linked, Linked-frame, fuel_of, settle-alone,
}
use reckoning.Then.Steps.Late.{event_of, step-event, outcome-link}

module _ {V : Type 0} where
  -- `resolve` or `reject`, with a result.
  abbrev pub conclude : Bool → ℕ → MaybeFail V → World V → Step V
  conclude here n (holds v) w = resolve here n v w
  conclude here n (fails e) w = reject here n e w

  abbrev emptied : MaybeFail V → Promise V → Promise V
  emptied (holds v) p = record p { next = none }
  emptied (fails e) p = record p { fail = none }

  conclude-posts :
      (n : ℕ)
      → (nx : Next V) → (c : ℕ) → (r : MaybeFail V) → (w : World V) → (w.promises n).next ≡ some nx
      → (w.promises n).fail ≡ some (rejects c)
      → (w.promises n).loop ≡ true
      → conclude false n r w ≡ (
        record w {
          promises = put n (emptied r (w.promises n)) w.promises;
          posted = w.posted ++ event_of nx c r ∷ [];
        },
        [],
      )
  unfolding resolve resolve_next reject reject_fail send
  conclude-posts n nx c (holds v) w e e' loop = ground arith
  conclude-posts n nx c (fails x) w e e' loop = ground arith

-- `resolve` or `reject` of the first promise of a chain of functors that each return a value or a
-- MaybeFail of a value (not nothing, nor a promise), on another thread than that of the loop,
-- which has nothing posted, calls nothing there; once the loop has taken what was posted, with
-- the fuel that the same call on its own thread needs, the last promise has what the functors
-- make of the result, or the first failure.
pub conclude-elsewhere :
    {V : Type 0}
    → (moved : V → V) → (moved_failure : Bytes → Bytes) → (unit : V) → (k : ℕ) → (n last : ℕ)
    → (l : Link V) → (ls : List (Link V)) → (r : MaybeFail V) → (w : World V) → w.posted ≡ []
    → w.has_loop ≡ true
    → Linked w.has_loop w.promises n (l ∷ ls) last
    → (w' w'' : World V) × (conclude false n r w ≡ (w', []))
      × (settle moved moved_failure unit (fuel_of k (l ∷ ls)) [] w' ≡ done w'')
      × (w''.promises last ≡ settled (outcome (l ∷ ls) r))
      × (w''.calls ≡ w.calls)
unfolding Linked
conclude-elsewhere moved moved_failure unit k n last l ls r w idle on_loop (c, lt, p, rest) =
    let q : Promise _ = emptied r (w.promises n) in
    let e = event_of (next_of c l) c r in
    let w1 : World _ = record w { promises = put n q w.promises; posted = w.posted ++ e ∷ [] } in
    let w2 : World _ = record w1 { posted = [] } in
    let (w3, run, at_last, calls) =
      settle-alone moved moved_failure unit k (outcome (l ∷ []) r) c last ls w2 refl (
        Linked-frame w.has_loop w.promises w2.promises c ls last
          (λ m le. put-other n q w.promises m (omega arith)) rest) in
    (
      w1,
      w3,
      conclude-posts n (next_of c l) c r w (ap (λ q. q.next) p) (ap (λ q. q.fail) p)
          (ap (λ q. q.loop) p ∙ on_loop),
      settle-post moved moved_failure unit (suc (fuel_of k ls)) e [] w1
            (ap (λ es. es ++ e ∷ []) idle)
          ∙ settle-step moved moved_failure unit (fuel_of k ls) (task e) []
              (settle_maybe c (outcome (l ∷ []) r) ∷ []) w2 w2
              (step-event moved moved_failure unit c l r w2)
          ∙ run,
      at_last ∙ ap settled (outcome-link moved moved_failure l ls r),
      calls,
    )
