-- ===== src/Event/Queue/Order.antt =====
-- The order in which lib/event/Loop_epoll.cpp executes events.
use reckoning.Common.{
  ℕ, zero, suc, ◌+◌, Bool, true, false, List, [], ◌∷◌, ◌++◌, ◌≡◌, inl, inr, refl, sym, ap, ◌∙◌,
  arith, if◌then◌else◌, Bool-cases, length, length-append, append_assoc, append-nil,
}
use reckoning.Event.Queue.{Queue, post, post_all, exit, execute, execute_all, turn, drain}

module _ (run : ℕ → List ℕ × Bool) where
  -- One queue, whose first event is executed and whose end takes what it posts: the queue after so
  -- many events, with those executed.
  unfoldable pub fifo : ℕ → List ℕ → List ℕ × List ℕ
  fifo zero es = ([], es)
  fifo (suc n) [] = ([], [])
  fifo (suc n) (e ∷ es) = let (done, left) = fifo n (es ++ (run e).0) in (e ∷ done, left)

  -- All that a list of events posts.
  posted : List ℕ → List ℕ
  posted [] = []
  posted (e ∷ es) = (run e).0 ++ posted es

  post_all-events : (es : List ℕ) (q : Queue) → (post_all es q).events ≡ q.events ++ es
  unfolding post_all post
  post_all-events [] q = sym (append-nil q.events)
  post_all-events (e ∷ es) q = post_all-events es (post e q) ∙ append_assoc q.events (e ∷ []) es

  execute-events : (e : ℕ) (q : Queue) → (execute run e q).events ≡ q.events ++ (run e).0
  unfolding execute exit
  execute-events e q = elim (Bool-cases (run e).1) [
    | inl stops ↦ rw stops (post_all-events (run e).0 q)
    | inr goes_on ↦ rw goes_on (post_all-events (run e).0 q)
  ]

  execute_all-events :
      (es : List ℕ) (q : Queue) → (execute_all run es q).events ≡ q.events ++ posted es
  unfolding execute_all posted
  execute_all-events [] q = sym (append-nil q.events)
  execute_all-events (e ∷ es) q =
      execute_all-events es (execute run e q)
      ∙ ap (λ l. l ++ posted es) (execute-events e q)
      ∙ append_assoc q.events (run e).0 (posted es)

  fifo-append :
      (es rest : List ℕ) (n m : ℕ)
      → m ≡ length es + n
      → fifo m (es ++ rest) ≡ (es ++ (fifo n (rest ++ posted es)).0, (fifo n (rest ++ posted es)).1)
  unfolding fifo posted
  fifo-append [] rest n m h = let e : m ≡ n = omega arith in rw (e, append-nil rest) refl
  fifo-append (e ∷ es) rest n zero h = ground arith
  fifo-append (e ∷ es) rest n (suc m) h =
      rw
        (
          append_assoc es rest (run e).0,
          fifo-append es (rest ++ (run e).0) n m (omega arith),
          append_assoc rest (run e).0 (posted es),
        )
        refl

  turn-events :
      (es : List ℕ) (q : Queue)
      → q.events ≡ es
      → ((turn run es q).0 ≡ es) × ((turn run es q).1.events ≡ posted es)
  unfolding turn posted
  turn-events [] q h = (refl, h)
  turn-events (e ∷ es) q h = (refl, execute_all-events (e ∷ es) (record q { events = [] }))

  if_false : {A : Type 0} (b : Bool) (x y : A) → b ≡ false → (if b then x else y) ≡ y
  if_false b x y e = rw e refl

  if_true : {A : Type 0} (b : Bool) (x y : A) → b ≡ true → (if b then x else y) ≡ x
  if_true b x y e = rw e refl

  drain-stopped : (fuel : ℕ) (q : Queue) → q.stopped ≡ true → drain run (suc fuel) q ≡ ([], q)
  unfolding drain
  drain-stopped fuel q e = if_true q.stopped _ _ e

  drain-turn :
      (fuel : ℕ) (q : Queue)
      → q.stopped ≡ false
      → drain run (suc fuel) q ≡ (
        (turn run q.events q).0 ++ (drain run fuel (turn run q.events q).1).0,
        (drain run fuel (turn run q.events q).1).1,
      )
  unfolding drain
  drain-turn fuel q e = if_false q.stopped _ _ e

  -- However long the loop goes on, it has executed events in the order in which they were posted,
  -- as one queue that takes at its end what each event posts would have, and what is left is what
  -- that queue would hold, also where an event calls `exit` and the loop ends after its turn.
  pub drain-fifo :
      (fuel : ℕ) (q : Queue)
      → fifo (length (drain run fuel q).0) q.events
        ≡ ((drain run fuel q).0, (drain run fuel q).1.events)
  drain-fifo zero q = unfold fifo drain in refl
  drain-fifo (suc fuel) q = elim (Bool-cases q.stopped) [
    | inl stopped ↦ rw (drain-stopped fuel q stopped) (unfold fifo in refl)
    | inr goes_on ↦
        let (a, b) = turn-events q.events q refl in
        let q' : Queue = (turn run q.events q).1 in
        rw (drain-turn fuel q goes_on, a)
          (ap (fifo (length (q.events ++ (drain run fuel q').0))) (sym (append-nil q.events))
            ∙ fifo-append q.events [] (length (drain run fuel q').0) _
                (length-append q.events (drain run fuel q').0)
            ∙ ap (λ r. (q.events ++ r.0, r.1))
                (ap (fifo (length (drain run fuel q').0)) (sym b) ∙ drain-fifo fuel q'))
  ]
