-- ===== src/Event/Queue.antt =====
-- The events of include/event/Loop.h and lib/event/Loop_epoll.cpp: `send`, `post`, `exit`, and
-- "execute all events". Events are names. What one does is code of the program's user: `run` says
-- which events it posts and whether it calls `exit`.
pub mod Order
use reckoning.Common.{
  ℕ, zero, suc, ◌+◌, Bool, true, false, ◌||◌, List, [], ◌∷◌, ◌++◌, if◌then◌else◌,
}

-- mEvents and mStopped.
pub record Queue : Type 0 where
  pub events : List ℕ
  pub stopped : Bool

-- `post(event)`.
unfoldable pub post : ℕ → Queue → Queue
post e q = record q { events = q.events ++ e ∷ [] }

-- What an event posts, in order.
unfoldable pub post_all : List ℕ → Queue → Queue
unfolding post
post_all [] q = q
post_all (e ∷ es) q = post_all es (post e q)

-- `exit()`, of which the status is left out.
unfoldable pub exit : Queue → Queue
exit q = record q { stopped = true }

module _ (run : ℕ → List ℕ × Bool) where
  -- `execute()` of an event on the loop's thread.
  unfoldable pub execute : ℕ → Queue → Queue
  unfolding post_all exit
  execute e q = let q' : Queue = post_all (run e).0 q in if (run e).1 then exit q' else q'

  -- `send(event)`, where `here` says that the thread is the loop's: the events executed on the
  -- spot, and the queue.
  unfoldable pub send : Bool → ℕ → Queue → List ℕ × Queue
  unfolding execute post
  send here e q = if here then (e ∷ [], execute e q) else ([], post e q)

  -- The events that were moved out of the queue, one after another.
  unfoldable pub execute_all : List ℕ → Queue → Queue
  unfolding execute
  execute_all [] q = q
  execute_all (e ∷ es) q = execute_all es (execute e q)

  -- A turn of the loop for the events `es` of the queue: those executed, and the queue; with none
  -- the loop ends.
  unfoldable pub turn : List ℕ → Queue → List ℕ × Queue
  unfolding execute_all
  turn [] q = ([], q)
  turn (e ∷ es) q = (e ∷ es, execute_all (e ∷ es) (record q { events = [] }))

  -- "execute all events", on fuel: it may go on for as long as events post events.
  unfoldable pub drain : ℕ → Queue → List ℕ × Queue
  unfolding turn
  drain zero q = ([], q)
  drain (suc fuel) q =
      let (es, q') = turn q.events q in
      let (es', q'') = drain fuel q' in if q.stopped then ([], q) else (es ++ es', q'')
