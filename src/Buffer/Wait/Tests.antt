-- ===== src/Buffer/Wait/Tests.antt =====
-- The search and the collected buffers at concrete inputs.
use reckoning.Common.{true, some, [], ◌∷◌, refl, arith}
use reckoning.Buffer.{Buffer}
use reckoning.Buffer.Source.{PoolState, pool_source}
use reckoning.Buffer.Wait.{Wait, feed}
use reckoning.Buffer.Wait.Feed.{waits, Feeds, feed-waits}

abbrev chunk : Buffer
chunk = record { memory = 3 ∷ 4 ∷ 0 ∷ 0 ∷ []; size = 2; owned = true }

abbrev old_chunk : Buffer
old_chunk = record { memory = 1 ∷ 2 ∷ []; size = 2; owned = true }

-- The needle came in two chunks.
abbrev split_needle : Wait
split_needle = record { buffer = some old_chunk; needle = 2 ∷ 3 ∷ [] }

abbrev free_slot : PoolState 4
free_slot = (
  record { buffer = record { memory = 0 ∷ 0 ∷ 0 ∷ 0 ∷ []; size = 0; owned = true }; refs = 0 } ∷ [],
  ((refl, (omega arith)), tt),
)

feed-waits_example :
    Feeds
      (waits 4 true (2 ∷ 3 ∷ []) (some (1 ∷ 2 ∷ [])) (3 ∷ 4 ∷ []))
      (2 ∷ 3 ∷ [])
      (feed 4 (pool_source 4 0) free_slot true chunk split_needle)
feed-waits_example =
    feed-waits 4 (pool_source 4 0) free_slot true chunk split_needle (omega arith) (omega arith)
