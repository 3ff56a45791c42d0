-- ===== src/Buffer/Tests.antt =====
-- Buffers, the pool and the builder at concrete inputs.
use reckoning.Common.{true, Option, none, some, List, [], ◌∷◌, ◌≡◌, refl, arith, Bytes, replicate}
use reckoning.Common.Maps.{codes}
use reckoning.Buffer.{Buffer, contents, IsValid, create, append}
use reckoning.Buffer.Concat.{join, concat}
use reckoning.Buffer.Slots.{Slot, pooled, created, get, pool_concat, pool_concat-contents}

-- Two bytes used of four.
abbrev half_full : Buffer
half_full = record { memory = 1 ∷ 2 ∷ 3 ∷ 4 ∷ []; size = 2; owned = true }

abbrev other : Buffer
other = record { memory = 7 ∷ 8 ∷ 9 ∷ []; size = 3; owned = true }

append_fits :
    append (9 ∷ []) half_full ≡ some (record half_full { memory = 1 ∷ 2 ∷ 9 ∷ 4 ∷ []; size = 3 })
unfolding append
append_fits = refl

abbrev arguments : List (Option Buffer)
arguments = some half_full ∷ none ∷ some other ∷ []

concat_runs :
    concat 0 arguments
    ≡ some (record { memory = 1 ∷ 2 ∷ 7 ∷ 8 ∷ 9 ∷ 0 ∷ 0 ∷ 0 ∷ 0 ∷ 0 ∷ []; size = 5; owned = true })
unfolding concat join
concat_runs = refl

abbrev two_slots : List Slot
two_slots = record { buffer = half_full; refs = 1 } ∷ record { buffer = half_full; refs = 0 } ∷ []

get_second : get 4 0 3 two_slots ≡ pooled 1 half_full
unfolding get
get_second = refl

get_large : get 4 0 5 two_slots ≡ created (create (replicate 5 0))
unfolding get
get_large = refl

abbrev free_slots : List Slot
free_slots = record { buffer = half_full; refs = 0 } ∷ record { buffer = half_full; refs = 0 } ∷ []

pool_concat-contents_example :
    (b : Buffer) × (pool_concat 4 0 two_slots arguments ≡ some b)
    × (contents b ≡ 1 ∷ 2 ∷ 7 ∷ 8 ∷ 9 ∷ [])
    × IsValid b
pool_concat-contents_example =
    pool_concat-contents 4 0 two_slots arguments (omega arith) (omega arith) (omega arith)

abbrev texts : List Bytes
texts = codes "ab" ∷ codes "cd" ∷ codes "e" ∷ []
