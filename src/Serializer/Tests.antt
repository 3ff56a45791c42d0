-- ===== src/Serializer/Tests.antt =====
-- The serializer at concrete inputs, over the pool.
use reckoning.Common.{true, false, none, some, List, [], ◌∷◌, map, ◌≡◌, refl, arith}
use reckoning.Common.Maps.{codes}
use reckoning.Buffer.{Buffer}
use reckoning.Buffer.Slots.{pool, pool-IsPool}
use reckoning.Buffer.Source.{PoolState, pool_source}
use reckoning.Serializer.RoundTrip.{encode, encode_all, take_all-put_all}
use reckoning.Serializer.{
  Serializer, no_data, le_bytes, Item, num, str, kind, open_new, open_buffer, put_all, take_all,
}

abbrev items : List Item
items = num 2 513 ∷ str (codes "hi") ∷ []

-- An empty pool of buffers of no bytes stands for the pool here, so that the test runs.
abbrev small : Serializer
small = record {
  path = [];
  valid = no_data;
  read_pos = 0;
  buffer = some (record { memory = 1 ∷ 0 ∷ 0 ∷ 0 ∷ []; size = 1; owned = true });
  buffer_ref = none;
  mode = record { reads = true; writes = true; truncates = false };
  owns_buffer = true;
}

encode_runs : encode_all items ≡ 1 ∷ 2 ∷ 2 ∷ 0 ∷ 0 ∷ 0 ∷ 0 ∷ 0 ∷ 0 ∷ 0 ∷ b'h' ∷ b'i' ∷ []
unfolding encode le_bytes
encode_runs = refl

start : PoolState 16384
start = (pool 4 16384 0, pool-IsPool 4 16384 0)

take_all-put_all_example :
    (w : Serializer) × (s : Serializer) × (s' : Serializer) × (first : PoolState 16384)
    × (last : PoolState 16384) × (b : Buffer) × (open_new (pool_source 16384 0) start
        ≡ some (w, first))
    × (put_all (pool_source 16384 0) first items w ≡ some (s, last))
    × (s.buffer ≡ some b)
    × (take_all (map kind items) (open_buffer b) ≡ some (items, s'))
    × (s'.read_pos ≡ b.size)
unfolding encode le_bytes
take_all-put_all_example =
    take_all-put_all (pool_source 16384 0) start items (omega arith) (omega arith)
