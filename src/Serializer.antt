-- ===== src/Serializer.antt =====
-- include/serializer/Serializer.h and lib/serializer/Serializer.cpp. A failed assertion or a
-- dereferenced null pointer is `none`. The buffers come from the pool, an argument; the file
-- system's answers are arguments of the constructor that asks for them.
pub mod Numbers
pub mod Writing
pub mod RoundTrip
mod Tests
use reckoning.Common.{
  ℕ, zero, suc, ◌+◌, ◌*◌, ◌/◌, ◌%◌, ◌≤◌, ◌<◌, Bool, true, false, not, ◌&&◌, ◌||◌, Option, none,
  some, List, [], ◌∷◌, ◌++◌, ltb, leb, ◌==◌, if◌then◌else◌, ◌>>=◌, ◌>>◌, guard, Bytes, length, take,
  drop,
}
use reckoning.Buffer.{Buffer, max, contents, set_size, append, append_buffer}
use reckoning.Buffer.Source.{BufferSource}

pub data ValidType : Type 0 where
  invalid no_data data_not_ready data_ready : ValidType

-- The bits of `mMode`.
pub record Mode : Type 0 where
  pub reads : Bool
  pub writes : Bool
  pub truncates : Bool

-- `mBufferRef` is a buffer of the caller only where the serializer does not own its buffer.
pub record Serializer : Type 0 where
  pub path : Bytes
  pub valid : ValidType
  pub read_pos : ℕ
  pub buffer : Option Buffer
  pub buffer_ref : Option Buffer
  pub mode : Mode
  pub owns_buffer : Bool

abbrev pub is_ready : ValidType → Bool
is_ready data_ready = true
is_ready no_data = true
is_ready _ = false

-- `isValid()`.
unfoldable pub is_valid : Serializer → Bool
is_valid s = is_ready s.valid

module _ {S : Type 0} (source : BufferSource 16384 S) where
  -- A buffer of the pool, emptied.
  empty_buffer : S → ℕ → Option (Buffer × S)
  unfolding set_size
  empty_buffer st sz = do let got = source.get st sz; b ← set_size 0 got.0; some (b, got.1)

  new_size : Buffer → ℕ → ℕ
  new_size b sz =
      let step = max b * 2 in
      if ltb step (2048 * 1024) && ltb (b.size + sz) step then step else b.size + (sz * 2)

  -- `realloc`: the serializer's buffer after it.
  unfoldable pub realloc : S → ℕ → Option Buffer → Option (Buffer × S)
  unfolding empty_buffer new_size append_buffer
  realloc st sz none = empty_buffer st sz
  realloc st sz (some b) = do
    (wide, st') ← empty_buffer st (new_size b sz)
    filled ← append_buffer b wide
    some (filled, st')

  -- `!mBuffer || mBuffer->size() + size >= mBuffer->max()`.
  must_grow : Option Buffer → ℕ → Bool
  must_grow none sz = true
  must_grow (some b) sz = leb (max b) (b.size + sz)

  room_for : S → ℕ → Option Buffer → Option (Buffer × S)
  unfolding must_grow
  room_for st sz none = realloc st sz none
  room_for st sz (some b) = if must_grow (some b) sz then realloc st sz (some b) else some (b, st)

  unfoldable pub write : S → Bytes → Serializer → Option (Serializer × S)
  unfolding room_for
  write st src s = do
    guard (is_ready s.valid)
    guard s.mode.writes
    (b, st') ← room_for st (length src) s.buffer
    b' ← append src b
    some (record s { buffer = some b' }, st')

-- `read(data, size)` copies from the read position, which moves on.
unfoldable pub read : ℕ → Serializer → Option (Bytes × Serializer)
read sz s = do
  guard (is_ready s.valid)
  b ← s.buffer
  guard (leb (s.read_pos + sz) b.size)
  guard s.mode.reads
  some (take sz (drop s.read_pos b.memory), record s { read_pos = s.read_pos + sz })

abbrev write_only : Mode
write_only = record { reads = false; writes = true; truncates = false }

abbrev read_only : Mode
read_only = record { reads = true; writes = false; truncates = false }

-- `Serializer()`: for writing, into a buffer of its own.
unfoldable pub open_new : {S : Type 0} → BufferSource 16384 S → S → Option (Serializer × S)
open_new source st = do
  (b, st') ← realloc source st 16384 none
  some (
    record {
      path = [];
      valid = no_data;
      read_pos = 0;
      buffer = some b;
      buffer_ref = none;
      mode = write_only;
      owns_buffer = true;
    },
    st',
  )

-- `Serializer(const shared_ptr<Buffer>&)`: for reading.
unfoldable pub open_buffer : Buffer → Serializer
open_buffer b = record {
  path = [];
  valid = if b.size == 0 then invalid else data_ready;
  read_pos = 0;
  buffer = if b.size == 0 then none else some b;
  buffer_ref = none;
  mode = read_only;
  owns_buffer = true;
}

-- `Serializer(shared_ptr<Buffer>&, mode)`: on a buffer of the caller, which `close` gives back.
-- `mBuffer->max()` is called on whatever the pointer is.
unfoldable pub open_ref :
    {S : Type 0} → BufferSource 16384 S → S → Option Buffer → Mode → Option (Serializer × S)
open_ref {S} source st ref mode = do
  given ← (if mode.truncates then none else ref)
  let kept = if max given == 0 then none else some given
  (b, valid, st') ← elim kept [
    | none ↦ if mode.writes then new_one else some (none, invalid, st)
    | some b ↦ some (some b, (if b.size == 0 then no_data else data_ready), st)
  ]
  some (
    record {
      path = [];
      valid = valid;
      read_pos = 0;
      buffer = b;
      buffer_ref = ref;
      mode = mode;
      owns_buffer = false;
    },
    st',
  )
  where
    new_one : Option (Option Buffer × ValidType × S)
    new_one = do (b, st') ← realloc source st 16384 none; some (some b, no_data, st')

-- `Serializer(const fs::Path&, mode)`, given what `mPath.read()` returns and whether the path does
-- not exist, each asked after the removal that Truncate makes.
unfoldable pub open_path :
    {S : Type 0}
    → BufferSource 16384 S
    → S
    → Bytes
    → Mode
    → Option Buffer
    → Bool
    → Option (Serializer × S)
open_path source st path mode found nonexistent =
    let loaded = if mode.reads then found else none in
    elim loaded [
      | some b ↦ some (made path data_ready (some b), st)
      | none ↦
          if nonexistent && mode.writes
          then (do (b, st') ← realloc source st 16384 none; some (made path no_data (some b), st'))
          else some (made [] invalid none, st)
    ]
  where
    made : Bytes → ValidType → Option Buffer → Serializer
    made p v b = record {
      path = p;
      valid = v;
      read_pos = 0;
      buffer = b;
      buffer_ref = none;
      mode = mode;
      owns_buffer = true;
    }

abbrev is_invalid : ValidType → Bool
is_invalid invalid = true
is_invalid _ = false

abbrev is_empty : Bytes → Bool
is_empty [] = true
is_empty (c ∷ cs) = false

-- `close`: what it writes to which path, and the serializer after it. `mPath.write(mBuffer)`
-- dereferences the buffer.
unfoldable pub close : Serializer → Option (Option (Bytes × Bytes) × Serializer)
close s = if is_invalid s.valid then some (none, s) else do
  written ←
      (if s.mode.writes && not (is_empty s.path)
        then (do b ← s.buffer; some (some (s.path, contents b)))
        else some none)
  some (
    written,
    record s { buffer_ref = if s.owns_buffer then s.buffer_ref else s.buffer; valid = invalid },
  )

-- A number's bytes in memory, least significant first, and the number that such bytes stand for.
unfoldable pub le_bytes : ℕ → ℕ → Bytes
le_bytes zero n = []
le_bytes (suc w) n = (n % 256) ∷ le_bytes w (n / 256)

unfoldable pub from_le : Bytes → ℕ
from_le [] = 0
from_le (b ∷ bs) = b + 256 * from_le bs

-- What `<<` and `>>` take: a number of `w` bytes (arithmetic or enum), or a string.
pub data Item : Type 0 where
  num : ℕ → ℕ → Item
  str : Bytes → Item

pub data Kind : Type 0 where
  num_kind : ℕ → Kind
  str_kind : Kind

abbrev pub kind : Item → Kind
kind (num w n) = num_kind w
kind (str t) = str_kind

unfoldable pub put :
    {S : Type 0} → BufferSource 16384 S → S → Item → Serializer → Option (Serializer × S)
put source st (num w n) s = write source st (le_bytes w n) s
put source st (str t) s = do
  (s', st') ← write source st (le_bytes 8 (length t)) s
  write source st' t s'

unfoldable pub take_item : Kind → Serializer → Option (Item × Serializer)
take_item (num_kind w) s = do (bs, s') ← read w s; some (num w (from_le bs), s')
take_item str_kind s = do (bs, s') ← read 8 s; (t, s'') ← read (from_le bs) s'; some (str t, s'')

unfoldable pub put_all :
    {S : Type 0} → BufferSource 16384 S → S → List Item → Serializer → Option (Serializer × S)
put_all source st [] s = some (s, st)
put_all source st (i ∷ is) s = do (s', st') ← put source st i s; put_all source st' is s'

unfoldable pub take_all : List Kind → Serializer → Option (List Item × Serializer)
take_all [] s = some ([], s)
take_all (k ∷ ks) s = do (i, s') ← take_item k s; (is, s'') ← take_all ks s'; some (i ∷ is, s'')
