-- ===== src/Buffer.antt =====
-- include/buffer/Buffer.h, the class Buffer: a block of `max` bytes, the first `size` of which
-- are in use. A failed `assert` is `none`. `size_t` and `ssize_t` are 64 bits wide.
pub mod Contents
pub mod Concat
pub mod Slots
pub mod Builder
mod Tests
pub mod Source
pub mod Wait
use reckoning.Common.{
  ℕ, ◌+◌, ◌%◌, ◌^◌, ◌≤◌, Bool, true, false, Option, none, some, ◌++◌, leb, if◌then◌else◌, Bytes,
  length, take, drop,
}

pub record Buffer : Type 0 where
  pub memory : Bytes
  pub size : ℕ
  pub owned : Bool

-- `mMax` is the length of the block and never changes.
abbrev pub max : Buffer → ℕ
max b = length b.memory

-- The bytes that a reader of `data()` and `size()` sees.
abbrev pub contents : Buffer → Bytes
contents b = take b.size b.memory

abbrev pub IsValid : Buffer → Type 0
IsValid b = b.size ≤ max b

-- The constructors: the whole block counts as used.
unfoldable pub create : Bytes → Buffer
create block = record { memory = block; size = length block; owned = true }

unfoldable pub create_not_owned : Bytes → Buffer
create_not_owned block = record { memory = block; size = length block; owned = false }

-- memcpy(memory + at, src, length src), inside the block.
abbrev pub copy_to : Bytes → ℕ → Bytes → Bytes
copy_to memory at src = take at memory ++ (src ++ drop (at + length src) memory)

unfoldable pub set_size : ℕ → Buffer → Option Buffer
set_size sz b = if leb sz (max b) then some (record b { size = sz }) else none

-- `delta` is the two's complement pattern of an ssize_t, and the sum is a size_t.
unfoldable pub add_size : ℕ → Buffer → Option Buffer
add_size delta b =
    let sum = (b.size + delta) % 2 ^ 64 in
    if leb sum (max b) then some (record b { size = sum }) else none

unfoldable pub assign : Bytes → Buffer → Option Buffer
assign src b =
    if leb (length src) (max b)
    then some (record b { memory = copy_to b.memory 0 src; size = length src })
    else none

unfoldable pub append : Bytes → Buffer → Option Buffer
append src b =
    if leb (b.size + length src) (max b)
    then some (record b { memory = copy_to b.memory b.size src; size = b.size + length src })
    else none

-- The overloads that take a buffer.
unfoldable pub assign_buffer : Buffer → Buffer → Option Buffer
unfolding assign
assign_buffer src b = assign (contents src) b

unfoldable pub append_buffer : Buffer → Buffer → Option Buffer
unfolding append
append_buffer src b = append (contents src) b
