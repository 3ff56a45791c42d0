-- ===== src/Net/WebSocketClient.antt =====
-- include/net/WebSocketClient.h and lib/net/WebSocketClient.cpp: a client over wslay, whose
-- callbacks are functions of what it passes to them; what is called of wslay is a note.
pub mod Received
pub mod Merged
pub mod Upgrade
mod Tests
use reckoning.Common.{
  ℕ, zero, suc, ◌+◌, ◌-◌, min, Bool, true, false, not, ◌&&◌, ◌||◌, Option, none, some, List, [],
  ◌∷◌, ◌++◌, ltb, leb, ◌==◌, if◌then◌else◌, ◌>>=◌, ◌>>◌, guard, length, take, drop, concat, Bytes,
}
use reckoning.Buffer.{copy_to}

-- Calls of the socket and of wslay, and signals.
pub data Note : Type 0 where
  sent : Bytes → Note
  message_emitted : Bytes → Note
  complete_emitted error_emitted : Note
  queued : Bytes → Note
  written freed_context : Note

-- `has_tcp` and `has_context` say whether mTcp and mCtx are set.
pub record WebSocket : Type 0 where
  pub has_tcp : Bool
  pub has_context : Bool
  pub upgraded : Bool
  pub buffer_offset : ℕ
  pub read_buffers : List Bytes
  pub write_buffers : List Bytes
  pub notes : List Note

-- What `recvCallback` answers: WSLAY_ERR_CALLBACK_FAILURE, WSLAY_ERR_WOULDBLOCK, or so many bytes.
pub data Answer : Type 0 where
  failure would_block : Answer
  gives : Bytes → Answer

abbrev pub before : Bytes → Option (Bytes × ℕ × List Bytes) → Option (Bytes × ℕ × List Bytes)
before bytes none = none
before bytes (some (rest, offset, bs)) = some (bytes ++ rest, offset, bs)

-- The loop of `recvCallback` with room for so many bytes: the bytes, mBufferOffset, and the
-- buffers.
unfoldable pub recv_loop : ℕ → ℕ → List Bytes → Option (Bytes × ℕ × List Bytes)
recv_loop room offset [] = some ([], offset, [])
recv_loop zero offset (b ∷ bs) = some ([], offset, b ∷ bs)
recv_loop (suc room) offset (b ∷ bs) =
    let n : ℕ = min (suc room) (length b - offset) in
    let bytes : Bytes = take n (drop offset b) in
    let rest = recv_loop (suc room - n) 0 bs in
    if n == length b
    then before bytes rest
    else if suc room - n == 0
    then some (bytes, n, b ∷ bs)
    else none

-- `recvCallback` with room for so many bytes.
unfoldable pub recv : ℕ → WebSocket → Option (Answer × WebSocket)
unfolding recv_loop
recv room s = if not s.has_tcp then some (failure, s) else elim s.read_buffers [
  | [] ↦ some (would_block, s)
  | _ ∷ _ ↦ (do
    (bytes, offset, bs) ← recv_loop room s.buffer_offset s.read_buffers
    some (gives bytes, record s { buffer_offset = offset; read_buffers = bs }))
]

abbrev pub note : Note → WebSocket → WebSocket
note n s = record s { notes = s.notes ++ n ∷ [] }

-- `sendCallback`: how many bytes it answers.
unfoldable pub send : Bytes → WebSocket → ℕ × WebSocket
send data' s = if s.has_tcp then (length data', note (sent data') s) else (0, s)

-- `msgrcvCallback`, for a control frame or a message.
unfoldable pub msgrcv : Bool → Bytes → WebSocket → WebSocket
msgrcv control message s = if control || not s.has_tcp then s else note (message_emitted message) s

abbrev pub copy_all : Bytes → List Bytes → Bytes
copy_all memory [] = memory
copy_all memory (b ∷ bs) = copy_all (copy_to memory 0 b) bs

-- `mergeReadBuffers`, into a buffer of the pool with this memory: each buffer is copied to its
-- beginning.
unfoldable pub merge : Bytes → List Bytes → List Bytes
merge memory [] = []
merge memory (b ∷ []) = b ∷ []
merge memory (b ∷ c ∷ bs) =
    let sz : ℕ = length (concat (b ∷ c ∷ bs)) in
    if sz == 0 then [] else take sz (copy_all memory (b ∷ c ∷ bs)) ∷ []

abbrev pub queue_all : List Bytes → List Note
queue_all [] = []
queue_all (m ∷ ms) = queued m ∷ written ∷ queue_all ms

-- `write()`: every message is queued, and written while wslay wants to write.
unfoldable pub flush : WebSocket → WebSocket
flush s =
    if s.has_tcp && s.has_context && s.upgraded
    then record s { write_buffers = []; notes = s.notes ++ queue_all s.write_buffers }
    else s

-- `write(buffer)`.
unfoldable pub write : Bytes → WebSocket → WebSocket
unfolding flush
write b s = flush (record s { write_buffers = s.write_buffers ++ b ∷ [] })

-- `write(data, bytes)`: the buffer of the pool has the pool's size, which `assign` asserts.
unfoldable pub write_data : Bytes → WebSocket → Option WebSocket
unfolding write
write_data data' s = if leb (length data') 16384 then some (write data' s) else none

-- wslay's context is freed, if there is one.
abbrev pub free_context : WebSocket → WebSocket
free_context s = if s.has_context then note freed_context (record s { has_context = false }) else s

-- `close()`, which asserts that there is a context.
unfoldable pub close : WebSocket → Option WebSocket
close s =
    if s.has_tcp
    then if s.has_context
      then some
          (note freed_context (record s { has_tcp = false; has_context = false; upgraded = false }))
      else none
    else some s

-- The handler of onStateChanged, for Closed and Error.
unfoldable pub state_changed : Bool → WebSocket → WebSocket
state_changed closed s =
    note (if closed then complete_emitted else error_emitted)
      (record (free_context s) { has_tcp = false })
