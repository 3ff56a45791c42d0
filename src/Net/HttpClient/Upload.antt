-- ===== src/Net/HttpClient/Upload.antt =====
-- What HttpClient of lib/net/HttpClient.cpp sends: write and endWrite, and the callback by which
-- libcurl reads it.
pub mod Delivered
pub mod Stream
use reckoning.Common.{
  ℕ, zero, suc, ◌+◌, ◌-◌, min, Bool, true, false, Option, none, some, List, [], ◌∷◌, ◌++◌, ltb, leb,
  ◌==◌, if◌then◌else◌, ◌>>=◌, ◌>>◌, guard, length, take, drop, get_elem?, Bytes,
}

-- `connected` says whether mConnectionInfo is set; `resumed` counts the calls of curl_easy_pause.
pub record Upload : Type 0 where
  pub connected : Bool
  pub paused : Bool
  pub write_end : Bool
  pub buffer_pos : ℕ
  pub buffer_offset : ℕ
  pub buffers : List Bytes
  pub resumed : ℕ

abbrev pub resume : Upload → Upload
resume s = if s.paused then record s { paused = false; resumed = suc s.resumed } else s

-- `write(buffer)`, and `write(data, bytes)`, which makes a buffer of the bytes.
unfoldable pub write : Bytes → Upload → Upload
write b s = if s.connected then resume (record s { buffers = s.buffers ++ b ∷ [] }) else s

unfoldable pub end_write : Upload → Upload
end_write s = if s.connected then resume (record s { write_end = true }) else s

-- What the callback answers: so many bytes, where none is the end, or CURL_READFUNC_PAUSE.
pub data Answer : Type 0 where
  gives : Bytes → Answer
  pauses : Answer

-- Behind `n` bytes of a buffer of `size` bytes.
unfoldable pub advance : ℕ → ℕ → Upload → Upload
advance n size s =
    if s.buffer_offset + n == size
    then (if suc s.buffer_pos == length s.buffers
        then record s { buffers = []; buffer_pos = 0; buffer_offset = 0 }
        else record s { buffer_pos = suc s.buffer_pos; buffer_offset = 0 })
    else record s { buffer_offset = s.buffer_offset + n }

unfoldable pub read_buffer : ℕ → Upload → Option (Answer × Upload)
unfolding advance
read_buffer room s = do
  buffer ← get_elem? s.buffers s.buffer_pos
  _ ← guard (ltb s.buffer_offset (length buffer))
  let n : ℕ = min room (length buffer - s.buffer_offset)
  _ ← guard (leb (s.buffer_offset + n) (length buffer))
  some (gives (take n (drop s.buffer_offset buffer)), advance n (length buffer) s)

-- `easyReadCallback` with room for so many bytes, where the client is still there or not.
unfoldable pub easy_read : Bool → ℕ → Upload → Option (Answer × Upload)
unfolding read_buffer
easy_read false room s = some (gives [], s)
easy_read true room s = elim s.buffers [
  | [] ↦ if s.write_end then some (gives [], s) else some (pauses, record s { paused = true })
  | _ ∷ _ ↦ read_buffer room s
]
