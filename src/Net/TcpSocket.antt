-- ===== src/Net/TcpSocket.antt =====
-- The sockets of include/net/TcpSocket.h and lib/net/TcpSocket.cpp: what is still to be written,
-- the two descriptors of a connection that is tried over IPv4 and IPv6, and its state. What the
-- system and OpenSSL answer is an argument; what the socket tells others is a list of notes.
pub mod Writes
pub mod Sent
pub mod Data
pub mod Opening
pub mod Reading
use reckoning.Common.{
  ℕ, zero, suc, ◌+◌, ◌-◌, min, Bool, true, false, Option, none, some, List, [], ◌∷◌, ◌++◌, ltb,
  ◌==◌, if◌then◌else◌, ◌>>=◌, ◌>>◌, guard, length, take, drop, Bytes,
}

pub data Mode : Type 0 where
  plain tls : Mode

pub data State : Type 0 where
  idle resolving resolved connecting handshaking connected closed error : State

pub data SslWaitState : Type 0 where
  ssl_not_waiting ssl_read_waiting_for_read ssl_read_waiting_for_write : SslWaitState
  ssl_write_waiting_for_read ssl_write_waiting_for_write : SslWaitState

-- mSsl.session and mSsl.bio: no session, a session without a BIO, or one with a BIO.
pub data Ssl : Type 0 where
  no_session without_bio with_bio : Ssl

-- A change of state that is emitted; a descriptor that is added, to be watched for reads; the
-- events that it is to wait for; its removal.
pub data Note : Type 0 where
  state_changed : State → Note
  update_fd : ℕ → Bool → Bool → Note
  added removed : ℕ → Note

-- A descriptor that is -1 is `none`; `read_wait` and `write_wait` are those of mSsl.
pub record Socket : Type 0 where
  pub mode : Mode
  pub fd4 : Option ℕ
  pub fd6 : Option ℕ
  pub write_offset : ℕ
  pub pending_writes : List Bytes
  pub state : State
  pub read_wait : SslWaitState
  pub write_wait : SslWaitState
  pub ssl : Ssl
  pub notes : List Note

-- What ::write or SSL_write comes to: so many bytes, EAGAIN, SSL_ERROR_WANT_READ or
-- SSL_ERROR_WANT_WRITE, or another error.
pub data Answer : Type 0 where
  wrote : ℕ → Answer
  again want_read want_write failed : Answer

pub data Attempt : Type 0 where
  took : ℕ → Attempt
  blocks breaks : Attempt

-- `writePlain` and `writeTLS`: the attempt, and writeWaitState. No other answers are given.
abbrev pub attempt : Mode → SslWaitState → Answer → Option (Attempt × SslWaitState)
attempt plain w (wrote n) = some (took n, w)
attempt plain w again = some (blocks, w)
attempt plain w failed = some (breaks, w)
attempt plain w want_read = none
attempt plain w want_write = none
attempt tls w (wrote zero) = none
attempt tls w (wrote (suc n)) = some (took (suc n), w)
attempt tls w want_read = some (blocks, ssl_read_waiting_for_read)
attempt tls w want_write = some (blocks, ssl_read_waiting_for_write)
attempt tls w failed = some (breaks, w)
attempt tls w again = none

pub data Exit : Type 0 where
  finished blocked broken : Exit

-- How the loop of `processWrite` ends: what was written, mWriteOffset, writeWaitState, and the
-- answers that are left.
pub record Flush : Type 0 where
  pub sent : Bytes
  pub write_offset : ℕ
  pub write_wait : SslWaitState
  pub exit : Exit
  pub answers : List Answer

-- After `n` bytes of the buffer at the iterator: the offset, and the buffers from the iterator on.
unfoldable pub advance : ℕ → ℕ → Bytes → List Bytes → ℕ × List Bytes
advance n off b bs = if ltb n (length b - off) then (off + n, b ∷ bs) else (0, bs)

abbrev pub sending : Bytes → Option Flush → Option Flush
sending bytes none = none
sending bytes (some f) = some (record f { sent = bytes ++ f.sent })

-- The loop of `processWrite` from the iterator on; `none` if there is no further answer.
unfoldable pub flush : Mode → List Answer → ℕ → SslWaitState → List Bytes → Option Flush
unfolding advance
flush mode answers off w [] =
    some
      (record { sent = []; write_offset = off; write_wait = w; exit = finished; answers = answers })
flush mode [] off w (b ∷ bs) = none
flush mode (a ∷ answers) off w (b ∷ bs) = elim (attempt mode w a) [
  | none ↦ none
  | some (took n, w') ↦
      sending (take n (drop off b))
        (flush mode answers (advance n off b bs).0 w' (advance n off b bs).1)
  | some (blocks, w') ↦
      some (record {
        sent = [];
        write_offset = off;
        write_wait = w';
        exit = blocked;
        answers = answers;
      })
  | some (breaks, w') ↦
      some (record {
        sent = [];
        write_offset = off;
        write_wait = w';
        exit = broken;
        answers = answers;
      })
]

abbrev pub removal : Option ℕ → List Note
removal none = []
removal (some fd) = removed fd ∷ []

abbrev pub freed : Mode → Ssl → Ssl
freed plain ssl = ssl
freed tls ssl = no_session

-- `close()`, which leaves the state, the pending writes and their offset.
unfoldable pub close : Socket → Socket
close s = record s {
  mode = plain;
  fd4 = none;
  fd6 = none;
  ssl = freed s.mode s.ssl;
  notes = s.notes ++ removal s.fd4 ++ removal s.fd6;
}

unfoldable pub change_state : State → Socket → Socket
change_state state s = record s { state = state; notes = s.notes ++ state_changed state ∷ [] }

-- What `processWrite(fd)` does when its loop has ended. Only at the end of the loop are buffers
-- erased.
unfoldable pub end_write : Socket → ℕ → Flush → Socket
unfolding close change_state
end_write s fd f =
    let s' : Socket = record s { write_offset = f.write_offset; write_wait = f.write_wait } in
    elim f.exit [
      | finished ↦ record s' { pending_writes = [] }
      | blocked ↦ record s' { notes = s'.notes ++ update_fd fd true true ∷ [] }
      | broken ↦ change_state error (close s')
    ]

-- `processWrite(fd)`: the socket, the bytes written, and the answers that are left.
unfoldable pub process_write : Socket → ℕ → List Answer → Option (Socket × Bytes × List Answer)
unfolding flush end_write
process_write s fd answers = do
  f ← flush s.mode answers s.write_offset s.write_wait s.pending_writes
  some (end_write s fd f, f.sent, f.answers)

-- What `write` does on a connected socket, with its assertions.
unfoldable pub write_now :
    Socket → Option ℕ → Option ℕ → List Answer → Option (Socket × Bytes × List Answer)
unfolding process_write
write_now s (some fd) none answers = process_write s fd answers
write_now s none (some fd) answers = process_write s fd answers
write_now s (some fd) (some fd') answers = none
write_now s none none answers = none

abbrev pub is_connected : State → Bool
is_connected connected = true
is_connected _ = false

-- `write(buffer)`.
unfoldable pub write : Socket → Bytes → List Answer → Option (Socket × Bytes × List Answer)
unfolding write_now
write s bytes answers =
    let s' : Socket = record s { pending_writes = s.pending_writes ++ bytes ∷ [] } in
    if is_connected s.state then write_now s' s'.fd4 s'.fd6 answers else some (s', [], answers)

-- `write(data, bytes)` in buffers of `size` bytes, BufferSize in the code; on fuel, where the loop
-- has a turn for each byte at most.
unfoldable pub write_data :
    ℕ → ℕ → Socket → Bytes → List Answer → Option (Socket × Bytes × List Answer)
unfolding write
write_data size fuel s [] answers = some (s, [], answers)
write_data size zero s (x ∷ xs) answers = none
write_data size (suc fuel) s (x ∷ xs) answers = do
  (s', sent, answers') ← write s (take size (x ∷ xs)) answers
  (s'', sent', answers'') ← write_data size fuel s' (drop size (x ∷ xs)) answers'
  some (s'', sent ++ sent', answers'')
