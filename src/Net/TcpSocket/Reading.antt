-- ===== src/Net/TcpSocket/Reading.antt =====
-- What a socket of lib/net/TcpSocket.cpp reads: `read`, and the events of `socketCallback`. The
-- buffers that are emitted are lists of bytes.
pub mod Events
pub mod Delivered
use reckoning.Common.{
  ℕ, Bool, true, false, Option, none, some, List, [], ◌∷◌, ◌++◌, if◌then◌else◌, ◌>>=◌, ◌>>◌, guard,
  Bytes,
}
use reckoning.Net.TcpSocket.{
  Mode, plain, tls, State, closed, error, SslWaitState, ssl_not_waiting, ssl_read_waiting_for_read,
  ssl_read_waiting_for_write, ssl_write_waiting_for_read, ssl_write_waiting_for_write, Note,
  update_fd, Socket, close, change_state,
}

-- What ::read or SSL_read comes to: bytes, of which there is one at least, the end (0, or
-- SSL_ERROR_ZERO_RETURN), EAGAIN, SSL_ERROR_WANT_READ or SSL_ERROR_WANT_WRITE, or another error.
pub data ReadAnswer : Type 0 where
  got : ℕ → Bytes → ReadAnswer
  ended read_again read_wants_read read_wants_write read_failed : ReadAnswer

pub data ReadAttempt : Type 0 where
  received : Bytes → ReadAttempt
  ends blocks breaks : ReadAttempt

-- `processReadPlain` and `processReadTLS`: the attempt, and readWaitState. No other answers are
-- given.
unfoldable pub attempt_read : Mode → SslWaitState → ReadAnswer → Option (ReadAttempt × SslWaitState)
attempt_read mode w (got x xs) = some (received (x ∷ xs), w)
attempt_read mode w ended = some (ends, w)
attempt_read mode w read_failed = some (breaks, w)
attempt_read plain w read_again = some (blocks, w)
attempt_read plain w read_wants_read = none
attempt_read plain w read_wants_write = none
attempt_read tls w read_again = none
attempt_read tls w read_wants_read = some (blocks, ssl_read_waiting_for_read)
attempt_read tls w read_wants_write = some (blocks, ssl_read_waiting_for_write)

abbrev pub is_not_waiting : SslWaitState → Bool
is_not_waiting ssl_not_waiting = true
is_not_waiting _ = false

abbrev pub reads_on_read : SslWaitState → Bool
reads_on_read ssl_read_waiting_for_read = true
reads_on_read _ = false

abbrev pub reads_on_write : SslWaitState → Bool
reads_on_write ssl_read_waiting_for_write = true
reads_on_write _ = false

abbrev pub writes_on_read : SslWaitState → Bool
writes_on_read ssl_write_waiting_for_read = true
writes_on_read _ = false

abbrev pub writes_on_write : SslWaitState → Bool
writes_on_write ssl_write_waiting_for_write = true
writes_on_write _ = false

-- After a TLS read that waits until it can write, the descriptor is watched for that.
unfoldable pub watch_write : Mode → ℕ → Socket → Socket
watch_write plain fd s = s
watch_write tls fd s =
    if reads_on_write s.read_wait
    then record s { notes = s.notes ++ update_fd fd true true ∷ [] }
    else s

-- What `read` does with the attempt: the socket, and the buffer that it returns.
unfoldable pub end_read : ReadAttempt → Socket → Socket × Option Bytes
unfolding close change_state
end_read (received bytes) s = (s, some bytes)
end_read ends s = (change_state closed (close s), none)
end_read blocks s = (s, none)
end_read breaks s = (change_state error (close s), none)

-- `read()` from the descriptor `fd` of an open socket.
unfoldable pub read_fd : ℕ → Socket → ReadAnswer → Option (Socket × Option Bytes)
unfolding attempt_read watch_write end_read
read_fd fd s answer = do
  (a, w) ← attempt_read s.mode s.read_wait answer
  some (end_read a (watch_write s.mode fd (record s { read_wait = w })))

abbrev pub read_open : Option ℕ → Option ℕ → Option (Option ℕ)
read_open none none = some none
read_open (some fd) none = some (some fd)
read_open none (some fd) = some (some fd)
read_open (some fd) (some fd') = none

abbrev pub read_next :
    Option ℕ → Socket → List ReadAnswer → Option (Socket × Option Bytes × List ReadAnswer)
read_next none s answers = some (s, none, answers)
read_next (some fd) s [] = none
read_next (some fd) s (a ∷ answers) = read_fd fd s a >>= λ (s', o). some (s', o, answers)

-- `read()`: nothing from a closed socket; that not both descriptors are open is asserted.
unfoldable pub read : Socket → List ReadAnswer → Option (Socket × Option Bytes × List ReadAnswer)
unfolding read_fd
read s answers = do fd ← read_open s.fd4 s.fd6; read_next fd s answers
