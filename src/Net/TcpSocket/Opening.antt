-- ===== src/Net/TcpSocket/Opening.antt =====
-- How a socket of lib/net/TcpSocket.cpp that is tried over IPv4 and IPv6 comes to be connected:
-- `connectTLS`, `internalConnect`, and the write event of a plain socket.
pub mod Single
pub mod Both
use reckoning.Common.{
  ℕ, Bool, true, false, Option, none, some, List, [], ◌∷◌, ◌++◌, if◌then◌else◌, ◌>>=◌, Bytes,
}
use reckoning.Net.TcpSocket.{is_connected}
use reckoning.Net.TcpSocket.{
  Mode, plain, tls, Ssl, no_session, without_bio, with_bio, State, idle, resolving, resolved,
  connecting, handshaking, connected, closed, error, SslWaitState, ssl_not_waiting,
  ssl_write_waiting_for_read, ssl_write_waiting_for_write, update_fd, added, Socket, Answer,
  removal, close, change_state, process_write,
}

-- The two of mFd4 and mFd6.
pub data Family : Type 0 where
  v4 v6 : Family

abbrev pub other : Family → Family
other v4 = v6
other v6 = v4

abbrev pub fd_of : Family → Socket → Option ℕ
fd_of v4 s = s.fd4
fd_of v6 s = s.fd6

-- `handle.remove()` and the descriptor set to -1.
unfoldable pub forget : Family → Socket → Socket
forget v4 s = record s { fd4 = none; notes = s.notes ++ removal s.fd4 }
forget v6 s = record s { fd6 = none; notes = s.notes ++ removal s.fd6 }

-- What ::connect answers.
pub data Status : Type 0 where
  succeeded in_progress refused : Status

-- What SSL_connect comes to: it is done, or SSL_get_error says why not.
pub data Handshake : Type 0 where
  done wants_write wants_read zero_return fails : Handshake

-- A session gets its BIO; before that, `assert(mSsl.session != nullptr && mSsl.bio == nullptr)`.
abbrev pub attached : Ssl → Socket → Option Socket
attached without_bio s = some (record s { ssl = with_bio })
attached _ s = none

abbrev pub attach_bio : Socket → Option Socket
attach_bio s = attached s.ssl s

-- `initTLS()`, where the mode is TLS.
abbrev pub init_tls : Mode → Ssl → Ssl
init_tls tls no_session = without_bio
init_tls _ ssl = ssl

-- `connectTLS(fd)`.
unfoldable pub connect_tls :
    Socket → ℕ → Handshake → List Answer → Option (Socket × Bytes × List Answer)
unfolding close change_state process_write
connect_tls s fd done answers =
    process_write (change_state connected (record s { write_wait = ssl_not_waiting })) fd answers
connect_tls s fd wants_write answers = some (
  record s {
    write_wait = ssl_write_waiting_for_write;
    notes = s.notes ++ update_fd fd true true ∷ [];
  },
  [],
  answers,
)
connect_tls s fd wants_read answers =
    some (record s { write_wait = ssl_write_waiting_for_read }, [], answers)
connect_tls s fd zero_return answers = some (close (change_state closed s), [], answers)
connect_tls s fd fails answers = some (close (change_state error s), [], answers)

-- `mState < Connecting`.
abbrev pub is_before_connecting : State → Bool
is_before_connecting idle = true
is_before_connecting resolving = true
is_before_connecting resolved = true
is_before_connecting _ = false

-- "we're connected", before the other descriptor is closed.
unfoldable pub opened :
    Mode → Socket → ℕ → Handshake → List Answer → Option (Socket × Bytes × List Answer)
unfolding change_state connect_tls process_write
opened plain s fd handshake answers = process_write (change_state connected s) fd answers
opened tls s fd handshake answers = do
  s' ← attach_bio (change_state handshaking s)
  connect_tls s' fd handshake answers

-- "bad stuff": the state is Error if the other descriptor is not open.
unfoldable pub give_up : Family → Option ℕ → Socket → Socket
unfolding forget change_state
give_up family none s = forget family (change_state error s)
give_up family (some fd) s = forget family s

-- `internalConnect`, for the descriptor `fd` of a family.
unfoldable pub internal_connect :
    Status → Family → ℕ → Handshake → Socket → List Answer → Option (Socket × Bytes × List Answer)
unfolding opened forget give_up change_state
internal_connect succeeded family fd handshake s answers = do
  (s', sent, left) ← opened s.mode s fd handshake answers
  some (forget (other family) s', sent, left)
internal_connect in_progress family fd handshake s answers =
    let s' : Socket = if is_before_connecting s.state then change_state connecting s else s in
    some (record s' { notes = s'.notes ++ update_fd fd true true ∷ [] }, [], answers)
internal_connect refused family fd handshake s answers =
    some (give_up family (fd_of (other family) s) s, [], answers)

abbrev pub is_connecting : State → Bool
is_connecting connecting = true
is_connecting _ = false

-- `processPlain` on a write event, where `ok` says that getsockopt reports no error.
unfoldable pub plain_writable :
    Family → ℕ → Bool → Socket → List Answer → Option (Socket × Bytes × List Answer)
unfolding forget give_up change_state process_write
plain_writable family fd ok s answers =
    let t : Socket = record s { notes = s.notes ++ update_fd fd true false ∷ [] } in
    if is_connecting s.state
    then if ok
      then process_write (change_state connected (forget (other family) t)) fd answers
      else some (give_up family (fd_of (other family) t) t, [], answers)
    else process_write t fd answers

-- The descriptor of a family is set and added to the loop.
unfoldable pub set_fd : Family → ℕ → Socket → Socket
set_fd v4 fd s = record s { fd4 = some fd; notes = s.notes ++ added fd ∷ [] }
set_fd v6 fd s = record s { fd6 = some fd; notes = s.notes ++ added fd ∷ [] }

-- `mFd4 != -1` or `mFd6 != -1`.
abbrev pub is_open : Option ℕ → Bool
is_open none = false
is_open (some fd) = true

-- `connect(ip, port, mode)` for an address of a family, where ::socket gives the descriptor `fd`.
unfoldable pub connect :
    Mode
    → Status
    → Family
    → ℕ
    → Handshake
    → Socket
    → List Answer
    → Option (Socket × Bytes × List Answer)
unfolding set_fd internal_connect
connect mode status family fd handshake s answers =
    if is_open (fd_of family s)
    then some (s, [], answers)
    else if is_connected s.state
    then some (s, [], answers)
    else internal_connect status family fd handshake
        (set_fd family fd (record s { mode = mode; ssl = init_tls mode s.ssl })) answers
