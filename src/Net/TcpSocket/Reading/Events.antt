-- ===== src/Net/TcpSocket/Reading/Events.antt =====
-- The events of a descriptor: `socketCallback` of lib/net/TcpSocket.cpp, plain and over TLS.
use reckoning.Common.{
  ℕ, zero, suc, ◌-◌, ◌^◌, Bool, true, false, Option, none, some, List, [], ◌∷◌, ◌++◌, if◌then◌else◌,
  ◌>>=◌, guard, Bytes,
}
use reckoning.Net.TcpSocket.{
  plain, tls, connecting, handshaking, connected, SslWaitState, update_fd, Socket, Answer,
  change_state, process_write, is_connected,
}
use reckoning.Net.TcpSocket.Opening.{
  Family, other, fd_of, forget, attach_bio, Handshake, connect_tls, give_up, plain_writable,
}
use reckoning.Net.TcpSocket.Reading.{
  ReadAnswer, is_not_waiting, reads_on_read, reads_on_write, writes_on_read, writes_on_write, read,
}

-- The socket, the buffers that were emitted, the bytes that were written, and the answers left.
pub record Step : Type 0 where
  pub socket : Socket
  pub emitted : List Bytes
  pub sent : Bytes
  pub reads : List ReadAnswer
  pub writes : List Answer

-- The flags of an event.
pub record Event : Type 0 where
  pub error : Bool
  pub readable : Bool
  pub writable : Bool

abbrev pub Read : Type 0
Read = Option (Socket × List Bytes × List ReadAnswer)

-- A buffer that was read is emitted, and the loop goes on; with none it ends.
abbrev pub emit_more : Socket → Option Bytes → List ReadAnswer → Read → Read
emit_more s none left more = some (s, [], left)
emit_more s (some b) left none = none
emit_more s (some b) left (some (s', bs, left')) = some (s', b ∷ bs, left')

-- `for (;;)` over `read()`, on fuel.
unfoldable pub read_all : ℕ → Socket → List ReadAnswer → Read
unfolding read
read_all zero s answers = none
read_all (suc fuel) s answers = do
  (s', o, left) ← read s answers
  emit_more s' o left (read_all fuel s' left)

-- `while (mSsl.readWaitState == SSLNotWaiting)` over `read()`, on fuel.
unfoldable pub read_while : ℕ → Socket → List ReadAnswer → Read
unfolding read
read_while zero s answers = none
read_while (suc fuel) s answers =
    let more : Read = (do
      (s', o, left) ← read s answers
      emit_more s' o left (read_while fuel s' left)) in
    if is_not_waiting s.read_wait then more else some (s, [], answers)

-- "retry read", if it is what was waited for.
unfoldable pub retry_read : Bool → Socket → List ReadAnswer → Read
unfolding read
retry_read false s answers = some (s, [], answers)
retry_read true s answers = do
  (s', o, left) ← read s answers
  emit_more s' o left (some (s', [], left))

abbrev pub Write : Type 0
Write = Option (Socket × Bytes × List Answer)

unfoldable pub retry_write : Bool → ℕ → Socket → List Answer → Write
unfolding process_write
retry_write false fd s answers = some (s, [], answers)
retry_write true fd s answers = process_write s fd answers

-- The handshake goes on, if it is what was waited for, and what is pending is written at its end.
unfoldable pub retry_handshake : Bool → ℕ → Handshake → Socket → List Answer → Write
unfolding connect_tls process_write
retry_handshake waited fd handshake s answers = do
  (s', sent, left) ← if waited then connect_tls s fd handshake answers else some (s, [], answers)
  if is_connected s'.state
      then (do
        _ ← guard (is_not_waiting s'.write_wait)
        (s'', sent', left') ← process_write s' fd left
        some (s'', sent ++ sent', left'))
      else some (s', sent, left)

-- The read event of a TLS socket that is connected.
unfoldable pub tls_read_connected : ℕ → ℕ → Socket → List ReadAnswer → List Answer → Option Step
unfolding retry_read retry_write read_while
tls_read_connected fuel fd s reads writes = do
  (s1, first, reads1) ← retry_read (reads_on_read s.read_wait) s reads
  (s2, sent, writes1) ← retry_write (writes_on_read s1.write_wait) fd s1 writes
  (s3, more, reads2) ← read_while fuel s2 reads1
  some (record {
    socket = s3;
    emitted = first ++ more;
    sent = sent;
    reads = reads2;
    writes = writes1;
  })

abbrev pub written : List ReadAnswer → Write → Option Step
written reads none = none
written reads (some (s, sent, writes)) =
    some (record { socket = s; emitted = []; sent = sent; reads = reads; writes = writes })

abbrev pub idle_step : Socket → List ReadAnswer → List Answer → Option Step
idle_step s reads writes =
    some (record { socket = s; emitted = []; sent = []; reads = reads; writes = writes })

unfoldable pub tls_read : ℕ → ℕ → Handshake → Socket → List ReadAnswer → List Answer → Option Step
unfolding retry_handshake tls_read_connected
tls_read fuel fd handshake s reads writes = elim s.state [
  | handshaking ↦
      written reads (retry_handshake (writes_on_read s.write_wait) fd handshake s writes)
  | connected ↦ tls_read_connected fuel fd s reads writes
  | _ ↦ idle_step s reads writes
]

-- The end of a connection attempt over TLS, where `ok` says that getsockopt reports no error.
unfoldable pub tls_opened : Family → ℕ → Bool → Handshake → Socket → List Answer → Write
unfolding forget give_up change_state connect_tls
tls_opened family fd ok handshake s writes =
    if ok
    then (do
      s' ← attach_bio (change_state handshaking (forget (other family) s))
      connect_tls s' fd handshake writes)
    else some (give_up family (fd_of (other family) s) s, [], writes)

abbrev pub writes_now : SslWaitState → Bool
writes_now w = if writes_on_write w then true else is_not_waiting w

unfoldable pub tls_write_connected : ℕ → Socket → List ReadAnswer → List Answer → Option Step
unfolding retry_read retry_write
tls_write_connected fd s reads writes = do
  (s1, first, reads1) ← retry_read (reads_on_write s.read_wait) s reads
  (s2, sent, writes1) ← retry_write (writes_now s1.write_wait) fd s1 writes
  some (record { socket = s2; emitted = first; sent = sent; reads = reads1; writes = writes1 })

unfoldable pub tls_write :
    Family → ℕ → Bool → Handshake → Socket → List ReadAnswer → List Answer → Option Step
unfolding tls_opened retry_handshake tls_write_connected
tls_write family fd ok handshake s reads writes =
    let t : Socket = record s { notes = s.notes ++ update_fd fd true false ∷ [] } in
    elim s.state [
      | connecting ↦ written reads (tls_opened family fd ok handshake t writes)
      | handshaking ↦
          written reads (retry_handshake (writes_on_write s.write_wait) fd handshake t writes)
      | connected ↦ tls_write_connected fd t reads writes
      | _ ↦ idle_step t reads writes
    ]

-- One event after another: what the first has emitted and written goes before.
abbrev pub and_then :
    Option Step → (Socket → List ReadAnswer → List Answer → Option Step) → Option Step
and_then none f = none
and_then (some a) f = do
  b ← f a.socket a.reads a.writes
  some (record b { emitted = a.emitted ++ b.emitted; sent = a.sent ++ b.sent })

-- The int that a descriptor is: -1 if it has been closed, here as the word it is stored in.
abbrev pub fd_int : Option ℕ → ℕ
fd_int none = 2 ^ 32 - 1
fd_int (some fd) = fd

abbrev pub plain_read : ℕ → Socket → List ReadAnswer → List Answer → Option Step
plain_read fuel s reads writes = do
  (s', bs, left) ← read_all fuel s reads
  some (record { socket = s'; emitted = bs; sent = []; reads = left; writes = writes })

-- `processPlain` and `processTLS` for the descriptor of a family.
unfoldable pub socket_callback :
    ℕ → Family → Event → Bool → Handshake → Socket → List ReadAnswer → List Answer → Option Step
unfolding forget read_all tls_read tls_write plain_writable
socket_callback fuel family event ok handshake s reads writes =
    if event.error
    then idle_step (forget family s) reads writes
    else and_then
        (if event.readable
          then elim s.mode [
            | plain ↦ plain_read fuel s reads writes
            | tls ↦ tls_read fuel (fd_int (fd_of family s)) handshake s reads writes
          ]
          else idle_step s reads writes)
        (λ t left left'.
          if event.writable
          then elim s.mode [
            | plain ↦ written left (plain_writable family (fd_int (fd_of family t)) ok t left')
            | tls ↦ tls_write family (fd_int (fd_of family t)) ok handshake t left left'
          ]
          else idle_step t left left')
