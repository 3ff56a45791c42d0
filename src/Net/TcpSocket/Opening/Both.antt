-- ===== src/Net/TcpSocket/Opening/Both.antt =====
-- `connect` of lib/net/TcpSocket.cpp while the other family is shaking hands.
use reckoning.Common.{ℕ, true, false, none, some, List, [], ◌∷◌, ◌++◌, ◌≡◌, refl, ap, ◌∙◌}
use reckoning.Net.TcpSocket.{
  Mode, tls, handshaking, connected, Socket, Answer, flush, change_state, end_write, process_write,
  is_connected, update_fd, added, state_changed, ssl_not_waiting,
}
use reckoning.Net.TcpSocket.Opening.{
  v6, in_progress, Family, Status, fd_of, is_open, is_before_connecting, Handshake, done,
  connect_tls, internal_connect, set_fd, connect, init_tls,
}
use reckoning.Net.TcpSocket.Reading.{ReadAnswer, read}

connect-starts :
    (mode : Mode) (status : Status) (family : Family) (fd : ℕ) (handshake : Handshake) (s : Socket)
    (answers : List Answer)
    → is_open (fd_of family s) ≡ false
    → is_connected s.state ≡ false
    → connect mode status family fd handshake s answers
      ≡ internal_connect status family fd handshake
          (set_fd family fd (record s { mode = mode; ssl = init_tls mode s.ssl }))
          answers
unfolding connect
connect-starts mode status family fd handshake s answers o c = rw (o, c) refl

in_progress_later :
    (family : Family) (fd : ℕ) (handshake : Handshake) (s : Socket) (answers : List Answer)
    → is_before_connecting s.state ≡ false
    → internal_connect in_progress family fd handshake s answers
      ≡ some (record s { notes = s.notes ++ update_fd fd true true ∷ [] }, [], answers)
unfolding internal_connect
in_progress_later family fd handshake s answers b = rw b refl

-- A socket that shakes hands over IPv4 takes up an attempt over IPv6 as well, since `connect` asks
-- only whether it is connected. When the handshake is then done, with nothing to write, it is
-- connected with both descriptors open, and the assertion of `read` fails whatever arrives.
pub connect-both :
    (fd fd' : ℕ) (handshake : Handshake) (s : Socket) (writes : List Answer)
    (reads : List ReadAnswer)
    → s.mode ≡ tls
    → s.state ≡ handshaking
    → s.fd4 ≡ some fd
    → s.fd6 ≡ none
    → s.pending_writes ≡ []
    → (s' : Socket) × (s'' : Socket) × (connect tls in_progress v6 fd' handshake s writes
        ≡ some (s', [], writes))
      × (connect_tls s' fd done writes ≡ some (s'', [], writes))
      × (s''.state ≡ connected)
      × (s''.fd4 ≡ some fd)
      × (s''.fd6 ≡ some fd')
      × (read s'' reads ≡ none)
unfolding connect internal_connect set_fd connect_tls change_state process_write flush end_write
    read
connect-both fd fd' handshake s writes reads m h f g p =
    let s' : Socket = record s {
      mode = tls;
      ssl = init_tls tls s.ssl;
      fd6 = some fd';
      notes = (s.notes ++ added fd' ∷ []) ++ update_fd fd' true true ∷ [];
    } in
    let s'' : Socket = record s' {
      write_wait = ssl_not_waiting;
      state = connected;
      pending_writes = [];
      notes = s'.notes ++ state_changed connected ∷ [];
    } in
    (
      s',
      s'',
      connect-starts tls in_progress v6 fd' handshake s writes (ap is_open g) (ap is_connected h)
          ∙ in_progress_later v6 fd' handshake
              (set_fd v6 fd' (record s { mode = tls; ssl = init_tls tls s.ssl })) writes
              (ap is_before_connecting h),
      rw p refl,
      refl,
      f,
      refl,
      rw f refl,
    )
