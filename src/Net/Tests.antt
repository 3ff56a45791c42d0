-- ===== src/Net/Tests.antt =====
-- Sockets at concrete inputs.
use reckoning.Common.{ℕ, Option, none, some, [], ◌∷◌, ◌++◌, ◌≡◌, refl, arith}
use reckoning.Net.TcpSocket.{
  plain, connecting, connected, ssl_not_waiting, no_session, Socket, wrote, again, process_write,
  state_changed, removed,
}
use reckoning.Net.TcpSocket.Writes.{remaining, at_once}
use reckoning.Net.TcpSocket.Sent.{process_write-finished, process_write-resends}
use reckoning.Net.TcpSocket.Opening.{v4, v6, fd_of, done, internal_connect}
use reckoning.Net.TcpSocket.Opening.Single.{internal_connect-single}
use reckoning.Net.TcpSocket.{
  tls, handshaking, closed, close, change_state, ssl_read_waiting_for_read,
}
use reckoning.Net.TcpSocket.Opening.{in_progress, wants_read, connect, connect_tls}
use reckoning.Net.TcpSocket.Opening.Both.{connect-both}
use reckoning.Net.TcpSocket.Reading.{got, ended, read_again, read}
use reckoning.Net.TcpSocket.Reading.Events.{read_all, tls_read_connected}
use reckoning.Net.TcpSocket.Reading.Delivered.{arrivals, read_all-arrivals, tls_read_connected-once}

-- Two buffers are pending, the first from its second byte on.
abbrev two_buffers : Socket
two_buffers = record {
  mode = plain;
  fd4 = some 3;
  fd6 = none;
  write_offset = 1;
  pending_writes = (1 ∷ 2 ∷ 3 ∷ []) ∷ (4 ∷ []) ∷ [];
  state = connected;
  read_wait = ssl_not_waiting;
  write_wait = ssl_not_waiting;
  ssl = no_session;
  notes = [];
}

process_write-finished_example : 2 ∷ 3 ∷ 4 ∷ [] ≡ remaining 1 ((1 ∷ 2 ∷ 3 ∷ []) ∷ (4 ∷ []) ∷ [])
unfolding process_write
process_write-finished_example =
    process_write-finished two_buffers 3 (wrote 1 ∷ wrote 1 ∷ wrote 1 ∷ []) []
      (record two_buffers { write_offset = 0; pending_writes = [] }) (2 ∷ 3 ∷ 4 ∷ []) refl refl

abbrev one_buffer : Socket
one_buffer = record two_buffers { pending_writes = (1 ∷ 2 ∷ 3 ∷ []) ∷ [] }

abbrev at_start : Socket
at_start = record two_buffers { write_offset = 0 }

process_write-resends_example :
    (s' : Socket) × (s'' : Socket) × (process_write at_start 3
        (at_once ((1 ∷ 2 ∷ 3 ∷ []) ∷ []) ++ again ∷ [])
      ≡ some (s', 1 ∷ 2 ∷ 3 ∷ [], []))
    × (process_write s' 3 (at_once ((1 ∷ 2 ∷ 3 ∷ []) ∷ (4 ∷ []) ∷ []))
        ≡ some (s'', (1 ∷ 2 ∷ 3 ∷ []) ++ 4 ∷ [], []))
process_write-resends_example =
    process_write-resends at_start 3 ((1 ∷ 2 ∷ 3 ∷ []) ∷ []) [] (4 ∷ []) refl refl refl

abbrev waiting : Socket
waiting = record two_buffers { state = connecting }

-- Both families are tried.
abbrev both : Socket
both = record waiting { fd6 = some 4; pending_writes = []; write_offset = 0; notes = [] }

internal_connect-single_example :
    (fd_of v4 (record both {
      fd6 = none;
      state = connected;
      notes = state_changed connected ∷ removed 4 ∷ [];
    })
      ≡ some 3)
    × ◌≡◌ {A = Option ℕ} none none
unfolding internal_connect
internal_connect-single_example =
    internal_connect-single v4 3 done both
      (record both {
        fd6 = none;
        state = connected;
        notes = state_changed connected ∷ removed 4 ∷ [];
      })
      [] [] [] refl refl refl

abbrev drained : Socket
drained = record one_buffer { pending_writes = []; write_offset = 0 }

read_all-arrivals_example :
    (read_all 3 drained (arrivals ((1, 2 ∷ []) ∷ (3, []) ∷ []) ++ read_again ∷ [])
      ≡ some (drained, (1 ∷ 2 ∷ []) ∷ (3 ∷ []) ∷ [], []))
    × (read_all 3 drained (arrivals ((1, 2 ∷ []) ∷ (3, []) ∷ []) ++ ended ∷ [])
        ≡ some (change_state closed (close drained), (1 ∷ 2 ∷ []) ∷ (3 ∷ []) ∷ [], []))
read_all-arrivals_example =
    read_all-arrivals 3 3 drained ((1, 2 ∷ []) ∷ (3, []) ∷ []) [] refl refl (omega arith)

abbrev tls_waiting : Socket
tls_waiting = record drained { mode = tls; read_wait = ssl_read_waiting_for_read }

tls_read_connected-once_example :
    tls_read_connected 2 3 tls_waiting (got 1 [] ∷ got 2 [] ∷ []) []
    ≡ some (record {
      socket = tls_waiting;
      emitted = (1 ∷ []) ∷ [];
      sent = [];
      reads = got 2 [] ∷ [];
      writes = [];
    })
tls_read_connected-once_example =
    tls_read_connected-once 1 3 1 [] tls_waiting (got 2 [] ∷ []) [] refl refl refl refl

abbrev shaking : Socket
shaking = record drained { mode = tls; state = handshaking }

connect-both_example :
    (s' : Socket) × (s'' : Socket) × (connect tls in_progress v6 4 wants_read shaking []
      ≡ some (s', [], []))
    × (connect_tls s' 3 done [] ≡ some (s'', [], []))
    × (s''.state ≡ connected)
    × (s''.fd4 ≡ some 3)
    × (s''.fd6 ≡ some 4)
    × (read s'' (ended ∷ []) ≡ none)
connect-both_example = connect-both 3 4 wants_read shaking [] (ended ∷ []) refl refl refl refl refl
