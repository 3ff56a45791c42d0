-- ===== src/Net/TcpSocket/Reading/Delivered.antt =====
-- Which of the bytes that arrive `socketCallback` of lib/net/TcpSocket.cpp emits.
use reckoning.Common.{
  ℕ, zero, suc, ◌<◌, Bool, true, false, none, some, List, [], ◌∷◌, ◌++◌, ◌≡◌, refl, ap, arith,
  length, Bytes,
}
use reckoning.Net.TcpSocket.{
  plain, tls, closed, ssl_read_waiting_for_read, Socket, Answer, close, change_state,
}
use reckoning.Net.TcpSocket.Reading.{
  ReadAnswer, got, ended, read_again, attempt_read, watch_write, end_read, writes_on_read,
  reads_on_read, is_not_waiting, read_fd, read_open, read,
}
use reckoning.Net.TcpSocket.Reading.Events.{
  read_all, read_while, retry_read, retry_write, tls_read_connected,
}

-- Non-empty chunks, by first byte and rest, as answers and as buffers.
abbrev pub arrivals : List (ℕ × Bytes) → List ReadAnswer
arrivals [] = []
arrivals ((x, xs) ∷ cs) = got x xs ∷ arrivals cs

abbrev pub buffers : List (ℕ × Bytes) → List Bytes
buffers [] = []
buffers ((x, xs) ∷ cs) = (x ∷ xs) ∷ buffers cs

-- One descriptor is open.
abbrev pub IsOpen : Socket → ℕ → Type 0
IsOpen s fd = read_open s.fd4 s.fd6 ≡ some (some fd)

read-got :
    (s : Socket) (fd x : ℕ) (xs : Bytes) (answers : List ReadAnswer)
    → s.mode ≡ plain
    → IsOpen s fd
    → read s (got x xs ∷ answers) ≡ some (s, some (x ∷ xs), answers)
unfolding read read_fd attempt_read watch_write end_read
read-got s fd x xs answers m o = rw (o, m) refl

read-again :
    (s : Socket) (fd : ℕ) (answers : List ReadAnswer)
    → s.mode ≡ plain
    → IsOpen s fd
    → read s (read_again ∷ answers) ≡ some (s, none, answers)
unfolding read read_fd attempt_read watch_write end_read
read-again s fd answers m o = rw (o, m) refl

read-ended :
    (s : Socket) (fd : ℕ) (answers : List ReadAnswer)
    → s.mode ≡ plain
    → IsOpen s fd
    → read s (ended ∷ answers) ≡ some (change_state closed (close s), none, answers)
unfolding read read_fd attempt_read watch_write end_read
read-ended s fd answers m o = rw (o, m) refl

-- A read event of a plain socket emits all that has arrived, in order, and then waits for more if
-- the system has no more, or closes both descriptors and is Closed if the connection has ended. A
-- turn of the loop for each buffer and one more are enough.
pub read_all-arrivals :
    (fuel fd : ℕ) (s : Socket) (cs : List (ℕ × Bytes)) (answers : List ReadAnswer)
    → s.mode ≡ plain
    → IsOpen s fd
    → length cs < fuel
    → (read_all fuel s (arrivals cs ++ read_again ∷ answers) ≡ some (s, buffers cs, answers))
      × (read_all fuel s (arrivals cs ++ ended ∷ answers)
          ≡ some (change_state closed (close s), buffers cs, answers))
unfolding read_all
read_all-arrivals zero fd s cs answers m o h = absurd (omega arith)
read_all-arrivals (suc fuel) fd s [] answers m o h =
    (rw (read-again s fd answers m o) refl, rw (read-ended s fd answers m o) refl)
read_all-arrivals (suc fuel) fd s ((x, xs) ∷ cs) answers m o h =
    let (a, b) = read_all-arrivals fuel fd s cs answers m o (omega arith) in
    (
      rw (read-got s fd x xs (arrivals cs ++ read_again ∷ answers) m o, a) refl,
      rw (read-got s fd x xs (arrivals cs ++ ended ∷ answers) m o, b) refl,
    )

read-got_waiting :
    (s : Socket) (fd x : ℕ) (xs : Bytes) (answers : List ReadAnswer)
    → s.mode ≡ tls
    → IsOpen s fd
    → s.read_wait ≡ ssl_read_waiting_for_read
    → read s (got x xs ∷ answers) ≡ some (s, some (x ∷ xs), answers)
unfolding read read_fd attempt_read watch_write end_read
read-got_waiting s fd x xs answers m o w = rw (o, m, w) refl

retry_read-got :
    (b : Bool) (s : Socket) (fd x : ℕ) (xs : Bytes) (answers : List ReadAnswer)
    → b ≡ true
    → read s (got x xs ∷ answers) ≡ some (s, some (x ∷ xs), answers)
    → retry_read b s (got x xs ∷ answers) ≡ some (s, (x ∷ xs) ∷ [], answers)
unfolding retry_read
retry_read-got b s fd x xs answers e r = rw (e, r) refl

retry_write_none :
    (b : Bool) (fd : ℕ) (s : Socket) (writes : List Answer)
    → b ≡ false
    → retry_write b fd s writes ≡ some (s, [], writes)
unfolding retry_write
retry_write_none b fd s writes e = rw e refl

read_while_waiting :
    (fuel : ℕ) (s : Socket) (answers : List ReadAnswer)
    → is_not_waiting s.read_wait ≡ false
    → read_while (suc fuel) s answers ≡ some (s, [], answers)
unfolding read_while
read_while_waiting fuel s answers e = rw e refl

-- Over TLS, once a read has had to wait until the socket can be read, that is never taken back: a
-- read event of a connected socket whose writes wait for nothing emits one buffer, and leaves all
-- else that has arrived.
pub tls_read_connected-once :
    (fuel fd x : ℕ) (xs : Bytes) (s : Socket) (answers : List ReadAnswer) (writes : List Answer)
    → s.mode ≡ tls
    → IsOpen s fd
    → s.read_wait ≡ ssl_read_waiting_for_read
    → writes_on_read s.write_wait ≡ false
    → tls_read_connected (suc fuel) fd s (got x xs ∷ answers) writes
      ≡ some (record {
        socket = s;
        emitted = (x ∷ xs) ∷ [];
        sent = [];
        reads = answers;
        writes = writes;
      })
unfolding tls_read_connected
tls_read_connected-once fuel fd x xs s answers writes m o w q =
    let r = read-got_waiting s fd x xs answers m o w in
    rw
      (
        retry_read-got (reads_on_read s.read_wait) s fd x xs answers (ap reads_on_read w) r,
        retry_write_none (writes_on_read s.write_wait) fd s writes q,
        read_while_waiting fuel s answers (ap is_not_waiting w),
      )
      refl
