-- ===== src/Net/HttpClient/Tests.antt =====
-- The HTTP client at concrete inputs.
use reckoning.Common.{
  ℕ, ◌≤◌, ◌≡◌, refl, ◌≢◌, inl, true, false, Option, none, some, [], ◌∷◌, ◌++◌, Bytes, arith,
}
use reckoning.Common.Maps.{codes}
use reckoning.Event.Fds.{Fds}
use reckoning.Event.Timers.{is_active, timeout}
use reckoning.Net.HttpClient.Upload.{Upload}
use reckoning.Net.HttpClient.Upload.Delivered.{contents, IsValid}
use reckoning.Net.HttpClient.Upload.Stream.{run, writes, ends, reads, run-stream}
use reckoning.Net.HttpClient.Reply.{
  Reply, refused, trim, match_line, strip, match_version, match_status, alnums, find_split,
  easy_header,
}
use reckoning.Net.HttpClient.Reply.Lines.{easy_header-no_value, easy_header-next}
use reckoning.Net.HttpClient.Reply.Received.{Response, IsResponse, receive, receive-redirects}
use reckoning.Net.HttpClient.Multi.{poll_inout, multi_socket, Timers, multi_timer}
use reckoning.Net.HttpClient.Multi.Sockets.{count, watched, Matches, multi_socket-Matches}
use reckoning.Net.HttpClient.Multi.Timeouts.{IsArmed, multi_timer-IsArmed}
use reckoning.Net.HttpClient.Multi.Transfers.{Client, init}
use reckoning.Net.HttpClient.Multi.Balance.{headers, made, freed, ended, init-Balanced}

abbrev new_upload : Upload
new_upload = record {
  connected = true;
  paused = true;
  write_end = false;
  buffer_pos = 0;
  buffer_offset = 0;
  buffers = [];
  resumed = 0;
}

new_upload-IsValid : IsValid new_upload
unfolding IsValid
new_upload-IsValid = inl (refl, refl, refl)

run-stream_example :
    (bytes : Bytes) × (s' : Upload) × (run
        (writes (1 ∷ 2 ∷ 3 ∷ []) ∷ reads 2 ∷ writes (4 ∷ []) ∷ reads 9 ∷ ends ∷ reads 9 ∷ [])
        new_upload
      ≡ some (bytes, s'))
    × (bytes ++ contents s' ≡ 1 ∷ 2 ∷ 3 ∷ 4 ∷ [])
    × IsValid s'
unfolding contents
run-stream_example =
    run-stream (writes (1 ∷ 2 ∷ 3 ∷ []) ∷ reads 2 ∷ writes (4 ∷ []) ∷ reads 9 ∷ ends ∷ reads 9 ∷ [])
      new_upload (omega arith, (omega arith, (omega arith, (omega arith, (tt, (omega arith, tt))))))
      new_upload-IsValid refl

abbrev new_reply : Reply
new_reply = record { status = 0; reason = []; headers = [] }

-- A redirect and the response behind it.
abbrev moved : Response
moved = record {
  first = record {
    major = b'1';
    minor = some b'1';
    hundreds = b'3';
    tens = b'0';
    ones = b'1';
    word = codes "Moved";
    behind = codes "\r\n";
  };
  headers = (codes "Location", codes "/b") ∷ [];
}

abbrev found : Response
found = record {
  first = record {
    major = b'2';
    minor = none;
    hundreds = b'2';
    tens = b'0';
    ones = b'0';
    word = codes "OK";
    behind = codes "\r\n";
  };
  headers = (codes "Content-Type", codes "text/html") ∷ (codes "Age", codes "0") ∷ [];
}

moved-IsResponse : IsResponse moved
unfolding trim
moved-IsResponse = (ground arith, ground arith, ground arith)

found-IsResponse : IsResponse found
unfolding trim
found-IsResponse = (ground arith, ground arith, ground arith)

receive-redirects_example :
    receive true
      (codes "HTTP/1.1 301 Moved\r\n"
        ∷ codes "Location: /b\r\n"
        ∷ codes "\r\n"
        ∷ codes "HTTP/2 200 OK\r\n"
        ∷ codes "Content-Type: text/html\r\n"
        ∷ codes "Age: 0\r\n"
        ∷ codes "\r\n"
        ∷ [])
      new_reply
    ≡ some (
      record {
        status = 200;
        reason = codes "OK";
        headers = (codes "content-type", codes "text/html") ∷ (codes "age", codes "0") ∷ [];
      }
          ∷ [],
      some (record { status = 200; reason = codes "OK"; headers = [] }),
    )
receive-redirects_example =
    receive-redirects (moved ∷ []) found new_reply ((moved-IsResponse, refl), tt) found-IsResponse
      refl refl

-- A response has begun.
abbrev begun : Reply
begun = record { status = 200; reason = codes "OK"; headers = [] }

easy_header-no_value_example : easy_header true (codes "Via: \r\n") begun ≡ none
easy_header-no_value_example =
    easy_header-no_value true (codes "Via") begun (omega arith, ground arith) refl

-- What is kept after "100 Continue".
abbrev continued : Reply
continued = record { status = 100; reason = codes "Continue"; headers = [] }

easy_header-next_example : easy_header true (codes "HTTP/1.1 200 OK\r\n") continued ≡ some refused
unfolding match_line strip match_version match_status alnums find_split
easy_header-next_example =
    easy_header-next true (codes "HTTP/1.1 200 OK\r\n") continued (200, codes "OK") (ground arith)
      refl refl

abbrev no_fds : Fds
no_fds = record { fds = []; pending = []; updates = []; removed = [] }

no_fds-Matches : Matches 7 none no_fds
unfolding count
no_fds-Matches = inl (refl, refl)

multi_socket-Matches_example :
    (info' : Option ℕ) × (s' : Fds) × (multi_socket true 1 poll_inout 7 none no_fds
      ≡ some (info', s'))
    × Matches 7 info' s'
    × ((m : ℕ) → m ≢ 7 → watched m s' ≡ watched m no_fds)
multi_socket-Matches_example = multi_socket-Matches 1 7 poll_inout none no_fds no_fds-Matches

-- The timer 0 is kept and set.
abbrev one_timer : Timers
one_timer = record {
  store = λ t. record { timeout_ms = 5; next = 5000000; flag = timeout };
  timers = 0 ∷ [];
  timer = some 0;
}

one_timer-fresh : is_active 1 one_timer.timers ≡ false
unfolding is_active
one_timer-fresh = refl

one_timer-distinct : is_active 0 [] ≡ false
unfolding is_active
one_timer-distinct = refl

multi_timer-IsArmed_example :
    (t : ℕ) × (s' : Timers) × (multi_timer true 3000000 1 20 one_timer ≡ some s')
    × IsArmed 3000000 20 t one_timer s'
multi_timer-IsArmed_example =
    multi_timer-IsArmed 3000000 1 20 one_timer (tt, tt) (one_timer-distinct, tt) one_timer-fresh

abbrev client : Client
client = record {
  url = codes "http://a/";
  headers = (codes "Accept", codes "*/*") ∷ [];
  post = true;
  connection = none;
}

init-Balanced_example :
    (made headers ((init true client).0 ++ ended false (init true client).1.connection)
      ≡ freed headers ((init true client).0 ++ ended false (init true client).1.connection))
    × (made headers ((init true client).0 ++ ended false (init true client).1.connection) ≤ 1)
init-Balanced_example = init-Balanced true false client headers refl
