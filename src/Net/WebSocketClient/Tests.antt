-- ===== src/Net/WebSocketClient/Tests.antt =====
-- The WebSocket client at concrete inputs.
use reckoning.Common.{
  ℕ, ◌-◌, ◌≤◌, ◌<◌, ◌≡◌, refl, true, false, none, some, [], ◌∷◌, Bytes, arith, length, take,
  replicate, All,
}
use reckoning.Common.Maps.{codes, ◌=bytes◌}
use reckoning.Util.Base64.{char_at}
use reckoning.Util.Base64.Reference.{IsByte}
use reckoning.Net.WebSocketClient.{WebSocket, gives, recv, merge}
use reckoning.Net.WebSocketClient.Received.{contents, recv-gives, recv-partly}
use reckoning.Net.WebSocketClient.Merged.{merge-last}
use reckoning.Net.WebSocketClient.Upgrade.{attempt_upgrade}
use reckoning.Net.WebSocketClient.{flush}
use reckoning.Net.WebSocketClient.Upgrade.{case_begins}
use reckoning.Util.Base64.Reference.{reference}
use reckoning.Net.WebSocketClient.Upgrade.Accepted.{
  Answer, IsAnswer, bytes, attempt_upgrade-accepts,
}

abbrev socket : WebSocket
socket = record {
  has_tcp = true;
  has_context = true;
  upgraded = true;
  buffer_offset = 0;
  read_buffers = (1 ∷ 2 ∷ 3 ∷ []) ∷ (4 ∷ 5 ∷ []) ∷ [];
  write_buffers = [];
  notes = [];
}

recv-gives_example :
    (s' : WebSocket) × (recv 4 socket ≡ some (gives (1 ∷ 2 ∷ 3 ∷ 4 ∷ []), s'))
    × (contents s' ≡ 5 ∷ [])
recv-gives_example = recv-gives 4 socket (1 ∷ 2 ∷ 3 ∷ []) ((4 ∷ 5 ∷ []) ∷ []) refl refl refl

abbrev read_one : WebSocket
read_one = record socket { buffer_offset = 1 }

recv-partly_example :
    (1 ≤ length {A = ℕ} (1 ∷ 2 ∷ 3 ∷ []) - 1
      → recv 1 read_one ≡ some (gives (2 ∷ []), record read_one { buffer_offset = 1 }))
    × (length {A = ℕ} (1 ∷ 2 ∷ 3 ∷ []) - 1 < 1 → recv 1 read_one ≡ none)
recv-partly_example =
    recv-partly 0 read_one (1 ∷ 2 ∷ 3 ∷ []) ((4 ∷ 5 ∷ []) ∷ []) refl refl (omega arith)
      (omega arith)

merge-last_example :
    (m : Bytes) × (merge (replicate 8 0) ((1 ∷ 2 ∷ 3 ∷ []) ∷ (4 ∷ 5 ∷ []) ∷ []) ≡ m ∷ [])
    × (length m ≡ 5)
    × (take 2 m ≡ 4 ∷ 5 ∷ [])
merge-last_example =
    merge-last (replicate 8 0) (1 ∷ 2 ∷ 3 ∷ []) [] (4 ∷ 5 ∷ []) (omega arith) (omega arith)

-- A digest of 20 bytes.
abbrev zeros : Bytes → Bytes
zeros text = replicate 20 0

zeros-digests : (text : Bytes) → (length (zeros text) ≡ 20) × All IsByte (zeros text)
zeros-digests text = (refl, ground arith)

abbrev answer : Answer
answer = record {
  before = codes "HTTP/1.1 101 Switching Protocols" ∷ [];
  name = codes "Sec-WebSocket-Accept: ";
  key = codes "AAAAAAAAAAAAAAAAAAAAAAAAAAA=";
  after = codes "Upgrade: websocket" ∷ [];
  body = 129 ∷ 1 ∷ 65 ∷ [];
}

answer-IsAnswer : IsAnswer answer
unfolding case_begins
answer-IsAnswer = (
  (((omega arith, ground arith), (ground arith, refl)), tt),
  refl,
  ground arith,
  ground arith,
  ((omega arith, ground arith), tt),
)

abbrev waiting : WebSocket
waiting = record socket { upgraded = false; read_buffers = bytes answer ∷ [] }

attempt_upgrade-accepts_example :
    attempt_upgrade zeros [] (codes "key") waiting
    ≡ some (flush (record waiting { read_buffers = (129 ∷ 1 ∷ 65 ∷ []) ∷ []; upgraded = true }))
unfolding reference char_at
attempt_upgrade-accepts_example =
    (attempt_upgrade-accepts zeros zeros-digests [] (codes "key") answer waiting answer-IsAnswer
        refl).0
      refl

-- The client is upgraded.
upgraded_test :
    attempt_upgrade zeros [] (codes "key") waiting
    ≡ some (record waiting { upgraded = true; read_buffers = (129 ∷ 1 ∷ 65 ∷ []) ∷ [] })
unfolding attempt_upgrade ◌=bytes◌ char_at
upgraded_test = refl
