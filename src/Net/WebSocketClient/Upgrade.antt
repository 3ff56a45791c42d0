-- ===== src/Net/WebSocketClient/Upgrade.antt =====
-- The answer to the upgrade request, in `attemptUpgrade` of lib/net/WebSocketClient.cpp. SHA-1 is a
-- function that is an argument.
pub mod Search
pub mod Verified
pub mod Lines
pub mod Accepted
use reckoning.Common.{
  ℕ, zero, suc, ◌+◌, ◌-◌, Bool, true, false, not, ◌&&◌, Option, none, some, List, [], ◌∷◌, ◌++◌,
  ltb, leb, ◌==◌, if◌then◌else◌, ◌>>=◌, ◌>>◌, guard, length, take, drop, Bytes,
}
use reckoning.Common.Chars.{to_lower}
use reckoning.Common.Maps.{codes, ◌=bytes◌}
use reckoning.Buffer.Wait.{memmem}
use reckoning.Util.Base64.{encode}
use reckoning.Net.WebSocketClient.{WebSocket, merge, flush, free_context}

-- `strncasecmp` with a header in lower case.
unfoldable pub case_begins : Bytes → Bytes → Bool
case_begins [] text = true
case_begins (n ∷ ns) [] = false
case_begins (n ∷ ns) (c ∷ cs) = n == to_lower c && case_begins ns cs

-- What `find` comes to: the text behind the header, or a null pointer.
pub data Found : Type 0 where
  behind : Bytes → Found
  absent out_of_fuel : Found

-- `find`, from the beginning of a line on: every round that goes on takes at least the line's end.
unfoldable pub find : ℕ → Bytes → Bytes → Found
unfolding case_begins memmem
find zero header text = out_of_fuel
find (suc fuel) header text =
    if ltb (length text) (length header)
    then absent
    else if case_begins header text
    then behind (drop (length header) text)
    else elim (memmem text (13 ∷ 10 ∷ [])) [
      | none ↦ absent
      | some at ↦ if at + 2 == length text then absent else find fuel header (drop (at + 2) text)
    ]

abbrev pub accept_header : Bytes
accept_header = codes "sec-websocket-accept: "

abbrev pub magic : Bytes
magic = codes "258EAFA5-E914-47DA-95CA-C5AB0DC85B11"

-- `find` on the header of an answer, with enough fuel.
unfoldable pub find_accept : Bytes → Found
unfolding find
find_accept header = find (suc (length header)) accept_header header

-- wslay's context and the socket are let go.
abbrev pub give_up : WebSocket → WebSocket
give_up s = record (free_context s) { has_tcp = false }

-- What is left of the read buffers behind the header.
abbrev pub left : ℕ → Bytes → List Bytes
left size buffer = if length buffer == size then [] else drop size buffer ∷ []

module _ (sha1 : Bytes → Bytes) where
  -- The key that the server has to answer, with its size as `encode` gives it.
  unfoldable pub expected : Bytes → ℕ × Bytes
  unfolding encode
  expected key = encode (some (sha1 (key ++ magic))) (some 28)

  -- What is done with the key of the answer.
  unfoldable pub verify : Bytes → Bytes → WebSocket → Option WebSocket
  unfolding expected flush
  verify key accept s = do
    let (size, digest) = expected key
    _ ← guard (ltb 20 size && leb size 28)
    some (
        if size == length accept && digest =bytes take size accept
        then flush (record s { upgraded = true })
        else give_up s)

  -- The header of the answer is `buffer` up to the size.
  unfoldable pub upgrade : Bytes → Bytes → ℕ → WebSocket → Option WebSocket
  unfolding find_accept verify memmem
  upgrade key buffer size s = elim (find_accept (take size buffer)) [
    | behind rest ↦
        let text : Bytes = drop (size - length rest) buffer in
        elim (memmem text (13 ∷ 10 ∷ [])) [
          | none ↦ some (give_up s)
          | some end ↦ verify key (take end text) (record s { read_buffers = left size buffer })
        ]
    | absent ↦ some (give_up s)
    | out_of_fuel ↦ none
  ]

  -- The buffers after the merge.
  unfoldable pub attempt_merged : Bytes → List Bytes → WebSocket → Option WebSocket
  unfolding upgrade memmem
  attempt_merged key [] s = some s
  attempt_merged key (b ∷ c ∷ bs) s = none
  attempt_merged key (b ∷ []) s = elim (memmem b (13 ∷ 10 ∷ 13 ∷ 10 ∷ [])) [
    | none ↦ some s
    | some at ↦ upgrade key b (at + 4) s
  ]

  -- `attemptUpgrade(encodedClientKey)`, with the memory of the pool's buffer.
  unfoldable pub attempt_upgrade : Bytes → Bytes → WebSocket → Option WebSocket
  unfolding attempt_merged merge
  attempt_upgrade memory key s =
      let bs : List Bytes = merge memory s.read_buffers in
      attempt_merged key bs (record s { read_buffers = bs })

  -- The handler of onData, up to the reading of what is not taken by the upgrade.
  unfoldable pub on_data : Bytes → Bytes → Bytes → WebSocket → Option WebSocket
  unfolding attempt_upgrade
  on_data memory key buffer s =
      let s' : WebSocket = record s { read_buffers = s.read_buffers ++ buffer ∷ [] } in
      if s.upgraded then some s' else attempt_upgrade memory key s'
