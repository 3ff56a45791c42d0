-- ===== src/Net/WebSocketClient/Upgrade/Accepted.antt =====
-- A whole answer to the upgrade request, line by line, as `attemptUpgrade` of
-- lib/net/WebSocketClient.cpp takes it.
use reckoning.Common.{
  ℕ, suc, ◌+◌, ◌-◌, ◌≤◌, ◌<◌, ◌≡◌, refl, sym, ap, ap₂, ◌∙◌, ◌≢◌, inl, inr, true, false, some, List,
  [], ◌∷◌, ◌++◌, append_assoc, ◌==◌, length, length-append, take, drop, take-append, drop-append,
  map, All, Bytes, arith, Bool-cases,
}
use reckoning.Common.Chars.{to_lower}
use reckoning.Buffer.Wait.{memmem}
use reckoning.Util.Base64.Reference.{IsByte}
use reckoning.Net.WebSocketClient.{WebSocket, flush}
use reckoning.Net.WebSocketClient.Upgrade.{
  behind, find, find_accept, accept_header, left, give_up, verify, attempt_upgrade,
}
use reckoning.Net.WebSocketClient.Upgrade.Lines.{
  crlf, IsLine, IsHeaderLine, lines, memmem-crlf, memmem-lines, IsOther, find-lines, length-lower,
}
use reckoning.Net.WebSocketClient.Upgrade.Verified.{
  key_text, same_key, same_key_iff, verify-key, upgrade-verify, attempt_upgrade-one, attempt-some,
}

-- An answer: the lines before the key, the name of its header with the colon and the space, the
-- key, the lines behind it, and what follows the header.
pub record Answer : Type 0 where
  pub before : List Bytes
  pub name : Bytes
  pub key : Bytes
  pub after : List Bytes
  pub body : Bytes

abbrev pub header_lines : Answer → List Bytes
header_lines a = a.before ++ (a.name ++ a.key) ∷ a.after

abbrev pub bytes : Answer → Bytes
bytes a = lines (header_lines a) ++ 13 ∷ 10 ∷ a.body

-- Lines that are not empty; the first with the name, in any case, is the one with the key.
abbrev pub IsAnswer : Answer → Type 0
IsAnswer a =
    All (λ l. IsHeaderLine l × IsOther accept_header l) a.before
    × (map to_lower a.name ≡ accept_header)
    × IsLine a.name
    × IsLine a.key
    × All IsHeaderLine a.after

abbrev pub kept : Bytes → List Bytes
kept [] = []
kept (c ∷ cs) = (c ∷ cs) ∷ []

lines-append :
    (ls : List Bytes)
    → (x : Bytes) → (ms : List Bytes) → lines (ls ++ x ∷ ms) ≡ lines ls ++ (x ++ 13 ∷ 10 ∷ lines ms)
lines-append [] x ms = refl
lines-append (l ∷ ls) x ms =
    ap (λ r. l ++ 13 ∷ 10 ∷ r) (lines-append ls x ms)
    ∙ sym (append_assoc l (13 ∷ 10 ∷ lines ls) (x ++ 13 ∷ 10 ∷ lines ms))

All-both :
    (ls : List Bytes)
    → (x : Bytes) → (ms : List Bytes) → All (λ l. IsHeaderLine l × IsOther accept_header l) ls
    → IsHeaderLine x
    → All IsHeaderLine ms
    → All IsHeaderLine (ls ++ x ∷ ms)
All-both [] x ms all ok all' = (ok, all')
All-both (l ∷ ls) x ms ((ok', _), all) ok all' = (ok', All-both ls x ms all ok all')

All-append : (xs ys : Bytes) → IsLine xs → IsLine ys → IsLine (xs ++ ys)
All-append [] ys all all' = all'
All-append (x ∷ xs) ys (ne, all) all' = (ne, All-append xs ys all all')

All-IsOther :
    (ls : List Bytes)
    → All (λ l. IsHeaderLine l × IsOther accept_header l) ls
    → All (IsOther accept_header) ls
All-IsOther [] all = tt
All-IsOther (l ∷ ls) ((_, other), all) = (other, All-IsOther ls all)

header-end :
    (ls : List Bytes)
    → (x : Bytes) → (ms : List Bytes) → (body : Bytes) → All IsHeaderLine (ls ++ x ∷ ms)
    → memmem (lines (ls ++ x ∷ ms) ++ 13 ∷ 10 ∷ body) (13 ∷ 10 ∷ 13 ∷ 10 ∷ [])
      ≡ some (length (lines (ls ++ x ∷ ms)) - 2)
unfolding memmem
header-end [] x ms body (ok, all) = memmem-lines 0 x ms body ok all ∙ ap some (omega arith)
header-end (l ∷ ls) x ms body (ok, all) =
    memmem-lines 0 l (ls ++ x ∷ ms) body ok all ∙ ap some (omega arith)

length-lines : (ls : List Bytes) → length ls ≤ length (lines ls)
length-lines [] = omega arith
length-lines (l ∷ ls) = omega (arith, length-append l (13 ∷ 10 ∷ lines ls), length-lines ls)

left-kept :
    (size : ℕ)
    → (header body : Bytes) → length header ≡ size
    → left size (header ++ body) ≡ kept body
left-kept size header [] e =
    let whole : (length (header ++ []) == size) ≡ true = ground (arith, length-append header []) in
    rw whole
left-kept size header (c ∷ cs) e =
    let more : (length (header ++ c ∷ cs) == size) ≡ false =
      ground (arith, length-append header (c ∷ cs)) in
    rw more (ap (λ x. x ∷ []) (drop-append size header (c ∷ cs) (sym e)))

-- What is behind the name of the key's header, up to the end of the header.
abbrev rest_of : Answer → Bytes
rest_of a = a.key ++ 13 ∷ 10 ∷ (lines a.after ++ crlf)

abbrev size_of : Answer → ℕ
size_of a = length (lines (header_lines a)) - 2 + 4

header-split :
    (a : Answer)
    → (tail : Bytes)
    → lines (header_lines a) ++ 13 ∷ 10 ∷ tail
      ≡ (lines a.before ++ a.name) ++ (a.key ++ 13 ∷ 10 ∷ (lines a.after ++ 13 ∷ 10 ∷ tail))
header-split a tail =
    let end : Bytes = 13 ∷ 10 ∷ lines a.after in
    ap (λ r. r ++ 13 ∷ 10 ∷ tail) (lines-append a.before (a.name ++ a.key) a.after)
    ∙ append_assoc (lines a.before) ((a.name ++ a.key) ++ end) (13 ∷ 10 ∷ tail)
    ∙ ap (λ r. lines a.before ++ r)
        (ap (λ r. r ++ 13 ∷ 10 ∷ tail) (append_assoc a.name a.key end)
          ∙ append_assoc a.name (a.key ++ end) (13 ∷ 10 ∷ tail)
          ∙ ap (λ r. a.name ++ r) (append_assoc a.key end (13 ∷ 10 ∷ tail)))
    ∙ sym (
        append_assoc (lines a.before) a.name (a.key ++ 13 ∷ 10 ∷ (lines a.after ++ 13 ∷ 10 ∷ tail)))

bytes-split : (a : Answer) → bytes a ≡ (lines (header_lines a) ++ crlf) ++ a.body
bytes-split a = sym (append_assoc (lines (header_lines a)) crlf a.body)

accept-plain : All (λ c. c ≢ 13) accept_header
accept-plain = ground arith

size_of-header : (a : Answer) → length (lines (header_lines a) ++ crlf) ≡ size_of a
size_of-header a =
    let x : Bytes = a.name ++ a.key in
    let whole = ap length (lines-append a.before x a.after) in
    omega (
      arith,
      whole,
      length-append (lines (header_lines a)) crlf,
      length-append (lines a.before) (x ++ 13 ∷ 10 ∷ lines a.after),
      length-append x (13 ∷ 10 ∷ lines a.after),
    )

header-found :
    (a : Answer) → lines (header_lines a) ++ crlf ≡ lines a.before ++ (a.name ++ rest_of a)
header-found a = header-split a [] ∙ append_assoc (lines a.before) a.name (rest_of a)

find_accept-lines :
    (a : Answer)
    → (header : Bytes) → IsAnswer a
    → header ≡ lines a.before ++ (a.name ++ rest_of a)
    → find_accept header ≡ behind (rest_of a)
unfolding find_accept
find_accept-lines a header (before, name, plain, ok, after) e =
    ap (find (suc (length header)) accept_header) e
    ∙ find-lines (suc (length header)) accept_header a.before a.name (rest_of a)
        (omega (
          arith,
          ap length e,
          length-append (lines a.before) (a.name ++ rest_of a),
          length-lines a.before,
        ))
        name (omega arith) accept-plain (All-IsOther a.before before)

find_accept-answer :
    (a : Answer) → IsAnswer a → find_accept (take (size_of a) (bytes a)) ≡ behind (rest_of a)
find_accept-answer a ok = find_accept-lines a (take (size_of a) (bytes a)) ok (
    ap (take (size_of a)) (bytes-split a)
    ∙ take-append (size_of a) (lines (header_lines a) ++ crlf) a.body (sym (size_of-header a))
    ∙ header-found a)

key-answer :
    (a : Answer)
    → drop (size_of a - length (rest_of a)) (bytes a)
      ≡ a.key ++ 13 ∷ 10 ∷ (lines a.after ++ 13 ∷ 10 ∷ a.body)
key-answer a =
    let front : Bytes = lines a.before ++ a.name in
    let size : size_of a ≡ length front + length (rest_of a) =
      sym (size_of-header a) ∙ ap length (header-split a []) ∙ length-append front (rest_of a) in
    ap (drop (size_of a - length (rest_of a))) (header-split a a.body)
    ∙ drop-append (size_of a - length (rest_of a)) front
        (a.key ++ 13 ∷ 10 ∷ (lines a.after ++ 13 ∷ 10 ∷ a.body)) (omega arith)

module _ (sha1 : Bytes → Bytes)
    (digests : (text : Bytes) → (length (sha1 text) ≡ 20) × All IsByte (sha1 text)) where
  attempt_upgrade-verify :
      (memory key : Bytes)
      → (a : Answer) → (s : WebSocket) → IsAnswer a
      → s.read_buffers ≡ bytes a ∷ []
      → attempt_upgrade sha1 memory key s
        ≡ verify sha1 key a.key (record s { read_buffers = kept a.body })
  attempt_upgrade-verify memory key a s (before, name, plain, ok, after) e =
      let b : Bytes = bytes a in
      let answer : IsAnswer a = (before, name, plain, ok, after) in
      let s' : WebSocket = record s { read_buffers = b ∷ [] } in
      let some_bytes : 0 < length (a.name ++ a.key) =
        omega (arith, length-append a.name a.key, length-lower a.name, ap length name) in
      let at_key = key-answer a in
      attempt_upgrade-one sha1 digests memory key b s e
      ∙ attempt-some sha1 digests key b s' (length (lines (header_lines a)) - 2) (
          header-end a.before (a.name ++ a.key) a.after a.body (
            All-both a.before (a.name ++ a.key) a.after before
              (some_bytes, All-append a.name a.key plain ok) after))
      ∙ upgrade-verify sha1 digests key b (size_of a) s' (rest_of a) (length a.key)
          (find_accept-answer a answer)
          (ap (λ t. memmem t crlf) at_key
            ∙ memmem-crlf a.key (lines a.after ++ 13 ∷ 10 ∷ a.body) ok)
      ∙ ap₂ (λ t bs. verify sha1 key t (record s { read_buffers = bs }))
          (ap (take (length a.key)) at_key
            ∙ take-append (length a.key) a.key (13 ∷ 10 ∷ (lines a.after ++ 13 ∷ 10 ∷ a.body)) refl)
          (ap (left (size_of a)) (bytes-split a)
            ∙ left-kept (size_of a) (lines (header_lines a) ++ crlf) a.body (size_of-header a))

  -- An answer that has come whole in one buffer, its header of lines that are not empty, among
  -- them one with the name sec-websocket-accept, in any case, which none before it has: if its
  -- key is the base 64 text of the digest of the key sent with the magic text behind it, the
  -- client is upgraded and writes what waits; if not, it lets the socket and wslay go. Either way
  -- what follows the header is kept, and no assertion fails. It holds for a digest of 20 bytes,
  -- as SHA-1 gives.
  pub attempt_upgrade-accepts :
      (memory key : Bytes)
      → (a : Answer) → (s : WebSocket) → IsAnswer a
      → s.read_buffers ≡ bytes a ∷ []
      → (a.key ≡ key_text sha1 digests key
          → attempt_upgrade sha1 memory key s
            ≡ some (flush (record s { read_buffers = kept a.body; upgraded = true })))
        × (a.key ≢ key_text sha1 digests key
            → attempt_upgrade sha1 memory key s
              ≡ some (give_up (record s { read_buffers = kept a.body })))
  attempt_upgrade-accepts memory key a s answer e =
      let s' : WebSocket = record s { read_buffers = kept a.body } in
      let run =
        attempt_upgrade-verify memory key a s answer e ∙ verify-key sha1 digests key a.key s' in
      let (equal, other) = same_key_iff sha1 digests key a.key in
      elim (Bool-cases (same_key sha1 digests key a.key)) [
        | inl h ↦ ((λ _. run ∙ rw h), (λ ne. absurd (ne (equal h))))
        | inr h ↦ ((λ same. absurd (other h same)), (λ _. run ∙ rw h))
      ]
