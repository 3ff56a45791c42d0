-- ===== src/Net/HttpClient/Reply/Received.antt =====
-- Whole responses, as the header callback of lib/net/HttpClient.cpp takes them line by line.
use reckoning.Common.{
  ◌≡◌, refl, sym, ap, ◌∙◌, ◌≢◌, Bool, true, false, Option, none, some, List, [], ◌∷◌, ◌++◌,
  append_assoc, append-nil, map, concat, All, Bytes, arith, ◌>>=◌,
}
use reckoning.Common.Chars.{to_lower}
use reckoning.Net.HttpClient.Headers.{Headers, line, to_string}
use reckoning.Net.HttpClient.Reply.{
  Reply, refused, taken, emits, is_first, is_redirect, last_line, easy_header,
}
use reckoning.Net.HttpClient.Reply.First.{
  FirstLine, IsFirstLine, first_line, status_of, match_line-first,
}
use reckoning.Net.HttpClient.Reply.Lines.{
  IsName, IsValue, easy_header-line, easy_header-first, easy_header-last,
}

-- The lines that libcurl passes on: what is emitted, and what is kept, unless a line is refused.
unfoldable pub receive : Bool → List Bytes → Reply → Option (List Reply × Option Reply)
unfolding easy_header
receive alive [] r = some ([], some r)
receive alive (l ∷ ls) r = elim (easy_header alive l r) [
  | none ↦ none
  | some refused ↦ some ([], none)
  | some (taken r') ↦ receive alive ls r'
  | some (emits e r') ↦ (do (es, left) ← receive alive ls r'; some (e ∷ es, left))
]

-- A response as it is sent: its first line, and its headers as `toString` prints them.
pub record Response : Type 0 where
  pub first : FirstLine
  pub headers : Headers

abbrev pub header_lines : Headers → List Bytes
header_lines [] = []
header_lines ((k, v) ∷ hs) = line k v ∷ header_lines hs

abbrev pub lines : Response → List Bytes
lines p = first_line p.first ∷ (header_lines p.headers ++ (13 ∷ 10 ∷ []) ∷ [])

pub header_lines-to_string : (hs : Headers) → concat (header_lines hs) ≡ to_string hs
unfolding to_string
header_lines-to_string [] = refl
header_lines-to_string ((k, v) ∷ hs) = ap (λ xs. line k v ++ xs) (header_lines-to_string hs)

abbrev pub lowered : Headers → Headers
lowered [] = []
lowered ((k, v) ∷ hs) = (map to_lower k, v) ∷ lowered hs

abbrev pub IsHeader : Bytes × Bytes → Type 0
IsHeader (k, v) = IsName k × IsValue v

abbrev pub IsResponse : Response → Type 0
IsResponse p = IsFirstLine p.first × (status_of p.first ≢ 0) × All IsHeader p.headers

receive-taken :
    (alive : Bool)
    → (l : Bytes) → (ls : List Bytes) → (r r' : Reply) → easy_header alive l r ≡ some (taken r')
    → receive alive (l ∷ ls) r ≡ receive alive ls r'
unfolding receive
receive-taken alive l ls r r' e = ground arith

not_first : (r : Reply) → r.status ≢ 0 → is_first r ≡ false
not_first r ne = ground arith

receive-headers :
    (alive : Bool)
    → (hs : Headers) → (ls : List Bytes) → (r : Reply) → All IsHeader hs
    → r.status ≢ 0
    → receive alive (header_lines hs ++ ls) r
      ≡ receive alive ls (record r { headers = r.headers ++ lowered hs })
receive-headers alive [] ls r all ne =
    ap (λ xs. receive alive ls (record r { headers = xs })) (sym (append-nil r.headers))
receive-headers alive ((k, v) ∷ hs) ls r ((name, value), all) ne =
    let r' : Reply = record r { headers = r.headers ++ (map to_lower k, v) ∷ [] } in
    receive-taken alive (line k v) (header_lines hs ++ ls) r r'
      (easy_header-line alive k v r name value (not_first r ne))
    ∙ receive-headers alive hs ls r' all ne
    ∙ ap (λ xs. receive alive ls (record r { headers = xs }))
        (append_assoc r.headers ((map to_lower k, v) ∷ []) (lowered hs))

-- Up to the empty line.
receive-lines :
    (alive : Bool)
    → (p : Response) → (ls : List Bytes) → (r : Reply) → IsResponse p
    → is_first r ≡ true
    → receive alive (lines p ++ ls) r
      ≡ receive alive ((13 ∷ 10 ∷ []) ∷ ls) (record {
        status = status_of p.first;
        reason = p.first.word;
        headers = r.headers ++ lowered p.headers;
      })
receive-lines alive p ls r (ok, ne, all) first =
    let r' : Reply = record r { status = status_of p.first; reason = p.first.word } in
    receive-taken alive (first_line p.first) ((header_lines p.headers ++ (13 ∷ 10 ∷ []) ∷ []) ++ ls)
      r r'
      (easy_header-first alive (first_line p.first) r (status_of p.first) p.first.word first
        (match_line-first p.first ok))
    ∙ ap (λ xs. receive alive xs r')
        (append_assoc (header_lines p.headers) ((13 ∷ 10 ∷ []) ∷ []) ls)
    ∙ receive-headers alive p.headers ((13 ∷ 10 ∷ []) ∷ ls) r' all ne

first-headers : (r : Reply) → is_first r ≡ true → r.headers ≡ []
first-headers r e = ground arith

last_line-redirect :
    (r : Reply)
    → is_redirect r.status ≡ true
    → last_line true r ≡ taken (record r { status = 0; headers = [] })
unfolding last_line
last_line-redirect r e = rw e

last_line-emits :
    (r : Reply)
    → is_redirect r.status ≡ false
    → last_line true r ≡ emits r (record r { headers = [] })
unfolding last_line
last_line-emits r e = rw e

receive-redirect :
    (p : Response)
    → (ls : List Bytes) → (r : Reply) → IsResponse p
    → is_redirect (status_of p.first) ≡ true
    → is_first r ≡ true
    → receive true (lines p ++ ls) r
      ≡ receive true ls (record { status = 0; reason = p.first.word; headers = [] })
receive-redirect p ls r (ok, ne, all) away first =
    let r' : Reply = record {
      status = status_of p.first;
      reason = p.first.word;
      headers = r.headers ++ lowered p.headers;
    } in
    receive-lines true p ls r (ok, ne, all) first
    ∙ receive-taken true (13 ∷ 10 ∷ []) ls r' (record r' { status = 0; headers = [] })
        (easy_header-last true r' (not_first r' ne) ∙ ap some (last_line-redirect r' away))

receive-emitted :
    (l : Bytes)
    → (r e r' : Reply) → easy_header true l r ≡ some (emits e r')
    → receive true (l ∷ []) r ≡ some (e ∷ [], some r')
unfolding receive
receive-emitted l r e r' h = ground arith

-- What is emitted of a response.
abbrev pub reply : Response → Reply
reply p = record { status = status_of p.first; reason = p.first.word; headers = lowered p.headers }

receive-last :
    (p : Response)
    → (r : Reply) → IsResponse p
    → is_redirect (status_of p.first) ≡ false
    → is_first r ≡ true
    → receive true (lines p) r ≡ some (reply p ∷ [], some (record (reply p) { headers = [] }))
receive-last p r (ok, ne, all) stays first =
    let r' : Reply = record {
      status = status_of p.first;
      reason = p.first.word;
      headers = r.headers ++ lowered p.headers;
    } in
    ap (λ ls. receive true ls r) (sym (append-nil (lines p)))
    ∙ receive-lines true p [] r (ok, ne, all) first
    ∙ receive-emitted (13 ∷ 10 ∷ []) r' r' (record r' { headers = [] })
        (easy_header-last true r' (not_first r' ne) ∙ ap some (last_line-emits r' stays))
    ∙ ap
        (λ hs. some (
          record {
            status = status_of p.first;
            reason = p.first.word;
            headers = hs ++ lowered p.headers;
          }
              ∷ [],
          some (record (reply p) { headers = [] }),
        ))
        (first-headers r first)

-- A response is emitted once, after any number of redirects, of which none is emitted: with the
-- number of its three digits as its status, the letters and digits directly behind it, up to the
-- first other character, as its reason, and its headers in order with their names in lower case.
-- It holds while the client is there and nothing is kept of a response before, for responses
-- whose first line is "HTTP/", a digit, with or without a dot and another, a space, a status that
-- is not 0 and a space, and whose headers have a name without a colon, and a value that is not
-- empty and has no white space at its end, the last of them without a status of a redirect.
pub receive-redirects :
    (ps : List Response)
    → (p : Response) → (r : Reply)
    → All (λ q. IsResponse q × (is_redirect (status_of q.first) ≡ true)) ps
    → IsResponse p
    → is_redirect (status_of p.first) ≡ false
    → is_first r ≡ true
    → receive true (concat (map lines ps) ++ lines p) r
      ≡ some (reply p ∷ [], some (record (reply p) { headers = [] }))
receive-redirects [] p r all ok stays first = receive-last p r ok stays first
receive-redirects (q ∷ ps) p r ((ok', away), all) ok stays first =
    ap (λ ls. receive true ls r) (append_assoc (lines q) (concat (map lines ps)) (lines p))
    ∙ receive-redirect q (concat (map lines ps) ++ lines p) r ok' away first
    ∙ receive-redirects ps p (record { status = 0; reason = q.first.word; headers = [] }) all ok
        stays refl
