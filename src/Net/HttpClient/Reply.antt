-- ===== src/Net/HttpClient/Reply.antt =====
-- The header callback of lib/net/HttpClient.cpp, which libcurl calls with one line of a response
-- after another. The regular expression of the first line is written out. mResponseReceived,
-- which nothing reads, is left out.
pub mod First
pub mod Lines
pub mod Received
use reckoning.Common.{
  ℕ, zero, suc, ◌+◌, ◌-◌, ◌*◌, Bool, true, false, ◌&&◌, ◌||◌, Option, none, some, List, [], ◌∷◌,
  ◌++◌, ltb, leb, ◌==◌, if◌then◌else◌, ◌>>=◌, ◌>>◌, guard, length, take, drop, map, Bytes,
}
use reckoning.Common.Chars.{is_space, is_digit, is_alnum, to_lower}
use reckoning.Common.Maps.{codes}
use reckoning.Net.HttpClient.Headers.{Headers, add}

-- What HttpConnectionInfo keeps of the response.
pub record Reply : Type 0 where
  pub status : ℕ
  pub reason : Bytes
  pub headers : Headers

-- The line is refused, which ends the transfer, or taken; at the end of a response, it is emitted.
pub data Outcome : Type 0 where
  refused : Outcome
  taken : Reply → Outcome
  emits : Reply → Reply → Outcome

-- The length without the white space at the end.
unfoldable pub trim : Bytes → ℕ
trim [] = 0
trim (c ∷ cs) = elim (trim cs) [ zero ↦ if is_space c then 0 else 1 | suc n ↦ suc (suc n) ]

-- `header.find(": ")`.
unfoldable pub find_split : Bytes → Option ℕ
find_split [] = none
find_split (c ∷ []) = none
find_split (c ∷ d ∷ cs) =
    if c == 58 && d == 32 then some 0 else (do n ← find_split (d ∷ cs); some (suc n))

-- `[a-zA-Z0-9]*`.
unfoldable pub alnums : Bytes → Bytes
alnums [] = []
alnums (c ∷ cs) = let rest = alnums cs in if is_alnum c then c ∷ rest else []

-- `^HTTP\/`.
unfoldable pub strip : Bytes → Bytes → Option Bytes
strip [] cs = some cs
strip (x ∷ xs) [] = none
strip (x ∷ xs) (c ∷ cs) = if x == c then strip xs cs else none

-- `\d(\.\d)?`.
unfoldable pub match_version : Bytes → Option Bytes
match_version (c ∷ p ∷ d ∷ cs) =
    if is_digit c then if p == b'.' && is_digit d then some cs else some (p ∷ d ∷ cs) else none
match_version _ = none

-- ` (\d{3}) ([a-zA-Z0-9]*)`: the number, and the word.
unfoldable pub match_status : Bytes → Option (ℕ × Bytes)
unfolding alnums
match_status (s ∷ a ∷ b ∷ c ∷ t ∷ cs) =
    if s == b' ' && is_digit a && is_digit b && is_digit c && t == b' '
    then some ((a - b'0') * 100 + (b - b'0') * 10 + (c - b'0'), alnums cs)
    else none
match_status _ = none

unfoldable pub match_line : Bytes → Option (ℕ × Bytes)
unfolding strip match_version match_status
match_line header = do cs ← strip (codes "HTTP/") header; cs' ← match_version cs; match_status cs'

abbrev pub is_empty : {A : Type 0} → List A → Bool
is_empty [] = true
is_empty (x ∷ xs) = false

-- `conn->headers.empty() && conn->status == 0`.
abbrev pub is_first : Reply → Bool
is_first r = is_empty r.headers && r.status == 0

abbrev pub is_redirect : ℕ → Bool
is_redirect status = leb 300 status && ltb status 400

-- The first line.
unfoldable pub status_line : Bytes → Reply → Outcome
unfolding match_line
status_line header r = elim (match_line header) [
  | none ↦ refused
  | some (status, reason) ↦ taken (record r { status = status; reason = reason })
]

-- The empty line, where the client is still there or not.
unfoldable pub last_line : Bool → Reply → Outcome
last_line false r = refused
last_line true r =
    if is_redirect r.status
    then taken (record r { status = 0; headers = [] })
    else emits r (record r { headers = [] })

-- A line without a name in front of ": ".
unfoldable pub other_line : Bool → Bytes → Reply → Outcome
unfolding last_line
other_line alive (a ∷ b ∷ []) r =
    let last = last_line alive r in if a == 13 && b == 10 then last else refused
other_line alive _ r = refused

-- A line with ": " at the position `split`.
unfoldable pub header_line : ℕ → Bytes → Reply → Option Outcome
unfolding trim add
header_line split header r = do
  let n : ℕ = trim header
  _ ← guard (leb (split + 2) n)
  let value : Bytes = take (n - (split + 2)) (drop (split + 2) header)
  some (taken (record r { headers = add (map to_lower (take split header)) value r.headers }))

-- `easyHeaderCallback`.
unfoldable pub easy_header : Bool → Bytes → Reply → Option Outcome
unfolding status_line find_split header_line other_line
easy_header alive header r =
    if is_first r then some (status_line header r) else elim (find_split header) [
      | none ↦ some (other_line alive header r)
      | some zero ↦ some (other_line alive header r)
      | some (suc n) ↦ header_line (suc n) header r
    ]
