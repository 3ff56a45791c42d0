-- ===== src/Net/WebSocketClient/Upgrade/Lines.antt =====
-- The searches of `attemptUpgrade` in lib/net/WebSocketClient.cpp, in a header that consists of
-- lines.
use reckoning.Common.{
  ℕ, zero, suc, ◌+◌, ◌-◌, ◌≤◌, ◌<◌, ◌≡◌, refl, sym, ap, subst, ◌∙◌, ◌≢◌, true, false, some, List,
  [], ◌∷◌, ◌++◌, append_assoc, ltb, ◌==◌, length, length-append, drop, drop-append, map, All, Bytes,
  arith, ==_iff,
}
use reckoning.Common.Chars.{to_lower}
use reckoning.Buffer.Wait.{memmem, memmem_from, begins}
use reckoning.Net.WebSocketClient.Upgrade.{behind, case_begins, find}

abbrev pub crlf : Bytes
crlf = 13 ∷ 10 ∷ []

-- No byte is a carriage return.
abbrev pub IsLine : Bytes → Type 0
IsLine l = All (λ c. c ≢ 13) l

abbrev pub IsHeaderLine : Bytes → Type 0
IsHeaderLine l = (0 < length l) × IsLine l

abbrev pub lines : List Bytes → Bytes
lines [] = []
lines (l ∷ ls) = l ++ 13 ∷ 10 ∷ lines ls

memmem_from-crlf :
    (i : ℕ)
    → (l rest : Bytes) → IsLine l
    → memmem_from i (13 ∷ 10 ∷ []) (l ++ 13 ∷ 10 ∷ rest) ≡ some (i + length l)
unfolding memmem_from begins
memmem_from-crlf i [] rest ok = ap some (omega arith)
memmem_from-crlf i (c ∷ l) rest (ne, ok) = ground (arith, memmem_from-crlf (suc i) l rest ok)

-- The first end of a line is that of the first line.
pub memmem-crlf : (l rest : Bytes) → IsLine l → memmem (l ++ 13 ∷ 10 ∷ rest) crlf ≡ some (length l)
unfolding memmem
memmem-crlf l rest ok = memmem_from-crlf 0 l rest ok ∙ ap some (omega arith)

memmem_from-line :
    (i : ℕ)
    → (l : Bytes) → (c : ℕ) → (rest : Bytes) → IsLine l
    → c ≢ 13
    → memmem_from i (13 ∷ 10 ∷ 13 ∷ 10 ∷ []) (l ++ 13 ∷ 10 ∷ c ∷ rest)
      ≡ memmem_from (i + length l + 2) (13 ∷ 10 ∷ 13 ∷ 10 ∷ []) (c ∷ rest)
unfolding memmem_from begins
memmem_from-line i [] c rest ok ne =
    let other : (13 == c) ≡ false = ground arith in
    rw other (ap (λ k. memmem_from k (13 ∷ 10 ∷ 13 ∷ 10 ∷ []) rest) (omega arith))
memmem_from-line i (d ∷ l) c rest (ne', ok) ne =
    let other : (13 == d) ≡ false = ground arith in
    rw other (
      memmem_from-line (suc i) l c rest ok ne
      ∙ ap (λ k. memmem_from k (13 ∷ 10 ∷ 13 ∷ 10 ∷ []) (c ∷ rest)) (omega arith))

memmem_from-last :
    (i : ℕ)
    → (l rest : Bytes) → IsLine l
    → memmem_from i (13 ∷ 10 ∷ 13 ∷ 10 ∷ []) (l ++ 13 ∷ 10 ∷ 13 ∷ 10 ∷ rest) ≡ some (i + length l)
unfolding memmem_from begins
memmem_from-last i [] rest ok = ap some (omega arith)
memmem_from-last i (c ∷ l) rest (ne, ok) = ground (arith, memmem_from-last (suc i) l rest ok)

case_begins-line :
    (h l rest : Bytes) → All (λ c. c ≢ 13) h → case_begins h (l ++ 13 ∷ rest) ≡ case_begins h l
unfolding case_begins
case_begins-line [] l rest ok = refl
case_begins-line (n ∷ ns) [] rest (ne, ok) = ground arith
case_begins-line (n ∷ ns) (c ∷ l) rest (ne, ok) = ground (arith, case_begins-line ns l rest ok)

case_begins_self : (l rest : Bytes) → case_begins (map to_lower l) (l ++ rest) ≡ true
unfolding case_begins
case_begins_self [] rest = refl
case_begins_self (c ∷ l) rest =
    let same : (to_lower c == to_lower c) ≡ true = (==_iff (to_lower c) (to_lower c)).1 refl in
    rw same (case_begins_self l rest)

-- A header that consists of lines that are not empty ends behind the last of them.
pub memmem-lines :
    (i : ℕ)
    → (l : Bytes) → (ls : List Bytes) → (body : Bytes) → IsHeaderLine l
    → All IsHeaderLine ls
    → memmem_from i (13 ∷ 10 ∷ 13 ∷ 10 ∷ []) (lines (l ∷ ls) ++ 13 ∷ 10 ∷ body)
      ≡ some (i + length (lines (l ∷ ls)) - 2)
memmem-lines i l [] body (lt, ok) all =
    ap (memmem_from i (13 ∷ 10 ∷ 13 ∷ 10 ∷ [])) (append_assoc l crlf (13 ∷ 10 ∷ body))
    ∙ memmem_from-last i l body ok
    ∙ ap some (omega (arith, length-append l crlf))
memmem-lines i l ([] ∷ ls) body (lt, ok) ((lt', _), all) = absurd (omega arith)
memmem-lines i l ((c ∷ m) ∷ ls) body (lt, ok) ((lt', (ne, ok')), all) =
    let rest : Bytes = c ∷ (m ++ 13 ∷ 10 ∷ lines ls) in
    ap (memmem_from i (13 ∷ 10 ∷ 13 ∷ 10 ∷ [])) (append_assoc l (13 ∷ 10 ∷ rest) (13 ∷ 10 ∷ body))
    ∙ memmem_from-line i l c ((m ++ 13 ∷ 10 ∷ lines ls) ++ 13 ∷ 10 ∷ body) ok ne
    ∙ memmem-lines (i + length l + 2) (c ∷ m) ls body (lt', (ne, ok')) all
    ∙ ap some (omega (arith, length-append l (13 ∷ 10 ∷ rest)))

-- A line that does not begin with the header, whatever the case of its letters.
abbrev pub IsOther : Bytes → Bytes → Type 0
IsOther header l = IsLine l × (case_begins header l ≡ false)

find-line :
    (fuel : ℕ)
    → (header l rest : Bytes) → length header ≤ length rest
    → 0 < length rest
    → All (λ c. c ≢ 13) header
    → IsOther header l
    → find (suc fuel) header (l ++ 13 ∷ 10 ∷ rest) ≡ find fuel header rest
unfolding find
find-line fuel header l rest fits more plain (ok, other) =
    let size : length (l ++ 13 ∷ 10 ∷ rest) ≡ length l + 2 + length rest =
      length-append l (13 ∷ 10 ∷ rest) ∙ omega arith in
    let long : ltb (length (l ++ 13 ∷ 10 ∷ rest)) (length header) ≡ false = ground (arith, size) in
    let not_it : case_begins header (l ++ 13 ∷ 10 ∷ rest) ≡ false =
      case_begins-line header l (10 ∷ rest) plain ∙ other in
    let not_last : (length l + 2 == length (l ++ 13 ∷ 10 ∷ rest)) ≡ false = ground (arith, size) in
    let next : drop (length l + 2) (l ++ 13 ∷ 10 ∷ rest) ≡ rest =
      ap (drop (length l + 2)) (sym (append_assoc l crlf rest))
      ∙ drop-append (length l + 2) (l ++ crlf) rest (sym (length-append l crlf)) in
    rw (long, not_it, memmem-crlf l rest ok) (rw not_last (ap (find fuel header) next))

pub length-lower : (h : Bytes) → length (map to_lower h) ≡ length h
length-lower [] = refl
length-lower (c ∷ h) = ap suc (length-lower h)

find-here :
    (fuel : ℕ) → (h rest : Bytes) → find (suc fuel) (map to_lower h) (h ++ rest) ≡ behind rest
unfolding find
find-here fuel h rest =
    let long : ltb (length (h ++ rest)) (length (map to_lower h)) ≡ false =
      ground (arith, length-append h rest, length-lower h) in
    rw (long, case_begins_self h rest)
      (ap behind (drop-append (length (map to_lower h)) h rest (length-lower h)))

-- The header is found in the first line that begins with it.
pub find-lines :
    (fuel : ℕ)
    → (header : Bytes) → (ls : List Bytes) → (h rest : Bytes) → length ls < fuel
    → map to_lower h ≡ header
    → 0 < length header
    → All (λ c. c ≢ 13) header
    → All (IsOther header) ls
    → find fuel header (lines ls ++ (h ++ rest)) ≡ behind rest
find-lines zero header ls h rest lt e some_header plain all = absurd (omega arith)
find-lines (suc fuel) header [] h rest lt e some_header plain all =
    subst (λ x. find (suc fuel) x (h ++ rest) ≡ behind rest) e (find-here fuel h rest)
find-lines (suc fuel) header (l ∷ ls) h rest lt e some_header plain (other, all) =
    let more : Bytes = lines ls ++ (h ++ rest) in
    let size : length header ≤ length more = omega (
      arith,
      length-append (lines ls) (h ++ rest),
      length-append h rest,
      length-lower h,
      ap length e,
    ) in
    ap (find (suc fuel) header) (append_assoc l (13 ∷ 10 ∷ lines ls) (h ++ rest))
    ∙ find-line fuel header l more size (omega arith) plain other
    ∙ find-lines fuel header ls h rest (omega arith) e some_header plain all
