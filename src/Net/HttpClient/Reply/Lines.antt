-- ===== src/Net/HttpClient/Reply/Lines.antt =====
-- One line of a response, as the header callback of lib/net/HttpClient.cpp takes it.
use reckoning.Common.{
  ℕ, suc, ◌+◌, ◌-◌, ◌<◌, ◌≡◌, refl, sym, ap, ap₂, ◌∙◌, ◌≢◌, Bool, true, false, none, some, [], ◌∷◌,
  ◌++◌, leb, length, length-append, take, drop, take-append, drop-append, append_assoc, map, All,
  Bytes, arith,
}
use reckoning.Common.Chars.{to_lower}
use reckoning.Net.HttpClient.Headers.{add, line}
use reckoning.Net.HttpClient.Reply.{
  Reply, refused, taken, trim, find_split, is_first, header_line, other_line, last_line, strip,
  status_line, match_line, easy_header,
}

-- A name of a header: not empty and without a colon. A value: not empty and without white space at
-- its end.
abbrev pub IsName : Bytes → Type 0
IsName k = (0 < length k) × All (λ c. c ≢ b':') k

abbrev pub IsValue : Bytes → Type 0
IsValue v = (0 < length v) × (trim v ≡ length v)

trim-append : (xs ys : Bytes) → 0 < trim ys → trim (xs ++ ys) ≡ length xs + trim ys
unfolding trim
trim-append [] ys h = omega arith
trim-append (x ∷ xs) ys h = ground (arith, trim-append xs ys h)

trim-line_end : (xs : Bytes) → trim (xs ++ 13 ∷ 10 ∷ []) ≡ trim xs
unfolding trim
trim-line_end [] = refl
trim-line_end (x ∷ xs) = rw (trim-line_end xs) refl

find_split-line :
    (k rest : Bytes)
    → All (λ c. c ≢ b':') k
    → find_split (k ++ b':' ∷ b' ' ∷ rest) ≡ some (length k)
unfolding find_split
find_split-line [] rest all = refl
find_split-line (c ∷ []) rest (ne, all) = ground arith
find_split-line (c ∷ d ∷ k) rest (ne, all) = ground (arith, find_split-line (d ∷ k) rest all)

line-end : (k v : Bytes) → line k v ≡ (k ++ (b':' ∷ b' ' ∷ []) ++ v) ++ 13 ∷ 10 ∷ []
line-end k v =
    sym (append_assoc k (b':' ∷ b' ' ∷ []) (v ++ 13 ∷ 10 ∷ []))
    ∙ sym (append_assoc (k ++ b':' ∷ b' ' ∷ []) v (13 ∷ 10 ∷ []))

trim-line : (k v : Bytes) → IsValue v → trim (line k v) ≡ length k + 2 + length v
trim-line k v (lt, e) =
    ap trim (line-end k v)
    ∙ trim-line_end ((k ++ (b':' ∷ b' ' ∷ [])) ++ v)
    ∙ trim-append (k ++ b':' ∷ b' ' ∷ []) v (omega arith)
    ∙ omega (arith, e, length-append k (b':' ∷ b' ' ∷ []))

trim-line_empty : (k : Bytes) → trim (line k []) ≡ suc (length k)
unfolding trim
trim-line_empty k =
    ap trim (sym (append_assoc k (b':' ∷ b' ' ∷ []) (13 ∷ 10 ∷ [])))
    ∙ trim-line_end (k ++ b':' ∷ b' ' ∷ [])
    ∙ trim-append k (b':' ∷ b' ' ∷ []) (omega arith)
    ∙ omega arith

value-line : (k v : Bytes) → take (length v) (drop (length k + 2) (line k v)) ≡ v
value-line k v =
    ap (λ xs. take (length v) (drop (length k + 2) xs))
      (sym (append_assoc k (b':' ∷ b' ' ∷ []) (v ++ 13 ∷ 10 ∷ [])))
    ∙ ap (take (length v)) (
        drop-append (length k + 2) (k ++ b':' ∷ b' ' ∷ []) (v ++ 13 ∷ 10 ∷ [])
          (sym (length-append k (b':' ∷ b' ' ∷ []))))
    ∙ take-append (length v) v (13 ∷ 10 ∷ []) refl

easy_header-split :
    (alive : Bool)
    → (header : Bytes) → (n : ℕ) → (r : Reply) → is_first r ≡ false
    → find_split header ≡ some (suc n)
    → easy_header alive header r ≡ header_line (suc n) header r
unfolding easy_header
easy_header-split alive header n r e e' = rw (e, e')

header_line-trim :
    (n m : ℕ)
    → (header : Bytes) → (r : Reply) → trim header ≡ n + 2 + m
    → header_line n header r
      ≡ some (
          taken (record r {
            headers =
                r.headers ++ (map to_lower (take n header), take m (drop (n + 2) header)) ∷ [];
          }))
unfolding header_line add
header_line-trim n m header r e =
    let le : leb (n + 2) (trim header) ≡ true = ground arith in
    let size : trim header - (n + 2) ≡ m = omega arith in rw (le, size)

header_line-line :
    (k v : Bytes)
    → (r : Reply) → IsValue v
    → header_line (length k) (line k v) r
      ≡ some (taken (record r { headers = r.headers ++ (map to_lower k, v) ∷ [] }))
header_line-line k v r ok =
    header_line-trim (length k) (length v) (line k v) r (trim-line k v ok)
    ∙ ap₂ (λ a b. some (taken (record r { headers = r.headers ++ (map to_lower a, b) ∷ [] })))
        (take-append (length k) k (b':' ∷ b' ' ∷ (v ++ 13 ∷ 10 ∷ [])) refl) (value-line k v)

split-line :
    (alive : Bool)
    → (k v : Bytes) → (r : Reply) → IsName k
    → is_first r ≡ false
    → easy_header alive (line k v) r ≡ header_line (length k) (line k v) r
split-line alive [] v r (lt, all) e = absurd (omega arith)
split-line alive (c ∷ k) v r (lt, all) e =
    easy_header-split alive (line (c ∷ k) v) (length k) r e
      (find_split-line (c ∷ k) (v ++ 13 ∷ 10 ∷ []) all)

-- A header that `toString` prints is taken with its name in lower case and its value.
pub easy_header-line :
    (alive : Bool)
    → (k v : Bytes) → (r : Reply) → IsName k
    → IsValue v
    → is_first r ≡ false
    → easy_header alive (line k v) r
      ≡ some (taken (record r { headers = r.headers ++ (map to_lower k, v) ∷ [] }))
easy_header-line alive k v r name ok e = split-line alive k v r name e ∙ header_line-line k v r ok

too_short : (k : Bytes) → (r : Reply) → header_line (length k) (line k []) r ≡ none
unfolding header_line
too_short k r =
    let h : leb (length k + 2) (trim (line k [])) ≡ false = ground (arith, trim-line_empty k) in
    rw h

-- A header with a name and no value fails an assertion, in a response whose first line was taken.
pub easy_header-no_value :
    (alive : Bool)
    → (k : Bytes) → (r : Reply) → IsName k
    → is_first r ≡ false
    → easy_header alive (line k []) r ≡ none
easy_header-no_value alive k r name e = split-line alive k [] r name e ∙ too_short k r

pub easy_header-first :
    (alive : Bool)
    → (header : Bytes) → (r : Reply) → (status : ℕ) → (reason : Bytes) → is_first r ≡ true
    → match_line header ≡ some (status, reason)
    → easy_header alive header r ≡ some (taken (record r { status = status; reason = reason }))
unfolding easy_header status_line
easy_header-first alive header r status reason e e' = rw (e, e')

pub easy_header-last :
    (alive : Bool)
    → (r : Reply) → is_first r ≡ false
    → easy_header alive (13 ∷ 10 ∷ []) r ≡ some (last_line alive r)
unfolding easy_header find_split other_line
easy_header-last alive r e = rw e

not_first : (r : Reply) → r.status ≢ 0 → is_first r ≡ false
not_first r ne = ground arith

other_line-long :
    (alive : Bool)
    → (header : Bytes) → (r : Reply) → (x : ℕ × Bytes) → match_line header ≡ some x
    → other_line alive header r ≡ refused
unfolding other_line match_line strip
other_line-long alive [] r x e = refl
other_line-long alive (a ∷ []) r x e = refl
other_line-long alive (a ∷ b ∷ []) r x e = ground arith
other_line-long alive (a ∷ b ∷ c ∷ cs) r x e = refl

-- Where a response was emitted, whose status is kept (that of an interim one, such as 100, too),
-- the first line of the next response is refused, if there is no ": " in it.
pub easy_header-next :
    (alive : Bool)
    → (header : Bytes) → (r : Reply) → (x : ℕ × Bytes) → r.status ≢ 0
    → match_line header ≡ some x
    → find_split header ≡ none
    → easy_header alive header r ≡ some refused
unfolding easy_header
easy_header-next alive header r x ne e e' =
    rw (not_first r ne, e') (ap some (other_line-long alive header r x e))
