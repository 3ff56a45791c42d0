-- ===== src/Net/HttpClient/Reply/First.antt =====
-- The first line of a response, which the regular expression of the header callback in
-- lib/net/HttpClient.cpp takes.
use reckoning.Common.{
  ℕ, ◌+◌, ◌-◌, ◌*◌, ◌≤◌, true, false, Option, none, some, [], ◌∷◌, ◌++◌, ◌≡◌, refl, ap, ◌∙◌, All,
  Bytes, arith, ◌>>=◌,
}
use reckoning.Common.Chars.{is_digit, is_alnum}
use reckoning.Common.Maps.{codes}
use reckoning.Net.HttpClient.Reply.{alnums, strip, match_version, match_status, match_line}

-- The digits of the version and of the status, the word behind them, and what follows the word.
pub record FirstLine : Type 0 where
  pub major : ℕ
  pub minor : Option ℕ
  pub hundreds : ℕ
  pub tens : ℕ
  pub ones : ℕ
  pub word : Bytes
  pub behind : Bytes

abbrev pub IsDigit : ℕ → Type 0
IsDigit c = (48 ≤ c) × (c ≤ 57)

abbrev pub IsMinor : Option ℕ → Type 0
IsMinor none = Unit {0}
IsMinor (some d) = IsDigit d

-- No letter or digit comes first.
abbrev pub IsBehind : Bytes → Type 0
IsBehind [] = Unit {0}
IsBehind (c ∷ cs) = is_alnum c ≡ false

abbrev pub IsFirstLine : FirstLine → Type 0
IsFirstLine f =
    IsDigit f.major
    × IsMinor f.minor
    × IsDigit f.hundreds
    × IsDigit f.tens
    × IsDigit f.ones
    × All (λ c. is_alnum c ≡ true) f.word
    × IsBehind f.behind

abbrev pub status_bytes : FirstLine → Bytes
status_bytes f = b' ' ∷ f.hundreds ∷ f.tens ∷ f.ones ∷ b' ' ∷ (f.word ++ f.behind)

abbrev pub version_bytes : Option ℕ → Bytes
version_bytes none = []
version_bytes (some d) = b'.' ∷ d ∷ []

abbrev pub first_line : FirstLine → Bytes
first_line f = codes "HTTP/" ++ f.major ∷ (version_bytes f.minor ++ status_bytes f)

-- The number that the three digits are.
abbrev pub status_of : FirstLine → ℕ
status_of f = (f.hundreds - b'0') * 100 + (f.tens - b'0') * 10 + (f.ones - b'0')

is_digit-IsDigit : (c : ℕ) → IsDigit c → is_digit c ≡ true
is_digit-IsDigit c h = ground arith

alnums-word :
    (cs behind : Bytes)
    → All (λ c. is_alnum c ≡ true) cs
    → IsBehind behind
    → alnums (cs ++ behind) ≡ cs
unfolding alnums
alnums-word [] [] all h = refl
alnums-word [] (c ∷ cs) all h = rw h refl
alnums-word (c ∷ cs) behind (ok, all) h = rw ok (ap (λ xs. c ∷ xs) (alnums-word cs behind all h))

match_version-minor :
    (c : ℕ)
    → (minor : Option ℕ) → (f : FirstLine) → IsDigit c
    → IsMinor minor
    → match_version (c ∷ (version_bytes minor ++ status_bytes f)) ≡ some (status_bytes f)
unfolding match_version
match_version-minor c none f h m = rw (is_digit-IsDigit c h) refl
match_version-minor c (some d) f h m = rw (is_digit-IsDigit c h, is_digit-IsDigit d m) refl

match_status-digits :
    (f : FirstLine) → IsFirstLine f → match_status (status_bytes f) ≡ some (status_of f, f.word)
unfolding match_status
match_status-digits f (_, _, a, b, c, word, behind) =
    rw
      (
        is_digit-IsDigit f.hundreds a,
        is_digit-IsDigit f.tens b,
        is_digit-IsDigit f.ones c,
        alnums-word f.word f.behind word behind,
      )
      refl

-- The regular expression finds the status and the word.
pub match_line-first :
    (f : FirstLine) → IsFirstLine f → match_line (first_line f) ≡ some (status_of f, f.word)
unfolding match_line strip
match_line-first f ok =
    ap (λ o. o >>= match_status) (match_version-minor f.major f.minor f ok.0 ok.1)
    ∙ match_status-digits f ok
