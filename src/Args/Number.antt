-- ===== src/Args/Number.antt =====
-- include/args/Parser.h, `guessValue`. strtoll(text, &end, 0) is written out after the C standard;
-- strtod is an argument that gives the number and the text behind it.
use reckoning.Common.{
  ℕ, zero, suc, ◌+◌, ◌-◌, ◌*◌, ◌^◌, Bool, true, false, ◌&&◌, ◌||◌, Option, none, some, [], ◌∷◌, ltb,
  leb, ◌==◌, if◌then◌else◌, Bytes,
}
use reckoning.Common.Chars.{is_space}
use reckoning.Common.Maps.{codes, ◌=bytes◌}
use reckoning.Args.{ℤ, pos, negsuc, Any, bool, int64, double, string}

unfoldable pub skip_space : Bytes → Bytes
skip_space [] = []
skip_space (c ∷ cs) = let rest = skip_space cs in if is_space c then rest else c ∷ cs

-- The value of a digit in the base, if it is one.
unfoldable pub digit : ℕ → ℕ → Option ℕ
digit base c =
    let d =
      if leb b'0' c && leb c b'9'
      then c - b'0'
      else if leb b'a' c && leb c b'z'
      then c - b'a' + 10
      else if leb b'A' c && leb c b'Z'
      then c - b'A' + 10
      else base in
    if ltb d base then some d else none

-- The digits at the front of the text: their value, and what follows them.
unfoldable pub digits : ℕ → ℕ → Bytes → ℕ × Bytes
unfolding digit
digits base acc [] = (acc, [])
digits base acc (c ∷ cs) = elim (digit base c) [
  | none ↦ (acc, c ∷ cs)
  | some d ↦ digits base (acc * base + d) cs
]

-- Is there a digit at the front?
abbrev starts_digit : ℕ → Bytes → Bool
starts_digit base [] = false
starts_digit base (c ∷ cs) = elim (digit base c) [ none ↦ false | some d ↦ true ]

-- Base 0: a prefix 0x before a digit means base 16, another 0 in front base 8.
unfoldable pub magnitude : Bytes → ℕ × Bytes
unfolding digits
magnitude (c ∷ x ∷ cs) =
    if c == b'0'
    then if (x == b'x' || x == b'X') && starts_digit 16 cs
      then digits 16 0 cs
      else digits 8 0 (c ∷ x ∷ cs)
    else digits 10 0 (c ∷ x ∷ cs)
magnitude cs = digits 10 0 cs

abbrev int64_max : ℕ
int64_max = 2 ^ 63 - 1

-- The sign is applied and the result saturates.
unfoldable pub signed : Bool → ℕ → ℤ
signed false n = if ltb int64_max n then pos int64_max else pos n
signed true zero = pos 0
signed true (suc n) = if ltb int64_max n then negsuc int64_max else negsuc n

after_sign : Bytes → Bool × Bytes
after_sign [] = (false, [])
after_sign (c ∷ cs) =
    if c == b'-' then (true, cs) else if c == b'+' then (false, cs) else (false, c ∷ cs)

-- The number, and the text at `endptr`: all of it where no digit was found.
unfoldable pub strtoll : Bytes → ℤ × Bytes
unfolding skip_space after_sign magnitude signed
strtoll text =
    let (minus, rest) = after_sign (skip_space text) in
    let (n, end) = magnitude rest in
    if starts_digit 10 rest then (signed minus n, end) else (pos 0, text)

abbrev ends : Bytes → Bool
ends [] = true
ends (c ∷ cs) = false

unfoldable pub guess_value : {D : Type 0} → (Bytes → D × Bytes) → Bytes → Any D
unfolding strtoll ◌=bytes◌
guess_value strtod val =
    if ends val
    then bool true
    else if val =bytes codes "true"
    then bool true
    else if val =bytes codes "false"
    then bool false
    else let (l, l_end) = strtoll val in
      let (d, d_end) = strtod val in
      if ends l_end then int64 l else if ends d_end then double d else string val
