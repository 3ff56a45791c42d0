-- ===== src/Util/Base64/Reference.antt =====
-- Base 64 as RFC 4648 describes it, by groups of three bytes, and its inverse.
use reckoning.Common.{Bool-cases, inl, inr}
use reckoning.Common.{
  ℕ, zero, suc, ◌+◌, ◌*◌, ◌/◌, ◌%◌, ◌<◌, Bool, true, false, not, Option, none, some, [], ◌∷◌, ◌++◌,
  ◌≡◌, refl, arith, ◌==◌, ==_iff, if◌then◌else◌, ◌>>=◌, ◌>>◌, guard, Bytes, bit_and,
}
use reckoning.Util.Base64.{base64_chars, char_at, quad}

-- The characters of a 24-bit group, six bits each.
abbrev pub sextets : ℕ → Bytes
sextets n =
    char_at (n / 262144) ∷ char_at (n / 4096 % 64) ∷ char_at (n / 64 % 64) ∷ char_at (n % 64) ∷ []

abbrev pub group : ℕ → ℕ → ℕ → ℕ
group a b c = a * 65536 + b * 256 + c

unfoldable pub reference : Bytes → Bytes
reference [] = []
reference (a ∷ []) =
    let n = group a 0 0 in char_at (n / 262144) ∷ char_at (n / 4096 % 64) ∷ b'=' ∷ b'=' ∷ []
reference (a ∷ b ∷ []) =
    let n = group a b 0 in
    char_at (n / 262144) ∷ char_at (n / 4096 % 64) ∷ char_at (n / 64 % 64) ∷ b'=' ∷ []
reference (a ∷ b ∷ c ∷ rest) = sextets (group a b c) ++ reference rest

-- The value of a character, by its place in the alphabet.
index_from : ℕ → ℕ → Bytes → Option ℕ
index_from x i [] = none
index_from x i (c ∷ cs) = if x == c then some i else index_from x (suc i) cs

unfoldable pub value_of : ℕ → Option ℕ
unfolding index_from base64_chars
value_of x = index_from x 0 base64_chars

-- Decoding, four characters at a time; padding may end the text.
unfoldable pub decode : Bytes → Option Bytes
decode [] = some []
decode (p ∷ q ∷ r ∷ s ∷ rest) = do
  let later = decode rest
  a ← value_of p
  b ← value_of q
  if r == b'=' then (do guard (s == b'='); some ((a * 4 + b / 16) ∷ [])) else (do
    c ← value_of r
    if s == b'=' then some ((a * 4 + b / 16) ∷ (b % 16 * 16 + c / 4) ∷ []) else (do
      d ← value_of s
      bytes ← later
      some ((a * 4 + b / 16) ∷ (b % 16 * 16 + c / 4) ∷ (c % 4 * 64 + d) ∷ bytes)))
decode _ = none

-- How many values below a bound fail a test; where none does, each of them passes.
failures : (ℕ → Bool) → ℕ → ℕ
failures test zero = 0
failures test (suc bound) = if test bound then failures test bound else suc (failures test bound)

passes :
    (test : ℕ → Bool) (bound : ℕ)
    → failures test bound ≡ 0
    → (value : ℕ) → value < bound
    → test value ≡ true
unfolding failures
passes test zero none_fails value below = absurd (omega arith)
passes test (suc bound) none_fails value below = elim (Bool-cases (test bound)) [
  | inl good ↦ elim (Bool-cases (value == bound)) [
    | inl last ↦ ground arith
    | inr earlier ↦ passes test bound (ground (arith, good)) value (ground arith)
  ]
  | inr bad ↦ ground arith
]

by_table : (n : ℕ) (f g : ℕ → ℕ) (x : ℕ) → failures (λ x. f x == g x) n ≡ 0 → x < n → f x ≡ g x
by_table n f g x table h = (==_iff (f x) (g x)).0 (passes (λ x. f x == g x) n table x h)

abbrev has_value : ℕ → Option ℕ → Bool
has_value n none = false
has_value n (some m) = m == n

has_value_eq : (n : ℕ) (o : Option ℕ) → has_value n o ≡ true → o ≡ some n
has_value_eq n none e = cc
has_value_eq n (some m) e = ground arith

value_table : failures (λ n. has_value n (value_of (char_at n))) 64 ≡ 0
unfolding failures value_of char_at
value_table = refl

pub value_of-char_at : (n : ℕ) → n < 64 → value_of (char_at n) ≡ some n
value_of-char_at n h =
    has_value_eq n _ (passes (λ n. has_value n (value_of (char_at n))) 64 value_table n h)

pad_table : failures (λ n. not (char_at n == b'=')) 64 ≡ 0
unfolding failures char_at
pad_table = refl

-- No digit is the padding character.
pub char_at_pad : (n : ℕ) → n < 64 → (char_at n == b'=') ≡ false
char_at_pad n h = ground (arith, passes (λ n. not (char_at n == b'=')) 64 pad_table n h)

abbrev pub IsByte : ℕ → Type 0
IsByte x = x < 256

high_six : (x : ℕ) → x < 256 → bit_and x 0xfc / 4 ≡ x / 4
unfolding failures
high_six x = by_table 256 (λ x. bit_and x 0xfc / 4) (λ x. x / 4) x refl

low_two : (x : ℕ) → x < 256 → bit_and x 0x03 ≡ x % 4
unfolding failures
low_two x = by_table 256 (λ x. bit_and x 0x03) (λ x. x % 4) x refl

high_four : (x : ℕ) → x < 256 → bit_and x 0xf0 / 16 ≡ x / 16
unfolding failures
high_four x = by_table 256 (λ x. bit_and x 0xf0 / 16) (λ x. x / 16) x refl

low_four : (x : ℕ) → x < 256 → bit_and x 0x0f ≡ x % 16
unfolding failures
low_four x = by_table 256 (λ x. bit_and x 0x0f) (λ x. x % 16) x refl

high_two : (x : ℕ) → x < 256 → bit_and x 0xc0 / 64 ≡ x / 64
unfolding failures
high_two x = by_table 256 (λ x. bit_and x 0xc0 / 64) (λ x. x / 64) x refl

low_six : (x : ℕ) → x < 256 → bit_and x 0x3f ≡ x % 64
unfolding failures
low_six x = by_table 256 (λ x. bit_and x 0x3f) (λ x. x % 64) x refl

-- The masks and shifts of the code cut a group into its sextets.
pub quad-sextets : (a b c : ℕ) → IsByte a → IsByte b → IsByte c → quad a b c ≡ sextets (group a b c)
unfolding quad
quad-sextets a b c ha hb hc =
    rw (high_six a ha, low_two a ha, high_four b hb, low_four b hb, high_two c hc, low_six c hc)
      (λ i. char_at (first i) ∷ char_at (second i) ∷ char_at (third i) ∷ char_at (fourth i) ∷ [])
  where
    first : a / 4 ≡ group a b c / 262144
    first = omega arith

    second : a % 4 * 16 + b / 16 ≡ group a b c / 4096 % 64
    second = omega arith

    third : b % 16 * 4 + c / 64 ≡ group a b c / 64 % 64
    third = omega arith

    fourth : c % 64 ≡ group a b c % 64
    fourth = omega arith
