-- ===== src/Util/Base64.antt =====
-- include/util/Base64.h: `encode` reads its input byte by byte into an array of three, and writes
-- four characters whenever the array is full. A null pointer is `none`.
pub mod Reference
pub mod Encoded
use reckoning.Common.Maps.{codes}
use reckoning.Common.{
  ℕ, zero, suc, ◌+◌, ◌-◌, ◌*◌, ◌/◌, ◌%◌, ◌≤◌, ◌<◌, Bool, true, false, Option, none, some, List, [],
  ◌∷◌, ◌++◌, ltb, ◌==◌, if◌then◌else◌, Bytes, length, get_elem?, take, bit_and,
}
use mathlib.Core.Option

-- `base64_chars[n]`.
unfoldable pub base64_chars : Bytes
base64_chars = codes "ABCDEFGHIJKLMNOPQRSTUVWXYZabcdefghijklmnopqrstuvwxyz0123456789+/"

unfoldable pub char_at : ℕ → ℕ
unfolding base64_chars
char_at n = Option.get_or (get_elem? base64_chars n) 0

-- `i`, `char_array_3` and what has been written through `out`.
pub record Coder : Type 0 where
  pub i : ℕ
  pub a0 : ℕ
  pub a1 : ℕ
  pub a2 : ℕ
  pub out : Bytes

-- `char_array_4` as the characters that it selects.
unfoldable pub quad : ℕ → ℕ → ℕ → Bytes
quad a b c =
    char_at (bit_and a 0xfc / 4)
    ∷ char_at (bit_and a 0x03 * 16 + bit_and b 0xf0 / 16)
    ∷ char_at (bit_and b 0x0f * 4 + bit_and c 0xc0 / 64)
    ∷ char_at (bit_and c 0x3f)
    ∷ []

-- `char_array_3[i++] = *(in++)`.
unfoldable pub store : ℕ → Coder → Coder
store x s =
    if s.i == 0
    then record s { i = s.i + 1; a0 = x }
    else if s.i == 1
    then record s { i = s.i + 1; a1 = x }
    else record s { i = s.i + 1; a2 = x }

-- One round of `while (inlen--)`.
unfoldable pub round : ℕ → Coder → Coder
unfolding store quad
round x s =
    let s' = store x s in
    if s'.i == 3 then record s' { i = 0; out = s'.out ++ quad s'.a0 s'.a1 s'.a2 } else s'

unfoldable pub rounds : Bytes → Coder → Coder
unfolding round
rounds [] s = s
rounds (x ∷ xs) s = rounds xs (round x s)

-- `while ((i++ < 3)) *(out++) = '='`.
unfoldable pub pad : ℕ → Bytes
pad i =
    if ltb i 1
    then b'=' ∷ b'=' ∷ b'=' ∷ []
    else if ltb i 2
    then b'=' ∷ b'=' ∷ []
    else if ltb i 3
    then b'=' ∷ []
    else []

-- `if (i) …`: the unused cells are cleared, and `i + 1` characters written and padded.
unfoldable pub finish : Coder → Bytes
unfolding quad pad
finish s =
    if s.i == 0
    then s.out
    else let b = if ltb s.i 2 then 0 else s.a1 in
      let c = if ltb s.i 3 then 0 else s.a2 in s.out ++ (take (s.i + 1) (quad s.a0 b c) ++ pad s.i)

-- The bytes needed for an input of this size.
unfoldable pub inflation : ℕ → ℕ
inflation n = if n % 3 == 0 then n / 3 * 4 else n / 3 * 4 + 4

-- `encode(input, inputSize, output, outputSize)`: the size returned and the bytes written.
unfoldable pub encode : Option Bytes → Option ℕ → ℕ × Bytes
unfolding rounds finish inflation
encode none output = (0, [])
encode (some input) none = (0, [])
encode (some input) (some output_size) =
    if ltb output_size (inflation (length input))
    then (0, [])
    else let out = finish (rounds input (record { i = 0; a0 = 0; a1 = 0; a2 = 0; out = [] })) in
      (length out, out)
