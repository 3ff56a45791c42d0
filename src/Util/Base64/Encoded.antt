-- ===== src/Util/Base64/Encoded.antt =====
-- The code's encoder against the reference: the same text, of the announced size, which decodes to
-- the input.
use reckoning.Common.{
  ℕ, ◌+◌, ◌*◌, ◌/◌, ◌%◌, ◌≤◌, ◌<◌, some, [], ◌∷◌, ◌++◌, append_assoc, append-nil, ◌≡◌, ◌⊎◌, inl,
  inr, refl, sym, ap, ap₂, ◌∙◌, arith, ltb, Bool-cases, Bytes, length, take, All,
}
use reckoning.Util.Base64.{char_at, Coder, quad, rounds, finish, inflation, encode}
use reckoning.Util.Base64.Reference.{
  group, reference, decode, value_of-char_at, char_at_pad, IsByte, quad-sextets,
}

at_start : ℕ → ℕ → ℕ → Bytes → Coder
at_start a b c out = record { i = 0; a0 = a; a1 = b; a2 = c; out = out }

finish-rounds :
    (xs : Bytes) (a b c : ℕ) (out : Bytes)
    → All IsByte xs
    → finish (rounds xs (at_start a b c out)) ≡ out ++ reference xs
unfolding finish rounds at_start reference
finish-rounds [] a b c out h = sym (append-nil out)
finish-rounds (x ∷ []) a b c out h =
    ap (λ (t : Bytes). out ++ (take 2 t ++ (b'=' ∷ b'=' ∷ [])))
      (quad-sextets x 0 0 h.0 (omega arith) (omega arith))
finish-rounds (x ∷ y ∷ []) a b c out h =
    ap (λ (t : Bytes). out ++ (take 3 t ++ (b'=' ∷ [])))
      (quad-sextets x y 0 h.0 h.1.0 (omega arith))
finish-rounds (x ∷ y ∷ z ∷ rest) a b c out h =
    finish-rounds rest x y z (out ++ quad x y z) h.1.1.1
    ∙ append_assoc out (quad x y z) (reference rest)
    ∙ ap (λ (t : Bytes). out ++ (t ++ reference rest)) (quad-sextets x y z h.0 h.1.0 h.1.1.0)

pub length-reference : (xs : Bytes) → length (reference xs) ≡ inflation (length xs)
unfolding reference inflation
length-reference [] = refl
length-reference (x ∷ []) = refl
length-reference (x ∷ y ∷ []) = refl
length-reference (x ∷ y ∷ z ∷ rest) = ground (arith, length-reference rest)

-- Of an input of bytes, where the output has room for the announced size, the code writes the RFC
-- 4648 text and returns its size, which is the announced one; otherwise it writes nothing and
-- returns 0.
pub encode-reference :
    (input : Bytes) (output_size : ℕ)
    → All IsByte input
    → ((inflation (length input) ≤ output_size)
        × (encode (some input) (some output_size) ≡ (inflation (length input), reference input)))
      ⊎ ((output_size < inflation (length input))
          × (encode (some input) (some output_size) ≡ (0, [])))
unfolding encode at_start
encode-reference input output_size h =
    elim (Bool-cases (ltb output_size (inflation (length input)))) [
      | inl small ↦ inr (ground arith, rw small)
      | inr wide ↦ inl (
        ground arith,
        rw wide (
            ap (λ (t : Bytes). (length t, t)) text
            ∙ ap (λ (n : ℕ). (n, reference input)) (length-reference input)),
      )
    ]
  where
    text : finish (rounds input (at_start 0 0 0 [])) ≡ reference input
    text = finish-rounds input 0 0 0 [] h

decode_full :
    (p q r s : ℕ) (rest bytes : Bytes)
    → p < 64
    → q < 64
    → r < 64
    → s < 64
    → decode rest ≡ some bytes
    → decode (char_at p ∷ char_at q ∷ char_at r ∷ char_at s ∷ rest)
      ≡ some ((p * 4 + q / 16) ∷ (q % 16 * 16 + r / 4) ∷ (r % 4 * 64 + s) ∷ bytes)
unfolding decode
decode_full p q r s rest bytes hp hq hr hs e = rw (
  value_of-char_at p hp,
  value_of-char_at q hq,
  char_at_pad r hr,
  value_of-char_at r hr,
  char_at_pad s hs,
  value_of-char_at s hs,
  e,
)

decode_two :
    (p q r : ℕ)
    → p < 64
    → q < 64
    → r < 64
    → decode (char_at p ∷ char_at q ∷ char_at r ∷ b'=' ∷ [])
      ≡ some ((p * 4 + q / 16) ∷ (q % 16 * 16 + r / 4) ∷ [])
unfolding decode
decode_two p q r hp hq hr =
    rw (value_of-char_at p hp, value_of-char_at q hq, char_at_pad r hr, value_of-char_at r hr)

decode_one :
    (p q : ℕ)
    → p < 64
    → q < 64
    → decode (char_at p ∷ char_at q ∷ b'=' ∷ b'=' ∷ []) ≡ some ((p * 4 + q / 16) ∷ [])
unfolding decode
decode_one p q hp hq = rw (value_of-char_at p hp, value_of-char_at q hq)

-- The bytes of a group from its sextets.
module _ (x y z : ℕ) (hx : IsByte x) (hy : IsByte y) (hz : IsByte z) where
  first_byte : group x y z / 262144 * 4 + group x y z / 4096 % 64 / 16 ≡ x
  first_byte = omega arith

  second_byte : group x y z / 4096 % 64 % 16 * 16 + group x y z / 64 % 64 / 4 ≡ y
  second_byte = omega arith

  third_byte : group x y z / 64 % 64 % 4 * 64 + group x y z % 64 ≡ z
  third_byte = omega arith

  top : group x y z / 262144 < 64
  top = omega arith

pub decode-reference : (xs : Bytes) → All IsByte xs → decode (reference xs) ≡ some xs
unfolding reference
decode-reference [] h = unfold decode in refl
decode-reference (x ∷ []) h =
    let zero_byte : IsByte 0 = omega arith in
    decode_one _ _ (top x 0 0 h.0 zero_byte zero_byte) (omega arith)
    ∙ ap (λ (t : ℕ). some (t ∷ [])) (first_byte x 0 0 h.0 zero_byte zero_byte)
decode-reference (x ∷ y ∷ []) h =
    let zero_byte : IsByte 0 = omega arith in
    decode_two _ _ _ (top x y 0 h.0 h.1.0 zero_byte) (omega arith) (omega arith)
    ∙ ap₂ (λ (t u : ℕ). some (t ∷ u ∷ [])) (first_byte x y 0 h.0 h.1.0 zero_byte)
        (second_byte x y 0 h.0 h.1.0 zero_byte)
decode-reference (x ∷ y ∷ z ∷ rest) h =
    decode_full _ _ _ _ (reference rest) rest (top x y z h.0 h.1.0 h.1.1.0) (omega arith)
      (omega arith) (omega arith) (decode-reference rest h.1.1.1)
    ∙ (λ i. some (
        first_byte x y z h.0 h.1.0 h.1.1.0 i
        ∷ second_byte x y z h.0 h.1.0 h.1.1.0 i
        ∷ third_byte x y z h.0 h.1.0 h.1.1.0 i
        ∷ rest))

-- Decoding by RFC 4648 what the code wrote of an input of bytes, into an output with enough room,
-- gives the input back.
pub decode-encode :
    (input : Bytes) (output_size : ℕ)
    → All IsByte input
    → inflation (length input) ≤ output_size
    → decode (encode (some input) (some output_size)).1 ≡ some input
decode-encode input output_size h room = elim (encode-reference input output_size h) [
  | inl (fits, e) ↦ rw e (decode-reference input h)
  | inr (small, e) ↦ absurd (omega arith)
]
