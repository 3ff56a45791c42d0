-- ===== src/Buffer/Contents.antt =====
-- What each operation of Buffer does to the bytes in use, on both sides of its assertion.
use reckoning.Common.{
  ℕ, ◌+◌, ◌-◌, ◌^◌, ◌≤◌, ◌<◌, Option, none, some, ◌++◌, append_assoc, ◌≡◌, ◌⊎◌, inl, inr, refl,
  arith, if◌then◌else◌, leb, Bool-cases, Bytes, length, take, drop, length-append, length-take,
  length-drop, take-append,
}
use reckoning.Buffer.{Buffer, max, contents, IsValid, copy_to, add_size, assign, append}

pub length-copy_to :
    (memory : Bytes) (at : ℕ) (src : Bytes)
    → at + length src ≤ length memory
    → length (copy_to memory at src) ≡ length memory
length-copy_to memory at src h = omega (
  arith,
  length-append (take at memory) (src ++ drop (at + length src) memory),
  length-append src (drop (at + length src) memory),
  length-take at memory,
  length-drop (at + length src) memory,
)

-- The bytes before the copy are kept, and the copied ones follow.
pub take-copy_to :
    (memory : Bytes) (at : ℕ) (src : Bytes)
    → at + length src ≤ length memory
    → take (at + length src) (copy_to memory at src) ≡ take at memory ++ src
take-copy_to memory at src h =
    rw (← append_assoc (take at memory) src (drop (at + length src) memory)) (
      take-append (at + length src) (take at memory ++ src) _
        (omega (arith, length-append (take at memory) src, length-take at memory)))

-- How an operation that puts bytes into a buffer ends: its assertion fails just when the bytes
-- in use would not fit, and otherwise they are `bytes`, in a block of the same length.
abbrev pub Holds : Buffer → Bytes → Option Buffer → Type 0
Holds b bytes r =
    ((max b < length bytes) × (r ≡ none))
    ⊎ ((b' : Buffer) × (r ≡ some b')
        × (contents b' ≡ bytes)
        × (b'.size ≡ length bytes)
        × (max b' ≡ max b)
        × (length bytes ≤ max b))

pub length-contents : (b : Buffer) → IsValid b → length (contents b) ≡ b.size
length-contents b v = omega (arith, length-take b.size b.memory)

-- Both operations copy `src` to an offset and end the used bytes behind it.
put-Holds :
    (b : Buffer) (at n : ℕ) (src : Bytes)
    → at ≤ max b
    → n ≡ at + length src
    → Holds b (take at b.memory ++ src) (
        if leb n (max b)
        then some (record b { memory = copy_to b.memory at src; size = n })
        else none)
put-Holds b at n src v e = elim (Bool-cases (leb n (max b))) [
  | inl fits ↦ rw fits (
      inr (
        record b { memory = copy_to b.memory at src; size = n },
        refl,
        rw e (take-copy_to b.memory at src (ground arith)),
        omega (arith, used),
        length-copy_to b.memory at src (ground arith),
        ground (arith, used),
      ))
  | inr full ↦ rw full (inl (ground (arith, used), refl))
]
  where
    used : length (take at b.memory ++ src) ≡ n
    used = omega (arith, length-append (take at b.memory) src, length-take at b.memory)

-- On a valid buffer, `append` adds the bytes behind those in use, or its assertion fails because
-- they do not fit.
pub append-Holds :
    (src : Bytes) (b : Buffer) → IsValid b → Holds b (contents b ++ src) (append src b)
unfolding append
append-Holds src b v = put-Holds b b.size (b.size + length src) src v refl

-- `assign` replaces the bytes in use, or its assertion fails because they do not fit.
pub assign-Holds : (src : Bytes) (b : Buffer) → Holds b src (assign src b)
unfolding assign
assign-Holds src b = put-Holds b 0 (length src) src (omega arith) (omega arith)

-- On a valid buffer of less than 2^63 bytes, `addSize` of a negative amount -k, for k up to the
-- size, takes k bytes off the end; of a larger one its assertion fails, although the code's
-- `mSize + delta >= 0` holds of every size_t.
pub add_size_negative :
    (k : ℕ) (b : Buffer)
    → IsValid b
    → max b < 2 ^ 63
    → 0 < k
    → k ≤ 2 ^ 63
    → ((k ≤ b.size) × (add_size (2 ^ 64 - k) b ≡ some (record b { size = b.size - k })))
      ⊎ ((b.size < k) × (add_size (2 ^ 64 - k) b ≡ none))
unfolding add_size
add_size_negative k b v small pos le = ground arith
