-- ===== src/Buffer/Slots.antt =====
-- include/buffer/Pool.h: a fixed number of buffers that are handed out while nobody else holds
-- them, and new buffers beyond that. include/pool/Pool.h is the same for any type of item.
-- A slot counts the references outside the pool.
use reckoning.Common.{
  ℕ, zero, suc, ◌+◌, ◌≤◌, ◌<◌, Bool, Option, none, some, List, [], ◌∷◌, ◌≡◌, ◌≢◌, ◌⊎◌, inl, inr,
  refl, arith, leb, ltb, if◌then◌else◌, Bool-cases, length, get_elem?, replicate, length-replicate,
  All,
}
use reckoning.Buffer.{Buffer, max, contents, IsValid, create, create_not_owned, set_size}
use reckoning.Buffer.Concat.{concat, concat_into, joined}
use reckoning.Buffer.Concat.Filled.{concat-contents, concat_into-fills}

pub record Slot : Type 0 where
  pub buffer : Buffer
  pub refs : ℕ

-- `isInUse()`: a third reference beside the pool's and the one the test itself takes.
abbrev pub in_use : Slot → Bool
in_use s = ltb 2 (2 + s.refs)

-- Where the buffer that `get` returns comes from.
pub data Got : Type 0 where
  pooled : ℕ → Buffer → Got
  created : Buffer → Got

abbrev pub buffer_of : Got → Buffer
buffer_of (pooled i b) = b
buffer_of (created b) = b

-- The constructor: NumberOfBuffers buffers of SizeOfBuffer bytes each, of unknown value.
unfoldable pub pool : ℕ → ℕ → ℕ → List Slot
unfolding create_not_owned
pool number size junk =
    replicate number (record { buffer = create_not_owned (replicate size junk); refs = 0 })

-- The first slot that is not in use, counted from `i`.
unfoldable pub first_free : ℕ → List Slot → Option (ℕ × Buffer)
first_free i [] = none
first_free i (s ∷ ss) = if in_use s then first_free (suc i) ss else some (i, s.buffer)

-- malloc: a block of unknown bytes.
fresh : ℕ → ℕ → Got
fresh junk n = created (create (replicate n junk))

-- `get(sz)`.
unfoldable pub get : ℕ → ℕ → ℕ → List Slot → Got
unfolding first_free fresh create
get size junk sz slots =
    let new = fresh junk (if ltb size sz then sz else size) in
    if leb sz size then elim (first_free 0 slots) [ some (i, b) ↦ pooled i b | none ↦ new ] else new

-- The reference that the caller gets, and the end of one.
unfoldable pub take_ref : Got → List Slot → List Slot
take_ref (created b) slots = slots
take_ref (pooled i b) [] = []
take_ref (pooled zero b) (s ∷ ss) = record s { refs = s.refs + 1 } ∷ ss
take_ref (pooled (suc i) b) (s ∷ ss) = s ∷ take_ref (pooled i b) ss

-- `concat(args...)`: into a buffer of the pool where the bytes fit, else into a new one.
unfoldable pub pool_concat : ℕ → ℕ → List Slot → List (Option Buffer) → Option Buffer
unfolding set_size
pool_concat size junk slots args =
    let buf = buffer_of (get size junk 0 slots) in
    let filled = concat_into size buf.memory args in
    if ltb 0 filled.0
    then set_size filled.0 (record buf { memory = filled.1 })
    else concat junk args

-- How a search of the slots ends: at a slot that nobody else holds, or with all of them held.
abbrev Searched : ℕ → List Slot → Option (ℕ × Buffer) → Type 0
Searched i slots r =
    ((r ≡ none) × All (λ (s : Slot). 0 < s.refs) slots)
    ⊎ ((k : ℕ) × (s : Slot) × (r ≡ some (i + k, s.buffer))
        × (get_elem? slots k ≡ some s)
        × (s.refs ≡ 0))

first_free-Searched : (i : ℕ) (slots : List Slot) → Searched i slots (first_free i slots)
unfolding first_free
first_free-Searched i [] = inl (refl, tt)
first_free-Searched i (s ∷ ss) = elim (Bool-cases (in_use s)) [
  | inl held ↦ rw held (elim (first_free-Searched (suc i) ss) [
    | inl (e, all) ↦ inl (e, (ground arith, all))
    | inr (k, t, e, at, free) ↦ inr (suc k, t, rw e (ground arith), at, free)
  ])
  | inr open_slot ↦ rw open_slot (inr (0, s, ground arith, refl, ground arith))
]

-- What `get` returns: a buffer of the pool that nobody else holds, or a new one, and a new one only
-- if the pool's buffers are too small or all held.
abbrev pub Gets : ℕ → ℕ → List Slot → Got → Type 0
Gets size sz slots g =
    ((i : ℕ) × (s : Slot) × (g ≡ pooled i s.buffer)
      × (get_elem? slots i ≡ some s)
      × (s.refs ≡ 0)
      × (sz ≤ size))
    ⊎ ((b : Buffer) × (g ≡ created b)
        × (max b ≡ Prim.Native.Nat.max sz size)
        × (b.size ≡ max b)
        × ((size < sz) ⊎ All (λ (s : Slot). 0 < s.refs) slots))

fresh-max :
    (junk size sz : ℕ)
    → (b : Buffer) × (fresh junk (if ltb size sz then sz else size) ≡ created b)
      × (max b ≡ Prim.Native.Nat.max sz size)
      × (b.size ≡ max b)
unfolding fresh create
fresh-max junk size sz = (
  create (replicate (if ltb size sz then sz else size) junk),
  refl,
  ground (arith, length-replicate (if ltb size sz then sz else size) junk),
  refl,
)

-- `get` lends a buffer of the pool that nobody else holds, and it does so only if the size asked
-- for is at most that of the pool's buffers; otherwise it makes a new buffer as large as the
-- greater of the two sizes, and only if the size asked for exceeds that of the pool's buffers or
-- all of them are held.
pub get-Gets : (size junk sz : ℕ) (slots : List Slot) → Gets size sz slots (get size junk sz slots)
unfolding get
get-Gets size junk sz slots =
    let (b, made, wide, full) = fresh-max junk size sz in
    elim (Bool-cases (leb sz size)) [
      | inl fits ↦ elim (first_free-Searched 0 slots) [
        | inl (e, all) ↦ inr (b, rw (fits, e, get) made, wide, full, inr all)
        | inr (k, s, e, at, free) ↦
            inl (k, s, rw (fits, e, get) (ground arith), at, free, ground arith)
      ]
      | inr large ↦ inr (b, rw large made, wide, full, inl (ground arith))
    ]

-- The pool's blocks are all of the same size, and its buffers are valid.
abbrev pub IsPool : ℕ → List Slot → Type 0
IsPool size = All (λ (s : Slot). (max s.buffer ≡ size) × IsValid s.buffer)

IsPool-get_elem? :
    (size i : ℕ) (slots : List Slot) (s : Slot)
    → IsPool size slots
    → get_elem? slots i ≡ some s
    → (max s.buffer ≡ size) × IsValid s.buffer
IsPool-get_elem? size i [] s p e = cc
IsPool-get_elem? size zero (t ∷ ts) s p e = ground arith
IsPool-get_elem? size (suc i) (t ∷ ts) s p e = IsPool-get_elem? size i ts s p.1 e

-- Whatever its origin, the buffer has room for `sz` bytes, and for SizeOfBuffer at least.
pub get-max :
    (size junk sz : ℕ) (slots : List Slot)
    → IsPool size slots
    → (max (buffer_of (get size junk sz slots)) ≡ Prim.Native.Nat.max sz size)
      × IsValid (buffer_of (get size junk sz slots))
get-max size junk sz slots p = elim (get-Gets size junk sz slots) [
  | inl (i, s, e, at, free, fits) ↦
      rw e (let q = IsPool-get_elem? size i slots s p at in (omega arith, q.1))
  | inr (b, e, wide, full, why) ↦ rw e (wide, omega arith)
]

pub pool-IsPool : (number size junk : ℕ) → IsPool size (pool number size junk)
unfolding pool create_not_owned
pool-IsPool number size junk = go number
  where
    go :
        (n : ℕ)
        → IsPool size
            (replicate n (record { buffer = create_not_owned (replicate size junk); refs = 0 }))
    go zero = tt
    go (suc n) = ((length-replicate size junk, omega arith), go n)

take_ref-held :
    (i j : ℕ) (b : Buffer) (slots : List Slot) (s : Slot)
    → get_elem? (take_ref (pooled i b) slots) j ≡ some s
    → s.refs ≡ 0
    → i ≢ j
unfolding take_ref
take_ref-held i j b [] s e z = cc
take_ref-held zero zero b (t ∷ ts) s e z = ground arith
take_ref-held zero (suc j) b (t ∷ ts) s e z = omega arith
take_ref-held (suc i) zero b (t ∷ ts) s e z = omega arith
take_ref-held (suc i) (suc j) b (t ∷ ts) s e z = λ h. take_ref-held i j b ts s e z (omega arith)

-- A buffer that the pool has lent is not the one that it lends next, while its holder keeps it.
pub get-distinct :
    (size junk sz sz' i j : ℕ) (b b' : Buffer) (slots : List Slot)
    → get size junk sz slots ≡ pooled i b
    → get size junk sz' (take_ref (pooled i b) slots) ≡ pooled j b'
    → i ≢ j
get-distinct size junk sz sz' i j b b' slots e e' =
    elim (get-Gets size junk sz' (take_ref (pooled i b) slots)) [
      | inl (k, s, f, at, free, fits) ↦
          let same : j ≡ k = ground arith in rw same (take_ref-held i k b slots s at free)
      | inr (c, f, wide, full, why) ↦ cc
    ]

-- In a pool of valid buffers of one positive size, concatenating arguments with at least one byte
-- among them gives a valid buffer that holds the bytes of all arguments, in order, whether they fit
-- a buffer of the pool or not.
pub pool_concat-contents :
    (size junk : ℕ) (slots : List Slot) (args : List (Option Buffer))
    → 0 < size
    → IsPool size slots
    → 0 < length (joined args)
    → (b : Buffer) × (pool_concat size junk slots args ≡ some b)
      × (contents b ≡ joined args)
      × IsValid b
unfolding pool_concat
pool_concat-contents size junk slots args pos p some_byte =
    let buf = buffer_of (get size junk 0 slots) in
    let room = get-max size junk 0 slots p in
    let n = length (joined args) in
    elim (concat_into-fills size buf.memory args pos (omega arith)) [
      | inl (fits, used, front, wide) ↦ (
        record buf { memory = (concat_into size buf.memory args).1; size = n },
        rw used (ground arith),
        front,
        omega arith,
      )
      | inr (over, zero_used) ↦ elim (concat-contents junk args) [
        | inl (z, e) ↦ absurd (omega arith)
        | inr (b, q, e, same, len, valid) ↦ (b, rw zero_used e, same, valid)
      ]
    ]
