-- ===== src/Serializer/Writing.antt =====
-- Writing never fails on a serializer that is open for it: the buffer grows as needed.
use reckoning.Common.{
  ℕ, ◌+◌, ◌≤◌, true, Option, none, some, [], ◌++◌, ◌≡◌, inl, inr, refl, ap, ◌∙◌, arith, leb, Bytes,
  length, length-append, Bool-cases,
}
use reckoning.Buffer.{Buffer, max, contents, IsValid, set_size}
use reckoning.Buffer.Contents.{append-Holds, length-contents}
use reckoning.Buffer.Source.{BufferSource}
use reckoning.Serializer.{Serializer, is_ready, empty_buffer, new_size, room_for, realloc, write}

-- The bytes in a serializer's buffer.
abbrev pub stored : Option Buffer → Bytes
stored none = []
stored (some b) = contents b

abbrev pub Valid : Option Buffer → Type 0
Valid none = Unit {0}
Valid (some b) = IsValid b

module _ {S : Type 0} (source : BufferSource 16384 S) where
  empty_buffer-room :
      (st : S) (sz : ℕ)
      → (b : Buffer) × (st' : S) × (empty_buffer source st sz ≡ some (b, st'))
        × (contents b ≡ [])
        × (max b ≡ Prim.Native.Nat.max sz 16384)
        × (b.size ≡ 0)
  unfolding empty_buffer set_size
  empty_buffer-room st sz = (
    record ((source.get st sz).0) { size = 0 },
    (source.get st sz).1,
    ground arith,
    refl,
    source.get_max st sz,
    refl,
  )

  new_size-le : (b : Buffer) (sz : ℕ) → b.size + sz ≤ new_size source b sz
  unfolding new_size
  new_size-le b sz = ground arith

  -- `realloc` keeps the bytes and makes room for `sz` more.
  pub realloc-room :
      (st : S) (sz : ℕ) (old : Option Buffer)
      → Valid old
      → (b : Buffer) × (st' : S) × (realloc source st sz old ≡ some (b, st'))
        × (contents b ≡ stored old)
        × IsValid b
        × (b.size + sz ≤ max b)
  unfolding realloc
  realloc-room st sz none v =
      let (b, st', e, bytes, room, empty) = empty_buffer-room st sz in
      (b, st', e, bytes, omega arith, omega arith)
  realloc-room st sz (some b) v =
      let (w, st', e, bytes, room, empty) = empty_buffer-room st (new_size source b sz) in
      let fits = new_size-le b sz in
      let len = length-contents b v in
      let total = length-append (contents w) (contents b) in
      let nothing = ap length bytes in
      elim (append-Holds (contents b) w (omega arith)) [
        | inl (full, _) ↦ absurd (omega arith)
        | inr (b', f, same, size, wide, le) ↦ (
          b',
          st',
          rw e (rw f),
          same ∙ ap (λ (t : Bytes). t ++ contents b) bytes,
          omega arith,
          omega arith,
        )
      ]

  room_for-room :
      (st : S) (sz : ℕ) (old : Option Buffer)
      → Valid old
      → (b : Buffer) × (st' : S) × (room_for source st sz old ≡ some (b, st'))
        × (contents b ≡ stored old)
        × IsValid b
        × (b.size + sz ≤ max b)
  unfolding room_for
  room_for-room st sz none v = realloc-room st sz none v
  room_for-room st sz (some b) v = elim (Bool-cases (leb (max b) (b.size + sz))) [
    | inl tight ↦ rw tight (realloc-room st sz (some b) v)
    | inr wide ↦ rw wide (b, st, refl, refl, v, ground arith)
  ]

  -- A write to a serializer that is ready and open for writing, whose buffer, if it has one, is
  -- valid, succeeds, whatever its buffer's room: it leaves a valid buffer with the bytes behind
  -- those written before.
  pub write-stored :
      (st : S) (src : Bytes) (s : Serializer)
      → is_ready s.valid ≡ true
      → s.mode.writes ≡ true
      → Valid s.buffer
      → (b : Buffer) × (st' : S) × (write source st src s
          ≡ some (record s { buffer = some b }, st'))
        × (contents b ≡ stored s.buffer ++ src)
        × IsValid b
  unfolding write
  write-stored st src s ready writes v =
      let (b, st', e, bytes, valid, room) = room_for-room st (length src) s.buffer v in
      let total = length-append (contents b) src in
      let len = length-contents b valid in
      elim (append-Holds src b valid) [
        | inl (full, _) ↦ absurd (omega arith)
        | inr (b', f, same, size, wide, le) ↦ (
          b',
          st',
          rw (ready, writes, e) (rw f),
          same ∙ ap (λ (t : Bytes). t ++ src) bytes,
          omega arith,
        )
      ]
