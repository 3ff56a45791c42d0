-- ===== src/Buffer/Builder.antt =====
-- include/buffer/Builder.h: text is appended to a buffer while it leaves room for a final zero
-- byte, which `flush` writes. The offset of the next byte is kept apart from the buffer's size.
use reckoning.Common.{
  ℕ, ◌+◌, ◌<◌, Bool, true, false, Option, none, some, List, [], ◌∷◌, ◌++◌, ◌≡◌, inl, inr, refl,
  subst, ap, ◌∙◌, arith, leb, if◌then◌else◌, Bool-cases, Bytes, length, take, set, length-append,
  ◌||◌, get_elem?, take-set, get_elem?-set_self, length-set,
}
use reckoning.Buffer.{Buffer, max, contents, copy_to, set_size}
use reckoning.Buffer.Contents.{length-copy_to, take-copy_to}

-- `flushed` says that `mData` is null.
pub record Builder : Type 0 where
  pub buffer : Buffer
  pub flushed : Bool
  pub offset : ℕ
  pub overflow : Bool

unfoldable pub builder : Buffer → Builder
builder b = record { buffer = b; flushed = false; offset = 0; overflow = false }

-- `operator<<` of a string of this many bytes; copying through the null pointer after a flush
-- is a fault.
unfoldable pub write : Bytes → Builder → Option Builder
write str w =
    if leb (max w.buffer) (w.offset + length str)
    then some (record w { overflow = true })
    else if w.flushed
    then none
    else some (record w {
      buffer = record (w.buffer) { memory = copy_to w.buffer.memory w.offset str };
      offset = w.offset + length str;
    })

-- `flush`, which the destructor calls too.
unfoldable pub flush : Builder → Option Builder
unfolding set_size
flush w =
    if w.flushed
    then some w
    else elim (set_size w.offset (record (w.buffer) { memory = set w.buffer.memory w.offset 0 })) [
      | none ↦ none
      | some b ↦ some (record w { buffer = b; flushed = true })
    ]

unfoldable pub write_all : List Bytes → Builder → Option Builder
write_all [] w = some w
write_all (s ∷ ss) w = elim (write s w) [ none ↦ none | some w' ↦ write_all ss w' ]

-- What the strings give if each that does not fit is left out, and whether one was.
unfoldable pub kept : ℕ → Bytes → List Bytes → Bytes
kept room done [] = done
kept room done (s ∷ ss) =
    kept room (if leb room (length done + length s) then done else done ++ s) ss

unfoldable pub left_out : ℕ → Bytes → List Bytes → Bool
left_out room done [] = false
left_out room done (s ∷ ss) =
    let over = leb room (length done + length s) in
    if over then true else left_out room (done ++ s) ss

pub record Built (done : Bytes) (lost : Bool) (room : ℕ) (w : Builder) : Type 0 where
  pub front : take w.offset w.buffer.memory ≡ done
  pub counted : w.offset ≡ length done
  pub below : w.offset < room
  pub block : max w.buffer ≡ room
  pub open_still : w.flushed ≡ false
  pub flagged : w.overflow ≡ lost

write-Built :
    (s done : Bytes) (lost : Bool) (room : ℕ) (w : Builder)
    → Built done lost room w
    → (w' : Builder) × (write s w ≡ some w')
      × Built
          (if leb room (length done + length s) then done else done ++ s)
          (if leb room (length done + length s) then true else lost)
          room
          w'
unfolding write
write-Built s done lost room w b = elim (Bool-cases (leb room (length done + length s))) [
  | inl over ↦ (
    record w { overflow = true },
    ground arith,
    rw over (record {
      front = b.front;
      counted = b.counted;
      below = b.below;
      block = b.block;
      open_still = b.open_still;
      flagged = refl;
    }),
  )
  | inr fits ↦ (
    record w {
      buffer = record (w.buffer) { memory = copy_to w.buffer.memory w.offset s };
      offset = w.offset + length s;
    },
    ground arith,
    rw fits (record {
      front =
          take-copy_to w.buffer.memory w.offset s (ground arith)
          ∙ ap (λ (t : Bytes). t ++ s) b.front;
      counted = omega (arith, length-append done s);
      below = ground arith;
      block = length-copy_to w.buffer.memory w.offset s (ground arith) ∙ b.block;
      open_still = b.open_still;
      flagged = b.flagged;
    }),
  )
]

write_all-Built :
    (ss : List Bytes) (done : Bytes) (lost : Bool) (room : ℕ) (w : Builder)
    → Built done lost room w
    → (w' : Builder) × (write_all ss w ≡ some w')
      × Built (kept room done ss) (lost || left_out room done ss) room w'
unfolding write_all kept left_out
write_all-Built [] done lost room w b = (w, refl, rw or_false b)
  where
    or_false : (lost || false) ≡ lost
    or_false = ground arith
write_all-Built (s ∷ ss) done lost room w b =
    let (v, e, built) = write-Built s done lost room w b in
    elim (Bool-cases (leb room (length done + length s))) [
      | inl over ↦
          let (w', e', last) = write_all-Built ss done true room v (rw over at built) in
          rw over (
            w',
            rw (e, write_all) e',
            subst (λ x. Built (kept room done ss) x room w') (ground arith) last,
          )
      | inr fits ↦
          let (w', e', last) = write_all-Built ss (done ++ s) lost room v (rw fits at built) in
          rw fits (w', rw (e, write_all) e', last)
    ]

-- A builder over a buffer with a block takes the strings that fit, each whole and in order, with a
-- byte to spare; after `flush` the buffer holds just those, a zero byte stands behind them, and
-- `overflow` says whether a string was left out.
pub flush-kept :
    (b : Buffer) (ss : List Bytes)
    → 0 < max b
    → (w w' : Builder) × (write_all ss (builder b) ≡ some w)
      × (flush w ≡ some w')
      × (contents w'.buffer ≡ kept (max b) [] ss)
      × (w'.overflow ≡ left_out (max b) [] ss)
      × (get_elem? w'.buffer.memory w'.buffer.size ≡ some 0)
      × (max w'.buffer ≡ max b)
unfolding builder flush
flush-kept b ss pos =
    let (w, e, built) = write_all-Built ss [] false (max b) (builder b) (record {
      front = refl;
      counted = refl;
      below = pos;
      block = refl;
      open_still = refl;
      flagged = refl;
    }) in
    let ended = set w.buffer.memory w.offset 0 in
    let wide = length-set w.buffer.memory w.offset 0 in
    let room : w.offset < length w.buffer.memory = omega (arith, built.below, built.block) in
    (
      w,
      record w { buffer = record (w.buffer) { memory = ended; size = w.offset }; flushed = true },
      e,
      rw built.open_still (ground (arith, wide)),
      take-set w.offset w.buffer.memory 0 ∙ built.front,
      built.flagged,
      get_elem?-set_self w.buffer.memory w.offset 0 room,
      wide ∙ built.block,
    )
