-- ===== src/Buffer/Wait/Feed.antt =====
-- `feed` as a function of the bytes alone: no assertion of the buffers that it uses ever fails.
use reckoning.Common.{
  ℕ, ◌+◌, ◌≤◌, Bool, true, false, Option, none, some, ◌++◌, ◌≡◌, inl, inr, refl, ap, ◌∙◌, arith,
  ltb, if◌then◌else◌, Bool-cases, Bytes, length, length-append,
}
use reckoning.Buffer.{Buffer, max, contents, IsValid}
use reckoning.Buffer.Contents.{append-Holds, assign-Holds, length-contents}
use reckoning.Buffer.Source.{BufferSource}
use reckoning.Buffer.Wait.{
  search_needle, Wait, Emitted, widened, found_or_kept, feed_first, feed_more, feed_from, feed,
}

-- What goes out, and the bytes that wait, after bytes `chunk` behind those that wait.
abbrev pub Outcome : Type 0
Outcome = Option (Option Bytes × ℕ) × Option Bytes

unfoldable pub searched : Bool → Bytes → Option ℕ → Outcome
searched taken all none = (none, some all)
searched true all (some at) = (some (some all, at), none)
searched false all (some at) = (some (some all, at), some all)

-- The first chunk does not stay even where no handler takes it. Chunks that together exceed the
-- limit are given up with a null pointer.
unfoldable pub waits : ℕ → Bool → Bytes → Option Bytes → Bytes → Outcome
waits max_size taken needle none chunk = searched true chunk (search_needle needle chunk)
waits max_size taken needle (some old) chunk =
    if ltb max_size (length old + length chunk)
    then (some (none, 0), none)
    else searched taken (old ++ chunk) (search_needle needle (old ++ chunk))

abbrev pub view_buffer : Option Buffer → Option Bytes
view_buffer none = none
view_buffer (some b) = some (contents b)

abbrev pub view_out : Option Emitted → Option (Option Bytes × ℕ)
view_out none = none
view_out (some (b, at)) = some (view_buffer b, at)

abbrev pub Valid : Option Buffer → Type 0
Valid none = Unit {0}
Valid (some b) = IsValid b

-- A run of `feed` that ends as the bytes say.
abbrev pub Feeds {ℓ} : {S : Type ℓ} → Outcome → Bytes → Option (Option Emitted × Wait × S) → Type ℓ
Feeds {S = S} o needle r =
    (out : Option Emitted) × (w' : Wait) × (st' : S) × (r ≡ some (out, w', st'))
    × (view_out out ≡ o.0)
    × (view_buffer w'.buffer ≡ o.1)
    × Valid w'.buffer
    × (w'.needle ≡ needle)

module _ {S : Type 0} (max_size : ℕ) (source : BufferSource max_size S) where
  widened-room :
      (st : S) (old : Buffer) (n : ℕ)
      → IsValid old
      → old.size + n ≤ max_size
      → (b : Buffer) × (st' : S) × (widened max_size source st old ≡ some (b, st'))
        × (contents b ≡ contents old)
        × IsValid b
        × (b.size + n ≤ max b)
  unfolding widened
  widened-room st old n v h = elim (Bool-cases (ltb old.size max_size)) [
    | inl small ↦ elim (assign-Holds (contents old) (source.get st max_size).0) [
      | inl (full, e) ↦ absurd (omega (arith, length-contents old v, source.get_max st max_size))
      | inr (b, e, same, size, wide, le) ↦ (
        b,
        (source.get st max_size).1,
        rw small (rw e),
        same,
        omega arith,
        omega (arith, length-contents old v, source.get_max st max_size),
      )
    ]
    | inr full ↦ (old, st, rw full, refl, v, ground arith)
  ]

  found_or_kept-searched :
      (taken : Bool) (b : Buffer) (w : Wait) (found : Option ℕ)
      → IsValid b
      → let o = searched taken (contents b) found in
        let r = found_or_kept max_size source taken b w found in
        (view_out r.0 ≡ o.0)
        × (view_buffer r.1.buffer ≡ o.1)
        × Valid r.1.buffer
        × (r.1.needle ≡ w.needle)
  unfolding found_or_kept searched
  found_or_kept-searched taken b w none v = (refl, refl, v, refl)
  found_or_kept-searched true b w (some at) v = (refl, refl, tt, refl)
  found_or_kept-searched false b w (some at) v = (refl, refl, v, refl)

  feed_first-waits :
      (st : S) (taken : Bool) (b : Buffer) (w : Wait)
      → IsValid b
      → Feeds
          (waits max_size taken w.needle none (contents b))
          w.needle
          (feed_first max_size source st b w)
  unfolding feed_first waits
  feed_first-waits st taken b w v =
      let (o1, o2, o3, o4) =
        found_or_kept-searched true b w (search_needle w.needle (contents b)) v in
      (_, _, st, refl, o1, o2, o3, o4)

  feed_more-waits :
      (st : S) (taken : Bool) (old b : Buffer) (w : Wait)
      → IsValid old
      → IsValid b
      → Feeds
          (waits max_size taken w.needle (some (contents old)) (contents b))
          w.needle
          (feed_more max_size source st taken old b w)
  unfolding feed_more waits
  feed_more-waits st taken old b w v v' =
      let len = length-contents old v in
      let len' = length-contents b v' in
      elim (Bool-cases (ltb max_size (length (contents old) + length (contents b)))) [
        | inl over ↦ (
          some (none, 0),
          record w { buffer = none },
          st,
          ground arith,
          rw over,
          rw over,
          tt,
          refl,
        )
        | inr fits ↦
            let (wide, st', e, same, valid, room) = widened-room st old b.size v (ground arith) in
            elim (append-Holds (contents b) wide valid) [
              | inl (full, f) ↦ absurd (
                  omega
                    (arith, length-append (contents wide) (contents b), length-contents wide valid))
              | inr (all, f, both, size, w2, le) ↦
                  let joined : contents all ≡ contents old ++ contents b =
                    both ∙ ap (λ (t : Bytes). t ++ contents b) same in
                  let (o1, o2, o3, o4) =
                    found_or_kept-searched taken all w (search_needle w.needle (contents all))
                      (omega arith) in
                  let r =
                    found_or_kept max_size source taken all w
                      (search_needle w.needle (contents all)) in
                  let narrow : ltb max_size (old.size + b.size) ≡ false = ground arith in
                  (
                    r.0,
                    r.1,
                    st',
                    rw narrow (rw e (rw f)),
                    rw fits (
                        o1
                        ∙ ap (λ (t : Bytes). (searched taken t (search_needle w.needle t)).0)
                            joined),
                    rw fits (
                        o2
                        ∙ ap (λ (t : Bytes). (searched taken t (search_needle w.needle t)).1)
                            joined),
                    o3,
                    o4,
                  )
            ]
      ]

  feed_from-waits :
      (kept : Option Buffer) (st : S) (taken : Bool) (b : Buffer) (w : Wait)
      → IsValid b
      → Valid kept
      → Feeds
          (waits max_size taken w.needle (view_buffer kept) (contents b))
          w.needle
          (feed_from max_size source kept st taken b w)
  unfolding feed_from
  feed_from-waits none st taken b w v v' = feed_first-waits st taken b w v
  feed_from-waits (some old) st taken b w v v' = feed_more-waits st taken old b w v' v

  -- Feeding a valid buffer, where what waits is valid, never fails an assertion. It emits, and
  -- keeps waiting, as `waits` says: the bytes so far with the place where the needle first stands
  -- in them, or nothing, or, where they exceed the limit, a null pointer.
  pub feed-waits :
      (st : S) (taken : Bool) (b : Buffer) (w : Wait)
      → IsValid b
      → Valid w.buffer
      → Feeds
          (waits max_size taken w.needle (view_buffer w.buffer) (contents b))
          w.needle
          (feed max_size source st taken b w)
  feed-waits st taken b w v v' = feed_from-waits w.buffer st taken b w v v'
