-- ===== src/Buffer/Wait.antt =====
-- include/buffer/Wait.h: buffers are collected until a needle is found in what came so far.
pub mod Search
pub mod Feed
mod Tests
use reckoning.Common.{
  ℕ, zero, suc, ◌+◌, ◌≤◌, ◌<◌, Bool, true, false, ◌&&◌, Option, none, some, List, [], ◌∷◌, ◌++◌,
  ◌≡◌, ◌≢◌, ◌⊎◌, inl, inr, refl, sym, ap, subst, ◌∙◌, arith, ltb, leb, ◌==◌, if◌then◌else◌, ◌>>=◌,
  ◌>>◌, Bool-cases, Option-cases, Bytes, length, take, drop, length-append, ==_iff,
}
use reckoning.Buffer.{Buffer, max, contents, IsValid, assign, append}
use reckoning.Buffer.Contents.{Holds, append-Holds, assign-Holds, length-contents}
use reckoning.Buffer.Source.{BufferSource}

-- Does the text begin with the needle?
unfoldable pub begins : Bytes → Bytes → Bool
begins [] text = true
begins (n ∷ ns) [] = false
begins (n ∷ ns) (c ∷ cs) = n == c && begins ns cs

-- memmem: the place of the needle's first occurrence.
unfoldable pub memmem_from : ℕ → Bytes → Bytes → Option ℕ
unfolding begins
memmem_from i needle [] = if begins needle [] then some i else none
memmem_from i needle (c ∷ cs) =
    let later = memmem_from (suc i) needle cs in if begins needle (c ∷ cs) then some i else later

unfoldable pub memmem : Bytes → Bytes → Option ℕ
unfolding memmem_from
memmem text needle = memmem_from 0 needle text

-- The search that `feed` makes, where the text is long enough to hold the needle.
unfoldable pub search_needle : Bytes → Bytes → Option ℕ
search_needle needle text = if leb (length needle) (length text) then memmem text needle else none

pub record Wait : Type 0 where
  pub buffer : Option Buffer
  pub needle : Bytes

-- What goes out by the signal: a buffer, or a null pointer, and a position.
abbrev pub Emitted : Type 0
Emitted = Option Buffer × ℕ

module _ {S : Type 0} (max_size : ℕ) (source : BufferSource max_size S) where
  -- The old bytes in a buffer of the pool, unless the old buffer is full.
  unfoldable pub widened : S → Buffer → Option (Buffer × S)
  widened st old =
      if ltb old.size max_size
      then (do
        let got = source.get st max_size
        wide ← assign (contents old) got.0
        some (wide, got.1))
      else some (old, st)

  -- The flag says whether a handler takes the buffer that is emitted: `emit` moves from it only
  -- then.
  unfoldable pub found_or_kept : Bool → Buffer → Wait → Option ℕ → Option Emitted × Wait
  found_or_kept taken b w none = (none, record w { buffer = some b })
  found_or_kept true b w (some at) = (some (some b, at), record w { buffer = none })
  found_or_kept false b w (some at) = (some (some b, at), record w { buffer = some b })

  -- The first buffer is kept as it is; if the needle is in it, it is emitted and never kept.
  unfoldable pub feed_first : S → Buffer → Wait → Option (Option Emitted × Wait × S)
  feed_first st b w =
      let (out, w') = found_or_kept true b w (search_needle w.needle (contents b)) in
      some (out, w', st)

  unfoldable pub feed_more : S → Bool → Buffer → Buffer → Wait → Option (Option Emitted × Wait × S)
  feed_more st taken old b w =
      if ltb max_size (old.size + b.size)
      then some (some (none, 0), record w { buffer = none }, st)
      else do
        (wide, st') ← widened st old
        all ← append (contents b) wide
        let (out, w') = found_or_kept taken all w (search_needle w.needle (contents all))
        some (out, w', st')

  -- `feed(buffer)`: what is emitted, and the state after it. `kept` is `mBuffer`.
  unfoldable pub feed_from :
      Option Buffer → S → Bool → Buffer → Wait → Option (Option Emitted × Wait × S)
  feed_from none st taken b w = feed_first st b w
  feed_from (some old) st taken b w = feed_more st taken old b w

  abbrev pub feed : S → Bool → Buffer → Wait → Option (Option Emitted × Wait × S)
  feed st taken b w = feed_from w.buffer st taken b w
