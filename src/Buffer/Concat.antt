-- ===== src/Buffer/Concat.antt =====
-- include/buffer/Buffer.h, the two `Buffer::concat` over detail::Concat: the one that grows its
-- block by realloc (MaxSize 0) and the one that fills a given block of MaxSize bytes.
pub mod Filled
use reckoning.Common.{
  ℕ, zero, suc, ◌+◌, ◌-◌, ◌*◌, ◌≤◌, ◌<◌, Bool, true, false, Option, none, some, List, [], ◌∷◌, ◌++◌,
  append_assoc, append-nil, ◌≡◌, ◌⊎◌, inl, inr, refl, ap, ◌∙◌, arith, ltb, ◌==◌, if◌then◌else◌,
  Bytes, length, take, replicate, length-append, length-replicate, take-append_le,
}
use reckoning.Buffer.{Buffer, contents, IsValid, create, set_size, copy_to}
use reckoning.Buffer.Contents.{length-copy_to, take-copy_to}

-- The three references that Concat threads; `blob` is a null pointer where `null` says so.
pub record Joined : Type 0 where
  pub blob : Bytes
  pub null : Bool
  pub used : ℕ
  pub size : ℕ

-- `first ? first->size() : 0`, and the bytes that memcpy reads.
abbrev pub source : Option Buffer → Bytes
source none = []
source (some b) = contents b

-- realloc(blob, n): the old bytes, then bytes of unknown value, here `junk`.
abbrev pub realloc : ℕ → ℕ → Bytes → Bytes
realloc junk n blob = blob ++ replicate (n - length blob) junk

unfoldable pub write_at : Bytes → Joined → Joined
write_at src s = record s { blob = copy_to s.blob s.used src; used = s.used + length src }

-- The blob is given up: the recursion of Concat ends here.
unfoldable pub give_up : Joined → Joined
give_up s = record s { null = true }

unfoldable pub grow : ℕ → ℕ → Joined → Joined
grow junk fsz s = record s {
  blob = realloc junk (s.size + fsz * 2) s.blob;
  null = false;
  size = s.size + fsz * 2;
}

-- One argument; the flag says whether the remaining ones are handled.
unfoldable pub join_one : ℕ → ℕ → Bytes → Joined → Joined × Bool
unfolding write_at give_up grow
join_one max_size junk src s =
    if ltb 0 (length src)
    then (if ltb s.size (s.used + length src)
        then (if max_size == 0
            then (write_at src (grow junk (length src) s), true)
            else (give_up s, false))
        else (write_at src s, true))
    else (s, true)

unfoldable pub join : ℕ → ℕ → List (Option Buffer) → Joined → Joined
unfolding join_one
join max_size junk [] s = s
join max_size junk (first ∷ rest) s =
    let (s', goes_on) = join_one max_size junk (source first) s in
    let later = join max_size junk rest s' in if goes_on then later else s'

-- `concat(args...)` into a new block; `none` where no argument has a byte (the assertion).
unfoldable pub concat : ℕ → List (Option Buffer) → Option Buffer
unfolding join create set_size
concat junk args =
    let s = join 0 junk args (record { blob = []; null = true; used = 0; size = 0 }) in
    if s.null then none else set_size s.used (create s.blob)

-- `concat<MaxSize>(b, args...)`: the length returned, 0 on overflow, and the block after it.
unfoldable pub concat_into : ℕ → Bytes → List (Option Buffer) → ℕ × Bytes
unfolding join
concat_into max_size block args =
    let s =
      join max_size 0 args (record { blob = block; null = false; used = 0; size = max_size }) in
    (if s.null then 0 else s.used, s.blob)

-- All bytes of the arguments, in order.
abbrev pub joined : List (Option Buffer) → Bytes
joined [] = []
joined (first ∷ rest) = source first ++ joined rest
