-- ===== src/Serializer/RoundTrip.antt =====
-- What was written is read back.
use reckoning.Common.{
  ℕ, ◌+◌, ◌^◌, ◌<◌, true, false, Option, none, some, List, [], ◌∷◌, ◌++◌, map, append_assoc,
  append-nil, ◌≡◌, refl, sym, ap, ◌∙◌, arith, leb, ◌==◌, Bytes, length, take, drop, length-append,
  take-append, drop-append, take-append-drop, All,
}
use reckoning.Buffer.{Buffer, contents, IsValid}
use reckoning.Buffer.Contents.{length-contents}
use reckoning.Buffer.Source.{BufferSource}
use reckoning.Serializer.Numbers.{length-le_bytes, from_le-le_bytes}
use reckoning.Serializer.Writing.{stored, Valid, realloc-room, write-stored}
use reckoning.Serializer.{
  Serializer, no_data, is_ready, le_bytes, from_le, Item, num, str, kind, read, open_new,
  open_buffer, put, put_all, take_item, take_all,
}

-- The bytes that stand for an item, and for a list of items.
unfoldable pub encode : Item → Bytes
encode (num w n) = le_bytes w n
encode (str t) = le_bytes 8 (length t) ++ t

abbrev pub encode_all : List Item → Bytes
encode_all [] = []
encode_all (i ∷ is) = encode i ++ encode_all is

-- A number fits its type, and a string's length fits a size_t.
abbrev pub Fits : Item → Type 0
Fits (num w n) = n < 256 ^ w
Fits (str t) = length t < 256 ^ 8

module _ {S : Type 0} (source : BufferSource 16384 S) where
  put-stored :
      (st : S) (i : Item) (s : Serializer)
      → is_ready s.valid ≡ true
      → s.mode.writes ≡ true
      → Valid s.buffer
      → (b : Buffer) × (st' : S) × (put source st i s ≡ some (record s { buffer = some b }, st'))
        × (contents b ≡ stored s.buffer ++ encode i)
        × IsValid b
  unfolding put encode
  put-stored st (num w n) s ready writes v = write-stored source st (le_bytes w n) s ready writes v
  put-stored st (str t) s ready writes v =
      let (b, st', e, bytes, valid) =
        write-stored source st (le_bytes 8 (length t)) s ready writes v in
      let (b', st'', e', bytes', valid') =
        write-stored source st' t (record s { buffer = some b }) ready writes valid in
      (
        b',
        st'',
        rw e e',
        bytes' ∙ rw bytes (append_assoc (stored s.buffer) (le_bytes 8 (length t)) t),
        valid',
      )

  -- Every list of items can be written, and stands behind what the buffer held before.
  pub put_all-stored :
      (st : S) (is : List Item) (s : Serializer)
      → is_ready s.valid ≡ true
      → s.mode.writes ≡ true
      → Valid s.buffer
      → (old : Option Buffer) × (st' : S) × (put_all source st is s
          ≡ some (record s { buffer = old }, st'))
        × (stored old ≡ stored s.buffer ++ encode_all is)
        × Valid old
  unfolding put_all
  put_all-stored st [] s ready writes v = (s.buffer, st, refl, sym (append-nil _), v)
  put_all-stored st (i ∷ is) s ready writes v =
      let (b, st', e, bytes, valid) = put-stored st i s ready writes v in
      let (old, st'', e', all, valid') =
        put_all-stored st' is (record s { buffer = some b }) ready writes valid in
      (
        old,
        st'',
        rw e e',
        all ∙ rw bytes (append_assoc (stored s.buffer) (encode i) (encode_all is)),
        valid',
      )

-- A serializer that has read `done` of its buffer, with `rest` before it.
record Reading (done rest : Bytes) (s : Serializer) : Type 0 where
  buffer : Buffer
  at : s.buffer ≡ some buffer
  split : contents buffer ≡ done ++ rest
  here : s.read_pos ≡ length done
  valid : IsValid buffer
  ready : is_ready s.valid ≡ true
  reads : s.mode.reads ≡ true

read-Reading :
    (n : ℕ) (done src rest : Bytes) (s : Serializer)
    → n ≡ length src
    → Reading done (src ++ rest) s
    → (s' : Serializer) × (read n s ≡ some (src, s')) × Reading (done ++ src) rest s'
unfolding read
read-Reading n done src rest s e r = (
  record s { read_pos = s.read_pos + n },
  ground (arith, fits, bytes),
  record {
    buffer = b;
    at = r.at;
    split = r.split ∙ sym (append_assoc done src rest);
    here = omega (arith, length-append done src, r.here);
    valid = r.valid;
    ready = r.ready;
    reads = r.reads;
  },
)
  where
    b : Buffer
    b = r.buffer

    total : b.size ≡ length done + (length src + length rest)
    total = omega (
      arith,
      length-contents b r.valid,
      ap length r.split,
      length-append done (src ++ rest),
      length-append src rest,
    )

    fits : leb (s.read_pos + n) b.size ≡ true
    fits = ground (arith, total, r.here)

    whole : b.memory ≡ done ++ (src ++ (rest ++ drop b.size b.memory))
    whole =
        sym (take-append-drop b.size b.memory)
        ∙ rw r.split (rw append_assoc (ap (◌++◌ done) (append_assoc src rest _)))

    bytes : take n (drop s.read_pos b.memory) ≡ src
    bytes =
        ap (λ (t : Bytes). take n (drop s.read_pos t)) whole
        ∙ ap (take n) (drop-append s.read_pos done _ r.here)
        ∙ take-append n src _ e

take_item-Reading :
    (i : Item) (done rest : Bytes) (s : Serializer)
    → Fits i
    → Reading done (encode i ++ rest) s
    → (s' : Serializer) × (take_item (kind i) s ≡ some (i, s')) × Reading (done ++ encode i) rest s'
unfolding take_item encode
take_item-Reading (num w n) done rest s f r =
    let (s', e, r') = read-Reading w done (le_bytes w n) rest s (sym (length-le_bytes w n)) r in
    (s', rw e (rw (from_le-le_bytes w n f)), r')
take_item-Reading (str t) done rest s f r =
    let len = le_bytes 8 (length t) in
    let back = from_le-le_bytes 8 (length t) f in
    let (s', e, r') =
      read-Reading 8 done len (t ++ rest) s (sym (length-le_bytes 8 (length t)))
        (rw append_assoc at r) in
    let (s'', e', r'') = read-Reading (from_le len) (done ++ len) t rest s' back r' in
    (s'', rw e (rw e'), rw append_assoc at r'')

take_all-Reading :
    (is : List Item) (done rest : Bytes) (s : Serializer)
    → All Fits is
    → Reading done (encode_all is ++ rest) s
    → (s' : Serializer) × (take_all (map kind is) s ≡ some (is, s'))
      × Reading (done ++ encode_all is) rest s'
unfolding take_all
take_all-Reading [] done rest s f r = (s, refl, rw append-nil r)
take_all-Reading (i ∷ is) done rest s f r =
    let (s', e, r') =
      take_item-Reading i done (encode_all is ++ rest) s f.0 (rw append_assoc at r) in
    let (s'', e', r'') = take_all-Reading is (done ++ encode i) rest s' f.1 r' in
    (s'', rw e (rw e'), rw append_assoc at r'')

-- A new serializer takes every non-empty list of items that fit their types, and a serializer
-- opened on its buffer gives back those items when asked for their kinds, up to the last byte.
pub take_all-put_all :
    {S : Type 0} (source : BufferSource 16384 S) (st : S) (is : List Item)
    → All Fits is
    → 0 < length (encode_all is)
    → (w : Serializer) × (s : Serializer) × (s' : Serializer) × (first : S) × (last : S)
      × (b : Buffer) × (open_new source st ≡ some (w, first))
      × (put_all source first is w ≡ some (s, last))
      × (s.buffer ≡ some b)
      × (take_all (map kind is) (open_buffer b) ≡ some (is, s'))
      × (s'.read_pos ≡ b.size)
unfolding open_new open_buffer
take_all-put_all {S} source st is fits pos =
    let (b0, first, e0, empty, v0, room) = realloc-room source st 16384 none tt in
    let w : Serializer = record {
      path = [];
      valid = no_data;
      read_pos = 0;
      buffer = some b0;
      buffer_ref = none;
      mode = record { reads = false; writes = true; truncates = false };
      owns_buffer = true;
    } in
    let (old, last, e1, all, v1) = put_all-stored source first is w refl refl v0 in
    let (b, some_b) = filled old (ap length (all ∙ ap (λ (t : Bytes). t ++ encode_all is) empty)) in
    let bytes : contents b ≡ encode_all is =
      (rw some_b at all) ∙ ap (λ (t : Bytes). t ++ encode_all is) empty in
    let valid : IsValid b = rw some_b at v1 in
    let size = length-contents b valid in
    let total = ap length bytes in
    let nonzero : (b.size == 0) ≡ false = ground arith in
    let (s', e2, r) = take_all-Reading is [] [] (open_buffer b) fits (record {
      buffer = b;
      at = rw nonzero;
      split = bytes ∙ sym (append-nil _);
      here = refl;
      valid = valid;
      ready = rw nonzero;
      reads = refl;
    }) in
    (w, record w { buffer = old }, s', first, last, b, rw e0, e1, some_b, e2, omega (arith, r.here))
  where
    filled :
        (old : Option Buffer)
        → length (stored old) ≡ length (encode_all is)
        → (b : Buffer) × (old ≡ some b)
    filled none e = absurd (omega arith)
    filled (some b) e = (b, refl)
